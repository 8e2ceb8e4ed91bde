-- ===== src/Dict/Json/Parse/Words.antt =====
-- Numbers and words end inside the text: `dict_parse_number` and `dict_parse_literal`.
use nanoproxy.Prelude.{
  ℕ, suc, ◌-◌, ◌≤◌, ◌<◌, ◌≡◌, refl, subst, Bool, true, false, Option, none, some, [], ◌∷◌, Bytes,
  arith, codes, leb, ◌==◌, if◌then◌else◌, length, take, drop, length-drop, Bool-cases, inl, inr,
  ◌>>=◌,
}
use nanoproxy.Dict.{DictValue, bool, null}
use nanoproxy.Dict.Json.Text.{
  skip_digits, some_digits, skip_minus, skip_integer, skip_fraction, skip_sign, skip_exponent,
  skip_number, Doubles,
}
use nanoproxy.Dict.Json.Parse.{
  Parsed, ok, failed, parse_literal, parse_number, starts_with, invalid_value,
}
use nanoproxy.Dict.Json.Parse.Scan.{Within}

-- the parts of a number
length-skip_digits : (s : Bytes) → length (skip_digits s) ≤ length s
unfolding skip_digits
length-skip_digits [] = omega arith
length-skip_digits (c ∷ cs) = ground (arith, length-skip_digits cs)

-- a scan leaves no more than it had
abbrev Shrinks : ℕ → Option Bytes → Type 0
Shrinks n none = Unit
Shrinks n (some r) = length r ≤ n

some_digits-Shrinks : (s : Bytes) (n : ℕ) → length s ≤ suc n → Shrinks n (some_digits s)
some_digits-Shrinks [] n h = tt
some_digits-Shrinks (c ∷ cs) n h = ground (arith, length-skip_digits cs)

skip_integer-Shrinks : (s : Bytes) (n : ℕ) → length s ≤ suc n → Shrinks n (skip_integer s)
skip_integer-Shrinks [] n h = tt
skip_integer-Shrinks (c ∷ cs) n h = ground (arith, length-skip_digits cs)

skip_fraction-Shrinks : (s : Bytes) (n : ℕ) → length s ≤ n → Shrinks n (skip_fraction s)
skip_fraction-Shrinks [] n h = omega arith
skip_fraction-Shrinks (c ∷ cs) n h = elim (Bool-cases (c == b'.')) [
  | inl e ↦ rw e (some_digits-Shrinks cs n (omega arith))
  | inr e ↦ rw e h
]

length-skip_sign : (s : Bytes) → length (skip_sign s) ≤ length s
length-skip_sign [] = omega arith
length-skip_sign (c ∷ cs) = ground arith

Shrinks-if :
    (n : ℕ) (b : Bool) (x y : Option Bytes)
    → Shrinks n x
    → Shrinks n y
    → Shrinks n (if b then x else y)
Shrinks-if n true x y p q = p
Shrinks-if n false x y p q = q

skip_exponent-Shrinks : (s : Bytes) (n : ℕ) → length s ≤ n → Shrinks n (skip_exponent s)
skip_exponent-Shrinks [] n h = omega arith
skip_exponent-Shrinks (c ∷ cs) n h =
    let digits = some_digits-Shrinks (skip_sign cs) n (omega (arith, length-skip_sign cs)) in
    Shrinks-if n (c == b'e') _ _ digits (Shrinks-if n (c == b'E') _ (some (c ∷ cs)) digits h)

Shrinks-bind :
    (n : ℕ) (o : Option Bytes) (f : Bytes → Option Bytes)
    → Shrinks n o
    → ((a : Bytes) → length a ≤ n → Shrinks n (f a))
    → Shrinks n (o >>= f)
Shrinks-bind n none f p q = tt
Shrinks-bind n (some a) f p q = q a p

skip_number-Shrinks : (c : ℕ) (s : Bytes) → Shrinks (length s) (skip_number (c ∷ s))
unfolding skip_number
skip_number-Shrinks c s =
    let sign : length (skip_minus (c ∷ s)) ≤ suc (length s) = ground arith in
    Shrinks-bind _ (skip_integer (skip_minus (c ∷ s))) _ (skip_integer-Shrinks _ _ sign) (λ a h.
      Shrinks-bind _ (skip_fraction a) _ (skip_fraction-Shrinks a _ h)
        (λ b g. skip_exponent-Shrinks b _ g))

pub Within-option {ℓ κ} :
    {A : Type ℓ} {B : Type κ} (n : ℕ) (o : Option A) (x : Parsed B) (f : A → Parsed B)
    → Within n x
    → ((a : A) → o ≡ some a → Within n (f a))
    → Within n (elim o [ none ↦ x | some a ↦ f a ])
Within-option n none x f p q = p
Within-option n (some a) x f p q = q a refl

pub Within-if {ℓ} :
    {A : Type ℓ} (n : ℕ) (b : Bool) (x y : Parsed A)
    → Within n x
    → Within n y
    → Within n (if b then x else y)
Within-if n true x y p q = p
Within-if n false x y p q = q

module _ (doubles : Doubles) where
  parse_number-Within : (c : ℕ) (s : Bytes) → Within (suc (length s)) (parse_number doubles (c ∷ s))
  unfolding parse_number
  parse_number-Within c s =
      Within-option _ (skip_number (c ∷ s)) (failed none (c ∷ s)) _ (omega arith) (λ rest e.
        let fits : length rest ≤ length s =
          subst (Shrinks (length s)) e (skip_number-Shrinks c s) in
        Within-if _ (leb 64 (length (take (suc (length s) - length rest) (c ∷ s)))) _ _
          (omega arith)
          (Within-option _ (doubles.strtod (take (suc (length s) - length rest) (c ∷ s))) _ _
            (omega arith) (λ d _. omega arith)))

word-Within :
    (b : Bool) (v : DictValue) (k c : ℕ) (s : Bytes) (r : Parsed DictValue)
    → Within (suc (length s)) r
    → Within (suc (length s)) (if b then ok v (drop (suc k) (c ∷ s)) else r)
word-Within true v k c s r w = omega (arith, length-drop k s)
word-Within false v k c s r w = w

parse_literal-Within : (c : ℕ) (s : Bytes) → Within (suc (length s)) (parse_literal (c ∷ s))
unfolding parse_literal
parse_literal-Within c s =
    let t = c ∷ s in
    word-Within (starts_with (codes "true") t) (bool true) 3 c s _ (
      word-Within (starts_with (codes "false") t) (bool false) 4 c s _ (
        word-Within (starts_with (codes "null") t) null 3 c s (failed (some invalid_value) t)
          (omega arith)))

pub parse_literal-Within_all : (s : Bytes) → 0 < length s → Within (length s) (parse_literal s)
parse_literal-Within_all [] h = absurd (omega arith)
parse_literal-Within_all (c ∷ s) h = parse_literal-Within c s

pub parse_number-Within_all :
    (doubles : Doubles) (s : Bytes) → 0 < length s → Within (length s) (parse_number doubles s)
parse_number-Within_all doubles [] h = absurd (omega arith)
parse_number-Within_all doubles (c ∷ s) h = parse_number-Within doubles c s
