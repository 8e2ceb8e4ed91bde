-- ===== src/Dict/Json/Parse/Scan.antt =====
-- White space, comments and strings end inside the text: `dict_parser_skip_whitespace` and `dict_parse_json_string`.
use nanoproxy.Prelude.{
  ℕ, zero, suc, ◌+◌, ◌*◌, ◌≤◌, ◌<◌, Bool, true, false, Option, none, some, [], ◌∷◌, ◌++◌, Bytes,
  arith, ltb, ◌==◌, if◌then◌else◌, length, Bool-cases, inl, inr,
}
use nanoproxy.Dict.Json.Parse.{
  Parsed, ok, failed, no_fuel, bind, skip_whitespace, skip_slash, skip_line, skip_block, Char,
  character, closed, refused, invalid_hex, incomplete_unicode, invalid_escape, control_character,
  simple_escape, hex_value, read_hex, escaped_char, next_char, read_chars, parse_string,
}

-- the result of reading from `n` bytes: it takes one at least, and an error lies within them
abbrev pub Within {ℓ} : {A : Type ℓ} → ℕ → Parsed A → Type 0
Within n (ok a rest) = length rest < n
Within n (failed m rest) = length rest ≤ n
Within n no_fuel = ⊥

pub Within-le {ℓ} : {A : Type ℓ} (n m : ℕ) (r : Parsed A) → Within n r → n ≤ m → Within m r
Within-le n m (ok a rest) w h = omega arith
Within-le n m (failed e rest) w h = omega arith
Within-le n m no_fuel w h = w

pub Within-bind {ℓ κ} :
    {A : Type ℓ} {B : Type κ} (n : ℕ) (r : Parsed A) (f : A → Bytes → Parsed B)
    → Within n r
    → ((a : A) (rest : Bytes) → length rest < n → Within n (f a rest))
    → Within n (bind r f)
Within-bind n (ok a rest) f w k = k a rest w
Within-bind n (failed e rest) f w k = w
Within-bind n no_fuel f w k = w

mutual
  unfolding skip_whitespace

  pub length-skip_whitespace : (s : Bytes) → length (skip_whitespace s) ≤ length s
  length-skip_whitespace [] = omega arith
  length-skip_whitespace (c ∷ cs) = ground (arith, length-skip_whitespace cs, length-skip_slash cs)

  length-skip_slash : (s : Bytes) → length (skip_slash s) ≤ suc (length s)
  length-skip_slash [] = omega arith
  length-skip_slash (c ∷ cs) = ground (arith, length-skip_line cs, length-skip_block cs)

  length-skip_line : (s : Bytes) → length (skip_line s) ≤ length s
  length-skip_line [] = omega arith
  length-skip_line (c ∷ cs) = ground (arith, length-skip_line cs, length-skip_whitespace cs)

  length-skip_block : (s : Bytes) → length (skip_block s) ≤ length s
  length-skip_block [] = omega arith
  length-skip_block (c ∷ []) = ground arith
  length-skip_block (c ∷ d ∷ cs) =
      ground (arith, length-skip_block (d ∷ cs), length-skip_whitespace cs)

-- what one round over a string leaves of `n` bytes
abbrev Taken : ℕ → Char → Type 0
Taken n (character c rest) = length rest < n
Taken n (closed rest) = length rest < n
Taken n (refused m rest) = length rest ≤ n

Taken-option :
    (n : ℕ) (o : Option ℕ) (a : Char) (f : ℕ → Char)
    → Taken n a
    → ((v : ℕ) → Taken n (f v))
    → Taken n (elim o [ none ↦ a | some v ↦ f v ])
Taken-option n none a f p q = p
Taken-option n (some v) a f p q = q v

Taken-if : (n : ℕ) (b : Bool) (x y : Char) → Taken n x → Taken n y → Taken n (if b then x else y)
Taken-if n true x y p q = p
Taken-if n false x y p q = q

read_hex-Taken : (k acc : ℕ) (s : Bytes) (n : ℕ) → length s < n → Taken n (read_hex k acc s)
unfolding read_hex
read_hex-Taken zero acc s n h = h
read_hex-Taken (suc k) acc [] n h = omega arith
read_hex-Taken (suc k) acc (c ∷ s) n h =
    Taken-option n (hex_value c) (refused invalid_hex s) (λ v. read_hex k (acc * 16 + v) s)
      (omega arith) (λ v. read_hex-Taken k (acc * 16 + v) s n (omega arith))

escaped_char-Taken : (s : Bytes) → Taken (suc (length s)) (escaped_char s)
unfolding escaped_char
escaped_char-Taken [] = omega arith
escaped_char-Taken (e ∷ s) =
    Taken-if _ (e == b'u') _ _
      (Taken-if _ (ltb (length s) 4) (refused incomplete_unicode s) (read_hex 4 0 s) (omega arith)
        (read_hex-Taken 4 0 s _ (omega arith)))
      (Taken-option _ (simple_escape e) (refused invalid_escape s) (λ d. character d s)
        (omega arith) (λ d. omega arith))

next_char-Taken : (s : Bytes) → Taken (length s) (next_char s)
unfolding next_char
next_char-Taken [] = omega arith
next_char-Taken (c ∷ s) = Taken-if _ (c == b'"') (closed s) _ (omega arith) (
    Taken-if _ (c == b'\\') (escaped_char s) _ (escaped_char-Taken s) (
      Taken-if _ (ltb c 32) (refused control_character s) (character c s) (omega arith)
        (omega arith)))

read_chars-Within :
    (fuel : ℕ) (out s : Bytes) (n : ℕ)
    → length s < fuel
    → length s ≤ n
    → Within n (read_chars fuel out s)
unfolding read_chars
read_chars-Within zero out s n h l = absurd (omega arith)
read_chars-Within (suc fuel) out s n h l =
    go (next_char s) (next_char-Taken s)
      (λ o rest k. read_chars-Within fuel o rest n (omega arith) (omega arith))
  where
    go :
        (c : Char)
        → Taken (length s) c
        → ((o rest : Bytes) → length rest < length s → Within n (read_chars fuel o rest))
        → Within n (elim c [
          | character d rest ↦ read_chars fuel (out ++ d ∷ []) rest
          | closed rest ↦ ok out rest
          | refused m rest ↦ failed (some m) rest
        ])
    go (character d rest) t ih = ih (out ++ d ∷ []) rest t
    go (closed rest) t ih = omega arith
    go (refused m rest) t ih = omega arith

pub parse_string-Within : (s : Bytes) → Within (length s) (parse_string s)
unfolding parse_string
parse_string-Within [] = omega arith
parse_string-Within (c ∷ s) = elim (Bool-cases (c == b'"')) [
  | inl e ↦
      rw e (read_chars-Within (length s + 1) [] s (suc (length s)) (omega arith) (omega arith))
  | inr e ↦ rw e (omega arith)
]
