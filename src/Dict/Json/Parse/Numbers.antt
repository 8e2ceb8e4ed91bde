-- ===== src/Dict/Json/Parse/Numbers.antt =====
-- The scan of a number stops where the number does, and a printed `double` is read back.
use nanoproxy.Prelude.{
  ℕ, ◌-◌, ◌≡◌, refl, sym, ap, ◌∙◌, true, false, ◌||◌, Option, none, some, [], ◌∷◌, ◌++◌, Bytes,
  arith, leb, ◌==◌, if◌then◌else◌, length, take, is_digit, length-append, take-append, append-nil,
  ◌>>=◌,
}
use nanoproxy.Dict.Json.Text.{
  skip_digits, some_digits, skip_minus, skip_integer, skip_fraction, skip_sign, skip_exponent,
  skip_number, goes_on, Doubles,
}
use nanoproxy.Dict.Json.Parse.{Parsed, number_too_long, invalid_number, ok, failed, parse_number}

-- no number goes on in the text
abbrev pub Stops : Bytes → Type 0
Stops [] = Unit
Stops (c ∷ cs) = goes_on c ≡ false

skip_digits-append : (s rest : Bytes) → Stops rest → skip_digits (s ++ rest) ≡ skip_digits s ++ rest
unfolding skip_digits goes_on
skip_digits-append [] [] h = refl
skip_digits-append [] (c ∷ cs) h = ground arith
skip_digits-append (c ∷ cs) rest h = ground (arith, skip_digits-append cs rest h)

some_digits-append :
    (s rest u : Bytes)
    → Stops rest
    → some_digits s ≡ some u
    → some_digits (s ++ rest) ≡ some (u ++ rest)
some_digits-append [] rest u h e = cc
some_digits-append (c ∷ cs) rest u h e = ground (arith, skip_digits-append cs rest h)

skip_minus-append : (s rest : Bytes) → Stops rest → skip_minus (s ++ rest) ≡ skip_minus s ++ rest
unfolding goes_on
skip_minus-append [] [] h = refl
skip_minus-append [] (c ∷ cs) h = ground arith
skip_minus-append (c ∷ cs) rest h = ground arith

skip_integer-append :
    (s rest u : Bytes)
    → Stops rest
    → skip_integer s ≡ some u
    → skip_integer (s ++ rest) ≡ some (u ++ rest)
skip_integer-append [] rest u h e = cc
skip_integer-append (c ∷ cs) rest u h e = ground (arith, some_digits-append (c ∷ cs) rest u h)

skip_fraction-append :
    (s rest u : Bytes)
    → Stops rest
    → skip_fraction s ≡ some u
    → skip_fraction (s ++ rest) ≡ some (u ++ rest)
unfolding goes_on
skip_fraction-append [] [] u h e = e ∙ ap some (sym (append-nil u))
skip_fraction-append [] (c ∷ cs) u h e = ground arith
skip_fraction-append (c ∷ cs) rest u h e = ground (arith, some_digits-append cs rest u h)

skip_sign-append : (s rest : Bytes) → Stops rest → skip_sign (s ++ rest) ≡ skip_sign s ++ rest
unfolding goes_on
skip_sign-append [] [] h = refl
skip_sign-append [] (c ∷ cs) h = ground arith
skip_sign-append (c ∷ cs) rest h = ground arith

skip_exponent-append :
    (s rest u : Bytes)
    → Stops rest
    → skip_exponent s ≡ some u
    → skip_exponent (s ++ rest) ≡ some (u ++ rest)
unfolding goes_on
skip_exponent-append [] [] u h e = e ∙ ap some (sym (append-nil u))
skip_exponent-append [] (c ∷ cs) u h e = ground arith
skip_exponent-append (c ∷ cs) rest u h e =
    ground (arith, some_digits-append (skip_sign cs) rest u h, skip_sign-append cs rest h)

skip_number-append :
    (s rest u : Bytes)
    → Stops rest
    → skip_number s ≡ some u
    → skip_number (s ++ rest) ≡ some (u ++ rest)
unfolding skip_number
skip_number-append s rest u h e =
    ap skip_rest (skip_minus-append s rest h) ∙ go (skip_integer (skip_minus s)) refl e
  where
    skip_rest : Bytes → Option Bytes
    skip_rest t = skip_integer t >>= λ a. skip_fraction a >>= λ b. skip_exponent b

    fraction :
        (a : Bytes) (o : Option Bytes)
        → skip_fraction a ≡ o
        → (o >>= λ b. skip_exponent b) ≡ some u
        → (skip_fraction (a ++ rest) >>= λ b. skip_exponent b) ≡ some (u ++ rest)
    fraction a none p q = cc
    fraction a (some b) p q =
        ap (λ o. o >>= λ b. skip_exponent b) (skip_fraction-append a rest b h p)
        ∙ skip_exponent-append b rest u h q

    go :
        (o : Option Bytes)
        → skip_integer (skip_minus s) ≡ o
        → (o >>= λ a. skip_fraction a >>= λ b. skip_exponent b) ≡ some u
        → skip_rest (skip_minus s ++ rest) ≡ some (u ++ rest)
    go none p q = cc
    go (some a) p q =
        ap (λ o. o >>= λ a. skip_fraction a >>= λ b. skip_exponent b)
          (skip_integer-append (skip_minus s) rest a h p)
        ∙ fraction a (skip_fraction a) refl q

-- `dict_parse_number` reads a printed finite number back, whatever follows that does not go on with it.
pub parse_number-print :
    (doubles : Doubles) (d : ℕ) (rest : Bytes)
    → doubles.is_finite d ≡ true
    → Stops rest
    → parse_number doubles (doubles.print d ++ rest) ≡ ok d rest
unfolding parse_number
parse_number-print doubles d rest f h =
    let t = doubles.print d in
    let scan = skip_number-append t rest [] h (doubles.skip-print d f) in
    let size : length (t ++ rest) - length rest ≡ length t = omega (arith, length-append t rest) in
    let text : take (length (t ++ rest) - length rest) (t ++ rest) ≡ t =
      ap (λ k. take k (t ++ rest)) size ∙ take-append t rest in
    let short : leb 64 (length t) ≡ false = ground (arith, doubles.print_short d) in
    ap (behind (t ++ rest)) scan
    ∙ ap (read rest (t ++ rest)) text
    ∙ rw (short, doubles.strtod-print d f) refl
  where
    read : Bytes → Bytes → Bytes → Parsed ℕ
    read left s text =
        if leb 64 (length text)
        then failed (some number_too_long) s
        else elim (doubles.strtod text) [
          | none ↦ failed (some invalid_number) s
          | some n ↦ ok n left
        ]

    behind : Bytes → Option Bytes → Parsed ℕ
    behind s none = failed none s
    behind s (some left) = read left s (take (length s - length left) s)

-- a number begins with a sign or a digit
pub number_head :
    (s u : Bytes)
    → skip_number s ≡ some u
    → (c : ℕ) × (t : Bytes) × (s ≡ c ∷ t) × ((c == b'-' || is_digit c) ≡ true)
unfolding skip_number is_digit
number_head [] u e = cc
number_head (c ∷ t) u e = (c, t, refl, ground arith)
