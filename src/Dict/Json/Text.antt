-- ===== src/Dict/Json/Text.antt =====
-- The numbers of JSON texts: decimal digits, and what `snprintf` and `strtod` do with a `double`.
use nanoproxy.Prelude.{
  ℕ, zero, suc, ◌+◌, ◌-◌, ◌/◌, ◌%◌, ◌^◌, ◌≡◌, ◌<◌, Bool, true, Option, none, some, [], ◌∷◌, Bytes,
  ◌||◌, leb, ◌==◌, if◌then◌else◌, length, is_digit, ◌>>=◌,
}

-- the decimal digits of `n` in front of `acc`, `k` of them at most
unfoldable pub digits : ℕ → ℕ → Bytes → Bytes
digits zero n acc = acc
digits (suc k) n acc =
    let d = b'0' + n % 10 in
    let more = digits k (n / 10) (d ∷ acc) in if n / 10 == 0 then d ∷ acc else more

-- `%zu` and `PRId64`
unfoldable pub decimal : ℕ → Bytes
unfolding digits
decimal n = digits 20 n []

unfoldable pub signed_decimal : ℕ → Bytes
unfolding decimal
signed_decimal w = if leb (2 ^ 63) w then b'-' ∷ decimal (2 ^ 64 - w) else decimal w

-- the digits in front are passed over
unfoldable pub skip_digits : Bytes → Bytes
skip_digits [] = []
skip_digits (c ∷ cs) = let rest = skip_digits cs in if is_digit c then rest else c ∷ cs

abbrev pub some_digits : Bytes → Option Bytes
some_digits [] = none
some_digits (c ∷ cs) = if is_digit c then some (skip_digits cs) else none

-- The scan of `dict_parse_number`, part by part: what is left behind each, `none` where it is refused.
abbrev pub skip_minus : Bytes → Bytes
skip_minus [] = []
skip_minus (c ∷ cs) = if c == b'-' then cs else c ∷ cs

abbrev pub skip_integer : Bytes → Option Bytes
skip_integer [] = none
skip_integer (c ∷ cs) = if c == b'0' then some cs else some_digits (c ∷ cs)

abbrev pub skip_fraction : Bytes → Option Bytes
skip_fraction [] = some []
skip_fraction (c ∷ cs) = if c == b'.' then some_digits cs else some (c ∷ cs)

abbrev pub skip_sign : Bytes → Bytes
skip_sign [] = []
skip_sign (c ∷ cs) = if c == b'+' then cs else if c == b'-' then cs else c ∷ cs

abbrev pub skip_exponent : Bytes → Option Bytes
skip_exponent [] = some []
skip_exponent (c ∷ cs) =
    if c == b'e'
    then some_digits (skip_sign cs)
    else if c == b'E'
    then some_digits (skip_sign cs)
    else some (c ∷ cs)

unfoldable pub skip_number : Bytes → Option Bytes
unfolding skip_digits is_digit
skip_number s = skip_integer (skip_minus s) >>= λ a. skip_fraction a >>= λ b. skip_exponent b

-- May the byte go on a number?
unfoldable pub goes_on : ℕ → Bool
unfolding is_digit
goes_on c = is_digit c || c == b'.' || c == b'e' || c == b'E' || c == b'+' || c == b'-'

-- What the C library does with a `double`, given by its bits: `%.17g`, and `strtod` on a text that it
-- takes whole. A finite number is printed as a number of JSON, in less than 64 bytes, and read back.
pub record Doubles : Type 0 where
  pub print : ℕ → Bytes
  pub strtod : Bytes → Option ℕ
  pub is_finite : ℕ → Bool
  pub skip-print : (d : ℕ) → is_finite d ≡ true → skip_number (print d) ≡ some []
  pub print_short : (d : ℕ) → length (print d) < 64
  pub strtod-print : (d : ℕ) → is_finite d ≡ true → strtod (print d) ≡ some d
