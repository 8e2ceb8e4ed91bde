-- ===== src/Http/Strtoull.antt =====
-- `strtoull` of the C library in bases 10 and 16, as include/http.h calls it, over the bytes of a
-- C string.
use nanoproxy.Prelude.{
  ℕ, ◌+◌, ◌-◌, ◌*◌, ◌%◌, ◌^◌, Bool, true, false, ◌&&◌, ◌||◌, [], ◌∷◌, Bytes, leb, ◌==◌,
  if◌then◌else◌, is_space, is_digit, is_hex_digit,
}

-- the result, what `endptr` points to, and whether `errno` is ERANGE
pub record Parsed : Type 0 where
  pub value : ℕ
  pub rest : Bytes
  pub erange : Bool

unfoldable pub skip_spaces : Bytes → Bytes
skip_spaces [] = []
skip_spaces (c ∷ cs) = let rest = skip_spaces cs in if is_space c then rest else c ∷ cs

-- the value of a digit; for a byte that is none it is not used
unfoldable pub digit_value : ℕ → ℕ
digit_value c = if leb c b'9' then c - b'0' else if leb c b'F' then c - b'A' + 10 else c - b'a' + 10

abbrev pub digit_in : ℕ → ℕ → Bool
digit_in base c = if base == 10 then is_digit c else is_hex_digit c

-- the digits in front, read onto `acc`
unfoldable pub read_digits : ℕ → ℕ → Bytes → Parsed
read_digits base acc [] = record { value = acc; rest = []; erange = leb (2 ^ 64) acc }
read_digits base acc (c ∷ cs) =
    let more = read_digits base (acc * base + digit_value c) cs in
    if digit_in base c
    then more
    else record { value = acc; rest = c ∷ cs; erange = leb (2 ^ 64) acc }

-- behind the sign: with no digit nothing is read; a value out of range is cut to the largest
unfoldable pub unsigned : ℕ → Bool → Bytes → Bytes → Parsed
unsigned base negative s [] = record { value = 0; rest = s; erange = false }
unsigned base negative s (c ∷ cs) =
    if digit_in base c
    then (let r = read_digits base 0 (c ∷ cs) in
        record {
          value =
              (if r.erange
                then 2 ^ 64 - 1
                else if negative
                then (2 ^ 64 - r.value) % 2 ^ 64
                else r.value);
          rest = r.rest;
          erange = r.erange;
        })
    else record { value = 0; rest = s; erange = false }

-- an optional `0x` before hexadecimal digits
unfoldable pub prefixed : ℕ → Bool → Bytes → Bytes → Parsed
prefixed base negative s (z ∷ x ∷ d ∷ cs) =
    if base == 16 && z == b'0' && (x == b'x' || x == b'X') && is_hex_digit d
    then unsigned base negative s (d ∷ cs)
    else unsigned base negative s (z ∷ x ∷ d ∷ cs)
prefixed base negative s t = unsigned base negative s t

unfoldable pub signed : ℕ → Bytes → Bytes → Parsed
signed base s [] = prefixed base false s []
signed base s (c ∷ cs) =
    if c == b'-'
    then prefixed base true s cs
    else if c == b'+'
    then prefixed base false s cs
    else prefixed base false s (c ∷ cs)

unfoldable pub strtoull : ℕ → Bytes → Parsed
unfolding skip_spaces digit_value read_digits unsigned prefixed signed is_space is_digit
    is_hex_digit
strtoull base s = signed base s (skip_spaces s)
