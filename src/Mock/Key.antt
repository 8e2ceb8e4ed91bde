-- ===== src/Mock/Key.antt =====
-- The key of a request is a name for a file.
use nanoproxy.Prelude.{
  ℕ, ◌-◌, ◌<◌, ◌≡◌, refl, Bool, true, false, Option, [], ◌∷◌, ◌++◌, Bytes, codes, arith, map,
  if◌then◌else◌, length, take, all, length-take,
}
use nanoproxy.Mock.{given_or, before_query, is_safe_char, safe_char, make_key}

safe_char-Safe : (c : ℕ) → is_safe_char (safe_char c) ≡ true
unfolding safe_char
safe_char-Safe c = pick (is_safe_char c) refl
  where
    pick : (b : Bool) → is_safe_char c ≡ b → is_safe_char (if b then c else b'_') ≡ true
    pick true e = e
    pick false e = refl

all-map : (s : Bytes) → all is_safe_char (map safe_char s) ≡ true
all-map [] = refl
all-map (c ∷ s) = rw (safe_char-Safe c, all-map s) refl

length-map : (s : Bytes) → length (map safe_char s) ≡ length s
length-map [] = refl
length-map (c ∷ s) = omega (arith, length-map s)

-- Whatever method and URI are, the key has letters, digits, `_`, `-` and `.` only, so no slash, and it fits
-- the buffer with its NUL.
pub make_key_safe :
    (method uri : Option Bytes) (outsz : ℕ)
    → 0 < outsz
    → (all is_safe_char (make_key method uri outsz) ≡ true)
      × (length (make_key method uri outsz) < outsz)
unfolding make_key
make_key_safe method uri outsz h =
    let text =
      given_or method (codes "GET") ++ codes "_" ++ before_query (given_or uri (codes "/")) in
    (
      all-map (take (outsz - 1) text),
      omega (arith, h, length-map (take (outsz - 1) text), length-take (outsz - 1) text),
    )
