-- ===== src/Http/HeaderLine/Key.antt =====
-- The lower-casing of a header name, and the read outside its block that a NUL in the name causes.
use nanoproxy.Prelude.{
  ℕ, zero, suc, ◌+◌, ◌-◌, ◌≤◌, ◌<◌, ◌≡◌, ◌≢◌, ◌↔◌, refl, sym, ap, ◌∙◌, Option, none, some, [], ◌∷◌,
  ◌++◌, Bytes, arith, c_string, to_lower, length, length-append, take, drop, map, Option-cases, inl,
  inr,
}
use native.Mathlib.Decide.{dec_lt}
use nanoproxy.StringBuf.Heap.{Alloc}
use nanoproxy.StringBuf.{contents, memchr}
use nanoproxy.Http.Table.{Table}
use nanoproxy.Http.Types.{Parser, Step, fault, slice, on_some, dup, sub_size, max_header_name_size}
use nanoproxy.Http.Inv.{dup-eq_some}
use nanoproxy.Http.HeaderLine.{
  trim_start, trim_end, lower_key, store_header, value_part, read_header_line,
}

lower_key-some :
    (n : ℕ) (block : Bytes)
    → n ≤ length block
    → lower_key n block ≡ some (map to_lower (take n block) ++ drop n block)
unfolding lower_key
lower_key-some zero block h = refl
lower_key-some (suc n) [] h = absurd (omega arith)
lower_key-some (suc n) (c ∷ cs) h = rw (lower_key-some n cs (omega arith))

lower_key-none : (n : ℕ) (block : Bytes) → length block < n → lower_key n block ≡ none
unfolding lower_key
lower_key-none zero block h = absurd (omega arith)
lower_key-none (suc n) [] h = refl
lower_key-none (suc n) (c ∷ cs) h = rw (lower_key-none n cs (omega arith))

-- the bytes between the blanks in front of the colon at `colon`
abbrev pub name_start : {T : Type 0} → Parser T → ℕ → ℕ
name_start p colon = trim_start (contents p.buffer) (colon - p.pos) p.pos

abbrev pub name_length : {T : Type 0} → Parser T → ℕ → ℕ
name_length p colon = trim_end (contents p.buffer) (name_start p colon) colon - name_start p colon

abbrev pub header_name : {T : Type 0} → Parser T → ℕ → Bytes
header_name p colon = slice (name_start p colon) (name_length p colon) (contents p.buffer)

module _ {T : Type 0} (a : Alloc) (table : Table T) where
  value_part-ne-fault :
      (p : Parser T) (e colon : ℕ) (key : Bytes) → value_part a table p e colon key ≢ fault
  unfolding value_part store_header
  value_part-ne-fault p e colon key =
      let buf = contents p.buffer in
      let start = trim_start buf (e - (colon + 1)) (colon + 1) in
      let n = sub_size (trim_end buf start e) start in
      elim (Option-cases (dup a (slice start n buf))) [
        | inl h ↦ λ f. ground arith
        | inr (t, h) ↦ λ f. ground arith
      ]

  key_block :
      (p : Parser T) (colon : ℕ) (k : Bytes)
      → dup a (header_name p colon) ≡ some k
      → length (k ++ 0 ∷ []) ≡ length (c_string (header_name p colon)) + 1
  key_block p colon k h =
      omega (arith, length-append k (0 ∷ []), ap length (dup-eq_some a (header_name p colon) k h))

  -- past the tests on the name
  named :
      (p : Parser T) (e colon : ℕ) (k : Bytes)
      → memchr p.buffer b':' p.pos ≡ some colon
      → 0 < name_length p colon
      → name_length p colon ≤ max_header_name_size
      → dup a (header_name p colon) ≡ some k
      → read_header_line a table p e
        ≡ on_some
            (lower_key (name_length p colon) (k ++ 0 ∷ []))
            fault
            (λ low. value_part a table p e colon (c_string low))
  unfolding read_header_line
  named p e colon k m pos short d = ground arith

  -- For a header name of an accepted length that could be copied: reading its line leaves the
  -- memory of the program exactly where a NUL cuts the copy more than one byte short, since the
  -- loop that lowers the case runs over the length of the name and not of the copy.
  pub read_header_line-fault_iff :
      (p : Parser T) (e colon : ℕ) (k : Bytes)
      → memchr p.buffer b':' p.pos ≡ some colon
      → 0 < name_length p colon
      → name_length p colon ≤ max_header_name_size
      → dup a (header_name p colon) ≡ some k
      → (read_header_line a table p e ≡ fault)
        ↔ (length (c_string (header_name p colon)) + 1 < name_length p colon)
  read_header_line-fault_iff p e colon k m pos short d =
      rw (named p e colon k m pos short d) (overrun, cut)
    where
      outcome : Option Bytes → Step T
      outcome o = on_some o fault (λ low. value_part a table p e colon (c_string low))

      block : Bytes
      block = k ++ 0 ∷ []

      cut :
          length (c_string (header_name p colon)) + 1 < name_length p colon
          → outcome (lower_key (name_length p colon) block) ≡ fault
      cut lt =
          ap outcome
            (lower_key-none (name_length p colon) block (omega (arith, key_block p colon k d)))

      overrun :
          outcome (lower_key (name_length p colon) block) ≡ fault
          → length (c_string (header_name p colon)) + 1 < name_length p colon
      overrun f =
          elim (dec_lt (length (c_string (header_name p colon)) + 1) (name_length p colon)) [
            | yes lt ↦ lt
            | no ge ↦
                let low =
                  lower_key-some (name_length p colon) block
                    (omega (arith, key_block p colon k d)) in
                absurd (value_part-ne-fault p e colon _ (ap outcome (sym low) ∙ f))
          ]
