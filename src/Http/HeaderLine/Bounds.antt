-- ===== src/Http/HeaderLine/Bounds.antt =====
-- A header line keeps the parser's invariant.
use nanoproxy.Prelude.{
  ℕ, ◌+◌, ◌-◌, ◌≤◌, ◌<◌, ◌≡◌, ◌++◌, [], ◌∷◌, Bytes, arith, Option-cases, inl, inr, c_string,
}
use nanoproxy.StringBuf.Heap.{Alloc}
use nanoproxy.StringBuf.{contents, memchr}
use nanoproxy.Http.Table.{Table}
use nanoproxy.Http.Types.{Parser, headers, slice, dup, sub_size}
use nanoproxy.Http.Inv.{Lines, Bodiless, Inv, Good}
use nanoproxy.Http.HeaderLine.{
  trim_start, trim_end, lower_key, store_header, value_part, read_header_line,
}

module _ {T : Type 0} (a : Alloc) (table : Table T) where
  -- What a header line finds and keeps.
  pub record InHeaders (p : Parser T) (e : ℕ) : Type 0 where
    pub inv : Inv table p
    pub state_is : p.state ≡ headers
    pub lines : Lines table p
    pub bodiless : Bodiless p
    pub from : p.pos ≤ e
    pub below : e < p.buffer.size

  store_header-Good :
      (p : Parser T) (e : ℕ) (key value : Bytes)
      → InHeaders p e
      → Good table p (store_header a table p e key value)
  unfolding store_header
  store_header-Good p e key value v = ground arith

  value_part-Good :
      (p : Parser T) (e colon : ℕ) (key : Bytes)
      → InHeaders p e
      → Good table p (value_part a table p e colon key)
  unfolding value_part
  value_part-Good p e colon key v =
      let buf = contents p.buffer in
      let start = trim_start buf (e - (colon + 1)) (colon + 1) in
      let n = sub_size (trim_end buf start e) start in
      elim (Option-cases (dup a (slice start n buf))) [
        | inl h ↦ ground arith
        | inr (t, h) ↦ ground (arith, store_header-Good p e key t v)
      ]

  -- A header line that ends at `e` leaves the parser in its invariant, on every branch.
  pub read_header_line-Good :
      (p : Parser T) (e : ℕ) → InHeaders p e → Good table p (read_header_line a table p e)
  unfolding read_header_line
  read_header_line-Good p e v = elim (Option-cases (memchr p.buffer b':' p.pos)) [
    | inl h ↦ ground arith
    | inr (colon, h) ↦
        let buf = contents p.buffer in
        let start = trim_start buf (colon - p.pos) p.pos in
        let n = trim_end buf start colon - start in
        elim (Option-cases (dup a (slice start n buf))) [
          | inl k ↦ ground arith
          | inr (t, k) ↦ elim (Option-cases (lower_key n (t ++ 0 ∷ []))) [
            | inl l ↦ ground arith
            | inr (low, l) ↦ ground (arith, value_part-Good p e colon (c_string low) v)
          ]
        ]
  ]
