-- ===== src/Http/Framing/Bounds.antt =====
-- The end of the headers keeps the parser's invariant.
use nanoproxy.Prelude.{ℕ, ◌≤◌, ◌≡◌, some, Bytes, arith, Option-cases, inl, inr}
use nanoproxy.StringBuf.Heap.{Alloc}
use nanoproxy.Http.Table.{Table}
use nanoproxy.Http.Types.{Parser, max_body_size}
use nanoproxy.Http.Inv.{Good}
use nanoproxy.Http.HeaderLine.Bounds.{InHeaders}
use nanoproxy.Http.Framing.{
  content_length_key, transfer_encoding_key, content_length_of, end_headers, after_headers,
}

pub content_length_of-le :
    (value : Bytes) (n : ℕ) → content_length_of value ≡ some n → n ≤ max_body_size
unfolding content_length_of
content_length_of-le value n h = ground arith

module _ {T : Type 0} (a : Alloc) (table : Table T) where
  pub end_headers-Good :
      (p : Parser T) (e : ℕ) → InHeaders a table p e → Good table p (end_headers table p e)
  unfolding end_headers after_headers
  end_headers-Good p e v = elim (Option-cases (table.get content_length_key p.fields)) [
    | inl h ↦ elim (Option-cases (table.get transfer_encoding_key p.fields)) [
      | inl k ↦ ground arith
      | inr (value, k) ↦ ground arith
    ]
    | inr (value, h) ↦ elim (Option-cases (content_length_of value)) [
      | inl k ↦ ground arith
      | inr (n, k) ↦ ground (arith, content_length_of-le value n)
    ]
  ]
