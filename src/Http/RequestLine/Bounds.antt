-- ===== src/Http/RequestLine/Bounds.antt =====
-- The request line keeps the parser's invariant, and its parts keep to the limits.
use nanoproxy.Prelude.{
  ℕ, ◌+◌, ◌-◌, ◌≤◌, ◌<◌, ◌≡◌, sym, subst, some, [], ◌∷◌, arith, Option-cases, inl, inr,
}
use nanoproxy.StringBuf.Heap.{Alloc}
use nanoproxy.StringBuf.{contents, memchr, find}
use nanoproxy.Http.Table.{Table}
use nanoproxy.Http.Types.{
  Parser, request_line, more, slice, dup, sub_size, max_method_size, max_url_size,
}
use nanoproxy.Http.Inv.{Short, Inv, Phase, Agrees, Reading, Good, memchr_bounds, dup-slice}
use nanoproxy.Http.RequestLine.{
  trimmed_length, version_part, uri_part, method_part, read_request_line,
}

module _ {T : Type 0} (a : Alloc) (table : Table T) where
  version_part-Good :
      (p : Parser T) (e line_len space2 : ℕ)
      → Reading table p
      → p.pos ≤ e
      → e < p.buffer.size
      → Short max_method_size p.method
      → Short max_url_size p.uri
      → Good table p (version_part a p e line_len space2)
  unfolding version_part
  version_part-Good p e line_len space2 v le lt m u =
      let n = sub_size (p.pos + line_len) (space2 + 1) in
      let bytes = slice (space2 + 1) n (contents p.buffer) in
      elim (Option-cases (dup a bytes)) [
        | inl h ↦ ground arith
        | inr (t, h) ↦ ground (arith, dup-slice a (space2 + 1) n (contents p.buffer) t)
      ]

  uri_part-Good :
      (p : Parser T) (e line_len space1 : ℕ)
      → Reading table p
      → p.pos ≤ e
      → e < p.buffer.size
      → Short max_method_size p.method
      → Good table p (uri_part a p e line_len space1)
  unfolding uri_part
  uri_part-Good p e line_len space1 v le lt m =
      elim (Option-cases (find p.buffer (space1 + 1) (b' ' ∷ []))) [
        | inl h ↦ ground arith
        | inr (space2, f) ↦
            let n = space2 - (space1 + 1) in
            elim (Option-cases (dup a (slice (space1 + 1) n (contents p.buffer)))) [
              | inl h ↦ ground arith
              | inr (t, h) ↦ ground (
                arith,
                dup-slice a (space1 + 1) n (contents p.buffer) t,
                version_part-Good (record p { uri = some t }) e line_len space2,
              )
            ]
      ]

  method_part-Good :
      (p : Parser T) (e line_len : ℕ)
      → Reading table p
      → p.pos ≤ e
      → e < p.buffer.size
      → Good table p (method_part a p e line_len)
  unfolding method_part
  method_part-Good p e line_len v le lt = elim (Option-cases (find p.buffer p.pos (b' ' ∷ []))) [
    | inl h ↦ ground arith
    | inr (space1, f) ↦
        let n = space1 - p.pos in
        elim (Option-cases (dup a (slice p.pos n (contents p.buffer)))) [
          | inl h ↦ ground arith
          | inr (t, h) ↦ ground (
            arith,
            dup-slice a p.pos n (contents p.buffer) t,
            uri_part-Good (record p { method = some t }) e line_len space1,
          )
        ]
  ]

  -- The request line leaves the parser in its invariant, on every branch.
  pub read_request_line-Good :
      (p : Parser T) → Inv table p → p.state ≡ request_line → Good table p (read_request_line a p)
  unfolding read_request_line
  read_request_line-Good p v s = elim (Option-cases (memchr p.buffer b'\n' p.pos)) [
    | inl h ↦ rw h (v, subst (λ t. Agrees more t) (sym s) tt)
    | inr (e, h) ↦
        let phase = subst (λ t. Phase table t p) s v.phase in
        let start : Reading table p = record {
          buffer_valid = v.buffer_valid;
          pos_le = v.pos_le;
          few_headers = phase.0;
          bodiless = phase.1;
        } in
        let b = memchr_bounds p.buffer b'\n' p.pos e v.buffer_valid h in
        ground (
          arith,
          h,
          method_part-Good p e (trimmed_length (contents p.buffer) p.pos e) start b.0 b.1,
        )
  ]
