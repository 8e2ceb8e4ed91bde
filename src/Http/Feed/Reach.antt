-- ===== src/Http/Feed/Reach.antt =====
-- The parsers that the program can have: made, fed, drained, reset, and switched to streaming.
use nanoproxy.Prelude.{
  ℕ, ◌≤◌, ◌≡◌, subst, Bool, none, some, Bytes, arith, length, Option-cases, inl, inr,
}
use nanoproxy.StringBuf.Heap.{Alloc}
use nanoproxy.StringBuf.Refine.{init_str-IsValid}
use nanoproxy.StringBuf.{init}
use nanoproxy.Http.Table.{Table}
use nanoproxy.Http.Types.{
  State, request_line, headers, body, done, error, Parser, body_len, Verdict, max_headers,
  max_body_size, max_method_size, max_url_size, max_http_version_size,
}
use nanoproxy.Http.Inv.{Inv, Phase, Short, BodyWhole}
use nanoproxy.Http.Feed.{returned, parser_init, parser_reset, drain_body, feed}
use nanoproxy.Http.Feed.Total.{Ended, feed-Ended}

module _ {T : Type 0} (a : Alloc) (table : Table T) where
  -- `http_parser_feed` is called with data that is there, and returns.
  pub data Reach : Parser T → Type 0 where
    fresh : (fd : ℕ) → Reach (parser_init a table fd)
    fed :
        {p : Parser T} {v : Verdict} {q : Parser T} (bytes : Bytes) (len : ℕ)
        → Reach p
        → len ≤ length bytes
        → feed a table p (some bytes) len ≡ returned v q
        → Reach q
    drained : {p : Parser T} → Reach p → Reach (drain_body p).1
    switched : {p : Parser T} (on : Bool) → Reach p → Reach (record p { streaming_body = on })
    again : {p : Parser T} → Reach p → Reach (parser_reset a table p)

  parser_init-Inv : (fd : ℕ) → Inv table (parser_init a table fd)
  unfolding parser_init init
  parser_init-Inv fd = elim (Option-cases (init a 0)) [
    | inl h ↦ rw h (ground (arith, table.len-empty))
    | inr (b, h) ↦
        let made = init_str-IsValid a none 0 0 (omega arith) h in
        rw h (ground (arith, table.len-empty, made.0))
  ]

  moved-Inv :
      (s : State) (p : Parser T) (pos : ℕ) (on : Bool)
      → Phase table s p
      → Phase table s (record p { pos = pos; streaming_body = on })
  moved-Inv request_line p pos on h = (h.0, ground arith)
  moved-Inv headers p pos on h = ground arith
  moved-Inv body p pos on h = (ground arith, h.1)
  moved-Inv done p pos on h = (ground arith, h.1, h.2)
  moved-Inv error p pos on h = tt

  drain_body-Inv : (p : Parser T) → Inv table p → Inv table (drain_body p).1
  unfolding drain_body
  drain_body-Inv p v = ground (arith, moved-Inv p.state p p.buffer.size p.streaming_body v.phase)

  -- Every parser that the program can have is in its invariant.
  pub Reach-Inv : {p : Parser T} → Reach p → Inv table p
  Reach-Inv (fresh fd) = parser_init-Inv fd
  Reach-Inv (fed {p} bytes len r le e) =
      (subst (Ended a table) e (feed-Ended a table p bytes len (Reach-Inv r) le)).0
  Reach-Inv (drained {p} r) = drain_body-Inv p (Reach-Inv r)
  Reach-Inv (switched {p} on r) =
      let v = Reach-Inv r in
      record {
        buffer_valid = v.buffer_valid;
        pos_le = v.pos_le;
        phase = moved-Inv p.state p p.pos on v.phase;
      }
  Reach-Inv (again {p} r) = unfold parser_reset in parser_init-Inv p.fd

  -- A parser that the program can have, whatever bytes it was fed and in whatever pieces, holds a
  -- complete request only with a method of at most 16 bytes, a URI of at most 4096, a version of at
  -- most 8, at most 128 headers and a body of at most 64 MiB, as long as its Content-Length says
  -- where it is not chunked.
  pub Reach-done :
      {p : Parser T}
      → Reach p
      → p.state ≡ done
      → Short max_method_size p.method
        × Short max_url_size p.uri
        × Short max_http_version_size p.version
        × (table.len p.fields ≤ max_headers)
        × (body_len p ≤ max_body_size)
        × BodyWhole p.chunked (body_len p) p.content_length
  Reach-done {p} r d =
      let h = subst (λ t. Phase table t p) d (Reach-Inv r).phase in
      (h.0.method_short, h.0.uri_short, h.0.version_short, h.0.few_headers, h.1, h.2)
