-- ===== src/Http/Body/Whole.antt =====
-- The reading of a body keeps the parser's invariant.
use nanoproxy.Prelude.{
  ℕ, ◌+◌, ◌-◌, ◌≤◌, ◌<◌, ◌≡◌, ◌⊎◌, inl, inr, refl, subst, ◌∙◌, Bool, true, false, not, some, Bytes,
  arith, ltb, ◌==◌, if◌then◌else◌, length, Option-cases, Bool-cases,
}
use nanoproxy.StringBuf.Heap.{Alloc}
use nanoproxy.StringBuf.{contents}
use nanoproxy.Http.Table.{Table}
use nanoproxy.Http.Types.{
  body, done, Parser, body_len, Step, continue, return, fault, sub_size, slice, extend,
}
use nanoproxy.Http.Inv.{Inv, Phase, Good, BodyFits, length-extend, length-contents}
use nanoproxy.Http.Body.{shift_rest, chunk_loop, read_plain, read_body}
use nanoproxy.Http.Body.Bounds.{
  ReadAll, InChunks, pos_small, shift_rest-ReadAll, chunk_loop-ReadAll, length-slice,
}

module _ {T : Type 0} (table : Table T) where
  module _ (a : Alloc) where
    ReadAll-Good :
        (buflen : ℕ) (p : Parser T) (s : Step T)
        → p.pos < buflen
        → ReadAll table buflen p s
        → Good table p s
    ReadAll-Good buflen p (continue q) lt (v, inl (e, le)) = (v, inl (e, omega arith))
    ReadAll-Good buflen p (continue q) lt (v, inr d) = (v, inr d)
    ReadAll-Good buflen p (return v q) lt h = h
    ReadAll-Good buflen p fault lt h = absurd h

    -- the parser that has taken `n` more bytes of a plain body, `b` being the whole
    abbrev taken : Parser T → ℕ → Bytes → Parser T
    taken p n b = record p { req_body = some b; pos = p.pos + n }

    after_plain :
        (p : Parser T) (n : ℕ) (b : Bytes)
        → Inv table p
        → p.state ≡ body
        → p.chunked ≡ false
        → p.pos < p.buffer.size
        → n ≤ p.buffer.size - p.pos
        → (n ≡ p.content_length - body_len p) ⊎ (n ≡ p.buffer.size - p.pos)
        → n ≤ p.content_length - body_len p
        → length b ≡ body_len p + n
        → Good table p (
            shift_rest p.buffer.size (
              if length b == p.content_length
              then record (taken p n b) { state = done }
              else taken p n b))
    after_plain p n b v s c lt le which short len =
        let ph = subst (λ t. Phase table t p) s v.phase in
        let fits : BodyFits false (body_len p) p.content_length =
          subst (λ t. BodyFits t (body_len p) p.content_length) c ph.1 in
        elim (Bool-cases (length b == p.content_length)) [
          | inl e ↦
              let w : Inv table (record (taken p n b) { state = done }) = ground arith in
              rw e (
                ReadAll-Good p.buffer.size p _ lt (
                  shift_rest-ReadAll table a p.buffer.size (record (taken p n b) { state = done }) w
                    (inr refl) (pos_small table a _ w)))
          | inr e ↦
              let w : Inv table (taken p n b) = ground arith in
              rw e (
                ReadAll-Good p.buffer.size p _ lt (
                  shift_rest-ReadAll table a p.buffer.size (taken p n b) w (inl (ground arith))
                    (pos_small table a _ w)))
        ]

    read_plain-Good :
        (p : Parser T)
        → Inv table p
        → p.state ≡ body
        → p.chunked ≡ false
        → p.pos < p.buffer.size
        → Good table p (read_plain a p.buffer.size p)
    unfolding read_plain
    read_plain-Good p v s c lt =
        let ph = subst (λ t. Phase table t p) s v.phase in
        let fits : BodyFits false (body_len p) p.content_length =
          subst (λ t. BodyFits t (body_len p) p.content_length) c ph.1 in
        let remaining = sub_size p.content_length (body_len p) in
        let avail = p.buffer.size - p.pos in
        let n = if ltb remaining avail then remaining else avail in
        let piece = slice p.pos n (contents p.buffer) in
        elim (Option-cases (extend a p.req_body piece)) [
          | inl h ↦ ground arith
          | inr (b, h) ↦ ground (
            arith,
            after_plain p n b v s c lt,
            length-extend a p.req_body piece b,
            length-slice p.pos n (contents p.buffer),
            length-contents p.buffer v.buffer_valid,
          )
        ]

    read_body-plain :
        (n : ℕ) (p : Parser T) → p.chunked ≡ false → read_body a n p ≡ some (read_plain a n p)
    unfolding read_body
    read_body-plain n p c = cond_path c
      where
        cond_path :
            {b : Bool}
            → b ≡ false
            → (if not b then some (read_plain a n p) else chunk_loop a (n - p.pos + 1) n p)
              ≡ some (read_plain a n p)
        cond_path {b} e = rw e

    read_body-chunked :
        (n : ℕ) (p : Parser T)
        → p.chunked ≡ true
        → read_body a n p ≡ chunk_loop a (n - p.pos + 1) n p
    unfolding read_body
    read_body-chunked n p c = cond_path c
      where
        cond_path :
            {b : Bool}
            → b ≡ true
            → (if not b then some (read_plain a n p) else chunk_loop a (n - p.pos + 1) n p)
              ≡ chunk_loop a (n - p.pos + 1) n p
        cond_path {b} e = rw e

    -- The reading of a body always ends, and keeps to the parser's invariant.
    pub read_body-Good :
        (p : Parser T)
        → Inv table p
        → p.state ≡ body
        → p.pos < p.buffer.size
        → (s : Step T) × (read_body a p.buffer.size p ≡ some s) × Good table p s
    read_body-Good p v s lt = elim (Bool-cases p.chunked) [
      | inr c ↦ (
        read_plain a p.buffer.size p,
        read_body-plain p.buffer.size p c,
        read_plain-Good p v s c lt,
      )
      | inl c ↦
          let ph = subst (λ t. Phase table t p) s v.phase in
          let fits : BodyFits true (body_len p) p.content_length =
            subst (λ t. BodyFits t (body_len p) p.content_length) c ph.1 in
          let start : InChunks table p.buffer.size p = record {
            inv = v;
            state_is = s;
            chunked_is = c;
            lines = ph.0;
            small_chunk = fits.0;
            fits = fits.1;
            size_is = refl;
          } in
          let (step, e, g) =
            chunk_loop-ReadAll table a (p.buffer.size - p.pos + 1) p.buffer.size p start
              (omega arith) in
          (step, read_body-chunked p.buffer.size p c ∙ e, ReadAll-Good p.buffer.size p step lt g)
    ]
