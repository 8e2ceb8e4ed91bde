-- ===== src/Http/Body/Bounds.antt =====
-- A chunked body is read to its end, or to the end of the buffer, within the fuel.
use nanoproxy.Prelude.{
  ℕ, zero, suc, ◌+◌, ◌-◌, ◌^◌, ◌≤◌, ◌<◌, ◌≡◌, ◌⊎◌, inl, inr, refl, ltb→lt, sym, subst, ◌∙◌, true,
  Option, some, Bytes, arith, ltb, ◌==◌, if◌then◌else◌, drop, length, length-take, length-drop,
  Option-cases, Bool-cases,
}
use nanoproxy.StringBuf.Heap.{Alloc}
use nanoproxy.StringBuf.Inv.{IsValid, Held-size, consume-Does}
use nanoproxy.StringBuf.{StringBuf, contents, memchr, consume}
use nanoproxy.Http.Table.{Table}
use nanoproxy.Http.RequestLine.{trimmed_length}
use nanoproxy.Http.Types.{
  body, done, Parser, body_len, Step, continue, return, fault, more, slice, extend, max_body_size,
  max_chunk_size,
}
use nanoproxy.Http.Inv.{Inv, Phase, Lines, Agrees, memchr_bounds, length-extend, length-contents}
use nanoproxy.Http.Body.{
  Chunked, again, leave, exit, chunk_size_of, chunk_line, chunk_data, chunk_round, shift_rest,
  chunk_loop,
}

-- A chunk size that is accepted leaves room for the chunk in the body.
pub chunk_size_of-le :
    (line : Bytes) (have n : ℕ)
    → have ≤ max_body_size
    → chunk_size_of line have ≡ some n
    → (n ≤ max_chunk_size) × (have + n ≤ max_body_size)
unfolding chunk_size_of
chunk_size_of-le line have n le h = ground arith

pub length-slice : (i n : ℕ) (bs : Bytes) → i + n ≤ length bs → length (slice i n bs) ≡ n
length-slice i n bs h = omega (arith, length-take n (drop i bs), length-drop i bs)

module _ {T : Type 0} (table : Table T) where
  -- The parser in the middle of a chunked body, in a buffer of `buflen` bytes.
  pub record InChunks (buflen : ℕ) (p : Parser T) : Type 0 where
    pub inv : Inv table p
    pub state_is : p.state ≡ body
    pub chunked_is : p.chunked ≡ true
    pub lines : Lines table p
    pub small_chunk : p.content_length ≤ max_chunk_size
    pub fits : body_len p + p.content_length ≤ max_body_size
    pub size_is : p.buffer.size ≡ buflen

  -- What a chunked body leaves: all of the buffer is read, or the body is complete.
  abbrev pub ReadAll : ℕ → Parser T → Step T → Type 0
  ReadAll buflen p (continue q) =
      Inv table q × (((q.buffer ≡ p.buffer) × (buflen ≤ q.pos)) ⊎ (q.state ≡ done))
  ReadAll buflen p (return v q) = Inv table q × Agrees v q.state
  ReadAll buflen p fault = ⊥

  -- What one round leaves.
  abbrev RoundGood : ℕ → Parser T → Chunked T → Type 0
  RoundGood buflen p (again q) = InChunks buflen q × (q.buffer ≡ p.buffer) × (p.pos < q.pos)
  RoundGood buflen p (leave q) = Inv table q × (q.state ≡ done) × (q.buffer ≡ p.buffer)
  RoundGood buflen p (exit s) = ReadAll buflen p s

  module _ (a : Alloc) where
    more-ReadAll :
        (buflen : ℕ) (p : Parser T) → InChunks buflen p → ReadAll buflen p (return more p)
    more-ReadAll buflen p v = (v.inv, subst (λ t. Agrees more t) (sym v.state_is) tt)

    chunk_line-RoundGood :
        (buflen : ℕ) (p : Parser T)
        → InChunks buflen p
        → p.content_length ≡ 0
        → RoundGood buflen p (chunk_line a p)
    unfolding chunk_line
    chunk_line-RoundGood buflen p v z = elim (Option-cases (memchr p.buffer b'\n' p.pos)) [
      | inl h ↦ rw h (more-ReadAll buflen p v)
      | inr (e, h) ↦
          let n = trimmed_length (contents p.buffer) p.pos e in
          let line = slice p.pos n (contents p.buffer) in
          let b = memchr_bounds p.buffer b'\n' p.pos e v.inv.buffer_valid h in
          elim (Option-cases (chunk_size_of line (body_len p))) [
            | inl k ↦ rw h (ground arith)
            | inr (size, k) ↦ rw h (ground (arith, chunk_size_of-le line (body_len p) size))
          ]
    ]

    chunk_data-RoundGood :
        (buflen : ℕ) (p : Parser T) → InChunks buflen p → RoundGood buflen p (chunk_data a buflen p)
    unfolding chunk_data
    chunk_data-RoundGood buflen p v =
        let avail = buflen - p.pos in
        let n = if ltb p.content_length (avail - 2) then p.content_length else avail - 2 in
        let buf = contents p.buffer in
        elim (Option-cases (extend a p.req_body (slice p.pos n buf))) [
          | inl h ↦ ground arith
          | inr (b, h) ↦ ground (
            arith,
            length-extend a p.req_body (slice p.pos n buf) b,
            length-slice p.pos n buf,
            length-contents p.buffer v.inv.buffer_valid,
          )
        ]

    chunk_round-RoundGood :
        (buflen : ℕ) (p : Parser T)
        → InChunks buflen p
        → RoundGood buflen p (chunk_round a buflen p)
    unfolding chunk_round
    chunk_round-RoundGood buflen p v = elim (Bool-cases (p.content_length == 0)) [
      | inl e ↦ rw e (chunk_line-RoundGood buflen p v (ground arith))
      | inr e ↦ rw e (chunk_data-RoundGood buflen p v)
    ]

    -- a finished parser stays one in another valid buffer
    done-Inv :
        (p : Parser T) (b : StringBuf) (pos : ℕ)
        → Inv table p
        → p.state ≡ done
        → IsValid b
        → pos ≤ b.size
        → Inv table (record p { buffer = b; pos = pos })
    done-Inv p b pos v d valid le =
        let phase = subst (λ t. Phase table t p) d v.phase in
        record {
          buffer_valid = valid;
          pos_le = le;
          phase =
              subst (λ t. Phase table t (record p { buffer = b; pos = pos })) (sym d)
                (ground arith, phase.1, phase.2);
        }

    pub shift_rest-ReadAll :
        (buflen : ℕ) (p : Parser T)
        → Inv table p
        → (buflen ≤ p.pos) ⊎ (p.state ≡ done)
        → p.pos < 2 ^ 63
        → ReadAll buflen p (shift_rest buflen p)
    unfolding shift_rest
    shift_rest-ReadAll buflen p v (inl end) lt = ground arith
    shift_rest-ReadAll buflen p v (inr d) lt = ground (
      arith,
      done-Inv p (consume p.buffer p.pos) 0 v d
          (consume-Does p.buffer p.pos v.buffer_valid lt).valid (omega arith),
    )

    pub pos_small : (p : Parser T) → Inv table p → p.pos < 2 ^ 63
    pos_small p v = omega (
      arith,
      v.pos_le,
      v.buffer_valid.small,
      Held-size p.buffer.mem p.buffer.size p.buffer.capacity v.buffer_valid.held,
    )

    pub ReadAll-same :
        (buflen : ℕ) (p q : Parser T) (s : Step T)
        → q.buffer ≡ p.buffer
        → ReadAll buflen q s
        → ReadAll buflen p s
    ReadAll-same buflen p q (continue r) e (v, inl (b, le)) = (v, inl (b ∙ e, le))
    ReadAll-same buflen p q (continue r) e (v, inr d) = (v, inr d)
    ReadAll-same buflen p q (return v r) e h = h
    ReadAll-same buflen p q fault e h = h

    -- the steps that the loop can end in from `p`
    abbrev Ends : ℕ → Parser T → Option (Step T) → Type 0
    Ends buflen p o = (s : Step T) × (o ≡ some s) × ReadAll buflen p s

    after_round :
        (fuel buflen : ℕ) (p : Parser T) (r : Chunked T)
        → RoundGood buflen p r
        → ((q : Parser T)
            → InChunks buflen q
            → p.pos < q.pos
            → Ends buflen q (chunk_loop a fuel buflen q))
        → Ends buflen p (elim r [
          | again q ↦ chunk_loop a fuel buflen q
          | leave q ↦ some (shift_rest buflen q)
          | exit s ↦ some s
        ])
    after_round fuel buflen p (again q) h rec =
        let (s, e, g) = rec q h.0 h.2 in (s, e, ReadAll-same buflen p q s h.1 g)
    after_round fuel buflen p (leave q) h rec = (
      shift_rest buflen q,
      refl,
      ReadAll-same buflen p q (shift_rest buflen q) h.2
          (shift_rest-ReadAll buflen q h.0 (inr h.1) (pos_small q h.0)),
    )
    after_round fuel buflen p (exit s) h rec = (s, refl, h)

    -- With more fuel than bytes left the loop ends, with a body that keeps to the invariant.
    pub chunk_loop-ReadAll :
        (fuel buflen : ℕ) (p : Parser T)
        → InChunks buflen p
        → buflen - p.pos < fuel
        → Ends buflen p (chunk_loop a fuel buflen p)
    unfolding chunk_loop
    chunk_loop-ReadAll zero buflen p v lt = elim lt [ ]
    chunk_loop-ReadAll (suc fuel) buflen p v lt = elim (Bool-cases (ltb p.pos buflen)) [
      | inl left ↦ rw left (
          after_round fuel buflen p (chunk_round a buflen p) (chunk_round-RoundGood buflen p v)
            (λ q w l. chunk_loop-ReadAll fuel buflen q w (omega (arith, ltb→lt p.pos buflen left))))
      | inr read ↦ rw read (
        shift_rest buflen p,
        refl,
        shift_rest-ReadAll buflen p v.inv (inl (ground arith)) (pos_small p v.inv),
      )
    ]
