-- ===== src/Http/Feed/Total.antt =====
-- Every call of `http_parser_feed` ends, with a verdict that the parser's state agrees to, and
-- keeps the invariant of the parser.
use nanoproxy.Prelude.{
  ℕ, zero, suc, ◌+◌, ◌-◌, ◌≤◌, ◌<◌, ◌≡◌, ◌⊎◌, inl, inr, refl, sym, subst, ap, ◌∙◌, Bool, true,
  false, Option, none, some, ◌++◌, Bytes, arith, ltb, ltb→lt, take, length, length-append,
  Option-cases, some-cancel, Bool-cases, ◌&&◌, and-eq_true,
}
use native.Mathlib.Nat.{le_trans}
use nanoproxy.StringBuf.Heap.{Alloc}
use nanoproxy.StringBuf.Inv.{IsValid, Does, append-Does}
use nanoproxy.StringBuf.{StringBuf, contents, memchr, append}
use nanoproxy.Http.Table.{Table}
use nanoproxy.Http.Types.{
  State, request_line, headers, body, done, error, Parser, more, Step, continue, return, fault,
}
use nanoproxy.Http.Inv.{Inv, Phase, Good, Agrees, Advances, length-contents, memchr_bounds}
use nanoproxy.Http.RequestLine.{read_request_line}
use nanoproxy.Http.RequestLine.Bounds.{read_request_line-Good}
use nanoproxy.Http.HeaderLine.Bounds.{InHeaders, read_header_line-Good}
use nanoproxy.Http.Framing.Bounds.{end_headers-Good}
use nanoproxy.Http.Body.Whole.{read_body-Good}
use nanoproxy.Http.Feed.{
  Outcome, returned, out_of_bounds, no_fuel, verdict_of, is_open, read_headers, round_in, loop,
  feed_appended, feed,
}

verdict_of-Agrees : (s : State) → Agrees (verdict_of s) s
unfolding verdict_of
verdict_of-Agrees done = tt
verdict_of-Agrees error = tt
verdict_of-Agrees request_line = tt
verdict_of-Agrees headers = tt
verdict_of-Agrees body = tt

module _ {T : Type 0} (a : Alloc) (table : Table T) where
  read_headers-Good :
      (p : Parser T) → Inv table p → p.state ≡ headers → Good table p (read_headers a table p)
  unfolding read_headers
  read_headers-Good p v s = elim (Option-cases (memchr p.buffer b'\n' p.pos)) [
    | inl h ↦ rw h (v, subst (λ t. Agrees more t) (sym s) tt)
    | inr (e, h) ↦
        let phase = subst (λ t. Phase table t p) s v.phase in
        let b = memchr_bounds p.buffer b'\n' p.pos e v.buffer_valid h in
        let start : InHeaders a table p e = record {
          inv = v;
          state_is = s;
          lines = phase.0;
          bodiless = phase.1;
          from = b.0;
          below = b.1;
        } in
        ground
          (arith, h, end_headers-Good a table p e start, read_header_line-Good a table p e start)
  ]

  round_in-Good :
      (s : State) (p : Parser T)
      → Inv table p
      → p.state ≡ s
      → is_open s ≡ true
      → p.pos < p.buffer.size
      → (r : Step T) × (round_in a table s p.buffer.size p ≡ some r) × Good table p r
  unfolding round_in is_open
  round_in-Good request_line p v s o lt =
      (read_request_line a p, refl, read_request_line-Good a table p v s)
  round_in-Good headers p v s o lt = (read_headers a table p, refl, read_headers-Good p v s)
  round_in-Good body p v s o lt = read_body-Good table a p v s lt
  round_in-Good done p v s o lt = cc
  round_in-Good error p v s o lt = cc

  -- A call that ended, with a verdict.
  abbrev pub Ended : Outcome T → Type 0
  Ended (returned v q) = Inv table q × Agrees v q.state
  Ended out_of_bounds = Unit
  Ended no_fuel = ⊥

  -- Enough fuel for the loop from `p`.
  abbrev Fueled : ℕ → ℕ → Parser T → Type 0
  Fueled fuel buflen p =
      ((p.buffer.size ≡ buflen) × (buflen - p.pos + 1 < fuel)) ⊎ ((p.state ≡ done) × (0 < fuel))

  after_step :
      (fuel buflen : ℕ) (p : Parser T) (o : Option (Step T))
      → p.buffer.size ≡ buflen
      → p.pos < buflen
      → buflen - p.pos + 1 < suc fuel
      → (r : Step T) × (o ≡ some r) × Good table p r
      → ((q : Parser T) → Inv table q → Fueled fuel buflen q → Ended (loop a table fuel buflen q))
      → Ended (elim o [
        | none ↦ no_fuel
        | some (continue q) ↦ loop a table fuel buflen q
        | some (return v q) ↦ returned v q
        | some fault ↦ out_of_bounds
      ])
  after_step fuel buflen p none size lt f (r, e, g) rec = cc
  after_step fuel buflen p (some (continue q)) size lt f (r, e, g) rec =
      let h : Good table p (continue q) = subst (Good table p) (sym (some-cancel e)) g in
      rec q h.0 (fueled h.1)
    where
      fueled : Advances p q → Fueled fuel buflen q
      fueled (inl (same, further)) = inl (ap (λ b. b.size) same ∙ size, omega arith)
      fueled (inr d) = inr (d, omega arith)
  after_step fuel buflen p (some (return v q)) size lt f (r, e, g) rec =
      subst (Good table p) (sym (some-cancel e)) g
  after_step fuel buflen p (some fault) size lt f (r, e, g) rec = tt

  loop-Ended :
      (fuel buflen : ℕ) (p : Parser T)
      → Inv table p
      → Fueled fuel buflen p
      → Ended (loop a table fuel buflen p)
  unfolding loop
  loop-Ended zero buflen p v (inl (e, lt)) = absurd (omega arith)
  loop-Ended zero buflen p v (inr (d, lt)) = absurd (omega arith)
  loop-Ended (suc fuel) buflen p v (inr (d, lt)) =
      let stop : (is_open p.state && ltb p.pos buflen) ≡ false =
        subst (λ t. (is_open t && ltb p.pos buflen) ≡ false) (sym d) (unfold is_open in refl) in
      rw stop (v, verdict_of-Agrees p.state)
  loop-Ended (suc fuel) buflen p v (inl (e, lt)) =
      elim (Bool-cases (is_open p.state && ltb p.pos buflen)) [
        | inr stop ↦ rw stop (v, verdict_of-Agrees p.state)
        | inl go ↦
            let (open_state, left) = and-eq_true (is_open p.state) (ltb p.pos buflen) go in
            let below = ltb→lt p.pos buflen left in
            rw go (
              after_step fuel buflen p (round_in a table p.state buflen p) e below lt
                (subst
                  (λ n. (r : Step T) × (round_in a table p.state n p ≡ some r) × Good table p r) e
                  (round_in-Good p.state p v refl open_state (rw e below)))
                (λ q w f. loop-Ended fuel buflen q w f))
      ]

  -- the invariant over another buffer, and another place in it
  Phase-buffer :
      (s : State) (p : Parser T) (b : StringBuf)
      → Phase table s p
      → Phase table s (record p { buffer = b })
  Phase-buffer request_line p b h = (h.0, ground arith)
  Phase-buffer headers p b h = ground arith
  Phase-buffer body p b h = (ground arith, h.1)
  Phase-buffer done p b h = (ground arith, h.1, h.2)
  Phase-buffer error p b h = tt

  feed_appended-Ended :
      (out : Bool × StringBuf) (p : Parser T)
      → Inv table p
      → IsValid out.1
      → p.buffer.size ≤ out.1.size
      → Ended (feed_appended a table out p)
  unfolding feed_appended
  feed_appended-Ended (false, b) p v valid le =
      (record { buffer_valid = valid; pos_le = le_trans v.pos_le le; phase = tt }, tt)
  feed_appended-Ended (true, b) p v valid le =
      loop-Ended (b.size - p.pos + 2) b.size (record p { buffer = b })
        (record {
          buffer_valid = valid;
          pos_le = le_trans v.pos_le le;
          phase = Phase-buffer p.state p b v.phase;
        })
        (inl (refl, omega arith))

  appended_size :
      (sb : StringBuf) (src : Bytes) (out : Bool × StringBuf)
      → IsValid sb
      → Does sb (contents sb ++ src) out
      → sb.size ≤ out.1.size
  appended_size sb src (false, b) v d =
      omega (arith, length-contents sb v, length-contents b d.valid, ap length d.bytes)
  appended_size sb src (true, b) v d = omega (
    arith,
    length-contents sb v,
    length-contents b d.valid,
    ap length d.bytes,
    length-append (contents sb) src,
  )

  -- `http_parser_feed` on a parser in its invariant, with `len` bytes of data that are there, always
  -- ends, whatever the bytes are: unless it leaves its memory, it returns a verdict that the state
  -- of the parser agrees to, and the parser is in its invariant again.
  pub feed-Ended :
      (p : Parser T) (bytes : Bytes) (len : ℕ)
      → Inv table p
      → len ≤ length bytes
      → Ended (feed a table p (some bytes) len)
  unfolding feed
  feed-Ended p bytes len v le =
      let d = append-Does a p.buffer bytes len v.buffer_valid le in
      feed_appended-Ended (append a p.buffer (some bytes) len) p v d.valid (
        appended_size p.buffer (take len bytes) (append a p.buffer (some bytes) len) v.buffer_valid
          d)
