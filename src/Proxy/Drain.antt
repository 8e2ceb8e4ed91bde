-- ===== src/Proxy/Drain.antt =====
-- The end of a pause: what waits for the client is taken, and the upstream server is read again.
use nanoproxy.Prelude.{
  ℕ, ◌+◌, ◌≤◌, ◌<◌, ◌≡◌, refl, subst, ap, ◌∙◌, Bool, true, false, Option, none, some, List, [], ◌∷◌,
  ◌++◌, Bytes, arith, ltb, ◌==◌, if◌then◌else◌, length, take, all, take_all, length-drop,
  and-eq_true, min,
}
use nanoproxy.Proxy.{
  wrote, Events, ev_read, Proxy, Outcome, going, ended, next, is_pending, unsent,
  after_client_write, client_write, on_client_writable,
}
use nanoproxy.Proxy.Buffer.{take-drop-append, unsent_later, length-unsent}

-- write events of the client, which takes these counts at most
unfoldable pub drain_all : List ℕ → Proxy → Outcome
unfolding on_client_writable
drain_all [] p = going p
drain_all (m ∷ ms) p = next (drain_all ms) (on_client_writable (wrote m) p)

-- Nothing waits, the client has these bytes, and both descriptors wait for bytes to read.
pub record IsDrained (s : Bytes) (p : Proxy) : Type 0 where
  pub to_client_eq : p.to_client ≡ s
  pub no_buffer : p.downstream_buf ≡ none
  pub upstream_resumed : p.upstream_events ≡ ev_read
  pub client_reads : p.client_events ≡ ev_read

abbrev pub EndsDrained : Bytes → Outcome → Type 0
EndsDrained s (going q) = IsDrained s q
EndsDrained s (ended q pooled kept) = ⊥

if-Ends :
    (s : Bytes) (ms : List ℕ) (b : Bool) (x y : Outcome)
    → (b ≡ true → EndsDrained s (next (drain_all ms) x))
    → (b ≡ false → EndsDrained s (next (drain_all ms) y))
    → EndsDrained s (next (drain_all ms) (if b then x else y))
if-Ends s ms true x y g h = g refl
if-Ends s ms false x y g h = h refl

drained_stays :
    (s : Bytes) (ms : List ℕ) (p : Proxy) → IsDrained s p → EndsDrained s (drain_all ms p)
unfolding drain_all on_client_writable
drained_stays s [] p d = d
drained_stays s (m ∷ ms) p d =
    if-Ends s ms (is_pending p.downstream_buf p.downstream_sent) _ _ (λ w. absurd (not_pending w))
      (λ w.
        drained_stays s ms (record p { client_events = ev_read })
          (record {
            to_client_eq = d.to_client_eq;
            no_buffer = d.no_buffer;
            upstream_resumed = d.upstream_resumed;
            client_reads = refl;
          }))
  where
    not_pending : is_pending p.downstream_buf p.downstream_sent ≡ true → ⊥
    not_pending w = ground (arith, w, ap (λ o. is_pending o p.downstream_sent) d.no_buffer)

unsent-positive : (o : Option Bytes) (i : ℕ) → is_pending o i ≡ true → 0 < length (unsent o i)
unsent-positive none i w = cc
unsent-positive (some b) i w =
    let less : i < length b = ground arith in omega (arith, less, length-drop i b)

is_pending-lt : (o : Option Bytes) (i n : ℕ) → n < length (unsent o i) → is_pending o (i + n) ≡ true
is_pending-lt none i n h = absurd (omega arith)
is_pending-lt (some b) i n h =
    let less : i + n < length b = omega (arith, h, length-drop i b) in ground arith

if_read : (b : Bool) (x y : Events) → b ≡ true → (if b then x else y) ≡ x
if_read true x y e = refl
if_read false x y e = cc

-- Where bytes wait for the client and the upstream server is paused, as many write events of the client
-- as there are bytes are enough, if the client takes at least one byte at each: then all of them are
-- taken, in order, the buffer is freed, and the upstream server is read again.
pub drain_all-EndsDrained :
    (ms : List ℕ) (p : Proxy)
    → all (ltb 0) ms ≡ true
    → is_pending p.downstream_buf p.downstream_sent ≡ true
    → p.upstream_paused ≡ true
    → length (unsent p.downstream_buf p.downstream_sent) ≤ length ms
    → EndsDrained (p.to_client ++ unsent p.downstream_buf p.downstream_sent) (drain_all ms p)
unfolding drain_all on_client_writable client_write after_client_write
drain_all-EndsDrained [] p some_each waits paused enough =
    absurd (omega (arith, enough, unsent-positive p.downstream_buf p.downstream_sent waits))
drain_all-EndsDrained (m ∷ ms) p some_each waits paused enough =
    let left = unsent p.downstream_buf p.downstream_sent in
    let n = min m (length left) in
    let s = p.to_client ++ left in
    if-Ends s ms (is_pending p.downstream_buf p.downstream_sent) _ _
      (λ w.
        if-Ends s ms (n == length left) _ _
          (λ whole. drained_stays s ms _ (record {
            to_client_eq = ap (λ u. p.to_client ++ u) (take_all n left (ground arith));
            no_buffer = refl;
            upstream_resumed = if_read _ _ _ paused;
            client_reads = refl;
          }))
          (λ part.
            let (one, more) = and-eq_true (ltb 0 m) (all (ltb 0) ms) some_each in
            let less : n < length left = ground arith in
            let positive : 0 < n =
              ground (arith, one, unsent-positive p.downstream_buf p.downstream_sent waits) in
            let q = record p {
              to_client = p.to_client ++ take n left;
              downstream_sent = p.downstream_sent + n;
            } in
            let same : q.to_client ++ unsent q.downstream_buf q.downstream_sent ≡ s =
              ap (λ u. q.to_client ++ u) (unsent_later p.downstream_buf p.downstream_sent n)
              ∙ take-drop-append n p.to_client left in
            subst (λ t. EndsDrained t (drain_all ms q)) same
              (drain_all-EndsDrained ms q more
                (is_pending-lt p.downstream_buf p.downstream_sent n less) paused
                (omega (
                  arith,
                  enough,
                  positive,
                  length-unsent p.downstream_buf p.downstream_sent,
                  length-unsent p.downstream_buf (p.downstream_sent + n),
                )))))
      (λ w. absurd (ground (arith, w, waits)))
