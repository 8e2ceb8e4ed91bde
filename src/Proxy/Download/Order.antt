-- ===== src/Proxy/Download/Order.antt =====
-- The order of a response's bytes, and what the client's own bytes do to it.
use nanoproxy.Prelude.{
  ℕ, ◌+◌, ◌≤◌, ◌≡◌, refl, sym, subst, ap, ◌∙◌, Bool, true, false, Option, none, some, List, [], ◌∷◌,
  ◌++◌, Bytes, arith, ltb, ◌==◌, if◌then◌else◌, length, take, take_all, append_assoc, append-nil,
  min, Bool-cases, inl, inr,
}
use nanoproxy.Proxy.{
  Wrote, wrote, again, broke, Proxy, Outcome, going, ended, next, cleanup, is_pending, unsent,
  buffer, hold_rest, deliver, after_client_write, client_write, on_client_writable,
}
use nanoproxy.Proxy.Buffer.{if-Holds, take-drop-append, unsent-empty, unsent_later, length-unsent}
use nanoproxy.Proxy.Relay.{Got, got, got_again, got_end, Memory, on_upstream_read}
use nanoproxy.Proxy.Download.{
  Event, upstream_read, client_writable, step, run, got_bytes, read_by, while_going, received,
}

-- the bytes taken by the client and those that wait for it, in their order
abbrev pub downloaded : Proxy → Bytes
downloaded p = p.to_client ++ unsent p.downstream_buf p.downstream_sent

-- While something waits for the client, nothing more is read for it.
pub record IsPaused (p : Proxy) : Type 0 where
  pub raw : p.keepalive_enabled ≡ false
  pub sent_le : p.downstream_sent ≤ length (buffer p.downstream_buf)
  pub paused : is_pending p.downstream_buf p.downstream_sent ≡ true → p.upstream_events.read ≡ false

-- The outcome, if the connection goes on, has downloaded these bytes.
abbrev pub Downloads : Bytes → Outcome → Type 0
Downloads s (going q) = IsPaused q × (downloaded q ≡ s)
Downloads s (ended q pooled kept) = Unit

hold_rest-Downloads :
    (room : Bool) (n : ℕ) (b : Bytes) (p : Proxy)
    → n ≤ length b
    → p.keepalive_enabled ≡ false
    → is_pending p.downstream_buf p.downstream_sent ≡ false
    → p.downstream_sent ≤ length (buffer p.downstream_buf)
    → Downloads (p.to_client ++ b) (hold_rest room n b p)
unfolding hold_rest cleanup
hold_rest-Downloads room n b p h raw e le =
    if-Holds (Downloads (p.to_client ++ b)) (ltb n (length b)) _ _
      (λ less.
        if-Holds (Downloads (p.to_client ++ b)) room _ _
          (λ r. (
            record { raw = raw; sent_le = omega arith; paused = λ w. refl },
            take-drop-append n p.to_client b,
          ))
          (λ r. tt))
      (λ all_taken. (
        record { raw = raw; sent_le = le; paused = λ w. absurd (ground (arith, w, e)) },
        ap (λ u. (p.to_client ++ take n b) ++ u) (unsent-empty p.downstream_buf p.downstream_sent e)
            ∙ append-nil (p.to_client ++ take n b)
            ∙ ap (λ u. p.to_client ++ u) (take_all n b (ground arith)),
      ))

deliver-Downloads :
    (room : Bool) (w : Wrote) (b : Bytes) (p : Proxy)
    → p.keepalive_enabled ≡ false
    → is_pending p.downstream_buf p.downstream_sent ≡ false
    → p.downstream_sent ≤ length (buffer p.downstream_buf)
    → Downloads (p.to_client ++ b) (deliver room w b p)
unfolding deliver cleanup
deliver-Downloads room broke b p raw e le = tt
deliver-Downloads room again b p raw e le = hold_rest-Downloads room 0 b p (omega arith) raw e le
deliver-Downloads room (wrote m) b p raw e le =
    hold_rest-Downloads room (min m (length b)) b p (omega arith) raw e le

none_waits :
    (p : Proxy)
    → IsPaused p
    → p.upstream_events.read ≡ true
    → is_pending p.downstream_buf p.downstream_sent ≡ false
none_waits p s reads = elim (Bool-cases (is_pending p.downstream_buf p.downstream_sent)) [
  | inl waits ↦ absurd (ground (arith, s.paused waits, reads))
  | inr e ↦ e
]

on_upstream_read-Downloads :
    (atol : Bytes → ℕ) (m : Memory) (w : Wrote) (g : Got) (p : Proxy)
    → IsPaused p
    → p.upstream_events.read ≡ true
    → Downloads (downloaded p ++ got_bytes g) (on_upstream_read atol m w g p)
unfolding on_upstream_read cleanup
on_upstream_read-Downloads atol m w got_again p s reads = (s, sym (append-nil (downloaded p)))
on_upstream_read-Downloads atol m w got_end p s reads = tt
on_upstream_read-Downloads atol m w (got b) p s reads =
    let e = none_waits p s reads in
    let all_there : downloaded p ≡ p.to_client =
      ap (λ u. p.to_client ++ u) (unsent-empty p.downstream_buf p.downstream_sent e)
      ∙ append-nil p.to_client in
    if-Holds (Downloads (downloaded p ++ b)) p.keepalive_enabled _ _
      (λ k. absurd (ground (arith, k, s.raw)))
      (λ k.
        subst (λ t. Downloads (t ++ b) (deliver m.for_rest w b p)) (sym all_there)
          (deliver-Downloads m.for_rest w b p s.raw e s.sent_le))

still_waits : (o : Option Bytes) (i n : ℕ) → is_pending o (i + n) ≡ true → is_pending o i ≡ true
still_waits none i n w = w
still_waits (some b) i n w = ground arith

after_client_write-Downloads :
    (n : ℕ) (p : Proxy)
    → n ≤ length (unsent p.downstream_buf p.downstream_sent)
    → IsPaused p
    → Downloads (downloaded p) (after_client_write n p)
unfolding after_client_write
after_client_write-Downloads n p h s =
    let left = unsent p.downstream_buf p.downstream_sent in
    if-Holds (Downloads (downloaded p)) (n == length left) _ _
      (λ whole. (
        record { raw = s.raw; sent_le = omega arith; paused = λ w. absurd (ground (arith, w)) },
        append-nil (p.to_client ++ take n left)
            ∙ ap (λ u. p.to_client ++ u) (take_all n left (ground arith)),
      ))
      (λ part. (
        record {
          raw = s.raw;
          sent_le = omega (arith, h, s.sent_le, length-unsent p.downstream_buf p.downstream_sent);
          paused = λ w. s.paused (still_waits p.downstream_buf p.downstream_sent n w);
        },
        ap (λ u. (p.to_client ++ take n left) ++ u)
              (unsent_later p.downstream_buf p.downstream_sent n)
            ∙ take-drop-append n p.to_client left,
      ))

on_client_writable-Downloads :
    (w : Wrote) (p : Proxy) → IsPaused p → Downloads (downloaded p) (on_client_writable w p)
unfolding on_client_writable client_write cleanup
on_client_writable-Downloads w p s =
    if-Holds (Downloads (downloaded p)) (is_pending p.downstream_buf p.downstream_sent) _ _
      (λ waits. go w) (λ e. (record { raw = s.raw; sent_le = s.sent_le; paused = s.paused }, refl))
  where
    go : (v : Wrote) → Downloads (downloaded p) (client_write v p)
    go broke = tt
    go again = after_client_write-Downloads 0 p (omega arith) s
    go (wrote m) =
        after_client_write-Downloads (min m (length (unsent p.downstream_buf p.downstream_sent))) p
          (omega arith) s

if_going :
    (c : Bool) (o : Outcome) (b : Bytes) (p : Proxy)
    → IsPaused p
    → (c ≡ true → Downloads (downloaded p ++ b) o)
    → Downloads (downloaded p ++ (if c then b else [])) (if c then o else going p)
if_going true o b p s h = h refl
if_going false o b p s h = (s, sym (append-nil (downloaded p)))

next-Downloads :
    (f : Proxy → Outcome) (g : Proxy → Bytes) (s : Bytes) (o : Outcome)
    → ((q : Proxy) → IsPaused q → Downloads (downloaded q ++ g q) (f q))
    → Downloads s o
    → Downloads (s ++ while_going g o) (next f o)
next-Downloads f g s (ended q pooled kept) h d = tt
next-Downloads f g s (going q) h d = subst (λ t. Downloads (t ++ g q) (f q)) d.1 (h q d.0)

step-Downloads :
    (atol : Bytes → ℕ) (e : Event) (p : Proxy)
    → IsPaused p
    → Downloads (downloaded p ++ read_by e p) (step atol e p)
unfolding step read_by
step-Downloads atol (upstream_read m w g) p s =
    if_going p.upstream_events.read (on_upstream_read atol m w g p) (got_bytes g) p s
      (on_upstream_read-Downloads atol m w g p s)
step-Downloads atol (client_writable w) p s =
    subst (λ t. Downloads t (step atol (client_writable w) p)) (sym (append-nil (downloaded p)))
      (if-Holds (Downloads (downloaded p)) p.client_events.write _ _
        (λ on. on_client_writable-Downloads w p s) (λ off. (s, refl)))

-- Whatever the reads bring and the client takes, on a route without keep-alive where the client sends
-- nothing meanwhile: while the connection goes on, the bytes that the client took and those that wait for
-- it are all that was read, whole and in order; and nothing is read while something waits.
pub run-Downloads :
    (atol : Bytes → ℕ) (es : List Event) (p : Proxy)
    → IsPaused p
    → Downloads (downloaded p ++ received atol es p) (run atol es p)
unfolding run received
run-Downloads atol [] p s = (s, sym (append-nil (downloaded p)))
run-Downloads atol (e ∷ es) p s =
    subst (λ t. Downloads t (run atol (e ∷ es) p))
      (append_assoc (downloaded p) (read_by e p) (while_going (received atol es) (step atol e p)))
      (next-Downloads (run atol es) (received atol es) (downloaded p ++ read_by e p) (step atol e p)
        (run-Downloads atol es) (step-Downloads atol e p s))
