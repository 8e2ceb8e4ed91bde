-- ===== src/Proxy/Download/Lost.antt =====
-- What the client's own bytes do to the pause of the upstream server.
use nanoproxy.Prelude.{
  ℕ, ◌<◌, ◌≡◌, refl, sym, subst, ap, ◌∙◌, Bool, true, false, not, ◌||◌, some, ◌++◌, Bytes, arith,
  ltb, if◌then◌else◌, length, take, drop, min,
}
use nanoproxy.Proxy.{
  wrote, ev_read_write, Proxy, Outcome, going, ended, next, is_pending, count_body, keep_rest,
  write_upstream, on_body_data, hold_rest, deliver,
}
use nanoproxy.Proxy.Buffer.{take-drop-append}
use nanoproxy.Proxy.Relay.{got, on_upstream_read}
use nanoproxy.Proxy.Download.{upstream_read, step}
use nanoproxy.Proxy.Download.Order.{downloaded}

-- The connection goes on, and these are the bytes that its client took or that wait for it.
abbrev pub Leaves : Bytes → Outcome → Type 0
Leaves s (going q) = downloaded q ≡ s
Leaves s (ended q pooled kept) = ⊥

direct : (b : Bool) (x y : Outcome) → b ≡ false → (if b then x else y) ≡ y
direct true x y e = cc
direct false x y e = refl

chosen : (b : Bool) (x y : Outcome) → b ≡ true → (if b then x else y) ≡ x
chosen true x y e = refl
chosen false x y e = cc

-- the state behind a write of the client's body that the upstream server takes in part
paused_client : ℕ → Bytes → Proxy → Proxy
paused_client n bytes p = record (count_body n p) {
  to_upstream = p.to_upstream ++ take n bytes;
  pending = some (drop n bytes);
  pending_sent = 0;
  client_paused = true;
  client_events = record { read = false; write = false };
  upstream_events = ev_read_write;
}

on_body_data_part :
    (n : ℕ) (bytes : Bytes) (p : Proxy)
    → p.connected ≡ true
    → is_pending p.pending p.pending_sent ≡ false
    → n < length bytes
    → on_body_data true (wrote n) bytes p ≡ going (paused_client n bytes p)
unfolding on_body_data write_upstream keep_rest paused_client
on_body_data_part n bytes p c e part =
    let goes : (not p.connected || is_pending p.pending p.pending_sent) ≡ false =
      ground (arith, c, e) in
    let some_left : ltb n (length bytes) ≡ true = ground arith in
    let same : min n (length bytes) ≡ n = omega arith in
    direct _ _ _ goes
    ∙ ap
        (λ k.
          keep_rest true k bytes
            (record (count_body k p) { to_upstream = p.to_upstream ++ take k bytes }))
        same
    ∙ chosen _ _ _ some_left

deliver_part :
    (k : ℕ) (b : Bytes) (p : Proxy)
    → k < length b
    → Leaves (p.to_client ++ b) (deliver true (wrote k) b p)
unfolding deliver hold_rest
deliver_part k b p part =
    let some_left : ltb (min k (length b)) (length b) ≡ true = ground arith in
    let same : min k (length b) ≡ k = omega arith in
    rw (some_left, same) (take-drop-append k p.to_client b)

-- On a route without keep-alive, whatever waits for the client: if the upstream server takes a part only
-- of the client's next bytes, the following read is done all the same, and when the client takes a part
-- of it, what was read replaces what waited.
pub on_body_data-Leaves :
    (atol : Bytes → ℕ) (room : Bool) (n k : ℕ) (bytes b : Bytes) (p : Proxy)
    → p.keepalive_enabled ≡ false
    → p.connected ≡ true
    → is_pending p.pending p.pending_sent ≡ false
    → n < length bytes
    → k < length b
    → Leaves (p.to_client ++ b) (
        next
          (step atol (
            upstream_read
              (record { for_head = room; for_text = room; for_rest = true })
              (wrote k)
              (got b)))
          (on_body_data true (wrote n) bytes p))
unfolding step on_upstream_read paused_client
on_body_data-Leaves atol room n k bytes b p raw c e part part' =
    rw (on_body_data_part n bytes p c e part) (
      subst (Leaves (p.to_client ++ b)) (sym (direct _ _ _ raw))
        (deliver_part k b (paused_client n bytes p) part'))
