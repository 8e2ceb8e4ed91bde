-- ===== src/Proxy/Upload.antt =====
-- The bytes from the client on their way to the upstream server.
use nanoproxy.Prelude.{
  ℕ, ◌≤◌, ◌≡◌, refl, sym, subst, ap, ◌∙◌, Bool, true, false, not, ◌||◌, ◌&&◌, List, [], ◌∷◌, ◌++◌,
  Bytes, arith, ltb, ◌==◌, length, take, drop, take_all, length-append, append_assoc, append-nil,
  min,
}
use nanoproxy.Proxy.Buffer.{
  if-Holds, take-drop-append, unsent-empty, unsent-append, unsent_later, length-unsent,
}
use nanoproxy.Proxy.{
  next, Wrote, wrote, again, broke, Proxy, Outcome, going, ended, cleanup, is_pending, unsent,
  buffer, count_body, keep_rest, write_upstream, on_body_data, after_drain, drained, drain_write,
  drain_pending, on_upstream_write,
}

-- the bytes taken by the upstream server and those that wait, in their order
abbrev pub uploaded : Proxy → Bytes
uploaded p = p.to_upstream ++ unsent p.pending p.pending_sent

-- nothing of the buffer counts as sent that is not there
abbrev pub IsSound : Proxy → Type 0
IsSound p = p.pending_sent ≤ length (buffer p.pending)

-- The outcome, if the connection goes on, has uploaded these bytes.
abbrev pub Uploads : Bytes → Outcome → Type 0
Uploads s (going q) = IsSound q × (uploaded q ≡ s)
Uploads s (ended q pooled kept) = Unit

keep_rest-Uploads :
    (room : Bool) (n : ℕ) (bytes : Bytes) (p : Proxy) (before : Bytes)
    → n ≤ length bytes
    → is_pending p.pending p.pending_sent ≡ false
    → IsSound p
    → p.to_upstream ≡ before ++ take n bytes
    → Uploads (before ++ bytes) (keep_rest room n bytes p)
unfolding keep_rest cleanup
keep_rest-Uploads room n bytes p before h e s same =
    if-Holds (Uploads (before ++ bytes)) (ltb n (length bytes)) _ _
      (λ less.
        if-Holds (Uploads (before ++ bytes)) room _ _
          (λ r. (omega arith, ap (λ t. t ++ drop n bytes) same ∙ take-drop-append n before bytes))
          (λ r. tt))
      (λ all_taken. (
        s,
        ap (λ u. p.to_upstream ++ u) (unsent-empty p.pending p.pending_sent e)
            ∙ append-nil p.to_upstream
            ∙ same
            ∙ ap (λ u. before ++ u) (take_all n bytes (ground arith)),
      ))

write_upstream-Uploads :
    (room : Bool) (w : Wrote) (bytes : Bytes) (p : Proxy)
    → is_pending p.pending p.pending_sent ≡ false
    → IsSound p
    → Uploads (p.to_upstream ++ bytes) (write_upstream room w bytes p)
unfolding write_upstream cleanup
write_upstream-Uploads room broke bytes p e s = tt
write_upstream-Uploads room again bytes p e s =
    keep_rest-Uploads room 0 bytes p p.to_upstream (omega arith) e s
      (sym (append-nil p.to_upstream))
write_upstream-Uploads room (wrote m) bytes p e s =
    let n = min m (length bytes) in
    keep_rest-Uploads room n bytes
      (record (count_body n p) { to_upstream = p.to_upstream ++ take n bytes }) p.to_upstream
      (omega arith) e s refl

-- Where the client's bytes go on behind those that it has sent, they do so in their order.
on_body_data-Uploads :
    (room : Bool) (w : Wrote) (bytes : Bytes) (p : Proxy)
    → IsSound p
    → Uploads (uploaded p ++ bytes) (on_body_data room w bytes p)
unfolding on_body_data cleanup
on_body_data-Uploads room w bytes p s =
    if-Holds (Uploads (uploaded p ++ bytes))
      (not p.connected || is_pending p.pending p.pending_sent) _ _
      (λ waits.
        if-Holds (Uploads (uploaded p ++ bytes)) room _ _
          (λ r. (
            omega (arith, s, length-append (buffer p.pending) bytes),
            ap (λ u. p.to_upstream ++ u) (unsent-append p.pending p.pending_sent bytes s)
                ∙ sym (append_assoc p.to_upstream (unsent p.pending p.pending_sent) bytes),
          ))
          (λ r. tt))
      (λ direct.
        let empty : is_pending p.pending p.pending_sent ≡ false = ground arith in
        let none_waits : uploaded p ≡ p.to_upstream =
          ap (λ u. p.to_upstream ++ u) (unsent-empty p.pending p.pending_sent empty)
          ∙ append-nil p.to_upstream in
        subst (λ t. Uploads (t ++ bytes) (write_upstream room w bytes p)) (sym none_waits)
          (write_upstream-Uploads room w bytes p empty s))

after_drain-Uploads :
    (need_write : Bool) (p : Proxy) → IsSound p → Uploads (uploaded p) (after_drain need_write p)
unfolding after_drain
after_drain-Uploads true p s = (s, refl)
after_drain-Uploads false p s = (s, refl)

drained-Uploads :
    (n : ℕ) (p : Proxy)
    → n ≤ length (unsent p.pending p.pending_sent)
    → IsSound p
    → Uploads (uploaded p) (drained n p)
unfolding drained
drained-Uploads n p h s =
    if-Holds (Uploads (uploaded p)) (n == 0) _ _ (λ z. after_drain-Uploads true p s)
      (λ nz.
        if-Holds (Uploads (uploaded p)) (n == length (unsent p.pending p.pending_sent)) _ _
          (λ whole. (
            omega arith,
            append-nil (p.to_upstream ++ take n (unsent p.pending p.pending_sent))
                ∙ ap (λ u. p.to_upstream ++ u)
                    (take_all n (unsent p.pending p.pending_sent) (ground arith)),
          ))
          (λ part. (
            omega (arith, h, s, length-unsent p.pending p.pending_sent),
            ap (λ u. (p.to_upstream ++ take n (unsent p.pending p.pending_sent)) ++ u)
                  (unsent_later p.pending p.pending_sent n)
                ∙ take-drop-append n p.to_upstream (unsent p.pending p.pending_sent),
          )))

drain_pending-Uploads :
    (w : Wrote) (p : Proxy) → IsSound p → Uploads (uploaded p) (drain_pending w p)
unfolding drain_pending drain_write cleanup
drain_pending-Uploads w p s =
    if-Holds (Uploads (uploaded p)) (is_pending p.pending p.pending_sent) _ _ (λ waits. go w)
      (λ done. after_drain-Uploads false p s)
  where
    go : (v : Wrote) → Uploads (uploaded p) (drain_write v p)
    go broke = tt
    go again = after_drain-Uploads true p s
    go (wrote m) =
        drained-Uploads (min m (length (unsent p.pending p.pending_sent))) p (omega arith) s

on_upstream_write-Uploads :
    (refused : Bool) (w : Wrote) (p : Proxy)
    → IsSound p
    → Uploads (uploaded p) (on_upstream_write refused w p)
unfolding on_upstream_write cleanup
on_upstream_write-Uploads refused w p s =
    if-Holds (Uploads (uploaded p)) (not p.connected && refused) _ _ (λ r. tt)
      (λ r. drain_pending-Uploads w (record p { connected = true }) s)

-- what happens to the upload: bytes come from the client, or the upstream server can be written to
pub data Event : Type 0 where
  body_data : Bool → Wrote → Bytes → Event
  upstream_write : Bool → Wrote → Event

unfoldable pub step : Event → Proxy → Outcome
unfolding on_body_data on_upstream_write
step (body_data room w bytes) p = on_body_data room w bytes p
step (upstream_write refused w) p = on_upstream_write refused w p

-- the bytes that the client sent in them
abbrev pub sent : List Event → Bytes
sent [] = []
sent (body_data room w bytes ∷ es) = bytes ++ sent es
sent (upstream_write refused w ∷ es) = sent es

unfoldable pub run : List Event → Proxy → Outcome
unfolding step
run [] p = going p
run (e ∷ es) p = next (run es) (step e p)

step-Uploads :
    (e : Event) (p : Proxy) → IsSound p → Uploads (uploaded p ++ sent (e ∷ [])) (step e p)
unfolding step
step-Uploads (body_data room w bytes) p s =
    subst (λ t. Uploads (uploaded p ++ t) (on_body_data room w bytes p)) (sym (append-nil bytes))
      (on_body_data-Uploads room w bytes p s)
step-Uploads (upstream_write refused w) p s =
    subst (λ t. Uploads t (on_upstream_write refused w p)) (sym (append-nil (uploaded p)))
      (on_upstream_write-Uploads refused w p s)

next-Uploads :
    (s t : Bytes) (f : Proxy → Outcome) (o : Outcome)
    → ((q : Proxy) → IsSound q → uploaded q ≡ s → Uploads t (f q))
    → Uploads s o
    → Uploads t (next f o)
next-Uploads s t f (going q) g h = g q h.0 h.1
next-Uploads s t f (ended q pooled kept) g h = tt

sent-cons : (e : Event) (es : List Event) → sent (e ∷ es) ≡ sent (e ∷ []) ++ sent es
sent-cons (body_data room w bytes) es = ap (λ b. b ++ sent es) (sym (append-nil bytes))
sent-cons (upstream_write refused w) es = refl

-- Whatever the answers of the system are, while the connection goes on the bytes that the upstream server
-- took and those that wait for it are the request's head and the client's bytes, whole and in their order.
pub run-Uploads :
    (es : List Event) (p : Proxy) → IsSound p → Uploads (uploaded p ++ sent es) (run es p)
unfolding run
run-Uploads [] p s = (s, sym (append-nil (uploaded p)))
run-Uploads (e ∷ es) p s =
    next-Uploads (uploaded p ++ sent (e ∷ [])) (uploaded p ++ sent (e ∷ es)) (run es) (step e p)
      (λ q g same.
        let whole : uploaded q ++ sent es ≡ uploaded p ++ sent (e ∷ es) =
          ap (λ t. t ++ sent es) same
          ∙ append_assoc (uploaded p) (sent (e ∷ [])) (sent es)
          ∙ ap (λ t. uploaded p ++ t) (sym (sent-cons e es)) in
        subst (λ t. Uploads t (run es q)) whole (run-Uploads es q g))
      (step-Uploads e p s)
