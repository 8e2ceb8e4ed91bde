-- ===== src/Proxy/Relay/Whole.antt =====
-- A response of a known length, relayed to its last byte.
use nanoproxy.Prelude.{
  ℕ, ◌+◌, ◌%◌, ◌^◌, ◌≤◌, ◌<◌, ◌≡◌, refl, sym, subst, ap, ◌∙◌, Bool, true, false, not, ◌&&◌, List,
  none, [], ◌∷◌, ◌++◌, Bytes, arith, ltb, leb, if◌then◌else◌, length, take, min, take_all,
  append_assoc, length-append,
}
use nanoproxy.StringBuf.{is_negative}
use nanoproxy.Proxy.{next, wrote, Proxy, Outcome, going, ended, cleanup, hold_rest, deliver}
use nanoproxy.Proxy.Relay.{
  got, Memory, count_relayed, relay_body, relay_upstream_keepalive, on_upstream_read,
}

-- the reads of these bytes, where the client takes all of each
unfoldable pub relay_all : (Bytes → ℕ) → Memory → List Bytes → Proxy → Outcome
unfolding on_upstream_read
relay_all atol m [] p = going p
relay_all atol m (b ∷ bs) p =
    next (relay_all atol m bs) (on_upstream_read atol m (wrote (length b)) (got b) p)

abbrev pub flat : List Bytes → Bytes
flat [] = []
flat (b ∷ bs) = b ++ flat bs

-- The connection ended with these bytes at the client, into the pool and with the client kept as told, and
-- no buffer holds any more bytes for the client.
abbrev pub Completes : Bytes → Bool → Bool → Outcome → Type 0
Completes s pooled kept (going q) = ⊥
Completes s pooled kept (ended q a b) =
    (q.to_client ≡ s)
    × ((q.downstream_buf ≡ none) × ((q.downstream_sent ≡ 0) × ((a ≡ pooled) × (b ≡ kept))))

took : Bytes → Proxy → Proxy
took b p = record p {
  to_client = p.to_client ++ b;
  resp_body_relayed = p.resp_body_relayed + length b;
}

deliver_whole :
    (room : Bool) (b : Bytes) (p : Proxy)
    → deliver room (wrote (length b)) b p ≡ going (record p { to_client = p.to_client ++ b })
unfolding deliver hold_rest
deliver_whole room b p =
    let all_taken : min (length b) (length b) ≡ length b = omega arith in
    let enough : ltb (length b) (length b) ≡ false = ground arith in
    rw (all_taken, enough, take_all (length b) b (omega arith)) refl

if_true : (b : Bool) (x y : Outcome) → b ≡ true → (if b then x else y) ≡ x
if_true true x y h = refl
if_true false x y h = cc

read_whole :
    (atol : Bytes → ℕ) (m : Memory) (b : Bytes) (p : Proxy)
    → p.keepalive_enabled ≡ true
    → p.resp_headers_done ≡ true
    → on_upstream_read atol m (wrote (length b)) (got b) p
      ≡ count_relayed (length b) (going (record p { to_client = p.to_client ++ b }))
unfolding on_upstream_read relay_upstream_keepalive relay_body
read_whole atol m b p k h =
    if_true _ _ _ k ∙ if_true _ _ _ h ∙ ap (count_relayed (length b)) (deliver_whole m.for_rest b p)

read_more :
    (atol : Bytes → ℕ) (m : Memory) (b : Bytes) (p : Proxy)
    → p.keepalive_enabled ≡ true
    → p.resp_headers_done ≡ true
    → p.resp_body_relayed + length b < p.resp_content_length
    → p.resp_content_length < 2 ^ 63
    → on_upstream_read atol m (wrote (length b)) (got b) p ≡ going (took b p)
unfolding took count_relayed
read_more atol m b p k h less small =
    let fits : (p.resp_body_relayed + length b) % 2 ^ 64 ≡ p.resp_body_relayed + length b =
      omega arith in
    let early : leb p.resp_content_length (p.resp_body_relayed + length b) ≡ false = ground arith in
    let known : is_negative p.resp_content_length ≡ false = ground arith in
    read_whole atol m b p k h ∙ rw (fits, early, known) refl

read_last :
    (atol : Bytes → ℕ) (m : Memory) (b : Bytes) (p : Proxy)
    → p.keepalive_enabled ≡ true
    → p.resp_headers_done ≡ true
    → p.resp_body_relayed + length b ≡ p.resp_content_length
    → p.resp_content_length < 2 ^ 63
    → on_upstream_read atol m (wrote (length b)) (got b) p ≡ cleanup (took b p)
unfolding took count_relayed
read_last atol m b p k h same small =
    let fits : (p.resp_body_relayed + length b) % 2 ^ 64 ≡ p.resp_body_relayed + length b =
      omega arith in
    let complete : leb p.resp_content_length (p.resp_body_relayed + length b) ≡ true =
      ground arith in
    let known : is_negative p.resp_content_length ≡ false = ground arith in
    read_whole atol m b p k h ∙ rw (fits, complete, known) refl

-- Where the head of a response on a keep-alive route is relayed before, its length is known and below 2^63 and
-- the client takes each piece of the body whole, the exchange ends with the last byte of the body: not before,
-- with all of the body at the client and none of it waiting, the upstream's connection pooled if the response
-- allows it and it is no websocket, and the client kept if the response allows it and the client asked for it.
pub relay_all-Completes :
    (atol : Bytes → ℕ) (m : Memory) (bs : List Bytes) (last : Bytes) (p : Proxy)
    → p.keepalive_enabled ≡ true
    → p.resp_headers_done ≡ true
    → p.resp_content_length < 2 ^ 63
    → 0 < length last
    → p.resp_body_relayed + length (flat bs) + length last ≡ p.resp_content_length
    → Completes
        (p.to_client ++ (flat bs ++ last))
        (p.resp_poolable && not p.is_websocket)
        (p.resp_poolable && p.client_keeps)
        (relay_all atol m (bs ++ (last ∷ [])) p)
unfolding relay_all cleanup took
relay_all-Completes atol m [] last p k h small some_left same =
    rw (read_last atol m last p k h (omega arith) small) (refl, (refl, (refl, (refl, refl))))
relay_all-Completes atol m (b ∷ bs) last p k h small some_left same =
    let more : p.resp_body_relayed + length b < p.resp_content_length =
      omega (arith, same, some_left, length-append b (flat bs)) in
    let rest : p.resp_body_relayed + length b + length (flat bs) + length last
        ≡ p.resp_content_length =
      omega (arith, same, length-append b (flat bs)) in
    let order : (p.to_client ++ b) ++ (flat bs ++ last) ≡ p.to_client ++ (b ++ flat bs ++ last) =
      append_assoc p.to_client b (flat bs ++ last)
      ∙ ap (λ t. p.to_client ++ t) (sym (append_assoc b (flat bs) last)) in
    let pooled = p.resp_poolable && not p.is_websocket in
    let kept = p.resp_poolable && p.client_keeps in
    rw (read_more atol m b p k h more small) (
      subst (λ t. Completes t pooled kept (relay_all atol m (bs ++ (last ∷ [])) (took b p))) order
        (relay_all-Completes atol m bs last (took b p) k h small some_left rest))

-- Where the last bytes of a body of a known length come and the client takes the first of them only, the
-- exchange ends at once: the client has that part and no more, and the buffer is gone, so that the rest
-- waits nowhere; the connections are pooled and kept as if the client had all of it.
pub relay_body-Completes_part :
    (n : ℕ) (b : Bytes) (p : Proxy)
    → n < length b
    → p.resp_content_length < 2 ^ 63
    → p.resp_content_length ≤ p.resp_body_relayed + length b
    → p.resp_body_relayed + length b < 2 ^ 64
    → Completes
        (p.to_client ++ take n b)
        (p.resp_poolable && not p.is_websocket)
        (p.resp_poolable && p.client_keeps)
        (relay_body true (wrote n) b p)
unfolding relay_body deliver hold_rest count_relayed cleanup
relay_body-Completes_part n b p part small complete fits =
    let counted : (p.resp_body_relayed + length b) % 2 ^ 64 ≡ p.resp_body_relayed + length b =
      omega arith in
    let some_left : ltb (min n (length b)) (length b) ≡ true = ground arith in
    let same : min n (length b) ≡ n = omega arith in
    let known : is_negative p.resp_content_length ≡ false = ground arith in
    let done : leb p.resp_content_length (p.resp_body_relayed + length b) ≡ true = ground arith in
    rw (some_left, counted, known, done, same) (refl, (refl, (refl, (refl, refl))))
