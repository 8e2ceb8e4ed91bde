-- ===== src/Dns/Name/Encode.antt =====
-- `dns_encode_name` writes the labels of a name.
use nanoproxy.Prelude.{
  ℕ, zero, suc, ◌+◌, ◌≤◌, ◌<◌, ◌≡◌, ap, ◌∙◌, some, List, [], ◌∷◌, ◌++◌, Bytes, arith, length,
  length-append, take, drop, take-append, drop-append, take_all, append_assoc,
}
use nanoproxy.Dns.Name.{label_length, skip_dot, encode_loop, encode_name}
use nanoproxy.Dns.Name.Labels.{
  dotted, wire, AreLabels, label_length-append, label_length-all, drop_all, length-dotted_cons,
  length-wire_cons, length-wire_pos, length-wire-dotted,
}

-- one round of the loop, on a name whose first label has `n` bytes
encode_step :
    (fuel dstlen : ℕ) (host l rest out : Bytes)
    → 0 < length host
    → label_length host ≡ length l
    → take (length l) host ≡ l
    → skip_dot (drop (length l) host) ≡ rest
    → 0 < length l
    → length l ≤ 63
    → length out + 1 + length l < dstlen
    → encode_loop (suc fuel) host out dstlen ≡ encode_loop fuel rest (out ++ length l ∷ l) dstlen
unfolding encode_loop
encode_step fuel dstlen [] l rest out ne e1 e2 e3 p s r = absurd (omega arith)
encode_step fuel dstlen (c ∷ cs) l rest out ne e1 e2 e3 p s r = ground (arith, e1, e2, e3)

room :
    (l : Bytes) (ls : List Bytes) (out : Bytes) (dstlen : ℕ)
    → length out + length (wire (l ∷ ls)) ≤ dstlen
    → length out + 1 + length l < dstlen
room l ls out dstlen r = omega (arith, length-wire_cons l ls, length-wire_pos ls)

room_after :
    (l : Bytes) (ls : List Bytes) (out : Bytes) (dstlen : ℕ)
    → length out + length (wire (l ∷ ls)) ≤ dstlen
    → length (out ++ length l ∷ l) + length (wire ls) ≤ dstlen
room_after l ls out dstlen r =
    omega (arith, length-wire_cons l ls, length-append out (length l ∷ l))

regroup :
    (l : Bytes) (ls : List Bytes) (out : Bytes)
    → some ((out ++ length l ∷ l) ++ wire ls) ≡ some (out ++ wire (l ∷ ls))
unfolding wire
regroup l ls out = ap some (append_assoc out (length l ∷ l) (wire ls))

-- The loop puts the labels that are left behind `out`, and the root label.
encode_loop-wire :
    (ls : List Bytes) (fuel dstlen : ℕ) (out : Bytes)
    → AreLabels ls
    → length (dotted ls) ≤ fuel
    → length out + length (wire ls) ≤ dstlen
    → encode_loop fuel (dotted ls) out dstlen ≡ some (out ++ wire ls)
unfolding dotted
encode_loop-wire [] zero dstlen out h f r = unfold encode_loop dotted wire in ground arith
encode_loop-wire [] (suc fuel) dstlen out h f r = unfold encode_loop dotted wire in ground arith
encode_loop-wire (l ∷ []) zero dstlen out h f r = absurd (unfold dotted in omega arith)
encode_loop-wire (l ∷ []) (suc fuel) dstlen out h f r =
    encode_step fuel dstlen l l [] out h.0.not_empty (label_length-all l h.0.no_dot)
      (take_all (length l) l (omega arith)) (ap skip_dot (drop_all (length l) l (omega arith)))
      h.0.not_empty h.0.short (room l [] out dstlen r)
    ∙ encode_loop-wire [] fuel dstlen (out ++ length l ∷ l) tt (unfold dotted in omega arith)
        (room_after l [] out dstlen r)
    ∙ regroup l [] out
encode_loop-wire (l ∷ m ∷ ls) zero dstlen out h f r =
    absurd (omega (arith, length-dotted_cons l m ls))
encode_loop-wire (l ∷ m ∷ ls) (suc fuel) dstlen out h f r =
    let rest = dotted (m ∷ ls) in
    encode_step fuel dstlen (dotted (l ∷ m ∷ ls)) l rest out
      (omega (arith, length-dotted_cons l m ls))
      (unfold dotted in label_length-append l rest h.0.no_dot)
      (unfold dotted in take-append l (b'.' ∷ rest))
      (unfold dotted in ap skip_dot (drop-append l (b'.' ∷ rest))) h.0.not_empty h.0.short
      (room l (m ∷ ls) out dstlen r)
    ∙ encode_loop-wire (m ∷ ls) fuel dstlen (out ++ length l ∷ l) h.1
        (omega (arith, length-dotted_cons l m ls)) (room_after l (m ∷ ls) out dstlen r)
    ∙ regroup l (m ∷ ls) out

-- The name of some labels is encoded as those labels, each behind its length, and a zero, into any
-- buffer that has room for that: two bytes more than the name.
pub encode_name-dotted :
    (l : Bytes) (ls : List Bytes) (dstlen : ℕ)
    → AreLabels (l ∷ ls)
    → length (dotted (l ∷ ls)) + 2 ≤ dstlen
    → encode_name (dotted (l ∷ ls)) dstlen ≡ some (wire (l ∷ ls))
unfolding encode_name
encode_name-dotted l ls dstlen h r =
    encode_loop-wire (l ∷ ls) (length (dotted (l ∷ ls))) dstlen [] h (omega arith)
      (omega (arith, length-wire-dotted l ls))
