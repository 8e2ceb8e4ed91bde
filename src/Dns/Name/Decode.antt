-- ===== src/Dns/Name/Decode.antt =====
-- `dns_decode_name` reads back what `dns_encode_name` writes, in lower case.
use nanoproxy.Prelude.{
  ℕ, zero, suc, ◌+◌, ◌-◌, ◌≤◌, ◌<◌, ◌≡◌, refl, lt→ltb, map-append, some-cancel, ap₂, sym, ap, ◌∙◌,
  some, List, [], ◌∷◌, ◌++◌, Bytes, arith, length, length-append, take, drop, take-append,
  drop-append, get_or, get_or-drop, append-nil, append_assoc, ltb, if◌then◌else◌, map, to_lower,
}
use nanoproxy.Dns.Name.{name, copy_label, decode_loop, decode_fuel, decode_name, encode_name}
use nanoproxy.Dns.Name.Labels.{
  dotted, wire, IsLabel, AreLabels, length-wire_pos, length-wire-dotted,
}
use nanoproxy.Dns.Name.Encode.{encode_name-dotted}

-- the labels read onto `out`, with their dots
unfoldable pub joined : Bytes → List Bytes → Bytes
joined out [] = out
joined out (l ∷ ls) =
    joined ((if ltb 0 (length out) then out ++ b'.' ∷ [] else out) ++ map to_lower l) ls

-- A label that fits is copied whole.
copy_label-append :
    (outlen : ℕ) (out l : Bytes)
    → length out + length l ≤ outlen - 1
    → copy_label outlen out l ≡ out ++ map to_lower l
unfolding copy_label
copy_label-append outlen out [] h = sym (append-nil out)
copy_label-append outlen out (c ∷ l) h = ground (
  arith,
  copy_label-append outlen (out ++ to_lower c ∷ []) l,
  length-append out (to_lower c ∷ []),
  append_assoc out (to_lower c ∷ []) (map to_lower l),
)

drop-suc : (n k : ℕ) (c : ℕ) (xs ys : Bytes) → drop n xs ≡ c ∷ ys → k ≡ n + 1 → drop k xs ≡ ys
drop-suc zero zero c xs ys h e = absurd (omega arith)
drop-suc zero (suc k) c [] ys h e = cc
drop-suc zero (suc zero) c (x ∷ xs) ys h e = ground arith
drop-suc zero (suc (suc k)) c (x ∷ xs) ys h e = absurd (omega arith)
drop-suc (suc n) k c [] ys h e = cc
drop-suc (suc n) zero c (x ∷ xs) ys h e = absurd (omega arith)
drop-suc (suc n) (suc k) c (x ∷ xs) ys h e = drop-suc n k c xs ys h (omega arith)

drop-more : (n k : ℕ) (l xs ys : Bytes) → drop n xs ≡ l ++ ys → k ≡ n + length l → drop k xs ≡ ys
drop-more n k [] xs ys h e = ap (λ j. drop j xs) (omega arith) ∙ h
drop-more n k (c ∷ l) xs ys h e =
    drop-more (n + 1) k l xs ys (drop-suc n (n + 1) c xs (l ++ ys) h refl) (omega arith)

below_length : (n : ℕ) (c : ℕ) (xs ys : Bytes) → drop n xs ≡ c ∷ ys → n + length ys < length xs
below_length zero c [] ys h = cc
below_length zero c (x ∷ xs) ys h = ground arith
below_length (suc n) c [] ys h = cc
below_length (suc n) c (x ∷ xs) ys h = omega (arith, below_length n c xs ys h)

-- the byte at the place where the rest of a packet begins
byte_at : (n c : ℕ) (xs ys : Bytes) → drop n xs ≡ c ∷ ys → get_or xs n 0 ≡ c
byte_at n c xs ys h = sym (get_or-drop n xs 0) ∙ ap (λ t. get_or t 0 0) h

-- one label of a packet
decode_label :
    (fuel : ℕ) (buf : Bytes) (outlen off pos jumps : ℕ) (out l rest : Bytes)
    → drop pos buf ≡ length l ∷ (l ++ rest)
    → IsLabel l
    → length out + 1 + length l ≤ outlen - 1
    → decode_loop (suc fuel) buf outlen off pos jumps out 0
      ≡ decode_loop fuel buf outlen off
          (pos + 1 + length l)
          jumps
          ((if ltb 0 (length out) then out ++ b'.' ∷ [] else out) ++ map to_lower l)
          0
unfolding decode_loop
decode_label fuel buf outlen off pos jumps out l rest h v r = ground (
  arith,
  byte_at pos (length l) buf (l ++ rest) h,
  below_length pos (length l) buf (l ++ rest) h,
  length-append l rest,
  v,
  ap (take (length l)) (drop-suc pos (pos + 1) (length l) buf (l ++ rest) h refl),
  take-append l rest,
  length-append out (b'.' ∷ []),
  copy_label-append outlen out l,
  copy_label-append outlen (out ++ b'.' ∷ []) l,
)

decode_end :
    (fuel : ℕ) (buf : Bytes) (outlen off pos jumps : ℕ) (out rest : Bytes)
    → drop pos buf ≡ 0 ∷ rest
    → off ≤ pos
    → decode_loop (suc fuel) buf outlen off pos jumps out 0 ≡ name out (pos + 1 - off)
unfolding decode_loop
decode_end fuel buf outlen off pos jumps out rest h le =
    ground (arith, byte_at pos 0 buf rest h, below_length pos 0 buf rest h)

length-step :
    (out l : Bytes)
    → length ((if ltb 0 (length out) then out ++ b'.' ∷ [] else out) ++ map to_lower l)
      ≤ length out + 1 + length l
length-step out l = ground (
  arith,
  length-append (out ++ b'.' ∷ []) (map to_lower l),
  length-append out (map to_lower l),
  length-append out (b'.' ∷ []),
  length-map l,
)
  where
    length-map : (xs : Bytes) → length (map to_lower xs) ≡ length xs
    length-map [] = refl
    length-map (x ∷ xs) = ap suc (length-map xs)

decode_loop-wire :
    (ls : List Bytes) (fuel : ℕ) (buf : Bytes) (outlen off pos jumps : ℕ) (out rest : Bytes)
    → drop pos buf ≡ wire ls ++ rest
    → AreLabels ls
    → off ≤ pos
    → length ls < fuel
    → length out + length (wire ls) ≤ outlen
    → decode_loop fuel buf outlen off pos jumps out 0
      ≡ name (joined out ls) (pos + length (wire ls) - off)
unfolding wire joined
decode_loop-wire ls zero buf outlen off pos jumps out rest h v le f r = elim f [ ]
decode_loop-wire [] (suc fuel) buf outlen off pos jumps out rest h v le f r =
    decode_end fuel buf outlen off pos jumps out rest h le
decode_loop-wire (l ∷ ls) (suc fuel) buf outlen off pos jumps out rest h v le f r =
    let h' : drop pos buf ≡ length l ∷ (l ++ (wire ls ++ rest)) =
      h ∙ ap (◌∷◌ (length l)) (append_assoc l (wire ls) rest) in
    let next = (if ltb 0 (length out) then out ++ b'.' ∷ [] else out) ++ map to_lower l in
    decode_label fuel buf outlen off pos jumps out l (wire ls ++ rest) h' v.0
      (omega (arith, length-append l (wire ls), length-wire_pos ls))
    ∙ decode_loop-wire ls fuel buf outlen off (pos + 1 + length l) jumps next rest
        (drop-more (pos + 1) (pos + 1 + length l) l buf (wire ls ++ rest)
          (drop-suc pos (pos + 1) (length l) buf (l ++ (wire ls ++ rest)) h' refl) refl)
        v.1 (omega arith) (omega arith)
        (omega (arith, length-step out l, length-append l (wire ls)))
    ∙ ap (name (joined next ls)) (omega (arith, length-append l (wire ls)))

joined-cons :
    (out l : Bytes) (ls : List Bytes)
    → 0 < length out
    → joined out (l ∷ ls) ≡ joined ((out ++ b'.' ∷ []) ++ map to_lower l) ls
unfolding joined
joined-cons out l ls h = rw (lt→ltb 0 (length out) h)

joined-dotted :
    (ls : List Bytes) (out l : Bytes)
    → 0 < length out
    → joined out (l ∷ ls) ≡ out ++ b'.' ∷ map to_lower (dotted (l ∷ ls))
unfolding dotted to_lower
joined-dotted [] out l h =
    joined-cons out l [] h ∙ unfold joined in append_assoc out (b'.' ∷ []) (map to_lower l)
joined-dotted (m ∷ ls) out l h =
    joined-cons out l (m ∷ ls) h
    ∙ joined-dotted ls ((out ++ b'.' ∷ []) ++ map to_lower l) m (
        omega
          (arith, length-append (out ++ b'.' ∷ []) (map to_lower l), length-append out (b'.' ∷ [])))
    ∙ append_assoc (out ++ b'.' ∷ []) (map to_lower l) (b'.' ∷ map to_lower (dotted (m ∷ ls)))
    ∙ append_assoc out (b'.' ∷ []) (map to_lower l ++ b'.' ∷ map to_lower (dotted (m ∷ ls)))
    ∙ ap (λ t. out ++ b'.' ∷ t) (sym (map-append to_lower l (b'.' ∷ dotted (m ∷ ls))))

first_label :
    (c : ℕ) (l : Bytes) (ls : List Bytes)
    → joined [] ((c ∷ l) ∷ ls) ≡ joined (map to_lower (c ∷ l)) ls
unfolding joined
first_label c l ls = refl

joined_all :
    (l : Bytes) (ls : List Bytes) → IsLabel l → joined [] (l ∷ ls) ≡ map to_lower (dotted (l ∷ ls))
unfolding dotted to_lower
joined_all l [] v = unfold joined in refl
joined_all (c ∷ l) (m ∷ ls) v =
    first_label c l (m ∷ ls)
    ∙ joined-dotted ls (map to_lower (c ∷ l)) m (omega arith)
    ∙ sym (map-append to_lower (c ∷ l) (b'.' ∷ dotted (m ∷ ls)))
joined_all [] (m ∷ ls) v = absurd (omega (arith, v.not_empty))

labels-le_wire : (ls : List Bytes) → length ls ≤ length (wire ls)
unfolding wire
labels-le_wire [] = omega arith
labels-le_wire (l ∷ ls) = omega (arith, labels-le_wire ls, length-append l (wire ls))

-- A name of one or more labels that `dns_encode_name` puts anywhere into a packet is read back from
-- there by `dns_decode_name`, whole, in lower case and with all of its bytes taken, where the
-- buffers have room for it: two bytes more than its text.
pub decode_name-encode_name :
    (l : Bytes) (ls : List Bytes) (before after w : Bytes) (dstlen outlen : ℕ)
    → AreLabels (l ∷ ls)
    → length (dotted (l ∷ ls)) + 2 ≤ dstlen
    → length (dotted (l ∷ ls)) + 2 ≤ outlen
    → encode_name (dotted (l ∷ ls)) dstlen ≡ some w
    → decode_name (before ++ (w ++ after)) (length before) outlen
      ≡ name (map to_lower (dotted (l ∷ ls))) (length w)
unfolding decode_name
decode_name-encode_name l ls before after w dstlen outlen v r1 r2 e =
    let same : w ≡ wire (l ∷ ls) = some-cancel (sym e ∙ encode_name-dotted l ls dstlen v r1) in
    let buf = before ++ (w ++ after) in
    decode_loop-wire (l ∷ ls) (decode_fuel (length buf)) buf outlen (length before) (length before)
      0 [] after (drop-append before (w ++ after) ∙ ap (λ t. t ++ after) same) v (omega arith)
      (omega (
        arith,
        labels-le_wire (l ∷ ls),
        ap length same,
        length-append before (w ++ after),
        length-append w after,
      ))
      (omega (arith, length-wire-dotted l ls))
    ∙ ap₂ name (joined_all l ls v.0) (omega (arith, ap length same))
