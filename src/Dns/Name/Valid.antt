-- ===== src/Dns/Name/Valid.antt =====
-- The names that `dns_valid_hostname` lets into the configuration are names that
-- `dns_encode_name` can write.
use nanoproxy.Prelude.{
  ℕ, zero, suc, ◌+◌, ◌≤◌, ◌≡◌, ◌⊎◌, inl, refl, subst, true, Option, none, some, [], ◌∷◌, ◌++◌,
  Bytes, arith, length, length-append, length-take, take, drop,
}
use nanoproxy.Dns.Name.{
  label_length, skip_dot, encode_loop, encode_name, valid_loop, valid_hostname,
}

-- Behind a label stands nothing, or a dot with the rest.
label_split :
    (h : Bytes)
    → ((length h ≡ label_length h) × (skip_dot (drop (label_length h) h) ≡ []))
      ⊎ (label_length h + 1 + length (skip_dot (drop (label_length h) h)) ≡ length h)
unfolding label_length
label_split [] = inl (refl, refl)
label_split (c ∷ cs) = ground (arith, label_split cs)

-- room for a name: a length byte more than its text, and the zero
abbrev Room : ℕ → Bytes → ℕ → Type 0
Room have [] dstlen = have + 1 ≤ dstlen
Room have (c ∷ cs) dstlen = have + length (c ∷ cs) + 2 ≤ dstlen

abbrev Written : ℕ → Option Bytes → Type 0
Written n none = ⊥
Written n (some w) = length w ≤ n

Room-rest :
    (have n : ℕ) (c : ℕ) (cs rest : Bytes) (dstlen : ℕ)
    → Room have (c ∷ cs) dstlen
    → ((length (c ∷ cs) ≡ n) × (rest ≡ [])) ⊎ (n + 1 + length rest ≡ length (c ∷ cs))
    → Room (have + 1 + n) rest dstlen
Room-rest have n c cs [] dstlen r s = ground arith
Room-rest have n c cs (d ∷ rest) dstlen r s = ground arith

encode_loop-Written :
    (fuel : ℕ) (h out : Bytes) (dstlen : ℕ)
    → valid_loop fuel h ≡ true
    → Room (length out) h dstlen
    → Written dstlen (encode_loop fuel h out dstlen)
unfolding encode_loop valid_loop
encode_loop-Written zero [] out dstlen v r = ground (arith, length-append out (0 ∷ []))
encode_loop-Written (suc fuel) [] out dstlen v r = ground (arith, length-append out (0 ∷ []))
encode_loop-Written zero (c ∷ cs) out dstlen v r = cc
encode_loop-Written (suc fuel) (c ∷ cs) out dstlen v r =
    let n = label_length (c ∷ cs) in
    let rest = skip_dot (drop n (c ∷ cs)) in
    let next = out ++ n ∷ take n (c ∷ cs) in
    let split = label_split (c ∷ cs) in
    let size : length out + 1 + n ≡ length next =
      omega (arith, length-append out (n ∷ take n (c ∷ cs)), length-take n (c ∷ cs)) in
    let r' : Room (length next) rest dstlen =
      subst (λ k. Room k rest dstlen) size (Room-rest (length out) n c cs rest dstlen r split) in
    ground (arith, encode_loop-Written fuel rest next dstlen, r', split)

-- Every host name that the configuration accepts has at most 253 bytes, and `dns_encode_name` writes
-- it into any buffer with room for its text and two bytes more, within that room.
pub encode_name-Written :
    (h : Bytes) (dstlen : ℕ)
    → valid_hostname h ≡ true
    → length h + 2 ≤ dstlen
    → (w : Bytes) × (encode_name h dstlen ≡ some w) × (length w ≤ dstlen) × (length h ≤ 253)
unfolding valid_hostname encode_name
encode_name-Written [] dstlen v r = cc
encode_name-Written (c ∷ cs) dstlen v r =
    found (encode_loop (length (c ∷ cs)) (c ∷ cs) [] dstlen) refl
      (encode_loop-Written (length (c ∷ cs)) (c ∷ cs) [] dstlen (ground arith) (omega arith))
  where
    found :
        (o : Option Bytes)
        → encode_loop (length (c ∷ cs)) (c ∷ cs) [] dstlen ≡ o
        → Written dstlen o
        → (w : Bytes) × (encode_loop (length (c ∷ cs)) (c ∷ cs) [] dstlen ≡ some w)
          × (length w ≤ dstlen)
          × (length (c ∷ cs) ≤ 253)
    found none e h = absurd h
    found (some w) e h = (w, e, h, ground arith)
