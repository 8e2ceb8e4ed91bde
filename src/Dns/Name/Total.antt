-- ===== src/Dns/Name/Total.antt =====
-- `dns_decode_name` ends on every packet, inside its buffers.
use nanoproxy.Prelude.{
  ℕ, zero, suc, ◌+◌, ◌-◌, ◌*◌, ◌%◌, ◌≤◌, ◌<◌, ◌≡◌, refl, [], ◌∷◌, ◌++◌, Bytes, arith, length,
  length-append, get_or, take, drop, to_lower,
}
use nanoproxy.Dns.Name.{
  Decoded, name, refused, no_fuel, copy_label, dot, seen, decode_loop, decode_fuel, decode_name,
}

-- What a call owes: it ends, the name fits with its NUL, and the bytes taken lie in the packet.
abbrev pub InBounds : ℕ → ℕ → ℕ → Decoded → Type 0
InBounds buflen outlen off (name out taken) = (length out < outlen) × (off + taken ≤ buflen)
InBounds buflen outlen off refused = Unit
InBounds buflen outlen off no_fuel = ⊥

copy_label-lt :
    (outlen : ℕ) (out l : Bytes) → length out < outlen → length (copy_label outlen out l) < outlen
unfolding copy_label
copy_label-lt outlen out [] h = h
copy_label-lt outlen out (c ∷ l) h =
    ground
      (arith, copy_label-lt outlen (out ++ to_lower c ∷ []) l, length-append out (to_lower c ∷ []))

dot-lt : (outlen : ℕ) (out : Bytes) → length out < outlen → length (dot outlen out) < outlen
dot-lt outlen out h = ground (arith, length-append out (b'.' ∷ []))

-- a jump costs more than the walk that it can start over
jump_budget :
    (left buflen pos ptr fuel : ℕ)
    → 0 < left
    → left * (buflen + 1) + (buflen - pos) < suc fuel
    → (left - 1) * (buflen + 1) + (buflen - ptr) < fuel
jump_budget zero buflen pos ptr fuel p h = absurd (omega arith)
jump_budget (suc left) buflen pos ptr fuel p h =
    let e : suc left - 1 ≡ left = omega arith in rw e (omega arith)

-- `left` jumps are still allowed.
decode_loop-InBounds :
    (fuel : ℕ) (buf : Bytes) (outlen off pos jumps left : ℕ) (out : Bytes) (first_end : ℕ)
    → jumps + left ≡ 64
    → left * (length buf + 1) + (length buf - pos) < fuel
    → length out < outlen
    → first_end ≤ length buf
    → InBounds (length buf) outlen off (decode_loop fuel buf outlen off pos jumps out first_end)
unfolding decode_loop
decode_loop-InBounds zero buf outlen off pos jumps left out first_end j m o f = elim m [ ]
decode_loop-InBounds (suc fuel) buf outlen off pos jumps left out first_end j m o f =
    let len = get_or buf pos 0 in
    let ptr = len % 64 * 256 + get_or buf (pos + 1) 0 in
    let label = copy_label outlen (dot outlen out) (take len (drop (pos + 1) buf)) in
    ground (
      arith,
      jump_budget left (length buf) pos ptr fuel,
      decode_loop-InBounds fuel buf outlen off ptr (jumps + 1) (left - 1) out
          (seen first_end (pos + 2)),
      decode_loop-InBounds fuel buf outlen off (pos + 1 + len) jumps left label first_end,
      copy_label-lt outlen (dot outlen out) (take len (drop (pos + 1) buf)),
      dot-lt outlen out o,
    )

-- Whatever the packet holds, pointers that go round in a ring included, `dns_decode_name` ends; the
-- name that it gives is shorter than the buffer for it, with room for the NUL, and the bytes that
-- it says the name takes lie in the packet. The buffer for the name has at least one byte.
pub decode_name-InBounds :
    (buf : Bytes) (off outlen : ℕ)
    → 0 < outlen
    → InBounds (length buf) outlen off (decode_name buf off outlen)
unfolding decode_name
decode_name-InBounds buf off outlen h =
    decode_loop-InBounds (decode_fuel (length buf)) buf outlen off off 0 64 [] 0 refl (omega arith)
      h (omega arith)
