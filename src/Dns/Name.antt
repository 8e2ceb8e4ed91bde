-- ===== src/Dns/Name.antt =====
-- `dns_decode_name` and `dns_encode_name` of include/dns.h, `dns_valid_hostname` of
-- include/config.h. A name is a C string without its NUL; -1 is `none` or `refused`.
pub mod Labels
pub mod Encode
pub mod Decode
pub mod Total
pub mod Valid
use nanoproxy.Prelude.{
  ℕ, zero, suc, ◌+◌, ◌-◌, ◌*◌, ◌/◌, ◌%◌, Bool, true, false, not, ◌&&◌, ◌||◌, Option, none, some,
  List, [], ◌∷◌, ◌++◌, Bytes, ltb, leb, ◌==◌, if◌then◌else◌, get_or, take, drop, length, to_lower,
}

-- What the decoder returns: the name and how many bytes it took, -1, or no end within the fuel.
pub data Decoded : Type 0 where
  name : Bytes → ℕ → Decoded
  refused : Decoded
  no_fuel : Decoded

-- `for (i = 0; i < len && opos < outlen - 1; i++)`: the label is put behind `out`, in lower case
unfoldable pub copy_label : ℕ → Bytes → Bytes → Bytes
copy_label outlen out [] = out
copy_label outlen out (c ∷ cs) =
    let rest = copy_label outlen (out ++ to_lower c ∷ []) cs in
    if ltb (length out) (outlen - 1) then rest else out

-- the dot in front of a label that is not the first
abbrev pub dot : ℕ → Bytes → Bytes
dot outlen out =
    if ltb 0 (length out) && ltb (length out) (outlen - 1) then out ++ b'.' ∷ [] else out

-- behind the loop; `first_end` is 0 where no end was seen
abbrev pub finish : ℕ → Bytes → ℕ → Decoded
finish off out first_end = if ltb off first_end then name out (first_end - off) else refused

-- the first end seen stays
abbrev pub seen : ℕ → ℕ → ℕ
seen first_end here = if first_end == 0 then here else first_end

-- The loop of `dns_decode_name`, on fuel. A length byte of 192 or more is a pointer.
unfoldable pub decode_loop : ℕ → Bytes → ℕ → ℕ → ℕ → ℕ → Bytes → ℕ → Decoded
decode_loop zero buf outlen off pos jumps out first_end = no_fuel
decode_loop (suc fuel) buf outlen off pos jumps out first_end =
    let len = get_or buf pos 0 in
    let ptr = len % 64 * 256 + get_or buf (pos + 1) 0 in
    let jump = decode_loop fuel buf outlen off ptr (jumps + 1) out (seen first_end (pos + 2)) in
    let label = copy_label outlen (dot outlen out) (take len (drop (pos + 1) buf)) in
    let more = decode_loop fuel buf outlen off (pos + 1 + len) jumps label first_end in
    if not (ltb pos (length buf))
    then finish off out first_end
    else if len == 0
    then finish off out (seen first_end (pos + 1))
    else if len / 64 == 3
    then (if leb (length buf) (pos + 1)
        then refused
        else if leb (length buf) ptr || ltb 64 (jumps + 1)
        then refused
        else jump)
    else if ltb 63 len || ltb (length buf) (pos + 1 + len)
    then refused
    else more

-- enough for 64 jumps, each with a walk over the whole packet
abbrev pub decode_fuel : ℕ → ℕ
decode_fuel n = 66 * (n + 1)

unfoldable pub decode_name : Bytes → ℕ → ℕ → Decoded
unfolding decode_loop copy_label to_lower
decode_name buf off outlen = decode_loop (decode_fuel (length buf)) buf outlen off off 0 [] 0

-- the length of the label in front, and what stands behind it and its dot
unfoldable pub label_length : Bytes → ℕ
label_length [] = 0
label_length (c ∷ cs) = let rest = label_length cs in if c == b'.' then 0 else suc rest

abbrev pub skip_dot : Bytes → Bytes
skip_dot [] = []
skip_dot (c ∷ cs) = if c == b'.' then cs else c ∷ cs

-- The loop of `dns_encode_name`; every round takes at least one byte of the name.
unfoldable pub encode_loop : ℕ → Bytes → Bytes → ℕ → Option Bytes
encode_loop fuel [] out dstlen = if leb dstlen (length out) then none else some (out ++ 0 ∷ [])
encode_loop zero (c ∷ cs) out dstlen = none
encode_loop (suc fuel) (c ∷ cs) out dstlen =
    let n = label_length (c ∷ cs) in
    let more = encode_loop fuel (skip_dot (drop n (c ∷ cs))) (out ++ n ∷ take n (c ∷ cs)) dstlen in
    if n == 0 || ltb 63 n || leb dstlen (length out + 1 + n) then none else more

unfoldable pub encode_name : Bytes → ℕ → Option Bytes
unfolding encode_loop label_length
encode_name host dstlen = encode_loop (length host) host [] dstlen

-- the bytes that a label may hold
unfoldable pub is_label_byte : ℕ → Bool
is_label_byte c =
    leb b'a' c && leb c b'z'
    || leb b'A' c && leb c b'Z'
    || leb b'0' c && leb c b'9'
    || c == b'-'
    || c == b'_'

unfoldable pub label_bytes : ℕ → Bytes → Bool
label_bytes zero p = true
label_bytes (suc n) p = is_label_byte (get_or p 0 0) && label_bytes n (drop 1 p)

-- the loop of `dns_valid_hostname`
unfoldable pub valid_loop : ℕ → Bytes → Bool
valid_loop fuel [] = true
valid_loop zero (c ∷ cs) = false
valid_loop (suc fuel) (c ∷ cs) =
    let n = label_length (c ∷ cs) in
    let more = valid_loop fuel (skip_dot (drop n (c ∷ cs))) in
    if n == 0 || ltb 63 n
    then false
    else if c == b'-'
    then false
    else if get_or (c ∷ cs) (n - 1) 0 == b'-'
    then false
    else label_bytes n (c ∷ cs) && more

unfoldable pub valid_hostname : Bytes → Bool
unfolding valid_loop label_bytes is_label_byte label_length
valid_hostname [] = false
valid_hostname (c ∷ cs) =
    if ltb 253 (length (c ∷ cs)) then false else valid_loop (length (c ∷ cs)) (c ∷ cs)
