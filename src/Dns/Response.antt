-- ===== src/Dns/Response.antt =====
-- `dns_build_response` of include/dns.h. All writes are at `pos`, so the bytes written are a list
-- that grows, `pos` its length; a write is not stopped at `outmax`, which `Response.Overrun` uses.
pub mod Counts
pub mod Header
pub mod Answers
pub mod Overrun
use nanoproxy.Prelude.{
  ℕ, zero, suc, ◌+◌, ◌-◌, ◌*◌, ◌/◌, ◌%◌, ◌^◌, Bool, true, false, not, ◌&&◌, ◌||◌, Option, none,
  some, List, [], ◌∷◌, ◌++◌, Bytes, ltb, leb, ◌==◌, if◌then◌else◌, get_or, set, take, drop, length,
  c_string,
}
use nanoproxy.Dns.Name.{Decoded, name, refused, no_fuel, decode_name, encode_name}
use nanoproxy.Dns.Config.{
  Rdata, a, aaaa, cname, ns, ptr, txt, mx, srv, soa, Record, rtype, Entry, find_entry,
}

-- `dns_put16` and `dns_put32`
abbrev pub put16 : ℕ → Bytes
put16 v = (v / 256 % 256) ∷ (v % 256) ∷ []

abbrev pub put32 : ℕ → Bytes
put32 v = (v / 2 ^ 24 % 256) ∷ (v / 2 ^ 16 % 256) ∷ (v / 2 ^ 8 % 256) ∷ (v % 256) ∷ []

-- a 16-bit field of the query
abbrev pub read16 : Bytes → ℕ → ℕ
read16 q i = get_or q i 0 * 256 + get_or q (i + 1) 0

-- `outmax - pos` of `size_t`
abbrev pub space : ℕ → Bytes → ℕ
space outmax out = (outmax + 2 ^ 64 - length out) % 2 ^ 64

-- a name behind `out`, or nothing where `dns_encode_name` returns -1
unfoldable pub put_name : ℕ → Bytes → Bytes → Bytes
put_name outmax host out = elim (encode_name host (space outmax out)) [
  | none ↦ out
  | some w ↦ out ++ w
]

-- the chunks of a text, of 255 bytes at most
unfoldable pub put_text : ℕ → ℕ → Bytes → Bytes → Bytes
put_text zero outmax text out = out
put_text (suc fuel) outmax text out =
    let chunk = if ltb 255 (length text) then 255 else length text in
    let more = put_text fuel outmax (drop chunk text) (out ++ chunk ∷ take chunk text) in
    if length text == 0 then out else if ltb outmax (length out + 1 + chunk) then out else more

-- the `switch` over the record's type
unfoldable pub put_rdata : ℕ → Rdata → Bytes → Bytes
put_rdata outmax (a addr) out = if ltb outmax (length out + 4) then out else out ++ take 4 addr
put_rdata outmax (aaaa addr) out = if ltb outmax (length out + 16) then out else out ++ take 16 addr
put_rdata outmax (cname host) out = put_name outmax host out
put_rdata outmax (ns host) out = put_name outmax host out
put_rdata outmax (ptr host) out = put_name outmax host out
put_rdata outmax (mx priority host) out =
    if ltb outmax (length out + 2) then out else put_name outmax host (out ++ put16 priority)
put_rdata outmax (txt text) out = put_text (length text + 1) outmax text out
put_rdata outmax (srv priority weight port target) out =
    if ltb outmax (length out + 6)
    then out
    else put_name outmax target (out ++ (put16 priority ++ (put16 weight ++ put16 port)))
put_rdata outmax soa out = out

-- the two bytes at `i` are given the value
abbrev pub patch16 : ℕ → ℕ → Bytes → Bytes
patch16 i v out = set (set out i (v / 256 % 256)) (i + 1) (v % 256)

-- Is the record part of the answer?
unfoldable pub wanted : ℕ → Rdata → Bool
unfolding rtype
wanted qtype r = qtype == 255 || rtype r == qtype || rtype r == 5

-- The head of a record: pointer, type, class, TTL and the place of its length.
abbrev pub pointer : ℕ → Bytes
pointer off = (192 + off / 256 % 64) ∷ (off % 256) ∷ []

abbrev pub fixed_part : Record → Bytes
fixed_part r = put16 (rtype r.rdata) ++ (put16 1 ++ (put32 r.ttl ++ put16 0))

-- the data of a record behind its head, with the length patched in
unfoldable pub put_record : ℕ → Record → Bytes → Bytes
put_record outmax r head =
    let full = put_rdata outmax r.rdata head in
    patch16 (length head - 2) ((length full - length head) % 2 ^ 16) full

-- The loop over the records: the bytes, and `ancount`.
unfoldable pub put_answers : ℕ → ℕ → ℕ → List Record → Bytes → ℕ → Bytes × ℕ
put_answers outmax qtype off [] out ancount = (out, ancount)
put_answers outmax qtype off (r ∷ rs) out ancount =
    let skip = put_answers outmax qtype off rs out ancount in
    let named = out ++ pointer off in
    let full = put_record outmax r (named ++ fixed_part r) in
    let next = put_answers outmax qtype off rs full ((ancount + 1) % 2 ^ 16) in
    if not (wanted qtype r.rdata)
    then skip
    else if ltb outmax (length out + 2)
    then (out, ancount)
    else if ltb outmax (length named + 8)
    then (named, ancount)
    else next

-- `flags & DNS_FLAG_RD`
abbrev pub recursion_bit : ℕ → ℕ
recursion_bit flags = if flags / 256 % 2 == 1 then 256 else 0

-- what the query asks
pub record Question : Type 0 where
  pub id : ℕ
  pub flags : ℕ
  pub qname : Bytes
  pub name_bytes : ℕ
  pub qtype : ℕ
  pub qclass : ℕ

abbrev pub header_size : ℕ
header_size = 12

-- the parsing at the start of `dns_build_response`; `none` where it returns 0
unfoldable pub read_question : Bytes → ℕ → Option Question
read_question query outmax =
    if ltb (length query) header_size || ltb outmax 512
    then none
    else if read16 query 4 == 0
    then none
    else elim (decode_name query header_size 256) [
      | refused ↦ none
      | no_fuel ↦ none
      | name qname n ↦
          if ltb (length query) (header_size + n + 4)
          then none
          else some (record {
            id = read16 query 0;
            flags = read16 query 2;
            qname = c_string qname;
            name_bytes = n;
            qtype = read16 query (header_size + n);
            qclass = read16 query (header_size + n + 2);
          })
    ]

-- the entry that is answered with
unfoldable pub entry_of : List Entry → Question → Option Entry
entry_of cfg q = if q.qclass == 1 then find_entry cfg q.qname else none

unfoldable pub rcode_of : Question → Option Entry → ℕ
rcode_of q found = if q.qclass == 1 then elim found [ none ↦ 3 | some e ↦ 0 ] else 5

unfoldable pub records_of : Option Entry → List Record
records_of none = []
records_of (some e) = e.records

-- the twelve bytes in front; QR and AA are set, RD is the query's
unfoldable pub header_of : Question → ℕ → ℕ → Bytes
header_of q rcode ancount =
    put16 q.id
    ++ (put16 (0x8400 + recursion_bit q.flags + rcode)
        ++ (put16 1 ++ (put16 ancount ++ (put16 0 ++ put16 0))))

-- Returns the packet; the empty one for a return value of 0.
unfoldable pub build_response : Bytes → List Entry → ℕ → Bytes
build_response query cfg outmax = elim (read_question query outmax) [
  | none ↦ []
  | some q ↦
      let found = entry_of cfg q in
      let total = q.name_bytes + 4 in
      let asked = take total (drop header_size query) in
      let front = header_of q (rcode_of q found) 0 ++ asked in
      if ltb outmax (header_size + total)
      then []
      else (let (out, ancount) =
            put_answers outmax q.qtype header_size (records_of found) front 0 in
          patch16 6 ancount out)
]
