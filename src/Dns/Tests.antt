-- ===== src/Dns/Tests.antt =====
-- Runs of the DNS responder, and the instances of its theorems.
use nanoproxy.Prelude.{
  ◌≤◌, ◌<◌, ◌≡◌, refl, true, some, List, [], ◌∷◌, ◌++◌, Bytes, arith, codes, length, equal,
  to_lower, map, replicate, c_string, length-replicate,
}
use nanoproxy.Dns.Name.{Decoded, name, decode_name, encode_name, valid_hostname}
use nanoproxy.Dns.Name.Labels.{dotted, wire}
use nanoproxy.Dns.Name.Decode.{decode_name-encode_name}
use nanoproxy.Dns.Name.Total.{InBounds, decode_name-InBounds}
use nanoproxy.Dns.Name.Valid.{encode_name-Written}
use nanoproxy.Dns.Config.{a, mx, Record, rtype, Entry, find_entry}
use nanoproxy.Dns.Response.{
  put_record, put_rdata, put_answers, wanted, Question, read_question, entry_of, rcode_of,
  records_of, header_of, build_response,
}
use nanoproxy.Dns.Response.Header.{IsResponse, build_response-IsResponse}
use nanoproxy.Dns.Response.Overrun.{put_record-le, put_answers_overrun}

abbrev www : List Bytes
www = codes "example" ∷ codes "com" ∷ []

host : Bytes
unfolding dotted
host = dotted (codes "Www" ∷ www)

www_wire : Bytes
unfolding wire
www_wire = wire (codes "Www" ∷ www)

www_encoded : encode_name (dotted (codes "Www" ∷ www)) 255 ≡ some www_wire
unfolding encode_name dotted www_wire
www_encoded = refl

decode_name-encode_name_example :
    decode_name (replicate 12 0 ++ (www_wire ++ 0 ∷ 1 ∷ 0 ∷ 1 ∷ [])) 12 256
    ≡ name (map to_lower (dotted (codes "Www" ∷ www))) (length www_wire)
unfolding dotted
decode_name-encode_name_example =
    decode_name-encode_name (codes "Www") www (replicate 12 0) (0 ∷ 1 ∷ 0 ∷ 1 ∷ []) www_wire 255 256
      (
        record { not_empty = omega arith; short = omega arith; no_dot = refl },
        (
          record { not_empty = omega arith; short = omega arith; no_dot = refl },
          (record { not_empty = omega arith; short = omega arith; no_dot = refl }, tt),
        ),
      )
      (omega arith) (omega arith) www_encoded

-- a name that is a pointer to itself
abbrev ring : Bytes
ring = replicate 12 0 ++ 192 ∷ 12 ∷ []

decode_name-InBounds_example : InBounds 14 256 12 (decode_name ring 12 256)
decode_name-InBounds_example = decode_name-InBounds ring 12 256 (omega arith)

ring_refused : decode_name ring 12 256 ≡ Decoded.refused
unfolding decode_name
ring_refused = refl

abbrev srv_name : Bytes
srv_name = codes "_sip.my-host.net"

srv_name_valid : valid_hostname srv_name ≡ true
unfolding valid_hostname
srv_name_valid = refl

encode_name-Written_case :
    (w : Bytes) × (encode_name srv_name 255 ≡ some w) × (length w ≤ 255) × (length srv_name ≤ 253)
encode_name-Written_case = encode_name-Written srv_name 255 srv_name_valid (omega arith)

abbrev config : List Entry
config =
    record {
      host = codes "a.b";
      records =
          record { ttl = 60; rdata = a (127 ∷ 0 ∷ 0 ∷ 1 ∷ []) }
          ∷ record { ttl = 60; rdata = mx 10 (codes "m.b") }
          ∷ [];
    }
    ∷ []

-- an A query for `A.b` with the id 0x1234 and RD set
abbrev query : Bytes
query =
    0x12 ∷ 0x34 ∷ 1 ∷ 0 ∷ 0 ∷ 1 ∷ 0 ∷ 0 ∷ 0 ∷ 0 ∷ 0 ∷ 0 ∷ 1 ∷ b'A' ∷ 1 ∷ b'b' ∷ 0 ∷ 0 ∷ 1 ∷ 0 ∷ 1
    ∷ []

abbrev question : Question
question = record {
  id = 0x1234;
  flags = 256;
  qname = codes "a.b";
  name_bytes = 5;
  qtype = 1;
  qclass = 1;
}

query_read : read_question query 4096 ≡ some question
unfolding read_question decode_name c_string
query_read = refl

response :
    build_response query config 4096
    ≡ 0x12 ∷ 0x34 ∷ 0x85 ∷ 0 ∷ 0 ∷ 1 ∷ 0 ∷ 1 ∷ 0 ∷ 0 ∷ 0 ∷ 0 ∷ 1 ∷ b'A' ∷ 1 ∷ b'b' ∷ 0 ∷ 0 ∷ 1 ∷ 0
      ∷ 1 ∷ 0xc0 ∷ 12 ∷ 0 ∷ 1 ∷ 0 ∷ 1 ∷ 0 ∷ 0 ∷ 0 ∷ 60 ∷ 0 ∷ 4 ∷ 127 ∷ 0 ∷ 0 ∷ 1 ∷ []
unfolding build_response read_question decode_name c_string entry_of find_entry rcode_of records_of
    put_answers put_record put_rdata wanted rtype equal header_of
response = refl

build_response-IsResponse_example :
    IsResponse query config 4096 (codes "a.b") 5 (build_response query config 4096)
unfolding decode_name
build_response-IsResponse_example =
    build_response-IsResponse query config 4096 (codes "a.b") 5 (omega arith) (omega arith)
      (omega arith) refl refl (omega arith) (omega arith) (omega arith)

abbrev local_address : Record
local_address = record { ttl = 60; rdata = a (127 ∷ 0 ∷ 0 ∷ 1 ∷ []) }

local_address_wanted : wanted 1 local_address.rdata ≡ true
unfolding wanted rtype
local_address_wanted = refl

put_answers_overrun_example :
    512 < length (put_answers 512 1 12 (local_address ∷ []) (replicate 502 0) 0).0
put_answers_overrun_example =
    put_answers_overrun 512 1 12 local_address (replicate 502 0) 0 local_address_wanted
      (omega (arith, length-replicate 502 (Prim.Native.Nat.zero)))
      (omega (arith, length-replicate 502 (Prim.Native.Nat.zero)))

put_record-le_case :
    (500 ≤ length (put_record 512 local_address (replicate 500 0)))
    × (length (put_record 512 local_address (replicate 500 0)) ≤ 512)
put_record-le_case = put_record-le 512 local_address (replicate 500 0) (omega arith) (omega arith)
