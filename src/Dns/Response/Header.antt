-- ===== src/Dns/Response/Header.antt =====
-- What stands at the front of every response of `dns_build_response`.
use nanoproxy.Prelude.{
  ℕ, ◌+◌, ◌-◌, ◌*◌, ◌/◌, ◌%◌, ◌^◌, ◌≤◌, ◌<◌, ◌≡◌, ◌≢◌, refl, sym, ap, ◌∙◌, false, ◌||◌, Option,
  none, some, List, [], ◌∷◌, ◌++◌, Bytes, arith, ltb, ◌==◌, get_or, length, c_string, take, drop,
  append_assoc, append-nil, length-append, length-take, length-drop, ◌⊎◌, inl, inr, Bool-cases,
  Option-cases,
}
use nanoproxy.Dns.Config.{Entry, find_entry}
use nanoproxy.Dns.Name.{name, decode_name}
use nanoproxy.Dns.Response.{
  put_answers, recursion_bit, read16, patch16, header_size, Question, read_question, entry_of,
  rcode_of, records_of, header_of, build_response,
}
use nanoproxy.Dns.Response.Counts.{matching, put_answers-count, put_answers-all}
use nanoproxy.Dns.Response.Answers.{put_answers-Behind}

-- the patch of `ancount` in the header
patch-header_of :
    (q : Question) (rcode n : ℕ) (rest : Bytes)
    → patch16 6 n (header_of q rcode 0 ++ rest) ≡ header_of q rcode n ++ rest
unfolding header_of
patch-header_of q rcode n rest = refl

-- the answer of the whole loop, with its count
abbrev pub answers : Bytes → Question → List Entry → ℕ → Bytes × ℕ
answers asked q cfg outmax =
    put_answers outmax q.qtype header_size (records_of (entry_of cfg q))
      (header_of q (rcode_of q (entry_of cfg q)) 0 ++ asked) 0

build_response-patch :
    (query : Bytes) (cfg : List Entry) (outmax : ℕ) (q : Question)
    → read_question query outmax ≡ some q
    → header_size + (q.name_bytes + 4) ≤ outmax
    → let out = answers (take (q.name_bytes + 4) (drop header_size query)) q cfg outmax in
      build_response query cfg outmax ≡ patch16 6 out.1 out.0
unfolding build_response
build_response-patch query cfg outmax q e room = ground arith

-- The header in numbers: the query's id, the bits QR and AA with the query's RD, the code, the counts.
abbrev pub header_bytes : Bytes → ℕ → ℕ → Bytes
header_bytes query rcode count =
    get_or query 0 0
    ∷ get_or query 1 0
    ∷ (0x84 + get_or query 2 0 % 2)
    ∷ rcode
    ∷ 0
    ∷ 1
    ∷ (count / 256)
    ∷ (count % 256)
    ∷ 0
    ∷ 0
    ∷ 0
    ∷ 0
    ∷ []

-- What the configuration says to a question: the code REFUSED for a class that is not IN, NXDOMAIN for
-- a name that it does not have, and otherwise 0 and records of the entry: all of the type, modulo 2^16, unless
-- less than ten bytes of the room are left.
abbrev pub Lookup : List Entry → ℕ → ℕ → ℕ → Bytes → ℕ → ℕ → Bytes → Type 0
Lookup cfg room qtype qclass qname rcode count more =
    ((qclass ≢ 1) × ((rcode ≡ 5) × ((count ≡ 0) × (more ≡ []))))
    ⊎ (((qclass ≡ 1)
          × ((find_entry cfg qname ≡ none) × ((rcode ≡ 3) × ((count ≡ 0) × (more ≡ [])))))
        ⊎ ((qclass ≡ 1)
            × ((e : Entry) × ((find_entry cfg qname ≡ some e)
                  × ((rcode ≡ 0)
                      × ((count ≤ matching qtype e.records)
                          × ((count ≡ matching qtype e.records % 2 ^ 16)
                              ⊎ (room < length more + 10))))))))

-- A response to a question whose name takes `n` bytes of the query: header, question and records.
pub record IsResponse (query : Bytes) (cfg : List Entry) (outmax : ℕ) (qname : Bytes) (n : ℕ)
    (out : Bytes) : Type 0 where
  pub rcode : ℕ
  pub count : ℕ
  pub more : Bytes
  pub bytes_eq : out ≡ header_bytes query rcode count ++ (take (n + 4) (drop 12 query) ++ more)
  pub lookup :
      Lookup cfg
        (outmax - (12 + (n + 4)))
        (read16 query (12 + n))
        (read16 query (12 + n + 2))
        (c_string qname)
        rcode
        count
        more

-- the bytes of the header, if those of the query are bytes
header_of-bytes :
    (query : Bytes) (q : Question) (rcode count : ℕ) (rest : Bytes)
    → q.id ≡ read16 query 0
    → q.flags ≡ read16 query 2
    → get_or query 0 0 < 256
    → get_or query 1 0 < 256
    → get_or query 3 0 < 256
    → rcode < 16
    → count < 2 ^ 16
    → header_of q rcode count ++ rest ≡ header_bytes query rcode count ++ rest
unfolding header_of
header_of-bytes query q rcode count rest i f a b d small few =
    let id_high : q.id / 256 % 256 ≡ get_or query 0 0 = omega (arith, i, a, b) in
    let id_low : q.id % 256 ≡ get_or query 1 0 = omega (arith, i, b) in
    let rd : recursion_bit q.flags ≡ 256 * (get_or query 2 0 % 2) = ground (arith, f, d) in
    let high : (0x8400 + recursion_bit q.flags + rcode) / 256 % 256 ≡ 0x84 + get_or query 2 0 % 2 =
      omega (arith, rd, small) in
    let low : (0x8400 + recursion_bit q.flags + rcode) % 256 ≡ rcode = omega (arith, rd, small) in
    let count_high : count / 256 % 256 ≡ count / 256 = omega (arith, few) in
    rw (id_high, id_low, high, low, count_high) refl

-- the response that records of an entry, or of none, bring about
answered : Bytes → ℕ → Question → Option Entry → Bytes × ℕ
answered asked outmax q found =
    put_answers outmax q.qtype header_size (records_of found)
      (header_of q (rcode_of q found) 0 ++ asked) 0

build_response-answered :
    (query : Bytes) (cfg : List Entry) (outmax : ℕ) (q : Question) (found : Option Entry)
    → read_question query outmax ≡ some q
    → header_size + (q.name_bytes + 4) ≤ outmax
    → entry_of cfg q ≡ found
    → let out = answered (take (q.name_bytes + 4) (drop header_size query)) outmax q found in
      build_response query cfg outmax ≡ patch16 6 out.1 out.0
unfolding answered
build_response-answered query cfg outmax q found e room f =
    let asked = take (q.name_bytes + 4) (drop header_size query) in
    build_response-patch query cfg outmax q e room
    ∙ ap (λ o. patch16 6 (answered asked outmax q o).1 (answered asked outmax q o).0) f

-- the question that is read from a query
abbrev asks : Bytes → Bytes → ℕ → Question
asks query qname n = record {
  id = read16 query 0;
  flags = read16 query 2;
  qname = c_string qname;
  name_bytes = n;
  qtype = read16 query (12 + n);
  qclass = read16 query (12 + n + 2);
}

read_question-asks :
    (query : Bytes) (outmax : ℕ) (qname : Bytes) (n : ℕ)
    → decode_name query 12 256 ≡ name qname n
    → 12 + n + 4 ≤ length query
    → 512 ≤ outmax
    → (read16 query 4 == 0) ≡ false
    → read_question query outmax ≡ some (asks query qname n)
unfolding read_question
read_question-asks query outmax qname n e long room some_question =
    let enough : (ltb (length query) 12 || ltb outmax 512) ≡ false = ground (arith, long, room) in
    let whole : ltb (length query) (12 + n + 4) ≡ false = ground (arith, long) in
    rw (enough, some_question, e, whole) refl

module _ (query : Bytes) (cfg : List Entry) (outmax : ℕ) (qname : Bytes) (n : ℕ)
    (a : get_or query 0 0 < 256) (b : get_or query 1 0 < 256) (d : get_or query 3 0 < 256)
    (e : read_question query outmax ≡ some (asks query qname n)) (long : 12 + n + 4 ≤ length query)
    (room : 12 + (n + 4) ≤ outmax) where
  asked_bytes : Bytes
  asked_bytes = take (n + 4) (drop 12 query)

  no_entry :
      (rcode : ℕ)
      → entry_of cfg (asks query qname n) ≡ none
      → rcode_of (asks query qname n) none ≡ rcode
      → rcode < 16
      → build_response query cfg outmax ≡ header_bytes query rcode 0 ++ (asked_bytes ++ [])
  unfolding answered records_of put_answers asked_bytes
  no_entry rcode f c small =
      let q = asks query qname n in
      let asked = take (n + 4) (drop 12 query) in
      build_response-answered query cfg outmax q none e room f
      ∙ patch-header_of q (rcode_of q none) 0 asked
      ∙ ap (λ k. header_of q k 0 ++ asked) c
      ∙ header_of-bytes query q rcode 0 asked refl refl a b d small (omega arith)
      ∙ ap (λ t. header_bytes query rcode 0 ++ t) (sym (append-nil asked))

  length_front :
      (rcode : ℕ)
      → length (header_of (asks query qname n) rcode 0 ++ take (n + 4) (drop 12 query))
        ≡ 12 + (n + 4)
  unfolding header_of
  length_front rcode =
      omega (arith, long, length-take (n + 4) (drop 12 query), length-drop 12 query)

  an_entry :
      (found : Entry)
      → entry_of cfg (asks query qname n) ≡ some found
      → rcode_of (asks query qname n) (some found) ≡ 0
      → (count : ℕ) × (more : Bytes) × ((build_response query cfg outmax
            ≡ header_bytes query 0 count ++ (asked_bytes ++ more))
          × ((count ≤ matching (read16 query (12 + n)) found.records)
              × ((count ≡ matching (read16 query (12 + n)) found.records % 2 ^ 16)
                  ⊎ (outmax - (12 + (n + 4)) < length more + 10))))
  unfolding answered records_of asked_bytes
  an_entry found f c =
      let q = asks query qname n in
      let asked = take (n + 4) (drop 12 query) in
      let front = header_of q (rcode_of q (some found)) 0 ++ asked in
      let (more, behind) = put_answers-Behind outmax q.qtype 12 found.records front 0 in
      let bound = put_answers-count outmax q.qtype 12 found.records front 0 (omega arith) in
      let count = (put_answers outmax q.qtype 12 found.records front 0).1 in
      let used : length front ≡ 12 + (n + 4) = length_front (rcode_of q (some found)) in
      let left : (count ≡ matching q.qtype found.records % 2 ^ 16)
          ⊎ (outmax - (12 + (n + 4)) < length more + 10) =
        elim (put_answers-all outmax q.qtype 12 found.records front 0 (omega arith)) [
          | inl all_counted ↦ inl (omega (arith, all_counted))
          | inr full_up ↦ inr (
              omega
                (arith, full_up, used, room, ap (λ t. length t) behind, length-append front more))
        ] in
      (
        count,
        more,
        (
          build_response-answered query cfg outmax q (some found) e room f
              ∙ ap (patch16 6 count)
                  (behind ∙ append_assoc (header_of q (rcode_of q (some found)) 0) asked more)
              ∙ patch-header_of q (rcode_of q (some found)) count (asked ++ more)
              ∙ ap (λ k. header_of q k count ++ (asked ++ more)) c
              ∙ header_of-bytes query q 0 count (asked ++ more) refl refl a b d (omega arith)
                  bound.1,
          (omega (arith, bound.0), left),
        ),
      )

  respond : IsResponse query cfg outmax qname n (build_response query cfg outmax)
  unfolding rcode_of entry_of asked_bytes
  respond = elim (Bool-cases (read16 query (12 + n + 2) == 1)) [
    | inr other ↦ record {
      rcode = 5;
      count = 0;
      more = [];
      bytes_eq = no_entry 5 (rw other refl) (rw other refl) (omega arith);
      lookup = inl (ground (arith, other), (refl, (refl, refl)));
    }
    | inl internet ↦ elim (Option-cases (find_entry cfg (c_string qname))) [
      | inl missing ↦ record {
        rcode = 3;
        count = 0;
        more = [];
        bytes_eq = no_entry 3 (rw internet missing) (rw internet refl) (omega arith);
        lookup = inr (inl (ground (arith, internet), (missing, (refl, (refl, refl)))));
      }
      | inr (found, here) ↦
          let (count, more, (same, few)) = an_entry found (rw internet here) (rw internet refl) in
          record {
            rcode = 0;
            count = count;
            more = more;
            bytes_eq = same;
            lookup = inr (inr (ground (arith, internet), (found, (here, (refl, few)))));
          }
    ]
  ]

-- A query of bytes below 256 with one or more questions, whose first one is whole and has a name that can be
-- decoded, gets a response where the buffer has 512 bytes and room for the question: the query's id, QR and AA
-- set, RD as in the query, no other flag, the code of the lookup, one question, the count of the answers, no
-- other records; then the question as it came, byte for byte; and then the answers. For the class IN and a name
-- of the configuration the code is 0 and the count is, modulo 2^16, that of the entry's records of the type (any
-- for ANY, and always those of CNAME), or at most that where less than ten bytes of the buffer are left. There are
-- no answers where the code is an error: REFUSED for a class other than IN, NXDOMAIN for a name that the
-- configuration has not.
pub build_response-IsResponse :
    (query : Bytes) (cfg : List Entry) (outmax : ℕ) (qname : Bytes) (n : ℕ)
    → get_or query 0 0 < 256
    → get_or query 1 0 < 256
    → get_or query 3 0 < 256
    → (read16 query 4 == 0) ≡ false
    → decode_name query 12 256 ≡ name qname n
    → 12 + n + 4 ≤ length query
    → 512 ≤ outmax
    → 12 + (n + 4) ≤ outmax
    → IsResponse query cfg outmax qname n (build_response query cfg outmax)
build_response-IsResponse query cfg outmax qname n a b d some_question e long room fits =
    respond query cfg outmax qname n a b d
      (read_question-asks query outmax qname n e long room some_question) long fits
