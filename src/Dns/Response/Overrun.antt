-- ===== src/Dns/Response/Overrun.antt =====
-- Where the records of a response stay in the buffer, and where they do not.
use nanoproxy.Prelude.{
  ℕ, zero, suc, ◌+◌, ◌-◌, ◌/◌, ◌%◌, ◌^◌, ◌≤◌, ◌<◌, ◌≡◌, refl, ap, ◌∙◌, true, Option, none, some, [],
  ◌∷◌, ◌++◌, Bytes, arith, length, length-append, length-take, length-set, set, take, drop, ltb,
  if◌then◌else◌,
}
use nanoproxy.Dns.Name.{encode_loop, encode_name, label_length, skip_dot}
use nanoproxy.Dns.Config.{Rdata, a, aaaa, cname, ns, ptr, txt, mx, srv, soa, Record}
use nanoproxy.Dns.Response.{
  put16, put_name, put_text, put_rdata, patch16, put_record, put_answers, pointer, wanted, space,
}
use nanoproxy.Dns.Response.Answers.{put_rdata-Behind, head_of, length-head_of}

-- What the encoder writes fits in the room it is told of.
encode_loop-le :
    (fuel : ℕ) (h out : Bytes) (dstlen : ℕ) (w : Bytes)
    → encode_loop fuel h out dstlen ≡ some w
    → length w ≤ dstlen
unfolding encode_loop
encode_loop-le zero [] out dstlen w e = ground (arith, length-append out (0 ∷ []))
encode_loop-le (suc fuel) [] out dstlen w e = ground (arith, length-append out (0 ∷ []))
encode_loop-le zero (c ∷ cs) out dstlen w e = cc
encode_loop-le (suc fuel) (c ∷ cs) out dstlen w e =
    let n = label_length (c ∷ cs) in
    ground (
      arith,
      encode_loop-le fuel (skip_dot (drop n (c ∷ cs))) (out ++ n ∷ take n (c ∷ cs)) dstlen w,
    )

encode_name-le :
    (h : Bytes) (dstlen : ℕ) (w : Bytes) → encode_name h dstlen ≡ some w → length w ≤ dstlen
unfolding encode_name
encode_name-le h dstlen w e = encode_loop-le (length h) h [] dstlen w e

module _ (outmax : ℕ) (small : outmax < 2 ^ 64) where
  put_name-le :
      (host out : Bytes) → length out ≤ outmax → length (put_name outmax host out) ≤ outmax
  unfolding put_name
  put_name-le host out h = go (encode_name host (space outmax out)) refl
    where
      go :
          (o : Option Bytes)
          → encode_name host (space outmax out) ≡ o
          → length (elim o [ none ↦ out | some w ↦ out ++ w ]) ≤ outmax
      go none e = h
      go (some w) e = omega (arith, length-append out w, encode_name-le host (space outmax out) w e)

  put_text-le :
      (fuel : ℕ) (text out : Bytes)
      → length out ≤ outmax
      → length (put_text fuel outmax text out) ≤ outmax
  unfolding put_text
  put_text-le zero text out h = h
  put_text-le (suc fuel) text out h =
      let chunk = if ltb 255 (length text) then 255 else length text in
      ground (
        arith,
        put_text-le fuel (drop chunk text) (out ++ chunk ∷ take chunk text),
        length-append out (chunk ∷ take chunk text),
        length-take chunk text,
      )

  put_rdata-le :
      (r : Rdata) (out : Bytes) → length out ≤ outmax → length (put_rdata outmax r out) ≤ outmax
  unfolding put_rdata
  put_rdata-le (a addr) out h = ground (arith, length-append out (take 4 addr), length-take 4 addr)
  put_rdata-le (aaaa addr) out h =
      ground (arith, length-append out (take 16 addr), length-take 16 addr)
  put_rdata-le (cname host) out h = put_name-le host out h
  put_rdata-le (ns host) out h = put_name-le host out h
  put_rdata-le (ptr host) out h = put_name-le host out h
  put_rdata-le (mx priority host) out h =
      ground (arith, put_name-le host (out ++ put16 priority), length-append out (put16 priority))
  put_rdata-le (txt text) out h = put_text-le (length text + 1) text out h
  put_rdata-le (srv priority weight port target) out h =
      let fields = put16 priority ++ (put16 weight ++ put16 port) in
      ground (arith, put_name-le target (out ++ fields), length-append out fields)
  put_rdata-le soa out h = h

length-patch16 : (i v : ℕ) (out : Bytes) → length (patch16 i v out) ≡ length out
length-patch16 i v out =
    length-set (set out i (v / 256 % 256)) (i + 1) (v % 256) ∙ length-set out i (v / 256 % 256)

-- A record whose head ends inside the output buffer stays inside it as a whole, whatever its type
-- and its data are: what does not fit is left out.
pub put_record-le :
    (outmax : ℕ) (r : Record) (head : Bytes)
    → outmax < 2 ^ 64
    → length head ≤ outmax
    → (length head ≤ length (put_record outmax r head))
      × (length (put_record outmax r head) ≤ outmax)
unfolding put_record
put_record-le outmax r head small h =
    let (more, e) = put_rdata-Behind outmax r.rdata head in
    let same =
      length-patch16 (length head - 2)
        ((length (put_rdata outmax r.rdata head) - length head) % 2 ^ 16)
        (put_rdata outmax r.rdata head) in
    (
      omega (arith, same, ap length e, length-append head more),
      omega (arith, same, put_rdata-le outmax small r.rdata head h),
    )

-- The head of a record takes twelve bytes, but the test in front of it asks for ten: a record that
-- is wanted in a buffer with just ten or eleven bytes left is written over the end of the buffer.
pub put_answers_overrun :
    (outmax qtype off : ℕ) (r : Record) (out : Bytes) (n : ℕ)
    → wanted qtype r.rdata ≡ true
    → length out + 10 ≤ outmax
    → outmax < length out + 12
    → outmax < length (put_answers outmax qtype off (r ∷ []) out n).0
unfolding put_answers put_record
put_answers_overrun outmax qtype off r out n w lo hi =
    let head = head_of off r out in
    let (more, e) = put_rdata-Behind outmax r.rdata head in
    let v = (length (put_rdata outmax r.rdata head) - length head) % 2 ^ 16 in
    ground (
      arith,
      length-patch16 (length head - 2) v (put_rdata outmax r.rdata head),
      ap length e,
      length-append head more,
      length-head_of off r out,
      length-append out (pointer off),
    )
