-- ===== src/Dns/Response/Answers.antt =====
-- The records are written behind what is there, and change none of it.
use nanoproxy.Prelude.{
  ℕ, zero, suc, ◌+◌, ◌-◌, ◌%◌, ◌^◌, ◌≤◌, ◌≡◌, refl, sym, ap, ◌∙◌, Bool, true, false, not, Option,
  none, some, List, [], ◌∷◌, ◌++◌, Bytes, arith, length, length-append, set, take, drop, ltb, ◌==◌,
  if◌then◌else◌, append-nil, append_assoc, Bool-cases, inl, inr,
}
use nanoproxy.Dns.Name.{encode_name}
use nanoproxy.Dns.Config.{Rdata, a, aaaa, cname, ns, ptr, txt, mx, srv, soa, Record}
use nanoproxy.Dns.Response.{
  put16, put_name, put_text, put_rdata, patch16, put_record, put_answers, pointer, fixed_part,
  wanted, space,
}

-- `full` is `out` with something behind it
abbrev pub Behind : Bytes → Bytes → Type 0
Behind out full = (more : Bytes) × (full ≡ out ++ more)

pub Behind-refl : (out : Bytes) → Behind out out
Behind-refl out = ([], sym (append-nil out))

pub Behind-trans : (x y z : Bytes) → Behind x y → Behind y z → Behind x z
Behind-trans x y z (m, e) (n, f) = (m ++ n, f ∙ ap (λ t. t ++ n) e ∙ append_assoc x m n)

put_name-Behind : (outmax : ℕ) (host out : Bytes) → Behind out (put_name outmax host out)
unfolding put_name
put_name-Behind outmax host out = go (encode_name host (space outmax out))
  where
    go : (o : Option Bytes) → Behind out (elim o [ none ↦ out | some w ↦ out ++ w ])
    go none = Behind-refl out
    go (some w) = (w, refl)

put_text-Behind : (fuel outmax : ℕ) (text out : Bytes) → Behind out (put_text fuel outmax text out)
unfolding put_text
put_text-Behind zero outmax text out = Behind-refl out
put_text-Behind (suc fuel) outmax text out =
    let chunk = if ltb 255 (length text) then 255 else length text in
    let next = out ++ chunk ∷ take chunk text in
    elim (Bool-cases (length text == 0)) [
      | inl e ↦ rw e (Behind-refl out)
      | inr e ↦ elim (Bool-cases (ltb outmax (length out + 1 + chunk))) [
        | inl f ↦ rw (e, f) (Behind-refl out)
        | inr f ↦
            rw (e, f)
              (Behind-trans out next _ (chunk ∷ take chunk text, refl)
                (put_text-Behind fuel outmax (drop chunk text) next))
      ]
    ]

if-Behind : (b : Bool) (out full : Bytes) → Behind out full → Behind out (if b then out else full)
if-Behind true out full h = Behind-refl out
if-Behind false out full h = h

pub put_rdata-Behind : (outmax : ℕ) (r : Rdata) (out : Bytes) → Behind out (put_rdata outmax r out)
unfolding put_rdata
put_rdata-Behind outmax (a addr) out =
    if-Behind (ltb outmax (length out + 4)) out _ (take 4 addr, refl)
put_rdata-Behind outmax (aaaa addr) out =
    if-Behind (ltb outmax (length out + 16)) out _ (take 16 addr, refl)
put_rdata-Behind outmax (cname host) out = put_name-Behind outmax host out
put_rdata-Behind outmax (ns host) out = put_name-Behind outmax host out
put_rdata-Behind outmax (ptr host) out = put_name-Behind outmax host out
put_rdata-Behind outmax (mx priority host) out = if-Behind (ltb outmax (length out + 2)) out _ (
    Behind-trans out (out ++ put16 priority) _ (put16 priority, refl)
      (put_name-Behind outmax host _))
put_rdata-Behind outmax (txt text) out = put_text-Behind (length text + 1) outmax text out
put_rdata-Behind outmax (srv priority weight port target) out =
    if-Behind (ltb outmax (length out + 6)) out _ (
      Behind-trans out _ _ (put16 priority ++ (put16 weight ++ put16 port), refl)
        (put_name-Behind outmax target _))
put_rdata-Behind outmax soa out = Behind-refl out

set-append :
    (xs ys : Bytes) (i v : ℕ) → length xs ≤ i → set (xs ++ ys) i v ≡ xs ++ set ys (i - length xs) v
set-append [] ys i v h = ap (λ j. set ys j v) (omega arith)
set-append (x ∷ xs) ys zero v h = absurd (omega arith)
set-append (x ∷ xs) ys (suc i) v h =
    ap (◌∷◌ x) (set-append xs ys i v (omega arith) ∙ ap (λ j. xs ++ set ys j v) (omega arith))

set-Behind :
    (i v : ℕ) (out full : Bytes) → length out ≤ i → Behind out full → Behind out (set full i v)
set-Behind i v out full h (m, e) =
    (set m (i - length out) v, ap (λ t. set t i v) e ∙ set-append out m i v h)

-- A patch behind `out` leaves `out` alone.
pub patch16-Behind :
    (i v : ℕ) (out full : Bytes) → length out ≤ i → Behind out full → Behind out (patch16 i v full)
patch16-Behind i v out full h b =
    set-Behind (i + 1) (v % 256) out _ (omega arith) (set-Behind i _ out full h b)

put_record-Behind :
    (outmax : ℕ) (r : Record) (out head : Bytes)
    → Behind out head
    → length out + 2 ≤ length head
    → Behind out (put_record outmax r head)
unfolding put_record
put_record-Behind outmax r out head b h =
    patch16-Behind (length head - 2) _ out (put_rdata outmax r.rdata head) (omega arith)
      (Behind-trans out head _ b (put_rdata-Behind outmax r.rdata head))

-- the bytes in front of the data of a record
abbrev pub head_of : ℕ → Record → Bytes → Bytes
head_of off r out = (out ++ pointer off) ++ fixed_part r

pub length-head_of :
    (off : ℕ) (r : Record) (out : Bytes) → length (head_of off r out) ≡ length out + 12
length-head_of off r out =
    omega
      (arith, length-append (out ++ pointer off) (fixed_part r), length-append out (pointer off))

pub put_answers-Behind :
    (outmax qtype off : ℕ) (rs : List Record) (out : Bytes) (n : ℕ)
    → Behind out (put_answers outmax qtype off rs out n).0
unfolding put_answers
put_answers-Behind outmax qtype off [] out n = Behind-refl out
put_answers-Behind outmax qtype off (r ∷ rs) out n =
    let head = head_of off r out in
    let full = put_record outmax r head in
    elim (Bool-cases (not (wanted qtype r.rdata))) [
      | inl e ↦ rw e (put_answers-Behind outmax qtype off rs out n)
      | inr e ↦ elim (Bool-cases (ltb outmax (length out + 2))) [
        | inl f ↦ rw (e, f) (Behind-refl out)
        | inr f ↦ elim (Bool-cases (ltb outmax (length (out ++ pointer off) + 8))) [
          | inl g ↦ rw (e, f, g) (pointer off, refl)
          | inr g ↦
              rw (e, f, g)
                (Behind-trans out full _
                  (put_record-Behind outmax r out head
                    (pointer off ++ fixed_part r, append_assoc out (pointer off) (fixed_part r))
                    (omega (arith, length-head_of off r out)))
                  (put_answers-Behind outmax qtype off rs full ((n + 1) % 2 ^ 16)))
        ]
      ]
    ]
