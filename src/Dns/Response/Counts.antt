-- ===== src/Dns/Response/Counts.antt =====
-- How many records the responder counts.
use nanoproxy.Prelude.{
  ℕ, ◌+◌, ◌%◌, ◌^◌, ◌≤◌, ◌<◌, ◌≡◌, ◌∙◌, ◌||◌, List, [], ◌∷◌, ◌++◌, Bytes, arith, ltb, ◌==◌,
  if◌then◌else◌, length, ◌⊎◌, inl, inr, Bool-cases,
}
use nanoproxy.Dns.Config.{Record, rtype}
use nanoproxy.Dns.Response.{put_answers, put_record, pointer, fixed_part, wanted}

-- the number of records that an entry has for a type: those of the type, CNAME records, all for ANY
abbrev pub matching : ℕ → List Record → ℕ
matching qtype [] = 0
matching qtype (r ∷ rs) =
    (if qtype == 255 || rtype r.rdata == qtype || rtype r.rdata == 5 then 1 else 0)
    + matching qtype rs

pub put_answers-count :
    (outmax qtype off : ℕ) (rs : List Record) (out : Bytes) (n : ℕ)
    → n < 2 ^ 16
    → ((put_answers outmax qtype off rs out n).1 ≤ n + matching qtype rs)
      × ((put_answers outmax qtype off rs out n).1 < 2 ^ 16)
unfolding put_answers wanted
put_answers-count outmax qtype off [] out n h = (omega arith, h)
put_answers-count outmax qtype off (r ∷ rs) out n h =
    let full = put_record outmax r (out ++ pointer off ++ fixed_part r) in
    let skipped = put_answers-count outmax qtype off rs out n h in
    let counted = put_answers-count outmax qtype off rs full ((n + 1) % 2 ^ 16) (omega arith) in
    elim (Bool-cases (qtype == 255 || rtype r.rdata == qtype || rtype r.rdata == 5)) [
      | inr e ↦ rw e (omega (arith, skipped.0), skipped.1)
      | inl e ↦ elim (Bool-cases (ltb outmax (length out + 2))) [
        | inl f ↦ rw (e, f) (omega arith, h)
        | inr f ↦ elim (Bool-cases (ltb outmax (length (out ++ pointer off) + 8))) [
          | inl g ↦ rw (e, f, g) (omega arith, h)
          | inr g ↦ rw (e, f, g) (omega (arith, counted.0), counted.1)
        ]
      ]
    ]

-- All wanted records are counted, or fewer than ten bytes are left.
pub put_answers-all :
    (outmax qtype off : ℕ) (rs : List Record) (out : Bytes) (n : ℕ)
    → n < 2 ^ 16
    → ((put_answers outmax qtype off rs out n).1 ≡ (n + matching qtype rs) % 2 ^ 16)
      ⊎ (outmax < length (put_answers outmax qtype off rs out n).0 + 10)
unfolding put_answers wanted
put_answers-all outmax qtype off [] out n h = inl (omega (arith, h))
put_answers-all outmax qtype off (r ∷ rs) out n h =
    let full = put_record outmax r (out ++ pointer off ++ fixed_part r) in
    let skipped = put_answers-all outmax qtype off rs out n h in
    let counted = put_answers-all outmax qtype off rs full ((n + 1) % 2 ^ 16) (omega arith) in
    let none_more : (n + matching qtype rs) % 2 ^ 16 ≡ (n + (0 + matching qtype rs)) % 2 ^ 16 =
      omega arith in
    let wrapped : ((n + 1) % 2 ^ 16 + matching qtype rs) % 2 ^ 16
        ≡ (n + (1 + matching qtype rs)) % 2 ^ 16 =
      omega arith in
    elim (Bool-cases (qtype == 255 || rtype r.rdata == qtype || rtype r.rdata == 5)) [
      | inr e ↦ rw e (elim skipped [
        | inl all_counted ↦ inl (all_counted ∙ none_more)
        | inr full_up ↦ inr full_up
      ])
      | inl e ↦ elim (Bool-cases (ltb outmax (length out + 2))) [
        | inl f ↦ rw (e, f) (inr (ground (arith, f)))
        | inr f ↦ elim (Bool-cases (ltb outmax (length (out ++ pointer off) + 8))) [
          | inl g ↦ rw (e, f, g) (inr (ground (arith, g)))
          | inr g ↦
              rw (e, f, g)
                (elim counted [
                  | inl all_counted ↦ inl (all_counted ∙ wrapped)
                  | inr full_up ↦ inr full_up
                ])
        ]
      ]
    ]
