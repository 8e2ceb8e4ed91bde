-- ===== src/Http/Answer/Text.antt =====
-- The text of a response, and when `http_build_response` gives it.
use nanoproxy.Prelude.{
  ℕ, zero, suc, ◌+◌, ◌<◌, ◌≡◌, refl, sym, ap, ◌∙◌, Bool, true, false, ◌&&◌, Option, none, some,
  List, [], ◌∷◌, ◌++◌, Bytes, arith, ltb, leb, ◌==◌, if◌then◌else◌, length, take, take_all,
  length-append, length-take, length-replicate, take-append, replicate, min, ◌-◌, append_assoc,
  append-nil, Bool-cases, inl, inr,
}
use nanoproxy.Http.Answer.{
  Response, Built, built, rejected, is_clean, line_end, reason, status_text, header_text,
  length_text, put_part, put_body, put_end, put_header, put_headers, build_response, line_array,
  copy_out,
}

abbrev pub body_text : Option Bytes → ℕ → Bytes
body_text none body_len = []
body_text (some body) body_len = take body_len body

unfoldable pub tail_text : Response → Bytes
tail_text r = length_text r ++ (line_end ++ body_text r.body r.body_len)

abbrev pub headers_text : List (Bytes × Bytes) → Bytes → Bytes
headers_text [] rest = rest
headers_text (h ∷ hs) rest = header_text h ++ headers_text hs rest

unfoldable pub response_text : Response → Bytes
response_text r = status_text r ++ headers_text r.headers (tail_text r)

unfoldable pub are_clean : List (Bytes × Bytes) → Bool
are_clean [] = true
are_clean (h ∷ hs) = is_clean h.1 && are_clean hs

-- header lines that `header_line[512]` holds
unfoldable pub AreShort : List (Bytes × Bytes) → Type 0
AreShort [] = Unit
AreShort (h ∷ hs) = (length (header_text h) < 512) × AreShort hs

-- the rest behind what is in the buffer, where it is accepted and leaves a byte
abbrev pub answer : Bool → ℕ → Bytes → Bytes → Built
answer ok n out rest =
    if ok && ltb (length out + length rest) n then built (out ++ rest) else rejected

pub length-line_array : (text : Bytes) → length (line_array text) ≡ 512
unfolding line_array
length-line_array text = omega (
  arith,
  length-append (take 511 text) (replicate (512 - min 511 (length text)) 0),
  length-take 511 text,
  length-replicate {A = ℕ} (512 - min 511 (length text)) 0,
)

copy_out-line_array :
    (text : Bytes) → length text < 512 → copy_out (length text) (line_array text) ≡ some text
unfolding copy_out line_array
copy_out-line_array text h =
    let fits : ltb (length (line_array text)) (length text) ≡ false =
      let size = length-line_array text in ground (arith, h, size) in
    rw (fits, take_all 511 text (omega arith)) (ap some (take-append text _))

module _ (n : ℕ) where
  put_part-answer :
      (ok : Bool) (out part rest : Bytes) (more : Bytes → Built)
      → ((next : Bytes) → length next < n → more next ≡ answer ok n next rest)
      → put_part n out part more ≡ answer ok n out (part ++ rest)
  unfolding put_part
  put_part-answer false out part rest more e =
      elim (Bool-cases (leb n (length out + length part))) [
        | inl over ↦ rw (over) refl
        | inr fits ↦ rw (fits) (e (out ++ part) (ground (arith, length-append out part)))
      ]
  put_part-answer true out part rest more e = elim (Bool-cases (leb n (length out + length part))) [
    | inl over ↦
        let full : ltb (length out + length (part ++ rest)) n ≡ false =
          ground (arith, length-append part rest) in
        rw (over, full) refl
    | inr fits ↦
        let same : ltb (length (out ++ part) + length rest) n
            ≡ ltb (length out + length (part ++ rest)) n =
          ap (λ m. ltb m n) (omega (arith, length-append out part, length-append part rest)) in
        rw (fits) (
          e (out ++ part) (ground (arith, length-append out part))
          ∙ rw (same, append_assoc out part rest) refl)
  ]

  -- a buffer that leaves a byte with nothing more to come
  answer_end : (out : Bytes) → length out < n → built out ≡ answer true n out []
  answer_end out h =
      let fits : ltb (length out + 0) n ≡ true = ground arith in
      rw (fits) (ap built (sym (append-nil out)))

  put_body-answer :
      (body : Option Bytes) (body_len : ℕ) (out : Bytes)
      → length out < n
      → put_body n body body_len out ≡ answer true n out (body_text body body_len)
  unfolding put_body
  put_body-answer none body_len out h = answer_end out h
  put_body-answer (some body) zero out h = answer_end out h
  put_body-answer (some body) (suc k) out h =
      let some_bytes : (suc k == 0) ≡ false = ground arith in
      rw (some_bytes) (
        put_part-answer true out (take (suc k) body) [] (λ whole. built whole)
          (λ next g. answer_end next g)
        ∙ ap (answer true n out) (append-nil (take (suc k) body)))

  pub put_end-answer :
      (r : Response) (out : Bytes) → put_end n r out ≡ answer true n out (tail_text r)
  unfolding put_end tail_text
  put_end-answer r out =
      put_part-answer true out (length_text r) (line_end ++ body_text r.body r.body_len) _
        (λ lines h.
          put_part-answer true lines line_end (body_text r.body r.body_len) _
            (λ next g. put_body-answer r.body r.body_len next g))

  put_header-answer :
      (ok : Bool) (out text rest : Bytes) (more : Bytes → Built)
      → length text < 512
      → ((next : Bytes) → length next < n → more next ≡ answer ok n next rest)
      → put_header n text more out ≡ answer ok n out (text ++ rest)
  unfolding put_header put_part
  put_header-answer ok out text rest more h e =
      rw (copy_out-line_array text h) (put_part-answer ok out text rest more e)

  put_headers-answer :
      (r : Response) (hs : List (Bytes × Bytes)) (out : Bytes)
      → AreShort hs
      → put_headers n r hs out ≡ answer (are_clean hs) n out (headers_text hs (tail_text r))
  unfolding put_headers are_clean AreShort
  put_headers-answer r [] out s = put_end-answer r out
  put_headers-answer r (h ∷ hs) out s = elim (Bool-cases (is_clean h.1)) [
    | inr unclean ↦ rw (unclean) refl
    | inl clean ↦ rw (clean) (
        put_header-answer (are_clean hs) out (header_text h) (headers_text hs (tail_text r))
          (put_headers n r hs) s.0 (λ next g. put_headers-answer r hs next s.1))
  ]

-- For a status line of less than 64 bytes and header lines of less than 512, `http_build_response` gives
-- the whole text of the response exactly where the reason and the values have no CR and no LF and the
-- buffer is longer than the text, and 0 where one of these fails.
pub build_response-response_text :
    (r : Response) (buf_size : ℕ)
    → length (status_text r) < 64
    → AreShort r.headers
    → build_response buf_size r ≡ (
        if is_clean (reason r.reason_phrase)
          && are_clean r.headers
          && ltb (length (response_text r)) buf_size
        then built (response_text r)
        else rejected)
unfolding build_response response_text
build_response-response_text r buf_size h s =
    elim (Bool-cases (is_clean (reason r.reason_phrase))) [
      | inr unclean ↦ rw (unclean) refl
      | inl clean ↦
          let put : Bytes → Built =
            λ t. put_part buf_size [] t (put_headers buf_size r r.headers) in
          let text = status_text r ++ headers_text r.headers (tail_text r) in
          let size : ltb (length {A = ℕ} [] + length text) buf_size ≡ ltb (length text) buf_size =
            ap (λ m. ltb m buf_size) (omega arith) in
          rw (clean) (
            ap put (take_all 63 (status_text r) (omega arith))
            ∙ put_part-answer buf_size (are_clean r.headers) [] (status_text r)
                (headers_text r.headers (tail_text r)) (put_headers buf_size r r.headers)
                (λ next g. put_headers-answer buf_size r r.headers next s)
            ∙ ap (λ b. if are_clean r.headers && b then built text else rejected) size)
    ]
