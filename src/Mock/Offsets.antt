-- ===== src/Mock/Offsets.antt =====
-- The numbers that a finished recording starts with.
use nanoproxy.Prelude.{
  ℕ, suc, ◌+◌, ◌-◌, ◌^◌, ◌≤◌, ◌<◌, ◌≡◌, refl, ap, ◌∙◌, Bool, true, false, ◌&&◌, List, [], ◌∷◌, ◌++◌,
  codes, Bytes, arith, ltb, ◌==◌, if◌then◌else◌, length, take, drop, replicate, length-append,
  length-drop, append_assoc,
}
use nanoproxy.Mock.{
  Recorder, summary_text, summed, padded, offsets_text, header_line, recorder_finish, newline,
  fields_text,
}
use nanoproxy.Dict.Json.Text.{decimal, signed_decimal}
use nanoproxy.Mock.Header.{
  header_field, number_at, header_field-number, line_text, line_text-behind, all_small,
  fields_text-line_text, take-line_text,
}
use nanoproxy.Mock.Parts.{Parts, length-header_line, if_len}

-- the numbers at the start of a header, in their order
abbrev offsets : Recorder → List ℕ
offsets q =
    256 ∷ q.meta_offset ∷ q.meta_len ∷ q.request_offset ∷ q.request_len ∷ q.response_offset
    ∷ q.response_len ∷ q.summary_offset ∷ []

gathered :
    (s a b c d e f t : Bytes)
    → s ++ a ++ b ++ c ++ d ++ e ++ f ++ t ≡ s ++ (a ++ (b ++ (c ++ (d ++ (e ++ (f ++ t))))))
gathered s a b c d e f t =
    append_assoc (s ++ a ++ b ++ c ++ d ++ e) f t
    ∙ append_assoc (s ++ a ++ b ++ c ++ d) e (f ++ t)
    ∙ append_assoc (s ++ a ++ b ++ c) d (e ++ (f ++ t))
    ∙ append_assoc (s ++ a ++ b) c (d ++ (e ++ (f ++ t)))
    ∙ append_assoc (s ++ a) b (c ++ (d ++ (e ++ (f ++ t))))
    ∙ append_assoc s a (b ++ (c ++ (d ++ (e ++ (f ++ t)))))

header_line-line_text :
    (q : Recorder) (body : Bytes)
    → all_small (offsets q) ≡ true
    → (cut : Bytes) × (header_line q ++ body ≡ codes "MOCKv1," ++ line_text (offsets q) cut)
unfolding header_line padded offsets_text
header_line-line_text q body small =
    let comma = codes "," in
    let blanks = replicate 255 32 in
    let fields = fields_text (offsets q ++ (q.summary_len ∷ [])) in
    let requests = decimal q.request_body_bytes in
    let responses = decimal q.response_body_bytes in
    let status = signed_decimal q.response_status in
    let counts = comma ++ (requests ++ (comma ++ (responses ++ (comma ++ (status ++ blanks))))) in
    let line : offsets_text q ++ blanks
        ≡ codes "MOCKv1," ++ line_text (offsets q) (signed_decimal q.summary_len ++ counts) =
      ap (λ t. codes "MOCKv1" ++ t)
        (gathered fields comma requests comma responses comma status blanks
          ∙ fields_text-line_text (offsets q) q.summary_len counts small) in
    let (cut, taken) = take-line_text (offsets q) (signed_decimal q.summary_len ++ counts) refl in
    (
      cut ++ newline ++ body,
      ap (λ t. t ++ newline ++ body) (ap (take 255) line ∙ taken)
          ∙ ap (λ t. codes "MOCKv1," ++ t)
              (ap (λ t. t ++ body) (line_text-behind (offsets q) cut newline)
                ∙ line_text-behind (offsets q) (cut ++ newline) body),
    )

-- What the header of a finished recording reads as.
pub record HasHeader (r : Recorder) : Type 0 where
  pub request_at : header_field 4 r.file ≡ r.request_offset
  pub request_length : header_field 5 r.file ≡ r.request_len
  pub response_at : header_field 6 r.file ≡ r.response_offset
  pub response_length : header_field 7 r.file ≡ r.response_len

field_of :
    (k : ℕ) (ns : List ℕ) (cut file : Bytes)
    → file ≡ codes "MOCKv1," ++ line_text ns cut
    → all_small ns ≡ true
    → ltb k (length ns) ≡ true
    → header_field (suc k) file ≡ number_at k ns
field_of k ns cut file e small inside =
    ap (header_field (suc k)) e ∙ header_field-number k ns cut small (ground (arith, inside))

if_le : (b : Bool) (x y n : ℕ) → x ≤ n → y ≤ n → (if b then x else y) ≤ n
if_le true x y n h k = h
if_le false x y n h k = k

length_finished :
    (h f tail : Bytes)
    → length h ≡ 256
    → 256 ≤ length f
    → length f ≤ length (h ++ drop 256 (f ++ tail))
length_finished h f tail e le = omega (
  arith,
  length-append h (drop 256 (f ++ tail)),
  length-append f tail,
  length-drop 256 (f ++ tail),
  e,
  le,
)

small_offsets :
    (ml ro rl so sl f : ℕ)
    → ml ≤ f
    → ro ≤ f
    → rl ≤ f
    → so ≤ f
    → sl ≤ f
    → f < 2 ^ 63
    → all_small (256 ∷ 256 ∷ ml ∷ ro ∷ rl ∷ so ∷ sl ∷ f ∷ []) ≡ true
small_offsets ml ro rl so sl f h1 h2 h3 h4 h5 h6 = ground (arith, h1, h2, h3, h4, h5, h6)

pub recorder_finish-HasHeader :
    (a b c : Bytes) (r : Recorder)
    → Parts a b c r
    → length (recorder_finish r).file < 2 ^ 63
    → HasHeader (recorder_finish r)
unfolding recorder_finish summed
recorder_finish-HasHeader a b c r p fits =
    let q = summed r in
    let total : length r.file ≡ length a + length b + length c =
      omega (arith, ap (λ t. length t) p.whole, length-append (a ++ b) c, length-append a b) in
    let some_room : 256 ≤ length r.file = omega (arith, total, p.behind_header) in
    let bound : length r.file < 2 ^ 63 = omega (
      arith,
      fits,
      length_finished (header_line q) r.file (summary_text r) (length-header_line q) some_room,
    ) in
    let request_len_le : q.request_len ≤ length r.file =
      if_le (r.request_len == 0 && ltb 0 r.request_offset) (length r.file - r.request_offset)
        r.request_len (length r.file) (omega arith) (omega (arith, p.no_length)) in
    let late : 0 < r.response_offset =
      omega (arith, p.response_at, p.behind_header, length-append a b) in
    let response_len_eq : q.response_len ≡ length r.file - r.response_offset =
      if_len (ltb 0 r.response_offset) _ _ (ground (arith, late)) in
    let response_len_le : q.response_len ≤ length r.file = omega (arith, response_len_eq) in
    let small : all_small (offsets q) ≡ true =
      ap
        (λ m. all_small (
          256
          ∷ m
          ∷ q.meta_len
          ∷ q.request_offset
          ∷ q.request_len
          ∷ q.response_offset
          ∷ q.response_len
          ∷ length r.file
          ∷ []))
        p.meta_at
      ∙ small_offsets q.meta_len q.request_offset q.request_len q.response_offset q.response_len
          (length r.file) (omega (arith, p.meta_inside, total)) (omega (arith, p.request_at, total))
          request_len_le (omega (arith, p.response_at, total, length-append a b)) response_len_le
          bound in
    let (cut, e) = header_line-line_text q (drop 256 q.file) small in
    record {
      request_at = field_of 3 (offsets q) cut _ e small refl;
      request_length = field_of 4 (offsets q) cut _ e small refl;
      response_at = field_of 5 (offsets q) cut _ e small refl;
      response_length = field_of 6 (offsets q) cut _ e small refl;
    }
