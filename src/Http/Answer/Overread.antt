-- ===== src/Http/Answer/Overread.antt =====
-- Header lines that are longer than `header_line[512]`.
use nanoproxy.Prelude.{
  ℕ, ◌+◌, ◌≤◌, ◌<◌, ◌≡◌, ◌↔◌, refl, sym, subst, ap, ◌∙◌, Bool, true, false, ◌&&◌, some, List, [],
  ◌∷◌, ◌++◌, Bytes, arith, ltb, leb, if◌then◌else◌, length, take, length-take, length-append, all,
  and-eq_true, Bool-cases, inl, inr,
}
use nanoproxy.Http.Answer.{
  Response, Built, built, rejected, overread, is_clean, reason, status_text, header_text, put_part,
  put_header, put_headers, put_end, build_response, line_array, copy_out, on_copy,
}
use nanoproxy.Http.Answer.Text.{
  are_clean, headers_text, tail_text, put_end-answer, length-line_array,
}

leb_below : (n m : ℕ) → leb n m ≡ false → m < n
leb_below n m e = ground arith

held_le : (n : ℕ) → leb n 512 ≡ true → n ≤ 512
held_le n e = ground arith

not_held : (n : ℕ) → leb n 512 ≡ false → 512 < n
not_held n e = ground arith

leb_after : (n m : ℕ) → m < n → leb n m ≡ false
leb_after n m h = ground arith

abbrev pub is_overread : Built → Bool
is_overread (built s) = false
is_overread rejected = false
is_overread overread = true

-- header lines that the array holds
abbrev pub all_held : List (Bytes × Bytes) → Bool
all_held hs = all (λ h. leb (length (header_text h)) 512) hs

-- From `at` bytes in the buffer on: one of the lines is longer than the array, those in front of it are
-- not, no value up to it has a CR or an LF, and the buffer is longer than all of them.
pub record HasLongLine (buf_size at : ℕ) (hs : List (Bytes × Bytes)) : Type 0 where
  pub before : List (Bytes × Bytes)
  pub line : Bytes × Bytes
  pub after : List (Bytes × Bytes)
  pub parts : hs ≡ before ++ (line ∷ after)
  pub clean_before : are_clean before ≡ true
  pub held_before : all_held before ≡ true
  pub clean : is_clean line.1 ≡ true
  pub long : 512 < length (header_text line)
  pub room : at + length (headers_text before []) + length (header_text line) < buf_size

on_copy_long :
    (text : Bytes) (more : Bytes → Built)
    → 512 < length text
    → on_copy (copy_out (length text) (line_array text)) more ≡ overread
unfolding copy_out
on_copy_long text more h =
    let over : ltb (length (line_array text)) (length text) ≡ true =
      let size = length-line_array text in ground (arith, h, size) in
    rw over refl

copy_out-held :
    (text : Bytes)
    → length text ≤ 512
    → (part : Bytes) × ((copy_out (length text) (line_array text) ≡ some part)
        × (length part ≡ length text))
unfolding copy_out
copy_out-held text h =
    let fits : ltb (length (line_array text)) (length text) ≡ false =
      let size = length-line_array text in ground (arith, h, size) in
    (
      take (length text) (line_array text),
      (
        rw fits refl,
        omega (arith, h, length-take (length text) (line_array text), length-line_array text),
      ),
    )

module _ (r : Response) (n : ℕ) where
  put_end_safe : (out : Bytes) → is_overread (put_end n r out) ≡ false
  put_end_safe out =
      rw (put_end-answer n r out)
        (pick (true && ltb (length out + length (tail_text r)) n) (out ++ tail_text r))
    where
      pick : (b : Bool) (s : Bytes) → is_overread (if b then built s else rejected) ≡ false
      pick true s = refl
      pick false s = refl

  -- a line that is held and for which there is room
  put_header-held :
      (text : Bytes) (more : Bytes → Built) (out : Bytes)
      → length text ≤ 512
      → length out + length text < n
      → (next : Bytes) × ((put_header n text more out ≡ more next)
          × (length next ≡ length out + length text))
  unfolding put_header
  put_header-held text more out h room =
      let (part, (copied, size)) = copy_out-held text h in
      let fits : leb n (length out + length text) ≡ false = ground (arith, room) in
      (out ++ part, (rw (fits, copied) refl, omega (arith, size, length-append out part)))

  put_headers-overread :
      (before : List (Bytes × Bytes)) (line : Bytes × Bytes) (after : List (Bytes × Bytes))
      (out : Bytes)
      → are_clean before ≡ true
      → all_held before ≡ true
      → is_clean line.1 ≡ true
      → 512 < length (header_text line)
      → length out + length (headers_text before []) + length (header_text line) < n
      → put_headers n r (before ++ (line ∷ after)) out ≡ overread
  unfolding put_headers put_header are_clean
  put_headers-overread [] line after out c h clean long room =
      let fits : leb n (length out + length (header_text line)) ≡ false = ground (arith, room) in
      rw (clean, fits) (on_copy_long (header_text line) _ long)
  put_headers-overread (x ∷ before) line after out c h clean long room =
      let (c1, c2) = and-eq_true (is_clean x.1) (are_clean before) c in
      let (h1, h2) = and-eq_true (leb (length (header_text x)) 512) (all_held before) h in
      let size = length-append (header_text x) (headers_text before []) in
      let (next, (goes_on, len)) =
        put_header-held (header_text x) (put_headers n r (before ++ (line ∷ after))) out
          (ground (arith, h1)) (omega (arith, room, size)) in
      rw c1 (
        goes_on
        ∙ put_headers-overread before line after next c2 h2 clean long
            (omega (arith, room, size, len)))

  after_held :
      (x : Bytes × Bytes) (hs : List (Bytes × Bytes)) (at : ℕ)
      → is_clean x.1 ≡ true
      → length (header_text x) ≤ 512
      → HasLongLine n (at + length (header_text x)) hs
      → HasLongLine n at (x ∷ hs)
  unfolding are_clean
  after_held x hs at clean held l =
      let fits : leb (length (header_text x)) 512 ≡ true = ground (arith, held) in
      record {
        before = x ∷ l.before;
        line = l.line;
        after = l.after;
        parts = ap (◌∷◌ x) l.parts;
        clean_before = rw clean l.clean_before;
        held_before = rw fits l.held_before;
        clean = l.clean;
        long = l.long;
        room = omega (arith, l.room, length-append (header_text x) (headers_text l.before []));
      }

  put_headers-HasLongLine :
      (hs : List (Bytes × Bytes)) (out : Bytes)
      → is_overread (put_headers n r hs out) ≡ true
      → HasLongLine n (length out) hs
  unfolding put_headers put_header are_clean
  put_headers-HasLongLine [] out e = absurd (ground (arith, e, put_end_safe out))
  put_headers-HasLongLine (x ∷ hs) out e = elim (Bool-cases (is_clean x.1)) [
    | inr unclean ↦
        let refused : is_overread (put_headers n r (x ∷ hs) out) ≡ false = rw unclean refl in
        absurd (ground (arith, e, refused))
    | inl clean ↦ elim (Bool-cases (leb n (length out + length (header_text x)))) [
      | inl full ↦
          let refused : is_overread (put_headers n r (x ∷ hs) out) ≡ false =
            rw (clean, full) refl in
          absurd (ground (arith, e, refused))
      | inr fits ↦
          let room : length out + length (header_text x) < n = leb_below n _ fits in
          elim (Bool-cases (leb (length (header_text x)) 512)) [
            | inr long ↦ record {
              before = [];
              line = x;
              after = hs;
              parts = refl;
              clean_before = refl;
              held_before = refl;
              clean = clean;
              long = not_held (length (header_text x)) long;
              room = omega (arith, room);
            }
            | inl held ↦
                let short : length (header_text x) ≤ 512 = held_le _ held in
                let (next, (goes_on, len)) =
                  put_header-held (header_text x) (put_headers n r hs) out short room in
                let same : put_headers n r (x ∷ hs) out ≡ put_headers n r hs next =
                  rw clean goes_on in
                let later = put_headers-HasLongLine hs next (ap is_overread (sym same) ∙ e) in
                after_held x hs (length out) clean short (subst (λ k. HasLongLine n k hs) len later)
          ]
    ]
  ]

overread_of : (b : Built) → is_overread b ≡ true → b ≡ overread
overread_of (built s) e = cc
overread_of rejected e = cc
overread_of overread e = refl

differ : (b : Built) → b ≡ overread → is_overread b ≡ false → ⊥
differ b e f = ground (arith, ap is_overread e, f)

room_left : (a b c n : ℕ) → a + b + c < n → 0 + a < n
room_left a b c n h = omega (arith, h)

-- `http_build_response` reads behind the array of a header line exactly where the reason has no CR and no LF
-- and, behind a status line that is cut to 63 bytes, there is a header line of more than 512 bytes, such that no
-- value up to its own has a CR or an LF, no line in front of it is as long, and the buffer is longer than all up
-- to its end.
pub build_response-overread_iff :
    (r : Response) (buf_size : ℕ)
    → (build_response buf_size r ≡ overread) ↔ (
        (is_clean (reason r.reason_phrase) ≡ true)
        × HasLongLine buf_size (length (take 63 (status_text r))) r.headers)
unfolding build_response put_part
build_response-overread_iff r n = (reads, found)
  where
    Overreads : Type 0
    Overreads =
        (is_clean (reason r.reason_phrase) ≡ true)
        × HasLongLine n (length (take 63 (status_text r))) r.headers

    reads : build_response n r ≡ overread → Overreads
    reads e = elim (Bool-cases (is_clean (reason r.reason_phrase))) [
      | inr unclean ↦
          let refused : is_overread (build_response n r) ≡ false = rw unclean refl in
          absurd (differ (build_response n r) e refused)
      | inl clean ↦
          elim (Bool-cases (leb n (length {A = ℕ} [] + length (take 63 (status_text r))))) [
            | inl full ↦
                let refused : is_overread (build_response n r) ≡ false = rw (clean, full) refl in
                absurd (differ (build_response n r) e refused)
            | inr fits ↦
                let same : build_response n r
                    ≡ put_headers n r r.headers (take 63 (status_text r)) =
                  rw (clean, fits) refl in
                (
                  clean,
                  put_headers-HasLongLine r n r.headers (take 63 (status_text r))
                      (ap is_overread (sym same ∙ e)),
                )
          ]
    ]

    found : Overreads → build_response n r ≡ overread
    found (clean, l) =
        let fits : leb n (length {A = ℕ} [] + length (take 63 (status_text r))) ≡ false =
          leb_after n _ (room_left _ _ _ n l.room) in
        rw (clean, fits, l.parts)
          (put_headers-overread r n l.before l.line l.after (take 63 (status_text r)) l.clean_before
            l.held_before l.clean l.long l.room)
