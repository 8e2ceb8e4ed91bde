-- ===== src/Mock/Parts.antt =====
-- The parts of a file that is recorded, and where they stand when it is finished.
use nanoproxy.Prelude.{
  ℕ, ◌+◌, ◌-◌, ◌≤◌, ◌≡◌, refl, sym, ap, ap₂, ◌∙◌, Bool, true, false, ◌&&◌, ◌++◌, Bytes, arith, ltb,
  ◌==◌, if◌then◌else◌, length, take, drop, replicate, length-append, length-replicate, length-take,
  drop-drop_add, drop-append, take-append, append_assoc,
}
use nanoproxy.Mock.{
  Recorder, response_mark, begin_response, summary_text, summed, padded, offsets_text, header_line,
  recorder_finish, newline,
}
use nanoproxy.Mock.Growth.{Grown}

-- the bytes of the file that an offset and a length point at
abbrev pub section : ℕ → ℕ → Bytes → Bytes
section offset len file = take len (drop offset file)

-- the middle of three parts
middle : (x y z : Bytes) (i n : ℕ) → i ≡ length x → n ≡ length y → take n (drop i (x ++ y ++ z)) ≡ y
middle x y z i n ei en =
    ap₂ (λ j k. take j (drop k (x ++ y ++ z))) en ei
    ∙ ap (take (length y)) (ap (drop (length x)) (append_assoc x y z) ∙ drop-append x (y ++ z))
    ∙ take-append y z

length-padded : (line : Bytes) → length (padded line) ≡ 256
unfolding padded
length-padded line = omega (
  arith,
  length-append (take 255 (line ++ replicate 255 32)) newline,
  length-take 255 (line ++ replicate 255 32),
  length-append line (replicate 255 32),
  length-replicate {A = ℕ} 255 32,
)

pub length-header_line : (r : Recorder) → length (header_line r) ≡ 256
unfolding header_line
length-header_line r = length-padded (offsets_text r)

-- The header takes the place of the first 256 bytes.
section_behind :
    (h f : Bytes) (i : ℕ) → length h ≡ 256 → 256 ≤ i → drop i (h ++ drop 256 f) ≡ drop i f
section_behind h f i e le =
    let split : i ≡ 256 + (i - 256) = omega (arith, le) in
    let tail : drop 256 (h ++ drop 256 f) ≡ drop 256 f =
      ap (λ k. drop k (h ++ drop 256 f)) (sym e) ∙ drop-append h (drop 256 f) in
    ap (λ k. drop k (h ++ drop 256 f)) split
    ∙ drop-drop_add 256 (i - 256) (h ++ drop 256 f)
    ∙ ap (drop (i - 256)) tail
    ∙ sym (drop-drop_add 256 (i - 256) f)
    ∙ ap (λ k. drop k f) (sym split)

pub if_len : (b : Bool) (x y : ℕ) → b ≡ true → (if b then x else y) ≡ x
if_len true x y e = refl
if_len false x y e = cc

-- What stands in the file when the recording ends: the parts before the request, the request, the response.
pub record Parts (a b c : Bytes) (r : Recorder) : Type 0 where
  pub meta_at : r.meta_offset ≡ 256
  pub meta_inside : r.meta_len ≤ length a
  pub no_length : r.request_len ≡ 0
  pub request_at : r.request_offset ≡ length a
  pub response_at : r.response_offset ≡ length (a ++ b)
  pub behind_header : 256 ≤ length a
  pub whole : r.file ≡ a ++ b ++ c

length_left :
    (i : ℕ) (f : Bytes) (x y : Bytes) → f ≡ x ++ y → i ≡ length x → length f - i ≡ length y
length_left i f x y e h = omega (arith, h, ap (λ t. length t) e, length-append x y)

pub recorder_finish-response :
    (a b c : Bytes) (r : Recorder)
    → Parts a b c r
    → section
        (recorder_finish r).response_offset
        (recorder_finish r).response_len
        (recorder_finish r).file
      ≡ c
unfolding recorder_finish summed
recorder_finish-response a b c r p =
    let tail = summary_text r in
    let late : 256 ≤ r.response_offset =
      omega (arith, p.response_at, p.behind_header, length-append a b) in
    let set : ltb 0 r.response_offset ≡ true = ground (arith, late) in
    let len : (if ltb 0 r.response_offset
          then length r.file - r.response_offset
          else r.response_len)
        ≡ length c =
      if_len _ _ _ set ∙ length_left r.response_offset r.file (a ++ b) c p.whole p.response_at in
    let n = (summed r).response_len in
    ap (take n) (
      section_behind (header_line (summed r)) (r.file ++ tail) r.response_offset
        (length-header_line (summed r)) late)
    ∙ ap (λ f. take n (drop r.response_offset (f ++ tail))) p.whole
    ∙ middle (a ++ b) c tail r.response_offset n p.response_at len

pub recorder_finish-request :
    (a b c : Bytes) (r : Recorder)
    → Parts a b c r
    → section
        (recorder_finish r).request_offset
        (recorder_finish r).request_len
        (recorder_finish r).file
      ≡ b ++ c
unfolding recorder_finish summed
recorder_finish-request a b c r p =
    let tail = summary_text r in
    let late : 256 ≤ r.request_offset = omega (arith, p.request_at, p.behind_header) in
    let set : (r.request_len == 0 && ltb 0 r.request_offset) ≡ true =
      ground (arith, late, p.no_length) in
    let joined : r.file ≡ a ++ (b ++ c) = p.whole ∙ append_assoc a b c in
    let len : (if r.request_len == 0 && ltb 0 r.request_offset
          then length r.file - r.request_offset
          else r.request_len)
        ≡ length (b ++ c) =
      if_len _ _ _ set ∙ length_left r.request_offset r.file a (b ++ c) joined p.request_at in
    let n = (summed r).request_len in
    ap (take n) (
      section_behind (header_line (summed r)) (r.file ++ tail) r.request_offset
        (length-header_line (summed r)) late)
    ∙ ap (λ f. take n (drop r.request_offset (f ++ tail))) joined
    ∙ middle a (b ++ c) tail r.request_offset n p.request_at len

pub Parts-Grown :
    (a b c s : Bytes) (r q : Recorder) → Parts a b c r → Grown s r q → Parts a b (c ++ s) q
unfolding Grown
Parts-Grown a b c s r q p g = record {
  meta_at = g.0.same_meta ∙ p.meta_at;
  meta_inside = omega (arith, g.0.same_meta_len, p.meta_inside);
  no_length = g.0.same_request_len ∙ p.no_length;
  request_at = g.0.same_request ∙ p.request_at;
  response_at = g.0.same_response ∙ p.response_at;
  behind_header = p.behind_header;
  whole = g.1 ∙ ap (λ f. f ++ s) p.whole ∙ append_assoc (a ++ b) c s;
}

abbrev pub Begun : Bytes → Bytes → Bytes → Recorder → Type 0
Begun a b c r = Parts a b c r × (r.response_started ≡ true)

unless :
    (P : Recorder → Type 0) (e : Bool) (x y : Recorder) → e ≡ false → P y → P (if e then x else y)
unless P true x y e h = cc
unless P false x y e h = h

pub begin_response-Begun :
    (atoi : Bytes → ℕ) (now : ℕ) (first a b : Bytes) (r : Recorder)
    → r.response_started ≡ false
    → r.meta_offset ≡ 256
    → r.meta_len ≤ length a
    → r.request_len ≡ 0
    → r.request_offset ≡ length a
    → 256 ≤ length a
    → r.file ≡ a ++ b
    → Begun a b (response_mark ++ first) (begin_response atoi now first r)
unfolding begin_response
begin_response-Begun atoi now first a b r started meta_at meta_inside no_length at le file =
    unless (λ q. Parts a b (response_mark ++ first) q × (q.response_started ≡ true))
      r.response_started r _ started
      (
        record {
          meta_at = meta_at;
          meta_inside = meta_inside;
          no_length = no_length;
          request_at = at;
          response_at = ap length file;
          behind_header = le;
          whole =
              append_assoc r.file response_mark first
              ∙ ap (λ f. f ++ (response_mark ++ first)) file;
        },
        refl,
      )
