-- ===== src/Mock/Header.antt =====
-- The line at the start of a recording, and how its numbers are read.
use nanoproxy.Prelude.{
  ℕ, zero, suc, ◌+◌, ◌-◌, ◌*◌, ◌/◌, ◌%◌, ◌^◌, ◌≤◌, ◌<◌, ◌≡◌, refl, sym, ap, ap₂, ◌∙◌, Bool, true,
  false, List, [], ◌∷◌, ◌++◌, Bytes, codes, arith, ltb, leb, ◌==◌, if◌then◌else◌, length, take, all,
  and-eq_true, is_digit, length-append, append_assoc, append-nil, Bool-cases, inl, inr,
}
use nanoproxy.Dict.Json.Text.{digits, decimal, signed_decimal}
use nanoproxy.Mock.{fields_text}

-- the decimal number in front, behind one that is read already
unfoldable pub read_decimal : ℕ → Bytes → ℕ
unfolding is_digit
read_decimal v [] = v
read_decimal v (c ∷ s) =
    let rest = read_decimal (v * 10 + (c - b'0')) s in if is_digit c then rest else v

unfoldable pub after_comma : Bytes → Bytes
after_comma [] = []
after_comma (c ∷ s) = let rest = after_comma s in if c == b',' then s else rest

-- the number behind so many commas
unfoldable pub header_field : ℕ → Bytes → ℕ
unfolding read_decimal after_comma
header_field zero s = read_decimal 0 s
header_field (suc k) s = header_field k (after_comma s)

abbrev tens : ℕ → ℕ
tens zero = 1
tens (suc k) = 10 * tens k

digit-is_digit : (n : ℕ) → is_digit (b'0' + n % 10) ≡ true
unfolding is_digit
digit-is_digit n = ground arith

read_digit :
    (v n : ℕ) (s : Bytes) → read_decimal v ((b'0' + n % 10) ∷ s) ≡ read_decimal (v * 10 + n % 10) s
unfolding read_decimal
read_digit v n s =
    let back : b'0' + n % 10 - b'0' ≡ n % 10 = omega arith in rw (digit-is_digit n, back) refl

ten_more : (v e n : ℕ) → (v * e + n / 10) * 10 + n % 10 ≡ v * (e * 10) + n
ten_more v e n = omega arith

read_decimal-digits :
    (k n : ℕ) (acc : Bytes)
    → n < tens k
    → (e : ℕ) × ((v : ℕ) → read_decimal v (digits k n acc) ≡ read_decimal (v * e + n) acc)
unfolding digits
read_decimal-digits zero n acc h = (1, λ v. ap (λ w. read_decimal w acc) (omega (arith, h)))
read_decimal-digits (suc k) n acc h = elim (Bool-cases (n / 10 == 0)) [
  | inl one ↦
      let small : n % 10 ≡ n = ground (arith, one) in
      (10, λ v. rw one (read_digit v n acc ∙ ap (λ w. read_decimal (v * 10 + w) acc) small))
  | inr more ↦
      let (e, read) = read_decimal-digits k (n / 10) ((b'0' + n % 10) ∷ acc) (omega (arith, h)) in
      (
        e * 10,
        λ v. rw more (
            read v
            ∙ read_digit (v * e + n / 10) n acc
            ∙ ap (λ w. read_decimal w acc) (ten_more v e n)),
      )
]

digits-append : (k n : ℕ) (acc rest : Bytes) → digits k n acc ++ rest ≡ digits k n (acc ++ rest)
unfolding digits
digits-append zero n acc rest = refl
digits-append (suc k) n acc rest = elim (Bool-cases (n / 10 == 0)) [
  | inl one ↦ rw one refl
  | inr more ↦ rw more (digits-append k (n / 10) ((b'0' + n % 10) ∷ acc) rest)
]

after_comma-digits : (k n : ℕ) (acc : Bytes) → after_comma (digits k n acc) ≡ after_comma acc
unfolding after_comma digits
after_comma-digits zero n acc = refl
after_comma-digits (suc k) n acc =
    let not_comma : (b'0' + n % 10 == b',') ≡ false = ground arith in
    elim (Bool-cases (n / 10 == 0)) [
      | inl one ↦ rw (one, not_comma) refl
      | inr more ↦
          rw more (after_comma-digits k (n / 10) ((b'0' + n % 10) ∷ acc) ∙ rw not_comma refl)
    ]

length-digits : (k n : ℕ) (acc : Bytes) → length (digits k n acc) ≤ k + length acc
unfolding digits
length-digits zero n acc = omega arith
length-digits (suc k) n acc =
    let more_le = length-digits k (n / 10) ((b'0' + n % 10) ∷ acc) in
    elim (Bool-cases (n / 10 == 0)) [
      | inl one ↦ rw one (omega arith)
      | inr more ↦ rw more (omega (arith, more_le))
    ]

-- these numbers, each with a comma behind it
abbrev pub line_text : List ℕ → Bytes → Bytes
line_text [] rest = rest
line_text (n ∷ ns) rest = decimal n ++ (b',' ∷ line_text ns rest)

decimal-append : (n : ℕ) (rest : Bytes) → decimal n ++ rest ≡ digits 20 n rest
unfolding decimal
decimal-append n rest = digits-append 20 n [] rest

header_field-head :
    (n : ℕ) (ns : List ℕ) (rest : Bytes) → n < 2 ^ 63 → header_field 0 (line_text (n ∷ ns) rest) ≡ n
unfolding header_field read_decimal is_digit
header_field-head n ns rest h =
    let (e, read) = read_decimal-digits 20 n (b',' ∷ line_text ns rest) (omega (arith, h)) in
    ap (read_decimal 0) (decimal-append n (b',' ∷ line_text ns rest)) ∙ read 0 ∙ omega arith

header_field-tail :
    (k n : ℕ) (ns : List ℕ) (rest : Bytes)
    → header_field (suc k) (line_text (n ∷ ns) rest) ≡ header_field k (line_text ns rest)
unfolding header_field after_comma
header_field-tail k n ns rest = ap (header_field k) (
    ap after_comma (decimal-append n (b',' ∷ line_text ns rest))
    ∙ after_comma-digits 20 n (b',' ∷ line_text ns rest))

abbrev pub number_at : ℕ → List ℕ → ℕ
number_at k [] = 0
number_at zero (n ∷ ns) = n
number_at (suc k) (n ∷ ns) = number_at k ns

abbrev pub all_small : List ℕ → Bool
all_small ns = all (λ n. ltb n (2 ^ 63)) ns

header_field-line_text :
    (k : ℕ) (ns : List ℕ) (rest : Bytes)
    → all_small ns ≡ true
    → k < length ns
    → header_field k (line_text ns rest) ≡ number_at k ns
header_field-line_text k [] rest small inside = absurd (omega (arith, inside))
header_field-line_text zero (n ∷ ns) rest small inside =
    header_field-head n ns rest
      (ground (arith, (and-eq_true (ltb n (2 ^ 63)) (all_small ns) small).0))
header_field-line_text (suc k) (n ∷ ns) rest small inside =
    header_field-tail k n ns rest
    ∙ header_field-line_text k ns rest (and-eq_true (ltb n (2 ^ 63)) (all_small ns) small).1
        (omega (arith, inside))

-- The name of the format is the field in front of the numbers.
pub header_field-number :
    (k : ℕ) (ns : List ℕ) (rest : Bytes)
    → all_small ns ≡ true
    → k < length ns
    → header_field (suc k) (codes "MOCKv1," ++ line_text ns rest) ≡ number_at k ns
unfolding header_field after_comma
header_field-number k ns rest small inside = header_field-line_text k ns rest small inside

signed_decimal-small : (n : ℕ) → n < 2 ^ 63 → signed_decimal n ≡ decimal n
unfolding signed_decimal
signed_decimal-small n h = let low : leb (2 ^ 63) n ≡ false = ground (arith, h) in rw low refl

pub fields_text-line_text :
    (ns : List ℕ) (m : ℕ) (rest : Bytes)
    → all_small ns ≡ true
    → fields_text (ns ++ (m ∷ [])) ++ rest ≡ b',' ∷ line_text ns (signed_decimal m ++ rest)
unfolding fields_text
fields_text-line_text [] m rest h = ap (λ t. b',' ∷ (t ++ rest)) (append-nil (signed_decimal m))
fields_text-line_text (n ∷ ns) m rest h =
    let (small, more) = and-eq_true (ltb n (2 ^ 63)) (all_small ns) h in
    ap (◌∷◌ b',') (
      append_assoc (signed_decimal n) (fields_text (ns ++ (m ∷ []))) rest
      ∙ ap₂ (λ s t. s ++ t) (signed_decimal-small n (ground (arith, small)))
          (fields_text-line_text ns m rest more))

line_text-append : (ns : List ℕ) (rest : Bytes) → line_text ns rest ≡ line_text ns [] ++ rest
line_text-append [] rest = refl
line_text-append (n ∷ ns) rest =
    ap (λ t. decimal n ++ (b',' ∷ t)) (line_text-append ns rest)
    ∙ sym (append_assoc (decimal n) (b',' ∷ line_text ns []) rest)

length-line_text : (ns : List ℕ) → length (line_text ns []) ≤ 21 * length ns
unfolding decimal
length-line_text [] = omega arith
length-line_text (n ∷ ns) = omega (
  arith,
  length-append (decimal n) (b',' ∷ line_text ns []),
  length-digits 20 n [],
  length-line_text ns,
)

take-append_more :
    (n : ℕ) (xs ys : Bytes) → length xs ≤ n → take n (xs ++ ys) ≡ xs ++ take (n - length xs) ys
take-append_more n [] ys h =
    let all_left : n - 0 ≡ n = omega arith in ap (λ k. take k ys) (sym all_left)
take-append_more zero (x ∷ xs) ys h = absurd (omega arith)
take-append_more (suc n) (x ∷ xs) ys h =
    let one_less : suc n - length (x ∷ xs) ≡ n - length xs = omega arith in
    ap (◌∷◌ x) (take-append_more n xs ys (omega arith) ∙ ap (λ k. xs ++ take k ys) (sym one_less))

-- Ten numbers at most stay whole when a line is cut.
pub take-line_text :
    (ns : List ℕ) (rest : Bytes)
    → leb (length ns) 10 ≡ true
    → (cut : Bytes) × (take 255 (codes "MOCKv1," ++ line_text ns rest)
        ≡ codes "MOCKv1," ++ line_text ns cut)
take-line_text ns rest few =
    let start = codes "MOCKv1," ++ line_text ns [] in
    let fits : length start ≤ 255 = ground (arith, few, length-line_text ns) in
    let cut = take (255 - length start) rest in
    (
      cut,
      ap (λ t. take 255 (codes "MOCKv1," ++ t)) (line_text-append ns rest)
          ∙ take-append_more 255 start rest fits
          ∙ ap (λ t. codes "MOCKv1," ++ t) (sym (line_text-append ns cut)),
    )

pub line_text-behind :
    (ns : List ℕ) (rest more : Bytes) → line_text ns rest ++ more ≡ line_text ns (rest ++ more)
line_text-behind ns rest more =
    ap (λ t. t ++ more) (line_text-append ns rest)
    ∙ append_assoc (line_text ns []) rest more
    ∙ sym (line_text-append ns (rest ++ more))
