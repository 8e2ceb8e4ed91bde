-- ===== src/Dict/Json/Parse/Strings.antt =====
-- A string that `dict_append_escaped_string` wrote is read back by `dict_parse_json_string`.
use nanoproxy.Prelude.{
  ℕ, zero, suc, ◌+◌, ◌*◌, ◌/◌, ◌%◌, ◌≤◌, ◌<◌, ◌≡◌, refl, sym, subst, ap, ltb→lt, ==_iff, ◌⊎◌, ◌∙◌,
  Bool, true, false, ◌||◌, none, some, [], ◌∷◌, ◌++◌, Bytes, arith, ltb, ◌==◌, length, all,
  c_string, length-append, append_assoc, append-nil, Bool-cases, inl, inr,
}
use nanoproxy.Dict.Json.Print.{hex_digit, escape}
use nanoproxy.Dict.Json.Print.Render.{escaped_text, quoted}
use nanoproxy.Dict.Json.Parse.{
  ok, failed, character, closed, refused, hex_value, read_hex, simple_escape, invalid_hex,
  escaped_char, next_char, read_chars, parse_string,
}

-- A C string of one byte at least and less than `n`
pub record IsText (n : ℕ) (s : Bytes) : Type 0 where
  pub not_empty : 0 < length s
  pub short : length s < n
  pub no_nul : all (λ c. ltb 0 c) s ≡ true

pub c_string-all : (s : Bytes) → all (λ c. ltb 0 c) s ≡ true → c_string s ≡ s
unfolding c_string
c_string-all [] h = refl
c_string-all (zero ∷ cs) h = cc
c_string-all (suc c ∷ cs) h = ap (◌∷◌ (suc c)) (c_string-all cs (ground arith))

hex_value-hex_digit : (n : ℕ) → n < 16 → hex_value (hex_digit n) ≡ some n
unfolding hex_value hex_digit
hex_value-hex_digit n h = ground arith

read_hex_step :
    (k acc h v : ℕ) (s : Bytes)
    → hex_value h ≡ some v
    → read_hex (suc k) acc (h ∷ s) ≡ read_hex k (acc * 16 + v) s
unfolding read_hex
read_hex_step k acc h v s e =
    ap (λ o. elim o [ none ↦ refused invalid_hex s | some w ↦ read_hex k (acc * 16 + w) s ]) e

read_hex_end :
    (c : ℕ) (s : Bytes) → c < 32 → read_hex 0 ((0 * 16 + c / 16) * 16 + c % 16) s ≡ character c s
unfolding read_hex
read_hex_end c s h = let whole : (0 * 16 + c / 16) * 16 + c % 16 ≡ c = omega arith in ground arith

control_char :
    (c : ℕ) (rest : Bytes)
    → c < 32
    → read_hex 4 0 (b'0' ∷ b'0' ∷ hex_digit (c / 16) ∷ hex_digit (c % 16) ∷ rest) ≡ character c rest
unfolding hex_digit
control_char c rest h =
    let high = hex_value-hex_digit (c / 16) (omega arith) in
    let low = hex_value-hex_digit (c % 16) (omega arith) in
    let nought = hex_value-hex_digit 0 (omega arith) in
    read_hex_step 3 0 b'0' 0 _ nought
    ∙ read_hex_step 2 0 b'0' 0 _ nought
    ∙ read_hex_step 1 0 (hex_digit (c / 16)) (c / 16) _ high
    ∙ read_hex_step 0 (0 * 16 + c / 16) (hex_digit (c % 16)) (c % 16) rest low
    ∙ read_hex_end c rest h

-- a control character that has no letter of its own
next_char-control :
    (c : ℕ) (rest : Bytes)
    → c < 32
    → next_char (b'\\' ∷ b'u' ∷ b'0' ∷ b'0' ∷ hex_digit (c / 16) ∷ hex_digit (c % 16) ∷ rest)
      ≡ character c rest
unfolding next_char escaped_char
next_char-control c rest h =
    let enough : ltb (length (b'0' ∷ b'0' ∷ hex_digit (c / 16) ∷ hex_digit (c % 16) ∷ rest)) 4
        ≡ false =
      ground arith in
    rw enough (control_char c rest h)

-- how a control character stands that has no letter of its own
escape_control :
    (c : ℕ)
    → c < 32
    → (c == 8) ≡ false
    → (c == 12) ≡ false
    → (c == 10) ≡ false
    → (c == 13) ≡ false
    → (c == 9) ≡ false
    → escape c ≡ b'\\' ∷ b'u' ∷ b'0' ∷ b'0' ∷ hex_digit (c / 16) ∷ hex_digit (c % 16) ∷ []
unfolding escape
escape_control c h e8 e12 e10 e13 e9 =
    let quote : (c == b'"' || c == b'\\') ≡ false = ground arith in
    let below : ltb c 32 ≡ true = ground arith in rw (quote, e8, e12, e10, e13, e9, below) refl

-- the byte comes back from how it stands in a string
abbrev Back : Bytes → ℕ → Type 0
Back rest c = next_char (escape c ++ rest) ≡ character c rest

abbrev Cases : Bool → Type 0
Cases b = (b ≡ true) ⊎ (b ≡ false)

next_char-plain : (c : ℕ) (rest : Bytes) → ltb c 32 ≡ false → Back rest c
unfolding next_char escape escaped_char simple_escape
next_char-plain c rest e = ground arith

next_char-escape : (c : ℕ) (rest : Bytes) → Back rest c
unfolding next_char escape escaped_char simple_escape
next_char-escape c rest =
    at (Bool-cases (ltb c 32)) (Bool-cases (c == 8)) (Bool-cases (c == 12)) (Bool-cases (c == 10))
      (Bool-cases (c == 13)) (Bool-cases (c == 9))
  where
    is : (k : ℕ) → (c == k) ≡ true → Back rest k → Back rest c
    is k e b = subst (Back rest) (sym ((==_iff c k).0 e)) b

    at :
        Cases (ltb c 32)
        → Cases (c == 8)
        → Cases (c == 12)
        → Cases (c == 10)
        → Cases (c == 13)
        → Cases (c == 9)
        → Back rest c
    at (inr e) _ _ _ _ _ = next_char-plain c rest e
    at (inl e) (inl k) _ _ _ _ = is 8 k refl
    at (inl e) _ (inl k) _ _ _ = is 12 k refl
    at (inl e) _ _ (inl k) _ _ = is 10 k refl
    at (inl e) _ _ _ (inl k) _ = is 13 k refl
    at (inl e) _ _ _ _ (inl k) = is 9 k refl
    at (inl e) (inr e8) (inr e12) (inr e10) (inr e13) (inr e9) =
        let low = ltb→lt c 32 e in
        ap (λ t. next_char (t ++ rest)) (escape_control c low e8 e12 e10 e13 e9)
        ∙ next_char-control c rest low

length-escape : (c : ℕ) → 0 < length (escape c)
unfolding escape
length-escape c = ground arith

length-escaped_text : (s : Bytes) → length s ≤ length (escaped_text s)
unfolding escaped_text
length-escaped_text [] = omega arith
length-escaped_text (c ∷ cs) =
    omega
      (arith, length-escaped_text cs, length-escape c, length-append (escape c) (escaped_text cs))

read_chars-escaped_text :
    (s out rest : Bytes) (fuel : ℕ)
    → length s < fuel
    → read_chars fuel out (escaped_text s ++ (b'"' ∷ rest)) ≡ ok (out ++ s) rest
unfolding read_chars escaped_text next_char
read_chars-escaped_text s out rest zero h = absurd (omega arith)
read_chars-escaped_text [] out rest (suc fuel) h = ap (λ t. ok t rest) (sym (append-nil out))
read_chars-escaped_text (c ∷ cs) out rest (suc fuel) h =
    let behind = escaped_text cs ++ (b'"' ∷ rest) in
    ap (λ t. read_chars (suc fuel) out t) (append_assoc (escape c) (escaped_text cs) (b'"' ∷ rest))
    ∙ ap
        (λ r. elim r [
          | character d t ↦ read_chars fuel (out ++ d ∷ []) t
          | closed t ↦ ok out t
          | refused m t ↦ failed (some m) t
        ])
        (next_char-escape c behind)
    ∙ read_chars-escaped_text cs (out ++ c ∷ []) rest fuel (omega arith)
    ∙ ap (λ t. ok t rest) (append_assoc out (c ∷ []) cs)

-- `dict_parse_json_string` reads back, byte for byte, what `dict_append_escaped_string` wrote.
pub parse_string-quoted : (s rest : Bytes) → parse_string (quoted s ++ rest) ≡ ok s rest
unfolding parse_string
parse_string-quoted s rest =
    let whole = append_assoc (escaped_text s) (b'"' ∷ []) rest in
    ap (λ t. read_chars (length t + 1) [] t) whole
    ∙ read_chars-escaped_text s [] rest _
        (omega (arith, length-append (escaped_text s) (b'"' ∷ rest), length-escaped_text s))
