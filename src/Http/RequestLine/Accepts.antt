-- ===== src/Http/RequestLine/Accepts.antt =====
-- A request line that is written out is read back.
use nanoproxy.Prelude.{
  ℕ, zero, suc, ◌+◌, ◌-◌, ◌≤◌, ◌<◌, ◌≡◌, ◌≢◌, refl, sym, ap, ◌∙◌, Bool, true, not, ◌&&◌, none, some,
  [], ◌∷◌, ◌++◌, Bytes, arith, ◌==◌, length, length-append, get_or, take, drop, drop-nil,
  take-append, all, c_string, Option-cases, inl, inr,
}
use nanoproxy.StringBuf.Heap.{Alloc}
use nanoproxy.StringBuf.Inv.{IsValid}
use nanoproxy.StringBuf.Search.{memchr-find_byte, find-first_match, byte-first_match}
use nanoproxy.StringBuf.{StringBuf, contents, memchr, find, find_byte}
use nanoproxy.Http.Types.{
  Parser, headers, continue, slice, dup, max_method_size, max_url_size, max_http_version_size,
}
use nanoproxy.Http.Inv.{length-contents}
use nanoproxy.Http.RequestLine.{read_request_line}

-- the bytes that the parts of a request line are made of here
unfoldable pub is_plain : ℕ → Bool
is_plain c = not (c == 0) && not (c == b' ') && not (c == b'\n')

abbrev pub request_text : Bytes → Bytes → Bytes → Bytes → Bytes
request_text m u v rest = m ++ b' ' ∷ (u ++ b' ' ∷ (v ++ b'\r' ∷ b'\n' ∷ rest))

find_byte-append :
    (c i : ℕ) (xs ys : Bytes)
    → all (λ x. not (x == c)) xs ≡ true
    → find_byte c i (xs ++ c ∷ ys) ≡ some (i + length xs)
unfolding find_byte
find_byte-append c i [] ys h = ground arith
find_byte-append c i (x ∷ xs) ys h = ground (arith, find_byte-append c (i + 1) xs ys)

-- No newline is found in plain bytes, and the search goes on behind them and the byte `d`.
find_byte-skip :
    (c d i : ℕ) (xs ys : Bytes)
    → all is_plain xs ≡ true
    → c ≡ b'\n'
    → d ≢ c
    → find_byte c i (xs ++ d ∷ ys) ≡ find_byte c (i + length xs + 1) ys
unfolding find_byte is_plain
find_byte-skip c d i [] ys h e n = ground arith
find_byte-skip c d i (x ∷ xs) ys h e n = ground (
  arith,
  find_byte-skip c d (i + 1) xs ys,
  ap (λ j. find_byte c j ys) {x = i + 1 + length xs + 1} {y = i + suc (length xs) + 1}
      (omega arith),
)

no_space : (xs : Bytes) → all is_plain xs ≡ true → all (λ x. not (x == b' ')) xs ≡ true
unfolding is_plain
no_space [] h = refl
no_space (x ∷ xs) h = ground (arith, no_space xs)

c_string_plain : (xs : Bytes) → all is_plain xs ≡ true → c_string xs ≡ xs
unfolding is_plain c_string
c_string_plain [] h = refl
c_string_plain (zero ∷ xs) h = cc
c_string_plain (suc x ∷ xs) h = ground (arith, c_string_plain xs)

drop-append_cons : (xs ys : Bytes) (c n : ℕ) → n ≡ length xs + 1 → drop n (xs ++ c ∷ ys) ≡ ys
drop-append_cons [] ys c zero e = absurd (omega arith)
drop-append_cons [] ys c (suc zero) e = refl
drop-append_cons [] ys c (suc (suc n)) e = absurd (omega arith)
drop-append_cons (x ∷ xs) ys c zero e = absurd (omega arith)
drop-append_cons (x ∷ xs) ys c (suc n) e = drop-append_cons xs ys c n (omega arith)

drop-drop : (n m : ℕ) (xs : Bytes) → drop (n + m) xs ≡ drop m (drop n xs)
drop-drop zero m xs = ap (λ k. drop k xs) (omega arith)
drop-drop (suc n) m [] = drop-nil {0} {A = ℕ} (suc n + m) ∙ sym (drop-nil {0} {A = ℕ} m)
drop-drop (suc n) m (x ∷ xs) =
    ap (λ k. drop k (x ∷ xs)) {y = suc (n + m)} (omega arith) ∙ drop-drop n m xs

get_or-skip :
    (xs ys : Bytes) (c k n : ℕ) → n ≡ length xs + 1 + k → get_or (xs ++ c ∷ ys) n 0 ≡ get_or ys k 0
get_or-skip [] ys c k zero e = absurd (omega arith)
get_or-skip [] ys c k (suc n) e = ap (λ j. get_or ys j 0) (omega arith)
get_or-skip (x ∷ xs) ys c k zero e = absurd (omega arith)
get_or-skip (x ∷ xs) ys c k (suc n) e = get_or-skip xs ys c k n (omega arith)

get_or-append : (xs ys : Bytes) (c n : ℕ) → n ≡ length xs → get_or (xs ++ c ∷ ys) n 0 ≡ c
get_or-append [] ys c zero e = refl
get_or-append [] ys c (suc n) e = absurd (omega arith)
get_or-append (x ∷ xs) ys c zero e = absurd (omega arith)
get_or-append (x ∷ xs) ys c (suc n) e = get_or-append xs ys c n (omega arith)

-- the places of the parts of a request line
abbrev pub line_end : Bytes → Bytes → Bytes → ℕ
line_end m u v = length m + 1 + length u + 1 + length v + 1

newline_at :
    (m u v rest : Bytes)
    → all is_plain m ≡ true
    → all is_plain u ≡ true
    → all is_plain v ≡ true
    → find_byte b'\n' 0 (request_text m u v rest) ≡ some (line_end m u v)
newline_at m u v rest hm hu hv =
    find_byte-skip b'\n' b' ' 0 m _ hm refl (omega arith)
    ∙ find_byte-skip b'\n' b' ' (0 + length m + 1) u _ hu refl (omega arith)
    ∙ find_byte-skip b'\n' b'\r' (0 + length m + 1 + length u + 1) v _ hv refl (omega arith)
    ∙ unfold find_byte in ap some (omega arith)

memchr_at :
    (sb : StringBuf) (c : ℕ) (bs : Bytes) → contents sb ≡ bs → memchr sb c 0 ≡ find_byte c 0 bs
memchr_at sb c bs e = memchr-find_byte sb c 0 ∙ ground arith ∙ ap (find_byte c 0) e

find_at :
    (sb : StringBuf) (c start : ℕ) (bs : Bytes)
    → IsValid sb
    → start ≤ sb.size
    → drop start (contents sb) ≡ bs
    → find sb start (c ∷ []) ≡ find_byte c start bs
find_at sb c start bs v le e =
    find-first_match sb start (c ∷ []) v le (omega arith)
    ∙ sym (byte-first_match c start (drop start (contents sb)))
    ∙ ap (find_byte c start) e

copy_at :
    (a : Alloc)
    → ((n : ℕ) → a.malloc n ≢ none)
    → (bs xs : Bytes) → all is_plain xs ≡ true
    → bs ≡ xs
    → dup a bs ≡ some xs
unfolding dup
copy_at a alloc bs xs h e = elim (Option-cases (a.malloc (length (c_string bs) + 1))) [
  | inl f ↦ absurd (alloc (length (c_string bs) + 1) f)
  | inr (b, f) ↦ rw f (ap some (ap c_string e ∙ c_string_plain xs h))
]

module _ {T : Type 0} (a : Alloc) where
  -- the reading of a line whose parts are found and copied
  read_parts :
      (p : Parser T) (s1 s2 e : ℕ) (m u v : Bytes)
      → p.pos ≡ 0
      → memchr p.buffer b'\n' 0 ≡ some e
      → find p.buffer 0 (b' ' ∷ []) ≡ some s1
      → find p.buffer (s1 + 1) (b' ' ∷ []) ≡ some s2
      → get_or (contents p.buffer) (e - 1) 0 ≡ b'\r'
      → s1 ≡ length m
      → s2 ≡ s1 + 1 + length u
      → e ≡ s2 + 1 + length v + 1
      → dup a (slice 0 (length m) (contents p.buffer)) ≡ some m
      → dup a (slice (s1 + 1) (length u) (contents p.buffer)) ≡ some u
      → dup a (slice (s2 + 1) (length v) (contents p.buffer)) ≡ some v
      → (0 < length m) × (length m ≤ max_method_size)
      → (0 < length u) × (length u ≤ max_url_size)
      → (0 < length v) × (length v ≤ max_http_version_size)
      → read_request_line a p
        ≡ continue (record p {
          method = some m;
          uri = some u;
          version = some v;
          pos = e + 1;
          state = headers;
        })
  unfolding read_request_line
  read_parts p s1 s2 e m u v z n f1 f2 cr e1 e2 e3 dm du dv hm hu hv = ground arith

  -- Written out as `METHOD SP URI SP VERSION CR LF`, with anything behind it, a request line of
  -- parts that hold no NUL, blank or newline, are not empty and keep to the limits is read back
  -- part by part, at the start of a valid buffer and where `malloc` gives memory; the parser goes
  -- on with the headers behind it, and all else of it stays.
  pub read_request_line-request_text :
      (p : Parser T) (m u v rest : Bytes)
      → IsValid p.buffer
      → p.pos ≡ 0
      → contents p.buffer ≡ request_text m u v rest
      → ((n : ℕ) → a.malloc n ≢ none)
      → (all is_plain m ≡ true) × (0 < length m) × (length m ≤ max_method_size)
      → (all is_plain u ≡ true) × (0 < length u) × (length u ≤ max_url_size)
      → (all is_plain v ≡ true) × (0 < length v) × (length v ≤ max_http_version_size)
      → read_request_line a p
        ≡ continue (record p {
          method = some m;
          uri = some u;
          version = some v;
          pos = line_end m u v + 1;
          state = headers;
        })
  read_request_line-request_text p m u v rest valid z text alloc hm hu hv =
      let s1 = length m in
      let s2 = length m + 1 + length u in
      let tail_u = u ++ b' ' ∷ (v ++ b'\r' ∷ b'\n' ∷ rest) in
      let tail_v = v ++ b'\r' ∷ b'\n' ∷ rest in
      let behind_m : drop (s1 + 1) (contents p.buffer) ≡ tail_u =
        ap (drop (s1 + 1)) text ∙ drop-append_cons m tail_u b' ' (s1 + 1) refl in
      let behind_u : drop (s2 + 1) (contents p.buffer) ≡ tail_v =
        ap (λ k. drop k (contents p.buffer)) (omega arith)
        ∙ drop-drop (s1 + 1) (length u + 1) (contents p.buffer)
        ∙ ap (drop (length u + 1)) behind_m
        ∙ drop-append_cons u tail_v b' ' (length u + 1) refl in
      let size : p.buffer.size
          ≡ length m + suc (length u + suc (length v + suc (suc (length rest)))) =
        sym (length-contents p.buffer valid)
        ∙ ap length text
        ∙ omega (
          arith,
          length-append m (b' ' ∷ tail_u),
          length-append u (b' ' ∷ tail_v),
          length-append v (b'\r' ∷ b'\n' ∷ rest),
        ) in
      read_parts p s1 s2 (line_end m u v) m u v z
        (memchr_at p.buffer b'\n' (request_text m u v rest) text
          ∙ newline_at m u v rest hm.0 hu.0 hv.0)
        (find_at p.buffer b' ' 0 (request_text m u v rest) valid (omega arith) text
          ∙ find_byte-append b' ' 0 m tail_u (no_space m hm.0)
          ∙ ap some (omega arith))
        (find_at p.buffer b' ' (s1 + 1) tail_u valid (omega arith) behind_m
          ∙ find_byte-append b' ' (s1 + 1) u tail_v (no_space u hu.0))
        (ap (λ bs. get_or bs (line_end m u v - 1) 0) text
          ∙ get_or-skip m tail_u b' ' (length u + 1 + length v) (line_end m u v - 1) (omega arith)
          ∙ get_or-skip u tail_v b' ' (length v) (length u + 1 + length v) (omega arith)
          ∙ get_or-append v (b'\n' ∷ rest) b'\r' (length v) refl)
        refl refl (omega arith)
        (copy_at a alloc _ m hm.0 (ap (take s1) text ∙ take-append m (b' ' ∷ tail_u)))
        (copy_at a alloc _ u hu.0 (ap (take (length u)) behind_m ∙ take-append u (b' ' ∷ tail_v)))
        (copy_at a alloc _ v hv.0
          (ap (take (length v)) behind_u ∙ take-append v (b'\r' ∷ b'\n' ∷ rest)))
        (hm.1, hm.2) (hu.1, hu.2) (hv.1, hv.2)
