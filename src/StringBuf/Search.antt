-- ===== src/StringBuf/Search.antt =====
-- The searches of include/stringbuf.h against reference definitions over the bytes in use.
use nanoproxy.Prelude.{
  ℕ, zero, suc, ◌+◌, ◌-◌, ◌≤◌, ◌<◌, ◌≡◌, ◌≢◌, refl, sym, ap, ◌∙◌, Bool, true, false, ◌&&◌, Option,
  none, some, [], ◌∷◌, Bytes, arith, ltb, ◌==◌, if◌then◌else◌, take, drop, length, get_elem?,
  get_or, equal, inl, inr, Bool-cases, and-eq_true, length-take, length-drop, drop-nil,
}
use nanoproxy.StringBuf.Inv.{Held, IsValid, take-drop}
use nanoproxy.StringBuf.{StringBuf, contents, bytes_of, find_byte, memchr, find, scan}

-- `i` is the first place at or behind `start` where `c` stands.
pub record IsFirst (c start : ℕ) (bs : Bytes) (i : ℕ) : Type 0 where
  pub from : start ≤ i
  pub below : i < length bs
  pub here : get_elem? bs i ≡ some c
  pub none_before : (j : ℕ) → start ≤ j → j < i → get_elem? bs j ≢ some c

-- `memchr` reads the bytes in use only.
pub memchr-find_byte :
    (sb : StringBuf) (c start : ℕ)
    → memchr sb c start
      ≡ (if ltb sb.size start then none else find_byte c start (drop start (contents sb)))
unfolding memchr
memchr-find_byte sb c start = go sb.mem sb.size
  where
    go :
        (o : Option Bytes) (size : ℕ)
        → memchr (record { mem = o; size = size; capacity = sb.capacity; owned = sb.owned }) c start
          ≡ (if ltb size start then none else find_byte c start (drop start (bytes_of o size)))
    go none size = rw (drop-nil {0} {A = ℕ} start) (ground arith)
    go (some m) size = ground (arith, take-drop start size m)

get_elem?-drop : (k j : ℕ) (xs : Bytes) → get_elem? (drop k xs) j ≡ get_elem? xs (k + j)
get_elem?-drop zero j xs = ap (get_elem? xs) (omega arith)
get_elem?-drop (suc k) j [] = refl
get_elem?-drop (suc k) j (x ∷ xs) =
    get_elem?-drop k j xs ∙ ap (get_elem? (x ∷ xs)) {x = suc (k + j)} (omega arith)

find_byte-some :
    (c i k : ℕ) (xs : Bytes)
    → find_byte c i xs ≡ some k
    → (d : ℕ) × (k ≡ i + d)
      × (get_elem? xs d ≡ some c)
      × ((j : ℕ) → j < d → get_elem? xs j ≢ some c)
unfolding find_byte
find_byte-some c i k [] h = cc
find_byte-some c i k (x ∷ xs) h = elim (Bool-cases (x == c)) [
  | inl e ↦ (0, ground arith, ground arith, λ j l. absurd (omega arith))
  | inr e ↦
      let (d, p, q, r) = find_byte-some c (i + 1) k xs (rw e at h) in
      (suc d, omega arith, q, before d r e)
]
  where
    before :
        (d : ℕ)
        → ((j : ℕ) → j < d → get_elem? xs j ≢ some c)
        → (x == c) ≡ false
        → (j : ℕ) → j < suc d
        → get_elem? (x ∷ xs) j ≢ some c
    before d r e zero l = λ eq. ground arith
    before d r e (suc j) l = r j (omega arith)

find_byte-none :
    (c i : ℕ) (xs : Bytes) → find_byte c i xs ≡ none → (j : ℕ) → get_elem? xs j ≢ some c
unfolding find_byte
find_byte-none c i [] h j = λ e. cc
find_byte-none c i (x ∷ xs) h zero = λ e. ground arith
find_byte-none c i (x ∷ xs) h (suc j) = elim (Bool-cases (x == c)) [
  | inl e ↦ λ _. absurd (ground arith)
  | inr e ↦ find_byte-none c (i + 1) xs (rw e at h) j
]

get_elem?-lt : (xs : Bytes) (i c : ℕ) → get_elem? xs i ≡ some c → i < length xs
get_elem?-lt [] i c h = cc
get_elem?-lt (x ∷ xs) zero c h = omega arith
get_elem?-lt (x ∷ xs) (suc i) c h = omega (arith, get_elem?-lt xs i c h)

-- An index that `stringbuf_memchr` returns is the first place of `c` at or behind `start` among the
-- bytes in use.
pub memchr-IsFirst :
    (sb : StringBuf) (c start i : ℕ) → memchr sb c start ≡ some i → IsFirst c start (contents sb) i
memchr-IsFirst sb c start i h = elim (Bool-cases (ltb sb.size start)) [
  | inl e ↦ cc (rw e at (sym (memchr-find_byte sb c start)), h)
  | inr e ↦
      let found = rw e at (sym (memchr-find_byte sb c start)) ∙ h in
      let (d, p, q, r) = find_byte-some c start i (drop start (contents sb)) found in
      let at : get_elem? (contents sb) i ≡ some c =
        ap (get_elem? (contents sb)) p ∙ sym (get_elem?-drop start d (contents sb)) ∙ q in
      record {
        from = omega arith;
        below = get_elem?-lt (contents sb) i c at;
        here = at;
        none_before = λ j le lt same. r (j - start) (omega arith) (
            get_elem?-drop start (j - start) (contents sb)
            ∙ ap (get_elem? (contents sb)) {y = j} (omega arith)
            ∙ same);
      }
]

-- Where it returns -1 from a start inside the buffer, `c` is nowhere at or behind `start`.
pub memchr-none :
    (sb : StringBuf) (c start : ℕ)
    → start ≤ sb.size
    → memchr sb c start ≡ none
    → (j : ℕ) → start ≤ j
    → get_elem? (contents sb) j ≢ some c
memchr-none sb c start le h j from same =
    find_byte-none c start (drop start (contents sb)) (ground (arith, memchr-find_byte sb c start))
      (j - start)
      (get_elem?-drop start (j - start) (contents sb)
        ∙ ap (get_elem? (contents sb)) {y = j} (omega arith)
        ∙ same)

-- The plain search: the first place, counted from `i`, where the needle begins.
pub first_match : ℕ → Bytes → Bytes → Option ℕ
first_match i needle [] = none
first_match i needle (x ∷ xs) =
    if equal (take (length needle) (x ∷ xs)) needle then some i else first_match (i + 1) needle xs

equal-length : (xs ys : Bytes) → equal xs ys ≡ true → length xs ≡ length ys
unfolding equal
equal-length [] [] h = refl
equal-length (x ∷ xs) (y ∷ ys) h =
    ap suc (equal-length xs ys (and-eq_true (x == y) (equal xs ys) h).1)
equal-length [] (y ∷ ys) h = cc
equal-length (x ∷ xs) [] h = cc

too_short :
    (n : ℕ) (xs needle : Bytes) → length xs < length needle → equal (take n xs) needle ≡ false
too_short n xs needle h = elim (Bool-cases (equal (take n xs) needle)) [
  | inl e ↦ absurd (omega (arith, equal-length (take n xs) needle e, length-take n xs))
  | inr e ↦ e
]

-- No match fits into a hay shorter than the needle.
first_match_short :
    (i : ℕ) (needle hay : Bytes) → length hay < length needle → first_match i needle hay ≡ none
unfolding first_match
first_match_short i needle [] h = refl
first_match_short i needle (x ∷ xs) h =
    rw (too_short (length needle) (x ∷ xs) needle h)
      (first_match_short (i + 1) needle xs (omega arith))

first_byte :
    (x n : ℕ) (xs needle : Bytes)
    → n ≡ length needle
    → 0 < n
    → (x == get_or needle 0 0 && equal (take n (x ∷ xs)) needle) ≡ equal (take n (x ∷ xs)) needle
unfolding equal
first_byte x n xs [] e h = absurd (omega arith)
first_byte x zero xs (y ∷ ys) e h = absurd (omega arith)
first_byte x (suc n) xs (y ∷ ys) e h = ground arith

scan-first_match :
    (k i : ℕ) (needle hay : Bytes)
    → 0 < length needle
    → k + length needle ≡ length hay + 1
    → scan k i needle hay ≡ first_match i needle hay
unfolding scan first_match
scan-first_match zero i needle hay n e = sym (first_match_short i needle hay (omega arith))
scan-first_match (suc k) i needle [] n e = absurd (omega arith)
scan-first_match (suc k) i needle (x ∷ xs) n e = rw (
  first_byte x (length needle) xs needle refl n,
  scan-first_match k (i + 1) needle xs n (omega arith),
)

pub byte-first_match : (c i : ℕ) (hay : Bytes) → find_byte c i hay ≡ first_match i (c ∷ []) hay
unfolding find_byte first_match equal
byte-first_match c i [] = refl
byte-first_match c i (x ∷ xs) = ground (arith, byte-first_match c (i + 1) xs)

find_in :
    (m needle : Bytes) (size cap start : ℕ) (b : Bool)
    → start ≤ size
    → size ≤ length m
    → 0 < length needle
    → find (record { mem = some m; size = size; capacity = cap; owned = b }) start needle
      ≡ first_match start needle (drop start (take size m))
unfolding find memchr
find_in m [] size cap start b le fits n = absurd (omega arith)
find_in m (c ∷ []) size cap start b le fits n = ground (
  arith,
  byte-first_match c start (drop start (take size m)),
  take-drop start size m,
  first_match_short start (c ∷ []) (drop start (take size m)),
  length-drop start (take size m),
  length-take size m,
)
find_in m (c ∷ d ∷ r) size cap start b le fits n = ground (
  arith,
  scan-first_match (size - start - length (c ∷ d ∷ r) + 1) start (c ∷ d ∷ r)
      (drop start (take size m)),
  take-drop start size m,
  first_match_short start (c ∷ d ∷ r) (drop start (take size m)),
  length-drop start (take size m),
  length-take size m,
)

find_dispatch :
    (o : Option Bytes) (needle : Bytes) (size cap start : ℕ) (b : Bool)
    → Held o size cap
    → start ≤ size
    → 0 < length needle
    → find (record { mem = o; size = size; capacity = cap; owned = b }) start needle
      ≡ first_match start needle (drop start (bytes_of o size))
unfolding find first_match
find_dispatch none needle size cap start b h le n = rw (drop-nil {0} {A = ℕ} start)
find_dispatch (some m) needle size cap start b h le n =
    find_in m needle size cap start b le (omega arith) n

-- `stringbuf_find` on a valid buffer, from a start inside it, is the plain search of the bytes in
-- use, for every needle that is not empty: its shortcut for one byte and its first-byte test
-- change nothing.
pub find-first_match :
    (sb : StringBuf) (start : ℕ) (needle : Bytes)
    → IsValid sb
    → start ≤ sb.size
    → 0 < length needle
    → find sb start needle ≡ first_match start needle (drop start (contents sb))
find-first_match sb start needle v le n =
    find_dispatch sb.mem needle sb.size sb.capacity start sb.owned v.held le n
