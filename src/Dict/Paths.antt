-- ===== src/Dict/Paths.antt =====
-- `dict_find_path` on keys joined by `/`: the same as `dict_object_get` for one key after the other.
use nanoproxy.Prelude.{
  ℕ, zero, suc, ◌+◌, ◌≤◌, ◌<◌, ◌≡◌, refl, sym, ap, ◌∙◌, true, false, not, Option, none, some, List,
  [], ◌∷◌, ◌++◌, Bytes, arith, ltb, ◌==◌, length, all, length-append, take_all, take-append,
  drop_past, ◌>>=◌,
}
use nanoproxy.Dict.{
  DictValue, null, bool, number, int64, string, array, object, DictObject, find_key, value_at,
  object_get, enter_segment, go_into, segment_length, walk_path, find_path,
}
use nanoproxy.Dict.Json.Parse.Strings.{c_string-all}

-- a key that can stand in a path
pub record IsSegment (k : Bytes) : Type 0 where
  pub not_empty : 0 < length k
  pub no_slash : all (λ c. not (c == b'/')) k ≡ true
  pub no_nul : all (λ c. ltb 0 c) k ≡ true

unfoldable pub AreSegments : List Bytes → Type 0
AreSegments [] = Unit
AreSegments (k ∷ ks) = IsSegment k × AreSegments ks

-- the keys with a `/` between each two
abbrev pub join_path : List Bytes → Bytes
join_path [] = []
join_path (k ∷ []) = k
join_path (k ∷ l ∷ ks) = k ++ b'/' ∷ join_path (l ∷ ks)

-- `dict_object_get` for one key after the other
abbrev pub follow : DictValue → List Bytes → Option DictValue
follow v [] = some v
follow v (k ∷ ks) = object_get v k >>= λ u. follow u ks

-- What follows a segment: nothing, or a `/`.
segment_length-slash :
    (k s : Bytes) → all (λ c. not (c == b'/')) k ≡ true → segment_length (k ++ b'/' ∷ s) ≡ length k
unfolding segment_length
segment_length-slash [] s h = refl
segment_length-slash (c ∷ k) s h = ground (arith, segment_length-slash k s)

segment_length-whole :
    (k : Bytes) → all (λ c. not (c == b'/')) k ≡ true → segment_length k ≡ length k
unfolding segment_length
segment_length-whole [] h = refl
segment_length-whole (c ∷ k) h = ground (arith, segment_length-whole k)

through {ℓ} :
    {A B C : Type ℓ} (r : Option A) (f : A → Option B) (g : B → Option C)
    → (r >>= λ i. f i >>= g) ≡ ((r >>= f) >>= g)
through none f g = refl
through (some i) f g = refl

object_get-IsSegment :
    (o : DictObject) (k : Bytes)
    → IsSegment k
    → object_get (object o) k ≡ (find_key o k >>= λ i. value_at o i)
unfolding object_get
object_get-IsSegment o k s = ap (λ p. find_key o p >>= λ i. value_at o i) (c_string-all k s.no_nul)

-- a segment found, with the rest of the path in `inside`
taken :
    (inside : DictObject → Bytes → Option DictValue) (o : DictObject) (k s : Bytes)
    → IsSegment k
    → enter_segment inside o (length k) (k ++ b'/' ∷ s)
      ≡ (object_get (object o) k >>= λ next. go_into inside s next)
unfolding enter_segment
taken inside o k s t =
    let some_bytes : (length k == 0) ≡ false = ground (arith, t.not_empty) in
    let more : (length k == length (k ++ b'/' ∷ s)) ≡ false =
      ground (arith, length-append k (b'/' ∷ s)) in
    let here = take-append k (b'/' ∷ s) in
    let next : length k + 1 ≡ suc (length k) = omega arith in
    let behind = drop_past k s b'/' in
    rw (some_bytes, more, here, next, behind)
      (through (find_key o k) (value_at o) _
        ∙ ap (λ r. r >>= λ next. go_into inside s next) (sym (object_get-IsSegment o k t)))

taken_last :
    (inside : DictObject → Bytes → Option DictValue) (o : DictObject) (k : Bytes)
    → IsSegment k
    → enter_segment inside o (length k) k ≡ (object_get (object o) k >>= λ next. some next)
unfolding enter_segment
taken_last inside o k t =
    let some_bytes : (length k == 0) ≡ false = ground (arith, t.not_empty) in
    let whole : (length k == length k) ≡ true = ground arith in
    let here = take_all (length k) k (omega arith) in
    rw (some_bytes, whole, here)
      (through (find_key o k) (value_at o) _
        ∙ ap (λ r. r >>= λ next. some next) (sym (object_get-IsSegment o k t)))

alike {ℓ} :
    {A B : Type ℓ} (r : Option A) {f g : A → Option B}
    → ((a : A) → f a ≡ g a)
    → (r >>= f) ≡ (r >>= g)
alike none e = refl
alike (some a) e = e a

go_into-follow :
    (l : Bytes) (ks : List Bytes) (fuel : ℕ)
    → IsSegment l
    → ((inner : DictObject)
        → walk_path fuel inner (join_path (l ∷ ks)) ≡ follow (object inner) (l ∷ ks))
    → (next : DictValue) → go_into (walk_path fuel) (join_path (l ∷ ks)) next ≡ follow next (l ∷ ks)
unfolding object_get
go_into-follow l ks fuel s e (object inner) = e inner
go_into-follow l ks fuel s e null = refl
go_into-follow l ks fuel s e (bool b) = refl
go_into-follow l ks fuel s e (number n) = refl
go_into-follow l ks fuel s e (int64 n) = refl
go_into-follow l ks fuel s e (string t) = refl
go_into-follow l ks fuel s e (array xs) = refl

walk_path-join_path :
    (ks : List Bytes) (k : Bytes) (fuel : ℕ) (o : DictObject)
    → IsSegment k
    → AreSegments ks
    → length (join_path (k ∷ ks)) ≤ fuel
    → walk_path fuel o (join_path (k ∷ ks)) ≡ follow (object o) (k ∷ ks)
unfolding walk_path AreSegments
walk_path-join_path [] k zero o s ss f = absurd (omega (arith, s.not_empty))
walk_path-join_path [] k (suc fuel) o s ss f =
    let len = segment_length-whole k s.no_slash in
    ap (λ n. enter_segment (walk_path fuel) o n k) len ∙ taken_last (walk_path fuel) o k s
walk_path-join_path (l ∷ ks) k zero o s ss f =
    absurd (omega (arith, s.not_empty, length-append k (b'/' ∷ join_path (l ∷ ks))))
walk_path-join_path (l ∷ ks) k (suc fuel) o s ss f =
    let len = segment_length-slash k (join_path (l ∷ ks)) s.no_slash in
    ap (λ n. enter_segment (walk_path fuel) o n (k ++ b'/' ∷ join_path (l ∷ ks))) len
    ∙ taken (walk_path fuel) o k (join_path (l ∷ ks)) s
    ∙ alike (object_get (object o) k) (
        go_into-follow l ks fuel ss.0 (λ inner.
          walk_path-join_path ks l fuel inner ss.0 ss.1
            (omega (arith, f, s.not_empty, length-append k (b'/' ∷ join_path (l ∷ ks))))))

all-append_slash :
    (k s : Bytes)
    → all (λ c. ltb 0 c) k ≡ true
    → all (λ c. ltb 0 c) s ≡ true
    → all (λ c. ltb 0 c) (k ++ b'/' ∷ s) ≡ true
all-append_slash [] s g h = h
all-append_slash (c ∷ k) s g h = ground (arith, all-append_slash k s)

no_nul-join_path :
    (ks : List Bytes) (k : Bytes)
    → IsSegment k
    → AreSegments ks
    → all (λ c. ltb 0 c) (join_path (k ∷ ks)) ≡ true
unfolding AreSegments
no_nul-join_path [] k s ss = s.no_nul
no_nul-join_path (l ∷ ks) k s ss =
    all-append_slash k (join_path (l ∷ ks)) s.no_nul (no_nul-join_path ks l ss.0 ss.1)

join_path_size : (ks : List Bytes) (k : Bytes) → IsSegment k → 0 < length (join_path (k ∷ ks))
join_path_size [] k s = s.not_empty
join_path_size (l ∷ ks) k s =
    omega (arith, s.not_empty, length-append k (b'/' ∷ join_path (l ∷ ks)))

-- What `dict_find_path` finds by keys joined by `/`, of one byte or more and without a `/` or a NUL, is
-- what `dict_object_get` gives for one key after the other, and nothing where one of them gives nothing.
pub find_path-join_path :
    (v : DictValue) (k : Bytes) (ks : List Bytes)
    → AreSegments (k ∷ ks)
    → find_path v (join_path (k ∷ ks)) ≡ follow v (k ∷ ks)
unfolding find_path AreSegments object_get
find_path-join_path (object o) k ks s =
    let whole = c_string-all (join_path (k ∷ ks)) (no_nul-join_path ks k s.0 s.1) in
    let some_bytes : (length (join_path (k ∷ ks)) == 0) ≡ false =
      ground (arith, join_path_size ks k s.0) in
    rw (whole, some_bytes) (walk_path-join_path ks k _ o s.0 s.1 (omega arith))
find_path-join_path null k ks s = refl
find_path-join_path (bool b) k ks s = refl
find_path-join_path (number n) k ks s = refl
find_path-join_path (int64 n) k ks s = refl
find_path-join_path (string t) k ks s = refl
find_path-join_path (array xs) k ks s = refl
