-- ===== src/Dict/Json/Parse/Valid.antt =====
-- The values that a JSON text can hold, and the white space between their parts.
use nanoproxy.Prelude.{
  ℕ, zero, suc, ◌≡◌, refl, sym, subst, ap, Bool, true, false, not, ◌&&◌, ◌||◌, none, some, ◌∷◌,
  ◌++◌, Bytes, arith, leb, ◌==◌, if◌then◌else◌, length, is_space,
}
use nanoproxy.Dict.{
  DictValue, number, int64, string, array, object, DictArray, array_end, entry, array_append,
  DictObject, object_end, pair, append_pair, find_key, set_pairs, create_string, replace_value,
  max_key_len, max_value_len,
}
use nanoproxy.Dict.Json.Text.{Doubles, goes_on}
use nanoproxy.Dict.Json.Print.Render.{indent, line}
use nanoproxy.Dict.Json.Parse.{skip_whitespace}
use nanoproxy.Dict.Json.Parse.Strings.{IsText, c_string-all}
use nanoproxy.Dict.Json.Parse.Numbers.{Stops}

-- no key of the second object is one of the first
unfoldable pub Fresh : DictObject → DictObject → Type 0
Fresh acc object_end = Unit
Fresh acc (pair k v ps) = (find_key acc k ≡ none) × Fresh acc ps

-- What a JSON text can hold: texts and keys of a length that is allowed, keys of an object that
-- differ, finite numbers.
unfoldable mutual
  unfolding Fresh

  pub IsJson : Doubles → DictValue → Type 0
  IsJson doubles (number d) = doubles.is_finite d ≡ true
  IsJson doubles (int64 w) = ⊥
  IsJson doubles (string s) = IsText max_value_len s
  IsJson doubles (array xs) = AreJson doubles xs
  IsJson doubles (object ps) = ArePairs doubles ps
  IsJson doubles _ = Unit

  pub AreJson : Doubles → DictArray → Type 0
  AreJson doubles array_end = Unit
  AreJson doubles (entry v xs) = IsJson doubles v × AreJson doubles xs

  pub ArePairs : Doubles → DictObject → Type 0
  ArePairs doubles object_end = Unit
  ArePairs doubles (pair k v ps) =
      IsText max_key_len k × IsJson doubles v × Fresh (pair k v object_end) ps × ArePairs doubles ps

-- the entries of the one and then of the other
unfoldable pub join : DictArray → DictArray → DictArray
join array_end ys = ys
join (entry v xs) ys = entry v (join xs ys)

unfoldable pub join_pairs : DictObject → DictObject → DictObject
join_pairs object_end qs = qs
join_pairs (pair k v ps) qs = pair k v (join_pairs ps qs)

pub join-array_append :
    (xs : DictArray) (v : DictValue) (ys : DictArray)
    → join (array_append xs v) ys ≡ join xs (entry v ys)
unfolding join array_append
join-array_append array_end v ys = refl
join-array_append (entry x xs) v ys = ap (entry x) (join-array_append xs v ys)

pub join-append_pair :
    (ps : DictObject) (k : Bytes) (v : DictValue) (qs : DictObject)
    → join_pairs (append_pair ps k v) qs ≡ join_pairs ps (pair k v qs)
unfolding join_pairs append_pair
join-append_pair object_end k v qs = refl
join-append_pair (pair l w ps) k v qs = ap (pair l w) (join-append_pair ps k v qs)

pub join_end : (xs : DictArray) → join xs array_end ≡ xs
unfolding join
join_end array_end = refl
join_end (entry v xs) = ap (entry v) (join_end xs)

pub join_pairs_end : (ps : DictObject) → join_pairs ps object_end ≡ ps
unfolding join_pairs
join_pairs_end object_end = refl
join_pairs_end (pair k v ps) = ap (pair k v) (join_pairs_end ps)

find_key-append_pair :
    (ps : DictObject) (k : Bytes) (v : DictValue) (key : Bytes)
    → find_key ps key ≡ none
    → find_key (pair k v object_end) key ≡ none
    → find_key (append_pair ps k v) key ≡ none
unfolding find_key append_pair
find_key-append_pair object_end k v key e f = f
find_key-append_pair (pair l w ps) k v key e f = ground (arith, find_key-append_pair ps k v key)

pub Fresh-append_pair :
    (ps : DictObject) (k : Bytes) (v : DictValue) (qs : DictObject)
    → Fresh ps qs
    → Fresh (pair k v object_end) qs
    → Fresh (append_pair ps k v) qs
unfolding Fresh
Fresh-append_pair ps k v object_end f g = tt
Fresh-append_pair ps k v (pair l w qs) f g =
    (find_key-append_pair ps k v l f.0 g.0, Fresh-append_pair ps k v qs f.1 g.1)

pub Fresh-object_end : (qs : DictObject) → Fresh object_end qs
unfolding Fresh find_key
Fresh-object_end object_end = tt
Fresh-object_end (pair k v qs) = (refl, Fresh-object_end qs)

pub create_string-IsText : (s : Bytes) → IsText max_value_len s → create_string s ≡ some (string s)
unfolding create_string
create_string-IsText s t =
    let same = c_string-all s t.no_nul in
    let fits : (length s == 0 || leb max_value_len (length s)) ≡ false =
      ground (arith, t.not_empty, t.short) in
    rw (same, fits) refl

pub set_pairs-IsText :
    (ps : DictObject) (k : Bytes) (v : DictValue)
    → IsText max_key_len k
    → find_key ps k ≡ none
    → set_pairs ps k v ≡ some (append_pair ps k v)
unfolding set_pairs
set_pairs-IsText ps k v t e =
    let same = c_string-all k t.no_nul in
    let fits : (length k == 0 || leb max_key_len (length k)) ≡ false =
      ground (arith, t.not_empty, t.short) in
    let goal : Bytes → Type 0 = λ q.
      (if length q == 0 || leb max_key_len (length q) then none else elim (find_key ps q) [
        | some i ↦ some (replace_value ps i v)
        | none ↦ some (append_pair ps q v)
      ])
      ≡ some (append_pair ps k v) in
    subst goal (sym same) (rw (fits, e) refl)

-- a byte that white space, a comment or a closing bracket does not begin with
unfoldable pub begins : ℕ → Bool
unfolding is_space
begins c = not (is_space c) && not (c == b'/') && not (c == b']') && not (c == b'}')

pub skip-begins : (c : ℕ) (s : Bytes) → begins c ≡ true → skip_whitespace (c ∷ s) ≡ c ∷ s
unfolding begins skip_whitespace
skip-begins c s h = ground arith

skip-indent : (level : ℕ) (s : Bytes) → skip_whitespace (indent level ++ s) ≡ skip_whitespace s
unfolding indent skip_whitespace
skip-indent zero s = refl
skip-indent (suc level) s = skip-indent level s

pub skip-line :
    (p : Bool) (level : ℕ) (s : Bytes) → skip_whitespace (line p level ++ s) ≡ skip_whitespace s
unfolding line skip_whitespace
skip-line false level s = refl
skip-line true level s = skip-indent level s

-- nothing of the edge goes on a number
pub Stops-line :
    (p : Bool) (level c : ℕ) (s : Bytes) → goes_on c ≡ false → Stops (line p level ++ (c ∷ s))
unfolding line goes_on
Stops-line false level c s h = h
Stops-line true level c s h = refl
