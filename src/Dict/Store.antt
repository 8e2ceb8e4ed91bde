-- ===== src/Dict/Store.antt =====
-- What the operations on objects promise: an object is a finite map from keys to values.
use nanoproxy.Prelude.{
  ℕ, zero, suc, ◌≡◌, refl, sym, subst, ap, ◌∙◌, false, ◌||◌, Option, none, some, Bytes, arith, leb,
  ◌==◌, if◌then◌else◌, length, equal, equal_iff, c_string, inl, inr, ◌⊎◌, ◌>>=◌, Bool-cases,
  Option-cases,
}
use nanoproxy.Dict.{
  DictValue, null, bool, number, int64, string, array, object, DictObject, object_end, pair,
  find_key, value_at, replace_value, append_pair, set_pairs, object_set, object_get, max_key_len,
}

-- the value that the pairs give a key
unfoldable pub lookup : DictObject → Bytes → Option DictValue
lookup object_end key = none
lookup (pair k v o) key = let rest = lookup o key in if equal k key then some v else rest

pub value_at-find_key :
    (o : DictObject) (key : Bytes) → (find_key o key >>= λ i. value_at o i) ≡ lookup o key
unfolding find_key value_at lookup
value_at-find_key object_end key = refl
value_at-find_key (pair k v o) key = elim (Bool-cases (equal k key)) [
  | inl e ↦ rw (e) refl
  | inr e ↦ rw (e) (step (find_key o key) ∙ value_at-find_key o key)
]
  where
    step :
        (r : Option ℕ)
        → ((r >>= λ i. some (suc i)) >>= λ i. value_at (pair k v o) i) ≡ (r >>= λ i. value_at o i)
    step none = refl
    step (some i) = refl

lookup-replace_value :
    (o : DictObject) (k : Bytes) (v : DictValue) (i : ℕ) (key : Bytes)
    → find_key o k ≡ some i
    → lookup (replace_value o i v) key ≡ (if equal k key then some v else lookup o key)
unfolding find_key lookup replace_value
lookup-replace_value object_end k v i key e = ground arith
lookup-replace_value (pair l w o) k v i key e = elim (Bool-cases (equal l k)) [
  | inl same ↦
      let first : 0 ≡ i = ground (arith, same, e) in
      subst
        (λ j.
          lookup (replace_value (pair l w o) j v) key
          ≡ (if equal k key then some v else lookup (pair l w o) key))
        first (ground (arith, (equal_iff l k).0 same, same))
  | inr other ↦ elim (Option-cases (find_key o k)) [
    | inl missing ↦ absurd (ground (arith, other, missing, e))
    | inr (j, found) ↦
        let next : suc j ≡ i = ground (arith, other, found, e) in
        subst
          (λ n.
            lookup (replace_value (pair l w o) n v) key
            ≡ (if equal k key then some v else lookup (pair l w o) key))
          next
          (ground (
            arith,
            other,
            lookup-replace_value o k v j key found,
            equal_iff l key,
            equal_iff k key,
            equal_iff l k,
          ))
  ]
]

pub missing_tail :
    (k : Bytes) (l : Bytes) (w : DictValue) (o : DictObject)
    → find_key (pair l w o) k ≡ none
    → (equal l k ≡ false) × (find_key o k ≡ none)
unfolding find_key
missing_tail k l w o e = elim (Option-cases (find_key o k)) [
  | inl missing ↦ (ground (arith, missing, e), missing)
  | inr (j, found) ↦ absurd (ground (arith, found, e))
]

-- keys that differ
unfoldable pub Distinct : DictObject → Type 0
Distinct object_end = Unit
Distinct (pair k v o) = (find_key o k ≡ none) × Distinct o

lookup-append_pair :
    (o : DictObject) (k : Bytes) (v : DictValue) (key : Bytes)
    → find_key o k ≡ none
    → lookup (append_pair o k v) key ≡ (if equal k key then some v else lookup o key)
unfolding find_key lookup append_pair
lookup-append_pair object_end k v key e = refl
lookup-append_pair (pair l w o) k v key e =
    let (other, missing) = missing_tail k l w o e in
    ground (
      arith,
      other,
      lookup-append_pair o k v key missing,
      equal_iff l key,
      equal_iff k key,
      equal_iff l k,
    )

unfoldable SetsPairs : (o q : DictObject) (k : Bytes) (v : DictValue) → Type 0
SetsPairs o q k v =
    ((i : ℕ) × (find_key o k ≡ some i) × (replace_value o i v ≡ q))
    ⊎ ((find_key o k ≡ none) × (append_pair o k v ≡ q))

-- the two ways for `dict_object_set` to succeed
set_pairs-SetsPairs :
    (o q : DictObject) (key : Bytes) (v : DictValue)
    → set_pairs o key v ≡ some q
    → SetsPairs o q (c_string key) v
unfolding set_pairs SetsPairs
set_pairs-SetsPairs o q key v h =
    elim (Bool-cases (length (c_string key) == 0 || leb max_key_len (length (c_string key)))) [
      | inl long ↦ absurd (ground (arith, long, h))
      | inr fits ↦ elim (Option-cases (find_key o (c_string key))) [
        | inl missing ↦ inr (missing, ground (arith, fits, missing, h))
        | inr (i, found) ↦ inl (i, found, ground (arith, fits, found, h))
      ]
    ]

set_pairs-lookup :
    (o q : DictObject) (key : Bytes) (v : DictValue) (other : Bytes)
    → set_pairs o key v ≡ some q
    → lookup q other ≡ (if equal (c_string key) other then some v else lookup o other)
unfolding SetsPairs
set_pairs-lookup o q key v other h = elim (set_pairs-SetsPairs o q key v h) [
  | inl (i, found, e) ↦
      ap (λ p. lookup p other) (sym e) ∙ lookup-replace_value o (c_string key) v i other found
  | inr (missing, e) ↦
      ap (λ p. lookup p other) (sym e) ∙ lookup-append_pair o (c_string key) v other missing
]

-- Where `dict_object_set` succeeds, the new value is what `dict_object_get` gives for its key, and every
-- other key keeps its value.
pub object_get-object_set :
    (d e : DictValue) (key other : Bytes) (v : DictValue)
    → object_set d key v ≡ some e
    → object_get e other
      ≡ (if equal (c_string key) (c_string other) then some v else object_get d other)
unfolding object_get object_set set_pairs
object_get-object_set null e key other v h = ground arith
object_get-object_set (bool b) e key other v h = ground arith
object_get-object_set (number n) e key other v h = ground arith
object_get-object_set (int64 n) e key other v h = ground arith
object_get-object_set (string s) e key other v h = ground arith
object_get-object_set (array xs) e key other v h = ground arith
object_get-object_set (object o) e key other v h = elim (Option-cases (set_pairs o key v)) [
  | inl none_set ↦ absurd (ground (arith, none_set, h))
  | inr (q, e_q) ↦
      let same : object q ≡ e = ground (arith, e_q, h) in
      ap (λ w. object_get w other) (sym same)
      ∙ value_at-find_key q (c_string other)
      ∙ set_pairs-lookup o q key v (c_string other) e_q
      ∙ ap (λ r. if equal (c_string key) (c_string other) then some v else r)
          (sym (value_at-find_key o (c_string other)))
]

find_key-replace_value :
    (o : DictObject) (i : ℕ) (v : DictValue) (key : Bytes)
    → find_key (replace_value o i v) key ≡ find_key o key
unfolding find_key replace_value
find_key-replace_value object_end i v key = refl
find_key-replace_value (pair l w o) zero v key = refl
find_key-replace_value (pair l w o) (suc i) v key =
    ap (λ r. if equal l key then some 0 else (r >>= λ j. some (suc j)))
      (find_key-replace_value o i v key)

replace_value-Distinct :
    (o : DictObject) (i : ℕ) (v : DictValue) → Distinct o → Distinct (replace_value o i v)
unfolding Distinct replace_value
replace_value-Distinct object_end i v d = d
replace_value-Distinct (pair l w o) zero v d = d
replace_value-Distinct (pair l w o) (suc i) v d =
    (find_key-replace_value o i v l ∙ d.0, replace_value-Distinct o i v d.1)

find_key-append_pair :
    (o : DictObject) (k : Bytes) (v : DictValue) (key : Bytes)
    → find_key o key ≡ none
    → equal k key ≡ false
    → find_key (append_pair o k v) key ≡ none
unfolding find_key append_pair
find_key-append_pair object_end k v key e f = ground (arith, f)
find_key-append_pair (pair l w o) k v key e f =
    let (other, missing) = missing_tail key l w o e in
    ground (arith, other, find_key-append_pair o k v key missing f)

append_pair-Distinct :
    (o : DictObject) (k : Bytes) (v : DictValue)
    → find_key o k ≡ none
    → Distinct o
    → Distinct (append_pair o k v)
unfolding Distinct append_pair find_key
append_pair-Distinct object_end k v e d = (refl, tt)
append_pair-Distinct (pair l w o) k v e d =
    let (other, missing) = missing_tail k l w o e in
    (
      find_key-append_pair o k v l d.0 (ground (arith, other, equal_iff k l, equal_iff l k)),
      append_pair-Distinct o k v missing d.1,
    )

-- the pairs of an object
abbrev pub HasDistinct : DictValue → Type 0
HasDistinct (object o) = Distinct o
HasDistinct _ = Unit

pub set_pairs-Distinct :
    (o q : DictObject) (key : Bytes) (v : DictValue)
    → Distinct o
    → set_pairs o key v ≡ some q
    → Distinct q
unfolding SetsPairs
set_pairs-Distinct o q key v d h = elim (set_pairs-SetsPairs o q key v h) [
  | inl (i, found, e) ↦ subst Distinct e (replace_value-Distinct o i v d)
  | inr (missing, e) ↦ subst Distinct e (append_pair-Distinct o (c_string key) v missing d)
]
