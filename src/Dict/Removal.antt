-- ===== src/Dict/Removal.antt =====
-- `dict_object_remove` moves the last pair into the gap: what it takes away, and what it leaves.
use nanoproxy.Prelude.{
  ℕ, suc, ◌-◌, ◌<◌, ◌≡◌, refl, sym, subst, ap, ◌∙◌, false, none, some, Bytes, arith, if◌then◌else◌,
  equal, equal_iff, c_string, inl, inr, Bool-cases, Option-cases,
}
use nanoproxy.Dict.{
  DictValue, null, bool, number, int64, string, array, object, DictObject, object_end, pair, count,
  find_key, object_get, last_pair, drop_last, replace_pair, remove_pairs, object_remove,
}
use nanoproxy.Dict.Store.{lookup, Distinct, HasDistinct, missing_tail, value_at-find_key}
use nanoproxy.Dict.Gap.{
  without, lookup-missing, find_key-last_pair, without-pair, without-first, found_cases,
  lookup-without,
}

find_key-missing : (o : DictObject) (key : Bytes) → lookup o key ≡ none → find_key o key ≡ none
unfolding lookup find_key
find_key-missing object_end key e = refl
find_key-missing (pair l w o) key e = elim (Bool-cases (equal l key)) [
  | inl same ↦ absurd (ground (arith, same, e))
  | inr other ↦
      let missing : lookup o key ≡ none = ground (arith, other, e) in
      ground (arith, other, find_key-missing o key missing)
]

drop_last-missing :
    (o : DictObject) (key : Bytes) → find_key o key ≡ none → find_key (drop_last o) key ≡ none
unfolding drop_last find_key
drop_last-missing object_end key e = refl
drop_last-missing (pair l w object_end) key e = refl
drop_last-missing (pair l w (pair m x o)) key e =
    let (other, missing) = missing_tail key l w (pair m x o) e in
    ground (arith, other, drop_last-missing (pair m x o) key missing)

drop_last-Distinct : (o : DictObject) → Distinct o → Distinct (drop_last o)
unfolding Distinct drop_last
drop_last-Distinct object_end d = d
drop_last-Distinct (pair l w object_end) d = tt
drop_last-Distinct (pair l w (pair m x o)) d =
    (drop_last-missing (pair m x o) l d.0, drop_last-Distinct (pair m x o) d.1)

-- the last key is gone
last_pair-gone :
    (o : DictObject) (k : Bytes) (v : DictValue)
    → Distinct o
    → last_pair o ≡ some (k, v)
    → find_key (drop_last o) k ≡ none
unfolding Distinct drop_last last_pair find_key
last_pair-gone object_end k v d e = absurd (ground arith)
last_pair-gone (pair l w object_end) k v d e = refl
last_pair-gone (pair l w (pair m x o)) k v d e = elim (Bool-cases (equal l k)) [
  | inl same ↦ absurd (
      find_key-last_pair (pair m x o) k v e
        (subst (λ s. find_key (pair m x o) s ≡ none) ((equal_iff l k).0 same) d.0))
  | inr other ↦ ground (arith, other, last_pair-gone (pair m x o) k v d.1 e)
]

without-Distinct :
    (k : Bytes) (v : DictValue) (o : DictObject) (key : Bytes) (last i : ℕ)
    → Distinct o
    → find_key o key ≡ some i
    → last_pair o ≡ some (k, v)
    → count o ≡ suc last
    → Distinct (without o last i k v)
unfolding Distinct last_pair count drop_last find_key without replace_pair
without-Distinct k v object_end key last i d e h c = absurd (ground arith)
without-Distinct k v (pair l w object_end) key last i d e h c =
    elim (found_cases l w object_end key i e) [
      | inl (same, first) ↦
          let only : 0 ≡ last = omega (arith, c) in
          subst (λ n. Distinct (without (pair l w object_end) last n k v)) (sym first)
            (subst (λ n. Distinct (without (pair l w object_end) n 0 k v)) only tt)
      | inr (differ, (j, found, next)) ↦ absurd (ground arith)
    ]
without-Distinct k v (pair l w (pair m x o)) key last i d e h c =
    let behind : suc (count o) ≡ last = omega (arith, c) in
    subst (λ n. Distinct (without (pair l w (pair m x o)) n i k v)) behind
      (elim (found_cases l w (pair m x o) key i e) [
        | inl (same, first) ↦
            subst (λ n. Distinct (without (pair l w (pair m x o)) (suc (count o)) n k v))
              (sym first)
              (subst Distinct (sym (without-first l w m x o (count o) k v))
                (last_pair-gone (pair m x o) k v d.1 h, drop_last-Distinct (pair m x o) d.1))
        | inr (differ, (j, found, next)) ↦
            let other : equal key l ≡ false = elim (Bool-cases (equal key l)) [
              | inl p ↦ absurd (differ (sym ((equal_iff key l).0 p)))
              | inr p ↦ p
            ] in
            let gone : lookup (without (pair m x o) (count o) j k v) l ≡ none =
              lookup-without k v l (pair m x o) key (count o) j d.1 found h refl
              ∙ rw (other) (lookup-missing (pair m x o) l d.0) in
            subst (λ n. Distinct (without (pair l w (pair m x o)) (suc (count o)) n k v)) (sym next)
              (subst Distinct (sym (without-pair l w m x o (count o) j k v)) (
                find_key-missing _ l gone,
                without-Distinct k v (pair m x o) key (count o) j d.1 found h refl,
              ))
      ])

last_pair-count :
    (o : DictObject) (k : Bytes) (v : DictValue) → last_pair o ≡ some (k, v) → 0 < count o
unfolding last_pair count
last_pair-count object_end k v e = ground arith
last_pair-count (pair l w o) k v e = omega arith

-- how `dict_object_remove` succeeds
abbrev Removed : (o q : DictObject) (key : Bytes) → Type 0
Removed o q key =
    (i : ℕ) × (last : ℕ) × (k : Bytes) × (v : DictValue) × (find_key o key ≡ some i)
    × (last_pair o ≡ some (k, v))
    × (count o ≡ suc last)
    × (without o last i k v ≡ q)

remove_pairs-Removed :
    (o q : DictObject) (key : Bytes) → remove_pairs o key ≡ some q → Removed o q (c_string key)
unfolding remove_pairs without
remove_pairs-Removed o q key h = elim (Option-cases (find_key o (c_string key))) [
  | inl missing ↦ absurd (ground (arith, missing, h))
  | inr (i, found) ↦ elim (Option-cases (last_pair o)) [
    | inl empty ↦ absurd (ground (arith, found, empty, h))
    | inr ((k, v), end) ↦ (
      i,
      count o - 1,
      k,
      v,
      found,
      end,
      omega (arith, last_pair-count o k v end),
      ground (arith, found, end, h),
    )
  ]
]

remove_pairs-lookup :
    (o q : DictObject) (key other : Bytes)
    → Distinct o
    → remove_pairs o key ≡ some q
    → lookup q other ≡ (if equal (c_string key) other then none else lookup o other)
remove_pairs-lookup o q key other d h =
    let (i, last, k, v, found, end, size, e) = remove_pairs-Removed o q key h in
    ap (λ p. lookup p other) (sym e)
    ∙ lookup-without k v other o (c_string key) last i d found end size

pub remove_pairs-Distinct :
    (o q : DictObject) (key : Bytes) → Distinct o → remove_pairs o key ≡ some q → Distinct q
remove_pairs-Distinct o q key d h =
    let (i, last, k, v, found, end, size, e) = remove_pairs-Removed o q key h in
    subst Distinct e (without-Distinct k v o (c_string key) last i d found end size)

-- In an object whose keys differ, a successful `dict_object_remove` takes away its key and no other:
-- `dict_object_get` gives nothing for that key and what it gave before for every other key.
pub object_get-object_remove :
    (d e : DictValue) (key other : Bytes)
    → HasDistinct d
    → object_remove d key ≡ some e
    → object_get e other
      ≡ (if equal (c_string key) (c_string other) then none else object_get d other)
unfolding object_get object_remove
object_get-object_remove null e key other w h = ground arith
object_get-object_remove (bool b) e key other w h = ground arith
object_get-object_remove (number n) e key other w h = ground arith
object_get-object_remove (int64 n) e key other w h = ground arith
object_get-object_remove (string s) e key other w h = ground arith
object_get-object_remove (array xs) e key other w h = ground arith
object_get-object_remove (object o) e key other w h = elim (Option-cases (remove_pairs o key)) [
  | inl kept ↦ absurd (ground (arith, kept, h))
  | inr (q, gone) ↦
      let same : object q ≡ e = ground (arith, gone, h) in
      ap (λ v. object_get v other) (sym same)
      ∙ value_at-find_key q (c_string other)
      ∙ remove_pairs-lookup o q key (c_string other) w gone
      ∙ ap (λ r. if equal (c_string key) (c_string other) then none else r)
          (sym (value_at-find_key o (c_string other)))
]
