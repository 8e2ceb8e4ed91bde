-- ===== src/Dict/Reach.antt =====
-- Objects that `dict_object_set` and `dict_object_remove` lead to.
use nanoproxy.Prelude.{◌≡◌, refl, subst, Option, some, Bytes, arith, inl, inr, ◌>>=◌, Option-cases}
use nanoproxy.Dict.{
  DictValue, object, DictObject, object_end, set_pairs, object_set, remove_pairs, object_remove,
}
use nanoproxy.Dict.Store.{Distinct, HasDistinct, set_pairs-Distinct}
use nanoproxy.Dict.Removal.{remove_pairs-Distinct}

-- a change of an object by `dict_object_set` or `dict_object_remove`
pub data Change : DictValue → DictValue → Type 0 where
  by_set :
      {d e : DictValue} → (key : Bytes) (v : DictValue) → object_set d key v ≡ some e → Change d e
  by_remove : {d e : DictValue} → (key : Bytes) → object_remove d key ≡ some e → Change d e

-- a change of an object is one of its pairs
Inside : (d e : DictValue) → (DictObject → Option DictObject) → Type 0
Inside d e f =
    (o : DictObject) × (q : DictObject) × (d ≡ object o) × (f o ≡ some q) × (object q ≡ e)

Inside_lem :
    (o : DictObject) (e : DictValue) (f : DictObject → Option DictObject)
    → (f o >>= λ q. some (object q)) ≡ some e
    → Inside (object o) e f
unfolding Inside
Inside_lem o e f h = elim (Option-cases (f o)) [
  | inl kept ↦ absurd (ground (arith, kept, h))
  | inr (q, changed) ↦ (o, q, refl, changed, ground (arith, changed, h))
]

Change-Distinct :
    (d e : DictValue) (f : DictObject → Option DictObject)
    → Inside d e f
    → ((o q : DictObject) → Distinct o → f o ≡ some q → Distinct q)
    → HasDistinct d
    → HasDistinct e
unfolding Inside
Change-Distinct d e f (o, q, at, changed, to) keeps w =
    subst HasDistinct to (keeps o q (subst HasDistinct at w) changed)

object_set-Inside :
    (d e : DictValue) (key : Bytes) (v : DictValue)
    → object_set d key v ≡ some e
    → Inside d e (λ o. set_pairs o key v)
unfolding object_set
object_set-Inside (object o) e key v h = Inside_lem o e (λ o. set_pairs o key v) h
object_set-Inside _ e key v h = absurd (ground arith)

object_remove-Inside :
    (d e : DictValue) (key : Bytes)
    → object_remove d key ≡ some e
    → Inside d e (λ o. remove_pairs o key)
unfolding object_remove
object_remove-Inside (object o) e key h = Inside_lem o e (λ o. remove_pairs o key) h
object_remove-Inside _ e key h = absurd (ground arith)

-- what `dict_create_object` and any successful changes behind it lead to
pub data Reached : DictValue → Type 0 where
  created : Reached (object object_end)
  changed : {d e : DictValue} → Reached d → Change d e → Reached e

-- Whatever sequence of successful `dict_object_set` and `dict_object_remove` a new object goes through,
-- its keys differ from each other.
pub Reached-HasDistinct : (d : DictValue) → Reached d → HasDistinct d
unfolding Distinct
Reached-HasDistinct d created = tt
Reached-HasDistinct d (changed {d = c} r (by_set key v h)) =
    Change-Distinct c d (λ o. set_pairs o key v) (object_set-Inside c d key v h)
      (λ o q w e. set_pairs-Distinct o q key v w e) (Reached-HasDistinct c r)
Reached-HasDistinct d (changed {d = c} r (by_remove key h)) =
    Change-Distinct c d (λ o. remove_pairs o key) (object_remove-Inside c d key h)
      (λ o q w e. remove_pairs-Distinct o q key w e) (Reached-HasDistinct c r)
