-- ===== src/Dict/Bson/Decode.antt =====
-- `bson_deserialize_document_internal` never runs out of the fuel that `dict_deserialize_bson` gives it.
use nanoproxy.Prelude.{
  ℕ, zero, suc, ◌+◌, ◌-◌, ◌≤◌, ◌<◌, ◌≡◌, ◌≢◌, refl, subst, ap, Bool, true, false, ◌||◌, Option,
  none, some, [], ◌∷◌, Bytes, arith, ltb, ◌==◌, if◌then◌else◌, length, take, drop, length-take,
  length-drop, Bool-cases, Option-cases, inl, inr, ◌>>=◌,
}
use nanoproxy.Dict.{DictValue, number, int64, array, object, array_end, object_end, create_string}
use nanoproxy.Dict.Bson.{
  Read, got, refused, no_fuel, and_then, from_option, less_than, read_le, read_key, read_string,
  read_bool, read_document, read_value, put, read_end, read_item, read_items, deserialize_bson,
}

-- The read gives an answer, and what it gets has the property.
abbrev Holds {ℓ} : {A : Type ℓ} → (A → Type 0) → Read A → Type 0
Holds p (got a) = p a
Holds p refused = Unit
Holds p no_fuel = ⊥

abbrev Answers : Read DictValue → Type 0
Answers r = Holds (λ v. Unit) r

abbrev Left : ℕ → DictValue × Bytes → Type 0
Left n r = length r.1 ≤ n

module _ {ℓ κ} {A : Type ℓ} {B : Type κ} where
  and_then-Holds :
      (p : A → Type 0) (q : B → Type 0) (r : Read A) (f : A → Read B)
      → Holds p r
      → ((a : A) → p a → Holds q (f a))
      → Holds q (and_then r f)
  and_then-Holds p q (got a) f h g = g a h
  and_then-Holds p q refused f h g = tt
  and_then-Holds p q no_fuel f h g = absurd h

from_option-Holds {ℓ} :
    {A : Type ℓ} (p : A → Type 0) (o : Option A)
    → ((a : A) → o ≡ some a → p a)
    → Holds p (from_option o)
from_option-Holds p none h = tt
from_option-Holds p (some a) h = h a refl

if-Holds {ℓ} :
    {A : Type ℓ} (p : A → Type 0) (b : Bool) (x y : Read A)
    → Holds p x
    → Holds p y
    → Holds p (if b then x else y)
if-Holds p true x y h g = h
if-Holds p false x y h g = g

read_le-length :
    (n : ℕ) (s : Bytes) (r : ℕ × Bytes) → read_le n s ≡ some r → n + length r.1 ≡ length s
unfolding read_le
read_le-length zero s r e = ground arith
read_le-length (suc n) [] r e = ground arith
read_le-length (suc n) (c ∷ cs) r e = elim (Option-cases (read_le n cs)) [
  | inl short ↦ absurd (ground (arith, short, e))
  | inr (q, read) ↦
      let tail : q.1 ≡ r.1 = ground (arith, read, e) in
      omega (arith, read_le-length n cs q read, ap length tail)
]

read_key-length : (s : Bytes) (r : Bytes × Bytes) → read_key s ≡ some r → length r.1 < length s
unfolding read_key
read_key-length [] r e = ground arith
read_key-length (zero ∷ cs) r e =
    let tail : cs ≡ r.1 = ground (arith, e) in omega (arith, ap length tail)
read_key-length (suc c ∷ cs) r e = elim (Option-cases (read_key cs)) [
  | inl short ↦ absurd (ground (arith, short, e))
  | inr (q, read) ↦
      let tail : q.1 ≡ r.1 = ground (arith, read, e) in
      omega (arith, read_key-length cs q read, ap length tail)
]

read_string-length :
    (s : Bytes) (r : DictValue × Bytes) → read_string s ≡ some r → Left (length s) r
unfolding read_string
read_string-length s r e = elim (Option-cases (read_le 4 s)) [
  | inl short ↦ absurd (ground (arith, short, e))
  | inr (q, word) ↦ elim (Bool-cases (less_than q.0 1 || ltb (length q.1) q.0)) [
    | inl outside ↦ absurd (ground (arith, word, outside, e))
    | inr inside ↦ elim (Option-cases (create_string (take (q.0 - 1) q.1))) [
      | inl empty ↦ absurd (ground (arith, word, inside, empty, e))
      | inr (v, made) ↦
          let tail : drop q.0 q.1 ≡ r.1 = ground (arith, word, inside, made, e) in
          omega (arith, read_le-length 4 s q word, ap length tail, length-drop q.0 q.1)
    ]
  ]
]

word-Left :
    (f : ℕ → DictValue) (s : Bytes) (r : DictValue × Bytes)
    → (read_le 8 s >>= λ q. some (f q.0, q.1)) ≡ some r
    → Left (length s) r
word-Left f s r e = elim (Option-cases (read_le 8 s)) [
  | inl short ↦ absurd (ground (arith, short, e))
  | inr (q, word) ↦
      let tail : q.1 ≡ r.1 = ground (arith, word, e) in
      omega (arith, read_le-length 8 s q word, ap length tail)
]

read_bool-length : (s : Bytes) (r : DictValue × Bytes) → read_bool s ≡ some r → Left (length s) r
read_bool-length [] r e = ground arith
read_bool-length (c ∷ cs) r e =
    let tail : cs ≡ r.1 = ground (arith, e) in omega (arith, ap length tail)

module _ (items : DictValue → Bytes → Read DictValue) (n : ℕ)
    (answers : (v : DictValue) (s : Bytes) → length s < n → Answers (items v s)) where
  read_document-Holds :
      (empty : DictValue) (buf : Bytes)
      → length buf ≤ n
      → Holds (Left (length buf)) (read_document items empty buf)
  unfolding read_document
  read_document-Holds empty buf h = if-Holds _ (ltb (length buf) 5) _ _ tt (
      and_then-Holds (λ r. 4 + length r.1 ≡ length buf) _ (from_option (read_le 4 buf)) _
        (from_option-Holds _ (read_le 4 buf) (λ r e. read_le-length 4 buf r e))
        (λ r e. if-Holds _ (less_than r.0 5 || ltb (length buf) r.0) _ _ tt (
          and_then-Holds (λ v. Unit) _ (items empty (take (r.0 - 4) r.1)) _
            (answers empty (take (r.0 - 4) r.1) (omega (arith, length-take (r.0 - 4) r.1)))
            (λ v u. omega (arith, length-drop (r.0 - 4) r.1)))))

  read_value-Holds :
      (tag : ℕ) (s : Bytes) → length s ≤ n → Holds (Left (length s)) (read_value items tag s)
  unfolding read_value
  read_value-Holds tag s h =
      if-Holds _ (tag == 1) _ _ (from_option-Holds _ _ (word-Left number s)) (
        if-Holds _ (tag == 18) _ _ (from_option-Holds _ _ (word-Left int64 s)) (
          if-Holds _ (tag == 2) _ _ (from_option-Holds _ _ (read_string-length s)) (
            if-Holds _ (tag == 8) _ _ (from_option-Holds _ _ (read_bool-length s)) (
              if-Holds _ (tag == 10) _ _ (omega arith) (
                if-Holds _ (tag == 3) _ _ (read_document-Holds (object object_end) s h)
                  (if-Holds _ (tag == 4) _ _ (read_document-Holds (array array_end) s h) tt))))))

  read_end-Answers : (v : DictValue) (s : Bytes) → Answers (read_end v s)
  read_end-Answers v [] = tt
  read_end-Answers v (c ∷ []) = tt
  read_end-Answers v (c ∷ d ∷ s) = tt

  read_item-Answers :
      (result : DictValue) (tag : ℕ) (s : Bytes)
      → length s ≤ n
      → Answers (read_item items result tag s)
  unfolding read_item
  read_item-Answers result tag s h = if-Holds _ (tag == 0) _ _ (read_end-Answers result s) (
      and_then-Holds (λ r. length r.1 < length s) _ (from_option (read_key s)) _
        (from_option-Holds _ (read_key s) (read_key-length s))
        (λ r e.
          and_then-Holds (Left (length r.1)) _ (read_value items tag r.1) _
            (read_value-Holds tag r.1 (omega (arith, e)))
            (λ q f.
              and_then-Holds (λ v. Unit) _ (from_option (put result r.0 q.0)) _
                (from_option-Holds _ (put result r.0 q.0) (λ v p. tt))
                (λ v u. answers v q.1 (omega arith)))))

read_items-Answers :
    (fuel : ℕ) (result : DictValue) (s : Bytes)
    → length s < fuel
    → Answers (read_items fuel result s)
unfolding read_items
read_items-Answers zero result s h = absurd (omega arith)
read_items-Answers (suc fuel) result [] h = tt
read_items-Answers (suc fuel) result (c ∷ []) h = tt
read_items-Answers (suc fuel) result (tag ∷ c ∷ s) h =
    read_item-Answers (read_items fuel) fuel (λ v t g. read_items-Answers fuel v t g) result tag
      (c ∷ s) (omega arith)

-- On every buffer `dict_deserialize_bson` comes to an end: it gives a value or NULL.
pub deserialize_bson_total : (buf : Bytes) → deserialize_bson buf ≢ no_fuel
unfolding deserialize_bson
deserialize_bson_total buf e =
    let answer : Answers (deserialize_bson buf) =
      and_then-Holds (Left (length buf)) (λ v. Unit)
        (read_document (read_items (length buf)) (object object_end) buf) _
        (read_document-Holds (read_items (length buf)) (length buf)
          (λ v s h. read_items-Answers (length buf) v s h) (object object_end) buf (omega arith))
        (λ r h. if-Holds _ (length r.1 == 0) _ _ tt tt) in
    subst Answers e answer
