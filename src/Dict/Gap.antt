-- ===== src/Dict/Gap.antt =====
-- The last pair in the place of another one: what `dict_object_remove` leaves of an object, key by key.
use nanoproxy.Prelude.{
  ℕ, zero, suc, ◌≡◌, ◌≢◌, refl, sym, subst, ap, ◌∙◌, Bool, true, false, Option, none, some, Bytes,
  arith, ◌==◌, if◌then◌else◌, equal, equal_iff, inl, inr, ◌⊎◌, Bool-cases, Option-cases,
}
use nanoproxy.Dict.{
  DictValue, DictObject, object_end, pair, count, find_key, last_pair, drop_last, replace_pair,
}
use nanoproxy.Dict.Store.{lookup, Distinct, missing_tail}

-- the pairs without the one at `i`, the last pair, of index `last`, in its place
unfoldable pub without : DictObject → ℕ → ℕ → Bytes → DictValue → DictObject
without o last i k v = drop_last (if i == last then o else replace_pair o i k v)

pub lookup-missing : (o : DictObject) (key : Bytes) → find_key o key ≡ none → lookup o key ≡ none
unfolding lookup find_key
lookup-missing object_end key e = refl
lookup-missing (pair l w o) key e =
    let (other, missing) = missing_tail key l w o e in
    ground (arith, other, lookup-missing o key missing)

-- the last pair has a key
pub find_key-last_pair :
    (o : DictObject) (k : Bytes) (v : DictValue) → last_pair o ≡ some (k, v) → find_key o k ≢ none
unfolding last_pair find_key
find_key-last_pair object_end k v e f = ground arith
find_key-last_pair (pair l w object_end) k v e f = ground (arith, equal_iff l k)
find_key-last_pair (pair l w (pair m x o)) k v e f =
    find_key-last_pair (pair m x o) k v e (missing_tail k l w (pair m x o) f).1

-- keys that differ are looked up in either order
swap :
    (l k key : Bytes) (w v : DictValue) (r s : Option DictValue)
    → l ≢ k
    → r ≡ (if equal k key then some v else s)
    → (if equal l key then some w else r)
      ≡ (if equal k key then some v else if equal l key then some w else s)
swap l k key w v r s other e = elim (Bool-cases (equal l key)) [
  | inl here ↦
      let not_k : equal k key ≡ false = elim (Bool-cases (equal k key)) [
        | inl there ↦ absurd (other ((equal_iff l key).0 here ∙ sym ((equal_iff k key).0 there)))
        | inr not_there ↦ not_there
      ] in
      rw (here, not_k) refl
  | inr not_here ↦ rw (not_here) e
]

-- the last pair is looked up first as well as last
lookup-drop_last :
    (o : DictObject) (k : Bytes) (v : DictValue) (key : Bytes)
    → Distinct o
    → last_pair o ≡ some (k, v)
    → lookup o key ≡ (if equal k key then some v else lookup (drop_last o) key)
unfolding lookup drop_last last_pair Distinct
lookup-drop_last object_end k v key d e = ground arith
lookup-drop_last (pair l w object_end) k v key d e = ground arith
lookup-drop_last (pair l w (pair m x o)) k v key d e =
    let other : l ≢ k = λ same.
      find_key-last_pair (pair m x o) k v e
        (subst (λ s. find_key (pair m x o) s ≡ none) same d.0) in
    swap l k key w v _ (lookup (drop_last (pair m x o)) key) other
      (lookup-drop_last (pair m x o) k v key d.1 e)

drop_last-pick :
    (l m : Bytes) (w x : DictValue) (n : Bytes) (y : DictValue) (o p : DictObject) (b : Bool)
    → drop_last (if b then pair l w (pair m x o) else pair l w (pair n y p))
      ≡ pair l w (drop_last (if b then pair m x o else pair n y p))
unfolding drop_last
drop_last-pick l m w x n y o p true = refl
drop_last-pick l m w x n y o p false = refl

pub without-pair :
    (l : Bytes) (w : DictValue) (m : Bytes) (x : DictValue) (o : DictObject) (n j : ℕ) (k : Bytes)
    (v : DictValue)
    → without (pair l w (pair m x o)) (suc n) (suc j) k v ≡ pair l w (without (pair m x o) n j k v)
unfolding without drop_last replace_pair
without-pair l w m x o n zero k v =
    let same : (1 == suc n) ≡ (0 == n) = ground arith in
    rw (same) (drop_last-pick l m w x k v o o (0 == n))
without-pair l w m x o n (suc j) k v =
    let same : (suc (suc j) == suc n) ≡ (suc j == n) = ground arith in
    rw (same) (drop_last-pick l m w x m x o (replace_pair o j k v) (suc j == n))

pub without-first :
    (l : Bytes) (w : DictValue) (m : Bytes) (x : DictValue) (o : DictObject) (n : ℕ) (k : Bytes)
    (v : DictValue)
    → without (pair l w (pair m x o)) (suc n) 0 k v ≡ pair k v (drop_last (pair m x o))
unfolding without drop_last replace_pair
without-first l w m x o n k v = let inner : (0 == suc n) ≡ false = ground arith in rw (inner) refl

-- Is the key found in the tail, its index is one more.
pub found_cases :
    (l : Bytes) (w : DictValue) (o : DictObject) (key : Bytes) (i : ℕ)
    → find_key (pair l w o) key ≡ some i
    → ((l ≡ key) × (i ≡ 0)) ⊎ ((l ≢ key) × ((j : ℕ) × (find_key o key ≡ some j) × (i ≡ suc j)))
unfolding find_key
found_cases l w o key i e = elim (Bool-cases (equal l key)) [
  | inl same ↦ inl ((equal_iff l key).0 same, ground (arith, same, e))
  | inr other ↦ elim (Option-cases (find_key o key)) [
    | inl missing ↦ absurd (ground (arith, other, missing, e))
    | inr (j, found) ↦
        inr (λ p. cc (other, (equal_iff l key).1 p), (j, found, ground (arith, other, found, e)))
  ]
]

-- what is looked up where the first pair goes, and where it stays
pub gap :
    (k other : Bytes) (w : DictValue) (r : Option DictValue)
    → (k ≡ other → r ≡ none)
    → r ≡ (if equal k other then none else if equal k other then some w else r)
gap k other w r e = elim (Bool-cases (equal k other)) [
  | inl here ↦ rw (here) (e ((equal_iff k other).0 here))
  | inr there ↦ rw (there) refl
]

pub keep :
    (l key other : Bytes) (w : DictValue) (r : Option DictValue)
    → l ≢ key
    → (if equal l other then some w else if equal key other then none else r)
      ≡ (if equal key other then none else if equal l other then some w else r)
keep l key other w r differ =
    sym (after (Bool-cases (equal key other)) (Bool-cases (equal l other)))
  where
    after :
        (equal key other ≡ true) ⊎ (equal key other ≡ false)
        → (equal l other ≡ true) ⊎ (equal l other ≡ false)
        → (if equal key other then none else if equal l other then some w else r)
          ≡ (if equal l other then some w else if equal key other then none else r)
    after (inl a) (inl b) =
        absurd (differ ((equal_iff l other).0 b ∙ sym ((equal_iff key other).0 a)))
    after (inl a) (inr b) = rw (a, b) refl
    after (inr a) (inl b) = rw (a, b) refl
    after (inr a) (inr b) = rw (a, b) refl

module _ (k : Bytes) (v : DictValue) (other : Bytes) where
  abbrev Removes : DictObject → ℕ → ℕ → Bytes → Type 0
  Removes o last i key =
      lookup (without o last i k v) other ≡ (if equal key other then none else lookup o other)

  pub lookup-without :
      (o : DictObject) (key : Bytes) (last i : ℕ)
      → Distinct o
      → find_key o key ≡ some i
      → last_pair o ≡ some (k, v)
      → count o ≡ suc last
      → Removes o last i key
  unfolding Distinct last_pair lookup count drop_last find_key without replace_pair
  lookup-without object_end key last i d e h c = absurd (ground arith)
  lookup-without (pair l w object_end) key last i d e h c =
      elim (found_cases l w object_end key i e) [
        | inl (same, first) ↦
            let only : 0 ≡ last = omega (arith, c) in
            subst (λ n. Removes (pair l w object_end) last n key) (sym first)
              (subst (λ n. Removes (pair l w object_end) n 0 key) only
                (subst (λ s. Removes (pair l w object_end) 0 0 s) same
                  (gap l other w none (λ p. refl))))
        | inr (differ, (j, found, next)) ↦ absurd (ground arith)
      ]
  lookup-without (pair l w (pair m x o)) key last i d e h c =
      let behind : suc (count o) ≡ last = omega (arith, c) in
      subst (λ n. Removes (pair l w (pair m x o)) n i key) behind
        (elim (found_cases l w (pair m x o) key i e) [
          | inl (same, first) ↦
              subst (λ n. Removes (pair l w (pair m x o)) (suc (count o)) n key) (sym first)
                (subst (λ s. Removes (pair l w (pair m x o)) (suc (count o)) 0 s) same
                  (ap (λ p. lookup p other) (without-first l w m x o (count o) k v)
                    ∙ sym (lookup-drop_last (pair m x o) k v other d.1 h)
                    ∙ gap l other w (lookup (pair m x o) other) (λ p.
                      subst (λ s. lookup (pair m x o) s ≡ none) p
                        (lookup-missing (pair m x o) l d.0))))
          | inr (differ, (j, found, next)) ↦
              subst (λ n. Removes (pair l w (pair m x o)) (suc (count o)) n key) (sym next)
                (ap (λ p. lookup p other) (without-pair l w m x o (count o) j k v)
                  ∙ ap (λ r. if equal l other then some w else r)
                      (lookup-without (pair m x o) key (count o) j d.1 found h refl)
                  ∙ keep l key other w (lookup (pair m x o) other) differ)
        ])
