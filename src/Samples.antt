-- ===== src/Samples.antt =====
-- Concrete instances of what the program takes from its surroundings: an allocator that never
-- fails, and a string table that is an association list.
use nanoproxy.Prelude.{
  ℕ, zero, suc, ◌+◌, ◌≤◌, ◌≡◌, ◌≢◌, refl, sym, ap, ◌∙◌, Option, none, some, List, [], ◌∷◌, ◌++◌,
  Bytes, arith, equal, equal_iff, equal_refl, if◌then◌else◌, length, length-append,
  length-replicate, length-take, take, replicate, some-cancel, Bool-cases, inl, inr, take-take,
}
use nanoproxy.StringBuf.Heap.{Alloc, block}
use nanoproxy.Http.Table.{Table}

abbrev pub grown_block : Option Bytes → ℕ → Bytes
grown_block o n = take n (block o ++ replicate n 0)

take-prefix : (k : ℕ) (xs ys : Bytes) → k ≤ length xs → take k (xs ++ ys) ≡ take k xs
take-prefix zero xs ys h = refl
take-prefix (suc k) [] ys h = absurd (omega arith)
take-prefix (suc k) (x ∷ xs) ys h = ap (◌∷◌ x) (take-prefix k xs ys (omega arith))

length-grown_block : (o : Option Bytes) (n : ℕ) → length (grown_block o n) ≡ n
length-grown_block o n = omega (
  arith,
  length-take n (block o ++ replicate n 0),
  length-append (block o) (replicate n 0),
  length-replicate n (zero),
)

take-grown_block :
    (o : Option Bytes) (n k : ℕ)
    → k ≤ length (block o)
    → k ≤ n
    → take k (grown_block o n) ≡ take k (block o)
take-grown_block o n k h l =
    take-take k n (block o ++ replicate n 0) l ∙ take-prefix k (block o) (replicate n 0) h

pub malloc_law : (n : ℕ) (m : Bytes) → some (replicate n 0) ≡ some m → length m ≡ n
malloc_law n m e = ap length (sym (some-cancel e)) ∙ length-replicate n 0

pub realloc_law :
    (o : Option Bytes) (n : ℕ) (m : Bytes) → some (grown_block o n) ≡ some m → length m ≡ n
realloc_law o n m e = ap length (sym (some-cancel e)) ∙ length-grown_block o n

pub keeps_law :
    (o : Option Bytes) (n k : ℕ) (m : Bytes)
    → some (grown_block o n) ≡ some m
    → k ≤ length (block o)
    → k ≤ n
    → take k m ≡ take k (block o)
keeps_law o n k m e h l = ap (take k) (sym (some-cancel e)) ∙ take-grown_block o n k h l

abbrev pub heap : Alloc
heap = record {
  malloc = λ n. some (replicate n 0);
  realloc = λ o n. some (grown_block o n);
  length-malloc = malloc_law;
  length-realloc = realloc_law;
  take-realloc = keeps_law;
}

pub malloc_succeeds : (n : ℕ) → heap.malloc n ≢ none
malloc_succeeds n = λ e. cc

abbrev pub Fields : Type 0
Fields = List (Bytes × Bytes)

unfoldable pub put : Bytes → Bytes → Fields → Fields
put k v [] = (k, v) ∷ []
put k v ((j, w) ∷ t) = if equal j k then (j, v) ∷ t else (j, w) ∷ put k v t

unfoldable pub get : Bytes → Fields → Option Bytes
get k [] = none
get k ((j, w) ∷ t) = if equal j k then some w else get k t

pub get-empty : (k : Bytes) → get k [] ≡ none
unfolding get
get-empty k = refl

pub length-put : (k v : Bytes) (t : Fields) → length (put k v t) ≤ length t + 1
unfolding put
length-put k v [] = omega arith
length-put k v ((j, w) ∷ t) = ground (arith, length-put k v t)

pub get-put :
    (k j v : Bytes) (t : Fields) → get j (put k v t) ≡ (if equal k j then some v else get j t)
unfolding get put
get-put k j v [] = refl
get-put k j v ((i, w) ∷ t) = elim (Bool-cases (equal i k)) [
  | inl e ↦ rw (e, (equal_iff i k).0 e) (ground arith)
  | inr e ↦
      rw e
        (ground (arith, get-put k j v t, equal_iff i j, equal_iff k j, equal_iff i k, equal_refl i))
]

abbrev pub assoc : Table Fields
assoc = record {
  empty = [];
  put = put;
  get = get;
  len = length;
  len-empty = refl;
  len-put = length-put;
  get-empty = get-empty;
  get-put = get-put;
}
