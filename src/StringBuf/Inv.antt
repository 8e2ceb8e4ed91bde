-- ===== src/StringBuf/Inv.antt =====
-- The representation invariant of include/stringbuf.h: the size stays below the capacity, the
-- block is as long as the capacity says, and a NUL stands behind the bytes in use.
use nanoproxy.Prelude.{
  ℕ, zero, suc, ◌+◌, ◌-◌, ◌^◌, ◌≤◌, ◌<◌, ◌≡◌, refl, ap, ◌∙◌, sym, inl, inr, Bool, true, false,
  Option, none, some, [], ◌∷◌, ◌++◌, Bytes, arith, if◌then◌else◌, take, drop, set, write_at, length,
  get_elem?, length-set, length-write_at, length-take, length-drop, get_elem?-set_self, take-set,
  take-write_at, take-take, take-nil, drop-nil, Option-cases,
}
use nanoproxy.StringBuf.Heap.{Alloc}
use nanoproxy.StringBuf.{
  StringBuf, append_reserved, append_char_reserved, contents, bytes_of, grow, ssize_max, on_mem,
  grown, reserve, append, append_char, shift, consume, clear, free,
}

abbrev pub Held : Option Bytes → ℕ → ℕ → Type 0
Held none size cap = (size ≡ 0) × (cap ≡ 0)
Held (some m) size cap = (length m ≡ cap) × (size < cap) × (get_elem? m size ≡ some 0)

pub record IsValid (sb : StringBuf) : Type 0 where
  pub held : Held sb.mem sb.size sb.capacity
  pub small : sb.capacity ≤ ssize_max

-- a NUL written into a block is there, and the bytes before it stay
pub terminated : (m : Bytes) (n cap : ℕ) → length m ≡ cap → n < cap → Held (some (set m n 0)) n cap
terminated m n cap e h = (length-set m n 0 ∙ e, h, get_elem?-set_self m n 0 (omega arith))

-- A block with room for a NUL, which need not be there yet.
abbrev pub Roomy : Option Bytes → ℕ → ℕ → Type 0
Roomy none size cap = (size ≡ 0) × (cap ≡ 0)
Roomy (some m) size cap = (length m ≡ cap) × (size < cap)

take-eq_shorter : (n k : ℕ) (xs ys : Bytes) → n ≤ k → take k xs ≡ take k ys → take n xs ≡ take n ys
take-eq_shorter n k xs ys h e = sym (take-take n k xs h) ∙ ap (take n) e ∙ take-take n k ys h

Held-Roomy : (o : Option Bytes) (size cap : ℕ) → Held o size cap → Roomy o size cap
Held-Roomy none size cap h = h
Held-Roomy (some m) size cap h = (h.0, h.1)

-- What `reserve` promises of a valid buffer: room for `need` bytes and a NUL, or no change.
pub record Reserved (sb : StringBuf) (need : ℕ) (out : Bool × StringBuf) : Type 0 where
  pub same_size : out.1.size ≡ sb.size
  pub failed : out.0 ≡ false → out.1 ≡ sb
  pub room : out.0 ≡ true → need < out.1.capacity
  pub same_bytes : contents out.1 ≡ contents sb
  pub roomy : Roomy out.1.mem out.1.size out.1.capacity
  pub small : out.1.capacity ≤ ssize_max

pub Held-size : (o : Option Bytes) (size cap : ℕ) → Held o size cap → size ≤ cap
Held-size none size cap h = omega arith
Held-size (some m) size cap h = omega arith

module _ (a : Alloc) where
  grow-bytes :
      (o : Option Bytes) (size cap cap' : ℕ) (m : Bytes)
      → Held o size cap
      → cap ≤ cap'
      → a.realloc o cap' ≡ some m
      → take size m ≡ bytes_of o size
  grow-bytes none size cap cap' m h le e = rw h.0
  grow-bytes (some b) size cap cap' m h le e =
      a.take-realloc (some b) cap' size m e (omega arith) (omega arith)

  grow-Reserved :
      (sb : StringBuf) (need cap : ℕ)
      → IsValid sb
      → sb.capacity ≤ cap
      → need < cap
      → sb.size < cap
      → cap ≤ ssize_max
      → Reserved sb need (grow a sb cap)
  unfolding grow
  grow-Reserved sb need cap' v le lt in_cap small = elim (Option-cases (a.realloc sb.mem cap')) [
    | inl e ↦
        rw (e, grow)
          (record {
            same_size = refl;
            failed = λ _. refl;
            room = λ h. cc;
            same_bytes = refl;
            roomy = Held-Roomy sb.mem sb.size sb.capacity v.held;
            small = v.small;
          })
    | inr (m, e) ↦
        rw (e, grow)
          (record {
            same_size = refl;
            failed = λ h. cc;
            room = λ _. lt;
            same_bytes = grow-bytes sb.mem sb.size sb.capacity cap' m v.held le e;
            roomy = (a.length-realloc sb.mem cap' m e, in_cap);
            small = small;
          })
  ]

  pub reserve-Reserved :
      (sb : StringBuf) (need : ℕ) → IsValid sb → Reserved sb need (reserve a sb need)
  unfolding reserve
  reserve-Reserved sb need v = ground (
    arith,
    grow-Reserved sb need (grown sb.capacity (need + 1)) v,
    Held-Roomy sb.mem sb.size sb.capacity v.held,
  )

-- An operation keeps the buffer valid and, where it says so, turns its bytes into `next`; where
-- it fails the bytes stay.
pub record Does (sb : StringBuf) (next : Bytes) (out : Bool × StringBuf) : Type 0 where
  pub valid : IsValid out.1
  pub bytes : contents out.1 ≡ (if out.0 then next else contents sb)

put-Held :
    (o : Option Bytes) (size cap len : ℕ) (src : Bytes)
    → Roomy o size cap
    → size + len < cap
    → len ≤ length src
    → Held (on_mem (λ m. set (write_at size (take len src) m) (size + len) 0) o) (size + len) cap
put-Held none size cap len src h lt le = absurd (omega arith)
put-Held (some m) size cap len src h lt le =
    terminated (write_at size (take len src) m) (size + len) cap
      (length-write_at size (take len src) m ∙ h.0) lt

put-bytes :
    (o : Option Bytes) (size cap len : ℕ) (src : Bytes)
    → Roomy o size cap
    → size + len < cap
    → len ≤ length src
    → bytes_of (on_mem (λ m. set (write_at size (take len src) m) (size + len) 0) o) (size + len)
      ≡ bytes_of o size ++ take len src
put-bytes none size cap len src h lt le = absurd (omega arith)
put-bytes (some m) size cap len src h lt le =
    take-set (size + len) (size + len) 0 (write_at size (take len src) m) (omega arith)
    ∙ take-write_at size (size + len) (take len src) m (omega (arith, length-take len src))
        (omega arith)

push-Held :
    (o : Option Bytes) (size cap c : ℕ)
    → Roomy o size cap
    → size + 1 < cap
    → Held (on_mem (λ m. set (set m size c) (size + 1) 0) o) (size + 1) cap
push-Held none size cap c h lt = absurd (omega arith)
push-Held (some m) size cap c h lt =
    terminated (set m size c) (size + 1) cap (length-set m size c ∙ h.0) lt

take-set_end :
    (n : ℕ) (c : ℕ) (xs : Bytes) → n < length xs → take (suc n) (set xs n c) ≡ take n xs ++ c ∷ []
take-set_end n c [] h = absurd (omega arith)
take-set_end zero c (x ∷ xs) h = refl
take-set_end (suc n) c (x ∷ xs) h = ap (◌∷◌ x) (take-set_end n c xs (omega arith))

push-bytes :
    (o : Option Bytes) (size cap c : ℕ)
    → Roomy o size cap
    → size + 1 < cap
    → bytes_of (on_mem (λ m. set (set m size c) (size + 1) 0) o) (size + 1)
      ≡ bytes_of o size ++ c ∷ []
push-bytes none size cap c h lt = absurd (omega arith)
push-bytes (some m) size cap c h lt =
    take-set (size + 1) (size + 1) 0 (set m size c) (omega arith)
    ∙ ap (λ j. take j (set m size c)) {y = suc size} (omega arith)
    ∙ take-set_end size c m (omega arith)

module _ (a : Alloc) where
  append_reserved-Does :
      (out : Bool × StringBuf) (sb : StringBuf) (src : Bytes) (len : ℕ)
      → IsValid sb
      → Reserved sb (sb.size + len) out
      → len ≤ length src
      → Does sb (contents sb ++ take len src) (append_reserved a out sb src len)
  unfolding append_reserved
  append_reserved-Does (false, r) sb src len v k le =
      rw (k.failed refl) (record { valid = v; bytes = refl })
  append_reserved-Does (true, r) sb src len v k le = ground (
    arith,
    put-Held r.mem r.size r.capacity len src k.roomy,
    put-bytes r.mem r.size r.capacity len src k.roomy,
    k.room,
  )

  pub append-Does :
      (sb : StringBuf) (src : Bytes) (len : ℕ)
      → IsValid sb
      → len ≤ length src
      → Does sb (contents sb ++ take len src) (append a sb (some src) len)
  unfolding append
  append-Does sb src len v le = ground (
    arith,
    append_reserved-Does (reserve a sb (sb.size + len)) sb src len v
        (reserve-Reserved a sb (sb.size + len) v) le,
  )

  append_char_reserved-Does :
      (out : Bool × StringBuf) (sb : StringBuf) (c : ℕ)
      → IsValid sb
      → Reserved sb (sb.size + 1) out
      → Does sb (contents sb ++ c ∷ []) (append_char_reserved a out c)
  unfolding append_char_reserved
  append_char_reserved-Does (false, r) sb c v k =
      rw (k.failed refl) (record { valid = v; bytes = refl })
  append_char_reserved-Does (true, r) sb c v k = ground (
    arith,
    push-Held r.mem r.size r.capacity c k.roomy,
    push-bytes r.mem r.size r.capacity c k.roomy,
    k.room,
  )

  pub append_char-Does :
      (sb : StringBuf) (c : ℕ) → IsValid sb → Does sb (contents sb ++ c ∷ []) (append_char a sb c)
  unfolding append_char
  append_char-Does sb c v =
      append_char_reserved-Does (reserve a sb (sb.size + 1)) sb c v
        (reserve-Reserved a sb (sb.size + 1) v)

clear-Held :
    (o : Option Bytes) (size cap : ℕ) → Held o size cap → Held (on_mem (λ m. set m 0 0) o) 0 cap
clear-Held none size cap h = (refl, h.1)
clear-Held (some m) size cap h = terminated m 0 cap h.0 (omega arith)

clear-bytes : (o : Option Bytes) → bytes_of (on_mem (λ m. set m 0 0) o) 0 ≡ []
clear-bytes none = refl
clear-bytes (some m) = refl

pub clear-Does : (sb : StringBuf) → IsValid sb → Does sb [] (true, clear sb)
unfolding clear
clear-Does sb v = record {
  valid = record { held = clear-Held sb.mem sb.size sb.capacity v.held; small = v.small };
  bytes = clear-bytes sb.mem;
}

pub free-Does : (sb : StringBuf) → IsValid sb → Does sb [] (true, free sb)
unfolding free
free-Does sb v = record {
  valid = record { held = (refl, refl); small = omega arith };
  bytes = refl;
}

shift-Held :
    (k size cap : ℕ) (m : Bytes)
    → k ≤ size
    → Held (some m) size cap
    → Held (some (shift k size m)) (size - k) cap
shift-Held k size cap m le h =
    terminated (write_at 0 (take (size - k) (drop k m)) m) (size - k) cap
      (length-write_at 0 (take (size - k) (drop k m)) m ∙ h.0) (omega arith)

pub take-drop : (k n : ℕ) (xs : Bytes) → k ≤ n → take (n - k) (drop k xs) ≡ drop k (take n xs)
take-drop zero n xs h = ap (λ j. take j xs) (omega arith)
take-drop (suc k) zero xs h = absurd (omega arith)
take-drop (suc k) (suc n) [] h = take-nil (suc n - suc k)
take-drop (suc k) (suc n) (x ∷ xs) h =
    ap (λ j. take j (drop k xs)) (omega arith) ∙ take-drop k n xs (omega arith)

shift-bytes :
    (k size cap : ℕ) (m : Bytes)
    → k ≤ size
    → Held (some m) size cap
    → take (size - k) (shift k size m) ≡ drop k (take size m)
shift-bytes k size cap m le h =
    take-set (size - k) (size - k) 0 (write_at 0 (take (size - k) (drop k m)) m) (omega arith)
    ∙ take-write_at 0 (size - k) (take (size - k) (drop k m)) m
        (omega (arith, length-take (size - k) (drop k m), length-drop k m)) (omega arith)
    ∙ take-drop k size m le

drop_long : (n k : ℕ) (xs : Bytes) → length xs ≤ n → length xs ≡ k → drop n xs ≡ drop k xs
drop_long n zero [] h e = drop-nil n
drop_long zero (suc k) [] h e = absurd (omega arith)
drop_long (suc n) (suc k) [] h e = refl
drop_long zero k (x ∷ xs) h e = absurd (omega arith)
drop_long (suc n) zero (x ∷ xs) h e = absurd (omega arith)
drop_long (suc n) (suc k) (x ∷ xs) h e = drop_long n k xs (omega arith) (omega arith)

consume-Does_at :
    (o : Option Bytes) (size cap n : ℕ) (b : Bool)
    → Held o size cap
    → cap ≤ ssize_max
    → n < 2 ^ 63
    → Does
        (record { mem = o; size = size; capacity = cap; owned = b })
        (drop n (bytes_of o size))
        (true, consume (record { mem = o; size = size; capacity = cap; owned = b }) n)
unfolding consume
consume-Does_at none size cap n b h s lt = record {
  valid = record { held = h; small = s };
  bytes = sym (drop-nil n);
}
consume-Does_at (some m) size cap n b h s lt = ground (
  arith,
  shift-Held n size cap m,
  shift-bytes n size cap m,
  shift-Held size size cap m,
  shift-bytes size size cap m,
  drop_long n size (take size m),
  length-take size m,
)

pub consume-Does :
    (sb : StringBuf) (n : ℕ)
    → IsValid sb
    → n < 2 ^ 63
    → Does sb (drop n (contents sb)) (true, consume sb n)
consume-Does sb n v lt = consume-Does_at sb.mem sb.size sb.capacity n sb.owned v.held v.small lt
