-- ===== src/Dns/Name/Labels.antt =====
-- Names as lists of labels: what include/dns.h reads and writes, without its loops.
use nanoproxy.Prelude.{
  ℕ, zero, suc, ◌+◌, ◌≤◌, ◌<◌, ◌≡◌, refl, true, not, List, [], ◌∷◌, ◌++◌, Bytes, arith, length,
  length-append, all, drop, ◌==◌,
}
use nanoproxy.Dns.Name.{label_length}

-- the labels, with a dot between two
unfoldable pub dotted : List Bytes → Bytes
dotted [] = []
dotted (l ∷ []) = l
dotted (l ∷ m ∷ ls) = l ++ b'.' ∷ dotted (m ∷ ls)

-- the labels as a packet holds them: each behind its length, and a zero behind the last
unfoldable pub wire : List Bytes → Bytes
wire [] = 0 ∷ []
wire (l ∷ ls) = length l ∷ (l ++ wire ls)

-- A label has 1 to 63 bytes and no dot.
pub record IsLabel (l : Bytes) : Type 0 where
  pub not_empty : 0 < length l
  pub short : length l ≤ 63
  pub no_dot : all (λ c. not (c == b'.')) l ≡ true

abbrev pub AreLabels : List Bytes → Type 0
AreLabels [] = Unit
AreLabels (l ∷ ls) = IsLabel l × AreLabels ls

-- The first label ends at its dot, or with the name.
pub label_length-append :
    (l rest : Bytes)
    → all (λ c. not (c == b'.')) l ≡ true
    → label_length (l ++ b'.' ∷ rest) ≡ length l
unfolding label_length
label_length-append [] rest h = refl
label_length-append (c ∷ l) rest h = ground (arith, label_length-append l rest)

pub label_length-all : (l : Bytes) → all (λ c. not (c == b'.')) l ≡ true → label_length l ≡ length l
unfolding label_length
label_length-all [] h = refl
label_length-all (c ∷ l) h = ground (arith, label_length-all l)

-- Nothing is left behind the last label.
pub drop_all : (n : ℕ) (xs : Bytes) → length xs ≤ n → drop n xs ≡ []
drop_all zero [] h = refl
drop_all zero (x ∷ xs) h = absurd (omega arith)
drop_all (suc n) [] h = refl
drop_all (suc n) (x ∷ xs) h = drop_all n xs (omega arith)

pub length-dotted_cons :
    (l m : Bytes) (ls : List Bytes)
    → length (dotted (l ∷ m ∷ ls)) ≡ length l + 1 + length (dotted (m ∷ ls))
unfolding dotted
length-dotted_cons l m ls = omega (arith, length-append l (b'.' ∷ dotted (m ∷ ls)))

pub length-wire_cons :
    (l : Bytes) (ls : List Bytes) → length (wire (l ∷ ls)) ≡ 1 + length l + length (wire ls)
unfolding wire
length-wire_cons l ls = omega (arith, length-append l (wire ls))

pub length-wire_pos : (ls : List Bytes) → 0 < length (wire ls)
unfolding wire
length-wire_pos [] = omega arith
length-wire_pos (l ∷ ls) = omega arith

-- The wire form of a name takes two bytes more than its text.
pub length-wire-dotted :
    (l : Bytes) (ls : List Bytes) → length (wire (l ∷ ls)) ≡ length (dotted (l ∷ ls)) + 2
length-wire-dotted l [] = unfold dotted wire in omega (arith, length-append l (0 ∷ []))
length-wire-dotted l (m ∷ ls) =
    omega (arith, length-wire_cons l (m ∷ ls), length-wire-dotted m ls, length-dotted_cons l m ls)
