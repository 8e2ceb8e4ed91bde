-- ===== src/StringBuf/Refine.antt =====
-- A buffer against the byte string that it holds: any sequence of calls of include/stringbuf.h.
use nanoproxy.Prelude.{
  ℕ, ◌-◌, ◌^◌, ◌≤◌, ◌<◌, ◌≡◌, refl, ap, subst, ◌∙◌, Bool, true, Option, none, some, List, [], ◌∷◌,
  ◌++◌, Bytes, arith, if◌then◌else◌, take, drop, set, write_at, length, length-set, length-write_at,
  length-take, take-set, take-write_at, take_all, min, some-cancel, some-cancel,
}
use native.Mathlib.Decide.{dec_lt}
use nanoproxy.StringBuf.Heap.{Alloc, block}
use nanoproxy.StringBuf.Inv.{
  IsValid, Does, terminated, append-Does, append_char-Does, clear-Does, free-Does, consume-Does,
}
use nanoproxy.StringBuf.{
  StringBuf, contents, max_hint, hinted, fill, init_str, append, append_char, clear, free, consume,
}

-- A call that writes to the buffer.
pub data Op : Type 0 where
  add : Bytes → Op
  add_char : ℕ → Op
  remove : ℕ → Op
  empty : Op
  release : Op

-- What a call does to the byte string when it succeeds.
unfoldable pub replay_op : Op → Bytes → Bytes
replay_op (add src) bs = bs ++ src
replay_op (add_char c) bs = bs ++ c ∷ []
replay_op (remove n) bs = drop n bs
replay_op empty bs = []
replay_op release bs = []

-- The lengths that the calls are made with, as a C caller has them.
abbrev pub IsCall : Op → Type 0
IsCall (add src) = length src < 2 ^ 63
IsCall (remove n) = n < 2 ^ 63
IsCall _ = Unit

abbrev pub AllCalls : List Op → Type 0
AllCalls [] = Unit
AllCalls (op ∷ ops) = IsCall op × AllCalls ops

module _ (a : Alloc) where
  unfoldable pub step : StringBuf → Op → Bool × StringBuf
  step sb (add src) = append a sb (some src) (length src)
  step sb (add_char c) = append_char a sb c
  step sb (remove n) = (true, consume sb n)
  step sb empty = (true, clear sb)
  step sb release = (true, free sb)

  -- The calls in order: what each returns, and the buffer behind them.
  unfoldable pub run : StringBuf → List Op → List Bool × StringBuf
  run sb [] = ([], sb)
  run sb (op ∷ ops) =
      let (ok, sb') = step sb op in let (oks, last) = run sb' ops in (ok ∷ oks, last)

  step-Does :
      (sb : StringBuf) (op : Op)
      → IsValid sb
      → IsCall op
      → Does sb (replay_op op (contents sb)) (step sb op)
  unfolding step replay_op
  step-Does sb (add src) v h =
      subst (λ b. Does sb (contents sb ++ b) (append a sb (some src) (length src)))
        (take_all (length src) src (omega arith))
        (append-Does a sb src (length src) v (omega arith))
  step-Does sb (add_char c) v h = append_char-Does a sb c v
  step-Does sb (remove n) v h = consume-Does sb n v h
  step-Does sb empty v h = clear-Does sb v
  step-Does sb release v h = free-Does sb v

-- The byte string behind the calls, where the failed ones did nothing.
unfoldable pub replay : List Op → List Bool → Bytes → Bytes
replay (op ∷ ops) (ok ∷ oks) bs = replay ops oks (if ok then replay_op op bs else bs)
replay _ _ bs = bs

module _ (a : Alloc) where
  -- Whatever the allocator does, any sequence of calls on a valid buffer leaves it valid, and it
  -- then holds the byte string that the calls which returned `true` make of the first one.
  pub run_refines :
      (ops : List Op) (sb : StringBuf)
      → IsValid sb
      → AllCalls ops
      → let (oks, last) = run a sb ops in
        IsValid last × (contents last ≡ replay ops oks (contents sb))
  unfolding run replay
  run_refines [] sb v h = (v, refl)
  run_refines (op ∷ ops) sb v h =
      let d = step-Does a sb op v h.0 in
      let r = run_refines ops (step a sb op).1 d.valid h.1 in
      (r.0, r.1 ∙ ap (replay ops (run a (step a sb op).1 ops).0) d.bytes)

hinted_bounds : (hint : ℕ) → (0 < hinted hint) × (hinted hint ≤ max_hint)
hinted_bounds hint = ground arith

fill-IsValid :
    (src : Option Bytes) (srclen cap : ℕ) (m : Bytes)
    → length m ≡ cap
    → 0 < cap
    → cap ≤ max_hint
    → IsValid (fill src srclen cap m)
unfolding fill
fill-IsValid none srclen cap m e h k = record { held = terminated m 0 cap e h; small = omega arith }
fill-IsValid (some src) srclen cap m e h k = ground (
  arith,
  terminated m 0 cap e h,
  terminated (write_at 0 (take srclen src) (set m 0 0)) srclen cap
      (length-write_at 0 (take srclen src) (set m 0 0) ∙ length-set m 0 0 ∙ e),
  terminated (write_at 0 (take (cap - 1) src) (set m 0 0)) (cap - 1) cap
      (length-write_at 0 (take (cap - 1) src) (set m 0 0) ∙ length-set m 0 0 ∙ e),
)

-- the bytes that `init_str` keeps of its source
abbrev pub kept : Option Bytes → ℕ → ℕ → Bytes
kept none srclen cap = []
kept (some src) srclen cap = take (min srclen (cap - 1)) src

copy-bytes :
    (n cap : ℕ) (src m : Bytes)
    → n ≤ length src
    → n < cap
    → length m ≡ cap
    → take n (set (write_at 0 (take n src) (set m 0 0)) n 0) ≡ take n src
copy-bytes n cap src m le lt e =
    take-set n n 0 (write_at 0 (take n src) (set m 0 0)) (omega arith)
    ∙ take-write_at 0 n (take n src) (set m 0 0) (omega (arith, length-take n src))
        (omega (arith, length-set m 0 0))

fill-kept :
    (src : Option Bytes) (srclen cap : ℕ) (m : Bytes)
    → length m ≡ cap
    → 0 < cap
    → srclen ≤ length (block src)
    → contents (fill src srclen cap m) ≡ kept src srclen cap
unfolding fill
fill-kept none srclen cap m e h k = refl
fill-kept (some src) srclen cap m e h k = elim (dec_lt (cap - 1) srclen) [
  | yes p ↦ ground (arith, copy-bytes (cap - 1) cap src m (omega arith) (omega arith) e)
  | no p ↦ ground (arith, copy-bytes srclen cap src m k (omega arith) e)
]

capacity-fill :
    (src : Option Bytes) (srclen cap : ℕ) (m : Bytes) → (fill src srclen cap m).capacity ≡ cap
unfolding fill
capacity-fill none srclen cap m = refl
capacity-fill (some src) srclen cap m = ground arith

module _ (a : Alloc) where
  -- A buffer that `stringbuf_init_str` makes is valid and holds the source, cut off where the
  -- block with its terminator is full; the length given is at most the source's.
  pub init_str-IsValid :
      (src : Option Bytes) (srclen hint : ℕ) {sb : StringBuf}
      → srclen ≤ length (block src)
      → init_str a src srclen hint ≡ some sb
      → IsValid sb × (contents sb ≡ kept src srclen (hinted hint)) × (sb.capacity ≡ hinted hint)
  unfolding init_str
  init_str-IsValid src srclen hint {sb} le e = made (a.malloc (hinted hint)) refl e
    where
      made :
          (o : Option Bytes)
          → a.malloc (hinted hint) ≡ o
          → elim o [ none ↦ none | some m ↦ some (fill src srclen (hinted hint) m) ] ≡ some sb
          → IsValid sb × (contents sb ≡ kept src srclen (hinted hint)) × (sb.capacity ≡ hinted hint)
      made none q r = cc
      made (some m) q r =
          let len = a.length-malloc (hinted hint) m q in
          let b = hinted_bounds hint in
          subst
            (λ t.
              IsValid t × (contents t ≡ kept src srclen (hinted hint)) × (t.capacity ≡ hinted hint))
            (some-cancel r)
            (
              fill-IsValid src srclen (hinted hint) m len b.0 b.1,
              fill-kept src srclen (hinted hint) m len b.0 le,
              capacity-fill src srclen (hinted hint) m,
            )
