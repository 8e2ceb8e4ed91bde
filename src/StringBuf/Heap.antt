-- ===== src/StringBuf/Heap.antt =====
-- `malloc` and `realloc`: a call fails, or gives a block of the length asked for, and `realloc`
-- keeps the bytes that fit. What the bytes of a fresh block are is left open.
use nanoproxy.Prelude.{ℕ, ◌≤◌, ◌≡◌, Option, none, some, [], Bytes, length, take}

-- the block that a pointer holds, NULL as an empty one
abbrev pub block : Option Bytes → Bytes
block none = []
block (some m) = m

pub record Alloc : Type 0 where
  pub malloc : ℕ → Option Bytes
  pub realloc : Option Bytes → ℕ → Option Bytes
  pub length-malloc : (n : ℕ) (m : Bytes) → malloc n ≡ some m → length m ≡ n
  pub length-realloc : (o : Option Bytes) (n : ℕ) (m : Bytes) → realloc o n ≡ some m → length m ≡ n
  pub take-realloc :
      (o : Option Bytes) (n k : ℕ) (m : Bytes)
      → realloc o n ≡ some m
      → k ≤ length (block o)
      → k ≤ n
      → take k m ≡ take k (block o)
