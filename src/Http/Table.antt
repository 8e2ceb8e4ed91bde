-- ===== src/Http/Table.antt =====
-- The string table of headers (`shputs`, `shgeti`, `shlen`), a library that include/http.h calls.
use nanoproxy.Prelude.{ℕ, ◌+◌, ◌≤◌, ◌≡◌, Option, none, some, Bytes, equal, if◌then◌else◌}

-- The laws say what the parser relies on: a key that was stored is found, with the value stored
-- last, no other key is touched, and a store adds at most one entry.
pub record Table (T : Type 0) : Type 0 where
  pub empty : T
  pub put : Bytes → Bytes → T → T
  pub get : Bytes → T → Option Bytes
  pub len : T → ℕ
  pub len-empty : len empty ≡ 0
  pub len-put : (k v : Bytes) (t : T) → len (put k v t) ≤ len t + 1
  pub get-empty : (k : Bytes) → get k empty ≡ none
  pub get-put :
      (k j v : Bytes) (t : T) → get j (put k v t) ≡ (if equal k j then some v else get j t)
