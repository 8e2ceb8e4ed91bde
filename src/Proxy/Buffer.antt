-- ===== src/Proxy/Buffer.antt =====
-- What waits in the two buffers of a connection.
use nanoproxy.Prelude.{
  ℕ, zero, suc, ◌+◌, ◌-◌, ◌≤◌, ◌≡◌, refl, sym, ap, ◌∙◌, Bool, true, false, Option, none, some, [],
  ◌++◌, Bytes, arith, if◌then◌else◌, length, take, drop, take-append-drop, drop_all, drop-append_le,
  drop-drop_add, drop-nil, length-drop, append_assoc,
}
use nanoproxy.Proxy.{Outcome, is_pending, unsent, buffer}

pub if-Holds :
    (P : Outcome → Type 0) (b : Bool) (x y : Outcome)
    → (b ≡ true → P x)
    → (b ≡ false → P y)
    → P (if b then x else y)
if-Holds P true x y g h = g refl
if-Holds P false x y g h = h refl

pub take-drop-append : (n : ℕ) (t bytes : Bytes) → (t ++ take n bytes) ++ drop n bytes ≡ t ++ bytes
take-drop-append n t bytes =
    append_assoc t (take n bytes) (drop n bytes) ∙ ap (λ u. t ++ u) (take-append-drop n bytes)

pub unsent-empty : (o : Option Bytes) (n : ℕ) → is_pending o n ≡ false → unsent o n ≡ []
unsent-empty none n e = refl
unsent-empty (some b) n e = drop_all n b (ground arith)

pub unsent-append :
    (o : Option Bytes) (n : ℕ) (bytes : Bytes)
    → n ≤ length (buffer o)
    → drop n (buffer o ++ bytes) ≡ unsent o n ++ bytes
unsent-append none zero bytes h = refl
unsent-append none (suc n) bytes h = absurd (omega arith)
unsent-append (some b) n bytes h = drop-append_le n b bytes h

pub unsent_later : (o : Option Bytes) (n m : ℕ) → unsent o (n + m) ≡ drop m (unsent o n)
unsent_later none n m = sym (drop-nil m)
unsent_later (some b) n m = drop-drop_add n m b

pub length-unsent : (o : Option Bytes) (n : ℕ) → length (unsent o n) ≡ length (buffer o) - n
length-unsent none n = omega arith
length-unsent (some b) n = length-drop n b
