-- ===== src/Keepalive/Sweep.antt =====
-- `keepalive_pool_sweep` keeps and closes what it should.
use nanoproxy.Prelude.{
  ℕ, zero, suc, ◌+◌, ◌≤◌, ◌<◌, ◌≡◌, refl, sym, ap, ap₂, ◌∙◌, true, false, none, some, List, [], ◌∷◌,
  ◌++◌, arith, if◌then◌else◌, length, get_elem?, set, take, drop, some-cancel, append-nil,
  append_assoc, length-set, Bool-cases, inl, inr, Option-cases,
}
use nanoproxy.Keepalive.{PooledConn, is_expired, sweep_loop, sweep}

-- the connections that stay, and the descriptors of those that do not
unfoldable pub fresh : ℕ → List PooledConn → List PooledConn
fresh now [] = []
fresh now (c ∷ cs) = let rest = fresh now cs in if is_expired now c then rest else c ∷ rest

unfoldable pub stale : ℕ → List PooledConn → List ℕ
stale now [] = []
stale now (c ∷ cs) = let rest = stale now cs in if is_expired now c then c.fd ∷ rest else rest

module _ {A : Type 0} where
  drop-get_elem? :
      (xs : List A) (i : ℕ) (x : A) → get_elem? xs i ≡ some x → drop i xs ≡ x ∷ drop (suc i) xs
  drop-get_elem? [] i x e = cc
  drop-get_elem? (y ∷ ys) zero x e = ap (λ z. z ∷ ys) (some-cancel e)
  drop-get_elem? (y ∷ ys) (suc i) x e = drop-get_elem? ys i x e

  drop-set : (xs : List A) (n i : ℕ) (x : A) → i < n → drop n (set xs i x) ≡ drop n xs
  drop-set [] n i x h = refl
  drop-set (y ∷ ys) zero i x h = absurd (omega arith)
  drop-set (y ∷ ys) (suc n) zero x h = refl
  drop-set (y ∷ ys) (suc n) (suc i) x h = drop-set ys n i x (omega arith)

  take-set_here :
      (xs : List A) (i : ℕ) (x : A)
      → i < length xs
      → take (suc i) (set xs i x) ≡ take i xs ++ x ∷ []
  take-set_here [] i x h = absurd (omega arith)
  take-set_here (y ∷ ys) zero x h = refl
  take-set_here (y ∷ ys) (suc i) x h = ap (◌∷◌ y) (take-set_here ys i x (omega arith))

  get_elem?-le : (xs : List A) (i : ℕ) (x : A) → get_elem? xs i ≡ some x → i < length xs
  get_elem?-le [] i c h = cc
  get_elem?-le (x ∷ xs) zero c h = omega arith
  get_elem?-le (x ∷ xs) (suc i) c h = omega (arith, get_elem?-le xs i c h)

  get_elem?-none : (xs : List A) (i : ℕ) → get_elem? xs i ≡ none → length xs ≤ i
  get_elem?-none [] i h = omega arith
  get_elem?-none (x ∷ xs) zero h = cc
  get_elem?-none (x ∷ xs) (suc i) h = omega (arith, get_elem?-none xs i h)

  drop_beyond : (xs : List A) (i : ℕ) → length xs ≤ i → drop i xs ≡ []
  drop_beyond [] zero h = refl
  drop_beyond [] (suc i) h = refl
  drop_beyond (x ∷ xs) zero h = absurd (omega arith)
  drop_beyond (x ∷ xs) (suc i) h = drop_beyond xs i (omega arith)

-- what the loop comes to with `out` written and `rest` still to be read
abbrev outcome : ℕ → List PooledConn → List ℕ → List PooledConn → List PooledConn × List ℕ
outcome now out closed rest = (out ++ fresh now rest, closed ++ stale now rest)

outcome_end :
    (now : ℕ) (out : List PooledConn) (closed : List ℕ) (conns : List PooledConn) (r : ℕ)
    → length conns ≤ r
    → (out, closed) ≡ outcome now out closed (drop r conns)
unfolding fresh stale
outcome_end now out closed conns r h =
    rw (drop_beyond conns r h)
      (ap₂ (λ x y. (x, y)) (sym (append-nil out)) (sym (append-nil closed)))

outcome_gone :
    (now : ℕ) (out : List PooledConn) (closed : List ℕ) (c : PooledConn) (cs : List PooledConn)
    → is_expired now c ≡ true
    → outcome now out (closed ++ c.fd ∷ []) cs ≡ outcome now out closed (c ∷ cs)
unfolding fresh stale
outcome_gone now out closed c cs e =
    rw e (ap (λ l. (out ++ fresh now cs, l)) (append_assoc closed (c.fd ∷ []) (stale now cs)))

outcome_kept :
    (now : ℕ) (out : List PooledConn) (closed : List ℕ) (c : PooledConn) (cs : List PooledConn)
    → is_expired now c ≡ false
    → outcome now (out ++ c ∷ []) closed cs ≡ outcome now out closed (c ∷ cs)
unfolding fresh stale
outcome_kept now out closed c cs e =
    rw e (ap (λ l. (l, closed ++ stale now cs)) (append_assoc out (c ∷ []) (fresh now cs)))

sweep_loop-fresh :
    (now k r w : ℕ) (conns : List PooledConn) (closed : List ℕ)
    → w ≤ r
    → length conns ≤ r + k
    → sweep_loop now k r w conns closed ≡ outcome now (take w conns) closed (drop r conns)
unfolding sweep_loop
sweep_loop-fresh now zero r w conns closed le h =
    outcome_end now (take w conns) closed conns r (omega arith)
sweep_loop-fresh now (suc k) r w conns closed le h = elim (Option-cases (get_elem? conns r)) [
  | inl g ↦
      rw (g, sweep_loop) (outcome_end now (take w conns) closed conns r (get_elem?-none conns r g))
  | inr (c, g) ↦
      let inside = get_elem?-le conns r c g in
      let next : suc r ≡ r + 1 = omega arith in
      let after : w + 1 ≡ suc w = omega arith in
      let front : drop r conns ≡ c ∷ drop (r + 1) conns =
        drop-get_elem? conns r c g ∙ ap (λ m. c ∷ drop m conns) next in
      let more : take (w + 1) (set conns w c) ≡ take w conns ++ c ∷ [] =
        ap (λ m. take m (set conns w c)) after ∙ take-set_here conns w c (omega arith) in
      let same : drop (r + 1) (set conns w c) ≡ drop (r + 1) conns =
        drop-set conns (r + 1) w c (omega arith) in
      elim (Bool-cases (is_expired now c)) [
        | inl b ↦
            rw (g, b, sweep_loop)
              (sweep_loop-fresh now k (r + 1) w conns (closed ++ c.fd ∷ []) (omega arith)
                  (omega arith)
                ∙ outcome_gone now (take w conns) closed c (drop (r + 1) conns) b
                ∙ ap (outcome now (take w conns) closed) (sym front))
        | inr b ↦
            rw (g, b, sweep_loop)
              (sweep_loop-fresh now k (r + 1) (w + 1) (set conns w c) closed (omega arith)
                  (omega (arith, length-set conns w c))
                ∙ ap₂ (λ o l. outcome now o closed l) more same
                ∙ outcome_kept now (take w conns) closed c (drop (r + 1) conns) b
                ∙ ap (outcome now (take w conns) closed) (sym front))
      ]
]

-- `keepalive_pool_sweep`, which moves the array up in place, leaves exactly the connections that are
-- not idle for longer than their own timeout, in their order, and closes exactly the descriptors of
-- the others, each once.
pub sweep-fresh :
    (now : ℕ) (conns : List PooledConn) → sweep now conns ≡ (fresh now conns, stale now conns)
unfolding sweep
sweep-fresh now conns = sweep_loop-fresh now (length conns) 0 0 conns [] (omega arith) (omega arith)
