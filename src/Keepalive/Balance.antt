-- ===== src/Keepalive/Balance.antt =====
-- No descriptor is lost or handed out twice by the pool, and the pool keeps to its size.
use nanoproxy.Prelude.{
  ℕ, suc, ◌+◌, ◌-◌, ◌<◌, ◌≡◌, refl, sym, ap, ◌∙◌, false, Option, none, some, List, [], ◌∷◌, ◌++◌,
  arith, leb, ◌==◌, if◌then◌else◌, length, take, map, map-append, length-append, take-append,
  Bool-cases, ◌⊎◌, inl, inr, Option-cases, some-cancel,
}
use nanoproxy.Keepalive.{PooledConn, last, take_conn, put_conn, sweep}
use nanoproxy.Keepalive.Sweep.{fresh, stale, sweep-fresh}

-- how often a descriptor is in a list
unfoldable pub tally : ℕ → List ℕ → ℕ
tally fd [] = 0
tally fd (x ∷ xs) = let rest = tally fd xs in if x == fd then suc rest else rest

tally-append : (fd : ℕ) (xs ys : List ℕ) → tally fd (xs ++ ys) ≡ tally fd xs + tally fd ys
unfolding tally
tally-append fd [] ys = omega arith
tally-append fd (x ∷ xs) ys = ground (arith, tally-append fd xs ys)

abbrev pub fds : List PooledConn → List ℕ
fds conns = map (λ c. c.fd) conns

-- The pool of a target, the descriptors that it handed out, and those that it closed.
pub record Ledger : Type 0 where
  pub conns : List PooledConn
  pub handed : List ℕ
  pub closed : List ℕ

-- a call of `keepalive_pool_put`, with its arguments and the time, `_take` or `_sweep`
pub data Call : Type 0 where
  give : ℕ → ℕ → ℕ → ℕ → Call
  borrow : Call
  expire : ℕ → Call

abbrev pub after_take : Ledger → Option ℕ × List PooledConn → Ledger
after_take s (none, conns) = record s { conns = conns }
after_take s (some fd, conns) = record s { conns = conns; handed = s.handed ++ fd ∷ [] }

unfoldable pub call : Call → Ledger → Ledger
call (give fd pool_size idle_timeout now) s =
    let (conns, closed) = put_conn fd pool_size idle_timeout now s.conns in
    record s { conns = conns; closed = s.closed ++ closed }
call borrow s = after_take s (take_conn s.conns)
call (expire now) s =
    let (conns, closed) = sweep now s.conns in
    record s { conns = conns; closed = s.closed ++ closed }

unfoldable pub calls : List Call → Ledger → Ledger
calls [] s = s
calls (c ∷ cs) s = calls cs (call c s)

-- the descriptors that the calls give
unfoldable pub given_by : Call → List ℕ
given_by (give fd _ _ _) = fd ∷ []
given_by _ = []

unfoldable pub given : List Call → List ℕ
given [] = []
given (c ∷ cs) = given_by c ++ given cs

-- all that a ledger accounts for
abbrev pub account : ℕ → Ledger → ℕ
account fd s = tally fd (fds s.conns) + tally fd s.handed + tally fd s.closed

put-tally :
    (fd n size timeout now : ℕ) (conns : List PooledConn)
    → let out = put_conn n size timeout now conns in
      tally fd (fds out.0) + tally fd out.1 ≡ tally fd (fds conns) + tally fd (n ∷ [])
unfolding put_conn tally
put-tally fd n size timeout now conns = elim (Bool-cases (leb size (length conns))) [
  | inl e ↦ rw e refl
  | inr e ↦
      let c : PooledConn = record { fd = n; idle_since = now; idle_timeout = timeout } in
      rw e (
        ground (
          arith,
          ap (tally fd) (map-append (λ d. d.fd) conns (c ∷ [])),
          tally-append fd (fds conns) (n ∷ []),
        ))
]

sweep-tally :
    (fd now : ℕ) (conns : List PooledConn)
    → tally fd (fds (fresh now conns)) + tally fd (stale now conns) ≡ tally fd (fds conns)
unfolding fresh stale tally
sweep-tally fd now [] = omega arith
sweep-tally fd now (c ∷ cs) = ground (arith, sweep-tally fd now cs)

last-split :
    (conns : List PooledConn) (c : PooledConn)
    → last conns ≡ some c
    → take (length conns - 1) conns ++ c ∷ [] ≡ conns
unfolding last
last-split [] c e = cc
last-split (x ∷ []) c e = ap (λ z. z ∷ []) (sym (some-cancel e))
last-split (x ∷ y ∷ ys) c e =
    let shift : length (x ∷ y ∷ ys) - 1 ≡ suc (length (y ∷ ys) - 1) = omega arith in
    ap (λ m. take m (x ∷ y ∷ ys) ++ c ∷ []) shift ∙ ap (◌∷◌ x) (last-split (y ∷ ys) c e)

take_conn-split :
    (conns : List PooledConn)
    → (take_conn conns ≡ (none, conns))
      ⊎ ((c : PooledConn) × (take_conn conns ≡ (some c.fd, take (length conns - 1) conns))
          × (take (length conns - 1) conns ++ c ∷ [] ≡ conns))
unfolding take_conn
take_conn-split conns = elim (Option-cases (last conns)) [
  | inl e ↦ inl (rw (e, take_conn) refl)
  | inr (c, e) ↦ inr (c, rw (e, take_conn) refl, last-split conns c e)
]

-- a call accounts for what it is given
call-account :
    (fd : ℕ) (c : Call) (s : Ledger) → account fd (call c s) ≡ account fd s + tally fd (given_by c)
unfolding call given_by tally
call-account fd (give n size timeout now) s = omega (
  arith,
  put-tally fd n size timeout now s.conns,
  tally-append fd s.closed (put_conn n size timeout now s.conns).1,
)
call-account fd borrow s = elim (take_conn-split s.conns) [
  | inl e ↦ omega (arith, ap (λ o. account fd (after_take s o)) e)
  | inr (c, e, split) ↦ ground (
    arith,
    ap (λ o. account fd (after_take s o)) e,
    ap (λ l. tally fd (fds l)) split,
    ap (tally fd) (map-append (λ d. d.fd) (take (length s.conns - 1) s.conns) (c ∷ [])),
    tally-append fd (fds (take (length s.conns - 1) s.conns)) (c.fd ∷ []),
    tally-append fd s.handed (c.fd ∷ []),
  )
]
call-account fd (expire now) s = omega (
  arith,
  ap (λ p. tally fd (fds p.0) + tally fd p.1) (sweep-fresh now s.conns),
  sweep-tally fd now s.conns,
  tally-append fd s.closed (sweep now s.conns).1,
)

-- Through any calls of put, take and sweep, every descriptor that the pool had or was given is
-- accounted for exactly as often: it is in the pool, or was handed out, or was closed.
pub calls-account :
    (fd : ℕ) (cs : List Call) (s : Ledger)
    → account fd (calls cs s) ≡ account fd s + tally fd (given cs)
unfolding calls given tally
calls-account fd [] s = omega arith
calls-account fd (c ∷ cs) s = omega (
  arith,
  calls-account fd cs (call c s),
  call-account fd c s,
  tally-append fd (given_by c) (given cs),
)

last-append : (conns : List PooledConn) (c : PooledConn) → last (conns ++ c ∷ []) ≡ some c
unfolding last
last-append [] c = refl
last-append (x ∷ []) c = refl
last-append (x ∷ y ∷ ys) c = last-append (y ∷ ys) c

take_conn-append :
    (conns : List PooledConn) (c : PooledConn) → take_conn (conns ++ c ∷ []) ≡ (some c.fd, conns)
unfolding take_conn
take_conn-append conns c =
    let front : length (conns ++ c ∷ []) - 1 ≡ length conns =
      omega (arith, length-append conns (c ∷ [])) in
    rw (last-append conns c, take_conn)
      (ap (λ l. (some c.fd, l))
        (ap (λ m. take m (conns ++ c ∷ [])) front ∙ take-append conns (c ∷ [])))

-- A connection that is put into a pool with room for it is the next one that is taken, and the pool
-- is then as it was before.
pub take_conn-put_conn :
    (fd size timeout now : ℕ) (conns : List PooledConn)
    → length conns < size
    → take_conn (put_conn fd size timeout now conns).0 ≡ (some fd, conns)
unfolding put_conn
take_conn-put_conn fd size timeout now conns h =
    let c : PooledConn = record { fd = fd; idle_since = now; idle_timeout = timeout } in
    let room : leb size (length conns) ≡ false = ground arith in rw room (take_conn-append conns c)
