-- ===== src/Upstream/Resolve.antt =====
-- `upstream_pool_resolve`: what holds of all modes, and of the one of the fewest connections.
use native.Mathlib.Nat.{mod-lt}
use nanoproxy.Prelude.{
  ℕ, ◌+◌, ◌%◌, ◌^◌, ◌≤◌, ◌<◌, ◌≡◌, ◌≢◌, refl, sym, ap, ◌∙◌, true, not, Option, none, some, List, [],
  ◌∷◌, Bytes, arith, ltb, ◌==◌, length, get_elem?, all, Bool-cases, inl, inr, some-cancel,
}
use nanoproxy.Upstream.{
  BalanceMode, round_robin, random, ip_hash, conn_hash, least_conn, UpstreamTarget, UpstreamPool,
  healthy, least, place, choose, resolve, int_max, url_of, ip_start, conn_start,
}
use nanoproxy.Upstream.Probe.{Chosen, probe-found, probe-Chosen, turn}
use nanoproxy.Upstream.Least.{NoneBelow, Result, least-Best, least-Chosen}

place-lt :
    (mode : BalanceMode) (pool : UpstreamPool) (rand : ℕ) (ip : Option Bytes) (fd j : ℕ)
    → 0 < length pool.targets
    → place mode pool rand ip fd j < length pool.targets
unfolding place
place-lt round_robin pool rand ip fd j h = mod-lt _ h
place-lt random pool rand ip fd j h = mod-lt _ h
place-lt ip_hash pool rand ip fd j h = mod-lt _ h
place-lt conn_hash pool rand ip fd j h = mod-lt _ h
place-lt least_conn pool rand ip fd j h = h

-- For the modes that try the targets in turn: each target is tried.
place-turns :
    (mode : BalanceMode) (pool : UpstreamPool) (rand : ℕ) (ip : Option Bytes) (fd i : ℕ)
    → mode ≢ least_conn
    → pool.rr_counter + length pool.targets ≤ 2 ^ 32
    → i < length pool.targets
    → (d : ℕ) × (d < length pool.targets) × (place mode pool rand ip fd d ≡ i)
unfolding place
place-turns round_robin pool rand ip fd i not_least small h =
    let (d, lt, e) = turn pool.rr_counter (length pool.targets) i h in
    let whole : (pool.rr_counter + d) % 2 ^ 32 ≡ pool.rr_counter + d = omega arith in
    (d, lt, ap (λ k. k % length pool.targets) whole ∙ e)
place-turns random pool rand ip fd i not_least small h =
    turn (rand % length pool.targets) (length pool.targets) i h
place-turns ip_hash pool rand ip fd i not_least small h =
    turn (ip_start ip (length pool.targets)) (length pool.targets) i h
place-turns conn_hash pool rand ip fd i not_least small h =
    turn (conn_start fd (length pool.targets)) (length pool.targets) i h
place-turns least_conn pool rand ip fd i not_least small h = absurd (not_least refl)

choose-Chosen :
    (mode : BalanceMode) (pool : UpstreamPool) (now rand : ℕ) (ip : Option Bytes) (fd : ℕ)
    → 0 < length pool.targets
    → pool.rr_counter + length pool.targets ≤ 2 ^ 32
    → all (λ t. ltb t.active_connections int_max) pool.targets ≡ true
    → Chosen now pool.targets (choose mode pool now rand ip fd)
unfolding choose
choose-Chosen least_conn pool now rand ip fd some_target small few =
    least-Chosen now pool.targets few
choose-Chosen round_robin pool now rand ip fd some_target small few =
    probe-Chosen now (place round_robin pool rand ip fd) pool.targets
      (λ j. place-lt round_robin pool rand ip fd j some_target)
      (λ i h. place-turns round_robin pool rand ip fd i (λ e. cc) small h)
choose-Chosen random pool now rand ip fd some_target small few =
    probe-Chosen now (place random pool rand ip fd) pool.targets
      (λ j. place-lt random pool rand ip fd j some_target)
      (λ i h. place-turns random pool rand ip fd i (λ e. cc) small h)
choose-Chosen ip_hash pool now rand ip fd some_target small few =
    probe-Chosen now (place ip_hash pool rand ip fd) pool.targets
      (λ j. place-lt ip_hash pool rand ip fd j some_target)
      (λ i h. place-turns ip_hash pool rand ip fd i (λ e. cc) small h)
choose-Chosen conn_hash pool now rand ip fd some_target small few =
    probe-Chosen now (place conn_hash pool rand ip fd) pool.targets
      (λ j. place-lt conn_hash pool rand ip fd j some_target)
      (λ i h. place-turns conn_hash pool rand ip fd i (λ e. cc) small h)

unhealthy_empty :
    (now : ℕ) (ts : List UpstreamTarget)
    → length ts == 0 ≡ true
    → all (λ t. not (healthy now t)) ts ≡ true
unhealthy_empty now [] e = refl
unhealthy_empty now (t ∷ ts) e = ground arith

-- In every mode, `upstream_pool_resolve` on a pool returns the URL of a healthy target of the pool,
-- and NULL only where no target is healthy, as long as the counter of the rounds does not wrap around
-- during the call and each target has fewer than `INT_MAX` connections.
pub resolve-Chosen :
    (pool : UpstreamPool) (now rand : ℕ) (ip : Option Bytes) (fd : ℕ)
    → pool.rr_counter + length pool.targets ≤ 2 ^ 32
    → all (λ t. ltb t.active_connections int_max) pool.targets ≡ true
    → Chosen now pool.targets (resolve (some pool) now rand ip fd).0
unfolding resolve
resolve-Chosen pool now rand ip fd small few = elim (Bool-cases (length pool.targets == 0)) [
  | inl e ↦ rw e (unhealthy_empty now pool.targets e)
  | inr e ↦ rw e (choose-Chosen pool.balance_mode pool now rand ip fd (ground arith) small few)
]

found_by :
    (mode : BalanceMode) (pool : UpstreamPool) (now rand : ℕ) (ip : Option Bytes) (fd : ℕ)
    (url : Bytes)
    → choose mode pool now rand ip fd ≡ some url
    → Chosen now pool.targets (some url)
unfolding choose
found_by least_conn pool now rand ip fd url e =
    go (least now pool.targets int_max none) (least-Best now pool.targets int_max none) e
  where
    go :
        (r : Option UpstreamTarget)
        → Result now pool.targets int_max none r
        → url_of r ≡ some url
        → Chosen now pool.targets (some url)
    go none b e = cc
    go (some t) (inl (r, n)) e = cc
    go (some t) (inr best) e = (
      best.index,
      best.target,
      best.at,
      best.is_healthy,
      ap (λ u. u.full_url) (some-cancel (sym best.chosen)) ∙ some-cancel e,
    )
found_by round_robin pool now rand ip fd url e =
    probe-found now (place round_robin pool rand ip fd) pool.targets (length pool.targets) 0 url e
found_by random pool now rand ip fd url e =
    probe-found now (place random pool rand ip fd) pool.targets (length pool.targets) 0 url e
found_by ip_hash pool now rand ip fd url e =
    probe-found now (place ip_hash pool rand ip fd) pool.targets (length pool.targets) 0 url e
found_by conn_hash pool now rand ip fd url e =
    probe-found now (place conn_hash pool rand ip fd) pool.targets (length pool.targets) 0 url e

-- a URL that is returned is that of a healthy target
pub resolve-found :
    (pool : UpstreamPool) (now rand : ℕ) (ip : Option Bytes) (fd : ℕ) (url : Bytes)
    → (resolve (some pool) now rand ip fd).0 ≡ some url
    → Chosen now pool.targets (some url)
unfolding resolve
resolve-found pool now rand ip fd url e = elim (Bool-cases (length pool.targets == 0)) [
  | inl b ↦ cc (rw b at e)
  | inr b ↦ found_by pool.balance_mode pool now rand ip fd url (rw b at e)
]

-- In the mode of the fewest connections, where `upstream_pool_resolve` returns a URL, it is that of a
-- healthy target of the pool, and no healthy target of the pool has fewer connections than it.
pub resolve-least :
    (pool : UpstreamPool) (now rand : ℕ) (ip : Option Bytes) (fd : ℕ) (url : Bytes)
    → pool.balance_mode ≡ least_conn
    → (resolve (some pool) now rand ip fd).0 ≡ some url
    → (i : ℕ) × (t : UpstreamTarget) × (get_elem? pool.targets i ≡ some t)
      × (healthy now t ≡ true)
      × (t.full_url ≡ url)
      × NoneBelow now t.active_connections pool.targets
unfolding resolve choose
resolve-least pool now rand ip fd url m e =
    go (least now pool.targets int_max none) (least-Best now pool.targets int_max none)
      (elim (Bool-cases (length pool.targets == 0)) [
        | inl b ↦ cc (rw b at e)
        | inr b ↦ ap (λ k. choose k pool now rand ip fd) (sym m) ∙ rw b at e
      ])
  where
    go :
        (r : Option UpstreamTarget)
        → Result now pool.targets int_max none r
        → url_of r ≡ some url
        → (i : ℕ) × (t : UpstreamTarget) × (get_elem? pool.targets i ≡ some t)
          × (healthy now t ≡ true)
          × (t.full_url ≡ url)
          × NoneBelow now t.active_connections pool.targets
    go none b e = cc
    go (some t) (inl (r, n)) e = cc
    go (some t) (inr best) e = (
      best.index,
      best.target,
      best.at,
      best.is_healthy,
      ap (λ u. u.full_url) (some-cancel (sym best.chosen)) ∙ some-cancel e,
      best.none_below,
    )
