-- ===== src/Keepalive.antt =====
-- The pool of idle upstream connections in include/request.h: the array that `keepalive_pools` holds
-- for one target. A descriptor that is closed is a result beside the new array.
pub mod Sweep
pub mod Balance
mod Tests
use nanoproxy.Prelude.{
  ℕ, zero, suc, ◌+◌, ◌-◌, Bool, true, false, ◌&&◌, Option, none, some, List, [], ◌∷◌, ◌++◌, ltb,
  leb, if◌then◌else◌, length, get_elem?, set, take,
}

-- `PooledConn`; a timeout that is not positive is 0
pub record PooledConn : Type 0 where
  pub fd : ℕ
  pub idle_since : ℕ
  pub idle_timeout : ℕ

-- the last connection of the array
unfoldable pub last : List PooledConn → Option PooledConn
last [] = none
last (c ∷ cs) = let rest = last cs in elim cs [ [] ↦ some c | d ∷ ds ↦ rest ]

-- `keepalive_pool_take`: the descriptor, `none` for -1, and the array that is left
unfoldable pub take_conn : List PooledConn → Option ℕ × List PooledConn
unfolding last
take_conn conns = elim (last conns) [
  | none ↦ (none, conns)
  | some c ↦ (some c.fd, take (length conns - 1) conns)
]

-- `keepalive_pool_put` at time `now`: the array, and the descriptors that are closed
unfoldable pub put_conn : ℕ → ℕ → ℕ → ℕ → List PooledConn → List PooledConn × List ℕ
put_conn fd pool_size idle_timeout now conns =
    if leb pool_size (length conns)
    then (conns, fd ∷ [])
    else (conns ++ record { fd = fd; idle_since = now; idle_timeout = idle_timeout } ∷ [], [])

-- the test of `keepalive_pool_sweep`
unfoldable pub is_expired : ℕ → PooledConn → Bool
is_expired now c = ltb 0 c.idle_timeout && ltb c.idle_timeout (now - c.idle_since)

-- Its loop over the array, in place: `k` connections are left to read at `r`, and those kept are
-- written at `w`.
unfoldable pub sweep_loop : ℕ → ℕ → ℕ → ℕ → List PooledConn → List ℕ → List PooledConn × List ℕ
sweep_loop now zero r w conns closed = (take w conns, closed)
sweep_loop now (suc k) r w conns closed = elim (get_elem? conns r) [
  | none ↦ (take w conns, closed)
  | some c ↦
      let gone = sweep_loop now k (r + 1) w conns (closed ++ c.fd ∷ []) in
      let kept = sweep_loop now k (r + 1) (w + 1) (set conns w c) closed in
      if is_expired now c then gone else kept
]

-- `keepalive_pool_sweep` on the array of one target
unfoldable pub sweep : ℕ → List PooledConn → List PooledConn × List ℕ
unfolding sweep_loop is_expired
sweep now conns = sweep_loop now (length conns) 0 0 conns []
