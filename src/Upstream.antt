-- ===== src/Upstream.antt =====
-- The upstream pools of include/request.h: which target a request is sent to, and how targets are
-- counted and marked down. A pool is what the name is found under in `upstream_pools`; its targets
-- are a list, as long as `num_targets`. The clock and `rand` are arguments.
pub mod Probe
pub mod Least
pub mod Resolve
pub mod Counts
mod Tests
use Prim.Native.Nat.{bit_xor}
use nanoproxy.Prelude.{
  ℕ, zero, suc, ◌+◌, ◌-◌, ◌*◌, ◌/◌, ◌%◌, ◌^◌, Bool, true, false, ◌&&◌, ◌||◌, Option, none, some,
  List, [], ◌∷◌, Bytes, ltb, leb, ◌==◌, if◌then◌else◌, length, get_elem?, equal,
}

-- The `BALANCE_` modes
pub data BalanceMode : Type 0 where
  round_robin random ip_hash conn_hash least_conn : BalanceMode

-- `UpstreamTarget`; what is never negative is a natural number
pub record UpstreamTarget : Type 0 where
  pub host : Bytes
  pub port : ℕ
  pub full_url : Bytes
  pub unhealthy_until : ℕ
  pub active_connections : ℕ

-- `UpstreamPool`; `num_targets` is the length of the targets
pub record UpstreamPool : Type 0 where
  pub name : Bytes
  pub targets : List UpstreamTarget
  pub balance_mode : BalanceMode
  pub rr_counter : ℕ
  pub health_path : Option Bytes
  pub health_interval : ℕ
  pub retry_timeout : ℕ
  pub proxy_timeout : ℕ

-- `TARGET_HEALTHY`
unfoldable pub healthy : ℕ → UpstreamTarget → Bool
healthy now t = t.unhealthy_until == 0 || leb t.unhealthy_until now

-- `for (tries = 0; tries < n; tries++)`: `k` tries are left, and try `tries` looks at target
-- `place tries`, which is one that there is
unfoldable pub probe : ℕ → (ℕ → ℕ) → List UpstreamTarget → ℕ → ℕ → Option Bytes
probe now place targets zero tries = none
probe now place targets (suc k) tries =
    let rest = probe now place targets k (tries + 1) in
    elim (get_elem? targets (place tries)) [
      | none ↦ none
      | some t ↦ if healthy now t then some t.full_url else rest
    ]

-- the djb2 hash of the address, from `h` on
unfoldable pub djb2 : ℕ → Bytes → ℕ
djb2 h [] = h
djb2 h (c ∷ cs) = djb2 ((h * 2 ^ 5 + h + c) % 2 ^ 64) cs

unfoldable pub ip_start : Option Bytes → ℕ → ℕ
unfolding djb2
ip_start none n = 5381 % n
ip_start (some ip) n = djb2 5381 ip % n

-- the hash of the descriptor, a word of 32 bits
unfoldable pub conn_start : ℕ → ℕ → ℕ
conn_start fd n =
    let h = bit_xor fd (fd / 2 ^ 16) in let m = h * 0x45d9f3b % 2 ^ 32 in bit_xor m (m / 2 ^ 16) % n

abbrev pub int_max : ℕ
int_max = 2 ^ 31 - 1

-- the loop of `BALANCE_LEAST_CONN`, with `min_conn` and the target chosen so far
unfoldable pub least : ℕ → List UpstreamTarget → ℕ → Option UpstreamTarget → Option UpstreamTarget
least now [] min_conn chosen = chosen
least now (t ∷ ts) min_conn chosen =
    let better = healthy now t && ltb t.active_connections min_conn in
    least now ts (if better then t.active_connections else min_conn)
      (if better then some t else chosen)

abbrev pub url_of : Option UpstreamTarget → Option Bytes
url_of none = none
url_of (some t) = some t.full_url

-- the `switch` over the mode: the place that each try looks at
unfoldable pub place : BalanceMode → UpstreamPool → ℕ → Option Bytes → ℕ → ℕ → ℕ
place round_robin pool rand ip fd tries = (pool.rr_counter + tries) % 2 ^ 32 % length pool.targets
place random pool rand ip fd tries = (rand % length pool.targets + tries) % length pool.targets
place ip_hash pool rand ip fd tries =
    (ip_start ip (length pool.targets) + tries) % length pool.targets
place conn_hash pool rand ip fd tries =
    (conn_start fd (length pool.targets) + tries) % length pool.targets
place least_conn pool rand ip fd tries = 0

unfoldable pub choose : BalanceMode → UpstreamPool → ℕ → ℕ → Option Bytes → ℕ → Option Bytes
unfolding probe least healthy
choose least_conn pool now rand ip fd = url_of (least now pool.targets int_max none)
choose mode pool now rand ip fd =
    probe now (place mode pool rand ip fd) pool.targets (length pool.targets) 0

-- `pool->rr_counter++`, an `unsigned int`
unfoldable pub count_round : BalanceMode → UpstreamPool → UpstreamPool
count_round round_robin pool = record pool { rr_counter = (pool.rr_counter + 1) % 2 ^ 32 }
count_round _ pool = pool

-- `upstream_pool_resolve` on the pool of the name: the URL, or `none` for NULL, and the pool after
unfoldable pub resolve :
    Option UpstreamPool → ℕ → ℕ → Option Bytes → ℕ → Option Bytes × Option UpstreamPool
unfolding choose count_round
resolve none now rand ip fd = (none, none)
resolve (some pool) now rand ip fd =
    if length pool.targets == 0
    then (none, some pool)
    else (choose pool.balance_mode pool now rand ip fd, some (count_round pool.balance_mode pool))

-- the loop over the targets that changes the first one of the URL
unfoldable pub update :
    (UpstreamTarget → UpstreamTarget) → Bytes → List UpstreamTarget → List UpstreamTarget
update f url [] = []
update f url (t ∷ ts) =
    let rest = update f url ts in if equal t.full_url url then f t ∷ ts else t ∷ rest

-- `upstream_pool_inc_conn`; the count is taken to stay below `INT_MAX`
unfoldable pub inc_conn : Bytes → UpstreamPool → UpstreamPool
unfolding update
inc_conn url pool = record pool {
  targets =
      update (λ t. record t { active_connections = t.active_connections + 1 }) url pool.targets;
}

-- `upstream_pool_dec_conn`
unfoldable pub dec_conn : Bytes → UpstreamPool → UpstreamPool
unfolding update
dec_conn url pool = record pool {
  targets =
      update
        (λ t.
          if ltb 0 t.active_connections
          then record t { active_connections = t.active_connections - 1 }
          else t)
        url pool.targets;
}

-- `upstream_pool_mark_down`, at time `now`
unfoldable pub mark_down : ℕ → Bytes → UpstreamPool → UpstreamPool
unfolding update
mark_down now url pool = record pool {
  targets = update (λ t. record t { unhealthy_until = now + pool.retry_timeout }) url pool.targets;
}
