-- ===== src/Upstream/Tests.antt =====
-- Runs of the balancing, and the instances of its theorems.
use nanoproxy.Prelude.{
  ℕ, ◌-◌, equal, ◌^◌, ◌≡◌, ◌≢◌, refl, true, none, some, List, [], ◌∷◌, arith, codes, get_elem?,
}
use nanoproxy.Upstream.{
  BalanceMode, round_robin, least_conn, UpstreamTarget, UpstreamPool, healthy, resolve, inc_conn,
  dec_conn, mark_down, place,
}
use nanoproxy.Upstream.Probe.{Chosen}
use nanoproxy.Upstream.Least.{NoneBelow}
use nanoproxy.Upstream.Resolve.{resolve-Chosen, resolve-least}
use nanoproxy.Upstream.Counts.{dec_conn-inc_conn, resolve-mark_down}

abbrev one : UpstreamTarget
one = record {
  host = codes "10.0.0.1";
  port = 80;
  full_url = codes "http://10.0.0.1";
  unhealthy_until = 500;
  active_connections = 2;
}

abbrev two : UpstreamTarget
two = record {
  host = codes "10.0.0.2";
  port = 80;
  full_url = codes "http://10.0.0.2";
  unhealthy_until = 0;
  active_connections = 5;
}

abbrev three : UpstreamTarget
three = record {
  host = codes "10.0.0.3";
  port = 80;
  full_url = codes "http://10.0.0.3";
  unhealthy_until = 0;
  active_connections = 3;
}

abbrev pool_of : BalanceMode → List UpstreamTarget → ℕ → UpstreamPool
pool_of mode targets rounds = record {
  name = codes "api";
  targets = targets;
  balance_mode = mode;
  rr_counter = rounds;
  health_path = none;
  health_interval = 0;
  retry_timeout = 30;
  proxy_timeout = 5;
}

abbrev turns : UpstreamPool
turns = pool_of round_robin (one ∷ two ∷ three ∷ []) 0

turns_skip : (resolve (some turns) 100 0 none 7).0 ≡ some (codes "http://10.0.0.2")
unfolding resolve place
turns_skip = refl

resolve-Chosen_example : Chosen 100 turns.targets (resolve (some turns) 100 0 none 7).0
resolve-Chosen_example = resolve-Chosen turns 100 0 none 7 (omega arith) refl

-- The counter wraps around: the third target is not tried, and no target is found.
wrapped_turns :
    (resolve (some (pool_of round_robin (one ∷ one ∷ three ∷ []) (2 ^ 32 - 1))) 100 0 none 7).0
    ≡ none
unfolding resolve place
wrapped_turns = refl

abbrev fewest : UpstreamPool
fewest = pool_of least_conn (one ∷ two ∷ three ∷ []) 0

resolve-fewest : (resolve (some fewest) 100 0 none 7).0 ≡ some (codes "http://10.0.0.3")
unfolding resolve
resolve-fewest = refl

resolve-least_example :
    (i : ℕ) × (t : UpstreamTarget) × (get_elem? fewest.targets i ≡ some t)
    × (healthy 100 t ≡ true)
    × (t.full_url ≡ codes "http://10.0.0.3")
    × NoneBelow 100 t.active_connections fewest.targets
resolve-least_example =
    resolve-least fewest 100 0 none 7 (codes "http://10.0.0.3") refl resolve-fewest

dec_conn-inc_conn_case :
    dec_conn (codes "http://10.0.0.3") (inc_conn (codes "http://10.0.0.3") turns) ≡ turns
dec_conn-inc_conn_case = dec_conn-inc_conn (codes "http://10.0.0.3") turns

resolve-mark_down_example :
    (resolve (some (mark_down 100 (codes "http://10.0.0.2") turns)) 120 0 none 7).0
    ≢ some (codes "http://10.0.0.2")
unfolding equal
resolve-mark_down_example =
    resolve-mark_down turns (codes "http://10.0.0.2") 100 120 0 none 7 (omega arith) (omega arith)
