-- ===== src/Keepalive/Tests.antt =====
-- Runs of the pool, and the instances of its theorems.
use nanoproxy.Prelude.{◌+◌, ◌≡◌, refl, some, List, [], ◌∷◌, arith}
use nanoproxy.Keepalive.{PooledConn, take_conn, put_conn, sweep}
use nanoproxy.Keepalive.Sweep.{fresh, stale, sweep-fresh}
use nanoproxy.Keepalive.Balance.{
  tally, Ledger, Call, give, borrow, expire, call, calls, given, account, calls-account,
  take_conn-put_conn,
}

abbrev idle : List PooledConn
idle =
    record { fd = 5; idle_since = 10; idle_timeout = 20 }
    ∷ record { fd = 6; idle_since = 35; idle_timeout = 20 }
    ∷ record { fd = 7; idle_since = 0; idle_timeout = 0 }
    ∷ []

idle_swept : (sweep 40 idle).1 ≡ 5 ∷ []
unfolding sweep
idle_swept = refl

sweep-fresh_example : sweep 40 idle ≡ (fresh 40 idle, stale 40 idle)
sweep-fresh_example = sweep-fresh 40 idle

abbrev start : Ledger
start = record { conns = idle; handed = []; closed = [] }

abbrev session : List Call
session = borrow ∷ give 8 2 30 40 ∷ expire 50 ∷ give 7 2 30 50 ∷ []

session_end : (calls session start).closed ≡ 8 ∷ 5 ∷ []
unfolding calls call take_conn put_conn sweep
session_end = refl

calls-account_example : account 7 (calls session start) ≡ account 7 start + tally 7 (given session)
calls-account_example = calls-account 7 session start

take_conn-put_conn_case : take_conn (put_conn 9 4 30 60 idle).0 ≡ (some 9, idle)
take_conn-put_conn_case = take_conn-put_conn 9 4 30 60 idle (omega arith)
