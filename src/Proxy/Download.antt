-- ===== src/Proxy/Download.antt =====
-- The bytes of a response on their way to the client, on a route without keep-alive.
pub mod Order
pub mod Lost
use nanoproxy.Prelude.{
  ℕ, ◌+◌, ◌≤◌, ◌≡◌, Bool, true, false, List, [], ◌∷◌, ◌++◌, Bytes, if◌then◌else◌, length,
}
use nanoproxy.Proxy.{
  Wrote, Proxy, Outcome, going, ended, next, is_pending, unsent, buffer, on_client_writable,
}
use nanoproxy.Proxy.Relay.{Got, got, got_again, got_end, Memory, on_upstream_read}

-- what happens to it: a read event of the upstream's descriptor, or a write event of the client's
pub data Event : Type 0 where
  upstream_read : Memory → Wrote → Got → Event
  client_writable : Wrote → Event

-- the event loop reports an event only to a descriptor that waits for it
unfoldable pub step : (Bytes → ℕ) → Event → Proxy → Outcome
unfolding on_upstream_read on_client_writable
step atol (upstream_read m w g) p =
    if p.upstream_events.read then on_upstream_read atol m w g p else going p
step atol (client_writable w) p = if p.client_events.write then on_client_writable w p else going p

unfoldable pub run : (Bytes → ℕ) → List Event → Proxy → Outcome
unfolding step
run atol [] p = going p
run atol (e ∷ es) p = next (run atol es) (step atol e p)

abbrev pub got_bytes : Got → Bytes
got_bytes (got b) = b
got_bytes got_again = []
got_bytes got_end = []

-- the bytes that an event reads from the upstream server
unfoldable pub read_by : Event → Proxy → Bytes
read_by (upstream_read m w g) p = if p.upstream_events.read then got_bytes g else []
read_by (client_writable w) p = []

abbrev pub while_going : (Proxy → Bytes) → Outcome → Bytes
while_going f (going q) = f q
while_going f (ended q pooled kept) = []

-- the bytes that are read in a run
unfoldable pub received : (Bytes → ℕ) → List Event → Proxy → Bytes
unfolding step
received atol [] p = []
received atol (e ∷ es) p = read_by e p ++ while_going (received atol es) (step atol e p)
