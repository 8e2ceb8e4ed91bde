-- ===== src/Proxy.antt =====
-- include/request.h: one proxied connection, `proxy_state_t`, and what the handlers of the event loop do
-- with it. What a system call answers is an argument. `to_upstream` and `to_client` are the bytes that
-- the kernel took. The masks of events are those of epoll, where `event_del` takes a descriptor out.
pub mod Buffer
pub mod Response
pub mod Relay
pub mod Upload
pub mod Download
pub mod Drain
mod Tests
use nanoproxy.Prelude.{
  ℕ, ◌+◌, ◌-◌, ◌%◌, ◌^◌, min, Bool, true, false, not, ◌&&◌, ◌||◌, Option, none, some, [], ◌∷◌, ◌++◌,
  Bytes, ltb, leb, ◌==◌, if◌then◌else◌, length, take, drop,
}

-- the answer of `write`, `socket_write`: a count, EAGAIN, or another error
pub data Wrote : Type 0 where
  wrote : ℕ → Wrote
  again broke : Wrote

-- how many of `len` bytes were taken
abbrev pub taken : Wrote → ℕ → ℕ
taken (wrote n) len = min n len
taken again len = 0
taken broke len = 0

-- the events that a descriptor waits for
pub record Events : Type 0 where
  pub read : Bool
  pub write : Bool

abbrev pub no_events : Events
no_events = record { read = false; write = false }

abbrev pub ev_read : Events
ev_read = record { read = true; write = false }

abbrev pub ev_read_write : Events
ev_read_write = record { read = true; write = true }

-- `proxy_state_t` with the masks of its two descriptors; `client_keeps` is `http_should_keep_alive` of
-- the client's request, and a content length is the word of a `long`
pub record Proxy : Type 0 where
  pub connected : Bool
  pub pending : Option Bytes
  pub pending_sent : ℕ
  pub downstream_buf : Option Bytes
  pub downstream_sent : ℕ
  pub client_paused : Bool
  pub upstream_paused : Bool
  pub body_remaining : ℕ
  pub body_complete : Bool
  pub is_websocket : Bool
  pub keepalive_enabled : Bool
  pub resp_headers_done : Bool
  pub resp_header_buf : Bytes
  pub resp_content_length : ℕ
  pub resp_chunked : Bool
  pub resp_conn_close : Bool
  pub resp_body_relayed : ℕ
  pub resp_poolable : Bool
  pub client_keeps : Bool
  pub client_events : Events
  pub upstream_events : Events
  pub to_upstream : Bytes
  pub to_client : Bytes

-- a connection that is going, or one that `proxy_cleanup` ended: into the pool or closed, with the client kept or
-- closed
pub data Outcome : Type 0 where
  going : Proxy → Outcome
  ended : Proxy → Bool → Bool → Outcome

abbrev pub state_of : Outcome → Proxy
state_of (going p) = p
state_of (ended p pooled kept) = p

-- an event behind the end of the connection does nothing
abbrev pub next : (Proxy → Outcome) → Outcome → Outcome
next f (going p) = f p
next f (ended p pooled kept) = ended p pooled kept

-- `proxy_cleanup`: the buffers are freed
unfoldable pub cleanup : Proxy → Outcome
cleanup p =
    ended
      (record p {
        pending = none;
        pending_sent = 0;
        downstream_buf = none;
        downstream_sent = 0;
        resp_header_buf = [];
      })
      (p.resp_poolable && not p.is_websocket) (p.resp_poolable && p.client_keeps)

-- Are there bytes in the buffer that are not sent?
abbrev pub is_pending : Option Bytes → ℕ → Bool
is_pending none sent = false
is_pending (some b) sent = ltb sent (length b)

abbrev pub unsent : Option Bytes → ℕ → Bytes
unsent none sent = []
unsent (some b) sent = drop sent b

abbrev pub buffer : Option Bytes → Bytes
buffer none = []
buffer (some b) = b

-- the countdown of the body, which is a `size_t`
abbrev pub count_body : ℕ → Proxy → Proxy
count_body n p =
    let counted = not p.is_websocket && (ltb 0 p.body_remaining && ltb 0 n) in
    let left = (2 ^ 64 + p.body_remaining - n) % 2 ^ 64 in
    record p {
      body_remaining = if counted then left else p.body_remaining;
      body_complete = if counted && left == 0 then true else p.body_complete;
    }

-- `proxy_on_body_data` behind its direct write of `n` bytes
unfoldable pub keep_rest : Bool → ℕ → Bytes → Proxy → Outcome
unfolding cleanup
keep_rest room n bytes p =
    if ltb n (length bytes)
    then (if room
        then going (record p {
          pending = some (drop n bytes);
          pending_sent = 0;
          client_paused = true;
          client_events = no_events;
          upstream_events = ev_read_write;
        })
        else cleanup p)
    else going p

unfoldable pub write_upstream : Bool → Wrote → Bytes → Proxy → Outcome
unfolding keep_rest cleanup
write_upstream room broke bytes p = cleanup p
write_upstream room again bytes p = keep_rest room 0 bytes p
write_upstream room (wrote m) bytes p =
    let n = taken (wrote m) (length bytes) in
    keep_rest room n bytes (record (count_body n p) { to_upstream = p.to_upstream ++ take n bytes })

-- `proxy_on_body_data`; `room` says whether memory is given
unfoldable pub on_body_data : Bool → Wrote → Bytes → Proxy → Outcome
unfolding write_upstream cleanup
on_body_data room w bytes p =
    if not p.connected || is_pending p.pending p.pending_sent
    then (if room
        then going (record p { pending = some (buffer p.pending ++ bytes) })
        else cleanup p)
    else write_upstream room w bytes p

-- `proxy_on_upstream_write` behind the drain
unfoldable pub after_drain : Bool → Proxy → Outcome
after_drain need_write p =
    if need_write
    then going p
    else going (record p {
      client_paused = false;
      client_events = if p.client_paused then ev_read else p.client_events;
      upstream_events = ev_read;
    })

-- `n` bytes of what waits are taken
unfoldable pub drained : ℕ → Proxy → Outcome
unfolding after_drain
drained n p =
    let left = unsent p.pending p.pending_sent in
    let q = record p { to_upstream = p.to_upstream ++ take n left } in
    if n == 0
    then after_drain true p
    else if n == length left
    then after_drain false (record q { pending = none; pending_sent = 0 })
    else after_drain true (record q { pending_sent = p.pending_sent + n })

unfoldable pub drain_write : Wrote → Proxy → Outcome
unfolding drained after_drain cleanup
drain_write broke p = cleanup p
drain_write again p = after_drain true p
drain_write (wrote m) p = drained (taken (wrote m) (length (unsent p.pending p.pending_sent))) p

unfoldable pub drain_pending : Wrote → Proxy → Outcome
unfolding drain_write after_drain
drain_pending w p =
    if is_pending p.pending p.pending_sent then drain_write w p else after_drain false p

-- `proxy_on_upstream_write`, where `refused` is an error of the connection; the page for the client and the
-- mark on the target that it brings are left out
unfoldable pub on_upstream_write : Bool → Wrote → Proxy → Outcome
unfolding drain_pending cleanup
on_upstream_write refused w p =
    if not p.connected && refused
    then cleanup p
    else drain_pending w (record p { connected = true })

-- what of the bytes for the client is not taken is kept, with the upstream paused
unfoldable pub hold_rest : Bool → ℕ → Bytes → Proxy → Outcome
unfolding cleanup
hold_rest room n bytes p =
    let q = record p { to_client = p.to_client ++ take n bytes } in
    if ltb n (length bytes)
    then (if room
        then going (record q {
          downstream_buf = some (drop n bytes);
          downstream_sent = 0;
          upstream_paused = true;
          upstream_events = no_events;
          client_events = ev_read_write;
        })
        else cleanup q)
    else going q

-- the write to the client of `proxy_on_upstream_read`
unfoldable pub deliver : Bool → Wrote → Bytes → Proxy → Outcome
unfolding hold_rest cleanup
deliver room broke bytes p = cleanup p
deliver room again bytes p = hold_rest room 0 bytes p
deliver room (wrote m) bytes p = hold_rest room (taken (wrote m) (length bytes)) bytes p

-- `proxy_on_client_writable` behind its write of `n` bytes
unfoldable pub after_client_write : ℕ → Proxy → Outcome
after_client_write n p =
    let left = unsent p.downstream_buf p.downstream_sent in
    let q = record p { to_client = p.to_client ++ take n left } in
    if n == length left
    then going (record q {
      downstream_buf = none;
      downstream_sent = 0;
      upstream_paused = false;
      upstream_events = if p.upstream_paused then ev_read else p.upstream_events;
      client_events = ev_read;
    })
    else going (record q { downstream_sent = p.downstream_sent + n })

unfoldable pub client_write : Wrote → Proxy → Outcome
unfolding after_client_write cleanup
client_write broke p = cleanup p
client_write again p = after_client_write 0 p
client_write (wrote m) p =
    after_client_write (taken (wrote m) (length (unsent p.downstream_buf p.downstream_sent))) p

-- `proxy_on_client_writable`
unfoldable pub on_client_writable : Wrote → Proxy → Outcome
unfolding client_write
on_client_writable w p =
    if is_pending p.downstream_buf p.downstream_sent
    then client_write w p
    else going (record p { client_events = ev_read })
