-- ===== src/Endpoint.antt =====
-- include/request.h: how `upstream_pool_register` and `parse_forward_target` read hosts and ports. `strtol` is an argument: what
-- it gives for base 10 is the word of a `long`, the text behind the number, and whether it set `errno`.
pub mod Pool
pub mod Printed
mod Tests
use nanoproxy.Prelude.{
  ℕ, zero, suc, ◌+◌, ◌-◌, ◌%◌, ◌^◌, Bool, true, false, not, ◌&&◌, ◌||◌, Option, none, some, List,
  [], ◌∷◌, map, ◌++◌, Bytes, codes, ltb, leb, ◌==◌, if◌then◌else◌, length, take, drop, get_or,
  equal,
}
use nanoproxy.StringBuf.{find_byte}
use nanoproxy.Dispatch.{has_prefix}
use nanoproxy.Http.Framing.{is_empty}
use nanoproxy.Proxy.Response.{strstr}
use nanoproxy.Upstream.{
  BalanceMode, round_robin, random, ip_hash, conn_hash, least_conn, UpstreamTarget, UpstreamPool,
}

pub record Strtol : Type 0 where
  pub value : ℕ
  pub rest : Bytes
  pub failed : Bool

-- SAFE_STRTOL: 0 unless the whole text is a number
unfoldable pub safe_strtol : (Bytes → Strtol) → Bytes → ℕ
safe_strtol strtol s = let r = strtol s in if not r.failed && is_empty r.rest then r.value else 0

-- the port as an `int`, if it is one from 1 to 65535
unfoldable pub port_of : (Bytes → Strtol) → Bytes → Option ℕ
unfolding safe_strtol
port_of strtol s =
    let port = safe_strtol strtol s % 2 ^ 32 in
    if port == 0 || ltb 65535 port then none else some port

-- `strrchr`: the place of the last byte of this kind
unfoldable pub find_last : ℕ → Bytes → Option ℕ
find_last b [] = none
find_last b (c ∷ s) = let later = find_last b s in later_or later (c == b)
  where
    later_or : Option ℕ → Bool → Option ℕ
    later_or none here = if here then some 0 else none
    later_or (some i) here = some (suc i)

-- a host is cut to the 255 bytes of its field
abbrev pub host_field : Bytes → Bytes
host_field s = take 255 s

pub data Proto : Type 0 where
  fwd_tcp fwd_udp fwd_unix : Proto

-- `struct forward_target` but for the mode and the size of the buffer, which are always the same
pub record ForwardTarget : Type 0 where
  pub proto : Proto
  pub host : Bytes
  pub port : ℕ
  pub path : Bytes

abbrev pub on_port : Proto → Bytes → Option ℕ → Option ForwardTarget
on_port proto host none = none
on_port proto host (some p) =
    some (record { proto = proto; host = host_field host; port = p; path = [] })

-- a host in brackets, that closes at this place
unfoldable pub bracketed : (Bytes → Strtol) → Proto → Bytes → Option ℕ → Option ForwardTarget
unfolding port_of
bracketed strtol proto s none = none
bracketed strtol proto s (some i) =
    if get_or s (i + 1) 0 == b':'
    then on_port proto (drop 1 (take i s)) (port_of strtol (drop (i + 2) s))
    else none

-- a host up to the last colon, at this place
unfoldable pub plain : (Bytes → Strtol) → Proto → Bytes → Option ℕ → Option ForwardTarget
unfolding port_of
plain strtol proto s none = none
plain strtol proto s (some i) = on_port proto (take i s) (port_of strtol (drop (i + 1) s))

unfoldable pub host_and_port : (Bytes → Strtol) → Proto → Bytes → Option ForwardTarget
unfolding bracketed plain find_last find_byte
host_and_port strtol proto s =
    if get_or s 0 0 == b'['
    then bracketed strtol proto s (find_byte b']' 0 s)
    else plain strtol proto s (find_last b':' s)

-- `parse_forward_target`
unfoldable pub parse_forward_target : (Bytes → Strtol) → Bytes → Option ForwardTarget
unfolding host_and_port has_prefix
parse_forward_target strtol uri =
    if has_prefix (codes "tcp://") uri
    then host_and_port strtol fwd_tcp (drop 6 uri)
    else if has_prefix (codes "udp://") uri
    then host_and_port strtol fwd_udp (drop 6 uri)
    else if has_prefix (codes "unix://") uri
    then some (record { proto = fwd_unix; host = []; port = 0; path = take 107 (drop 7 uri) })
    else none

-- host and port of a target of a pool
pub record Address : Type 0 where
  pub host : Bytes
  pub port : ℕ

-- `url[4]` of a URL with four bytes or more
abbrev pub default_port : Bytes → ℕ
default_port url = if get_or url 4 0 == b's' then 443 else 80

abbrev pub port_or : Option ℕ → ℕ → ℕ
port_or none d = d
port_or (some p) d = p

-- behind the host in brackets, that closes at this place; an open bracket leaves the zeros of `memset`
unfoldable pub bracketed_address : (Bytes → Strtol) → ℕ → Bytes → Option ℕ → Address
unfolding port_of
bracketed_address strtol default s none = record { host = []; port = 0 }
bracketed_address strtol default s (some i) = record {
  host = host_field (drop 1 (take i s));
  port =
      if get_or s (i + 1) 0 == b':'
      then port_or (port_of strtol (drop (i + 2) s)) default
      else default;
}

-- the end of host and port: the path, the query or the end
unfoldable pub before_path : Bytes → Bytes
before_path [] = []
before_path (c ∷ s) = let rest = before_path s in if c == b'/' || c == b'?' then [] else c ∷ rest

-- the last colon in front of that end; the number is read up to the end of the URL
unfoldable pub plain_address : (Bytes → Strtol) → ℕ → Bytes → Option ℕ → Address
unfolding port_of before_path
plain_address strtol default s none = record { host = host_field (before_path s); port = default }
plain_address strtol default s (some i) = record {
  host = host_field (take i s);
  port = port_or (port_of strtol (drop (i + 1) s)) default;
}

unfoldable pub host_start : Bytes → Option ℕ → Bytes
host_start url none = url
host_start url (some i) = drop (i + 3) url

-- the loop body of `upstream_pool_register`
unfoldable pub target_address : (Bytes → Strtol) → Bytes → Address
unfolding host_start bracketed_address plain_address before_path find_last strstr find_byte
target_address strtol url =
    let s = host_start url (strstr url (codes "://")) in
    if get_or s 0 0 == b'['
    then bracketed_address strtol (default_port url) s (find_byte b']' 0 s)
    else plain_address strtol (default_port url) s (find_last b':' (before_path s))

abbrev pub default_retry_timeout : ℕ
default_retry_timeout = 30

abbrev pub default_proxy_timeout : ℕ
default_proxy_timeout = 5

unfoldable pub balance_of : Option Bytes → BalanceMode
unfolding equal
balance_of none = round_robin
balance_of (some b) =
    if equal b (codes "round-robin")
    then round_robin
    else if equal b (codes "random")
    then random
    else if equal b (codes "ip-hash")
    then ip_hash
    else if equal b (codes "conn-hash")
    then conn_hash
    else if equal b (codes "least-conn")
    then least_conn
    else round_robin

unfoldable pub new_target : (Bytes → Strtol) → Bytes → UpstreamTarget
unfolding target_address
new_target strtol url =
    let a = target_address strtol url in
    record {
      host = a.host;
      port = a.port;
      full_url = url;
      unhealthy_until = 0;
      active_connections = 0;
    }

abbrev pub or_default : ℕ → ℕ → ℕ
or_default n d = if ltb 0 n then n else d

-- `upstream_pool_register`: the pool that is put under its name, with 16 targets at most; a timeout that is not positive
-- is 0 here
unfoldable pub pool_register :
    (Bytes → Strtol) → Bytes → List Bytes → Option Bytes → Option Bytes → ℕ → ℕ → ℕ → UpstreamPool
unfolding balance_of new_target
pool_register strtol name target_urls balance health_path health_interval retry_timeout
      proxy_timeout =
    record {
      name = name;
      targets = map (new_target strtol) (take 16 target_urls);
      balance_mode = balance_of balance;
      rr_counter = 0;
      health_path = health_path;
      health_interval = health_interval;
      retry_timeout = or_default retry_timeout default_retry_timeout;
      proxy_timeout = or_default proxy_timeout default_proxy_timeout;
    }
