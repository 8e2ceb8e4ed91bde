-- ===== src/Endpoint/Pool.antt =====
-- A pool that is registered from URLs that are written the usual way.
use nanoproxy.Prelude.{
  ℕ, zero, suc, ◌+◌, ◌≡◌, refl, ap, ap₂, ◌∙◌, Bool, true, false, not, Option, some, List, [], ◌∷◌,
  ◌++◌, Bytes, codes, arith, ◌==◌, if◌then◌else◌, length, drop, get_or, all, map, and-eq_true,
  take-append, drop_past, equal, take, Bool-cases, inl, inr,
}
use nanoproxy.Upstream.{
  BalanceMode, round_robin, random, ip_hash, conn_hash, least_conn, UpstreamTarget, UpstreamPool,
}
use nanoproxy.Proxy.Response.{strstr}
use nanoproxy.Endpoint.{
  Strtol, port_of, find_last, host_field, Address, port_or, plain_address, before_path, host_start,
  target_address, balance_of, new_target, pool_register,
}
use nanoproxy.Endpoint.Printed.{
  lacks, ends_address, IsPort, first_of_append, find_last-append, port_of-IsPort,
}

-- a server of a pool, its port as a text and as a number
pub record Backend : Type 0 where
  pub secure : Bool
  pub host : Bytes
  pub port_text : Bytes
  pub port : ℕ

abbrev pub url_text : Backend → Bytes
url_text b =
    (if b.secure then codes "https://" else codes "http://") ++ (b.host ++ (b':' ∷ b.port_text))

-- The host starts with no bracket, the last colon is the one in front of the port, and there is no path.
pub record IsPlain (strtol : Bytes → Strtol) (b : Backend) : Type 0 where
  pub no_bracket : (get_or b.host 0 0 == b'[') ≡ false
  pub no_colon : lacks b':' b.port_text ≡ true
  pub no_path : all (λ c. not (ends_address c)) (b.host ++ (b':' ∷ b.port_text)) ≡ true
  pub is_port : IsPort strtol b.port_text b.port

abbrev pub AllPlain : (Bytes → Strtol) → List Backend → Type 0
AllPlain strtol [] = Unit
AllPlain strtol (b ∷ bs) = IsPlain strtol b × AllPlain strtol bs

-- what the pool is to hold for a server: its address, its URL, in use at once and without connections
abbrev pub target_of : Backend → UpstreamTarget
target_of b = record {
  host = take 255 b.host;
  port = b.port;
  full_url = url_text b;
  unhealthy_until = 0;
  active_connections = 0;
}

-- the names in the configuration
abbrev pub balance_name : BalanceMode → Bytes
balance_name round_robin = codes "round-robin"
balance_name random = codes "random"
balance_name ip_hash = codes "ip-hash"
balance_name conn_hash = codes "conn-hash"
balance_name least_conn = codes "least-conn"

before_path-all : (s : Bytes) → all (λ c. not (ends_address c)) s ≡ true → before_path s ≡ s
unfolding before_path
before_path-all [] h = refl
before_path-all (c ∷ s) h =
    let (here, later) = and-eq_true (not (ends_address c)) (all (λ d. not (ends_address d)) s) h in
    let goes_on : ends_address c ≡ false = ground (arith, here) in
    rw goes_on (ap (◌∷◌ c) (before_path-all s later))

address_of : Bytes → ℕ → Address
address_of host port = record { host = host_field host; port = port }

one_more : (n : ℕ) → n + 1 ≡ suc n
one_more n = omega arith

plain_address-port :
    (strtol : Bytes → Strtol) (d : ℕ) (b : Backend)
    → IsPlain strtol b
    → plain_address strtol d
        (b.host ++ (b':' ∷ b.port_text))
        (find_last b':' (before_path (b.host ++ (b':' ∷ b.port_text))))
      ≡ record { host = host_field b.host; port = b.port }
unfolding plain_address address_of
plain_address-port strtol d b i =
    let s = b.host ++ (b':' ∷ b.port_text) in
    let place : find_last b':' (before_path s) ≡ some (length b.host) =
      ap (find_last b':') (before_path-all s i.no_path)
      ∙ find_last-append b':' b.host b.port_text i.no_colon in
    let behind : drop (length b.host + 1) s ≡ b.port_text =
      ap (λ k. drop k s) (one_more (length b.host)) ∙ drop_past b.host b.port_text b':' in
    ap (plain_address strtol d s) place
    ∙ ap₂ (λ host port. address_of host (port_or port d)) (take-append b.host (b':' ∷ b.port_text))
        (ap (port_of strtol) behind ∙ port_of-IsPort strtol b.port_text b.port i.is_port)

target_address-port :
    (strtol : Bytes → Strtol) (b : Backend)
    → IsPlain strtol b
    → target_address strtol (url_text b) ≡ record { host = host_field b.host; port = b.port }
unfolding target_address strstr host_start equal
target_address-port strtol b i =
    let start = first_of_append b.host b.port_text b':' i.no_bracket refl in
    elim (Bool-cases b.secure) [
      | inl e ↦ rw (e, start) (plain_address-port strtol 443 b i)
      | inr e ↦ rw (e, start) (plain_address-port strtol 80 b i)
    ]

new_target-target_of :
    (strtol : Bytes → Strtol) (b : Backend)
    → IsPlain strtol b
    → new_target strtol (url_text b) ≡ target_of b
unfolding new_target
new_target-target_of strtol b i = ap (with_address (url_text b)) (target_address-port strtol b i)
  where
    with_address : Bytes → Address → UpstreamTarget
    with_address url a = record {
      host = a.host;
      port = a.port;
      full_url = url;
      unhealthy_until = 0;
      active_connections = 0;
    }

targets-target_of :
    (n : ℕ) (strtol : Bytes → Strtol) (bs : List Backend)
    → AllPlain strtol bs
    → map (new_target strtol) (take n (map url_text bs)) ≡ map target_of (take n bs)
targets-target_of zero strtol bs h = refl
targets-target_of (suc n) strtol [] h = refl
targets-target_of (suc n) strtol (b ∷ bs) h =
    ap₂ (◌∷◌) (new_target-target_of strtol b h.0) (targets-target_of n strtol bs h.1)

balance_of-name : (mode : BalanceMode) → balance_of (some (balance_name mode)) ≡ mode
unfolding balance_of equal
balance_of-name round_robin = refl
balance_of-name random = refl
balance_of-name ip_hash = refl
balance_of-name conn_hash = refl
balance_of-name least_conn = refl

-- The pool has these servers and this mode, and starts counting at its first target.
pub record Holds (bs : List Backend) (mode : BalanceMode) (pool : UpstreamPool) : Type 0 where
  pub targets_are : pool.targets ≡ map target_of bs
  pub mode_is : pool.balance_mode ≡ mode
  pub starts : pool.rr_counter ≡ 0

-- A pool that is registered with the name of a mode and with the URLs of servers, http or https, each a host that
-- does not start with a bracket, a colon, and the text of a port from 1 to 65535 without a colon in it, and no path
-- or query, has the first 16 of these servers as its targets, in their order, each with the host cut to its field,
-- the port that is written, its URL, no failure and no connection, and has that mode and its counter at 0.
pub pool_register-Holds :
    (strtol : Bytes → Strtol) (name : Bytes) (bs : List Backend) (mode : BalanceMode)
    (health_path : Option Bytes) (health_interval retry_timeout proxy_timeout : ℕ)
    → AllPlain strtol bs
    → Holds (take 16 bs) mode (
        pool_register strtol name
          (map url_text bs)
          (some (balance_name mode))
          health_path
          health_interval
          retry_timeout
          proxy_timeout)
unfolding pool_register
pool_register-Holds strtol name bs mode health_path health_interval retry_timeout proxy_timeout h =
    record {
      targets_are = targets-target_of 16 strtol bs h;
      mode_is = balance_of-name mode;
      starts = refl;
    }
