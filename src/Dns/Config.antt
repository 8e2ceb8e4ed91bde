-- ===== src/Dns/Config.antt =====
-- `DnsRecord`, `DnsEntry` and `DnsConfig` of include/config.h. A C string is its bytes without the
-- NUL; an address is its bytes in network order.
use nanoproxy.Prelude.{ℕ, Bytes, List, Option, none, some, [], ◌∷◌, equal, if◌then◌else◌}

-- the union of `DnsRecord`, by its type
pub data Rdata : Type 0 where
  a : Bytes → Rdata
  aaaa : Bytes → Rdata
  cname : Bytes → Rdata
  ns : Bytes → Rdata
  ptr : Bytes → Rdata
  txt : Bytes → Rdata
  mx : ℕ → Bytes → Rdata
  srv : ℕ → ℕ → ℕ → Bytes → Rdata
  soa : Rdata

pub record Record : Type 0 where
  pub ttl : ℕ
  pub rdata : Rdata

-- `enum dns_rtype`
unfoldable pub rtype : Rdata → ℕ
rtype (a _) = 1
rtype (ns _) = 2
rtype (cname _) = 5
rtype soa = 6
rtype (ptr _) = 12
rtype (mx _ _) = 15
rtype (txt _) = 16
rtype (aaaa _) = 28
rtype (srv _ _ _ _) = 33

pub record Entry : Type 0 where
  pub host : Bytes
  pub records : List Record

-- the first entry of a name, as `dns_build_response` looks for it
unfoldable pub find_entry : List Entry → Bytes → Option Entry
find_entry [] qname = none
find_entry (e ∷ es) qname = if equal e.host qname then some e else find_entry es qname
