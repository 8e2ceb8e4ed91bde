-- ===== src/Endpoint/Tests.antt =====
-- The instances of the theorems on hosts and ports.
use nanoproxy.Prelude.{
  ◌≡◌, refl, Bool, true, false, none, some, List, [], ◌∷◌, Bytes, codes, arith, map, drop,
}
use nanoproxy.Upstream.{least_conn}
use nanoproxy.Endpoint.{
  Strtol, fwd_udp, fwd_tcp, parse_forward_target, target_address, pool_register,
}
use nanoproxy.Endpoint.Printed.{
  IsPort, parse_forward_target-plain, parse_forward_target-bracketed, target_address-default,
}
use nanoproxy.Endpoint.Pool.{Backend, url_text, IsPlain, Holds, pool_register-Holds}

-- a `strtol` for the number 53 of two digits
abbrev strtol : Bytes → Strtol
strtol s = record { value = 53; rest = drop 2 s; failed = false }

fifty_three-IsPort : IsPort strtol (codes "53") 53
fifty_three-IsPort = record {
  value_eq = refl;
  rest_eq = refl;
  no_error = refl;
  positive = omega arith;
  small = omega arith;
}

parse_forward_target-plain_example :
    parse_forward_target strtol (codes "udp://ns.example:53")
    ≡ some (record { proto = fwd_udp; host = codes "ns.example"; port = 53; path = [] })
parse_forward_target-plain_example =
    parse_forward_target-plain strtol fwd_udp (codes "ns.example") (codes "53") 53 tt refl refl
      fifty_three-IsPort

bracketed_case :
    parse_forward_target strtol (codes "tcp://[::1]:53")
    ≡ some (record { proto = fwd_tcp; host = codes "::1"; port = 53; path = [] })
bracketed_case =
    parse_forward_target-bracketed strtol fwd_tcp (codes "::1") (codes "53") 53 tt refl
      fifty_three-IsPort

target_address-default_example :
    target_address strtol (codes "http://app:53/v1") ≡ record { host = codes "app"; port = 80 }
target_address-default_example =
    target_address-default strtol (codes "app") (codes "53") (codes "v1") refl refl refl refl

abbrev server : Bool → Bytes → Backend
server secure host = record { secure = secure; host = host; port_text = codes "53"; port = 53 }

abbrev servers : List Backend
servers = server false (codes "app") ∷ server true (codes "other.example") ∷ []

app-IsPlain : IsPlain strtol (server false (codes "app"))
app-IsPlain = record {
  no_bracket = refl;
  no_colon = refl;
  no_path = refl;
  is_port = fifty_three-IsPort;
}

other-IsPlain : IsPlain strtol (server true (codes "other.example"))
other-IsPlain = record {
  no_bracket = refl;
  no_colon = refl;
  no_path = refl;
  is_port = fifty_three-IsPort;
}

pool_register-Holds_example : Holds servers least_conn (
    pool_register strtol
      (codes "apps")
      (map url_text servers)
      (some (codes "least-conn"))
      none
      0
      0
      0)
pool_register-Holds_example =
    pool_register-Holds strtol (codes "apps") servers least_conn none 0 0 0
      (app-IsPlain, (other-IsPlain, tt))
