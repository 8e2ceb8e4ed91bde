-- ===== src/Endpoint/Printed.antt =====
-- Hosts and ports that are written the usual way, read back.
use nanoproxy.Prelude.{
  ℕ, suc, ◌+◌, ◌%◌, ◌^◌, ◌≤◌, ◌<◌, ◌≡◌, refl, sym, ap, ap₂, ◌∙◌, Bool, true, false, not, ◌&&◌, ◌||◌,
  none, some, [], ◌∷◌, ◌++◌, Bytes, codes, arith, ltb, ◌==◌, length, take, drop, get_or, all,
  and-eq_true, take-append, drop_past, append_assoc, equal,
}
use nanoproxy.StringBuf.{find_byte}
use nanoproxy.Dispatch.{has_prefix}
use nanoproxy.Http.Framing.{is_empty}
use nanoproxy.Proxy.Response.{strstr}
use nanoproxy.Endpoint.{
  Strtol, safe_strtol, port_of, find_last, host_field, Proto, fwd_tcp, fwd_udp, fwd_unix, on_port,
  bracketed, plain, host_and_port, parse_forward_target, Address, port_or, plain_address,
  before_path, host_start, target_address,
}

abbrev pub lacks : ℕ → Bytes → Bool
lacks b s = all (λ c. not (c == b)) s

-- `strtol` reads the text as this port number and nothing is left behind it.
pub record IsPort (strtol : Bytes → Strtol) (s : Bytes) (p : ℕ) : Type 0 where
  pub value_eq : (strtol s).value ≡ p
  pub rest_eq : (strtol s).rest ≡ []
  pub no_error : (strtol s).failed ≡ false
  pub positive : 0 < p
  pub small : p ≤ 65535

pub port_of-IsPort :
    (strtol : Bytes → Strtol) (s : Bytes) (p : ℕ) → IsPort strtol s p → port_of strtol s ≡ some p
unfolding port_of safe_strtol
port_of-IsPort strtol s p i =
    let fits : p % 2 ^ 32 ≡ p = omega (arith, i.small) in
    let valid : (p == 0 || ltb 65535 p) ≡ false = ground (arith, i.positive, i.small) in
    rw (i.no_error, i.rest_eq, i.value_eq, fits, valid) refl

find_last-lacks : (b : ℕ) (s : Bytes) → lacks b s ≡ true → find_last b s ≡ none
unfolding find_last
find_last-lacks b [] h = refl
find_last-lacks b (c ∷ s) h =
    let (here, later) = and-eq_true (not (c == b)) (lacks b s) h in
    let differs : (c == b) ≡ false = ground (arith, here) in
    rw (find_last-lacks b s later, differs) refl

pub find_last-append :
    (b : ℕ) (h t : Bytes) → lacks b t ≡ true → find_last b (h ++ (b ∷ t)) ≡ some (length h)
unfolding find_last
find_last-append b [] t l =
    let same : (b == b) ≡ true = ground arith in rw (find_last-lacks b t l, same) refl
find_last-append b (c ∷ h) t l = rw (find_last-append b h t l) refl

pub find_byte-append :
    (b i : ℕ) (h t : Bytes) → lacks b h ≡ true → find_byte b i (h ++ (b ∷ t)) ≡ some (length h + i)
unfolding find_byte
find_byte-append b i [] t l =
    let same : (b == b) ≡ true = ground arith in
    let at : i ≡ 0 + i = omega arith in rw same (ap some at)
find_byte-append b i (c ∷ h) t l =
    let (here, later) = and-eq_true (not (c == b)) (lacks b h) l in
    let differs : (c == b) ≡ false = ground (arith, here) in
    let at : length h + (i + 1) ≡ length (c ∷ h) + i = omega arith in
    rw differs (find_byte-append b (i + 1) h t later ∙ ap some at)

abbrev pub scheme : Proto → Bytes
scheme fwd_tcp = codes "tcp://"
scheme fwd_udp = codes "udp://"
scheme fwd_unix = codes "unix://"

abbrev pub IsInet : Proto → Type 0
IsInet fwd_tcp = Unit
IsInet fwd_udp = Unit
IsInet fwd_unix = ⊥

parse_scheme :
    (strtol : Bytes → Strtol) (proto : Proto) (s : Bytes)
    → IsInet proto
    → parse_forward_target strtol (scheme proto ++ s) ≡ host_and_port strtol proto s
unfolding parse_forward_target has_prefix equal
parse_scheme strtol fwd_tcp s i = refl
parse_scheme strtol fwd_udp s i = refl
parse_scheme strtol fwd_unix s i = absurd i

pub first_of_append :
    (h t : Bytes) (b : ℕ)
    → (get_or h 0 0 == b'[') ≡ false
    → (b == b'[') ≡ false
    → (get_or (h ++ (b ∷ t)) 0 0 == b'[') ≡ false
first_of_append [] t b e f = f
first_of_append (c ∷ h) t b e f = e

-- A host that does not start with a bracket, a colon, and the text of a port from 1 to 65535 without a
-- colon in it are read back, behind `tcp://` and `udp://` alike, the host cut to its field.
pub parse_forward_target-plain :
    (strtol : Bytes → Strtol) (proto : Proto) (h t : Bytes) (p : ℕ)
    → IsInet proto
    → (get_or h 0 0 == b'[') ≡ false
    → lacks b':' t ≡ true
    → IsPort strtol t p
    → parse_forward_target strtol (scheme proto ++ (h ++ (b':' ∷ t)))
      ≡ some (record { proto = proto; host = host_field h; port = p; path = [] })
unfolding host_and_port plain
parse_forward_target-plain strtol proto h t p inet first l i =
    let s = h ++ (b':' ∷ t) in
    parse_scheme strtol proto s inet
    ∙ rw (first_of_append h t b':' first refl, find_last-append b':' h t l)
        (ap₂ (λ host port. on_port proto host port) (take-append h (b':' ∷ t))
          (ap (port_of strtol) (ap (λ k. drop k s) (later (length h)) ∙ drop_past h t b':')
            ∙ port_of-IsPort strtol t p i))
  where
    later : (n : ℕ) → n + 1 ≡ suc n
    later n = omega arith

-- behind a closing bracket
after_bracket :
    (h t : Bytes)
    → (take (length h + 1) (b'[' ∷ (h ++ (b']' ∷ (b':' ∷ t)))) ≡ b'[' ∷ h)
      × ((get_or (b'[' ∷ (h ++ (b']' ∷ (b':' ∷ t)))) (length h + 1 + 1) 0 ≡ b':')
          × (drop (length h + 1 + 2) (b'[' ∷ (h ++ (b']' ∷ (b':' ∷ t)))) ≡ t))
after_bracket h t =
    let one : length h + 1 ≡ suc (length h) = omega arith in
    let two : length h + 1 + 1 ≡ suc (suc (length h)) = omega arith in
    let three : length h + 1 + 2 ≡ suc (suc (suc (length h))) = omega arith in
    let s = b'[' ∷ (h ++ (b']' ∷ (b':' ∷ t))) in
    (
      ap (λ k. take k s) one ∙ ap (◌∷◌ b'[') (take-append h (b']' ∷ (b':' ∷ t))),
      (ap (λ k. get_or s k 0) two ∙ colon h, ap (λ k. drop k s) three ∙ text h),
    )
  where
    colon : (g : Bytes) → get_or (g ++ (b']' ∷ (b':' ∷ t))) (suc (length g)) 0 ≡ b':'
    colon [] = refl
    colon (c ∷ g) = colon g

    text : (g : Bytes) → drop (suc (suc (length g))) (g ++ (b']' ∷ (b':' ∷ t))) ≡ t
    text [] = refl
    text (c ∷ g) = text g

-- A host in brackets without a closing one in it, a colon, and the text of a port from 1 to 65535 are read
-- back, behind `tcp://` and `udp://` alike, the host without its brackets and cut to its field.
pub parse_forward_target-bracketed :
    (strtol : Bytes → Strtol) (proto : Proto) (h t : Bytes) (p : ℕ)
    → IsInet proto
    → lacks b']' h ≡ true
    → IsPort strtol t p
    → parse_forward_target strtol (scheme proto ++ (b'[' ∷ (h ++ (b']' ∷ (b':' ∷ t)))))
      ≡ some (record { proto = proto; host = host_field h; port = p; path = [] })
unfolding host_and_port bracketed find_byte
parse_forward_target-bracketed strtol proto h t p inet l i =
    let s = b'[' ∷ (h ++ (b']' ∷ (b':' ∷ t))) in
    let (before, (colon, behind)) = after_bracket h t in
    parse_scheme strtol proto s inet
    ∙ ap (bracketed strtol proto s) (find_byte-append b']' 1 h (b':' ∷ t) l)
    ∙ rw (colon, before, behind, port_of-IsPort strtol t p i) refl

port_of-unread :
    (strtol : Bytes → Strtol) (s : Bytes)
    → is_empty (strtol s).rest ≡ false
    → port_of strtol s ≡ none
unfolding port_of safe_strtol
port_of-unread strtol s unread =
    let no_number : (not (strtol s).failed && is_empty (strtol s).rest) ≡ false =
      ground (arith, unread) in
    rw no_number refl

abbrev pub ends_address : ℕ → Bool
ends_address c = c == b'/' || c == b'?'

before_path-append :
    (s rest : Bytes)
    → all (λ c. not (ends_address c)) s ≡ true
    → before_path (s ++ (b'/' ∷ rest)) ≡ s
unfolding before_path
before_path-append [] rest h = refl
before_path-append (c ∷ s) rest h =
    let (here, later) = and-eq_true (not (ends_address c)) (all (λ d. not (ends_address d)) s) h in
    let goes_on : ends_address c ≡ false = ground (arith, here) in
    rw (goes_on) (ap (◌∷◌ c) (before_path-append s rest later))

-- A target `http://host:port/path` of a pool gets the port 80, whatever port is written, since the number is
-- read up to the end of the URL and `strtol` leaves the path behind it.
pub target_address-default :
    (strtol : Bytes → Strtol) (h t path : Bytes)
    → (get_or h 0 0 == b'[') ≡ false
    → lacks b':' t ≡ true
    → all (λ c. not (ends_address c)) (h ++ (b':' ∷ t)) ≡ true
    → is_empty (strtol (t ++ (b'/' ∷ path))).rest ≡ false
    → target_address strtol (codes "http://" ++ (h ++ (b':' ∷ (t ++ (b'/' ∷ path)))))
      ≡ record { host = host_field h; port = 80 }
unfolding target_address strstr host_start plain_address port_of safe_strtol equal
target_address-default strtol h t path first l plain_text unread =
    let s = h ++ (b':' ∷ (t ++ (b'/' ∷ path))) in
    let joined : s ≡ (h ++ (b':' ∷ t)) ++ (b'/' ∷ path) =
      sym (append_assoc h (b':' ∷ t) (b'/' ∷ path)) in
    let place : find_last b':' (before_path s) ≡ some (length h) =
      ap (λ u. find_last b':' (before_path u)) joined
      ∙ ap (find_last b':') (before_path-append (h ++ (b':' ∷ t)) path plain_text)
      ∙ find_last-append b':' h t l in
    let behind : drop (length h + 1) s ≡ t ++ (b'/' ∷ path) =
      ap (λ k. drop k s) (later (length h)) ∙ drop_past h (t ++ (b'/' ∷ path)) b':' in
    rw (first_of_append h (t ++ (b'/' ∷ path)) b':' first refl, place)
      (ap₂ (λ host port. record_of host (port_or port 80))
        (take-append h (b':' ∷ (t ++ (b'/' ∷ path))))
        (ap (port_of strtol) behind ∙ port_of-unread strtol (t ++ (b'/' ∷ path)) unread))
  where
    later : (n : ℕ) → n + 1 ≡ suc n
    later n = omega arith

    record_of : Bytes → ℕ → Address
    record_of host port = record { host = host_field host; port = port }
