-- ===== src/Dispatch/Register.antt =====
-- include/request.h: where `addHandler` puts a handler. Memory does not run out.
use nanoproxy.Prelude.{
  ℕ, ◌+◌, ◌≤◌, ◌≡◌, ap, ap₂, ◌∙◌, Bool, true, false, ◌||◌, Option, none, some, ◌∷◌, ◌++◌, Bytes,
  codes, arith, ltb, leb, ◌==◌, if◌then◌else◌, length, take, drop, get_or, equal, take-append,
  drop-append,
}
use nanoproxy.Http.Types.{max_url_size}
use nanoproxy.StringBuf.{find_byte}
use nanoproxy.Proxy.Response.{strstr}
use nanoproxy.Endpoint.Printed.{lacks, find_byte-append}

-- nowhere, in the table of all listeners, in that of one listener, or in that of sockets, with its key
pub data Place : Type 0 where
  nowhere : Place
  in_globals : Bytes → Place
  in_listener : Bytes → Bytes → Place
  in_sockets : Bytes → Place

abbrev pub is_http : Bytes → Bool
is_http scheme = equal scheme (codes "http") || equal scheme (codes "https")

-- base and path are parted by the first slash behind the scheme, if there is one
unfoldable pub split_uri : Bytes → Option ℕ → Bytes × Bytes
split_uri uri none = (uri, codes "/")
split_uri uri (some i) = (take i uri, drop i uri)

unfoldable pub place_at : Bytes → Option ℕ → Place
unfolding equal split_uri find_byte
place_at uri none = nowhere
place_at uri (some i) =
    let parts = split_uri uri (find_byte b'/' (i + 3) (drop (i + 3) uri)) in
    if i == 0 || leb 16 i
    then nowhere
    else if is_http (take i uri)
    then in_listener parts.0 parts.1
    else in_sockets uri

-- `addHandler`
unfoldable pub handler_place : Bytes → Place
unfolding place_at strstr
handler_place uri =
    if ltb max_url_size (length uri)
    then nowhere
    else if get_or uri 0 0 == b'/'
    then in_globals uri
    else place_at uri (strstr uri (codes "://"))

-- An http URI that is not too long is parted into its base and its path, which starts with the slash behind
-- the host.
pub handler_place-uri :
    (host path : Bytes)
    → lacks b'/' host ≡ true
    → length (codes "http://" ++ (host ++ (b'/' ∷ path))) ≤ max_url_size
    → handler_place (codes "http://" ++ (host ++ (b'/' ∷ path)))
      ≡ in_listener (codes "http://" ++ host) (b'/' ∷ path)
unfolding handler_place place_at split_uri strstr equal
handler_place-uri host path l small =
    let uri = codes "http://" ++ (host ++ (b'/' ∷ path)) in
    let fits : ltb max_url_size (length uri) ≡ false = ground (arith, small) in
    let at : length host + 7 ≡ length (codes "http://" ++ host) = omega arith in
    let found : find_byte b'/' 7 (host ++ (b'/' ∷ path)) ≡ some (length (codes "http://" ++ host)) =
      find_byte-append b'/' 7 host path l ∙ ap some at in
    let parts : split_uri uri (find_byte b'/' 7 (host ++ (b'/' ∷ path)))
        ≡ (codes "http://" ++ host, b'/' ∷ path) =
      ap (split_uri uri) found
      ∙ ap₂ (λ a b. (a, b)) (take-append (codes "http://" ++ host) (b'/' ∷ path))
          (drop-append (codes "http://" ++ host) (b'/' ∷ path)) in
    rw fits (ap (λ x. in_listener x.0 x.1) parts)
