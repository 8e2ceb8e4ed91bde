-- ===== src/Http/KeepAlive.antt =====
-- include/http.h: `http_should_keep_alive`.
use nanoproxy.Prelude.{
  ◌≡◌, refl, ap, ◌∙◌, Bool, true, false, not, Option, none, some, Bytes, codes, equal,
}
use nanoproxy.Http.Table.{Table}
use nanoproxy.Http.Framing.{equal_nocase}

abbrev pub is_http_11 : Option Bytes → Bool
is_http_11 none = false
is_http_11 (some v) = equal v (codes "HTTP/1.1")

-- what the value of the connection header is worth
abbrev pub stays_open : Bool → Option Bytes → Bool
stays_open true none = true
stays_open true (some v) = not (equal_nocase v (codes "close"))
stays_open false none = false
stays_open false (some v) = equal_nocase v (codes "keep-alive")

module _ {T : Type 0} (table : Table T) where
  unfoldable pub should_keep_alive : Option Bytes → T → Bool
  unfolding equal
  should_keep_alive version headers =
      stays_open (is_http_11 version) (table.get (codes "connection") headers)

  -- Whatever the version of the request is, one whose connection header was stored as `close` is not kept
  -- alive, and one with `keep-alive` is.
  pub should_keep_alive-put :
      (version : Option Bytes) (headers : T)
      → (should_keep_alive version (table.put (codes "connection") (codes "close") headers) ≡ false)
        × (should_keep_alive version (table.put (codes "connection") (codes "keep-alive") headers)
            ≡ true)
  unfolding should_keep_alive equal equal_nocase
  should_keep_alive-put version headers =
      let key = codes "connection" in
      (
        ap (stays_open (is_http_11 version)) (table.get-put key key (codes "close") headers)
            ∙ closed (is_http_11 version),
        ap (stays_open (is_http_11 version)) (table.get-put key key (codes "keep-alive") headers)
            ∙ kept (is_http_11 version),
      )
    where
      closed : (b : Bool) → stays_open b (some (codes "close")) ≡ false
      closed true = refl
      closed false = refl

      kept : (b : Bool) → stays_open b (some (codes "keep-alive")) ≡ true
      kept true = refl
      kept false = refl
