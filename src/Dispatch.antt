-- ===== src/Dispatch.antt =====
-- include/request.h: `http_dispatcher`, which finds the handler of a request, and `get_mime_type`. A handler is an
-- element of any type. A table of handlers is the list of its entries in their order.
pub mod Longest
pub mod Static
pub mod Register
mod Tests
use nanoproxy.Prelude.{
  ℕ, zero, suc, Bool, true, false, not, ◌&&◌, ◌||◌, Option, none, some, List, [], ◌∷◌, Bytes, codes,
  ltb, leb, ◌==◌, ◌-◌, if◌then◌else◌, length, take, drop, get_or, equal,
}
use nanoproxy.Http.Framing.{equal_nocase}

-- `strncmp(s, prefix, strlen(prefix)) == 0`
unfoldable pub has_prefix : Bytes → Bytes → Bool
unfolding equal
has_prefix prefix s = equal (take (length prefix) s) prefix

-- the last byte of a key; no byte stands in front of an empty one, which is never chosen
abbrev pub ends_slash : Bytes → Bool
ends_slash key = get_or (drop (length key - 1) key) 0 0 == b'/'

-- the match of a handler that one listener has
unfoldable pub base_match : Bytes → Bytes → Bool
unfolding has_prefix equal
base_match uri key = if ends_slash key then has_prefix key uri else equal uri key

unfoldable pub at_boundary : ℕ → Bool
at_boundary c = c == b'/' || (c == b'?' || c == 0)

-- the match of a handler for all listeners; the byte at the end of the text is its NUL
unfoldable pub global_match : Bytes → Bytes → Bool
unfolding has_prefix at_boundary
global_match uri key =
    if ends_slash key
    then has_prefix key uri
    else has_prefix key uri && at_boundary (get_or uri (length key) 0)

-- `best_len`, and `best_key` with `best_h`
pub record Best (H : Type 0) : Type 0 where
  pub len : ℕ
  pub found : Option (Bytes × H)

module _ {H : Type 0} where
  abbrev pub no_best : Best H
  no_best = record { len = 0; found = none }

  abbrev pub better : (Bytes → Bool) → Bytes × H → Best H → Best H
  better matches e b =
      if matches e.0 && ltb b.len (length e.0)
      then record { len = length e.0; found = some e }
      else b

  -- a loop over the entries of a table
  unfoldable pub scan_entries : (Bytes → Bool) → List (Bytes × H) → Best H → Best H
  scan_entries matches [] b = b
  scan_entries matches (e ∷ es) b = scan_entries matches es (better matches e b)

  abbrev pub entries_of : Option (List (Bytes × H)) → List (Bytes × H)
  entries_of none = []
  entries_of (some es) = es

  -- the choice of `http_dispatcher`; `none` goes to `default_http_handler`
  unfoldable pub choose_handler : Bytes → Option (List (Bytes × H)) → List (Bytes × H) → Best H
  unfolding scan_entries base_match global_match
  choose_handler uri base globals =
      scan_entries (global_match uri) globals
        (scan_entries (base_match uri) (entries_of base) no_best)

-- what becomes of the connection behind the handler
pub data After : Type 0 where
  left_alone parser_reset closed : After

unfoldable pub after_handler : Bool → Bool → Bool → ℕ → After
after_handler proxy_active keep_alive sending_body send_remaining =
    if proxy_active
    then left_alone
    else if keep_alive
    then parser_reset
    else if not sending_body || send_remaining == 0
    then closed
    else left_alone

abbrev pub mimes : List (Bytes × Bytes)
mimes =
    (codes ".html", codes "text/html")
    ∷ (codes ".htm", codes "text/html")
    ∷ (codes ".css", codes "text/css")
    ∷ (codes ".js", codes "application/javascript")
    ∷ (codes ".json", codes "application/json")
    ∷ (codes ".png", codes "image/png")
    ∷ (codes ".jpg", codes "image/jpeg")
    ∷ (codes ".jpeg", codes "image/jpeg")
    ∷ (codes ".gif", codes "image/gif")
    ∷ (codes ".svg", codes "image/svg+xml")
    ∷ (codes ".txt", codes "text/plain")
    ∷ (codes ".mp4", codes "video/mp4")
    ∷ []

unfoldable pub has_extension : Bytes → Bytes → Bool
unfolding equal_nocase
has_extension path ext =
    leb (length ext) (length path) && equal_nocase (drop (length path - length ext) path) ext

unfoldable pub mime_in : List (Bytes × Bytes) → Bytes → Bytes
unfolding has_extension
mime_in [] path = codes "application/octet-stream"
mime_in (m ∷ ms) path = let rest = mime_in ms path in if has_extension path m.0 then m.1 else rest

unfoldable pub get_mime_type : Bytes → Bytes
unfolding mime_in
get_mime_type path = mime_in mimes path

-- `is_compressible_mime`
unfoldable pub is_compressible_mime : Bytes → Bool
unfolding has_prefix equal
is_compressible_mime mime =
    has_prefix (codes "text/") mime
    || (equal mime (codes "application/javascript")
        || (equal mime (codes "application/json")
            || (equal mime (codes "application/xml") || equal mime (codes "image/svg+xml"))))
