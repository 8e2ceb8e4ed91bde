-- ===== src/Proxy/Response.antt =====
-- The head of an upstream response: `proxy_header_value`, `ci_str_contains` and what
-- `proxy_relay_upstream_keepalive` reads from the head and makes of it. `atol` is an argument: its answer is the word
-- of a `long`.
pub mod Lines
use nanoproxy.Prelude.{
  ℕ, zero, suc, ◌+◌, ◌-◌, Bool, true, false, not, ◌&&◌, ◌||◌, Option, none, some, [], ◌∷◌, ◌++◌,
  Bytes, codes, map, ltb, leb, ◌==◌, if◌then◌else◌, length, take, drop, get_or, equal, to_lower,
}
use nanoproxy.Http.Framing.{equal_nocase, is_empty}
use nanoproxy.StringBuf.{is_negative}

abbrev pub crlf : Bytes
crlf = 13 ∷ 10 ∷ []

-- `strstr`: the offset of the first match
unfoldable pub strstr : Bytes → Bytes → Option ℕ
unfolding equal
strstr [] needle = if is_empty needle then some 0 else none
strstr (c ∷ hay) needle =
    let later = map_suc (strstr hay needle) in
    if equal (take (length needle) (c ∷ hay)) needle then some 0 else later
  where
    map_suc : Option ℕ → Option ℕ
    map_suc none = none
    map_suc (some i) = some (suc i)

-- `strncasecmp(s, name, strlen(name)) == 0`
unfoldable pub starts_nocase : Bytes → Bytes → Bool
unfolding equal_nocase
starts_nocase s name = equal_nocase (take (length name) s) name

unfoldable pub skip_blanks : Bytes → Bytes
skip_blanks [] = []
skip_blanks (c ∷ s) = let rest = skip_blanks s in if c == 32 then rest else c ∷ s

unfoldable pub until_eol : Bytes → Bytes
until_eol [] = []
until_eol (c ∷ s) = let rest = until_eol s in if c == 13 || c == 10 then [] else c ∷ rest

-- the value behind the name and the colon, where a line starts with them
unfoldable pub value_here : Bytes → ℕ → Bytes → Option Bytes
unfolding starts_nocase skip_blanks until_eol
value_here name size s =
    if ltb (length name) (length s) && starts_nocase s name && get_or s (length name) 0 == b':'
    then some (take (size - 1) (until_eol (skip_blanks (drop (length name + 1) s))))
    else none

-- `proxy_header_value` from a place on, which is the start of a line or not
unfoldable pub header_value : Bytes → ℕ → Bool → Bytes → Option Bytes
unfolding value_here
header_value name size line_start [] = none
header_value name size line_start (c ∷ s) =
    let later = header_value name size (c == 10) s in
    or_later (if line_start then value_here name size (c ∷ s) else none) later
  where
    or_later : Option Bytes → Option Bytes → Option Bytes
    or_later none o = o
    or_later (some v) o = some v

unfoldable pub contains_from : Bytes → Bytes → Bool
unfolding starts_nocase
contains_from [] needle = false
contains_from (c ∷ hay) needle =
    let later = contains_from hay needle in starts_nocase (c ∷ hay) needle || later

-- `ci_str_contains`
unfoldable pub ci_str_contains : Bytes → Bytes → Bool
unfolding contains_from
ci_str_contains hay needle = not (is_empty needle) && contains_from hay needle

-- the framing of the response: the length, -1 if there is none, and the two headers that forbid the pool
pub record Framing : Type 0 where
  pub content_length : ℕ
  pub chunked : Bool
  pub conn_close : Bool

abbrev pub no_length : ℕ
no_length = 18446744073709551615

unfoldable pub framing : (Bytes → ℕ) → Bytes → Framing
unfolding header_value ci_str_contains equal_nocase
framing atol head = record {
  content_length = number (header_value (codes "Content-Length") 64 true head);
  chunked =
      tells (λ v. ci_str_contains v (codes "chunked"))
        (header_value (codes "Transfer-Encoding") 64 true head);
  conn_close =
      tells (λ v. equal_nocase v (codes "close")) (header_value (codes "Connection") 64 true head);
}
  where
    number : Option Bytes → ℕ
    number none = no_length
    number (some v) = atol v

    tells : (Bytes → Bool) → Option Bytes → Bool
    tells f none = false
    tells f (some v) = f v

unfoldable pub is_poolable : Bool → Framing → Bool
is_poolable keepalive_enabled f =
    keepalive_enabled && not f.chunked && not (is_negative f.content_length) && not f.conn_close

-- the line that a CR LF ends, and what is behind it
abbrev pub line_of : Bytes → Bytes
line_of [] = []
line_of (c ∷ s) = let rest = line_of s in if c == 13 && get_or s 0 0 == 10 then [] else c ∷ rest

abbrev pub behind_line : Bytes → Bytes
behind_line [] = []
behind_line (c ∷ s) =
    let rest = behind_line s in if c == 13 && get_or s 0 0 == 10 then drop 1 s else rest

-- a line of the head goes on to the client unless it is the Connection header or empty; the first always does
unfoldable pub line_kept : Bool → Bytes → Bytes
unfolding starts_nocase
line_kept is_first line =
    if is_first
    then line ++ crlf
    else if leb 11 (length line) && starts_nocase line (codes "Connection:")
    then []
    else if is_empty line
    then []
    else line ++ crlf

-- the loop over the lines
unfoldable pub relined : ℕ → Bool → Bytes → Bytes
unfolding line_kept
relined fuel is_first [] = []
relined zero is_first s = []
relined (suc fuel) is_first (c ∷ s) =
    line_kept is_first (line_of (c ∷ s)) ++ relined fuel false (behind_line (c ∷ s))

unfoldable pub connection_line : Bool → Bytes
connection_line final_ka =
    codes "Connection: " ++ (if final_ka then codes "keep-alive" else codes "close") ++ crlf ++ crlf

-- the head that the client gets, from the upstream's without its last CR LF
unfoldable pub rebuilt_head : Bool → Bytes → Bytes
unfolding relined connection_line
rebuilt_head final_ka block = relined (length block) true block ++ connection_line final_ka
