-- ===== src/Http/RequestLine.antt =====
-- `case HP_REQUEST_LINE` of `http_parser_feed`.
pub mod Bounds
pub mod Accepts
use nanoproxy.Prelude.{
  ℕ, ◌+◌, ◌-◌, Bool, true, false, ◌&&◌, ◌||◌, Option, none, some, [], ◌∷◌, Bytes, ltb, ◌==◌,
  if◌then◌else◌, get_or,
}
use nanoproxy.StringBuf.Heap.{Alloc}
use nanoproxy.StringBuf.{contents, memchr, find}
use nanoproxy.Http.Types.{
  Parser, headers, Step, continue, return, more, parse_error, sub_size, slice, on_some, dup,
  max_header_line_size, max_method_size, max_url_size, max_http_version_size,
}

-- the length of the line that ends at `e`, less a CR before the LF
abbrev pub trimmed_length : Bytes → ℕ → ℕ → ℕ
trimmed_length buf pos e =
    if ltb 0 e && get_or buf (e - 1) 0 == b'\r' then sub_size (e - pos) 1 else e - pos

module _ {T : Type 0} (a : Alloc) where
  -- from the second space on
  version_part : Parser T → ℕ → ℕ → ℕ → Step T
  version_part p e line_len space2 =
      let n = sub_size (p.pos + line_len) (space2 + 1) in
      if n == 0 || ltb max_http_version_size n
      then parse_error p
      else let v = dup a (slice (space2 + 1) n (contents p.buffer)) in
        on_some v (parse_error (record p { version = none }))
          (λ s. continue (record p { version = some s; pos = e + 1; state = headers }))

  -- from the first space on
  uri_part : Parser T → ℕ → ℕ → ℕ → Step T
  uri_part p e line_len space1 =
      on_some (find p.buffer (space1 + 1) (b' ' ∷ [])) (parse_error p) (λ space2.
        let n = space2 - (space1 + 1) in
        if n == 0 || ltb max_url_size n
        then parse_error p
        else let u = dup a (slice (space1 + 1) n (contents p.buffer)) in
          on_some u (parse_error (record p { uri = none }))
            (λ s. version_part (record p { uri = some s }) e line_len space2))

  method_part : Parser T → ℕ → ℕ → Step T
  method_part p e line_len = on_some (find p.buffer p.pos (b' ' ∷ [])) (parse_error p) (λ space1.
      let n = space1 - p.pos in
      if n == 0 || ltb max_method_size n
      then parse_error p
      else let m = dup a (slice p.pos n (contents p.buffer)) in
        on_some m (parse_error (record p { method = none }))
          (λ s. uri_part (record p { method = some s }) e line_len space1))

  unfoldable pub read_request_line : Parser T → Step T
  unfolding method_part uri_part version_part
  read_request_line p = on_some (memchr p.buffer b'\n' p.pos) (return more p) (λ e.
      if ltb max_header_line_size (e - p.pos)
      then parse_error p
      else method_part p e (trimmed_length (contents p.buffer) p.pos e))
