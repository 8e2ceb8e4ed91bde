-- ===== src/Http/Body.antt =====
-- `case HP_BODY` of `http_parser_feed`. `buflen` is the local variable that holds the size of the
-- buffer as it was before the loop.
pub mod Bounds
pub mod Whole
use nanoproxy.Prelude.{
  ℕ, zero, suc, ◌+◌, ◌-◌, Bool, true, false, ◌&&◌, ◌||◌, not, Option, none, some, [], ◌∷◌, Bytes,
  ltb, leb, ◌==◌, if◌then◌else◌, get_or, is_hex_digit, c_string, all, take,
}
use nanoproxy.StringBuf.Heap.{Alloc}
use nanoproxy.StringBuf.{contents, memchr, consume}
use nanoproxy.Http.RequestLine.{trimmed_length}
use nanoproxy.Http.Strtoull.{strtoull}
use nanoproxy.Http.Framing.{is_empty}
use nanoproxy.Http.Types.{
  Parser, body_len, body, done, Step, continue, return, fault, more, parse_error, sub_size, slice,
  on_some, extend, max_body_size, max_chunk_size,
}

-- the bytes before the first `;`
unfoldable pub before_semicolon : Bytes → Bytes
before_semicolon [] = []
before_semicolon (c ∷ cs) = let rest = before_semicolon cs in if c == b';' then [] else c ∷ rest

-- The size that a chunk line gives, where `line` is its bytes without the end of the line and
-- `have` the body so far; `none` for a line that is refused.
unfoldable pub chunk_size_of : Bytes → ℕ → Option ℕ
chunk_size_of line have =
    let digits = before_semicolon (c_string line) in
    if not (all is_hex_digit digits)
    then none
    else let r = strtoull 16 digits in
      if r.erange
        || not (is_empty r.rest)
        || ltb max_chunk_size r.value
        || ltb (max_body_size - r.value) have
      then none
      else some r.value

-- The inner loop of a chunked body goes round again, falls out of the loop, or returns.
pub data Chunked (T : Type 0) : Type 0 where
  again : Parser T → Chunked T
  leave : Parser T → Chunked T
  exit : Step T → Chunked T

-- `stringbuf_consume` behind the body, where bytes are left in front of `buflen`
unfoldable pub shift_rest : {T : Type 0} → ℕ → Parser T → Step T
shift_rest buflen p =
    if ltb 0 p.pos && ltb p.pos buflen
    then continue (record p { buffer = consume p.buffer p.pos; pos = 0 })
    else continue p

module _ {T : Type 0} (a : Alloc) where
  -- `content_length == 0`: a chunk-size line is read
  chunk_line : Parser T → Chunked T
  chunk_line p = on_some (memchr p.buffer b'\n' p.pos) (exit (return more p)) (λ e.
      let n = trimmed_length (contents p.buffer) p.pos e in
      if n == 0 || leb 32 n
      then exit (parse_error p)
      else on_some (chunk_size_of (slice p.pos n (contents p.buffer)) (body_len p))
          (exit (parse_error p))
          (λ size.
            if size == 0
            then leave (record p { content_length = size; state = done; pos = e + 1 })
            else again (record p { content_length = size; pos = e + 1 })))

  -- otherwise the bytes of a chunk and its CRLF
  chunk_data : ℕ → Parser T → Chunked T
  chunk_data buflen p =
      let avail = buflen - p.pos in
      let buf = contents p.buffer in
      if ltb avail (p.content_length + 2)
      then exit (return more p)
      else if not (
          get_or buf (p.pos + p.content_length) 0 == b'\r'
          && get_or buf (p.pos + p.content_length + 1) 0 == b'\n')
      then exit (parse_error p)
      else let n = if ltb p.content_length (avail - 2) then p.content_length else avail - 2 in
        on_some (extend a p.req_body (slice p.pos n buf)) (exit (parse_error p))
          (λ b. again (record p { req_body = some b; pos = p.pos + n + 2; content_length = 0 }))

  unfoldable pub chunk_round : ℕ → Parser T → Chunked T
  unfolding chunk_line chunk_data
  chunk_round buflen p = if p.content_length == 0 then chunk_line p else chunk_data buflen p

  -- `while (pos < buflen)` on fuel; `none` where that runs out
  unfoldable pub chunk_loop : ℕ → ℕ → Parser T → Option (Step T)
  chunk_loop zero buflen p = none
  chunk_loop (suc fuel) buflen p =
      let round : Option (Step T) = elim (chunk_round buflen p) [
        | again q ↦ chunk_loop fuel buflen q
        | leave q ↦ some (shift_rest buflen q)
        | exit s ↦ some s
      ] in
      if ltb p.pos buflen then round else some (shift_rest buflen p)

  -- the branch for a body of known length
  unfoldable pub read_plain : ℕ → Parser T → Step T
  unfolding shift_rest
  read_plain buflen p =
      let remaining = sub_size p.content_length (body_len p) in
      let avail = buflen - p.pos in
      if avail == 0
      then return more p
      else let n = if ltb remaining avail then remaining else avail in
        if ltb max_body_size n || ltb (max_body_size - n) (body_len p)
        then parse_error p
        else on_some (extend a p.req_body (slice p.pos n (contents p.buffer))) (parse_error p) (λ b.
          let q = record p { req_body = some b; pos = p.pos + n } in
          shift_rest buflen
            (if body_len q == p.content_length then record q { state = done } else q))

  unfoldable pub read_body : ℕ → Parser T → Option (Step T)
  unfolding read_plain chunk_loop chunk_round
  read_body buflen p =
      if not p.chunked then some (read_plain buflen p) else chunk_loop (buflen - p.pos + 1) buflen p
