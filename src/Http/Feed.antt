-- ===== src/Http/Feed.antt =====
-- `http_parser_feed`, and the functions of include/http.h that make, reset and drain a parser.
pub mod Reach
pub mod Total
use nanoproxy.Prelude.{
  ℕ, zero, suc, ◌+◌, ◌-◌, Bool, true, false, ◌&&◌, ◌||◌, not, Option, none, some, [], ◌∷◌, Bytes,
  ltb, leb, ◌==◌, if◌then◌else◌, drop, length,
}
use nanoproxy.StringBuf.Heap.{Alloc}
use nanoproxy.StringBuf.{StringBuf, contents, memchr, append, init}
use nanoproxy.Http.Table.{Table}
use nanoproxy.Http.RequestLine.{trimmed_length, read_request_line}
use nanoproxy.Http.HeaderLine.{read_header_line}
use nanoproxy.Http.Framing.{end_headers}
use nanoproxy.Http.Body.{read_body}
use nanoproxy.Http.Types.{
  State, request_line, headers, body, done, error, Parser, Step, continue, return, fault, Verdict,
  failed, more, complete, parse_error, on_some, max_header_line_size,
}

-- What a call ends in: a verdict with the parser, memory that is not the program's, or no fuel.
pub data Outcome (T : Type 0) : Type 0 where
  returned : Verdict → Parser T → Outcome T
  out_of_bounds : Outcome T
  no_fuel : Outcome T

-- the tests behind the loop
unfoldable pub verdict_of : State → Verdict
verdict_of done = complete
verdict_of error = failed
verdict_of _ = more

unfoldable pub is_open : State → Bool
is_open done = false
is_open error = false
is_open _ = true

-- `http_parser_drain_body`: the bytes not yet read, and the parser that has read them
unfoldable pub drain_body : {T : Type 0} → Parser T → Option Bytes × Parser T
drain_body p =
    if p.buffer.size - p.pos == 0
    then (none, p)
    else (some (drop p.pos (contents p.buffer)), record p { pos = p.buffer.size })

module _ {T : Type 0} (a : Alloc) (table : Table T) where
  -- `http_parser_init`; the buffer that a failed `malloc` leaves is all zero
  unfoldable pub parser_init : ℕ → Parser T
  parser_init fd =
      let zeroed : StringBuf = record { mem = none; size = 0; capacity = 0; owned = false } in
      record {
        state = request_line;
        buffer = on_some (init a 0) zeroed (λ b. b);
        pos = 0;
        method = none;
        uri = none;
        version = none;
        fields = table.empty;
        req_body = none;
        content_length = 0;
        chunked = false;
        streaming_body = false;
        fd = fd;
      }

  -- `http_parser_reset`, whose frees leave nothing behind
  unfoldable pub parser_reset : Parser T → Parser T
  unfolding parser_init
  parser_reset p = parser_init p.fd

  -- `case HP_HEADERS`
  unfoldable pub read_headers : Parser T → Step T
  read_headers p = on_some (memchr p.buffer b'\n' p.pos) (return more p) (λ e.
      if ltb max_header_line_size (e - p.pos)
      then parse_error p
      else if trimmed_length (contents p.buffer) p.pos e == 0
      then end_headers table p e
      else read_header_line a table p e)

  -- one round of the loop; `none` where the fuel of a chunked body runs out
  unfoldable pub round_in : State → ℕ → Parser T → Option (Step T)
  round_in request_line buflen p = some (read_request_line a p)
  round_in headers buflen p = some (read_headers p)
  round_in body buflen p = read_body a buflen p
  round_in done buflen p = some (continue p)
  round_in error buflen p = some (continue p)

  unfoldable pub loop : ℕ → ℕ → Parser T → Outcome T
  loop zero buflen p = no_fuel
  loop (suc fuel) buflen p =
      let next : Outcome T = elim (round_in p.state buflen p) [
        | none ↦ no_fuel
        | some (continue q) ↦ loop fuel buflen q
        | some (return v q) ↦ returned v q
        | some fault ↦ out_of_bounds
      ] in
      if is_open p.state && ltb p.pos buflen then next else returned (verdict_of p.state) p

  feed_appended : Bool × StringBuf → Parser T → Outcome T
  feed_appended (false, b) p = returned failed (record p { buffer = b; state = error })
  feed_appended (true, b) p = loop (b.size - p.pos + 2) b.size (record p { buffer = b })

  -- `http_parser_feed`; `chunk` is `none` for NULL
  unfoldable pub feed : Parser T → Option Bytes → ℕ → Outcome T
  unfolding feed_appended loop round_in
  feed p chunk len =
      on_some chunk (returned failed p) (λ bs. feed_appended (append a p.buffer (some bs) len) p)
