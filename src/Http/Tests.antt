-- ===== src/Http/Tests.antt =====
-- Runs of the parser, and the instances of its theorems.
use nanoproxy.Prelude.{
  ◌+◌, ◌≤◌, ◌<◌, ◌≡◌, ◌↔◌, refl, true, false, none, some, [], ◌∷◌, ◌++◌, Bytes, arith, codes,
  length, take, replicate, c_string, is_space, to_lower, equal, ltb, ◌&&◌, if◌then◌else◌,
}
use nanoproxy.Samples.{heap, assoc, malloc_succeeds, Fields, put, get}
use nanoproxy.StringBuf.{append, reserve, init, memchr, find, consume}
use nanoproxy.Http.Types.{
  State, request_line, headers, done, Parser, body_len, complete, continue, fault, dup, extend,
  max_body_size, max_headers, max_method_size, max_url_size, max_http_version_size,
}
use nanoproxy.Http.Inv.{Short, BodyWhole}
use nanoproxy.Http.RequestLine.{read_request_line}
use nanoproxy.Http.RequestLine.Accepts.{
  is_plain, request_text, line_end, read_request_line-request_text,
}
use nanoproxy.Http.HeaderLine.{read_header_line, trim_start, trim_end, lower_key}
use nanoproxy.Http.HeaderLine.Key.{name_length, header_name, read_header_line-fault_iff}
use nanoproxy.Http.Answer.{
  Response, built, rejected, overread, is_clean, reason, status_text, header_text, build_response,
}
use nanoproxy.Http.Answer.Text.{AreShort, are_clean, response_text, build_response-response_text}
use nanoproxy.Http.Answer.Overread.{HasLongLine, build_response-overread_iff}
use nanoproxy.Http.KeepAlive.{should_keep_alive, should_keep_alive-put}
use nanoproxy.Http.Strtoull.{strtoull}
use nanoproxy.Http.Framing.{end_headers}
use nanoproxy.Http.Body.{read_body, chunk_size_of, before_semicolon}
use nanoproxy.Http.Feed.{Outcome, returned, parser_init, feed, read_headers, is_open, verdict_of}
use nanoproxy.Http.Feed.Total.{Ended, feed-Ended}
use nanoproxy.Http.Feed.Reach.{fresh, fed, Reach-Inv, Reach-done}

abbrev start : Parser Fields
start = parser_init heap assoc 7

abbrev text : Bytes
text =
    codes "POST /a HTTP/1.1"
    ++ 13 ∷ 10 ∷ (codes "content-length:2" ++ 13 ∷ 10 ∷ 13 ∷ 10 ∷ codes "ok")

run : Bytes → Outcome Fields
unfolding feed append reserve is_open verdict_of parser_init init read_request_line memchr find dup
    read_headers read_header_line trim_start trim_end lower_key c_string is_space to_lower put get
    equal end_headers strtoull read_body chunk_size_of before_semicolon extend consume
run bs = feed heap assoc (parser_init heap assoc 7) (some bs) (length bs)

abbrev parser_of : Outcome Fields → Parser Fields
parser_of (returned v q) = q
parser_of _ = start

got : Parser Fields
unfolding run
got = parser_of (run text)

run-text : run text ≡ returned complete got
unfolding got
run-text = refl

run-text-feed : feed heap assoc start (some text) (length text) ≡ returned complete got
unfolding got
run-text-feed = refl

got_state : got.state ≡ done
unfolding got
got_state = refl

-- a parser in the middle of its headers, or at the start, with these bytes in its buffer
abbrev holding : State → Bytes → Parser Fields
holding st bs = record {
  state = st;
  buffer = record {
    mem = some (bs ++ 0 ∷ []);
    size = length bs;
    capacity = length bs + 1;
    owned = true;
  };
  pos = 0;
  method = none;
  uri = none;
  version = none;
  fields = [];
  req_body = none;
  content_length = 0;
  chunked = false;
  streaming_body = false;
  fd = 7;
}

-- a header named `a`, NUL, `b`, `c`
abbrev with_nul : Parser Fields
with_nul = holding headers (97 ∷ 0 ∷ 98 ∷ 99 ∷ codes ":v" ++ 13 ∷ 10 ∷ [])

abbrev get_line : Parser Fields
get_line = holding request_line (request_text (codes "GET") (codes "/") (codes "HTTP/1.1") [])

feed-Ended_example : Ended heap assoc (feed heap assoc start (some text) 39)
feed-Ended_example =
    feed-Ended heap assoc start text 39 (Reach-Inv heap assoc (fresh 7)) (omega arith)

Reach-done_example :
    Short max_method_size got.method
    × Short max_url_size got.uri
    × Short max_http_version_size got.version
    × (assoc.len got.fields ≤ max_headers)
    × (body_len got ≤ max_body_size)
    × BodyWhole got.chunked (body_len got) got.content_length
Reach-done_example =
    Reach-done heap assoc (fed text (length text) (fresh 7) (omega arith) run-text-feed) got_state

with_nul_colon : memchr with_nul.buffer b':' 0 ≡ some 4
unfolding memchr
with_nul_colon = refl

with_nul_length : name_length with_nul 4 ≡ 4
unfolding trim_start trim_end is_space
with_nul_length = refl

with_nul_copy : dup heap (header_name with_nul 4) ≡ some (97 ∷ [])
unfolding dup c_string trim_start trim_end is_space
with_nul_copy = refl

read_header_line-fault_iff_example :
    (read_header_line heap assoc with_nul 7 ≡ fault)
    ↔ (length (c_string (header_name with_nul 4)) + 1 < name_length with_nul 4)
read_header_line-fault_iff_example =
    read_header_line-fault_iff heap assoc with_nul 7 4 (97 ∷ []) with_nul_colon
      (omega (arith, with_nul_length)) (omega (arith, with_nul_length)) with_nul_copy

with_nul_faults : read_header_line heap assoc with_nul 7 ≡ fault
unfolding read_header_line memchr dup c_string trim_start trim_end is_space lower_key
with_nul_faults = refl

read_request_line-request_text_example :
    read_request_line heap get_line
    ≡ continue (record get_line {
      method = some (codes "GET");
      uri = some (codes "/");
      version = some (codes "HTTP/1.1");
      pos = line_end (codes "GET") (codes "/") (codes "HTTP/1.1") + 1;
      state = headers;
    })
unfolding is_plain
read_request_line-request_text_example =
    read_request_line-request_text heap get_line (codes "GET") (codes "/") (codes "HTTP/1.1") []
      (record { held = (refl, omega arith, refl); small = omega arith }) refl refl malloc_succeeds
      (refl, omega arith, omega arith) (refl, omega arith, omega arith)
      (refl, omega arith, omega arith)

abbrev not_found : Response
not_found = record {
  status_code = 404;
  reason_phrase = some (codes "Not Found");
  headers = (codes "Server", codes "nanoproxy") ∷ [];
  body = none;
  body_len = 0;
}

not_found-built :
    build_response 100 not_found
    ≡ built (codes "HTTP/1.1 404 Not Found\r\nServer: nanoproxy\r\nContent-Length: 0\r\n\r\n")
unfolding build_response
not_found-built = refl

build_response-response_text_example : build_response 100 not_found ≡ (
    if is_clean (codes "Not Found")
      && are_clean not_found.headers
      && ltb (length (response_text not_found)) 100
    then built (response_text not_found)
    else rejected)
unfolding status_text header_text AreShort
build_response-response_text_example =
    build_response-response_text not_found 100 (omega arith) (omega arith, tt)

should_keep_alive-put_case :
    (should_keep_alive assoc none (put (codes "connection") (codes "close") []) ≡ false)
    × (should_keep_alive assoc none (put (codes "connection") (codes "keep-alive") []) ≡ true)
should_keep_alive-put_case = should_keep_alive-put assoc none []

abbrev long_line : Response
long_line = record {
  status_code = 200;
  reason_phrase = none;
  headers = (codes "A", replicate 600 b'a') ∷ [];
  body = none;
  body_len = 0;
}

build_response-overread_iff_example : (build_response 1000 long_line ≡ overread) ↔ (
    (is_clean (reason long_line.reason_phrase) ≡ true)
    × HasLongLine 1000 (length (take 63 (status_text long_line))) long_line.headers)
build_response-overread_iff_example = build_response-overread_iff long_line 1000

reads_behind : build_response 1000 long_line ≡ overread
unfolding build_response
reads_behind = refl
