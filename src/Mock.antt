-- ===== src/Mock.antt =====
-- include/mock.h: the key of a request and the recording of an exchange in a file. The file is the list of its bytes;
-- writing succeeds. `atoi` is an argument. A number that may be negative is the word of a `long`.
pub mod Key
pub mod Growth
pub mod Header
pub mod Parts
pub mod Offsets
pub mod Sections
mod Tests
use nanoproxy.Prelude.{
  ℕ, zero, suc, ◌+◌, ◌-◌, ◌*◌, ◌%◌, ◌^◌, Bool, true, false, not, ◌&&◌, ◌||◌, Option, none, some,
  List, [], ◌∷◌, ◌++◌, Bytes, codes, map, ltb, leb, ◌==◌, if◌then◌else◌, length, take, drop,
  c_string, replicate, equal, is_digit,
}
use nanoproxy.Dict.Json.Text.{decimal, signed_decimal}
use nanoproxy.Dispatch.{has_prefix}

abbrev pub given_or : Option Bytes → Bytes → Bytes
given_or none d = d
given_or (some s) d = s

unfoldable pub before_query : Bytes → Bytes
before_query [] = []
before_query (c ∷ s) = let rest = before_query s in if c == b'?' then [] else c ∷ rest

unfoldable pub is_safe_char : ℕ → Bool
unfolding is_digit
is_safe_char c =
    (leb b'a' c && leb c b'z')
    || ((leb b'A' c && leb c b'Z') || (is_digit c || (c == b'_' || (c == b'-' || c == b'.'))))

unfoldable pub safe_char : ℕ → ℕ
unfolding is_safe_char
safe_char c = if is_safe_char c then c else b'_'

-- `mock_make_key`, with room for `outsz` bytes
unfoldable pub make_key : Option Bytes → Option Bytes → ℕ → Bytes
unfolding before_query safe_char
make_key method uri outsz = map safe_char (
    take (outsz - 1)
      (given_or method (codes "GET") ++ codes "_" ++ before_query (given_or uri (codes "/"))))

-- `mock_recorder_t`; the file ends where the next write goes
pub record Recorder : Type 0 where
  pub file : Bytes
  pub start_time : ℕ
  pub response_start_time : ℕ
  pub meta_offset : ℕ
  pub meta_len : ℕ
  pub request_offset : ℕ
  pub request_len : ℕ
  pub response_offset : ℕ
  pub response_len : ℕ
  pub summary_offset : ℕ
  pub summary_len : ℕ
  pub request_body_bytes : ℕ
  pub response_body_bytes : ℕ
  pub response_status : ℕ
  pub response_started : Bool

-- what is recorded of `struct http_request`
pub record Request : Type 0 where
  pub method : Option Bytes
  pub uri : Option Bytes
  pub version : Option Bytes
  pub headers : List (Bytes × Bytes)
  pub body : Bytes

abbrev pub newline : Bytes
newline = 10 ∷ []

abbrev pub line_feed : Bytes
line_feed = 13 ∷ 10 ∷ []

unfoldable pub meta_text : ℕ → Option Bytes → Bytes
meta_text now upstream_url =
    codes "---META---"
    ++ newline
    ++ codes "{\"recorded_at\":"
    ++ signed_decimal now
    ++ codes ",\"upstream\":\""
    ++ given_or upstream_url []
    ++ codes "\",\"latency_ms\":0}"
    ++ newline
    ++ newline

unfoldable pub headers_text : List (Bytes × Bytes) → Bytes
headers_text [] = []
headers_text (h ∷ hs) = h.0 ++ codes ": " ++ h.1 ++ line_feed ++ headers_text hs

unfoldable pub request_text : Request → Bytes
unfolding headers_text
request_text r =
    codes "---REQUEST---"
    ++ newline
    ++ given_or r.method (codes "GET")
    ++ codes " "
    ++ given_or r.uri (codes "/")
    ++ codes " "
    ++ given_or r.version (codes "HTTP/1.1")
    ++ line_feed
    ++ headers_text r.headers
    ++ line_feed
    ++ r.body

-- `mock_recorder_begin` behind the opening of the file: the first 256 bytes are left for the header
unfoldable pub recorder_begin : ℕ → Request → Option Bytes → Recorder
unfolding meta_text request_text
recorder_begin now r upstream_url =
    let meta = replicate 256 0 ++ meta_text now upstream_url in
    record {
      file = meta ++ request_text r;
      start_time = now;
      response_start_time = 0;
      meta_offset = 256;
      meta_len = length meta - 256;
      request_offset = length meta;
      request_len = 0;
      response_offset = 0;
      response_len = 0;
      summary_offset = 0;
      summary_len = 0;
      request_body_bytes = length r.body;
      response_body_bytes = 0;
      response_status = 0;
      response_started = false;
    }

-- `mock_recorder_append_request_body`
unfoldable pub append_request_body : Bytes → Recorder → Recorder
append_request_body b r =
    if length b == 0
    then r
    else record r { file = r.file ++ b; request_body_bytes = r.request_body_bytes + length b }

abbrev pub behind_blank : Bytes → Option Bytes
behind_blank [] = none
behind_blank (c ∷ s) = let rest = behind_blank s in if c == 32 then some s else rest

abbrev pub number_of : (Bytes → ℕ) → Option Bytes → ℕ → ℕ
number_of atoi none d = d
number_of atoi (some s) d = atoi s

unfoldable pub status_of : (Bytes → ℕ) → Bytes → ℕ → ℕ
unfolding has_prefix c_string
status_of atoi first d =
    if has_prefix (codes "HTTP/") first then number_of atoi (behind_blank (c_string first)) d else d

abbrev pub response_mark : Bytes
response_mark = newline ++ codes "---RESPONSE---" ++ newline

-- `mock_recorder_begin_response`
unfoldable pub begin_response : (Bytes → ℕ) → ℕ → Bytes → Recorder → Recorder
unfolding status_of
begin_response atoi now first r = if r.response_started then r else record r {
  file = r.file ++ response_mark ++ first;
  response_start_time = now;
  response_offset = length r.file;
  response_status =
      if length first == 0 then r.response_status else status_of atoi first r.response_status;
  response_body_bytes = r.response_body_bytes + length first;
  response_started = true;
}

-- `mock_recorder_append_response_body`
unfoldable pub append_response_body : Bytes → Recorder → Recorder
append_response_body b r =
    if not r.response_started || length b == 0
    then r
    else record r { file = r.file ++ b; response_body_bytes = r.response_body_bytes + length b }

unfoldable pub summary_text : Recorder → Bytes
summary_text r =
    let passed = 2 ^ 64 + r.response_start_time - r.start_time in
    let latency_ms = if ltb 0 r.response_start_time then passed * 1000 % 2 ^ 64 else 0 in
    newline
    ++ codes "---SUMMARY---"
    ++ newline
    ++ codes "{\"latency_ms\":"
    ++ signed_decimal latency_ms
    ++ codes ",\"request_body_bytes\":"
    ++ decimal r.request_body_bytes
    ++ codes ",\"response_status\":"
    ++ signed_decimal r.response_status
    ++ codes ",\"response_body_bytes\":"
    ++ decimal r.response_body_bytes
    ++ codes "}"
    ++ newline

unfoldable pub fields_text : List ℕ → Bytes
fields_text [] = []
fields_text (n ∷ ns) = codes "," ++ signed_decimal n ++ fields_text ns

-- `snprintf` cuts the line, and blanks fill it up
unfoldable pub padded : Bytes → Bytes
padded line = take 255 (line ++ replicate 255 32) ++ newline

unfoldable pub offsets_text : Recorder → Bytes
unfolding fields_text
offsets_text r =
    codes "MOCKv1"
    ++ fields_text (
        256 ∷ r.meta_offset ∷ r.meta_len ∷ r.request_offset ∷ r.request_len ∷ r.response_offset
        ∷ r.response_len ∷ r.summary_offset ∷ r.summary_len ∷ [])
    ++ codes ","
    ++ decimal r.request_body_bytes
    ++ codes ","
    ++ decimal r.response_body_bytes
    ++ codes ","
    ++ signed_decimal r.response_status

-- the 256 bytes at the start
unfoldable pub header_line : Recorder → Bytes
unfolding offsets_text padded
header_line r = padded (offsets_text r)

-- `mock_recorder_finish` up to the header
unfoldable pub summed : Recorder → Recorder
unfolding summary_text
summed r =
    let here = length r.file in
    record r {
      request_len =
          if r.request_len == 0 && ltb 0 r.request_offset
          then here - r.request_offset
          else r.request_len;
      response_len = if ltb 0 r.response_offset then here - r.response_offset else r.response_len;
      summary_offset = here;
      summary_len = length (summary_text r);
      file = r.file ++ summary_text r;
    }

-- `mock_recorder_finish`
unfoldable pub recorder_finish : Recorder → Recorder
unfolding summed header_line
recorder_finish r = let q = summed r in record q { file = header_line q ++ drop 256 q.file }
