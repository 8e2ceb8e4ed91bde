-- ===== src/Http/Types.antt =====
-- The parser's state and limits (include/http.h), and what a step of it can do.
use nanoproxy.Prelude.{
  ℕ, ◌+◌, ◌-◌, ◌*◌, ◌%◌, ◌^◌, Bool, Option, none, some, Bytes, length, take, drop, write_at,
  c_string,
}
use nanoproxy.StringBuf.Heap.{Alloc, block}
use nanoproxy.StringBuf.{StringBuf}

abbrev pub max_headers : ℕ
max_headers = 128

abbrev pub max_body_size : ℕ
max_body_size = 64 * 2 ^ 20

abbrev pub max_chunk_size : ℕ
max_chunk_size = 2 ^ 20

abbrev pub max_url_size : ℕ
max_url_size = 4096

abbrev pub max_method_size : ℕ
max_method_size = 16

abbrev pub max_http_version_size : ℕ
max_http_version_size = 8

abbrev pub max_header_name_size : ℕ
max_header_name_size = 256

abbrev pub max_header_value_size : ℕ
max_header_value_size = 4096

abbrev pub max_header_line_size : ℕ
max_header_line_size = 8192

-- `enum http_parser_state`
pub data State : Type 0 where
  request_line headers body done error : State

-- `struct http_parser` with its `struct http_request`; a NULL string or block is `none`, and
-- `body_len` is the length of the body's block.
pub record Parser (T : Type 0) : Type 0 where
  pub state : State
  pub buffer : StringBuf
  pub pos : ℕ
  pub method : Option Bytes
  pub uri : Option Bytes
  pub version : Option Bytes
  pub fields : T
  pub req_body : Option Bytes
  pub content_length : ℕ
  pub chunked : Bool
  pub streaming_body : Bool
  pub fd : ℕ

abbrev pub body_len : {T : Type 0} → Parser T → ℕ
body_len p = length (block p.req_body)

-- What `http_parser_feed` returns: -1, 0, 1 and 2.
pub data Verdict : Type 0 where
  failed more complete streaming : Verdict

-- One round of the loop: go round again, return, or run into memory that is not the program's.
pub data Step (T : Type 0) : Type 0 where
  continue : Parser T → Step T
  return : Verdict → Parser T → Step T
  fault : Step T

-- `PARSE_ERROR`
abbrev pub parse_error : {T : Type 0} → Parser T → Step T
parse_error p = return failed (record p { state = error })

-- `size_t` subtraction
abbrev pub sub_size : ℕ → ℕ → ℕ
sub_size a b = (a + 2 ^ 64 - b) % 2 ^ 64

-- the bytes of `buf` from `i` on, `n` of them
abbrev pub slice : ℕ → ℕ → Bytes → Bytes
slice i n buf = take n (drop i buf)

abbrev pub on_some {ℓ κ} : {A : Type ℓ} {B : Type κ} → Option A → B → (A → B) → B
on_some none d f = d
on_some (some x) d f = f x

-- `strndup`: the copy stops at a NUL; NULL where `malloc` fails
unfoldable pub dup : Alloc → Bytes → Option Bytes
dup a bs = on_some (a.malloc (length (c_string bs) + 1)) none (λ _. some (c_string bs))

-- `realloc` of the body and the copy behind it
unfoldable pub extend : Alloc → Option Bytes → Bytes → Option Bytes
extend a b piece =
    on_some (a.realloc b (length (block b) + length piece)) none
      (λ m. some (write_at (length (block b)) piece m))
