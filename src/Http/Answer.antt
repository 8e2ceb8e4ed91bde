-- ===== src/Http/Answer.antt =====
-- include/http.h: `http_build_response`. Keys, values and the reason are C strings without their NUL,
-- and the headers are listed in the order of the table.
pub mod Text
pub mod Overread
use nanoproxy.Prelude.{
  ℕ, ◌+◌, ◌-◌, ◌^◌, Bool, true, false, ◌&&◌, ◌||◌, not, Option, none, some, List, [], ◌∷◌, ◌++◌,
  Bytes, codes, ltb, leb, ◌==◌, if◌then◌else◌, length, take, all, replicate, min,
}
use nanoproxy.Dict.Json.Text.{decimal}

-- `struct http_response`
pub record Response : Type 0 where
  pub status_code : ℕ
  pub reason_phrase : Option Bytes
  pub headers : List (Bytes × Bytes)
  pub body : Option Bytes
  pub body_len : ℕ

-- the bytes in the buffer, 0 for a refusal, or a read behind `header_line`
pub data Built : Type 0 where
  built : Bytes → Built
  rejected overread : Built

-- no CR and no LF
unfoldable pub is_clean : Bytes → Bool
is_clean s = all (λ c. not (c == 13 || c == 10)) s

abbrev pub line_end : Bytes
line_end = 13 ∷ 10 ∷ []

abbrev pub reason : Option Bytes → Bytes
reason none = []
reason (some s) = s

-- `%d` of an `int`, given by its word
abbrev pub signed_int : ℕ → Bytes
signed_int w = if leb (2 ^ 31) w then b'-' ∷ decimal (2 ^ 32 - w) else decimal w

-- the whole texts that the calls of `snprintf` format
unfoldable pub status_text : Response → Bytes
unfolding decimal
status_text r =
    codes "HTTP/1.1 " ++ (signed_int r.status_code ++ (b' ' ∷ (reason r.reason_phrase ++ line_end)))

unfoldable pub header_text : Bytes × Bytes → Bytes
header_text h = h.0 ++ (b':' ∷ b' ' ∷ (h.1 ++ line_end))

unfoldable pub length_text : Response → Bytes
unfolding decimal
length_text r = codes "Content-Length: " ++ (decimal r.body_len ++ line_end)

-- `memcpy` to the end of what is in the buffer, if it leaves a byte of it
unfoldable pub put_part : ℕ → Bytes → Bytes → (Bytes → Built) → Built
put_part buf_size out part more =
    if leb buf_size (length out + length part) then rejected else more (out ++ part)

-- behind the header lines
unfoldable pub put_body : ℕ → Option Bytes → ℕ → Bytes → Built
unfolding put_part
put_body buf_size none body_len out = built out
put_body buf_size (some body) body_len out =
    if body_len == 0
    then built out
    else put_part buf_size out (take body_len body) (λ whole. built whole)

unfoldable pub put_end : ℕ → Response → Bytes → Built
unfolding put_part put_body length_text
put_end buf_size r out =
    put_part buf_size out (length_text r)
      (λ lines. put_part buf_size lines line_end (put_body buf_size r.body r.body_len))

-- `header_line[512]` behind `snprintf`: the text, cut to 511 bytes, and a NUL. The bytes behind that are
-- not written; they are 0 here.
unfoldable pub line_array : Bytes → Bytes
line_array text = take 511 text ++ replicate (512 - min 511 (length text)) 0

-- `memcpy` of so many bytes out of an array; `none` reads behind it
unfoldable pub copy_out : ℕ → Bytes → Option Bytes
copy_out n array = if ltb (length array) n then none else some (take n array)

abbrev pub on_copy : Option Bytes → (Bytes → Built) → Built
on_copy none more = overread
on_copy (some part) more = more part

-- one round of the loop over the headers: what is copied is as long as the whole text
unfoldable pub put_header : ℕ → Bytes → (Bytes → Built) → Bytes → Built
unfolding line_array copy_out
put_header buf_size text more out =
    if leb buf_size (length out + length text)
    then rejected
    else on_copy (copy_out (length text) (line_array text)) (λ part. more (out ++ part))

unfoldable pub put_headers : ℕ → Response → List (Bytes × Bytes) → Bytes → Built
unfolding put_header put_end header_text is_clean
put_headers buf_size r [] out = put_end buf_size r out
put_headers buf_size r (h ∷ hs) out =
    if is_clean h.1
    then put_header buf_size (header_text h) (put_headers buf_size r hs) out
    else rejected

-- `http_build_response` into a buffer of `buf_size` bytes
unfoldable pub build_response : ℕ → Response → Built
unfolding put_part put_headers status_text is_clean
build_response buf_size r =
    if is_clean (reason r.reason_phrase)
    then put_part buf_size [] (take 63 (status_text r)) (put_headers buf_size r r.headers)
    else rejected
