-- ===== src/Http/Framing.antt =====
-- The end of the headers in `http_parser_feed`: how the length of the body is found.
pub mod Bounds
use nanoproxy.Prelude.{
  ℕ, ◌+◌, Bool, true, false, ◌&&◌, ◌||◌, not, Option, none, some, List, [], ◌∷◌, Bytes, ltb, ◌==◌,
  if◌then◌else◌, equal, codes, to_lower, c_string, map,
}
use nanoproxy.Http.Table.{Table}
use nanoproxy.Http.Strtoull.{Parsed, strtoull}
use nanoproxy.Http.Types.{
  Parser, body, done, Step, continue, return, streaming, parse_error, on_some, max_body_size,
}

abbrev pub is_empty : Bytes → Bool
is_empty [] = true
is_empty (_ ∷ _) = false

-- `strcasecmp(s, t) == 0`
unfoldable pub equal_nocase : Bytes → Bytes → Bool
unfolding equal to_lower
equal_nocase s t = equal (map to_lower s) (map to_lower t)

abbrev pub content_length_key : Bytes
content_length_key = codes "content-length"

abbrev pub transfer_encoding_key : Bytes
transfer_encoding_key = codes "transfer-encoding"

-- the test of the Content-Length value; `none` for one that is refused
unfoldable pub content_length_of : Bytes → Option ℕ
content_length_of value =
    let r = strtoull 10 value in
    if r.erange || not (is_empty r.rest) || ltb max_body_size r.value then none else some r.value

-- the step to the body, or to the end
unfoldable pub after_headers : {T : Type 0} → Parser T → Step T
after_headers p =
    if ltb 0 p.content_length || p.chunked
    then (let q = record p { state = body } in
        if p.streaming_body then return streaming q else continue q)
    else continue (record p { state = done })

module _ {T : Type 0} (table : Table T) where
  unfoldable pub end_headers : Parser T → ℕ → Step T
  unfolding content_length_of after_headers equal_nocase
  end_headers p e =
      let q = record p { pos = e + 1 } in
      elim (table.get content_length_key p.fields) [
        | some value ↦
            on_some (content_length_of value) (parse_error q)
              (λ n. after_headers (record q { content_length = n; chunked = false }))
        | none ↦ elim (table.get transfer_encoding_key p.fields) [
          | none ↦ after_headers (record q { content_length = 0 })
          | some value ↦
              if equal_nocase value (codes "chunked")
              then after_headers (record q { chunked = true; content_length = 0 })
              else after_headers (record q { content_length = 0 })
        ]
      ]
