-- ===== src/Http/HeaderLine.antt =====
-- `case HP_HEADERS` of `http_parser_feed`, for a line that is not empty.
pub mod Key
pub mod Bounds
use nanoproxy.Prelude.{
  ℕ, zero, suc, ◌+◌, ◌-◌, Bool, true, false, ◌&&◌, ◌||◌, Option, none, some, [], ◌∷◌, ◌++◌, Bytes,
  ltb, ◌==◌, if◌then◌else◌, get_or, is_space, to_lower, c_string, length, drop, map,
}
use nanoproxy.StringBuf.Heap.{Alloc}
use nanoproxy.StringBuf.{contents, memchr}
use nanoproxy.Http.Table.{Table}
use nanoproxy.Http.Types.{
  Parser, Step, continue, fault, parse_error, sub_size, slice, on_some, dup, max_headers,
  max_header_name_size, max_header_value_size,
}

-- `while (s < e && isspace(buf[s])) ++s`, with `k` rounds at most
unfoldable pub trim_start : Bytes → ℕ → ℕ → ℕ
trim_start buf zero s = s
trim_start buf (suc k) s =
    let rest = trim_start buf k (s + 1) in if is_space (get_or buf s 0) then rest else s

-- `while (e > s && isspace(buf[e - 1])) --e`
unfoldable pub trim_end : Bytes → ℕ → ℕ → ℕ
trim_end buf s zero = zero
trim_end buf s (suc e) =
    let rest = trim_end buf s e in
    if ltb s (suc e) && is_space (get_or buf e 0) then rest else suc e

-- `for (k = 0; k < n; k++) key[k] = tolower(key[k])` over the block of the key, whose last byte
-- is its NUL; `none` where the loop leaves the block
unfoldable pub lower_key : ℕ → Bytes → Option Bytes
lower_key zero block = some block
lower_key (suc n) [] = none
lower_key (suc n) (c ∷ cs) = on_some (lower_key n cs) none (λ r. some (to_lower c ∷ r))

module _ {T : Type 0} (a : Alloc) (table : Table T) where
  store_header : Parser T → ℕ → Bytes → Bytes → Step T
  store_header p e key value =
      let q = record p { fields = table.put key value p.fields } in
      if ltb max_headers (table.len q.fields)
      then parse_error q
      else continue (record q { pos = e + 1 })

  value_part : Parser T → ℕ → ℕ → Bytes → Step T
  value_part p e colon key =
      let buf = contents p.buffer in
      let start = trim_start buf (e - (colon + 1)) (colon + 1) in
      let n = sub_size (trim_end buf start e) start in
      if ltb max_header_value_size n
      then parse_error p
      else on_some (dup a (slice start n buf)) (parse_error p) (λ v. store_header p e key v)

  -- the header line that ends at `e`
  unfoldable pub read_header_line : Parser T → ℕ → Step T
  unfolding value_part store_header
  read_header_line p e = on_some (memchr p.buffer b':' p.pos) (parse_error p) (λ colon.
      let buf = contents p.buffer in
      let start = trim_start buf (colon - p.pos) p.pos in
      let n = trim_end buf start colon - start in
      if n == 0 || ltb max_header_name_size n
      then parse_error p
      else on_some (dup a (slice start n buf)) (parse_error p) (λ k.
        on_some (lower_key n (k ++ 0 ∷ [])) fault (λ low. value_part p e colon (c_string low))))
