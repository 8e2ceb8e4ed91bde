-- ===== src/Dict/Json/Print.antt =====
-- `dict_serialize_json`. The cursor into the caller's buffer is the bytes written, beside the space
-- that remains; a step that finds no space is `none`.
pub mod Render
use nanoproxy.Prelude.{
  ℕ, zero, suc, ◌+◌, ◌-◌, ◌*◌, ◌/◌, ◌%◌, ◌^◌, Bool, true, false, ◌&&◌, ◌||◌, Option, none, some,
  List, [], ◌∷◌, ◌++◌, Bytes, codes, ltb, leb, ◌==◌, if◌then◌else◌, length, ◌>>=◌, ◌>>◌,
}
use nanoproxy.Dict.{
  DictValue, null, bool, number, int64, string, array, object, DictArray, array_end, entry,
  DictObject, object_end, pair,
}
use nanoproxy.Dict.Json.Text.{signed_decimal, Doubles}

pub record Cursor : Type 0 where
  pub written : Bytes
  pub remaining : ℕ

-- `dict_append_char`
unfoldable pub append_char : ℕ → Cursor → Option Cursor
append_char c o =
    if leb o.remaining 1
    then none
    else some (record { written = o.written ++ c ∷ []; remaining = o.remaining - 1 })

-- `dict_append_to_buffer`
unfoldable pub append_text : Bytes → Cursor → Option Cursor
unfolding append_char
append_text [] o = some o
append_text (c ∷ cs) o = append_char c o >>= append_text cs

unfoldable pub hex_digit : ℕ → ℕ
hex_digit n = if ltb n 10 then b'0' + n else b'a' + (n - 10)

-- how a byte stands in a JSON string
unfoldable pub escape : ℕ → Bytes
unfolding hex_digit
escape c =
    if c == b'"' || c == b'\\'
    then b'\\' ∷ c ∷ []
    else if c == 8
    then codes "\\b"
    else if c == 12
    then codes "\\f"
    else if c == 10
    then codes "\\n"
    else if c == 13
    then codes "\\r"
    else if c == 9
    then codes "\\t"
    else if ltb c 32
    then codes "\\u00" ++ hex_digit (c / 16) ∷ hex_digit (c % 16) ∷ []
    else c ∷ []

unfoldable pub append_escapes : Bytes → Cursor → Option Cursor
unfolding append_text escape
append_escapes [] o = some o
append_escapes (c ∷ cs) o = append_text (escape c) o >>= append_escapes cs

-- `dict_append_escaped_string`
unfoldable pub append_escaped : Bytes → Cursor → Option Cursor
unfolding append_char append_escapes
append_escaped s o = append_char b'"' o >>= append_escapes s >>= append_char b'"'

unfoldable pub append_indent : ℕ → Cursor → Option Cursor
unfolding append_text
append_indent zero o = some o
append_indent (suc level) o = append_text (codes "  ") o >>= append_indent level

-- `APPEND_NEWLINE_AND_INDENT`
unfoldable pub append_line : Bool → ℕ → Cursor → Option Cursor
unfolding append_char append_indent
append_line false level o = some o
append_line true level o = append_char 10 o >>= append_indent level

-- Does the `int64_t` fit a `double`?
abbrev pub is_safe : ℕ → Bool
is_safe w = leb w (2 ^ 53 - 1) || leb (2 ^ 64 - (2 ^ 53 - 1)) w

abbrev pub has_entries : DictArray → Bool
has_entries array_end = false
has_entries (entry v xs) = true

abbrev pub has_pairs : DictObject → Bool
has_pairs object_end = false
has_pairs (pair k v o) = true

module _ (doubles : Doubles) (pretty : Bool) where
  -- `dict_serialize_value_pretty`; `first` is `i == 0` in its loops
  unfoldable mutual
    unfolding append_char append_text append_escaped append_line signed_decimal

    pub append_value : DictValue → ℕ → Cursor → Option Cursor
    append_value null level o = append_text (codes "null") o
    append_value (bool b) level o = append_text (if b then codes "true" else codes "false") o
    append_value (number d) level o =
        if leb 64 (length (doubles.print d)) then none else append_text (doubles.print d) o
    append_value (int64 w) level o =
        if is_safe w then append_text (signed_decimal w) o else append_escaped (signed_decimal w) o
    append_value (string s) level o = append_escaped s o
    append_value (array xs) level o =
        append_char b'[' o
        >>= append_line (has_entries xs && pretty) level
        >>= append_entries xs true level
        >>= append_line (has_entries xs && pretty) level
        >>= append_char b']'
    append_value (object ps) level o =
        append_char b'{' o
        >>= append_line (has_pairs ps && pretty) level
        >>= append_pairs ps true level
        >>= append_line (has_pairs ps && pretty) level
        >>= append_char b'}'

    pub append_entries : DictArray → Bool → ℕ → Cursor → Option Cursor
    append_entries array_end first level o = some o
    append_entries (entry v xs) first level o =
        (if first then some o else (append_char b',' o >>= append_line pretty level))
        >>= append_value v (level + 1)
        >>= append_entries xs false level

    pub append_pairs : DictObject → Bool → ℕ → Cursor → Option Cursor
    append_pairs object_end first level o = some o
    append_pairs (pair k v ps) first level o =
        (if first then some o else (append_char b',' o >>= append_line pretty level))
        >>= append_escaped k
        >>= append_char b':'
        >>= (if pretty then append_char b' ' else (λ q. some q))
        >>= append_value v (level + 1)
        >>= append_pairs ps false level

  -- `dict_serialize_json` into a buffer of `buf_len` bytes: the text without its NUL, `none` for NULL
  unfoldable pub serialize_json : DictValue → ℕ → Option Bytes
  unfolding append_value
  serialize_json v buf_len =
      if buf_len == 0
      then none
      else (append_value v 0 (record { written = []; remaining = buf_len }) >>= λ o.
          if o.remaining == 0 then none else some o.written)
