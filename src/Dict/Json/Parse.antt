-- ===== src/Dict/Json/Parse.antt =====
-- `dict_deserialize_json`. The parser's buffer and position are the bytes from the position on. A
-- result has what is left behind it; an error has its message, where there is one, and what is left
-- from its position on. Recursion is on fuel.
pub mod Scan
pub mod Words
pub mod Total
pub mod Strings
pub mod Numbers
pub mod Valid
pub mod Steps
pub mod Leaves
pub mod Arrays
pub mod Objects
pub mod RoundTrip
use nanoproxy.Prelude.{
  ℕ, zero, suc, ◌+◌, ◌-◌, ◌*◌, ◌/◌, ◌%◌, ◌^◌, Bool, true, false, ◌&&◌, ◌||◌, Option, none, some,
  List, [], ◌∷◌, ◌++◌, Bytes, codes, ltb, leb, ◌==◌, if◌then◌else◌, length, take, drop, is_space,
  is_digit, equal,
}
use nanoproxy.Dict.{
  DictValue, null, bool, number, string, array, object, DictArray, array_end, array_append,
  DictObject, object_end, create_string, set_pairs,
}
use nanoproxy.Dict.Json.Text.{skip_number, Doubles}

-- the texts given to `dict_parser_error`
pub data Message : Type 0 where
  invalid_input trailing_data unexpected_end invalid_value : Message
  expected_quote unterminated_string end_in_escape incomplete_unicode : Message
  invalid_hex invalid_escape control_character : Message
  number_too_long invalid_number : Message
  end_in_array expected_comma_or_bracket : Message
  expected_key expected_colon insert_failed end_in_object expected_comma_or_brace : Message

pub data Parsed {ℓ} (A : Type ℓ) : Type ℓ where
  ok : A → Bytes → Parsed A
  failed : Option Message → Bytes → Parsed A
  no_fuel : Parsed A

abbrev pub bind {ℓ κ} : {A : Type ℓ} {B : Type κ} → Parsed A → (A → Bytes → Parsed B) → Parsed B
bind (ok x rest) f = f x rest
bind (failed m rest) f = failed m rest
bind no_fuel f = no_fuel

-- the rest of a line comment, and what white space and comments follow it
unfoldable mutual
  unfolding is_space

  -- `dict_parser_skip_whitespace`
  pub skip_whitespace : Bytes → Bytes
  skip_whitespace [] = []
  skip_whitespace (c ∷ cs) =
      let rest = skip_whitespace cs in
      let comment = skip_slash cs in
      if is_space c then rest else if c == b'/' then comment else c ∷ cs

  -- behind a `/`, which starts a comment or is left
  pub skip_slash : Bytes → Bytes
  skip_slash [] = b'/' ∷ []
  skip_slash (c ∷ cs) =
      let to_line = skip_line cs in
      let to_block = skip_block cs in
      if c == b'/' then to_line else if c == b'*' then to_block else b'/' ∷ c ∷ cs

  pub skip_line : Bytes → Bytes
  skip_line [] = []
  skip_line (c ∷ cs) =
      let here = skip_whitespace cs in
      let rest = skip_line cs in if c == 10 || c == 13 then here else rest

  -- Without its end, all of a block comment but the last byte is passed over.
  pub skip_block : Bytes → Bytes
  skip_block [] = []
  skip_block (c ∷ []) = if is_space c then [] else c ∷ []
  skip_block (c ∷ d ∷ cs) =
      let here = skip_whitespace cs in
      let rest = skip_block (d ∷ cs) in if c == b'*' && d == b'/' then here else rest

-- One round of the loop over the bytes of a string: a byte, the closing quote, or an error.
pub data Char : Type 0 where
  character : ℕ → Bytes → Char
  closed : Bytes → Char
  refused : Message → Bytes → Char

unfoldable pub simple_escape : ℕ → Option ℕ
simple_escape e =
    if e == b'"' || e == b'\\' || e == b'/'
    then some e
    else if e == b'b'
    then some 8
    else if e == b'f'
    then some 12
    else if e == b'n'
    then some 10
    else if e == b'r'
    then some 13
    else if e == b't'
    then some 9
    else none

unfoldable pub hex_value : ℕ → Option ℕ
hex_value h =
    if leb b'0' h && leb h b'9'
    then some (h - b'0')
    else if leb b'a' h && leb h b'f'
    then some (h - b'a' + 10)
    else if leb b'A' h && leb h b'F'
    then some (h - b'A' + 10)
    else none

-- `k` hex digits are left, and `codepoint` is read
unfoldable pub read_hex : ℕ → ℕ → Bytes → Char
unfolding hex_value
read_hex zero codepoint s = character (if leb codepoint 127 then codepoint else b'?') s
read_hex (suc k) codepoint [] = refused incomplete_unicode []
read_hex (suc k) codepoint (h ∷ s) = elim (hex_value h) [
  | none ↦ refused invalid_hex s
  | some v ↦ read_hex k (codepoint * 16 + v) s
]

unfoldable pub escaped_char : Bytes → Char
unfolding simple_escape read_hex
escaped_char [] = refused end_in_escape []
escaped_char (e ∷ s) =
    if e == b'u'
    then (if ltb (length s) 4 then refused incomplete_unicode s else read_hex 4 0 s)
    else elim (simple_escape e) [ some d ↦ character d s | none ↦ refused invalid_escape s ]

unfoldable pub next_char : Bytes → Char
unfolding escaped_char
next_char [] = refused unterminated_string []
next_char (c ∷ s) =
    if c == b'"'
    then closed s
    else if c == b'\\'
    then escaped_char s
    else if ltb c 32
    then refused control_character s
    else character c s

unfoldable pub read_chars : ℕ → Bytes → Bytes → Parsed Bytes
unfolding next_char
read_chars zero out s = no_fuel
read_chars (suc fuel) out s = elim (next_char s) [
  | character c rest ↦ read_chars fuel (out ++ c ∷ []) rest
  | closed rest ↦ ok out rest
  | refused m rest ↦ failed (some m) rest
]

-- `dict_parse_json_string`; each round takes a byte at least
unfoldable pub parse_string : Bytes → Parsed Bytes
unfolding read_chars
parse_string [] = failed (some expected_quote) []
parse_string (c ∷ s) =
    if c == b'"' then read_chars (length s + 1) [] s else failed (some expected_quote) (c ∷ s)

-- `strncmp(p, literal, len) == 0`
abbrev pub starts_with : Bytes → Bytes → Bool
starts_with literal s = equal (take (length literal) s) literal

-- what the first byte of a value says of it
pub data Lead : Type 0 where
  at_end quote brace bracket numeric other : Lead

unfoldable pub lead : Bytes → Lead
lead [] = at_end
lead (c ∷ s) =
    if c == b'"'
    then quote
    else if c == b'{'
    then brace
    else if c == b'['
    then bracket
    else if c == b'-' || is_digit c
    then numeric
    else other

-- what follows an entry, in front of the closing byte `close`
pub data Next : Type 0 where
  missing comma close wrong : Next

unfoldable pub next_in : ℕ → Bytes → Next
next_in last [] = missing
next_in last (c ∷ s) = if c == b',' then comma else if c == last then close else wrong

abbrev pub starts : ℕ → Bytes → Bool
starts b [] = false
starts b (c ∷ s) = c == b

-- `dict_parse_value` on a word
unfoldable pub parse_literal : Bytes → Parsed DictValue
unfolding equal
parse_literal s =
    if starts_with (codes "true") s
    then ok (bool true) (drop 4 s)
    else if starts_with (codes "false") s
    then ok (bool false) (drop 5 s)
    else if starts_with (codes "null") s
    then ok null (drop 4 s)
    else failed (some invalid_value) s

module _ (doubles : Doubles) where
  -- `dict_parse_number`
  unfoldable pub parse_number : Bytes → Parsed ℕ
  unfolding skip_number
  parse_number s = elim (skip_number s) [
    | none ↦ failed none s
    | some rest ↦
        let text = take (length s - length rest) s in
        if leb 64 (length text)
        then failed (some number_too_long) s
        else elim (doubles.strtod text) [
          | none ↦ failed (some invalid_number) s
          | some d ↦ ok d rest
        ]
  ]

  -- The bodies of the functions below, with the recursive calls as arguments. `dict_parse_array`
  -- behind its `[` and white space:
  unfoldable pub array_in : (Bytes → Parsed DictArray) → Bytes → Parsed DictValue
  array_in entries u = elim (starts b']' u) [
    | true ↦ ok (array array_end) (drop 1 u)
    | false ↦ bind (entries u) (λ xs rest. ok (array xs) rest)
  ]

  -- `dict_parse_object` behind its `{` and white space
  unfoldable pub object_in : (Bytes → Parsed DictObject) → Bytes → Parsed DictValue
  object_in pairs u = elim (starts b'}' u) [
    | true ↦ ok (object object_end) (drop 1 u)
    | false ↦ bind (pairs u) (λ ps rest. ok (object ps) rest)
  ]

  unfoldable pub string_in : Bytes → Parsed DictValue
  string_in t =
      bind (parse_string t)
        (λ text rest. elim (create_string text) [ none ↦ failed none rest | some v ↦ ok v rest ])

  -- `dict_parse_value` behind the white space
  unfoldable pub value_in :
      (Bytes → Parsed DictArray) → (Bytes → Parsed DictObject) → Bytes → Parsed DictValue
  unfolding array_in object_in string_in
  value_in entries pairs t = elim (lead t) [
    | at_end ↦ failed (some unexpected_end) t
    | quote ↦ string_in t
    | brace ↦ object_in pairs (skip_whitespace (skip_whitespace (drop 1 t)))
    | bracket ↦ array_in entries (skip_whitespace (skip_whitespace (drop 1 t)))
    | numeric ↦ bind (parse_number t) (λ d rest. ok (number d) rest)
    | other ↦ parse_literal t
  ]

  -- behind an item and white space, with the items so far
  unfoldable pub after_entry :
      (DictArray → Bytes → Parsed DictArray) → DictArray → Bytes → Parsed DictArray
  after_entry more xs t = elim (next_in b']' t) [
    | missing ↦ failed (some end_in_array) t
    | comma ↦ more xs (skip_whitespace (drop 1 t))
    | close ↦ ok xs (drop 1 t)
    | wrong ↦ failed (some expected_comma_or_bracket) t
  ]

  -- behind a pair and white space, with the pairs so far
  unfoldable pub after_pair :
      (DictObject → Bytes → Parsed DictObject) → DictObject → Bytes → Parsed DictObject
  after_pair more ps t = elim (next_in b'}' t) [
    | missing ↦ failed (some end_in_object) t
    | comma ↦ more ps (drop 1 t)
    | close ↦ ok ps (drop 1 t)
    | wrong ↦ failed (some expected_comma_or_brace) t
  ]

  -- the key and the value are read, the pair is put in
  unfoldable pub put_pair :
      (DictObject → Bytes → Parsed DictObject)
      → DictObject
      → Bytes
      → DictValue
      → Bytes
      → Parsed DictObject
  unfolding after_pair
  put_pair more ps key v behind = elim (set_pairs ps key v) [
    | none ↦ failed (some insert_failed) behind
    | some qs ↦ after_pair more qs (skip_whitespace behind)
  ]

  -- behind the key and white space
  unfoldable pub after_key :
      (Bytes → Parsed DictValue)
      → (DictObject → Bytes → Parsed DictObject)
      → DictObject
      → Bytes
      → Bytes
      → Parsed DictObject
  unfolding put_pair
  after_key value more ps key c = elim (starts b':' c) [
    | false ↦ failed (some expected_colon) c
    | true ↦ bind (value (skip_whitespace (drop 1 c))) (put_pair more ps key)
  ]

  -- at the start of a pair, behind white space
  unfoldable pub pair_in :
      (Bytes → Parsed DictValue)
      → (DictObject → Bytes → Parsed DictObject)
      → DictObject
      → Bytes
      → Parsed DictObject
  unfolding after_key
  pair_in value more ps k = elim (starts b'"' k) [
    | false ↦ failed (some expected_key) k
    | true ↦
        bind (parse_string k) (λ key behind. after_key value more ps key (skip_whitespace behind))
  ]

  unfoldable mutual
    -- `dict_parse_value`
    pub parse_value : ℕ → Bytes → Parsed DictValue
    parse_value zero s = no_fuel
    parse_value (suc fuel) s =
        value_in (parse_entries fuel array_end) (parse_pairs fuel object_end) (skip_whitespace s)

    -- the loop of `dict_parse_array`, with the items so far
    pub parse_entries : ℕ → DictArray → Bytes → Parsed DictArray
    parse_entries zero xs s = no_fuel
    parse_entries (suc fuel) xs s =
        bind (parse_value fuel s) (λ v behind.
          after_entry (parse_entries fuel) (array_append xs v) (skip_whitespace behind))

    -- the loop of `dict_parse_object`, with the pairs so far
    pub parse_pairs : ℕ → DictObject → Bytes → Parsed DictObject
    parse_pairs zero ps s = no_fuel
    parse_pairs (suc fuel) ps s =
        pair_in (parse_value fuel) (parse_pairs fuel) ps (skip_whitespace s)

  -- behind the value, only white space and comments may stand
  unfoldable pub finish : DictValue → Bytes → Parsed DictValue
  finish v rest = elim (skip_whitespace rest) [
    | [] ↦ ok v []
    | c ∷ s ↦ failed (some trailing_data) (c ∷ s)
  ]

  -- `dict_deserialize_json` on the first `content_len` bytes of a buffer
  unfoldable pub deserialize_json : Bytes → ℕ → Parsed DictValue
  deserialize_json buffer content_len =
      if ltb (length buffer) content_len || content_len == 0
      then failed (some invalid_input) []
      else let content = take content_len buffer in
        bind (parse_value (2 * length content + 1) (skip_whitespace content)) finish
