-- ===== src/Dict/Bson.antt =====
-- include/dict.h: BSON. A write gives the bytes that it puts from the position on, given how many the
-- buffer has; a read works on the bytes from the position to the end of the enclosing document.
pub mod Encode
pub mod Decode
pub mod RoundTrip
use nanoproxy.Prelude.{
  ℕ, zero, suc, ◌+◌, ◌-◌, ◌*◌, ◌/◌, ◌%◌, ◌^◌, Bool, true, false, ◌&&◌, ◌||◌, Option, none, some,
  List, [], ◌∷◌, ◌++◌, Bytes, ltb, leb, ◌==◌, if◌then◌else◌, length, take, drop, ◌>>=◌,
}
use nanoproxy.Dict.{
  DictValue, null, bool, number, int64, string, array, object, DictArray, array_end, entry,
  array_append, DictObject, object_end, pair, create_string, object_set,
}
use nanoproxy.Dict.Json.Text.{decimal}

-- the low `n` bytes of a word, the lowest first: `bson_write_int32_le` for 4, `bson_write_int64_le` for 8
unfoldable pub write_le : ℕ → ℕ → Bytes
write_le zero w = []
write_le (suc n) w = w % 256 ∷ write_le n (w / 256)

-- the word of `n` bytes in front, with what is behind it; `none` where there are fewer
unfoldable pub read_le : ℕ → Bytes → Option (ℕ × Bytes)
read_le zero s = some (0, s)
read_le (suc n) [] = none
read_le (suc n) (c ∷ cs) = read_le n cs >>= λ r. some (c + 256 * r.0, r.1)

-- `BSON_TYPE_DOUBLE` and the others
abbrev pub type_byte : DictValue → ℕ
type_byte null = 10
type_byte (bool b) = 8
type_byte (number d) = 1
type_byte (int64 w) = 18
type_byte (string s) = 2
type_byte (array xs) = 4
type_byte (object ps) = 3

-- the writes of one round of the loop of `bson_serialize_document`, from `pos` on
unfoldable pub write_item :
    ℕ → Bytes → (ℕ → Option Bytes) → (ℕ → Option Bytes) → ℕ → ℕ → Option Bytes
write_item tag key value more pos buf_len =
    if leb buf_len (pos + 1)
    then none
    else if leb buf_len (pos + 1 + length key + 1)
    then none
    else (value (buf_len - (pos + 1 + length key + 1)) >>= λ written.
        more (pos + 1 + length key + 1 + length written) >>= λ rest.
        some (tag ∷ (key ++ (0 ∷ (written ++ rest)))))

-- the terminator
abbrev pub write_end : ℕ → ℕ → Option Bytes
write_end pos buf_len = if leb buf_len pos then none else some (0 ∷ [])

-- the length, 4 bytes in front
abbrev pub write_length : Bytes → Bytes
write_length items = write_le 4 ((4 + length items) % 2 ^ 32) ++ items

unfoldable mutual
  unfolding write_le write_item decimal

  -- `bson_serialize_value`
  pub serialize_value : DictValue → ℕ → Option Bytes
  serialize_value null buf_len = some []
  serialize_value (bool b) buf_len =
      if ltb buf_len 1 then none else some ((if b then 1 else 0) ∷ [])
  serialize_value (number d) buf_len = if ltb buf_len 8 then none else some (write_le 8 d)
  serialize_value (int64 w) buf_len = if ltb buf_len 8 then none else some (write_le 8 w)
  serialize_value (string s) buf_len =
      if ltb buf_len (4 + length s + 1)
      then none
      else some (write_le 4 ((length s + 1) % 2 ^ 32) ++ (s ++ (0 ∷ [])))
  serialize_value (array xs) buf_len =
      serialize_entries xs 0 4 buf_len >>= λ items. some (write_length items)
  serialize_value (object ps) buf_len =
      serialize_pairs ps 4 buf_len >>= λ items. some (write_length items)

  -- the loop of `bson_serialize_document` with what follows it, from `pos` on
  pub serialize_entries : DictArray → ℕ → ℕ → ℕ → Option Bytes
  serialize_entries array_end i pos buf_len = write_end pos buf_len
  serialize_entries (entry v xs) i pos buf_len =
      write_item (type_byte v) (decimal i) (λ n. serialize_value v n)
        (λ next. serialize_entries xs (suc i) next buf_len) pos buf_len

  pub serialize_pairs : DictObject → ℕ → ℕ → Option Bytes
  serialize_pairs object_end pos buf_len = write_end pos buf_len
  serialize_pairs (pair k v ps) pos buf_len =
      write_item (type_byte v) k (λ n. serialize_value v n)
        (λ next. serialize_pairs ps next buf_len) pos buf_len

-- `bson_serialize_document`
abbrev pub serialize_document : DictValue → ℕ → Option Bytes
serialize_document (array xs) buf_len = serialize_value (array xs) buf_len
serialize_document (object ps) buf_len = serialize_value (object ps) buf_len
serialize_document _ buf_len = none

-- `dict_serialize_bson`; `none` for 0
unfoldable pub serialize_bson : DictValue → ℕ → Option Bytes
unfolding serialize_value
serialize_bson v buf_len = serialize_document v buf_len

-- what a read gives: the value with what is left, a NULL, or no fuel
pub data Read {ℓ} (A : Type ℓ) : Type ℓ where
  got : A → Read A
  refused : Read A
  no_fuel : Read A

abbrev pub and_then {ℓ κ} : {A : Type ℓ} {B : Type κ} → Read A → (A → Read B) → Read B
and_then (got a) f = f a
and_then refused f = refused
and_then no_fuel f = no_fuel

abbrev pub from_option {ℓ} : {A : Type ℓ} → Option A → Read A
from_option none = refused
from_option (some a) = got a

-- the key in front of its NUL
unfoldable pub read_key : Bytes → Option (Bytes × Bytes)
read_key [] = none
read_key (zero ∷ cs) = some ([], cs)
read_key (suc c ∷ cs) = read_key cs >>= λ r. some (suc c ∷ r.0, r.1)

-- Is the `int32_t` less than `n`?
abbrev pub less_than : ℕ → ℕ → Bool
less_than w n = leb (2 ^ 31) w || ltb w n

unfoldable pub read_string : Bytes → Option (DictValue × Bytes)
unfolding read_le create_string
read_string s = read_le 4 s >>= λ r.
    if less_than r.0 1 || ltb (length r.1) r.0
    then none
    else (create_string (take (r.0 - 1) r.1) >>= λ v. some (v, drop r.0 r.1))

abbrev pub read_bool : Bytes → Option (DictValue × Bytes)
read_bool [] = none
read_bool (c ∷ cs) = some (bool (if c == 0 then false else true), cs)

-- `bson_deserialize_document_internal` up to the loop, with the loop in `items`
unfoldable pub read_document :
    (DictValue → Bytes → Read DictValue) → DictValue → Bytes → Read (DictValue × Bytes)
unfolding read_le
read_document items empty buf =
    if ltb (length buf) 5
    then refused
    else and_then (from_option (read_le 4 buf)) (λ r.
      if less_than r.0 5 || ltb (length buf) r.0
      then refused
      else and_then (items empty (take (r.0 - 4) r.1)) (λ v. got (v, drop (r.0 - 4) r.1)))

-- the value behind a type and a key
unfoldable pub read_value :
    (DictValue → Bytes → Read DictValue) → ℕ → Bytes → Read (DictValue × Bytes)
unfolding read_document read_string read_le
read_value items tag s =
    if tag == 1
    then from_option (read_le 8 s >>= λ r. some (number r.0, r.1))
    else if tag == 18
    then from_option (read_le 8 s >>= λ r. some (int64 r.0, r.1))
    else if tag == 2
    then from_option (read_string s)
    else if tag == 8
    then from_option (read_bool s)
    else if tag == 10
    then got (null, s)
    else if tag == 3
    then read_document items (object object_end) s
    else if tag == 4
    then read_document items (array array_end) s
    else refused

-- an array takes the value whatever its key is
unfoldable pub put : DictValue → Bytes → DictValue → Option DictValue
unfolding object_set array_append
put (array xs) key v = some (array (array_append xs v))
put result key v = object_set result key v

-- behind the loop, where one byte has to be left
abbrev pub read_end : DictValue → Bytes → Read DictValue
read_end result (c ∷ []) = got result
read_end result _ = refused

-- one round of the loop, where two bytes or more are left
unfoldable pub read_item :
    (DictValue → Bytes → Read DictValue) → DictValue → ℕ → Bytes → Read DictValue
unfolding read_key read_value put
read_item items result tag s =
    if tag == 0
    then read_end result s
    else and_then (from_option (read_key s)) (λ r.
      and_then (read_value items tag r.1)
        (λ q. and_then (from_option (put result r.0 q.0)) (λ next. items next q.1)))

-- the loop of `bson_deserialize_document_internal`
unfoldable pub read_items : ℕ → DictValue → Bytes → Read DictValue
unfolding read_item
read_items zero result s = no_fuel
read_items (suc fuel) result (tag ∷ c ∷ s) = read_item (read_items fuel) result tag (c ∷ s)
read_items (suc fuel) result s = read_end result s

-- `dict_deserialize_bson`
unfoldable pub deserialize_bson : Bytes → Read DictValue
unfolding read_items read_document
deserialize_bson buf =
    and_then (read_document (read_items (length buf)) (object object_end) buf)
      (λ r. if length r.1 == 0 then got r.0 else refused)
