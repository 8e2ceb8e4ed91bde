-- ===== src/Dict/Tests.antt =====
-- Small runs of the dictionary: objects changed and searched, JSON and BSON texts written and read.
use nanoproxy.Prelude.{
  ℕ, ◌+◌, ◌-◌, ◌≡◌, ◌≢◌, refl, true, false, none, some, [], ◌∷◌, ◌++◌, Bytes, arith, codes, ltb,
  if◌then◌else◌, length, equal, c_string, is_digit, ap, all,
}
use nanoproxy.Dict.{
  null, number, string, object, DictObject, object_end, pair, max_key_len, max_value_len,
  object_set, object_get, object_remove, find_path, find_key,
}
use nanoproxy.Dict.Store.{Distinct, HasDistinct, object_get-object_set}
use nanoproxy.Dict.Removal.{object_get-object_remove}
use nanoproxy.Dict.Reach.{Reached, created, changed, by_set, Reached-HasDistinct}
use nanoproxy.Dict.Paths.{AreSegments, join_path, follow, find_path-join_path}
use nanoproxy.Dict.Json.Text.{Doubles, skip_number}
use nanoproxy.Dict.Json.Print.{serialize_json}
use nanoproxy.Dict.Json.Print.Render.{render, serialize_json-render}
use nanoproxy.Dict.Json.Parse.{ok, deserialize_json, parse_string}
use nanoproxy.Dict.Json.Parse.Scan.{Within}
use nanoproxy.Dict.Json.Parse.Total.{deserialize_json-Within}
use nanoproxy.Dict.Json.Parse.RoundTrip.{deserialize_json-serialize_json}
use nanoproxy.Dict.Json.Parse.Strings.{IsText, parse_string-quoted}
use nanoproxy.Dict.Json.Print.Render.{quoted}
use nanoproxy.Dict.Json.Parse.Valid.{IsJson}
use nanoproxy.Dict.Bson.{got, no_fuel, serialize_bson, deserialize_bson}
use nanoproxy.Dict.Bson.Encode.{serialize_bson-encode, within, encode}
use nanoproxy.Dict.Bson.Decode.{deserialize_bson_total}
use nanoproxy.Dict.Bson.RoundTrip.{IsBson, deserialize_bson-serialize_bson}

-- a C library that prints and reads the numbers from 0 to 9
digit_print : (d : ℕ) → ltb d 10 ≡ true → skip_number ((b'0' + d) ∷ []) ≡ some []
unfolding skip_number is_digit
digit_print d h = ground arith

digit_strtod : (d : ℕ) → ltb d 10 ≡ true → some (b'0' + d - b'0') ≡ some d
digit_strtod d h = ap some (omega arith)

abbrev small_doubles : Doubles
small_doubles = record {
  print = λ d. (b'0' + d) ∷ [];
  strtod = λ s. elim s [ [] ↦ none | c ∷ cs ↦ some (c - b'0') ];
  is_finite = λ d. ltb d 10;
  skip-print = digit_print;
  print_short = λ d. omega arith;
  strtod-print = digit_strtod;
}

abbrev inner : DictObject
inner = pair (codes "port") (number 7) object_end

abbrev config : DictObject
config = pair (codes "host") (string (codes "a\"b")) (pair (codes "net") (object inner) object_end)

abbrev config_text : Bytes
config_text = codes "{\"host\":\"a\\\"b\",\"net\":{\"port\":7}}"

key-IsText :
    (s : Bytes)
    → ltb 0 (length s) ≡ true
    → ltb (length s) 100 ≡ true
    → all (λ c. ltb 0 c) s ≡ true
    → IsText max_key_len s
key-IsText s low high h = record { not_empty = ground arith; short = ground arith; no_nul = h }

value-IsText :
    (s : Bytes)
    → ltb 0 (length s) ≡ true
    → ltb (length s) 100 ≡ true
    → all (λ c. ltb 0 c) s ≡ true
    → IsText max_value_len s
value-IsText s low high h = record { not_empty = ground arith; short = ground arith; no_nul = h }

config-IsJson : IsJson small_doubles (object config)
unfolding IsJson find_key equal
config-IsJson = (
  key-IsText _ refl refl refl,
  value-IsText _ refl refl refl,
  (refl, tt),
  (key-IsText _ refl refl refl, (key-IsText _ refl refl refl, refl, tt, tt), tt, tt),
)

serialize_config : serialize_json small_doubles false (object config) 64 ≡ some config_text
unfolding serialize_json
serialize_config = refl

object_get-object_set_example :
    object_get (object (pair (codes "net") null object_end)) (codes "net") ≡ (
      if equal (c_string (codes "net")) (c_string (codes "net"))
      then some null
      else object_get (object object_end) (codes "net"))
unfolding object_set c_string
object_get-object_set_example =
    object_get-object_set (object object_end) (object (pair (codes "net") null object_end))
      (codes "net") (codes "net") null refl

config-Distinct : HasDistinct (object config)
unfolding Distinct equal find_key
config-Distinct = (refl, (refl, tt))

object_get-object_remove_example :
    object_get (object (pair (codes "net") (object inner) object_end)) (codes "net") ≡ (
      if equal (c_string (codes "host")) (c_string (codes "net"))
      then none
      else object_get (object config) (codes "net"))
unfolding object_remove equal c_string
object_get-object_remove_example =
    object_get-object_remove (object config) (object (pair (codes "net") (object inner) object_end))
      (codes "host") (codes "net") config-Distinct refl

set_once : Reached (object (pair (codes "net") null object_end))
unfolding object_set c_string
set_once = changed {d = object object_end} created (by_set (codes "net") null refl)

Reached-HasDistinct_example : HasDistinct (object (pair (codes "net") null object_end))
Reached-HasDistinct_example =
    Reached-HasDistinct (object (pair (codes "net") null object_end)) set_once

find_path-join_path_example :
    find_path (object config) (join_path (codes "net" ∷ codes "port" ∷ []))
    ≡ follow (object config) (codes "net" ∷ codes "port" ∷ [])
unfolding AreSegments
find_path-join_path_example =
    find_path-join_path (object config) (codes "net") (codes "port" ∷ []) (
      record { not_empty = omega arith; no_slash = refl; no_nul = refl },
      (record { not_empty = omega arith; no_slash = refl; no_nul = refl }, tt),
    )

serialize_json-render_example : serialize_json small_doubles true (object config) 8 ≡ (
    if ltb (length (render small_doubles true (object config) 0)) 8
    then some (render small_doubles true (object config) 0)
    else none)
serialize_json-render_example = serialize_json-render small_doubles true (object config) 8

deserialize_json-Within_example : Within 9 (deserialize_json small_doubles (codes "[1, {\"a\"") 8)
deserialize_json-Within_example = deserialize_json-Within small_doubles (codes "[1, {\"a\"") 8

parse_string-quoted_case :
    parse_string (quoted (codes "a\nb") ++ codes ",") ≡ ok (codes "a\nb") (codes ",")
parse_string-quoted_case = parse_string-quoted (codes "a\nb") (codes ",")

deserialize_json-serialize_json_example :
    deserialize_json small_doubles config_text (length config_text) ≡ ok (object config) []
deserialize_json-serialize_json_example =
    deserialize_json-serialize_json small_doubles false (object config) 64 config_text config-IsJson
      serialize_config

serialize_bson-encode_example : serialize_bson (object inner) 18 ≡ within (encode (object inner)) 18
serialize_bson-encode_example = serialize_bson-encode (object inner) 18

deserialize_bson_total_example : deserialize_bson (codes "not bson") ≢ no_fuel
deserialize_bson_total_example = deserialize_bson_total (codes "not bson")

inner-IsBson : IsBson (object inner)
unfolding IsBson
inner-IsBson = (key-IsText _ refl refl refl, omega arith, tt, tt)

abbrev inner_bson : Bytes
inner_bson =
    19 ∷ 0 ∷ 0 ∷ 0 ∷ 1 ∷ b'p' ∷ b'o' ∷ b'r' ∷ b't' ∷ 0 ∷ 7 ∷ 0 ∷ 0 ∷ 0 ∷ 0 ∷ 0 ∷ 0 ∷ 0 ∷ 0 ∷ []

serialize_inner : serialize_bson (object inner) 19 ≡ some inner_bson
unfolding serialize_bson
serialize_inner = refl

deserialize_bson-serialize_bson_example : deserialize_bson inner_bson ≡ got (object inner)
deserialize_bson-serialize_bson_example =
    deserialize_bson-serialize_bson inner 19 inner_bson inner-IsBson (omega arith) serialize_inner
