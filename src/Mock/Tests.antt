-- ===== src/Mock/Tests.antt =====
-- A recording, and the instances of its theorems.
use nanoproxy.Prelude.{
  ℕ, ◌≡◌, ◌<◌, refl, true, none, some, List, [], ◌∷◌, ◌++◌, Bytes, codes, arith, ◌^◌, ltb, length,
  all,
}
use nanoproxy.Mock.{recorder_finish, Request, is_safe_char, make_key, request_text, response_mark}
use nanoproxy.Mock.Key.{make_key_safe}
use nanoproxy.Dict.Json.Text.{signed_decimal}
use nanoproxy.Mock.Header.{header_field}
use nanoproxy.Mock.Growth.{flat}
use nanoproxy.Mock.Sections.{recorded, Sections, recorded-Sections}

abbrev key : Bytes
key = make_key none (some (codes "/a/b?c=d")) 256

two_keys : make_key none (some (codes "/a/b?c=d")) 256 ≡ make_key none (some (codes "/a_b")) 256
unfolding make_key
two_keys = refl

make_key_safe_case : (all is_safe_char key ≡ true) × (length key < 256)
make_key_safe_case = make_key_safe none (some (codes "/a/b?c=d")) 256 (omega arith)

abbrev asked : Request
asked = record {
  method = some (codes "PUT");
  uri = some (codes "/x");
  version = none;
  headers = (codes "Host", codes "h") ∷ [];
  body = [];
}

abbrev number : Bytes → ℕ
number s = 200

abbrev bodies : List Bytes
bodies = codes "one" ∷ codes "two" ∷ []

abbrev answers : List Bytes
answers = codes "hello" ∷ []

abbrev file : Bytes
file = (recorded number 10 11 asked none bodies (codes "HTTP/1.1 200 OK") answers).file

file_short : ltb (length file) (2 ^ 63) ≡ true
unfolding recorded recorder_finish signed_decimal
file_short = refl

-- the numbers that the header of the file has
file_fields : (header_field 4 file ≡ 316) × (header_field 6 file ≡ 364)
unfolding recorded recorder_finish header_field signed_decimal
file_fields = (refl, refl)

recorded-Sections_example :
    Sections
      (request_text asked ++ flat bodies)
      (response_mark ++ codes "HTTP/1.1 200 OK" ++ flat answers)
      file
recorded-Sections_example =
    recorded-Sections number 10 11 asked none bodies (codes "HTTP/1.1 200 OK") answers
      (ground (arith, file_short))
