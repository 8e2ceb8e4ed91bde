-- ===== src/Dict/Bson/Encode.antt =====
-- The bytes of a BSON document, without regard to a buffer, and when `bson_serialize_document` writes them.
use nanoproxy.Prelude.{
  ℕ, zero, suc, ◌+◌, ◌-◌, ◌/◌, ◌%◌, ◌^◌, ◌<◌, ◌≡◌, refl, ap, ◌∙◌, true, false, Option, none, some,
  [], ◌∷◌, ◌++◌, Bytes, arith, ltb, leb, if◌then◌else◌, length, length-append, Bool-cases, inl, inr,
  ◌>>=◌,
}
use nanoproxy.Dict.{
  DictValue, null, bool, number, int64, string, array, object, DictArray, array_end, entry,
  DictObject, object_end, pair,
}
use nanoproxy.Dict.Json.Text.{decimal}
use nanoproxy.Dict.Bson.{
  write_le, type_byte, write_item, write_end, write_length, serialize_value, serialize_entries,
  serialize_pairs, serialize_bson,
}

abbrev pub item : ℕ → Bytes → Bytes → Bytes → Bytes
item tag key value rest = tag ∷ (key ++ (0 ∷ (value ++ rest)))

unfoldable mutual
  unfolding write_le decimal

  pub encode : DictValue → Bytes
  encode null = []
  encode (bool b) = (if b then 1 else 0) ∷ []
  encode (number d) = write_le 8 d
  encode (int64 w) = write_le 8 w
  encode (string s) = write_le 4 ((length s + 1) % 2 ^ 32) ++ (s ++ (0 ∷ []))
  encode (array xs) = write_length (encode_entries xs 0)
  encode (object ps) = write_length (encode_pairs ps)

  pub encode_entries : DictArray → ℕ → Bytes
  encode_entries array_end i = 0 ∷ []
  encode_entries (entry v xs) i =
      item (type_byte v) (decimal i) (encode v) (encode_entries xs (suc i))

  pub encode_pairs : DictObject → Bytes
  encode_pairs object_end = 0 ∷ []
  encode_pairs (pair k v ps) = item (type_byte v) k (encode v) (encode_pairs ps)

-- the bytes, where `n` are enough
abbrev pub within : Bytes → ℕ → Option Bytes
within w n = if leb (length w) n then some w else none

abbrev pub behind : Bytes → ℕ → ℕ → Option Bytes
behind w pos n = if leb (pos + length w) n then some w else none

pub length-item :
    (tag : ℕ) (key value rest : Bytes)
    → length (item tag key value rest) ≡ 2 + length key + length value + length rest
length-item tag key value rest =
    omega (arith, length-append key (0 ∷ (value ++ rest)), length-append value rest)

pub length-write_le : (n w : ℕ) → length (write_le n w) ≡ n
unfolding write_le
length-write_le zero w = refl
length-write_le (suc n) w = ap suc (length-write_le n (w / 256))

pub length-write_length : (items : Bytes) → length (write_length items) ≡ 4 + length items
length-write_length items = omega (
  arith,
  length-append (write_le 4 ((4 + length items) % 2 ^ 32)) items,
  length-write_le 4 ((4 + length items) % 2 ^ 32),
)

write_item-item :
    (tag : ℕ) (key written rest : Bytes) (value more : ℕ → Option Bytes) (pos buf_len : ℕ)
    → ((n : ℕ) → value n ≡ within written n)
    → ((n : ℕ) → more n ≡ behind rest n buf_len)
    → 0 < length rest
    → write_item tag key value more pos buf_len ≡ behind (item tag key written rest) pos buf_len
unfolding write_item
write_item-item tag key written rest value more pos buf_len e f h =
    let size = length-item tag key written rest in
    let next = pos + 1 + length key + 1 in
    let room = buf_len - next in
    elim (Bool-cases (leb (pos + length (item tag key written rest)) buf_len)) [
      | inl fits ↦
          let first : leb buf_len (pos + 1) ≡ false = ground arith in
          let second : leb buf_len next ≡ false = ground arith in
          let third : leb (length written) room ≡ true = ground arith in
          let fourth : leb (next + length written + length rest) buf_len ≡ true = ground arith in
          rw (fits, first, second, e room, third, f (next + length written), fourth) refl
      | inr full ↦ elim (Bool-cases (leb buf_len (pos + 1))) [
        | inl over ↦ rw (full, over) refl
        | inr first ↦ elim (Bool-cases (leb buf_len next)) [
          | inl over ↦ rw (full, first, over) refl
          | inr second ↦ elim (Bool-cases (leb (length written) room)) [
            | inl third ↦
                let fourth : leb (next + length written + length rest) buf_len ≡ false =
                  ground arith in
                rw (full, first, second, e room, third, f (next + length written), fourth) refl
            | inr over ↦ rw (full, first, second, e room, over) refl
          ]
        ]
      ]
    ]

pub last_byte : (xs : DictArray) (i : ℕ) → 0 < length (encode_entries xs i)
unfolding encode_entries
last_byte array_end i = omega arith
last_byte (entry v xs) i = omega arith

pub last_byte_pairs : (ps : DictObject) → 0 < length (encode_pairs ps)
unfolding encode_pairs
last_byte_pairs object_end = omega arith
last_byte_pairs (pair k v ps) = omega arith

write_end-behind : (pos n : ℕ) → write_end pos n ≡ behind (0 ∷ []) pos n
write_end-behind pos n = ground arith

word_within : (w n : ℕ) → (if ltb n 8 then none else some (write_le 8 w)) ≡ within (write_le 8 w) n
word_within w n =
    let size : leb (length (write_le 8 w)) n ≡ leb 8 n = ap (λ m. leb m n) (length-write_le 8 w) in
    rw (size) (ground arith)

string_within :
    (s : Bytes) (n : ℕ)
    → (if ltb n (4 + length s + 1) then none else some (encode (string s)))
      ≡ within (encode (string s)) n
unfolding encode
string_within s n =
    let size = length-append (write_le 4 ((length s + 1) % 2 ^ 32)) (s ++ (0 ∷ [])) in
    let tail = length-append s (0 ∷ []) in
    let word = length-write_le 4 ((length s + 1) % 2 ^ 32) in ground (arith, size, tail, word)

-- a document within a buffer
document-within :
    (items : Bytes) (n : ℕ)
    → (behind items 4 n >>= λ w. some (write_length w)) ≡ within (write_length items) n
document-within items n = elim (Bool-cases (leb (4 + length items) n)) [
  | inl fits ↦
      let whole : leb (length (write_length items)) n ≡ true =
        ground (arith, length-write_length items) in
      rw (fits, whole) refl
  | inr full ↦
      let over : leb (length (write_length items)) n ≡ false =
        ground (arith, length-write_length items) in
      rw (full, over) refl
]

mutual
  unfolding serialize_value encode

  serialize_value-encode : (v : DictValue) (n : ℕ) → serialize_value v n ≡ within (encode v) n
  serialize_value-encode null n = ground arith
  serialize_value-encode (bool b) n = ground arith
  serialize_value-encode (number d) n = word_within d n
  serialize_value-encode (int64 w) n = word_within w n
  serialize_value-encode (string s) n = string_within s n
  serialize_value-encode (array xs) n =
      ap (λ r. r >>= λ w. some (write_length w)) (serialize_entries-encode xs 0 4 n)
      ∙ document-within (encode_entries xs 0) n
  serialize_value-encode (object ps) n =
      ap (λ r. r >>= λ w. some (write_length w)) (serialize_pairs-encode ps 4 n)
      ∙ document-within (encode_pairs ps) n

  serialize_entries-encode :
      (xs : DictArray) (i pos n : ℕ)
      → serialize_entries xs i pos n ≡ behind (encode_entries xs i) pos n
  serialize_entries-encode array_end i pos n = write_end-behind pos n
  serialize_entries-encode (entry v xs) i pos n =
      write_item-item (type_byte v) (decimal i) (encode v) (encode_entries xs (suc i)) _ _ pos n
        (λ m. serialize_value-encode v m) (λ m. serialize_entries-encode xs (suc i) m n)
        (last_byte xs (suc i))

  serialize_pairs-encode :
      (ps : DictObject) (pos n : ℕ) → serialize_pairs ps pos n ≡ behind (encode_pairs ps) pos n
  serialize_pairs-encode object_end pos n = write_end-behind pos n
  serialize_pairs-encode (pair k v ps) pos n =
      write_item-item (type_byte v) k (encode v) (encode_pairs ps) _ _ pos n
        (λ m. serialize_value-encode v m) (λ m. serialize_pairs-encode ps m n) (last_byte_pairs ps)

-- `dict_serialize_bson` writes the encoded document of an array or an object exactly where the buffer has
-- room for all of it, and gives 0 where it has not and for every other value.
pub serialize_bson-encode :
    (v : DictValue) (buf_len : ℕ)
    → serialize_bson v buf_len ≡ (elim v [
      | array xs ↦ within (encode (array xs)) buf_len
      | object ps ↦ within (encode (object ps)) buf_len
      | _ ↦ none
    ])
unfolding serialize_bson
serialize_bson-encode null buf_len = refl
serialize_bson-encode (bool b) buf_len = refl
serialize_bson-encode (number d) buf_len = refl
serialize_bson-encode (int64 w) buf_len = refl
serialize_bson-encode (string s) buf_len = refl
serialize_bson-encode (array xs) buf_len = serialize_value-encode (array xs) buf_len
serialize_bson-encode (object ps) buf_len = serialize_value-encode (object ps) buf_len
