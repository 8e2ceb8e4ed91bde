-- ===== src/Dict/Bson/RoundTrip.antt =====
-- The document that `dict_serialize_bson` wrote is read back by `dict_deserialize_bson`.
use nanoproxy.Prelude.{
  ℕ, zero, suc, ◌+◌, ◌-◌, ◌*◌, ◌/◌, ◌%◌, ◌^◌, ◌≤◌, ◌<◌, ◌≡◌, refl, sym, ap, ◌∙◌, true, false, ◌||◌,
  some, [], ◌∷◌, ◌++◌, Bytes, arith, ltb, ◌==◌, length, all, length-append, append_assoc,
  append-nil, take-append, drop-append, drop_past, ◌>>=◌,
}
use nanoproxy.Dict.{
  DictValue, null, bool, number, int64, string, array, object, DictArray, array_end, entry,
  array_append, DictObject, object_end, pair, append_pair, object_set, max_key_len, max_value_len,
}
use nanoproxy.Dict.Json.Text.{digits, decimal}
use nanoproxy.Dict.Json.Parse.Strings.{IsText}
use nanoproxy.Dict.Json.Parse.Valid.{
  Fresh, join, join_pairs, join-array_append, join-append_pair, join_end, join_pairs_end,
  Fresh-append_pair, Fresh-object_end, create_string-IsText, set_pairs-IsText,
}
use nanoproxy.Dict.Bson.{
  Read, got, from_option, less_than, write_le, write_length, type_byte, read_le, read_key,
  read_string, read_document, read_value, put, read_item, read_items, serialize_bson,
  deserialize_bson,
}
use nanoproxy.Dict.Bson.Encode.{
  item, encode, encode_entries, encode_pairs, length-item, length-write_length, last_byte,
  last_byte_pairs, within, serialize_bson-encode,
}

-- What a BSON document can hold: words of 64 bits, texts and keys of a length that is allowed, keys of
-- an object that differ.
unfoldable mutual
  unfolding Fresh

  pub IsBson : DictValue → Type 0
  IsBson (number d) = d < 2 ^ 64
  IsBson (int64 w) = w < 2 ^ 64
  IsBson (string s) = IsText max_value_len s
  IsBson (array xs) = AreBson xs
  IsBson (object ps) = PairsAreBson ps
  IsBson _ = Unit

  AreBson : DictArray → Type 0
  AreBson array_end = Unit
  AreBson (entry v xs) = IsBson v × AreBson xs

  PairsAreBson : DictObject → Type 0
  PairsAreBson object_end = Unit
  PairsAreBson (pair k v ps) =
      IsText max_key_len k × IsBson v × Fresh (pair k v object_end) ps × PairsAreBson ps

-- Is the number one of `n` bytes?
unfoldable Fits : ℕ → ℕ → Type 0
Fits zero w = w ≡ 0
Fits (suc n) w = Fits n (w / 256)

read_le-write_le :
    (n w : ℕ) (rest : Bytes) → Fits n w → read_le n (write_le n w ++ rest) ≡ some (w, rest)
unfolding read_le write_le Fits
read_le-write_le zero w rest h = ap (λ v. some (v, rest)) (sym h)
read_le-write_le (suc n) w rest h =
    let whole : w % 256 + 256 * (w / 256) ≡ w = omega arith in
    ap (λ r. r >>= λ q. some (w % 256 + 256 * q.0, q.1)) (read_le-write_le n (w / 256) rest h)
    ∙ ap (λ v. some (v, rest)) whole

word32 : (w : ℕ) → w < 2 ^ 32 → Fits 4 w
unfolding Fits
word32 w h = omega arith

word64 : (w : ℕ) → w < 2 ^ 64 → Fits 8 w
unfolding Fits
word64 w h = omega arith

abbrev NoNul : Bytes → Type 0
NoNul s = all (λ c. ltb 0 c) s ≡ true

digits-NoNul : (k n : ℕ) (acc : Bytes) → NoNul acc → NoNul (digits k n acc)
unfolding digits
digits-NoNul zero n acc h = h
digits-NoNul (suc k) n acc h =
    let here : NoNul ((b'0' + n % 10) ∷ acc) = ground (arith, h) in
    ground (arith, here, digits-NoNul k (n / 10) ((b'0' + n % 10) ∷ acc) here)

read_key-append : (k s : Bytes) → NoNul k → read_key (k ++ (0 ∷ s)) ≡ some (k, s)
unfolding read_key
read_key-append [] s h = refl
read_key-append (zero ∷ k) s h = absurd (ground arith)
read_key-append (suc c ∷ k) s h =
    ap (λ r. r >>= λ q. some (suc c ∷ q.0, q.1)) (read_key-append k s (ground (arith, h)))

-- a round of the loop
read_items-suc :
    (fuel tag : ℕ) (result : DictValue) (k s : Bytes)
    → read_items (suc fuel) result (tag ∷ (k ++ (0 ∷ s)))
      ≡ read_item (read_items fuel) result tag (k ++ (0 ∷ s))
unfolding read_items
read_items-suc fuel tag result [] s = refl
read_items-suc fuel tag result (c ∷ k) s = refl

item_step :
    (fuel tag : ℕ) (k w rest : Bytes) (v result next : DictValue)
    → (tag == 0) ≡ false
    → NoNul k
    → read_value (read_items fuel) tag (w ++ rest) ≡ got (v, rest)
    → put result k v ≡ some next
    → read_items (suc fuel) result (item tag k w rest) ≡ read_items fuel next rest
unfolding read_item
item_step fuel tag k w rest v result next t h e p =
    read_items-suc fuel tag result k (w ++ rest)
    ∙ rw (t, read_key-append k (w ++ rest) h, e, p) refl

type_byte_some : (v : DictValue) → (type_byte v == 0) ≡ false
type_byte_some null = refl
type_byte_some (bool b) = refl
type_byte_some (number d) = refl
type_byte_some (int64 w) = refl
type_byte_some (string s) = refl
type_byte_some (array xs) = refl
type_byte_some (object ps) = refl

-- a document in front of other bytes
read_document_lem :
    (items : DictValue → Bytes → Read DictValue) (empty v : DictValue) (buf inside rest : Bytes)
    → read_le 4 buf ≡ some (4 + length inside, inside ++ rest)
    → length buf ≡ 4 + length inside + length rest
    → 0 < length inside
    → 4 + length inside < 2 ^ 31
    → items empty inside ≡ got v
    → read_document items empty buf ≡ got (v, rest)
unfolding read_document
read_document_lem items empty v buf inside rest word size low high e =
    let enough : ltb (length buf) 5 ≡ false = ground (arith, size) in
    let in_buf : (less_than (4 + length inside) 5 || ltb (length buf) (4 + length inside)) ≡ false =
      ground (arith, size) in
    let cut : 4 + length inside - 4 ≡ length inside = omega arith in
    rw (enough, word, in_buf, cut, take-append inside rest, drop-append inside rest, e) refl

read_document-write_length :
    (items : DictValue → Bytes → Read DictValue) (empty v : DictValue) (inside rest : Bytes)
    → 0 < length inside
    → 4 + length inside < 2 ^ 31
    → items empty inside ≡ got v
    → read_document items empty (write_length inside ++ rest) ≡ got (v, rest)
read_document-write_length items empty v inside rest low high e =
    let w = (4 + length inside) % 2 ^ 32 in
    let same : w ≡ 4 + length inside = omega arith in
    let front = append_assoc (write_le 4 w) inside rest in
    let word : read_le 4 (write_length inside ++ rest) ≡ some (4 + length inside, inside ++ rest) =
      ap (read_le 4) front
      ∙ read_le-write_le 4 w (inside ++ rest) (word32 w (omega arith))
      ∙ ap (λ n. some (n, inside ++ rest)) same in
    let size : length (write_length inside ++ rest) ≡ 4 + length inside + length rest =
      omega (arith, length-append (write_length inside) rest, length-write_length inside) in
    read_document_lem items empty v (write_length inside ++ rest) inside rest word size low high e

abbrev Reads : DictValue → Type 0
Reads v =
    (rest : Bytes) (fuel : ℕ)
    → IsBson v
    → length (encode v) < 2 ^ 31
    → length (encode v) ≤ fuel
    → read_value (read_items fuel) (type_byte v) (encode v ++ rest) ≡ got (v, rest)

read_string_lem :
    (buf s rest : Bytes)
    → read_le 4 buf ≡ some (length s + 1, s ++ (0 ∷ rest))
    → IsText max_value_len s
    → read_string buf ≡ some (string s, rest)
unfolding read_string
read_string_lem buf s rest word t =
    let size = length-append s (0 ∷ rest) in
    let in_buf : (less_than (length s + 1) 1 || ltb (length (s ++ (0 ∷ rest))) (length s + 1))
        ≡ false =
      ground (arith, size, t.short) in
    let cut : length s + 1 - 1 ≡ length s = omega arith in
    let past : length s + 1 ≡ suc (length s) = omega arith in
    rw
      (
        word,
        in_buf,
        cut,
        take-append s (0 ∷ rest),
        create_string-IsText s t,
        past,
        drop_past s rest 0,
      )
      refl

Reads-string : (s : Bytes) → Reads (string s)
unfolding read_value encode IsBson
Reads-string s rest fuel h small f =
    let w = (length s + 1) % 2 ^ 32 in
    let same : w ≡ length s + 1 = omega (arith, h.short) in
    let front : (write_le 4 w ++ (s ++ (0 ∷ []))) ++ rest ≡ write_le 4 w ++ (s ++ (0 ∷ rest)) =
      simp append_assoc in
    let word : read_le 4 ((write_le 4 w ++ (s ++ (0 ∷ []))) ++ rest)
        ≡ some (length s + 1, s ++ (0 ∷ rest)) =
      ap (read_le 4) front
      ∙ read_le-write_le 4 w (s ++ (0 ∷ rest)) (word32 w (omega arith))
      ∙ ap (λ n. some (n, s ++ (0 ∷ rest))) same in
    ap (from_option {A = DictValue × Bytes})
      (read_string_lem ((write_le 4 w ++ (s ++ (0 ∷ []))) ++ rest) s rest word h)

Reads-word :
    (w : ℕ) (rest : Bytes) (f : ℕ → DictValue)
    → w < 2 ^ 64
    → from_option {A = DictValue × Bytes}
        (read_le 8 (write_le 8 w ++ rest) >>= λ r. some (f r.0, r.1))
      ≡ got (f w, rest)
Reads-word w rest f h =
    ap (λ o. from_option {A = DictValue × Bytes} (o >>= λ r. some (f r.0, r.1)))
      (read_le-write_le 8 w rest (word64 w h))

mutual
  unfolding read_value IsBson encode read_items put object_set Fresh decimal join join_pairs

  reads : (v : DictValue) → Reads v
  reads null = λ rest fuel h small f. refl
  reads (bool true) = λ rest fuel h small f. refl
  reads (bool false) = λ rest fuel h small f. refl
  reads (number d) = λ rest fuel h small f. Reads-word d rest number h
  reads (int64 w) = λ rest fuel h small f. Reads-word w rest int64 h
  reads (string s) = Reads-string s
  reads (array xs) = λ rest fuel h small f.
      let size = length-write_length (encode_entries xs 0) in
      read_document-write_length (read_items fuel) (array array_end) (array xs)
        (encode_entries xs 0) rest (last_byte xs 0) (omega (arith, small, size))
        (reads_entries xs 0 fuel array_end h (omega (arith, small, size)) (omega (arith, f, size)))
  reads (object ps) = λ rest fuel h small f.
      let size = length-write_length (encode_pairs ps) in
      read_document-write_length (read_items fuel) (object object_end) (object ps) (encode_pairs ps)
        rest (last_byte_pairs ps) (omega (arith, small, size))
        (reads_pairs ps fuel object_end h (Fresh-object_end ps) (omega (arith, small, size))
          (omega (arith, f, size)))

  reads_entries :
      (xs : DictArray) (i fuel : ℕ) (acc : DictArray)
      → AreBson xs
      → length (encode_entries xs i) < 2 ^ 31
      → length (encode_entries xs i) < fuel
      → read_items fuel (array acc) (encode_entries xs i) ≡ got (array (join acc xs))
  reads_entries array_end i zero acc h small f = absurd (omega arith)
  reads_entries array_end i (suc fuel) acc h small f =
      ap (λ xs. got (array xs)) (sym (join_end acc))
  reads_entries (entry v xs) i zero acc h small f = absurd (omega arith)
  reads_entries (entry v xs) i (suc fuel) acc h small f =
      let rest = encode_entries xs (suc i) in
      let size = length-item (type_byte v) (decimal i) (encode v) rest in
      item_step fuel (type_byte v) (decimal i) (encode v) rest v (array acc)
        (array (array_append acc v)) (type_byte_some v) (digits-NoNul 20 i [] refl)
        (reads v rest fuel h.0 (omega (arith, small, size)) (omega (arith, f, size))) refl
      ∙ reads_entries xs (suc i) fuel (array_append acc v) h.1 (omega (arith, small, size))
          (omega (arith, f, size))
      ∙ ap (λ ys. got (array ys)) (join-array_append acc v xs)

  reads_pairs :
      (ps : DictObject) (fuel : ℕ) (acc : DictObject)
      → PairsAreBson ps
      → Fresh acc ps
      → length (encode_pairs ps) < 2 ^ 31
      → length (encode_pairs ps) < fuel
      → read_items fuel (object acc) (encode_pairs ps) ≡ got (object (join_pairs acc ps))
  reads_pairs object_end zero acc h d small f = absurd (omega arith)
  reads_pairs object_end (suc fuel) acc h d small f =
      ap (λ ps. got (object ps)) (sym (join_pairs_end acc))
  reads_pairs (pair k v ps) zero acc h d small f = absurd (omega arith)
  reads_pairs (pair k v ps) (suc fuel) acc h d small f =
      let rest = encode_pairs ps in
      let size = length-item (type_byte v) k (encode v) rest in
      item_step fuel (type_byte v) k (encode v) rest v (object acc) (object (append_pair acc k v))
        (type_byte_some v) h.0.no_nul
        (reads v rest fuel h.1 (omega (arith, small, size)) (omega (arith, f, size)))
        (ap (λ o. o >>= λ q. some (object q)) (set_pairs-IsText acc k v h.0 d.0))
      ∙ reads_pairs ps fuel (append_pair acc k v) h.3 (Fresh-append_pair acc k v ps d.1 h.2)
          (omega (arith, small, size)) (omega (arith, f, size))
      ∙ ap (λ qs. got (object qs)) (join-append_pair acc k v ps)

-- The document that `dict_serialize_bson` writes of an object that BSON can hold, into a buffer of less
-- than 2 ^ 31 bytes, is read back by `dict_deserialize_bson` as that object.
pub deserialize_bson-serialize_bson :
    (ps : DictObject) (buf_len : ℕ) (buf : Bytes)
    → IsBson (object ps)
    → buf_len < 2 ^ 31
    → serialize_bson (object ps) buf_len ≡ some buf
    → deserialize_bson buf ≡ got (object ps)
unfolding deserialize_bson read_value
deserialize_bson-serialize_bson ps buf_len buf h small e =
    let whole : within (encode (object ps)) buf_len ≡ some buf =
      sym (serialize_bson-encode (object ps) buf_len) ∙ e in
    let same : encode (object ps) ≡ buf = ground (arith, whole) in
    let fits : length (encode (object ps)) ≤ buf_len = ground (arith, whole) in
    let read : read_document (read_items (length buf)) (object object_end) buf
        ≡ got (object ps, []) =
      ap (read_document (read_items (length buf)) (object object_end))
        (sym same ∙ sym (append-nil (encode (object ps))))
      ∙ reads (object ps) [] (length buf) h (omega (arith, fits)) (omega (arith, ap length same)) in
    rw (read) refl
