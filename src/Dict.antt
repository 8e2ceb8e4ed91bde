-- ===== src/Dict.antt =====
-- include/dict.h: the tree of values that JSON and BSON texts are read into, and its objects. A string
-- and a key are the bytes of a C string without the NUL; a `double` is the word of its 64 bits, and so
-- is an `int64_t`. Memory does not run out here, so a capacity is no part of the model.
mod Tests
pub mod Store
pub mod Paths
pub mod Gap
pub mod Removal
pub mod Reach
pub mod Json
pub mod Bson
use nanoproxy.Prelude.{
  ℕ, zero, suc, ◌+◌, ◌-◌, ◌*◌, ◌^◌, Bool, true, false, ◌&&◌, ◌||◌, Option, none, some, List, [],
  ◌∷◌, ◌++◌, Bytes, ltb, leb, ◌==◌, if◌then◌else◌, length, take, drop, equal, c_string, ◌>>=◌,
}

abbrev pub max_key_len : ℕ
max_key_len = 64 * 1024

abbrev pub max_value_len : ℕ
max_value_len = 20000000

-- `DictValue` with `DictType`, `DictArray` and `DictObject`
mutual
  pub data DictValue : Type 0 where
    null : DictValue
    bool : Bool → DictValue
    number : ℕ → DictValue
    int64 : ℕ → DictValue
    string : Bytes → DictValue
    array : DictArray → DictValue
    object : DictObject → DictValue

  pub data DictArray : Type 0 where
    array_end : DictArray
    entry : DictValue → DictArray → DictArray

  pub data DictObject : Type 0 where
    object_end : DictObject
    pair : Bytes → DictValue → DictObject → DictObject

-- `dict_create_string`: an empty or overlong text has no value
unfoldable pub create_string : Bytes → Option DictValue
create_string s =
    let text = c_string s in
    if length text == 0 || leb max_value_len (length text) then none else some (string text)

-- `dict_array_append`
unfoldable pub array_append : DictArray → DictValue → DictArray
array_append array_end v = entry v array_end
array_append (entry x xs) v = entry x (array_append xs v)

unfoldable pub count : DictObject → ℕ
count object_end = 0
count (pair k v o) = suc (count o)

-- `dict_object_find_key`; `none` for `(size_t)-1`
unfoldable pub find_key : DictObject → Bytes → Option ℕ
find_key object_end key = none
find_key (pair k v o) key =
    let rest = find_key o key in if equal k key then some 0 else (rest >>= λ i. some (suc i))

-- the value of pair `i`, and the pairs with another value there
unfoldable pub value_at : DictObject → ℕ → Option DictValue
value_at object_end i = none
value_at (pair k v o) zero = some v
value_at (pair k v o) (suc i) = value_at o i

unfoldable pub replace_value : DictObject → ℕ → DictValue → DictObject
replace_value object_end i new = object_end
replace_value (pair k v o) zero new = pair k new o
replace_value (pair k v o) (suc i) new = pair k v (replace_value o i new)

unfoldable pub append_pair : DictObject → Bytes → DictValue → DictObject
append_pair object_end key new = pair key new object_end
append_pair (pair k v o) key new = pair k v (append_pair o key new)

-- `dict_object_set` on the pairs of an object; `none` for 0
unfoldable pub set_pairs : DictObject → Bytes → DictValue → Option DictObject
unfolding find_key replace_value append_pair
set_pairs o key new =
    let k = c_string key in
    if length k == 0 || leb max_key_len (length k) then none else elim (find_key o k) [
      | some i ↦ some (replace_value o i new)
      | none ↦ some (append_pair o k new)
    ]

unfoldable pub object_set : DictValue → Bytes → DictValue → Option DictValue
unfolding set_pairs
object_set (object o) key new = set_pairs o key new >>= λ q. some (object q)
object_set _ key new = none

-- `dict_object_get`
unfoldable pub object_get : DictValue → Bytes → Option DictValue
unfolding find_key value_at
object_get (object o) key = find_key o (c_string key) >>= λ i. value_at o i
object_get _ key = none

unfoldable pub last_pair : DictObject → Option (Bytes × DictValue)
last_pair object_end = none
last_pair (pair k v object_end) = some (k, v)
last_pair (pair k v (pair l w o)) = last_pair (pair l w o)

unfoldable pub drop_last : DictObject → DictObject
drop_last object_end = object_end
drop_last (pair k v object_end) = object_end
drop_last (pair k v (pair l w o)) = pair k v (drop_last (pair l w o))

unfoldable pub replace_pair : DictObject → ℕ → Bytes → DictValue → DictObject
replace_pair object_end i key new = object_end
replace_pair (pair k v o) zero key new = pair key new o
replace_pair (pair k v o) (suc i) key new = pair k v (replace_pair o i key new)

-- `dict_object_remove` on the pairs: the last pair fills the gap; `none` for 0
unfoldable pub remove_pairs : DictObject → Bytes → Option DictObject
unfolding find_key count last_pair replace_pair drop_last
remove_pairs o key = do
  i ← find_key o (c_string key)
  (k, v) ← last_pair o
  some (drop_last (if i == count o - 1 then o else replace_pair o i k v))

unfoldable pub object_remove : DictValue → Bytes → Option DictValue
unfolding remove_pairs
object_remove (object o) key = remove_pairs o key >>= λ q. some (object q)
object_remove _ key = none

-- the bytes before the first `/`
unfoldable pub segment_length : Bytes → ℕ
segment_length [] = 0
segment_length (c ∷ cs) = let rest = segment_length cs in if c == b'/' then 0 else suc rest

abbrev pub go_into : (DictObject → Bytes → Option DictValue) → Bytes → DictValue → Option DictValue
go_into inside path (object inner) = inside inner path
go_into inside path _ = none

-- the segment of `len` bytes in front of the path, looked up and gone into
unfoldable pub enter_segment :
    (DictObject → Bytes → Option DictValue) → DictObject → ℕ → Bytes → Option DictValue
enter_segment inside o len path =
    if len == 0
    then none
    else (find_key o (take len path) >>= λ i. value_at o i >>= λ next.
        if len == length path then some next else go_into inside (drop (len + 1) path) next)

-- the loop of `dict_find_path`, where `path` stands for `segment_start`
unfoldable pub walk_path : ℕ → DictObject → Bytes → Option DictValue
unfolding enter_segment
walk_path zero o path = none
walk_path (suc fuel) o path = enter_segment (walk_path fuel) o (segment_length path) path

-- `dict_find_path`; every round takes at least a byte and a `/` of the path
unfoldable pub find_path : DictValue → Bytes → Option DictValue
unfolding walk_path segment_length
find_path (object o) path =
    let p = c_string path in if length p == 0 then none else walk_path (length p) o p
find_path _ path = none
