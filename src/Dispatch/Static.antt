-- ===== src/Dispatch/Static.antt =====
-- include/request.h: `http_static_dir` up to the answer: which file is served and which part of it. The file system is a
-- parameter, and `strtoll` an argument: the number at the start of a text, if there is one and it is not negative. Left
-- out are failures of `lseek`, `malloc` and `http_build_response`, and the compression of what is sent.
pub mod Inside
use nanoproxy.Prelude.{
  ℕ, zero, suc, ◌+◌, ◌-◌, ◌<◌, ◌≡◌, Bool, true, false, not, ◌&&◌, ◌||◌, Option, none, some, List,
  [], ◌∷◌, ◌++◌, Bytes, codes, ltb, leb, ◌==◌, if◌then◌else◌, length, take, drop, get_or, equal,
  all,
}
use nanoproxy.StringBuf.{find_byte}
use nanoproxy.Dispatch.{has_prefix, get_mime_type}

-- `struct stat`
pub record Stat : Type 0 where
  pub is_dir : Bool
  pub is_reg : Bool
  pub size : ℕ

-- `realpath` writes at most PATH_MAX bytes, of which only the last is NUL
pub record Files : Type 0 where
  pub realpath : Bytes → Option Bytes
  pub stat : Bytes → Option Stat
  pub opens : Bytes → Bool
  pub length-realpath : (path r : Bytes) → realpath path ≡ some r → length r < 4096
  pub no_nul : (path r : Bytes) → realpath path ≡ some r → all (ltb 0) r ≡ true

-- a range of bytes, first and last
pub record Range : Type 0 where
  pub range_start : ℕ
  pub range_end : ℕ

-- an error with its status, or a file with its type, a range if there is one, and the length of the content
pub data Answer : Type 0 where
  refused : ℕ → Answer
  serves : Bytes → Bytes → Option Range → ℕ → Answer

unfoldable pub location_root : Bytes → List (Bytes × Bytes) → Bytes
location_root prefix [] = codes "./public"
location_root prefix (l ∷ ls) =
    let rest = location_root prefix ls in if equal l.0 prefix then l.1 else rest

-- the guard against a path that leaves the root
unfoldable pub is_inside : Bytes → Bytes → Bool
unfolding has_prefix
is_inside real_root real_path =
    let c = get_or real_path (length real_root) 0 in
    has_prefix real_root real_path && (c == b'/' || c == 0)

abbrev pub or_else : Option ℕ → ℕ → ℕ
or_else none d = d
or_else (some n) d = n

abbrev pub not_below : ℕ → Option ℕ → Option ℕ
not_below start none = none
not_below start (some n) = if leb start n then some n else none

-- the numbers around the dash: a view without a byte has no number
unfoldable pub range_at : (Bytes → Option ℕ) → ℕ → Bytes → ℕ → Option Range
range_at strtoll size nums dash =
    let start = or_else (if dash == 0 then none else strtoll nums) 0 in
    let last = drop (dash + 1) nums in
    let stop =
      or_else (if length last == 0 then none else not_below start (strtoll last)) (size - 1) in
    if leb start stop && ltb stop size
    then some (record { range_start = start; range_end = stop })
    else none

abbrev pub on_dash : Option ℕ → (ℕ → Option Range) → Option Range
on_dash none f = none
on_dash (some i) f = f i

abbrev pub on_value : Option Bytes → (Bytes → Option Range) → Option Range
on_value none f = none
on_value (some v) f = f v

-- the range that the header asks for
unfoldable pub range_of : (Bytes → Option ℕ) → ℕ → Option Bytes → Option Range
unfolding has_prefix range_at find_byte
range_of strtoll size value = on_value value (λ v.
    if has_prefix (codes "bytes=") v
    then on_dash (find_byte b'-' 0 (drop 6 v)) (range_at strtoll size (drop 6 v))
    else none)

abbrev pub range_length : Option Range → ℕ → ℕ
range_length none size = size
range_length (some r) size = r.range_end - r.range_start + 1

module _ (fs : Files) (strtoll : Bytes → Option ℕ) (range : Option Bytes) where
  -- the file is found
  unfoldable pub serve_file : Bytes → Stat → Answer
  unfolding get_mime_type range_of
  serve_file path st =
      if not st.is_reg
      then refused 403
      else if not (fs.opens path)
      then refused 500
      else let r = range_of strtoll st.size range in
        serves path (get_mime_type path) r (range_length r st.size)

  unfoldable pub serve_index : Bytes → Option Stat → Answer
  unfolding serve_file
  serve_index index none = refused 404
  serve_index index (some st) = serve_file (take 4095 index) st

  -- behind `stat`: a directory stands for its index.html
  unfoldable pub serve_stat : Bytes → Option Stat → Answer
  unfolding serve_file serve_index
  serve_stat path none = refused 404
  serve_stat path (some st) =
      if st.is_dir
      then (let index = path ++ codes "/index.html" in serve_index index (fs.stat index))
      else serve_file path st

  unfoldable pub serve_path : Bytes → Option Bytes → Answer
  unfolding serve_stat is_inside
  serve_path real_root none = refused 404
  serve_path real_root (some real_path) =
      if is_inside real_root real_path
      then serve_stat real_path (fs.stat real_path)
      else refused 403

  unfoldable pub serve_root : Bytes → Option Bytes → Answer
  unfolding serve_path
  serve_root path none = refused 500
  serve_root path (some real_root) = serve_path real_root (fs.realpath path)

  unfoldable pub serve_prefix : List (Bytes × Bytes) → Bytes → Option Bytes → Answer
  unfolding serve_root location_root
  serve_prefix locations uri none = refused 500
  serve_prefix locations uri (some prefix) =
      let root = location_root prefix locations in
      let path = take 4095 (root ++ codes "/" ++ drop (length prefix) uri) in
      if leb 4095 (length path) then refused 414 else serve_root path (fs.realpath root)

  -- `http_static_dir`
  unfoldable pub static_dir : List (Bytes × Bytes) → Bytes → Bytes → Option Bytes → Answer
  unfolding serve_prefix equal
  static_dir locations method uri matched_prefix =
      if not (equal method (codes "GET")) && not (equal method (codes "HEAD"))
      then refused 405
      else serve_prefix locations uri matched_prefix
