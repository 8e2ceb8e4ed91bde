-- ===== src/Dispatch/Tests.antt =====
-- Runs of the dispatcher, and the instances of its theorems.
use nanoproxy.Prelude.{
  ℕ, ◌≡◌, refl, Bool, true, false, Option, none, some, List, [], ◌∷◌, Bytes, codes, arith, equal,
  if◌then◌else◌, is_digit, subst, some-cancel, length, all, ltb, ◌<◌,
}
use nanoproxy.Dispatch.{choose_handler, get_mime_type}
use nanoproxy.Dispatch.Longest.{IsLongest, choose_handler-IsLongest}
use nanoproxy.Dispatch.Static.{Stat, Files, serves, range_of, location_root, static_dir}
use nanoproxy.Dispatch.Static.Inside.{Keeps, asked_path, static_dir-Keeps}

abbrev listener : List (Bytes × ℕ)
listener = (codes "/", 1) ∷ (codes "/api", 2) ∷ []

abbrev globals : List (Bytes × ℕ)
globals = (codes "/api/", 3) ∷ (codes "/api", 4) ∷ []

chosen_global :
    (choose_handler (codes "/api/users") (some listener) globals).found ≡ some (codes "/api/", 3)
unfolding choose_handler
chosen_global = refl

chosen_listener :
    (choose_handler (codes "/api") (some listener) globals).found ≡ some (codes "/api", 2)
unfolding choose_handler
chosen_listener = refl

choose_handler-IsLongest_example :
    IsLongest
      (codes "/api/users")
      listener
      globals
      (choose_handler (codes "/api/users") (some listener) globals)
choose_handler-IsLongest_example =
    choose_handler-IsLongest (codes "/api/users") (some listener) globals

type_of_page : get_mime_type (codes "/srv/a/Index.HTML") ≡ codes "text/html"
unfolding get_mime_type
type_of_page = refl

-- a file system with a directory and one file in it
abbrev lone_path : Bytes → Option Bytes
lone_path path =
    if equal path (codes "/srv") then some (codes "/srv") else some (codes "/srv/a.txt")

either :
    (P : Bytes → Type 0) (b : Bool) (x y r : Bytes)
    → P x
    → P y
    → (if b then some x else some y) ≡ some r
    → P r
either P true x y r px py e = subst P (some-cancel e) px
either P false x y r px py e = subst P (some-cancel e) py

abbrev lone_stat : Bytes → Option Stat
lone_stat path =
    if equal path (codes "/srv/a.txt")
    then some (record { is_dir = false; is_reg = true; size = 9 })
    else none

abbrev lone_file : Files
lone_file = record {
  realpath = lone_path;
  stat = lone_stat;
  opens = λ path. true;
  length-realpath = λ path r e.
      either (λ s. length s < 4096) (equal path (codes "/srv")) _ _ r (omega arith) (omega arith) e;
  no_nul =
      λ path r e. either (λ s. all (ltb 0) s ≡ true) (equal path (codes "/srv")) _ _ r refl refl e;
}

-- `strtoll` for one digit
abbrev one_digit : Bytes → Option ℕ
one_digit [] = none
one_digit (c ∷ s) = if is_digit c then some 2 else none

abbrev sites : List (Bytes × Bytes)
sites = (codes "/files/", codes "/srv") ∷ []

served_part :
    static_dir lone_file one_digit
      (some (codes "bytes=2-"))
      sites
      (codes "GET")
      (codes "/files/a.txt")
      (some (codes "/files/"))
    ≡ serves
        (codes "/srv/a.txt")
        (codes "text/plain")
        (some (record { range_start = 2; range_end = 8 }))
        7
unfolding static_dir is_digit
served_part = refl

static_dir-Keeps_example :
    Keeps lone_file (asked_path sites (codes "/files/a.txt") (codes "/files/")) (codes "/srv") (
      static_dir lone_file one_digit
        (some (codes "bytes=2-"))
        sites
        (codes "GET")
        (codes "/files/a.txt")
        (some (codes "/files/")))
unfolding equal location_root
static_dir-Keeps_example =
    static_dir-Keeps lone_file one_digit (some (codes "bytes=2-")) sites (codes "GET")
      (codes "/files/a.txt") (codes "/files/") (codes "/srv") refl

-- the last two bytes are asked for, and the first three are served
suffix_range :
    range_of one_digit 9 (some (codes "bytes=-2"))
    ≡ some (record { range_start = 0; range_end = 2 })
unfolding range_of is_digit
suffix_range = refl
