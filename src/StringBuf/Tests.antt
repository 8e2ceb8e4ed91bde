-- ===== src/StringBuf/Tests.antt =====
-- Runs of the buffer, and the instances of its theorems.
use nanoproxy.Prelude.{replicate, ◌≡◌, refl, true, some, List, [], ◌∷◌, ◌++◌, arith, codes, drop}
use nanoproxy.Samples.{heap}
use nanoproxy.StringBuf.Inv.{IsValid}
use nanoproxy.StringBuf.Refine.{
  Op, add, add_char, remove, run, replay, run_refines, step, init_str-IsValid, kept,
}
use nanoproxy.StringBuf.Search.{first_match, find-first_match, IsFirst, memchr-IsFirst}
use nanoproxy.StringBuf.{
  StringBuf, contents, append, append_char, reserve, consume, find, memchr, hinted, init_str,
}

abbrev small : StringBuf
small = record { mem = some (codes "ab" ++ 0 ∷ 0 ∷ []); size = 2; capacity = 4; owned = true }

small-IsValid : IsValid small
small-IsValid = record { held = (refl, omega arith, refl); small = omega arith }

abbrev calls : List Op
calls = add (codes "cdef") ∷ remove 3 ∷ add_char b'!' ∷ add [] ∷ []

run_refines_example :
    let (oks, last) = run heap small calls in
    IsValid last × (contents last ≡ replay calls oks (codes "ab"))
run_refines_example =
    run_refines heap calls small small-IsValid (omega arith, (omega arith, (tt, (omega arith, tt))))

run-calls : contents (run heap small calls).1 ≡ codes "def!"
unfolding run step append append_char reserve consume
run-calls = refl

abbrev word : StringBuf
word = record { mem = some (codes "banana" ++ 0 ∷ []); size = 6; capacity = 7; owned = true }

find-first_match_example :
    find word 2 (codes "an") ≡ first_match 2 (codes "an") (drop 2 (codes "banana"))
find-first_match_example =
    find-first_match word 2 (codes "an")
      (record { held = (refl, omega arith, refl); small = omega arith }) (omega arith) (omega arith)

memchr-word : memchr word b'n' 3 ≡ some 4
unfolding memchr
memchr-word = refl

memchr-IsFirst_case : IsFirst b'n' 3 (codes "banana") 4
memchr-IsFirst_case = memchr-IsFirst word b'n' 3 4 memchr-word

abbrev greeting : StringBuf
greeting = record {
  mem = some (codes "hi" ++ replicate 62 0);
  size = 2;
  capacity = 64;
  owned = true;
}

init_str-heap : init_str heap (some (codes "hi")) 2 64 ≡ some greeting
unfolding init_str
init_str-heap = refl

init_str-IsValid_case :
    IsValid greeting
    × (contents greeting ≡ kept (some (codes "hi")) 2 (hinted 64))
    × (greeting.capacity ≡ hinted 64)
init_str-IsValid_case = init_str-IsValid heap (some (codes "hi")) 2 64 (omega arith) init_str-heap
