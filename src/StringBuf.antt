-- ===== src/StringBuf.antt =====
-- include/stringbuf.h: the growable byte buffer that the parser and the proxy read from.
-- `mem` is what `data` points to, its `capacity` bytes as a list, or `none` for NULL. A size is the
-- 64-bit word of an `ssize_t`. An operation that returns `bool` returns the new buffer beside it.
-- The pointer `sb` itself is never NULL. The allocator is a parameter.
pub mod Heap
pub mod Inv
pub mod Search
pub mod Refine
mod Tests
use nanoproxy.Prelude.{
  ℕ, zero, suc, ◌+◌, ◌-◌, ◌*◌, ◌^◌, Bool, true, false, not, ◌&&◌, ◌||◌, Option, none, some, List,
  [], ◌∷◌, Bytes, ltb, leb, ◌==◌, if◌then◌else◌, take, drop, set, write_at, length, get_or,
  is_space, c_string, equal,
}
use Heap.{Alloc}

-- `StringBuf`
pub record StringBuf : Type 0 where
  pub mem : Option Bytes
  pub size : ℕ
  pub capacity : ℕ
  pub owned : Bool

abbrev pub default_cap : ℕ
default_cap = 1024 * 64

abbrev pub max_cap : ℕ
max_cap = 64 * 1024 * 1024

-- above this a capacity hint is not taken
abbrev pub max_hint : ℕ
max_hint = 1024 * 1024 * 16

abbrev pub ssize_max : ℕ
ssize_max = 2 ^ 63 - 1

-- Is the 64-bit word negative as an `ssize_t`?
abbrev pub is_negative : ℕ → Bool
is_negative n = leb (2 ^ 63) n

-- A write through `data`; a write through NULL has no result to model and changes nothing.
abbrev pub on_mem : (Bytes → Bytes) → Option Bytes → Option Bytes
on_mem f none = none
on_mem f (some m) = some (f m)

-- The bytes in use: what `stringbuf_cstr` and `stringbuf_size` show.
abbrev pub bytes_of : Option Bytes → ℕ → Bytes
bytes_of none n = []
bytes_of (some m) n = take n m

abbrev pub contents : StringBuf → Bytes
contents sb = bytes_of sb.mem sb.size

-- `stringbuf_init_view`
unfoldable pub init_view : Bytes → StringBuf
init_view src = record { mem = some src; size = length src; capacity = length src; owned = false }

-- `stringbuf_init_buf`, over the caller's storage
unfoldable pub init_buf : Bytes → StringBuf
init_buf src = record { mem = some (set src 0 0); size = 0; capacity = length src; owned = false }

-- `stringbuf_clear`
unfoldable pub clear : StringBuf → StringBuf
clear sb = record sb { mem = on_mem (λ m. set m 0 0) sb.mem; size = 0 }

-- `stringbuf_free`; `owned` keeps its value
unfoldable pub free : StringBuf → StringBuf
free sb = record sb { mem = none; size = 0; capacity = 0 }

-- `memmove` of the bytes from `n` on to the front
abbrev pub shift : ℕ → ℕ → Bytes → Bytes
shift n size m = set (write_at 0 (take (size - n) (drop n m)) m) (size - n) 0

-- `stringbuf_consume`
unfoldable pub consume : StringBuf → ℕ → StringBuf
consume sb n = elim sb.mem [
  | none ↦ sb
  | some m ↦
      if is_negative n || n == 0
      then sb
      else let k = if ltb sb.size n then sb.size else n in
        record sb { mem = some (shift k sb.size m); size = sb.size - k }
]

-- the capacity that a hint gives
abbrev pub hinted : ℕ → ℕ
hinted hint = if hint == 0 || ltb max_hint hint then default_cap else hint

-- the block of `stringbuf_init_str`, with its capacity, and the bytes copied in
fill : Option Bytes → ℕ → ℕ → Bytes → StringBuf
fill none srclen cap m = record { mem = some (set m 0 0); size = 0; capacity = cap; owned = true }
fill (some src) srclen cap m =
    if srclen == 0
    then record { mem = some (set m 0 0); size = 0; capacity = cap; owned = true }
    else let n = if ltb (cap - 1) srclen then cap - 1 else srclen in
      record {
        mem = some (set (write_at 0 (take n src) (set m 0 0)) n 0);
        size = n;
        capacity = cap;
        owned = true;
      }

-- the new capacity that `stringbuf_reserve` asks for; `need` counts the terminator
abbrev pub grown : ℕ → ℕ → ℕ
grown cap need =
    let doubled = cap * 2 in
    let wide = if ltb doubled need then need else doubled in if ltb wide 128 then 128 else wide

module _ (a : Alloc) where
  -- `stringbuf_init_str`; `none` where `malloc` fails
  unfoldable pub init_str : Option Bytes → ℕ → ℕ → Option StringBuf
  unfolding fill
  init_str src srclen hint = elim (a.malloc (hinted hint)) [
    | none ↦ none
    | some m ↦ some (fill src srclen (hinted hint) m)
  ]

  -- `stringbuf_init`
  unfoldable pub init : ℕ → Option StringBuf
  unfolding init_str
  init hint = init_str none 0 hint

  -- the call of `realloc`, at the end of `stringbuf_reserve`
  grow : StringBuf → ℕ → Bool × StringBuf
  grow sb cap = elim (a.realloc sb.mem cap) [
    | none ↦ (false, sb)
    | some m ↦ (true, record sb { mem = some m; capacity = cap })
  ]

  -- `stringbuf_reserve`
  unfoldable pub reserve : StringBuf → ℕ → Bool × StringBuf
  unfolding grow
  reserve sb need =
      if is_negative need || ltb (ssize_max - 1) need
      then (false, sb)
      else if leb (need + 1) sb.capacity
      then (true, sb)
      else if not sb.owned
      then (false, sb)
      else if ltb (2 ^ 62 - 1) sb.capacity
      then (false, sb)
      else if ltb max_cap (grown sb.capacity (need + 1))
      then (false, sb)
      else grow sb (grown sb.capacity (need + 1))

  -- the copy of `stringbuf_append`, once there is room
  abbrev pub put : StringBuf → Bytes → ℕ → StringBuf
  put sb src len = record sb {
    mem = on_mem (λ m. set (write_at sb.size (take len src) m) (sb.size + len) 0) sb.mem;
    size = sb.size + len;
  }

  append_reserved : Bool × StringBuf → StringBuf → Bytes → ℕ → Bool × StringBuf
  append_reserved (false, r) sb src len = (false, r)
  append_reserved (true, r) sb src len =
      if leb r.capacity (r.size + len) then (false, r) else (true, put r src len)

  -- `stringbuf_append`; `src` points to at least `len` bytes, or is NULL
  unfoldable pub append : StringBuf → Option Bytes → ℕ → Bool × StringBuf
  unfolding append_reserved
  append sb src len = elim src [
    | none ↦ (false, sb)
    | some s ↦
        if len == 0 || is_negative len
        then (false, sb)
        else if ltb (ssize_max - len) sb.size
        then (false, sb)
        else append_reserved (reserve sb (sb.size + len)) sb s len
  ]

  -- `stringbuf_append_str`
  unfoldable pub append_str : StringBuf → Option Bytes → Bool × StringBuf
  unfolding append
  append_str sb src = elim src [
    | none ↦ (false, sb)
    | some s ↦ append sb (some s) (length (c_string s))
  ]

  append_char_reserved : Bool × StringBuf → ℕ → Bool × StringBuf
  append_char_reserved (false, r) c = (false, r)
  append_char_reserved (true, r) c = (
    true,
    record r { mem = on_mem (λ m. set (set m r.size c) (r.size + 1) 0) r.mem; size = r.size + 1 },
  )

  -- `stringbuf_append_char`
  unfoldable pub append_char : StringBuf → ℕ → Bool × StringBuf
  unfolding append_char_reserved
  append_char sb c = append_char_reserved (reserve sb (sb.size + 1)) c

  -- `stringbuf_strndup`: the bytes of the new string, without its terminator
  unfoldable pub strndup : StringBuf → ℕ → ℕ → Option Bytes
  strndup sb start n = elim sb.mem [
    | none ↦ none
    | some m ↦
        if ltb sb.size start
        then none
        else let k = if ltb (sb.size - start) n then sb.size - start else n in
          on_mem (λ _. take k (drop start m)) (a.malloc (k + 1))
  ]

-- `memchr` over a list: the index of the first `c`, counted from `i`
unfoldable pub find_byte : ℕ → ℕ → Bytes → Option ℕ
find_byte c i [] = none
find_byte c i (x ∷ xs) = if x == c then some i else find_byte c (i + 1) xs

-- `stringbuf_memchr`; `none` for -1
unfoldable pub memchr : StringBuf → ℕ → ℕ → Option ℕ
unfolding find_byte
memchr sb c start = elim sb.mem [
  | none ↦ none
  | some m ↦
      if ltb sb.size start then none else find_byte c start (take (sb.size - start) (drop start m))
]

-- the loop of `stringbuf_find`: `k` positions are left, and the hay starts at position `i`
scan : ℕ → ℕ → Bytes → Bytes → Option ℕ
scan zero i needle hay = none
scan (suc k) i needle hay =
    let rest = scan k (i + 1) needle (drop 1 hay) in
    if get_or hay 0 0 == get_or needle 0 0 && equal (take (length needle) hay) needle
    then some i
    else rest

-- `stringbuf_find`; `none` for -1
unfoldable pub find : StringBuf → ℕ → Bytes → Option ℕ
unfolding memchr scan equal
find sb start needle = elim sb.mem [
  | none ↦ none
  | some m ↦
      if ltb sb.size start || length needle == 0 || ltb (sb.size - start) (length needle)
      then none
      else if length needle == 1
      then memchr sb (get_or needle 0 0) start
      else scan (sb.size - start - length needle + 1) start needle
          (take (sb.size - start) (drop start m))
]

-- the loop of `stringbuf_trim_left`, over the bytes from `start` on
skip_space : ℕ → Bytes → ℕ
skip_space i [] = i
skip_space i (x ∷ xs) = let rest = skip_space (i + 1) xs in if is_space x then rest else i

-- `stringbuf_trim_left`
unfoldable pub trim_left : StringBuf → ℕ → ℕ
unfolding skip_space is_space
trim_left sb start = elim sb.mem [
  | none ↦ start
  | some m ↦ skip_space start (take (sb.size - start) (drop start m))
]

-- `stringbuf_trim_right`, over the bytes of the block
trim_back : Bytes → ℕ → ℕ
trim_back m zero = zero
trim_back m (suc e) = let rest = trim_back m e in if is_space (get_or m e 0) then rest else suc e

unfoldable pub trim_right : StringBuf → ℕ → ℕ
unfolding trim_back is_space
trim_right sb end = elim sb.mem [ none ↦ end | some m ↦ trim_back m end ]
