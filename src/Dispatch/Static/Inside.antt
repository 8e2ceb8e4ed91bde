-- ===== src/Dispatch/Static/Inside.antt =====
-- What a static location gives away: files below its root, and ranges inside of them.
use nanoproxy.Prelude.{
  ℕ, zero, suc, ◌+◌, ◌-◌, ◌≤◌, ◌<◌, ◌≡◌, refl, sym, subst, ap, ◌∙◌, Bool, true, false, not, ◌&&◌,
  ◌||◌, Option, none, some, List, [], ◌∷◌, ◌++◌, Bytes, codes, arith, ltb, leb, ◌==◌, if◌then◌else◌,
  length, take, drop, get_or, equal, equal_iff, all, take-append-drop, drop-nil, and-eq_true, ◌⊎◌,
  inl, inr,
}
use nanoproxy.StringBuf.{find_byte}
use nanoproxy.Dispatch.{has_prefix}
use nanoproxy.Dispatch.Static.{
  Stat, Files, Range, Answer, refused, serves, location_root, is_inside, or_else, not_below,
  range_at, on_dash, range_of, range_length, serve_file, serve_index, serve_stat, serve_path,
  serve_root, serve_prefix, static_dir,
}

-- The path is the directory's, or goes on with a slash behind it.
abbrev pub IsUnder : Bytes → Bytes → Type 0
IsUnder dir path =
    (rest : Bytes) × ((path ≡ dir ++ rest) × ((rest ≡ []) ⊎ (get_or rest 0 0 ≡ b'/')))

-- a range, if there is one, of a file of this size
abbrev pub FitsIn : ℕ → Option Range → Type 0
FitsIn size none = Unit
FitsIn size (some r) = (r.range_start ≤ r.range_end) × (r.range_end < size)

abbrev pub start_of : Option Range → ℕ
start_of none = 0
start_of (some r) = r.range_start

if-Fits :
    (b : Bool) (start stop size : ℕ)
    → (b ≡ true → (start ≤ stop) × (stop < size))
    → FitsIn size (if b then some (record { range_start = start; range_end = stop }) else none)
if-Fits true start stop size h = h refl
if-Fits false start stop size h = tt

range_at-FitsIn :
    (strtoll : Bytes → Option ℕ) (size : ℕ) (nums : Bytes) (dash : ℕ)
    → FitsIn size (range_at strtoll size nums dash)
unfolding range_at
range_at-FitsIn strtoll size nums dash =
    let start = or_else (if dash == 0 then none else strtoll nums) 0 in
    let last = drop (dash + 1) nums in
    let stop =
      or_else (if length last == 0 then none else not_below start (strtoll last)) (size - 1) in
    if-Fits (leb start stop && ltb stop size) start stop size
      (λ e. (ground (arith, e), ground (arith, e)))

range_of-FitsIn :
    (strtoll : Bytes → Option ℕ) (size : ℕ) (value : Option Bytes)
    → FitsIn size (range_of strtoll size value)
unfolding range_of
range_of-FitsIn strtoll size none = tt
range_of-FitsIn strtoll size (some v) =
    if_asked (has_prefix (codes "bytes=") v) (find_byte b'-' 0 (drop 6 v))
  where
    if_asked :
        (b : Bool) (i : Option ℕ)
        → FitsIn size (if b then on_dash i (range_at strtoll size (drop 6 v)) else none)
    if_asked true none = tt
    if_asked true (some i) = range_at-FitsIn strtoll size (drop 6 v) i
    if_asked false i = tt

range_length_le :
    (size : ℕ) (r : Option Range) → FitsIn size r → start_of r + range_length r size ≤ size
range_length_le size none f = omega arith
range_length_le size (some r) f = omega (arith, f.0, f.1)

rest_start :
    (n : ℕ) (path : Bytes)
    → all (ltb 0) path ≡ true
    → (get_or path n 0 == b'/' || get_or path n 0 == 0) ≡ true
    → (drop n path ≡ []) ⊎ (get_or (drop n path) 0 0 ≡ b'/')
rest_start n [] a e = inl (drop-nil n)
rest_start zero (c ∷ path) a e = inr (ground (arith, a, e))
rest_start (suc n) (c ∷ path) a e =
    rest_start n path (and-eq_true (ltb 0 c) (all (ltb 0) path) a).1 e

is_inside-IsUnder :
    (dir path : Bytes) → all (ltb 0) path ≡ true → is_inside dir path ≡ true → IsUnder dir path
unfolding is_inside has_prefix
is_inside-IsUnder dir path n e =
    let c = get_or path (length dir) 0 in
    let both = and-eq_true (equal (take (length dir) path) dir) (c == b'/' || c == 0) e in
    let same : take (length dir) path ≡ dir = (equal_iff (take (length dir) path) dir).0 both.0 in
    (
      drop (length dir) path,
      (
        sym (take-append-drop (length dir) path) ∙ ap (λ d. d ++ drop (length dir) path) same,
        rest_start (length dir) path n both.1,
      ),
    )

-- A regular file with this path, and a part of what `stat` says of it.
pub record IsPart (fs : Files) (full : Bytes) (r : Option Range) (len : ℕ) : Type 0 where
  pub st : Stat
  pub at : fs.stat full ≡ some st
  pub regular : st.is_reg ≡ true
  pub fits : start_of r + len ≤ st.size

pub record IsDirectory (fs : Files) (path : Bytes) : Type 0 where
  pub st : Stat
  pub at : fs.stat path ≡ some st
  pub is_directory : st.is_dir ≡ true

-- The file that is opened: the resolved path itself, or the page of a directory there, whose own path is
-- made by hand, cut to 4095 bytes, and not resolved again.
abbrev pub Origin : Files → Bytes → Bytes → Option Range → ℕ → Type 0
Origin fs resolved path r len =
    ((path ≡ resolved) × IsPart fs resolved r len)
    ⊎ (IsDirectory fs resolved
        × ((path ≡ take 4095 (resolved ++ codes "/index.html"))
            × IsPart fs (resolved ++ codes "/index.html") r len))

-- the path that is asked of the file system
abbrev pub asked_path : List (Bytes × Bytes) → Bytes → Bytes → Bytes
asked_path locations uri prefix =
    take 4095 (location_root prefix locations ++ codes "/" ++ drop (length prefix) uri)

module _ (fs : Files) where
  -- What is asked for resolves to a path under the directory, and the file that is opened comes from there.
  abbrev pub Keeps : Bytes → Bytes → Answer → Type 0
  Keeps asked dir (refused code) = Unit
  Keeps asked dir (serves path mime r len) =
      (resolved : Bytes) × ((fs.realpath asked ≡ some resolved)
        × (IsUnder dir resolved × Origin fs resolved path r len))

  -- the same of a path that is resolved
  abbrev Comes : Bytes → Answer → Type 0
  Comes resolved (refused code) = Unit
  Comes resolved (serves path mime r len) = Origin fs resolved path r len

  if-Answer :
      (P : Answer → Type 0) (b : Bool) (x y : Answer)
      → (b ≡ true → P x)
      → (b ≡ false → P y)
      → P (if b then x else y)
  if-Answer P true x y g h = g refl
  if-Answer P false x y g h = h refl

  Comes-Keeps :
      (asked dir resolved : Bytes) (x : Answer)
      → fs.realpath asked ≡ some resolved
      → IsUnder dir resolved
      → Comes resolved x
      → Keeps asked dir x
  Comes-Keeps asked dir resolved (refused code) e u c = tt
  Comes-Keeps asked dir resolved (serves path mime r len) e u c = (resolved, (e, (u, c)))

  module _ (strtoll : Bytes → Option ℕ) (range : Option Bytes) where
    serve_file-Comes :
        (resolved path full : Bytes) (st : Stat)
        → fs.stat full ≡ some st
        → ((r : Option Range) (len : ℕ) → IsPart fs full r len → Origin fs resolved path r len)
        → Comes resolved (serve_file fs strtoll range path st)
    unfolding serve_file
    serve_file-Comes resolved path full st e origin =
        if-Answer (Comes resolved) (not st.is_reg) _ _ (λ b. tt)
          (λ b.
            if-Answer (Comes resolved) (not (fs.opens path)) _ _ (λ c. tt)
              (λ c.
                origin (range_of strtoll st.size range)
                  (range_length (range_of strtoll st.size range) st.size)
                  (record {
                    st = st;
                    at = e;
                    regular = ground (arith, b);
                    fits =
                        range_length_le st.size (range_of strtoll st.size range)
                          (range_of-FitsIn strtoll st.size range);
                  })))

    serve_index-Comes :
        (resolved : Bytes) (o : Option Stat)
        → IsDirectory fs resolved
        → fs.stat (resolved ++ codes "/index.html") ≡ o
        → Comes resolved (serve_index fs strtoll range (resolved ++ codes "/index.html") o)
    unfolding serve_index
    serve_index-Comes resolved none d e = tt
    serve_index-Comes resolved (some st) d e =
        let index = resolved ++ codes "/index.html" in
        serve_file-Comes resolved (take 4095 index) index st e (λ r len part. inr (d, (refl, part)))

    serve_stat-Comes :
        (resolved : Bytes) (o : Option Stat)
        → fs.stat resolved ≡ o
        → Comes resolved (serve_stat fs strtoll range resolved o)
    unfolding serve_stat
    serve_stat-Comes resolved none e = tt
    serve_stat-Comes resolved (some st) e =
        let index = resolved ++ codes "/index.html" in
        if-Answer (Comes resolved) st.is_dir _ _
          (λ b.
            serve_index-Comes resolved (fs.stat index)
              (record { st = st; at = e; is_directory = b }) refl)
          (λ b. serve_file-Comes resolved resolved resolved st e (λ r len part. inl (refl, part)))

    serve_path-Keeps :
        (asked dir : Bytes) (o : Option Bytes)
        → fs.realpath asked ≡ o
        → Keeps asked dir (serve_path fs strtoll range dir o)
    unfolding serve_path
    serve_path-Keeps asked dir none e = tt
    serve_path-Keeps asked dir (some resolved) e =
        if-Answer (Keeps asked dir) (is_inside dir resolved) _ _
          (λ b.
            Comes-Keeps asked dir resolved (serve_stat fs strtoll range resolved (fs.stat resolved))
              e (is_inside-IsUnder dir resolved (fs.no_nul asked resolved e) b)
              (serve_stat-Comes resolved (fs.stat resolved) refl))
          (λ b. tt)

    -- Where the root of the matched location resolves to a directory, whatever the URI is: if a file is
    -- served, the path made of root and URI resolves, links and all, to the directory or to a path that goes
    -- on behind it with a slash; and the file is the regular one with that resolved path, or, if that is a
    -- directory, the regular one under its name with `/index.html` behind it (cut to 4095 bytes), which may be a
    -- link to anywhere. What is sent, with or without a range, lies inside of the size that `stat` gave.
    pub static_dir-Keeps :
        (locations : List (Bytes × Bytes)) (method uri prefix dir : Bytes)
        → fs.realpath (location_root prefix locations) ≡ some dir
        → Keeps
            (asked_path locations uri prefix)
            dir
            (static_dir fs strtoll range locations method uri (some prefix))
    unfolding static_dir serve_prefix serve_root
    static_dir-Keeps locations method uri prefix dir e =
        let asked = asked_path locations uri prefix in
        if-Answer (Keeps asked dir)
          (not (equal method (codes "GET")) && not (equal method (codes "HEAD"))) _ _ (λ b. tt)
          (λ b.
            if-Answer (Keeps asked dir) (leb 4095 (length asked)) _ _ (λ c. tt)
              (λ c.
                subst (λ o. Keeps asked dir (serve_root fs strtoll range asked o)) (sym e)
                  (serve_path-Keeps asked dir (fs.realpath asked) refl)))
