-- ===== src/Dict/Json/Print/Render.antt =====
-- What `dict_serialize_json` writes, as a text, and that it writes just that where there is room.
use nanoproxy.Prelude.{
  ℕ, zero, suc, ◌+◌, ◌-◌, ◌<◌, ◌≡◌, refl, sym, subst, ap, ◌∙◌, Bool, true, false, ◌&&◌, Option,
  none, some, [], ◌∷◌, ◌++◌, Bytes, arith, codes, ltb, leb, if◌then◌else◌, length, ◌>>=◌,
  length-append, ap₂, lt→ltb, ltb→lt, append_assoc, append-nil, Bool-cases, inl, inr,
}
use nanoproxy.Dict.{
  DictValue, null, bool, number, int64, string, array, object, DictArray, array_end, entry,
  DictObject, object_end, pair,
}
use nanoproxy.Dict.Json.Text.{signed_decimal, Doubles}
use nanoproxy.Dict.Json.Print.{
  Cursor, append_char, append_text, escape, append_escapes, append_escaped, append_indent,
  append_line, is_safe, has_entries, has_pairs, append_value, append_entries, append_pairs,
  serialize_json,
}

unfoldable pub escaped_text : Bytes → Bytes
escaped_text [] = []
escaped_text (c ∷ cs) = escape c ++ escaped_text cs

abbrev pub quoted : Bytes → Bytes
quoted s = b'"' ∷ escaped_text s ++ b'"' ∷ []

unfoldable pub indent : ℕ → Bytes
indent zero = []
indent (suc level) = codes "  " ++ indent level

unfoldable pub line : Bool → ℕ → Bytes
unfolding indent
line false level = []
line true level = 10 ∷ indent level

abbrev separator : Bool → Bool → ℕ → Bytes
separator pretty true level = []
separator pretty false level = b',' ∷ line pretty level

abbrev pub blank : Bool → Bytes
blank true = b' ' ∷ []
blank false = []

module _ (doubles : Doubles) (pretty : Bool) where
  unfoldable mutual
    unfolding escaped_text

    pub render : DictValue → ℕ → Bytes
    render null level = codes "null"
    render (bool b) level = if b then codes "true" else codes "false"
    render (number d) level = doubles.print d
    render (int64 w) level = if is_safe w then signed_decimal w else quoted (signed_decimal w)
    render (string s) level = quoted s
    render (array xs) level =
        let edge = line (has_entries xs && pretty) level in
        b'[' ∷ edge ++ (render_entries xs true level ++ (edge ++ b']' ∷ []))
    render (object ps) level =
        let edge = line (has_pairs ps && pretty) level in
        b'{' ∷ edge ++ (render_pairs ps true level ++ (edge ++ b'}' ∷ []))

    pub render_entries : DictArray → Bool → ℕ → Bytes
    render_entries array_end first level = []
    render_entries (entry v xs) first level =
        separator pretty first level ++ (render v (level + 1) ++ render_entries xs false level)

    pub render_pairs : DictObject → Bool → ℕ → Bytes
    render_pairs object_end first level = []
    render_pairs (pair k v ps) first level =
        separator pretty first level
        ++ (quoted k
            ++ (b':' ∷ blank pretty ++ (render v (level + 1) ++ render_pairs ps false level)))

-- the cursor behind a text, where the text and a NUL fit
abbrev advance : Bytes → Cursor → Option Cursor
advance t o =
    if ltb (length t) o.remaining
    then some (record { written = o.written ++ t; remaining = o.remaining - length t })
    else none

-- the step writes just the text
record Writes (f : Cursor → Option Cursor) (t : Bytes) : Type 0 where
  runs : (o : Cursor) → 0 < o.remaining → f o ≡ advance t o

abbrev at : Bytes → ℕ → Cursor
at w n = record { written = w; remaining = n }

Writes-nothing : Writes (λ o. some o) []
Writes-nothing = record {
  runs = λ o h.
      rw (lt→ltb 0 o.remaining h)
        (ap₂ (λ w n. some (at w n)) (sym (append-nil o.written)) (omega arith));
}

-- two steps, where the first one has found its room
then_step :
    (g : Cursor → Option Cursor) (s t : Bytes)
    → Writes g t
    → (o : Cursor) → length s < o.remaining
    → g (at (o.written ++ s) (o.remaining - length s)) ≡ advance (s ++ t) o
then_step g s t v o h =
    v.runs (at (o.written ++ s) (o.remaining - length s)) (omega arith)
    ∙ ap₂ (λ b c. if b then some c else none) (ground (arith, length-append s t))
        (ap₂ at (append_assoc o.written s t) (omega (arith, length-append s t)))

Writes-then :
    (f g : Cursor → Option Cursor) (s t : Bytes)
    → Writes f s
    → Writes g t
    → Writes (λ o. f o >>= g) (s ++ t)
Writes-then f g s t w v = record {
  runs = λ o h. elim (Bool-cases (ltb (length s) o.remaining)) [
    | inl e ↦
        let first : f o ≡ some (at (o.written ++ s) (o.remaining - length s)) =
          w.runs o h ∙ rw e refl in
        ap (λ r. r >>= g) first ∙ then_step g s t v o (ltb→lt (length s) o.remaining e)
    | inr e ↦
        let full : ltb (length (s ++ t)) o.remaining ≡ false = ground (arith, length-append s t) in
        let first : f o ≡ none = w.runs o h ∙ rw e refl in ap (λ r. r >>= g) first ∙ rw full refl
  ];
}

append_char-Writes : (c : ℕ) → Writes (append_char c) (c ∷ [])
unfolding append_char
append_char-Writes c = record { runs = λ o h. ground arith }

append_text-Writes : (t : Bytes) → Writes (append_text t) t
unfolding append_text
append_text-Writes [] = Writes-nothing
append_text-Writes (c ∷ cs) =
    Writes-then (append_char c) (append_text cs) (c ∷ []) cs (append_char-Writes c)
      (append_text-Writes cs)

append_escapes-Writes : (s : Bytes) → Writes (append_escapes s) (escaped_text s)
unfolding append_escapes escaped_text
append_escapes-Writes [] = Writes-nothing
append_escapes-Writes (c ∷ cs) =
    Writes-then (append_text (escape c)) (append_escapes cs) (escape c) (escaped_text cs)
      (append_text-Writes (escape c)) (append_escapes-Writes cs)

append_indent-Writes : (level : ℕ) → Writes (append_indent level) (indent level)
unfolding append_indent indent
append_indent-Writes zero = Writes-nothing
append_indent-Writes (suc level) =
    Writes-then (append_text (codes "  ")) (append_indent level) (codes "  ") (indent level)
      (append_text-Writes (codes "  ")) (append_indent-Writes level)

append_line-Writes : (p : Bool) (level : ℕ) → Writes (append_line p level) (line p level)
unfolding append_line line
append_line-Writes false level = Writes-nothing
append_line-Writes true level =
    Writes-then (append_char 10) (append_indent level) (10 ∷ []) (indent level)
      (append_char-Writes 10) (append_indent-Writes level)

append_escaped-Writes : (s : Bytes) → Writes (append_escaped s) (quoted s)
unfolding append_escaped
append_escaped-Writes s =
    Writes-then (λ o. append_char b'"' o >>= append_escapes s) (append_char b'"')
      (b'"' ∷ escaped_text s) (b'"' ∷ [])
      (Writes-then (append_char b'"') (append_escapes s) (b'"' ∷ []) (escaped_text s)
        (append_char-Writes b'"') (append_escapes-Writes s))
      (append_char-Writes b'"')

-- five steps in a row, as they stand around the entries of an array or the pairs of an object
around :
    (front back : ℕ) (edge : Cursor → Option Cursor) (inner : Cursor → Option Cursor) (e t : Bytes)
    → Writes edge e
    → Writes inner t
    → Writes
        (λ o. append_char front o >>= edge >>= inner >>= edge >>= append_char back)
        (front ∷ e ++ (t ++ (e ++ back ∷ [])))
around front back edge inner e t w v =
    let one = Writes-then (append_char front) edge (front ∷ []) e (append_char-Writes front) w in
    let two = Writes-then _ inner _ t one v in
    let three = Writes-then _ edge _ e two w in
    let four = Writes-then _ (append_char back) _ (back ∷ []) three (append_char-Writes back) in
    let same : ((((front ∷ []) ++ e) ++ t) ++ e) ++ (back ∷ [])
        ≡ front ∷ e ++ (t ++ (e ++ back ∷ [])) =
      simp append_assoc in
    subst (Writes (λ o. append_char front o >>= edge >>= inner >>= edge >>= append_char back)) same
      four

separator-Writes :
    (pretty first : Bool) (level : ℕ)
    → Writes
        (λ o. if first then some o else (append_char b',' o >>= append_line pretty level))
        (separator pretty first level)
separator-Writes pretty true level = Writes-nothing
separator-Writes pretty false level =
    Writes-then (append_char b',') (append_line pretty level) (b',' ∷ []) (line pretty level)
      (append_char-Writes b',') (append_line-Writes pretty level)

blank-Writes :
    (pretty : Bool) → Writes (if pretty then append_char b' ' else (λ q. some q)) (blank pretty)
blank-Writes true = append_char-Writes b' '
blank-Writes false = Writes-nothing

module _ (doubles : Doubles) (pretty : Bool) where
  mutual
    unfolding append_value render

    append_value-Writes :
        (v : DictValue) (level : ℕ)
        → Writes (append_value doubles pretty v level) (render doubles pretty v level)
    append_value-Writes null level = append_text-Writes (codes "null")
    append_value-Writes (bool true) level = append_text-Writes (codes "true")
    append_value-Writes (bool false) level = append_text-Writes (codes "false")
    append_value-Writes (number d) level =
        let short : leb 64 (length (doubles.print d)) ≡ false =
          ground (arith, doubles.print_short d) in
        record { runs = λ o h. rw short ((append_text-Writes (doubles.print d)).runs o h) }
    append_value-Writes (int64 w) level = elim (Bool-cases (is_safe w)) [
      | inl e ↦ record { runs = λ o h. rw e ((append_text-Writes (signed_decimal w)).runs o h) }
      | inr e ↦ record { runs = λ o h. rw e ((append_escaped-Writes (signed_decimal w)).runs o h) }
    ]
    append_value-Writes (string s) level = append_escaped-Writes s
    append_value-Writes (array xs) level =
        around b'[' b']' (append_line (has_entries xs && pretty) level)
          (append_entries doubles pretty xs true level) (line (has_entries xs && pretty) level)
          (render_entries doubles pretty xs true level)
          (append_line-Writes (has_entries xs && pretty) level)
          (append_entries-Writes xs true level)
    append_value-Writes (object ps) level =
        around b'{' b'}' (append_line (has_pairs ps && pretty) level)
          (append_pairs doubles pretty ps true level) (line (has_pairs ps && pretty) level)
          (render_pairs doubles pretty ps true level)
          (append_line-Writes (has_pairs ps && pretty) level) (append_pairs-Writes ps true level)

    append_entries-Writes :
        (xs : DictArray) (first : Bool) (level : ℕ)
        → Writes
            (append_entries doubles pretty xs first level)
            (render_entries doubles pretty xs first level)
    append_entries-Writes array_end first level = Writes-nothing
    append_entries-Writes (entry v xs) first level =
        let sep = separator-Writes pretty first level in
        let one = Writes-then _ _ _ _ sep (append_value-Writes v (level + 1)) in
        let two = Writes-then _ _ _ _ one (append_entries-Writes xs false level) in
        subst (Writes (append_entries doubles pretty (entry v xs) first level)) (simp append_assoc)
          two

    append_pairs-Writes :
        (ps : DictObject) (first : Bool) (level : ℕ)
        → Writes
            (append_pairs doubles pretty ps first level)
            (render_pairs doubles pretty ps first level)
    append_pairs-Writes object_end first level = Writes-nothing
    append_pairs-Writes (pair k v ps) first level =
        let sep = separator-Writes pretty first level in
        let one = Writes-then _ _ _ _ sep (append_escaped-Writes k) in
        let two = Writes-then _ _ _ _ one (append_char-Writes b':') in
        let three = Writes-then _ _ _ _ two (blank-Writes pretty) in
        let four = Writes-then _ _ _ _ three (append_value-Writes v (level + 1)) in
        let five = Writes-then _ _ _ _ four (append_pairs-Writes ps false level) in
        subst (Writes (append_pairs doubles pretty (pair k v ps) first level)) (simp append_assoc)
          five

  -- `dict_serialize_json` gives the rendered text exactly where it fits the buffer with its NUL, and
  -- NULL where it does not, whether it is pretty or not.
  pub serialize_json-render :
      (v : DictValue) (buf_len : ℕ)
      → serialize_json doubles pretty v buf_len ≡ (
          if ltb (length (render doubles pretty v 0)) buf_len
          then some (render doubles pretty v 0)
          else none)
  unfolding serialize_json
  serialize_json-render v zero = ground arith
  serialize_json-render v (suc n) =
      ground (arith, (append_value-Writes v 0).runs (at [] (suc n)) (omega arith))
