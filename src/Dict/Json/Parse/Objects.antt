-- ===== src/Dict/Json/Parse/Objects.antt =====
-- A rendered object is read back, if its values are.
use nanoproxy.Prelude.{
  ℕ, zero, suc, ◌+◌, ◌≡◌, refl, sym, ap, ◌∙◌, Bool, true, false, none, [], ◌∷◌, ◌++◌, Bytes,
  is_digit, append_assoc,
}
use nanoproxy.Dict.{
  DictValue, object, DictObject, object_end, pair, append_pair, find_key, max_key_len,
}
use nanoproxy.Dict.Json.Text.{Doubles, goes_on}
use nanoproxy.Dict.Json.Print.Render.{quoted, line, blank, render, render_pairs}
use nanoproxy.Dict.Json.Parse.{
  ok, skip_whitespace, next_in, starts, after_pair, pair_in, parse_value, parse_pairs,
}
use nanoproxy.Dict.Json.Parse.Strings.{IsText, parse_string-quoted}
use nanoproxy.Dict.Json.Parse.Numbers.{Stops}
use nanoproxy.Dict.Json.Parse.Steps.{value_object, object_pairs, ReadsPair, pair_step}
use nanoproxy.Dict.Json.Parse.Valid.{
  IsJson, join_pairs, join-append_pair, join_pairs_end, set_pairs-IsText, skip-line, Stops-line,
}
use nanoproxy.Dict.Json.Parse.Leaves.{skip-render}

skip-blank : (p : Bool) (s : Bytes) → skip_whitespace (blank p ++ s) ≡ skip_whitespace s
unfolding skip_whitespace
skip-blank true s = refl
skip-blank false s = refl

module _ (doubles : Doubles) (pretty : Bool) (level : ℕ) (rest : Bytes) where
  abbrev edge : Bytes
  edge = line pretty level ++ b'}' ∷ rest

  -- the text from a pair on, and the text behind one, with the end of the object
  abbrev pub from_pairs : DictObject → Bytes
  from_pairs ps = render_pairs doubles pretty ps true level ++ edge

  abbrev pub behind_pair : DictObject → Bytes
  behind_pair ps = render_pairs doubles pretty ps false level ++ edge

  abbrev pub from_value : DictValue → DictObject → Bytes
  from_value v ps = render doubles pretty v (level + 1) ++ behind_pair ps

  pub from_pairs-pair :
      (k : Bytes) (v : DictValue) (ps : DictObject)
      → from_pairs (pair k v ps) ≡ quoted k ++ (b':' ∷ blank pretty ++ from_value v ps)
  unfolding render
  from_pairs-pair k v ps =
      let shown = render doubles pretty v (level + 1) in
      let more = render_pairs doubles pretty ps false level in
      let whole : (quoted k ++ (b':' ∷ blank pretty ++ (shown ++ more))) ++ edge
          ≡ quoted k ++ (b':' ∷ blank pretty ++ (shown ++ (more ++ edge))) =
        simp append_assoc in
      whole

  pub behind_pair-pair :
      (k : Bytes) (v : DictValue) (ps : DictObject)
      → behind_pair (pair k v ps) ≡ b',' ∷ line pretty level ++ from_pairs (pair k v ps)
  unfolding render
  behind_pair-pair k v ps =
      ap (◌∷◌ b',') (
        append_assoc (line pretty level) (render_pairs doubles pretty (pair k v ps) true level)
          edge)

  pub Stops-behind_pair : (ps : DictObject) → Stops (behind_pair ps)
  unfolding render goes_on is_digit
  Stops-behind_pair object_end = Stops-line pretty level b'}' rest refl
  Stops-behind_pair (pair k v ps) = refl

  -- what is read of a pair whose value is read
  reads_pair :
      (acc : DictObject) (k : Bytes) (v : DictValue) (ps : DictObject) (fuel : ℕ) (t : Bytes)
      → IsText max_key_len k
      → IsJson doubles v
      → find_key acc k ≡ none
      → parse_value doubles fuel (from_value v ps) ≡ ok v (behind_pair ps)
      → skip_whitespace (behind_pair ps) ≡ t
      → ReadsPair doubles fuel acc (from_pairs (pair k v ps)) (append_pair acc k v) t
  unfolding skip_whitespace
  reads_pair acc k v ps fuel t text h fresh e next = record {
    key = k;
    value = v;
    from_key = quoted k ++ (b':' ∷ blank pretty ++ from_value v ps);
    behind_key = b':' ∷ blank pretty ++ from_value v ps;
    from_value = blank pretty ++ from_value v ps;
    behind = behind_pair ps;
    key_first = ap skip_whitespace (from_pairs-pair k v ps);
    quoted_key = refl;
    key_is = parse_string-quoted k (b':' ∷ blank pretty ++ from_value v ps);
    colon = refl;
    value_is =
        ap (parse_value doubles fuel) (
          skip-blank pretty (from_value v ps)
          ∙ skip-render doubles pretty v (level + 1) (behind_pair ps) h)
        ∙ e;
    set = set_pairs-IsText acc k v text fresh;
    then = next;
  }

  parse_pairs-line :
      (fuel : ℕ) (ps : DictObject) (s : Bytes)
      → parse_pairs doubles fuel ps (line pretty level ++ s) ≡ parse_pairs doubles fuel ps s
  unfolding parse_value
  parse_pairs-line zero ps s = refl
  parse_pairs-line (suc fuel) ps s =
      ap (pair_in doubles (parse_value doubles fuel) (parse_pairs doubles fuel) ps)
        (skip-line pretty level s)

  pub last_pair :
      (acc : DictObject) (k : Bytes) (v : DictValue) (fuel : ℕ)
      → IsText max_key_len k
      → IsJson doubles v
      → find_key acc k ≡ none
      → parse_value doubles fuel (from_value v object_end) ≡ ok v (behind_pair object_end)
      → parse_pairs doubles (suc fuel) acc (from_pairs (pair k v object_end))
        ≡ ok (join_pairs acc (pair k v object_end)) rest
  unfolding after_pair next_in render skip_whitespace
  last_pair acc k v fuel text h fresh e =
      pair_step doubles fuel acc (append_pair acc k v) _ (b'}' ∷ rest) (
        reads_pair acc k v object_end fuel (b'}' ∷ rest) text h fresh e
          (skip-line pretty level (b'}' ∷ rest)))
      ∙ ap (λ ps. ok ps rest)
          (sym (join_pairs_end (append_pair acc k v)) ∙ join-append_pair acc k v object_end)

  pub next_pair :
      (acc : DictObject) (k : Bytes) (v : DictValue) (l : Bytes) (w : DictValue) (ps : DictObject)
      (fuel : ℕ)
      → IsText max_key_len k
      → IsJson doubles v
      → find_key acc k ≡ none
      → parse_value doubles fuel (from_value v (pair l w ps)) ≡ ok v (behind_pair (pair l w ps))
      → parse_pairs doubles fuel (append_pair acc k v) (from_pairs (pair l w ps))
        ≡ ok (join_pairs (append_pair acc k v) (pair l w ps)) rest
      → parse_pairs doubles (suc fuel) acc (from_pairs (pair k v (pair l w ps)))
        ≡ ok (join_pairs acc (pair k v (pair l w ps))) rest
  unfolding after_pair next_in skip_whitespace
  next_pair acc k v l w ps fuel text h fresh e f =
      let t = b',' ∷ line pretty level ++ from_pairs (pair l w ps) in
      pair_step doubles fuel acc (append_pair acc k v) _ t (
        reads_pair acc k v (pair l w ps) fuel t text h fresh e
          (ap skip_whitespace (behind_pair-pair l w ps)))
      ∙ parse_pairs-line fuel (append_pair acc k v) (from_pairs (pair l w ps))
      ∙ f
      ∙ ap (λ qs. ok qs rest) (join-append_pair acc k v (pair l w ps))

  -- the whole object
  pub object_split :
      (k : Bytes) (v : DictValue) (ps : DictObject)
      → render doubles pretty (object (pair k v ps)) level ++ rest
        ≡ b'{' ∷ line pretty level ++ from_pairs (pair k v ps)
  unfolding render
  object_split k v ps =
      let inner = render_pairs doubles pretty (pair k v ps) true level in
      let whole : (line pretty level ++ (inner ++ (line pretty level ++ b'}' ∷ []))) ++ rest
          ≡ line pretty level ++ (inner ++ (line pretty level ++ b'}' ∷ rest)) =
        simp append_assoc in
      ap (◌∷◌ b'{') whole

  pub read_object :
      (k : Bytes) (v : DictValue) (ps : DictObject) (fuel : ℕ)
      → parse_pairs doubles fuel object_end (from_pairs (pair k v ps))
        ≡ ok (join_pairs object_end (pair k v ps)) rest
      → parse_value doubles (suc fuel) (render doubles pretty (object (pair k v ps)) level ++ rest)
        ≡ ok (object (pair k v ps)) rest
  unfolding join_pairs skip_whitespace
  read_object k v ps fuel e =
      let u = from_pairs (pair k v ps) in
      let again : skip_whitespace u ≡ u =
        ap skip_whitespace (from_pairs-pair k v ps) ∙ sym (from_pairs-pair k v ps) in
      ap (parse_value doubles (suc fuel)) (object_split k v ps)
      ∙ value_object doubles fuel (line pretty level ++ u) u
          (ap skip_whitespace (skip-line pretty level u ∙ again) ∙ again)
      ∙ object_pairs doubles fuel u rest (pair k v ps) (ap (starts b'}') (from_pairs-pair k v ps)) e
