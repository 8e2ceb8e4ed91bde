-- ===== src/Dict/Json/Parse/Arrays.antt =====
-- A rendered array is read back, if its items are.
use nanoproxy.Prelude.{
  ℕ, suc, ◌+◌, ◌≡◌, refl, sym, ap, ◌∙◌, Bool, true, false, [], ◌∷◌, ◌++◌, Bytes, is_space, is_digit,
  append_assoc,
}
use nanoproxy.Dict.{DictValue, array, DictArray, array_end, entry, array_append}
use nanoproxy.Dict.Json.Text.{Doubles, goes_on}
use nanoproxy.Dict.Json.Print.Render.{line, render, render_entries}
use nanoproxy.Dict.Json.Parse.{
  ok, skip_whitespace, next_in, starts, after_entry, parse_value, parse_entries,
}
use nanoproxy.Dict.Json.Parse.Numbers.{Stops}
use nanoproxy.Dict.Json.Parse.Steps.{value_array, array_entries, entry_step}
use nanoproxy.Dict.Json.Parse.Valid.{
  IsJson, join, join-array_append, join_end, begins, skip-line, Stops-line,
}
use nanoproxy.Dict.Json.Parse.Leaves.{skip-render, starts-render}

module _ (doubles : Doubles) (pretty : Bool) (level : ℕ) (rest : Bytes) where
  abbrev edge : Bytes
  edge = line pretty level ++ b']' ∷ rest

  -- the text from an item on, and the text behind one, with the end of the array
  abbrev pub from_entries : DictArray → Bytes
  from_entries xs = render_entries doubles pretty xs true level ++ edge

  abbrev pub behind_entry : DictArray → Bytes
  behind_entry xs = render_entries doubles pretty xs false level ++ edge

  pub from_entries-entry :
      (v : DictValue) (xs : DictArray)
      → from_entries (entry v xs) ≡ render doubles pretty v (level + 1) ++ behind_entry xs
  unfolding render
  from_entries-entry v xs =
      append_assoc (render doubles pretty v (level + 1))
        (render_entries doubles pretty xs false level) edge

  pub behind_entry-entry :
      (v : DictValue) (xs : DictArray)
      → behind_entry (entry v xs) ≡ b',' ∷ line pretty level ++ from_entries (entry v xs)
  unfolding render
  behind_entry-entry v xs = ap (◌∷◌ b',') (
      append_assoc (line pretty level) (render_entries doubles pretty (entry v xs) true level) edge)

  pub Stops-behind_entry : (xs : DictArray) → Stops (behind_entry xs)
  unfolding render goes_on is_digit
  Stops-behind_entry array_end = Stops-line pretty level b']' rest refl
  Stops-behind_entry (entry v xs) = refl

  skip-from_entries :
      (v : DictValue) (xs : DictArray)
      → IsJson doubles v
      → skip_whitespace (line pretty level ++ from_entries (entry v xs)) ≡ from_entries (entry v xs)
  skip-from_entries v xs h =
      skip-line pretty level (from_entries (entry v xs))
      ∙ ap skip_whitespace (from_entries-entry v xs)
      ∙ skip-render doubles pretty v (level + 1) (behind_entry xs) h
      ∙ sym (from_entries-entry v xs)

  pub last_entry :
      (acc : DictArray) (v : DictValue) (fuel : ℕ)
      → parse_value doubles fuel (render doubles pretty v (level + 1) ++ behind_entry array_end)
        ≡ ok v (behind_entry array_end)
      → parse_entries doubles (suc fuel) acc (from_entries (entry v array_end))
        ≡ ok (join acc (entry v array_end)) rest
  unfolding after_entry next_in render skip_whitespace
  last_entry acc v fuel e =
      entry_step doubles fuel acc _ (behind_entry array_end) (b']' ∷ rest) v
        (ap (parse_value doubles fuel) (from_entries-entry v array_end) ∙ e)
        (skip-line pretty level (b']' ∷ rest))
      ∙ ap (λ xs. ok xs rest)
          (sym (join_end (array_append acc v)) ∙ join-array_append acc v array_end)

  pub next_entry :
      (acc : DictArray) (v w : DictValue) (ys : DictArray) (fuel : ℕ)
      → IsJson doubles w
      → parse_value doubles fuel (render doubles pretty v (level + 1) ++ behind_entry (entry w ys))
        ≡ ok v (behind_entry (entry w ys))
      → parse_entries doubles fuel (array_append acc v) (from_entries (entry w ys))
        ≡ ok (join (array_append acc v) (entry w ys)) rest
      → parse_entries doubles (suc fuel) acc (from_entries (entry v (entry w ys)))
        ≡ ok (join acc (entry v (entry w ys))) rest
  unfolding after_entry next_in skip_whitespace
  next_entry acc v w ys fuel h e f =
      entry_step doubles fuel acc _ (behind_entry (entry w ys)) _ v
        (ap (parse_value doubles fuel) (from_entries-entry v (entry w ys)) ∙ e)
        (ap skip_whitespace (behind_entry-entry w ys))
      ∙ ap (parse_entries doubles fuel (array_append acc v)) (skip-from_entries w ys h)
      ∙ f
      ∙ ap (λ xs. ok xs rest) (join-array_append acc v (entry w ys))

  -- the whole array
  pub array_split :
      (v : DictValue) (xs : DictArray)
      → render doubles pretty (array (entry v xs)) level ++ rest
        ≡ b'[' ∷ line pretty level ++ from_entries (entry v xs)
  unfolding render
  array_split v xs =
      let inner = render_entries doubles pretty (entry v xs) true level in
      let whole : (line pretty level ++ (inner ++ (line pretty level ++ b']' ∷ []))) ++ rest
          ≡ line pretty level ++ (inner ++ (line pretty level ++ b']' ∷ rest)) =
        simp append_assoc in
      ap (◌∷◌ b'[') whole

  pub read_array :
      (v : DictValue) (xs : DictArray) (fuel : ℕ)
      → IsJson doubles v
      → parse_entries doubles fuel array_end (from_entries (entry v xs))
        ≡ ok (join array_end (entry v xs)) rest
      → parse_value doubles (suc fuel) (render doubles pretty (array (entry v xs)) level ++ rest)
        ≡ ok (array (entry v xs)) rest
  unfolding join begins is_space
  read_array v xs fuel h e =
      let u = from_entries (entry v xs) in
      let here = skip-from_entries v xs h in
      let again : skip_whitespace u ≡ u =
        ap skip_whitespace (from_entries-entry v xs)
        ∙ skip-render doubles pretty v (level + 1) (behind_entry xs) h
        ∙ sym (from_entries-entry v xs) in
      ap (parse_value doubles (suc fuel)) (array_split v xs)
      ∙ value_array doubles fuel (line pretty level ++ u) u (ap skip_whitespace here ∙ again)
      ∙ array_entries doubles fuel u rest (entry v xs)
          (ap (starts b']') (from_entries-entry v xs)
            ∙ starts-render doubles pretty b']' v (level + 1) (behind_entry xs) h refl)
          e
