-- ===== src/Dict/Json/Parse/RoundTrip.antt =====
-- What `dict_serialize_json` wrote is read back by `dict_deserialize_json`.
use nanoproxy.Prelude.{
  ℕ, zero, suc, ◌+◌, ◌*◌, ◌<◌, ◌≡◌, refl, sym, subst, ap, ◌∙◌, Bool, false, ◌||◌, some, [], ◌∷◌,
  ◌++◌, Bytes, arith, ltb, ◌==◌, length, take, length-append, append-nil, take_all,
}
use nanoproxy.Dict.{
  DictValue, null, bool, number, int64, string, array, object, DictArray, array_end, entry,
  array_append, DictObject, object_end, pair, append_pair,
}
use nanoproxy.Dict.Json.Text.{Doubles}
use nanoproxy.Dict.Json.Print.Render.{quoted, line, blank, render}
use nanoproxy.Dict.Json.Parse.{
  ok, skip_whitespace, lead, value_in, array_in, object_in, parse_value, parse_entries, parse_pairs,
  finish, deserialize_json,
}
use nanoproxy.Dict.Json.Parse.Valid.{
  Fresh, IsJson, AreJson, ArePairs, join, join_pairs, Fresh-append_pair, Fresh-object_end,
}
use nanoproxy.Dict.Json.Parse.Leaves.{
  render_head, skip-render, ReadsValue, read_number, read_string, read_words, read_null,
}
use nanoproxy.Dict.Json.Parse.Arrays.{
  from_entries, behind_entry, from_entries-entry, behind_entry-entry, Stops-behind_entry,
  last_entry, next_entry, array_split, read_array,
}
use nanoproxy.Dict.Json.Parse.Objects.{
  from_pairs, behind_pair, from_value, from_pairs-pair, behind_pair-pair, Stops-behind_pair,
  last_pair, next_pair, object_split, read_object,
}
use nanoproxy.Dict.Json.Print.{serialize_json}
use nanoproxy.Dict.Json.Print.Render.{serialize_json-render}

module _ (doubles : Doubles) (pretty : Bool) where
  read_empty_array : ReadsValue doubles pretty (array array_end)
  unfolding parse_value value_in array_in render lead skip_whitespace line
  read_empty_array level rest zero h s f = absurd (omega arith)
  read_empty_array level rest (suc fuel) h s f = refl

  read_empty_object : ReadsValue doubles pretty (object object_end)
  unfolding parse_value value_in object_in render lead skip_whitespace line
  read_empty_object level rest zero h s f = absurd (omega arith)
  read_empty_object level rest (suc fuel) h s f = refl

  -- the lengths that the fuel is counted by
  from_entries-lt :
      (v : DictValue) (xs : DictArray) (level : ℕ) (rest : Bytes)
      → length (from_entries doubles pretty level rest (entry v xs))
        < length (render doubles pretty (array (entry v xs)) level ++ rest)
  from_entries-lt v xs level rest = omega (
    arith,
    ap length (array_split doubles pretty level rest v xs),
    length-append (line pretty level) (from_entries doubles pretty level rest (entry v xs)),
  )

  next_entries-lt :
      (v w : DictValue) (xs : DictArray) (level : ℕ) (rest : Bytes)
      → length (from_entries doubles pretty level rest (entry w xs))
        < length (from_entries doubles pretty level rest (entry v (entry w xs)))
  next_entries-lt v w xs level rest = omega (
    arith,
    ap length (from_entries-entry doubles pretty level rest v (entry w xs)),
    length-append (render doubles pretty v (level + 1))
        (behind_entry doubles pretty level rest (entry w xs)),
    ap length (behind_entry-entry doubles pretty level rest w xs),
    length-append (line pretty level) (from_entries doubles pretty level rest (entry w xs)),
  )

  from_pairs-lt :
      (k : Bytes) (v : DictValue) (ps : DictObject) (level : ℕ) (rest : Bytes)
      → length (from_pairs doubles pretty level rest (pair k v ps))
        < length (render doubles pretty (object (pair k v ps)) level ++ rest)
  from_pairs-lt k v ps level rest = omega (
    arith,
    ap length (object_split doubles pretty level rest k v ps),
    length-append (line pretty level) (from_pairs doubles pretty level rest (pair k v ps)),
  )

  from_value-lt :
      (k : Bytes) (v : DictValue) (ps : DictObject) (level : ℕ) (rest : Bytes)
      → length (from_value doubles pretty level rest v ps)
        < length (from_pairs doubles pretty level rest (pair k v ps))
  from_value-lt k v ps level rest = omega (
    arith,
    ap length (from_pairs-pair doubles pretty level rest k v ps),
    length-append (quoted k) (b':' ∷ blank pretty ++ from_value doubles pretty level rest v ps),
    length-append (blank pretty) (from_value doubles pretty level rest v ps),
  )

  next_pairs-lt :
      (k : Bytes) (v : DictValue) (l : Bytes) (w : DictValue) (ps : DictObject) (level : ℕ)
      (rest : Bytes)
      → length (from_pairs doubles pretty level rest (pair l w ps))
        < length (from_pairs doubles pretty level rest (pair k v (pair l w ps)))
  next_pairs-lt k v l w ps level rest = omega (
    arith,
    from_value-lt k v (pair l w ps) level rest,
    length-append (render doubles pretty v (level + 1))
        (behind_pair doubles pretty level rest (pair l w ps)),
    ap length (behind_pair-pair doubles pretty level rest l w ps),
    length-append (line pretty level) (from_pairs doubles pretty level rest (pair l w ps)),
  )

  abbrev ReadsEntries : DictArray → Type 0
  ReadsEntries array_end = Unit
  ReadsEntries (entry v xs) =
      (acc : DictArray) (level : ℕ) (rest : Bytes) (fuel : ℕ)
      → AreJson doubles (entry v xs)
      → 2 * length (from_entries doubles pretty level rest (entry v xs)) + 1 < fuel
      → parse_entries doubles fuel acc (from_entries doubles pretty level rest (entry v xs))
        ≡ ok (join acc (entry v xs)) rest

  abbrev ReadsPairs : DictObject → Type 0
  ReadsPairs object_end = Unit
  ReadsPairs (pair k v ps) =
      (acc : DictObject) (level : ℕ) (rest : Bytes) (fuel : ℕ)
      → ArePairs doubles (pair k v ps)
      → Fresh acc (pair k v ps)
      → 2 * length (from_pairs doubles pretty level rest (pair k v ps)) + 1 < fuel
      → parse_pairs doubles fuel acc (from_pairs doubles pretty level rest (pair k v ps))
        ≡ ok (join_pairs acc (pair k v ps)) rest

  mutual
    unfolding IsJson

    read_value : (v : DictValue) → ReadsValue doubles pretty v
    read_value null = read_null doubles pretty
    read_value (bool b) = read_words doubles pretty b
    read_value (number d) = read_number doubles pretty d
    read_value (int64 w) = λ level rest fuel h. absurd h
    read_value (string t) = read_string doubles pretty t
    read_value (array array_end) = read_empty_array
    read_value (array (entry v xs)) = λ level rest. elim [
      | zero ↦ λ h s f. absurd (omega arith)
      | suc fuel ↦ λ h s f. read_array doubles pretty level rest v xs fuel h.0 (
          read_entries (entry v xs) array_end level rest fuel h
            (omega (arith, from_entries-lt v xs level rest)))
    ]
    read_value (object object_end) = read_empty_object
    read_value (object (pair k v ps)) = λ level rest. elim [
      | zero ↦ λ h s f. absurd (omega arith)
      | suc fuel ↦ λ h s f. read_object doubles pretty level rest k v ps fuel (
          read_pairs (pair k v ps) object_end level rest fuel h (Fresh-object_end (pair k v ps))
            (omega (arith, from_pairs-lt k v ps level rest)))
    ]

    read_entries : (xs : DictArray) → ReadsEntries xs
    read_entries array_end = tt
    read_entries (entry v array_end) = λ acc level rest. elim [
      | zero ↦ λ h f. absurd (omega arith)
      | suc fuel ↦ λ h f. last_entry doubles pretty level rest acc v fuel (
          read_value v (level + 1) _ fuel h.0
            (Stops-behind_entry doubles pretty level rest array_end)
            (omega (arith, ap length (from_entries-entry doubles pretty level rest v array_end))))
    ]
    read_entries (entry v (entry w ys)) = λ acc level rest. elim [
      | zero ↦ λ h f. absurd (omega arith)
      | suc fuel ↦ λ h f.
          next_entry doubles pretty level rest acc v w ys fuel h.1.0
            (read_value v (level + 1) _ fuel h.0
              (Stops-behind_entry doubles pretty level rest (entry w ys))
              (omega
                (arith, ap length (from_entries-entry doubles pretty level rest v (entry w ys)))))
            (read_entries (entry w ys) (array_append acc v) level rest fuel h.1
              (omega (arith, next_entries-lt v w ys level rest)))
    ]

    read_pairs : (ps : DictObject) → ReadsPairs ps
    read_pairs object_end = tt
    read_pairs (pair k v object_end) = λ acc level rest. elim [
      | zero ↦ λ h d f. absurd (omega arith)
      | suc fuel ↦ λ h d f. last_pair doubles pretty level rest acc k v fuel h.0 h.1 d.0 (
          read_value v (level + 1) _ fuel h.1
            (Stops-behind_pair doubles pretty level rest object_end)
            (omega (arith, from_value-lt k v object_end level rest)))
    ]
    read_pairs (pair k v (pair l w qs)) = λ acc level rest. elim [
      | zero ↦ λ h d f. absurd (omega arith)
      | suc fuel ↦ λ h d f.
          next_pair doubles pretty level rest acc k v l w qs fuel h.0 h.1 d.0
            (read_value v (level + 1) _ fuel h.1
              (Stops-behind_pair doubles pretty level rest (pair l w qs))
              (omega (arith, from_value-lt k v (pair l w qs) level rest)))
            (read_pairs (pair l w qs) (append_pair acc k v) level rest fuel h.3
              (Fresh-append_pair acc k v (pair l w qs) d.1 h.2)
              (omega (arith, next_pairs-lt k v l w qs level rest)))
    ]

  -- the whole text
  deserialize_json-rendered :
      (v : DictValue)
      → IsJson doubles v
      → deserialize_json doubles (render doubles pretty v 0) (length (render doubles pretty v 0))
        ≡ ok v []
  unfolding deserialize_json finish skip_whitespace
  deserialize_json-rendered v h =
      let text = render doubles pretty v 0 in
      let (c, t, e, b) = render_head doubles pretty v 0 h in
      let fits : (ltb (length text) (length text) || length text == 0) ≡ false =
        ground (arith, ap length e) in
      let whole : skip_whitespace (take (length text) text) ≡ text =
        ap skip_whitespace (take_all (length text) text (omega arith) ∙ sym (append-nil text))
        ∙ skip-render doubles pretty v 0 [] h
        ∙ append-nil text in
      let size = 2 * length (take (length text) text) + 1 in
      let enough : 2 * length (text ++ []) < size = omega (
        arith,
        ap length (take_all (length text) text (omega arith)),
        ap length (append-nil text),
      ) in
      let read : parse_value doubles size text ≡ ok v [] =
        ap (parse_value doubles size) (sym (append-nil text))
        ∙ read_value v 0 [] size h tt enough in
      rw (fits, whole, read) refl

  -- The text that `dict_serialize_json` writes of a value that JSON can hold, pretty or not, is read
  -- back by `dict_deserialize_json` as that value, with nothing left.
  pub deserialize_json-serialize_json :
      (v : DictValue) (buf_len : ℕ) (text : Bytes)
      → IsJson doubles v
      → serialize_json doubles pretty v buf_len ≡ some text
      → deserialize_json doubles text (length text) ≡ ok v []
  deserialize_json-serialize_json v buf_len text h e =
      let shown = sym (serialize_json-render doubles pretty v buf_len) ∙ e in
      let same : render doubles pretty v 0 ≡ text = ground (arith, shown) in
      subst (λ s. deserialize_json doubles s (length s) ≡ ok v []) same
        (deserialize_json-rendered v h)
