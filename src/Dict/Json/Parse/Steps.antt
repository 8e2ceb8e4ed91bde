-- ===== src/Dict/Json/Parse/Steps.antt =====
-- One step of `dict_parse_value` and of the loops for arrays and objects, by what stands in the text.
use nanoproxy.Prelude.{ℕ, suc, ◌≡◌, refl, ap, ◌∙◌, true, false, Option, none, some, ◌∷◌, Bytes}
use nanoproxy.Dict.{
  DictValue, number, array, object, DictArray, array_end, array_append, DictObject, object_end,
  set_pairs, create_string,
}
use nanoproxy.Dict.Json.Text.{Doubles}
use nanoproxy.Dict.Json.Parse.{
  Parsed, ok, failed, bind, skip_whitespace, parse_string, lead, quote, numeric, starts, array_in,
  object_in, value_in, after_entry, after_pair, after_key, put_pair, pair_in, parse_number,
  parse_value, parse_entries, parse_pairs,
}

module _ (doubles : Doubles) (fuel : ℕ) where
  pub value_numeric :
      (s t rest : Bytes) (d : ℕ)
      → skip_whitespace s ≡ t
      → lead t ≡ numeric
      → parse_number doubles t ≡ ok d rest
      → parse_value doubles (suc fuel) s ≡ ok (number d) rest
  unfolding parse_value value_in
  value_numeric s t rest d e l n =
      ap
        (value_in doubles (parse_entries doubles fuel array_end)
          (parse_pairs doubles fuel object_end))
        e
      ∙ rw (l, n, value_in) refl

  pub value_string :
      (s t rest text : Bytes) (v : DictValue)
      → skip_whitespace s ≡ t
      → lead t ≡ quote
      → parse_string t ≡ ok text rest
      → create_string text ≡ some v
      → parse_value doubles (suc fuel) s ≡ ok v rest
  unfolding parse_value value_in
  value_string s t rest text v e l p c =
      ap
        (value_in doubles (parse_entries doubles fuel array_end)
          (parse_pairs doubles fuel object_end))
        e
      ∙ rw (l, p, value_in) (ap (made rest) c)
    where
      made : Bytes → Option DictValue → Parsed DictValue
      made rest none = failed none rest
      made rest (some v) = ok v rest

  pub value_array :
      (s u : Bytes)
      → skip_whitespace (skip_whitespace s) ≡ u
      → parse_value doubles (suc fuel) (b'[' ∷ s)
        ≡ array_in doubles (parse_entries doubles fuel array_end) u
  unfolding parse_value value_in skip_whitespace lead
  value_array s u e = ap (array_in doubles (parse_entries doubles fuel array_end)) e

  pub value_object :
      (s u : Bytes)
      → skip_whitespace (skip_whitespace s) ≡ u
      → parse_value doubles (suc fuel) (b'{' ∷ s)
        ≡ object_in doubles (parse_pairs doubles fuel object_end) u
  unfolding parse_value value_in skip_whitespace lead
  value_object s u e = ap (object_in doubles (parse_pairs doubles fuel object_end)) e

  -- an array, or an object, that is not empty
  pub array_entries :
      (u rest : Bytes) (xs : DictArray)
      → starts b']' u ≡ false
      → parse_entries doubles fuel array_end u ≡ ok xs rest
      → array_in doubles (parse_entries doubles fuel array_end) u ≡ ok (array xs) rest
  unfolding array_in
  array_entries u rest xs b e = rw (b, e, array_in) refl

  pub object_pairs :
      (u rest : Bytes) (ps : DictObject)
      → starts b'}' u ≡ false
      → parse_pairs doubles fuel object_end u ≡ ok ps rest
      → object_in doubles (parse_pairs doubles fuel object_end) u ≡ ok (object ps) rest
  unfolding object_in
  object_pairs u rest ps b e = rw (b, e, object_in) refl

  pub entry_step :
      (xs : DictArray) (s behind t : Bytes) (v : DictValue)
      → parse_value doubles fuel s ≡ ok v behind
      → skip_whitespace behind ≡ t
      → parse_entries doubles (suc fuel) xs s
        ≡ after_entry doubles (parse_entries doubles fuel) (array_append xs v) t
  unfolding parse_value
  entry_step xs s behind t v e f =
      ap
        (λ r. bind r (λ w rest.
          after_entry doubles (parse_entries doubles fuel) (array_append xs w)
            (skip_whitespace rest)))
        e
      ∙ ap (after_entry doubles (parse_entries doubles fuel) (array_append xs v)) f

  -- what a pair reads of the text `s`
  pub record ReadsPair (ps : DictObject) (s : Bytes) (qs : DictObject) (t : Bytes) : Type 0 where
    pub key : Bytes
    pub value : DictValue
    pub from_key : Bytes
    pub behind_key : Bytes
    pub from_value : Bytes
    pub behind : Bytes
    pub key_first : skip_whitespace s ≡ from_key
    pub quoted_key : starts b'"' from_key ≡ true
    pub key_is : parse_string from_key ≡ ok key behind_key
    pub colon : skip_whitespace behind_key ≡ b':' ∷ from_value
    pub value_is : parse_value doubles fuel (skip_whitespace from_value) ≡ ok value behind
    pub set : set_pairs ps key value ≡ some qs
    pub then : skip_whitespace behind ≡ t

  pub pair_step :
      (ps qs : DictObject) (s t : Bytes)
      → ReadsPair ps s qs t
      → parse_pairs doubles (suc fuel) ps s ≡ after_pair doubles (parse_pairs doubles fuel) qs t
  unfolding parse_value pair_in
  pair_step ps qs s t r =
      let value = parse_value doubles fuel in
      let more = parse_pairs doubles fuel in
      let at_key = ap (pair_in doubles value more ps) r.key_first in
      let at_colon : pair_in doubles value more ps r.from_key
          ≡ after_key doubles value more ps r.key (b':' ∷ r.from_value) =
        rw (r.quoted_key, r.key_is, pair_in) (ap (after_key doubles value more ps r.key) r.colon) in
      let at_end : after_key doubles value more ps r.key (b':' ∷ r.from_value)
          ≡ after_pair doubles more qs t =
        rw (r.value_is, after_key)
          (rw (r.set, put_pair) (ap (after_pair doubles more qs) r.then)) in
      at_key ∙ at_colon ∙ at_end
