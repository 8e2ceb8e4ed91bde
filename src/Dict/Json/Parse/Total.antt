-- ===== src/Dict/Json/Parse/Total.antt =====
-- `dict_deserialize_json` ends on every text, with each position inside it.
use nanoproxy.Prelude.{
  ℕ, zero, suc, ◌+◌, ◌-◌, ◌*◌, ◌≤◌, ◌<◌, ◌≡◌, refl, Bool, true, false, ◌||◌, some, [], ◌∷◌, Bytes,
  arith, ◌≢◌, ltb, ◌==◌, length, take, drop, length-take,
}
use nanoproxy.Dict.{
  DictValue, DictArray, DictObject, create_string, set_pairs, array_append, object_end, array_end,
}
use nanoproxy.Dict.Json.Text.{Doubles}
use nanoproxy.Dict.Json.Parse.{
  Lead, Next, Parsed, ok, failed, skip_whitespace, parse_string, lead, next_in, starts,
  parse_number, trailing_data, missing, comma, close, wrong, at_end, quote, brace, bracket, numeric,
  other, parse_value, value_in, after_entry, pair_in, parse_entries, parse_pairs, finish,
  deserialize_json,
}
use nanoproxy.Dict.Json.Parse.Scan.{
  Within, Within-le, Within-bind, length-skip_whitespace, parse_string-Within,
}
use nanoproxy.Dict.Json.Parse.Words.{
  Within-option, Within-if, parse_literal-Within_all, parse_number-Within_all,
}

length-drop_one : (s : Bytes) → length (drop 1 s) ≤ length s - 1
length-drop_one [] = omega arith
length-drop_one (c ∷ s) = omega arith

starts-cons : (b : ℕ) (s : Bytes) → starts b s ≡ true → 0 < length s
starts-cons b [] e = cc
starts-cons b (c ∷ s) e = omega arith

lead-cons : (s : Bytes) → lead s ≢ at_end → 0 < length s
unfolding lead
lead-cons [] e = absurd (e refl)
lead-cons (c ∷ s) e = omega arith

next_in-cons : (b : ℕ) (s : Bytes) → next_in b s ≢ missing → 0 < length s
unfolding next_in
next_in-cons b [] e = absurd (e refl)
next_in-cons b (c ∷ s) e = omega arith

Within-lead :
    (n : ℕ) (l : Lead) (a b c d e f : Parsed DictValue)
    → Within n a
    → (l ≢ at_end → Within n b × Within n c × Within n d × Within n e × Within n f)
    → Within n
        (elim l [ at_end ↦ a | quote ↦ b | brace ↦ c | bracket ↦ d | numeric ↦ e | other ↦ f ])
Within-lead n at_end a b c d e f w k = w
Within-lead n quote a b c d e f w k = (k (λ e. cc)).0
Within-lead n brace a b c d e f w k = (k (λ e. cc)).1
Within-lead n bracket a b c d e f w k = (k (λ e. cc)).2
Within-lead n numeric a b c d e f w k = (k (λ e. cc)).3
Within-lead n other a b c d e f w k = (k (λ e. cc)).4

Within-next {ℓ} :
    {A : Type ℓ} (n : ℕ) (x : Next) (a b c d : Parsed A)
    → Within n a
    → (x ≢ missing → Within n b × Within n c)
    → Within n d
    → Within n (elim x [ missing ↦ a | comma ↦ b | close ↦ c | wrong ↦ d ])
Within-next n missing a b c d w k v = w
Within-next n comma a b c d w k v = (k (λ e. cc)).0
Within-next n close a b c d w k v = (k (λ e. cc)).1
Within-next n wrong a b c d w k v = v

Within-bool {ℓ} :
    {A : Type ℓ} (n : ℕ) (x : Bool) (a b : Parsed A)
    → (x ≡ true → Within n a)
    → Within n b
    → Within n (elim x [ true ↦ a | false ↦ b ])
Within-bool n true a b w v = w refl
Within-bool n false a b w v = v

module _ (doubles : Doubles) where
  mutual
    unfolding parse_value value_in after_entry pair_in

    parse_value-Within :
        (fuel : ℕ) (s : Bytes)
        → 2 * length s < fuel
        → Within (length s) (parse_value doubles fuel s)
    parse_value-Within zero s h = absurd (omega arith)
    parse_value-Within (suc fuel) s h =
        let t = skip_whitespace s in
        let short = length-skip_whitespace s in
        Within-lead _ (lead t) _ _ _ _ _ _ short (λ some_byte.
          let first = lead-cons t some_byte in
          let u = skip_whitespace (skip_whitespace (drop 1 t)) in
          let inner : length u ≤ length t - 1 = omega (
            arith,
            length-skip_whitespace (skip_whitespace (drop 1 t)),
            length-skip_whitespace (drop 1 t),
            length-drop_one t,
          ) in
          (
            Within-bind _ (parse_string t) _ (Within-le _ _ _ (parse_string-Within t) short)
                (λ text rest l. Within-option _ (create_string text) _ _ (omega arith) (λ v _. l)),
            Within-bool _ (starts b'}' u) _ _ (λ _. omega (arith, length-drop_one u))
                (Within-bind _ (parse_pairs doubles fuel object_end u) _
                  (Within-le _ _ _ (parse_pairs-Within fuel object_end u (omega arith))
                    (omega arith))
                  (λ ps rest l. l)),
            Within-bool _ (starts b']' u) _ _ (λ _. omega (arith, length-drop_one u))
                (Within-bind _ (parse_entries doubles fuel array_end u) _
                  (Within-le _ _ _ (parse_entries-Within fuel array_end u (omega arith))
                    (omega arith))
                  (λ ps rest l. l)),
            Within-bind _ (parse_number doubles t) _
                (Within-le _ _ _ (parse_number-Within_all doubles t first) short) (λ d rest l. l),
            Within-le _ _ _ (parse_literal-Within_all t first) short,
          ))

    parse_entries-Within :
        (fuel : ℕ) (xs : DictArray) (s : Bytes)
        → 2 * length s + 1 < fuel
        → Within (length s) (parse_entries doubles fuel xs s)
    parse_entries-Within zero xs s h = absurd (omega arith)
    parse_entries-Within (suc fuel) xs s h =
        Within-bind _ (parse_value doubles fuel s) _ (parse_value-Within fuel s (omega arith))
          (λ v behind l.
            let t = skip_whitespace behind in
            let short = length-skip_whitespace behind in
            let next = skip_whitespace (drop 1 t) in
            let left : length next ≤ length t - 1 =
              omega (arith, length-skip_whitespace (drop 1 t), length-drop_one t) in
            Within-next _ (next_in b']' t) _ _ _ _ (omega arith)
              (λ m.
                let first = next_in-cons b']' t m in
                (
                  Within-le _ _ _ (parse_entries-Within fuel (array_append xs v) next (omega arith))
                      (omega arith),
                  omega (arith, length-drop_one t),
                ))
              (omega arith))

    parse_pairs-Within :
        (fuel : ℕ) (ps : DictObject) (s : Bytes)
        → 2 * length s + 1 < fuel
        → Within (length s) (parse_pairs doubles fuel ps s)
    parse_pairs-Within zero ps s h = absurd (omega arith)
    parse_pairs-Within (suc fuel) ps s h =
        let k = skip_whitespace s in
        let short = length-skip_whitespace s in
        Within-bool _ (starts b'"' k) _ _
          (λ _.
            Within-bind _ (parse_string k) _ (Within-le _ _ _ (parse_string-Within k) short)
              (λ key behind_key l.
                let c = skip_whitespace behind_key in
                let d = skip_whitespace (drop 1 c) in
                let left : length d ≤ length behind_key = omega (
                  arith,
                  length-skip_whitespace behind_key,
                  length-skip_whitespace (drop 1 c),
                  length-drop_one c,
                ) in
                Within-bool _ (starts b':' c) _ _
                  (λ _.
                    Within-bind _ (parse_value doubles fuel d) _
                      (Within-le _ _ _ (parse_value-Within fuel d (omega arith)) (omega arith))
                      (λ v behind m.
                        let t = skip_whitespace behind in
                        let rest = length-skip_whitespace behind in
                        Within-option _ (set_pairs ps key v) _ _ (omega arith) (λ qs _.
                          Within-next _ (next_in b'}' t) _ _ _ _ (omega arith)
                            (λ n.
                              let first = next_in-cons b'}' t n in
                              let drops = length-drop_one t in
                              (
                                Within-le _ _ _
                                    (parse_pairs-Within fuel qs (drop 1 t) (omega arith))
                                    (omega arith),
                                omega arith,
                              ))
                            (omega arith))))
                  (omega (arith, length-skip_whitespace behind_key))))
          (omega arith)

  finish-Within :
      (n : ℕ) (v : DictValue) (rest : Bytes) → length rest < n → Within n (finish doubles v rest)
  unfolding finish
  finish-Within n v rest h = go (skip_whitespace rest) (length-skip_whitespace rest)
    where
      go :
          (t : Bytes)
          → length t ≤ length rest
          → Within n (elim t [ [] ↦ ok v [] | c ∷ s ↦ failed (some trailing_data) (c ∷ s) ])
      go [] l = omega arith
      go (c ∷ s) l = omega arith

  -- `dict_deserialize_json` ends on every text, however it is nested: its fuel of two units for each
  -- byte and one more is enough, and what it leaves behind a value or an error lies in the text.
  pub deserialize_json-Within :
      (buffer : Bytes) (content_len : ℕ)
      → Within (suc content_len) (deserialize_json doubles buffer content_len)
  unfolding deserialize_json
  deserialize_json-Within buffer content_len =
      let content = take content_len buffer in
      let size : length content ≤ content_len = omega (arith, length-take content_len buffer) in
      let start = length-skip_whitespace content in
      Within-if _ (ltb (length buffer) content_len || content_len == 0) _ _ (omega arith) (
        Within-bind _ (parse_value doubles (2 * length content + 1) (skip_whitespace content)) _
          (Within-le _ _ _
            (parse_value-Within (2 * length content + 1) (skip_whitespace content) (omega arith))
            (omega arith))
          (λ v rest l. finish-Within _ v rest l))
