-- ===== src/Dict/Json/Parse/Leaves.antt =====
-- Rendered values that hold no other value are read back, and none looks like a closing bracket.
use nanoproxy.Prelude.{
  ℕ, zero, suc, ◌*◌, ◌<◌, ◌≡◌, refl, sym, ap, ◌∙◌, Bool, true, false, [], ◌∷◌, ◌++◌, Bytes, arith,
  ◌==◌, length, equal, ==_iff, is_digit, Bool-cases, inl, inr,
}
use nanoproxy.Dict.{DictValue, null, bool, number, int64, string, array, object}
use nanoproxy.Dict.Json.Text.{Doubles}
use nanoproxy.Dict.Json.Print.Render.{quoted, render}
use nanoproxy.Dict.Json.Parse.{
  ok, skip_whitespace, lead, starts, parse_literal, numeric, value_in, parse_value,
}
use nanoproxy.Dict.Json.Parse.Strings.{parse_string-quoted}
use nanoproxy.Dict.Json.Parse.Numbers.{Stops, parse_number-print, number_head}
use nanoproxy.Dict.Json.Parse.Steps.{value_numeric, value_string}
use nanoproxy.Dict.Json.Parse.Valid.{IsJson, create_string-IsText, begins, skip-begins}

module _ (doubles : Doubles) (pretty : Bool) where
  -- a rendered value begins with a byte that begins one
  pub render_head :
      (v : DictValue) (level : ℕ)
      → IsJson doubles v
      → (c : ℕ) × (t : Bytes) × (render doubles pretty v level ≡ c ∷ t) × (begins c ≡ true)
  unfolding render IsJson begins is_digit
  render_head null level h = (_, _, refl, refl)
  render_head (bool true) level h = (_, _, refl, refl)
  render_head (bool false) level h = (_, _, refl, refl)
  render_head (number d) level h =
      let (c, t, e, f) = number_head (doubles.print d) [] (doubles.skip-print d h) in
      (c, t, e, ground arith)
  render_head (int64 w) level h = absurd h
  render_head (string s) level h = (_, _, refl, refl)
  render_head (array xs) level h = (_, _, refl, refl)
  render_head (object ps) level h = (_, _, refl, refl)

  -- `skip_whitespace` leaves a rendered value as it is
  pub skip-render :
      (v : DictValue) (level : ℕ) (rest : Bytes)
      → IsJson doubles v
      → skip_whitespace (render doubles pretty v level ++ rest)
        ≡ render doubles pretty v level ++ rest
  skip-render v level rest h =
      let (c, t, e, b) = render_head v level h in
      ap (λ s. skip_whitespace (s ++ rest)) e
      ∙ skip-begins c (t ++ rest) b
      ∙ ap (λ s. s ++ rest) (sym e)

  differ : (c b : ℕ) → begins c ≡ true → begins b ≡ false → (c == b) ≡ false
  differ c b g f = elim (Bool-cases (c == b)) [
    | inl e ↦ cc (g, f, ap begins ((==_iff c b).0 e))
    | inr e ↦ e
  ]

  pub starts-render :
      (b : ℕ) (v : DictValue) (level : ℕ) (rest : Bytes)
      → IsJson doubles v
      → begins b ≡ false
      → starts b (render doubles pretty v level ++ rest) ≡ false
  starts-render b v level rest h f =
      let (c, t, e, g) = render_head v level h in ap (λ s. starts b (s ++ rest)) e ∙ differ c b g f

  abbrev pub ReadsValue : DictValue → Type 0
  ReadsValue v =
      (level : ℕ) (rest : Bytes) (fuel : ℕ)
      → IsJson doubles v
      → Stops rest
      → 2 * length (render doubles pretty v level ++ rest) < fuel
      → parse_value doubles fuel (render doubles pretty v level ++ rest) ≡ ok v rest

  pub read_number : (d : ℕ) → ReadsValue (number d)
  unfolding render IsJson lead is_digit
  read_number d level rest zero h s f = absurd (omega arith)
  read_number d level rest (suc fuel) h s f =
      let (c, t, e, b) = number_head (doubles.print d) [] (doubles.skip-print d h) in
      let first : lead (doubles.print d ++ rest) ≡ numeric =
        ap (λ u. lead (u ++ rest)) e ∙ ground arith in
      value_numeric doubles fuel _ (doubles.print d ++ rest) rest d
        (skip-render (number d) level rest h) first (parse_number-print doubles d rest h s)

  pub read_string : (s : Bytes) → ReadsValue (string s)
  unfolding render IsJson lead
  read_string s level rest zero h stop f = absurd (omega arith)
  read_string s level rest (suc fuel) h stop f =
      value_string doubles fuel _ (quoted s ++ rest) rest s (string s)
        (skip-render (string s) level rest h) refl (parse_string-quoted s rest)
        (create_string-IsText s h)

  pub read_words : (b : Bool) → ReadsValue (bool b)
  unfolding parse_value value_in render lead parse_literal skip_whitespace equal is_digit
  read_words b level rest zero h s f = absurd (omega arith)
  read_words true level rest (suc fuel) h s f = refl
  read_words false level rest (suc fuel) h s f = refl

  pub read_null : ReadsValue null
  unfolding parse_value value_in render lead parse_literal skip_whitespace equal is_digit
  read_null level rest zero h s f = absurd (omega arith)
  read_null level rest (suc fuel) h s f = refl
