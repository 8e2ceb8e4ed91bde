-- ===== src/Proxy/Response/Lines.antt =====
-- The head of a response, line by line.
use nanoproxy.Prelude.{
  ℕ, zero, suc, ◌+◌, ◌≤◌, ◌≡◌, refl, ap, ap₂, ◌∙◌, Bool, true, false, not, ◌&&◌, ◌||◌, List, [],
  ◌∷◌, ◌++◌, Bytes, codes, arith, leb, ◌==◌, if◌then◌else◌, length, get_or, all, length-append,
  and-eq_true, Bool-cases, inl, inr,
}
use nanoproxy.Http.Framing.{is_empty}
use nanoproxy.Proxy.Response.{
  crlf, starts_nocase, line_of, behind_line, line_kept, relined, connection_line, rebuilt_head,
}

-- the text of these lines, each with its CR LF
abbrev pub lines_text : List Bytes → Bytes
lines_text [] = []
lines_text (line ∷ lines) = line ++ crlf ++ lines_text lines

abbrev pub has_crlf : Bytes → Bool
has_crlf [] = false
has_crlf (c ∷ s) = c == 13 && get_or s 0 0 == 10 || has_crlf s

abbrev pub is_line : Bytes → Bool
is_line s = not (has_crlf s)

-- the header lines that are passed on
unfoldable pub forwarded : List Bytes → List Bytes
unfolding starts_nocase
forwarded [] = []
forwarded (line ∷ lines) =
    let rest = forwarded lines in
    if is_empty line || leb 11 (length line) && starts_nocase line (codes "Connection:")
    then rest
    else line ∷ rest

no_match :
    (c : ℕ) (l rest : Bytes)
    → is_line (c ∷ l) ≡ true
    → (c == 13 && get_or (l ++ crlf ++ rest) 0 0 == 10) ≡ false
no_match c [] rest h = ground arith
no_match c (d ∷ l) rest h = ground arith

is_line-tail : (c : ℕ) (l : Bytes) → is_line (c ∷ l) ≡ true → is_line l ≡ true
is_line-tail c l h = ground arith

line_of-append : (l rest : Bytes) → is_line l ≡ true → line_of (l ++ crlf ++ rest) ≡ l
line_of-append [] rest h = refl
line_of-append (c ∷ l) rest h =
    rw (no_match c l rest h) (ap (◌∷◌ c) (line_of-append l rest (is_line-tail c l h)))

behind_line-append : (l rest : Bytes) → is_line l ≡ true → behind_line (l ++ crlf ++ rest) ≡ rest
behind_line-append [] rest h = refl
behind_line-append (c ∷ l) rest h =
    rw (no_match c l rest h) (behind_line-append l rest (is_line-tail c l h))

relined-append :
    (fuel : ℕ) (is_first : Bool) (l rest : Bytes)
    → is_line l ≡ true
    → relined (suc fuel) is_first (l ++ crlf ++ rest)
      ≡ line_kept is_first l ++ relined fuel false rest
unfolding relined
relined-append fuel is_first [] rest h = refl
relined-append fuel is_first (c ∷ l) rest h =
    ap₂ (λ a b. line_kept is_first a ++ relined fuel false b) (line_of-append (c ∷ l) rest h)
      (behind_line-append (c ∷ l) rest h)

forwarded-cons :
    (line : Bytes) (lines : List Bytes)
    → line_kept false line ++ lines_text (forwarded lines) ≡ lines_text (forwarded (line ∷ lines))
unfolding line_kept forwarded
forwarded-cons [] lines = refl
forwarded-cons (c ∷ s) lines =
    elim (Bool-cases (leb 11 (length (c ∷ s)) && starts_nocase (c ∷ s) (codes "Connection:"))) [
      | inl e ↦ rw e refl
      | inr e ↦ rw e refl
    ]

relined-nil : (fuel : ℕ) (is_first : Bool) → relined fuel is_first [] ≡ []
unfolding relined
relined-nil zero is_first = refl
relined-nil (suc fuel) is_first = refl

length-lines_text :
    (line : Bytes) (lines : List Bytes)
    → length (lines_text (line ∷ lines)) ≡ suc (suc (length line + length (lines_text lines)))
length-lines_text line lines =
    omega (arith, length-append (line ++ crlf) (lines_text lines), length-append line crlf)

relined-lines_text :
    (fuel : ℕ) (lines : List Bytes)
    → all is_line lines ≡ true
    → length (lines_text lines) ≤ fuel
    → relined fuel false (lines_text lines) ≡ lines_text (forwarded lines)
unfolding forwarded
relined-lines_text fuel [] h f = relined-nil fuel false
relined-lines_text zero (line ∷ lines) h f = absurd (omega (arith, f, length-lines_text line lines))
relined-lines_text (suc fuel) (line ∷ lines) h f =
    let (one, more) = and-eq_true (is_line line) (all is_line lines) h in
    relined-append fuel false line (lines_text lines) one
    ∙ ap (λ t. line_kept false line ++ t)
        (relined-lines_text fuel lines more (omega (arith, f, length-lines_text line lines)))
    ∙ forwarded-cons line lines

relined-first :
    (fuel : ℕ) (status : Bytes) (fields : List Bytes)
    → is_line status ≡ true
    → all is_line fields ≡ true
    → length (lines_text (status ∷ fields)) ≤ fuel
    → relined fuel true (lines_text (status ∷ fields)) ≡ lines_text (status ∷ forwarded fields)
unfolding line_kept
relined-first zero status fields h hs f = absurd (omega (arith, f, length-lines_text status fields))
relined-first (suc fuel) status fields h hs f =
    relined-append fuel true status (lines_text fields) h
    ∙ ap (λ t. (status ++ crlf) ++ t)
        (relined-lines_text fuel fields hs (omega (arith, f, length-lines_text status fields)))

-- For a head of a status line and header lines, none of which has a CR LF inside, the client gets the
-- status line, the header lines in their order without the empty ones and those that start with
-- `Connection:` in any case, and one Connection line at the end.
pub rebuilt_head-lines_text :
    (final_ka : Bool) (status : Bytes) (fields : List Bytes)
    → is_line status ≡ true
    → all is_line fields ≡ true
    → rebuilt_head final_ka (lines_text (status ∷ fields))
      ≡ lines_text (status ∷ forwarded fields) ++ connection_line final_ka
unfolding rebuilt_head
rebuilt_head-lines_text final_ka status fields h hs =
    ap (λ t. t ++ connection_line final_ka)
      (relined-first (length (lines_text (status ∷ fields))) status fields h hs (omega arith))
