-- ===== src/Dispatch/Longest.antt =====
-- The handler that the dispatcher chooses has the longest key of those that match.
use nanoproxy.Prelude.{
  ℕ, ◌≤◌, ◌<◌, ◌≡◌, refl, ◌∙◌, ap, Bool, true, false, ◌&&◌, Option, some, List, [], ◌∷◌, Bytes,
  arith, ltb, if◌then◌else◌, length, ◌⊎◌, inl, inr,
}
use nanoproxy.Dispatch.{
  base_match, global_match, Best, no_best, scan_entries, entries_of, choose_handler,
}

module _ {H : Type 0} where
  -- Is this one of the entries?
  abbrev pub In : Bytes × H → List (Bytes × H) → Type 0
  In e [] = ⊥
  In e (x ∷ xs) = (x ≡ e) ⊎ In e xs

  abbrev pub best_of : Bytes × H → Best H
  best_of e = record { len = length e.0; found = some e }

  -- The entry stands in the table, its key matches, and no key was as long before it.
  pub record Wins (matches : Bytes → Bool) (es : List (Bytes × H)) (before : ℕ) (e : Bytes × H)
      : Type 0 where
    pub is_entry : In e es
    pub does_match : matches e.0 ≡ true
    pub longer : before < length e.0

  abbrev pub Winner : (Bytes → Bool) → List (Bytes × H) → Best H → Best H → Type 0
  Winner matches es b c = (c ≡ b) ⊎ ((e : Bytes × H) × (Wins matches es b.len e × (c ≡ best_of e)))

  record Scanned (matches : Bytes → Bool) (es : List (Bytes × H)) (b c : Best H) : Type 0 where
    grows : b.len ≤ c.len
    longest : (e : Bytes × H) → In e es → matches e.0 ≡ true → length e.0 ≤ c.len
    winner : Winner matches es b c

  later :
      (matches : Bytes → Bool) (x : Bytes × H) (es : List (Bytes × H)) (b c : Best H)
      → Winner matches es b c
      → Winner matches (x ∷ es) b c
  later matches x es b c (inl same) = inl same
  later matches x es b c (inr (e, (w, eq))) =
      inr (
        e,
        (record { is_entry = inr w.is_entry; does_match = w.does_match; longer = w.longer }, eq),
      )

  first :
      (matches : Bytes → Bool) (x : Bytes × H) (es : List (Bytes × H)) (b c : Best H)
      → matches x.0 ≡ true
      → b.len < length x.0
      → Winner matches es (best_of x) c
      → Winner matches (x ∷ es) b c
  first matches x es b c m less (inl same) =
      inr (x, (record { is_entry = inl refl; does_match = m; longer = less }, same))
  first matches x es b c m less (inr (e, (w, eq))) = inr (
    e,
    (
      record {
        is_entry = inr w.is_entry;
        does_match = w.does_match;
        longer = omega (arith, less, w.longer);
      },
      eq,
    ),
  )

  chosen_at :
      (t : Bool) (matches : Bytes → Bool) (x : Bytes × H) (es : List (Bytes × H)) (b : Best H)
      → (t ≡ (matches x.0 && ltb b.len (length x.0)))
      → ((d : Best H) → Scanned matches es d (scan_entries matches es d))
      → Scanned matches (x ∷ es) b (scan_entries matches es (if t then best_of x else b))
  chosen_at true matches x es b e h =
      let s = h (best_of x) in
      let m : matches x.0 ≡ true = ground (arith, e) in
      let less : b.len < length x.0 = ground (arith, e) in
      record {
        grows = omega (arith, less, s.grows);
        longest = λ y i fits. longest_true y i fits s;
        winner = first matches x es b (scan_entries matches es (best_of x)) m less s.winner;
      }
    where
      longest_true :
          (y : Bytes × H)
          → In y (x ∷ es)
          → matches y.0 ≡ true
          → Scanned matches es (best_of x) (scan_entries matches es (best_of x))
          → length y.0 ≤ (scan_entries matches es (best_of x)).len
      longest_true y (inl same) fits s = omega (arith, s.grows, ap (λ z. length z.0) same)
      longest_true y (inr i) fits s = s.longest y i fits
  chosen_at false matches x es b e h = record {
    grows = (h b).grows;
    longest = λ y i fits. longest_false y i fits (h b);
    winner = later matches x es b (scan_entries matches es b) (h b).winner;
  }
    where
      longest_false :
          (y : Bytes × H)
          → In y (x ∷ es)
          → matches y.0 ≡ true
          → Scanned matches es b (scan_entries matches es b)
          → length y.0 ≤ (scan_entries matches es b).len
      longest_false y (inl same) fits s =
          let m : matches x.0 ≡ true = ap (λ z. matches z.0) same ∙ fits in
          let short : ltb b.len (length x.0) ≡ false = ground (arith, e, m) in
          let le : length x.0 ≤ b.len = ground (arith, short) in
          omega (arith, le, s.grows, ap (λ z. length z.0) same)
      longest_false y (inr i) fits s = s.longest y i fits

  scan_entries-Scanned :
      (matches : Bytes → Bool) (es : List (Bytes × H)) (b : Best H)
      → Scanned matches es b (scan_entries matches es b)
  unfolding scan_entries
  scan_entries-Scanned matches [] b = record {
    grows = omega arith;
    longest = λ e i fits. absurd i;
    winner = inl refl;
  }
  scan_entries-Scanned matches (x ∷ es) b =
      chosen_at (matches x.0 && ltb b.len (length x.0)) matches x es b refl
        (scan_entries-Scanned matches es)

  -- nothing, an entry of the listener, or one of the global table that is longer than the listener's
  abbrev pub Chosen : Bytes → List (Bytes × H) → List (Bytes × H) → Best H → Type 0
  Chosen uri base globals c =
      (c ≡ no_best)
      ⊎ (((e : Bytes × H) × (Wins (base_match uri) base 0 e × (c ≡ best_of e)))
          ⊎ ((e : Bytes × H) × (Wins (global_match uri) globals 0 e
                × ((c ≡ best_of e)
                    × ((f : Bytes × H)
                        → In f base
                        → base_match uri f.0 ≡ true
                        → length f.0 < length e.0)))))

  -- the choice among the entries of a listener and the global ones
  pub record IsLongest (uri : Bytes) (base globals : List (Bytes × H)) (b : Best H) : Type 0 where
    pub longest_base : (e : Bytes × H) → In e base → base_match uri e.0 ≡ true → length e.0 ≤ b.len
    pub longest_global :
        (e : Bytes × H) → In e globals → global_match uri e.0 ≡ true → length e.0 ≤ b.len
    pub chosen : Chosen uri base globals b

  -- The handler that is chosen for a request stands in the table of its listener or in the global one, its
  -- key matches and is not empty, and no key that matches in either is longer; of keys of one length the
  -- listener's comes first; and the default handler is left for requests that no key but an empty one matches.
  pub choose_handler-IsLongest :
      (uri : Bytes) (base : Option (List (Bytes × H))) (globals : List (Bytes × H))
      → IsLongest uri (entries_of base) globals (choose_handler uri base globals)
  unfolding choose_handler
  choose_handler-IsLongest uri base globals =
      let es = entries_of base in
      let b = scan_entries (base_match uri) es no_best in
      let s = scan_entries-Scanned (base_match uri) es no_best in
      let t = scan_entries-Scanned (global_match uri) globals b in
      record {
        longest_base = λ e i fits. omega (arith, s.longest e i fits, t.grows);
        longest_global = t.longest;
        chosen = join b (scan_entries (global_match uri) globals b) s t.winner;
      }
    where
      join :
          (b c : Best H)
          → Scanned (base_match uri) (entries_of base) no_best b
          → Winner (global_match uri) globals b c
          → Chosen uri (entries_of base) globals c
      join b c s (inr (e, (w, eq))) = inr (
          inr (
            e,
            (
              record {
                is_entry = w.is_entry;
                does_match = w.does_match;
                longer = omega (arith, w.longer);
              },
              (eq, λ f i fits. omega (arith, s.longest f i fits, w.longer)),
            ),
          ))
      join b c s (inl same) = elim s.winner [
        | inl none_yet ↦ inl (same ∙ none_yet)
        | inr (e, (w, eq)) ↦ inr (inl (e, (w, same ∙ eq)))
      ]
