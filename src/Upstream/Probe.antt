-- ===== src/Upstream/Probe.antt =====
-- The modes of `upstream_pool_resolve` that try one target after another.
use native.Mathlib.Nat.{mod-add-mod, mod-eq_of_lt, add-mod_right, mod-lt}
use nanoproxy.Prelude.{
  ℕ, zero, suc, ◌+◌, ◌-◌, ◌%◌, ◌<◌, ◌≡◌, refl, sym, ap, ◌∙◌, Bool, true, false, not, Option, none,
  some, List, [], ◌∷◌, Bytes, arith, leb, if◌then◌else◌, length, get_elem?, all, Bool-cases,
  Option-cases, some-cancel, inl, inr,
}
use nanoproxy.Upstream.{UpstreamTarget, healthy, probe}

pub get_elem?-below :
    {A : Type 0} (xs : List A) (i : ℕ) → i < length xs → (x : A) × (get_elem? xs i ≡ some x)
get_elem?-below [] i h = absurd (omega arith)
get_elem?-below (x ∷ xs) zero h = (x, refl)
get_elem?-below (x ∷ xs) (suc i) h = get_elem?-below xs i (omega arith)

pub all-get_elem? :
    {A : Type 0} (p : A → Bool) (xs : List A)
    → ((i : ℕ) (x : A) → get_elem? xs i ≡ some x → p x ≡ true)
    → all p xs ≡ true
all-get_elem? p [] h = refl
all-get_elem? p (x ∷ xs) h = rw (h 0 x refl, all-get_elem? p xs (λ i y e. h (suc i) y e)) refl

get_elem?-lt : {A : Type 0} (xs : List A) (i : ℕ) (x : A) → get_elem? xs i ≡ some x → i < length xs
get_elem?-lt [] i c h = cc
get_elem?-lt (x ∷ xs) zero c h = omega arith
get_elem?-lt (x ∷ xs) (suc i) c h = omega (arith, get_elem?-lt xs i c h)

-- what a choice of a URL has to be: that of a healthy target, or none where no target is healthy
abbrev pub Chosen : ℕ → List UpstreamTarget → Option Bytes → Type 0
Chosen now ts none = all (λ t. not (healthy now t)) ts ≡ true
Chosen now ts (some url) =
    (i : ℕ) × (t : UpstreamTarget) × (get_elem? ts i ≡ some t)
    × (healthy now t ≡ true)
    × (t.full_url ≡ url)

-- `n` tries of a turning place look at each of `n` targets
pub turn : (s n i : ℕ) → i < n → (d : ℕ) × (d < n) × ((s + d) % n ≡ i)
turn s n i h =
    let r : s % n < n = mod-lt s (omega arith) in
    elim (Bool-cases (leb (s % n) i)) [
      | inl e ↦
          let back : s % n + (i - s % n) ≡ i = ground arith in
          (
            i - s % n,
            ground arith,
            sym (mod-add-mod s n (i - s % n)) ∙ ap (λ k. k % n) back ∙ mod-eq_of_lt h,
          )
      | inr e ↦
          let back : s % n + (i + n - s % n) ≡ i + n = ground arith in
          (
            i + n - s % n,
            ground arith,
            sym (mod-add-mod s n (i + n - s % n))
                ∙ ap (λ k. k % n) back
                ∙ add-mod_right i n
                ∙ mod-eq_of_lt h,
          )
    ]

module _ (now : ℕ) (at : ℕ → ℕ) (ts : List UpstreamTarget) where
  probe_step :
      (k j : ℕ) (t : UpstreamTarget)
      → get_elem? ts (at j) ≡ some t
      → probe now at ts (suc k) j
        ≡ (if healthy now t then some t.full_url else probe now at ts k (j + 1))
  unfolding probe
  probe_step k j t g = rw (g, probe) refl

  probe_end : (k j : ℕ) → get_elem? ts (at j) ≡ none → probe now at ts (suc k) j ≡ none
  unfolding probe
  probe_end k j g = rw (g, probe) refl

  pub probe-found :
      (k j : ℕ) (url : Bytes) → probe now at ts k j ≡ some url → Chosen now ts (some url)
  unfolding probe
  probe-found zero j url e = cc
  probe-found (suc k) j url e = elim (Option-cases (get_elem? ts (at j))) [
    | inl g ↦ cc (sym (probe_end k j g) ∙ e)
    | inr (t, g) ↦
        let step = sym (probe_step k j t g) ∙ e in
        elim (Bool-cases (healthy now t)) [
          | inl b ↦ (at j, t, g, b, some-cancel (rw b at step))
          | inr b ↦ probe-found k (j + 1) url (rw b at step)
        ]
  ]

  pub probe-none :
      ((j : ℕ) → at j < length ts)
      → (k j d : ℕ) (t : UpstreamTarget) → probe now at ts k j ≡ none
      → d < k
      → get_elem? ts (at (j + d)) ≡ some t
      → healthy now t ≡ false
  unfolding probe
  probe-none inside zero j d t e h g = absurd (omega arith)
  probe-none inside (suc k) j zero t e h g =
      let same : get_elem? ts (at j) ≡ some t = ap (λ m. get_elem? ts (at m)) (omega arith) ∙ g in
      elim (Bool-cases (healthy now t)) [
        | inl b ↦ cc (rw b at (sym (probe_step k j t same) ∙ e))
        | inr b ↦ b
      ]
  probe-none inside (suc k) j (suc d) t e h g =
      let (first, f) = get_elem?-below ts (at j) (inside j) in
      let next : get_elem? ts (at (j + 1 + d)) ≡ some t =
        ap (λ m. get_elem? ts (at m)) (omega arith) ∙ g in
      elim (Bool-cases (healthy now first)) [
        | inl b ↦ cc (rw b at (sym (probe_step k j first f) ∙ e))
        | inr b ↦
            probe-none inside k (j + 1) d t (rw b at (sym (probe_step k j first f) ∙ e))
              (omega arith) next
      ]

  -- tries that look at every target choose as they should
  pub probe-Chosen :
      ((j : ℕ) → at j < length ts)
      → ((i : ℕ) → i < length ts → (d : ℕ) × (d < length ts) × (at d ≡ i))
      → Chosen now ts (probe now at ts (length ts) 0)
  probe-Chosen inside around = go (probe now at ts (length ts) 0) refl
    where
      go : (o : Option Bytes) → probe now at ts (length ts) 0 ≡ o → Chosen now ts o
      go (some url) e = probe-found (length ts) 0 url e
      go none e =
          all-get_elem? (λ t. not (healthy now t)) ts
            (λ i t g.
              let (d, h, w) = around i (get_elem?-lt ts i t g) in
              ap not (
                probe-none inside (length ts) 0 d t e h
                  (ap (λ m. get_elem? ts (at m)) (omega arith) ∙ ap (get_elem? ts) w ∙ g)))
