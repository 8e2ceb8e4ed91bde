-- ===== src/Upstream/Least.antt =====
-- `BALANCE_LEAST_CONN` of `upstream_pool_resolve`.
use nanoproxy.Prelude.{
  ℕ, suc, ◌<◌, ◌≡◌, refl, sym, ap, Bool, true, false, not, ◌&&◌, Option, none, some, List, [], ◌∷◌,
  arith, ltb, if◌then◌else◌, get_elem?, all, ◌⊎◌, inl, inr, and-eq_true, some-cancel,
}
use nanoproxy.Upstream.{UpstreamTarget, healthy, least, int_max, url_of}
use nanoproxy.Upstream.Probe.{Chosen}

-- no healthy target has fewer connections
abbrev pub NoneBelow : ℕ → ℕ → List UpstreamTarget → Type 0
NoneBelow now m ts = all (λ t. not (healthy now t && ltb t.active_connections m)) ts ≡ true

-- a healthy target below `m` that no other is below
pub record Best (now : ℕ) (ts : List UpstreamTarget) (m : ℕ) (o : Option UpstreamTarget)
    : Type 0 where
  pub index : ℕ
  pub target : UpstreamTarget
  pub at : get_elem? ts index ≡ some target
  pub is_healthy : healthy now target ≡ true
  pub below : target.active_connections < m
  pub chosen : o ≡ some target
  pub none_below : NoneBelow now target.active_connections ts

-- what the loop over `ts` with `m` and `o` comes to, if that is `r`
abbrev pub Result :
    ℕ → List UpstreamTarget → ℕ → Option UpstreamTarget → Option UpstreamTarget → Type 0
Result now ts m o r = ((r ≡ o) × NoneBelow now m ts) ⊎ Best now ts m r

better :
    (now : ℕ) (t : UpstreamTarget) (ts : List UpstreamTarget) (m : ℕ) (o r : Option UpstreamTarget)
    → healthy now t && ltb t.active_connections m ≡ true
    → Result now ts t.active_connections (some t) r
    → Result now (t ∷ ts) m o r
better now t ts m o r b (inl (e, n)) = inr (record {
  index = 0;
  target = t;
  at = refl;
  is_healthy = (and-eq_true (healthy now t) (ltb t.active_connections m) b).0;
  below = ground arith;
  chosen = e;
  none_below = ground arith;
})
better now t ts m o r b (inr best) = inr (record {
  index = suc best.index;
  target = best.target;
  at = best.at;
  is_healthy = best.is_healthy;
  below = ground (arith, best.below);
  chosen = best.chosen;
  none_below = ground (arith, best.below, best.none_below);
})

worse :
    (now : ℕ) (t : UpstreamTarget) (ts : List UpstreamTarget) (m : ℕ) (o r : Option UpstreamTarget)
    → healthy now t && ltb t.active_connections m ≡ false
    → Result now ts m o r
    → Result now (t ∷ ts) m o r
worse now t ts m o r b (inl (e, n)) = inl (e, ground arith)
worse now t ts m o r b (inr best) = inr (record {
  index = suc best.index;
  target = best.target;
  at = best.at;
  is_healthy = best.is_healthy;
  below = best.below;
  chosen = best.chosen;
  none_below = ground (arith, best.below, best.none_below);
})

least_step :
    (now : ℕ) (t : UpstreamTarget) (ts : List UpstreamTarget) (m : ℕ) (o : Option UpstreamTarget)
    (b : Bool)
    → healthy now t && ltb t.active_connections m ≡ b
    → Result now ts t.active_connections (some t) (least now ts t.active_connections (some t))
    → Result now ts m o (least now ts m o)
    → Result now
        (t ∷ ts)
        m
        o
        (least now ts (if b then t.active_connections else m) (if b then some t else o))
least_step now t ts m o true b one two = better now t ts m o _ b one
least_step now t ts m o false b one two = worse now t ts m o _ b two

pub least-Best :
    (now : ℕ) (ts : List UpstreamTarget) (m : ℕ) (o : Option UpstreamTarget)
    → Result now ts m o (least now ts m o)
unfolding least
least-Best now [] m o = inl (refl, refl)
least-Best now (t ∷ ts) m o =
    least_step now t ts m o (healthy now t && ltb t.active_connections m) refl
      (least-Best now ts t.active_connections (some t)) (least-Best now ts m o)

none-healthy :
    (now : ℕ) (ts : List UpstreamTarget)
    → all (λ t. ltb t.active_connections int_max) ts ≡ true
    → NoneBelow now int_max ts
    → all (λ t. not (healthy now t)) ts ≡ true
none-healthy now [] h n = refl
none-healthy now (t ∷ ts) h n = ground (arith, none-healthy now ts)

-- the target that the mode of the fewest connections comes to
pub least-Chosen :
    (now : ℕ) (ts : List UpstreamTarget)
    → all (λ t. ltb t.active_connections int_max) ts ≡ true
    → Chosen now ts (url_of (least now ts int_max none))
least-Chosen now ts h = go (least now ts int_max none) (least-Best now ts int_max none)
  where
    go : (r : Option UpstreamTarget) → Result now ts int_max none r → Chosen now ts (url_of r)
    go none (inl (e, n)) = none-healthy now ts h n
    go (some t) (inl (e, n)) = cc
    go none (inr best) = cc (best.chosen)
    go (some t) (inr best) = (
      best.index,
      best.target,
      best.at,
      best.is_healthy,
      ap (λ u. u.full_url) (some-cancel (sym best.chosen)),
    )
