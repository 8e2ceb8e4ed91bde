-- ===== src/Upstream/Counts.antt =====
-- The counts of connections of a pool, and its targets that are marked down.
use nanoproxy.Prelude.{
  ℕ, zero, suc, ◌+◌, ◌≤◌, ◌<◌, ◌≡◌, ◌≢◌, refl, sym, ap, ◌∙◌, true, false, Option, some, List, [],
  ◌∷◌, Bytes, arith, if◌then◌else◌, get_elem?, equal, equal_iff, lt→ltb, Bool-cases, some-cancel,
  inl, inr,
}
use nanoproxy.Upstream.{
  UpstreamTarget, UpstreamPool, healthy, update, inc_conn, dec_conn, mark_down, resolve,
}
use nanoproxy.Upstream.Resolve.{resolve-found}

module _ (f : UpstreamTarget → UpstreamTarget) (url : Bytes) (t : UpstreamTarget) where
  update_here :
      (ts : List UpstreamTarget) → equal t.full_url url ≡ true → update f url (t ∷ ts) ≡ f t ∷ ts
  unfolding update
  update_here ts e = rw e refl

  update_there :
      (ts : List UpstreamTarget)
      → equal t.full_url url ≡ false
      → update f url (t ∷ ts) ≡ t ∷ update f url ts
  unfolding update
  update_there ts e = rw e refl

-- Two changes of the first target of a URL, the URL itself kept, that undo each other
update-update :
    (f g : UpstreamTarget → UpstreamTarget) (url : Bytes) (ts : List UpstreamTarget)
    → ((t : UpstreamTarget) → (f t).full_url ≡ t.full_url)
    → ((t : UpstreamTarget) → g (f t) ≡ t)
    → update g url (update f url ts) ≡ ts
unfolding update
update-update f g url [] same undo = refl
update-update f g url (t ∷ ts) same undo = elim (Bool-cases (equal t.full_url url)) [
  | inl e ↦
      ap (update g url) (update_here f url t ts e)
      ∙ update_here g url (f t) ts (ap (λ u. equal u url) (same t) ∙ e)
      ∙ ap (λ x. x ∷ ts) (undo t)
  | inr e ↦
      ap (update g url) (update_there f url t ts e)
      ∙ update_there g url t (update f url ts) e
      ∙ ap (◌∷◌ t) (update-update f g url ts same undo)
]

-- Counting a connection off takes back counting it on, whatever the URL is: the same target is
-- changed both times, and the pool is again as it was.
pub dec_conn-inc_conn :
    (url : Bytes) (pool : UpstreamPool) → dec_conn url (inc_conn url pool) ≡ pool
unfolding dec_conn inc_conn
dec_conn-inc_conn url pool =
    ap (λ ts. record pool { targets = ts })
      (update-update _ _ url pool.targets (λ t. refl)
        (λ t.
          rw (lt→ltb 0 (t.active_connections + 1) (omega arith))
            (ap (λ n. record t { active_connections = n }) (omega arith))))

-- how many targets have the URL
abbrev pub occurrences : Bytes → List UpstreamTarget → ℕ
occurrences url [] = 0
occurrences url (t ∷ ts) =
    let rest = occurrences url ts in if equal t.full_url url then suc rest else rest

occurs-get_elem? :
    (url : Bytes) (ts : List UpstreamTarget) (i : ℕ) (t : UpstreamTarget)
    → get_elem? ts i ≡ some t
    → t.full_url ≡ url
    → 0 < occurrences url ts
occurs-get_elem? url [] i t g e = cc
occurs-get_elem? url (s ∷ ts) zero t g e =
    let hit : equal s.full_url url ≡ true =
      (equal_iff s.full_url url).1 (ap (λ u. u.full_url) (some-cancel g) ∙ e) in
    rw hit (omega arith)
occurs-get_elem? url (s ∷ ts) (suc i) t g e = ground (arith, occurs-get_elem? url ts i t g e)

-- With one target of the URL, the target of that URL in the changed list is the changed one.
update-get_elem? :
    (f : UpstreamTarget → UpstreamTarget) (url : Bytes) (ts : List UpstreamTarget) (i : ℕ)
    (t : UpstreamTarget)
    → occurrences url ts ≤ 1
    → get_elem? (update f url ts) i ≡ some t
    → t.full_url ≡ url
    → (s : UpstreamTarget) × (t ≡ f s)
unfolding update
update-get_elem? f url [] i t one g e = cc
update-get_elem? f url (s ∷ ts) i t one g e = elim (Bool-cases (equal s.full_url url)) [
  | inl b ↦ here i (ap (λ l. get_elem? l i) (sym (update_here f url s ts b)) ∙ g) (rw b at one)
  | inr b ↦
      there i (ap (λ l. get_elem? l i) (sym (update_there f url s ts b)) ∙ g) b
        (λ j k. update-get_elem? f url ts j t (rw b at one) k e)
]
  where
    here :
        (i : ℕ)
        → get_elem? (f s ∷ ts) i ≡ some t
        → suc (occurrences url ts) ≤ 1
        → (s : UpstreamTarget) × (t ≡ f s)
    here zero g b = (s, sym (some-cancel g))
    here (suc i) g b = absurd (omega (arith, occurs-get_elem? url ts i t g e))

    there :
        (i : ℕ)
        → get_elem? (s ∷ update f url ts) i ≡ some t
        → equal s.full_url url ≡ false
        → ((j : ℕ) → get_elem? (update f url ts) j ≡ some t → (s : UpstreamTarget) × (t ≡ f s))
        → (s : UpstreamTarget) × (t ≡ f s)
    there zero g b k =
        cc (b, (equal_iff s.full_url url).1 (ap (λ u. u.full_url) (some-cancel g) ∙ e))
    there (suc i) g b k = k i g

still_down :
    (s : UpstreamTarget) (now until : ℕ)
    → now < until
    → healthy now (record s { unhealthy_until = until }) ≡ false
unfolding healthy
still_down s now until h = ground arith

-- While a target that was marked down at time `since` has to wait, `upstream_pool_resolve` does not
-- return its URL, in any mode, if no other target of the pool has the same URL.
pub resolve-mark_down :
    (pool : UpstreamPool) (url : Bytes) (since now rand : ℕ) (ip : Option Bytes) (fd : ℕ)
    → occurrences url pool.targets ≤ 1
    → now < since + pool.retry_timeout
    → (resolve (some (mark_down since url pool)) now rand ip fd).0 ≢ some url
unfolding mark_down
resolve-mark_down pool url since now rand ip fd one soon e =
    let (i, t, at, up, same) = resolve-found (mark_down since url pool) now rand ip fd url e in
    let (s, changed) = update-get_elem? _ url pool.targets i t one at same in
    cc (sym (ap (healthy now) changed) ∙ up, still_down s now (since + pool.retry_timeout) soon)
