-- ===== src/Mock/Growth.antt =====
-- What appending to a recording changes.
use nanoproxy.Prelude.{
  ◌≡◌, refl, sym, subst, ap, ◌∙◌, Bool, true, false, not, ◌||◌, List, [], ◌∷◌, ◌++◌, Bytes, arith,
  ◌==◌, if◌then◌else◌, length, append_assoc, append-nil,
}
use nanoproxy.Mock.{Recorder, append_request_body, append_response_body}

abbrev pub flat : List Bytes → Bytes
flat [] = []
flat (b ∷ bs) = b ++ flat bs

abbrev pub append_requests : List Bytes → Recorder → Recorder
append_requests [] r = r
append_requests (b ∷ bs) r = append_requests bs (append_request_body b r)

abbrev pub append_responses : List Bytes → Recorder → Recorder
append_responses [] r = r
append_responses (b ∷ bs) r = append_responses bs (append_response_body b r)

-- the recorder but for its file and its counts
pub record Same (r q : Recorder) : Type 0 where
  pub same_meta : q.meta_offset ≡ r.meta_offset
  pub same_meta_len : q.meta_len ≡ r.meta_len
  pub same_request : q.request_offset ≡ r.request_offset
  pub same_request_len : q.request_len ≡ r.request_len
  pub same_response : q.response_offset ≡ r.response_offset
  pub same_started : q.response_started ≡ r.response_started

unfoldable pub Grown : Bytes → Recorder → Recorder → Type 0
Grown s r q = Same r q × (q.file ≡ r.file ++ s)

Grown-nil : (r : Recorder) → Grown [] r r
unfolding Grown
Grown-nil r = (
  record {
    same_meta = refl;
    same_meta_len = refl;
    same_request = refl;
    same_request_len = refl;
    same_response = refl;
    same_started = refl;
  },
  sym (append-nil r.file),
)

if-Grown :
    (e : Bool) (s : Bytes) (r q : Recorder)
    → (e ≡ true → s ≡ [])
    → Grown s r q
    → Grown s r (if e then r else q)
if-Grown true s r q h g = subst (λ t. Grown t r r) (sym (h refl)) (Grown-nil r)
if-Grown false s r q h g = g

length_zero : (b : Bytes) → (length b == 0) ≡ true → b ≡ []
length_zero [] e = refl
length_zero (c ∷ b) e = absurd (ground (arith, e))

append_request_body-Grown : (b : Bytes) (r : Recorder) → Grown b r (append_request_body b r)
unfolding append_request_body Grown
append_request_body-Grown b r = if-Grown (length b == 0) b r _ (length_zero b) (
  record {
    same_meta = refl;
    same_meta_len = refl;
    same_request = refl;
    same_request_len = refl;
    same_response = refl;
    same_started = refl;
  },
  refl,
)

append_response_body-Grown :
    (b : Bytes) (r : Recorder) → r.response_started ≡ true → Grown b r (append_response_body b r)
unfolding append_response_body Grown
append_response_body-Grown b r started =
    if-Grown (not r.response_started || length b == 0) b r _
      (λ e. length_zero b (ground (arith, e, started)))
      (
        record {
          same_meta = refl;
          same_meta_len = refl;
          same_request = refl;
          same_request_len = refl;
          same_response = refl;
          same_started = refl;
        },
        refl,
      )

Grown-trans : (s t : Bytes) (r q w : Recorder) → Grown s r q → Grown t q w → Grown (s ++ t) r w
unfolding Grown
Grown-trans s t r q w g h = (
  record {
    same_meta = h.0.same_meta ∙ g.0.same_meta;
    same_meta_len = h.0.same_meta_len ∙ g.0.same_meta_len;
    same_request = h.0.same_request ∙ g.0.same_request;
    same_request_len = h.0.same_request_len ∙ g.0.same_request_len;
    same_response = h.0.same_response ∙ g.0.same_response;
    same_started = h.0.same_started ∙ g.0.same_started;
  },
  h.1 ∙ ap (λ f. f ++ t) g.1 ∙ append_assoc r.file s t,
)

pub append_requests-Grown :
    (bs : List Bytes) (r : Recorder) → Grown (flat bs) r (append_requests bs r)
append_requests-Grown [] r = Grown-nil r
append_requests-Grown (b ∷ bs) r =
    Grown-trans b (flat bs) r (append_request_body b r)
      (append_requests bs (append_request_body b r)) (append_request_body-Grown b r)
      (append_requests-Grown bs (append_request_body b r))

started_of :
    (s : Bytes) (r q : Recorder)
    → Grown s r q
    → r.response_started ≡ true
    → q.response_started ≡ true
unfolding Grown
started_of s r q g e = g.0.same_started ∙ e

pub append_responses-Grown :
    (bs : List Bytes) (r : Recorder)
    → r.response_started ≡ true
    → Grown (flat bs) r (append_responses bs r)
append_responses-Grown [] r started = Grown-nil r
append_responses-Grown (b ∷ bs) r started =
    let g = append_response_body-Grown b r started in
    Grown-trans b (flat bs) r (append_response_body b r)
      (append_responses bs (append_response_body b r)) g
      (append_responses-Grown bs (append_response_body b r) (started_of b r _ g started))
