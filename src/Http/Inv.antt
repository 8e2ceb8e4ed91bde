-- ===== src/Http/Inv.antt =====
-- The invariant of `struct http_parser`, and what each round of the loop of `http_parser_feed`
-- owes to the next.
use nanoproxy.Prelude.{
  ℕ, zero, suc, ◌+◌, ◌≤◌, ◌<◌, ◌≡◌, ◌⊎◌, inl, inr, refl, sym, ap, ◌∙◌, Bool, true, false, Option,
  none, some, [], ◌∷◌, ◌++◌, Bytes, arith, drop, length, write_at, c_string, length-take,
  length-write_at, length-append, take_all, take-write_at, Option-cases,
}
use nanoproxy.StringBuf.Heap.{Alloc, block}
use nanoproxy.StringBuf.Inv.{Held, IsValid}
use nanoproxy.StringBuf.Search.{memchr-IsFirst}
use nanoproxy.StringBuf.{StringBuf, contents, bytes_of, memchr}
use nanoproxy.Http.Table.{Table}
use nanoproxy.Http.Types.{
  State, request_line, headers, body, done, error, Parser, body_len, Verdict, failed, more,
  complete, streaming, Step, continue, return, fault, slice, dup, extend, max_headers,
  max_body_size, max_chunk_size, max_method_size, max_url_size, max_http_version_size,
}

-- a string is there, of at most `n` bytes
abbrev pub Short : ℕ → Option Bytes → Type 0
Short n none = ⊥
Short n (some s) = length s ≤ n

-- the length of the body, as far as it is known
abbrev pub BodyFits : Bool → ℕ → ℕ → Type 0
BodyFits false size total = (size < total) × (total ≤ max_body_size)
BodyFits true size total = (total ≤ max_chunk_size) × (size + total ≤ max_body_size)

abbrev pub BodyWhole : Bool → ℕ → ℕ → Type 0
BodyWhole false size total = size ≡ total
BodyWhole true size total = Unit

-- a verdict and the state that it is given in
abbrev pub Agrees : Verdict → State → Type 0
Agrees failed error = Unit
Agrees more request_line = Unit
Agrees more headers = Unit
Agrees more body = Unit
Agrees complete done = Unit
Agrees streaming body = Unit
Agrees _ _ = ⊥

module _ {T : Type 0} where
  -- no byte of a body was read, and none is expected yet
  pub record Bodiless (p : Parser T) : Type 0 where
    pub no_body : body_len p ≡ 0
    pub no_length : p.content_length ≡ 0
    pub not_chunked : p.chunked ≡ false

  -- the parser has read on in the same buffer, or is done
  abbrev pub Advances : Parser T → Parser T → Type 0
  Advances p q = ((q.buffer ≡ p.buffer) × (p.pos < q.pos)) ⊎ (q.state ≡ done)

module _ {T : Type 0} (table : Table T) where
  -- The parts of the request line are there and within their limits, and so is the count of headers.
  pub record Lines (p : Parser T) : Type 0 where
    pub method_short : Short max_method_size p.method
    pub uri_short : Short max_url_size p.uri
    pub version_short : Short max_http_version_size p.version
    pub few_headers : table.len p.fields ≤ max_headers

  -- what holds in each state
  abbrev pub Phase : State → Parser T → Type 0
  Phase request_line p = (table.len p.fields ≤ max_headers) × Bodiless p
  Phase headers p = Lines p × Bodiless p
  Phase body p = Lines p × BodyFits p.chunked (body_len p) p.content_length
  Phase done p =
      Lines p × (body_len p ≤ max_body_size) × BodyWhole p.chunked (body_len p) p.content_length
  Phase error p = Unit

  pub record Inv (p : Parser T) : Type 0 where
    pub buffer_valid : IsValid p.buffer
    pub pos_le : p.pos ≤ p.buffer.size
    pub phase : Phase p.state p

  -- What holds while the request line and the headers are read, in either state.
  pub record Reading (p : Parser T) : Type 0 where
    pub buffer_valid : IsValid p.buffer
    pub pos_le : p.pos ≤ p.buffer.size
    pub few_headers : table.len p.fields ≤ max_headers
    pub bodiless : Bodiless p

  -- What a round leaves from parser `p`.
  abbrev pub Good : Parser T → Step T → Type 0
  Good p (continue q) = Inv q × Advances p q
  Good p (return v q) = Inv q × Agrees v q.state
  Good p fault = Unit

pub length-contents : (sb : StringBuf) → IsValid sb → length (contents sb) ≡ sb.size
length-contents sb v = go sb.mem sb.size sb.capacity v.held
  where
    go : (o : Option Bytes) (size cap : ℕ) → Held o size cap → length (bytes_of o size) ≡ size
    go none size cap h = omega arith
    go (some m) size cap h = omega (arith, length-take size m)

-- The line end that is found lies in the buffer, at or behind the start.
pub memchr_bounds :
    (sb : StringBuf) (c start i : ℕ)
    → IsValid sb
    → memchr sb c start ≡ some i
    → (start ≤ i) × (i < sb.size)
memchr_bounds sb c start i v h =
    let f = memchr-IsFirst sb c start i h in (f.from, omega (arith, f.below, length-contents sb v))

length-c_string : (bs : Bytes) → length (c_string bs) ≤ length bs
unfolding c_string
length-c_string [] = omega arith
length-c_string (zero ∷ bs) = omega arith
length-c_string (suc c ∷ bs) = omega (arith, length-c_string bs)

pub dup-eq_some : (a : Alloc) (bs s : Bytes) → dup a bs ≡ some s → s ≡ c_string bs
unfolding dup
dup-eq_some a bs s h = ground arith

pub length-dup : (a : Alloc) (bs s : Bytes) → dup a bs ≡ some s → length s ≤ length bs
length-dup a bs s h = rw (dup-eq_some a bs s h) (length-c_string bs)

-- A copy of `n` bytes of the buffer is a string of at most `n`.
pub dup-slice : (a : Alloc) (i n : ℕ) (bs s : Bytes) → dup a (slice i n bs) ≡ some s → length s ≤ n
dup-slice a i n bs s h = omega (arith, length-dup a (slice i n bs) s h, length-take n (drop i bs))

copied :
    (a : Alloc) (o : Option Bytes) (piece m : Bytes)
    → a.realloc o (length (block o) + length piece) ≡ some m
    → write_at (length (block o)) piece m ≡ block o ++ piece
copied a o piece m e =
    let k = length (block o) in
    let n = k + length piece in
    let len = a.length-realloc o n m e in
    sym (take_all n (write_at k piece m) (omega (arith, length-write_at k piece m)))
    ∙ take-write_at k n piece m refl (omega arith)
    ∙ ap (λ t. t ++ piece)
        (a.take-realloc o n k m e (omega arith) (omega arith) ∙ take_all k (block o) (omega arith))

-- The body grows by the piece that is copied behind it.
pub extend-append :
    (a : Alloc) (o : Option Bytes) (piece b : Bytes)
    → extend a o piece ≡ some b
    → b ≡ block o ++ piece
unfolding extend
extend-append a o piece b h = elim (Option-cases (a.realloc o (length (block o) + length piece))) [
  | inl e ↦ absurd (ground arith)
  | inr (m, e) ↦ ground (arith, copied a o piece m e)
]

pub length-extend :
    (a : Alloc) (o : Option Bytes) (piece b : Bytes)
    → extend a o piece ≡ some b
    → length b ≡ length (block o) + length piece
length-extend a o piece b h = rw (extend-append a o piece b h) (length-append (block o) piece)
