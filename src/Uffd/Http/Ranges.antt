-- ===== src/Uffd/Http/Ranges.antt =====
-- A range that was fetched has the length that was asked for.
use mathlib.Core.Path.{subst}
use herm_os_test.Prelude.{
  ℕ, ◌≡◌, refl, inl, inr, Bool-cases, List, Option, none, some, Outcome, ok, err, map_err, returned,
  returned-injective, bind_run-returned, length, Text, ◌==◌,
}
use herm_os_test.Uffd.Url.{HttpUrl}
use herm_os_test.Uffd.Http.{
  HttpHost, FetchError, Fetched, io, Client, headers, body, status_of, after_status, after_line,
  after_send, kept, exchange, connection, request, fetch_range_once, again, fetch_range,
}

-- `read_exact` fills the buffer, or fails
pub record ReadsExactly (h : HttpHost) : Type 0 where
  pub exact :
      (c : h.Conn) (len : ℕ) (w : h.Net) (got : List ℕ)
      → (h.read_exact c len w).0 ≡ ok got
      → length got ≡ len

module _ (h : HttpHost) (reads : ReadsExactly h) where
  open reads use {exact}

  -- a result of `Fetched`, that is a range of `len` bytes or an error
  abbrev pub IsRange : ℕ → Outcome (FetchError h.IoError) (List ℕ) → Type 0
  IsRange len (ok got) = length got ≡ len
  IsRange len (err e) = Unit {0}

  map_err-IsRange :
      (len : ℕ) (o : Outcome h.IoError (List ℕ))
      → ((got : List ℕ) → o ≡ ok got → length got ≡ len)
      → IsRange len (map_err io o)
  map_err-IsRange len (ok got) law = law got refl
  map_err-IsRange len (err e) law = tt

  body-IsRange :
      (c : h.Conn) (len status : ℕ) (o : Fetched h (Option ℕ))
      → IsRange len (body h c len status o).0
  body-IsRange c len status (err e, w) = tt
  body-IsRange c len status (ok none, w) = elim (Bool-cases (status == 206)) [
    | inl right ↦ rw (body, right) tt
    | inr wrong ↦ rw (body, wrong) tt
  ]
  body-IsRange c len status (ok (some n), w) = elim (Bool-cases (status == 206)) [
    | inl right ↦ elim (Bool-cases (n == len)) [
      | inl same ↦
          rw (body, right, same) (map_err-IsRange len (h.read_exact c len w).0 (exact c len w))
      | inr other ↦ rw (body, right, other) tt
    ]
    | inr wrong ↦ rw (body, wrong) tt
  ]

  after_line-IsRange :
      (fuel : ℕ) (c : h.Conn) (len : ℕ) (o : Outcome h.IoError Text × h.Net)
      (r : Fetched h (List ℕ))
      → after_line h fuel c len o ≡ returned r
      → IsRange len r.0
  after_line-IsRange fuel c len (err e, w) r run =
      subst (λ (x : Fetched h (List ℕ)). IsRange len x.0) (returned-injective run) tt
  after_line-IsRange fuel c len (ok line, w) r run = with_status (status_of line) run
    where
      with_status : (o : Option ℕ) → after_status h fuel c len o w ≡ returned r → IsRange len r.0
      with_status none run =
          subst (λ (x : Fetched h (List ℕ)). IsRange len x.0) (returned-injective run) tt
      with_status (some status) run =
          let (o, read, done) = bind_run-returned (headers h fuel c none w) _ run in
          subst (λ (x : Fetched h (List ℕ)). IsRange len x.0) (returned-injective done)
            (body-IsRange c len status o)

  after_send-IsRange :
      (fuel : ℕ) (c : h.Conn) (len : ℕ) (o : Outcome h.IoError (Unit {0}) × h.Net)
      (r : Fetched h (List ℕ))
      → after_send h fuel c len o ≡ returned r
      → IsRange len r.0
  after_send-IsRange fuel c len (err e, w) r run =
      subst (λ (x : Fetched h (List ℕ)). IsRange len x.0) (returned-injective run) tt
  after_send-IsRange fuel c len (ok _, w) r run =
      after_line-IsRange fuel c len (h.read_line c w) r run

  -- what a fetch gives: a range on a connection that is kept, or an error
  abbrev pub IsFetch : ℕ → Outcome (FetchError h.IoError) (List ℕ) × Client h → Type 0
  IsFetch len (ok got, s) = (length got ≡ len) × (c : h.Conn) × (s.reader ≡ some c)
  IsFetch len (err e, s) = Unit {0}

  kept-IsFetch :
      (len : ℕ) (c : h.Conn) (o : Fetched h (List ℕ))
      → IsRange len o.0
      → IsFetch len (kept h (some c) o)
  kept-IsFetch len c (ok got, w) long = (long, c, refl)
  kept-IsFetch len c (err e, w) long = tt

  exchange-IsFetch :
      (fuel : ℕ) (url : HttpUrl) (offset len : ℕ) (o : Outcome h.IoError h.Conn × h.Net)
      (r : Outcome (FetchError h.IoError) (List ℕ) × Client h)
      → exchange h fuel url offset len o ≡ returned r
      → IsFetch len r
  exchange-IsFetch fuel url offset len (err e, w) r run =
      subst (IsFetch len) (returned-injective run) tt
  exchange-IsFetch fuel url offset len (ok c, w) r run =
      let (o, sent, done) =
        bind_run-returned (after_send h fuel c len (h.send c (request h url offset len) w)) _ run in
      subst (IsFetch len) (returned-injective done) (
        kept-IsFetch len c o
          (after_send-IsRange fuel c len (h.send c (request h url offset len) w) o sent))

  once-IsFetch :
      (fuel : ℕ) (url : HttpUrl) (offset len : ℕ) (s : Client h)
      (r : Outcome (FetchError h.IoError) (List ℕ) × Client h)
      → fetch_range_once h fuel url offset len s ≡ returned r
      → IsFetch len r
  unfolding fetch_range_once
  once-IsFetch fuel url offset len s r run =
      exchange-IsFetch fuel url offset len (connection h url s.reader s.net) r run

  again-IsFetch :
      (fuel : ℕ) (url : HttpUrl) (offset len : ℕ)
      (o r : Outcome (FetchError h.IoError) (List ℕ) × Client h)
      → IsFetch len o
      → again h fuel url offset len o ≡ returned r
      → IsFetch len r
  again-IsFetch fuel url offset len (ok got, s) r is run =
      subst (IsFetch len) (returned-injective run) is
  again-IsFetch fuel url offset len (err e, s) r is run =
      once-IsFetch fuel url offset len (record s { reader = none }) r run

  -- When `read_exact` fills its buffer or fails, a range that `fetch_range` gives, at once or with the
  -- second request, has as many bytes as were asked for, and the client keeps a connection.
  pub fetch_range-length :
      (fuel : ℕ) (url : HttpUrl) (offset len : ℕ) (s s' : Client h) (got : List ℕ)
      → fetch_range h fuel url offset len s ≡ returned (ok got, s')
      → (length got ≡ len) × (c : h.Conn) × (s'.reader ≡ some c)
  unfolding fetch_range
  fetch_range-length fuel url offset len s s' got run =
      let (o, first, rest) = bind_run-returned (fetch_range_once h fuel url offset len s) _ run in
      again-IsFetch fuel url offset len o (ok got, s') (once-IsFetch fuel url offset len s o first)
        rest
