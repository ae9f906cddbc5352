-- ===== src/Uffd/Http/Honest.antt =====
-- The client and an honest server: what it fetches is the range of the remote file.
use mathlib.Core.Path.{subst}
use herm_os_test.Prelude.{
  ℕ, zero, suc, ◌+◌, ◌-◌, ◌%◌, ◌<◌, ◌≡◌, refl, sym, ap, ◌∙◌, inl, inr, true, false, Bool-cases,
  Option, none, some, Outcome, ok, err, map_err, Run, returned, returned-injective,
  bind_run-returned, arith, take, drop, Text, ◌==◌, u64_mod,
}
use herm_os_test.Uffd.Url.{HttpUrl}
use herm_os_test.Uffd.Http.{
  HttpHost, FetchError, Fetched, io, Client, headers, header_line, next_length, length_of_line,
  is_blank, body, read_body, status_of, after_status, after_line, after_send, exchange, connection,
  request, fetch_range_once, again, fetch_range,
}
use herm_os_test.Uffd.Remote.{Bytes}

-- the last byte that a request asks for, on a u64
abbrev pub last_byte : ℕ → ℕ → ℕ
last_byte offset len = (offset + len + (u64_mod - 1)) % u64_mod

-- A server of the file. `asked` is the request whose answer has not been read yet, and `answering` one
-- whose status line said 206 and whose headers have not ended; `in_body` is one whose headers have.
-- What follows the headers then is the range that was asked for.
pub record HonestServer (h : HttpHost) (url : HttpUrl) : Type 0 where
  pub file : Bytes
  pub asked : h.Conn → h.Net → Option Text
  pub answering : h.Conn → h.Net → Option Text
  pub in_body : h.Conn → h.Net → Option Text
  pub send_asks :
      (c : h.Conn) (text : Text) (w : h.Net)
      → (h.send c text w).0 ≡ ok tt
      → asked c (h.send c text w).1 ≡ some text
  pub status_answers :
      (c : h.Conn) (w : h.Net) (text line : Text)
      → asked c w ≡ some text
      → (h.read_line c w).0 ≡ ok line
      → status_of line ≡ some 206
      → answering c (h.read_line c w).1 ≡ some text
  pub header_keeps :
      (c : h.Conn) (w : h.Net) (text line : Text)
      → answering c w ≡ some text
      → (h.read_line c w).0 ≡ ok line
      → is_blank line ≡ false
      → answering c (h.read_line c w).1 ≡ some text
  pub header_ends :
      (c : h.Conn) (w : h.Net) (text line : Text)
      → answering c w ≡ some text
      → (h.read_line c w).0 ≡ ok line
      → is_blank line ≡ true
      → in_body c (h.read_line c w).1 ≡ some text
  pub range_bytes :
      (c : h.Conn) (w : h.Net) (offset len n : ℕ) (got : Bytes)
      → offset < u64_mod
      → in_body c w ≡ some (request h url offset len)
      → (h.read_exact c n w).0 ≡ ok got
      → got ≡ take n (take (suc (last_byte offset len) - offset) (drop offset file))

module _ (h : HttpHost) (url : HttpUrl) (server : HonestServer h url) where
  open server use {
    file, asked, answering, in_body, send_asks, status_answers, header_keeps, header_ends,
    range_bytes,
  }

  -- After headers that end, what follows is the body.
  abbrev EndsIn : h.Conn → Text → Fetched h (Option ℕ) → Type 0
  EndsIn c text (ok n, w) = in_body c w ≡ some text
  EndsIn c text (err e, w) = Unit {0}

  -- a rest of the loop that ends in the body, wherever it starts among the headers
  abbrev IsLater : h.Conn → Text → (Option ℕ → h.Net → Run (Fetched h (Option ℕ))) → Type 0
  IsLater c text go_on =
      (n : Option ℕ) (w : h.Net) (r : Fetched h (Option ℕ))
      → answering c w ≡ some text
      → go_on n w ≡ returned r
      → EndsIn c text r

  next_length-EndsIn :
      (c : h.Conn) (text : Text) (go_on : Option ℕ → h.Net → Run (Fetched h (Option ℕ)))
      (o : Outcome (FetchError h.IoError) (Option ℕ)) (w : h.Net) (r : Fetched h (Option ℕ))
      → IsLater c text go_on
      → answering c w ≡ some text
      → next_length h go_on (o, w) ≡ returned r
      → EndsIn c text r
  next_length-EndsIn c text go_on (err e) w r later at run =
      subst (EndsIn c text) (returned-injective run) tt
  next_length-EndsIn c text go_on (ok n) w r later at run = later n w r at run

  header_line-EndsIn :
      (c : h.Conn) (text : Text) (go_on : Option ℕ → h.Net → Run (Fetched h (Option ℕ)))
      (n : Option ℕ) (o : Outcome h.IoError Text × h.Net) (r : Fetched h (Option ℕ))
      → IsLater c text go_on
      → ((line : Text) → o.0 ≡ ok line → is_blank line ≡ false → answering c o.1 ≡ some text)
      → ((line : Text) → o.0 ≡ ok line → is_blank line ≡ true → in_body c o.1 ≡ some text)
      → header_line h go_on n o ≡ returned r
      → EndsIn c text r
  header_line-EndsIn c text go_on n (err e, w) r later keeps ends run =
      subst (EndsIn c text) (returned-injective run) tt
  header_line-EndsIn c text go_on n (ok line, w) r later keeps ends run =
      elim (Bool-cases (is_blank line)) [
        | inl blank ↦
            let stop : header_line h go_on n (ok line, w) ≡ returned (ok n, w) =
              rw (header_line, blank) refl in
            subst (EndsIn c text) (returned-injective (sym stop ∙ run)) (ends line refl blank)
        | inr more ↦
            let step : header_line h go_on n (ok line, w)
                ≡ next_length h go_on (length_of_line h line n, w) =
              rw (header_line, more) refl in
            next_length-EndsIn c text go_on (length_of_line h line n) w r later
              (keeps line refl more) (sym step ∙ run)
      ]

  headers-EndsIn : (fuel : ℕ) (c : h.Conn) (text : Text) → IsLater c text (headers h fuel c)
  unfolding headers
  headers-EndsIn zero c text n w r at run = absurd (ground (arith, run))
  headers-EndsIn (suc fuel) c text n w r at run =
      header_line-EndsIn c text (headers h fuel c) n (h.read_line c w) r
        (headers-EndsIn fuel c text) (λ line read more. header_keeps c w text line at read more)
        (λ line read blank. header_ends c w text line at read blank) run

  -- a result that, where it is bytes, is the first `len` of the range
  abbrev pub IsPart : ℕ → ℕ → Outcome (FetchError h.IoError) Bytes → Type 0
  IsPart offset len (ok got) =
      got ≡ take len (take (suc (last_byte offset len) - offset) (drop offset file))
  IsPart offset len (err e) = Unit {0}

  module _ (offset len : ℕ) (low : offset < u64_mod) where
    abbrev asks : Text
    asks = request h url offset len

    read_body-IsPart :
        (c : h.Conn) (w : h.Net)
        → in_body c w ≡ some asks
        → IsPart offset len (read_body h c len w).0
    read_body-IsPart c w at =
        of_read (h.read_exact c len w).0 (λ got e. range_bytes c w offset len len got low at e)
      where
        of_read :
            (o : Outcome h.IoError Bytes)
            → ((got : Bytes) → o ≡ ok got → IsPart offset len (ok got))
            → IsPart offset len (map_err io o)
        of_read (ok got) law = law got refl
        of_read (err e) law = tt

    body-IsPart :
        (c : h.Conn) (status : ℕ) (o : Fetched h (Option ℕ))
        → (status ≡ 206 → EndsIn c asks o)
        → IsPart offset len (body h c len status o).0
    body-IsPart c status (err e, w) at = tt
    body-IsPart c status (ok none, w) at = elim (Bool-cases (status == 206)) [
      | inl right ↦ rw (body, right) tt
      | inr wrong ↦ rw (body, wrong) tt
    ]
    body-IsPart c status (ok (some n), w) at = elim (Bool-cases (status == 206)) [
      | inl right ↦ elim (Bool-cases (n == len)) [
        | inl same ↦ rw (body, right, same) (read_body-IsPart c w (at (ground (arith, right))))
        | inr other ↦ rw (body, right, other) tt
      ]
      | inr wrong ↦ rw (body, wrong) tt
    ]

    after_status-IsPart :
        (fuel : ℕ) (c : h.Conn) (status : Option ℕ) (w : h.Net) (r : Fetched h Bytes)
        → (status ≡ some 206 → answering c w ≡ some asks)
        → after_status h fuel c len status w ≡ returned r
        → IsPart offset len r.0
    after_status-IsPart fuel c none w r at run =
        subst (λ (x : Fetched h Bytes). IsPart offset len x.0) (returned-injective run) tt
    after_status-IsPart fuel c (some status) w r at run =
        let (o, read, done) = bind_run-returned (headers h fuel c none w) _ run in
        subst (λ (x : Fetched h Bytes). IsPart offset len x.0) (returned-injective done)
          (body-IsPart c status o
            (λ is. headers-EndsIn fuel c asks none w o (at (ap some is)) read))

    after_line-IsPart :
        (fuel : ℕ) (c : h.Conn) (o : Outcome h.IoError Text × h.Net) (r : Fetched h Bytes)
        → ((line : Text) → o.0 ≡ ok line → status_of line ≡ some 206 → answering c o.1 ≡ some asks)
        → after_line h fuel c len o ≡ returned r
        → IsPart offset len r.0
    after_line-IsPart fuel c (err e, w) r at run =
        subst (λ (x : Fetched h Bytes). IsPart offset len x.0) (returned-injective run) tt
    after_line-IsPart fuel c (ok line, w) r at run =
        after_status-IsPart fuel c (status_of line) w r (at line refl) run

    after_send-IsPart :
        (fuel : ℕ) (c : h.Conn) (o : Outcome h.IoError (Unit {0}) × h.Net) (r : Fetched h Bytes)
        → (o.0 ≡ ok tt → asked c o.1 ≡ some asks)
        → after_send h fuel c len o ≡ returned r
        → IsPart offset len r.0
    after_send-IsPart fuel c (err e, w) r at run =
        subst (λ (x : Fetched h Bytes). IsPart offset len x.0) (returned-injective run) tt
    after_send-IsPart fuel c (ok tt, w) r at run =
        after_line-IsPart fuel c (h.read_line c w) r
          (λ line. status_answers c w asks line (at refl)) run

    exchange-IsPart :
        (fuel : ℕ) (o : Outcome h.IoError h.Conn × h.Net)
        (r : Outcome (FetchError h.IoError) Bytes × Client h)
        → exchange h fuel url offset len o ≡ returned r
        → IsPart offset len r.0
    exchange-IsPart fuel (err e, w) r run =
        subst (λ (x : Outcome (FetchError h.IoError) Bytes × Client h). IsPart offset len x.0)
          (returned-injective run) tt
    exchange-IsPart fuel (ok c, w) r run =
        let sent = h.send c asks w in
        let (o, got, done) = bind_run-returned (after_send h fuel c len sent) _ run in
        subst (λ (x : Outcome (FetchError h.IoError) Bytes × Client h). IsPart offset len x.0)
          (returned-injective done) (after_send-IsPart fuel c sent o (send_asks c asks w) got)

    again-IsPart :
        (fuel : ℕ) (o r : Outcome (FetchError h.IoError) Bytes × Client h)
        → IsPart offset len o.0
        → again h fuel url offset len o ≡ returned r
        → IsPart offset len r.0
    unfolding fetch_range_once
    again-IsPart fuel (ok got, s) r is run =
        subst (λ (x : Outcome (FetchError h.IoError) Bytes × Client h). IsPart offset len x.0)
          (returned-injective run) is
    again-IsPart fuel (err e, s) r is run = exchange-IsPart fuel (connection h url none s.net) r run

    pub fetch_range-IsPart :
        (fuel : ℕ) (s : Client h) (r : Outcome (FetchError h.IoError) Bytes × Client h)
        → fetch_range h fuel url offset len s ≡ returned r
        → IsPart offset len r.0
    unfolding fetch_range fetch_range_once
    fetch_range-IsPart fuel s r run =
        let (o, first, rest) = bind_run-returned (fetch_range_once h fuel url offset len s) _ run in
        again-IsPart fuel o r (exchange-IsPart fuel (connection h url s.reader s.net) o first) rest
