-- ===== src/Uffd/Http/Headers.antt =====
-- The loop over the headers ends when a line ends it, and only then.
use herm_os_test.Prelude.{
  ℕ, zero, suc, ◌<◌, ◌≡◌, refl, sym, ap, ◌∙◌, ◌↔◌, ◌⊎◌, inl, inr, Bool, true, false, Bool-cases,
  List, [], ◌∷◌, map, Option, none, some, Outcome, ok, err, Run, returned, out_of_fuel, arith,
  length, Text, codes, strip_prefix, parse_unsigned, u64_mod,
}
use herm_os_test.Uffd.Http.{
  HttpHost, FetchError, Fetched, is_blank, to_lower, trim, length_of_line, header_line, headers,
}

-- a line without a length, or with a length that parses
abbrev pub has_length : Option Text → Bool
has_length none = true
has_length (some value) = elim (parse_unsigned u64_mod (trim value)) [
  | some n ↦ true
  | none ↦ false
]

abbrev pub is_good : Text → Bool
is_good line = has_length (strip_prefix (codes "content-length:") (map to_lower line))

-- Each line is neither the blank line nor a length that does not parse.
abbrev pub HasNoEnd : List Text → Type 0
HasNoEnd [] = Unit {0}
HasNoEnd (line ∷ lines) = (is_blank line ≡ false) × (is_good line ≡ true) × HasNoEnd lines

-- A peer that sent these lines and then closed: at the end, `read_line` gives an empty line.
pub record Lines (h : HttpHost) (c : h.Conn) : Type 0 where
  pub unread : h.Net → List Text
  pub read_next :
      (w : h.Net) (line : Text) (lines : List Text)
      → unread w ≡ line ∷ lines
      → ((h.read_line c w).0 ≡ ok line) × (unread (h.read_line c w).1 ≡ lines)
  pub read_end :
      (w : h.Net)
      → unread w ≡ []
      → ((h.read_line c w).0 ≡ ok []) × (unread (h.read_line c w).1 ≡ [])

module _ (h : HttpHost) (c : h.Conn) (peer : Lines h c) where
  open peer use {unread, read_next, read_end}

  line_cases :
      (line : Text) (content_len : Option ℕ)
      → ((n : Option ℕ) × (length_of_line h line content_len ≡ ok n) × (is_good line ≡ true))
        ⊎ ((e : FetchError h.IoError) × (length_of_line h line content_len ≡ err e)
            × (is_good line ≡ false))
  line_cases line content_len = go (strip_prefix (codes "content-length:") (map to_lower line)) refl
    where
      go :
          (o : Option Text)
          → strip_prefix (codes "content-length:") (map to_lower line) ≡ o
          → ((n : Option ℕ) × (length_of_line h line content_len ≡ ok n) × (is_good line ≡ true))
            ⊎ ((e : FetchError h.IoError) × (length_of_line h line content_len ≡ err e)
                × (is_good line ≡ false))
      go none e = inl (content_len, rw (length_of_line, e) refl, rw (is_good, e) refl)
      go (some value) e = with_number (parse_unsigned u64_mod (trim value)) refl
        where
          with_number :
              (p : Option ℕ)
              → parse_unsigned u64_mod (trim value) ≡ p
              → ((n : Option ℕ) × (length_of_line h line content_len ≡ ok n)
                  × (is_good line ≡ true))
                ⊎ ((e : FetchError h.IoError) × (length_of_line h line content_len ≡ err e)
                    × (is_good line ≡ false))
          with_number (some n) number = inl (
            some n,
            rw (length_of_line, e, number) refl,
            rw (is_good, e, has_length, number) refl,
          )
          with_number none number = inr (
            FetchError.bad_content_length,
            rw (length_of_line, e, number) refl,
            rw (is_good, e, has_length, number) refl,
          )

  -- a line that was read
  header_line-read :
      (go_on : Option ℕ → h.Net → Run (Fetched h (Option ℕ))) (content_len : Option ℕ)
      (o : Outcome h.IoError Text × h.Net) (line : Text)
      → o.0 ≡ ok line
      → header_line h go_on content_len o ≡ header_line h go_on content_len (ok line, o.1)
  header_line-read go_on content_len (x, w) line e =
      ap (λ (y : Outcome h.IoError Text). header_line h go_on content_len (y, w)) e

  -- the headers, at a line that was read
  headers-read :
      (fuel : ℕ) (content_len : Option ℕ) (w : h.Net) (line : Text)
      → (h.read_line c w).0 ≡ ok line
      → headers h (suc fuel) c content_len w
        ≡ header_line h (headers h fuel c) content_len (ok line, (h.read_line c w).1)
  unfolding headers
  headers-read fuel content_len w line e =
      header_line-read (headers h fuel c) content_len (h.read_line c w) line e

  -- at a peer that has closed
  headers_closed :
      (fuel : ℕ) (content_len : Option ℕ) (w : h.Net)
      → unread w ≡ []
      → headers h fuel c content_len w ≡ out_of_fuel
  unfolding headers is_blank strip_prefix
  headers_closed zero content_len w closed = refl
  headers_closed (suc fuel) content_len w closed =
      let (line, still) = read_end w closed in
      headers-read fuel content_len w [] line
      ∙ headers_closed fuel content_len (h.read_line c w).1 still

  -- With fuel for every unread line and one more: the loop over the headers of a peer that closes after
  -- these lines runs out of fuel, so that it never ends, exactly when no line is blank and every
  -- content length parses.
  pub headers-out_of_fuel :
      (lines : List Text) (fuel : ℕ) (content_len : Option ℕ) (w : h.Net)
      → unread w ≡ lines
      → length lines < fuel
      → (headers h fuel c content_len w ≡ out_of_fuel) ↔ HasNoEnd lines
  headers-out_of_fuel [] fuel content_len w e enough =
      (λ stuck. tt, λ none_left. headers_closed fuel content_len w e)
  headers-out_of_fuel (line ∷ lines) zero content_len w e enough = absurd (omega arith)
  headers-out_of_fuel (line ∷ lines) (suc fuel) content_len w e enough =
      let (read, rest) = read_next w line lines e in
      let w' = (h.read_line c w).1 in
      let step = headers-read fuel content_len w line read in
      elim (Bool-cases (is_blank line)) [
        | inl blank ↦
            let ends : headers h (suc fuel) c content_len w ≡ returned (ok content_len, w') =
              step ∙ rw blank refl in
            (
              λ stuck. absurd (ground (arith, ends, stuck)),
              λ no_end. absurd (ground (arith, blank, no_end.0)),
            )
        | inr more ↦ elim (line_cases line content_len) [
          | inl (n, next, good) ↦
              let same : headers h (suc fuel) c content_len w ≡ headers h fuel c n w' =
                step ∙ rw (more, next) refl in
              let later = headers-out_of_fuel lines fuel n w' rest (omega arith) in
              (λ stuck. (more, good, later.0 (sym same ∙ stuck)), λ no_end. same ∙ later.1 no_end.2)
          | inr (x, next, bad) ↦
              let ends : headers h (suc fuel) c content_len w ≡ returned (err x, w') =
                step ∙ rw (more, next) refl in
              (
                λ stuck. absurd (ground (arith, ends, stuck)),
                λ no_end. absurd (ground (arith, bad, no_end.1)),
              )
        ]
      ]
