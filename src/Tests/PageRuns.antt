-- ===== src/Tests/PageRuns.antt =====
-- A page that is served over HTTP, by a server of a file of eight bytes.
use native.Mathlib.Nat.{mod-lt}
use herm_os_test.Prelude.{
  ℕ, suc, ◌+◌, ◌-◌, ◌<◌, ◌≡◌, refl, sym, ap, ◌∙◌, Bool-cases, true, false, inl, inr, [], ◌∷◌, ◌++◌,
  Option, none, some, Outcome, ok, err, arith, returned, length, take, drop, ◌==◌, if◌then◌else◌,
  Text, codes, strip_prefix, strip_prefix-append, split_once, split_once-append, parse_unsigned,
  parse_unsigned-display, scan, display, digit, emit, emit-Lacks, u64_mod,
}
use herm_os_test.Uffd.Url.{HttpUrl}
use herm_os_test.Uffd.Http.{
  HttpHost, headers, fetch_range_once, fetch_range, request, crlf, second_word, trim_start,
  trim_end, word, after_word, is_blank,
}
use herm_os_test.Uffd.Http.Ranges.{ReadsExactly}
use herm_os_test.Uffd.Http.Honest.{HonestServer, last_byte}
use herm_os_test.Uffd.Http.Pages.{serve_remote_pf-fetch_range}
use herm_os_test.Uffd.Remote.{Bytes, Remote, cached, chunk_at, copy_page, serve_remote_pf}
use herm_os_test.Uffd.Remote.Coherent.{IsCoherent}
use herm_os_test.Tests.RemoteRuns.{
  willing, eight_bytes, small_pages, locates_page, sized_eight, starts_at_zero,
}

abbrev file_url : HttpUrl
file_url = record { host = codes "h"; port = 80; path = codes "/m"; host_header = codes "h" }

abbrev request_head : Text
request_head =
    codes "GET /m HTTP/1.1" ++ (crlf ++ (codes "Host: h" ++ (crlf ++ codes "Range: bytes=")))

abbrev request_tail : Text
request_tail = crlf ++ (codes "Connection: keep-alive" ++ (crlf ++ crlf))

-- where the server is with a request
pub data Stage : Type 0 where
  idle : Stage
  asked second_line third_line in_body : Text → Stage

-- the range of a request
abbrev first_of : Text → Option (Text × Text)
first_of text = elim (strip_prefix request_head text) [ some s ↦ split_once b'-' s | none ↦ none ]

abbrev numbers : Option (Text × Text) → Option (ℕ × ℕ)
numbers none = none
numbers (some parts) = elim (parse_unsigned u64_mod parts.0) [
  | none ↦ none
  | some first ↦ elim (split_once 13 parts.1) [
    | none ↦ none
    | some ends ↦ elim (parse_unsigned u64_mod ends.0) [
      | some last ↦ some (first, last)
      | none ↦ none
    ]
  ]
]

abbrev range_of : Text → Option (ℕ × ℕ)
range_of text = numbers (first_of text)

abbrev in_range : Option (ℕ × ℕ) → Bytes
in_range none = []
in_range (some r) = take (suc r.1 - r.0) (drop r.0 eight_bytes)

abbrev read_of : Bytes → ℕ → Outcome ℕ Bytes
read_of bytes n = if length (take n bytes) == n then ok (take n bytes) else err 5

abbrev line_of : Stage → Outcome ℕ Text × Stage
line_of idle = (ok [], idle)
line_of (asked text) = (ok (codes "HTTP/1.1 206 Partial" ++ crlf), second_line text)
line_of (second_line text) = (ok (codes "Content-Length: 8" ++ crlf), third_line text)
line_of (third_line text) = (ok crlf, in_body text)
line_of (in_body text) = (err 5, in_body text)

abbrev body_of : Stage → ℕ → Outcome ℕ Bytes
body_of (in_body text) n = read_of (in_range (range_of text)) n
body_of _ n = err 5

abbrev file_server : HttpHost
file_server = record {
  Net = Stage;
  Conn = ℕ;
  IoError = ℕ;
  open_conn = λ host port w. (ok 1, w);
  send = λ c text w. (ok tt, asked text);
  read_line = λ c w. line_of w;
  read_exact = λ c n w. (body_of w n, w);
}

abbrev is_asked : Stage → Option Text
is_asked (asked text) = some text
is_asked _ = none

abbrev is_answering : Stage → Option Text
is_answering (second_line text) = some text
is_answering (third_line text) = some text
is_answering _ = none

abbrev is_in_body : Stage → Option Text
is_in_body (in_body text) = some text
is_in_body _ = none

digit-not_dash : (d : ℕ) → d < 16 → digit d == b'-' ≡ false
digit-not_dash d h = ground arith

digit-not_return : (d : ℕ) → d < 16 → digit d == 13 ≡ false
digit-not_return d h = ground arith

-- the numbers of a request whose head and numbers are found
range_of-parts :
    (text s digits ends rest : Text) (first last : ℕ)
    → strip_prefix request_head text ≡ some s
    → split_once b'-' s ≡ some (digits, rest)
    → parse_unsigned u64_mod digits ≡ some first
    → split_once 13 rest ≡ some (ends, 10 ∷ (codes "Connection: keep-alive" ++ (crlf ++ crlf)))
    → parse_unsigned u64_mod ends ≡ some last
    → range_of text ≡ some (first, last)
range_of-parts text s digits ends rest first last head dash one end two =
    rw (range_of, first_of, head, dash, numbers, one, end, two) refl

range_of-request :
    (offset len : ℕ)
    → offset < u64_mod
    → range_of (request file_server file_url offset len) ≡ some (offset, last_byte offset len)
unfolding request
range_of-request offset len low =
    let last = last_byte offset len in
    let small : last < u64_mod = mod-lt (offset + len + (u64_mod - 1)) (omega arith) in
    let after : Text = display 10 last ++ request_tail in
    range_of-parts (request file_server file_url offset len) (display 10 offset ++ (b'-' ∷ after))
      (display 10 offset) (display 10 last) after offset last
      (strip_prefix-append request_head (display 10 offset ++ (b'-' ∷ after)))
      (split_once-append b'-' (display 10 offset) after
        (emit-Lacks b'-' 10 63 offset [] (omega arith) (omega arith) digit-not_dash tt))
      (parse_unsigned-display u64_mod offset low (omega (arith, low)))
      (split_once-append 13 (display 10 last)
        (10 ∷ (codes "Connection: keep-alive" ++ (crlf ++ crlf)))
        (emit-Lacks 13 10 63 last [] (omega arith) (omega arith) digit-not_return tt))
      (parse_unsigned-display u64_mod last small (omega (arith, small)))

read_of-take :
    (bytes got : Bytes) (n : ℕ) → read_of bytes n ≡ ok got → (got ≡ take n bytes) × (length got ≡ n)
read_of-take bytes got n e = elim (Bool-cases (length (take n bytes) == n)) [
  | inl full ↦
      let long : length (take n bytes) ≡ n = ground (arith, full) in
      let done : read_of bytes n ≡ ok (take n bytes) = rw (read_of, full) refl in
      let same : take n bytes ≡ got = cc (sym done ∙ e) in (sym same, sym (ap length same) ∙ long)
  | inr short ↦ absurd (ground (arith, short, e))
]

body_of-range :
    (w : Stage) (offset len n : ℕ) (got : Bytes)
    → offset < u64_mod
    → is_in_body w ≡ some (request file_server file_url offset len)
    → body_of w n ≡ ok got
    → got ≡ take n (take (suc (last_byte offset len) - offset) (drop offset eight_bytes))
body_of-range (in_body text) offset len n got low at e =
    let same : text ≡ request file_server file_url offset len = cc at in
    let (whole, long) = read_of-take (in_range (range_of text)) got n e in
    whole ∙ ap (λ r. take n (in_range r)) (ap range_of same ∙ range_of-request offset len low)
body_of-range idle offset len n got low at e = absurd (ground (arith, e))
body_of-range (asked text) offset len n got low at e = absurd (ground (arith, e))
body_of-range (second_line text) offset len n got low at e = absurd (ground (arith, e))
body_of-range (third_line text) offset len n got low at e = absurd (ground (arith, e))

body_of-length : (w : Stage) (n : ℕ) (got : Bytes) → body_of w n ≡ ok got → length got ≡ n
body_of-length (in_body text) n got e = (read_of-take (in_range (range_of text)) got n e).1
body_of-length idle n got e = absurd (ground (arith, e))
body_of-length (asked text) n got e = absurd (ground (arith, e))
body_of-length (second_line text) n got e = absurd (ground (arith, e))
body_of-length (third_line text) n got e = absurd (ground (arith, e))

line_of-asked :
    (w : Stage) (text : Text) → is_asked w ≡ some text → is_answering (line_of w).1 ≡ some text
line_of-asked (asked t) text at = at
line_of-asked idle text at = absurd (ground (arith, at))
line_of-asked (second_line t) text at = absurd (ground (arith, at))
line_of-asked (third_line t) text at = absurd (ground (arith, at))
line_of-asked (in_body t) text at = absurd (ground (arith, at))

line_of-more :
    (w : Stage) (text line : Text)
    → is_answering w ≡ some text
    → (line_of w).0 ≡ ok line
    → is_blank line ≡ false
    → is_answering (line_of w).1 ≡ some text
unfolding is_blank
line_of-more (second_line t) text line at read more = at
line_of-more (third_line t) text line at read more =
    let same : crlf ≡ line = cc read in
    let blank : is_blank line ≡ true = ap is_blank (sym same) in
    absurd (ground (arith, blank, more))
line_of-more idle text line at read more = absurd (ground (arith, at))
line_of-more (asked t) text line at read more = absurd (ground (arith, at))
line_of-more (in_body t) text line at read more = absurd (ground (arith, at))

line_of-blank :
    (w : Stage) (text line : Text)
    → is_answering w ≡ some text
    → (line_of w).0 ≡ ok line
    → is_blank line ≡ true
    → is_in_body (line_of w).1 ≡ some text
unfolding is_blank
line_of-blank (third_line t) text line at read blank = at
line_of-blank (second_line t) text line at read blank =
    let same : (codes "Content-Length: 8" ++ crlf) ≡ line = cc read in
    let more : is_blank line ≡ false = ap is_blank (sym same) in
    absurd (ground (arith, blank, more))
line_of-blank idle text line at read blank = absurd (ground (arith, at))
line_of-blank (asked t) text line at read blank = absurd (ground (arith, at))
line_of-blank (in_body t) text line at read blank = absurd (ground (arith, at))

abbrev honest : HonestServer file_server file_url
honest = record {
  file = eight_bytes;
  asked = λ c w. is_asked w;
  answering = λ c w. is_answering w;
  in_body = λ c w. is_in_body w;
  send_asks = λ c text w sent. refl;
  status_answers = λ c w text line at read good. line_of-asked w text at;
  header_keeps = λ c w text line at read more. line_of-more w text line at read more;
  header_ends = λ c w text line at read blank. line_of-blank w text line at read blank;
  range_bytes = λ c w offset len n got low at e. body_of-range w offset len n got low at e;
}

abbrev exact_reads : ReadsExactly file_server
exact_reads = record { exact = λ c n w got e. body_of-length w n got e }

abbrev Served : Type 0
Served = Remote willing (fetch_range file_server 3 file_url)

abbrev no_chunk : Served
no_chunk = record { client = record { reader = none; net = idle }; cache = []; world = 0 }

abbrev one_chunk : Served
one_chunk = record {
  client = record { reader = some 1; net = in_body (request file_server file_url 0 8) };
  cache = (0, eight_bytes) ∷ [];
  world = 0;
}

fetches_chunk :
    chunk_at willing (fetch_range file_server 3 file_url) 0 8 no_chunk
    ≡ returned (eight_bytes, one_chunk)
unfolding chunk_at cached fetch_range fetch_range_once headers second_word trim_start trim_end word
    after_word is_blank strip_prefix split_once parse_unsigned scan request emit
fetches_chunk = refl

serve_remote_pf-fetch_range_example :
    (serve_remote_pf willing (fetch_range file_server 3 file_url) small_pages 21 no_chunk
      ≡ copy_page willing
          (fetch_range file_server 3 file_url)
          20
          one_chunk
          (14 ∷ 15 ∷ 16 ∷ 17 ∷ []))
    × IsCoherent eight_bytes 8 ((0, eight_bytes) ∷ [])
    × (one_chunk.world ≡ no_chunk.world)
serve_remote_pf-fetch_range_example =
    serve_remote_pf-fetch_range file_server file_url honest exact_reads 3 willing small_pages 1024
      21 8 (20, 4) no_chunk (eight_bytes, one_chunk) refl refl (omega arith)
      ((omega arith, omega arith), tt) (((4, refl), (2, refl), (0, refl)), tt) locates_page
      sized_eight tt (rw starts_at_zero fetches_chunk)
