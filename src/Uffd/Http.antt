-- ===== src/Uffd/Http.antt =====
-- remote_range_handler.rs: `HttpRangeClient`, which fetches a range of the remote file.
pub mod Headers
pub mod Ranges
pub mod Honest
pub mod Pages
use herm_os_test.Prelude.{
  ℕ, zero, suc, ◌+◌, ◌-◌, ◌%◌, Bool, true, false, not, ◌&&◌, ◌||◌, List, [], ◌∷◌, ◌++◌, map, Option,
  none, some, Outcome, ok, err, map_err, leb, ◌==◌, if◌then◌else◌, Run, returned, panicked,
  out_of_fuel, bind_run, Text, codes, strip_prefix, split_once, rsplit_once, display,
  parse_unsigned, u64_mod,
}
use herm_os_test.Uffd.Url.{HttpUrl}

abbrev pub crlf : Text
crlf = 13 ∷ 10 ∷ []

-- `char::is_whitespace`
abbrev pub is_space : ℕ → Bool
is_space c =
    (leb 9 c && leb c 13)
    || c == 32
    || c == 133
    || c == 160
    || c == 5760
    || (leb 8192 c && leb c 8202)
    || c == 8232
    || c == 8233
    || c == 8239
    || c == 8287
    || c == 12288

unfoldable pub trim_start : Text → Text
trim_start [] = []
trim_start (c ∷ s) = let rest = trim_start s in if is_space c then rest else c ∷ s

-- what is left once the spaces at the end are taken off
unfoldable pub trim_end : Text → Text
trim_end [] = []
trim_end (c ∷ s) = elim (trim_end s) [ [] ↦ if is_space c then [] else c ∷ [] | d ∷ t ↦ c ∷ d ∷ t ]

abbrev pub trim : Text → Text
trim s = trim_end (trim_start s)

-- the first word, and what follows it
unfoldable pub word : Text → Text
word [] = []
word (c ∷ s) = let rest = word s in if is_space c then [] else c ∷ rest

unfoldable pub after_word : Text → Text
after_word [] = []
after_word (c ∷ s) = let rest = after_word s in if is_space c then c ∷ s else rest

-- `split_whitespace().nth(1)`
unfoldable pub second_word : Text → Option Text
unfolding trim_start word after_word
second_word s = elim (word (trim_start (after_word (trim_start s)))) [
  | [] ↦ none
  | c ∷ w ↦ some (c ∷ w)
]

abbrev pub to_lower : ℕ → ℕ
to_lower c = if leb b'A' c && leb c b'Z' then c + 32 else c

unfoldable pub is_blank : Text → Bool
is_blank [] = false
is_blank (c ∷ []) = c == 10
is_blank (c ∷ (d ∷ [])) = c == 13 && d == 10
is_blank (c ∷ (d ∷ (e ∷ s))) = false

-- the status of a response, from its first line
abbrev pub status_of : Text → Option ℕ
status_of line = elim (second_word line) [ some w ↦ parse_unsigned 65536 w | none ↦ none ]

pub data FetchError (E : Type 0) : Type 0 where
  io : E → FetchError E
  bad_status_line bad_content_length : FetchError E
  not_206 : ℕ → FetchError E
  wrong_length : Option ℕ → FetchError E

-- The network. `read_line` gives the line with its end, and an empty line when the peer has closed.
pub record HttpHost : Type 1 where
  pub Net : Type 0
  pub Conn : Type 0
  pub IoError : Type 0
  pub open_conn : Text → ℕ → Net → Outcome IoError Conn × Net
  pub send : Conn → Text → Net → Outcome IoError (Unit {0}) × Net
  pub read_line : Conn → Net → Outcome IoError Text × Net
  pub read_exact : Conn → ℕ → Net → Outcome IoError (List ℕ) × Net

module _ (h : HttpHost) where
  open h use {Net, Conn, IoError, open_conn, send, read_line, read_exact}

  -- `reader` of the client, with the network
  pub record Client : Type 0 where
    pub reader : Option Conn
    pub net : Net

  abbrev pub Fetched : Type 0 → Type 0
  Fetched A = Outcome (FetchError IoError) A × Net

  -- the request for the bytes from `offset` to the end, on a u64
  unfoldable pub request : HttpUrl → ℕ → ℕ → Text
  request url offset len =
      codes "GET "
      ++ (url.path
          ++ (codes " HTTP/1.1"
              ++ (crlf
                  ++ (codes "Host: "
                      ++ (url.host_header
                          ++ (crlf
                              ++ (codes "Range: bytes="
                                  ++ (display 10 offset
                                      ++ (codes "-"
                                          ++ (display 10 ((offset + len + (u64_mod - 1)) % u64_mod)
                                              ++ (crlf
                                                  ++ (codes "Connection: keep-alive"
                                                      ++ (crlf ++ crlf)))))))))))))

  -- one line of the headers: the length so far, or the new one
  abbrev pub length_of_line : Text → Option ℕ → Outcome (FetchError IoError) (Option ℕ)
  length_of_line line content_len =
      elim (strip_prefix (codes "content-length:") (map to_lower line)) [
        | none ↦ ok content_len
        | some value ↦ elim (parse_unsigned u64_mod (trim value)) [
          | some n ↦ ok (some n)
          | none ↦ err bad_content_length
        ]
      ]

  abbrev pub next_length :
      (Option ℕ → Net → Run (Fetched (Option ℕ)))
      → Outcome (FetchError IoError) (Option ℕ) × Net
      → Run (Fetched (Option ℕ))
  next_length go_on (ok content_len, w) = go_on content_len w
  next_length go_on (err e, w) = returned (err e, w)

  abbrev pub header_line :
      (Option ℕ → Net → Run (Fetched (Option ℕ)))
      → Option ℕ
      → Outcome IoError Text × Net
      → Run (Fetched (Option ℕ))
  header_line go_on content_len (err e, w) = returned (err (io e), w)
  header_line go_on content_len (ok line, w) =
      if is_blank line
      then returned (ok content_len, w)
      else next_length go_on (length_of_line line content_len, w)

  -- the `loop` over the headers
  unfoldable pub headers : ℕ → Conn → Option ℕ → Net → Run (Fetched (Option ℕ))
  headers zero c content_len w = out_of_fuel
  headers (suc fuel) c content_len w = header_line (headers fuel c) content_len (read_line c w)

  -- after the headers: the status and the length are checked, then the bytes are read
  abbrev pub read_body : Conn → ℕ → Net → Fetched (List ℕ)
  read_body c len w = let got = read_exact c len w in (map_err io got.0, got.1)

  abbrev pub body : Conn → ℕ → ℕ → Fetched (Option ℕ) → Fetched (List ℕ)
  body c len status (err e, w) = (err e, w)
  body c len status (ok none, w) =
      if not (status == 206) then (err (not_206 status), w) else (err (wrong_length none), w)
  body c len status (ok (some n), w) =
      if not (status == 206)
      then (err (not_206 status), w)
      else if n == len
      then read_body c len w
      else (err (wrong_length (some n)), w)

  -- the rest of `fetch_range_once`, backwards from the headers; `fuel` bounds their lines
  abbrev pub after_status : ℕ → Conn → ℕ → Option ℕ → Net → Run (Fetched (List ℕ))
  after_status fuel c len none w = returned (err bad_status_line, w)
  after_status fuel c len (some status) w =
      bind_run (headers fuel c none w) λ o. returned (body c len status o)

  abbrev pub after_line : ℕ → Conn → ℕ → Outcome IoError Text × Net → Run (Fetched (List ℕ))
  after_line fuel c len (err e, w) = returned (err (io e), w)
  after_line fuel c len (ok line, w) = after_status fuel c len (status_of line) w

  abbrev pub after_send : ℕ → Conn → ℕ → Outcome IoError (Unit {0}) × Net → Run (Fetched (List ℕ))
  after_send fuel c len (err e, w) = returned (err (io e), w)
  after_send fuel c len (ok _, w) = after_line fuel c len (read_line c w)

  abbrev pub kept : Option Conn → Fetched (List ℕ) → Outcome (FetchError IoError) (List ℕ) × Client
  kept c o = (o.0, record { reader = c; net = o.1 })

  abbrev pub exchange :
      ℕ
      → HttpUrl
      → ℕ
      → ℕ
      → Outcome IoError Conn × Net
      → Run (Outcome (FetchError IoError) (List ℕ) × Client)
  exchange fuel url offset len (err e, w) = returned (kept none (err (io e), w))
  exchange fuel url offset len (ok c, w) =
      bind_run (after_send fuel c len (send c (request url offset len) w))
        λ o. returned (kept (some c) o)

  abbrev pub connection : HttpUrl → Option Conn → Net → Outcome IoError Conn × Net
  connection url none w = open_conn url.host url.port w
  connection url (some c) w = (ok c, w)

  unfoldable pub fetch_range_once :
      ℕ → HttpUrl → ℕ → ℕ → Client → Run (Outcome (FetchError IoError) (List ℕ) × Client)
  unfolding headers request
  fetch_range_once fuel url offset len s =
      exchange fuel url offset len (connection url s.reader s.net)

  abbrev pub again :
      ℕ
      → HttpUrl
      → ℕ
      → ℕ
      → Outcome (FetchError IoError) (List ℕ) × Client
      → Run (Outcome (FetchError IoError) (List ℕ) × Client)
  again fuel url offset len (ok bytes, s) = returned (ok bytes, s)
  again fuel url offset len (err e, s) =
      fetch_range_once fuel url offset len (record s { reader = none })

  -- A first failure closes the connection, and the range is asked for once more.
  unfoldable pub fetch_range :
      ℕ → HttpUrl → ℕ → ℕ → Client → Run (Outcome (FetchError IoError) (List ℕ) × Client)
  unfolding fetch_range_once
  fetch_range fuel url offset len s =
      bind_run (fetch_range_once fuel url offset len s) (again fuel url offset len)
