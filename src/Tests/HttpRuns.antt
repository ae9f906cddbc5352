-- ===== src/Tests/HttpRuns.antt =====
-- Runs of the client of the remote file.
use herm_os_test.Prelude.{
  ℕ, ◌≡◌, refl, ◌↔◌, inl, inr, Bool-cases, length-take, strip_prefix, parse_unsigned, scan, List,
  [], ◌∷◌, ◌++◌, none, some, Outcome, ok, err, arith, returned, out_of_fuel, Text, codes, length,
  take, display, leb, if◌then◌else◌,
}
use herm_os_test.Uffd.Url.{HttpUrl, parse, parse_roundtrip}
use herm_os_test.Uffd.Http.{
  HttpHost, Client, headers, fetch_range_once, fetch_range, crlf, second_word, trim_start, trim_end,
  word, after_word, is_blank,
}
use herm_os_test.Uffd.Http.Headers.{Lines, HasNoEnd, headers-out_of_fuel}
use herm_os_test.Uffd.Http.Ranges.{ReadsExactly}

abbrev blob_host : Text
blob_host = codes "10.0.0.7"

parse_roundtrip_example :
    parse (codes "http://" ++ ((blob_host ++ (58 ∷ display 10 8080)) ++ (47 ∷ codes "memory.bin")))
    ≡ returned (record {
      host = blob_host;
      port = 8080;
      path = 47 ∷ codes "memory.bin";
      host_header = blob_host ++ (58 ∷ display 10 8080);
    })
parse_roundtrip_example =
    parse_roundtrip blob_host (codes "memory.bin") 8080 (omega arith)
      (refl, (refl, (refl, (refl, (refl, (refl, (refl, (refl, tt))))))))

-- a peer: the lines it has yet to send, and the bytes after them
pub record Peer : Type 0 where
  pub sent : List Text
  pub payload : List ℕ

abbrev next_line : Peer → Outcome ℕ Text × Peer
next_line p = elim p.sent [ [] ↦ (ok [], p) | line ∷ lines ↦ (ok line, record p { sent = lines }) ]

abbrev read_from : List ℕ → ℕ → Outcome ℕ (List ℕ)
read_from bytes len = if leb len (length bytes) then ok (take len bytes) else err 5

abbrev one_peer : HttpHost
one_peer = record {
  Net = Peer;
  Conn = ℕ;
  IoError = ℕ;
  open_conn = λ host port p. (ok 1, p);
  send = λ c text p. (ok tt, p);
  read_line = λ c p. next_line p;
  read_exact = λ c len p. (read_from p.payload len, p);
}

pub next_line-next :
    (p : Peer) (line : Text) (lines : List Text)
    → p.sent ≡ line ∷ lines
    → ((next_line p).0 ≡ ok line) × ((next_line p).1.sent ≡ lines)
next_line-next p line lines e = (rw e refl, rw e refl)

pub next_line-end :
    (p : Peer) → p.sent ≡ [] → ((next_line p).0 ≡ ok []) × ((next_line p).1.sent ≡ [])
next_line-end p e = (rw e refl, rw e refl)

abbrev peer_lines : Lines one_peer 1
peer_lines = record { unread = λ p. p.sent; read_next = next_line-next; read_end = next_line-end }

abbrev cut_off : Peer
cut_off = record { sent = (codes "Server: x" ++ crlf) ∷ []; payload = [] }

headers-out_of_fuel_example :
    (headers one_peer 5 1 none cut_off ≡ out_of_fuel) ↔ HasNoEnd ((codes "Server: x" ++ crlf) ∷ [])
headers-out_of_fuel_example =
    headers-out_of_fuel one_peer 1 peer_lines ((codes "Server: x" ++ crlf) ∷ []) 5 none cut_off refl
      (omega arith)

pub read_from-length :
    (len : ℕ) (bytes got : List ℕ) → read_from bytes len ≡ ok got → length got ≡ len
read_from-length len bytes got e = elim (Bool-cases (leb len (length bytes))) [
  | inl fits ↦
      let long : length (take len bytes) ≡ len = length-take len bytes (ground (arith, fits)) in
      ground (arith, fits, e, long)
  | inr over ↦ absurd (ground (arith, over, e))
]

abbrev peer_reads : ReadsExactly one_peer
peer_reads = record { exact = λ c len w got e. read_from-length len w.payload got e }

abbrev blob_url : HttpUrl
blob_url = record { host = blob_host; port = 80; path = 47 ∷ []; host_header = blob_host }

abbrev three_bytes : List ℕ
three_bytes = 7 ∷ 8 ∷ 9 ∷ []

abbrev answering : Client one_peer
answering = record {
  reader = none;
  net = record {
    sent = (codes "HTTP/1.1 206 Partial" ++ crlf) ∷ (codes "Content-Length: 3" ++ crlf) ∷ crlf ∷ [];
    payload = three_bytes;
  };
}

abbrev answered : Client one_peer
answered = record { reader = some 1; net = record { sent = []; payload = three_bytes } }

fetches_three : fetch_range one_peer 2 blob_url 0 3 answering ≡ returned (ok three_bytes, answered)
unfolding fetch_range fetch_range_once headers second_word trim_start trim_end word after_word
    is_blank strip_prefix parse_unsigned scan
fetches_three = refl
