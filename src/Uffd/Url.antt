-- ===== src/Uffd/Url.antt =====
-- remote_range_handler.rs: `HttpUrl`, and that a URL that names its port is read back.
use herm_os_test.Prelude.{
  ℕ, false, [], ◌∷◌, ◌++◌, Option, none, some, ◌==◌, Run, returned, panicked, Text, codes,
  strip_prefix, split_once, rsplit_once, display, parse_unsigned, ◌≡◌, refl, arith, Lacks,
  strip_prefix-append, split_once-append, rsplit_once-append, digit, emit-Lacks,
  parse_unsigned-display,
}
use Prim.Native.Nat.{◌<◌}

pub record HttpUrl : Type 0 where
  pub host : Text
  pub port : ℕ
  pub path : Text
  pub host_header : Text

-- the host and the port of an authority
abbrev pub with_port : Option (Text × Text) → Text → Text → Run HttpUrl
with_port none authority path =
    returned (record { host = authority; port = 80; path = path; host_header = authority })
with_port (some parts) authority path = elim (parse_unsigned 65536 parts.1) [
  | some port ↦
      returned (record { host = parts.0; port = port; path = path; host_header = authority })
  | none ↦ panicked
]

abbrev pub authority_of : Text → Option (Text × Text) → Text × Text
authority_of rest none = (rest, b'/' ∷ [])
authority_of rest (some parts) = (parts.0, b'/' ∷ parts.1)

abbrev pub parse_rest : Option Text → Run HttpUrl
parse_rest none = panicked
parse_rest (some rest) =
    let at = authority_of rest (split_once b'/' rest) in with_port (rsplit_once b':' at.0) at.0 at.1

-- `HttpUrl::parse`
unfoldable pub parse : Text → Run HttpUrl
parse url = parse_rest (strip_prefix (codes "http://") url)

digit-not_colon : (d : ℕ) → d < 16 → digit d == 58 ≡ false
digit-not_colon d h = ground arith

digit-not_slash : (d : ℕ) → d < 16 → digit d == 47 ≡ false
digit-not_slash d h = ground arith

Lacks-append : (q : ℕ) (s t : Text) → Lacks q s → Lacks q t → Lacks q (s ++ t)
Lacks-append q [] t left right = right
Lacks-append q (c ∷ s) t (differs, left) right = (differs, Lacks-append q s t left right)

-- Parsing `http://host:port/path` gives its parts, for a port of 16 bits and a host without a `/`; the
-- host may hold a `:` of its own.
pub parse_roundtrip :
    (host path : Text) (port : ℕ)
    → port < 65536
    → Lacks 47 host
    → (let authority = host ++ (58 ∷ display 10 port) in
        parse (codes "http://" ++ (authority ++ (47 ∷ path)))
        ≡ returned (record { host = host; port = port; path = 47 ∷ path; host_header = authority }))
unfolding parse
parse_roundtrip host path port small lacks =
    let authority = host ++ (58 ∷ display 10 port) in
    let no_slash : Lacks 47 authority =
      Lacks-append 47 host (58 ∷ display 10 port) lacks
        (refl, emit-Lacks 47 10 63 port [] (omega arith) (omega arith) digit-not_slash tt) in
    let whole = strip_prefix-append (codes "http://") (authority ++ (47 ∷ path)) in
    let parts = split_once-append 47 authority path no_slash in
    let ends =
      rsplit_once-append 58 host (display 10 port)
        (emit-Lacks 58 10 63 port [] (omega arith) (omega arith) digit-not_colon tt) in
    let number = parse_unsigned-display 65536 port small (omega arith) in
    rw (whole, parts, ends, with_port, number) refl
