-- ===== src/Uffd/Remote/Coherent.antt =====
-- The cache holds what the remote file holds.
use mathlib.Core.Path.{subst}
use herm_os_test.Prelude.{
  ℕ, ◌+◌, ◌-◌, ◌≤◌, ◌<◌, u64_mod, ◌≡◌, refl, ap, ◌∙◌, min, Bool-cases, inl, inr, [], ◌∷◌, Option,
  none, some, Outcome, ok, err, arith, returned, bind_run-returned, length, take, drop, drop-drop,
  take-drop-take, ◌==◌,
}
use herm_os_test.Uffd.Copy.{UffdHost}
use herm_os_test.Uffd.Remote.{
  Bytes, Cache, Fetch, Remote, cached, fetch_chunk_size, slice_of, keep_chunk, from_cache, chunk_at,
}

-- `chunk` is all of the file that lies in the chunk at `base`, in a file that ends at `size`
abbrev pub IsChunk : Bytes → ℕ → ℕ → Bytes → Type 0
IsChunk file size base chunk =
    (chunk ≡ take (min (size - base) fetch_chunk_size) (drop base file))
    × (length chunk ≡ min (size - base) fetch_chunk_size)

abbrev pub IsCoherent : Bytes → ℕ → Cache → Type 0
IsCoherent file size [] = Unit {0}
IsCoherent file size ((base, chunk) ∷ cache) =
    IsChunk file size base chunk × IsCoherent file size cache

cached-IsChunk :
    (file : Bytes) (size : ℕ) (cache : Cache) (base : ℕ) (chunk : Bytes)
    → IsCoherent file size cache
    → cached cache base ≡ some chunk
    → IsChunk file size base chunk
unfolding cached
cached-IsChunk file size [] base chunk coherent e = absurd (ground arith)
cached-IsChunk file size ((k, held) ∷ cache) base chunk coherent e = elim (Bool-cases (k == base)) [
  | inl here ↦
      let at : k ≡ base = ground arith in
      let same : held ≡ chunk = ground (arith, here, e) in
      subst (λ b. IsChunk file size b chunk) at (subst (IsChunk file size k) same coherent.0)
  | inr there ↦ cached-IsChunk file size cache base chunk coherent.1 (ground (arith, there, e))
]

-- a slice of a chunk is that slice of the file
pub slice_of-IsChunk :
    (file : Bytes) (size base start len offset : ℕ) (chunk : Bytes)
    → IsChunk file size base chunk
    → start + len ≤ min (size - base) fetch_chunk_size
    → offset ≡ base + start
    → slice_of chunk start len ≡ returned (take len (drop offset file))
unfolding slice_of
slice_of-IsChunk file size base start len offset chunk (content, long) fits e =
    let same : take len (drop start chunk) ≡ take len (drop offset file) =
      ap (λ c. take len (drop start c)) content
      ∙ take-drop-take len start (min (size - base) fetch_chunk_size) (drop base file) fits
      ∙ ap (take len) (drop-drop start base offset file e) in
    ground (arith, same, long, fits)

-- The remote file: a fetch at a 64-bit offset that succeeds gives its bytes, as many as asked for.
pub record RemoteFile {S E : Type 0} (fetch_range : Fetch S E) : Type 0 where
  pub file : Bytes
  pub fetched :
      (offset len : ℕ) (c c' : S) (got : Bytes)
      → offset < u64_mod
      → fetch_range offset len c ≡ returned (ok got, c')
      → (got ≡ take len (drop offset file)) × (length got ≡ len)

module _ (u : UffdHost) {S E : Type 0} (fetch_range : Fetch S E)
    (remote : RemoteFile fetch_range) where
  open remote use {file, fetched}

  -- a chunk that `chunk_at` gave, and the state after it
  abbrev pub IsHeld : ℕ → ℕ → Remote u fetch_range → Bytes × Remote u fetch_range → Type 0
  IsHeld size base s got =
      IsChunk file size base got.0 × IsCoherent file size got.1.cache × (got.1.world ≡ s.world)

  keep_chunk-IsHeld :
      (size base : ℕ) (s : Remote u fetch_range) (o : Outcome E Bytes × S)
      (got : Bytes × Remote u fetch_range)
      → IsCoherent file size s.cache
      → ((chunk : Bytes) → o.0 ≡ ok chunk → IsChunk file size base chunk)
      → keep_chunk u fetch_range base s o ≡ returned got
      → IsHeld size base s got
  keep_chunk-IsHeld size base s (err e, c) got coherent right run = absurd (ground arith)
  keep_chunk-IsHeld size base s (ok chunk, c) got coherent right run =
      let same : (chunk, record s { client = c; cache = (base, chunk) ∷ s.cache }) ≡ got = cc run in
      subst (IsHeld size base s) same (right chunk refl, (right chunk refl, coherent), refl)

  from_cache-IsHeld :
      (size base : ℕ) (s : Remote u fetch_range) (o : Option Bytes)
      (got : Bytes × Remote u fetch_range)
      → base < u64_mod
      → IsCoherent file size s.cache
      → ((chunk : Bytes) → o ≡ some chunk → IsChunk file size base chunk)
      → from_cache u fetch_range base (min (size - base) fetch_chunk_size) s o ≡ returned got
      → IsHeld size base s got
  from_cache-IsHeld size base s (some chunk) got low coherent right run =
      let same : (chunk, s) ≡ got = cc run in
      subst (IsHeld size base s) same (right chunk refl, coherent, refl)
  from_cache-IsHeld size base s none got low coherent right run =
      let (o, fetch, kept) =
        bind_run-returned (fetch_range base (min (size - base) fetch_chunk_size) s.client) _ run in
      keep_chunk-IsHeld size base s o got coherent
        (λ chunk e.
          fetched base (min (size - base) fetch_chunk_size) s.client o.1 chunk low
            (with_ok o chunk fetch e))
        kept
    where
      with_ok :
          (o : Outcome E Bytes × S) (chunk : Bytes)
          → fetch_range base (min (size - base) fetch_chunk_size) s.client ≡ returned o
          → o.0 ≡ ok chunk
          → fetch_range base (min (size - base) fetch_chunk_size) s.client
            ≡ returned (ok chunk, o.1)
      with_ok (x, c) chunk fetch e = cc (fetch, e)

  -- The chunk is the file's, from the cache or fetched, and the cache stays coherent.
  pub chunk_at-IsHeld :
      (size base : ℕ) (s : Remote u fetch_range) (got : Bytes × Remote u fetch_range)
      → base < u64_mod
      → IsCoherent file size s.cache
      → chunk_at u fetch_range base (min (size - base) fetch_chunk_size) s ≡ returned got
      → IsHeld size base s got
  unfolding chunk_at
  chunk_at-IsHeld size base s got low coherent run =
      from_cache-IsHeld size base s (cached s.cache base) got low coherent
        (λ chunk e. cached-IsChunk file size s.cache base chunk coherent e) run
