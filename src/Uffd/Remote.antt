-- ===== src/Uffd/Remote.antt =====
-- remote_range_handler.rs: `serve_remote_pf`, which serves a page from a chunk of a remote file. The
-- chunks that were fetched stay in a cache. How a chunk is fetched is a parameter here.
pub mod Coherent
pub mod Refines
use herm_os_test.Prelude.{
  ℕ, ◌+◌, ◌-◌, ◌%◌, min, max, Bool, true, false, not, List, [], ◌∷◌, Option, none, some, Outcome,
  ok, err, leb, ◌==◌, if◌then◌else◌, Run, returned, panicked, bind_run, length, take, drop, u64_mod,
}
use herm_os_test.Uffd.Region.{GuestRegionUffdMapping, UffdHandler, page_base, file_offset_for_addr}
use herm_os_test.Uffd.Copy.{UffdHost, copy_from_slice, unregister_range}
use herm_os_test.Uffd.Dispatch.{Event, Handler}

abbrev pub Bytes : Type 0
Bytes = List ℕ

abbrev pub fetch_chunk_size : ℕ
fetch_chunk_size = 4096

-- the `HashMap` from the offset of a chunk to its bytes
abbrev pub Cache : Type 0
Cache = List (ℕ × Bytes)

unfoldable pub cached : Cache → ℕ → Option Bytes
cached [] base = none
cached ((k, chunk) ∷ cache) base = if k == base then some chunk else cached cache base

-- the end of the region that lies last in the file; the sum is on a u64
abbrev pub region_end : GuestRegionUffdMapping → ℕ
region_end r = (r.offset + r.size) % u64_mod

abbrev pub last_end : ℕ → List GuestRegionUffdMapping → ℕ
last_end n [] = n
last_end n (r ∷ rs) = last_end (max n (region_end r)) rs

unfoldable pub remote_size : List GuestRegionUffdMapping → Run ℕ
remote_size [] = panicked
remote_size (r ∷ rs) = returned (last_end (region_end r) rs)

-- `&chunk[start..start + len]`
unfoldable pub slice_of : Bytes → ℕ → ℕ → Run Bytes
slice_of chunk start len =
    if leb (start + len) (length chunk) then returned (take len (drop start chunk)) else panicked

-- the client of the remote file, with its connection in the state `S`
abbrev pub Fetch : Type 0 → Type 0 → Type 0
Fetch S E = ℕ → ℕ → S → Run (Outcome E Bytes × S)

module _ (u : UffdHost) {S E : Type 0} (fetch_range : Fetch S E) where
  -- what `serve_remote_pf` changes: the client, the cache, and the world of the ioctls
  pub record Remote : Type 0 where
    pub client : S
    pub cache : Cache
    pub world : u.World

  -- `.expect("remote range fetch failed")`, then `cache.insert`
  abbrev pub keep_chunk : ℕ → Remote → Outcome E Bytes × S → Run (Bytes × Remote)
  keep_chunk base s (err e, c) = panicked
  keep_chunk base s (ok chunk, c) =
      returned (chunk, record s { client = c; cache = (base, chunk) ∷ s.cache })

  abbrev pub from_cache : ℕ → ℕ → Remote → Option Bytes → Run (Bytes × Remote)
  from_cache base len s (some chunk) = returned (chunk, s)
  from_cache base len s none = bind_run (fetch_range base len s.client) (keep_chunk base s)

  unfoldable pub chunk_at : ℕ → ℕ → Remote → Run (Bytes × Remote)
  chunk_at base len s = from_cache base len s (cached s.cache base)

  -- the slice is copied to the page
  abbrev pub copy_page : ℕ → Remote → Bytes → Run (Bool × Remote)
  copy_page dst s page =
      bind_run (copy_from_slice u dst page s.world)
        λ done. returned (done.0, record s { world = done.1 })

  abbrev pub serve_chunk : ℕ → ℕ → ℕ → Bytes × Remote → Run (Bool × Remote)
  serve_chunk dst page_offset page_size got =
      bind_run (slice_of got.0 page_offset page_size) (copy_page dst got.1)

  -- the rest of the function, once the page, its offset in the file and the size of the file are known;
  -- a size below the base of the chunk, where the subtraction of the source overflows, is none that
  -- `remote_size` gives for an offset inside a region
  unfoldable pub serve_from : ℕ → ℕ → ℕ → ℕ → Remote → Run (Bool × Remote)
  unfolding chunk_at
  serve_from page_size dst file_offset size s =
      let base = page_base fetch_chunk_size file_offset in
      bind_run (chunk_at base (min (size - base) fetch_chunk_size) s)
        (serve_chunk dst (file_offset - base) page_size)

  unfoldable pub serve_remote_pf : UffdHandler → ℕ → Remote → Run (Bool × Remote)
  unfolding serve_from
  serve_remote_pf h addr s =
      bind_run (file_offset_for_addr h addr)
        λ at. bind_run (remote_size h.mem_regions) λ size. serve_from h.page_size at.0 at.1 size s

  -- the operations that the closure of `main` calls
  abbrev pub remote_handler :
      {E' : Type 0}
      → (Remote → Outcome E' (Option Event) × Remote)
      → UffdHandler
      → Handler Remote E'
  remote_handler read_event h = record {
    read_event = read_event;
    serve = serve_remote_pf h;
    unregister = λ start end s.
        bind_run (unregister_range u h start end s.world) λ w. returned (record s { world = w });
  }
