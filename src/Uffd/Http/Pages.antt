-- ===== src/Uffd/Http/Pages.antt =====
-- Serving a page over HTTP: the fault handler, the cache and the client together.
use native.Mathlib.Nat.{mod-le, add-mod_right}
use herm_os_test.Prelude.{
  ℕ, zero, suc, ◌+◌, ◌-◌, ◌*◌, ◌≤◌, ◌<◌, ◌≡◌, ap, ◌∙◌, min, true, [], ◌∷◌, ok, returned, arith,
  length, take, drop, take_all, u64_mod,
}
use herm_os_test.Uffd.Url.{HttpUrl}
use herm_os_test.Uffd.Region.{UffdHandler, is_power_of_two, page_base, file_offset_for_addr}
use herm_os_test.Uffd.Region.Lookup.{All, Fits}
use herm_os_test.Uffd.Copy.{UffdHost}
use herm_os_test.Uffd.Http.{HttpHost, fetch_range}
use herm_os_test.Uffd.Http.Ranges.{ReadsExactly, fetch_range-length}
use herm_os_test.Uffd.Http.Honest.{last_byte, HonestServer, fetch_range-IsPart}
use herm_os_test.Uffd.Remote.{
  Bytes, Remote, fetch_chunk_size, remote_size, chunk_at, copy_page, serve_remote_pf,
}
use herm_os_test.Uffd.Remote.Coherent.{IsCoherent, RemoteFile}
use herm_os_test.Uffd.Remote.Refines.{IsPaged, serve_remote_pf-page}

length-take-le : (n : ℕ) (xs : Bytes) → length (take n xs) ≤ n
length-take-le zero xs = omega arith
length-take-le (suc n) [] = omega arith
length-take-le (suc n) (x ∷ xs) = omega (arith, length-take-le n xs)

-- as many bytes as were asked for, from a range that is no longer, are the range
whole_range :
    (len n : ℕ) (xs got : Bytes)
    → got ≡ take len (take n xs)
    → length got ≡ len
    → (0 < len → n ≤ len)
    → got ≡ take len xs
whole_range zero n xs got e long short = e
whole_range (suc len) n xs got e long short =
    let n_le : n ≤ suc len = short (omega arith) in
    let all : take (suc len) (take n xs) ≡ take n xs =
      take_all (suc len) (take n xs) (omega (arith, n_le, length-take-le n xs)) in
    let same : n ≡ suc len = omega (arith, n_le, ap length (e ∙ all), long, length-take-le n xs) in
    e ∙ all ∙ ap (λ i. take i xs) same

range-le : (offset len : ℕ) → 0 < len → suc (last_byte offset len) - offset ≤ len
range-le offset len some_bytes =
    let k : ℕ = offset + len - 1 in
    let sum : offset + len + (u64_mod - 1) ≡ k + u64_mod = omega (arith, some_bytes) in
    let last : last_byte offset len ≤ k = rw (sum, add-mod_right k u64_mod) (mod-le k u64_mod) in
    omega (arith, last, some_bytes)

module _ (h : HttpHost) (url : HttpUrl) (server : HonestServer h url) (reads : ReadsExactly h)
    (fuel : ℕ) where
  open server use {file}

  -- the client of an honest server is a remote file
  abbrev remote_file : RemoteFile (fetch_range h fuel url)
  remote_file = record {
    file = file;
    fetched = λ offset len s s' got low run.
        let (long, c, kept) = fetch_range-length h reads fuel url offset len s s' got run in
        (
          whole_range len (suc (last_byte offset len) - offset) (drop offset file) got
              (fetch_range-IsPart h url server offset len low fuel s (ok got, s') run) long
              (range-le offset len),
          long,
        );
  }

  -- The fault handler over HTTP. The server answers a request for a range, when it answers with 206,
  -- with the bytes of that range of its file, and `read_exact` fills its buffer or fails. With regions
  -- of whole pages that fit a u64 in guest memory and in the file, and a page size that is a power of
  -- two and divides the chunk size of 4096 bytes: when the lookup locates a 64-bit address at `at`,
  -- the cache holds chunks of the file of the server, and the chunk around `at.1` is cached or the
  -- client fetches it, serving the fault is copying the page of the file of the server at `at.1` to
  -- `at.0`. The cache then holds chunks of that file again.
  pub serve_remote_pf-fetch_range :
      (u : UffdHost) (hd : UffdHandler) (m addr size : ℕ) (at : ℕ × ℕ)
      (s : Remote u (fetch_range h fuel url)) (got : Bytes × Remote u (fetch_range h fuel url))
      → is_power_of_two hd.page_size ≡ true
      → fetch_chunk_size ≡ m * hd.page_size
      → addr < u64_mod
      → All Fits hd.mem_regions
      → All (IsPaged hd.page_size) hd.mem_regions
      → file_offset_for_addr hd addr ≡ returned at
      → remote_size hd.mem_regions ≡ returned size
      → IsCoherent file size s.cache
      → (let base = page_base fetch_chunk_size at.1 in
          chunk_at u (fetch_range h fuel url) base (min (size - base) fetch_chunk_size) s
          ≡ returned got)
      → (serve_remote_pf u (fetch_range h fuel url) hd addr s
          ≡ copy_page u (fetch_range h fuel url) at.0 got.1 (take hd.page_size (drop at.1 file)))
        × IsCoherent file size got.1.cache
        × (got.1.world ≡ s.world)
  serve_remote_pf-fetch_range u = serve_remote_pf-page u (fetch_range h fuel url) remote_file
