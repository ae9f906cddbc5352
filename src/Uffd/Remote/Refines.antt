-- ===== src/Uffd/Remote/Refines.antt =====
-- Serving a page from the remote file, cache or not, is copying that page of the file.
use native.Mathlib.Nat.{
  mod-lt, mul-sub, mul_assoc, lt_of_mul-lt-mul_right, mul-le-mul_right, div-mul-le_self,
  lt-div-mul-add,
}
use mathlib.Core.List.{Memᴰ}
use mathlib.Core.Path.{subst}
use herm_os_test.Prelude.{
  ℕ, ◌+◌, ◌-◌, ◌*◌, ◌/◌, ◌≤◌, ◌<◌, ◌≡◌, refl, sym, ap, ◌∙◌, Option, none, some, inl, inr, min, max,
  true, List, [], ◌∷◌, arith, returned, returned-injective, panicked, length, take, drop, leb,
  false, u64_mod,
}
use herm_os_test.Uffd.Region.{
  GuestRegionUffdMapping, UffdHandler, find_region, offset_in, is_power_of_two, page_base,
  file_offset_for_addr,
}
use herm_os_test.Uffd.Region.Lookup.{All, Fits, Within, file_offset_for_addr_lem}
use herm_os_test.Uffd.Region.Paging.{page_base_lem}
use herm_os_test.Uffd.Copy.{UffdHost}
use herm_os_test.Uffd.Remote.{
  Bytes, Fetch, Remote, fetch_chunk_size, last_end, region_end, remote_size, slice_of, chunk_at,
  copy_page, serve_from, serve_remote_pf,
}
use herm_os_test.Uffd.Remote.Coherent.{IsCoherent, RemoteFile, chunk_at-IsHeld, slice_of-IsChunk}

-- a multiple of `p`
abbrev pub IsMultiple : ℕ → ℕ → Type 0
IsMultiple p n = (q : ℕ) × (n ≡ q * p)

-- the parts of a region are whole pages
abbrev pub IsPaged : ℕ → GuestRegionUffdMapping → Type 0
IsPaged p r = IsMultiple p r.base_host_virt_addr × IsMultiple p r.size × IsMultiple p r.offset

-- between two multiples lies at least one page
next_multiple : (p x y : ℕ) → IsMultiple p x → IsMultiple p y → x < y → x + p ≤ y
next_multiple p x y (a, ea) (b, eb) lt =
    let below : a < b = lt_of_mul-lt-mul_right p (omega (arith, ea, eb)) in
    omega (arith, ea, eb, mul-le-mul_right p below)

add-IsMultiple : (p x y : ℕ) → IsMultiple p x → IsMultiple p y → IsMultiple p (x + y)
add-IsMultiple p x y (a, ea) (b, eb) = (a + b, omega (arith, ea, eb))

sub-IsMultiple : (p x y : ℕ) → IsMultiple p x → IsMultiple p y → IsMultiple p (x - y)
sub-IsMultiple p x y (a, ea) (b, eb) = (a - b, omega (arith, ea, eb, mul-sub p a b))

times-IsMultiple : (p x k : ℕ) → IsMultiple p x → IsMultiple p (k * x)
times-IsMultiple p x k (a, ea) = (k * a, ap (λ i. k * i) ea ∙ sym (mul_assoc k a p))

last_end-le : (n : ℕ) (rs : List GuestRegionUffdMapping) → n ≤ last_end n rs
last_end-le n [] = omega arith
last_end-le n (r ∷ rs) = omega (arith, last_end-le (max n (region_end r)) rs)

member-last_end :
    (n : ℕ) (rs : List GuestRegionUffdMapping) (r : GuestRegionUffdMapping)
    → Memᴰ r rs
    → region_end r ≤ last_end n rs
member-last_end n [] r m = elim m [ ]
member-last_end n (x ∷ rs) r (Memᴰ.head e) =
    omega (arith, ap region_end e, last_end-le (max n (region_end x)) rs)
member-last_end n (x ∷ rs) r (Memᴰ.tail m) = member-last_end (max n (region_end x)) rs r m

-- the page lies in its chunk, and in the file
page-in-chunk :
    (p m size offset : ℕ)
    → fetch_chunk_size ≡ m * p
    → IsMultiple p offset
    → offset + p ≤ size
    → let base = offset / fetch_chunk_size * fetch_chunk_size in
      (offset - base) + p ≤ min (size - base) fetch_chunk_size
page-in-chunk p m size offset e at fits =
    let base = offset / fetch_chunk_size * fetch_chunk_size in
    let below = div-mul-le_self offset fetch_chunk_size in
    let near : offset < base + fetch_chunk_size = lt-div-mul-add (omega arith) in
    let whole : IsMultiple p fetch_chunk_size = (m, e) in
    let room : offset + p ≤ base + fetch_chunk_size =
      next_multiple p offset (base + fetch_chunk_size) at
        (add-IsMultiple p base fetch_chunk_size
          (times-IsMultiple p fetch_chunk_size (offset / fetch_chunk_size) whole) whole)
        near in
    omega (arith, below, room, fits)

region_end-le :
    (rs : List GuestRegionUffdMapping) (n : ℕ) (r : GuestRegionUffdMapping)
    → remote_size rs ≡ returned n
    → Memᴰ r rs
    → region_end r ≤ n
unfolding remote_size
region_end-le [] n r e m = elim m [ ]
region_end-le (x ∷ rs) n r e (Memᴰ.head at) =
    omega (arith, ap region_end at, last_end-le (region_end x) rs, returned-injective e)
region_end-le (x ∷ rs) n r e (Memᴰ.tail m) =
    omega (arith, member-last_end (region_end x) rs r m, returned-injective e)

All-Memᴰ : {A : Type 0} (P : A → Type 0) (xs : List A) (x : A) → All P xs → Memᴰ x xs → P x
All-Memᴰ P [] x all m = elim m [ ]
All-Memᴰ P (y ∷ xs) x all (Memᴰ.head e) = subst P (sym e) all.0
All-Memᴰ P (y ∷ xs) x all (Memᴰ.tail m) = All-Memᴰ P xs x all.1 m

-- the chunk around a 64-bit offset starts at a 64-bit offset
base-lt : (offset : ℕ) → offset < u64_mod → page_base fetch_chunk_size offset < u64_mod
base-lt offset small =
    let (start, below, near) = page_base_lem fetch_chunk_size offset refl small in
    omega (arith, below, small)

file_offset-lt :
    (h : UffdHandler) (addr : ℕ) (at : ℕ × ℕ)
    → file_offset_for_addr h addr ≡ returned at
    → at.1 < u64_mod
unfolding file_offset_for_addr
file_offset-lt h addr at e = found (find_region h.mem_regions (page_base h.page_size addr)) e
  where
    found :
        (o : Option GuestRegionUffdMapping)
        → offset_in o (page_base h.page_size addr) ≡ returned at
        → at.1 < u64_mod
    found none e = absurd (ground (arith, e))
    found (some r) e =
        subst (λ (x : ℕ × ℕ). x.1 < u64_mod) (returned-injective e)
          (mod-lt (r.offset + (page_base h.page_size addr - r.base_host_virt_addr)) (omega arith))

module _ (u : UffdHost) {S E : Type 0} (fetch_range : Fetch S E)
    (remote : RemoteFile fetch_range) where
  open remote use {file}

  -- `serve_from` at a page that lies in the file
  serve_from-page :
      (p m dst offset size : ℕ) (s : Remote u fetch_range) (got : Bytes × Remote u fetch_range)
      → fetch_chunk_size ≡ m * p
      → IsMultiple p offset
      → offset + p ≤ size
      → offset < u64_mod
      → IsCoherent file size s.cache
      → (let base = page_base fetch_chunk_size offset in
          chunk_at u fetch_range base (min (size - base) fetch_chunk_size) s ≡ returned got)
      → (serve_from u fetch_range p dst offset size s
          ≡ copy_page u fetch_range dst got.1 (take p (drop offset file)))
        × IsCoherent file size got.1.cache
        × (got.1.world ≡ s.world)
  unfolding serve_from
  serve_from-page p m dst offset size s got whole at fits small coherent run =
      let base = page_base fetch_chunk_size offset in
      let (chunk, coherent', same) =
        chunk_at-IsHeld u fetch_range remote size base s got (base-lt offset small) coherent run in
      let (start, below, near) = page_base_lem fetch_chunk_size offset refl small in
      let inside = page-in-chunk p m size offset whole at fits in
      let sliced =
        slice_of-IsChunk file size base (offset - base) p offset got.0 chunk
          (omega (arith, inside, start)) (omega (arith, below)) in
      (rw (run, sliced) refl, coherent', same)

  -- where the lookup puts a page: whole pages from the start of the file, and inside a region
  located-page :
      (p : ℕ) (dst addr off size : ℕ) (regions : List GuestRegionUffdMapping)
      (r : GuestRegionUffdMapping)
      → dst ≡ addr / p * p
      → IsPaged p r
      → Fits r
      → Within r dst
      → Memᴰ r regions
      → remote_size regions ≡ returned size
      → off ≡ r.offset + (dst - r.base_host_virt_addr)
      → IsMultiple p off × (off + p ≤ size) × (off < u64_mod)
  located-page p dst addr off size regions r page (base, long, start) fits within m sized e =
      let at : IsMultiple p off = subst (IsMultiple p) (sym e) (
        add-IsMultiple p r.offset (dst - r.base_host_virt_addr) start
          (sub-IsMultiple p dst r.base_host_virt_addr (addr / p, page) base)) in
      let room =
        next_multiple p off (r.offset + r.size) at (add-IsMultiple p r.offset r.size start long)
          (omega (arith, within.0, within.1, e)) in
      (
        at,
        omega (arith, room, fits.1, region_end-le regions size r sized m),
        omega (arith, within.0, within.1, fits.1, e),
      )

  -- With regions of whole pages that fit a u64 in guest memory and in the file, and a page size that
  -- is a power of two and divides the chunk size of 4096 bytes: when the lookup locates a 64-bit
  -- address at `at`, the cache holds chunks of the remote file, and the chunk around `at.1` is cached
  -- or can be fetched, serving the fault is copying the page of the file at `at.1` to `at.0`. The
  -- cache then holds chunks of the remote file again.
  pub serve_remote_pf-page :
      (h : UffdHandler) (m addr size : ℕ) (at : ℕ × ℕ) (s : Remote u fetch_range)
      (got : Bytes × Remote u fetch_range)
      → is_power_of_two h.page_size ≡ true
      → fetch_chunk_size ≡ m * h.page_size
      → addr < u64_mod
      → All Fits h.mem_regions
      → All (IsPaged h.page_size) h.mem_regions
      → file_offset_for_addr h addr ≡ returned at
      → remote_size h.mem_regions ≡ returned size
      → IsCoherent file size s.cache
      → (let base = page_base fetch_chunk_size at.1 in
          chunk_at u fetch_range base (min (size - base) fetch_chunk_size) s ≡ returned got)
      → (serve_remote_pf u fetch_range h addr s
          ≡ copy_page u fetch_range at.0 got.1 (take h.page_size (drop at.1 file)))
        × IsCoherent file size got.1.cache
        × (got.1.world ≡ s.world)
  unfolding serve_remote_pf
  serve_remote_pf-page h m addr size at s got pow whole small fits paged lookup sized coherent run =
      elim (file_offset_for_addr_lem h addr pow small fits) [
        | inl (r, dst, mem, within, below, near, page, e) ↦
            let same : (dst, r.offset + (dst - r.base_host_virt_addr)) ≡ at =
              returned-injective (sym e ∙ lookup) in
            let off : at.1 ≡ r.offset + (dst - r.base_host_virt_addr) =
              sym (ap (λ (x : ℕ × ℕ). x.1) same) in
            let (multiple, room, low) =
              located-page h.page_size dst addr at.1 size h.mem_regions r page
                (All-Memᴰ (IsPaged h.page_size) h.mem_regions r paged mem)
                (All-Memᴰ Fits h.mem_regions r fits mem) within mem sized off in
            let (served, coherent', world) =
              serve_from-page h.page_size m at.0 at.1 size s got whole multiple room low coherent
                run in
            (rw (lookup, sized) served, coherent', world)
        | inr (missing, e) ↦ absurd (ground (arith, sym e ∙ lookup))
      ]

  -- With pages larger than the chunk size of 4096 bytes, when the lookup locates the address, the
  -- cache holds chunks of the remote file, and the chunk around the located offset is cached or can be
  -- fetched, serving the fault panics: the slice of the page is longer than any chunk.
  pub serve_remote_pf_huge_page :
      (h : UffdHandler) (addr size : ℕ) (at : ℕ × ℕ) (s : Remote u fetch_range)
      (got : Bytes × Remote u fetch_range)
      → fetch_chunk_size < h.page_size
      → file_offset_for_addr h addr ≡ returned at
      → remote_size h.mem_regions ≡ returned size
      → IsCoherent file size s.cache
      → (let base = page_base fetch_chunk_size at.1 in
          chunk_at u fetch_range base (min (size - base) fetch_chunk_size) s ≡ returned got)
      → serve_remote_pf u fetch_range h addr s ≡ panicked
  unfolding serve_remote_pf serve_from slice_of
  serve_remote_pf_huge_page h addr size at s got huge lookup sized coherent run =
      let base = page_base fetch_chunk_size at.1 in
      let (chunk, coherent', same) =
        chunk_at-IsHeld u fetch_range remote size base s got
          (base-lt at.1 (file_offset-lt h addr at lookup)) coherent run in
      let over : leb ((at.1 - base) + h.page_size) (length got.0) ≡ false =
        ground (arith, chunk.1, huge) in
      rw (lookup, sized, run, over) refl
