-- ===== src/Uffd/Region/Lookup.antt =====
-- Finding the region of a fault, and the place of its page in the backing file.
use mathlib.Core.List.{Memᴰ}
use herm_os_test.Prelude.{
  ℕ, ◌+◌, ◌-◌, ◌*◌, ◌/◌, ◌≤◌, ◌<◌, ◌≡◌, ◌⊎◌, inl, inr, refl, true, Bool-cases, List, [], ◌∷◌,
  Option, none, some, arith, Run, returned, panicked, u64_mod,
}
use herm_os_test.Uffd.Region.{
  is_power_of_two, page_base, contains, find_region, file_offset_for_addr, offset_in,
  GuestRegionUffdMapping, UffdHandler,
}
use herm_os_test.Uffd.Region.Paging.{page_base_lem}

abbrev pub All {ℓ κ} : {A : Type ℓ} → (A → Type κ) → List A → Type κ
All P [] = Unit
All P (x ∷ xs) = P x × All P xs

-- the ends of a region fit a u64, in guest memory and in the file
abbrev pub Fits : GuestRegionUffdMapping → Type 0
Fits r = (r.base_host_virt_addr + r.size < u64_mod) × (r.offset + r.size < u64_mod)

abbrev pub Within : GuestRegionUffdMapping → ℕ → Type 0
Within r a = (r.base_host_virt_addr ≤ a) × (a < r.base_host_virt_addr + r.size)

-- The lookup gives a region of the list around the address, or there is none.
abbrev Found : List GuestRegionUffdMapping → ℕ → Option GuestRegionUffdMapping → Type 0
Found rs a none = All (λ r. ¬ Within r a) rs
Found rs a (some r) = Memᴰ r rs × Within r a × Fits r

Found-cons :
    (r : GuestRegionUffdMapping) (rs : List GuestRegionUffdMapping) (a : ℕ)
    (o : Option GuestRegionUffdMapping)
    → ¬ Within r a
    → Found rs a o
    → Found (r ∷ rs) a o
Found-cons r rs a none out f = (out, f)
Found-cons r rs a (some q) out f = (Memᴰ.tail f.0, f.1, f.2)

find_region-Found :
    (rs : List GuestRegionUffdMapping) (a : ℕ) → All Fits rs → Found rs a (find_region rs a)
unfolding find_region
find_region-Found [] a fits = tt
find_region-Found (r ∷ rs) a fits = elim (Bool-cases (contains r a)) [
  | inl here ↦ rw here (Memᴰ.head refl, ground (arith, fits.0), fits.0)
  | inr there ↦
      rw there (Found-cons r rs a _ (λ w. ground (arith, fits.0)) (find_region-Found rs a fits.1))
]

-- what the two outcomes of the lookup are, at the page `dst`
abbrev Located : UffdHandler → ℕ → Run (ℕ × ℕ) → Type 0
Located h dst result =
    ((r : GuestRegionUffdMapping) × Memᴰ r h.mem_regions
      × Within r dst
      × (result ≡ returned (dst, r.offset + (dst - r.base_host_virt_addr))))
    ⊎ (All (λ r. ¬ Within r dst) h.mem_regions × (result ≡ panicked))

Found-Located :
    (h : UffdHandler) (dst : ℕ) (o : Option GuestRegionUffdMapping)
    → Found h.mem_regions dst o
    → Located h dst (offset_in o dst)
Found-Located h dst none f = inr (f, refl)
Found-Located h dst (some r) f = inl (r, f.0, f.1, ground (arith, f.1, f.2))

-- For a page size that is a power of two, a 64-bit address, and regions whose ends fit a u64 in
-- guest memory and in the file: if a region contains the start of the address's page, the lookup
-- gives that start, which is at or below the address, less than a page away and a multiple of the
-- page size, and the file offset of a region of the list plus the distance of the page from that
-- region's start; if no region does, it panics.
pub file_offset_for_addr_lem :
    (h : UffdHandler) (addr : ℕ)
    → is_power_of_two h.page_size ≡ true
    → addr < u64_mod
    → All Fits h.mem_regions
    → ((r : GuestRegionUffdMapping) × (dst : ℕ) × Memᴰ r h.mem_regions
        × Within r dst
        × (dst ≤ addr)
        × (addr < dst + h.page_size)
        × (dst ≡ addr / h.page_size * h.page_size)
        × (file_offset_for_addr h addr ≡ returned (dst, r.offset + (dst - r.base_host_virt_addr))))
      ⊎ (All (λ r. ¬ Within r (page_base h.page_size addr)) h.mem_regions
          × (file_offset_for_addr h addr ≡ panicked))
unfolding file_offset_for_addr
file_offset_for_addr_lem h addr pow ha fits =
    let dst = page_base h.page_size addr in
    let (base, below, near) = page_base_lem h.page_size addr pow ha in
    elim (Found-Located h dst _ (find_region-Found h.mem_regions dst fits)) [
      | inl (r, m, w, e) ↦ inl (r, dst, m, w, below, near, base, e)
      | inr missing ↦ inr missing
    ]
