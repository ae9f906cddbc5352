-- ===== src/Uffd/Region.antt =====
-- uffd_utils.rs: the guest memory regions, and the address arithmetic of `UffdHandler`.
pub mod Paging
pub mod Lookup
use Prim.Native.Nat.{bit_and}
use herm_os_test.Prelude.{
  ℕ, zero, suc, ◌+◌, ◌-◌, ◌%◌, ◌^◌, Bool, true, false, not, ◌&&◌, ◌||◌, List, [], ◌∷◌, Option, none,
  some, ltb, leb, ◌==◌, if◌then◌else◌, Run, returned, panicked, u64_mod,
}

pub record GuestRegionUffdMapping : Type 0 where
  pub base_host_virt_addr : ℕ
  pub size : ℕ
  pub offset : ℕ
  pub page_size : ℕ

-- the sum is on a u64
unfoldable pub contains : GuestRegionUffdMapping → ℕ → Bool
contains r addr =
    leb r.base_host_virt_addr addr && ltb addr ((r.base_host_virt_addr + r.size) % u64_mod)

-- the descriptor of the handler is part of the world
pub record UffdHandler : Type 0 where
  pub mem_regions : List GuestRegionUffdMapping
  pub page_size : ℕ
  pub backing_buffer : ℕ

-- `usize::is_power_of_two`: one of the 64 bits, alone
abbrev pub is_power_below : ℕ → ℕ → Bool
is_power_below zero n = false
is_power_below (suc k) n = n == 2 ^ k || is_power_below k n

abbrev pub is_power_of_two : ℕ → Bool
is_power_of_two = is_power_below 64

-- `mappings.iter().map(|r| r.size).sum()`
abbrev pub memsize : List GuestRegionUffdMapping → ℕ
memsize [] = 0
memsize (r ∷ rs) = r.size + memsize rs

-- What `from_unix_stream` does with the mappings that it received: `none` is a deserialisation that
-- failed. The sum is taken to fit a usize.
unfoldable pub from_mappings : Option (List GuestRegionUffdMapping) → ℕ → ℕ → Run UffdHandler
from_mappings none backing_buffer size = panicked
from_mappings (some []) backing_buffer size = panicked
from_mappings (some (first ∷ rest)) backing_buffer size =
    if not (memsize (first ∷ rest) == size)
    then panicked
    else if not (is_power_of_two first.page_size)
    then panicked
    else returned (record {
      mem_regions = first ∷ rest;
      page_size = first.page_size;
      backing_buffer = backing_buffer;
    })

-- `from_unix_stream_remote`: no backing buffer, and no check of the size
unfoldable pub from_mappings_remote : Option (List GuestRegionUffdMapping) → Run UffdHandler
from_mappings_remote none = panicked
from_mappings_remote (some []) = panicked
from_mappings_remote (some (first ∷ rest)) =
    if not (is_power_of_two first.page_size)
    then panicked
    else returned
        (record { mem_regions = first ∷ rest; page_size = first.page_size; backing_buffer = 0 })

-- `addr & !(page_size - 1)` on 64 bits
unfoldable pub page_base : ℕ → ℕ → ℕ
page_base page_size addr = bit_and addr (u64_mod - 1 - (page_size - 1))

-- the `for` loop over the regions
unfoldable pub find_region : List GuestRegionUffdMapping → ℕ → Option GuestRegionUffdMapping
unfolding contains
find_region [] dst = none
find_region (r ∷ rs) dst = if contains r dst then some r else find_region rs dst

abbrev pub offset_in : Option GuestRegionUffdMapping → ℕ → Run (ℕ × ℕ)
offset_in none dst = panicked
offset_in (some r) dst = returned (dst, (r.offset + (dst - r.base_host_virt_addr)) % u64_mod)

unfoldable pub file_offset_for_addr : UffdHandler → ℕ → Run (ℕ × ℕ)
file_offset_for_addr h addr =
    let dst = page_base h.page_size addr in offset_in (find_region h.mem_regions dst) dst

-- the source pointer of `populate_from_file`
unfoldable pub source_address : UffdHandler → GuestRegionUffdMapping → ℕ → ℕ
source_address h r dst = (h.backing_buffer + r.offset + (dst - r.base_host_virt_addr)) % u64_mod
