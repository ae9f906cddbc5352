-- ===== src/Tests/RemoteRuns.antt =====
-- Runs of the remote page fault handler.
use herm_os_test.Prelude.{
  ℕ, suc, ◌+◌, ◌≤◌, ◌<◌, u64_mod, ◌≡◌, refl, Bool-cases, true, inl, inr, [], ◌∷◌, ok, err, arith,
  returned, panicked, length, take, drop, length-take, length-drop, leb, if◌then◌else◌,
}
use herm_os_test.Uffd.Region.{UffdHandler, page_base, file_offset_for_addr, find_region, contains}
use herm_os_test.Uffd.Copy.{copied, UffdHost}
use herm_os_test.Uffd.Remote.{
  Bytes, Fetch, Remote, cached, remote_size, chunk_at, copy_page, serve_remote_pf,
}
use herm_os_test.Uffd.Remote.Coherent.{IsCoherent, RemoteFile}
use herm_os_test.Uffd.Remote.Refines.{serve_remote_pf-page, serve_remote_pf_huge_page}

-- a kernel that copies all it is asked to, and counts the calls
abbrev pub willing : UffdHost
willing = record {
  World = ℕ;
  IoctlError = ℕ;
  eagain = 11;
  eexist = 17;
  copy = λ src dst len w. (copied len, suc w);
  unregister = λ start len w. (ok tt, suc w);
}

abbrev pub eight_bytes : Bytes
eight_bytes = 10 ∷ 11 ∷ 12 ∷ 13 ∷ 14 ∷ 15 ∷ 16 ∷ 17 ∷ []

-- a server that sends a range that lies in the file
abbrev fetch_eight : Fetch ℕ ℕ
fetch_eight offset len c =
    if leb (offset + len) (length eight_bytes)
    then returned (ok (take len (drop offset eight_bytes)), suc c)
    else returned (err 416, suc c)

pub fetch_eight_lem :
    (offset len : ℕ) (c c' : ℕ) (got : Bytes)
    → offset < u64_mod
    → fetch_eight offset len c ≡ returned (ok got, c')
    → (got ≡ take len (drop offset eight_bytes)) × (length got ≡ len)
fetch_eight_lem offset len c c' got low e =
    elim (Bool-cases (leb (offset + len) (length eight_bytes))) [
      | inl fits ↦
          let long : length (take len (drop offset eight_bytes)) ≡ len =
            length-take len (drop offset eight_bytes)
              (omega (arith, length-drop offset eight_bytes, within fits)) in
          ground (arith, fits, e, long)
      | inr over ↦ absurd (ground (arith, over, e))
    ]
  where
    within : leb (offset + len) 8 ≡ true → offset + len ≤ 8
    within h = ground (arith, h)

abbrev remote_eight : RemoteFile fetch_eight
remote_eight = record { file = eight_bytes; fetched = fetch_eight_lem }

abbrev pub small_pages : UffdHandler
small_pages = record {
  mem_regions = record { base_host_virt_addr = 16; size = 8; offset = 0; page_size = 4 } ∷ [];
  page_size = 4;
  backing_buffer = 0;
}

abbrev fresh : Remote willing fetch_eight
fresh = record { client = 0; cache = []; world = 0 }

abbrev fetched_eight : Bytes × Remote willing fetch_eight
fetched_eight = (eight_bytes, record { client = 1; cache = (0, eight_bytes) ∷ []; world = 0 })

fetches_eight : chunk_at willing fetch_eight 0 8 fresh ≡ returned fetched_eight
unfolding chunk_at cached
fetches_eight = refl

pub locates_page : file_offset_for_addr small_pages 21 ≡ returned (20, 4)
unfolding file_offset_for_addr page_base find_region contains
locates_page = refl

pub sized_eight : remote_size small_pages.mem_regions ≡ returned 8
unfolding remote_size
sized_eight = refl

pub starts_at_zero : page_base 4096 4 ≡ 0
unfolding page_base
starts_at_zero = refl

serve_remote_pf-page_example :
    (serve_remote_pf willing fetch_eight small_pages 21 fresh
      ≡ copy_page willing fetch_eight 20 fetched_eight.1 (14 ∷ 15 ∷ 16 ∷ 17 ∷ []))
    × IsCoherent eight_bytes 8 ((0, eight_bytes) ∷ [])
    × (fetched_eight.1.world ≡ fresh.world)
serve_remote_pf-page_example =
    serve_remote_pf-page willing fetch_eight remote_eight small_pages 1024 21 8 (20, 4) fresh
      fetched_eight refl refl (omega arith) ((omega arith, omega arith), tt)
      (((4, refl), (2, refl), (0, refl)), tt) locates_page sized_eight tt
      (rw starts_at_zero fetches_eight)

abbrev huge_pages : UffdHandler
huge_pages = record {
  mem_regions = record { base_host_virt_addr = 8192; size = 8; offset = 0; page_size = 8192 } ∷ [];
  page_size = 8192;
  backing_buffer = 0;
}

locates_huge : file_offset_for_addr huge_pages 8195 ≡ returned (8192, 0)
unfolding file_offset_for_addr page_base find_region contains
locates_huge = refl

huge_at_zero : page_base 4096 0 ≡ 0
unfolding page_base
huge_at_zero = refl

sized_huge : remote_size huge_pages.mem_regions ≡ returned 8
unfolding remote_size
sized_huge = refl

serve_remote_pf_huge_page_example :
    serve_remote_pf willing fetch_eight huge_pages 8195 fresh ≡ panicked
serve_remote_pf_huge_page_example =
    serve_remote_pf_huge_page willing fetch_eight remote_eight huge_pages 8195 8 (8192, 0) fresh
      fetched_eight (omega arith) locates_huge sized_huge tt (rw huge_at_zero fetches_eight)
