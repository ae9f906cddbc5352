-- ===== src/Uffd/Copy.antt =====
-- uffd_utils.rs: `copy_from_ptr`, `serve_pf` and `unregister_range`, over the ioctls of userfaultfd.
use herm_os_test.Prelude.{
  ℕ, ◌-◌, ◌%◌, Bool, true, false, not, ◌&&◌, ◌||◌, List, Option, none, some, Outcome, ok, err, ltb,
  ◌==◌, if◌then◌else◌, Run, returned, panicked, length, u64_mod,
}
use herm_os_test.Uffd.Region.{
  GuestRegionUffdMapping, UffdHandler, page_base, find_region, source_address,
}

-- where the bytes of a copy come from: an address, or a slice of memory
pub data Source : Type 0 where
  at_address : ℕ → Source
  of_bytes : List ℕ → Source

-- `Result<usize, userfaultfd::Error>`; an errno is its number
pub data CopyResult : Type 0 where
  copied partially_copied copy_failed : ℕ → CopyResult
  other_error : CopyResult

pub record UffdHost : Type 1 where
  pub World : Type 0
  pub IoctlError : Type 0
  pub eagain : ℕ
  pub eexist : ℕ
  -- `uffd.copy(src, dst, len, true)` and `uffd.unregister(start, len)`
  pub copy : Source → ℕ → ℕ → World → CopyResult × World
  pub unregister : ℕ → ℕ → World → Outcome IoctlError (Unit {0}) × World

module _ (u : UffdHost) where
  open u use {World, IoctlError, eagain, eexist, copy, unregister}

  -- the `match` on the result; `(-libc::EAGAIN) as usize` has 64 bits
  unfoldable pub after_copy : CopyResult → World → Run (Bool × World)
  after_copy (copied value) w = if ltb 0 value then returned (true, w) else panicked
  after_copy (partially_copied n) w =
      if n == 0 || n == u64_mod - eagain then returned (false, w) else panicked
  after_copy (copy_failed errno) w = if errno == eexist then returned (true, w) else panicked
  after_copy other_error w = panicked

  unfoldable pub copy_from_ptr : Source → ℕ → ℕ → World → Run (Bool × World)
  unfolding after_copy
  copy_from_ptr src dst len w = let (res, w') = copy src dst len w in after_copy res w'

  abbrev copy_into :
      UffdHandler → ℕ → ℕ → World → Option GuestRegionUffdMapping → Run (Bool × World)
  copy_into h dst len w none = panicked
  copy_into h dst len w (some r) = copy_from_ptr (at_address (source_address h r dst)) dst len w

  -- `serve_pf` with `populate_from_file`
  unfoldable pub serve_pf : UffdHandler → ℕ → ℕ → World → Run (Bool × World)
  unfolding copy_from_ptr
  serve_pf h addr len w =
      let dst = page_base h.page_size addr in copy_into h dst len w (find_region h.mem_regions dst)

  unfoldable pub copy_from_slice : ℕ → List ℕ → World → Run (Bool × World)
  unfolding copy_from_ptr
  copy_from_slice dst new w = copy_from_ptr (of_bytes new) dst (length new) w

  abbrev expect_ok : Outcome IoctlError (Unit {0}) × World → Run World
  expect_ok (ok _, w) = returned w
  expect_ok (err e, w) = panicked

  unfoldable pub unregister_range : UffdHandler → ℕ → ℕ → World → Run World
  unregister_range h start end w =
      if not (start % h.page_size == 0 && end % h.page_size == 0 && ltb start end)
      then panicked
      else expect_ok (unregister start (end - start) w)
