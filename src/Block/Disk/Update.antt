-- ===== src/Block/Disk/Update.antt =====
-- Changing the backing file of a drive: what the driver sees after it, and what an error leaves.
use mathlib.Core.Path.{subst}
use native.Mathlib.Nat.{pow-suc}
use herm_os_test.Prelude.{
  ℕ, zero, suc, ◌+◌, ◌*◌, ◌/◌, ◌^◌, ◌<◌, ◌≡◌, refl, sym, min, Bool, List, [], ◌∷◌, Outcome, ok, err,
  String, arith, returned, length, take, drop, length-append, length-take, length-drop, u64_mod,
}
use herm_os_test.Block.Types.{sector_size}
use herm_os_test.Block.Host.{Host}
use herm_os_test.Block.Queue.{Disk}
use herm_os_test.Block.Device.{VirtioBlock, State}
use herm_os_test.Block.ConfigSpace.{read_config, read_config_inside}
use herm_os_test.Block.Disk.{
  id_from, then_engine, then_update, after_update, then_kick, zeroes, le_bytes, config_space_bytes,
  DiskError, build_disk_image_id, open_sized, update, update_disk_image,
}

length-zeroes : (n : ℕ) → length (zeroes n) ≡ n
length-zeroes zero = refl
length-zeroes (suc n) = omega (arith, length-zeroes n)

abbrev pub from_le : List ℕ → ℕ
from_le [] = 0
from_le (b ∷ bs) = b + 256 * from_le bs

from_le-le_bytes : (k v : ℕ) → v < 256 ^ k → from_le (le_bytes k v) ≡ v
from_le-le_bytes zero v h = omega arith
from_le-le_bytes (suc k) v h =
    omega (arith, pow-suc 256 k, from_le-le_bytes k (v / 256) (omega (arith, pow-suc 256 k)))

module _ (h : Host) where
  open h use {
    World, File, IoError, BlockIoError, blk_id_bytes, update_engine_file, trigger_config_interrupt,
  }

  length-id_from : (o : Outcome IoError (List ℕ)) → length (id_from h o) ≡ blk_id_bytes
  length-id_from (err e) = length-zeroes blk_id_bytes
  length-id_from (ok bytes) =
      let n = min (length bytes) blk_id_bytes in
      omega (
        arith,
        length-append (take n bytes) (drop n (zeroes blk_id_bytes)),
        length-take n bytes (omega arith),
        length-drop n (zeroes blk_id_bytes),
        length-zeroes blk_id_bytes,
      )

  -- The image id fills the kernel's buffer exactly, whatever the metadata of the file.
  pub length-build_disk_image_id :
      (file : File) → length (build_disk_image_id h file) ≡ blk_id_bytes
  unfolding build_disk_image_id
  length-build_disk_image_id file = length-id_from (h.device_id_bytes file)

  abbrev Opened : Type 0
  Opened = Outcome (DiskError IoError BlockIoError) (File × ℕ) × World

  -- what a failed change leaves, by how the opening of the new file ended
  abbrev pub leaves : Disk → Outcome (DiskError IoError BlockIoError) (File × ℕ) → Disk
  leaves d (err e) = d
  leaves d (ok (file, size)) = record {
    file_path = d.file_path;
    nsectors = d.nsectors;
    image_id = build_disk_image_id h file;
  }

  then_engine-leaves :
      (path : String) (file : File) (size : ℕ) (d : Disk)
      (engine : Outcome BlockIoError (Unit {0}) × World) {e : DiskError IoError BlockIoError}
      → (then_engine h path size (record d { image_id = build_disk_image_id h file }) engine).0.0
        ≡ err e
      → (then_engine h path size (record d { image_id = build_disk_image_id h file }) engine).1
        ≡ leaves d (ok (file, size))
  then_engine-leaves path file size d (ok _, w') e = absurd (ground arith)
  then_engine-leaves path file size d (err x, w') e = refl

  then_update-leaves :
      (path : String) (d : Disk) (opened : Opened) {e : DiskError IoError BlockIoError}
      → (then_update h path d opened).0.0 ≡ err e
      → (then_update h path d opened).1 ≡ leaves d opened.0
  then_update-leaves path d (err x, w) e = refl
  then_update-leaves path d (ok (file, size), w) e =
      then_engine-leaves path file size d (update_engine_file file w) e

  -- A change of the backing file that fails leaves the drive as it was if the file could not be opened
  -- and sized. If it could, and the engine refused it, the drive keeps the path and the number of
  -- sectors, but shows the id of the new file.
  pub update-error :
      (path : String) (read_only : Bool) (d : Disk) (w : World) {e : DiskError IoError BlockIoError}
      → (update h path read_only d w).0.0 ≡ err e
      → (update h path read_only d w).1 ≡ leaves d (open_sized h path read_only w).0
  unfolding update
  update-error path read_only d w e = then_update-leaves path d (open_sized h path read_only w) e

  then_kick-dev : (s t : State World) → then_kick h (ok tt, s) ≡ returned (ok tt, t) → t.dev ≡ s.dev
  then_kick-dev s t run = ground arith

  abbrev Shows : String → ℕ → VirtioBlock → Type 0
  Shows path size dev =
      (dev.config_space ≡ config_space_bytes (size / sector_size))
      × (dev.disk.nsectors ≡ size / sector_size)
      × (dev.disk.file_path ≡ path)

  after_engine-Shows :
      (path : String) (size : ℕ) (d : Disk) (s t : State World)
      (engine : Outcome BlockIoError (Unit {0}) × World)
      → then_kick h (after_update h (then_engine h path size d engine) s) ≡ returned (ok tt, t)
      → Shows path size t.dev
  after_engine-Shows path size d s t (ok _, w) run =
      let same = then_kick-dev _ t run in subst (Shows path size) (sym same) (refl, refl, refl)
  after_engine-Shows path size d s t (err e, w) run = absurd (ground arith)

  after_update-Shows :
      (path : String) (d : Disk) (s t : State World) (opened : Opened) (file : File) (size : ℕ)
      → opened.0 ≡ ok (file, size)
      → then_kick h (after_update h (then_update h path d opened) s) ≡ returned (ok tt, t)
      → Shows path size t.dev
  after_update-Shows path d s t (err x, w) file size e run = absurd (ground arith)
  after_update-Shows path d s t (ok (f, n), w) file size e run =
      let same : n ≡ size = ground arith in
      subst (λ k. Shows path k t.dev) same
        (after_engine-Shows path n (record d { image_id = build_disk_image_id h f }) s t
          (update_engine_file f w) run)

  -- After a successful change of the backing file to one that could be opened and whose size is a
  -- u64, the driver reads that size, in whole sectors, from the first eight bytes of the config
  -- space, and the drive keeps the path and that number of sectors.
  pub update_disk_image-capacity :
      (path : String) (s t : State World) (file : File) (size : ℕ)
      → (open_sized h path s.dev.read_only s.ctx.world).0 ≡ ok (file, size)
      → size < u64_mod
      → update_disk_image h path s ≡ returned (ok tt, t)
      → (from_le (read_config 0 (zeroes 8) t).0 ≡ size / sector_size)
        × (t.dev.disk.nsectors ≡ size / sector_size)
        × (t.dev.disk.file_path ≡ path)
  unfolding update_disk_image
  update_disk_image-capacity path s t file size opened small run =
      let (bytes, sectors, at) =
        after_update-Shows path s.dev.disk s t (open_sized h path s.dev.read_only s.ctx.world) file
          size opened run in
      (
        rw (read_config_inside 0 (zeroes 8) t (omega arith), bytes)
            (from_le-le_bytes 8 (size / sector_size) (omega arith)),
        sectors,
        at,
      )
