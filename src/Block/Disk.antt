-- ===== src/Block/Disk.antt =====
-- `DiskProperties` of virtio/device.rs and `VirtioBlock::update_disk_image`. Warnings are left out.
pub mod Update
use herm_os_test.Prelude.{
  ℕ, zero, suc, ◌/◌, ◌%◌, min, Bool, List, [], ◌∷◌, ◌++◌, Outcome, ok, err, String, if◌then◌else◌,
  Run, returned, panicked, length, take, drop,
}
use mathlib.Core.Path.{◌≡◌}
use herm_os_test.Block.Types.{FileEngineType, sector_size, inc, update_count}
use herm_os_test.Block.Host.{Host}
use herm_os_test.Block.Finish.{Ctx, count}
use herm_os_test.Block.Queue.{Disk}
use herm_os_test.Block.Device.{VirtioBlock, State}

-- `[0; n]`
abbrev pub zeroes : ℕ → List ℕ
zeroes zero = []
zeroes (suc n) = 0 ∷ zeroes n

-- `dst[..n].copy_from_slice(&src[..n])`
abbrev pub copy_prefix : ℕ → List ℕ → List ℕ → List ℕ
copy_prefix n src dst = take n src ++ drop n dst

-- `u64::to_le` seen as bytes; the host is little endian
abbrev pub le_bytes : ℕ → ℕ → List ℕ
le_bytes zero v = []
le_bytes (suc k) v = (v % 256) ∷ le_bytes k (v / 256)

-- the bytes of `ConfigSpace`
abbrev pub config_space_bytes : ℕ → List ℕ
config_space_bytes capacity = le_bytes 8 capacity

pub data DiskError (I F : Type 0) : Type 0 where
  backing_file : I → String → DiskError I F
  engine_error : F → DiskError I F

module _ (h : Host) where
  open h use {
    World, File, IoError, BlockIoError, blk_id_bytes, open_file, seek_end, device_id_bytes,
    update_engine_file, trigger_config_interrupt,
  }

  abbrev pub id_from : Outcome IoError (List ℕ) → List ℕ
  id_from (err e) = zeroes blk_id_bytes
  id_from (ok disk_id) =
      copy_prefix (min (length disk_id) blk_id_bytes) disk_id (zeroes blk_id_bytes)

  -- the device id, cut or filled up with zeroes to the size that the kernel reads
  unfoldable pub build_disk_image_id : File → List ℕ
  build_disk_image_id file = id_from (device_id_bytes file)

  abbrev pub DiskResult : Type 0 → Type 0
  DiskResult A = Outcome (DiskError IoError BlockIoError) A × World

  abbrev pub then_sized : String → File → Outcome IoError ℕ × World → DiskResult (File × ℕ)
  then_sized path file (ok size, w) = (ok (file, size), w)
  then_sized path file (err e, w) = (err (backing_file e path), w)

  abbrev pub then_opened : String → Outcome IoError File × World → DiskResult (File × ℕ)
  then_opened path (ok file, w) = then_sized path file (seek_end file w)
  then_opened path (err e, w) = (err (backing_file e path), w)

  -- `open_file`, then `file_size`
  unfoldable pub open_sized : String → Bool → World → DiskResult (File × ℕ)
  open_sized path read_only w = then_opened path (open_file path read_only w)

  abbrev pub then_engine :
      String → ℕ → Disk → Outcome BlockIoError (Unit {0}) × World → DiskResult (Unit {0}) × Disk
  then_engine path size d (ok _, w) =
      ((ok tt, w), record d { nsectors = size / sector_size; file_path = path })
  then_engine path size d (err e, w) = ((err (engine_error e), w), d)

  -- what follows the opening: the image id is new even if the engine then refuses the file
  abbrev pub then_update : String → Disk → DiskResult (File × ℕ) → DiskResult (Unit {0}) × Disk
  then_update path d (err e, w) = ((err e, w), d)
  then_update path d (ok (file, size), w) =
      then_engine path size (record d { image_id = build_disk_image_id file })
        (update_engine_file file w)

  -- `DiskProperties::update`
  unfoldable pub update : String → Bool → Disk → World → DiskResult (Unit {0}) × Disk
  unfolding open_sized build_disk_image_id
  update path read_only d w = then_update path d (open_sized path read_only w)

  -- `interrupt_trigger().trigger(Config).unwrap()`, then the metric
  abbrev pub kick_config : Outcome IoError (Unit {0}) × World → State World → Run (State World)
  kick_config (err e, w) s = panicked
  kick_config (ok _, w) s =
      returned (record s { ctx = count (inc update_count) (record s.ctx { world = w }) })

  abbrev pub kick_driver : State World → Run (State World)
  kick_driver s =
      if s.dev.activated
      then kick_config (trigger_config_interrupt s.ctx.world) s
      else returned (record s { ctx = count (inc update_count) s.ctx })

  abbrev pub after_update :
      DiskResult (Unit {0}) × Disk
      → State World
      → Outcome (DiskError IoError BlockIoError) (Unit {0}) × State World
  after_update ((err e, w), d) s =
      (err e, record { dev = record s.dev { disk = d }; ctx = record s.ctx { world = w } })
  after_update ((ok _, w), d) s = (
    ok tt,
    record {
      dev = record s.dev { disk = d; config_space = config_space_bytes d.nsectors };
      ctx = record s.ctx { world = w };
    },
  )

  abbrev pub then_kick :
      Outcome (DiskError IoError BlockIoError) (Unit {0}) × State World
      → Run (Outcome (DiskError IoError BlockIoError) (Unit {0}) × State World)
  then_kick (err e, s) = returned (err e, s)
  then_kick (ok _, s) = elim (kick_driver s) [ returned t ↦ returned (ok tt, t) | _ ↦ panicked ]

  unfoldable pub update_disk_image :
      String → State World → Run (Outcome (DiskError IoError BlockIoError) (Unit {0}) × State World)
  unfolding update
  update_disk_image path s =
      then_kick (after_update (update path s.dev.read_only s.dev.disk s.ctx.world) s)
