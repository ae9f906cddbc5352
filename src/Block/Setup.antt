-- ===== src/Block/Setup.antt =====
-- virtio/device.rs: `VirtioBlock::new`, `config`, `activate` and `drop`.
pub mod Configs
use herm_os_test.Prelude.{
  ℕ, zero, suc, ◌+◌, ◌/◌, ◌%◌, ◌^◌, Bool, true, false, List, [], ◌∷◌, Option, none, some, Outcome,
  ok, err, map_err, String, if◌then◌else◌, ◌==◌,
}
use herm_os_test.Block.Types.{FileEngineType, async, sync, sector_size, inc, activate_fails}
use herm_os_test.Block.Host.{Host}
use herm_os_test.Block.Finish.{Ctx, count}
use herm_os_test.Block.Queue.{Disk}
use herm_os_test.Block.Device.{CacheType, unsafe, writeback, VirtioBlock, State}
use herm_os_test.Block.Disk.{
  DiskError, engine_error, open_sized, build_disk_image_id, config_space_bytes,
}
use herm_os_test.Block.DriveConfig.{VirtioBlockConfig}

-- What the construction of a device takes from code outside of the repository, beside `Host`. The
-- rate limiter, the file engine and the event descriptors are part of the world.
pub record SetupHost (h : Host) : Type 1 where
  pub LimiterConfig : Type 0
  pub build_limiter : Option LimiterConfig → h.World → Outcome h.IoError (Unit {0}) × h.World
  -- `RateLimiterConfig::from(&self.rate_limiter).into_option()`
  pub limiter_config : h.World → Option LimiterConfig
  pub engine_from_file :
      h.File → FileEngineType → h.World → Outcome h.BlockIoError (Unit {0}) × h.World
  pub new_event_fd : h.World → Outcome h.IoError (Unit {0}) × h.World
  pub drain_engine : h.World → h.World
  -- the numbers of the feature bits
  pub version_1 : ℕ
  pub ring_event_idx : ℕ
  pub blk_flush : ℕ
  pub blk_ro : ℕ

-- `features |= 1 << bit`
abbrev pub set_bit : ℕ → ℕ → ℕ
set_bit bit features = if features / 2 ^ bit % 2 == 1 then features else features + 2 ^ bit

pub data NewError (I F : Type 0) : Type 0 where
  disk_error : DiskError I F → NewError I F
  limiter_error event_fd_error : I → NewError I F

pub data ActivateError (Q : Type 0) : Type 0 where
  queue_memory_error : Q → ActivateError Q
  activate_event_fd : ActivateError Q

module _ (h : Host) (p : SetupHost h) where
  open h use {
    World, File, IoError, BlockIoError, QueueError, initialize_queue, enable_notif_suppression,
    has_event_idx, activate_evt_write, drain_and_flush, engine_type,
  }
  open p use {
    LimiterConfig, build_limiter, limiter_config, engine_from_file, new_event_fd, drain_engine,
    version_1, ring_event_idx, blk_flush, blk_ro,
  }

  -- the rest of `DiskProperties::new`, once the file is open
  abbrev pub disk_with_engine :
      String
      → File
      → ℕ
      → Outcome BlockIoError (Unit {0}) × World
      → Outcome (DiskError IoError BlockIoError) Disk × World
  disk_with_engine path file size (err e, w) = (err (engine_error e), w)
  disk_with_engine path file size (ok _, w) = (
    ok (record {
      file_path = path;
      nsectors = size / sector_size;
      image_id = build_disk_image_id h file;
    }),
    w,
  )

  abbrev pub disk_opened :
      String
      → FileEngineType
      → Outcome (DiskError IoError BlockIoError) (File × ℕ) × World
      → Outcome (DiskError IoError BlockIoError) Disk × World
  disk_opened path engine (err e, w) = (err e, w)
  disk_opened path engine (ok (file, size), w) =
      disk_with_engine path file size (engine_from_file file engine w)

  -- `DiskProperties::new`
  unfoldable pub disk_new :
      String → Bool → FileEngineType → World → Outcome (DiskError IoError BlockIoError) Disk × World
  disk_new path read_only engine w = disk_opened path engine (open_sized h path read_only w)

  -- the `avail_features` of a new device
  unfoldable pub features_of : VirtioBlockConfig LimiterConfig → ℕ
  features_of c =
      let ring = set_bit ring_event_idx (set_bit version_1 0) in
      let flush : ℕ = elim c.cache_type [ writeback ↦ set_bit blk_flush ring | unsafe ↦ ring ] in
      if c.is_read_only then set_bit blk_ro flush else flush

  abbrev pub device_of : VirtioBlockConfig LimiterConfig → Disk → VirtioBlock
  device_of c disk = record {
    avail_features = features_of c;
    acked_features = 0;
    config_space = config_space_bytes disk.nsectors;
    activated = false;
    id = c.drive_id;
    partuuid = c.partuuid;
    cache_type = c.cache_type;
    root_device = c.is_root_device;
    read_only = c.is_read_only;
    disk = disk;
    is_io_engine_throttled = false;
  }

  abbrev pub NewResult : Type 0
  NewResult = Outcome (NewError IoError BlockIoError) VirtioBlock × World

  -- the two event descriptors: of the queue, and of the activation
  abbrev pub second_event : VirtioBlock → Outcome IoError (Unit {0}) × World → NewResult
  second_event dev (err e, w) = (err (event_fd_error e), w)
  second_event dev (ok _, w) = (ok dev, w)

  abbrev pub first_event : VirtioBlock → Outcome IoError (Unit {0}) × World → NewResult
  first_event dev (err e, w) = (err (event_fd_error e), w)
  first_event dev (ok _, w) = second_event dev (new_event_fd w)

  abbrev pub with_limiter : VirtioBlock → Outcome IoError (Unit {0}) × World → NewResult
  with_limiter dev (err e, w) = (err (limiter_error e), w)
  with_limiter dev (ok _, w) = first_event dev (new_event_fd w)

  abbrev pub with_disk :
      VirtioBlockConfig LimiterConfig
      → Outcome (DiskError IoError BlockIoError) Disk × World
      → NewResult
  with_disk c (err e, w) = (err (disk_error e), w)
  with_disk c (ok disk, w) = with_limiter (device_of c disk) (build_limiter c.rate_limiter w)

  -- `VirtioBlock::new`
  unfoldable pub new : VirtioBlockConfig LimiterConfig → World → NewResult
  unfolding disk_new features_of
  new c w = with_disk c (disk_new c.path_on_host c.is_read_only c.file_engine_type w)

  -- `VirtioBlock::config`
  unfoldable pub config : VirtioBlock → World → VirtioBlockConfig LimiterConfig
  config dev w = record {
    drive_id = dev.id;
    partuuid = dev.partuuid;
    is_root_device = dev.root_device;
    cache_type = dev.cache_type;
    is_read_only = dev.read_only;
    path_on_host = dev.disk.file_path;
    rate_limiter = limiter_config w;
    file_engine_type = engine_type w;
  }

  abbrev pub on_world : (World → World) → State World → State World
  on_world f s = record s { ctx = record s.ctx { world = f s.ctx.world } }

  -- `activate_evt.write(1)`, then the state
  abbrev pub signalled :
      State World
      → Outcome IoError (Unit {0}) × World
      → Outcome (ActivateError QueueError) (Unit {0}) × State World
  signalled s (err e, w) = (
    err activate_event_fd,
    record s { ctx = count (inc activate_fails) (record s.ctx { world = w }) },
  )
  signalled s (ok _, w) =
      (ok tt, record { dev = record s.dev { activated = true }; ctx = record s.ctx { world = w } })

  -- `has_feature(VIRTIO_RING_F_EVENT_IDX)`
  abbrev pub suppressed : State World → State World
  suppressed s =
      if has_event_idx s.dev.acked_features then on_world enable_notif_suppression s else s

  abbrev pub initialized :
      State World
      → Outcome QueueError (Unit {0}) × World
      → Outcome (ActivateError QueueError) (Unit {0}) × State World
  initialized s (err e, w) =
      (err (queue_memory_error e), record s { ctx = record s.ctx { world = w } })
  initialized s (ok _, w) =
      let t = suppressed (record s { ctx = record s.ctx { world = w } }) in
      signalled t (activate_evt_write t.ctx.world)

  -- The device has one queue.
  unfoldable pub activate :
      State World → Outcome (ActivateError QueueError) (Unit {0}) × State World
  activate s = initialized s (initialize_queue s.ctx.world)

  -- `drop`: an error is logged only
  unfoldable pub drop_device : VirtioBlock → World → World
  drop_device dev w = elim dev.cache_type [
    | unsafe ↦ drain_engine w
    | writeback ↦ (drain_and_flush true w).1
  ]
