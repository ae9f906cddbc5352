-- ===== src/Block/Setup/Configs.antt =====
-- A configuration comes back from the device that was made of it.
use mathlib.Core.Path.{subst}
use herm_os_test.Prelude.{ℕ, ◌≡◌, refl, ◌∙◌, Option, Outcome, ok, err}
use herm_os_test.Block.Types.{FileEngineType}
use herm_os_test.Block.Host.{Host}
use herm_os_test.Block.Queue.{Disk}
use herm_os_test.Block.Device.{VirtioBlock}
use herm_os_test.Block.Disk.{DiskError, open_sized}
use herm_os_test.Block.DriveConfig.{VirtioBlockConfig}
use herm_os_test.Block.Setup.{
  SetupHost, NewError, disk_with_engine, disk_opened, disk_new, device_of, second_event,
  first_event, with_limiter, with_disk, new, config,
}

-- The rate limiter and the engine are what they were built as, and stay so when an event descriptor is
-- made; a new rate limiter leaves the engine.
pub record SetupLaws (h : Host) (p : SetupHost h) : Type 0 where
  pub engine_made :
      (file : h.File) (engine : FileEngineType) (w w' : h.World)
      → p.engine_from_file file engine w ≡ (ok tt, w')
      → h.engine_type w' ≡ engine
  pub engine-limiter :
      (c : Option p.LimiterConfig) (w : h.World)
      → h.engine_type (p.build_limiter c w).1 ≡ h.engine_type w
  pub engine-event : (w : h.World) → h.engine_type (p.new_event_fd w).1 ≡ h.engine_type w
  pub limiter-event : (w : h.World) → p.limiter_config (p.new_event_fd w).1 ≡ p.limiter_config w

module _ (h : Host) (p : SetupHost h) (laws : SetupLaws h p) where
  open laws use {engine_made, engine-limiter, engine-event, limiter-event}

  -- what a result of `new` says of the device and the world it gives
  abbrev pub GivesBack :
      VirtioBlockConfig p.LimiterConfig
      → Outcome (NewError h.IoError h.BlockIoError) VirtioBlock × h.World
      → Type 0
  GivesBack c (err e, w) = Unit {0}
  GivesBack c (ok dev, w) = config h p dev w ≡ c

  abbrev pub IsMade : VirtioBlockConfig p.LimiterConfig → Disk → h.World → Type 0
  IsMade c disk w = (disk.file_path ≡ c.path_on_host) × (h.engine_type w ≡ c.file_engine_type)

  config-device_of :
      (c : VirtioBlockConfig p.LimiterConfig) (disk : Disk) (w : h.World)
      → IsMade c disk w
      → p.limiter_config w ≡ c.rate_limiter
      → config h p (device_of h p c disk) w ≡ c
  unfolding config
  config-device_of c disk w (path, engine) limiter = λ i. record {
    drive_id = c.drive_id;
    partuuid = c.partuuid;
    is_root_device = c.is_root_device;
    cache_type = c.cache_type;
    is_read_only = c.is_read_only;
    path_on_host = path i;
    rate_limiter = limiter i;
    file_engine_type = engine i;
  }

  second_event-GivesBack :
      (c : VirtioBlockConfig p.LimiterConfig) (disk : Disk)
      (o : Outcome h.IoError (Unit {0}) × h.World)
      → IsMade c disk o.1
      → p.limiter_config o.1 ≡ c.rate_limiter
      → GivesBack c (second_event h p (device_of h p c disk) o)
  second_event-GivesBack c disk (err e, w) made limiter = tt
  second_event-GivesBack c disk (ok _, w) made limiter = config-device_of c disk w made limiter

  first_event-GivesBack :
      (c : VirtioBlockConfig p.LimiterConfig) (disk : Disk)
      (o : Outcome h.IoError (Unit {0}) × h.World)
      → IsMade c disk o.1
      → p.limiter_config o.1 ≡ c.rate_limiter
      → GivesBack c (first_event h p (device_of h p c disk) o)
  first_event-GivesBack c disk (err e, w) made limiter = tt
  first_event-GivesBack c disk (ok _, w) (path, engine) limiter =
      second_event-GivesBack c disk (p.new_event_fd w) (path, engine-event w ∙ engine)
        (limiter-event w ∙ limiter)

  with_limiter-GivesBack :
      (c : VirtioBlockConfig p.LimiterConfig) (disk : Disk)
      (o : Outcome h.IoError (Unit {0}) × h.World)
      → IsMade c disk o.1
      → (o.0 ≡ ok tt → p.limiter_config o.1 ≡ c.rate_limiter)
      → GivesBack c (with_limiter h p (device_of h p c disk) o)
  with_limiter-GivesBack c disk (err e, w) made limiter = tt
  with_limiter-GivesBack c disk (ok _, w) (path, engine) limiter =
      first_event-GivesBack c disk (p.new_event_fd w) (path, engine-event w ∙ engine)
        (limiter-event w ∙ limiter refl)

  -- a result of `DiskProperties::new`
  abbrev pub IsDisk :
      VirtioBlockConfig p.LimiterConfig
      → Outcome (DiskError h.IoError h.BlockIoError) Disk × h.World
      → Type 0
  IsDisk c (err e, w) = Unit {0}
  IsDisk c (ok disk, w) = IsMade c disk w

  disk_with_engine-IsDisk :
      (c : VirtioBlockConfig p.LimiterConfig) (file : h.File) (size : ℕ)
      (o : Outcome h.BlockIoError (Unit {0}) × h.World)
      → (o.0 ≡ ok tt → h.engine_type o.1 ≡ c.file_engine_type)
      → IsDisk c (disk_with_engine h p c.path_on_host file size o)
  disk_with_engine-IsDisk c file size (err e, w) engine = tt
  disk_with_engine-IsDisk c file size (ok _, w) engine = (refl, engine refl)

  disk_opened-IsDisk :
      (c : VirtioBlockConfig p.LimiterConfig)
      (o : Outcome (DiskError h.IoError h.BlockIoError) (h.File × ℕ) × h.World)
      → IsDisk c (disk_opened h p c.path_on_host c.file_engine_type o)
  disk_opened-IsDisk c (err e, w) = tt
  disk_opened-IsDisk c (ok (file, size), w) =
      let o = p.engine_from_file file c.file_engine_type w in
      disk_with_engine-IsDisk c file size o
        λ well. engine_made file c.file_engine_type w o.1 (λ i. (well i, o.1))

  with_disk-GivesBack :
      (c : VirtioBlockConfig p.LimiterConfig)
      (o : Outcome (DiskError h.IoError h.BlockIoError) Disk × h.World)
      → IsDisk c o
      → ((w : h.World)
          → (p.build_limiter c.rate_limiter w).0 ≡ ok tt
          → p.limiter_config (p.build_limiter c.rate_limiter w).1 ≡ c.rate_limiter)
      → GivesBack c (with_disk h p c o)
  with_disk-GivesBack c (err e, w) made limiter = tt
  with_disk-GivesBack c (ok disk, w) (path, engine) limiter =
      with_limiter-GivesBack c disk (p.build_limiter c.rate_limiter w)
        (path, engine-limiter c.rate_limiter w ∙ engine) (limiter w)

  -- When a rate limiter that is built from this configuration has it as its own, a device that `new`
  -- makes of the configuration gives it back by `config`.
  pub config-new :
      (c : VirtioBlockConfig p.LimiterConfig) (w w' : h.World) (dev : VirtioBlock)
      → ((v : h.World)
          → (p.build_limiter c.rate_limiter v).0 ≡ ok tt
          → p.limiter_config (p.build_limiter c.rate_limiter v).1 ≡ c.rate_limiter)
      → new h p c w ≡ (ok dev, w')
      → config h p dev w' ≡ c
  unfolding new disk_new
  config-new c w w' dev limiter made = subst (GivesBack c) made (
      with_disk-GivesBack c (disk_new h p c.path_on_host c.is_read_only c.file_engine_type w)
        (disk_opened-IsDisk c (open_sized h c.path_on_host c.is_read_only w)) limiter)
