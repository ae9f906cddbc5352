-- ===== src/Tests/BlockRuns.antt =====
-- Runs of the block device.
use herm_os_test.Prelude.{
  ℕ, ◌+◌, ◌*◌, ◌≤◌, ◌≡◌, refl, ◌↔◌, ◌⊎◌, inl, true, false, [], ◌∷◌, ok, err, arith, returned,
}
use herm_os_test.Block.Types.{
  get_device_id, PendingRequest, read_in, Request, offset, sector_size, IoErr, inc, update_count,
}
use herm_os_test.Block.Host.{Host}
use herm_os_test.Block.Parse.{parse, layout, request_type_from, check_validity, check_status}
use herm_os_test.Block.Parse.Spec.{IsRequest, parse_iff}
use herm_os_test.Block.Parse.Bounds.{parse-in_bounds}
use herm_os_test.Block.Finish.{finish}
use herm_os_test.Block.Finish.Reports.{Completes, Fails, IsUnsupported, finish-status_byte}
use herm_os_test.Block.Queue.Drain.{Accounts}
use herm_os_test.Block.Device.{State, process_queue, process_queue_event}
use herm_os_test.Block.Device.Events.{
  IsAnswered, noticed, process_queue-Accounts, process_queue_event-Accounts,
}
use herm_os_test.Block.Disk.{
  zeroes, open_sized, update, config_space_bytes, update_disk_image, DiskError,
}
use herm_os_test.Block.Disk.Update.{leaves, update-error, update_disk_image-capacity, from_le}
use herm_os_test.Block.ConfigSpace.{read_config, write_config, read_config-write_config}
use herm_os_test.Block.Process.{process}
use herm_os_test.Block.Process.DeviceId.{IdStatus, process-IdStatus}
use herm_os_test.Tests.Machine.{
  Machine, machine, machine_queue, machine_sync, two_waiting, drive, active,
}

-- the request of the first chain
abbrev first_request : Request
first_request = record {
  type = read_in;
  data_len = 512;
  status_addr = 8192;
  sector = 0;
  data_addr = 4096;
}

first_parses : parse machine two_waiting 0 8 ≡ ok first_request
unfolding parse layout request_type_from check_validity check_status
first_parses = refl

parse_iff_example :
    (parse machine two_waiting 0 8 ≡ ok first_request)
    ↔ IsRequest machine two_waiting 0 8 first_request
parse_iff_example = parse_iff machine two_waiting 0 8 first_request (omega arith)

parse-in_bounds_example :
    (offset first_request ≡ 0 * sector_size) × (offset first_request + 512 ≤ 4096)
parse-in_bounds_example =
    parse-in_bounds machine two_waiting 0 4096 first_request (omega arith) first_parses (inl refl)

process_queue-Accounts_example :
    (t : State Machine) × (process_queue machine 3 active ≡ returned (ok tt, t))
    × Accounts machine machine_queue two_waiting.rings t.ctx.world.rings
process_queue-Accounts_example =
    process_queue-Accounts machine machine_queue machine_sync 3 active refl (omega arith)

process_queue_event-Accounts_example :
    (t : State Machine) × (process_queue_event machine 3 active ≡ returned t)
    × IsAnswered machine machine_queue machine_sync 3
        (ok tt)
        (noticed machine machine_queue machine_sync active)
        t
    × Accounts machine machine_queue two_waiting.rings t.ctx.world.rings
process_queue_event-Accounts_example =
    process_queue_event-Accounts machine machine_queue machine_sync 3 active refl (omega arith)

-- the rate limiter is blocked
abbrev held_back : State Machine
held_back = record active {
  ctx = record active.ctx { world = record two_waiting { blocked = true } };
}

abbrev pending_read : PendingRequest
pending_read = record { type = read_in; data_len = 512; status_addr = 8192; desc_idx = 0 }

finish-status_byte_example :
    (Completes {E = IoErr ℕ ℕ} read_in 512 (ok 512)
      × ((finish machine pending_read (ok 512) active.ctx).1.world
          ≡ record two_waiting { log = (0, 8192) ∷ [] }))
    ⊎ (Fails {E = IoErr ℕ ℕ} read_in 512 (ok 512)
        × ((finish machine pending_read (ok 512) active.ctx).1.world
            ≡ record two_waiting { log = (1, 8192) ∷ [] }))
    ⊎ (IsUnsupported read_in
        × ((finish machine pending_read (ok 512) active.ctx).1.world
            ≡ record two_waiting { log = (2, 8192) ∷ [] }))
finish-status_byte_example = finish-status_byte machine pending_read (ok 512) active.ctx

read_config-write_config_example :
    (read_config 2 (0 ∷ 0 ∷ []) (write_config 2 (9 ∷ 8 ∷ []) active)).0 ≡ 9 ∷ 8 ∷ []
read_config-write_config_example =
    read_config-write_config 2 (9 ∷ 8 ∷ []) (0 ∷ 0 ∷ []) active (omega arith) (omega arith) refl

-- the engine refuses every file
abbrev refusing : Host
refusing = record machine { update_engine_file = λ file w. (err 5, w) }

refusing-update :
    (update refusing "new.img" false drive.disk two_waiting).0.0 ≡ err (DiskError.engine_error 5)
unfolding update open_sized
refusing-update = refl

update-error_example :
    (update refusing "new.img" false drive.disk two_waiting).1
    ≡ leaves refusing drive.disk (open_sized refusing "new.img" false two_waiting).0
update-error_example = update-error refusing "new.img" false drive.disk two_waiting refusing-update

-- the drive after the change of its file
abbrev changed : State Machine
changed = record {
  dev = record drive {
    config_space = config_space_bytes 8;
    disk = record { file_path = "new.img"; nsectors = 8; image_id = 49 ∷ 50 ∷ zeroes 18 };
  };
  ctx = record { world = two_waiting; metrics = inc update_count ∷ [] };
}

active_changes : update_disk_image machine "new.img" active ≡ returned (ok tt, changed)
unfolding update_disk_image
active_changes = refl

active_opens : (open_sized machine "new.img" false two_waiting).0 ≡ ok (7, 4096)
unfolding open_sized
active_opens = refl

-- a request for the device id with a buffer that is longer than the id
abbrev long_id_request : Request
long_id_request = record {
  type = get_device_id;
  data_len = 32;
  status_addr = 8192;
  sector = 0;
  data_addr = 4096;
}

process-IdStatus_example :
    (status : ℕ) × IdStatus machine (ok tt) 32 status
    × ((process machine "rootfs" [] long_id_request 0 active.ctx).1.world
        ≡ record two_waiting { log = (status, 8192) ∷ [] })
process-IdStatus_example = process-IdStatus machine "rootfs" [] long_id_request 0 active.ctx refl

update_disk_image-capacity_example :
    (from_le (read_config 0 (zeroes 8) changed).0 ≡ 8)
    × (changed.dev.disk.nsectors ≡ 8)
    × (changed.dev.disk.file_path ≡ "new.img")
update_disk_image-capacity_example =
    update_disk_image-capacity machine "new.img" active changed 7 4096 active_opens (omega arith)
      active_changes
