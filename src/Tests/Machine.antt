-- ===== src/Tests/Machine.antt =====
-- A machine with a Sync engine: chains of three descriptors, 3 i, 3 i + 1 and 3 i + 2, whose header
-- asks for one sector, and a log of the status bytes.
use herm_os_test.Prelude.{
  ℕ, ◌+◌, ◌*◌, ◌/◌, ◌%◌, ◌≡◌, refl, Bool, true, false, not, List, [], ◌∷◌, ◌++◌, Option, none, some,
  Outcome, ok, ◌==◌, if◌then◌else◌, arith,
}
use herm_os_test.Block.Types.{PendingRequest, FileEngineType, EngineResult, engine_executed}
use herm_os_test.Block.Host.{Host}
use herm_os_test.Block.Queue.Laws.{Rings, QueueLaws, SyncEngine}
use herm_os_test.Block.Device.{CacheType, VirtioBlock, State}

pub record Machine : Type 0 where
  pub rings : Rings ℕ
  pub log : List (ℕ × ℕ)
  pub blocked : Bool
  pub completed : List (PendingRequest × Outcome ℕ ℕ)

abbrev pop_from : List ℕ → Machine → Outcome ℕ (Option ℕ) × Machine
pop_from [] w = (ok none, w)
pop_from (c ∷ cs) w = (
  ok (some c),
  record w { rings = record { available = cs; used = w.rings.used; last = some c } },
)

abbrev back_to : Option ℕ → Machine → Machine
back_to none w = w
back_to (some c) w = record w {
  rings = record { available = c ∷ w.rings.available; used = w.rings.used; last = none };
}

abbrev use_entry : ℕ → ℕ → Machine → Machine
use_entry i n w = record w {
  rings = record {
    available = w.rings.available;
    used = w.rings.used ++ (i, n) ∷ [];
    last = w.rings.last;
  };
}

abbrev succeeds : Machine → Outcome ℕ (Unit {0}) × Machine
succeeds w = (ok tt, w)

abbrev executes : ℕ → ℕ → ℕ → PendingRequest → Machine → EngineResult ℕ × Machine
executes o a n p w = (engine_executed p n, w)

abbrev pub machine : Host
machine = record {
  World = Machine;
  Chain = ℕ;
  GuestMemoryError = ℕ;
  BlockIoError = ℕ;
  IoError = ℕ;
  QueueError = ℕ;
  blk_t_in = 0;
  blk_t_out = 1;
  blk_t_flush = 4;
  blk_t_get_id = 8;
  blk_s_ok = 0;
  blk_s_ioerr = 1;
  blk_s_unsupp = 2;
  blk_id_bytes = 20;
  addr = λ c. c * 4096;
  len = λ c. if c % 3 == 1 then 512 else 16;
  index = λ c. c / 3;
  is_write_only = λ c. not (c % 3 == 0);
  has_next = λ c. not (c % 3 == 2);
  next_descriptor = λ w c. if c % 3 == 2 then none else some (c + 1);
  read_header = λ w a. ok (record { request_type = 0; sector = 0 });
  write_obj = λ v a w. (ok tt, record w { log = (v, a) ∷ w.log });
  write_slice = λ v a w. (ok tt, w);
  consume = λ n t w. (true, w);
  manual_replenish = λ n t w. w;
  is_blocked = λ w. w.blocked;
  limiter_event_handler = succeeds;
  engine_type = λ w. FileEngineType.sync;
  engine_read = executes;
  engine_write = executes;
  engine_flush = λ p w. (engine_executed p 0, w);
  is_throttling_err = λ e. false;
  kick_submission_queue = λ w. w;
  engine_pop = λ w. (ok none, w);
  completion_evt_read = succeeds;
  drain = λ b w. (ok tt, w);
  drain_and_flush = λ b w. (ok tt, w);
  pop_or_enable_notification = λ w. pop_from w.rings.available w;
  queue_len = λ w. 0;
  undo_pop = λ w. back_to w.rings.last w;
  add_used = λ i n w. (ok tt, use_entry i n w);
  advance_used_ring_idx = λ w. w;
  prepare_kick = λ w. (true, w);
  initialize_queue = succeeds;
  enable_notif_suppression = λ w. w;
  has_event_idx = λ f. false;
  File = ℕ;
  open_file = λ path read_only w. (ok 7, w);
  seek_end = λ file w. (ok 4096, w);
  device_id_bytes = λ file. ok (49 ∷ 50 ∷ []);
  update_engine_file = λ file w. (ok tt, w);
  queue_evt_read = succeeds;
  activate_evt_write = succeeds;
  trigger_queue_interrupt = succeeds;
  trigger_config_interrupt = succeeds;
  trace_path = none;
  trace_drive = none;
  append_line = λ path l w. w;
}

pub pop_empty_lem :
    (w : Machine)
    → w.rings.available ≡ []
    → ((pop_from w.rings.available w).0 ≡ ok none)
      × ((pop_from w.rings.available w).1.rings ≡ w.rings)
pop_empty_lem w e = simp e (refl, refl)

pub pop_some_lem :
    (w : Machine) (c : ℕ) (cs : List ℕ)
    → w.rings.available ≡ c ∷ cs
    → ((pop_from w.rings.available w).0 ≡ ok (some c))
      × ((pop_from w.rings.available w).1.rings
          ≡ record { available = cs; used = w.rings.used; last = some c })
pop_some_lem w c cs e = simp e (refl, refl)

pub undo_pop_lem :
    (w : Machine) (c : ℕ)
    → w.rings.last ≡ some c
    → (back_to w.rings.last w).rings
      ≡ record { available = c ∷ w.rings.available; used = w.rings.used; last = none }
undo_pop_lem w c e = simp e

abbrev pub machine_queue : QueueLaws machine
machine_queue = record {
  rings = λ (w : Machine). w.rings;
  pop_empty = pop_empty_lem;
  pop_some = pop_some_lem;
  undo_pop_last = undo_pop_lem;
  add_used_appends = λ i n w. refl;
  write_obj_frame = λ v a w. refl;
  write_slice_frame = λ v a w. refl;
  consume_frame = λ n t w. refl;
  replenish_frame = λ n t w. refl;
  read_frame = λ o a n p w. refl;
  write_frame = λ o a n p w. refl;
  flush_frame = λ p w. refl;
  trace_frame = λ path l w. refl;
  advance_frame = λ w. refl;
  prepare_kick_frame = λ w. refl;
  trigger_frame = λ w. refl;
  submit_frame = λ w. refl;
  evt_read_frame = λ w. refl;
}

pub machine_sync : SyncEngine machine
machine_sync = record {
  read_done = λ o a n p w e. absurd (ground (arith, e));
  write_done = λ o a n p w e. absurd (ground (arith, e));
  flush_done = λ p w e. absurd (ground (arith, e));
}

-- two chains wait
abbrev pub two_waiting : Machine
two_waiting = record {
  rings = record { available = 0 ∷ 3 ∷ []; used = []; last = none };
  log = [];
  blocked = false;
  completed = [];
}

abbrev pub drive : VirtioBlock
drive = record {
  avail_features = 0;
  acked_features = 0;
  config_space = 1 ∷ 2 ∷ 3 ∷ 4 ∷ 5 ∷ 6 ∷ 7 ∷ 8 ∷ [];
  activated = true;
  id = "rootfs";
  partuuid = none;
  cache_type = CacheType.unsafe;
  root_device = true;
  read_only = false;
  disk = record { file_path = "old.img"; nsectors = 8; image_id = [] };
  is_io_engine_throttled = false;
}

abbrev pub active : State Machine
active = record { dev = drive; ctx = record { world = two_waiting; metrics = [] } }
