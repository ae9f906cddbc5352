-- ===== src/Tests/AsyncRuns.antt =====
-- Runs of the completion handler of the Async engine, with two completions waiting.
use herm_os_test.Prelude.{
  ℕ, ◌≡◌, refl, List, [], ◌∷◌, Option, none, some, Outcome, ok, err, returned, arith,
}
use herm_os_test.Block.Types.{PendingRequest, RequestType, FileEngineType}
use herm_os_test.Block.Host.{Host}
use herm_os_test.Block.Queue.Laws.{QueueLaws}
use herm_os_test.Block.Device.{State, process_async_completion_queue}
use herm_os_test.Block.Device.Completions.{
  AsyncEngine, Reaches, process_async_completion_queue-Reaches,
}
use herm_os_test.Tests.Machine.{
  Machine, machine, two_waiting, drive, pop_empty_lem, pop_some_lem, undo_pop_lem,
}

abbrev Completed : Type 0
Completed = PendingRequest × Outcome ℕ ℕ

abbrev pop_completed : List Completed → Machine → Outcome ℕ (Option Completed) × Machine
pop_completed [] w = (ok none, w)
pop_completed (cqe ∷ cqes) w = (ok (some cqe), record w { completed = cqes })

abbrev async_machine : Host
async_machine = record machine {
  engine_type = λ w. FileEngineType.async;
  engine_pop = λ w. pop_completed w.completed w;
}

abbrev async_queue : QueueLaws async_machine
async_queue = record {
  rings = λ (w : Machine). w.rings;
  pop_empty = pop_empty_lem;
  pop_some = pop_some_lem;
  undo_pop_last = undo_pop_lem;
  add_used_appends = λ i n w. refl;
  write_obj_frame = λ v a w. refl;
  write_slice_frame = λ v a w. refl;
  consume_frame = λ n t w. refl;
  replenish_frame = λ n t w. refl;
  read_frame = λ o a n p w. refl;
  write_frame = λ o a n p w. refl;
  flush_frame = λ p w. refl;
  trace_frame = λ path l w. refl;
  advance_frame = λ w. refl;
  prepare_kick_frame = λ w. refl;
  trigger_frame = λ w. refl;
  submit_frame = λ w. refl;
  evt_read_frame = λ w. refl;
}

pop_completed-rings :
    (cqes : List Completed) (w : Machine) → (pop_completed cqes w).1.rings ≡ w.rings
pop_completed-rings [] w = refl
pop_completed-rings (cqe ∷ cqes) w = refl

pop_completed-none :
    (w : Machine)
    → w.completed ≡ []
    → ((pop_completed w.completed w).0 ≡ ok none) × ((pop_completed w.completed w).1.completed ≡ [])
pop_completed-none w e = rw e (refl, refl)

pop_completed-some :
    (w : Machine) (cqe : Completed) (cqes : List Completed)
    → w.completed ≡ cqe ∷ cqes
    → ((pop_completed w.completed w).0 ≡ ok (some cqe))
      × ((pop_completed w.completed w).1.completed ≡ cqes)
pop_completed-some w cqe cqes e = rw e (refl, refl)

abbrev async_engine : AsyncEngine async_machine async_queue
async_engine = record {
  completions = λ (w : Machine). w.completed;
  pop_none = pop_completed-none;
  pop_one = pop_completed-some;
  pop_frame = λ (w : Machine). pop_completed-rings w.completed w;
  write_obj_keeps = λ v a w. refl;
  add_used_keeps = λ i n w. refl;
  advance_keeps = λ w. refl;
  prepare_kick_keeps = λ w. refl;
  trigger_keeps = λ w. refl;
}

-- a read that moved its sector, and a write that failed
abbrev two_completed : List Completed
two_completed =
    (
      record { type = RequestType.read_in; data_len = 512; status_addr = 8192; desc_idx = 3 },
      ok 512,
    )
    ∷ (
      record { type = RequestType.write_out; data_len = 512; status_addr = 8704; desc_idx = 0 },
      err 5,
    )
    ∷ []

abbrev completed : State Machine
completed = record {
  dev = drive;
  ctx = record { world = record two_waiting { completed = two_completed }; metrics = [] };
}

process_async_completion_queue-Reaches_example :
    (t : State Machine) × (process_async_completion_queue async_machine 3 completed ≡ returned t)
    × (t.dev ≡ drive)
    × Reaches async_machine async_queue async_engine two_completed completed.ctx.world t.ctx.world
process_async_completion_queue-Reaches_example =
    process_async_completion_queue-Reaches async_machine async_queue async_engine 3 completed refl
      refl (omega arith)
