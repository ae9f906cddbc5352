-- ===== src/Tests/BenchRuns.antt =====
-- Runs of the benchmark runner.
use herm_os_test.Prelude.{ℕ, ◌+◌, ◌≡◌, refl, true, List, [], ◌∷◌, ok, arith}
use herm_os_test.Prelude.{◌↔◌, some}
use herm_os_test.Bench.Ops.{Op, get_op, list_ops}
use herm_os_test.Bench.Ops.Listed.{IsListed, get_op-list_ops}
use herm_os_test.Bench.Split.{RunConfig, worker_count, iteration_count, iteration_offset}
use herm_os_test.Bench.Usage.{UsageSnapshot, UsageDelta, Measurement, zero_usage, into_measurement}
use herm_os_test.Bench.Run.{Measured, iterate, worker, join_workers, run_external}
use herm_os_test.Bench.Run.Ids.{ids, range, run_external_total}
use herm_os_test.Prelude.{◌⊎◌, inl, length, Bool, false}
use herm_os_test.Bench.Gates.{
  Turn, worker_turn, main_turn, awaiting_ready, awaiting_finish, turn_phase, turn_worker, turn_main,
  turn, run_turns, initial,
}
use herm_os_test.Bench.Gates.Passed.{count_passed}
use herm_os_test.Prelude.{zero, suc, ◌++◌}
use herm_os_test.Bench.Gates.Condvars.{parked_turn, run_parked, parked_initial}
use herm_os_test.Bench.Gates.Stuck.{run_turns_hang}
use herm_os_test.Bench.Gates.Release.{run_turns-release}

abbrev earlier : UsageSnapshot
earlier = record { user_cpu_us = 10; sys_cpu_us = 5; minflt = 0; majflt = 0; nvcsw = 0; nivcsw = 0 }

abbrev later : UsageSnapshot
later = record { user_cpu_us = 40; sys_cpu_us = 15; minflt = 2; majflt = 0; nvcsw = 1; nivcsw = 0 }

abbrev seven : RunConfig
seven = record { total = 7; concurrency = 3; measure_per_op_usage = true }

abbrev ticks : ℕ → ℕ → ℕ × ℕ × UsageDelta
ticks tid iter = (iter, iter + 1, zero_usage)

abbrev always : Measured
always tid iter = ok (ticks tid iter)

abbrev row : ℕ → ℕ → ℕ → Measurement
row tid iter id = record {
  thread_id = tid;
  iteration = iter;
  instance_id = id;
  stage = "run";
  start_us = iter;
  end_us = iter + 1;
  elapsed_us = 1;
  usage = zero_usage;
}

abbrev seven_rows : List Measurement
seven_rows = row 0 0 0 ∷ row 0 1 1 ∷ row 0 2 2 ∷ row 1 0 3 ∷ row 1 1 4 ∷ row 2 0 5 ∷ row 2 1 6 ∷ []

seven_run : run_external always seven ≡ ok seven_rows
unfolding run_external worker_count join_workers worker iterate into_measurement iteration_count
    iteration_offset
seven_run = refl

run_external_total_example :
    (rows : List Measurement) × (run_external always seven ≡ ok rows) × (ids rows ≡ range 0 7)
run_external_total_example = run_external_total ticks seven (omega arith) (omega arith)

-- both workers prepare; the first one's operations fail
abbrev one_fails : List (Bool × Bool)
one_fails = (true, false) ∷ (true, true) ∷ []

abbrev all_turns : List Turn
all_turns =
    worker_turn 0
    ∷ worker_turn 1
    ∷ main_turn
    ∷ worker_turn 0
    ∷ worker_turn 1
    ∷ worker_turn 0
    ∷ worker_turn 1
    ∷ main_turn
    ∷ []

run_turns_hang_example :
    (((run_turns all_turns (initial one_fails)).main ≡ awaiting_ready)
      ⊎ ((run_turns all_turns (initial one_fails)).main ≡ awaiting_finish))
    × ((run_turns all_turns (initial one_fails)).gates.release_workers ≡ false)
run_turns_hang_example = run_turns_hang one_fails all_turns (refl, (refl, tt)) (inl refl)

abbrev none_fails : List (Bool × Bool)
none_fails = (true, true) ∷ (true, true) ∷ []

gate_opens : (run_turns all_turns (initial none_fails)).gates.release_workers ≡ true
unfolding run_turns turn turn_worker turn_phase turn_main initial
gate_opens = refl

run_turns-release_example :
    count_passed (run_turns all_turns (initial none_fails)).workers
    ≡ length (run_turns all_turns (initial none_fails)).workers
run_turns-release_example = run_turns-release none_fails all_turns gate_opens

abbrev one_round : List Turn
one_round = worker_turn 1 ∷ worker_turn 0 ∷ main_turn ∷ []

abbrev rounds : ℕ → List Turn
rounds zero = []
rounds (suc k) = one_round ++ rounds k

-- the main thread comes first, finds no worker ready, and sleeps
main_sleeps : (run_parked (main_turn ∷ []) (parked_initial none_fails)).main_asleep ≡ true
unfolding run_parked parked_turn turn turn_main initial
main_sleeps = refl

-- a worker that is ready wakes it
main_wakes :
    (run_parked (main_turn ∷ worker_turn 0 ∷ []) (parked_initial none_fails)).main_asleep ≡ false
unfolding run_parked parked_turn turn turn_main turn_worker turn_phase initial
main_wakes = refl

get_op-list_ops_example : IsListed "vm_new" list_ops ↔ ((op : Op) × (get_op "vm_new" ≡ some op))
get_op-list_ops_example = get_op-list_ops "vm_new"
