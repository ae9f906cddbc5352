-- ===== src/Bench/Gates/Condvars/Woken.antt =====
-- No wake-up is lost: a sleeper's condition is false until it is notified.
use herm_os_test.Prelude.{ℕ, ◌≡◌, true, false, ltb, length}
use herm_os_test.Bench.Gates.{
  Phase, waiting, finishing, Gates, MainPhase, awaiting_ready, awaiting_finish, joining, Bench,
}
use herm_os_test.Bench.Gates.Condvars.{
  Parked, phase_at, Notified, nobody, start_gate, finish_gate, worker_notifies, main_notifies,
  waits, main_waits,
}

-- the condition that a worker in this phase waits for is false
abbrev Rests : Phase → Gates → Type 0
Rests waiting g = (g.failure ≡ false) × (g.start ≡ false)
Rests finishing g = g.release_workers ≡ false
Rests _ g = ⊥

abbrev MainRests : ℕ → MainPhase → Gates → Type 0
MainRests n awaiting_ready g = (ltb g.ready_workers n ≡ true) × (g.failure ≡ false)
MainRests n awaiting_finish g = ltb g.finished_workers n ≡ true
MainRests n joining g = ⊥

-- the parts of the gates that stay when this variable is notified
abbrev Unmoved : Notified → Gates → Gates → Type 0
Unmoved nobody g g' =
    (g'.ready_workers ≡ g.ready_workers)
    × (g'.start ≡ g.start)
    × (g'.failure ≡ g.failure)
    × (g'.finished_workers ≡ g.finished_workers)
    × (g'.release_workers ≡ g.release_workers)
Unmoved start_gate g g' =
    (g'.finished_workers ≡ g.finished_workers) × (g'.release_workers ≡ g.release_workers)
Unmoved finish_gate g g' =
    (g'.ready_workers ≡ g.ready_workers) × (g'.start ≡ g.start) × (g'.failure ≡ g.failure)

-- a turn that changes a gate notifies its variable, and one that ends in `wait` found its condition false
abbrev WorkerTurned : Phase → Gates → Gates × Phase → Type 0
WorkerTurned p g r = Unmoved (worker_notifies p r.1) g r.0 × (waits p r.1 ≡ true → Rests r.1 r.0)

abbrev MainTurned : ℕ → MainPhase → Gates → Gates × MainPhase → Type 0
MainTurned n m g r =
    Unmoved (main_notifies m r.1) g r.0 × (main_waits m r.1 ≡ true → MainRests n r.1 r.0)

-- who sleeps waits for a condition that is false
record IsQuiet (s : Parked) : Type 0 where
  workers : (j : ℕ) → s.asleep j ≡ true → Rests (phase_at j s.bench.workers) s.bench.gates
  main : s.main_asleep ≡ true → MainRests (length s.bench.workers) s.bench.main s.bench.gates
