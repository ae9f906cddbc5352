-- ===== src/Bench/Gates/Condvars.antt =====
-- ops/mod.rs: the two condition variables of `run_external_with_prepare`. A thread that finds its condition
-- false sleeps in `wait`, and its turns do nothing until another thread calls `notify_all` on that
-- variable.
pub mod Woken
use herm_os_test.Prelude.{
  ℕ, zero, suc, Bool, true, false, not, ◌&&◌, List, [], ◌∷◌, ◌==◌, if◌then◌else◌,
}
use herm_os_test.Bench.Gates.{
  Phase, preparing, waiting, running, finishing, completed, Worker, MainPhase, awaiting_ready,
  awaiting_finish, joining, Bench, Turn, worker_turn, main_turn, turn, initial,
}

pub record Parked : Type 0 where
  pub bench : Bench
  pub asleep : ℕ → Bool
  pub main_asleep : Bool

abbrev pub phase_at : ℕ → List Worker → Phase
phase_at i [] = completed
phase_at zero (w ∷ ws) = w.phase
phase_at (suc i) (w ∷ ws) = phase_at i ws

-- the variable that a turn calls `notify_all` on: that of the start gate, or of the finish gate
pub data Notified : Type 0 where
  nobody start_gate finish_gate : Notified

-- of a worker, by its phase before and after its turn
abbrev pub worker_notifies : Phase → Phase → Notified
worker_notifies preparing p = start_gate
worker_notifies running finishing = finish_gate
worker_notifies _ _ = nobody

-- of the main thread
abbrev pub main_notifies : MainPhase → MainPhase → Notified
main_notifies awaiting_ready awaiting_ready = nobody
main_notifies awaiting_ready _ = start_gate
main_notifies awaiting_finish joining = finish_gate
main_notifies _ _ = nobody

-- whether a worker in this phase, or the main thread, waits on the variable
abbrev pub worker_on : Notified → Phase → Bool
worker_on start_gate waiting = true
worker_on finish_gate finishing = true
worker_on _ _ = false

abbrev pub main_on : Notified → MainPhase → Bool
main_on start_gate awaiting_ready = true
main_on finish_gate awaiting_finish = true
main_on _ _ = false

-- whether a turn ended in `wait`
abbrev pub waits : Phase → Phase → Bool
waits waiting waiting = true
waits finishing finishing = true
waits _ _ = false

abbrev pub main_waits : MainPhase → MainPhase → Bool
main_waits awaiting_ready awaiting_ready = true
main_waits awaiting_finish awaiting_finish = true
main_waits _ _ = false

-- those who still sleep after a notification
abbrev pub still_asleep : Notified → List Worker → (ℕ → Bool) → ℕ → Bool
still_asleep k ws asleep j = asleep j && not (worker_on k (phase_at j ws))

abbrev pub parked_worker : ℕ → Parked → Parked
parked_worker i s =
    let b = turn (worker_turn i) s.bench in
    let p = phase_at i s.bench.workers in
    let p' = phase_at i b.workers in
    let k = worker_notifies p p' in
    record {
      bench = b;
      asleep = λ j. if i == j then waits p p' else still_asleep k b.workers s.asleep j;
      main_asleep = s.main_asleep && not (main_on k b.main);
    }

abbrev pub parked_main : Parked → Parked
parked_main s =
    let b = turn main_turn s.bench in
    let k = main_notifies s.bench.main b.main in
    record {
      bench = b;
      asleep = still_asleep k b.workers s.asleep;
      main_asleep = main_waits s.bench.main b.main;
    }

-- one turn, where a sleeper does nothing
unfoldable pub parked_turn : Turn → Parked → Parked
parked_turn (worker_turn i) s = if s.asleep i then s else parked_worker i s
parked_turn main_turn s = if s.main_asleep then s else parked_main s

unfoldable pub run_parked : List Turn → Parked → Parked
run_parked [] s = s
run_parked (t ∷ ts) s = run_parked ts (parked_turn t s)

-- no thread sleeps at the start
abbrev pub parked_initial : List (Bool × Bool) → Parked
parked_initial fates = record { bench = initial fates; asleep = λ j. false; main_asleep = false }
