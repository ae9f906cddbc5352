-- ===== src/Bench/Gates.antt =====
-- ops/mod.rs: `run_external_with_prepare`, its start gate and its finish gate. Each turn of a schedule
-- is one critical section of a worker or of the main thread; a thread that waits on a condition
-- keeps its phase, and looks at the condition at each of its turns. Condvars has the condition
-- variables, where it sleeps until it is notified. What a worker measures is left out, and reading the usage of the process is taken
-- to succeed; an operation that panics is one that fails.
pub mod Passed
pub mod Stuck
pub mod Release
pub mod Forward
pub mod Progress
pub mod Ends
pub mod Condvars
use herm_os_test.Prelude.{
  ℕ, zero, suc, ◌+◌, Bool, true, false, not, ◌&&◌, List, [], ◌∷◌, ltb, if◌then◌else◌, length,
}

pub data Phase : Type 0 where
  preparing waiting running finishing completed failed : Phase

-- a worker, with whether its `prepare_fn` and its measured operations succeed
pub record Worker : Type 0 where
  pub phase : Phase
  pub prepares : Bool
  pub runs : Bool

-- `StartState` and `FinishState`; a failure is kept without its text
pub record Gates : Type 0 where
  pub ready_workers : ℕ
  pub start : Bool
  pub failure : Bool
  pub finished_workers : ℕ
  pub release_workers : Bool

pub data MainPhase : Type 0 where
  awaiting_ready awaiting_finish joining : MainPhase

pub record Bench : Type 0 where
  pub gates : Gates
  pub workers : List Worker
  pub main : MainPhase

abbrev pub after_prepare : Bool → Gates → Gates × Phase
after_prepare true g = (record g { ready_workers = g.ready_workers + 1 }, waiting)
after_prepare false g = (record g { failure = true }, failed)

abbrev pub after_wait : Bool → Bool → Phase
after_wait true start = failed
after_wait false true = running
after_wait false false = waiting

abbrev pub after_run : Bool → Gates → Gates × Phase
after_run true g = (record g { finished_workers = g.finished_workers + 1 }, finishing)
after_run false g = (g, failed)

abbrev pub after_release : Bool → Phase
after_release true = completed
after_release false = finishing

-- one turn of a worker thread
unfoldable pub turn_phase : Phase → Bool → Bool → Gates → Gates × Phase
turn_phase preparing prepares runs g = after_prepare prepares g
turn_phase waiting prepares runs g = (g, after_wait g.failure g.start)
turn_phase running prepares runs g = after_run runs g
turn_phase finishing prepares runs g = (g, after_release g.release_workers)
turn_phase completed prepares runs g = (g, completed)
turn_phase failed prepares runs g = (g, failed)

unfoldable pub turn_worker : ℕ → Gates → List Worker → Gates × List Worker
turn_worker i g [] = (g, [])
turn_worker zero g (w ∷ ws) =
    let (g', p) = turn_phase w.phase w.prepares w.runs g in (g', record w { phase = p } ∷ ws)
turn_worker (suc i) g (w ∷ ws) = let (g', ws') = turn_worker i g ws in (g', w ∷ ws')

-- one turn of the main thread, with the number of workers; joining is left to the threads' ends
unfoldable pub turn_main : ℕ → Gates → MainPhase → Gates × MainPhase
turn_main workers g awaiting_ready =
    if ltb g.ready_workers workers && not g.failure
    then (g, awaiting_ready)
    else if g.failure
    then (g, joining)
    else (record g { start = true }, awaiting_finish)
turn_main workers g awaiting_finish =
    if ltb g.finished_workers workers
    then (g, awaiting_finish)
    else (record g { release_workers = true }, joining)
turn_main workers g joining = (g, joining)

pub data Turn : Type 0 where
  worker_turn : ℕ → Turn
  main_turn : Turn

unfoldable pub turn : Turn → Bench → Bench
turn (worker_turn i) b =
    let (g, ws) = turn_worker i b.gates b.workers in record b { gates = g; workers = ws }
turn main_turn b =
    let (g, m) = turn_main (length b.workers) b.gates b.main in record b { gates = g; main = m }

unfoldable pub run_turns : List Turn → Bench → Bench
run_turns [] b = b
run_turns (t ∷ ts) b = run_turns ts (turn t b)

-- the fates of the workers: whether each prepares and whether it runs
abbrev pub fresh : List (Bool × Bool) → List Worker
fresh [] = []
fresh ((prepares, runs) ∷ fates) =
    record { phase = preparing; prepares = prepares; runs = runs } ∷ fresh fates

unfoldable pub initial : List (Bool × Bool) → Bench
initial fates = record {
  gates = record {
    ready_workers = 0;
    start = false;
    failure = false;
    finished_workers = 0;
    release_workers = false;
  };
  workers = fresh fates;
  main = awaiting_ready;
}
