-- ===== src/Bench/Gates/Stuck.antt =====
-- A failing operation holds the main thread at the finish gate for ever.
use herm_os_test.Prelude.{
  ℕ, ◌<◌, ◌≡◌, refl, sym, ◌∙◌, ◌⊎◌, inl, inr, Bool, true, false, List, [], ◌∷◌, length, arith,
}
use herm_os_test.Bench.Gates.{
  Gates, MainPhase, awaiting_ready, awaiting_finish, Bench, turn_main, Turn, worker_turn, main_turn,
  turn, run_turns, fresh, initial,
}
use herm_os_test.Bench.Gates.Passed.{
  count_passed, count_passed-fresh, HasStuck, AllPrepare, turn_worker-passed, turn_worker-release,
  turn_worker_prepares, turn_worker-HasStuck, count_passed-HasStuck,
}

-- the main thread has not passed the finish gate, and cannot
record IsHung (b : Bench) : Type 0 where
  stuck : HasStuck b.workers
  prepared : AllPrepare b.workers
  no_failure : b.gates.failure ≡ false
  counted : b.gates.finished_workers ≡ count_passed b.workers
  held : b.gates.release_workers ≡ false
  main : (b.main ≡ awaiting_ready) ⊎ (b.main ≡ awaiting_finish)

turn_main_hung :
    (n : ℕ) (g : Gates) (p : MainPhase)
    → g.failure ≡ false
    → g.finished_workers < n
    → (p ≡ awaiting_ready) ⊎ (p ≡ awaiting_finish)
    → ((turn_main n g p).0.failure ≡ false)
      × ((turn_main n g p).0.finished_workers ≡ g.finished_workers)
      × ((turn_main n g p).0.release_workers ≡ g.release_workers)
      × (((turn_main n g p).1 ≡ awaiting_ready) ⊎ ((turn_main n g p).1 ≡ awaiting_finish))
unfolding turn_main
turn_main_hung n g p fine short at = ground arith

turn-IsHung : (t : Turn) (b : Bench) → IsHung b → IsHung (turn t b)
unfolding turn
turn-IsHung (worker_turn i) b hung =
    let ws = b.workers in
    let (same, fine) = turn_worker_prepares i b.gates ws hung.prepared in
    record {
      stuck = turn_worker-HasStuck i b.gates ws hung.stuck;
      prepared = fine;
      no_failure = same ∙ hung.no_failure;
      counted = omega (arith, hung.counted, turn_worker-passed i b.gates ws);
      held = turn_worker-release i b.gates ws ∙ hung.held;
      main = hung.main;
    }
turn-IsHung main_turn b hung =
    let ws = b.workers in
    let (fine, same, kept, at) =
      turn_main_hung (length ws) b.gates b.main hung.no_failure
        (omega (arith, hung.counted, count_passed-HasStuck ws hung.stuck)) hung.main in
    record {
      stuck = hung.stuck;
      prepared = hung.prepared;
      no_failure = fine;
      counted = same ∙ hung.counted;
      held = kept ∙ hung.held;
      main = at;
    }

run_turns-IsHung : (ts : List Turn) (b : Bench) → IsHung b → IsHung (run_turns ts b)
unfolding run_turns
run_turns-IsHung [] b hung = hung
run_turns-IsHung (t ∷ ts) b hung = run_turns-IsHung ts (turn t b) (turn-IsHung t b hung)

-- every worker prepares, and some worker has a failing operation
abbrev pub Prepares : List (Bool × Bool) → Type 0
Prepares [] = Unit {0}
Prepares ((prepares, runs) ∷ fates) = (prepares ≡ true) × Prepares fates

abbrev pub HasFailing : List (Bool × Bool) → Type 0
HasFailing [] = ⊥
HasFailing ((prepares, runs) ∷ fates) = (runs ≡ false) ⊎ HasFailing fates

fresh-AllPrepare : (fates : List (Bool × Bool)) → Prepares fates → AllPrepare (fresh fates)
fresh-AllPrepare [] fine = tt
fresh-AllPrepare ((prepares, runs) ∷ fates) fine = (fine.0, fresh-AllPrepare fates fine.1)

fresh-HasStuck : (fates : List (Bool × Bool)) → HasFailing fates → HasStuck (fresh fates)
fresh-HasStuck [] bad = bad
fresh-HasStuck ((prepares, runs) ∷ fates) (inl bad) = inl (bad, refl)
fresh-HasStuck ((prepares, runs) ∷ fates) (inr later) = inr (fresh-HasStuck fates later)

-- When every worker prepares and a measured operation of one of them fails, the main thread never
-- passes the finish gate: after any number of turns, in any order, it still waits and has released
-- no worker, so the run reports neither measurements nor the error.
pub run_turns_hang :
    (fates : List (Bool × Bool)) (ts : List Turn)
    → Prepares fates
    → HasFailing fates
    → let b = run_turns ts (initial fates) in
      ((b.main ≡ awaiting_ready) ⊎ (b.main ≡ awaiting_finish)) × (b.gates.release_workers ≡ false)
unfolding initial
run_turns_hang fates ts fine bad =
    let hung = run_turns-IsHung ts (initial fates) (record {
      stuck = fresh-HasStuck fates bad;
      prepared = fresh-AllPrepare fates fine;
      no_failure = refl;
      counted = sym (count_passed-fresh fates);
      held = refl;
      main = inl refl;
    }) in
    (hung.main, hung.held)
