-- ===== src/Bench/Gates/Release.antt =====
-- The finish gate opens only when every worker has passed its loop.
use herm_os_test.Prelude.{
  ℕ, zero, suc, ◌≤◌, ◌≡◌, refl, sym, ◌∙◌, ◌⊎◌, inl, inr, Bool, true, false, List, [], ◌∷◌, length,
  arith,
}
use herm_os_test.Bench.Gates.{
  Phase, Worker, Gates, MainPhase, Bench, turn_phase, turn_worker, turn_main, Turn, worker_turn,
  main_turn, turn, run_turns, initial,
}
use herm_os_test.Bench.Gates.Passed.{
  passed, count_passed, count_passed-fresh, count_passed-le, turn_worker-passed, turn_worker-length,
  turn_worker-release,
}

turn_phase_grows :
    (p : Phase) (prepares runs : Bool) (g : Gates)
    → passed p ≤ passed (turn_phase p prepares runs g).1
unfolding turn_phase
turn_phase_grows p prepares runs g = ground arith

turn_worker_grows :
    (i : ℕ) (g : Gates) (ws : List Worker) → count_passed ws ≤ count_passed (turn_worker i g ws).1
unfolding turn_worker
turn_worker_grows i g [] = omega arith
turn_worker_grows zero g (w ∷ ws) = omega (arith, turn_phase_grows w.phase w.prepares w.runs g)
turn_worker_grows (suc i) g (w ∷ ws) = omega (arith, turn_worker_grows i g ws)

-- the counter is the number of the workers past their loop, and all are when the gate is open
record IsGuarded (b : Bench) : Type 0 where
  counted : b.gates.finished_workers ≡ count_passed b.workers
  guarded : (b.gates.release_workers ≡ false) ⊎ (count_passed b.workers ≡ length b.workers)

turn_main_guarded :
    (n : ℕ) (g : Gates) (p : MainPhase)
    → ((turn_main n g p).0.finished_workers ≡ g.finished_workers)
      × (((turn_main n g p).0.release_workers ≡ g.release_workers) ⊎ (n ≤ g.finished_workers))
unfolding turn_main
turn_main_guarded n g p = ground arith

main-guarded :
    (b : Bench) (g : Gates)
    → IsGuarded b
    → (g.release_workers ≡ b.gates.release_workers) ⊎ (length b.workers ≤ b.gates.finished_workers)
    → (g.release_workers ≡ false) ⊎ (count_passed b.workers ≡ length b.workers)
main-guarded b g inv (inl same) = elim inv.guarded [
  | inl closed ↦ inl (same ∙ closed)
  | inr all ↦ inr all
]
main-guarded b g inv (inr enough) = inr (omega (arith, inv.counted, count_passed-le b.workers))

worker-guarded :
    (i : ℕ) (b : Bench)
    → (b.gates.release_workers ≡ false) ⊎ (count_passed b.workers ≡ length b.workers)
    → ((turn_worker i b.gates b.workers).0.release_workers ≡ false)
      ⊎ (count_passed (turn_worker i b.gates b.workers).1
          ≡ length (turn_worker i b.gates b.workers).1)
worker-guarded i b (inl closed) = inl (turn_worker-release i b.gates b.workers ∙ closed)
worker-guarded i b (inr all) = inr (
    omega (
      arith,
      all,
      turn_worker_grows i b.gates b.workers,
      count_passed-le (turn_worker i b.gates b.workers).1,
      turn_worker-length i b.gates b.workers,
    ))

turn-IsGuarded : (t : Turn) (b : Bench) → IsGuarded b → IsGuarded (turn t b)
unfolding turn
turn-IsGuarded (worker_turn i) b inv = record {
  counted = omega (arith, inv.counted, turn_worker-passed i b.gates b.workers);
  guarded = worker-guarded i b inv.guarded;
}
turn-IsGuarded main_turn b inv =
    let n = length b.workers in
    let (same, released) = turn_main_guarded n b.gates b.main in
    record {
      counted = same ∙ inv.counted;
      guarded = main-guarded b (turn_main n b.gates b.main).0 inv released;
    }

run_turns-IsGuarded : (ts : List Turn) (b : Bench) → IsGuarded b → IsGuarded (run_turns ts b)
unfolding run_turns
run_turns-IsGuarded [] b inv = inv
run_turns-IsGuarded (t ∷ ts) b inv = run_turns-IsGuarded ts (turn t b) (turn-IsGuarded t b inv)

opened :
    (b : Bench)
    → IsGuarded b
    → b.gates.release_workers ≡ true
    → count_passed b.workers ≡ length b.workers
opened b inv open_gate = elim inv.guarded [
  | inl closed ↦ absurd (ground (arith, open_gate, closed))
  | inr all ↦ all
]

-- Whatever the fates of the workers and the order of the turns, once the main thread has released the
-- workers, every one of them is past its loop: the usage of the run is read when no operation runs.
pub run_turns-release :
    (fates : List (Bool × Bool)) (ts : List Turn)
    → (run_turns ts (initial fates)).gates.release_workers ≡ true
    → count_passed (run_turns ts (initial fates)).workers
      ≡ length (run_turns ts (initial fates)).workers
unfolding initial
run_turns-release fates ts open_gate =
    opened (run_turns ts (initial fates))
      (run_turns-IsGuarded ts (initial fates)
        (record { counted = sym (count_passed-fresh fates); guarded = inl refl }))
      open_gate
