-- ===== src/Bench/Gates/Passed.antt =====
-- How the turns of the workers move the counters of the gates.
use herm_os_test.Prelude.{
  ℕ, zero, suc, ◌+◌, ◌≤◌, ◌<◌, ◌≡◌, refl, ap, ◌⊎◌, inl, inr, Bool, true, false, List, [], ◌∷◌,
  length, arith,
}
use herm_os_test.Bench.Gates.{
  Phase, finishing, completed, Worker, Gates, turn_phase, turn_worker, fresh,
}

-- 1 for a worker that has passed its loop, and the number of these
abbrev pub passed : Phase → ℕ
passed finishing = 1
passed completed = 1
passed _ = 0

abbrev pub count_passed : List Worker → ℕ
count_passed [] = 0
count_passed (w ∷ ws) = passed w.phase + count_passed ws

-- some worker has an operation that fails, and is not past its loop
abbrev pub HasStuck : List Worker → Type 0
HasStuck [] = ⊥
HasStuck (w ∷ ws) = ((w.runs ≡ false) × (passed w.phase ≡ 0)) ⊎ HasStuck ws

abbrev pub AllPrepare : List Worker → Type 0
AllPrepare [] = Unit {0}
AllPrepare (w ∷ ws) = (w.prepares ≡ true) × AllPrepare ws

pub turn_phase-passed :
    (p : Phase) (prepares runs : Bool) (g : Gates)
    → (turn_phase p prepares runs g).0.finished_workers + passed p
      ≡ g.finished_workers + passed (turn_phase p prepares runs g).1
unfolding turn_phase
turn_phase-passed p prepares runs g = ground arith

pub turn_phase_failing :
    (p : Phase) (prepares runs : Bool) (g : Gates)
    → runs ≡ false
    → passed p ≡ 0
    → passed (turn_phase p prepares runs g).1 ≡ 0
unfolding turn_phase
turn_phase_failing p prepares runs g bad before = ground arith

pub turn_phase_prepares :
    (p : Phase) (prepares runs : Bool) (g : Gates)
    → prepares ≡ true
    → (turn_phase p prepares runs g).0.failure ≡ g.failure
unfolding turn_phase
turn_phase_prepares p prepares runs g fine = ground arith

pub turn_phase-release :
    (p : Phase) (prepares runs : Bool) (g : Gates)
    → (turn_phase p prepares runs g).0.release_workers ≡ g.release_workers
unfolding turn_phase
turn_phase-release p prepares runs g = ground arith

pub turn_worker-passed :
    (i : ℕ) (g : Gates) (ws : List Worker)
    → (turn_worker i g ws).0.finished_workers + count_passed ws
      ≡ g.finished_workers + count_passed (turn_worker i g ws).1
unfolding turn_worker
turn_worker-passed i g [] = refl
turn_worker-passed zero g (w ∷ ws) = omega (arith, turn_phase-passed w.phase w.prepares w.runs g)
turn_worker-passed (suc i) g (w ∷ ws) = omega (arith, turn_worker-passed i g ws)

pub turn_worker-length :
    (i : ℕ) (g : Gates) (ws : List Worker) → length (turn_worker i g ws).1 ≡ length ws
unfolding turn_worker
turn_worker-length i g [] = refl
turn_worker-length zero g (w ∷ ws) = refl
turn_worker-length (suc i) g (w ∷ ws) = ap suc (turn_worker-length i g ws)

pub turn_worker-release :
    (i : ℕ) (g : Gates) (ws : List Worker)
    → (turn_worker i g ws).0.release_workers ≡ g.release_workers
unfolding turn_worker
turn_worker-release i g [] = refl
turn_worker-release zero g (w ∷ ws) = turn_phase-release w.phase w.prepares w.runs g
turn_worker-release (suc i) g (w ∷ ws) = turn_worker-release i g ws

pub turn_worker_prepares :
    (i : ℕ) (g : Gates) (ws : List Worker)
    → AllPrepare ws
    → ((turn_worker i g ws).0.failure ≡ g.failure) × AllPrepare (turn_worker i g ws).1
unfolding turn_worker
turn_worker_prepares i g [] fine = (refl, tt)
turn_worker_prepares zero g (w ∷ ws) fine =
    (turn_phase_prepares w.phase w.prepares w.runs g fine.0, fine)
turn_worker_prepares (suc i) g (w ∷ ws) fine =
    let (same, later) = turn_worker_prepares i g ws fine.1 in (same, (fine.0, later))

pub turn_worker-HasStuck :
    (i : ℕ) (g : Gates) (ws : List Worker) → HasStuck ws → HasStuck (turn_worker i g ws).1
unfolding turn_worker
turn_worker-HasStuck i g [] stuck = stuck
turn_worker-HasStuck zero g (w ∷ ws) (inl (bad, before)) =
    inl (bad, turn_phase_failing w.phase w.prepares w.runs g bad before)
turn_worker-HasStuck zero g (w ∷ ws) (inr later) = inr later
turn_worker-HasStuck (suc i) g (w ∷ ws) (inl here) = inl here
turn_worker-HasStuck (suc i) g (w ∷ ws) (inr later) = inr (turn_worker-HasStuck i g ws later)

pub passed-le : (p : Phase) → passed p ≤ 1
passed-le p = ground arith

pub count_passed-le : (ws : List Worker) → count_passed ws ≤ length ws
count_passed-le [] = omega arith
count_passed-le (w ∷ ws) = omega (arith, passed-le w.phase, count_passed-le ws)

pub count_passed-HasStuck : (ws : List Worker) → HasStuck ws → count_passed ws < length ws
count_passed-HasStuck [] stuck = absurd stuck
count_passed-HasStuck (w ∷ ws) (inl (bad, before)) = omega (arith, before, count_passed-le ws)
count_passed-HasStuck (w ∷ ws) (inr later) =
    omega (arith, passed-le w.phase, count_passed-HasStuck ws later)

-- no worker has measured anything yet
pub count_passed-fresh : (fates : List (Bool × Bool)) → count_passed (fresh fates) ≡ 0
count_passed-fresh [] = refl
count_passed-fresh ((prepares, runs) ∷ fates) = omega (arith, count_passed-fresh fates)
