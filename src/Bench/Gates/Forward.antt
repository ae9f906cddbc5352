-- ===== src/Bench/Gates/Forward.antt =====
-- What a turn keeps and raises when every operation succeeds.
use herm_os_test.Prelude.{
  ℕ, zero, suc, ◌+◌, ◌≤◌, ◌≡◌, refl, ◌∙◌, Bool, true, false, List, [], ◌∷◌, length, arith,
}
use herm_os_test.Bench.Gates.{
  Phase, preparing, waiting, running, finishing, completed, failed, Worker, Gates, MainPhase,
  awaiting_ready, awaiting_finish, joining, Bench, turn_phase, turn_worker, turn_main, Turn,
  worker_turn, main_turn, turn, run_turns,
}
use herm_os_test.Bench.Gates.Passed.{count_passed, turn_worker-passed, turn_worker-length}

-- how far a worker has come
abbrev pub rank : Phase → ℕ
rank preparing = 0
rank waiting = 1
rank running = 2
rank finishing = 3
rank completed = 4
rank failed = 0

-- the rank of a worker by its number; there is none to wait for beyond the last
abbrev pub rank_at : ℕ → List Worker → ℕ
rank_at j [] = 4
rank_at zero (w ∷ ws) = rank w.phase
rank_at (suc j) (w ∷ ws) = rank_at j ws

-- 1 for a worker that has prepared, and the number of these
abbrev pub prepared : Phase → ℕ
prepared preparing = 0
prepared failed = 0
prepared _ = 1

abbrev pub count_prepared : List Worker → ℕ
count_prepared [] = 0
count_prepared (w ∷ ws) = prepared w.phase + count_prepared ws

abbrev pub alive : Phase → Bool
alive failed = false
alive _ = true

-- every worker's operations succeed, and no worker has failed
abbrev pub AllSucceed : List Worker → Type 0
AllSucceed [] = Unit {0}
AllSucceed (w ∷ ws) = (w.prepares ≡ true) × (w.runs ≡ true) × (alive w.phase ≡ true) × AllSucceed ws

pub turn_phase-rank :
    (p : Phase) (prepares runs : Bool) (g : Gates)
    → g.failure ≡ false
    → prepares ≡ true
    → runs ≡ true
    → alive p ≡ true
    → ((turn_phase p prepares runs g).0.failure ≡ false)
      × (alive (turn_phase p prepares runs g).1 ≡ true)
      × (rank p ≤ rank (turn_phase p prepares runs g).1)
      × ((turn_phase p prepares runs g).0.start ≡ g.start)
      × ((turn_phase p prepares runs g).0.release_workers ≡ g.release_workers)
      × ((turn_phase p prepares runs g).0.ready_workers + prepared p
          ≡ g.ready_workers + prepared (turn_phase p prepares runs g).1)
unfolding turn_phase
turn_phase-rank p prepares runs g calm can does well = ground arith

-- what a turn of a worker keeps
pub record IsKept (g : Gates) (ws : List Worker) (g' : Gates) (ws' : List Worker) : Type 0 where
  pub calm : g'.failure ≡ false
  pub succeed : AllSucceed ws'
  pub ranks : (j : ℕ) → rank_at j ws ≤ rank_at j ws'
  pub same_start : g'.start ≡ g.start
  pub same_release : g'.release_workers ≡ g.release_workers
  pub counted : g'.ready_workers + count_prepared ws ≡ g.ready_workers + count_prepared ws'

pub turn_worker-IsKept :
    (i : ℕ) (g : Gates) (ws : List Worker)
    → g.failure ≡ false
    → AllSucceed ws
    → IsKept g ws (turn_worker i g ws).0 (turn_worker i g ws).1
unfolding turn_worker
turn_worker-IsKept i g [] calm all = record {
  calm = calm;
  succeed = tt;
  ranks = λ j. omega arith;
  same_start = refl;
  same_release = refl;
  counted = refl;
}
turn_worker-IsKept zero g (w ∷ ws) calm (can, does, well, all) =
    let (calm', well', up, start, release, count) =
      turn_phase-rank w.phase w.prepares w.runs g calm can does well in
    record {
      calm = calm';
      succeed = (can, does, well', all);
      ranks = λ j. at_head j up;
      same_start = start;
      same_release = release;
      counted = omega (arith, count);
    }
  where
    at_head :
        (j : ℕ)
        → rank w.phase ≤ rank (turn_phase w.phase w.prepares w.runs g).1
        → rank_at j (w ∷ ws)
          ≤ rank_at j (record w { phase = (turn_phase w.phase w.prepares w.runs g).1 } ∷ ws)
    at_head zero up = up
    at_head (suc j) up = omega arith
turn_worker-IsKept (suc i) g (w ∷ ws) calm (can, does, well, all) =
    let kept = turn_worker-IsKept i g ws calm all in
    record {
      calm = kept.calm;
      succeed = (can, does, well, kept.succeed);
      ranks = λ j. at_tail j kept.ranks;
      same_start = kept.same_start;
      same_release = kept.same_release;
      counted = omega (arith, kept.counted);
    }
  where
    at_tail :
        (j : ℕ)
        → ((k : ℕ) → rank_at k ws ≤ rank_at k (turn_worker i g ws).1)
        → rank_at j (w ∷ ws) ≤ rank_at j (w ∷ (turn_worker i g ws).1)
    at_tail zero up = omega arith
    at_tail (suc j) up = up j

-- the gates agree with where the main thread is
abbrev pub IsAt : MainPhase → Gates → Type 0
IsAt awaiting_ready g = (g.start ≡ false) × (g.release_workers ≡ false)
IsAt awaiting_finish g = (g.start ≡ true) × (g.release_workers ≡ false)
IsAt joining g = (g.start ≡ true) × (g.release_workers ≡ true)

-- a bench on which nothing has failed, with its counters right
pub record IsFine (b : Bench) : Type 0 where
  pub calm : b.gates.failure ≡ false
  pub succeed : AllSucceed b.workers
  pub ready : b.gates.ready_workers ≡ count_prepared b.workers
  pub finished : b.gates.finished_workers ≡ count_passed b.workers
  pub main : IsAt b.main b.gates

-- no worker goes back, and no gate is shut again
pub record IsForward (b b' : Bench) : Type 0 where
  pub ranks : (j : ℕ) → rank_at j b.workers ≤ rank_at j b'.workers
  pub start : b.gates.start ≡ true → b'.gates.start ≡ true
  pub release : b.gates.release_workers ≡ true → b'.gates.release_workers ≡ true
  pub size : length b'.workers ≡ length b.workers

pub turn_main-IsAt :
    (n : ℕ) (g : Gates) (m : MainPhase)
    → g.failure ≡ false
    → IsAt m g
    → let (g', m') = turn_main n g m in
      (g'.failure ≡ false)
      × (g'.ready_workers ≡ g.ready_workers)
      × (g'.finished_workers ≡ g.finished_workers)
      × IsAt m' g'
unfolding turn_main
turn_main-IsAt n g awaiting_ready calm at = ground arith
turn_main-IsAt n g awaiting_finish calm at = ground arith
turn_main-IsAt n g joining calm at = ground arith

turn_main_opens :
    (n : ℕ) (g : Gates) (m : MainPhase)
    → (g.start ≡ true → (turn_main n g m).0.start ≡ true)
      × (g.release_workers ≡ true → (turn_main n g m).0.release_workers ≡ true)
unfolding turn_main
turn_main_opens n g awaiting_ready = ground arith
turn_main_opens n g awaiting_finish = ground arith
turn_main_opens n g joining = ground arith

IsAt-gates :
    (m : MainPhase) (g g' : Gates)
    → g'.start ≡ g.start
    → g'.release_workers ≡ g.release_workers
    → IsAt m g
    → IsAt m g'
IsAt-gates awaiting_ready g g' start release (s, r) = (start ∙ s, release ∙ r)
IsAt-gates awaiting_finish g g' start release (s, r) = (start ∙ s, release ∙ r)
IsAt-gates joining g g' start release (s, r) = (start ∙ s, release ∙ r)

pub turn-IsFine : (t : Turn) (b : Bench) → IsFine b → IsFine (turn t b)
unfolding turn
turn-IsFine (worker_turn i) b fine =
    let ws = b.workers in
    let kept = turn_worker-IsKept i b.gates ws fine.calm fine.succeed in
    record {
      calm = kept.calm;
      succeed = kept.succeed;
      ready = omega (arith, kept.counted, fine.ready);
      finished = omega (arith, turn_worker-passed i b.gates ws, fine.finished);
      main =
          IsAt-gates b.main b.gates (turn_worker i b.gates ws).0 kept.same_start kept.same_release
            fine.main;
    }
turn-IsFine main_turn b fine =
    let n = length b.workers in
    let (calm, ready, finished, at) = turn_main-IsAt n b.gates b.main fine.calm fine.main in
    record {
      calm = calm;
      succeed = fine.succeed;
      ready = ready ∙ fine.ready;
      finished = finished ∙ fine.finished;
      main = at;
    }

pub turn-IsForward : (t : Turn) (b : Bench) → IsFine b → IsForward b (turn t b)
unfolding turn
turn-IsForward (worker_turn i) b fine =
    let ws = b.workers in
    let kept = turn_worker-IsKept i b.gates ws fine.calm fine.succeed in
    record {
      ranks = kept.ranks;
      start = λ open_gate. kept.same_start ∙ open_gate;
      release = λ open_gate. kept.same_release ∙ open_gate;
      size = turn_worker-length i b.gates ws;
    }
turn-IsForward main_turn b fine =
    let (start, release) = turn_main_opens (length b.workers) b.gates b.main in
    record { ranks = λ j. omega arith; start = start; release = release; size = refl }

pub IsForward-trans : (b b' b'' : Bench) → IsForward b b' → IsForward b' b'' → IsForward b b''
IsForward-trans b b' b'' f f' = record {
  ranks = λ j. omega (arith, f.ranks j, f'.ranks j);
  start = λ open_gate. f'.start (f.start open_gate);
  release = λ open_gate. f'.release (f.release open_gate);
  size = f'.size ∙ f.size;
}

pub run_turns-IsFine :
    (ts : List Turn) (b : Bench) → IsFine b → IsFine (run_turns ts b) × IsForward b (run_turns ts b)
unfolding run_turns
run_turns-IsFine [] b fine = (
  fine,
  record {
    ranks = λ j. omega arith;
    start = λ open_gate. open_gate;
    release = λ open_gate. open_gate;
    size = refl;
  },
)
run_turns-IsFine (t ∷ ts) b fine =
    let (fine', later) = run_turns-IsFine ts (turn t b) (turn-IsFine t b fine) in
    (fine', IsForward-trans b (turn t b) (run_turns ts (turn t b)) (turn-IsForward t b fine) later)
