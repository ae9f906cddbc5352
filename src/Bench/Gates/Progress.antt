-- ===== src/Bench/Gates/Progress.antt =====
-- What a round of turns brings about when every operation succeeds.
use mathlib.Core.List.{Memᴰ}
use mathlib.Core.Path.{subst}
use herm_os_test.Prelude.{
  ℕ, zero, suc, ◌+◌, ◌≤◌, ◌<◌, ◌≡◌, refl, ◌∙◌, ◌⊎◌, inl, inr, Bool, true, false, List, [], ◌∷◌,
  length, arith,
}
use herm_os_test.Bench.Gates.{
  Phase, Worker, Gates, MainPhase, awaiting_ready, awaiting_finish, joining, Bench, turn_phase,
  turn_worker, turn_main, Turn, worker_turn, main_turn, turn, run_turns,
}
use herm_os_test.Bench.Gates.Passed.{passed, count_passed}
use herm_os_test.Bench.Gates.Forward.{
  rank, rank_at, alive, prepared, count_prepared, AllSucceed, IsAt, IsFine, IsForward, turn-IsFine,
  turn-IsForward, run_turns-IsFine,
}

-- what a worker of rank `k` waits for
abbrev pub IsOpen : ℕ → Gates → Type 0
IsOpen zero g = Unit {0}
IsOpen (suc zero) g = g.start ≡ true
IsOpen (suc (suc zero)) g = Unit {0}
IsOpen (suc (suc (suc k))) g = g.release_workers ≡ true

turn_phase_up :
    (k : ℕ) (p : Phase) (prepares runs : Bool) (g : Gates)
    → g.failure ≡ false
    → prepares ≡ true
    → runs ≡ true
    → alive p ≡ true
    → k ≤ 3
    → IsOpen k g
    → k ≤ rank p
    → k + 1 ≤ rank (turn_phase p prepares runs g).1
unfolding turn_phase
turn_phase_up zero p prepares runs g calm can does well small gate at = ground arith
turn_phase_up (suc zero) p prepares runs g calm can does well small gate at = ground arith
turn_phase_up (suc (suc zero)) p prepares runs g calm can does well small gate at = ground arith
turn_phase_up (suc (suc (suc k))) p prepares runs g calm can does well small gate at = ground arith

turn_worker_up :
    (i k : ℕ) (g : Gates) (ws : List Worker)
    → g.failure ≡ false
    → AllSucceed ws
    → k ≤ 3
    → IsOpen k g
    → k ≤ rank_at i ws
    → k + 1 ≤ rank_at i (turn_worker i g ws).1
unfolding turn_worker
turn_worker_up i k g [] calm all small gate at = omega arith
turn_worker_up zero k g (w ∷ ws) calm (can, does, well, all) small gate at =
    turn_phase_up k w.phase w.prepares w.runs g calm can does well small gate at
turn_worker_up (suc i) k g (w ∷ ws) calm (can, does, well, all) small gate at =
    turn_worker_up i k g ws calm all small gate at

still-IsOpen : (k : ℕ) (b b' : Bench) → IsForward b b' → IsOpen k b.gates → IsOpen k b'.gates
still-IsOpen zero b b' f gate = tt
still-IsOpen (suc zero) b b' f gate = f.start gate
still-IsOpen (suc (suc zero)) b b' f gate = tt
still-IsOpen (suc (suc (suc k))) b b' f gate = f.release gate

run_turns_up :
    (j k : ℕ) (s : List Turn) (b : Bench)
    → IsFine b
    → Memᴰ (worker_turn j) s
    → k ≤ 3
    → IsOpen k b.gates
    → k ≤ rank_at j b.workers
    → k + 1 ≤ rank_at j (run_turns s b).workers
unfolding run_turns turn
run_turns_up j k [] b fine m small gate at = elim m [ ]
run_turns_up j k (t ∷ s) b fine (Memᴰ.head e) small gate at =
    let first : Type 0 = k + 1 ≤ rank_at j (turn t b).workers in
    let up : first =
      subst (λ u. k + 1 ≤ rank_at j (turn u b).workers) e
        (turn_worker_up j k b.gates b.workers fine.calm fine.succeed small gate at) in
    let (fine', later) = run_turns-IsFine s (turn t b) (turn-IsFine t b fine) in
    omega (arith, up, later.ranks j)
run_turns_up j k (t ∷ s) b fine (Memᴰ.tail m) small gate at =
    let f = turn-IsForward t b fine in
    run_turns_up j k s (turn t b) (turn-IsFine t b fine) m small
      (still-IsOpen k b (turn t b) f gate) (omega (arith, at, f.ranks j))

prepared-rank : (p : Phase) → 1 ≤ rank p → prepared p ≡ 1
prepared-rank p up = ground arith

count_prepared-all :
    (ws : List Worker) → ((j : ℕ) → 1 ≤ rank_at j ws) → count_prepared ws ≡ length ws
count_prepared-all [] up = refl
count_prepared-all (w ∷ ws) up =
    omega (arith, prepared-rank w.phase (up 0), count_prepared-all ws (λ j. up (suc j)))

passed-rank : (p : Phase) → 3 ≤ rank p → passed p ≡ 1
passed-rank p up = ground arith

count_passed-all : (ws : List Worker) → ((j : ℕ) → 3 ≤ rank_at j ws) → count_passed ws ≡ length ws
count_passed-all [] up = refl
count_passed-all (w ∷ ws) up =
    omega (arith, passed-rank w.phase (up 0), count_passed-all ws (λ j. up (suc j)))

turn_main_start :
    (n : ℕ) (g : Gates) (m : MainPhase)
    → g.failure ≡ false
    → IsAt m g
    → g.ready_workers ≡ n
    → (turn_main n g m).0.start ≡ true
unfolding turn_main
turn_main_start n g awaiting_ready calm at all = ground arith
turn_main_start n g awaiting_finish calm at all = ground arith
turn_main_start n g joining calm at all = ground arith

turn_main_release :
    (n : ℕ) (g : Gates) (m : MainPhase)
    → IsAt m g
    → g.start ≡ true
    → g.finished_workers ≡ n
    → (turn_main n g m).0.release_workers ≡ true
unfolding turn_main
turn_main_release n g awaiting_ready at open_gate all = ground arith
turn_main_release n g awaiting_finish at open_gate all = ground arith
turn_main_release n g joining at open_gate all = ground arith

unfoldable pub AtLeast : ℕ → Bench → Type 0
AtLeast k b = (j : ℕ) → k ≤ rank_at j b.workers

pub still-AtLeast : (k : ℕ) (b b' : Bench) → IsForward b b' → AtLeast k b → AtLeast k b'
unfolding AtLeast
still-AtLeast k b b' f at j = omega (arith, at j, f.ranks j)

pub run_turns_start :
    (s : List Turn) (b : Bench)
    → IsFine b
    → Memᴰ main_turn s
    → AtLeast 1 b
    → (run_turns s b).gates.start ≡ true
unfolding run_turns turn AtLeast
run_turns_start [] b fine m at = elim m [ ]
run_turns_start (t ∷ s) b fine (Memᴰ.head e) at =
    let (fine', later) = run_turns-IsFine s (turn t b) (turn-IsFine t b fine) in
    later.start (
      subst (λ u. (turn u b).gates.start ≡ true) e
        (turn_main_start (length b.workers) b.gates b.main fine.calm fine.main
          (fine.ready ∙ count_prepared-all b.workers at)))
run_turns_start (t ∷ s) b fine (Memᴰ.tail m) at =
    run_turns_start s (turn t b) (turn-IsFine t b fine) m
      (still-AtLeast 1 b (turn t b) (turn-IsForward t b fine) at)

pub run_turns_release :
    (s : List Turn) (b : Bench)
    → IsFine b
    → Memᴰ main_turn s
    → AtLeast 3 b
    → b.gates.start ≡ true
    → (run_turns s b).gates.release_workers ≡ true
unfolding run_turns turn AtLeast
run_turns_release [] b fine m at open_gate = elim m [ ]
run_turns_release (t ∷ s) b fine (Memᴰ.head e) at open_gate =
    let (fine', later) = run_turns-IsFine s (turn t b) (turn-IsFine t b fine) in
    later.release (
      subst (λ u. (turn u b).gates.release_workers ≡ true) e
        (turn_main_release (length b.workers) b.gates b.main fine.main open_gate
          (fine.finished ∙ count_passed-all b.workers at)))
run_turns_release (t ∷ s) b fine (Memᴰ.tail m) at open_gate =
    let f = turn-IsForward t b fine in
    run_turns_release s (turn t b) (turn-IsFine t b fine) m (still-AtLeast 3 b (turn t b) f at)
      (f.start open_gate)

-- every one of the `n` workers and the main thread have a turn in the round
pub record IsRound (n : ℕ) (s : List Turn) : Type 0 where
  pub worker : (j : ℕ) → j < n → Memᴰ (worker_turn j) s
  pub main : Memᴰ main_turn s

rank_at_past : (j : ℕ) (ws : List Worker) → length ws ≤ j → rank_at j ws ≡ 4
rank_at_past j [] past = refl
rank_at_past zero (w ∷ ws) past = absurd (omega (arith, past))
rank_at_past (suc j) (w ∷ ws) past = rank_at_past j ws (omega (arith, past))

lt_or_ge : (a b : ℕ) → (a < b) ⊎ (b ≤ a)
lt_or_ge a b = ground arith

pub round_up :
    (k : ℕ) (s : List Turn) (b : Bench)
    → IsFine b
    → IsRound (length b.workers) s
    → k ≤ 3
    → IsOpen k b.gates
    → AtLeast k b
    → AtLeast (k + 1) (run_turns s b)
unfolding AtLeast
round_up k s b fine round small gate at j = elim (lt_or_ge j (length b.workers)) [
  | inl within ↦ run_turns_up j k s b fine (round.worker j within) small gate (at j)
  | inr past ↦
      let (fine', later) = run_turns-IsFine s b fine in
      omega (arith, later.ranks j, rank_at_past j b.workers past, small)
]
