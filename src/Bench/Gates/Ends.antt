-- ===== src/Bench/Gates/Ends.antt =====
-- A run in which every operation succeeds ends, whatever the order of the turns.
use mathlib.Core.Path.{subst}
use herm_os_test.Prelude.{
  ℕ, zero, suc, ◌+◌, ◌≤◌, ◌≡◌, refl, sym, ap, ◌∙◌, Bool, true, List, [], ◌∷◌, ◌++◌, length, arith,
}
use herm_os_test.Bench.Gates.{
  Phase, completed, Worker, Gates, MainPhase, awaiting_ready, awaiting_finish, joining, Bench, Turn,
  turn, run_turns, fresh, initial,
}
use herm_os_test.Bench.Gates.Passed.{count_passed-fresh}
use herm_os_test.Bench.Gates.Forward.{
  rank, rank_at, count_prepared, AllSucceed, IsAt, IsFine, run_turns-IsFine,
}
use herm_os_test.Bench.Gates.Progress.{
  AtLeast, IsRound, still-AtLeast, run_turns_start, run_turns_release, round_up,
}

-- what `k` rounds bring about
Stage : ℕ → Bench → Type 0
Stage zero b = AtLeast 0 b
Stage (suc zero) b = AtLeast 1 b
Stage (suc (suc zero)) b = AtLeast 1 b × (b.gates.start ≡ true)
Stage (suc (suc (suc zero))) b = AtLeast 2 b × (b.gates.start ≡ true)
Stage (suc (suc (suc (suc zero)))) b = AtLeast 3 b × (b.gates.start ≡ true)
Stage (suc (suc (suc (suc (suc zero))))) b = AtLeast 3 b × (b.gates.release_workers ≡ true)
Stage (suc (suc (suc (suc (suc (suc k)))))) b = AtLeast 4 b × (b.gates.release_workers ≡ true)

round-Stage :
    (k : ℕ) (s : List Turn) (b : Bench)
    → k ≤ 5
    → IsFine b
    → IsRound (length b.workers) s
    → Stage k b
    → Stage (suc k) (run_turns s b)
unfolding Stage
round-Stage zero s b small fine round at = round_up 0 s b fine round (omega arith) tt at
round-Stage (suc zero) s b small fine round at =
    let (fine', later) = run_turns-IsFine s b fine in
    (still-AtLeast 1 b (run_turns s b) later at, run_turns_start s b fine round.main at)
round-Stage (suc (suc zero)) s b small fine round (at, gate) =
    let (fine', later) = run_turns-IsFine s b fine in
    (round_up 1 s b fine round (omega arith) gate at, later.start gate)
round-Stage (suc (suc (suc zero))) s b small fine round (at, gate) =
    let (fine', later) = run_turns-IsFine s b fine in
    (round_up 2 s b fine round (omega arith) tt at, later.start gate)
round-Stage (suc (suc (suc (suc zero)))) s b small fine round (at, gate) =
    let (fine', later) = run_turns-IsFine s b fine in
    (still-AtLeast 3 b (run_turns s b) later at, run_turns_release s b fine round.main at gate)
round-Stage (suc (suc (suc (suc (suc zero))))) s b small fine round (at, gate) =
    let (fine', later) = run_turns-IsFine s b fine in
    (round_up 3 s b fine round (omega arith) gate at, later.release gate)
round-Stage (suc (suc (suc (suc (suc (suc k)))))) s b small fine round at =
    absurd (omega (arith, small))

-- `k` rounds one after another
unfoldable pub HasRounds : ℕ → ℕ → List Turn → Type 0
HasRounds zero n ts = Unit {0}
HasRounds (suc k) n ts = (s rest : List Turn) × (ts ≡ s ++ rest) × IsRound n s × HasRounds k n rest

run_turns-append :
    (s rest : List Turn) (b : Bench) → run_turns (s ++ rest) b ≡ run_turns rest (run_turns s b)
unfolding run_turns
run_turns-append [] rest b = refl
run_turns-append (t ∷ s) rest b = run_turns-append s rest (turn t b)

-- All that is known of a run of a bench.
record HasCome (k : ℕ) (b : Bench) : Type 0 where
  fine : IsFine b
  stage : Stage k b

rounds-HasCome :
    (k m : ℕ) (ts : List Turn) (b : Bench)
    → k + m ≡ 6
    → HasCome k b
    → HasRounds m (length b.workers) ts
    → HasCome 6 (run_turns ts b)
unfolding HasRounds Stage
rounds-HasCome k zero ts b all come rounds =
    let (fine', later) = run_turns-IsFine ts b come.fine in
    let six : k ≡ 6 = omega (arith, all) in
    let at : Stage 6 b = subst (λ i. Stage i b) six come.stage in
    record {
      fine = fine';
      stage = (still-AtLeast 4 b (run_turns ts b) later at.0, later.release at.1);
    }
rounds-HasCome k (suc m) ts b all come (s, rest, parts, round, rounds) =
    let (fine', later) = run_turns-IsFine s b come.fine in
    let b' : Bench = run_turns s b in
    let next : HasCome (suc k) b' = record {
      fine = fine';
      stage = round-Stage k s b (omega (arith, all)) come.fine round come.stage;
    } in
    let last =
      rounds-HasCome (suc k) m rest b' (omega (arith, all)) next
        (subst (λ n. HasRounds m n rest) (sym later.size) rounds) in
    subst (HasCome 6) (sym (ap (λ u. run_turns u b) parts ∙ run_turns-append s rest b)) last

-- every worker of the list is done
unfoldable pub AllCompleted : List Worker → Type 0
AllCompleted [] = Unit {0}
AllCompleted (w ∷ ws) = (w.phase ≡ completed) × AllCompleted ws

rank-completed : (p : Phase) → 4 ≤ rank p → p ≡ completed
rank-completed p up = ground arith

rank_at-AllCompleted : (ws : List Worker) → ((j : ℕ) → 4 ≤ rank_at j ws) → AllCompleted ws
unfolding AllCompleted
rank_at-AllCompleted [] up = tt
rank_at-AllCompleted (w ∷ ws) up =
    (rank-completed w.phase (up 0), rank_at-AllCompleted ws (λ j. up (suc j)))

-- every worker prepares and runs without an error
abbrev pub AllFine : List (Bool × Bool) → Type 0
AllFine [] = Unit {0}
AllFine ((prepares, runs) ∷ fates) = (prepares ≡ true) × (runs ≡ true) × AllFine fates

fresh-AllSucceed : (fates : List (Bool × Bool)) → AllFine fates → AllSucceed (fresh fates)
fresh-AllSucceed [] all = tt
fresh-AllSucceed ((prepares, runs) ∷ fates) (can, does, all) =
    (can, does, refl, fresh-AllSucceed fates all)

count_prepared-fresh : (fates : List (Bool × Bool)) → count_prepared (fresh fates) ≡ 0
count_prepared-fresh [] = refl
count_prepared-fresh ((prepares, runs) ∷ fates) = omega (arith, count_prepared-fresh fates)

length-fresh : (fates : List (Bool × Bool)) → length (fresh fates) ≡ length fates
length-fresh [] = refl
length-fresh ((prepares, runs) ∷ fates) = ap suc (length-fresh fates)

released-joining : (m : MainPhase) (g : Gates) → IsAt m g → g.release_workers ≡ true → m ≡ joining
released-joining awaiting_ready g at gate = absurd (ground (arith, at, gate))
released-joining awaiting_finish g at gate = absurd (ground (arith, at, gate))
released-joining joining g at gate = refl

-- When every worker prepares and runs without an error, the run ends: after six rounds of turns, in
-- each of which every worker and the main thread have at least one turn, in any order and with any
-- others between, the main thread is past both gates and every worker has completed.
pub run_turns_ends :
    (fates : List (Bool × Bool)) (ts : List Turn)
    → AllFine fates
    → HasRounds 6 (length fates) ts
    → let b = run_turns ts (initial fates) in (b.main ≡ joining) × AllCompleted b.workers
unfolding initial Stage AtLeast
run_turns_ends fates ts all rounds =
    let b : Bench = initial fates in
    let come : HasCome 0 b = record {
      fine = record {
        calm = refl;
        succeed = fresh-AllSucceed fates all;
        ready = sym (count_prepared-fresh fates);
        finished = sym (count_passed-fresh fates);
        main = (refl, refl);
      };
      stage = λ j. omega arith;
    } in
    let last =
      rounds-HasCome 0 6 ts b refl come
        (subst (λ n. HasRounds 6 n ts) (sym (length-fresh fates)) rounds) in
    let end : Bench = run_turns ts b in
    (
      released-joining end.main end.gates last.fine.main last.stage.1,
      rank_at-AllCompleted end.workers last.stage.0,
    )
