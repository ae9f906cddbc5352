-- ===== src/Netns/Batches.antt =====
-- netns/step_shell.rs: the batches of threads. What a thread ends with is a parameter, `M` is what it
-- measures; Netns/Shell has the thread itself.
pub mod Rows
use herm_os_test.Prelude.{
  ℕ, zero, suc, ◌+◌, ◌-◌, min, List, [], ◌++◌, Outcome, ok, err, ◌>>=◌, ltb, if◌then◌else◌, Run,
  returned, out_of_fuel,
}

module _ {E M : Type 0} (thread : ℕ → ℕ → Outcome E (List M)) where
  -- the threads of one batch are joined in their order, and the first error ends the joining
  unfoldable pub join_batch : ℕ → ℕ → ℕ → Outcome E (List M)
  join_batch zero tid next_seq = ok []
  join_batch (suc k) tid next_seq = thread tid (next_seq + tid) >>= λ rows.
      join_batch k (suc tid) next_seq >>= λ more. ok (rows ++ more)

  abbrev pub with_batch :
      (List M → Run (Outcome E (List M))) → List M → Outcome E (List M) → Run (Outcome E (List M))
  with_batch go_on all_results (err e) = returned (err e)
  with_batch go_on all_results (ok rows) = go_on (all_results ++ rows)

  -- the `while` loop
  unfoldable pub run_batches : ℕ → ℕ → ℕ → ℕ → List M → Run (Outcome E (List M))
  unfolding join_batch
  run_batches zero concurrency total next_seq all_results = out_of_fuel
  run_batches (suc fuel) concurrency total next_seq all_results =
      let batch_size = min concurrency (total - next_seq) in
      let joined =
        with_batch (run_batches fuel concurrency total (next_seq + batch_size)) all_results
          (join_batch batch_size 0 next_seq) in
      if ltb next_seq total then joined else returned (ok all_results)
