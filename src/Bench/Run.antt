-- ===== src/Bench/Run.antt =====
-- ops/mod.rs: `run_external`, with the rows of every worker joined in the order of the workers.
-- `measured tid iter` is what the measured operation gave in worker `tid` at its iteration `iter`.
pub mod Ids
use herm_os_test.Prelude.{
  ℕ, zero, suc, ◌+◌, ◌-◌, List, [], ◌∷◌, ◌++◌, String, Outcome, ok, err, ◌>>=◌, map_err,
}
use herm_os_test.Bench.Split.{RunConfig, worker_count, iteration_count, iteration_offset}
use herm_os_test.Bench.Usage.{UsageDelta, Measurement, into_measurement}

-- how a worker thread can end early: the operation's own error, or a panic
pub data Stop : Type 0 where
  failed : String → Stop
  thread_panicked : Stop

abbrev pub join_error : Stop → String
join_error (failed e) = e
join_error thread_panicked = "worker thread panicked"

-- what `measure_operation` gave: the start, the end and the usage
abbrev pub Measured : Type 0
Measured = ℕ → ℕ → Outcome Stop (ℕ × ℕ × UsageDelta)

module _ (measured : Measured) where
  -- the loop `for iter in 0..count`, from `iter` on with `left` iterations to go
  unfoldable pub iterate : ℕ → ℕ → ℕ → ℕ → Outcome Stop (List Measurement)
  iterate tid offset iter zero = ok []
  iterate tid offset iter (suc left) = measured tid iter >>= λ m.
      iterate tid offset (suc iter) left >>= λ rows.
      ok (into_measurement m.2 tid iter (offset + iter) "run" m.0 m.1 ∷ rows)

  -- the body of a worker thread, once the run has started
  unfoldable pub worker : ℕ → ℕ → ℕ → Outcome Stop (List Measurement)
  worker total workers tid =
      iterate tid (iteration_offset total workers tid) 0 (iteration_count total workers tid)

  -- `handle.join()` of the workers from `tid` on, `left` of them
  unfoldable pub join_workers : ℕ → ℕ → ℕ → ℕ → Outcome String (List Measurement)
  join_workers total workers tid zero = ok []
  join_workers total workers tid (suc left) =
      map_err join_error (worker total workers tid) >>= λ thread_results.
      join_workers total workers (suc tid) left >>= λ rest. ok (thread_results ++ rest)

  -- the measurements of `run_external`
  unfoldable pub run_external : RunConfig → Outcome String (List Measurement)
  run_external config =
      let workers = worker_count config in join_workers config.total workers 0 workers
