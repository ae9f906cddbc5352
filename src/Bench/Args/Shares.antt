-- ===== src/Bench/Args/Shares.antt =====
-- What `parse_args` accepts gives every worker something to do.
use mathlib.Core.Path.{subst}
use native.Mathlib.Nat.{lt-div-mul-add}
use herm_os_test.Prelude.{
  ℕ, ◌*◌, ◌/◌, ◌≤◌, ◌<◌, ◌≡◌, refl, sym, ap, ◌∙◌, inl, inr, min, Bool, false, Bool-cases, ◌||◌,
  List, Option, none, some, ◌==◌, returned, returned-injective, bind_run-returned, Text, arith,
}
use herm_os_test.Bench.Split.{RunConfig, worker_count, iteration_count}
use herm_os_test.Bench.Args.{
  Parsed, parse_loop, no_args, checked, concurrency_or, complete, finish_args, parse_args,
}

-- at least one worker, and no more than there are operations
abbrev pub IsRunnable : RunConfig → Type 0
IsRunnable c = (0 < c.concurrency) × (c.concurrency ≤ c.total)

checked-IsRunnable :
    (op : Text) (total concurrency : ℕ) (measure : Bool) (r : Text × RunConfig)
    → checked op total concurrency measure ≡ some r
    → IsRunnable r.1
checked-IsRunnable op total concurrency measure r e =
    elim (Bool-cases (total == 0 || concurrency == 0)) [
      | inl none_left ↦ absurd (ground (arith, none_left, e))
      | inr some_left ↦ runs (same some_left)
    ]
  where
    kept : Text × RunConfig
    kept = (
      op,
      record { total = total; concurrency = min concurrency total; measure_per_op_usage = measure },
    )

    same : (total == 0 || concurrency == 0) ≡ false → (kept ≡ r) × (0 < total) × (0 < concurrency)
    same h =
        let whole : checked op total concurrency measure ≡ some kept = rw (checked, h) refl in
        (some_inj (sym whole ∙ e), ground (arith, h), ground (arith, h))
      where
        some_inj : some kept ≡ some r → kept ≡ r
        some_inj x = cc

    runs : (kept ≡ r) × (0 < total) × (0 < concurrency) → IsRunnable r.1
    runs (is, t, c) = subst (λ x. IsRunnable x.1) is (omega arith, omega arith)

complete-IsRunnable :
    (op : Option Text) (total : Option ℕ) (p : Parsed) (r : Text × RunConfig)
    → complete op total p ≡ some r
    → IsRunnable r.1
complete-IsRunnable none total p r e = absurd (ground (arith, e))
complete-IsRunnable (some op) none p r e = absurd (ground (arith, e))
complete-IsRunnable (some op) (some total) p r e =
    checked-IsRunnable op total (concurrency_or total p.concurrency) p.measure_per_op_usage r e

finish_args-IsRunnable :
    (p : Option Parsed) (r : Text × RunConfig) → finish_args p ≡ some r → IsRunnable r.1
finish_args-IsRunnable none r e = absurd (ground (arith, e))
finish_args-IsRunnable (some p) r e = complete-IsRunnable p.op p.total p r e

one_each : (total workers : ℕ) → 0 < workers → workers ≤ total → 0 < total / workers
one_each total workers some_worker h = elim (Bool-cases (total / workers == 0)) [
  | inl none_each ↦
      let zero_each : total / workers ≡ 0 = ground (arith, none_each) in
      let near = lt-div-mul-add {a = total} {b = workers} some_worker in
      absurd (omega (arith, near, ap (λ i. i * workers) zero_each, h))
  | inr each ↦ ground (arith, each)
]

-- Arguments that `parse_args` accepts give at least one worker, as many as the concurrency that it
-- returns, which is at most the number of operations; and each worker has at least one operation.
pub parse_args-shares :
    (args : List Text) (op : Text) (c : RunConfig) (tid : ℕ)
    → parse_args args ≡ returned (some (op, c))
    → IsRunnable c
      × (worker_count c ≡ c.concurrency)
      × (0 < iteration_count c.total (worker_count c) tid)
unfolding parse_args worker_count iteration_count
parse_args-shares args op c tid e =
    let (p, ran, done) = bind_run-returned (parse_loop args no_args) _ e in
    let (some_worker, few) = finish_args-IsRunnable p (op, c) (returned-injective done) in
    let count : worker_count c ≡ c.concurrency = omega (arith, few) in
    let each = one_each c.total c.concurrency some_worker few in
    let same : c.total / worker_count c ≡ c.total / c.concurrency = ap (λ i. c.total / i) count in
    ((some_worker, few), count, omega (arith, same, each))
