-- ===== src/Bench/Run/Ids.antt =====
-- Every operation is measured once, under its own instance id.
use herm_os_test.Prelude.{
  ℕ, zero, suc, ◌+◌, ◌<◌, ◌≡◌, refl, sym, ap, ◌∙◌, ◌-◌, map_err, ◌⊎◌, inl, inr, List, [], ◌∷◌, ◌++◌,
  map, ok, >>=-eq-ok, ok-injective, map_err-eq-ok, arith, min, u64_mod,
}
use herm_os_test.Bench.Split.{RunConfig, worker_count, iteration_count, iteration_offset}
use herm_os_test.Bench.Split.Partition.{
  iteration_offset-suc, iteration_offset-le, iteration_offset-last, iteration_offset-first,
}
use herm_os_test.Bench.Usage.{UsageDelta, Measurement, into_measurement}
use herm_os_test.Bench.Run.{join_error, Measured, iterate, worker, join_workers, run_external}

abbrev pub ids : List Measurement → List ℕ
ids = map (λ (m : Measurement). m.instance_id)

-- `n` numbers from `i` on
abbrev pub range : ℕ → ℕ → List ℕ
range i zero = []
range i (suc n) = i ∷ range (suc i) n

ids-append : (xs ys : List Measurement) → ids (xs ++ ys) ≡ ids xs ++ ids ys
ids-append [] ys = refl
ids-append (x ∷ xs) ys = simp (ids-append xs ys)

cons : {A : Type 0} {x y : A} {xs ys : List A} → x ≡ y → xs ≡ ys → (x ∷ xs) ≡ (y ∷ ys)
cons p q = cc

append-eq : {xs ys us vs : List ℕ} → xs ≡ us → ys ≡ vs → xs ++ ys ≡ us ++ vs
append-eq p q = cc

range-from : (i j n : ℕ) → i ≡ j → range i n ≡ range j n
range-from i j n e = ap (λ k. range k n) e

range-size : (i m n : ℕ) → m ≡ n → range i m ≡ range i n
range-size i m n e = ap (range i) e

range-append : (i j m n : ℕ) → j ≡ i + m → range i m ++ range j n ≡ range i (m + n)
range-append i j zero n e = range-from j i n (omega arith) ∙ range-size i n (zero + n) (omega arith)
range-append i j (suc m) n e =
    cons refl (range-append (suc i) j m n (omega arith))
    ∙ range-size i (suc (m + n)) (suc m + n) (omega arith)

module _ (measured : Measured) where
  iterate-ids :
      (i tid offset iter left : ℕ) (rows : List Measurement)
      → i ≡ offset + iter
      → iterate measured tid offset iter left ≡ ok rows
      → ids rows ≡ range i left
  unfolding iterate into_measurement
  iterate-ids i tid offset iter zero rows at e = ap ids (sym (ok-injective e))
  iterate-ids i tid offset iter (suc left) rows at e =
      let (m, got, next) = >>=-eq-ok (measured tid iter) _ e in
      let (rest, more, whole) = >>=-eq-ok (iterate measured tid offset (suc iter) left) _ next in
      let later = iterate-ids (suc i) tid offset (suc iter) left rest (omega arith) more in
      ap ids (sym (ok-injective whole)) ∙ cons (sym at) later

  worker-ids :
      (total workers tid : ℕ) (rows : List Measurement)
      → worker measured total workers tid ≡ ok rows
      → ids rows ≡ range (iteration_offset total workers tid) (iteration_count total workers tid)
  unfolding worker
  worker-ids total workers tid rows e =
      iterate-ids (iteration_offset total workers tid) tid (iteration_offset total workers tid) 0
        (iteration_count total workers tid) rows (omega arith) e

  join_workers-ids :
      (total workers tid left : ℕ) (rows : List Measurement)
      → total < u64_mod
      → 0 < workers
      → tid + left ≡ workers
      → join_workers measured total workers tid left ≡ ok rows
      → ids rows
        ≡ range (iteration_offset total workers tid) (total - iteration_offset total workers tid)
  unfolding join_workers
  join_workers-ids total workers tid zero rows fits some_worker at e =
      let end : iteration_offset total workers tid ≡ total =
        ap (iteration_offset total workers) (omega arith)
        ∙ iteration_offset-last total workers some_worker fits in
      ap ids (sym (ok-injective e))
      ∙ range-size (iteration_offset total workers tid) 0 _ (omega arith)
  join_workers-ids total workers tid (suc left) rows fits some_worker at e =
      let (mine, got, next) =
        >>=-eq-ok (map_err join_error (worker measured total workers tid)) _ e in
      let (rest, more, whole) =
        >>=-eq-ok (join_workers measured total workers (suc tid) left) _ next in
      let later =
        join_workers-ids total workers (suc tid) left rest fits some_worker (omega arith) more in
      let here = worker-ids total workers tid mine (map_err-eq-ok join_error _ got) in
      let after = iteration_offset-suc total workers tid some_worker (omega arith) fits in
      ap ids (sym (ok-injective whole))
      ∙ ids-append mine rest
      ∙ append-eq here later
      ∙ range-append (iteration_offset total workers tid) (iteration_offset total workers (suc tid))
          (iteration_count total workers tid) (total - iteration_offset total workers (suc tid))
          after
      ∙ range-size (iteration_offset total workers tid)
          (iteration_count total workers tid + (total - iteration_offset total workers (suc tid)))
          (total - iteration_offset total workers tid)
          (omega (
            arith,
            after,
            iteration_offset-le total workers (suc tid) some_worker (omega arith) fits,
          ))

  shared-ids :
      (total workers : ℕ) (rows : List Measurement)
      → total < u64_mod
      → (0 < workers) ⊎ ((total ≡ 0) × (workers ≡ 0))
      → join_workers measured total workers 0 workers ≡ ok rows
      → ids rows ≡ range 0 total
  unfolding join_workers
  shared-ids total workers rows fits (inl some_worker) e =
      let first = iteration_offset-first total workers some_worker fits in
      join_workers-ids total workers 0 workers rows fits some_worker (omega arith) e
      ∙ range-from (iteration_offset total workers 0) 0 (total - iteration_offset total workers 0)
          first
      ∙ range-size 0 (total - iteration_offset total workers 0) total (omega arith)
  shared-ids total workers rows fits (inr (none_asked, no_worker)) e =
      let e' : join_workers measured total 0 0 0 ≡ ok rows =
        ap (λ k. join_workers measured total k 0 k) (sym no_worker) ∙ e in
      ap ids (sym (ok-injective e')) ∙ range-size 0 0 total (omega arith)

  -- When a run of fewer than 2^64 operations and a concurrency above 0 gives its measurements,
  -- their instance ids are 0, 1, 2 and so on up to the number of operations asked for, each once
  -- and in this order, however many workers shared them.
  pub run_external-ids :
      (config : RunConfig) (rows : List Measurement)
      → config.total < u64_mod
      → 0 < config.concurrency
      → run_external measured config ≡ ok rows
      → ids rows ≡ range 0 config.total
  unfolding run_external worker_count
  run_external-ids config rows fits some_worker e =
      shared-ids config.total (min config.concurrency config.total) rows fits (ground arith) e

module _ (g : ℕ → ℕ → ℕ × ℕ × UsageDelta) where
  abbrev all_ok : Measured
  all_ok tid iter = ok (g tid iter)

  iterate-total :
      (tid offset iter left : ℕ)
      → (rows : List Measurement) × (iterate all_ok tid offset iter left ≡ ok rows)
  unfolding iterate
  iterate-total tid offset iter zero = ([], refl)
  iterate-total tid offset iter (suc left) =
      let (rows, e) = iterate-total tid offset (suc iter) left in
      let (start, end, usage) = g tid iter in
      (into_measurement usage tid iter (offset + iter) "run" start end ∷ rows, rw e)

  join_workers-total :
      (total workers tid left : ℕ)
      → (rows : List Measurement) × (join_workers all_ok total workers tid left ≡ ok rows)
  unfolding join_workers worker
  join_workers-total total workers tid zero = ([], refl)
  join_workers-total total workers tid (suc left) =
      let (mine, e) =
        iterate-total tid (iteration_offset total workers tid) 0
          (iteration_count total workers tid) in
      let (rest, e') = join_workers-total total workers (suc tid) left in
      (mine ++ rest, simp (e, e'))

  -- A run of fewer than 2^64 operations, with a concurrency above 0, in which every measured
  -- operation succeeds gives its measurements, with the instance ids 0, 1, 2 and so on, one for
  -- each operation asked for.
  pub run_external_total :
      (config : RunConfig)
      → config.total < u64_mod
      → 0 < config.concurrency
      → (rows : List Measurement) × (run_external (λ tid iter. ok (g tid iter)) config ≡ ok rows)
        × (ids rows ≡ range 0 config.total)
  unfolding run_external worker_count
  run_external_total config fits some_worker =
      let workers = min config.concurrency config.total in
      let (rows, e) = join_workers-total config.total workers 0 workers in
      (rows, e, run_external-ids all_ok config rows fits some_worker e)
