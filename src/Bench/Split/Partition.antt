-- ===== src/Bench/Split/Partition.antt =====
-- The workers share the operations without a gap or an overlap.
use native.Mathlib.Nat.{mul-le-mul_right, div-add-mod, mod-lt}
use herm_os_test.Prelude.{ℕ, suc, ◌+◌, ◌*◌, ◌/◌, ◌%◌, ◌≤◌, ◌<◌, ◌≡◌, min, u64_mod, arith}
use herm_os_test.Bench.Split.{iteration_count, iteration_offset}

offset-exact :
    (total workers tid : ℕ)
    → 0 < workers
    → tid ≤ workers
    → total < u64_mod
    → iteration_offset total workers tid ≡ tid * (total / workers) + min tid (total % workers)
unfolding iteration_offset
offset-exact total workers tid some_worker inside fits =
    let below = mul-le-mul_right (total / workers) inside in
    omega (arith, below, div-add-mod total workers)

pub iteration_offset-le :
    (total workers tid : ℕ)
    → 0 < workers
    → tid ≤ workers
    → total < u64_mod
    → iteration_offset total workers tid ≤ total
iteration_offset-le total workers tid some_worker inside fits = omega (
  arith,
  mul-le-mul_right (total / workers) inside,
  div-add-mod total workers,
  offset-exact total workers tid some_worker inside fits,
)

pub iteration_offset-last :
    (total workers : ℕ)
    → 0 < workers
    → total < u64_mod
    → iteration_offset total workers workers ≡ total
iteration_offset-last total workers some_worker fits = omega (
  arith,
  mod-lt total some_worker,
  div-add-mod total workers,
  offset-exact total workers workers some_worker (omega arith) fits,
)

pub iteration_offset-first :
    (total workers : ℕ) → 0 < workers → total < u64_mod → iteration_offset total workers 0 ≡ 0
iteration_offset-first total workers some_worker fits =
    omega (arith, offset-exact total workers 0 some_worker (omega arith) fits)

-- With fewer than 2^64 operations, the share of the worker after `tid` begins where the share of
-- worker `tid` ends: its offset is the offset of `tid` plus the count of `tid`.
pub iteration_offset-suc :
    (total workers tid : ℕ)
    → 0 < workers
    → tid < workers
    → total < u64_mod
    → iteration_offset total workers (suc tid)
      ≡ iteration_offset total workers tid + iteration_count total workers tid
unfolding iteration_count
iteration_offset-suc total workers tid some_worker inside fits =
    let base = total / workers in
    ground (
      arith,
      offset-exact total workers tid some_worker (omega arith) fits,
      offset-exact total workers (suc tid) some_worker inside fits,
    )
