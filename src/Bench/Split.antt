-- ===== src/Bench/Split.antt =====
-- ops/mod.rs: how `total` operations are shared among the workers. `usize` is 64 bits wide.
pub mod Partition
use herm_os_test.Prelude.{ℕ, ◌+◌, ◌*◌, ◌/◌, ◌%◌, min, Bool, ltb, if◌then◌else◌, u64_mod, ◌-◌}

pub record RunConfig : Type 0 where
  pub total : ℕ
  pub concurrency : ℕ
  pub measure_per_op_usage : Bool

-- `saturating_add` and `saturating_mul`
abbrev pub saturate : ℕ → ℕ
saturate n = min n (u64_mod - 1)

unfoldable pub worker_count : RunConfig → ℕ
worker_count config = min config.concurrency config.total

unfoldable pub iteration_count : ℕ → ℕ → ℕ → ℕ
iteration_count total workers tid = total / workers + (if ltb tid (total % workers) then 1 else 0)

unfoldable pub iteration_offset : ℕ → ℕ → ℕ → ℕ
iteration_offset total workers tid =
    saturate (saturate (tid * (total / workers)) + min tid (total % workers))
