-- ===== src/Bench/Usage.antt =====
-- ops/mod.rs: resource usage and the rows of the measurements. `u64` subtraction saturates at 0.
pub mod Accounting
use herm_os_test.Prelude.{ℕ, ◌+◌, ◌-◌, ◌*◌, String}
use herm_os_test.Bench.Split.{saturate}

pub record UsageSnapshot : Type 0 where
  pub user_cpu_us : ℕ
  pub sys_cpu_us : ℕ
  pub minflt : ℕ
  pub majflt : ℕ
  pub nvcsw : ℕ
  pub nivcsw : ℕ

pub record UsageDelta : Type 0 where
  pub user_cpu_us : ℕ
  pub sys_cpu_us : ℕ
  pub blocked_us : ℕ
  pub minflt : ℕ
  pub majflt : ℕ
  pub nvcsw : ℕ
  pub nivcsw : ℕ

pub record Measurement : Type 0 where
  pub thread_id : ℕ
  pub iteration : ℕ
  pub instance_id : ℕ
  pub stage : String
  pub start_us : ℕ
  pub end_us : ℕ
  pub elapsed_us : ℕ
  pub usage : UsageDelta

-- `timeval`, with the seconds and the microseconds as `u64`
unfoldable pub timeval_to_micros : ℕ → ℕ → ℕ
timeval_to_micros tv_sec tv_usec = saturate (saturate (tv_sec * 1000000) + tv_usec)

unfoldable pub delta_since : UsageSnapshot → UsageSnapshot → ℕ → UsageDelta
delta_since after before elapsed_us =
    let user = after.user_cpu_us - before.user_cpu_us in
    let sys = after.sys_cpu_us - before.sys_cpu_us in
    record {
      user_cpu_us = user;
      sys_cpu_us = sys;
      blocked_us = elapsed_us - saturate (user + sys);
      minflt = after.minflt - before.minflt;
      majflt = after.majflt - before.majflt;
      nvcsw = after.nvcsw - before.nvcsw;
      nivcsw = after.nivcsw - before.nivcsw;
    }

abbrev pub zero_usage : UsageDelta
zero_usage = record {
  user_cpu_us = 0;
  sys_cpu_us = 0;
  blocked_us = 0;
  minflt = 0;
  majflt = 0;
  nvcsw = 0;
  nivcsw = 0;
}

-- the counters of the row are the ones of `usage`
unfoldable pub into_measurement : UsageDelta → ℕ → ℕ → ℕ → String → ℕ → ℕ → Measurement
into_measurement usage thread_id iteration instance_id stage start_us end_us = record {
  thread_id = thread_id;
  iteration = iteration;
  instance_id = instance_id;
  stage = stage;
  start_us = start_us;
  end_us = end_us;
  elapsed_us = end_us - start_us;
  usage = usage;
}
