-- ===== src/Bench/Usage/Accounting.antt =====
-- The parts of the elapsed time.
use herm_os_test.Prelude.{ℕ, ◌+◌, ◌-◌, ◌<◌, ◌≡◌, max, u64_mod, arith}
use herm_os_test.Bench.Usage.{UsageSnapshot, delta_since}

-- For an elapsed time that is a u64, the blocked time is what the CPU time leaves of the elapsed
-- time, and the three add up to the elapsed time or, when the CPU time is longer, to the CPU
-- time: the saturating sum loses nothing.
pub delta_since-elapsed :
    (after before : UsageSnapshot) (elapsed_us : ℕ)
    → elapsed_us < u64_mod
    → let d = delta_since after before elapsed_us in
      (d.blocked_us ≡ elapsed_us - (d.user_cpu_us + d.sys_cpu_us))
      × ((d.user_cpu_us + d.sys_cpu_us) + d.blocked_us
          ≡ max elapsed_us (d.user_cpu_us + d.sys_cpu_us))
unfolding delta_since
delta_since-elapsed after before elapsed_us fits = ground arith
