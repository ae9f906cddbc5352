-- ===== src/Tests.antt =====
-- The theorems at concrete inputs: small machines that meet the hypotheses, and runs of the code.
mod AsyncRuns
mod Machine
mod BlockRuns
mod UffdRuns
mod RemoteRuns
mod PageRuns
mod HttpRuns
mod SystemRuns
mod SetupRuns
mod RestoreRuns
mod KvmRuns
mod VmmRuns
mod LifeRuns
mod ConfigRuns
mod BatchRuns
mod BenchRuns
