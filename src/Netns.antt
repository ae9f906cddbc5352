-- ===== src/Netns.antt =====
-- The network namespaces of the benchmark (restore-motivation/src/ops/netns/).
pub mod Instance
pub mod Command
pub mod Spec
pub mod Vm
pub mod Shell
pub mod Batches
