-- ===== src/Bench.antt =====
-- The benchmark runner (restore-motivation/src/ops/mod.rs).
pub mod Split
pub mod Usage
pub mod Run
pub mod Gates
pub mod Ops
pub mod Args
