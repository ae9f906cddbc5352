-- ===== src/Vmm.antt =====
-- The patched `Vmm` (firecracker-build/fc-change-set/src/vmm/src/lib.rs).
pub mod Vcpus
pub mod Exit
pub mod Life
pub mod Config
pub mod Filter
