-- ===== src/Uffd.antt =====
-- The userfaultfd page fault handlers
-- (firecracker-build/fc-change-set/src/firecracker/examples/uffd).
pub mod Region
pub mod Copy
pub mod Dispatch
pub mod Remote
pub mod Url
pub mod Http
pub mod Runtime
