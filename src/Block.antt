-- ===== src/Block.antt =====
-- The virtio block device of the patched Firecracker tree
-- (firecracker-build/fc-change-set/src/vmm/src/devices/virtio/block/virtio).
pub mod Types
pub mod Host
pub mod Parse
pub mod Finish
pub mod Trace
pub mod Process
pub mod Queue
pub mod Device
pub mod Disk
pub mod ConfigSpace
pub mod DriveConfig
pub mod Setup
