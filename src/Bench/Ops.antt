-- ===== src/Bench/Ops.antt =====
-- ops/mod.rs: the operations by name. A function is given by its path.
pub mod Listed
use text.Mathlib.Text.{◌==◌ as str_eq}
use herm_os_test.Prelude.{Bool, List, [], ◌∷◌, Option, none, some, String, if◌then◌else◌}

pub data Op : Type 0 where
  external external_with_prepare internal : String → Op

-- the arms of the `match`, from the first
abbrev pub arms : List (String × Op)
arms =
    ("noop", external "noop::run")
    ∷ ("hash_cpu", external "hash_cpu::run")
    ∷ ("snapshot_load", external "snapshot_load::run")
    ∷ ("create_firecracker", external_with_prepare "create_firecracker::prepare")
    ∷ (
      "create_firecracker_full_netns",
      external_with_prepare "create_firecracker::prepare_full_netns",
    )
    ∷ ("guest_memory", external_with_prepare "guest_memory::prepare")
    ∷ ("kvm_create_vm", external_with_prepare "vm_restore::prepare_kvm")
    ∷ ("vm_new", external_with_prepare "vm_restore::prepare_vm_new")
    ∷ ("create_vcpus", external_with_prepare "vm_restore::prepare_create_vcpus")
    ∷ ("restore_memory_regions", external_with_prepare "vm_restore::prepare_restore_memory_regions")
    ∷ ("restore_vcpu_states", external_with_prepare "vm_restore::prepare_restore_vcpu_states")
    ∷ ("restore_state", external_with_prepare "vm_restore::prepare_restore_state")
    ∷ ("device_restore", external_with_prepare "vm_restore::prepare_device_restore")
    ∷ (
      "device_restore_full_netns",
      external_with_prepare "vm_restore::prepare_device_restore_full_netns",
    )
    ∷ ("device_restore_balloon", external_with_prepare "vm_restore::prepare_device_restore_balloon")
    ∷ ("device_restore_block", external_with_prepare "vm_restore::prepare_device_restore_block")
    ∷ ("device_restore_net", external_with_prepare "vm_restore::prepare_device_restore_net")
    ∷ (
      "device_restore_net_full_netns",
      external_with_prepare "vm_restore::prepare_device_restore_net_full_netns",
    )
    ∷ ("device_restore_vsock", external_with_prepare "vm_restore::prepare_device_restore_vsock")
    ∷ ("device_restore_entropy", external_with_prepare "vm_restore::prepare_device_restore_entropy")
    ∷ ("device_restore_pmem", external_with_prepare "vm_restore::prepare_device_restore_pmem")
    ∷ (
      "device_restore_virtio_mem",
      external_with_prepare "vm_restore::prepare_device_restore_virtio_mem",
    )
    ∷ ("kick_virtio", external_with_prepare "vm_restore::prepare_kick_virtio")
    ∷ ("kick_virtio_full_netns", external_with_prepare "vm_restore::prepare_kick_virtio_full_netns")
    ∷ ("resume_vcpus", external_with_prepare "vm_restore::prepare_resume_vcpus")
    ∷ (
      "resume_vcpus_full_netns",
      external_with_prepare "vm_restore::prepare_resume_vcpus_full_netns",
    )
    ∷ ("resume_vm", external_with_prepare "vm_restore::prepare_resume_vm")
    ∷ ("resume_vm_full_netns", external_with_prepare "vm_restore::prepare_resume_vm_full_netns")
    ∷ ("netns_full_shell", external "netns::run_full_shell")
    ∷ ("netns_step_shell", internal "netns::run_step_shell")
    ∷ []

unfoldable pub find_arm : List (String × Op) → String → Option Op
find_arm [] name = none
find_arm (arm ∷ later) name = if str_eq arm.0 name then some arm.1 else find_arm later name

unfoldable pub get_op : String → Option Op
get_op name = find_arm arms name

abbrev pub list_ops : List String
list_ops =
    "noop" ∷ "hash_cpu" ∷ "snapshot_load" ∷ "create_firecracker" ∷ "create_firecracker_full_netns"
    ∷ "guest_memory" ∷ "kvm_create_vm" ∷ "vm_new" ∷ "create_vcpus" ∷ "restore_memory_regions"
    ∷ "restore_vcpu_states" ∷ "restore_state" ∷ "device_restore" ∷ "device_restore_full_netns"
    ∷ "device_restore_balloon" ∷ "device_restore_block" ∷ "device_restore_net"
    ∷ "device_restore_net_full_netns" ∷ "device_restore_vsock" ∷ "device_restore_entropy"
    ∷ "device_restore_pmem" ∷ "device_restore_virtio_mem" ∷ "kick_virtio" ∷ "kick_virtio_full_netns"
    ∷ "resume_vcpus" ∷ "resume_vcpus_full_netns" ∷ "resume_vm" ∷ "resume_vm_full_netns"
    ∷ "netns_full_shell" ∷ "netns_step_shell" ∷ []
