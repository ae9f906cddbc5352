-- ===== src/Restore/Kvm.antt =====
-- What vm_restore calls of KVM, of the files and of the Firecracker crates, and its errors.
use herm_os_test.Prelude.{ℕ, Bool, List, Option, Outcome, Text}
use herm_os_test.Vmm.Filter.{DeviceKinds, DeviceStates}

-- an error by the step that failed
pub data StepError (E : Type 0) : Type 0 where
  snapshot_open snapshot_load memory_open memory_restore kvm_new vm_new : E → StepError E
  create_vcpus_failed memory_regions_failed tsc_check_failed set_tsc_failed : E → StepError E
  vcpu_restore_failed vm_restore_failed event_manager_failed build_failed : E → StepError E
  device_restore_failed mmio_restore_failed sanity_check_failed : E → StepError E
  vcpu_count_exceeds mem_size_exceeds : ℕ → StepError E
  restore_vcpu_states_failed : StepError E → StepError E

-- the fields of `MicrovmState::vm_info` that are read
pub record VmInfo (Template HugePages BootSource : Type 0) : Type 0 where
  pub mem_size_mib : ℕ
  pub smt : Bool
  pub cpu_template : Template
  pub huge_pages : HugePages
  pub boot_source : BootSource

-- the fields of `VmResources` that are set; the others have their defaults
pub record VmResources (Template HugePages BootSource : Type 0) : Type 0 where
  pub vcpu_count : ℕ
  pub mem_size_mib : ℕ
  pub smt : Bool
  pub cpu_template : Option Template
  pub huge_pages : HugePages
  pub boot_source : BootSource

-- KVM, the files and the crates. A VM and a vCPU are handles, whose state is in the world; the fields of
-- `MicrovmState` are functions of it.
pub record KvmHost (World : Type 0) : Type 1 where
  pub CallError : Type 0
  pub File : Type 0
  pub Caps : Type 0
  pub Kvm : Type 0
  pub Vm : Type 0
  pub Vcpu : Type 0
  pub EventFd : Type 0
  pub EventManager : Type 0
  pub GuestMemory : Type 0
  pub MemoryState : Type 0
  pub VmState : Type 0
  pub VcpuState : Type 0
  pub MicrovmState : Type 0
  pub Vmm : Type 0
  pub Template : Type 0
  pub HugePages : Type 0
  pub BootSource : Type 0
  pub kinds : DeviceKinds
  pub vm_info : MicrovmState → VmInfo Template HugePages BootSource
  pub vcpu_states : MicrovmState → List VcpuState
  pub kvm_cap_modifiers : MicrovmState → Caps
  pub vm_state : MicrovmState → VmState
  pub memory : VmState → MemoryState
  pub mmio_state : MicrovmState → DeviceStates kinds
  pub tsc_khz : VcpuState → Option ℕ
  pub open_file : Text → World → Outcome CallError File × World
  pub load : File → World → Outcome CallError MicrovmState × World
  pub snapshot_file : File → MemoryState → Bool → World → Outcome CallError GuestMemory × World
  pub new_kvm : Caps → World → Outcome CallError Kvm × World
  pub new_vm : Kvm → World → Outcome CallError Vm × World
  pub create_vcpus : Vm → ℕ → World → Outcome CallError (List Vcpu × EventFd) × World
  pub restore_memory_regions :
      Vm → GuestMemory → MemoryState → World → Outcome CallError (Unit {0}) × World
  pub is_tsc_scaling_required : Vcpu → ℕ → World → Outcome CallError Bool × World
  pub set_tsc_khz : Vcpu → ℕ → World → Outcome CallError (Unit {0}) × World
  pub restore_vcpu : Vcpu → VcpuState → World → Outcome CallError (Unit {0}) × World
  pub restore_vm : Vm → VmState → World → Outcome CallError (Unit {0}) × World
  pub new_event_manager : World → Outcome CallError EventManager × World
  pub build_microvm :
      EventManager
      → MicrovmState
      → GuestMemory
      → VmResources Template HugePages BootSource
      → World
      → Outcome CallError Vmm × World
  pub restore_devices : Vm → EventFd → MicrovmState → World → Outcome CallError (Unit {0}) × World
  pub restore_mmio : Vm → DeviceStates kinds → World → Outcome CallError (Unit {0}) × World
  pub sanity_check : MicrovmState → World → Outcome CallError (Unit {0}) × World
