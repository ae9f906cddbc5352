-- ===== src/Restore/Common.antt =====
-- vm_restore/restore_common.rs with snapshot_load.rs: how a VM is built from a snapshot, and
-- `restore_devices_for_benchmark` of vmm/src/lib.rs. KVM and the crates are a parameter. What the drop
-- of a VM or of a file releases is left out.
pub mod Calls
pub mod Order
use herm_os_test.Prelude.{
  ℕ, Bool, true, false, List, [], ◌∷◌, Option, none, some, Outcome, ok, err, map_err, if◌then◌else◌,
  ltb, Text, codes, u64_mod, length, ◌*◌, ◌/◌, ◌+◌, ◌%◌, map,
}
use herm_os_test.Vmm.Filter.{
  BenchmarkDeviceRestoreKind, all, DeviceKinds, DeviceStates, benchmark_filter_mmio_state,
}
use herm_os_test.Restore.Kvm.{
  StepError, snapshot_open, snapshot_load, memory_open, memory_restore, kvm_new, vm_new,
  create_vcpus_failed, memory_regions_failed, tsc_check_failed, set_tsc_failed, vcpu_restore_failed,
  vm_restore_failed, event_manager_failed, build_failed, device_restore_failed, mmio_restore_failed,
  sanity_check_failed, vcpu_count_exceeds, mem_size_exceeds, restore_vcpu_states_failed, VmInfo,
  VmResources, KvmHost,
}

abbrev pub snapshot_path : Text
snapshot_path = codes "snapshots/agent_snapshot_file"

abbrev pub mem_file_path : Text
mem_file_path = codes "snapshots/agent_mem_file"

module _ {World : Type 0} (k : KvmHost World) where
  open k use {
    CallError, Caps, Kvm, Vm, Vcpu, EventFd, EventManager, GuestMemory, MemoryState, VcpuState,
    MicrovmState, Vmm, Template, HugePages, BootSource, vm_info, vcpu_states, kvm_cap_modifiers,
    vm_state, memory, mmio_state, tsc_khz, open_file, load, snapshot_file, new_kvm, new_vm,
    create_vcpus, restore_memory_regions, is_tsc_scaling_required, set_tsc_khz, restore_vcpu,
    restore_vm, new_event_manager, build_microvm, restore_devices, restore_mmio, sanity_check,
  }

  abbrev pub Step : Type 0 → Type 0
  Step A = Outcome (StepError CallError) A × World

  -- `.map_err(...)?`, with the rest of the function
  abbrev pub call :
      {A B : Type 0}
      → (CallError → StepError CallError)
      → Outcome CallError A × World
      → (A → World → Step B)
      → Step B
  call f (err e, w) rest = (err (f e), w)
  call f (ok a, w) rest = rest a w

  -- `?`
  abbrev pub after : {A B : Type 0} → Step A → (A → World → Step B) → Step B
  after (err e, w) rest = (err e, w)
  after (ok a, w) rest = rest a w

  abbrev pub done : {A : Type 0} → A → World → Step A
  done a w = (ok a, w)

  unfoldable pub load_microvm_state : World → Step MicrovmState
  load_microvm_state w =
      call snapshot_open (open_file snapshot_path w) λ file w. call snapshot_load (load file w) done

  unfoldable pub guest_memory_from_file : MemoryState → World → Step GuestMemory
  guest_memory_from_file m w =
      call memory_open (open_file mem_file_path w)
        λ file w. call memory_restore (snapshot_file file m false w) done

  unfoldable pub build_kvm : Caps → World → Step Kvm
  build_kvm caps w = call kvm_new (new_kvm caps w) done

  unfoldable pub build_vm : Caps → World → Step Vm
  unfolding build_kvm
  build_vm caps w = after (build_kvm caps w) λ kvm w. call vm_new (new_vm kvm w) done

  -- `u8::try_from`
  unfoldable pub vcpu_count : MicrovmState → Outcome (StepError CallError) ℕ
  vcpu_count s =
      if ltb (length (vcpu_states s)) 256
      then ok (length (vcpu_states s))
      else err (vcpu_count_exceeds (length (vcpu_states s)))

  abbrev pub Resources : Type 0
  Resources = VmResources Template HugePages BootSource

  abbrev pub resources_of :
      ℕ → VmInfo Template HugePages BootSource → Outcome (StepError CallError) Resources
  resources_of count info =
      if ltb info.mem_size_mib u64_mod
      then ok (record {
        vcpu_count = count;
        mem_size_mib = info.mem_size_mib;
        smt = info.smt;
        cpu_template = some info.cpu_template;
        huge_pages = info.huge_pages;
        boot_source = info.boot_source;
      })
      else err (mem_size_exceeds info.mem_size_mib)

  unfoldable pub vm_resources_from_state : MicrovmState → Outcome (StepError CallError) Resources
  unfolding vcpu_count
  vm_resources_from_state s = elim (vcpu_count s) [
    | ok count ↦ resources_of count (vm_info s)
    | err e ↦ err e
  ]

  unfoldable pub build_paused_vmm_from_snapshot :
      MicrovmState → GuestMemory → World → Step (Vmm × EventManager)
  unfolding vm_resources_from_state
  build_paused_vmm_from_snapshot s m w =
      call event_manager_failed (new_event_manager w) λ manager w.
        after (vm_resources_from_state s, w)
          λ resources w.
            call build_failed (build_microvm manager s m resources w)
              λ vmm w. (ok (vmm, manager), w)

  -- the frequency of the first state, if there is one
  abbrev pub first_tsc : List VcpuState → Option ℕ
  first_tsc [] = none
  first_tsc (s ∷ states) = tsc_khz s

  unfoldable pub set_all_tsc : ℕ → List Vcpu → World → Step (Unit {0})
  set_all_tsc khz [] w = (ok tt, w)
  set_all_tsc khz (v ∷ vcpus) w =
      call set_tsc_failed (set_tsc_khz v khz w) λ _. set_all_tsc khz vcpus

  abbrev pub scale_tsc : Option ℕ → List Vcpu → World → Step (Unit {0})
  scale_tsc none vcpus w = (ok tt, w)
  scale_tsc (some khz) [] w = (ok tt, w)
  scale_tsc (some khz) (v ∷ vcpus) w =
      call tsc_check_failed (is_tsc_scaling_required v khz w)
        λ required w. if required then set_all_tsc khz (v ∷ vcpus) w else (ok tt, w)

  -- the loop over the vCPUs with their states, as long as there are both
  unfoldable pub restore_each : List Vcpu → List VcpuState → World → Step (Unit {0})
  restore_each [] states w = (ok tt, w)
  restore_each (v ∷ vcpus) [] w = (ok tt, w)
  restore_each (v ∷ vcpus) (s ∷ states) w =
      call vcpu_restore_failed (restore_vcpu v s w) λ _. restore_each vcpus states

  -- `restore_vcpu_states` on x86_64
  unfoldable pub restore_vcpu_states : List Vcpu → MicrovmState → World → Step (Unit {0})
  unfolding set_all_tsc restore_each
  restore_vcpu_states vcpus s w =
      after (scale_tsc (first_tsc (vcpu_states s)) vcpus w) λ _. restore_each vcpus (vcpu_states s)

  pub record DeviceRestoreContext : Type 0 where
    pub vm : Vm
    pub vcpus_exit_evt : EventFd
    pub microvm_state : MicrovmState
    pub vm_resources : Resources
    pub event_manager : EventManager

  -- the wrapping of the error of `restore_vcpu_states`
  abbrev pub wrapped : {A : Type 0} → Step A → Step A
  wrapped (err e, w) = (err (restore_vcpu_states_failed e), w)
  wrapped (ok a, w) = (ok a, w)

  -- the fields, in their order in the literal
  abbrev pub context_of : MicrovmState → Vm → EventFd → World → Step DeviceRestoreContext
  context_of s vm exit_evt w =
      after (vm_resources_from_state s, w)
        λ resources w. call event_manager_failed (new_event_manager w) λ manager w. (
          ok (record {
            vm = vm;
            vcpus_exit_evt = exit_evt;
            microvm_state = s;
            vm_resources = resources;
            event_manager = manager;
          }),
          w,
        )

  abbrev pub fill_vm :
      MicrovmState → GuestMemory → Vm → List Vcpu × EventFd → World → Step DeviceRestoreContext
  fill_vm s m vm made w =
      call memory_regions_failed (restore_memory_regions vm m (memory (vm_state s)) w) λ _ w.
        after (wrapped (restore_vcpu_states made.0 s w))
          λ _ w. call vm_restore_failed (restore_vm vm (vm_state s) w) λ _. context_of s vm made.1

  -- on x86_64
  unfoldable pub build_device_restore_context :
      MicrovmState → GuestMemory → World → Step DeviceRestoreContext
  unfolding build_vm vcpu_count vm_resources_from_state restore_vcpu_states
  build_device_restore_context s m w = after (build_vm (kvm_cap_modifiers s) w) λ vm w.
      after (vcpu_count s, w)
        λ count w. call create_vcpus_failed (create_vcpus vm count w) (fill_vm s m vm)

  -- `restore_devices_for_benchmark`, in vmm/src/lib.rs
  unfoldable pub restore_devices_for_benchmark :
      DeviceRestoreContext → BenchmarkDeviceRestoreKind → World → Step (Unit {0})
  unfolding benchmark_filter_mmio_state
  restore_devices_for_benchmark c all w =
      call device_restore_failed (restore_devices c.vm c.vcpus_exit_evt c.microvm_state w) done
  restore_devices_for_benchmark c kind w =
      call mmio_restore_failed
        (restore_mmio c.vm (benchmark_filter_mmio_state k.kinds (mmio_state c.microvm_state) kind)
          w)
        done

  -- snapshot_load.rs: `run`
  unfoldable pub snapshot_run : World → Step (Unit {0})
  unfolding load_microvm_state
  snapshot_run w =
      after (load_microvm_state w) λ s w. call sanity_check_failed (sanity_check s w) done
