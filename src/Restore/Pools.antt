-- ===== src/Restore/Pools.antt =====
-- vm_restore/restore_vcpu_states.rs, restore_state.rs, restore_memory_regions.rs, create_vcpus.rs,
-- vm_new.rs and restore_kvm.rs, guest_memory.rs, and `prepare_kind` of device_restore.rs: contexts are
-- prepared before the measurement, and each run of the closure uses the next one.
pub mod Drained
pub mod Memory
use herm_os_test.Prelude.{
  ℕ, zero, suc, List, [], ◌∷◌, ◌++◌, Option, none, some, Outcome, ok, err, map_err,
}
use herm_os_test.Vmm.Filter.{BenchmarkDeviceRestoreKind}
use herm_os_test.Restore.Kvm.{
  StepError, KvmHost, create_vcpus_failed, memory_regions_failed, vm_restore_failed, vm_new,
  kvm_new, restore_vcpu_states_failed,
}
use herm_os_test.Restore.Common.{
  Step, call, after, done, wrapped, load_microvm_state, guest_memory_from_file, build_kvm, build_vm,
  vcpu_count, restore_vcpu_states, DeviceRestoreContext, build_device_restore_context,
  restore_devices_for_benchmark,
}

pub data PoolError (E : Type 0) : Type 0 where
  step_failed : StepError E → PoolError E
  no_context_left missing_guest_memory : PoolError E

-- the contexts left, and those that were used
pub record Deque (C : Type 0) : Type 0 where
  pub contexts : List C
  pub completed : List C

module _ {World : Type 0} (k : KvmHost World) where
  open k use {
    CallError, Caps, Kvm, Vm, Vcpu, GuestMemory, MemoryState, VmState, MicrovmState,
    kvm_cap_modifiers, vm_state, memory, new_kvm, new_vm, create_vcpus, restore_memory_regions,
    restore_vm,
  }

  -- the `for` loop that prepares the contexts
  unfoldable pub prepare_contexts :
      {C : Type 0} → (World → Step k C) → ℕ → List C → World → Step k (List C)
  prepare_contexts make zero contexts w = (ok contexts, w)
  prepare_contexts make (suc i) contexts w =
      after k (make w) λ c. prepare_contexts make i (contexts ++ (c ∷ []))

  abbrev pub Ran : Type 0 → Type 0
  Ran C = Outcome (PoolError CallError) (Unit {0}) × World × C

  -- a result of an operation that does not change its context
  abbrev pub ran : {C : Type 0} → C → Step k (Unit {0}) → Ran C
  ran c (o, w) = (map_err step_failed o, w, c)

  -- one run of the closure: the first context is used, and kept among the completed ones
  unfoldable pub run_next : {C : Type 0} → (C → World → Ran C) → Deque C → World → Ran (Deque C)
  run_next act p w = elim p.contexts [
    | [] ↦ (err no_context_left, w, p)
    | c ∷ contexts ↦
        let (o, w', used) = act c w in
        (o, w', record { contexts = contexts; completed = p.completed ++ (used ∷ []) })
  ]

  -- the contexts of vm_new.rs and create_vcpus.rs are dropped after their use
  unfoldable pub run_dropping :
      {C : Type 0} → (C → World → Step k (Unit {0})) → List C → World → Ran (List C)
  run_dropping act [] w = (err no_context_left, w, [])
  run_dropping act (c ∷ contexts) w = ran contexts (act c w)

  pub record VcpuContext : Type 0 where
    pub vm : Vm
    pub vcpus : List Vcpu
    pub microvm_state : MicrovmState

  -- from the building of the VM on
  abbrev pub filled_vm : MicrovmState → GuestMemory → ℕ → World → Step k VcpuContext
  filled_vm s m count w = after k (build_vm k (kvm_cap_modifiers s) w) λ vm w.
      call k create_vcpus_failed (create_vcpus vm count w) λ made w.
        call k memory_regions_failed (restore_memory_regions vm m (memory (vm_state s)) w)
          λ _ w. (ok (record { vm = vm; vcpus = made.0; microvm_state = s }), w)

  -- restore_vcpu_states.rs: one context, and the run
  unfoldable pub vcpu_context : World → Step k VcpuContext
  unfolding load_microvm_state vcpu_count guest_memory_from_file build_vm
  vcpu_context w = after k (load_microvm_state k w) λ s w.
      after k (vcpu_count k s, w)
        λ count w.
          after k (guest_memory_from_file k (memory (vm_state s)) w) λ m. filled_vm s m count

  unfoldable pub run_vcpu_states : Deque VcpuContext → World → Ran (Deque VcpuContext)
  unfolding run_next restore_vcpu_states
  run_vcpu_states = run_next λ c w. ran c (restore_vcpu_states k c.vcpus c.microvm_state w)

  -- restore_state.rs, on x86_64
  pub record StateContext : Type 0 where
    pub vm : Vm
    pub state : VmState

  unfoldable pub state_context : World → Step k StateContext
  unfolding vcpu_context restore_vcpu_states
  state_context w = after k (vcpu_context w) λ c w.
      after k (wrapped k (restore_vcpu_states k c.vcpus c.microvm_state w))
        λ _ w. (ok (record { vm = c.vm; state = vm_state c.microvm_state }), w)

  abbrev pub restore_vm_state : StateContext → World → Step k (Unit {0})
  restore_vm_state c w = call k vm_restore_failed (restore_vm c.vm c.state w) (done k)

  unfoldable pub run_vm_state : Deque StateContext → World → Ran (Deque StateContext)
  unfolding run_next
  run_vm_state = run_next λ c w. ran c (restore_vm_state c w)

  -- restore_memory_regions.rs: the snapshot is loaded once, and a run takes the memory out of the context
  pub record RegionsContext : Type 0 where
    pub vm : Vm
    pub guest_memory : Option GuestMemory
    pub mem_state : MemoryState

  unfoldable pub regions_context : MicrovmState → World → Step k RegionsContext
  unfolding build_vm guest_memory_from_file
  regions_context s w = after k (build_vm k (kvm_cap_modifiers s) w) λ vm w.
      after k (guest_memory_from_file k (memory (vm_state s)) w)
        λ m w. (ok (record { vm = vm; guest_memory = some m; mem_state = memory (vm_state s) }), w)

  unfoldable pub prepare_regions : ℕ → World → Step k (List RegionsContext)
  unfolding load_microvm_state regions_context prepare_contexts
  prepare_regions iterations w =
      after k (load_microvm_state k w) λ s. prepare_contexts (regions_context s) iterations []

  -- A context without its memory is dropped, and is not completed.
  abbrev pub regions_taken :
      RegionsContext
      → List RegionsContext
      → List RegionsContext
      → Option GuestMemory
      → World
      → Ran (Deque RegionsContext)
  regions_taken c contexts completed none w =
      (err missing_guest_memory, w, record { contexts = contexts; completed = completed })
  regions_taken c contexts completed (some m) w =
      ran
        (record {
          contexts = contexts;
          completed = completed ++ (record c { guest_memory = none } ∷ []);
        })
        (call k memory_regions_failed (restore_memory_regions c.vm m c.mem_state w) (done k))

  unfoldable pub run_regions : Deque RegionsContext → World → Ran (Deque RegionsContext)
  run_regions p w = elim p.contexts [
    | [] ↦ (err no_context_left, w, p)
    | c ∷ contexts ↦ regions_taken c contexts p.completed c.guest_memory w
  ]

  -- create_vcpus.rs
  unfoldable pub prepare_create_vcpus : ℕ → World → Step k (ℕ × List Vm)
  unfolding load_microvm_state vcpu_count build_vm prepare_contexts
  prepare_create_vcpus iterations w = after k (load_microvm_state k w) λ s w.
      after k (vcpu_count k s, w)
        λ count w.
          after k (prepare_contexts (build_vm k (kvm_cap_modifiers s)) iterations [] w)
            λ vms w. (ok (count, vms), w)

  unfoldable pub run_create_vcpus : ℕ → List Vm → World → Ran (List Vm)
  unfolding run_dropping
  run_create_vcpus count =
      run_dropping λ vm w. call k create_vcpus_failed (create_vcpus vm count w) λ _ w. (ok tt, w)

  -- vm_new.rs
  unfoldable pub prepare_vm_new : ℕ → World → Step k (List Kvm)
  unfolding load_microvm_state build_kvm prepare_contexts
  prepare_vm_new iterations w =
      after k (load_microvm_state k w)
        λ s. prepare_contexts (build_kvm k (kvm_cap_modifiers s)) iterations []

  unfoldable pub run_vm_new : List Kvm → World → Ran (List Kvm)
  unfolding run_dropping
  run_vm_new = run_dropping λ kvm w. call k vm_new (new_vm kvm w) λ _ w. (ok tt, w)

  -- restore_kvm.rs and guest_memory.rs have no pool: a run is the call itself
  unfoldable pub run_kvm : Caps → World → Step k (Unit {0})
  run_kvm caps w = call k kvm_new (new_kvm caps w) λ _ w. (ok tt, w)

  unfoldable pub run_guest_memory : MicrovmState → World → Step k (Unit {0})
  unfolding guest_memory_from_file
  run_guest_memory s w =
      after k (guest_memory_from_file k (memory (vm_state s)) w) λ _ w. (ok tt, w)

  -- `prepare_kind`
  unfoldable pub device_context : World → Step k (DeviceRestoreContext k)
  unfolding load_microvm_state guest_memory_from_file build_device_restore_context
  device_context w = after k (load_microvm_state k w) λ s w.
      after k (guest_memory_from_file k (memory (vm_state s)) w)
        λ m. build_device_restore_context k s m

  unfoldable pub run_kind :
      BenchmarkDeviceRestoreKind
      → Deque (DeviceRestoreContext k)
      → World
      → Ran (Deque (DeviceRestoreContext k))
  unfolding run_next restore_devices_for_benchmark
  run_kind kind = run_next λ c w. ran c (restore_devices_for_benchmark k c kind w)
