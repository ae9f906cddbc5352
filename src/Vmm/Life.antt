-- ===== src/Vmm/Life.antt =====
-- lib.rs: `start_vcpus`, which starts the threads of the vCPUs, `save_state`, and the drop of the Vmm,
-- which ends the threads.
pub mod Ended
use herm_os_test.Prelude.{
  ℕ, ◌+◌, List, [], ◌∷◌, ◌++◌, Outcome, ok, err, length, Run, returned, bind_run,
}
use herm_os_test.Vmm.Vcpus.{
  VcpuEvent, finish, VmState, paused_vm, VcpuHost, Vmm, CommandError, save_vcpu_states,
}

-- the terminal, the threads, the barrier and the states that are saved; `start_threaded` is given a vCPU
-- with its buses set, and `joined` is `VcpuHandle::drop`, `out_of_fuel` when the thread never ends
pub record LifeHost (v : VcpuHost) : Type 1 where
  pub Vcpu : Type 0
  pub StdinError : Type 0
  pub StartError : Type 0
  pub KvmState : Type 0
  pub VmSaved : Type 0
  pub DeviceStates : Type 0
  pub SaveError : Type 0
  pub VmInfo : Type 0
  pub set_raw_mode : v.World → Outcome StdinError (Unit {0}) × v.World
  pub set_non_block : v.World → Outcome StdinError (Unit {0}) × v.World
  pub start_threaded : Vcpu → v.World → Outcome StartError v.Handle × v.World
  pub barrier_wait : ℕ → v.World → v.World
  pub joined : v.Handle → v.World → Run v.World
  pub set_canon_mode : v.World → v.World
  pub write_metrics : v.World → v.World
  pub save_devices : v.World → DeviceStates × v.World
  pub save_kvm : v.World → KvmState × v.World
  pub save_vm : v.World → Outcome SaveError VmSaved × v.World

-- `StartVcpusError`
pub data StartVcpusError (S T : Type 0) : Type 0 where
  vmm_observer_init : S → StartVcpusError S T
  vcpu_handle : T → StartVcpusError S T

-- `MicrovmStateError`, of the vCPUs and of the VM
pub data SaveStateError (C S : Type 0) : Type 0 where
  vcpus_failed : C → SaveStateError C S
  vm_failed : S → SaveStateError C S

-- `MicrovmState`
pub record MicrovmState (v : VcpuHost) (h : LifeHost v) : Type 0 where
  pub vm_info : h.VmInfo
  pub kvm_state : h.KvmState
  pub vm_state : h.VmSaved
  pub vcpu_states : List v.Saved
  pub device_states : h.DeviceStates

module _ (v : VcpuHost) (h : LifeHost v) where
  open v use {World, Handle, send_event}
  open h use {
    Vcpu, StdinError, StartError, SaveError, VmInfo, VmSaved, DeviceStates, set_raw_mode,
    set_non_block, start_threaded, barrier_wait, joined, set_canon_mode, write_metrics,
    save_devices, save_kvm, save_vm,
  }

  abbrev pub Started : Type 0
  Started = Outcome (StartVcpusError StdinError StartError) (Unit {0}) × Vmm v

  -- the `for` loop: a handle that was started stays, also when a later vCPU fails
  unfoldable pub start_each : List Vcpu → Vmm v → Started
  start_each [] s = (ok tt, s)
  start_each (c ∷ vcpus) s =
      let (started, w) = start_threaded c s.world in
      elim started [
        | ok x ↦
            start_each vcpus (record s { vcpus_handles = s.vcpus_handles ++ (x ∷ []); world = w })
        | err e ↦ (err (vcpu_handle e), record s { world = w })
      ]

  -- once all are started: the state, then the barrier of all threads and this one
  abbrev pub all_started : ℕ → Started → Started
  all_started count (err e, s) = (err e, s)
  all_started count (ok _, s) =
      (ok tt, record s { state = paused_vm; world = barrier_wait (count + 1) s.world })

  abbrev pub after_non_block : List Vcpu → Vmm v → Outcome StdinError (Unit {0}) × World → Started
  after_non_block vcpus s (err e, w) = (err (vmm_observer_init e), record s { world = w })
  after_non_block vcpus s (ok _, w) =
      all_started (length vcpus) (start_each vcpus (record s { world = w }))

  abbrev pub after_raw_mode : List Vcpu → Vmm v → Outcome StdinError (Unit {0}) × World → Started
  after_raw_mode vcpus s (err e, w) = (err (vmm_observer_init e), record s { world = w })
  after_raw_mode vcpus s (ok _, w) = after_non_block vcpus s (set_non_block w)

  unfoldable pub start_vcpus : List Vcpu → Vmm v → Started
  unfolding start_each
  start_vcpus vcpus s = after_raw_mode vcpus s (set_raw_mode s.world)

  -- the loop of `drop`: a send that fails is only logged
  unfoldable pub finish_each : List Handle → World → World
  finish_each [] w = w
  finish_each (x ∷ handles) w = finish_each handles (send_event x finish w).1

  -- `clear()`, which drops the handles
  unfoldable pub join_each : List Handle → World → Run World
  join_each [] w = returned w
  join_each (x ∷ handles) w = bind_run (joined x w) (join_each handles)

  unfoldable pub drop_vmm : Vmm v → Run World
  unfolding finish_each join_each
  drop_vmm s =
      bind_run (join_each s.vcpus_handles (finish_each s.vcpus_handles s.world))
        λ w. returned (write_metrics (set_canon_mode w))

  abbrev pub SaveResult : Type 0
  SaveResult = Outcome (SaveStateError (CommandError v) SaveError) (MicrovmState v h) × Vmm v

  abbrev pub with_vm : VmInfo → DeviceStates → List v.Saved → Vmm v → SaveResult
  with_vm info devices states s =
      let (kvm, w) = save_kvm s.world in
      let (vm, w') = save_vm w in
      elim vm [
        | ok saved ↦ (
          ok (record {
            vm_info = info;
            kvm_state = kvm;
            vm_state = saved;
            vcpu_states = states;
            device_states = devices;
          }),
          record s { world = w' },
        )
        | err e ↦ (err (vm_failed e), record s { world = w' })
      ]

  abbrev pub with_vcpus :
      VmInfo → DeviceStates → Outcome (CommandError v) (List v.Saved) × Vmm v → SaveResult
  with_vcpus info devices (err e, s) = (err (vcpus_failed e), s)
  with_vcpus info devices (ok states, s) = with_vm info devices states s

  -- on x86_64: the devices are saved before the vCPUs, and these before the VM
  unfoldable pub save_state : VmInfo → Vmm v → SaveResult
  unfolding save_vcpu_states
  save_state info s =
      let (devices, w) = save_devices s.world in
      with_vcpus info devices (save_vcpu_states v (record s { world = w }))
