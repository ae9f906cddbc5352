-- ===== src/Restore.antt =====
-- vm_restore/resume_vcpus.rs, kick_virtio.rs and resume_vm.rs: a paused VMM is restored inside a
-- namespace, and one measured operation is done on it. The operations on the VMM are parameters here.
pub mod Prepare
pub mod Namespaces
pub mod Kvm
pub mod Common
pub mod Pools
pub mod Devices
use herm_os_test.Prelude.{
  ℕ, zero, suc, Bool, true, false, List, [], ◌∷◌, ◌++◌, Option, none, some, Outcome, ok, err,
  if◌then◌else◌, Text,
}
use herm_os_test.Netns.Command.{NetnsError, NetnsHost}
use herm_os_test.Netns.Vm.{
  VmNetnsContext, VmState, prepare_minimal, prepare_full, enter, leave, drop_context,
}

-- an error by its cause
pub data RestoreError (E : Type 0) : Type 0 where
  netns_failed : NetnsError → RestoreError E
  restore_failed : E → RestoreError E
  lock_poisoned no_context_left missing_vmm : RestoreError E
  additionally : RestoreError E → RestoreError E → RestoreError E

-- the snapshot, and the VMM that is built of it; `lock` is whether its mutex is not poisoned
pub record RestoreHost (n : NetnsHost) : Type 1 where
  pub Vmm : Type 0
  pub MicrovmState : Type 0
  pub GuestMemory : Type 0
  pub VmmError : Type 0
  pub load_microvm_state : n.World → Outcome VmmError MicrovmState × n.World
  pub guest_memory_from_file : MicrovmState → n.World → Outcome VmmError GuestMemory × n.World
  pub build_paused_vmm : MicrovmState → GuestMemory → n.World → Outcome VmmError Vmm × n.World
  pub lock : Vmm → n.World → Bool
  pub kick_for_resume : Vmm → n.World → n.World
  pub resume_after_kick : Vmm → n.World → Outcome VmmError (Unit {0}) × n.World
  pub resume_vm : Vmm → n.World → Outcome VmmError (Unit {0}) × n.World
  pub drop_vmm : Vmm → n.World → n.World

-- a prepared context; `V` is the VMM, or an option of it
pub record Context (V : Type 0) : Type 0 where
  pub netns : VmNetnsContext
  pub vmm : V

-- the contexts left, and those that were used
pub record Pool (V : Type 0) : Type 0 where
  pub contexts : List (Context V)
  pub completed : List (Context V)

module _ (n : NetnsHost) (h : RestoreHost n) where
  open n use {World}
  open h use {
    Vmm, MicrovmState, GuestMemory, VmmError, load_microvm_state, guest_memory_from_file,
    build_paused_vmm, lock, kick_for_resume, resume_after_kick, resume_vm, drop_vmm,
  }

  abbrev pub Result : Type 0 → Type 0
  Result A = Outcome (RestoreError VmmError) A × World

  abbrev pub from_netns : Outcome NetnsError (Unit {0}) → Outcome (RestoreError VmmError) (Unit {0})
  from_netns (ok _) = ok tt
  from_netns (err e) = err (netns_failed e)

  abbrev pub from_vmm : Outcome VmmError (Unit {0}) → Outcome (RestoreError VmmError) (Unit {0})
  from_vmm (ok _) = ok tt
  from_vmm (err e) = err (restore_failed e)

  -- the `match` on the result of the operation and on that of `leave`
  abbrev pub both :
      Outcome (RestoreError VmmError) (Unit {0})
      → Outcome (RestoreError VmmError) (Unit {0})
      → Outcome (RestoreError VmmError) (Unit {0})
  both (ok _) (ok _) = ok tt
  both (err e) (ok _) = err e
  both (ok _) (err e) = err e
  both (err e) (err f) = err (additionally e f)

  abbrev pub leave_with : VmNetnsContext → Outcome VmmError (Unit {0}) × World → Result (Unit {0})
  leave_with c (o, w) = let left = leave n c w in (both (from_vmm o) (from_netns left.0), left.1)

  -- `enter()?`, then the operation
  abbrev pub entering :
      (World → Result (Unit {0})) → Outcome NetnsError (Unit {0}) × World → Result (Unit {0})
  entering act (err e, w) = (err (netns_failed e), w)
  entering act (ok _, w) = act w

  -- the closure of resume_vcpus.rs
  abbrev pub resume_locked : Context Vmm → World → Result (Unit {0})
  resume_locked c w =
      if lock c.vmm w
      then leave_with c.netns (resume_after_kick c.vmm w)
      else (err lock_poisoned, w)

  unfoldable pub resume_vcpus_in : Context Vmm → World → Result (Unit {0})
  resume_vcpus_in c w = entering (resume_locked c) (enter n c.netns w)

  -- the closure of kick_virtio.rs, which ends with `leave()`
  abbrev pub kick_locked : Context Vmm → World → Result (Unit {0})
  kick_locked c w =
      if lock c.vmm w
      then (let left = leave n c.netns (kick_for_resume c.vmm w) in (from_netns left.0, left.1))
      else (err lock_poisoned, w)

  unfoldable pub kick_virtio_in : Context Vmm → World → Result (Unit {0})
  kick_virtio_in c w = entering (kick_locked c) (enter n c.netns w)

  -- The closure of resume_vm.rs takes the VMM out of the context. It is put back on success only, and
  -- else dropped at the end.
  abbrev pub put_back :
      Context (Option Vmm) → Vmm → Result (Unit {0}) → Result (Unit {0}) × Context (Option Vmm)
  put_back c vmm (ok _, w) = ((ok tt, w), record c { vmm = some vmm })
  put_back c vmm (err e, w) = ((err e, drop_vmm vmm w), record c { vmm = none })

  abbrev pub resume_taken : Context (Option Vmm) → Vmm → World → Result (Unit {0})
  resume_taken c vmm w =
      if lock vmm w then leave_with c.netns (resume_vm vmm w) else (err lock_poisoned, w)

  abbrev pub take_vmm :
      Context (Option Vmm) → Option Vmm → World → Result (Unit {0}) × Context (Option Vmm)
  take_vmm c none w = ((err missing_vmm, w), c)
  take_vmm c (some vmm) w = put_back c vmm (resume_taken c vmm w)

  abbrev pub entering_taking :
      Context (Option Vmm)
      → Outcome NetnsError (Unit {0}) × World
      → Result (Unit {0}) × Context (Option Vmm)
  entering_taking c (err e, w) = ((err (netns_failed e), w), c)
  entering_taking c (ok _, w) = take_vmm c c.vmm w

  unfoldable pub resume_vm_in :
      Context (Option Vmm) → World → Result (Unit {0}) × Context (Option Vmm)
  resume_vm_in c w = entering_taking c (enter n c.netns w)

  -- the runners: the first context is used, and kept among the completed ones
  abbrev pub run_pooled :
      {V : Type 0}
      → (Context V → World → Result (Unit {0}) × Context V)
      → List (Context V)
      → List (Context V)
      → World
      → Result (Unit {0}) × Pool V
  run_pooled act [] completed w =
      ((err no_context_left, w), record { contexts = []; completed = completed })
  run_pooled act (c ∷ contexts) completed w =
      let done = act c w in
      (done.0, record { contexts = contexts; completed = completed ++ (done.1 ∷ []) })

  unfoldable pub run_resume_vcpus : Pool Vmm → World → Result (Unit {0}) × Pool Vmm
  unfolding resume_vcpus_in
  run_resume_vcpus p w = run_pooled (λ c v. (resume_vcpus_in c v, c)) p.contexts p.completed w

  unfoldable pub run_kick_virtio : Pool Vmm → World → Result (Unit {0}) × Pool Vmm
  unfolding kick_virtio_in
  run_kick_virtio p w = run_pooled (λ c v. (kick_virtio_in c v, c)) p.contexts p.completed w

  unfoldable pub run_resume_vm : Pool (Option Vmm) → World → Result (Unit {0}) × Pool (Option Vmm)
  unfolding resume_vm_in
  run_resume_vm p w = run_pooled resume_vm_in p.contexts p.completed w
