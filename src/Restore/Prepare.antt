-- ===== src/Restore/Prepare.antt =====
-- vm_restore: how the contexts of the measured operations are prepared.
use herm_os_test.Prelude.{ℕ, zero, suc, List, [], ◌∷◌, ◌++◌, Outcome, ok, err, if◌then◌else◌, Text}
use herm_os_test.Netns.Command.{NetnsError, NetnsHost}
use herm_os_test.Netns.Vm.{
  VmNetnsContext, VmState, prepare_minimal, prepare_full, enter, leave, drop_context,
}
use herm_os_test.Restore.{
  RestoreError, RestoreHost, Context, Result, netns_failed, restore_failed, lock_poisoned,
}

pub data NetnsMode : Type 0 where
  minimal_netns full_netns : NetnsMode

module _ (n : NetnsHost) (h : RestoreHost n) where
  open n use {World}
  open h use {
    Vmm, MicrovmState, GuestMemory, VmmError, load_microvm_state, guest_memory_from_file,
    build_paused_vmm, lock, kick_for_resume, resume_after_kick, resume_vm, drop_vmm,
  }

  -- `build_result`, after the namespace was left
  abbrev pub built : VmNetnsContext → Outcome VmmError Vmm × World → Result n h Vmm
  built c (err e, w) = (err (restore_failed e), (leave n c w).1)
  built c (ok vmm, w) = (ok vmm, (leave n c w).1)

  abbrev pub with_memory :
      VmNetnsContext → MicrovmState → Outcome VmmError GuestMemory × World → Result n h Vmm
  with_memory c state (err e, w) = (err (restore_failed e), w)
  with_memory c state (ok memory, w) = built c (build_paused_vmm state memory w)

  abbrev pub with_state : VmNetnsContext → Outcome VmmError MicrovmState × World → Result n h Vmm
  with_state c (err e, w) = (err (restore_failed e), w)
  with_state c (ok state, w) = with_memory c state (guest_memory_from_file state w)

  abbrev pub after_enter : VmNetnsContext → Outcome NetnsError (Unit {0}) × World → Result n h Vmm
  after_enter c (err e, w) = (err (netns_failed e), w)
  after_enter c (ok _, w) = with_state c (load_microvm_state w)

  -- an early return drops the namespace
  abbrev pub keep_or_drop : VmNetnsContext → Result n h Vmm → Result n h (Context Vmm)
  keep_or_drop c (err e, w) = (err e, drop_context n c w)
  keep_or_drop c (ok vmm, w) = (ok (record { netns = c; vmm = vmm }), w)

  abbrev pub in_state :
      {A : Type 0} → VmState n → Result n h A → Outcome (RestoreError VmmError) A × VmState n
  in_state s (o, w) = (o, record s { world = w })

  abbrev pub paused_in :
      Outcome NetnsError VmNetnsContext × VmState n
      → Outcome (RestoreError VmmError) (Context Vmm) × VmState n
  paused_in (err e, s) = (err (netns_failed e), s)
  paused_in (ok c, s) = in_state s (keep_or_drop c (after_enter c (enter n c s.world)))

  abbrev pub netns_of : NetnsMode → Text → VmState n → Outcome NetnsError VmNetnsContext × VmState n
  netns_of minimal_netns token s = prepare_minimal n token s
  netns_of full_netns token s = prepare_full n token s

  -- one iteration of `prepare_with_netns`, as kick_virtio.rs and resume_vm.rs have it
  unfoldable pub next_paused :
      NetnsMode → Text → VmState n → Outcome (RestoreError VmmError) (Context Vmm) × VmState n
  next_paused mode token s = paused_in (netns_of mode token s)

  -- resume_vcpus.rs then kicks the devices, under the lock
  abbrev pub kicked : Context Vmm → World → Result n h (Context Vmm)
  kicked c w =
      if lock c.vmm w
      then (ok c, kick_for_resume c.vmm w)
      else (err lock_poisoned, drop_context n c.netns (drop_vmm c.vmm w))

  abbrev pub then_kicked :
      Outcome (RestoreError VmmError) (Context Vmm) × VmState n
      → Outcome (RestoreError VmmError) (Context Vmm) × VmState n
  then_kicked (err e, s) = (err e, s)
  then_kicked (ok c, s) = in_state s (kicked c s.world)

  unfoldable pub next_kicked :
      NetnsMode → Text → VmState n → Outcome (RestoreError VmmError) (Context Vmm) × VmState n
  unfolding next_paused
  next_kicked mode token s = then_kicked (next_paused mode token s)

  -- the fields of a context are dropped in their order
  unfoldable pub drop_all : List (Context Vmm) → World → World
  drop_all [] w = w
  drop_all (c ∷ contexts) w = drop_all contexts (drop_vmm c.vmm (drop_context n c.netns w))

  -- the `for` loop of `prepare_with_netns`, over either of the two iterations
  unfoldable pub prepare_all :
      (VmState n → Outcome (RestoreError VmmError) (Context Vmm) × VmState n)
      → ℕ
      → List (Context Vmm)
      → VmState n
      → Outcome (RestoreError VmmError) (List (Context Vmm)) × VmState n
  unfolding drop_all
  prepare_all step zero contexts s = (ok contexts, s)
  prepare_all step (suc k) contexts s =
      let made = step s in
      elim made.0 [
        | ok c ↦ prepare_all step k (contexts ++ (c ∷ [])) made.1
        | err e ↦ (err e, record made.1 { world = drop_all contexts made.1.world })
      ]
