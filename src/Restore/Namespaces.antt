-- ===== src/Restore/Namespaces.antt =====
-- In which namespace a thread is after a measured operation.
use mathlib.Core.Path.{subst}
use herm_os_test.Prelude.{
  ℕ, ◌≡◌, refl, sym, Bool, Bool-cases, true, false, inl, inr, List, ◌∷◌, Option, none, some,
  Outcome, ok, err,
}
use herm_os_test.Netns.Command.{NetnsHost}
use herm_os_test.Netns.Vm.{VmNetnsContext, enter, entered, leave}
use herm_os_test.Restore.{
  RestoreError, netns_failed, restore_failed, lock_poisoned, no_context_left, missing_vmm,
  additionally, RestoreHost, Context, Pool, both, from_vmm, from_netns, leave_with, entering,
  resume_locked, kick_locked, put_back, resume_taken, take_vmm, entering_taking, run_resume_vcpus,
  run_kick_virtio, run_resume_vm,
}

-- The namespace of the thread: `setns` sets it when it succeeds, and dropping a VMM leaves it.
pub record Thread (n : NetnsHost) (h : RestoreHost n) : Type 0 where
  pub current : n.World → ℕ
  pub current-setns :
      (file : ℕ) (w : n.World) → (n.setns file w).0 ≡ true → current (n.setns file w).1 ≡ file
  pub current-drop : (vmm : h.Vmm) (w : n.World) → current (h.drop_vmm vmm w) ≡ current w

module _ (n : NetnsHost) (h : RestoreHost n) (t : Thread n h) where
  open t use {current, current-setns, current-drop}

  -- Where the thread is, by the result: back at its start after a success or an error of the VMM alone,
  -- but still in the namespace when the lock is poisoned or the VMM is missing.
  abbrev pub IsWhere : VmNetnsContext → Outcome (RestoreError h.VmmError) (Unit {0}) → ℕ → Type 0
  IsWhere c (ok _) ns = ns ≡ c.root_ns
  IsWhere c (err (restore_failed e)) ns = ns ≡ c.root_ns
  IsWhere c (err lock_poisoned) ns = ns ≡ c.target_ns
  IsWhere c (err missing_vmm) ns = ns ≡ c.target_ns
  IsWhere c (err (netns_failed e)) ns = Unit {0}
  IsWhere c (err no_context_left) ns = Unit {0}
  IsWhere c (err (additionally e f)) ns = Unit {0}

  IsWhere-both :
      (c : VmNetnsContext) (o : Outcome h.VmmError (Unit {0})) (left : Bool × n.World)
      → (left.0 ≡ true → current left.1 ≡ c.root_ns)
      → IsWhere c
          (both n h (from_vmm n h o) (from_netns n h (entered n left).0))
          (current (entered n left).1)
  IsWhere-both c (ok _) (true, w) back = back refl
  IsWhere-both c (err e) (true, w) back = back refl
  IsWhere-both c (ok _) (false, w) back = tt
  IsWhere-both c (err e) (false, w) back = tt

  leave_with-IsWhere :
      (c : VmNetnsContext) (o : Outcome h.VmmError (Unit {0}) × n.World)
      → IsWhere c (leave_with n h c o).0 (current (leave_with n h c o).1)
  unfolding leave
  leave_with-IsWhere c (o, w) = IsWhere-both c o (n.setns c.root_ns w) (current-setns c.root_ns w)

  leave-IsWhere :
      (c : VmNetnsContext) (left : Bool × n.World)
      → (left.0 ≡ true → current left.1 ≡ c.root_ns)
      → IsWhere c (from_netns n h (entered n left).0) (current (entered n left).1)
  leave-IsWhere c (true, w) back = back refl
  leave-IsWhere c (false, w) back = tt

  -- an operation that puts the thread where it says, when it starts in the namespace
  abbrev pub Puts :
      VmNetnsContext → (n.World → Outcome (RestoreError h.VmmError) (Unit {0}) × n.World) → Type 0
  Puts c act = (w : n.World) → current w ≡ c.target_ns → IsWhere c (act w).0 (current (act w).1)

  entering-IsWhere :
      (c : VmNetnsContext) (act : n.World → Outcome (RestoreError h.VmmError) (Unit {0}) × n.World)
      (o : Bool × n.World)
      → Puts c act
      → (o.0 ≡ true → current o.1 ≡ c.target_ns)
      → IsWhere c (entering n h act (entered n o)).0 (current (entering n h act (entered n o)).1)
  entering-IsWhere c act (true, w) puts inside = puts w (inside refl)
  entering-IsWhere c act (false, w) puts inside = tt

  resume_locked-Puts : (c : Context h.Vmm) → Puts c.netns (resume_locked n h c)
  resume_locked-Puts c w inside = elim (Bool-cases (h.lock c.vmm w)) [
    | inl held ↦ rw (resume_locked, held) (leave_with-IsWhere c.netns (h.resume_after_kick c.vmm w))
    | inr poisoned ↦ rw (resume_locked, poisoned) inside
  ]

  kick_locked-Puts : (c : Context h.Vmm) → Puts c.netns (kick_locked n h c)
  unfolding leave
  kick_locked-Puts c w inside = elim (Bool-cases (h.lock c.vmm w)) [
    | inl held ↦
        let w' = h.kick_for_resume c.vmm w in
        rw (kick_locked, held)
          (leave-IsWhere c.netns (n.setns c.netns.root_ns w') (current-setns c.netns.root_ns w'))
    | inr poisoned ↦ rw (kick_locked, poisoned) inside
  ]

  put_back-IsWhere :
      (c : Context (Option h.Vmm)) (vmm : h.Vmm)
      (o : Outcome (RestoreError h.VmmError) (Unit {0}) × n.World)
      → IsWhere c.netns o.0 (current o.1)
      → IsWhere c.netns (put_back n h c vmm o).0.0 (current (put_back n h c vmm o).0.1)
  put_back-IsWhere c vmm (ok _, w) is = is
  put_back-IsWhere c vmm (err e, w) is =
      subst (IsWhere c.netns (err e)) (sym (current-drop vmm w)) is

  take_vmm-IsWhere :
      (c : Context (Option h.Vmm)) (o : Option h.Vmm) (w : n.World)
      → current w ≡ c.netns.target_ns
      → IsWhere c.netns (take_vmm n h c o w).0.0 (current (take_vmm n h c o w).0.1)
  take_vmm-IsWhere c none w inside = inside
  take_vmm-IsWhere c (some vmm) w inside = put_back-IsWhere c vmm (resume_taken n h c vmm w) taken
    where
      taken : IsWhere c.netns (resume_taken n h c vmm w).0 (current (resume_taken n h c vmm w).1)
      taken = elim (Bool-cases (h.lock vmm w)) [
        | inl held ↦ rw (resume_taken, held) (leave_with-IsWhere c.netns (h.resume_vm vmm w))
        | inr poisoned ↦ rw (resume_taken, poisoned) inside
      ]

  entering_taking-IsWhere :
      (c : Context (Option h.Vmm)) (o : Bool × n.World)
      → (o.0 ≡ true → current o.1 ≡ c.netns.target_ns)
      → IsWhere c.netns
          (entering_taking n h c (entered n o)).0.0
          (current (entering_taking n h c (entered n o)).0.1)
  entering_taking-IsWhere c (true, w) inside = take_vmm-IsWhere c c.vmm w (inside refl)
  entering_taking-IsWhere c (false, w) inside = tt

  -- The runners of resume_vcpus.rs, kick_virtio.rs and resume_vm.rs, on the next context of a pool: after
  -- a success, and after an error of the VMM alone, the thread is in the namespace that the context
  -- started from; after an error of a poisoned lock or of a missing VMM it is still in the namespace of
  -- the context.
  pub runners-IsWhere :
      (c : Context h.Vmm) (d : Context (Option h.Vmm)) (contexts completed : List (Context h.Vmm))
      (others done : List (Context (Option h.Vmm))) (w : n.World)
      → (let p : Pool h.Vmm = record { contexts = c ∷ contexts; completed = completed } in
          let q : Pool (Option h.Vmm) = record { contexts = d ∷ others; completed = done } in
          let resumed = run_resume_vcpus n h p w in
          let kicked = run_kick_virtio n h p w in
          let vm = run_resume_vm n h q w in
          IsWhere c.netns resumed.0.0 (current resumed.0.1)
          × IsWhere c.netns kicked.0.0 (current kicked.0.1)
          × IsWhere d.netns vm.0.0 (current vm.0.1))
  unfolding run_resume_vcpus run_kick_virtio run_resume_vm enter
  runners-IsWhere c d contexts completed others done w =
      let o = n.setns c.netns.target_ns w in
      let inside = current-setns c.netns.target_ns w in
      (
        entering-IsWhere c.netns (resume_locked n h c) o (resume_locked-Puts c) inside,
        entering-IsWhere c.netns (kick_locked n h c) o (kick_locked-Puts c) inside,
        entering_taking-IsWhere d (n.setns d.netns.target_ns w) (current-setns d.netns.target_ns w),
      )
