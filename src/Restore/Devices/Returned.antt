-- ===== src/Restore/Devices/Returned.antt =====
-- Where a thread is after it has restored devices in a namespace.
use herm_os_test.Prelude.{ℕ, ◌≡◌, refl, Bool, true, false, List, [], ◌∷◌, ◌++◌, Outcome, ok, err}
use herm_os_test.Netns.Command.{NetnsHost}
use herm_os_test.Netns.Vm.{VmNetnsContext, enter, entered, leave}
use herm_os_test.Vmm.Filter.{BenchmarkDeviceRestoreKind}
use herm_os_test.Restore.Kvm.{StepError, KvmHost}
use herm_os_test.Restore.Common.{Step, restore_devices_for_benchmark}
use herm_os_test.Restore.Devices.{
  DeviceError, in_netns, in_restore, no_context, then_also, Device, both_results, then_leave,
  restore_entered, restore_in, run_netns_kind,
}

-- The namespace of the thread: `setns` sets it when it succeeds.
pub record Placed (n : NetnsHost) : Type 0 where
  pub current : n.World → ℕ
  pub current-setns :
      (file : ℕ) (w : n.World) → (n.setns file w).0 ≡ true → current (n.setns file w).1 ≡ file

module _ (n : NetnsHost) (k : KvmHost n.World) (t : Placed n) where
  open t use {current, current-setns}

  -- back at its start, unless a `setns` has failed
  abbrev pub IsBack : VmNetnsContext → Outcome (DeviceError k.CallError) (Unit {0}) → ℕ → Type 0
  IsBack c (ok _) ns = ns ≡ c.root_ns
  IsBack c (err (in_restore e)) ns = ns ≡ c.root_ns
  IsBack c (err (in_netns e)) ns = Unit {0}
  IsBack c (err no_context) ns = Unit {0}
  IsBack c (err (then_also e f)) ns = Unit {0}

  both_results-IsBack :
      (c : VmNetnsContext) (o : Outcome (StepError k.CallError) (Unit {0})) (left : Bool × n.World)
      → (left.0 ≡ true → current left.1 ≡ c.root_ns)
      → IsBack c (both_results n k o (entered n left).0) (current (entered n left).1)
  both_results-IsBack c (ok _) (true, w) back = back refl
  both_results-IsBack c (err e) (true, w) back = back refl
  both_results-IsBack c (ok _) (false, w) back = tt
  both_results-IsBack c (err e) (false, w) back = tt

  then_leave-IsBack :
      (c : VmNetnsContext) (o : Step k (Unit {0}))
      → IsBack c (then_leave n k c o).0 (current (then_leave n k c o).1)
  unfolding leave
  then_leave-IsBack c (o, w) =
      both_results-IsBack c o (n.setns c.root_ns w) (current-setns c.root_ns w)

  restore_entered-IsBack :
      (kind : BenchmarkDeviceRestoreKind) (d : Device n k) (o : Bool × n.World)
      → IsBack d.netns
          (restore_entered n k kind d (entered n o)).0
          (current (restore_entered n k kind d (entered n o)).1)
  restore_entered-IsBack kind d (true, w) =
      then_leave-IsBack d.netns (restore_devices_for_benchmark k d.context kind w)
  restore_entered-IsBack kind d (false, w) = tt

  -- One run of the closure of `prepare_netns_kind`, whatever is restored and however it ends: the context
  -- is kept among the completed ones, and after a success, as after an error of the restoring alone, the
  -- thread is in the namespace that the context started from.
  pub run_netns_kind-IsBack :
      (kind : BenchmarkDeviceRestoreKind) (d : Device n k) (devices completed : List (Device n k))
      (w : n.World)
      → let (o, p) =
          run_netns_kind n k kind (record { contexts = d ∷ devices; completed = completed }) w in
        IsBack d.netns o.0 (current o.1)
        × (p ≡ record { contexts = devices; completed = completed ++ (d ∷ []) })
  unfolding run_netns_kind restore_in enter
  run_netns_kind-IsBack kind d devices completed w =
      (restore_entered-IsBack kind d (n.setns d.netns.target_ns w), refl)
