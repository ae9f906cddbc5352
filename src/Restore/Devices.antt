-- ===== src/Restore/Devices.antt =====
-- vm_restore/device_restore.rs: `prepare_netns_kind`, which builds a VM and restores its devices inside a
-- namespace, and the operations that the table names.
pub mod Returned
use herm_os_test.Prelude.{ℕ, zero, suc, List, [], ◌∷◌, ◌++◌, Outcome, ok, err, map_err, Text}
use herm_os_test.Netns.Command.{NetnsError, NetnsHost}
use herm_os_test.Netns.Vm.{
  VmNetnsContext, VmState, prepare_minimal, prepare_full, enter, leave, drop_context,
}
use herm_os_test.Vmm.Filter.{
  BenchmarkDeviceRestoreKind, all, balloon, block, net, vsock, entropy, pmem, virtio_mem,
}
use herm_os_test.Restore.Prepare.{NetnsMode, minimal_netns, full_netns}
use herm_os_test.Restore.Kvm.{StepError, KvmHost}
use herm_os_test.Restore.Common.{
  Step, load_microvm_state, guest_memory_from_file, DeviceRestoreContext,
  build_device_restore_context, restore_devices_for_benchmark,
}
use herm_os_test.Restore.Pools.{Deque}

pub data DeviceError (E : Type 0) : Type 0 where
  in_netns : NetnsError → DeviceError E
  in_restore : StepError E → DeviceError E
  no_context : DeviceError E
  then_also : DeviceError E → DeviceError E → DeviceError E

-- `NetnsDeviceRestoreContext`
pub record NetnsDevice (C : Type 0) : Type 0 where
  pub netns : VmNetnsContext
  pub context : C

module _ (n : NetnsHost) (k : KvmHost n.World) where
  open n use {World}
  open k use {CallError, MicrovmState, vm_state, memory}

  abbrev pub Done : Type 0 → Type 0
  Done A = Outcome (DeviceError CallError) A × World

  abbrev pub Device : Type 0
  Device = NetnsDevice (DeviceRestoreContext k)

  abbrev pub of_step : {A : Type 0} → Step k A → Done A
  of_step (o, w) = (map_err in_restore o, w)

  abbrev pub of_netns : {A : Type 0} → Outcome NetnsError A × World → Done A
  of_netns (o, w) = (map_err in_netns o, w)

  -- `let _ = netns.leave()`, then `build_result?`
  abbrev pub built : VmNetnsContext → Step k (DeviceRestoreContext k) → Done Device
  built c (err e, w) = (err (in_restore e), (leave n c w).1)
  built c (ok made, w) = (ok (record { netns = c; context = made }), (leave n c w).1)

  abbrev pub with_memory : VmNetnsContext → MicrovmState → Step k k.GuestMemory → Done Device
  with_memory c s (err e, w) = (err (in_restore e), w)
  with_memory c s (ok m, w) = built c (build_device_restore_context k s m w)

  abbrev pub with_state : VmNetnsContext → Step k MicrovmState → Done Device
  with_state c (err e, w) = (err (in_restore e), w)
  with_state c (ok s, w) = with_memory c s (guest_memory_from_file k (memory (vm_state s)) w)

  abbrev pub after_enter : VmNetnsContext → Outcome NetnsError (Unit {0}) × World → Done Device
  after_enter c (err e, w) = (err (in_netns e), w)
  after_enter c (ok _, w) = with_state c (load_microvm_state k w)

  -- an early return drops the namespace
  abbrev pub keep_or_drop : VmNetnsContext → Done Device → Done Device
  keep_or_drop c (err e, w) = (err e, drop_context n c w)
  keep_or_drop c (ok made, w) = (ok made, w)

  abbrev pub device_in :
      Outcome NetnsError VmNetnsContext × VmState n
      → Outcome (DeviceError CallError) Device × VmState n
  device_in (err e, s) = (err (in_netns e), s)
  device_in (ok c, s) =
      let (o, w) = keep_or_drop c (after_enter c (enter n c s.world)) in (o, record s { world = w })

  abbrev pub device_netns :
      NetnsMode → Text → VmState n → Outcome NetnsError VmNetnsContext × VmState n
  device_netns minimal_netns token s = prepare_minimal n token s
  device_netns full_netns token s = prepare_full n token s

  -- one iteration of `prepare_netns_kind`
  unfoldable pub next_device :
      NetnsMode → Text → VmState n → Outcome (DeviceError CallError) Device × VmState n
  next_device mode token s = device_in (device_netns mode token s)

  -- the contexts that an error drops: of each the namespace first
  unfoldable pub drop_devices : List Device → World → World
  drop_devices [] w = w
  drop_devices (d ∷ devices) w = drop_devices devices (drop_context n d.netns w)

  unfoldable pub prepare_netns_kind :
      (VmState n → Outcome (DeviceError CallError) Device × VmState n)
      → ℕ
      → List Device
      → VmState n
      → Outcome (DeviceError CallError) (List Device) × VmState n
  unfolding drop_devices
  prepare_netns_kind step zero devices s = (ok devices, s)
  prepare_netns_kind step (suc i) devices s =
      let made = step s in
      elim made.0 [
        | ok d ↦ prepare_netns_kind step i (devices ++ (d ∷ [])) made.1
        | err e ↦ (err e, record made.1 { world = drop_devices devices made.1.world })
      ]

  -- the `match` on both results
  abbrev pub both_results :
      Outcome (StepError CallError) (Unit {0})
      → Outcome NetnsError (Unit {0})
      → Outcome (DeviceError CallError) (Unit {0})
  both_results (ok _) (ok _) = ok tt
  both_results (err e) (ok _) = err (in_restore e)
  both_results (ok _) (err f) = err (in_netns f)
  both_results (err e) (err f) = err (then_also (in_restore e) (in_netns f))

  abbrev pub then_leave : VmNetnsContext → Step k (Unit {0}) → Done (Unit {0})
  then_leave c (o, w) = let (left, w') = leave n c w in (both_results o left, w')

  abbrev pub restore_entered :
      BenchmarkDeviceRestoreKind → Device → Outcome NetnsError (Unit {0}) × World → Done (Unit {0})
  restore_entered kind d (err e, w) = (err (in_netns e), w)
  restore_entered kind d (ok _, w) =
      then_leave d.netns (restore_devices_for_benchmark k d.context kind w)

  -- the inner closure of `prepare_netns_kind`
  unfoldable pub restore_in : BenchmarkDeviceRestoreKind → Device → World → Done (Unit {0})
  restore_in kind d w = restore_entered kind d (enter n d.netns w)

  -- the runner: the context is completed whatever the result
  unfoldable pub run_netns_kind :
      BenchmarkDeviceRestoreKind → Deque Device → World → Done (Unit {0}) × Deque Device
  unfolding restore_in
  run_netns_kind kind p w = elim p.contexts [
    | [] ↦ ((err no_context, w), p)
    | d ∷ devices ↦
        (restore_in kind d w, record { contexts = devices; completed = p.completed ++ (d ∷ []) })
  ]

-- the operations: what they restore, and the namespace they do it in, if any
pub data DeviceOp : Type 0 where
  plain : BenchmarkDeviceRestoreKind → DeviceOp
  in_namespace : BenchmarkDeviceRestoreKind → NetnsMode → DeviceOp

abbrev pub prepare_all : DeviceOp
prepare_all = in_namespace all minimal_netns

abbrev pub prepare_all_full_netns : DeviceOp
prepare_all_full_netns = in_namespace all full_netns

abbrev pub prepare_balloon : DeviceOp
prepare_balloon = plain balloon

abbrev pub prepare_block : DeviceOp
prepare_block = plain block

abbrev pub prepare_net : DeviceOp
prepare_net = in_namespace net minimal_netns

abbrev pub prepare_net_full_netns : DeviceOp
prepare_net_full_netns = in_namespace net full_netns

abbrev pub prepare_vsock : DeviceOp
prepare_vsock = plain vsock

abbrev pub prepare_entropy : DeviceOp
prepare_entropy = plain entropy

abbrev pub prepare_pmem : DeviceOp
prepare_pmem = plain pmem

abbrev pub prepare_virtio_mem : DeviceOp
prepare_virtio_mem = plain virtio_mem
