-- ===== src/Tests/KvmRuns.antt =====
-- Runs of the restoring of VMs and devices, on a KVM that does all it is asked.
use herm_os_test.Prelude.{
  ℕ, ◌<◌, ◌≡◌, refl, Bool, true, false, List, [], ◌∷◌, ◌++◌, map, none, some, ok, ap,
}
use herm_os_test.Vmm.Filter.{DeviceKinds, DeviceStates, block}
use herm_os_test.Restore.Kvm.{KvmHost}
use herm_os_test.Restore.Common.{
  DeviceRestoreContext, build_device_restore_context, build_kvm, build_vm, vcpu_count,
  vm_resources_from_state, restore_vcpu_states, set_all_tsc, restore_each,
  restore_devices_for_benchmark,
}
use herm_os_test.Restore.Common.Calls.{
  Call, new_kvm_call, new_vm_call, create_vcpus_call, memory_regions_call, tsc_check_call,
  set_tsc_call, restore_vcpu_call, restore_vm_call, new_manager_call, Logged,
}
use herm_os_test.Restore.Common.Order.{build_calls, Answered, build_device_restore_context-order}
use herm_os_test.Restore.Pools.{Deque, Ran, ran, run_next, RegionsContext}
use herm_os_test.Restore.Devices.{Device, run_netns_kind}
use herm_os_test.Restore.Devices.Returned.{Placed, IsBack, run_netns_kind-IsBack}
use herm_os_test.Tests.RestoreRuns.{only_namespaces, some_netns}

data Entry : Type 0 where
  manager_made : Entry
  kvm_made vm_made : ℕ → Entry
  vcpus_made regions_restored checked tsc_set vm_restored vcpu_restored : ℕ → ℕ → Entry

abbrev numbered : DeviceKinds
numbered = record {
  BlockState = ℕ;
  NetState = ℕ;
  VsockState = ℕ;
  BalloonState = ℕ;
  MmdsState = ℕ;
  EntropyState = ℕ;
  PmemState = ℕ;
  MemoryState = ℕ;
}

abbrev no_devices : DeviceStates numbered
no_devices = record {
  block_devices = [];
  net_devices = [];
  vsock_device = none;
  balloon_device = none;
  mmds = none;
  entropy_device = none;
  pmem_devices = [];
  memory_device = none;
}

-- The snapshot is the list of the states of its vCPUs; each has a clock of 2000 kHz, which is scaled.
abbrev willing_kvm : {W : Type 0} → (Entry → W → W) → KvmHost W
willing_kvm note = record {
  CallError = ℕ;
  File = ℕ;
  Caps = ℕ;
  Kvm = ℕ;
  Vm = ℕ;
  Vcpu = ℕ;
  EventFd = ℕ;
  EventManager = ℕ;
  GuestMemory = ℕ;
  MemoryState = ℕ;
  VmState = ℕ;
  VcpuState = ℕ;
  MicrovmState = List ℕ;
  Vmm = ℕ;
  Template = ℕ;
  HugePages = ℕ;
  BootSource = ℕ;
  kinds = numbered;
  vm_info = λ s. record {
    mem_size_mib = 128;
    smt = false;
    cpu_template = 0;
    huge_pages = 0;
    boot_source = 0;
  };
  vcpu_states = λ s. s;
  kvm_cap_modifiers = λ s. 0;
  vm_state = λ s. 5;
  memory = λ s. 6;
  mmio_state = λ s. no_devices;
  tsc_khz = λ s. some 2000;
  open_file = λ path w. (ok 3, w);
  load = λ file w. (ok (70 ∷ 71 ∷ []), w);
  snapshot_file = λ file m dirty w. (ok 9, w);
  new_kvm = λ caps w. (ok 1, note (kvm_made caps) w);
  new_vm = λ kvm w. (ok 2, note (vm_made kvm) w);
  create_vcpus = λ vm count w. (ok (40 ∷ 41 ∷ [], 8), note (vcpus_made vm count) w);
  restore_memory_regions = λ vm m s w. (ok tt, note (regions_restored vm m) w);
  is_tsc_scaling_required = λ v khz w. (ok true, note (checked v khz) w);
  set_tsc_khz = λ v khz w. (ok tt, note (tsc_set v khz) w);
  restore_vcpu = λ v s w. (ok tt, note (vcpu_restored v s) w);
  restore_vm = λ vm s w. (ok tt, note (vm_restored vm s) w);
  new_event_manager = λ w. (ok 4, note manager_made w);
  build_microvm = λ manager s m resources w. (ok 7, w);
  restore_devices = λ vm exit_evt s w. (ok tt, w);
  restore_mmio = λ vm states w. (ok tt, w);
  sanity_check = λ s w. (ok tt, w);
}

abbrev add_entry : Entry → List Entry → List Entry
add_entry e es = es ++ (e ∷ [])

abbrev noted : KvmHost (List Entry)
noted = willing_kvm add_entry

abbrev call_of : Entry → Call noted
call_of manager_made = new_manager_call
call_of (kvm_made caps) = new_kvm_call caps
call_of (vm_made kvm) = new_vm_call kvm
call_of (vcpus_made vm count) = create_vcpus_call vm count
call_of (regions_restored vm m) = memory_regions_call vm m
call_of (checked v khz) = tsc_check_call v khz
call_of (tsc_set v khz) = set_tsc_call v khz
call_of (vm_restored vm s) = restore_vm_call vm s
call_of (vcpu_restored v s) = restore_vcpu_call v s

calls_of : List Entry → List (Call noted)
calls_of es = map call_of es

calls_of-add :
    (e : Entry) (es : List Entry) → calls_of (add_entry e es) ≡ calls_of es ++ (call_of e ∷ [])
unfolding calls_of
calls_of-add e [] = refl
calls_of-add e (x ∷ es) = ap (◌∷◌ (call_of x)) (calls_of-add e es)

abbrev noted_log : Logged noted
noted_log = record {
  log = calls_of;
  log-kvm = λ caps w. calls_of-add (kvm_made caps) w;
  log-vm = λ kvm w. calls_of-add (vm_made kvm) w;
  log-vcpus = λ vm count w. calls_of-add (vcpus_made vm count) w;
  log-regions = λ vm m s w. calls_of-add (regions_restored vm m) w;
  log-check = λ v khz w. calls_of-add (checked v khz) w;
  log-tsc = λ v khz w. calls_of-add (tsc_set v khz) w;
  log-vcpu = λ v s w. calls_of-add (vcpu_restored v s) w;
  log-state = λ vm s w. calls_of-add (vm_restored vm s) w;
  log-manager = λ w. calls_of-add manager_made w;
}

abbrev two_states : List ℕ
two_states = 70 ∷ 71 ∷ []

abbrev built_device : {W : Type 0} (note : Entry → W → W) → DeviceRestoreContext (willing_kvm note)
built_device note = record {
  vm = 2;
  vcpus_exit_evt = 8;
  microvm_state = two_states;
  vm_resources = record {
    vcpu_count = 2;
    mem_size_mib = 128;
    smt = false;
    cpu_template = some 0;
    huge_pages = 0;
    boot_source = 0;
  };
  event_manager = 4;
}

abbrev build_entries : List Entry
build_entries =
    kvm_made 0
    ∷ vm_made 1
    ∷ vcpus_made 2 2
    ∷ regions_restored 2 9
    ∷ checked 40 2000
    ∷ tsc_set 40 2000
    ∷ tsc_set 41 2000
    ∷ vcpu_restored 40 70
    ∷ vcpu_restored 41 71
    ∷ vm_restored 2 5
    ∷ manager_made
    ∷ []

builds_two :
    build_device_restore_context noted two_states 9 []
    ≡ (ok (built_device add_entry), build_entries)
unfolding build_device_restore_context build_vm build_kvm vcpu_count vm_resources_from_state
    restore_vcpu_states set_all_tsc restore_each
builds_two = refl

build_device_restore_context-order_example :
    (kvm : ℕ) × (vcpus : List ℕ) × (required : Bool) × Answered noted noted_log two_states 9 [] kvm
      2 vcpus required
    × (calls_of build_entries
        ≡ calls_of [] ++ build_calls noted noted_log two_states 9 kvm 2 vcpus required)
    × (2 < 256)
    × (◌≡◌ {A = ℕ} 2 2)
    × (two_states ≡ two_states)
build_device_restore_context-order_example =
    build_device_restore_context-order noted noted_log two_states 9 [] build_entries
      (built_device add_entry) builds_two

-- a KVM that writes nothing down
abbrev quiet_note : Entry → ℕ → ℕ
quiet_note e w = w

abbrev quiet_kvm : KvmHost ℕ
quiet_kvm = willing_kvm quiet_note

abbrev run_block :
    Deque (DeviceRestoreContext quiet_kvm)
    → ℕ
    → Ran quiet_kvm (Deque (DeviceRestoreContext quiet_kvm))
run_block =
    run_next quiet_kvm λ c v. ran quiet_kvm c (restore_devices_for_benchmark quiet_kvm c block v)

abbrev filled : RegionsContext quiet_kvm
filled = record { vm = 2; guest_memory = some 9; mem_state = 6 }

abbrev placed : Placed only_namespaces
placed = record { current = λ w. w; current-setns = λ file w e. refl }

abbrev device : Device only_namespaces quiet_kvm
device = record { netns = some_netns; context = built_device quiet_note }

run_netns_kind-IsBack_example :
    let (o, p) =
      run_netns_kind only_namespaces quiet_kvm block
        (record { contexts = device ∷ []; completed = [] })
        100 in
    IsBack only_namespaces quiet_kvm placed some_netns o.0 o.1
    × (p ≡ record { contexts = []; completed = [] ++ (device ∷ []) })
run_netns_kind-IsBack_example =
    run_netns_kind-IsBack only_namespaces quiet_kvm placed block device [] [] 100
