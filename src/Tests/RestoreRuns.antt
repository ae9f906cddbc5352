-- ===== src/Tests/RestoreRuns.antt =====
-- Runs of the measured operations on a restored VMM.
use herm_os_test.Prelude.{ℕ, ◌≡◌, refl, true, [], ◌∷◌, Option, none, some, ok, err, codes, ◌==◌}
use herm_os_test.Netns.Instance.{build_instance}
use herm_os_test.Netns.Command.{NetnsHost}
use herm_os_test.Netns.Vm.{VmNetnsContext, minimal, enter}
use herm_os_test.Restore.{
  lock_poisoned, RestoreHost, Context, Pool, run_resume_vcpus, run_kick_virtio, run_resume_vm,
  resume_vm_in,
}
use herm_os_test.Restore.Namespaces.{Thread, IsWhere, runners-IsWhere}

-- the world is the namespace that the thread is in
abbrev pub only_namespaces : NetnsHost
only_namespaces = record {
  World = ℕ;
  is_root = true;
  status = λ c w. (some true, w);
  route_output = λ w. (none, w);
  open_file = λ path w. (some 5, w);
  setns = λ file w. (true, file);
}

-- the VMM of number 2 has a poisoned lock
abbrev two_vmms : RestoreHost only_namespaces
two_vmms = record {
  Vmm = ℕ;
  MicrovmState = ℕ;
  GuestMemory = ℕ;
  VmmError = ℕ;
  load_microvm_state = λ w. (ok 0, w);
  guest_memory_from_file = λ s w. (ok 0, w);
  build_paused_vmm = λ s m w. (ok 1, w);
  lock = λ vmm w. vmm == 1;
  kick_for_resume = λ vmm w. w;
  resume_after_kick = λ vmm w. (ok tt, w);
  resume_vm = λ vmm w. (ok tt, w);
  drop_vmm = λ vmm w. w;
}

abbrev one_thread : Thread only_namespaces two_vmms
one_thread = record {
  current = λ w. w;
  current-setns = λ file w e. refl;
  current-drop = λ vmm w. refl;
}

abbrev pub some_netns : VmNetnsContext
some_netns = record {
  instance_of = build_instance (codes "abcde") 0;
  root_ns = 100;
  target_ns = 200;
  cleanup_of = minimal;
}

abbrev healthy : Context ℕ
healthy = record { netns = some_netns; vmm = 1 }

abbrev poisoned_vm : Context (Option ℕ)
poisoned_vm = record { netns = some_netns; vmm = some 2 }

abbrev healthy_pool : Pool ℕ
healthy_pool = record { contexts = healthy ∷ []; completed = [] }

abbrev poisoned_pool : Pool (Option ℕ)
poisoned_pool = record { contexts = poisoned_vm ∷ []; completed = [] }

runners-IsWhere_example :
    IsWhere only_namespaces two_vmms one_thread some_netns
      (run_resume_vcpus only_namespaces two_vmms healthy_pool 100).0.0
      (run_resume_vcpus only_namespaces two_vmms healthy_pool 100).0.1
    × IsWhere only_namespaces two_vmms one_thread some_netns
        (run_kick_virtio only_namespaces two_vmms healthy_pool 100).0.0
        (run_kick_virtio only_namespaces two_vmms healthy_pool 100).0.1
    × IsWhere only_namespaces two_vmms one_thread some_netns
        (run_resume_vm only_namespaces two_vmms poisoned_pool 100).0.0
        (run_resume_vm only_namespaces two_vmms poisoned_pool 100).0.1
runners-IsWhere_example =
    runners-IsWhere only_namespaces two_vmms one_thread healthy poisoned_vm [] [] [] [] 100

-- the thread of the poisoned run is in the namespace 200 still
stays_inside :
    (run_resume_vm only_namespaces two_vmms poisoned_pool 100).0 ≡ (err lock_poisoned, 200)
unfolding run_resume_vm resume_vm_in enter
stays_inside = refl
