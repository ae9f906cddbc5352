-- ===== src/Tests/VmmRuns.antt =====
-- Runs of the VMM's commands, exit event and device filter.
use herm_os_test.Prelude.{ℕ, ◌+◌, ◌≡◌, ◌↔◌, ◌≢◌, refl, ◌⊎◌, true, [], ◌∷◌, none, some, ok}
use herm_os_test.Vmm.Vcpus.{
  VcpuEvent, VcpuResponse, VmState, VcpuHost, Vmm, send_all, collect_responses, collect_map,
  resume_vm, pause_vm, save_vcpu_states, dump_cpu_configs,
}
use herm_os_test.Vmm.Vcpus.Commands.{Settles, Obeyed, resume_vm-pause_vm-Settles}
use herm_os_test.Vmm.Exit.{FcExitCode, success, exited, other_response, VmmExit, process}
use herm_os_test.Vmm.Exit.Precedence.{HasEnded, IsReported, process-precedence}
use herm_os_test.Vmm.Filter.{DeviceKinds, DeviceStates}

-- A vCPU answers the last event that it took; the world is that event, and the handle is the state.
abbrev answer : ℕ → VcpuEvent → VcpuResponse ℕ ℕ ℕ ℕ
answer n VcpuEvent.resume = VcpuResponse.resumed
answer n VcpuEvent.pause = VcpuResponse.paused
answer n VcpuEvent.save_state = VcpuResponse.saved_state n
answer n VcpuEvent.dump_cpu_config = VcpuResponse.dumped_cpu_config (n + 100)
answer n VcpuEvent.finish = VcpuResponse.exited

abbrev vcpus : VcpuHost
vcpus = record {
  World = VcpuEvent;
  Handle = ℕ;
  SendError = ℕ;
  Saved = ℕ;
  Config = ℕ;
  VcpuError = ℕ;
  Reason = ℕ;
  send_event = λ n event w. (ok tt, event);
  recv_timeout = λ n w. (ok (answer n w), w);
  kick_virtio_devices = λ w. w;
}

abbrev two_vcpus : Vmm vcpus
two_vcpus = record {
  state = VmState.paused_vm;
  vcpus_handles = 4 ∷ 9 ∷ [];
  world = VcpuEvent.finish;
}

resume_vm-pause_vm-Settles_example :
    Settles vcpus VmState.running two_vcpus (resume_vm vcpus two_vcpus)
    × (((resume_vm vcpus two_vcpus).0 ≡ ok tt)
        ↔ Obeyed vcpus VcpuEvent.resume VcpuResponse.resumed (4 ∷ 9 ∷ []) VcpuEvent.finish)
    × Settles vcpus VmState.paused_vm two_vcpus (pause_vm vcpus two_vcpus)
    × (((pause_vm vcpus two_vcpus).0 ≡ ok tt)
        ↔ Obeyed vcpus VcpuEvent.pause VcpuResponse.paused (4 ∷ 9 ∷ []) VcpuEvent.finish)
resume_vm-pause_vm-Settles_example = resume_vm-pause_vm-Settles vcpus two_vcpus

two_saved : (save_vcpu_states vcpus two_vcpus).0 ≡ ok (4 ∷ 9 ∷ [])
unfolding save_vcpu_states send_all collect_responses collect_map
two_saved = refl

two_dumped : (dump_cpu_configs vcpus two_vcpus).0 ≡ ok (104 ∷ 109 ∷ [])
unfolding dump_cpu_configs send_all collect_responses collect_map
two_dumped = refl

-- one vCPU ended well, the other failed
abbrev one_failed : VmmExit
one_failed = record {
  shutdown_exit_code = none;
  channels = (other_response ∷ exited success ∷ []) ∷ (exited FcExitCode.generic_error ∷ []) ∷ [];
}

process-precedence_example :
    (code : FcExitCode) × ((process true one_failed).shutdown_exit_code ≡ some code)
    × (((code ≡ success) × HasEnded one_failed.channels)
        ⊎ ((code ≢ success) × IsReported code one_failed.channels))
process-precedence_example = process-precedence one_failed

abbrev kinds : DeviceKinds
kinds = record {
  BlockState = ℕ;
  NetState = ℕ;
  VsockState = ℕ;
  BalloonState = ℕ;
  MmdsState = ℕ;
  EntropyState = ℕ;
  PmemState = ℕ;
  MemoryState = ℕ;
}

abbrev devices : DeviceStates kinds
devices = record {
  block_devices = 1 ∷ 2 ∷ [];
  net_devices = 3 ∷ [];
  vsock_device = some 4;
  balloon_device = none;
  mmds = some 5;
  entropy_device = some 6;
  pmem_devices = [];
  memory_device = some 7;
}
