-- ===== src/Tests/SystemRuns.antt =====
-- Runs of the operations on network namespaces and on the Firecracker process.
use herm_os_test.Prelude.{
  ℕ, ◌%◌, ◌≤◌, ◌≡◌, refl, ◌↔◌, Bool, true, false, List, [], ◌∷◌, ◌++◌, Option, none, some, ok, err,
  arith, Text, codes, length, display,
}
use herm_os_test.Netns.Instance.{run_token, build_instance}
use herm_os_test.Netns.Instance.Names.{build_instance_names, build_instance_networks}
use herm_os_test.Netns.Command.{Words, NetnsHost}
use herm_os_test.Netns.Vm.{minimal, VmState, prepare_full}
use herm_os_test.Netns.Shell.{run, step_thread}
use herm_os_test.Netns.Shell.Undone.{Journal, IsUndone, end_of_life, netns-IsUndone}
use herm_os_test.Launch.{
  Call, remove_file, exists, connect, spawn, try_wait, kill, wait, sleep, Answer, not_found,
  connection_refused, FirecrackerContext,
}
use herm_os_test.Launch.Tidy.{CallLog}

abbrev seventh : ℕ
seventh = 7

abbrev last_of_batch : ℕ
last_of_batch = 200

build_instance_names_example :
    ((build_instance (run_token 123456) seventh).host_veth
      ≡ codes "fcv" ++ (display 16 seventh ++ display 16 (123456 % 1048576)))
    × ((build_instance (run_token 123456) seventh).namespace
        ≡ codes "fc" ++ (display 16 seventh ++ display 16 (123456 % 1048576)))
    × (length (build_instance (run_token 123456) seventh).host_veth ≤ 15)
    × (length (build_instance (run_token 123456) seventh).namespace ≤ 31)
    × (((build_instance (run_token 123456) seventh).host_veth
          ≡ (build_instance (run_token 123456) last_of_batch).host_veth)
        ↔ (seventh ≡ last_of_batch))
    × (((build_instance (run_token 123456) seventh).namespace
          ≡ (build_instance (run_token 123456) last_of_batch).namespace)
        ↔ (seventh ≡ last_of_batch))
build_instance_names_example =
    build_instance_names 123456 seventh last_of_batch (omega arith) (omega arith)

build_instance_networks_example :
    ((build_instance (codes "1e240") 5).veth_network
      ≡ (build_instance (codes "1e240") 16389).veth_network)
    ↔ (5 % 16384 ≡ 16389 % 16384)
build_instance_networks_example = build_instance_networks (codes "1e240") 5 16389

-- the commands and the calls that were made
pub record Deeds : Type 0 where
  pub commands : List Words
  pub calls : List Call

-- a system where a command fails once five have been run
abbrev few_commands : Words → Deeds → Option Bool × Deeds
few_commands c w = (
  some (elim w.commands [ _ ∷ _ ∷ _ ∷ _ ∷ _ ∷ _ ↦ false | _ ↦ true ]),
  record w { commands = w.commands ++ (c ∷ []) },
)

abbrev egress_eth : Text
egress_eth = 34 ∷ (codes "dev" ++ (34 ∷ 58 ∷ 34 ∷ (codes "eth0" ++ (34 ∷ []))))

abbrev poor_host : NetnsHost
poor_host = record {
  World = Deeds;
  is_root = true;
  status = few_commands;
  route_output = λ w. (some (true, some egress_eth), w);
  open_file = λ path w. (some 3, w);
  setns = λ file w. (true, w);
}

abbrev poor_journal : Journal poor_host
poor_journal = record {
  seen = λ w. w.commands;
  seen-status = λ c w. refl;
  seen-route_output = λ w. refl;
  seen-open_file = λ path w. refl;
  seen-setns = λ file w. refl;
}

abbrev nothing_done : Deeds
nothing_done = record { commands = []; calls = [] }

abbrev first_seq : VmState poor_host
first_seq = record { next_seq = 0; world = nothing_done }

netns-IsUndone_example :
    IsUndone poor_host poor_journal
      (build_instance (codes "abcde") 0)
      []
      (end_of_life poor_host poor_journal (
        (prepare_full poor_host (codes "abcde") first_seq).0,
        (prepare_full poor_host (codes "abcde") first_seq).1.world,
      )).commands
    × IsUndone poor_host poor_journal
        (build_instance (codes "abcde") 0)
        []
        (run poor_host (codes "abcde") first_seq).1.world.commands
    × IsUndone poor_host poor_journal
        (build_instance (codes "abcde") 4)
        []
        (step_thread poor_host (codes "abcde") 4 (codes "eth0") nothing_done).1.commands
netns-IsUndone_example =
    netns-IsUndone poor_host poor_journal (codes "abcde") 4 (codes "eth0") first_seq

-- a process that starts, and whose socket is there but refuses
abbrev answer : (c : Call) → Answer c
answer (remove_file path) = err not_found
answer (exists path) = true
answer (connect path) = err connection_refused
answer (spawn path) = some 77
answer (try_wait child) = ok none
answer (kill child) = true
answer (wait child) = true
answer (sleep ms) = tt

abbrev refusing : (c : Call) → Deeds → Answer c × Deeds
refusing c w = (answer c, record w { calls = w.calls ++ (c ∷ []) })

abbrev refusing_log : CallLog poor_host refusing
refusing_log = record {
  log = λ w. w.calls;
  log-sys = λ c w. refl;
  log-status = λ c w. refl;
  log-setns = λ file w. refl;
}

abbrev in_namespace : FirecrackerContext
in_namespace = record {
  socket_path = codes "/tmp/firecracker-api/0-0.sock";
  netns = some (record {
    instance_of = build_instance (codes "abcde") 0;
    root_ns = 3;
    target_ns = 4;
    cleanup_of = minimal;
  });
}
