-- ===== src/Tests/SetupRuns.antt =====
-- Runs of the construction of a block device, of the poll loop of the fault handlers, and of the arguments.
use herm_os_test.Prelude.{
  ℕ, suc, ◌<◌, ◌≡◌, ◌≢◌, refl, zero, ◌==◌, ap, true, false, List, [], ◌∷◌, Option, none, some,
  Outcome, ok, err, Run, returned, panicked, Text, codes, arith, parse_unsigned, scan,
}
use herm_os_test.Block.Types.{FileEngineType, async, sync}
use herm_os_test.Block.Device.{writeback, VirtioBlock}
use herm_os_test.Block.Disk.{config_space_bytes, open_sized, build_disk_image_id}
use herm_os_test.Block.DriveConfig.{VirtioBlockConfig}
use herm_os_test.Block.Setup.{SetupHost, disk_new, features_of, new, config}
use herm_os_test.Block.Setup.Configs.{SetupLaws, config-new}
use herm_os_test.Tests.Machine.{Machine, machine}
use herm_os_test.Uffd.Region.{GuestRegionUffdMapping, UffdHandler, from_mappings_remote}
use herm_os_test.Uffd.Runtime.{
  Revents, Polled, interrupted, ready, remote_backing, RuntimeHost, Runtime, handler_at,
  serve_entries, turn, turns, receive, tries, run,
}
use herm_os_test.Uffd.Runtime.Served.{Calm, IsHandled, run-no_panic}
use herm_os_test.Bench.Split.{RunConfig, worker_count, iteration_count}
use herm_os_test.Bench.Args.{parse_args, parse_loop, flag_of, text_eq}
use herm_os_test.Bench.Args.Shares.{IsRunnable, parse_args-shares}

abbrev bench_args : List Text
bench_args =
    codes "-p"
    ∷ codes "noop"
    ∷ codes "--no-per-op-usage"
    ∷ codes "-c"
    ∷ codes "8"
    ∷ codes "-t"
    ∷ codes "5"
    ∷ []

abbrev five_runs : RunConfig
five_runs = record { total = 5; concurrency = 5; measure_per_op_usage = false }

parses_bench : parse_args bench_args ≡ returned (some (codes "noop", five_runs))
unfolding parse_args parse_loop flag_of text_eq parse_unsigned scan
parses_bench = refl

parse_args-shares_example :
    IsRunnable five_runs
    × (worker_count five_runs ≡ 5)
    × (0 < iteration_count 5 (worker_count five_runs) 3)
parse_args-shares_example = parse_args-shares bench_args (codes "noop") five_runs 3 parses_bench

-- a peer that sends one region with every descriptor; a descriptor is ready once, and then the end is asked for
abbrev one_region : GuestRegionUffdMapping
one_region = record { base_host_virt_addr = 65536; size = 8192; offset = 0; page_size = 4096 }

abbrev all_ready : ℕ → Revents
all_ready i = record { pollin = true; hung_up = false }

-- the world is how often `poll` gives events before the signal comes
abbrev poll_left : ℕ → Polled × ℕ
poll_left zero = (interrupted, 0)
poll_left (suc n) = (ready 2 all_ready, n)

abbrev few_turns : RuntimeHost
few_turns = record {
  World = ℕ;
  IoError = ℕ;
  stream = 3;
  recv_with_fd = λ w. (ok (some [], some 9), w);
  sleep = λ w. w;
  deserialize = λ text. some (one_region ∷ []);
  poll = λ fds w. poll_left w;
  shutdown_requested = λ w. w == 0;
}

abbrev keep_handler : UffdHandler → ℕ → Run (UffdHandler × ℕ)
keep_handler h w = returned (h, w)

abbrev region_handler : UffdHandler
region_handler = record { mem_regions = one_region ∷ []; page_size = 4096; backing_buffer = 0 }

pub receives : (w : ℕ) → receive few_turns remote_backing w ≡ returned ((region_handler, 9), w)
unfolding receive tries from_mappings_remote
receives w = refl

pub handles : (w : ℕ) → IsHandled few_turns (poll_left w)
handles zero = refl
handles (suc n) = tt

abbrev few_turns_calm : Calm few_turns remote_backing keep_handler
few_turns_calm = record {
  dispatched = λ h w. ((h, w), refl);
  received = λ w. (((region_handler, 9), w), receives w);
  handled = λ fds w. handles w;
}

abbrev started : Runtime few_turns
started = record { uffds = []; world = 3 }

run-no_panic_example : run few_turns remote_backing keep_handler 4 started ≢ panicked
run-no_panic_example = run-no_panic few_turns remote_backing keep_handler few_turns_calm 4 started

-- the same run does end
ends_after_three :
    (rt : Runtime few_turns) × (run few_turns remote_backing keep_handler 4 started ≡ returned rt)
unfolding run turns turn serve_entries handler_at receive tries from_mappings_remote
ends_after_three = (_, refl)

abbrev no_limiter : Option ℕ → Machine → Outcome ℕ (Unit {0}) × Machine
no_limiter none w = (ok tt, w)
no_limiter (some c) w = (err 1, w)

abbrev sync_only : ℕ → FileEngineType → Machine → Outcome ℕ (Unit {0}) × Machine
sync_only file sync w = (ok tt, w)
sync_only file async w = (err 2, w)

abbrev plain_setup : SetupHost machine
plain_setup = record {
  LimiterConfig = ℕ;
  build_limiter = no_limiter;
  limiter_config = λ w. none;
  engine_from_file = sync_only;
  new_event_fd = λ w. (ok tt, w);
  drain_engine = λ w. w;
  version_1 = 32;
  ring_event_idx = 29;
  blk_flush = 9;
  blk_ro = 5;
}

pub sync_only_lem :
    (file : ℕ) (engine : FileEngineType) (w w' : Machine)
    → sync_only file engine w ≡ (ok tt, w')
    → sync ≡ engine
sync_only_lem file sync w w' e = refl
sync_only_lem file async w w' e =
    absurd (ground (arith, ap (λ (x : Outcome ℕ (Unit {0}) × Machine). x.0) e))

pub built_lem : (w : Machine) → (no_limiter none w).0 ≡ ok tt → ◌≡◌ {A = Option ℕ} none none
built_lem w e = refl

abbrev plain_laws : SetupLaws machine plain_setup
plain_laws = record {
  engine_made = sync_only_lem;
  engine-limiter = λ c w. refl;
  engine-event = λ w. refl;
  limiter-event = λ w. refl;
}

abbrev root_config : VirtioBlockConfig ℕ
root_config = record {
  drive_id = "rootfs";
  partuuid = none;
  is_root_device = true;
  cache_type = writeback;
  is_read_only = true;
  path_on_host = "/srv/rootfs.ext4";
  rate_limiter = none;
  file_engine_type = sync;
}

abbrev fresh_machine : Machine
fresh_machine = record {
  rings = record { available = []; used = []; last = none };
  log = [];
  blocked = false;
  completed = [];
}

abbrev root_drive : VirtioBlock
root_drive = record {
  avail_features = 4831838752;
  acked_features = 0;
  config_space = config_space_bytes 8;
  activated = false;
  id = "rootfs";
  partuuid = none;
  cache_type = writeback;
  root_device = true;
  read_only = true;
  disk = record {
    file_path = "/srv/rootfs.ext4";
    nsectors = 8;
    image_id = build_disk_image_id machine 7;
  };
  is_io_engine_throttled = false;
}

makes_root : new machine plain_setup root_config fresh_machine ≡ (ok root_drive, fresh_machine)
unfolding new disk_new open_sized features_of build_disk_image_id
makes_root = refl

config-new_example : config machine plain_setup root_drive fresh_machine ≡ root_config
config-new_example =
    config-new machine plain_setup plain_laws root_config fresh_machine fresh_machine root_drive
      built_lem makes_root
