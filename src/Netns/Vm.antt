-- ===== src/Netns/Vm.antt =====
-- netns/vm.rs: `VmNetnsContext`, a namespace that is set up, entered, left and, with `drop`, removed.
use herm_os_test.Prelude.{
  ℕ, ◌+◌, ◌%◌, Bool, true, false, List, [], ◌∷◌, ◌++◌, Option, none, some, Outcome, ok, err, Text,
  codes, u64_mod,
}
use herm_os_test.Netns.Instance.{NetnsInstance, build_instance}
use herm_os_test.Netns.Command.{
  Words, NetnsError, stage_failed, no_netns_file, not_opened, setns_failed, NetnsHost, netns_add,
  netns_ip, netns_del, run_command, detect_upstream_device,
}
use herm_os_test.Netns.Spec.{Stage, tap_name, tap_cidr, stages, cleanup}

pub data VmNetnsCleanup : Type 0 where
  minimal : VmNetnsCleanup
  full : Text → VmNetnsCleanup

-- a file is its number
pub record VmNetnsContext : Type 0 where
  pub instance_of : NetnsInstance
  pub root_ns : ℕ
  pub target_ns : ℕ
  pub cleanup_of : VmNetnsCleanup

module _ (n : NetnsHost) where
  open n use {World, open_file, setns}

  -- the counter `NEXT_SEQ`, with the system
  pub record VmState : Type 0 where
    pub next_seq : ℕ
    pub world : World

  -- the `for` loop over `STAGES`; `wrap` is what it does to the error
  unfoldable pub run_stages :
      (Stage → NetnsError → NetnsError)
      → List Stage
      → NetnsInstance
      → Text
      → World
      → Outcome NetnsError (Unit {0}) × World
  run_stages wrap [] i upstream w = (ok tt, w)
  run_stages wrap (st ∷ sts) i upstream w =
      let done = run_command n (st.build i upstream) st.allow_failure w in
      elim done.0 [
        | ok _ ↦ run_stages wrap sts i upstream done.1
        | err e ↦ (err (wrap st e), done.1)
      ]

  -- commands that must all succeed, each with `?`
  unfoldable pub run_strict : List Words → World → Outcome NetnsError (Unit {0}) × World
  run_strict [] w = (ok tt, w)
  run_strict (c ∷ cs) w =
      let done = run_command n c false w in
      elim done.0 [ ok _ ↦ run_strict cs done.1 | err e ↦ (err e, done.1) ]

  abbrev pub minimal_commands : NetnsInstance → List Words
  minimal_commands i =
      netns_add n i.namespace
      ∷ netns_ip n i.namespace
          (codes "tuntap" ∷ codes "add" ∷ codes "dev" ∷ tap_name ∷ codes "mode" ∷ codes "tap" ∷ [])
      ∷ netns_ip n i.namespace (codes "addr" ∷ codes "add" ∷ tap_cidr ∷ codes "dev" ∷ tap_name ∷ [])
      ∷ netns_ip n i.namespace (codes "link" ∷ codes "set" ∷ tap_name ∷ codes "up" ∷ [])
      ∷ []

  abbrev pub second_path : Text → Option ℕ × World → Outcome NetnsError ℕ × World
  second_path namespace (some file, w) = (ok file, w)
  second_path namespace (none, w) =
      let run = open_file (codes "/run/netns/" ++ namespace) w in
      (elim run.0 [ some file ↦ ok file | none ↦ err (not_opened namespace) ], run.1)

  unfoldable pub open_named_netns : Text → World → Outcome NetnsError ℕ × World
  open_named_netns namespace w =
      second_path namespace (open_file (codes "/var/run/netns/" ++ namespace) w)

  -- the closure: the commands, then the file
  abbrev pub then_open : Text → Outcome NetnsError (Unit {0}) × World → Outcome NetnsError ℕ × World
  then_open namespace (ok _, w) = open_named_netns namespace w
  then_open namespace (err e, w) = (err e, w)

  -- the `match` on its result
  abbrev pub settle :
      NetnsInstance
      → ℕ
      → VmNetnsCleanup
      → (World → World)
      → Outcome NetnsError ℕ × World
      → Outcome NetnsError VmNetnsContext × World
  settle i root mode undo (ok target, w) =
      (ok (record { instance_of = i; root_ns = root; target_ns = target; cleanup_of = mode }), w)
  settle i root mode undo (err e, w) = (err e, undo w)

  abbrev pub delete_netns : NetnsInstance → World → World
  delete_netns i w = (run_command n (netns_del n i.namespace) true w).1

  abbrev pub minimal_from :
      NetnsInstance → Option ℕ × World → Outcome NetnsError VmNetnsContext × World
  minimal_from i (none, w) = (err no_netns_file, w)
  minimal_from i (some root, w) =
      settle i root minimal (delete_netns i)
        (then_open i.namespace (run_strict (minimal_commands i) w))

  abbrev pub proc_netns : Text
  proc_netns = codes "/proc/self/ns/net"

  -- with the counter advanced
  abbrev pub counted :
      VmState
      → Outcome NetnsError VmNetnsContext × World
      → Outcome NetnsError VmNetnsContext × VmState
  counted s o = (o.0, record s { next_seq = (s.next_seq + 1) % u64_mod; world = o.1 })

  unfoldable pub prepare_minimal : Text → VmState → Outcome NetnsError VmNetnsContext × VmState
  unfolding run_strict open_named_netns
  prepare_minimal token s =
      counted s (minimal_from (build_instance token s.next_seq) (open_file proc_netns s.world))

  abbrev pub named_stage : Stage → NetnsError → NetnsError
  named_stage st e = stage_failed st.name e

  abbrev pub full_with :
      NetnsInstance
      → ℕ
      → Outcome NetnsError Text × World
      → Outcome NetnsError VmNetnsContext × World
  full_with i root (err e, w) = (err e, w)
  full_with i root (ok upstream, w) =
      settle i root (full upstream) (cleanup n i upstream)
        (then_open i.namespace (run_stages named_stage (stages n) i upstream w))

  abbrev pub full_from :
      NetnsInstance → Option ℕ × World → Outcome NetnsError VmNetnsContext × World
  full_from i (none, w) = (err no_netns_file, w)
  full_from i (some root, w) = full_with i root (detect_upstream_device n w)

  unfoldable pub prepare_full : Text → VmState → Outcome NetnsError VmNetnsContext × VmState
  unfolding run_stages open_named_netns
  prepare_full token s =
      counted s (full_from (build_instance token s.next_seq) (open_file proc_netns s.world))

  abbrev pub entered : Bool × World → Outcome NetnsError (Unit {0}) × World
  entered (true, w) = (ok tt, w)
  entered (false, w) = (err setns_failed, w)

  unfoldable pub enter : VmNetnsContext → World → Outcome NetnsError (Unit {0}) × World
  enter c w = entered (setns c.target_ns w)

  unfoldable pub leave : VmNetnsContext → World → Outcome NetnsError (Unit {0}) × World
  leave c w = entered (setns c.root_ns w)

  abbrev pub undo_context : VmNetnsContext → VmNetnsCleanup → World → World
  undo_context c minimal w = delete_netns c.instance_of w
  undo_context c (full upstream) w = cleanup n c.instance_of upstream w

  -- the destructor
  unfoldable pub drop_context : VmNetnsContext → World → World
  unfolding leave
  drop_context c w = undo_context c c.cleanup_of (leave c w).1
