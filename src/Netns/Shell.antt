-- ===== src/Netns/Shell.antt =====
-- netns/full_shell.rs and netns/step_shell.rs: the benchmark operations that set a namespace up with
-- commands, and remove it.
pub mod Undone
use herm_os_test.Prelude.{
  ℕ, ◌+◌, ◌%◌, Bool, true, false, List, [], ◌∷◌, ◌++◌, Outcome, ok, err, Text, u64_mod,
}
use herm_os_test.Netns.Instance.{NetnsInstance, build_instance}
use herm_os_test.Netns.Command.{Words, NetnsError, NetnsHost, run_command, detect_upstream_device}
use herm_os_test.Netns.Spec.{Stage, stages, cleanup}
use herm_os_test.Netns.Vm.{VmState, run_stages}

module _ (n : NetnsHost) where
  open n use {World}

  abbrev pub plain : Stage → NetnsError → NetnsError
  plain st e = e

  abbrev pub shell_with :
      NetnsInstance → Outcome NetnsError Text × World → Outcome NetnsError (Unit {0}) × World
  shell_with i (err e, w) = (err e, w)
  shell_with i (ok upstream, w) =
      let result = run_stages n plain (stages n) i upstream w in
      (result.0, cleanup n i upstream result.1)

  -- `full_shell::run`, with a counter of its own
  unfoldable pub run : Text → VmState n → Outcome NetnsError (Unit {0}) × VmState n
  run token s =
      let done = shell_with (build_instance token s.next_seq) (detect_upstream_device n s.world) in
      (done.0, record s { next_seq = (s.next_seq + 1) % u64_mod; world = done.1 })

  -- One thread of `step_shell::run`, between the waits at the barrier: the stages after the first that
  -- fails are skipped, and the cleanup is done in any case. The names are those of the stages measured.
  unfoldable pub steps :
      List Stage → NetnsInstance → Text → List Text → World → Outcome NetnsError (List Text) × World
  steps [] i upstream results w = (ok results, w)
  steps (st ∷ sts) i upstream results w =
      let done = run_command n (st.build i upstream) st.allow_failure w in
      elim done.0 [
        | ok _ ↦ steps sts i upstream (results ++ (st.name ∷ [])) done.1
        | err e ↦ (err e, done.1)
      ]

  unfoldable pub step_thread : Text → ℕ → Text → World → Outcome NetnsError (List Text) × World
  unfolding steps
  step_thread token seq upstream w =
      let i = build_instance token seq in
      let result = steps (stages n) i upstream [] w in (result.0, cleanup n i upstream result.1)
