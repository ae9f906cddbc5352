-- ===== src/Netns/Shell/Undone.antt =====
-- What the commands that were run do is undone.
use mathlib.Core.Path.{subst}
use mathlib.Core.List.{append_assoc, append-nil}
use herm_os_test.Prelude.{
  ℕ, suc, ◌≡◌, refl, sym, ap, ◌∙◌, ◌⊎◌, inl, inr, Bool, true, false, List, [], ◌∷◌, ◌++◌, Option,
  none, some, Outcome, ok, err, Outcome-cases, Text, codes, take,
}
use herm_os_test.Netns.Instance.{NetnsInstance, build_instance}
use herm_os_test.Netns.Command.{Words, NetnsError, NetnsHost, run_command, egress}
use herm_os_test.Netns.Spec.{Stage, stages, cleanup_commands, run_all_allowed, cleanup}
use herm_os_test.Netns.Vm.{
  VmNetnsContext, full, VmState, run_stages, open_named_netns, second_path, then_open, settle,
  full_with, full_from, prepare_full, proc_netns, named_stage, leave, entered, drop_context,
}
use herm_os_test.Netns.Shell.{plain, shell_with, run, steps, step_thread}

-- A journal of the commands: running one adds it, and nothing else does.
pub record Journal (n : NetnsHost) : Type 0 where
  pub seen : n.World → List Words
  pub seen-status : (c : Words) (w : n.World) → seen (n.status c w).1 ≡ seen w ++ (c ∷ [])
  pub seen-route_output : (w : n.World) → seen (n.route_output w).1 ≡ seen w
  pub seen-open_file : (path : Text) (w : n.World) → seen (n.open_file path w).1 ≡ seen w
  pub seen-setns : (file : ℕ) (w : n.World) → seen (n.setns file w).1 ≡ seen w

-- the commands of the stages
abbrev pub commands_of : NetnsInstance → Text → List Stage → List Words
commands_of i upstream [] = []
commands_of i upstream (st ∷ sts) = st.build i upstream ∷ commands_of i upstream sts

module _ (n : NetnsHost) (j : Journal n) where
  open j use {seen, seen-status, seen-route_output, seen-open_file, seen-setns}

  -- nothing was run, or some of the stages from the first, and then the cleanup
  abbrev pub IsUndone : NetnsInstance → List Words → List Words → Type 0
  IsUndone i earlier later =
      (later ≡ earlier)
      ⊎ ((k : ℕ) × (upstream : Text) × (later
            ≡ earlier
              ++ (take k (commands_of i upstream (stages n)) ++ cleanup_commands n i upstream)))

  seen-run_command :
      (c : Words) (allow : Bool) (w : n.World)
      → seen (run_command n c allow w).1 ≡ seen w ++ (c ∷ [])
  unfolding run_command
  seen-run_command c allow w = seen-status c w

  -- one more command in front
  one_more :
      (c : Words) (cs : List Words) (a b d : List Words)
      → b ≡ a ++ (c ∷ [])
      → d ≡ b ++ cs
      → d ≡ a ++ (c ∷ cs)
  one_more c cs a b d first rest = rest ∙ ap (λ x. x ++ cs) first ∙ append_assoc a (c ∷ []) cs

  seen-run_all_allowed :
      (cs : List Words) (w : n.World) → seen (run_all_allowed n cs w) ≡ seen w ++ cs
  unfolding run_all_allowed
  seen-run_all_allowed [] w = sym (append-nil (seen w))
  seen-run_all_allowed (c ∷ cs) w =
      one_more c cs (seen w) (seen (run_command n c true w).1) _ (seen-run_command c true w)
        (seen-run_all_allowed cs (run_command n c true w).1)

  seen-run_stages :
      (wrap : Stage → NetnsError → NetnsError) (sts : List Stage) (i : NetnsInstance)
      (upstream : Text) (w : n.World)
      → (k : ℕ) × (seen (run_stages n wrap sts i upstream w).1
          ≡ seen w ++ take k (commands_of i upstream sts))
  unfolding run_stages
  seen-run_stages wrap [] i upstream w = (0, sym (append-nil (seen w)))
  seen-run_stages wrap (st ∷ sts) i upstream w =
      let c = st.build i upstream in
      let done = run_command n c st.allow_failure w in
      let first = seen-run_command c st.allow_failure w in
      elim (Outcome-cases done.0) [
        | inl (_, well) ↦
            let (k, rest) = seen-run_stages wrap sts i upstream done.1 in
            (
              suc k,
              rw (run_stages, well)
                  (one_more c (take k (commands_of i upstream sts)) (seen w) (seen done.1) _ first
                    rest),
            )
        | inr (e, failed) ↦ (1, rw (run_stages, failed) first)
      ]

  seen-steps :
      (sts : List Stage) (i : NetnsInstance) (upstream : Text) (results : List Text) (w : n.World)
      → (k : ℕ) × (seen (steps n sts i upstream results w).1
          ≡ seen w ++ take k (commands_of i upstream sts))
  unfolding steps
  seen-steps [] i upstream results w = (0, sym (append-nil (seen w)))
  seen-steps (st ∷ sts) i upstream results w =
      let c = st.build i upstream in
      let done = run_command n c st.allow_failure w in
      let first = seen-run_command c st.allow_failure w in
      elim (Outcome-cases done.0) [
        | inl (_, well) ↦
            let (k, rest) = seen-steps sts i upstream (results ++ (st.name ∷ [])) done.1 in
            (
              suc k,
              rw (steps, well)
                  (one_more c (take k (commands_of i upstream sts)) (seen w) (seen done.1) _ first
                    rest),
            )
        | inr (e, failed) ↦ (1, rw (steps, failed) first)
      ]

  -- the cleanup, after some of the stages
  cleaned :
      (i : NetnsInstance) (upstream : Text) (k : ℕ) (earlier : List Words) (w : n.World)
      → seen w ≡ earlier ++ take k (commands_of i upstream (stages n))
      → IsUndone i earlier (seen (cleanup n i upstream w))
  unfolding cleanup
  cleaned i upstream k earlier w e = inr (
    k,
    upstream,
    seen-run_all_allowed (cleanup_commands n i upstream) w
        ∙ ap (λ x. x ++ cleanup_commands n i upstream) e
        ∙ append_assoc earlier (take k (commands_of i upstream (stages n)))
            (cleanup_commands n i upstream),
  )

  shell_with-IsUndone :
      (i : NetnsInstance) (o : Outcome NetnsError Text) (w : n.World)
      → IsUndone i (seen w) (seen (shell_with n i (o, w)).1)
  shell_with-IsUndone i (err e) w = inl refl
  shell_with-IsUndone i (ok upstream) w =
      let (k, e) = seen-run_stages (plain n) (stages n) i upstream w in
      cleaned i upstream k (seen w) (run_stages n (plain n) (stages n) i upstream w).1 e

  -- what `prepare_full` gave is dropped; an error leaves nothing to drop
  abbrev pub end_of_life : Outcome NetnsError VmNetnsContext × n.World → n.World
  end_of_life (ok c, w) = drop_context n c w
  end_of_life (err e, w) = w

  seen-leave : (c : VmNetnsContext) (w : n.World) → seen (leave n c w).1 ≡ seen w
  unfolding leave
  seen-leave c w = seen-entered (n.setns c.root_ns w) ∙ seen-setns c.root_ns w
    where
      seen-entered : (o : Bool × n.World) → seen (entered n o).1 ≡ seen o.1
      seen-entered (true, w) = refl
      seen-entered (false, w) = refl

  seen-open_named_netns :
      (namespace : Text) (w : n.World) → seen (open_named_netns n namespace w).1 ≡ seen w
  unfolding open_named_netns
  seen-open_named_netns namespace w =
      seen-second_path (n.open_file (codes "/var/run/netns/" ++ namespace) w) ∙ seen-open_file _ w
    where
      seen-second_path : (o : Option ℕ × n.World) → seen (second_path n namespace o).1 ≡ seen o.1
      seen-second_path (some file, w) = refl
      seen-second_path (none, w) = seen-open_file _ w

  seen-then_open :
      (namespace : Text) (o : Outcome NetnsError (Unit {0}) × n.World)
      → seen (then_open n namespace o).1 ≡ seen o.1
  seen-then_open namespace (ok _, w) = seen-open_named_netns namespace w
  seen-then_open namespace (err e, w) = refl

  settled :
      (i : NetnsInstance) (root : ℕ) (upstream : Text) (k : ℕ) (earlier : List Words)
      (o : Outcome NetnsError ℕ × n.World)
      → seen o.1 ≡ earlier ++ take k (commands_of i upstream (stages n))
      → IsUndone i earlier
          (seen (end_of_life (settle n i root (full upstream) (cleanup n i upstream) o)))
  unfolding drop_context
  settled i root upstream k earlier (ok target, w) e =
      let c : VmNetnsContext = record {
        instance_of = i;
        root_ns = root;
        target_ns = target;
        cleanup_of = full upstream;
      } in
      cleaned i upstream k earlier (leave n c w).1 (seen-leave c w ∙ e)
  settled i root upstream k earlier (err x, w) e = cleaned i upstream k earlier w e

  full_with-IsUndone :
      (i : NetnsInstance) (root : ℕ) (o : Outcome NetnsError Text) (w : n.World)
      → IsUndone i (seen w) (seen (end_of_life (full_with n i root (o, w))))
  full_with-IsUndone i root (err e) w = inl refl
  full_with-IsUndone i root (ok upstream) w =
      let (k, e) = seen-run_stages (named_stage n) (stages n) i upstream w in
      let ran = run_stages n (named_stage n) (stages n) i upstream w in
      settled i root upstream k (seen w) (then_open n i.namespace ran)
        (seen-then_open i.namespace ran ∙ e)

  full_from-IsUndone :
      (i : NetnsInstance) (o : Option ℕ × n.World)
      → IsUndone i (seen o.1) (seen (end_of_life (full_from n i o)))
  full_from-IsUndone i (none, w) = inl refl
  full_from-IsUndone i (some root, w) =
      let out = n.route_output w in
      subst (λ b. IsUndone i b (seen (end_of_life (full_from n i (some root, w)))))
        (seen-route_output w) (full_with-IsUndone i root (egress out.0) out.1)

  -- The namespace that `prepare_full` sets up and `drop` removes, the one of `full_shell::run`, and the
  -- one of a thread of `step_shell::run`: whichever command fails, the journal of the commands holds
  -- nothing new, or the stages up to some point followed by the whole cleanup of the same instance.
  pub netns-IsUndone :
      (token : Text) (seq : ℕ) (upstream : Text) (s : VmState n)
      → (let made = prepare_full n token s in
          IsUndone
            (build_instance token s.next_seq)
            (seen s.world)
            (seen (end_of_life (made.0, made.1.world))))
        × IsUndone (build_instance token s.next_seq) (seen s.world) (seen (run n token s).1.world)
        × IsUndone
            (build_instance token seq)
            (seen s.world)
            (seen (step_thread n token seq upstream s.world).1)
  unfolding prepare_full run step_thread
  netns-IsUndone token seq upstream s =
      let i = build_instance token s.next_seq in
      let file = n.open_file (proc_netns n) s.world in
      let out = n.route_output s.world in
      let j' = build_instance token seq in
      let (k, e) = seen-steps (stages n) j' upstream [] s.world in
      (
        subst (λ b. IsUndone i b (seen (end_of_life (full_from n i file))))
            (seen-open_file (proc_netns n) s.world) (full_from-IsUndone i file),
        subst (λ b. IsUndone i b (seen (shell_with n i (egress out.0, out.1)).1))
            (seen-route_output s.world) (shell_with-IsUndone i (egress out.0) out.1),
        cleaned j' upstream k (seen s.world) (steps n (stages n) j' upstream [] s.world).1 e,
      )
