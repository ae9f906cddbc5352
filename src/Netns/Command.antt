-- ===== src/Netns/Command.antt =====
-- netns/command.rs: the commands and how they are run. An error is given by its cause, without its
-- text.
use herm_os_test.Prelude.{
  ℕ, Bool, true, false, ◌||◌, List, [], ◌∷◌, ◌++◌, Option, none, some, Outcome, ok, err, ok_or,
  Text, codes, before, strip_prefix, ◌>>=◌, if◌then◌else◌,
}

-- the words of a command line
abbrev pub Words : Type 0
Words = List Text

pub data NetnsError : Type 0 where
  spawn_failed : Words → NetnsError
  command_failed : Words → NetnsError
  route_not_run route_failed route_not_utf8 no_egress_device egress_not_closed : NetnsError
  no_netns_file : NetnsError
  not_opened : Text → NetnsError
  stage_failed : Text → NetnsError → NetnsError
  setns_failed : NetnsError

-- The processes, files and namespaces of the system. `status` runs a command: `none` is a spawn that
-- failed, and the Boolean is `ExitStatus::success`. A file is its number.
pub record NetnsHost : Type 1 where
  pub World : Type 0
  pub is_root : Bool
  pub status : Words → World → Option Bool × World
  -- `ip -j route list default`: its exit and what it wrote, `none` inside for text that is not UTF-8
  pub route_output : World → Option (Bool × Option Text) × World
  pub open_file : Text → World → Option ℕ × World
  pub setns : ℕ → World → Bool × World

module _ (n : NetnsHost) where
  open n use {World, is_root, status}

  abbrev pub privileged_prefix : Words
  privileged_prefix = if is_root then [] else codes "sudo" ∷ codes "-n" ∷ []

  unfoldable pub prefixed : Words → Words
  prefixed args = privileged_prefix ++ args

  unfoldable pub netns_add : Text → Words
  unfolding prefixed
  netns_add namespace = prefixed (codes "ip" ∷ codes "netns" ∷ codes "add" ∷ namespace ∷ [])

  unfoldable pub host_ip : Words → Words
  unfolding prefixed
  host_ip args = prefixed (codes "ip" ∷ args)

  unfoldable pub host_iptables : Words → Words
  unfolding prefixed
  host_iptables args = prefixed (codes "iptables" ∷ args)

  unfoldable pub netns_ip : Text → Words → Words
  unfolding prefixed
  netns_ip namespace args =
      prefixed (codes "ip" ∷ codes "netns" ∷ codes "exec" ∷ namespace ∷ codes "ip" ∷ args)

  unfoldable pub netns_iptables : Text → Words → Words
  unfolding prefixed
  netns_iptables namespace args =
      prefixed (codes "ip" ∷ codes "netns" ∷ codes "exec" ∷ namespace ∷ codes "iptables" ∷ args)

  unfoldable pub netns_del : Text → Words
  unfolding prefixed
  netns_del namespace = prefixed (codes "ip" ∷ codes "netns" ∷ codes "del" ∷ namespace ∷ [])

  abbrev pub judge : Words → Bool → Option Bool → Outcome NetnsError (Unit {0})
  judge args allow_failure none = err (spawn_failed args)
  judge args allow_failure (some success) =
      if success || allow_failure then ok tt else err (command_failed args)

  unfoldable pub run_command : Words → Bool → World → Outcome NetnsError (Unit {0}) × World
  run_command args allow_failure w =
      let done = status args w in (judge args allow_failure done.0, done.1)

-- what follows the first `marker` of a text
unfoldable pub find_after : Text → Text → Option Text
unfolding strip_prefix
find_after marker [] = strip_prefix marker []
find_after marker (c ∷ s) = elim (strip_prefix marker (c ∷ s)) [
  | some rest ↦ some rest
  | none ↦ find_after marker s
]

-- the text `"dev":"`, with its quotes as code points
abbrev pub dev_marker : Text
dev_marker = 34 ∷ (codes "dev" ++ (34 ∷ 58 ∷ 34 ∷ []))

abbrev pub egress : Option (Bool × Option Text) → Outcome NetnsError Text
egress none = err route_not_run
egress (some (false, stdout)) = err route_failed
egress (some (true, none)) = err route_not_utf8
egress (some (true, some stdout)) =
    ok_or no_egress_device (find_after dev_marker stdout) >>= λ rest.
    ok_or egress_not_closed (before 34 rest)

abbrev pub detect_upstream_device : (n : NetnsHost) → n.World → Outcome NetnsError Text × n.World
detect_upstream_device n w = let out = n.route_output w in (egress out.0, out.1)
