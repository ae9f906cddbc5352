-- ===== src/Launch/Tidy.antt =====
-- A process that was started is waited for, and its socket removed.
use herm_os_test.Prelude.{
  ℕ, ◌≤◌, ◌≡◌, ◌⊎◌, Bool, true, false, List, [], ◌∷◌, ◌++◌, Option, none, some, Outcome, ok, err,
  Text, length,
}
use herm_os_test.Netns.Command.{Words, NetnsHost}
use herm_os_test.Launch.{
  ErrorKind, Call, remove_file, exists, connect, spawn, try_wait, kill, wait, sleep, Answer,
  remove_socket_if_exists,
}

-- the calls that only look at a process or a socket, or let time pass
abbrev pub is_poll : Call → Bool
is_poll (exists path) = true
is_poll (connect path) = true
is_poll (try_wait child) = true
is_poll (sleep ms) = true
is_poll (remove_file path) = false
is_poll (spawn path) = false
is_poll (kill child) = false
is_poll (wait child) = false

abbrev pub ArePolls : List Call → Type 0
ArePolls [] = Unit {0}
ArePolls (c ∷ cs) = (is_poll c ≡ true) × ArePolls cs

-- A log of the calls: each adds itself, and the commands and namespaces of `n` leave it as it is.
pub record CallLog (n : NetnsHost) (sys : (c : Call) → n.World → Answer c × n.World) : Type 0 where
  pub log : n.World → List Call
  pub log-sys : (c : Call) (w : n.World) → log (sys c w).1 ≡ log w ++ (c ∷ [])
  pub log-status : (c : Words) (w : n.World) → log (n.status c w).1 ≡ log w
  pub log-setns : (file : ℕ) (w : n.World) → log (n.setns file w).1 ≡ log w

module _ (n : NetnsHost) (sys : (c : Call) → n.World → Answer c × n.World)
    (calls : CallLog n sys) where
  open calls use {log, log-sys, log-status, log-setns}

  -- at most `m` polls were made
  abbrev pub IsPolling : ℕ → List Call → List Call → Type 0
  IsPolling m earlier later =
      (polls : List Call) × (later ≡ earlier ++ polls) × ArePolls polls × (length polls ≤ m)

  -- the kill that the answer to the last poll asks for: one where the child has not exited
  abbrev pub kills_after : ℕ → Outcome ErrorKind (Option ℕ) → List Call
  kills_after child (ok none) = kill child ∷ []
  kills_after child (ok (some code)) = []
  kills_after child (err e) = []

  -- How one launch from `w` ends once `child` runs: at most 400 polls, which end in `u`, the last poll of
  -- the child, a kill where that poll says that it still runs, the wait and the removal of the socket.
  abbrev pub IsReaped : Text → ℕ → n.World → List Call → Type 0
  IsReaped path child w later =
      (polls : List Call) × (u : n.World) × ArePolls polls
      × (length polls ≤ 400)
      × (log u ≡ log w ++ (remove_file path ∷ spawn path ∷ polls))
      × (later
          ≡ log u
            ++ (try_wait child
                ∷ (kills_after child (sys (try_wait child) u).0
                    ++ (wait child ∷ remove_file path ∷ []))))

  -- What one launch from `w` did: the stale socket is removed, and, if that worked, a process started. If
  -- there is one, it is reaped.
  abbrev pub IsLaunch : Text → n.World → List Call → Type 0
  IsLaunch path w later =
      (later ≡ log w ++ (remove_file path ∷ []))
      ⊎ ((later ≡ log w ++ (remove_file path ∷ spawn path ∷ []))
          ⊎ ((child : ℕ) × ((sys (spawn path) (remove_socket_if_exists n sys path w).1).0
                ≡ some child)
              × IsReaped path child w later))

  -- a launch from a world with the same log, or none
  abbrev pub IsTidy : Text → n.World → List Call → Type 0
  IsTidy path w later =
      (later ≡ log w) ⊎ ((w' : n.World) × (log w' ≡ log w) × IsLaunch path w' later)
