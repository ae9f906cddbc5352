-- ===== src/Launch.antt =====
-- create_firecracker.rs: a Firecracker process is started in a prepared context, waited for and removed.
pub mod Prepare
pub mod Tidy
use herm_os_test.Prelude.{
  ℕ, zero, suc, ◌+◌, ◌-◌, Bool, true, false, List, [], ◌∷◌, ◌++◌, Option, none, some, Outcome, ok,
  err, Text, codes, display,
}
use herm_os_test.Netns.Command.{NetnsError, NetnsHost}
use herm_os_test.Netns.Vm.{VmNetnsContext, VmState, prepare_full, enter, leave, drop_context}

-- `std::io::ErrorKind`
pub data ErrorKind : Type 0 where
  not_found connection_refused connection_aborted timed_out would_block interrupted other_kind :
      ErrorKind

-- a process is its number
pub data Call : Type 0 where
  remove_file exists connect spawn : Text → Call
  try_wait kill wait : ℕ → Call
  sleep : ℕ → Call

abbrev pub Answer : Call → Type 0
Answer (remove_file path) = Outcome ErrorKind (Unit {0})
Answer (exists path) = Bool
Answer (connect path) = Outcome ErrorKind (Unit {0})
Answer (spawn path) = Option ℕ
Answer (try_wait child) = Outcome ErrorKind (Option ℕ)
Answer (kill child) = Bool
Answer (wait child) = Bool
Answer (sleep ms) = Unit {0}

-- an error by its cause; that of a stale socket is its kind
pub data CleanupError : Type 0 where
  kill_failed wait_failed : CleanupError
  poll_before_cleanup socket_kept : ErrorKind → CleanupError

pub data LaunchError : Type 0 where
  stale_socket poll_failed not_connected : ErrorKind → LaunchError
  not_spawned socket_timeout no_context_left : LaunchError
  exited : ℕ → LaunchError
  joined : List CleanupError → LaunchError
  additionally : LaunchError → LaunchError → LaunchError
  netns_error : NetnsError → LaunchError

pub record FirecrackerContext : Type 0 where
  pub socket_path : Text
  pub netns : Option VmNetnsContext

abbrev pub attempts : ℕ
attempts = 100

abbrev pub sleep_ms : ℕ
sleep_ms = 10

unfoldable pub is_retryable_socket_error : ErrorKind → Bool
is_retryable_socket_error other_kind = false
is_retryable_socket_error not_found = true
is_retryable_socket_error connection_refused = true
is_retryable_socket_error connection_aborted = true
is_retryable_socket_error timed_out = true
is_retryable_socket_error would_block = true
is_retryable_socket_error interrupted = true

-- two results, each with its error
abbrev pub both :
    Outcome LaunchError (Unit {0}) → Outcome LaunchError (Unit {0}) → Outcome LaunchError (Unit {0})
both (ok _) (ok _) = ok tt
both (err e) (ok _) = err e
both (ok _) (err e) = err e
both (err e) (err f) = err (additionally e f)

-- the processes and files, beside the namespaces of `n`
module _ (n : NetnsHost) (sys : (c : Call) → n.World → Answer c × n.World) where
  abbrev pub Result : Type 0 → Type 0
  Result A = Outcome LaunchError A × n.World

  abbrev pub removed :
      Outcome ErrorKind (Unit {0}) × n.World → Outcome ErrorKind (Unit {0}) × n.World
  removed (ok _, w) = (ok tt, w)
  removed (err not_found, w) = (ok tt, w)
  removed (err e, w) = (err e, w)

  unfoldable pub remove_socket_if_exists : Text → n.World → Outcome ErrorKind (Unit {0}) × n.World
  remove_socket_if_exists path w = removed (sys (remove_file path) w)

  -- The body of the loop, from the end: `go_on` is the rest of the rounds.
  abbrev pub pause : (n.World → Result (Unit {0})) → n.World → Result (Unit {0})
  pause go_on w = go_on (sys (sleep sleep_ms) w).1

  abbrev pub connected :
      (n.World → Result (Unit {0})) → Outcome ErrorKind (Unit {0}) × n.World → Result (Unit {0})
  connected go_on (ok _, w) = (ok tt, w)
  connected go_on (err e, w) = elim (is_retryable_socket_error e) [
    | true ↦ pause go_on w
    | false ↦ (err (not_connected e), w)
  ]

  abbrev pub if_exists : Text → (n.World → Result (Unit {0})) → Bool × n.World → Result (Unit {0})
  if_exists path go_on (true, w) = connected go_on (sys (connect path) w)
  if_exists path go_on (false, w) = pause go_on w

  abbrev pub polled :
      Text
      → (n.World → Result (Unit {0}))
      → Outcome ErrorKind (Option ℕ) × n.World
      → Result (Unit {0})
  polled path go_on (err e, w) = (err (poll_failed e), w)
  polled path go_on (ok (some code), w) = (err (exited code), w)
  polled path go_on (ok none, w) = if_exists path go_on (sys (exists path) w)

  unfoldable pub wait_rounds : ℕ → Text → ℕ → n.World → Result (Unit {0})
  wait_rounds zero path child w = (err socket_timeout, w)
  wait_rounds (suc k) path child w = polled path (wait_rounds k path child) (sys (try_wait child) w)

  unfoldable pub wait_for_api_socket : Text → ℕ → n.World → Result (Unit {0})
  wait_for_api_socket path child w = wait_rounds attempts path child w

  -- `cleanup_child`: the errors of each part
  abbrev pub kill_errors : ℕ → Outcome ErrorKind (Option ℕ) × n.World → List CleanupError × n.World
  kill_errors child (ok (some code), w) = ([], w)
  kill_errors child (ok none, w) =
      let done = sys (kill child) w in
      (elim done.0 [ true ↦ [] | false ↦ kill_failed ∷ [] ], done.1)
  kill_errors child (err e, w) = (poll_before_cleanup e ∷ [], w)

  abbrev pub wait_errors : ℕ → List CleanupError × n.World → List CleanupError × n.World
  wait_errors child (errors, w) =
      let done = sys (wait child) w in
      (errors ++ elim done.0 [ true ↦ [] | false ↦ wait_failed ∷ [] ], done.1)

  abbrev pub error_of : Outcome ErrorKind (Unit {0}) → List CleanupError
  error_of (ok _) = []
  error_of (err e) = socket_kept e ∷ []

  abbrev pub socket_errors : Text → List CleanupError × n.World → List CleanupError × n.World
  socket_errors path (errors, w) =
      let done = remove_socket_if_exists path w in (errors ++ error_of done.0, done.1)

  abbrev pub no_errors : List CleanupError → Outcome LaunchError (Unit {0})
  no_errors [] = ok tt
  no_errors (e ∷ errors) = err (joined (e ∷ errors))

  unfoldable pub cleanup_child : ℕ → Text → n.World → Result (Unit {0})
  unfolding remove_socket_if_exists
  cleanup_child child path w =
      let done =
        socket_errors path (wait_errors child (kill_errors child (sys (try_wait child) w))) in
      (no_errors done.0, done.1)

  -- the closure of `run_once`
  abbrev pub with_child : Text → Option ℕ × n.World → Result (Unit {0})
  with_child path (none, w) = (err not_spawned, w)
  with_child path (some child, w) =
      let waited = wait_for_api_socket path child w in
      let cleaned = cleanup_child child path waited.1 in (both waited.0 cleaned.0, cleaned.1)

  abbrev pub after_removal : Text → Outcome ErrorKind (Unit {0}) × n.World → Result (Unit {0})
  after_removal path (err e, w) = (err (stale_socket e), w)
  after_removal path (ok _, w) = with_child path (sys (spawn path) w)

  unfoldable pub launch : Text → n.World → Result (Unit {0})
  unfolding remove_socket_if_exists wait_for_api_socket cleanup_child
  launch path w = after_removal path (remove_socket_if_exists path w)

  abbrev pub from_netns : Outcome NetnsError (Unit {0}) → Outcome LaunchError (Unit {0})
  from_netns (ok _) = ok tt
  from_netns (err e) = err (netns_error e)

  abbrev pub inside :
      Text → VmNetnsContext → Outcome NetnsError (Unit {0}) × n.World → Result (Unit {0})
  inside path c (err e, w) = (err (netns_error e), w)
  inside path c (ok _, w) =
      let done = launch path w in
      let left = leave n c done.1 in (both done.0 (from_netns left.0), left.1)

  -- the context is dropped at the end of the call
  abbrev pub run_in : Text → Option VmNetnsContext → n.World → Result (Unit {0})
  run_in path none w = launch path w
  run_in path (some c) w =
      let done = inside path c (enter n c w) in (done.0, drop_context n c done.1)

  unfoldable pub run_once : FirecrackerContext → n.World → Result (Unit {0})
  unfolding launch
  run_once context w = run_in context.socket_path context.netns w
