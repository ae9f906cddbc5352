-- ===== src/Vmm/Exit.antt =====
-- lib.rs: the exit event of the vCPUs. A channel is the list of the responses that wait in it.
pub mod Precedence
use herm_os_test.Prelude.{ℕ, Bool, true, false, List, [], ◌∷◌, Option, none, some}

pub data FcExitCode : Type 0 where
  success generic_error unexpected_error bad_syscall : FcExitCode
  sigbus sigsegv sigxfsz sigxcpu sigpipe sighup sigill : FcExitCode
  bad_configuration arg_parsing : FcExitCode

-- the number that the process ends with
unfoldable pub exit_number : FcExitCode → ℕ
exit_number success = 0
exit_number generic_error = 1
exit_number unexpected_error = 2
exit_number bad_syscall = 148
exit_number sigbus = 149
exit_number sigsegv = 150
exit_number sigxfsz = 151
exit_number sigxcpu = 154
exit_number sigpipe = 155
exit_number sighup = 156
exit_number sigill = 157
exit_number bad_configuration = 152
exit_number arg_parsing = 153

-- `status != FcExitCode::Ok`
abbrev pub failure_of : FcExitCode → Option FcExitCode
failure_of success = none
failure_of code = some code

-- a response in a channel: `VcpuResponse::Exited(status)` or another one
pub data Waiting : Type 0 where
  exited : FcExitCode → Waiting
  other_response : Waiting

abbrev pub Channel : Type 0
Channel = List Waiting

pub record VmmExit : Type 0 where
  pub shutdown_exit_code : Option FcExitCode
  pub channels : List Channel

-- the loop over one channel: the first failure stops it, what it did not read stays
abbrev pub after_failure :
    Option FcExitCode → Channel → Option FcExitCode × Channel → Option FcExitCode × Channel
after_failure none left rest = rest
after_failure (some code) left rest = (some code, left)

unfoldable pub drain_channel : Channel → Option FcExitCode × Channel
drain_channel [] = (none, [])
drain_channel (other_response ∷ c) = drain_channel c
drain_channel (exited code ∷ c) = after_failure (failure_of code) c (drain_channel c)

abbrev pub after_channel :
    Option FcExitCode × Channel
    → List Channel
    → FcExitCode × List Channel
    → FcExitCode × List Channel
after_channel (none, c) cs (code, cs') = (code, c ∷ cs')
after_channel (some code, c) cs rest = (code, c ∷ cs)

-- the loop over the vCPUs
unfoldable pub find_exit_code : List Channel → FcExitCode × List Channel
find_exit_code [] = (success, [])
find_exit_code (c ∷ cs) = after_channel (drain_channel c) cs (find_exit_code cs)

unfoldable pub stop : FcExitCode → VmmExit → VmmExit
stop code s = record s { shutdown_exit_code = some code }

-- The handler. `is_exit_event`: the event is an EPOLLIN of the exit descriptor; any other is spurious.
unfoldable pub process : Bool → VmmExit → VmmExit
unfolding stop
process false s = s
process true s =
    let (code, channels) = find_exit_code s.channels in stop code (record s { channels = channels })
