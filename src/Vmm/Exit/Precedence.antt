-- ===== src/Vmm/Exit/Precedence.antt =====
-- A failed vCPU takes precedence over the ones that ended well.
use mathlib.Core.Path.{subst}
use herm_os_test.Prelude.{
  ◌≡◌, ◌≢◌, ◌⊎◌, inl, inr, refl, sym, true, List, [], ◌∷◌, Option, none, some, arith,
}
use herm_os_test.Vmm.Exit.{
  FcExitCode, success, failure_of, exited, other_response, Channel, VmmExit, after_failure,
  drain_channel, after_channel, find_exit_code, stop, process,
}

-- the exit `code` waits in the channel
abbrev pub IsReportedIn : FcExitCode → Channel → Type 0
IsReportedIn code [] = ⊥
IsReportedIn code (exited status ∷ c) = (status ≡ code) ⊎ IsReportedIn code c
IsReportedIn code (other_response ∷ c) = IsReportedIn code c

-- every exit in the channel, and in all the channels, is a success
abbrev pub HasEndedIn : Channel → Type 0
HasEndedIn [] = Unit {0}
HasEndedIn (exited status ∷ c) = (status ≡ success) × HasEndedIn c
HasEndedIn (other_response ∷ c) = HasEndedIn c

abbrev pub HasEnded : List Channel → Type 0
HasEnded [] = Unit {0}
HasEnded (c ∷ cs) = HasEndedIn c × HasEnded cs

-- some vCPU of the channels has reported the exit `code`
abbrev pub IsReported : FcExitCode → List Channel → Type 0
IsReported code [] = ⊥
IsReported code (c ∷ cs) = IsReportedIn code c ⊎ IsReported code cs

-- what a status says of an exit: it is no failure, or it is the failure found
data Status (code : FcExitCode) : Type 0 where
  ended : failure_of code ≡ none → code ≡ success → Status code
  failed : failure_of code ≡ some code → code ≢ success → Status code

Status-cases : (code : FcExitCode) → Status code
Status-cases success = ended refl refl
Status-cases FcExitCode.generic_error = failed refl (ground arith)
Status-cases FcExitCode.unexpected_error = failed refl (ground arith)
Status-cases FcExitCode.bad_syscall = failed refl (ground arith)
Status-cases FcExitCode.sigbus = failed refl (ground arith)
Status-cases FcExitCode.sigsegv = failed refl (ground arith)
Status-cases FcExitCode.sigxfsz = failed refl (ground arith)
Status-cases FcExitCode.sigxcpu = failed refl (ground arith)
Status-cases FcExitCode.sigpipe = failed refl (ground arith)
Status-cases FcExitCode.sighup = failed refl (ground arith)
Status-cases FcExitCode.sigill = failed refl (ground arith)
Status-cases FcExitCode.bad_configuration = failed refl (ground arith)
Status-cases FcExitCode.arg_parsing = failed refl (ground arith)

-- what the loop over a channel has found
abbrev Found : Channel → Option FcExitCode → Type 0
Found c none = HasEndedIn c
Found c (some code) = (code ≢ success) × IsReportedIn code c

after_exited-Found :
    (status : FcExitCode) (c : Channel) (rest : Option FcExitCode × Channel)
    → Found c rest.0
    → Status status
    → Found (exited status ∷ c) (after_failure (failure_of status) c rest).0
after_exited-Found status c (none, left) ih (ended e good) =
    subst (λ o. Found (exited status ∷ c) (after_failure o c (none, left)).0) (sym e) (good, ih)
after_exited-Found status c (some code, left) found (ended e good) =
    subst (λ o. Found (exited status ∷ c) (after_failure o c (some code, left)).0) (sym e)
      (found.0, inr found.1)
after_exited-Found status c rest ih (failed e bad) =
    subst (λ o. Found (exited status ∷ c) (after_failure o c rest).0) (sym e) (bad, inl refl)

other_response-Found :
    (c : Channel) (o : Option FcExitCode) → Found c o → Found (other_response ∷ c) o
other_response-Found c none found = found
other_response-Found c (some code) found = found

drain_channel-Found : (c : Channel) → Found c (drain_channel c).0
unfolding drain_channel
drain_channel-Found [] = tt
drain_channel-Found (other_response ∷ c) =
    other_response-Found c (drain_channel c).0 (drain_channel-Found c)
drain_channel-Found (exited status ∷ c) =
    after_exited-Found status c (drain_channel c) (drain_channel-Found c) (Status-cases status)

-- the same of all the channels, with the code that the loop reports
abbrev pub Answers : FcExitCode → List Channel → Type 0
Answers code cs = ((code ≡ success) × HasEnded cs) ⊎ ((code ≢ success) × IsReported code cs)

after_channel-Answers :
    (c : Channel) (cs : List Channel) (found : Option FcExitCode × Channel)
    (rest : FcExitCode × List Channel)
    → Found c found.0
    → Answers rest.0 cs
    → Answers (after_channel found cs rest).0 (c ∷ cs)
after_channel-Answers c cs (none, left) (code, lefts) fine (inl (good, others)) =
    inl (good, (fine, others))
after_channel-Answers c cs (none, left) (code, lefts) fine (inr (bad, r)) = inr (bad, inr r)
after_channel-Answers c cs (some code, left) rest found answers = inr (found.0, inl found.1)

find_exit_code-Answers : (cs : List Channel) → Answers (find_exit_code cs).0 cs
unfolding find_exit_code
find_exit_code-Answers [] = inl (refl, tt)
find_exit_code-Answers (c ∷ cs) =
    after_channel-Answers c cs (drain_channel c) (find_exit_code cs) (drain_channel-Found c)
      (find_exit_code-Answers cs)

-- On the exit event the VMM stops with a code: a failure that some vCPU has reported, if there is
-- one in any channel, however many vCPUs ended well; and the code for success only if every exit in
-- the channels is a success.
pub process-precedence :
    (s : VmmExit)
    → (code : FcExitCode) × ((process true s).shutdown_exit_code ≡ some code)
      × (((code ≡ success) × HasEnded s.channels) ⊎ ((code ≢ success) × IsReported code s.channels))
unfolding process stop
process-precedence s = ((find_exit_code s.channels).0, refl, find_exit_code-Answers s.channels)
