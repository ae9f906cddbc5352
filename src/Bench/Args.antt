-- ===== src/Bench/Args.antt =====
-- main.rs: `parse_args`. A call of `usage`, which ends the process, is `none`.
pub mod Shares
use herm_os_test.Prelude.{
  ℕ, zero, suc, min, Bool, true, false, ◌&&◌, ◌||◌, List, [], ◌∷◌, Option, none, some, Outcome, ok,
  err, if◌then◌else◌, ◌==◌, Run, returned, panicked, bind_run, Text, codes, parse_unsigned, u64_mod,
}
use herm_os_test.Bench.Split.{RunConfig}

unfoldable pub text_eq : Text → Text → Bool
text_eq [] [] = true
text_eq [] (d ∷ t) = false
text_eq (c ∷ s) [] = false
text_eq (c ∷ s) (d ∷ t) = c == d && text_eq s t

-- the local variables
pub record Parsed : Type 0 where
  pub op : Option Text
  pub total : Option ℕ
  pub concurrency : Option ℕ
  pub measure_per_op_usage : Bool

-- the arms of the `match`
pub data Flag : Type 0 where
  op_flag total_flag concurrency_flag per_op_usage no_per_op_usage unknown : Flag

unfoldable pub flag_of : Text → Flag
unfolding text_eq
flag_of arg =
    if text_eq arg (codes "-p") || text_eq arg (codes "--op")
    then op_flag
    else if text_eq arg (codes "-t") || text_eq arg (codes "--total")
    then total_flag
    else if text_eq arg (codes "-c") || text_eq arg (codes "--concurrency")
    then concurrency_flag
    else if text_eq arg (codes "--per-op-usage")
    then per_op_usage
    else if text_eq arg (codes "--no-per-op-usage")
    then no_per_op_usage
    else unknown

-- `args[i].parse::<usize>().unwrap()`
abbrev pub number : Text → Run ℕ
number value = elim (parse_unsigned u64_mod value) [ some n ↦ returned n | none ↦ panicked ]

-- a flag that takes the next argument
abbrev pub with_value : Flag → Text → Parsed → Run (Option Parsed)
with_value op_flag value p = returned (some (record p { op = some value }))
with_value total_flag value p =
    bind_run (number value) λ n. returned (some (record p { total = some n }))
with_value concurrency_flag value p =
    bind_run (number value) λ n. returned (some (record p { concurrency = some n }))
with_value per_op_usage value p = returned none
with_value no_per_op_usage value p = returned none
with_value unknown value p = returned none

-- the rest of the loop, after a step that may have called `usage`
abbrev pub and_then : (Parsed → Run (Option Parsed)) → Option Parsed → Run (Option Parsed)
and_then go_on none = returned none
and_then go_on (some p) = go_on p

-- the last argument: a flag that takes a value has none, and the index is out of bounds
abbrev pub last_flag : Flag → Parsed → Run (Option Parsed)
last_flag op_flag p = panicked
last_flag total_flag p = panicked
last_flag concurrency_flag p = panicked
last_flag per_op_usage p = returned (some (record p { measure_per_op_usage = true }))
last_flag no_per_op_usage p = returned (some (record p { measure_per_op_usage = false }))
last_flag unknown p = returned none

-- one argument with another after it: `short` goes on with the next one, `long` with the one after
abbrev pub middle_flag :
    Flag
    → Text
    → (Parsed → Run (Option Parsed))
    → (Parsed → Run (Option Parsed))
    → Parsed
    → Run (Option Parsed)
middle_flag op_flag value short long p = bind_run (with_value op_flag value p) (and_then long)
middle_flag total_flag value short long p = bind_run (with_value total_flag value p) (and_then long)
middle_flag concurrency_flag value short long p =
    bind_run (with_value concurrency_flag value p) (and_then long)
middle_flag per_op_usage value short long p = short (record p { measure_per_op_usage = true })
middle_flag no_per_op_usage value short long p = short (record p { measure_per_op_usage = false })
middle_flag unknown value short long p = returned none

-- the `while` loop over the arguments
unfoldable pub parse_loop : List Text → Parsed → Run (Option Parsed)
unfolding flag_of
parse_loop [] p = returned (some p)
parse_loop (arg ∷ []) p = last_flag (flag_of arg) p
parse_loop (arg ∷ (value ∷ args)) p =
    middle_flag (flag_of arg) value (parse_loop (value ∷ args)) (parse_loop args) p

-- what is checked after the loop
abbrev pub checked : Text → ℕ → ℕ → Bool → Option (Text × RunConfig)
checked op total concurrency measure =
    if total == 0 || concurrency == 0
    then none
    else some (
      op,
      record { total = total; concurrency = min concurrency total; measure_per_op_usage = measure },
    )

abbrev pub concurrency_or : ℕ → Option ℕ → ℕ
concurrency_or total none = total
concurrency_or total (some c) = c

abbrev pub complete : Option Text → Option ℕ → Parsed → Option (Text × RunConfig)
complete none total p = none
complete (some op) none p = none
complete (some op) (some total) p =
    checked op total (concurrency_or total p.concurrency) p.measure_per_op_usage

abbrev pub finish_args : Option Parsed → Option (Text × RunConfig)
finish_args none = none
finish_args (some p) = complete p.op p.total p

abbrev pub no_args : Parsed
no_args = record { op = none; total = none; concurrency = none; measure_per_op_usage = true }

-- the arguments after the name of the program
unfoldable pub parse_args : List Text → Run (Option (Text × RunConfig))
unfolding parse_loop
parse_args args = bind_run (parse_loop args no_args) λ p. returned (finish_args p)
