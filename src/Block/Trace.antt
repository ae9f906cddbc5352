-- ===== src/Block/Trace.antt =====
-- virtio/trace.rs: one line for each request, if the environment asks for it. The configuration is
-- read from the environment once and kept; the environment does not change.
use text.Mathlib.Text.{◌==◌ as str_eq}
use herm_os_test.Prelude.{ℕ, Bool, not, Option, none, some, String, if◌then◌else◌}
use herm_os_test.Block.Host.{Host}

pub record BlockTrace : Type 0 where
  pub path : String
  pub drive_filter : Option String

-- `if let Some(filter) = &config.drive_filter && filter != drive_id`
abbrev pub filtered_out : Option String → String → Bool
filtered_out none drive_id = Bool.false
filtered_out (some filter) drive_id = not (str_eq filter drive_id)

module _ (h : Host) where
  open h use {World, trace_path, trace_drive, append_line}

  abbrev trace_config_from : Option String → Option BlockTrace
  trace_config_from none = none
  trace_config_from (some path) = some (record { path = path; drive_filter = trace_drive })

  unfoldable pub trace_config : Option BlockTrace
  trace_config = trace_config_from trace_path

  unfoldable pub record_with : Option BlockTrace → String → String → ℕ → ℕ → World → World
  record_with none drive_id op offset length w = w
  record_with (some config) drive_id op offset length w =
      if filtered_out config.drive_filter drive_id
      then w
      else append_line config.path
          (record { drive_id = drive_id; op = op; offset = offset; length = length }) w

  -- `trace::record`
  unfoldable pub trace_record : String → String → ℕ → ℕ → World → World
  unfolding trace_config record_with
  trace_record = record_with trace_config
