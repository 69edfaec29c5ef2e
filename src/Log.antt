-- ===== src/Log.antt =====
-- The calls of the vendored logger simplog, as a list of what it was asked to write, oldest first.
-- Formats are kept as the source has them; what simplog does with them is not modelled.
use Prim.Native.String.{String}
use net_file_transfer.Base.{ℕ, List, [], ◌∷◌, ◌++◌}

pub data Level : Type 0 where
  simplog_fatal simplog_error simplog_info simplog_warn simplog_debug simplog_verbose : Level

-- An argument for `%lu`, `%d`, `%x`, or for `%s`.
pub data LogArg : Type 0 where
  number : ℕ → LogArg
  string : List ℕ → LogArg

pub data LogCall : Type 0 where
  written : Level → String → List LogArg → LogCall
  load_config : String → LogCall
  set_log_file : String → LogCall

abbrev pub Log : Type 0
Log = List LogCall

-- `simplog.writeLog(level, format, args...)`.
abbrev pub write_log : Level → String → List LogArg → Log → Log
write_log level format args log = log ++ written level format args ∷ []
