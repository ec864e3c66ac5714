-- ===== src/Tests/Logging.antt =====
-- Lines of the log at concrete inputs.
use linuwux_runtime.Base.{ℕ, ◌≡◌, ◌++◌, refl, true, false, some, List, [], ◌∷◌, arith}
use linuwux_runtime.Debug.{
  Log, new, push, append, append_text, remaining, digits, number, finish, new_line, emit,
  debug_log_hex, enabled, open_log, linuwux_setup_debug,
}
use linuwux_runtime.Debug.Printed.{read_number, debug_log_hex-read_number}

abbrev log : Log
log = record { on = true; pid = 7; tid = 8; has_file = true; has_stderr = false }

-- "a"
abbrev prefix : List ℕ
prefix = 0x61 ∷ []

-- "[linuwux] pid=7 linux_tid=8 a0x1f\n"
hex_line :
    (debug_log_hex log (some prefix) 31).0
    ≡ 0x5b ∷ 0x6c ∷ 0x69 ∷ 0x6e ∷ 0x75 ∷ 0x77 ∷ 0x75 ∷ 0x78 ∷ 0x5d ∷ 0x20 ∷ 0x70 ∷ 0x69 ∷ 0x64
      ∷ 0x3d ∷ 0x37 ∷ 0x20 ∷ 0x6c ∷ 0x69 ∷ 0x6e ∷ 0x75 ∷ 0x78 ∷ 0x5f ∷ 0x74 ∷ 0x69 ∷ 0x64 ∷ 0x3d
      ∷ 0x38 ∷ 0x20 ∷ 0x61 ∷ 0x30 ∷ 0x78 ∷ 0x31 ∷ 0x66 ∷ 0x0a ∷ []
unfolding debug_log_hex new_line new append append_text push remaining number digits finish emit
hex_line = refl

debug_log_hex-read_number_example :
    (ds : List ℕ) × ((debug_log_hex log (some prefix) 31).0
      ≡ (((new_line log ++ prefix) ++ 0x30 ∷ 0x78 ∷ []) ++ ds) ++ 0x0a ∷ [])
    × (read_number true ds ≡ 31)
debug_log_hex-read_number_example =
    debug_log_hex-read_number log prefix 31 refl refl (omega arith) (omega arith)

-- A log file that is not a regular file is refused; stderr still serves.
pipe_refused :
    linuwux_setup_debug
      (record {
        debug = some (0x31 ∷ []);
        path = some (0x70 ∷ []);
        stderr_supported = true;
        opens = true;
        is_regular = false;
        chmods = true;
        open_errno = 0;
        chmod_errno = 0;
      })
      (record { on = false; has_file = false; has_stderr = false; open_errno = 0 })
    ≡ record { on = true; has_file = false; has_stderr = true; open_errno = 22 }
unfolding linuwux_setup_debug enabled open_log
pipe_refused = refl
