-- ===== src/Debug.antt =====
-- protocol/debug.rs and runtime/src/debug.rs: the lines of the log. A line is the bytes that are written of
-- its buffer. The ids of the thread and the process, and the descriptors, are arguments; a string is its
-- bytes without the closing zero, and `none` is a null pointer.
pub mod Printed
use linuwux_runtime.Base.{
  ℕ, zero, suc, ◌+◌, ◌-◌, ◌*◌, ◌/◌, ◌%◌, Bool, true, false, not, ◌&&◌, ◌||◌, Option, none, some,
  List, [], ◌∷◌, ◌++◌, ◌==◌, ltb, leb, length, take, bytes_eq, if◌then◌else◌,
}

abbrev pub capacity : ℕ
capacity = 512

unfoldable pub enabled : Option (List ℕ) → Bool
enabled none = false
enabled (some value) = not (length value == 0) && not (bytes_eq value (0x30 ∷ []))

abbrev pub Line : Type 0
Line = List ℕ

unfoldable pub remaining : Line → ℕ
remaining line = capacity - 1 - length line

unfoldable pub push : ℕ → Line → Line
push byte line = if not (remaining line == 0) then line ++ byte ∷ [] else line

abbrev pub smaller : ℕ → ℕ → ℕ
smaller a b = if leb a b then a else b

unfoldable pub append : List ℕ → Line → Line
append text line = line ++ take (smaller (length text) (remaining line)) text

abbrev pub base : Bool → ℕ
base true = 16
base false = 10

-- The entry of "0123456789abcdef".
abbrev pub digit : ℕ → ℕ
digit d = if ltb d 10 then 0x30 + d else 0x61 + (d - 10)

-- The rounds of the loop in front of the digits that are there; the array has 20 places.
unfoldable pub digits : ℕ → Bool → ℕ → List ℕ → List ℕ
digits zero hex value written = written
digits (suc places) hex value written =
    let written' = digit (value % base hex) ∷ written in
    let rest = digits places hex (value / base hex) written' in
    if value / base hex == 0 then written' else rest

unfoldable pub number : ℕ → Bool → Line → Line
number value hex line = append (digits 20 hex value []) line

-- "[linuwux] pid="
abbrev pub pid_label : List ℕ
pid_label =
    0x5b ∷ 0x6c ∷ 0x69 ∷ 0x6e ∷ 0x75 ∷ 0x77 ∷ 0x75 ∷ 0x78 ∷ 0x5d ∷ 0x20 ∷ 0x70 ∷ 0x69 ∷ 0x64 ∷ 0x3d
    ∷ []

-- " linux_tid="
abbrev pub tid_label : List ℕ
tid_label = 0x20 ∷ 0x6c ∷ 0x69 ∷ 0x6e ∷ 0x75 ∷ 0x78 ∷ 0x5f ∷ 0x74 ∷ 0x69 ∷ 0x64 ∷ 0x3d ∷ []

abbrev pub with_thread : Option ℕ → Line → Line
with_thread none line = line
with_thread (some tid) line = number tid false (append tid_label line)

unfoldable pub new : ℕ → Option ℕ → Line
new pid thread_id =
    append (0x20 ∷ []) (with_thread thread_id (number pid false (append pid_label [])))

abbrev pub ends_line : List ℕ → Bool
ends_line [] = false
ends_line (b ∷ []) = b == 0x0a
ends_line (b ∷ c ∷ bs) = ends_line (c ∷ bs)

unfoldable pub finish : Bool → Line → List ℕ
finish force_newline line =
    if ltb (length line) capacity && (force_newline || not (ends_line line))
    then line ++ 0x0a ∷ []
    else line

unfoldable pub append_text : List ℕ → Line → Line
append_text [] line = line
append_text (b ∷ bs) line =
    let rest = append_text bs (push b line) in if remaining line == 0 then line else rest

abbrev pub append_string : Option (List ℕ) → Line → Line
append_string none line = line
append_string (some text) line = append_text text line

-- The thread and the process, and where the log goes: the file, if one is open, and stderr.
pub record Log : Type 0 where
  pub on : Bool
  pub pid : ℕ
  pub tid : ℕ
  pub has_file : Bool
  pub has_stderr : Bool

unfoldable pub new_line : Log → Line
new_line log = new log.pid (if ltb 0 log.tid then some log.tid else none)

-- What is written to the file and to stderr.
unfoldable pub emit : Log → List ℕ → List ℕ × List ℕ
emit log bytes =
    if not log.on || (length bytes == 0)
    then ([], [])
    else (if log.has_file then bytes else [], if log.has_stderr then bytes else [])

unfoldable pub debug_log : Log → Option (List ℕ) → List ℕ × List ℕ
debug_log log none = ([], [])
debug_log log (some message) =
    if not log.on then ([], []) else emit log (finish false (append_text message (new_line log)))

unfoldable pub debug_log_hex : Log → Option (List ℕ) → ℕ → List ℕ × List ℕ
debug_log_hex log prefix value =
    if not log.on
    then ([], [])
    else emit log (
        finish true
          (number value true (append (0x30 ∷ 0x78 ∷ []) (append_string prefix (new_line log)))))

unfoldable pub debug_log_dec : Log → Option (List ℕ) → ℕ → List ℕ × List ℕ
debug_log_dec log prefix value =
    if not log.on
    then ([], [])
    else emit log (finish true (number value false (append_string prefix (new_line log))))

-- What the set-up is told: LINUWUX_DEBUG and LINUWUX_LOG, whether stderr is a file or a character device,
-- and the answers of open, fstat and fchmod.
pub record SetUpCalls : Type 0 where
  pub debug : Option (List ℕ)
  pub path : Option (List ℕ)
  pub stderr_supported : Bool
  pub opens : Bool
  pub is_regular : Bool
  pub chmods : Bool
  pub open_errno : ℕ
  pub chmod_errno : ℕ

abbrev pub einval : ℕ
einval = 22

-- `open_log`: whether there is a descriptor, and errno if there is none.
unfoldable pub open_log : SetUpCalls → Bool × ℕ
open_log c =
    if not c.opens
    then (false, c.open_errno)
    else if not c.is_regular
    then (false, einval)
    else if not c.chmods
    then (false, c.chmod_errno)
    else (true, 0)

-- ENABLED, LOG_FD, STDERR_SUPPORTED and OPEN_ERRNO.
pub record Destination : Type 0 where
  pub on : Bool
  pub has_file : Bool
  pub has_stderr : Bool
  pub open_errno : ℕ

unfoldable pub linuwux_setup_debug : SetUpCalls → Destination → Destination
linuwux_setup_debug c w = if not (enabled c.debug) then w else elim c.path [
  | none ↦ record w { on = true; has_stderr = c.stderr_supported }
  | some path ↦
      if length path == 0
      then record w { on = true; has_stderr = c.stderr_supported }
      else (let (opened, error) = open_log c in
          record {
            on = true;
            has_file = opened;
            has_stderr = c.stderr_supported;
            open_errno = if opened then w.open_errno else error;
          })
]
