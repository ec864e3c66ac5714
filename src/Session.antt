-- ===== src/Session.antt =====
-- runtime/src/gamescope.rs: whether the process belongs to a Gamescope session, and the interposed setenv
-- and unsetenv that keep the runtime in LD_PRELOAD. The links and lines of /proc, and what the C library
-- answers, are arguments; a string is its bytes without the closing zero. The names and values of setenv
-- and unsetenv are not null, and the real functions are found.
pub mod Proc
pub mod Parents
pub mod Ancestry
pub mod Preload
use linuwux_runtime.Base.{
  ℕ, zero, suc, ◌+◌, ◌-◌, Bool, true, false, not, ◌&&◌, ◌||◌, Option, none, some, List, [], ◌∷◌,
  ◌++◌, ◌==◌, ltb, leb, length, bytes_eq, if◌then◌else◌,
}
use linuwux_runtime.Text.Bytes.{is_ascii_digit, drop_while, split_first}
use linuwux_runtime.Text.Gamescope.{
  is_gamescope_path, is_gamescope_session, preload_has_path, preserved_length, parent_process_id,
  strip_prefix, ppid,
}

abbrev pub path_max : ℕ
path_max = 4096

abbrev pub ancestry_limit : ℕ
ancestry_limit = 64

abbrev pub is_zero : ℕ → Bool
is_zero b = b == 0

-- What readlink and fgets give for a process: the link /proc/PID/exe, and the lines of /proc/PID/status.
pub record Processes : Type 0 where
  pub exe : ℕ → Option (List ℕ)
  pub status : ℕ → Option (List (List ℕ))

unfoldable pub process_is_gamescope : Processes → ℕ → Bool
process_is_gamescope ps pid = elim (ps.exe pid) [
  | none ↦ false
  | some link ↦
      not ((length link == 0) || leb path_max (length link))
      && is_gamescope_path (split_first is_zero link)
]

-- ` ` and `\t` to `\r`
abbrev pub is_blank : ℕ → Bool
is_blank b = (b == 0x20) || (leb 9 b && leb b 13)

abbrev pub strip_sign : List ℕ → List ℕ
strip_sign [] = []
strip_sign (b ∷ bs) = if (b == 0x2d) || (b == 0x2b) then bs else b ∷ bs

abbrev pub starts_digit : List ℕ → Bool
starts_digit [] = false
starts_digit (b ∷ bs) = is_ascii_digit b

-- Whether a line names a parent that `parent_process_id` could not read.
unfoldable pub has_bad_parent : List ℕ → Bool
has_bad_parent line = elim (strip_prefix ppid line) [
  | none ↦ false
  | some tail ↦ starts_digit (strip_sign (drop_while is_blank tail))
]

-- The loop over the lines; `none` is -1.
unfoldable pub parent_in : List (List ℕ) → Option ℕ
parent_in [] = none
parent_in (line ∷ lines) = elim (parent_process_id (split_first is_zero line)) [
  | some parent ↦ some parent
  | none ↦ elim (has_bad_parent (split_first is_zero line)) [
    | true ↦ none
    | false ↦ parent_in lines
  ]
]

unfoldable pub parent_of : Processes → ℕ → Option ℕ
parent_of ps pid = elim (ps.status pid) [ none ↦ none | some lines ↦ parent_in lines ]

-- The next process of the walk, if it goes on.
unfoldable pub next_process : Processes → ℕ → Option ℕ
next_process ps pid = if pid == 1 then none else elim (parent_of ps pid) [
  | none ↦ none
  | some parent ↦ if (parent == 0) || (parent == pid) then none else some parent
]

-- The rounds of the loop.
unfoldable pub ancestor_within : ℕ → Processes → ℕ → Bool
ancestor_within zero ps pid = false
ancestor_within (suc n) ps pid = elim (pid == 0) [
  | true ↦ false
  | false ↦ elim (process_is_gamescope ps pid) [
    | true ↦ true
    | false ↦ elim (next_process ps pid) [
      | none ↦ false
      | some parent ↦ ancestor_within n ps parent
    ]
  ]
]

unfoldable pub has_gamescope_ancestor : Processes → ℕ → Bool
has_gamescope_ancestor ps pid = ancestor_within ancestry_limit ps pid

abbrev pub or_empty : Option (List ℕ) → List ℕ
or_empty none = []
or_empty (some value) = value

-- XDG_CURRENT_DESKTOP and XDG_SESSION_DESKTOP are arguments.
unfoldable pub gamescope_detected : Processes → ℕ → Option (List ℕ) → Option (List ℕ) → Bool
gamescope_detected ps pid current session =
    process_is_gamescope ps pid
    || is_gamescope_session (or_empty current) (or_empty session)
    || has_gamescope_ancestor ps pid

-- The path that dladdr finds for the runtime itself, and what realpath makes of it.
unfoldable pub self_path : Option (List ℕ) → (List ℕ → Option (List ℕ)) → Option (List ℕ)
self_path none realpath = none
self_path (some filename) realpath = elim (realpath filename) [
  | some resolved ↦ if leb path_max (length resolved) then none else some resolved
  | none ↦ elim filename [
    | [] ↦ none
    | b ∷ bs ↦ if not (b == 0x2f) || leb path_max (length (b ∷ bs)) then none else some (b ∷ bs)
  ]
]

-- `linuwux_setup_gamescope`: the path to keep, if the interposition is to be enabled.
unfoldable pub setup_gamescope : Bool → Bool → Bool → Option (List ℕ) → Option (List ℕ)
setup_gamescope detected has_setenv has_unsetenv path =
    if not detected || not has_setenv || not has_unsetenv then none else path

-- "LD_PRELOAD"
abbrev pub ld_preload : List ℕ
ld_preload = 0x4c ∷ 0x44 ∷ 0x5f ∷ 0x50 ∷ 0x52 ∷ 0x45 ∷ 0x4c ∷ 0x4f ∷ 0x41 ∷ 0x44 ∷ []

unfoldable pub fill_preserved : List ℕ → List ℕ → List ℕ
fill_preserved [] path = path
fill_preserved (b ∷ bs) path = (b ∷ bs) ++ 0x3a ∷ path

-- The real functions on an environment; each answers whether it succeeded.
pub record RealEnvironment (E : Type 0) : Type 0 where
  pub getenv : List ℕ → E → Option (List ℕ)
  pub setenv : List ℕ → List ℕ → Bool → E → Bool × E
  pub unsetenv : List ℕ → E → Bool × E

-- The path of the runtime where the interposition is enabled, the classes of the C library's isspace, and
-- whether malloc serves.
pub record Preloading : Type 0 where
  pub enabled : Option (List ℕ)
  pub is_space : ℕ → Bool
  pub mallocs : Bool

abbrev pub is_set : Option (List ℕ) → Bool
is_set none = false
is_set (some value) = true

module _ {E : Type 0} (real : RealEnvironment E) (c : Preloading) where
  -- LD_PRELOAD without the path, which is to be written.
  unfoldable pub set_preserved : List ℕ → List ℕ → Bool → E → Bool × E
  set_preserved path value overwrite e = elim (preserved_length (length value) (length path)) [
    | none ↦ (false, e)
    | some size ↦
        if not c.mallocs
        then (false, e)
        else real.setenv ld_preload (fill_preserved value path) overwrite e
  ]

  unfoldable pub setenv : List ℕ → List ℕ → Bool → E → Bool × E
  setenv name value overwrite e = elim c.enabled [
    | none ↦ real.setenv name value overwrite e
    | some path ↦
        if not (bytes_eq name ld_preload)
        then real.setenv name value overwrite e
        else if preload_has_path value path c.is_space
            || (not overwrite && is_set (real.getenv name e))
        then real.setenv name value overwrite e
        else set_preserved path value overwrite e
  ]

  unfoldable pub unsetenv : List ℕ → E → Bool × E
  unsetenv name e = elim c.enabled [
    | none ↦ real.unsetenv name e
    | some path ↦
        if not (bytes_eq name ld_preload)
        then real.unsetenv name e
        else real.setenv name path true e
  ]
