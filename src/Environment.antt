-- ===== src/Environment.antt =====
-- protocol/environment.rs and runtime/src/environment.rs: the recognition of the game's process by its
-- arguments, and the native overrides that are forced in it. The value of WINEDLLOVERRIDES is `none`
-- where it is not set; whether `malloc` gives memory is an argument.
pub mod Overrides
use linuwux_runtime.Base.{
  ℕ, ◌+◌, ◌-◌, Bool, true, false, not, ◌&&◌, ◌||◌, Option, none, some, List, [], ◌∷◌, ◌++◌, ◌==◌,
  ltb, leb, if◌then◌else◌, ◌>>=◌, length, get_or, take, drop, bytes_eq, u64_max,
}
use linuwux_runtime.Text.Bytes.{split_first, split_others, last_of}
use linuwux_runtime.Registry.{contains_bytes}
use linuwux_runtime.PeExport.{lower}

-- "winmm", "version", "reflex", "reflex64", "DenuvOwO", "artifact", "d3d9", "d3d10", "d3d11", "d3d12",
-- "dinput8", "dsound", "dxgi", "hid", "wininet" and "winhttp"
abbrev pub overrides : List (List ℕ)
overrides =
    (119 ∷ 105 ∷ 110 ∷ 109 ∷ 109 ∷ [])
    ∷ (118 ∷ 101 ∷ 114 ∷ 115 ∷ 105 ∷ 111 ∷ 110 ∷ [])
    ∷ (114 ∷ 101 ∷ 102 ∷ 108 ∷ 101 ∷ 120 ∷ [])
    ∷ (114 ∷ 101 ∷ 102 ∷ 108 ∷ 101 ∷ 120 ∷ 54 ∷ 52 ∷ [])
    ∷ (68 ∷ 101 ∷ 110 ∷ 117 ∷ 118 ∷ 79 ∷ 119 ∷ 79 ∷ [])
    ∷ (97 ∷ 114 ∷ 116 ∷ 105 ∷ 102 ∷ 97 ∷ 99 ∷ 116 ∷ [])
    ∷ (100 ∷ 51 ∷ 100 ∷ 57 ∷ [])
    ∷ (100 ∷ 51 ∷ 100 ∷ 49 ∷ 48 ∷ [])
    ∷ (100 ∷ 51 ∷ 100 ∷ 49 ∷ 49 ∷ [])
    ∷ (100 ∷ 51 ∷ 100 ∷ 49 ∷ 50 ∷ [])
    ∷ (100 ∷ 105 ∷ 110 ∷ 112 ∷ 117 ∷ 116 ∷ 56 ∷ [])
    ∷ (100 ∷ 115 ∷ 111 ∷ 117 ∷ 110 ∷ 100 ∷ [])
    ∷ (100 ∷ 120 ∷ 103 ∷ 105 ∷ [])
    ∷ (104 ∷ 105 ∷ 100 ∷ [])
    ∷ (119 ∷ 105 ∷ 110 ∷ 105 ∷ 110 ∷ 101 ∷ 116 ∷ [])
    ∷ (119 ∷ 105 ∷ 110 ∷ 104 ∷ 116 ∷ 116 ∷ 112 ∷ [])
    ∷ []

abbrev pub is_semicolon : ℕ → Bool
is_semicolon b = b == 0x3b

abbrev pub is_equals : ℕ → Bool
is_equals b = b == 0x3d

-- Whether an entry is for a DLL.
abbrev pub is_for : List ℕ → List ℕ → Bool
is_for dll entry = bytes_eq (split_first is_equals entry) dll

unfoldable pub any_entry : (List ℕ → Bool) → List (List ℕ) → Bool
any_entry test [] = false
any_entry test (entry ∷ entries) = test entry || any_entry test entries

unfoldable pub already_present : List ℕ → List ℕ → Bool
already_present existing dll =
    (length dll == 0)
    || is_for dll (split_first is_semicolon existing)
    || any_entry (is_for dll) (split_others is_semicolon existing)

-- `checked_add` of usize
abbrev pub usize_add : ℕ → ℕ → Option ℕ
usize_add a b = if ltb u64_max (a + b) then none else some (a + b)

abbrev pub prefix_capacity : Option ℕ → Option ℕ
prefix_capacity none = some 0
prefix_capacity (some length) = usize_add length 1

unfoldable pub override_capacity : Option ℕ → ℕ → Option ℕ
override_capacity existing dll_length = do
  prefix ← prefix_capacity existing
  named ← usize_add prefix dll_length
  usize_add named 5

-- "=n,b"
abbrev pub native_first : List ℕ
native_first = 0x3d ∷ 0x6e ∷ 0x2c ∷ 0x62 ∷ []

abbrev pub value_of : Option (List ℕ) → List ℕ
value_of none = []
value_of (some value) = value

-- The bytes that are written before the final zero.
unfoldable pub fill_override : Option (List ℕ) → List ℕ → List ℕ
fill_override existing dll =
    if length (value_of existing) == 0
    then dll ++ native_first
    else value_of existing ++ (0x3b ∷ (dll ++ native_first))

abbrev pub length_of : Option (List ℕ) → Option ℕ
length_of none = none
length_of (some value) = some (length value)

abbrev pub is_present : Option (List ℕ) → List ℕ → Bool
is_present none dll = false
is_present (some value) dll = already_present value dll

unfoldable pub add_override : Bool → List ℕ → Option (List ℕ) → Option (List ℕ)
add_override allocates dll existing =
    if is_present existing dll
    then existing
    else (elim (override_capacity (length_of existing) (length dll)) [
      | none ↦ existing
      | some capacity ↦ if allocates then some (fill_override existing dll) else existing
    ])

unfoldable pub add_overrides : Bool → List (List ℕ) → Option (List ℕ) → Option (List ℕ)
add_overrides allocates [] existing = existing
add_overrides allocates (dll ∷ dlls) existing =
    add_overrides allocates dlls (add_override allocates dll existing)

-- `equal_name`: ASCII, of either case.
unfoldable pub equal_name : List ℕ → List ℕ → Bool
equal_name [] [] = true
equal_name [] (c ∷ expected) = false
equal_name (b ∷ actual) [] = false
equal_name (b ∷ actual) (c ∷ expected) = (lower b == lower c) && equal_name actual expected

-- ".exe"
abbrev exe_suffix : List ℕ
exe_suffix = 46 ∷ 101 ∷ 120 ∷ 101 ∷ []

unfoldable pub is_exe : List ℕ → Bool
is_exe bytes = leb 4 (length bytes) && equal_name (drop (length bytes - 4) bytes) exe_suffix

-- "steam.exe", "steamwebhelper.exe", "crashhandler.exe", "winecfg.exe", "start.exe", "rundll32.exe",
-- "dllhost.exe", "conhost.exe", "explorer.exe" and "xalia.exe"
abbrev pub helpers : List (List ℕ)
helpers =
    (115 ∷ 116 ∷ 101 ∷ 97 ∷ 109 ∷ 46 ∷ 101 ∷ 120 ∷ 101 ∷ [])
    ∷ (115 ∷ 116 ∷ 101 ∷ 97 ∷ 109 ∷ 119 ∷ 101 ∷ 98 ∷ 104 ∷ 101 ∷ 108 ∷ 112 ∷ 101 ∷ 114 ∷ 46 ∷ 101
        ∷ 120 ∷ 101 ∷ [])
    ∷ (99 ∷ 114 ∷ 97 ∷ 115 ∷ 104 ∷ 104 ∷ 97 ∷ 110 ∷ 100 ∷ 108 ∷ 101 ∷ 114 ∷ 46 ∷ 101 ∷ 120 ∷ 101
        ∷ [])
    ∷ (119 ∷ 105 ∷ 110 ∷ 101 ∷ 99 ∷ 102 ∷ 103 ∷ 46 ∷ 101 ∷ 120 ∷ 101 ∷ [])
    ∷ (115 ∷ 116 ∷ 97 ∷ 114 ∷ 116 ∷ 46 ∷ 101 ∷ 120 ∷ 101 ∷ [])
    ∷ (114 ∷ 117 ∷ 110 ∷ 100 ∷ 108 ∷ 108 ∷ 51 ∷ 50 ∷ 46 ∷ 101 ∷ 120 ∷ 101 ∷ [])
    ∷ (100 ∷ 108 ∷ 108 ∷ 104 ∷ 111 ∷ 115 ∷ 116 ∷ 46 ∷ 101 ∷ 120 ∷ 101 ∷ [])
    ∷ (99 ∷ 111 ∷ 110 ∷ 104 ∷ 111 ∷ 115 ∷ 116 ∷ 46 ∷ 101 ∷ 120 ∷ 101 ∷ [])
    ∷ (101 ∷ 120 ∷ 112 ∷ 108 ∷ 111 ∷ 114 ∷ 101 ∷ 114 ∷ 46 ∷ 101 ∷ 120 ∷ 101 ∷ [])
    ∷ (120 ∷ 97 ∷ 108 ∷ 105 ∷ 97 ∷ 46 ∷ 101 ∷ 120 ∷ 101 ∷ [])
    ∷ []

abbrev pub is_slash : ℕ → Bool
is_slash b = (b == 0x2f) || (b == 0x5c)

unfoldable pub is_helper_basename : List ℕ → Bool
is_helper_basename executable =
    let basename = last_of (split_first is_slash executable) (split_others is_slash executable) in
    any_entry (equal_name basename) helpers

-- The path with slashes, in lower case.
unfoldable pub lowered : List ℕ → List ℕ
lowered [] = []
lowered (b ∷ bs) = (if b == 0x5c then 0x2f else lower b) ∷ lowered bs

-- "/windows/system32/"
abbrev system32 : List ℕ
system32 =
    47 ∷ 119 ∷ 105 ∷ 110 ∷ 100 ∷ 111 ∷ 119 ∷ 115 ∷ 47 ∷ 115 ∷ 121 ∷ 115 ∷ 116 ∷ 101 ∷ 109 ∷ 51 ∷ 50
    ∷ 47 ∷ []

-- "/windows/syswow64/"
abbrev syswow64 : List ℕ
syswow64 =
    47 ∷ 119 ∷ 105 ∷ 110 ∷ 100 ∷ 111 ∷ 119 ∷ 115 ∷ 47 ∷ 115 ∷ 121 ∷ 115 ∷ 119 ∷ 111 ∷ 119 ∷ 54 ∷ 52
    ∷ 47 ∷ []

unfoldable pub is_system32_helper : List ℕ → Bool
is_system32_helper executable =
    if leb 512 (length executable)
    then false
    else contains_bytes (lowered executable) system32
      || contains_bytes (lowered executable) syswow64

-- "wine-preloader", "wine64-preloader", "wineserver" and "pressure-vessel"
abbrev pub loaders : List (List ℕ)
loaders =
    (119 ∷ 105 ∷ 110 ∷ 101 ∷ 45 ∷ 112 ∷ 114 ∷ 101 ∷ 108 ∷ 111 ∷ 97 ∷ 100 ∷ 101 ∷ 114 ∷ [])
    ∷ (119 ∷ 105 ∷ 110 ∷ 101 ∷ 54 ∷ 52 ∷ 45 ∷ 112 ∷ 114 ∷ 101 ∷ 108 ∷ 111 ∷ 97 ∷ 100 ∷ 101 ∷ 114
        ∷ [])
    ∷ (119 ∷ 105 ∷ 110 ∷ 101 ∷ 115 ∷ 101 ∷ 114 ∷ 118 ∷ 101 ∷ 114 ∷ [])
    ∷ (112 ∷ 114 ∷ 101 ∷ 115 ∷ 115 ∷ 117 ∷ 114 ∷ 101 ∷ 45 ∷ 118 ∷ 101 ∷ 115 ∷ 115 ∷ 101 ∷ 108 ∷ [])
    ∷ []

unfoldable pub argv0_is_unix_loader : List ℕ → Bool
argv0_is_unix_loader bytes = any_entry (contains_bytes bytes) loaders

abbrev pub has_drive : List ℕ → Bool
has_drive bytes = leb 2 (length bytes) && (get_or bytes 1 0 == 0x3a)

abbrev pub is_helper : List ℕ → Bool
is_helper bytes = is_system32_helper bytes || is_helper_basename bytes

-- The arguments of a loader; a null argument is `none`.
unfoldable pub loader_game : List (Option (List ℕ)) → Option (List ℕ) → Option (List ℕ)
loader_game [] game = game
loader_game (none ∷ arguments) game = loader_game arguments game
loader_game (some bytes ∷ arguments) game =
    let skipped = loader_game arguments game in
    let taken = loader_game arguments (some bytes) in
    if not (is_exe bytes) || not (has_drive bytes)
    then skipped
    else if is_helper bytes
    then none
    else taken

-- The arguments of any other process: a game on a drive, a game by a path, and whether there is a helper.
unfoldable pub direct_game :
    List (Option (List ℕ)) → Option (List ℕ) → Option (List ℕ) → Bool → Option (List ℕ)
direct_game [] (some game) unix_game helper = some game
direct_game [] none unix_game helper = if helper then none else unix_game
direct_game (none ∷ arguments) windows_game unix_game helper =
    direct_game arguments windows_game unix_game helper
direct_game (some bytes ∷ arguments) windows_game unix_game helper =
    let skipped = direct_game arguments windows_game unix_game helper in
    let helping = direct_game arguments windows_game unix_game true in
    let on_drive = direct_game arguments (some bytes) unix_game helper in
    let by_path = direct_game arguments windows_game (some bytes) helper in
    if not (is_exe bytes)
    then skipped
    else if is_helper bytes
    then helping
    else if has_drive bytes
    then on_drive
    else if bytes_eq (take 1 bytes) (0x2f ∷ [])
    then by_path
    else skipped

abbrev is_loader : Option (List ℕ) → Bool
is_loader none = false
is_loader (some bytes) = argv0_is_unix_loader bytes

unfoldable pub game_executable_argument : List (Option (List ℕ)) → Option (List ℕ)
game_executable_argument [] = none
game_executable_argument (argv0 ∷ arguments) =
    if is_loader argv0
    then loader_game arguments none
    else direct_game (argv0 ∷ arguments) none none false

abbrev pub is_some : Option (List ℕ) → Bool
is_some none = false
is_some (some value) = true

-- The overrides after the set-up of a process with some arguments.
unfoldable pub setup_overrides : Bool → List (Option (List ℕ)) → Option (List ℕ) → Option (List ℕ)
setup_overrides allocates argv existing =
    if is_some (game_executable_argument argv)
    then add_overrides allocates overrides existing
    else existing
