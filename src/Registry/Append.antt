-- ===== src/Registry/Append.antt =====
-- runtime/src/registry.rs: `init_registry`, which appends the section to `system.reg` once. The calls of
-- the C library are the fields of `RegistryCalls`; the log messages are left out.
use linuwux_runtime.Base.{
  ℕ, ◌+◌, Bool, true, not, List, [], ◌∷◌, ◌++◌, ◌==◌, ltb, length, take, if◌then◌else◌, Option,
  none, some,
}
use linuwux_runtime.Registry.{
  profile_marker, guid_marker, registry_file_is_valid, registry_already_present,
}

-- `/system.reg`, without its closing zero
abbrev pub registry_name : List ℕ
registry_name = 0x2f ∷ 0x73 ∷ 0x79 ∷ 0x73 ∷ 0x74 ∷ 0x65 ∷ 0x6d ∷ 0x2e ∷ 0x72 ∷ 0x65 ∷ 0x67 ∷ []

-- The line feed and what stands before the profile's marker: `[System\\CurrentControlSet\\…\\`
abbrev pub section_head : List ℕ
section_head =
    0x0a ∷ 0x5b ∷ 0x53 ∷ 0x79 ∷ 0x73 ∷ 0x74 ∷ 0x65 ∷ 0x6d ∷ 0x5c ∷ 0x5c ∷ 0x43 ∷ 0x75 ∷ 0x72 ∷ 0x72
    ∷ 0x65 ∷ 0x6e ∷ 0x74 ∷ 0x43 ∷ 0x6f ∷ 0x6e ∷ 0x74 ∷ 0x72 ∷ 0x6f ∷ 0x6c ∷ 0x53 ∷ 0x65 ∷ 0x74
    ∷ 0x5c ∷ 0x5c ∷ 0x43 ∷ 0x6f ∷ 0x6e ∷ 0x74 ∷ 0x72 ∷ 0x6f ∷ 0x6c ∷ 0x5c ∷ 0x5c ∷ 0x49 ∷ 0x44
    ∷ 0x43 ∷ 0x6f ∷ 0x6e ∷ 0x66 ∷ 0x69 ∷ 0x67 ∷ 0x44 ∷ 0x42 ∷ 0x5c ∷ 0x5c ∷ []

-- What stands between the two markers: `]`, a line feed and a quotation mark
abbrev pub section_middle : List ℕ
section_middle = 0x5d ∷ 0x0a ∷ 0x22 ∷ []

-- The value behind the name: `"="{12345678-1234-1234-1234-123456789012}"` and a line feed
abbrev pub section_tail : List ℕ
section_tail =
    0x22 ∷ 0x3d ∷ 0x22 ∷ 0x7b ∷ 0x31 ∷ 0x32 ∷ 0x33 ∷ 0x34 ∷ 0x35 ∷ 0x36 ∷ 0x37 ∷ 0x38 ∷ 0x2d ∷ 0x31
    ∷ 0x32 ∷ 0x33 ∷ 0x34 ∷ 0x2d ∷ 0x31 ∷ 0x32 ∷ 0x33 ∷ 0x34 ∷ 0x2d ∷ 0x31 ∷ 0x32 ∷ 0x33 ∷ 0x34
    ∷ 0x2d ∷ 0x31 ∷ 0x32 ∷ 0x33 ∷ 0x34 ∷ 0x35 ∷ 0x36 ∷ 0x37 ∷ 0x38 ∷ 0x39 ∷ 0x30 ∷ 0x31 ∷ 0x32
    ∷ 0x7d ∷ 0x22 ∷ 0x0a ∷ []

-- The section as the source spells it, without its closing zero.
abbrev pub registry_section : List ℕ
registry_section =
    section_head ++ (profile_marker ++ (section_middle ++ (guid_marker ++ section_tail)))

abbrev pub path_max : ℕ
path_max = 4096

-- What the C library answers: `access` and `fopen` of a path, `flock`, how many bytes of the file the
-- `fread` of the header delivers and how many those of the scan do before one delivers nothing, be it at the
-- end of the file or because it fails; `fseek`, how many bytes `fwrite` takes, and how many of these
-- `fflush` and `fclose` deliver.
pub record RegistryCalls : Type 0 where
  pub accessible : List ℕ → Bool
  pub opens : List ℕ → Bool
  pub locks : Bool
  pub header_read : ℕ
  pub scanned : ℕ
  pub seeks : Bool
  pub taken : ℕ
  pub delivered : ℕ

-- The environment and the file: whether `LINUWUX_HWPROFILE` is set, `WINEPREFIX`, and the bytes of
-- `system.reg` in that prefix.
pub record RegistryState : Type 0 where
  pub is_done : Bool
  pub wine_prefix : Option (List ℕ)
  pub system_reg : List ℕ

unfoldable pub mark_done : RegistryState → RegistryState
mark_done s = record s { is_done = true }

-- From the `fseek` on: the section is taken by the stream and delivered; the result of `fwrite` decides on
-- the mark.
unfoldable pub append_section : RegistryCalls → List ℕ → RegistryState → RegistryState
append_section c section s =
    if not c.seeks
    then s
    else (let written = take c.taken section in
        let appended = record s { system_reg = s.system_reg ++ take c.delivered written } in
        if length written == length section then mark_done appended else appended)

-- The guards from `access` to the scan.
unfoldable pub seed_file : RegistryCalls → List ℕ → RegistryState → RegistryState
seed_file c path s =
    if not (c.accessible path)
    then s
    else if not (c.opens path)
    then s
    else if not c.locks
    then s
    else if not (registry_file_is_valid (take c.header_read s.system_reg))
    then s
    else if registry_already_present (take c.scanned s.system_reg)
    then mark_done s
    else append_section c registry_section s

unfoldable pub seed_prefix : RegistryCalls → Option (List ℕ) → RegistryState → RegistryState
seed_prefix c none s = s
seed_prefix c (some prefix) s =
    if ltb path_max (length prefix + (length registry_name + 1))
    then s
    else seed_file c (prefix ++ registry_name) s

unfoldable pub init_registry : RegistryCalls → RegistryState → RegistryState
init_registry c s = if s.is_done then s else seed_prefix c s.wine_prefix s
