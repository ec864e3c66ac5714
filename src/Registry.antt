-- ===== src/Registry.antt =====
-- runtime/src/registry.rs: the scan of `system.reg` for the profile section with its GUID. What the reads
-- deliver is a list of bytes; the reads of 4096 bytes keep the window between them.
pub mod Append
pub mod SecondRun
pub mod Again
use linuwux_runtime.Base.{
  ℕ, Bool, true, false, ◌&&◌, ◌||◌, List, [], ◌∷◌, ◌++◌, ◌==◌, leb, length, take, drop, bytes_eq,
  if◌then◌else◌,
}

-- `WINE REGISTRY`
abbrev pub wine_registry_magic : List ℕ
wine_registry_magic =
    0x57 ∷ 0x49 ∷ 0x4e ∷ 0x45 ∷ 0x20 ∷ 0x52 ∷ 0x45 ∷ 0x47 ∷ 0x49 ∷ 0x53 ∷ 0x54 ∷ 0x52 ∷ 0x59 ∷ []

-- `Hardware Profiles\\0001`, with two backslashes
abbrev pub profile_marker : List ℕ
profile_marker =
    0x48 ∷ 0x61 ∷ 0x72 ∷ 0x64 ∷ 0x77 ∷ 0x61 ∷ 0x72 ∷ 0x65 ∷ 0x20 ∷ 0x50 ∷ 0x72 ∷ 0x6f ∷ 0x66 ∷ 0x69
    ∷ 0x6c ∷ 0x65 ∷ 0x73 ∷ 0x5c ∷ 0x5c ∷ 0x30 ∷ 0x30 ∷ 0x30 ∷ 0x31 ∷ []

-- `HwProfileGuid`
abbrev pub guid_marker : List ℕ
guid_marker =
    0x48 ∷ 0x77 ∷ 0x50 ∷ 0x72 ∷ 0x6f ∷ 0x66 ∷ 0x69 ∷ 0x6c ∷ 0x65 ∷ 0x47 ∷ 0x75 ∷ 0x69 ∷ 0x64 ∷ []

-- Whether some window of the needle's length is the needle; the needles are not empty.
unfoldable pub contains_bytes : List ℕ → List ℕ → Bool
contains_bytes [] needle = false
contains_bytes (b ∷ bs) needle =
    bytes_eq (take (length needle) (b ∷ bs)) needle || contains_bytes bs needle

-- The argument is what `fread` delivers of the file; 64 bytes are asked for.
unfoldable pub registry_file_is_valid : List ℕ → Bool
registry_file_is_valid delivered =
    let header = take 64 delivered in
    leb (length wine_registry_magic) (length header)
    && bytes_eq (take (length wine_registry_magic) header) wine_registry_magic

abbrev pub window_size : ℕ
window_size = 64

-- The window with a byte behind it, without its first byte if it was full.
unfoldable pub slide : List ℕ → ℕ → List ℕ
slide window byte = (if length window == window_size then drop 1 window else window) ++ byte ∷ []

unfoldable pub scan : List ℕ → List ℕ → Bool → Bool
scan [] window in_profile = false
scan (byte ∷ file) window in_profile =
    let filled = slide window byte in
    elim in_profile [
      | false ↦ elim (contains_bytes filled profile_marker) [
        | true ↦ scan file [] true
        | false ↦ scan file filled false
      ]
      | true ↦ elim (contains_bytes filled guid_marker) [
        | true ↦ true
        | false ↦ scan file filled true
      ]
    ]

-- The argument is what the reads deliver from the start of the file on, until one delivers nothing.
unfoldable pub registry_already_present : List ℕ → Bool
registry_already_present delivered = scan delivered [] false
