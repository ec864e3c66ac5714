-- ===== src/CpuidTrap/Callers.antt =====
-- Who asks: the image that the caller of a CPUID instruction is mapped from.
use linuwux_runtime.Base.{
  ℕ, zero, suc, ◌+◌, ◌-◌, ◌%◌, Bool, true, false, ◌&&◌, ◌||◌, ◌>>=◌, Option, none, some, List, [],
  ◌∷◌, ◌++◌, ◌==◌, ltb, leb, if◌then◌else◌, length, take, drop, bytes_eq,
}
use linuwux_runtime.Text.Bytes.{deleted_suffix, without_suffix, last_of, split_first, split_others}
use linuwux_runtime.Text.Maps.{Mapping, parse}
use linuwux_runtime.Memory.{Memory, read_memory, from_le_bytes, checked_add}
use linuwux_runtime.PeExport.{require, holds}
use linuwux_runtime.CpuidTrap.Caches.{
  CallerKind, ordinary, reflex64, artifact, CallerCache, lookup_caller, insert_caller,
}

-- The name in the export directory of the image at a base.
unfoldable pub pe_export_name : Memory → ℕ → List ℕ → Bool
pe_export_name m base expected =
    if leb 32 (length expected)
    then false
    else holds (do
      dos ← read_memory m base 64
      _ ← require (bytes_eq (take 2 dos) (0x4d ∷ 0x5a ∷ []))
      header_address ← checked_add base (from_le_bytes (take 4 (drop 0x3c dos)))
      header ← read_memory m header_address 160
      _ ← require (bytes_eq (take 4 header) (0x50 ∷ 0x45 ∷ 0 ∷ 0 ∷ []))
      _ ← require (from_le_bytes (take 2 (drop 24 header)) == 0x20b)
      export_address ← checked_add base (from_le_bytes (take 4 (drop 136 header)))
      export ← read_memory m export_address 16
      name_address ← checked_add base (from_le_bytes (take 4 (drop 12 export)))
      name ← read_memory m name_address (length expected + 1)
      some (bytes_eq name (expected ++ (0 ∷ []))))

abbrev pub allocation_granularity : ℕ
allocation_granularity = 0x1_0000

-- `SEARCH_DISTANCE / ALLOCATION_GRANULARITY + 1`
abbrev pub search_steps : ℕ
search_steps = 0x101

-- The bases at and below an aligned address, `n` of them from an offset on.
unfoldable pub search_down : ℕ → Memory → ℕ → ℕ → List ℕ → Bool
search_down zero m aligned offset expected = false
search_down (suc n) m aligned offset expected =
    let rest = search_down n m aligned (offset + allocation_granularity) expected in
    if ltb aligned offset then false else pe_export_name m (aligned - offset) expected || rest

unfoldable pub pe_image_named : Memory → ℕ → List ℕ → Bool
pe_image_named m address expected =
    search_down search_steps m (address - address % allocation_granularity) 0 expected

-- "reflex64.dll"
abbrev pub reflex64_dll : List ℕ
reflex64_dll = 114 ∷ 101 ∷ 102 ∷ 108 ∷ 101 ∷ 120 ∷ 54 ∷ 52 ∷ 46 ∷ 100 ∷ 108 ∷ 108 ∷ []

-- "artifact.dll"
abbrev pub artifact_dll : List ℕ
artifact_dll = 97 ∷ 114 ∷ 116 ∷ 105 ∷ 102 ∷ 97 ∷ 99 ∷ 116 ∷ 46 ∷ 100 ∷ 108 ∷ 108 ∷ []

-- ".so"
abbrev so_suffix : List ℕ
so_suffix = 46 ∷ 115 ∷ 111 ∷ []

-- `rsplit('/').next()`
abbrev pub filename_of : List ℕ → List ℕ
filename_of path = last_of (split_first (λ b. b == 0x2f) path) (split_others (λ b. b == 0x2f) path)

unfoldable pub path_kind : List ℕ → CallerKind
path_kind pathname =
    let filename = filename_of (without_suffix pathname deleted_suffix) in
    if bytes_eq filename reflex64_dll || bytes_eq filename (reflex64_dll ++ so_suffix)
    then reflex64
    else if bytes_eq filename artifact_dll || bytes_eq filename (artifact_dll ++ so_suffix)
    then artifact
    else ordinary

unfoldable pub caller_mapping : List ℕ → ℕ → Option (ℕ × ℕ × CallerKind)
caller_mapping line address = do
  mapping ← parse line
  _ ← require (leb mapping.start address && ltb address mapping.end)
  some (mapping.start, mapping.end, path_kind mapping.path)

-- The first line of /proc/self/maps that maps the address.
unfoldable pub find_caller : List (List ℕ) → ℕ → Option (ℕ × ℕ × CallerKind)
find_caller [] address = none
find_caller (line ∷ lines) address = elim (caller_mapping line address) [
  | some found ↦ some found
  | none ↦ find_caller lines address
]

abbrev is_artifact : Option Mapping → Bool
is_artifact none = false
is_artifact (some mapping) = elim (path_kind mapping.path) [
  | artifact ↦ true
  | ordinary ↦ false
  | reflex64 ↦ false
]

unfoldable pub artifact_module_mapped : List (List ℕ) → Bool
artifact_module_mapped [] = false
artifact_module_mapped (line ∷ lines) = is_artifact (parse line) || artifact_module_mapped lines

-- What a caller that no path tells is found to be, while the search is still made.
unfoldable pub searched_kind : Memory → Bool → ℕ → CallerKind → CallerKind
searched_kind m established address reflex64 = reflex64
searched_kind m established address artifact = artifact
searched_kind m established address ordinary =
    if established
    then ordinary
    else if pe_image_named m address reflex64_dll
    then reflex64
    else if pe_image_named m address artifact_dll
    then artifact
    else ordinary

unfoldable pub classify_caller :
    Memory → List (List ℕ) → Bool → CallerCache → ℕ → Option CallerKind × CallerCache
classify_caller m maps established cache address = elim (lookup_caller cache address) [
  | some kind ↦ (some kind, cache)
  | none ↦ elim (find_caller maps address) [
    | none ↦ (none, cache)
    | some (start, end, mapped_kind) ↦
        let kind = searched_kind m established address mapped_kind in
        (some kind, insert_caller cache start end kind)
  ]
]
