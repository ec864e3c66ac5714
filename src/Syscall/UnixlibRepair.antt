-- ===== src/Syscall/UnixlibRepair.antt =====
-- runtime/src/syscall/unixlib_repair.rs: the repair of the two Wine exports of Reflex's clone of ntdll that
-- hold a value, where the clone has a trampoline. Whether the kernel lets the process write a word at
-- an address is an argument.
use linuwux_runtime.Base.{
  ℕ, zero, suc, ◌+◌, ◌*◌, ◌%◌, Bool, false, not, ◌&&◌, ◌||◌, ◌>>=◌, Option, none, some, List, [],
  ◌∷◌, ◌==◌, ltb, leb, if◌then◌else◌, length, get_or, take, drop, bytes_eq, u64_mod,
}
use linuwux_runtime.Text.Bytes.{take_while}
use linuwux_runtime.Text.Maps.{Mapping, parse}
use linuwux_runtime.Memory.{
  Memory, read_memory, reads_as, read_u16, read_u32, read_u64, from_le_bytes, checked_add,
  store_bytes,
}
use linuwux_runtime.PeExport.{require}
use linuwux_runtime.Syscall.Int2e.{u64_bytes}
use linuwux_runtime.Syscall.Dispatch.Scan.{trampoline_destination}

-- "__wine_unix_call_dispatcher"
abbrev pub dispatcher_export : List ℕ
dispatcher_export =
    95 ∷ 95 ∷ 119 ∷ 105 ∷ 110 ∷ 101 ∷ 95 ∷ 117 ∷ 110 ∷ 105 ∷ 120 ∷ 95 ∷ 99 ∷ 97 ∷ 108 ∷ 108 ∷ 95
    ∷ 100 ∷ 105 ∷ 115 ∷ 112 ∷ 97 ∷ 116 ∷ 99 ∷ 104 ∷ 101 ∷ 114 ∷ []

-- "__wine_unixlib_handle"
abbrev pub handle_export : List ℕ
handle_export =
    95 ∷ 95 ∷ 119 ∷ 105 ∷ 110 ∷ 101 ∷ 95 ∷ 117 ∷ 110 ∷ 105 ∷ 120 ∷ 108 ∷ 105 ∷ 98 ∷ 95 ∷ 104 ∷ 97
    ∷ 110 ∷ 100 ∷ 108 ∷ 101 ∷ []

pub record Repair : Type 0 where
  pub done : Bool
  pub attempts : ℕ

pub record ExportDirectory : Type 0 where
  pub name_count : ℕ
  pub functions_rva : ℕ
  pub names_rva : ℕ
  pub ordinals_rva : ℕ

unfoldable pub read_export_directory : Memory → ℕ → Option ExportDirectory
read_export_directory m base = do
  dos ← read_memory m base 0x40
  _ ← require (bytes_eq (take 2 dos) (0x4d ∷ 0x5a ∷ []))
  let pe_offset = from_le_bytes (take 4 (drop 0x3c dos))
  _ ← require (leb pe_offset 0x1000)
  pe ← checked_add base pe_offset
  signature ← read_memory m pe 4
  _ ← require (bytes_eq signature (0x50 ∷ 0x45 ∷ 0 ∷ 0 ∷ []))
  export_rva ← read_u32 m (pe + 0x88)
  _ ← require (not (export_rva == 0))
  let directory = base + export_rva
  name_count ← read_u32 m (directory + 0x18)
  functions_rva ← read_u32 m (directory + 0x1c)
  names_rva ← read_u32 m (directory + 0x20)
  ordinals_rva ← read_u32 m (directory + 0x24)
  some (record {
    name_count = name_count;
    functions_rva = functions_rva;
    names_rva = names_rva;
    ordinals_rva = ordinals_rva;
  })

-- The name at an address: the bytes before the first zero of 40.
abbrev named : Memory → ℕ → List ℕ → Bool
named m address name = elim (read_memory m address 40) [
  | none ↦ false
  | some candidate ↦ bytes_eq (take_while (λ b. not (b == 0)) candidate) name
]

abbrev first_of : Option ℕ → Option ℕ → Option ℕ
first_of (some ordinal) rest = some ordinal
first_of none rest = rest

-- The search of `n` names from an index on.
unfoldable pub ordinal_from : ℕ → Memory → ℕ → ExportDirectory → List ℕ → ℕ → Option ℕ
ordinal_from zero m base export name index = none
ordinal_from (suc n) m base export name index =
    let rest = ordinal_from n m base export name (index + 1) in
    (do
      name_rva ← read_u32 m (base + export.names_rva + index * 4)
      let ordinal_at = base + export.ordinals_rva + index * 2
      if named m (base + name_rva) name then first_of (read_u16 m ordinal_at) rest else rest)

unfoldable pub find_export_ordinal : Memory → ℕ → ExportDirectory → List ℕ → Option ℕ
find_export_ordinal m base export name = ordinal_from export.name_count m base export name 0

-- The memory with the export repaired, or `none` where it is left alone.
unfoldable pub repair_named_export :
    (ℕ → Bool) → Memory → ℕ → ExportDirectory → List ℕ → Option Memory
repair_named_export writable m base export name = do
  ordinal ← find_export_ordinal m base export name
  function_rva ← read_u32 m (base + export.functions_rva + ordinal * 4)
  let entry = base + function_rva
  destination ← trampoline_destination m entry
  value ← read_u64 m destination
  _ ← require (writable entry)
  some (store_bytes m entry (u64_bytes value))

-- The repair of some exports: how many were repaired, and the memory.
unfoldable pub repair_exports :
    (ℕ → Bool) → List (List ℕ) → Memory → ℕ → ExportDirectory → ℕ × Memory
repair_exports writable [] m base export = (0, m)
repair_exports writable (name ∷ names) m base export =
    elim (repair_named_export writable m base export name) [
      | none ↦ repair_exports writable names m base export
      | some repaired ↦
          let (count, after) = repair_exports writable names repaired base export in
          (count + 1, after)
    ]

unfoldable pub repair_module_wine_unixlib_exports : (ℕ → Bool) → Memory → ℕ → ℕ × Memory
repair_module_wine_unixlib_exports writable m base = elim (read_export_directory m base) [
  | none ↦ (0, m)
  | some export ↦ repair_exports writable (dispatcher_export ∷ handle_export ∷ []) m base export
]

-- Anonymous, writable and executable, and with the head of a PE image.
unfoldable pub is_anonymous_image : Memory → Mapping → Bool
is_anonymous_image m mapping =
    leb 3 (length mapping.permissions)
    && (get_or mapping.permissions 1 0 == 0x77)
    && (get_or mapping.permissions 2 0 == 0x78)
    && (length mapping.path == 0)
    && reads_as m mapping.start (0x4d ∷ 0x5a ∷ [])

-- The visit of the images in the lines of /proc/self/maps.
unfoldable pub repair_images : (ℕ → Bool) → List (List ℕ) → Memory → ℕ × Memory
repair_images writable [] m = (0, m)
repair_images writable (line ∷ lines) m = elim (parse line) [
  | none ↦ repair_images writable lines m
  | some mapping ↦
      if is_anonymous_image m mapping
      then (let (here, repaired) = repair_module_wine_unixlib_exports writable m mapping.start in
          let (later, after) = repair_images writable lines repaired in (here + later, after))
      else repair_images writable lines m
]

unfoldable pub maybe_repair_wine_unixlib_exports :
    (ℕ → Bool) → List (List ℕ) → Memory → Repair → Memory × Repair
maybe_repair_wine_unixlib_exports writable maps m r =
    if r.done
    then (m, r)
    else let counted = record r { attempts = (r.attempts + 1) % u64_mod } in
      if leb 256 r.attempts || not ((r.attempts == 0) || (r.attempts % 4 == 0))
      then (m, counted)
      else let (count, repaired) = repair_images writable maps m in
        (repaired, record counted { done = ltb 0 count })
