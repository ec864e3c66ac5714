-- ===== src/Syscall/Dispatch/Scan.antt =====
-- The scan of the main image's import table for Reflex's trampolines, of
-- runtime/src/syscall/kuser_dispatch.rs, with the decoder of runtime/src/syscall/mem.rs and
-- `read_u64s` of runtime/src/procmem.rs.
use linuwux_runtime.Base.{
  ℕ, zero, suc, ◌+◌, ◌-◌, ◌*◌, ◌/◌, ◌%◌, ◌^◌, Bool, true, false, not, ◌||◌, ◌>>=◌, Option, none,
  some, List, [], ◌∷◌, ◌==◌, ltb, leb, if◌then◌else◌, take, drop, bytes_eq, min, u64_max,
}
use linuwux_runtime.Memory.{Memory, read_memory, read_u32, read_u64, from_le_bytes, checked_add}
use linuwux_runtime.PeExport.{require}
use linuwux_runtime.Syscall.Dispatch.Stubs.{Stubs, remember_stub}

-- `saturating_add`
abbrev pub saturating_add : ℕ → ℕ → ℕ
saturating_add a b = min u64_max (a + b)

abbrev pub trampoline_head : List ℕ
trampoline_head = 0xff ∷ 0x25 ∷ 0x02 ∷ 0 ∷ 0 ∷ 0 ∷ 0 ∷ 0 ∷ []

unfoldable pub decode_trampoline : List ℕ → Option ℕ
decode_trampoline bytes =
    if bytes_eq (take 8 bytes) trampoline_head then some (from_le_bytes (drop 8 bytes)) else none

unfoldable pub trampoline_destination : Memory → ℕ → Option ℕ
trampoline_destination m slot = do bytes ← read_memory m slot 16; decode_trampoline bytes

-- The words of a block.
unfoldable pub words : ℕ → List ℕ → List ℕ
words zero bytes = []
words (suc n) bytes = from_le_bytes (take 8 bytes) ∷ words n (drop 8 bytes)

-- The words that can be read one by one, up to the first that cannot.
unfoldable pub words_singly : ℕ → Memory → ℕ → ℕ → List ℕ
words_singly zero m address index = []
words_singly (suc n) m address index =
    let rest = words_singly n m address (index + 1) in
    (elim (checked_add address (index * 8)) [
      | none ↦ []
      | some at ↦ elim (read_u64 m at) [ none ↦ [] | some value ↦ value ∷ rest ]
    ])

-- The words that `read_u64s` has read.
unfoldable pub read_u64s : Memory → ℕ → ℕ → List ℕ
read_u64s m address count = elim (read_memory m address (min count 64 * 8)) [
  | some bytes ↦ words (min count 64) bytes
  | none ↦ words_singly (min count 64) m address 0
]

-- The walk so far: whether it has ended, the stubs, and how many are new.
pub record Walk : Type 0 where
  pub ended : Bool
  pub stubs : Stubs
  pub found : ℕ

unfoldable pub note_value : Memory → Walk → ℕ → Walk
note_value m w value = elim (trampoline_destination m value) [
  | none ↦ w
  | some destination ↦
      let (new, stubs) = remember_stub w.stubs destination in
      record w { stubs = stubs; found = if new then w.found + 1 else w.found }
]

-- `count` pairs of an import and its value, up to the first that is not read or is zero.
unfoldable pub walk_pairs : ℕ → Memory → List ℕ → List ℕ → Walk → Walk
walk_pairs zero m imports values w = w
walk_pairs (suc n) m (import ∷ imports) (value ∷ values) w =
    let rest = walk_pairs n m imports values (note_value m w value) in
    if (import == 0) || (value == 0) then record w { ended = true } else rest
walk_pairs (suc n) m [] values w = record w { ended = true }
walk_pairs (suc n) m (import ∷ imports) [] w = record w { ended = true }

abbrev pub iat_thunk_chunk : ℕ
iat_thunk_chunk = 64

-- The chunks from the `thunk`-th entry on, at most `n` of them.
unfoldable pub walk_chunks : ℕ → Memory → ℕ → ℕ → ℕ → ℕ → Walk → Walk
walk_chunks zero m lookup table thunk max_thunks w = w
walk_chunks (suc n) m lookup table thunk max_thunks w =
    let count = min (max_thunks - thunk) iat_thunk_chunk in
    let imports = read_u64s m (saturating_add lookup (thunk * 8)) count in
    let values = read_u64s m (saturating_add table (thunk * 8)) count in
    let after = walk_pairs count m imports values w in
    let rest = walk_chunks n m lookup table (thunk + count) max_thunks after in
    if ltb thunk max_thunks
    then (if after.ended then record after { ended = false } else rest)
    else w

-- One import descriptor. `none` ends the scan.
unfoldable pub scan_descriptor : Memory → ℕ → ℕ → ℕ → Walk → Option Walk
scan_descriptor m image_base image_size descriptor w = do
  name_rva ← read_u32 m (saturating_add descriptor 12)
  _ ← require (not (name_rva == 0))
  iat_rva ← read_u32 m (saturating_add descriptor 16)
  original_thunk_rva ← read_u32 m descriptor
  let lookup_rva = if original_thunk_rva == 0 then iat_rva else original_thunk_rva
  let max_thunks = min ((image_size - lookup_rva) / 8) 0x1_0000
  some (
      if (iat_rva == 0) || leb image_size iat_rva || leb image_size lookup_rva
      then w
      else walk_chunks (max_thunks / iat_thunk_chunk + 1) m (saturating_add image_base lookup_rva)
          (saturating_add image_base iat_rva) 0 max_thunks w)

unfoldable pub scan_descriptors : ℕ → Memory → ℕ → ℕ → ℕ → ℕ → Walk → Walk
scan_descriptors zero m image_base image_size import_rva index w = w
scan_descriptors (suc n) m image_base image_size import_rva index w =
    let descriptor = saturating_add (saturating_add image_base import_rva) (index * 20) in
    elim (scan_descriptor m image_base image_size descriptor w) [
      | none ↦ w
      | some after ↦ scan_descriptors n m image_base image_size import_rva (index + 1) after
    ]

-- The main image's base, its size and the address of its import descriptors.
unfoldable pub main_image : Memory → Option ℕ → Option (ℕ × ℕ × ℕ)
main_image m gs_base = do
  gs ← gs_base
  _ ← require (not (gs == 0))
  peb ← read_u64 m (saturating_add gs 0x60)
  image_base ← read_u64 m (saturating_add peb 0x10)
  _ ← require (not (image_base == 0))
  mz ← read_u32 m image_base
  _ ← require (mz % 2 ^ 16 == 0x5a4d)
  pe_offset ← read_u32 m (saturating_add image_base 0x3c)
  _ ← require (leb pe_offset 0x1000)
  signature ← read_u32 m (saturating_add image_base pe_offset)
  _ ← require (signature == 0x4550)
  let optional = saturating_add (saturating_add image_base pe_offset) 24
  magic ← read_u32 m optional
  _ ← require (magic % 2 ^ 16 == 0x20b)
  image_size ← read_u32 m (saturating_add optional 56)
  import_rva ← read_u32 m (saturating_add optional 120)
  _ ← require (not ((image_size == 0) || (import_rva == 0) || leb image_size import_rva))
  some (image_base, image_size, import_rva)

-- How many stubs the scan finds, and the stubs after it.
unfoldable pub scan_main_image_iat : Memory → Option ℕ → Stubs → ℕ × Stubs
scan_main_image_iat m gs_base stubs = elim (main_image m gs_base) [
  | none ↦ (0, stubs)
  | some (image_base, image_size, import_rva) ↦
      let descriptors = min ((image_size - import_rva) / 20) 4096 in
      let start : Walk = record { ended = false; stubs = stubs; found = 0 } in
      let after = scan_descriptors descriptors m image_base image_size import_rva 0 start in
      (after.found, after.stubs)
]
