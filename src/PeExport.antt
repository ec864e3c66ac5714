-- ===== src/PeExport.antt =====
-- runtime/src/syscall/pe_export.rs: a loaded module's base from the PEB's loader list, and the
-- service number in a named export from its export table. The base of the GS segment, which a
-- syscall answers, is an argument.
pub mod Search
use Prim.Native.Nat.{compare, Ordering}
use linuwux_runtime.Base.{
  ℕ, zero, suc, ◌+◌, ◌-◌, ◌*◌, ◌/◌, Bool, true, false, not, ◌||◌, ◌&&◌, ◌>>=◌, Option, none, some,
  List, [], ◌∷◌, ◌==◌, ltb, leb, if◌then◌else◌, bytes_eq, length, take, drop, u32_max,
}
use linuwux_runtime.Text.Bytes.{take_while}
use linuwux_runtime.Memory.{
  Memory, read_memory, read_u16, read_u32, read_u64, from_le_bytes, checked_add,
}

abbrev pub module_limit : ℕ
module_limit = 256

-- `rva`: an address in the image.
unfoldable pub rva : ℕ → ℕ → ℕ → Option ℕ
rva base image_size value = if ltb value image_size then checked_add base value else none

-- `checked_add` of a `checked_mul`, of u32.
unfoldable pub entry_rva : ℕ → ℕ → ℕ → Option ℕ
entry_rva table index size =
    if ltb u32_max (index * size)
    then none
    else if ltb u32_max (table + index * size)
    then none
    else some (table + index * size)

abbrev pub require : Bool → Option Bool
require b = if b then some true else none

-- `eq_ignore_ascii_case`
abbrev pub lower : ℕ → ℕ
lower b = if leb 65 b && leb b 90 then b + 32 else b

-- The UTF-16 units of a name against an ASCII name.
unfoldable pub units_match : List ℕ → List ℕ → Bool
units_match (low ∷ high ∷ units) (c ∷ name) =
    (lower low == lower c) && (high == 0) && units_match units name
units_match _ _ = true

-- A failed read is no match.
abbrev pub holds : Option Bool → Bool
holds none = false
holds (some b) = b

unfoldable pub module_name_matches : Memory → ℕ → List ℕ → Bool
module_name_matches m entry name =
    if ltb 32 (length name)
    then false
    else holds (do
      length_at ← checked_add entry 0x58
      units ← read_u16 m length_at
      _ ← require (units == length name * 2)
      name_at ← checked_add entry 0x60
      base_name ← read_u64 m name_at
      bytes ← read_memory m base_name (length name * 2)
      some (units_match bytes name))

-- The walk of at most `n` entries of the loader's list.
unfoldable pub walk : ℕ → Memory → ℕ → ℕ → List ℕ → Option ℕ
walk zero m head entry name = none
walk (suc n) m head entry name =
    let rest = (do next ← read_u64 m entry; walk n m head next name) in
    if (entry == head) || (entry == 0)
    then none
    else if module_name_matches m entry name
    then (do base_at ← checked_add entry 0x30; read_u64 m base_at)
    else rest

unfoldable pub base_from_peb : Memory → ℕ → List ℕ → Option ℕ
base_from_peb m peb name = do
  ldr_at ← checked_add peb 0x18
  ldr ← read_u64 m ldr_at
  head ← checked_add ldr 0x10
  entry ← read_u64 m head
  walk module_limit m head entry name

unfoldable pub module_base : Memory → Option ℕ → List ℕ → Option ℕ
module_base m gs_base name = do
  gs ← gs_base
  peb_at ← checked_add gs 0x60
  peb ← read_u64 m peb_at
  base_from_peb m peb name

-- The export directory of an image.
pub record Exports : Type 0 where
  pub base : ℕ
  pub image_size : ℕ
  pub function_count : ℕ
  pub name_count : ℕ
  pub functions : ℕ
  pub names : ℕ
  pub ordinals : ℕ

abbrev field_u32 : Memory → ℕ → ℕ → Option ℕ
field_u32 m base amount = do address ← checked_add base amount; read_u32 m address

unfoldable pub read_exports : Memory → ℕ → Option Exports
read_exports m base = do
  dos ← read_memory m base 0x40
  _ ← require (bytes_eq (take 2 dos) (0x4d ∷ 0x5a ∷ []))
  let pe_offset = from_le_bytes (take 4 (drop 0x3c dos))
  _ ← require (leb pe_offset 0x1000)
  pe ← checked_add base pe_offset
  signature ← read_memory m pe 4
  _ ← require (bytes_eq signature (0x50 ∷ 0x45 ∷ 0 ∷ 0 ∷ []))
  optional ← checked_add pe 24
  magic ← read_u16 m optional
  _ ← require (magic == 0x20b)
  image_size ← field_u32 m optional 56
  export_rva ← field_u32 m optional 112
  export ← rva base image_size export_rva
  function_count ← field_u32 m export 0x14
  name_count ← field_u32 m export 0x18
  functions ← field_u32 m export 0x1c
  names ← field_u32 m export 0x20
  ordinals ← field_u32 m export 0x24
  _ ← require (not ((name_count == 0) || ltb 4096 name_count || ltb 4096 function_count))
  some (record {
    base = base;
    image_size = image_size;
    function_count = function_count;
    name_count = name_count;
    functions = functions;
    names = names;
    ordinals = ordinals;
  })

-- The `index`-th name: the bytes before the first zero of the 32 at its address.
unfoldable pub name_at : Memory → Exports → ℕ → Option (List ℕ)
name_at m t index = do
  slot_rva ← entry_rva t.names index 4
  slot ← rva t.base t.image_size slot_rva
  name_rva ← read_u32 m slot
  address ← rva t.base t.image_size name_rva
  candidate ← read_memory m address 32
  some (take_while (λ b. not (b == 0)) candidate)

-- The service number in the function of the `index`-th name.
unfoldable pub service_at : Memory → Exports → ℕ → Option ℕ
service_at m t index = do
  ordinal_rva ← entry_rva t.ordinals index 2
  ordinal_slot ← rva t.base t.image_size ordinal_rva
  ordinal ← read_u16 m ordinal_slot
  _ ← require (ltb ordinal t.function_count)
  function_entry ← entry_rva t.functions ordinal 4
  function_slot ← rva t.base t.image_size function_entry
  function_rva ← read_u32 m function_slot
  function ← rva t.base t.image_size function_rva
  head ← read_memory m function 8
  _ ← require (bytes_eq (take 4 head) (0x4c ∷ 0x8b ∷ 0xd1 ∷ 0xb8 ∷ []))
  some (from_le_bytes (take 4 (drop 4 head)))

-- `cmp` on byte slices.
unfoldable pub compare_bytes : List ℕ → List ℕ → Ordering
compare_bytes [] [] = Ordering.eq
compare_bytes [] (y ∷ ys) = Ordering.lt
compare_bytes (x ∷ xs) [] = Ordering.gt
compare_bytes (x ∷ xs) (y ∷ ys) = elim (compare x y) [
  | Ordering.lt ↦ Ordering.lt
  | Ordering.gt ↦ Ordering.gt
  | Ordering.eq ↦ compare_bytes xs ys
]

-- The binary search over the names from `low` to `high`, of at most `n` rounds.
unfoldable pub search : ℕ → Memory → Exports → List ℕ → ℕ → ℕ → Option ℕ
search zero m t export_name low high = none
search (suc n) m t export_name low high =
    if ltb low high
    then (do
      let mid = low + (high - low) / 2
      candidate ← name_at m t mid
      elim (compare_bytes candidate export_name) [
        | Ordering.lt ↦ search n m t export_name (mid + 1) high
        | Ordering.gt ↦ search n m t export_name low mid
        | Ordering.eq ↦ service_at m t mid
      ])
    else none

-- A round halves the names that are left at least, so that one more round than names is enough.
unfoldable pub export_service : Memory → ℕ → List ℕ → Option ℕ
export_service m base export_name = do
  t ← read_exports m base
  search (t.name_count + 1) m t export_name 0 t.name_count
