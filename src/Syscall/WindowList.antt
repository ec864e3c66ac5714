-- ===== src/Syscall/WindowList.antt =====
-- runtime/src/syscall/win32u_zero_list.rs: the completion of a window-list probe of no capacity. The
-- service number comes from the export table of the loaded win32u.dll; whether the kernel lets the
-- process write a u32 at an address is an argument.
use linuwux_runtime.Base.{
  ℕ, ◌+◌, ◌/◌, ◌%◌, ◌^◌, Bool, not, ◌&&◌, ◌>>=◌, Option, none, some, List, [], ◌∷◌, ◌==◌, leb,
  if◌then◌else◌, u32_mod,
}
use linuwux_runtime.Memory.{Memory, read_u32, read_u64, store_bytes, checked_add}
use linuwux_runtime.PeExport.{module_base, export_service, require}
use linuwux_runtime.Syscall.Registers.{Context}

abbrev pub status_buffer_too_small : ℕ
status_buffer_too_small = 0xc000_0023

abbrev pub resolve_attempt_limit : ℕ
resolve_attempt_limit = 16

-- "NtUserBuildHwndList"
abbrev pub export_name : List ℕ
export_name =
    78 ∷ 116 ∷ 85 ∷ 115 ∷ 101 ∷ 114 ∷ 66 ∷ 117 ∷ 105 ∷ 108 ∷ 100 ∷ 72 ∷ 119 ∷ 110 ∷ 100 ∷ 76 ∷ 105
    ∷ 115 ∷ 116 ∷ []

-- "win32u.dll"
abbrev pub module_name : List ℕ
module_name = 119 ∷ 105 ∷ 110 ∷ 51 ∷ 50 ∷ 117 ∷ 46 ∷ 100 ∷ 108 ∷ 108 ∷ []

pub record WindowList : Type 0 where
  pub service : ℕ
  pub attempts : ℕ

-- The number that a look-up finds, if it is one.
unfoldable pub discovered : Memory → Option ℕ → Option ℕ
discovered m gs_base = do
  base ← module_base m gs_base module_name
  number ← export_service m base export_name
  _ ← require (not (number == 0))
  some number

unfoldable pub window_list_service : Memory → Option ℕ → WindowList → Option ℕ × WindowList
window_list_service m gs_base w =
    if not (w.service == 0)
    then (some w.service, w)
    else let counted = record w { attempts = (w.attempts + 1) % u32_mod } in
      if leb resolve_attempt_limit w.attempts
      then (none, counted)
      else (elim (discovered m gs_base) [
        | none ↦ (none, counted)
        | some number ↦ (some number, record counted { service = number })
      ])

unfoldable pub u32_bytes : ℕ → List ℕ
u32_bytes n = n % 256 ∷ n / 2 ^ 8 % 256 ∷ n / 2 ^ 16 % 256 ∷ n / 2 ^ 24 % 256 ∷ []

unfoldable pub write_u32 : (ℕ → Bool) → Memory → ℕ → ℕ → Option Memory
write_u32 writable m address value =
    if writable address then some (store_bytes m address (u32_bytes value)) else none

-- The registers and the memory after the completion, or `none` where the call is left alone.
unfoldable pub complete_zero_capacity :
    (ℕ → Bool) → Memory → Context → ℕ → Option (Context × Memory)
complete_zero_capacity writable m c service = do
  _ ← require (c.rax == service)
  count_at ← checked_add c.rsp 0x30
  count ← read_u32 m count_at
  buffer_at ← checked_add c.rsp 0x38
  buffer ← read_u64 m buffer_at
  size_at ← checked_add c.rsp 0x40
  size ← read_u64 m size_at
  _ ← require ((count == 0) && (buffer == 0) && not (size == 0))
  written ← write_u32 writable m size 1
  some (record c { rax = status_buffer_too_small }, written)

unfoldable pub maybe_complete_bypass :
    (ℕ → Bool) → Option ℕ → Memory → Context → WindowList → Option (Context × Memory) × WindowList
maybe_complete_bypass writable gs_base m c w =
    if not (c.rax / 0x1000 % 16 == 1)
    then (none, w)
    else let (service, looked) = window_list_service m gs_base w in
      ((do number ← service; complete_zero_capacity writable m c number), looked)
