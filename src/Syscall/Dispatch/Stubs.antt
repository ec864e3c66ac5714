-- ===== src/Syscall/Dispatch/Stubs.antt =====
-- The set of stub addresses that the scan of the import table fills: `IAT_STUBS` of
-- runtime/src/syscall/kuser_dispatch.rs, an open-addressed table that only grows.
use linuwux_runtime.Base.{
  ℕ, zero, suc, ◌+◌, ◌-◌, ◌*◌, ◌/◌, ◌%◌, ◌^◌, Bool, true, false, ◌||◌, Option, none, some, ◌==◌,
  leb, if◌then◌else◌, u64_mod,
}

abbrev pub iat_capacity : ℕ
iat_capacity = 4096

abbrev pub iat_stub_slots : ℕ
iat_stub_slots = 8192

pub record Stubs : Type 0 where
  pub count : ℕ
  pub slots : ℕ → ℕ

abbrev pub no_stubs : Stubs
no_stubs = record { count = 0; slots = λ i. 0 }

-- The slot at an offset of the probe of an address.
unfoldable pub stub_slot : ℕ → ℕ → ℕ
stub_slot address offset =
    (address / 2 ^ 4 * 0x9e37_79b9_7f4a_7c15 % u64_mod / 2 ^ 32 + offset) % iat_stub_slots

unfoldable pub remember_from : ℕ → Stubs → ℕ → ℕ → Bool × Stubs
remember_from zero s address offset = (false, s)
remember_from (suc n) s address offset =
    let index = stub_slot address offset in
    let rest = remember_from n s address (offset + 1) in
    if s.slots index == 0
    then (
      true,
      record { count = s.count + 1; slots = λ i. if index == i then address else s.slots i },
    )
    else if s.slots index == address
    then (false, s)
    else rest

unfoldable pub remember_stub : Stubs → ℕ → Bool × Stubs
remember_stub s address =
    if (address == 0) || leb iat_capacity s.count
    then (false, s)
    else remember_from iat_stub_slots s address 0

unfoldable pub holds_from : ℕ → Stubs → ℕ → ℕ → Bool
holds_from zero s stub offset = false
holds_from (suc n) s stub offset =
    let index = stub_slot stub offset in
    let rest = holds_from n s stub (offset + 1) in
    if s.slots index == 0 then false else if s.slots index == stub then true else rest

abbrev pub thunk_return_offset : ℕ
thunk_return_offset = 0x1f

unfoldable pub stub_for_return : ℕ → Option ℕ
stub_for_return return_address =
    if leb return_address thunk_return_offset
    then none
    else some (return_address - thunk_return_offset)

unfoldable pub matches_iat_stub : Stubs → ℕ → Bool
matches_iat_stub s return_address =
    if s.count == 0 then false else (elim (stub_for_return return_address) [
      | none ↦ false
      | some stub ↦ holds_from iat_stub_slots s stub 0
    ])
