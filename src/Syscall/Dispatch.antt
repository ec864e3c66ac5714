-- ===== src/Syscall/Dispatch.antt =====
-- runtime/src/syscall/kuser_dispatch.rs: which calls of the KUSER dispatcher are turned to a raw syscall.
-- A call of the selector runs to its end before the next one, so that the lock of the scan is free.
pub mod ReflexImage
pub mod Stubs
pub mod Scan
pub mod Handoff
pub mod Bridge
pub mod Install
use linuwux_runtime.Base.{
  ℕ, zero, suc, ◌+◌, ◌-◌, ◌*◌, ◌/◌, ◌%◌, ◌^◌, Bool, true, false, not, ◌&&◌, ◌||◌, ◌>>=◌, Option,
  none, some, List, [], ◌∷◌, ◌==◌, ltb, leb, if◌then◌else◌, length, take, drop, bytes_eq, u64_mod,
}
use linuwux_runtime.Memory.{Memory, read_memory, read_u64, from_le_bytes, checked_add}
use linuwux_runtime.Syscall.Markers.{Markers, has_active_markers, retire_markers, remember_marker}
use ReflexImage.{is_reflex_address}
use Stubs.{matches_iat_stub}
use Scan.{saturating_add, scan_main_image_iat}

-- Whether a power of two, by halving at most `n` times.
unfoldable pub is_power_of_two : ℕ → ℕ → Bool
is_power_of_two zero n = false
is_power_of_two (suc fuel) n =
    let rest = is_power_of_two fuel (n / 2) in
    if n == 1 then true else if n % 2 == 1 then false else rest

unfoldable pub should_retry_iat_scan : ℕ → Bool
should_retry_iat_scan attempt =
    (attempt == 0) || is_power_of_two 64 attempt || (attempt % 1024 == 0)

pub record Dispatcher : Type 0 where
  pub original : ℕ
  pub image : ReflexImage.ReflexImage
  pub stubs : Stubs.Stubs
  pub attempts : ℕ
  pub markers : Markers

unfoldable pub maybe_scan_main_image_iat : Memory → Option ℕ → Dispatcher → Dispatcher
maybe_scan_main_image_iat m gs_base d =
    if not (d.stubs.count == 0) || (d.image.start == 0)
    then d
    else let counted = record d { attempts = (d.attempts + 1) % u64_mod } in
      let (found, stubs) = scan_main_image_iat m gs_base d.stubs in
      if should_retry_iat_scan d.attempts then record counted { stubs = stubs } else counted

-- The `mov r10, rcx; mov eax, imm32` that is nearest before a `syscall`: the offsets below `offset`, `n`
-- of them, downwards.
unfoldable pub service_below : ℕ → List ℕ → ℕ → Option ℕ
service_below zero code offset = none
service_below (suc n) code offset =
    let at = offset - 1 in
    let rest = service_below n code at in
    if bytes_eq (take 4 (drop at code)) (0x4c ∷ 0x8b ∷ 0xd1 ∷ 0xb8 ∷ [])
    then some (from_le_bytes (take 4 (drop (at + 4) code)))
    else rest

unfoldable pub syscall_service_before : List ℕ → ℕ → Option ℕ
syscall_service_before code syscall_offset =
    service_below (syscall_offset - 8 - (syscall_offset - 26)) code (syscall_offset - 8)

abbrev pub is_number : Option ℕ → ℕ → Bool
is_number none service = false
is_number (some number) service = number == service

-- The ends of the two bytes of a `syscall`, from `syscall_offset` downwards, `n` of them.
unfoldable pub find_raw_from : ℕ → List ℕ → ℕ → ℕ → ℕ → Option ℕ
find_raw_from zero code code_address service syscall_offset = none
find_raw_from (suc n) code code_address service syscall_offset =
    let rest = find_raw_from n code code_address service (syscall_offset - 1) in
    if bytes_eq (take 2 (drop (syscall_offset - 2) code)) (0x0f ∷ 0x05 ∷ [])
      && is_number (syscall_service_before code syscall_offset) service
    then checked_add code_address (syscall_offset - 2)
    else rest

unfoldable pub find_raw_syscall_instruction : List ℕ → ℕ → ℕ → Option ℕ
find_raw_syscall_instruction code code_address service =
    find_raw_from (length code - 1) code code_address service (length code)

-- The windows before the return address, one after the other.
unfoldable pub find_in_windows : List ℕ → Memory → ℕ → ℕ → Option ℕ
find_in_windows [] m return_address service = none
find_in_windows (window ∷ windows) m return_address service =
    let rest = find_in_windows windows m return_address service in
    if ltb return_address window
    then rest
    else (elim (read_memory m (return_address - window) window) [
      | none ↦ rest
      | some bytes ↦ elim (find_raw_syscall_instruction bytes (return_address - window) service) [
        | some address ↦ some address
        | none ↦ rest
      ]
    ])

unfoldable pub find_syscall : Memory → ℕ → ℕ → Option ℕ
find_syscall m return_address service =
    find_in_windows (0x80 ∷ 0x40 ∷ 0x20 ∷ []) m return_address service

pub record DispatchEvidence : Type 0 where
  pub original_dispatcher_known : Bool
  pub stub_match : Bool
  pub caller_is_reflex_image : Bool
  pub raw_syscall_found : Bool

unfoldable pub should_replay_raw : DispatchEvidence → Bool
should_replay_raw evidence =
    evidence.original_dispatcher_known
    && evidence.stub_match
    && not evidence.caller_is_reflex_image
    && evidence.raw_syscall_found

-- `raw | RAW_TARGET_TAG`
abbrev pub tagged : ℕ → ℕ
tagged raw = raw % 2 ^ 63 + 2 ^ 63

abbrev pub value_or_0 : Option ℕ → ℕ
value_or_0 none = 0
value_or_0 (some value) = value

-- The marker of a raw syscall, and the target with it.
unfoldable pub mark_raw : Dispatcher → ℕ → ℕ → ℕ → ℕ × Dispatcher
mark_raw d tid trap_rsp raw =
    let (remembered, markers) = remember_marker d.markers tid trap_rsp (saturating_add raw 2) in
    if remembered
    then (tagged raw, record d { markers = markers })
    else (d.original, record d { markers = markers })

-- What the bridge jumps to, once the scan is made and the markers that the thread has passed are
-- retired.
unfoldable pub choose_target : Memory → ℕ → ℕ → ℕ → ℕ → Dispatcher → ℕ × Dispatcher
choose_target m return_address service entry_rsp tid d =
    let trap_rsp = saturating_add entry_rsp 8 in
    let caller = value_or_0 (read_u64 m trap_rsp) in
    if (d.original == 0) || not (matches_iat_stub d.stubs return_address)
    then (d.original, d)
    else if is_reflex_address d.image caller
    then (d.original, d)
    else (elim (find_syscall m return_address service) [
      | none ↦ (d.original, d)
      | some raw ↦ mark_raw d tid trap_rsp raw
    ])

-- The repair of unixlib thunks comes between the scan and the choice.
unfoldable pub dispatcher_target :
    (Memory → Memory) → Memory → Option ℕ → ℕ → ℕ → ℕ → ℕ → Dispatcher → ℕ × Dispatcher
dispatcher_target repair m gs_base return_address service entry_rsp tid d =
    let scanned = maybe_scan_main_image_iat m gs_base d in
    let retired =
      if has_active_markers scanned.markers
      then retire_markers scanned.markers tid (saturating_add entry_rsp 8)
      else scanned.markers in
    choose_target (repair m) return_address service entry_rsp tid
      (record scanned { markers = retired })
