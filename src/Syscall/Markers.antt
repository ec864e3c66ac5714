-- ===== src/Syscall/Markers.antt =====
-- runtime/src/syscall/reflex_markers.rs: the markers that hand a syscall from the dispatcher to the
-- SIGSYS handler, twice. The arrays of atomics are one function from a slot to its marker, and a call
-- runs to its end before the next; a slot that a call reserves by `u64::MAX` is published within it.
pub mod Probe
pub mod Lifecycle
pub mod Count
pub mod Reachable
pub mod Retired
use linuwux_runtime.Base.{
  ℕ, zero, suc, ◌+◌, ◌-◌, ◌/◌, ◌%◌, ◌^◌, Option, none, some, Bool, true, false, ◌&&◌, ◌||◌, ◌==◌,
  ltb, if◌then◌else◌, u64_max,
}
use linuwux_runtime.Syscall.Registers.{Xmm, zero_xmm}

abbrev pub marker_capacity : ℕ
marker_capacity = 256

pub record SavedContext : Type 0 where
  pub xmm4 : Xmm
  pub xmm5 : Xmm
  pub r11 : ℕ
  pub eflags : ℕ

pub data Phase : Type 0 where
  route : Phase
  replay : SavedContext → Phase

-- One slot of the arrays.
pub record Marker : Type 0 where
  pub stack : ℕ
  pub tid : ℕ
  pub rip : ℕ
  pub phase : ℕ
  pub saved : SavedContext

abbrev pub no_context : SavedContext
no_context = record { xmm4 = zero_xmm; xmm5 = zero_xmm; r11 = 0; eflags = 0 }

abbrev pub cleared_marker : Marker
cleared_marker = record { stack = 0; tid = 0; rip = 0; phase = 0; saved = no_context }

pub record Markers : Type 0 where
  pub slots : ℕ → Marker
  pub active : ℕ

abbrev pub no_markers : Markers
no_markers = record { slots = λ i. cleared_marker; active = 0 }

abbrev pub put : (ℕ → Marker) → ℕ → Marker → ℕ → Marker
put slots index marker i = if index == i then marker else slots i

unfoldable pub has_active_markers : Markers → Bool
has_active_markers t = if t.active == 0 then false else true

unfoldable pub marker_slot : ℕ → ℕ
marker_slot stack = stack / 2 ^ 4 % marker_capacity

-- The first of the slots that are probed, `n` of them from an offset on, that passes a test.
unfoldable pub probe : (Marker → Bool) → (ℕ → Marker) → ℕ → ℕ → ℕ → Option ℕ
probe test slots start zero offset = none
probe test slots start (suc n) offset =
    let index = (start + offset) % marker_capacity in
    let rest = probe test slots start n (offset + 1) in
    if test (slots index) then some index else rest

abbrev pub is_marker : ℕ → ℕ → ℕ → Marker → Bool
is_marker tid stack rip m = (m.stack == stack) && (m.tid == tid) && (m.rip == rip)

abbrev pub is_free : Marker → Bool
is_free m = m.stack == 0

unfoldable pub find_marker : Markers → ℕ → ℕ → ℕ → Option ℕ
find_marker t tid stack rip =
    if has_active_markers t
    then probe (is_marker tid stack rip) t.slots (marker_slot stack) marker_capacity 0
    else none

unfoldable pub remember_marker : Markers → ℕ → ℕ → ℕ → Bool × Markers
remember_marker t tid stack rip =
    if (tid == 0) || (stack == 0) || (rip == 0)
    then (false, t)
    else (elim (probe is_free t.slots (marker_slot stack) marker_capacity 0) [
      | none ↦ (false, t)
      | some index ↦ (
        true,
        record {
          slots =
              put t.slots index
                (record (t.slots index) { stack = stack; tid = tid; rip = rip; phase = 0 });
          active = t.active + 1;
        },
      )
    ])

unfoldable pub release_marker : Markers → ℕ → ℕ → Markers
release_marker t index stack =
    if (t.slots index).stack == stack
    then record { slots = put t.slots index cleared_marker; active = t.active - 1 }
    else t

-- The loop over `n` slots from an index on.
unfoldable pub retire_from : ℕ → ℕ → Markers → ℕ → ℕ → Markers
retire_from zero i t tid stack = t
retire_from (suc n) i t tid stack =
    let m = t.slots i in
    let kept =
      if m.tid == tid then (m.stack == 0) || (m.stack == u64_max) || ltb stack m.stack else true in
    retire_from n (i + 1) (if kept then t else release_marker t i m.stack) tid stack

unfoldable pub retire_markers : Markers → ℕ → ℕ → Markers
retire_markers t tid stack =
    if (tid == 0) || (t.active == 0) then t else retire_from marker_capacity 0 t tid stack

unfoldable pub consume_marker : Markers → ℕ → ℕ → ℕ → SavedContext → Option Phase × Markers
consume_marker t tid stack rip context =
    if (tid == 0) || (stack == 0) || (rip == 0)
    then (none, t)
    else (elim (find_marker t tid stack rip) [
      | none ↦ (none, t)
      | some index ↦
          let m = t.slots index in
          if m.phase == 0
          then (
            some route,
            record t { slots = put t.slots index (record m { phase = 1; saved = context }) },
          )
          else if m.phase == 1
          then (some (replay m.saved), release_marker t index stack)
          else (none, release_marker t index stack)
    ])

unfoldable pub cancel : Markers → ℕ → ℕ → ℕ → Markers
cancel t tid stack rip = elim (find_marker t tid stack rip) [
  | none ↦ t
  | some index ↦ release_marker t index stack
]
