-- ===== src/Syscall/Markers/Reachable.antt =====
-- The tables that the calls of the process make, in any order.
use linuwux_runtime.Base.{ℕ, ◌≢◌}
use linuwux_runtime.Syscall.Markers.{
  Markers, no_markers, remember_marker, retire_markers, SavedContext, consume_marker, cancel,
}
use linuwux_runtime.Syscall.Markers.Count.{
  WellFormed, no_markers-WellFormed, remember-WellFormed, retire-WellFormed, consume-WellFormed,
  cancel-WellFormed,
}

-- One call of the process. `gettid` is never 0.
pub data Call : Markers → Markers → Type 0 where
  remembering : (t : Markers) (tid stack rip : ℕ) → Call t (remember_marker t tid stack rip).1
  retiring : (t : Markers) (tid stack : ℕ) → Call t (retire_markers t tid stack)
  consuming :
      (t : Markers) (tid stack rip : ℕ) (context : SavedContext)
      → Call t (consume_marker t tid stack rip context).1
  cancelling : (t : Markers) (tid stack rip : ℕ) → tid ≢ 0 → Call t (cancel t tid stack rip)

pub data Reachable : Markers → Type 0 where
  start : Reachable no_markers
  after : {t u : Markers} → Reachable t → Call t u → Reachable u

call-WellFormed : {t u : Markers} → Call t u → WellFormed t → WellFormed u
call-WellFormed (remembering t tid stack rip) wf = remember-WellFormed t tid stack rip wf
call-WellFormed (retiring t tid stack) wf = retire-WellFormed t tid stack wf
call-WellFormed (consuming t tid stack rip context) wf =
    consume-WellFormed t tid stack rip context wf
call-WellFormed (cancelling t tid stack rip keyed) wf = cancel-WellFormed t tid stack rip wf keyed

-- In every table that calls of `remember_marker`, `retire_markers`, `consume` and `cancel` reach
-- from the new one, in any order, by any threads and at any addresses, the count of active markers
-- is the number of slots that hold one, and a slot that holds none is cleared.
pub Reachable-WellFormed : {t : Markers} → Reachable t → WellFormed t
Reachable-WellFormed start = no_markers-WellFormed
Reachable-WellFormed (after before call) = call-WellFormed call (Reachable-WellFormed before)
