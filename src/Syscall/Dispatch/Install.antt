-- ===== src/Syscall/Dispatch/Install.antt =====
-- runtime/src/syscall/kuser_dispatch.rs: the installation of the bridge in the slot of Wine's dispatcher. The
-- list `answers` has what the next calls of `mprotect` answer, and behind its end they succeed. The page
-- guard is what its acquisition answers, and the address of the bridge is an argument.
pub mod Wired
use linuwux_runtime.Base.{ℕ, Bool, true, false, not, ◌&&◌, ◌||◌, List, [], ◌∷◌, ◌==◌, if◌then◌else◌}

-- BRIDGE_INSTALLED, ORIGINAL_DISPATCHER, the slot, and the protection of its page.
pub record Installation : Type 0 where
  pub installed : Bool
  pub original : ℕ
  pub slot : ℕ
  pub writable : Bool
  pub answers : List Bool

unfoldable pub protect : Bool → Installation → Bool × Installation
protect writable s = elim s.answers [
  | [] ↦ (true, record s { writable = writable })
  | answer ∷ answers ↦
      if answer
      then (true, record s { writable = writable; answers = answers })
      else (false, record s { answers = answers })
]

-- The exchange of the slot, and whether the bridge is in it then.
unfoldable pub swap_slot : ℕ → Installation → Bool × Installation
swap_slot bridge s =
    if not (s.slot == 0) && not (s.slot == bridge)
    then (true, record s { original = s.slot; slot = bridge })
    else ((s.slot == bridge) && not (s.original == 0), s)

unfoldable pub close_page : Bool × Installation → Bool × Installation
close_page (present, s) =
    let (restored, s') = protect false s in
    if present && restored then (true, record s' { installed = true }) else (false, s')

unfoldable pub open_page : ℕ → Bool × Installation → Bool × Installation
open_page bridge (opened, s) = if not opened then (false, s) else close_page (swap_slot bridge s)

unfoldable pub install : ℕ → Bool → Installation → Bool × Installation
install bridge guards s =
    if s.installed
    then (true, s)
    else if not guards
    then (false, s)
    else open_page bridge (protect true s)
