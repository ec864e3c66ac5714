-- ===== src/Reflex/Threads/Safety.antt =====
-- What every interleaving of registrations keeps.
use linuwux_runtime.Base.{ℕ, ◌≤◌, ◌≡◌, true}
use linuwux_runtime.Reflex.Machine.{is_transition}
use linuwux_runtime.Reflex.Rank.{rank}
use linuwux_runtime.Reflex.Threads.{System, Step, Reach}
use linuwux_runtime.Reflex.Threads.Ownership.{owns, transition, Convenes, Reach-Inv, Step-rank}

-- In every reachable state two threads that are each between their claim and their publication are
-- the same thread, and the routing word is the transition that it claimed.
pub one_registration :
    {s : System} (i j : ℕ)
    → Reach s
    → owns (s.pc i) ≡ true
    → owns (s.pc j) ≡ true
    → (i ≡ j) × (s.mem.routing ≡ transition (s.pc i))
one_registration i j r first second =
    let inv = Reach-Inv r in (inv.alone i j first second, inv.owned i first)

-- In every reachable state whose routing is a transition, some thread is between its claim and its
-- publication: no transition is left behind.
transition_owned :
    {s : System} → Reach s → is_transition s.mem.routing ≡ true → (i : ℕ) × (owns (s.pc i) ≡ true)
transition_owned r moving = (Reach-Inv r).held moving

-- In every reachable state the convention fits the routing: dual dispatch with the dual convention,
-- a resume target with one of the other two, and no routing with resume replay.
pub published_convention : {s : System} → Reach s → Convenes s.mem.routing s.mem.convention
published_convention r = (Reach-Inv r).convention

-- From a reachable state no step of any thread lowers the rank of the routing: dual dispatch is
-- never left, and a resume target is left for dual dispatch alone.
registration_advances :
    {s t : System} → Reach s → Step s t → rank s.mem.routing ≤ rank t.mem.routing
registration_advances r st = Step-rank (Reach-Inv r) st
