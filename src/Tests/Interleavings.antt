-- ===== src/Tests/Interleavings.antt =====
-- Two threads of the registration at concrete steps: one claims dual dispatch, the other waits.
use linuwux_runtime.Base.{ℕ, ◌≡◌, refl, true}
use linuwux_runtime.Reflex.Enums.{RoutingState}
use linuwux_runtime.Reflex.Machine.{is_transition}
use linuwux_runtime.Reflex.Threads.{
  Shared, Pc, dual_loop, dual_claim, dual_target, dual_publish, System, Step, pick, Reach, init,
  later, update, Move, call_dual, dual_unregistered, dual_win,
}
use linuwux_runtime.Reflex.Threads as Threads
use linuwux_runtime.Reflex.Threads.Ownership.{transition, Convenes}
use linuwux_runtime.Reflex.Threads.Safety.{one_registration, published_convention}

abbrev claimed : Shared
claimed = record (init.mem) { routing = RoutingState.registering_dual_dispatch }

abbrev called : System
called = record { mem = init.mem; pc = update init.pc 0 dual_loop }

abbrev loaded : System
loaded = record { mem = init.mem; pc = update called.pc 0 (dual_claim RoutingState.unregistered) }

abbrev won : System
won = record { mem = claimed; pc = update loaded.pc 0 (dual_target RoutingState.unregistered) }

loaded-Reach : Reach loaded
loaded-Reach = later (later Threads.start (pick 0 call_dual)) (pick 0 (dual_unregistered refl))

wins : Step loaded won
wins = pick 0 (dual_win refl)

won-Reach : Reach won
won-Reach = later loaded-Reach wins

abbrev first : ℕ
first = 0

one_registration_example : (first ≡ first) × (won.mem.routing ≡ transition (won.pc first))
one_registration_example = one_registration first first won-Reach refl refl

registering : is_transition won.mem.routing ≡ true
unfolding is_transition
registering = refl

published_convention_example : Convenes loaded.mem.routing loaded.mem.convention
published_convention_example = published_convention loaded-Reach
