-- ===== src/Reflex/Rank.antt =====
-- An order on the states of protocol/reflex/state.rs: how far a registration has come. It is not in
-- the source; the statements on `handle_cpuid` and on threads use it.
use linuwux_runtime.Base.{ℕ}
use linuwux_runtime.Reflex.Enums.{RoutingState}

abbrev pub rank : RoutingState → ℕ
rank RoutingState.unregistered = 0
rank RoutingState.registering_resume_target = 0
rank RoutingState.registering_dual_dispatch = 0
rank RoutingState.resume_target = 1
rank RoutingState.promoting_dual_dispatch = 1
rank RoutingState.dual_dispatch = 2
