-- ===== src/Reflex/Route.antt =====
-- `State::route_syscall` of protocol/reflex/state.rs: whether a trapped syscall belongs to Reflex,
-- and where it goes. `number` and `rcx` are u64; of `r10`, an i64, the code asks only whether it is
-- zero, so its 64 bits stand here as a number.
pub mod Decision
use linuwux_runtime.Base.{
  ℕ, Option, none, some, Bool, true, false, not, ◌==◌, ltb, leb, contains, ◌&&◌, ◌||◌,
  if◌then◌else◌, as_u32,
}
use linuwux_runtime.Reflex.Control.{
  single_dispatch_selectors, user_rcx_max, dispatch_bypass_syscall,
}
use linuwux_runtime.Reflex.Enums.{SyscallConvention, RoutingState}
use linuwux_runtime.Reflex.State.{State, DispatchRegistrations, SyscallRoute}

-- `matches!` on the two states without a handler
unfoldable pub without_handler : RoutingState → Bool
without_handler RoutingState.unregistered = true
without_handler RoutingState.registering_dual_dispatch = true
without_handler RoutingState.resume_target = false
without_handler RoutingState.dual_dispatch = false
without_handler RoutingState.registering_resume_target = false
without_handler RoutingState.promoting_dual_dispatch = false

-- The arm `DualDispatch`: the slot that a syscall selects.
unfoldable pub select_slot : DispatchRegistrations → ℕ → ℕ → ℕ → Option ℕ
select_slot d number r10 rcx =
    if number == dispatch_bypass_syscall
    then none
    else if as_u32 number == d.system_id
    then (if not (r10 == 0) || ltb user_rcx_max rcx then none else some d.system_target)
    else if (as_u32 number == d.attributes_id) && leb rcx user_rcx_max
    then some d.attributes_target
    else none

unfoldable pub select_target : SyscallConvention → State → ℕ → ℕ → ℕ → Option (ℕ × Bool)
unfolding select_slot
select_target SyscallConvention.resume_replay s number r10 rcx = some (s.resume_target, true)
select_target SyscallConvention.selector_dispatch s number r10 rcx =
    if not (contains single_dispatch_selectors number) || ltb user_rcx_max rcx
    then none
    else some (s.resume_target, false)
select_target SyscallConvention.dual_dispatch s number r10 rcx =
    elim (select_slot s.dispatch number r10 rcx) [
      | none ↦ none
      | some selected ↦ some (selected, false)
    ]

-- `(selected != 0).then_some(…)`
unfoldable pub to_route : Option (ℕ × Bool) → Option SyscallRoute
to_route none = none
to_route (some (selected, rax_is_resume)) =
    if selected == 0
    then none
    else some (record { target = selected; rax_is_resume = rax_is_resume })

unfoldable pub route_syscall : State → ℕ → ℕ → ℕ → Option SyscallRoute
unfolding without_handler select_target to_route
route_syscall s number r10 rcx =
    if without_handler s.routing
    then none
    else to_route (select_target s.syscall_convention s number r10 rcx)
