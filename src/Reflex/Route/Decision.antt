-- ===== src/Reflex/Route/Decision.antt =====
-- The table of docs/protocol/syscall-routing.md for `route_syscall`, and what follows from it.
use linuwux_runtime.Base.{ℕ, ◌≡◌, ◌≢◌, ◌≤◌, ◌⊎◌, ◌↔◌, some, true, false, arith, as_u32}
use linuwux_runtime.Reflex.Control.{user_rcx_max, dispatch_bypass_syscall}
use linuwux_runtime.Reflex.Enums.{SyscallConvention, RoutingState}
use linuwux_runtime.Reflex.State.{State, SyscallRoute}
use linuwux_runtime.Reflex.Route.{route_syscall}

-- A handler is registered, or a registration over one is under way.
abbrev pub HasHandler : RoutingState → Type 0
HasHandler r = (r ≢ RoutingState.unregistered) × (r ≢ RoutingState.registering_dual_dispatch)

abbrev pub IsReplay : State → SyscallRoute → Type 0
IsReplay s r =
    (s.syscall_convention ≡ SyscallConvention.resume_replay)
    × (r.target ≡ s.resume_target)
    × (r.rax_is_resume ≡ true)

abbrev pub IsSelector : State → ℕ → ℕ → SyscallRoute → Type 0
IsSelector s number rcx r =
    (s.syscall_convention ≡ SyscallConvention.selector_dispatch)
    × ((number ≡ 0x1337_1337) ⊎ (number ≡ 0x1337_1338))
    × (rcx ≤ user_rcx_max)
    × (r.target ≡ s.resume_target)
    × (r.rax_is_resume ≡ false)

abbrev pub IsSystemSlot : State → ℕ → ℕ → ℕ → SyscallRoute → Type 0
IsSystemSlot s number r10 rcx r =
    (s.syscall_convention ≡ SyscallConvention.dual_dispatch)
    × (number ≢ dispatch_bypass_syscall)
    × (as_u32 number ≡ s.dispatch.system_id)
    × (r10 ≡ 0)
    × (rcx ≤ user_rcx_max)
    × (r.target ≡ s.dispatch.system_target)
    × (r.rax_is_resume ≡ false)

abbrev pub IsAttributesSlot : State → ℕ → ℕ → SyscallRoute → Type 0
IsAttributesSlot s number rcx r =
    (s.syscall_convention ≡ SyscallConvention.dual_dispatch)
    × (number ≢ dispatch_bypass_syscall)
    × (as_u32 number ≢ s.dispatch.system_id)
    × (as_u32 number ≡ s.dispatch.attributes_id)
    × (rcx ≤ user_rcx_max)
    × (r.target ≡ s.dispatch.attributes_target)
    × (r.rax_is_resume ≡ false)

-- The decision table, written without reference to the code's tests or to their order.
abbrev pub Routes : State → ℕ → ℕ → ℕ → SyscallRoute → Type 0
Routes s number r10 rcx r =
    HasHandler s.routing
    × (r.target ≢ 0)
    × (IsReplay s r
        ⊎ IsSelector s number rcx r
        ⊎ IsSystemSlot s number r10 rcx r
        ⊎ IsAttributesSlot s number rcx r)

-- `route_syscall` answers a route exactly when the table lists it.
pub route_syscall_iff :
    (s : State) (number r10 rcx : ℕ) (r : SyscallRoute)
    → (route_syscall s number r10 rcx ≡ some r) ↔ Routes s number r10 rcx r
unfolding route_syscall
route_syscall_iff s number r10 rcx r = ground arith
