-- ===== src/Reflex/Enums.antt =====
-- The enums of protocol/reflex/state.rs with `store` (the number) and `load` (the enum; `none` is
-- the panic of `unreachable!`).
use linuwux_runtime.Base.{ℕ, Option, none, some, ◌==◌, if◌then◌else◌, ◌≡◌, refl}

pub data Routing : Type 0 where
  unregistered resume_target dual_dispatch : Routing

pub data IdentityScope : Type 0 where
  unobserved process debug_register_thread : IdentityScope

pub data IdentityState : Type 0 where
  unobserved process debug_register_thread : IdentityState

pub data SyscallConvention : Type 0 where
  resume_replay selector_dispatch dual_dispatch : SyscallConvention

pub data RoutingState : Type 0 where
  unregistered resume_target dual_dispatch : RoutingState
  registering_resume_target registering_dual_dispatch promoting_dual_dispatch : RoutingState

pub data Action : Type 0 where
  native consumed : Action

unfoldable pub store_identity : IdentityState → ℕ
store_identity IdentityState.unobserved = 0
store_identity IdentityState.process = 1
store_identity IdentityState.debug_register_thread = 2

unfoldable pub load_identity : ℕ → Option IdentityState
load_identity raw =
    if raw == 0
    then some IdentityState.unobserved
    else if raw == 1
    then some IdentityState.process
    else if raw == 2
    then some IdentityState.debug_register_thread
    else none

-- `IdentityState::public`
unfoldable pub public_identity : IdentityState → IdentityScope
public_identity IdentityState.unobserved = IdentityScope.unobserved
public_identity IdentityState.process = IdentityScope.process
public_identity IdentityState.debug_register_thread = IdentityScope.debug_register_thread

unfoldable pub store_convention : SyscallConvention → ℕ
store_convention SyscallConvention.resume_replay = 0
store_convention SyscallConvention.selector_dispatch = 1
store_convention SyscallConvention.dual_dispatch = 2

unfoldable pub load_convention : ℕ → Option SyscallConvention
load_convention raw =
    if raw == 0
    then some SyscallConvention.resume_replay
    else if raw == 1
    then some SyscallConvention.selector_dispatch
    else if raw == 2
    then some SyscallConvention.dual_dispatch
    else none

unfoldable pub store_routing : RoutingState → ℕ
store_routing RoutingState.unregistered = 0
store_routing RoutingState.resume_target = 1
store_routing RoutingState.dual_dispatch = 2
store_routing RoutingState.registering_resume_target = 3
store_routing RoutingState.registering_dual_dispatch = 4
store_routing RoutingState.promoting_dual_dispatch = 5

unfoldable pub load_routing : ℕ → Option RoutingState
load_routing raw =
    if raw == 0
    then some RoutingState.unregistered
    else if raw == 1
    then some RoutingState.resume_target
    else if raw == 2
    then some RoutingState.dual_dispatch
    else if raw == 3
    then some RoutingState.registering_resume_target
    else if raw == 4
    then some RoutingState.registering_dual_dispatch
    else if raw == 5
    then some RoutingState.promoting_dual_dispatch
    else none

-- `RoutingState::stable`
unfoldable pub stable : RoutingState → Routing
stable RoutingState.resume_target = Routing.resume_target
stable RoutingState.dual_dispatch = Routing.dual_dispatch
stable RoutingState.unregistered = Routing.unregistered
stable RoutingState.registering_resume_target = Routing.unregistered
stable RoutingState.registering_dual_dispatch = Routing.unregistered
stable RoutingState.promoting_dual_dispatch = Routing.unregistered

-- What one thread stores, another loads: no stored number reaches the panic.
load_routing-store_routing : (r : RoutingState) → load_routing (store_routing r) ≡ some r
unfolding load_routing store_routing
load_routing-store_routing RoutingState.unregistered = refl
load_routing-store_routing RoutingState.resume_target = refl
load_routing-store_routing _ = refl

load_convention-store_convention :
    (c : SyscallConvention) → load_convention (store_convention c) ≡ some c
unfolding load_convention store_convention
load_convention-store_convention SyscallConvention.resume_replay = refl
load_convention-store_convention _ = refl

load_identity-store_identity : (i : IdentityState) → load_identity (store_identity i) ≡ some i
unfolding load_identity store_identity
load_identity-store_identity IdentityState.unobserved = refl
load_identity-store_identity _ = refl
