-- ===== src/Reflex/State.antt =====
-- `State`, its getters and the trait `Host` of protocol/reflex/state.rs.
-- A `World` is the shared state with the state of the host. The one field of `Host` that may touch
-- the shared state is `yield_thread`: it is where the threads that this one waits for run.
use Prim.Native.String.{String}
use linuwux_runtime.Base.{
  ℕ, Option, none, some, Bool, true, false, not, ◌==◌, ◌&&◌, if◌then◌else◌, u32_max,
}
use linuwux_runtime.Kuser.Recipe.{Recipe}
use linuwux_runtime.Reflex.Enums.{
  Routing, IdentityScope, IdentityState, SyscallConvention, RoutingState, public_identity, stable,
}

pub record SyscallRoute : Type 0 where
  pub target : ℕ
  pub rax_is_resume : Bool

pub record DispatchRegistrations : Type 0 where
  pub system_target : ℕ
  pub system_id : ℕ
  pub attributes_target : ℕ
  pub attributes_id : ℕ

pub record State : Type 0 where
  pub routing : RoutingState
  pub identity : IdentityState
  pub target_pid : ℕ
  pub syscall_convention : SyscallConvention
  pub resume_target : ℕ
  pub dispatch : DispatchRegistrations

unfoldable pub new_dispatch : DispatchRegistrations
new_dispatch = record {
  system_target = 0;
  system_id = u32_max;
  attributes_target = 0;
  attributes_id = u32_max;
}

unfoldable pub new : State
unfolding new_dispatch
new = record {
  routing = RoutingState.unregistered;
  identity = IdentityState.unobserved;
  target_pid = 0;
  syscall_convention = SyscallConvention.resume_replay;
  resume_target = 0;
  dispatch = new_dispatch;
}

-- `routing()`
unfoldable pub routing_of : State → Routing
unfolding stable
routing_of s = stable s.routing

unfoldable pub identity_scope : State → IdentityScope
unfolding public_identity
identity_scope s = public_identity s.identity

-- `target_pid()`
unfoldable pub target_pid_of : State → Option ℕ
target_pid_of s = if s.target_pid == 0 then none else some s.target_pid

abbrev pub is_unregistered : Routing → Bool
is_unregistered Routing.unregistered = true
is_unregistered Routing.resume_target = false
is_unregistered Routing.dual_dispatch = false

abbrev pub is_resume_target : Routing → Bool
is_resume_target Routing.unregistered = false
is_resume_target Routing.resume_target = true
is_resume_target Routing.dual_dispatch = false

abbrev pub is_dual_dispatch : Routing → Bool
is_dual_dispatch Routing.unregistered = false
is_dual_dispatch Routing.resume_target = false
is_dual_dispatch Routing.dual_dispatch = true

unfoldable pub has_registered_target_process : State → Bool
unfolding routing_of
has_registered_target_process s = not (s.target_pid == 0) && not (is_unregistered (routing_of s))

unfoldable pub resume_identity_unarmed : State → Bool
unfolding routing_of
resume_identity_unarmed s = not (is_dual_dispatch (routing_of s)) && (s.resume_target == 0)

pub record World (H : Type 0) : Type 0 where
  pub state : State
  pub host : H

pub record Host (H : Type 0) : Type 0 where
  pub set_offset : ℕ → H → H
  pub select_legacy_presentation : H → H
  pub legacy_presentation_active : H → Bool
  pub selector_kuser_recipe : H → Recipe
  pub patch_kuser : Recipe → H → Bool × H
  pub set_hwprofile_guid : H → H
  pub yield_thread : World H → World H
  pub log : String → H → H
  pub log_hex : String → ℕ → H → H
