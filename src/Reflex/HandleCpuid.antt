-- ===== src/Reflex/HandleCpuid.antt =====
-- `State::handle_cpuid` of protocol/reflex/state.rs: the control leaves. `none` is a loop of a
-- registration out of fuel.
pub mod Outcome
pub mod Handshake
pub mod Invariant
use Prim.Native.String.{String}
use linuwux_runtime.Base.{
  ℕ, Option, none, some, Bool, true, false, List, ◌==◌, ◌*◌, ◌^◌, ◌%◌, if◌then◌else◌, as_u32,
  u64_mod,
}
use linuwux_runtime.Kuser.Recipe.{Recipe}
use linuwux_runtime.Reflex.Control.{
  arm_target_cr3, client_session_marker, register_resume_handler, set_time, register_target_pid,
  register_system_syscall_id, register_attributes_handler, register_attributes_syscall_id,
  cpuid_argument,
}
use linuwux_runtime.Reflex.Enums.{Action, native, consumed, IdentityState, store_identity}
use linuwux_runtime.Reflex.State.{
  DispatchRegistrations, World, Host, is_unregistered, is_resume_target, routing_of,
}
use linuwux_runtime.Reflex.Machine.{
  on_host, on_state, kuser_recipe, activate_dual_dispatch, register_resume_target,
}

-- `argument << 32` on a u64
unfoldable pub high_half : ℕ → ℕ
high_half argument = argument * 2 ^ 32 % u64_mod

-- A registration of one of the two dispatch slots is consumed if the activation succeeds.
unfoldable pub store_slot :
    {H : Type 0}
    → (DispatchRegistrations → DispatchRegistrations)
    → Option (Bool × World H)
    → Option (Action × World H)
store_slot f none = none
store_slot f (some (false, w)) = some (native, w)
store_slot f (some (true, w)) =
    some (consumed, on_state (λ s. record s { dispatch = f s.dispatch }) w)

abbrev pub recipe_message : Recipe → String
recipe_message Recipe.dispatch = "reflex KUSER recipe=dispatch"
recipe_message Recipe.selector = "reflex KUSER recipe=selector"
recipe_message Recipe.resume = "reflex KUSER recipe=resume"

module _ {H : Type 0} (host : Host H) where
  unfoldable pub log_control : ℕ → ℕ → World H → World H
  log_control leaf argument w =
      on_host (host.log_hex "reflex control argument=" argument)
        (on_host (host.log_hex "reflex control leaf=" leaf) w)

  unfoldable pub arm_identity : World H → Action × World H
  unfolding routing_of
  arm_identity w =
      let w₁ = on_state (λ s. record s { identity = IdentityState.process }) w in
      if is_resume_target (routing_of w₁.state)
      then (native, w₁)
      else (consumed, on_host (host.log "reflex CR3 identity armed") w₁)

  -- The compare-exchange on the identity, which is a strong one.
  unfoldable pub infer_identity : World H → World H
  unfolding store_identity
  infer_identity w =
      if store_identity w.state.identity == store_identity IdentityState.unobserved
      then on_host (host.log "reflex debug-register thread identity inferred")
          (on_state (λ s. record s { identity = IdentityState.debug_register_thread }) w)
      else w

  -- The arm `REGISTER_RESUME_HANDLER` up to its call of `register_resume_target`.
  unfoldable pub before_handler : World H → World H
  unfolding routing_of infer_identity
  before_handler w =
      let w₁ = on_host host.set_hwprofile_guid (infer_identity w) in
      if is_unregistered (routing_of w₁.state)
      then on_host (host.log "reflex routing=resume-target inferred") w₁
      else w₁

  unfoldable pub register_handler : ℕ → List Bool → ℕ → World H → Option (Action × World H)
  register_handler fuel weak argument w =
      elim (register_resume_target host fuel weak argument (before_handler w)) [
        | none ↦ none
        | some (registered, w') ↦ some ((if registered then consumed else native), w')
      ]

  unfoldable pub register_pid : ℕ → World H → Action × World H
  unfolding routing_of
  register_pid argument w =
      if is_unregistered (routing_of w.state)
      then (native, w)
      else (let w₁ = on_state (λ s. record s { target_pid = argument }) w in
          let w₂ = on_host (host.log_hex "reflex target pid=" argument) w₁ in
          let recipe = kuser_recipe host w₂ in
          let w₃ = on_host (host.log (recipe_message recipe)) w₂ in
          let (patched, h) = host.patch_kuser recipe w₃.host in
          let w₄ = record w₃ { host = h } in
          if patched
          then (consumed, on_host (host.log "reflex KUSER patch ready") w₄)
          else (native, on_host (host.log "reflex KUSER patch failed") w₄))

  unfoldable pub handle_cpuid : ℕ → List Bool → ℕ → ℕ → ℕ → World H → Option (Action × World H)
  handle_cpuid fuel weak leaf rcx rdx w =
      let argument = cpuid_argument leaf rcx rdx in
      let logged = log_control leaf argument w in
      if leaf == arm_target_cr3
      then some (arm_identity logged)
      else if leaf == client_session_marker
      then some (native, logged)
      else if leaf == register_resume_handler
      then register_handler fuel weak argument logged
      else if leaf == set_time
      then some (consumed, on_host (host.set_offset (high_half argument)) logged)
      else if leaf == register_target_pid
      then some (register_pid argument w)
      else if leaf == register_system_syscall_id
      then store_slot (λ d. record d { system_id = as_u32 argument })
          (activate_dual_dispatch host fuel weak logged)
      else if leaf == register_attributes_handler
      then store_slot (λ d. record d { attributes_target = argument })
          (activate_dual_dispatch host fuel weak logged)
      else if leaf == register_attributes_syscall_id
      then store_slot (λ d. record d { attributes_id = as_u32 argument })
          (activate_dual_dispatch host fuel weak logged)
      else some (native, w)
