-- ===== src/Reflex/HandleCpuid/Outcome.antt =====
-- `handle_cpuid` without its loops: what each control leaf does, the wait for another thread's
-- registration included.
use linuwux_runtime.Base.{
  ℕ, ◌+◌, ◌≤◌, ◌≡◌, some, Bool, true, List, arith, length, ◌==◌, if◌then◌else◌, as_u32,
}
use linuwux_runtime.Reflex.Control.{
  arm_target_cr3, client_session_marker, register_resume_handler, set_time, register_target_pid,
  register_system_syscall_id, register_attributes_handler, register_attributes_syscall_id,
  cpuid_argument,
}
use linuwux_runtime.Reflex.Enums.{Action, native, consumed}
use linuwux_runtime.Reflex.State.{DispatchRegistrations, World, Host}
use linuwux_runtime.Reflex.Machine.{on_host, on_state, wait_for_transition, activate_dual_dispatch}
use linuwux_runtime.Reflex.Machine.Loops.{
  settle_dual_dispatch, settle_resume_target, after_wait, activate_dual_dispatch_lem,
  register_resume_target_lem,
}
use linuwux_runtime.Reflex.HandleCpuid.{
  high_half, store_slot, log_control, arm_identity, before_handler, register_handler, register_pid,
  handle_cpuid,
}

module _ {H : Type 0} (host : Host H) where
  unfoldable pub handler_outcome : ℕ → World H → Action × World H
  handler_outcome argument w =
      let (registered, w') =
        after_wait (settle_resume_target host argument)
          (wait_for_transition host (before_handler host w)) in
      ((if registered then consumed else native), w')

  unfoldable pub slot_outcome :
      (DispatchRegistrations → DispatchRegistrations) → World H → Action × World H
  slot_outcome f w =
      let (active, w') =
        after_wait (λ w₁. (true, settle_dual_dispatch host w₁)) (wait_for_transition host w) in
      if active
      then (consumed, on_state (λ s. record s { dispatch = f s.dispatch }) w')
      else (native, w')

  unfoldable pub outcome : ℕ → ℕ → ℕ → World H → Action × World H
  outcome leaf rcx rdx w =
      let argument = cpuid_argument leaf rcx rdx in
      let logged = log_control host leaf argument w in
      if leaf == arm_target_cr3
      then arm_identity host logged
      else if leaf == client_session_marker
      then (native, logged)
      else if leaf == register_resume_handler
      then handler_outcome argument logged
      else if leaf == set_time
      then (consumed, on_host (host.set_offset (high_half argument)) logged)
      else if leaf == register_target_pid
      then register_pid host argument w
      else if leaf == register_system_syscall_id
      then slot_outcome (λ d. record d { system_id = as_u32 argument }) logged
      else if leaf == register_attributes_handler
      then slot_outcome (λ d. record d { attributes_target = argument }) logged
      else if leaf == register_attributes_syscall_id
      then slot_outcome (λ d. record d { attributes_id = as_u32 argument }) logged
      else (native, w)

  module _ (fuel : ℕ) (weak : List Bool) (enough : length weak + 2 ≤ fuel) where
    register_handler-outcome :
        (argument : ℕ) (w : World H)
        → register_handler host fuel weak argument w ≡ some (handler_outcome argument w)
    unfolding register_handler handler_outcome
    register_handler-outcome argument w =
        ground (arith, register_resume_target_lem host fuel weak argument (before_handler host w))

    store_slot-outcome :
        (f : DispatchRegistrations → DispatchRegistrations) (w : World H)
        → store_slot f (activate_dual_dispatch host fuel weak w) ≡ some (slot_outcome f w)
    unfolding store_slot slot_outcome
    store_slot-outcome f w = ground (arith, activate_dual_dispatch_lem host fuel weak w)

    -- With two rounds of fuel more than there are spurious failures, every control leaf returns,
    -- and the failures make no difference.
    pub handle_cpuid-outcome :
        (leaf rcx rdx : ℕ) (w : World H)
        → handle_cpuid host fuel weak leaf rcx rdx w ≡ some (outcome leaf rcx rdx w)
    unfolding handle_cpuid outcome
    handle_cpuid-outcome leaf rcx rdx w =
        simp (register_handler-outcome, store_slot-outcome) (ground arith)
