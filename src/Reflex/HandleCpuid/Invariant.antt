-- ===== src/Reflex/HandleCpuid/Invariant.antt =====
-- What every control leaf keeps, if the threads that this one waits for keep it.
use linuwux_runtime.Base.{
  ℕ, zero, suc, ◌+◌, ◌≤◌, ◌≡◌, ◌≢◌, some, Bool, true, false, List, arith, length, ◌==◌,
  if◌then◌else◌,
}
use linuwux_runtime.Reflex.Control.{
  arm_target_cr3, client_session_marker, register_resume_handler, set_time, register_target_pid,
  register_system_syscall_id, register_attributes_handler, register_attributes_syscall_id,
}
use linuwux_runtime.Reflex.Enums.{Action, SyscallConvention, RoutingState}
use linuwux_runtime.Reflex.Rank.{rank}
use linuwux_runtime.Reflex.State.{State, DispatchRegistrations, World, Host}
use linuwux_runtime.Reflex.Machine.{
  is_transition, wait_rounds, wait_for_transition, publish_dual_dispatch, publish_resume_target,
  replace_resume_target,
}
use linuwux_runtime.Reflex.Machine.Loops.{
  IsSettled, settle_dual_dispatch, settle_resume_target, wait_for_transition-IsSettled,
}
use linuwux_runtime.Reflex.HandleCpuid.{
  log_control, arm_identity, infer_identity, before_handler, register_pid, handle_cpuid,
}
use linuwux_runtime.Reflex.HandleCpuid.Outcome.{
  handler_outcome, slot_outcome, outcome, handle_cpuid-outcome,
}

-- The convention that a routing works with. A registration under way may have stored its own.
abbrev pub Fits : RoutingState → SyscallConvention → Type 0
Fits RoutingState.unregistered c = c ≡ SyscallConvention.resume_replay
Fits RoutingState.resume_target c = c ≢ SyscallConvention.dual_dispatch
Fits RoutingState.dual_dispatch c = c ≡ SyscallConvention.dual_dispatch
Fits RoutingState.registering_resume_target c = c ≢ SyscallConvention.dual_dispatch
Fits RoutingState.registering_dual_dispatch c = Unit
Fits RoutingState.promoting_dual_dispatch c = Unit

abbrev pub IsConsistent : State → Type 0
IsConsistent s = Fits s.routing s.syscall_convention

-- What the control leaves keep: consistency, and a rank of at least `r`.
pub record Keeps (r : ℕ) (s : State) : Type 0 where
  pub consistent : IsConsistent s
  pub reached : r ≤ rank s.routing

module _ {H : Type 0} (host : Host H) (r : ℕ)
    (others : (w : World H) → Keeps r w.state → Keeps r (host.yield_thread w).state) where
  wait_rounds-Keeps :
      (n : ℕ) (w : World H) → Keeps r w.state → Keeps r (wait_rounds host n w).1.state
  unfolding wait_rounds
  wait_rounds-Keeps zero w k = k
  wait_rounds-Keeps (suc n) w k =
      ground (arith, others w, wait_rounds-Keeps n (host.yield_thread w))

  wait-Keeps : (w : World H) → Keeps r w.state → Keeps r (wait_for_transition host w).1.state
  unfolding wait_for_transition
  wait-Keeps w k = wait_rounds-Keeps 4096 w k

  dual-Keeps : (w : World H) → Keeps r w.state → Keeps r (settle_dual_dispatch host w).state
  unfolding settle_dual_dispatch publish_dual_dispatch
  dual-Keeps w k = ground arith

  resume-Keeps :
      (target : ℕ) (w : World H)
      → IsSettled w.state
      → Keeps r w.state
      → Keeps r (settle_resume_target host target w).1.state
  unfolding settle_resume_target publish_resume_target replace_resume_target is_transition
  resume-Keeps target w settled k = ground arith

  slot_outcome-Keeps :
      (f : DispatchRegistrations → DispatchRegistrations) (w : World H)
      → Keeps r w.state
      → Keeps r (slot_outcome host f w).1.state
  unfolding slot_outcome
  slot_outcome-Keeps f w k = ground (arith, wait-Keeps w, dual-Keeps (wait_for_transition host w).1)

  handler_outcome-Keeps :
      (argument : ℕ) (w : World H)
      → Keeps r w.state
      → Keeps r (handler_outcome host argument w).1.state
  unfolding handler_outcome before_handler infer_identity
  handler_outcome-Keeps argument w k =
      let w₁ = before_handler host w in
      ground (
        arith,
        wait-Keeps w₁,
        wait_for_transition-IsSettled host w₁,
        resume-Keeps argument (wait_for_transition host w₁).1,
      )

  register_pid-Keeps :
      (argument : ℕ) (w : World H)
      → Keeps r w.state
      → Keeps r (register_pid host argument w).1.state
  unfolding register_pid
  register_pid-Keeps argument w k = ground arith

  -- `Keeps` of an outcome, as a record, so that the rule for a test finds its branches.
  record Kept (o : Action × World H) : Type 0 where
    keeps : Keeps r o.1.state

  if_Kept : (b : Bool) {x y : Action × World H} → Kept x → Kept y → Kept (if b then x else y)
  if_Kept true h k = h
  if_Kept false h k = k

  arm_identity-Keeps : (w : World H) → Keeps r w.state → Keeps r (arm_identity host w).1.state
  unfolding arm_identity
  arm_identity-Keeps w k = ground arith

  outcome-Kept :
      (leaf rcx rdx : ℕ) (w : World H) → Keeps r w.state → Kept (outcome host leaf rcx rdx w)
  unfolding outcome log_control
  outcome-Kept leaf rcx rdx w k =
      if_Kept (leaf == arm_target_cr3) (record { keeps = arm_identity-Keeps _ k })
        (if_Kept (leaf == client_session_marker) (record { keeps = k })
          (if_Kept (leaf == register_resume_handler)
            (record { keeps = handler_outcome-Keeps _ _ k })
            (if_Kept (leaf == set_time) (record { keeps = k })
              (if_Kept (leaf == register_target_pid) (record { keeps = register_pid-Keeps _ w k })
                (if_Kept (leaf == register_system_syscall_id)
                  (record { keeps = slot_outcome-Keeps _ _ k })
                  (if_Kept (leaf == register_attributes_handler)
                    (record { keeps = slot_outcome-Keeps _ _ k })
                    (if_Kept (leaf == register_attributes_syscall_id)
                      (record { keeps = slot_outcome-Keeps _ _ k }) (record { keeps = k }))))))))

  -- With fuel for two rounds more than the compare-exchange fails spuriously, every CPUID leaf
  -- returns; it keeps the convention in step with the routing and never lowers the rank of the
  -- routing, if what other threads do during a yield keeps both.
  pub handle_cpuid-Keeps :
      (fuel : ℕ) (weak : List Bool) (leaf rcx rdx : ℕ) (w : World H)
      → length weak + 2 ≤ fuel
      → Keeps r w.state
      → (o : Action × World H) × (handle_cpuid host fuel weak leaf rcx rdx w ≡ some o)
        × Keeps r o.1.state
  handle_cpuid-Keeps fuel weak leaf rcx rdx w enough k = (
    outcome host leaf rcx rdx w,
    handle_cpuid-outcome host fuel weak enough leaf rcx rdx w,
    (outcome-Kept leaf rcx rdx w k).keeps,
  )
