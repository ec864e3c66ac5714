-- ===== src/Reflex/Machine/Loops.antt =====
-- The loops of `activate_dual_dispatch` and `register_resume_target`: they end, and what they do
-- depends neither on the fuel nor on the spurious failures of the compare-exchange.
use linuwux_runtime.Base.{
  ℕ, zero, suc, ◌+◌, ◌≤◌, ◌≡◌, inl, inr, some, Bool, true, false, Bool-cases, List, [], ◌∷◌, arith,
  length, if◌then◌else◌,
}
use linuwux_runtime.Reflex.Enums.{RoutingState}
use linuwux_runtime.Reflex.State.{State, World, Host}
use linuwux_runtime.Reflex.Machine.{
  is_transition, on_state, wait_rounds, wait_for_transition, claim_dual_dispatch,
  publish_dual_dispatch, activate_dual_dispatch, replace_resume_target, claim_resume_target,
  publish_resume_target, register_resume_target,
}

abbrev pub IsSettled : State → Type 0
IsSettled s = is_transition s.routing ≡ false

-- What a registration of dual dispatch does at a settled state.
unfoldable pub settle_dual_dispatch : {H : Type 0} → Host H → World H → World H
settle_dual_dispatch host w = elim (w.state.routing) [
  | RoutingState.dual_dispatch ↦ w
  | _ ↦ publish_dual_dispatch host w
]

-- What a registration of a resume target does at a settled state.
unfoldable pub settle_resume_target : {H : Type 0} → Host H → ℕ → World H → Bool × World H
settle_resume_target host target w = elim (w.state.routing) [
  | RoutingState.dual_dispatch ↦ (
    true,
    on_state (λ s. record s { dispatch = record (s.dispatch) { system_target = target } }) w,
  )
  | RoutingState.resume_target ↦ replace_resume_target host target w
  | _ ↦ (true, publish_resume_target host target w)
]

-- The outcome of a wait: at its end go on with `f`, and give up at the limit.
abbrev pub after_wait : {H : Type 0} → (World H → Bool × World H) → Bool × World H → Bool × World H
after_wait f (ended, w) = if ended then f w else (false, w)

module _ {H : Type 0} (host : Host H) where
  wait_rounds-IsSettled :
      (n : ℕ) (w : World H)
      → (wait_rounds host n w).0 ≡ true
      → IsSettled (wait_rounds host n w).1.state
  unfolding wait_rounds
  wait_rounds-IsSettled zero w h = cc
  wait_rounds-IsSettled (suc n) w h = ground (arith, wait_rounds-IsSettled n (host.yield_thread w))

  settled_dual :
      (fuel : ℕ) (weak : List Bool) (w : World H)
      → IsSettled w.state
      → length weak + 1 ≤ fuel
      → activate_dual_dispatch host fuel weak w ≡ some (true, settle_dual_dispatch host w)
  unfolding activate_dual_dispatch claim_dual_dispatch settle_dual_dispatch is_transition
  settled_dual zero weak w h le = absurd (omega arith)
  settled_dual (suc fuel) [] w h le = ground arith
  settled_dual (suc fuel) (true ∷ weak) w h le = ground (arith, settled_dual fuel weak w)
  settled_dual (suc fuel) (false ∷ weak) w h le = ground arith

  settled_resume :
      (fuel : ℕ) (weak : List Bool) (target : ℕ) (w : World H)
      → IsSettled w.state
      → length weak + 1 ≤ fuel
      → register_resume_target host fuel weak target w ≡ some (settle_resume_target host target w)
  unfolding register_resume_target claim_resume_target settle_resume_target is_transition
  settled_resume zero weak target w h le = absurd (omega arith)
  settled_resume (suc fuel) [] target w h le = ground arith
  settled_resume (suc fuel) (true ∷ weak) target w h le =
      ground (arith, settled_resume fuel weak target w)
  settled_resume (suc fuel) (false ∷ weak) target w h le = ground arith

  wait_rounds_settled :
      (n : ℕ) (w : World H) → IsSettled w.state → wait_rounds host (suc n) w ≡ (true, w)
  unfolding wait_rounds
  wait_rounds_settled n w h = ground arith

  wait_settled : (w : World H) → IsSettled w.state → wait_for_transition host w ≡ (true, w)
  unfolding wait_for_transition
  wait_settled w h = wait_rounds_settled 4095 w h

  pub wait_for_transition-IsSettled :
      (w : World H)
      → (wait_for_transition host w).0 ≡ true
      → IsSettled (wait_for_transition host w).1.state
  unfolding wait_for_transition
  wait_for_transition-IsSettled w h = wait_rounds-IsSettled 4096 w h

  moving_dual :
      (fuel : ℕ) (weak : List Bool) (w : World H)
      → is_transition w.state.routing ≡ true
      → length weak + 1 ≤ fuel
      → activate_dual_dispatch host (suc fuel) weak w
        ≡ some
            (after_wait (λ w'. (true, settle_dual_dispatch host w')) (wait_for_transition host w))
  unfolding activate_dual_dispatch claim_dual_dispatch is_transition
  moving_dual fuel weak w h le = ground (
    arith,
    wait_for_transition-IsSettled w,
    settled_dual fuel weak (wait_for_transition host w).1,
  )

  moving_resume :
      (fuel : ℕ) (weak : List Bool) (target : ℕ) (w : World H)
      → is_transition w.state.routing ≡ true
      → length weak + 1 ≤ fuel
      → register_resume_target host (suc fuel) weak target w
        ≡ some (after_wait (settle_resume_target host target) (wait_for_transition host w))
  unfolding register_resume_target claim_resume_target is_transition
  moving_resume fuel weak target w h le = ground (
    arith,
    wait_for_transition-IsSettled w,
    settled_resume fuel weak target (wait_for_transition host w).1,
  )

  -- Two rounds more than there are spurious failures are enough.
  pub activate_dual_dispatch_lem :
      (fuel : ℕ) (weak : List Bool) (w : World H)
      → length weak + 2 ≤ fuel
      → activate_dual_dispatch host fuel weak w
        ≡ some
            (after_wait (λ w'. (true, settle_dual_dispatch host w')) (wait_for_transition host w))
  activate_dual_dispatch_lem zero weak w le = absurd (omega arith)
  activate_dual_dispatch_lem (suc fuel) weak w le =
      elim (Bool-cases (is_transition w.state.routing)) [
        | inl moving ↦ moving_dual fuel weak w moving (omega arith)
        | inr settled ↦
            rw (wait_settled w settled) (settled_dual (suc fuel) weak w settled (omega arith))
      ]

  pub register_resume_target_lem :
      (fuel : ℕ) (weak : List Bool) (target : ℕ) (w : World H)
      → length weak + 2 ≤ fuel
      → register_resume_target host fuel weak target w
        ≡ some (after_wait (settle_resume_target host target) (wait_for_transition host w))
  register_resume_target_lem zero weak target w le = absurd (omega arith)
  register_resume_target_lem (suc fuel) weak target w le =
      elim (Bool-cases (is_transition w.state.routing)) [
        | inl moving ↦ moving_resume fuel weak target w moving (omega arith)
        | inr settled ↦
            rw (wait_settled w settled)
              (settled_resume (suc fuel) weak target w settled (omega arith))
      ]
