-- ===== src/Reflex/Machine.antt =====
-- The operations of `State` in protocol/reflex/state.rs that claim and register a routing.
-- `compare_exchange_weak` may fail though the value is the expected one. The list `weak` has that
-- choice for each attempt (`true`: it fails), and where it ends every attempt succeeds. The loops
-- take fuel for their rounds, and answer `none` where it runs out.
pub mod Loops
use linuwux_runtime.Base.{
  ℕ, zero, suc, Option, none, some, Bool, true, false, List, [], ◌∷◌, ◌==◌, if◌then◌else◌,
}
use linuwux_runtime.Kuser.Recipe.{Recipe}
use linuwux_runtime.Reflex.Control.{transition_wait_limit}
use linuwux_runtime.Reflex.Enums.{SyscallConvention, RoutingState, store_routing}
use linuwux_runtime.Reflex.State.{State, World, Host}

-- `matches!` on the three states of a transition
unfoldable pub is_transition : RoutingState → Bool
is_transition RoutingState.registering_resume_target = true
is_transition RoutingState.registering_dual_dispatch = true
is_transition RoutingState.promoting_dual_dispatch = true
is_transition RoutingState.unregistered = false
is_transition RoutingState.resume_target = false
is_transition RoutingState.dual_dispatch = false

-- How the loop of a registration ends: by its `break`, or by one of its `return`s.
pub data Claim : Type 0 where
  claimed : Claim
  finished : Bool → Claim

-- One attempt: whether it succeeded, the choices left, and the state.
pub record Attempt : Type 0 where
  pub succeeded : Bool
  pub weak : List Bool
  pub state : State

unfoldable pub compare_exchange_weak : RoutingState → RoutingState → List Bool → State → Attempt
unfolding store_routing
compare_exchange_weak current next (true ∷ weak) s = record {
  succeeded = false;
  weak = weak;
  state = s;
}
compare_exchange_weak current next (false ∷ weak) s =
    if store_routing s.routing == store_routing current
    then record { succeeded = true; weak = weak; state = record s { routing = next } }
    else record { succeeded = false; weak = weak; state = s }
compare_exchange_weak current next [] s =
    if store_routing s.routing == store_routing current
    then record { succeeded = true; weak = []; state = record s { routing = next } }
    else record { succeeded = false; weak = []; state = s }

-- A change of the host alone, and of the shared state alone.
abbrev pub on_host : {H : Type 0} → (H → H) → World H → World H
on_host f w = record w { host = f w.host }

abbrev pub on_state : {H : Type 0} → (State → State) → World H → World H
on_state f w = record w { state = f w.state }

module _ {H : Type 0} (host : Host H) where
  unfoldable pub kuser_recipe : World H → Recipe
  kuser_recipe w = elim (w.state.syscall_convention) [
    | SyscallConvention.resume_replay ↦ Recipe.resume
    | SyscallConvention.selector_dispatch ↦ host.selector_kuser_recipe w.host
    | SyscallConvention.dual_dispatch ↦ Recipe.dispatch
  ]

  -- The `for` loop over the rounds that are left.
  unfoldable pub wait_rounds : ℕ → World H → Bool × World H
  unfolding is_transition
  wait_rounds zero w = (false, w)
  wait_rounds (suc n) w = elim (is_transition w.state.routing) [
    | false ↦ (true, w)
    | true ↦ wait_rounds n (host.yield_thread w)
  ]

  unfoldable pub wait_for_transition : World H → Bool × World H
  wait_for_transition w = wait_rounds transition_wait_limit w

  -- The `loop` of `activate_dual_dispatch`.
  unfoldable pub claim_dual_dispatch : ℕ → List Bool → World H → Option (Claim × World H)
  unfolding compare_exchange_weak
  claim_dual_dispatch zero weak w = none
  claim_dual_dispatch (suc fuel) weak w = elim (w.state.routing) [
    | RoutingState.dual_dispatch ↦ some (finished true, w)
    | RoutingState.unregistered ↦
        let a =
          compare_exchange_weak RoutingState.unregistered RoutingState.registering_dual_dispatch
            weak w.state in
        elim (a.succeeded) [
          | true ↦ some (claimed, record w { state = a.state })
          | false ↦ claim_dual_dispatch fuel a.weak (record w { state = a.state })
        ]
    | RoutingState.resume_target ↦
        let a =
          compare_exchange_weak RoutingState.resume_target RoutingState.promoting_dual_dispatch weak
            w.state in
        elim (a.succeeded) [
          | true ↦ some (claimed, record w { state = a.state })
          | false ↦ claim_dual_dispatch fuel a.weak (record w { state = a.state })
        ]
    | _ ↦
        let (ended, w') = wait_for_transition w in
        elim ended [ false ↦ some (finished false, w') | true ↦ claim_dual_dispatch fuel weak w' ]
  ]

  -- What `activate_dual_dispatch` does after its loop.
  unfoldable pub publish_dual_dispatch : World H → World H
  publish_dual_dispatch w =
      let target = w.state.resume_target in
      let dispatch =
        if w.state.dispatch.system_target == 0
        then record (w.state.dispatch) { system_target = target }
        else w.state.dispatch in
      let w₁ = record w {
        state = record (w.state) {
          dispatch = dispatch;
          syscall_convention = SyscallConvention.dual_dispatch;
          routing = RoutingState.dual_dispatch;
        };
      } in
      let w₂ = on_host host.select_legacy_presentation w₁ in
      let w₃ = on_host (host.log "reflex CPU presentation=legacy dual-dispatch") w₂ in
      on_host (host.log "reflex routing=dual-dispatch active") w₃

  unfoldable pub activate_dual_dispatch : ℕ → List Bool → World H → Option (Bool × World H)
  unfolding publish_dual_dispatch
  activate_dual_dispatch fuel weak w = elim (claim_dual_dispatch fuel weak w) [
    | none ↦ none
    | some (end, w') ↦ elim end [
      | finished result ↦ some (result, w')
      | claimed ↦ some (true, publish_dual_dispatch w')
    ]
  ]

  -- The arm `ResumeTarget` of the loop of `register_resume_target`: patch, then store the target.
  unfoldable pub replace_resume_target : ℕ → World H → Bool × World H
  unfolding kuser_recipe
  replace_resume_target target w =
      let (patched, h) = host.patch_kuser (kuser_recipe w) w.host in
      let w₁ = record w { host = h } in
      elim patched [
        | false ↦ (false, on_host (host.log "reflex KUSER patch failed") w₁)
        | true ↦
            let w₂ = on_state (λ s. record s { resume_target = target }) w₁ in
            let w₃ = on_host (host.log "reflex routing=resume-target registered") w₂ in
            (true, on_host (host.log_hex "reflex resume handler=" target) w₃)
      ]

  -- The `loop` of `register_resume_target`.
  unfoldable pub claim_resume_target : ℕ → List Bool → ℕ → World H → Option (Claim × World H)
  unfolding compare_exchange_weak replace_resume_target
  claim_resume_target zero weak target w = none
  claim_resume_target (suc fuel) weak target w = elim (w.state.routing) [
    | RoutingState.dual_dispatch ↦ some (
      finished true,
      on_state (λ s. record s { dispatch = record (s.dispatch) { system_target = target } }) w,
    )
    | RoutingState.resume_target ↦
        let (done, w') = replace_resume_target target w in some (finished done, w')
    | RoutingState.unregistered ↦
        let a =
          compare_exchange_weak RoutingState.unregistered RoutingState.registering_resume_target
            weak w.state in
        elim (a.succeeded) [
          | true ↦ some (claimed, record w { state = a.state })
          | false ↦ claim_resume_target fuel a.weak target (record w { state = a.state })
        ]
    | _ ↦
        let (ended, w') = wait_for_transition w in
        elim ended [
          | false ↦ some (finished false, w')
          | true ↦ claim_resume_target fuel weak target w'
        ]
  ]

  -- What `register_resume_target` does after its loop.
  unfoldable pub publish_resume_target : ℕ → World H → World H
  publish_resume_target target w =
      let w₁ = on_state (λ s. record s { resume_target = target }) w in
      let w₂ =
        if host.legacy_presentation_active w₁.host
        then on_state (λ s. record s { syscall_convention = SyscallConvention.selector_dispatch })
            w₁
        else w₁ in
      let w₃ = on_state (λ s. record s { routing = RoutingState.resume_target }) w₂ in
      let w₄ = on_host (host.log "reflex routing=resume-target registered") w₃ in
      on_host (host.log_hex "reflex resume handler=" target) w₄

  unfoldable pub register_resume_target : ℕ → List Bool → ℕ → World H → Option (Bool × World H)
  unfolding publish_resume_target
  register_resume_target fuel weak target w = elim (claim_resume_target fuel weak target w) [
    | none ↦ none
    | some (end, w') ↦ elim end [
      | finished result ↦ some (result, w')
      | claimed ↦ some (true, publish_resume_target target w')
    ]
  ]
