-- ===== src/Reflex/HandleCpuid/Handshake.antt =====
-- The control sequences of docs/protocol/game-quirks.md, from a new `State` to the routes.
use linuwux_runtime.Base.{
  ℕ, ◌≡◌, refl, Option, none, some, Bool, true, false, not, ◌&&◌, ◌||◌, List, [], ◌∷◌, contains,
  arith, ◌==◌, ltb, if◌then◌else◌, as_u32,
}
use linuwux_runtime.Reflex.Control.{
  arm_target_cr3, client_session_marker, register_resume_handler, register_target_pid,
  register_system_syscall_id, register_attributes_handler, register_attributes_syscall_id,
  cpuid_argument, user_rcx_max, dispatch_bypass_syscall, single_dispatch_selectors,
}
use linuwux_runtime.Reflex.Enums.{IdentityState, SyscallConvention, RoutingState}
use linuwux_runtime.Reflex.State.{State, SyscallRoute, World, Host, new}
use linuwux_runtime.Reflex.Machine.{
  activate_dual_dispatch, claim_dual_dispatch, register_resume_target, claim_resume_target,
}
use linuwux_runtime.Reflex.HandleCpuid.{
  store_slot, log_control, arm_identity, before_handler, register_handler, register_pid,
  handle_cpuid,
}
use linuwux_runtime.Reflex.Route.{route_syscall}

-- A trapped control leaf: the leaf, RCX and RDX.
pub record Trap : Type 0 where
  pub leaf : ℕ
  pub rcx : ℕ
  pub rdx : ℕ

abbrev pub trap : ℕ → ℕ → ℕ → Trap
trap leaf rcx rdx = record { leaf = leaf; rcx = rcx; rdx = rdx }

-- A route, if there is a handler.
abbrev pub some_route : ℕ → Bool → Option SyscallRoute
some_route target rax_is_resume =
    if target == 0 then none else some (record { target = target; rax_is_resume = rax_is_resume })

abbrev pub start : {H : Type 0} → H → World H
start h = record { state = new; host = h }

-- `69696969 → 693369 → 336933 / 43 → 336934 / 44 → 1337`
abbrev pub dual_handshake : (target id target' id' pid : ℕ) → List Trap
dual_handshake target id target' id' pid =
    trap arm_target_cr3 0 0
    ∷ trap client_session_marker 0 0
    ∷ trap register_resume_handler target 0
    ∷ trap register_system_syscall_id id 0
    ∷ trap register_attributes_handler target' 0
    ∷ trap register_attributes_syscall_id id' 0
    ∷ trap register_target_pid 0 pid
    ∷ []

abbrev pub dual_state : (target id target' id' pid : ℕ) → State
dual_state target id target' id' pid = record {
  routing = RoutingState.dual_dispatch;
  identity = IdentityState.process;
  target_pid = pid;
  syscall_convention = SyscallConvention.dual_dispatch;
  resume_target = target;
  dispatch = record {
    system_target = target;
    system_id = as_u32 id;
    attributes_target = target';
    attributes_id = as_u32 id';
  };
}

dual_state_routes :
    (target id target' id' pid number r10 rcx : ℕ)
    → route_syscall (dual_state target id target' id' pid) number r10 rcx ≡ (
        if (number == dispatch_bypass_syscall) || ltb user_rcx_max rcx
        then none
        else if as_u32 number == as_u32 id
        then (if r10 == 0 then some_route target false else none)
        else if as_u32 number == as_u32 id'
        then some_route target' false
        else none)
unfolding route_syscall
dual_state_routes target id target' id' pid number r10 rcx = ground arith

-- `69696969 → 336933 → 1337`
abbrev pub resume_handshake : (target pid : ℕ) → List Trap
resume_handshake target pid =
    trap arm_target_cr3 0 0
    ∷ trap register_resume_handler target 0
    ∷ trap register_target_pid 0 pid
    ∷ []

abbrev pub resume_state : (target pid : ℕ) → SyscallConvention → State
resume_state target pid convention = record (new) {
  routing = RoutingState.resume_target;
  identity = IdentityState.process;
  target_pid = pid;
  syscall_convention = convention;
  resume_target = target;
}

abbrev pub single_convention : Bool → SyscallConvention
single_convention true = SyscallConvention.selector_dispatch
single_convention false = SyscallConvention.resume_replay

resume_state_routes :
    (legacy : Bool) (target pid number r10 rcx : ℕ)
    → route_syscall (resume_state target pid (single_convention legacy)) number r10 rcx ≡ (
        if legacy && (not (contains single_dispatch_selectors number) || ltb user_rcx_max rcx)
        then none
        else some_route target (not legacy))
unfolding route_syscall
resume_state_routes true target pid number r10 rcx = ground arith
resume_state_routes false target pid number r10 rcx = ground arith

module _ {H : Type 0} (host : Host H) where
  -- A client's traps in order, each on its first attempt.
  unfoldable pub session : List Trap → World H → Option (World H)
  session [] w = some w
  session (t ∷ ts) w = elim (handle_cpuid host 2 [] t.leaf t.rcx t.rdx w) [
    | none ↦ none
    | some (action, w') ↦ session ts w'
  ]

  dual_handshake_state :
      (target id target' id' pid : ℕ) (h : H)
      → (w : World H) × (session (dual_handshake target id target' id' pid) (start h) ≡ some w)
        × (w.state ≡ dual_state target id target' id' pid)
  unfolding session new handle_cpuid store_slot log_control arm_identity before_handler
      register_handler register_pid activate_dual_dispatch claim_dual_dispatch
      register_resume_target claim_resume_target cpuid_argument
  dual_handshake_state target id target' id' pid h = (_, refl, ground arith)

  resume_handshake_state :
      (legacy : Bool) (target pid : ℕ) (h : H)
      → host.legacy_presentation_active ≡ (λ _. legacy)
      → (w : World H) × (session (resume_handshake target pid) (start h) ≡ some w)
        × (w.state ≡ resume_state target pid (single_convention legacy))
  unfolding session new handle_cpuid store_slot log_control arm_identity before_handler
      register_handler register_pid activate_dual_dispatch claim_dual_dispatch
      register_resume_target claim_resume_target cpuid_argument
  resume_handshake_state true target pid h e = (_, refl, rw e (ground arith))
  resume_handshake_state false target pid h e = (_, refl, rw e (ground arith))

  -- The dual-dispatch handshake ends in a state that sends the two registered services to their
  -- handlers, from a user RCX and, for the system slot, with R10 zero, and nothing else; whatever
  -- the host answers on the way. A handler at the null address gives no route.
  pub dual_handshake_routes :
      (target id target' id' pid : ℕ) (h : H)
      → (w : World H) × (session (dual_handshake target id target' id' pid) (start h) ≡ some w)
        × ((number r10 rcx : ℕ)
            → route_syscall w.state number r10 rcx ≡ (
                if (number == dispatch_bypass_syscall) || ltb user_rcx_max rcx
                then none
                else if as_u32 number == as_u32 id
                then (if r10 == 0 then some_route target false else none)
                else if as_u32 number == as_u32 id'
                then some_route target' false
                else none))
  dual_handshake_routes target id target' id' pid h =
      let (w, ran, at) = dual_handshake_state target id target' id' pid h in
      (w, ran, λ number r10 rcx. rw at (dual_state_routes target id target' id' pid number r10 rcx))

  -- On a host whose presentation does not change, the resume handshake ends in a state that, under
  -- the modern presentation, sends every syscall to the handler with RAX as its resume address, and
  -- under the legacy one sends to it the two selectors from a user RCX and nothing else. A handler at
  -- the null address gives no route.
  pub resume_handshake_routes :
      (legacy : Bool) (target pid : ℕ) (h : H)
      → host.legacy_presentation_active ≡ (λ _. legacy)
      → (w : World H) × (session (resume_handshake target pid) (start h) ≡ some w)
        × ((number r10 rcx : ℕ)
            → route_syscall w.state number r10 rcx ≡ (
                if legacy
                  && (not (contains single_dispatch_selectors number) || ltb user_rcx_max rcx)
                then none
                else some_route target (not legacy)))
  resume_handshake_routes legacy target pid h e =
      let (w, ran, at) = resume_handshake_state legacy target pid h e in
      (w, ran, λ number r10 rcx. rw at (resume_state_routes legacy target pid number r10 rcx))
