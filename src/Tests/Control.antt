-- ===== src/Tests/Control.antt =====
-- The Reflex control leaves and the syscall routes at concrete inputs, with a host that counts patches.
use linuwux_runtime.Base.{
  ℕ, suc, ◌≡◌, ◌↔◌, refl, true, false, none, some, [], ◌∷◌, arith, not, contains, ltb, ◌==◌, ◌&&◌,
  ◌||◌, if◌then◌else◌, as_u32,
}
use linuwux_runtime.Kuser.Recipe.{Recipe}
use linuwux_runtime.Reflex.Control.{
  register_resume_handler, user_rcx_max, dispatch_bypass_syscall, single_dispatch_selectors,
}
use linuwux_runtime.Reflex.Enums.{Action, RoutingState, SyscallConvention}
use linuwux_runtime.Reflex.State.{State, SyscallRoute, World, Host, new}
use linuwux_runtime.Reflex.Route.{route_syscall}
use linuwux_runtime.Reflex.Route.Decision.{Routes, route_syscall_iff}
use linuwux_runtime.Reflex.HandleCpuid.{handle_cpuid}
use linuwux_runtime.Reflex.HandleCpuid.Outcome.{outcome, handle_cpuid-outcome}
use linuwux_runtime.Reflex.HandleCpuid.Invariant.{Keeps, handle_cpuid-Keeps}
use linuwux_runtime.Reflex.HandleCpuid.Handshake.{
  start, some_route, session, dual_handshake, dual_handshake_routes, resume_handshake,
  resume_handshake_routes,
}

abbrev counting : Host ℕ
counting = record {
  set_offset = λ t n. n;
  select_legacy_presentation = λ n. n;
  legacy_presentation_active = λ n. true;
  selector_kuser_recipe = λ n. Recipe.selector;
  patch_kuser = λ r n. (true, suc n);
  set_hwprofile_guid = λ n. n;
  yield_thread = λ w. w;
  log = λ message n. n;
  log_hex = λ prefix value n. n;
}

abbrev replaying : State
replaying = record {
  routing = RoutingState.resume_target;
  identity = linuwux_runtime.Reflex.Enums.IdentityState.process;
  target_pid = 5;
  syscall_convention = SyscallConvention.resume_replay;
  resume_target = 0x1000;
  dispatch = linuwux_runtime.Reflex.State.new_dispatch;
}

abbrev replay : SyscallRoute
replay = record { target = 0x1000; rax_is_resume = true }

route_syscall_iff_example :
    (route_syscall replaying 18 0 0x400000 ≡ some replay) ↔ Routes replaying 18 0 0x400000 replay
route_syscall_iff_example = route_syscall_iff replaying 18 0 0x400000 replay

handle_cpuid-outcome_example :
    handle_cpuid counting 3 (true ∷ []) register_resume_handler 0x1000 0 (start 0)
    ≡ some (outcome counting register_resume_handler 0x1000 0 (start 0))
handle_cpuid-outcome_example =
    handle_cpuid-outcome counting 3 (true ∷ []) (omega arith) register_resume_handler 0x1000 0
      (start 0)

yield-Keeps : (w : World ℕ) → Keeps 0 w.state → Keeps 0 (counting.yield_thread w).state
yield-Keeps w k = k

new-Keeps : Keeps 0 new
unfolding new
new-Keeps = record { consistent = refl; reached = omega arith }

handle_cpuid-Keeps_example :
    (o : Action × World ℕ) × (handle_cpuid counting 3
        (true ∷ [])
        register_resume_handler
        0x1000
        0
        (start 0)
      ≡ some o)
    × Keeps 0 o.1.state
handle_cpuid-Keeps_example =
    handle_cpuid-Keeps counting 0 yield-Keeps 3 (true ∷ []) register_resume_handler 0x1000 0
      (start 0) (omega arith) new-Keeps

dual_handshake_routes_example :
    (w : World ℕ) × (session counting (dual_handshake 0x1000 0x36 0x2000 0x3d 5) (start 0) ≡ some w)
    × ((number r10 rcx : ℕ)
        → route_syscall w.state number r10 rcx ≡ (
            if (number == dispatch_bypass_syscall) || ltb user_rcx_max rcx
            then none
            else if as_u32 number == as_u32 0x36
            then (if r10 == 0 then some_route 0x1000 false else none)
            else if as_u32 number == as_u32 0x3d
            then some_route 0x2000 false
            else none))
dual_handshake_routes_example = dual_handshake_routes counting 0x1000 0x36 0x2000 0x3d 5 0

resume_handshake_routes_example :
    (w : World ℕ) × (session counting (resume_handshake 0x1000 5) (start 0) ≡ some w)
    × ((number r10 rcx : ℕ)
        → route_syscall w.state number r10 rcx ≡ (
            if true && (not (contains single_dispatch_selectors number) || ltb user_rcx_max rcx)
            then none
            else some_route 0x1000 (not true)))
resume_handshake_routes_example = resume_handshake_routes counting true 0x1000 5 0 refl
