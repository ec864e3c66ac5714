-- ===== src/Syscall/Router/RoundTrip.antt =====
-- A syscall that the dispatcher has marked goes to Reflex, and comes back to Wine as it was.
use linuwux_runtime.Base.{
  ℕ, ◌<◌, ◌≡◌, refl, ap, sym, ◌∙◌, subst, Option, some, Bool, true, false, not, ◌&&◌, ◌||◌, ◌==◌,
  arith,
}
use linuwux_runtime.Reflex.State.{SyscallRoute}
use linuwux_runtime.Syscall.Markers.{
  marker_capacity, Markers, SavedContext, Phase, route, replay, is_marker, remember_marker,
  consume_marker,
}
use linuwux_runtime.Syscall.Markers.Count.{WellFormed}
use linuwux_runtime.Syscall.Markers.Lifecycle.{
  SameMarkers, after_one, after_two, remember_marker-consume_marker,
}
use linuwux_runtime.Syscall.Router.{
  sys_seccomp, sys_user_dispatch, Signal, Process, Machine, is_bypass, reflex_route_syscall,
  saved_of, restore, enter_reflex, redirect, dispatch, route_call,
}

-- A signal that the router looks into.
abbrev pub is_syscall_trap : Signal → Bool
is_syscall_trap e = not e.null_frame && ((e.code == sys_seccomp) || (e.code == sys_user_dispatch))

pub redirect-consumed :
    (p : Process) (e : Signal) (s : Machine) (phase : Option Phase) (u : Markers)
    → is_syscall_trap e ≡ true
    → consume_marker s.markers e.tid s.context.rsp s.context.rip (saved_of s.context) ≡ (phase, u)
    → redirect p e s ≡ dispatch p e phase (record s { markers = u })
unfolding redirect
redirect-consumed p e s phase u trap consumed =
    let looked_into : e.null_frame || not ((e.code == sys_seccomp) || (e.code == sys_user_dispatch))
        ≡ false =
      ground (arith, trap) in
    rw (redirect, looked_into, consumed) refl

dispatch-routes :
    (p : Process) (e : Signal) (s : Machine) (selected : SyscallRoute)
    → is_bypass s.context ≡ false
    → reflex_route_syscall p.reflex s.context ≡ some selected
    → dispatch p e (some route) s
      ≡ (true, record s { context = enter_reflex s.memory selected s.context })
unfolding dispatch route_call
dispatch-routes p e s selected plain found = rw (plain, route_call, found) refl

dispatch-replays :
    (p : Process) (e : Signal) (s : Machine) (saved : SavedContext)
    → dispatch p e (some (replay saved)) s ≡ (false, record s { context = restore saved s.context })
unfolding dispatch
dispatch-replays p e s saved = refl

-- The two traps of one marked syscall, in processes and machines that may differ in all else.
pub record Handed (t : Markers) (p q : Process) (first second : Signal) (s r : Machine)
    (selected : SyscallRoute) : Type 0 where
  pub taken : (redirect p first s).0 ≡ true
  pub entered : (redirect p first s).1.context ≡ enter_reflex s.memory selected s.context
  pub forwarded : (redirect q second r).0 ≡ false
  pub restored : (redirect q second r).1.context ≡ restore (saved_of s.context) r.context
  pub retired : SameMarkers t (redirect q second r).1.markers

-- Let a marker be remembered in a well-formed table without one of its key, and let a trap of that
-- thread, stack and address that is no bypass find a Reflex route. Then the router takes that trap and
-- enters the route's target, and the next trap of the same key, with the markers that the first
-- left and anything else in its registers, it forwards to Wine with XMM4, XMM5, R11 and EFLAGS as they
-- were in the first trap and every other register as it is, and the table is the one before the
-- marker was remembered.
pub redirect-redirect :
    (t : Markers) (p q : Process) (first second : Signal) (s r : Machine) (selected : SyscallRoute)
    → is_syscall_trap first ≡ true
    → is_syscall_trap second ≡ true
    → WellFormed t
    → ((i : ℕ)
        → i < marker_capacity
        → is_marker first.tid s.context.rsp s.context.rip (t.slots i) ≡ false)
    → (remember_marker t first.tid s.context.rsp s.context.rip).0 ≡ true
    → s.markers ≡ (remember_marker t first.tid s.context.rsp s.context.rip).1
    → is_bypass s.context ≡ false
    → reflex_route_syscall p.reflex s.context ≡ some selected
    → r.markers ≡ (redirect p first s).1.markers
    → second.tid ≡ first.tid
    → r.context.rsp ≡ s.context.rsp
    → r.context.rip ≡ s.context.rip
    → Handed t p q first second s r selected
redirect-redirect t p q first second s r selected trap trap' wf absent done marked plain found kept
      tid rsp rip =
    let key_tid = first.tid in
    let key_rsp = s.context.rsp in
    let key_rip = s.context.rip in
    let saved = saved_of s.context in
    let twice =
      remember_marker-consume_marker t key_tid key_rsp key_rip saved (saved_of r.context) saved wf
        absent done in
    let one = after_one t key_tid key_rsp key_rip saved in
    let two = after_two t key_tid key_rsp key_rip saved (saved_of r.context) in
    let consumed : consume_marker s.markers key_tid key_rsp key_rip saved ≡ (some route, one) =
      ap (λ u. consume_marker u key_tid key_rsp key_rip saved) marked
      ∙ ap (λ phase. (phase, one)) twice.routes in
    let step1 : redirect p first s
        ≡ (true, record s { context = enter_reflex s.memory selected s.context; markers = one }) =
      redirect-consumed p first s (some route) one trap consumed
      ∙ dispatch-routes p first (record s { markers = one }) selected plain found in
    let left : r.markers ≡ one = kept ∙ ap (λ x. x.1.markers) step1 in
    let again : consume_marker r.markers second.tid r.context.rsp r.context.rip (saved_of r.context)
        ≡ (some (replay saved), two) =
      rw (left, tid, rsp, rip) (ap (λ phase. (phase, two)) twice.replays) in
    let step2 : redirect q second r
        ≡ (false, record r { context = restore saved r.context; markers = two }) =
      redirect-consumed q second r (some (replay saved)) two trap' again
      ∙ dispatch-replays q second (record r { markers = two }) saved in
    record {
      taken = ap (λ x. x.0) step1;
      entered = ap (λ x. x.1.context) step1;
      forwarded = ap (λ x. x.0) step2;
      restored = ap (λ x. x.1.context) step2;
      retired = subst (λ x. SameMarkers t x.1.markers) (sym step2) twice.restored;
    }
