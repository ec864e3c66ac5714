-- ===== src/Syscall/Router/Forwarded.antt =====
-- What a trap that is forwarded to Wine finds changed.
use linuwux_runtime.Base.{
  ◌≡◌, refl, ap, sym, ◌∙◌, inl, inr, ◌⊎◌, Option, Option-cases, none, some, Bool, Bool-cases, true,
  false, not, ◌||◌, ◌==◌, arith,
}
use linuwux_runtime.Syscall.Registers.{Context, zero_xmm}
use linuwux_runtime.Syscall.Markers.{Phase, route, replay, consume_marker}
use linuwux_runtime.Syscall.WindowList.{maybe_complete_bypass}
use linuwux_runtime.Syscall.Router.{
  sys_seccomp, sys_user_dispatch, Signal, Process, Machine, is_bypass, reflex_route_syscall,
  saved_of, restore, redirect, dispatch, route_call, bypass, unbridged,
}
use linuwux_runtime.Syscall.Router.RoundTrip.{is_syscall_trap, redirect-consumed}

-- A context without the four registers that a replay restores.
abbrev pub call_of : Context → Context
call_of c = record c { r11 = 0; eflags = 0; xmm4 = zero_xmm; xmm5 = zero_xmm }

-- Every other register is as it was, and the memory as it was or repaired.
pub record Forwarded (p : Process) (s u : Machine) : Type 0 where
  pub call : call_of u.context ≡ call_of s.context
  pub memory : (u.memory ≡ s.memory) ⊎ (u.memory ≡ p.repair s.memory)

route_call-Forwarded :
    (p : Process) (e : Signal) (bridged : Bool) (s : Machine)
    → (route_call p e bridged s).0 ≡ false
    → ((route_call p e bridged s).1.context ≡ s.context)
      × ((route_call p e bridged s).1.memory ≡ s.memory)
unfolding route_call
route_call-Forwarded p e bridged s refused =
    elim (Option-cases (reflex_route_syscall p.reflex s.context)) [
      | inl none_found ↦ rw (route_call, none_found) (refl, refl)
      | inr (selected, found) ↦
          let taken : (route_call p e bridged s).0 ≡ true = rw (route_call, found) refl in cc
    ]

bypass-Forwarded :
    (p : Process) (e : Signal) (bridged : Bool) (s : Machine)
    → (bypass p e bridged s).0 ≡ false
    → Forwarded p s (bypass p e bridged s).1
unfolding bypass
bypass-Forwarded p e bridged s refused =
    let plain = record s.context { xmm5 = zero_xmm } in
    let completed = (maybe_complete_bypass p.writable p.gs_base s.memory plain s.windows).0 in
    elim (Bool-cases (e.code == sys_user_dispatch)) [
      | inl user ↦ elim (Option-cases completed) [
        | inl left ↦ rw (bypass, user, left) (record { call = refl; memory = inl refl })
        | inr (after, done) ↦
            let taken : (bypass p e bridged s).0 ≡ true = rw (bypass, user, done) refl in cc
      ]
      | inr other ↦ rw (bypass, other) (record { call = refl; memory = inl refl })
    ]

unbridged-Forwarded :
    (p : Process) (e : Signal) (s : Machine)
    → (unbridged p e s).0 ≡ false
    → Forwarded p s (unbridged p e s).1
unfolding unbridged
unbridged-Forwarded p e s refused = elim (Bool-cases p.registered) [
  | inl here ↦
      let step : unbridged p e s ≡ route_call p e false (record s { memory = p.repair s.memory }) =
        rw (unbridged, here) refl in
      let (context, memory) =
        route_call-Forwarded p e false (record s { memory = p.repair s.memory })
          (sym (ap (λ x. x.0) step) ∙ refused) in
      rw (step) (record { call = ap call_of context; memory = inr memory })
  | inr elsewhere ↦ rw (unbridged, elsewhere) (record { call = refl; memory = inl refl })
]

dispatch-Forwarded :
    (p : Process) (e : Signal) (phase : Option Phase) (s : Machine)
    → (dispatch p e phase s).0 ≡ false
    → Forwarded p s (dispatch p e phase s).1
unfolding dispatch restore
dispatch-Forwarded p e (some (replay saved)) s refused = record { call = refl; memory = inl refl }
dispatch-Forwarded p e (some route) s refused = elim (Bool-cases (is_bypass s.context)) [
  | inl marked ↦
      rw (dispatch, marked) (bypass-Forwarded p e true s (rw (dispatch, marked) at refused))
  | inr plain ↦
      let (context, memory) = route_call-Forwarded p e true s (rw (dispatch, plain) at refused) in
      rw (dispatch, plain) (record { call = ap call_of context; memory = inl memory })
]
dispatch-Forwarded p e none s refused = elim (Bool-cases (is_bypass s.context)) [
  | inl marked ↦
      rw (dispatch, marked) (bypass-Forwarded p e false s (rw (dispatch, marked) at refused))
  | inr plain ↦ rw (dispatch, plain) (unbridged-Forwarded p e s (rw (dispatch, plain) at refused))
]

-- A signal that the router does not handle reaches Wine with every register of the syscall as it
-- was, but XMM4, XMM5, R11 and EFLAGS, and with the memory as it was or as the repair of
-- the registered process leaves it: whatever the frame, the code of the signal, its marker and Reflex's route.
pub redirect-Forwarded :
    (p : Process) (e : Signal) (s : Machine)
    → (redirect p e s).0 ≡ false
    → Forwarded p s (redirect p e s).1
unfolding redirect
redirect-Forwarded p e s refused = elim (Bool-cases (is_syscall_trap e)) [
  | inl trap ↦
      let answer =
        consume_marker s.markers e.tid s.context.rsp s.context.rip (saved_of s.context) in
      let marked = record s { markers = answer.1 } in
      let step = redirect-consumed p e s answer.0 answer.1 trap refl in
      let all = dispatch-Forwarded p e answer.0 marked (sym (ap (λ x. x.0) step) ∙ refused) in
      rw (step) (record { call = all.call; memory = all.memory })
  | inr other ↦
      let ignored : e.null_frame || not ((e.code == sys_seccomp) || (e.code == sys_user_dispatch))
          ≡ true =
        ground (arith, other) in
      rw (redirect, ignored) (record { call = refl; memory = inl refl })
]
