-- ===== src/Syscall/Dispatch/Handoff.antt =====
-- A call that the dispatcher turns to a raw syscall, and the two traps of that syscall.
use linuwux_runtime.Base.{
  ℕ, ◌+◌, ◌<◌, ◌≡◌, ◌≢◌, refl, sym, ap, ◌∙◌, inl, inr, Option, some, Bool-cases, true, false, not,
  ◌==◌, ◌||◌, arith, u64_max,
}
use linuwux_runtime.Memory.{Memory, read_u64}
use linuwux_runtime.Reflex.State.{SyscallRoute}
use linuwux_runtime.Syscall.Markers.{remember_marker}
use linuwux_runtime.Syscall.Markers.Count.{WellFormed}
use linuwux_runtime.Syscall.Markers.Retired.{
  retired_table, retired_table-absent, retired_table-WellFormed,
}
use linuwux_runtime.Syscall.Router.{
  Signal, Process, Machine, is_bypass, reflex_route_syscall, redirect,
}
use linuwux_runtime.Syscall.Router.RoundTrip.{is_syscall_trap, Handed, redirect-redirect}
use linuwux_runtime.Syscall.Dispatch.{
  Dispatcher, maybe_scan_main_image_iat, find_syscall, mark_raw, value_or_0, choose_target,
  dispatcher_target, tagged,
}
use linuwux_runtime.Syscall.Dispatch.Scan.{saturating_add}
use linuwux_runtime.Syscall.Dispatch.Stubs.{matches_iat_stub}
use linuwux_runtime.Syscall.Dispatch.ReflexImage.{is_reflex_address}

scan-markers :
    (m : Memory) (gs_base : Option ℕ) (d : Dispatcher)
    → ((maybe_scan_main_image_iat m gs_base d).markers ≡ d.markers)
      × ((maybe_scan_main_image_iat m gs_base d).original ≡ d.original)
unfolding maybe_scan_main_image_iat
scan-markers m gs_base d = ground arith

-- A target that is not Wine's dispatcher is a raw syscall with its marker.
mark_raw-remembered :
    (d : Dispatcher) (tid trap_rsp raw : ℕ)
    → (mark_raw d tid trap_rsp raw).0 ≢ d.original
    → ((remember_marker d.markers tid trap_rsp (saturating_add raw 2)).0 ≡ true)
      × ((mark_raw d tid trap_rsp raw).1.markers
          ≡ (remember_marker d.markers tid trap_rsp (saturating_add raw 2)).1)
unfolding mark_raw
mark_raw-remembered d tid trap_rsp raw turned =
    elim (Bool-cases (remember_marker d.markers tid trap_rsp (saturating_add raw 2)).0) [
      | inl done ↦ (done, rw (mark_raw, done) refl)
      | inr refused ↦ absurd (turned (rw (mark_raw, refused) refl))
    ]

choose_target-marked :
    (m : Memory) (return_address service entry_rsp tid raw : ℕ) (d : Dispatcher)
    → (choose_target m return_address service entry_rsp tid d).0 ≢ d.original
    → find_syscall m return_address service ≡ some raw
    → choose_target m return_address service entry_rsp tid d
      ≡ mark_raw d tid (saturating_add entry_rsp 8) raw
unfolding choose_target
choose_target-marked m return_address service entry_rsp tid raw d turned found =
    let unmatched = (d.original == 0) || not (matches_iat_stub d.stubs return_address) in
    let caller = value_or_0 (read_u64 m (saturating_add entry_rsp 8)) in
    elim (Bool-cases unmatched) [
      | inl e ↦ absurd (turned (rw (choose_target, e) refl))
      | inr e ↦ elim (Bool-cases (is_reflex_address d.image caller)) [
        | inl inside ↦ absurd (turned (rw (choose_target, e, inside) refl))
        | inr outside ↦ rw (choose_target, e, outside, found) refl
      ]
    ]

-- The dispatcher when it chooses.
abbrev choosing : Memory → Option ℕ → ℕ → ℕ → Dispatcher → Dispatcher
choosing m gs_base entry_rsp tid d =
    let scanned = maybe_scan_main_image_iat m gs_base d in
    record scanned { markers = retired_table scanned.markers tid (saturating_add entry_rsp 8) }

dispatcher_target-choosing :
    (repair : Memory → Memory) (m : Memory) (gs_base : Option ℕ)
    (return_address service entry_rsp tid : ℕ) (d : Dispatcher)
    → dispatcher_target repair m gs_base return_address service entry_rsp tid d
      ≡ choose_target
          (repair m)
          return_address
          service
          entry_rsp
          tid
          (choosing m gs_base entry_rsp tid d)
unfolding dispatcher_target
dispatcher_target-choosing repair m gs_base return_address service entry_rsp tid d = refl

-- Let a call of the dispatcher, whose table of markers is well formed, answer a target that is not
-- Wine's dispatcher, where a raw syscall of the service is found before the return address. If the
-- thread's next traps are of that syscall at the depth of the call, and Reflex has a route for the first
-- and it is no bypass, then the router takes the first to Reflex and hands the second to Wine with XMM4,
-- XMM5, R11 and EFLAGS of the first, and no marker of the call is left: the table is as the call
-- found it, less the markers that the thread had passed.
pub dispatcher_target-redirect :
    (repair : Memory → Memory) (m : Memory) (gs_base : Option ℕ)
    (return_address service entry_rsp raw : ℕ) (d : Dispatcher) (p q : Process)
    (first second : Signal) (s r : Machine) (selected : SyscallRoute)
    → WellFormed d.markers
    → entry_rsp + 8 < u64_max
    → first.tid ≢ 0
    → find_syscall (repair m) return_address service ≡ some raw
    → (dispatcher_target repair m gs_base return_address service entry_rsp first.tid d).0
      ≢ d.original
    → s.markers
      ≡ (dispatcher_target repair m gs_base return_address service entry_rsp first.tid d).1.markers
    → s.context.rsp ≡ saturating_add entry_rsp 8
    → s.context.rip ≡ saturating_add raw 2
    → is_syscall_trap first ≡ true
    → is_syscall_trap second ≡ true
    → is_bypass s.context ≡ false
    → reflex_route_syscall p.reflex s.context ≡ some selected
    → r.markers ≡ (redirect p first s).1.markers
    → second.tid ≡ first.tid
    → r.context.rsp ≡ s.context.rsp
    → r.context.rip ≡ s.context.rip
    → Handed
        (retired_table d.markers first.tid (saturating_add entry_rsp 8))
        p
        q
        first
        second
        s
        r
        selected
dispatcher_target-redirect repair m gs_base return_address service entry_rsp raw d p q first second
      s r selected wf fits thread found turned marked rsp rip trap trap' plain routed kept tid rsp'
      rip' =
    let tid₁ = first.tid in
    let depth = saturating_add entry_rsp 8 in
    let table = retired_table d.markers tid₁ depth in
    let (same_markers, same_original) = scan-markers m gs_base d in
    let at = choosing m gs_base entry_rsp tid₁ d in
    let step =
      dispatcher_target-choosing repair m gs_base return_address service entry_rsp tid₁ d in
    let turned₁ : (choose_target (repair m) return_address service entry_rsp tid₁ at).0
        ≢ at.original =
      λ e. turned (ap (λ x. x.0) step ∙ e ∙ same_original) in
    let chosen =
      choose_target-marked (repair m) return_address service entry_rsp tid₁ raw at turned₁ found in
    let (done, after) =
      mark_raw-remembered at tid₁ depth raw (λ e. turned₁ (ap (λ x. x.0) chosen ∙ e)) in
    let same_table : at.markers ≡ table = ap (λ t. retired_table t tid₁ depth) same_markers in
    let address = saturating_add raw 2 in
    let positive : depth ≢ 0 = omega arith in
    let below : depth < u64_max = omega (arith, fits) in
    let joined : s.markers ≡ (remember_marker table tid₁ depth address).1 =
      marked
      ∙ ap (λ x. x.1.markers) (step ∙ chosen)
      ∙ after
      ∙ ap (λ t. (remember_marker t tid₁ depth address).1) same_table in
    let accepted : (remember_marker table tid₁ depth address).0 ≡ true =
      ap (λ t. (remember_marker t tid₁ depth address).0) (sym same_table) ∙ done in
    redirect-redirect table p q first second s r selected trap trap'
      (retired_table-WellFormed tid₁ depth address thread positive below d.markers wf)
      (λ i lt.
        rw (rsp, rip)
          (retired_table-absent tid₁ depth address thread positive below d.markers i wf lt))
      (rw (rsp, rip) accepted) (rw (rsp, rip) joined) plain routed kept tid rsp' rip'

mark_raw-tagged :
    (d : Dispatcher) (tid trap_rsp raw : ℕ)
    → (mark_raw d tid trap_rsp raw).0 ≢ d.original
    → (mark_raw d tid trap_rsp raw).0 ≡ tagged raw
unfolding mark_raw
mark_raw-tagged d tid trap_rsp raw turned =
    elim (Bool-cases (remember_marker d.markers tid trap_rsp (saturating_add raw 2)).0) [
      | inl done ↦ rw (mark_raw, done) refl
      | inr refused ↦ absurd (turned (rw (mark_raw, refused) refl))
    ]

-- A target that is not Wine's dispatcher is the tagged address of the raw syscall.
pub dispatcher_target-tagged :
    (repair : Memory → Memory) (m : Memory) (gs_base : Option ℕ)
    (return_address service entry_rsp tid raw : ℕ) (d : Dispatcher)
    → find_syscall (repair m) return_address service ≡ some raw
    → (dispatcher_target repair m gs_base return_address service entry_rsp tid d).0 ≢ d.original
    → (dispatcher_target repair m gs_base return_address service entry_rsp tid d).0 ≡ tagged raw
dispatcher_target-tagged repair m gs_base return_address service entry_rsp tid raw d found turned =
    let at = choosing m gs_base entry_rsp tid d in
    let same_original = (scan-markers m gs_base d).1 in
    let step =
      ap (λ x. x.0)
        (dispatcher_target-choosing repair m gs_base return_address service entry_rsp tid d) in
    let turned₁ : (choose_target (repair m) return_address service entry_rsp tid at).0
        ≢ at.original =
      λ e. turned (step ∙ e ∙ same_original) in
    let chosen =
      ap (λ x. x.0)
        (choose_target-marked (repair m) return_address service entry_rsp tid raw at turned₁
          found) in
    step
    ∙ chosen
    ∙ mark_raw-tagged at tid (saturating_add entry_rsp 8) raw (λ e. turned₁ (chosen ∙ e))
