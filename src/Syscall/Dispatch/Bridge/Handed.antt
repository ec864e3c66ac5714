-- ===== src/Syscall/Dispatch/Bridge/Handed.antt =====
-- From the entry of the bridge to the second trap of the raw syscall that it jumps to.
use linuwux_runtime.Base.{
  ℕ, ◌+◌, ◌^◌, ◌<◌, ◌≡◌, ◌≢◌, sym, ap, ◌∙◌, Option, some, true, false, arith, u64_max,
}
use linuwux_runtime.Memory.{Memory}
use linuwux_runtime.Reflex.State.{SyscallRoute}
use linuwux_runtime.Syscall.Markers.Count.{WellFormed}
use linuwux_runtime.Syscall.Markers.Retired.{retired_table}
use linuwux_runtime.Syscall.Router.{
  Signal, Process, Machine, is_bypass, reflex_route_syscall, redirect,
}
use linuwux_runtime.Syscall.Router.RoundTrip.{is_syscall_trap, Handed}
use linuwux_runtime.Syscall.Dispatch.{Dispatcher, find_syscall, dispatcher_target, tagged}
use linuwux_runtime.Syscall.Dispatch.Scan.{saturating_add}
use linuwux_runtime.Syscall.Dispatch.Handoff.{dispatcher_target-redirect, dispatcher_target-tagged}
use linuwux_runtime.Syscall.Dispatch.Bridge as Asm
use linuwux_runtime.Syscall.Dispatch.Bridge.{Selector, Landing, dispatcher_bridge}
use linuwux_runtime.Syscall.Dispatch.Bridge.Lands.{
  Convention, Lands, given, dispatcher_bridge-Lands,
}

-- Where a tagged answer lands.
Lands-tagged :
    (l : Landing) (b : Asm.Machine) (target raw : ℕ)
    → Lands l b target
    → target ≡ tagged raw
    → raw < 2 ^ 63
    → (l.rip ≡ raw) × (l.sp ≡ 0x190 + 8)
Lands-tagged l b target raw (restored, below, rip, sp, flags) is_tagged small =
    ground (arith, rip, sp, is_tagged)

saturating_add_small : (a n : ℕ) → a + n < u64_max → saturating_add a n ≡ a + n
saturating_add_small a n small = ground arith

-- The call of the selector that the bridge makes.
abbrev pub selected_by :
    (Memory → Memory) → Memory → Option ℕ → ℕ → ℕ → Asm.Machine → Dispatcher → ℕ × Dispatcher
selected_by repair m gs_base entry_rsp tid b d =
    let a = given entry_rsp b in
    dispatcher_target repair m gs_base a.return_address a.service entry_rsp tid d

-- Let the selector of the bridge be `dispatcher_target`, compiled to the calling convention, with a
-- well-formed table of markers, and answer a target that is not Wine's dispatcher, where a raw syscall of
-- the service, below 2^63, is found before the return address; the thread's id is not 0, and the stack
-- does not reach the end of the address space. If the processor traps behind that syscall with the stack
-- pointer that the bridge leaves, and again at the same place, and Reflex has a route for the first trap
-- and it is no bypass, then the router takes the first to Reflex and hands the second to Wine with XMM4,
-- XMM5, R11 and EFLAGS of the first, and no marker of the call is left.
pub dispatcher_bridge-redirect :
    (bottom stacks thread_id : ℕ) (c : Selector) (b : Asm.Machine) (repair : Memory → Memory)
    (m : Memory) (gs_base : Option ℕ) (raw : ℕ) (d : Dispatcher) (p q : Process)
    (first second : Signal) (s r : Machine) (selected : SyscallRoute)
    → Convention c
    → c.answer (given (bottom + 0x190) b)
      ≡ (selected_by repair m gs_base (bottom + 0x190) first.tid b d).0
    → WellFormed d.markers
    → bottom + 0x190 + 8 < u64_max
    → first.tid ≢ 0
    → raw < 2 ^ 63
    → find_syscall (repair m) (b.memory 0x190) b.gpr.rax ≡ some raw
    → (selected_by repair m gs_base (bottom + 0x190) first.tid b d).0 ≢ d.original
    → s.markers ≡ (selected_by repair m gs_base (bottom + 0x190) first.tid b d).1.markers
    → s.context.rsp ≡ bottom + (dispatcher_bridge bottom c stacks thread_id b).sp
    → s.context.rip ≡ (dispatcher_bridge bottom c stacks thread_id b).rip + 2
    → is_syscall_trap first ≡ true
    → is_syscall_trap second ≡ true
    → is_bypass s.context ≡ false
    → reflex_route_syscall p.reflex s.context ≡ some selected
    → r.markers ≡ (redirect p first s).1.markers
    → second.tid ≡ first.tid
    → r.context.rsp ≡ s.context.rsp
    → r.context.rip ≡ s.context.rip
    → Handed
        (retired_table d.markers first.tid (saturating_add (bottom + 0x190) 8))
        p
        q
        first
        second
        s
        r
        selected
dispatcher_bridge-redirect bottom stacks thread_id c b repair m gs_base raw d p q first second s r
      selected convention answers wf fits thread small found turned marked rsp rip trap trap' plain
      routed kept tid rsp' rip' =
    let entry_rsp = bottom + 0x190 in
    let is_tagged =
      answers
      ∙ dispatcher_target-tagged repair m gs_base (b.memory 0x190) b.gpr.rax entry_rsp first.tid raw
          d found turned in
    let (at_raw, at_depth) =
      Lands-tagged (dispatcher_bridge bottom c stacks thread_id b) b _ raw
        (dispatcher_bridge-Lands bottom c stacks thread_id b convention) is_tagged small in
    let depth : s.context.rsp ≡ saturating_add entry_rsp 8 =
      rsp
      ∙ ap (λ (o : ℕ). bottom + o) at_depth
      ∙ omega arith
      ∙ sym (saturating_add_small entry_rsp 8 fits) in
    let behind : s.context.rip ≡ saturating_add raw 2 =
      rip ∙ ap (λ (a : ℕ). a + 2) at_raw ∙ sym (saturating_add_small raw 2 (omega arith)) in
    dispatcher_target-redirect repair m gs_base (b.memory 0x190) b.gpr.rax entry_rsp raw d p q first
      second s r selected wf fits thread found turned marked depth behind trap trap' plain routed
      kept tid rsp' rip'
