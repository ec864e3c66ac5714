-- ===== src/Syscall/Router.antt =====
-- runtime/src/syscall/sigsys_router.rs: the SIGSYS handler, built with the features kuser and reflex.
-- What the router asks of its process is a record of arguments: the Reflex route
-- (`reflex_route_syscall`), whether the process is registered, the repair of unixlib thunks that the
-- registration check makes, and the kernel's answers. The trace of the debug feature is left out.
pub mod RoundTrip
pub mod Forwarded
use linuwux_runtime.Base.{
  ℕ, ◌+◌, ◌%◌, Bool, true, false, not, ◌&&◌, ◌||◌, Option, none, some, List, [], ◌∷◌, ◌==◌,
  if◌then◌else◌, as_u32, u64_mod,
}
use linuwux_runtime.Memory.{Memory, reads_as}
use linuwux_runtime.Reflex.State.{State, SyscallRoute}
use linuwux_runtime.Reflex.Route.{route_syscall}
use linuwux_runtime.Syscall.Registers.{Context, zero_xmm, with_low_u32}
use linuwux_runtime.Syscall.Markers.{
  Markers, SavedContext, Phase, route, replay, consume_marker, cancel,
}
use linuwux_runtime.Syscall.WindowList.{WindowList, maybe_complete_bypass}

abbrev pub sys_seccomp : ℕ
sys_seccomp = 1

abbrev pub sys_user_dispatch : ℕ
sys_user_dispatch = 2

abbrev pub syscall_bypass_magic : ℕ
syscall_bypass_magic = 0x1337133713371337

-- What a signal carries beside the registers: whether a pointer of its frame is null, `si_code`, and
-- the thread it arrives on.
pub record Signal : Type 0 where
  pub null_frame : Bool
  pub code : ℕ
  pub tid : ℕ

pub record Process : Type 0 where
  pub reflex : State
  pub registered : Bool
  pub repair : Memory → Memory
  pub writable : ℕ → Bool
  pub gs_base : Option ℕ

pub record Machine : Type 0 where
  pub context : Context
  pub memory : Memory
  pub markers : Markers
  pub windows : WindowList

unfoldable pub is_bypass : Context → Bool
is_bypass c = c.xmm5.low == syscall_bypass_magic

-- `reflex_route_syscall` of runtime/src/reflex.rs, on registers that are there.
unfoldable pub reflex_route_syscall : State → Context → Option SyscallRoute
reflex_route_syscall s c = route_syscall s c.rax c.r10 c.rcx

unfoldable pub syscall_resume : Memory → ℕ → ℕ → ℕ
syscall_resume m rip rcx = if reads_as m rip (0x0f ∷ 0x05 ∷ []) then (rip + 2) % u64_mod else rcx

abbrev pub saved_of : Context → SavedContext
saved_of c = record { xmm4 = c.xmm4; xmm5 = c.xmm5; r11 = c.r11; eflags = c.eflags }

-- The replay: the four registers of the first trap.
unfoldable pub restore : SavedContext → Context → Context
restore saved c = record c {
  xmm4 = saved.xmm4;
  xmm5 = saved.xmm5;
  r11 = saved.r11;
  eflags = saved.eflags;
}

-- The call's registers, turned to Reflex's handler.
unfoldable pub enter_reflex : Memory → SyscallRoute → Context → Context
enter_reflex m selected c = record c {
  eflags = c.r11;
  xmm4 = with_low_u32 c.xmm4 (as_u32 c.rax);
  rax = if selected.rax_is_resume then syscall_resume m c.rip c.rcx else c.rcx;
  rcx = selected.target;
  rip = selected.target;
}

abbrev pub is_route : Option Phase → Bool
is_route none = false
is_route (some route) = true
is_route (some (replay saved)) = false

-- A call that Reflex has marked as its own: it goes on to Wine, without its marker and its mark.
unfoldable pub bypass : Process → Signal → Bool → Machine → Bool × Machine
bypass p e bridged s =
    let c = s.context in
    let unmarked = if bridged then cancel s.markers e.tid c.rsp c.rip else s.markers in
    let plain = record c { xmm5 = zero_xmm } in
    if e.code == sys_user_dispatch
    then (let (completed, looked) =
          maybe_complete_bypass p.writable p.gs_base s.memory plain s.windows in
        (elim completed [
          | none ↦ (false, record s { context = plain; markers = unmarked; windows = looked })
          | some (after, written) ↦ (
            true,
            record { context = after; memory = written; markers = unmarked; windows = looked },
          )
        ]))
    else (false, record s { context = plain; markers = unmarked })

-- A call that is Reflex's by its marker or by its process.
unfoldable pub route_call : Process → Signal → Bool → Machine → Bool × Machine
route_call p e bridged s =
    let c = s.context in
    (elim (reflex_route_syscall p.reflex c) [
      | none ↦ (
        false,
        record s { markers = if bridged then cancel s.markers e.tid c.rsp c.rip else s.markers },
      )
      | some selected ↦ (true, record s { context = enter_reflex s.memory selected c })
    ])

-- `is_registered_target_process` makes the repair where it holds.
unfoldable pub unbridged : Process → Signal → Machine → Bool × Machine
unbridged p e s =
    if p.registered
    then route_call p e false (record s { memory = p.repair s.memory })
    else (false, s)

unfoldable pub dispatch : Process → Signal → Option Phase → Machine → Bool × Machine
dispatch p e (some (replay saved)) s = (false, record s { context = restore saved s.context })
dispatch p e (some route) s =
    if is_bypass s.context then bypass p e true s else route_call p e true s
dispatch p e none s = if is_bypass s.context then bypass p e false s else unbridged p e s

-- Whether the signal is handled, and the machine after it. One that is not is forwarded to Wine.
unfoldable pub redirect : Process → Signal → Machine → Bool × Machine
redirect p e s =
    if e.null_frame || not ((e.code == sys_seccomp) || (e.code == sys_user_dispatch))
    then (false, s)
    else let c = s.context in
      let (phase, marked) = consume_marker s.markers e.tid c.rsp c.rip (saved_of c) in
      dispatch p e phase (record s { markers = marked })
