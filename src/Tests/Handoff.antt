-- ===== src/Tests/Handoff.antt =====
-- A call of the dispatcher from a stub that Reflex has copied, at 0x4000.
use linuwux_runtime.Base.{
  ℕ, ◌+◌, ◌-◌, ◌≡◌, ◌≢◌, refl, sym, ap, ◌∙◌, true, false, none, some, List, [], ◌∷◌, ltb,
  if◌then◌else◌, get_elem?, arith,
}
use linuwux_runtime.Memory.{Memory, bytes_at, read_memory, read_u64, from_le_bytes, checked_add}
use linuwux_runtime.Reflex.Enums.{SyscallConvention, RoutingState, IdentityState}
use linuwux_runtime.Reflex.State.{SyscallRoute, new_dispatch}
use linuwux_runtime.Reflex.Route.{route_syscall, without_handler, select_target, to_route}
use linuwux_runtime.Syscall.Registers.{Context, zero_xmm}
use linuwux_runtime.Syscall.Markers.{
  no_markers, remember_marker, marker_slot, probe, has_active_markers,
}
use linuwux_runtime.Syscall.Markers.Count.{no_markers-WellFormed}
use linuwux_runtime.Syscall.Markers.Retired.{retired_table}
use linuwux_runtime.Syscall.Router.{
  Signal, Process, Machine, redirect, is_bypass, reflex_route_syscall,
}
use linuwux_runtime.Syscall.Router.RoundTrip.{Handed}
use linuwux_runtime.Syscall.Dispatch.{
  Dispatcher, maybe_scan_main_image_iat, find_syscall, find_in_windows,
  find_raw_syscall_instruction, find_raw_from, syscall_service_before, service_below, mark_raw,
  choose_target, dispatcher_target,
}
use linuwux_runtime.Syscall.Dispatch.ReflexImage.{no_image, is_reflex_address}
use linuwux_runtime.Syscall.Dispatch.Scan.{saturating_add}
use linuwux_runtime.Syscall.Dispatch.Stubs.{
  no_stubs, remember_stub, remember_from, stub_slot, holds_from, stub_for_return, matches_iat_stub,
}
use linuwux_runtime.Syscall.Dispatch.Bridge as Asm
use linuwux_runtime.Syscall.Dispatch.Bridge.{
  Selector, Landing, execute, execute_all, call_selector, resume, land, leave, dispatcher_bridge,
}
use linuwux_runtime.Syscall.Dispatch.Bridge.Handed.{dispatcher_bridge-redirect}
use linuwux_runtime.Syscall.Dispatch.Handoff.{dispatcher_target-redirect}

abbrev stub : List ℕ
stub =
    0x90 ∷ 0x4c ∷ 0x8b ∷ 0xd1 ∷ 0xb8 ∷ 0x18 ∷ 0 ∷ 0 ∷ 0 ∷ 0xf6 ∷ 0x04 ∷ 0x25 ∷ 0x08 ∷ 0x03 ∷ 0xfe
    ∷ 0x7f ∷ 0x01 ∷ 0x75 ∷ 0x03 ∷ 0x0f ∷ 0x05 ∷ 0xc3 ∷ 0xcd ∷ 0x2e ∷ 0xc3 ∷ 0x0f ∷ 0x1f ∷ 0x84 ∷ 0
    ∷ 0 ∷ 0 ∷ 0 ∷ []

abbrev code : Memory
code a = if ltb a 0x3fff then none else get_elem? stub (a - 0x3fff)

abbrev dispatcher : Dispatcher
dispatcher = record {
  original = 0x7ffe_2000;
  image = no_image;
  stubs = (remember_stub no_stubs 0x4000).1;
  attempts = 0;
  markers = no_markers;
}

raw_found : find_syscall code 0x401f 0x18 ≡ some 0x4012
unfolding find_syscall find_in_windows find_raw_syscall_instruction find_raw_from
    syscall_service_before service_below read_memory bytes_at checked_add from_le_bytes
raw_found = refl

abbrev called : ℕ × Dispatcher
called = dispatcher_target (λ m. m) code none 0x401f 0x18 0x7000 7 dispatcher

raw_target : called.0 ≡ 0x4012 + 0x8000_0000_0000_0000
unfolding dispatcher_target maybe_scan_main_image_iat choose_target mark_raw matches_iat_stub
    stub_for_return holds_from stub_slot remember_stub remember_from is_reflex_address find_syscall
    find_in_windows find_raw_syscall_instruction find_raw_from syscall_service_before service_below
    read_memory bytes_at checked_add from_le_bytes read_u64 remember_marker probe marker_slot
    has_active_markers
raw_target = refl

turned : called.0 ≢ dispatcher.original
turned e =
    let target : 0x4012 + 0x8000_0000_0000_0000 ≡ dispatcher.original = sym raw_target ∙ e in
    absurd (omega (arith, target))

abbrev process : Process
process = record {
  reflex = record {
    routing = RoutingState.resume_target;
    identity = IdentityState.process;
    target_pid = 0;
    syscall_convention = SyscallConvention.resume_replay;
    resume_target = 0x5000;
    dispatch = new_dispatch;
  };
  registered = false;
  repair = λ m. m;
  writable = λ a. false;
  gs_base = none;
}

abbrev trapped : Context
trapped = record {
  rax = 0x18;
  rbx = 1;
  rcx = 0x4014;
  rdx = 3;
  r10 = 0;
  r11 = 0x246;
  rsp = saturating_add 0x7000 8;
  rip = saturating_add 0x4012 2;
  eflags = 0x46;
  trapno = 0;
  xmm4 = record { low = 4; high = 44 };
  xmm5 = record { low = 5; high = 55 };
}

abbrev machine : Machine
machine = record {
  context = trapped;
  memory = code;
  markers = called.1.markers;
  windows = record { service = 0; attempts = 0 };
}

abbrev signal : Signal
signal = record { null_frame = false; code = 2; tid = 7 }

abbrev back : Machine
back = record machine {
  context = record trapped { r11 = 0; eflags = 0x202 };
  markers = (redirect process signal machine).1.markers;
}

plain : is_bypass trapped ≡ false
unfolding is_bypass
plain = refl

abbrev selected : SyscallRoute
selected = record { target = 0x5000; rax_is_resume = true }

routed : reflex_route_syscall process.reflex trapped ≡ some selected
unfolding reflex_route_syscall route_syscall without_handler select_target to_route
routed = refl

dispatcher_target-redirect_example :
    Handed
      (retired_table no_markers 7 (saturating_add 0x7000 8))
      process
      process
      signal
      signal
      machine
      back
      selected
dispatcher_target-redirect_example =
    dispatcher_target-redirect (λ m. m) code none 0x401f 0x18 0x7000 0x4012 dispatcher process
      process signal signal machine back selected no_markers-WellFormed (omega arith) (omega arith)
      raw_found turned refl refl refl refl refl plain routed refl refl refl refl

-- The bridge is entered by the stub's call, with the service in RAX.
abbrev entered : Asm.Machine
entered = record {
  gpr = record {
    rax = 0x18;
    rbx = 0;
    rcx = 0;
    rdx = 0;
    rsi = 0;
    rdi = 0;
    rbp = 0;
    r8 = 0;
    r9 = 0;
    r10 = 0;
    r11 = 0;
    r12 = 0;
    r13 = 0;
    r14 = 0;
    r15 = 0;
  };
  xmm = λ i. zero_xmm;
  flags = 0x246;
  sp = 0x190;
  memory = λ o. 0x401f;
}

abbrev selector : Selector
selector = record {
  answer = λ a.
      (dispatcher_target (λ m. m) code none a.return_address a.service a.entry_rsp 7 dispatcher).0;
  gpr_after = λ g. record g { rcx = 0; r11 = 0 };
  xmm_after = λ xmm. xmm;
  flags_after = λ flags. flags;
}

abbrev landing : Landing
landing = dispatcher_bridge 0x6e70 selector 0x10000 8 entered

lands_at_raw : (landing.rip ≡ 0x4012) × (landing.sp ≡ 0x198)
unfolding dispatcher_target maybe_scan_main_image_iat choose_target mark_raw matches_iat_stub
    stub_for_return holds_from stub_slot remember_stub remember_from is_reflex_address find_syscall
    find_in_windows find_raw_syscall_instruction find_raw_from syscall_service_before service_below
    read_memory bytes_at checked_add from_le_bytes read_u64 remember_marker probe marker_slot
    has_active_markers dispatcher_bridge execute execute_all call_selector resume land leave
lands_at_raw = (refl, refl)

dispatcher_bridge-redirect_example :
    Handed
      (retired_table no_markers 7 (saturating_add 0x7000 8))
      process
      process
      signal
      signal
      machine
      back
      selected
dispatcher_bridge-redirect_example =
    dispatcher_bridge-redirect 0x6e70 0x10000 8 selector entered (λ m. m) code none 0x4012
      dispatcher process process signal signal machine back selected
      (record { keeps_rbx = λ g. refl }) refl no_markers-WellFormed (omega arith) (λ e. omega arith)
      (omega arith) raw_found turned refl (ap (λ (o : ℕ). 0x6e70 + o) (sym lands_at_raw.1))
      (ap (λ (a : ℕ). a + 2) (sym lands_at_raw.0)) refl refl plain routed refl refl refl refl
