-- ===== src/Tests/Markers.antt =====
-- The markers and the router at concrete inputs: a syscall at 0x4000 on a stack at 0x7000.
use linuwux_runtime.Base.{ℕ, ◌≡◌, refl, true, false, none, some}
use linuwux_runtime.Reflex.Enums.{SyscallConvention, RoutingState, IdentityState}
use linuwux_runtime.Reflex.State.{State, SyscallRoute, new_dispatch}
use linuwux_runtime.Reflex.Route.{route_syscall, without_handler, select_target, to_route}
use linuwux_runtime.Syscall.Registers.{Context}
use linuwux_runtime.Syscall.Markers.{
  Markers, no_markers, remember_marker, marker_slot, probe, SavedContext, consume_marker,
  no_context, find_marker, has_active_markers,
}
use linuwux_runtime.Syscall.Markers.Count.{WellFormed, no_markers-WellFormed}
use linuwux_runtime.Syscall.Markers.Lifecycle.{ConsumedTwice, remember_marker-consume_marker}
use linuwux_runtime.Syscall.Markers.Reachable.{
  start, after, remembering, consuming, Reachable-WellFormed,
}
use linuwux_runtime.Syscall.Router.{
  Signal, Process, Machine, syscall_bypass_magic, redirect, dispatch, bypass, is_bypass,
  reflex_route_syscall,
}
use linuwux_runtime.Syscall.Router.RoundTrip.{Handed, redirect-redirect}
use linuwux_runtime.Syscall.Router.Forwarded.{Forwarded, redirect-Forwarded}

abbrev thread : ℕ
thread = 7

abbrev stack : ℕ
stack = 0x7000

abbrev address : ℕ
address = 0x4002

abbrev first : SavedContext
first = record {
  xmm4 = record { low = 4; high = 44 };
  xmm5 = record { low = 5; high = 55 };
  r11 = 0x246;
  eflags = 0x46;
}

remembered_new : (remember_marker no_markers thread stack address).0 ≡ true
unfolding remember_marker probe marker_slot
remembered_new = refl

remember_marker-consume_marker_example :
    ConsumedTwice no_markers thread stack address first no_context first
remember_marker-consume_marker_example =
    remember_marker-consume_marker no_markers thread stack address first no_context first
      no_markers-WellFormed (λ i lt. refl) remembered_new

abbrev armed : Markers
armed = (remember_marker no_markers thread stack address).1

Reachable-WellFormed_example : WellFormed (consume_marker armed thread stack address first).1
Reachable-WellFormed_example = Reachable-WellFormed (
    after (after start (remembering no_markers thread stack address))
      (consuming armed thread stack address first))

-- A process whose Reflex handler is a resume target.
abbrev reflex : State
reflex = record {
  routing = RoutingState.resume_target;
  identity = IdentityState.process;
  target_pid = 0;
  syscall_convention = SyscallConvention.resume_replay;
  resume_target = 0x5000;
  dispatch = new_dispatch;
}

abbrev process : Process
process = record {
  reflex = reflex;
  registered = false;
  repair = λ m. m;
  writable = λ a. false;
  gs_base = none;
}

abbrev trapped : Context
trapped = record {
  rax = 0x18;
  rbx = 1;
  rcx = 0x4002;
  rdx = 3;
  r10 = 0;
  r11 = 0x246;
  rsp = stack;
  rip = address;
  eflags = 0x46;
  trapno = 0;
  xmm4 = record { low = 4; high = 44 };
  xmm5 = record { low = 5; high = 55 };
}

abbrev machine : Machine
machine = record {
  context = trapped;
  memory = λ a. none;
  markers = armed;
  windows = record { service = 0; attempts = 0 };
}

abbrev signal : Signal
signal = record { null_frame = false; code = 2; tid = thread }

abbrev selected : SyscallRoute
selected = record { target = 0x5000; rax_is_resume = true }

routed : reflex_route_syscall process.reflex trapped ≡ some selected
unfolding reflex_route_syscall route_syscall without_handler select_target to_route
routed = refl

plain : is_bypass trapped ≡ false
unfolding is_bypass
plain = refl

-- The call as Reflex hands it back, with other vector registers and flags.
abbrev handed_back : Machine
handed_back = record machine {
  context = record trapped { xmm4 = record { low = 0; high = 0 }; r11 = 0; eflags = 0x202 };
  markers = (redirect process signal machine).1.markers;
}

redirect-redirect_example :
    Handed no_markers process process signal signal machine handed_back selected
redirect-redirect_example =
    redirect-redirect no_markers process process signal signal machine handed_back selected refl
      refl no_markers-WellFormed (λ i lt. refl) remembered_new refl plain routed refl refl refl refl

-- A bypass under seccomp.
abbrev bypassing : Machine
bypassing = record machine {
  context = record trapped { xmm5 = record { low = syscall_bypass_magic; high = 0 } };
  markers = no_markers;
}

abbrev seccomp : Signal
seccomp = record { null_frame = false; code = 1; tid = thread }

left_alone : (redirect process seccomp bypassing).0 ≡ false
unfolding redirect consume_marker find_marker has_active_markers dispatch is_bypass bypass
left_alone = refl

redirect-Forwarded_example : Forwarded process bypassing (redirect process seccomp bypassing).1
redirect-Forwarded_example = redirect-Forwarded process seccomp bypassing left_alone
