-- ===== src/Tests/CpuidTraps.antt =====
-- A `cpuid` instruction with the leaf that sets the time, from code at 0x400000.
use linuwux_runtime.Base.{
  ℕ, ◌≡◌, refl, ◌+◌, ◌%◌, ◌==◌, true, false, none, some, [], ◌∷◌, if◌then◌else◌, u64_mod,
}
use linuwux_runtime.Memory.{Memory, bytes_at, read_memory, reads_as}
use linuwux_runtime.Cpuid.Identity.{registers, is_wine_system_rip}
use linuwux_runtime.Reflex.Control.{set_time}
use linuwux_runtime.Reflex.Enums.{consumed}
use linuwux_runtime.Reflex.State.{State, World}
use linuwux_runtime.Reflex.HandleCpuid.{handle_cpuid, log_control, high_half}
use linuwux_runtime.Syscall.Registers.{Context, zero_xmm}
use linuwux_runtime.Syscall.Int2e.{Kernel}
use linuwux_runtime.Syscall.Dispatch.ReflexImage.{no_image}
use linuwux_runtime.CpuidTrap.Caches.{new_callers}
use linuwux_runtime.CpuidTrap.Replies.{TrapState, Platform, is_identity_leaf}
use linuwux_runtime.CpuidTrap.Handler.{
  Others, Segv, Faulted, resumed, runtime_host, si_kernel, note_registration, cpuid_sigsegv_handler,
}
use linuwux_runtime.CpuidTrap.Handler.Dispatching.{cpuid_sigsegv_handler-handle_cpuid}

-- The rest of the host is the offset of the clock.
abbrev others : Others ℕ
others = record {
  set_offset = λ time offset. time;
  patch_kuser = λ recipe offset. (true, offset);
  set_hwprofile_guid = λ offset. offset;
  yield_thread = λ w. w;
  log = λ message offset. offset;
  log_hex = λ prefix value offset. offset;
}

abbrev kernel : Kernel
kernel = record {
  maps = [];
  mmap = none;
  executable = false;
  guard = false;
  unlock = false;
  relock = false;
}

abbrev machine : Platform
machine = record {
  maps = [];
  generation = none;
  now = 0;
  cpuid = λ leaf subleaf. registers leaf subleaf 0 0;
  disarmed = true;
  rearmed = true;
}

abbrev code : Memory
code a = if a == 0x400000 then some 0x0f else if a == 0x400001 then some 0xa2 else none

abbrev asking : Context
asking = record {
  rax = set_time;
  rbx = 9;
  rcx = 0x01d9_0000;
  rdx = 0;
  r10 = 0;
  r11 = 0;
  rsp = 0x7000;
  rip = 0x400000;
  eflags = 0x202;
  trapno = 13;
  xmm4 = zero_xmm;
  xmm5 = zero_xmm;
}

abbrev trap : TrapState ℕ
trap = record {
  active = linuwux_runtime.Cpuid.Active.new;
  reflex64_selected = false;
  artifact_selected = false;
  established = false;
  callers = new_callers;
  natives = record { len = 0; keys = λ i. 0; replies = λ i. registers 0 0 0 0 };
  scan_generation = 0;
  scan_milliseconds = 0;
  image = no_image;
  rest = 0;
}

abbrev process : Faulted ℕ
process = record {
  fault = record {
    context = asking;
    memory = code;
    trampolines = record { sites = λ i. 0; targets = λ i. 0 };
  };
  world = record { state = linuwux_runtime.Reflex.State.new; host = trap };
}

abbrev signal : Segv
signal = record { null_frame = false; code = si_kernel }

abbrev after : World (TrapState ℕ)
after = record process.world { host = record trap { rest = 0x01d9_0000_0000_0000 } }

is_cpuid : reads_as code 0x400000 (0x0f ∷ 0xa2 ∷ []) ≡ true
unfolding reads_as read_memory bytes_at
is_cpuid = refl

outside_wine : is_wine_system_rip 0x400000 ≡ false
unfolding is_wine_system_rip
outside_wine = refl

no_identity : is_identity_leaf set_time ≡ false
unfolding is_identity_leaf
no_identity = refl

handled :
    handle_cpuid
      (runtime_host others)
      0
      []
      set_time
      0x01d9_0000
      0
      (note_registration others kernel machine 0 [] code set_time 0x01d9_0000 process.world)
    ≡ some (consumed, after)
unfolding handle_cpuid runtime_host note_registration log_control high_half
    linuwux_runtime.Reflex.Control.cpuid_argument
handled = refl

cpuid_sigsegv_handler-handle_cpuid_example :
    cpuid_sigsegv_handler others kernel machine 0 [] signal process
    ≡ resumed (record {
      fault = record process.fault {
        context = record asking {
          rax = 0;
          rbx = 0;
          rcx = 0;
          rdx = 0;
          rip = (0x400000 + 2) % u64_mod;
        };
      };
      world = after;
    })
cpuid_sigsegv_handler-handle_cpuid_example =
    cpuid_sigsegv_handler-handle_cpuid others kernel machine 0 [] signal process after refl refl
      refl is_cpuid outside_wine no_identity handled
