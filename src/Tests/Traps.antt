-- ===== src/Tests/Traps.antt =====
-- The two kinds of SIGSEGV at concrete inputs.
use linuwux_runtime.Base.{
  ℕ, ◌≡◌, refl, ◌+◌, ◌-◌, true, false, none, some, List, [], ◌∷◌, ◌++◌, ltb, if◌then◌else◌,
  get_elem?, length, arith,
}
use linuwux_runtime.Memory.{Memory, bytes_at}
use linuwux_runtime.PeStub.Thunks.{
  is_syscall_thunk_head, rewrite_syscall_thunk_tails, rewrite_from, thunk_branch, thunk_head,
}
use linuwux_runtime.Syscall.Registers.{Context, zero_xmm}
use linuwux_runtime.Syscall.Int2e.{Kernel, Fault, direct_path_eflags, skip_int2e_fault}
use linuwux_runtime.Syscall.Int2e.Thunk.{skip_int2e_fault-rewrite_syscall_thunk_tails}

-- A thunk of service 0x18 whose tail is Wine's.
abbrev thunk : List ℕ
thunk =
    thunk_head
    ++ (0x18 ∷ 0 ∷ 0 ∷ 0 ∷ [])
    ++ thunk_branch
    ++ (0x90 ∷ 0x90 ∷ 0x90 ∷ 0x90 ∷ 0x90 ∷ 0x90 ∷ 0x90 ∷ 0x90 ∷ 0x90 ∷ 0x90 ∷ 0x90 ∷ [])

abbrev rewritten : List ℕ
rewritten = (rewrite_syscall_thunk_tails thunk).buffer

abbrev loaded : Memory
loaded a = if ltb a 0x1000 then none else get_elem? rewritten (a - 0x1000)

is_head : is_syscall_thunk_head thunk ≡ true
unfolding is_syscall_thunk_head
is_head = refl

is_loaded : bytes_at loaded 0x1000 (length thunk) ≡ some rewritten
unfolding bytes_at rewrite_syscall_thunk_tails rewrite_from is_syscall_thunk_head
is_loaded = refl

abbrev kernel : Kernel
kernel = record {
  maps = [];
  mmap = none;
  executable = false;
  guard = false;
  unlock = false;
  relock = false;
}

abbrev at_gate : Context
at_gate = record {
  rax = 0x18;
  rbx = 0;
  rcx = 0;
  rdx = 0;
  r10 = 0;
  r11 = 0;
  rsp = 0x7000;
  rip = 0x1015;
  eflags = 0x8c1;
  trapno = 13;
  xmm4 = zero_xmm;
  xmm5 = zero_xmm;
}

abbrev fault : Fault
fault = record {
  context = at_gate;
  memory = loaded;
  trampolines = record { sites = λ i. 0; targets = λ i. 0 };
}

-- The flags of the test of a zero byte.
flags : direct_path_eflags 0x8c1 ≡ 0x44
unfolding direct_path_eflags
flags = refl

skip_int2e_fault-rewrite_syscall_thunk_tails_example : skip_int2e_fault kernel fault ≡ (
  true,
  record fault {
    context = record at_gate { eflags = direct_path_eflags 0x8c1; rip = 0x1000 + 0x12 };
  },
)
skip_int2e_fault-rewrite_syscall_thunk_tails_example =
    skip_int2e_fault-rewrite_syscall_thunk_tails kernel fault thunk 0x1000 is_head (ground arith)
      is_loaded refl refl
