-- ===== src/Tests/Bridging.antt =====
-- The bridge and its installation at concrete inputs.
use linuwux_runtime.Base.{◌+◌, ◌^◌, ◌≡◌, refl, Bool, true, false, List, [], ◌∷◌, arith}
use linuwux_runtime.Syscall.Registers.{zero_xmm}
use linuwux_runtime.Syscall.Dispatch.Bridge.{
  Gpr, Machine, Selector, execute, execute_all, call_selector, bridge_stack, leave, land, resume,
  dispatcher_bridge,
}
use linuwux_runtime.Syscall.Dispatch.Bridge.Lands.{
  Convention, Lands, given, dispatcher_bridge-Lands,
}
use linuwux_runtime.Syscall.Dispatch.Install.{protect, swap_slot, close_page, open_page, install}
use linuwux_runtime.Syscall.Dispatch.Install.Wired.{
  unfilled, Event, fills, installs, happens, happen, Wired, happen-Wired,
}

abbrev registers : Gpr
registers = record {
  rax = 10;
  rbx = 11;
  rcx = 12;
  rdx = 13;
  rsi = 14;
  rdi = 15;
  rbp = 16;
  r8 = 17;
  r9 = 18;
  r10 = 19;
  r11 = 20;
  r12 = 21;
  r13 = 22;
  r14 = 23;
  r15 = 24;
}

abbrev machine : Machine
machine = record {
  gpr = registers;
  xmm = λ i. record { low = i; high = 100 };
  flags = 0x881;
  sp = 0x190;
  memory = λ o. 0x5000;
}

-- The registers that it need not keep are lost, and the answer is a tagged address.
abbrev selector : Selector
selector = record {
  answer = λ a. 2 ^ 63 + a.return_address;
  gpr_after =
      λ g. record g { rcx = 0; rdx = 0; rsi = 0; rdi = 0; r8 = 0; r9 = 0; r10 = 0; r11 = 0 };
  xmm_after = λ xmm i. zero_xmm;
  flags_after = λ flags. 0;
}

selector-Convention : Convention selector
selector-Convention = record { keeps_rbx = λ g. refl }

dispatcher_bridge-Lands_example :
    Lands
      (dispatcher_bridge 0x7000 selector 0x10000 8 machine)
      machine
      (selector.answer (given (0x7000 + 0x190) machine))
dispatcher_bridge-Lands_example =
    dispatcher_bridge-Lands 0x7000 selector 0x10000 8 machine selector-Convention

-- CF, SF and OF are cleared, and PF and ZF set.
tagged_flags : (dispatcher_bridge 0x7000 selector 0x10000 8 machine).flags ≡ 0x44
unfolding dispatcher_bridge execute execute_all call_selector resume land leave
tagged_flags = refl

second_stack : bridge_stack 0x10000 8 ≡ 0x20000
unfolding bridge_stack
second_stack = refl

-- Before Wine has filled the slot, then with a page that cannot be closed, then once more.
abbrev events : List Event
events = installs true ∷ fills 0x9000 ∷ installs true ∷ installs true ∷ []

abbrev answers : List Bool
answers = true ∷ true ∷ true ∷ false ∷ []

installed_late :
    happen 0x4000 events (unfilled answers)
    ≡ record { installed = true; original = 0x9000; slot = 0x4000; writable = false; answers = [] }
unfolding happen happens install protect open_page swap_slot close_page
installed_late = refl

happen-Wired_example : Wired 0x4000 (happen 0x4000 events (unfilled answers))
happen-Wired_example = happen-Wired 0x4000 events answers (λ e. omega arith) (λ e. omega arith, tt)
