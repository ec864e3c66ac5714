-- ===== src/Syscall/Dispatch/Bridge.antt =====
-- runtime/src/syscall/kuser_dispatch.rs: the naked bridge, instruction by instruction, on the part of the
-- machine that it uses. Addresses on the caller's stack count from 0x190 bytes below the stack pointer at
-- the entry, so that they are numbers; `bottom` is the address of offset 0. What the selector answers and
-- what it does to the registers is an argument, and the lock of its private stack is taken to be free.
pub mod Untouched
pub mod Lands
pub mod Handed
use linuwux_runtime.Base.{
  ℕ, ◌+◌, ◌-◌, ◌*◌, ◌/◌, ◌%◌, ◌^◌, ◌==◌, Bool, List, [], ◌∷◌, ◌++◌, leb, if◌then◌else◌, set_bit,
  clear_bit,
}
use linuwux_runtime.Syscall.Registers.{Xmm}

-- The general registers, less the stack pointer.
pub record Gpr : Type 0 where
  pub rax : ℕ
  pub rbx : ℕ
  pub rcx : ℕ
  pub rdx : ℕ
  pub rsi : ℕ
  pub rdi : ℕ
  pub rbp : ℕ
  pub r8 : ℕ
  pub r9 : ℕ
  pub r10 : ℕ
  pub r11 : ℕ
  pub r12 : ℕ
  pub r13 : ℕ
  pub r14 : ℕ
  pub r15 : ℕ

pub data Register : Type 0 where
  ax : Register
  bx : Register
  cx : Register
  dx : Register
  si : Register
  di : Register
  bp : Register
  x8 : Register
  x9 : Register
  x10 : Register
  x11 : Register
  x12 : Register
  x13 : Register
  x14 : Register
  x15 : Register

abbrev pub get : Register → Gpr → ℕ
get ax g = g.rax
get bx g = g.rbx
get cx g = g.rcx
get dx g = g.rdx
get si g = g.rsi
get di g = g.rdi
get bp g = g.rbp
get x8 g = g.r8
get x9 g = g.r9
get x10 g = g.r10
get x11 g = g.r11
get x12 g = g.r12
get x13 g = g.r13
get x14 g = g.r14
get x15 g = g.r15

abbrev pub put : Register → ℕ → Gpr → Gpr
put ax v g = record g { rax = v }
put bx v g = record g { rbx = v }
put cx v g = record g { rcx = v }
put dx v g = record g { rdx = v }
put si v g = record g { rsi = v }
put di v g = record g { rdi = v }
put bp v g = record g { rbp = v }
put x8 v g = record g { r8 = v }
put x9 v g = record g { r9 = v }
put x10 v g = record g { r10 = v }
put x11 v g = record g { r11 = v }
put x12 v g = record g { r12 = v }
put x13 v g = record g { r13 = v }
put x14 v g = record g { r14 = v }
put x15 v g = record g { r15 = v }

-- `sp` and the addresses of `memory` are offsets; `memory` holds 8 bytes at each.
pub record Machine : Type 0 where
  pub gpr : Gpr
  pub xmm : ℕ → Xmm
  pub flags : ℕ
  pub sp : ℕ
  pub memory : ℕ → ℕ

pub data Instruction : Type 0 where
  lea_down : (n : ℕ) → Instruction  -- lea rsp, [rsp - n]
  store_xmm : (offset i : ℕ) → Instruction  -- movdqu [rsp + offset], xmm
  load_xmm : (i offset : ℕ) → Instruction  -- movdqu xmm, [rsp + offset]
  pushfq : Instruction
  popfq : Instruction
  push : (r : Register) → Instruction
  push_stored : (offset : ℕ) → Instruction  -- push qword ptr [rsp + offset]
  mov_rbx_rsp : Instruction
  mov_rsp_rbx : Instruction
  load_frame : (r : Register) (offset : ℕ) → Instruction  -- mov r, [rbx + offset]
  lea_frame : (r : Register) (offset : ℕ) → Instruction  -- lea r, [rbx + offset]
  load : (r : Register) (offset : ℕ) → Instruction  -- mov r, [rsp + offset]
  store : (offset : ℕ) (r : Register) → Instruction  -- mov [rsp + offset], r

abbrev pub write : ℕ → ℕ → (ℕ → ℕ) → ℕ → ℕ
write offset v memory o = if offset == o then v else memory o

abbrev pub set_xmm : ℕ → Xmm → (ℕ → Xmm) → ℕ → Xmm
set_xmm i x xmm j = if i == j then x else xmm j

abbrev pub pushed : ℕ → Machine → Machine
pushed v s = record s { sp = s.sp - 8; memory = write (s.sp - 8) v s.memory }

unfoldable pub execute : (bottom : ℕ) → Instruction → Machine → Machine
execute bottom (lea_down n) s = record s { sp = s.sp - n }
execute bottom (store_xmm offset i) s = record s {
  memory = write (s.sp + offset) (s.xmm i).low (write (s.sp + offset + 8) (s.xmm i).high s.memory);
}
execute bottom (load_xmm i offset) s = record s {
  xmm =
      set_xmm i (record { low = s.memory (s.sp + offset); high = s.memory (s.sp + offset + 8) })
        s.xmm;
}
execute bottom pushfq s = pushed s.flags s
execute bottom popfq s = record s { sp = s.sp + 8; flags = s.memory s.sp }
execute bottom (push r) s = pushed (get r s.gpr) s
execute bottom (push_stored offset) s = pushed (s.memory (s.sp + offset)) s
execute bottom mov_rbx_rsp s = record s { gpr = put bx (bottom + s.sp) s.gpr }
execute bottom mov_rsp_rbx s = record s { sp = s.gpr.rbx - bottom }
execute bottom (load_frame r offset) s = record s {
  gpr = put r (s.memory (s.gpr.rbx - bottom + offset)) s.gpr;
}
execute bottom (lea_frame r offset) s = record s { gpr = put r (s.gpr.rbx + offset) s.gpr }
execute bottom (load r offset) s = record s { gpr = put r (s.memory (s.sp + offset)) s.gpr }
execute bottom (store offset r) s = record s {
  memory = write (s.sp + offset) (get r s.gpr) s.memory;
}

unfoldable pub execute_all : ℕ → List Instruction → Machine → Machine
execute_all bottom [] s = s
execute_all bottom (i ∷ is) s = execute_all bottom is (execute bottom i s)

-- Up to `mov rbx, rsp`.
abbrev pub save : List Instruction
save =
    lea_down 0x108
    ∷ store_xmm 0x00 0
    ∷ store_xmm 0x10 1
    ∷ store_xmm 0x20 2
    ∷ store_xmm 0x30 3
    ∷ store_xmm 0x40 4
    ∷ store_xmm 0x50 5
    ∷ store_xmm 0x60 6
    ∷ store_xmm 0x70 7
    ∷ store_xmm 0x80 8
    ∷ store_xmm 0x90 9
    ∷ store_xmm 0xa0 10
    ∷ store_xmm 0xb0 11
    ∷ store_xmm 0xc0 12
    ∷ store_xmm 0xd0 13
    ∷ store_xmm 0xe0 14
    ∷ store_xmm 0xf0 15
    ∷ pushfq
    ∷ push ax
    ∷ push bx
    ∷ push cx
    ∷ push dx
    ∷ push si
    ∷ push di
    ∷ push bp
    ∷ push x8
    ∷ push x9
    ∷ push x10
    ∷ push x11
    ∷ push x12
    ∷ push x13
    ∷ push x14
    ∷ push x15
    ∷ mov_rbx_rsp
    ∷ []

-- The arguments of the selector.
abbrev pub arguments : List Instruction
arguments =
    load_frame di 0x188
    ∷ lea_frame x9 0x188
    ∷ load_frame si 0x70
    ∷ load_frame dx 0x28
    ∷ load_frame cx 0x60
    ∷ load_frame x8 0xd0
    ∷ []

-- From behind `mov rsp, rbx` to the last `movdqu`.
abbrev pub restore : List Instruction
restore =
    store 0x180 ax
    ∷ load x15 0x00
    ∷ load x14 0x08
    ∷ load x13 0x10
    ∷ load x12 0x18
    ∷ load x11 0x20
    ∷ load x10 0x28
    ∷ load x9 0x30
    ∷ load x8 0x38
    ∷ load bp 0x40
    ∷ load di 0x48
    ∷ load si 0x50
    ∷ load dx 0x58
    ∷ load cx 0x60
    ∷ load bx 0x68
    ∷ load ax 0x70
    ∷ push_stored 0x78
    ∷ popfq
    ∷ load_xmm 0 0x80
    ∷ load_xmm 1 0x90
    ∷ load_xmm 2 0xa0
    ∷ load_xmm 3 0xb0
    ∷ load_xmm 4 0xc0
    ∷ load_xmm 5 0xd0
    ∷ load_xmm 6 0xe0
    ∷ load_xmm 7 0xf0
    ∷ load_xmm 8 0x100
    ∷ load_xmm 9 0x110
    ∷ load_xmm 10 0x120
    ∷ load_xmm 11 0x130
    ∷ load_xmm 12 0x140
    ∷ load_xmm 13 0x150
    ∷ load_xmm 14 0x160
    ∷ load_xmm 15 0x170
    ∷ []

abbrev pub bridge_stack_slots : ℕ
bridge_stack_slots = 1024

abbrev pub bridge_stack_size : ℕ
bridge_stack_size = 2 ^ 15

-- The private stack of a thread, in an array at `stacks`; its stack pointer is behind its end.
unfoldable pub bridge_stack : ℕ → ℕ → ℕ
bridge_stack stacks thread_id = stacks + thread_id / 2 ^ 2 % bridge_stack_slots * bridge_stack_size

-- The six arguments in their registers.
pub record Arguments : Type 0 where
  pub return_address : ℕ
  pub service : ℕ
  pub r10 : ℕ
  pub process_handle : ℕ
  pub xmm5 : ℕ
  pub entry_rsp : ℕ

abbrev pub arguments_of : Gpr → Arguments
arguments_of g = record {
  return_address = g.rdi;
  service = g.rsi;
  r10 = g.rdx;
  process_handle = g.rcx;
  xmm5 = g.r8;
  entry_rsp = g.r9;
}

-- The selector: its answer, and what it leaves in the other registers.
pub record Selector : Type 0 where
  pub answer : Arguments → ℕ
  pub gpr_after : Gpr → Gpr
  pub xmm_after : (ℕ → Xmm) → ℕ → Xmm
  pub flags_after : ℕ → ℕ

-- The call on the private stack at `stack`, which `r15` holds; it writes nothing to the caller's one.
unfoldable pub call_selector : Selector → ℕ → Machine → Machine
call_selector c stack s = record s {
  gpr = put ax (c.answer (arguments_of s.gpr)) (c.gpr_after (put x15 stack s.gpr));
  xmm = c.xmm_after s.xmm;
  flags = c.flags_after s.flags;
}

-- Where the bridge jumps, and with what.
pub record Landing : Type 0 where
  pub rip : ℕ
  pub sp : ℕ
  pub gpr : Gpr
  pub xmm : ℕ → Xmm
  pub flags : ℕ
  pub memory : ℕ → ℕ

-- `btr` and the two masks, on the answer and the saved flags.
abbrev pub untag : Machine → Machine
untag s = record s {
  memory = write (s.sp + 0x180) (s.memory (s.sp + 0x180) - 2 ^ 63) (
      write (s.sp + 0x78)
        (set_bit 6 (set_bit 2 (clear_bit 11 (clear_bit 7 (clear_bit 0 (s.memory (s.sp + 0x78)))))))
        s.memory);
}

-- `lea rsp, [rsp + up]` and the jump through the word of the answer, with the flags from their word.
unfoldable pub leave : ℕ → ℕ → Machine → Landing
leave bottom up s =
    let popped = execute_all bottom (push_stored 0x78 ∷ popfq ∷ []) s in
    record {
      rip = popped.memory (popped.sp + 0x180);
      sp = popped.sp + up;
      gpr = popped.gpr;
      xmm = popped.xmm;
      flags = popped.flags;
      memory = popped.memory;
    }

-- The two exits.
unfoldable pub land : ℕ → Machine → Landing
land bottom s =
    if leb (2 ^ 63) (s.memory (s.sp + 0x180))
    then leave bottom 0x190 (untag s)
    else leave bottom 0x188 s

-- Behind the return of the selector.
unfoldable pub resume : ℕ → Machine → Landing
resume bottom s = land bottom (execute_all bottom restore s)

-- At the entry, `sp` is 0x190 by the choice of the offsets.
unfoldable pub dispatcher_bridge : ℕ → Selector → ℕ → ℕ → Machine → Landing
dispatcher_bridge bottom c stacks thread_id s =
    let entered = execute_all bottom (save ++ arguments) (record s { sp = 0x190 }) in
    let called = call_selector c (bridge_stack stacks thread_id) entered in
    resume bottom (execute bottom mov_rsp_rbx called)
