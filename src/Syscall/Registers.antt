-- ===== src/Syscall/Registers.antt =====
-- The part of a `ucontext_t` that the handlers of runtime/src/syscall read and write. The registers
-- that they leave alone are not here. A 64-bit register is a number below 2^64, and a vector register
-- is its two halves.
use linuwux_runtime.Base.{ℕ, ◌+◌, ◌-◌, ◌%◌, u32_mod}

pub record Xmm : Type 0 where
  pub low : ℕ
  pub high : ℕ

pub record Context : Type 0 where
  pub rax : ℕ
  pub rbx : ℕ
  pub rcx : ℕ
  pub rdx : ℕ
  pub r10 : ℕ
  pub r11 : ℕ
  pub rsp : ℕ
  pub rip : ℕ
  pub eflags : ℕ
  pub trapno : ℕ
  pub xmm4 : Xmm
  pub xmm5 : Xmm

abbrev pub zero_xmm : Xmm
zero_xmm = record { low = 0; high = 0 }

-- `xmm[..4].copy_from_slice(&value.to_le_bytes())` for a u32
abbrev pub with_low_u32 : Xmm → ℕ → Xmm
with_low_u32 x value = record x { low = x.low - x.low % u32_mod + value % u32_mod }
