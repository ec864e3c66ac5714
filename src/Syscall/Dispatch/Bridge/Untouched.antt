-- ===== src/Syscall/Dispatch/Bridge/Untouched.antt =====
-- The bridge writes nothing at or above the stack pointer of its entry.
use linuwux_runtime.Base.{
  ℕ, ◌+◌, ◌-◌, ◌≡◌, refl, sym, subst, ◌∙◌, Bool, true, false, ◌&&◌, List, [], ◌∷◌, ltb, arith,
}
use linuwux_runtime.Syscall.Dispatch.Bridge.{
  Machine, Instruction, lea_down, store_xmm, load_xmm, pushfq, popfq, push, push_stored,
  mov_rbx_rsp, mov_rsp_rbx, load_frame, lea_frame, load, store, write, get, execute, execute_all,
}

-- The stack pointer behind an instruction that does not set it from a register.
abbrev pub sp_after : Instruction → ℕ → ℕ
sp_after (lea_down n) sp = sp - n
sp_after (store_xmm offset i) sp = sp
sp_after (load_xmm i offset) sp = sp
sp_after pushfq sp = sp - 8
sp_after popfq sp = sp + 8
sp_after (push r) sp = sp - 8
sp_after (push_stored offset) sp = sp - 8
sp_after mov_rbx_rsp sp = sp
sp_after mov_rsp_rbx sp = sp
sp_after (load_frame r offset) sp = sp
sp_after (lea_frame r offset) sp = sp
sp_after (load r offset) sp = sp
sp_after (store offset r) sp = sp

-- Whether an instruction writes below the entry only.
abbrev pub stays_below : Instruction → ℕ → Bool
stays_below (lea_down n) sp = true
stays_below (store_xmm offset i) sp = ltb (sp + offset + 8) 0x190
stays_below (load_xmm i offset) sp = true
stays_below pushfq sp = ltb (sp - 8) 0x190
stays_below popfq sp = true
stays_below (push r) sp = ltb (sp - 8) 0x190
stays_below (push_stored offset) sp = ltb (sp - 8) 0x190
stays_below mov_rbx_rsp sp = true
stays_below mov_rsp_rbx sp = false
stays_below (load_frame r offset) sp = true
stays_below (lea_frame r offset) sp = true
stays_below (load r offset) sp = true
stays_below (store offset r) sp = ltb (sp + offset) 0x190

abbrev pub all_below : List Instruction → ℕ → Bool
all_below [] sp = true
all_below (i ∷ is) sp = stays_below i sp && all_below is (sp_after i sp)

pub write_below :
    (offset v : ℕ) (memory : ℕ → ℕ) (k : ℕ)
    → ltb offset 0x190 ≡ true
    → write offset v memory (0x190 + k) ≡ memory (0x190 + k)
write_below offset v memory k below = ground (arith, below)

module _ (bottom : ℕ) where
  execute_sp :
      (i : Instruction) (s : Machine)
      → stays_below i s.sp ≡ true
      → (execute bottom i s).sp ≡ sp_after i s.sp
  unfolding execute
  execute_sp (lea_down n) s below = refl
  execute_sp (store_xmm offset i) s below = refl
  execute_sp (load_xmm i offset) s below = refl
  execute_sp pushfq s below = refl
  execute_sp popfq s below = refl
  execute_sp (push r) s below = refl
  execute_sp (push_stored offset) s below = refl
  execute_sp mov_rbx_rsp s below = refl
  execute_sp mov_rsp_rbx s below = absurd (ground (arith, below))
  execute_sp (load_frame r offset) s below = refl
  execute_sp (lea_frame r offset) s below = refl
  execute_sp (load r offset) s below = refl
  execute_sp (store offset r) s below = refl

  execute_untouched :
      (i : Instruction) (s : Machine) (k : ℕ)
      → stays_below i s.sp ≡ true
      → (execute bottom i s).memory (0x190 + k) ≡ s.memory (0x190 + k)
  unfolding execute
  execute_untouched (lea_down n) s k below = refl
  execute_untouched (store_xmm offset i) s k below =
      let high = write (s.sp + offset + 8) (s.xmm i).high s.memory in
      write_below (s.sp + offset) (s.xmm i).low high k (ground (arith, below))
      ∙ write_below (s.sp + offset + 8) (s.xmm i).high s.memory k below
  execute_untouched (load_xmm i offset) s k below = refl
  execute_untouched pushfq s k below = write_below (s.sp - 8) s.flags s.memory k below
  execute_untouched popfq s k below = refl
  execute_untouched (push r) s k below = write_below (s.sp - 8) (get r s.gpr) s.memory k below
  execute_untouched (push_stored offset) s k below =
      write_below (s.sp - 8) (s.memory (s.sp + offset)) s.memory k below
  execute_untouched mov_rbx_rsp s k below = refl
  execute_untouched mov_rsp_rbx s k below = absurd (ground (arith, below))
  execute_untouched (load_frame r offset) s k below = refl
  execute_untouched (lea_frame r offset) s k below = refl
  execute_untouched (load r offset) s k below = refl
  execute_untouched (store offset r) s k below =
      write_below (s.sp + offset) (get r s.gpr) s.memory k below

  -- Instructions that pass the test leave the caller's stack as it was.
  pub execute_all_untouched :
      (is : List Instruction) (s : Machine) (k : ℕ)
      → all_below is s.sp ≡ true
      → (execute_all bottom is s).memory (0x190 + k) ≡ s.memory (0x190 + k)
  unfolding execute_all
  execute_all_untouched [] s k below = refl
  execute_all_untouched (i ∷ is) s k below =
      let first : stays_below i s.sp ≡ true = ground (arith, below) in
      let others : all_below is (sp_after i s.sp) ≡ true = ground (arith, below) in
      execute_all_untouched is (execute bottom i s) k
        (subst (λ sp. all_below is sp ≡ true) (sym (execute_sp i s first)) others)
      ∙ execute_untouched i s k first
