-- ===== src/Syscall/Dispatch/Bridge/Lands.antt =====
-- What the bridge leaves of the caller's registers, and where it lands.
use linuwux_runtime.Base.{
  ℕ, ◌+◌, ◌-◌, ◌^◌, ◌≡◌, refl, ap, sym, subst, ◌∙◌, true, false, List, [], ◌∷◌, ◌++◌, leb,
  if◌then◌else◌, Bool-cases, inl, inr, arith,
}
use linuwux_runtime.Syscall.Registers.{Xmm}
use linuwux_runtime.Syscall.Int2e.{direct_path_eflags}
use linuwux_runtime.Syscall.Dispatch.Bridge.{
  put, ax, x15, push_stored, popfq, restore, untag, Gpr, Machine, Selector, Arguments, arguments_of,
  Landing, execute, execute_all, save, arguments, resume, call_selector, bridge_stack, leave, land,
  dispatcher_bridge,
}
use linuwux_runtime.Syscall.Dispatch.Bridge.Untouched.{execute_all_untouched}

-- What the calling convention says of the selector.
pub record Convention (c : Selector) : Type 0 where
  pub keeps_rbx : (g : Gpr) → (c.gpr_after g).rbx ≡ g.rbx

-- The sixteen vector registers.
abbrev pub vectors : (ℕ → Xmm) → List Xmm
vectors xmm =
    xmm 0
    ∷ xmm 1
    ∷ xmm 2
    ∷ xmm 3
    ∷ xmm 4
    ∷ xmm 5
    ∷ xmm 6
    ∷ xmm 7
    ∷ xmm 8
    ∷ xmm 9
    ∷ xmm 10
    ∷ xmm 11
    ∷ xmm 12
    ∷ xmm 13
    ∷ xmm 14
    ∷ xmm 15
    ∷ []

back : (bottom : ℕ) → bottom + 8 - bottom ≡ 8
back bottom = omega arith

-- The machine when the selector is called.
unfoldable entered : ℕ → Machine → Machine
entered bottom s = execute_all bottom (save ++ arguments) (record s { sp = 0x190 })

entered-rbx : (bottom : ℕ) (s : Machine) → (entered bottom s).gpr.rbx ≡ bottom + 8
unfolding entered execute_all execute
entered-rbx bottom s = refl

-- The arguments of the selector: the return address, what the stub has in three registers and the low half
-- of xmm5, and the address of the return address.
abbrev pub given : ℕ → Machine → Arguments
given entry_rsp s = record {
  return_address = s.memory 0x190;
  service = s.gpr.rax;
  r10 = s.gpr.r10;
  process_handle = s.gpr.rcx;
  xmm5 = (s.xmm 5).low;
  entry_rsp = entry_rsp;
}

arguments_of-entered :
    (bottom : ℕ) (s : Machine) → arguments_of (entered bottom s).gpr ≡ given (bottom + 0x190) s
unfolding entered execute_all execute
arguments_of-entered bottom s =
    let sum : bottom + 8 + 392 ≡ bottom + 0x190 = omega arith in
    rw (back bottom) (ap (λ (e : ℕ). given e s) sum)

-- The machine behind the return of the selector and `mov rsp, rbx`.
abbrev returned : ℕ → Machine → Gpr → (ℕ → Xmm) → ℕ → ℕ → Machine
returned bottom s g xmm flags sp = record {
  gpr = g;
  xmm = xmm;
  flags = flags;
  sp = sp;
  memory = (entered bottom s).memory;
}

-- All registers of the caller are as they were.
abbrev pub Restored : Landing → Machine → Type 0
Restored l s = (l.gpr ≡ s.gpr) × (vectors l.xmm ≡ vectors s.xmm)

-- And the caller's stack, from the return address on.
abbrev pub Untouched : Landing → Machine → Type 0
Untouched l s = (k : ℕ) → l.memory (0x190 + k) ≡ s.memory (0x190 + k)

entered-memory :
    (bottom : ℕ) (s : Machine) (k : ℕ)
    → (entered bottom s).memory (0x190 + k) ≡ s.memory (0x190 + k)
unfolding entered
entered-memory bottom s k =
    execute_all_untouched bottom (save ++ arguments) (record s { sp = 0x190 }) k refl

leave-memory :
    (bottom up : ℕ) (s : Machine) (k : ℕ)
    → s.sp ≡ 8
    → (leave bottom up s).memory (0x190 + k) ≡ s.memory (0x190 + k)
unfolding leave
leave-memory bottom up s k at_frame =
    execute_all_untouched bottom (push_stored 0x78 ∷ popfq ∷ []) s k (rw (at_frame) refl)

untag-memory :
    (s : Machine) (k : ℕ) → s.sp ≡ 8 → (untag s).memory (0x190 + k) ≡ s.memory (0x190 + k)
untag-memory s k at_frame = ground (arith, at_frame)

land-memory :
    (bottom : ℕ) (s : Machine) (k : ℕ)
    → s.sp ≡ 8
    → (land bottom s).memory (0x190 + k) ≡ s.memory (0x190 + k)
unfolding land
land-memory bottom s k at_frame = elim (Bool-cases (leb (2 ^ 63) (s.memory (s.sp + 0x180)))) [
  | inl tagged ↦
      rw (tagged) (leave-memory bottom 0x190 (untag s) k at_frame ∙ untag-memory s k at_frame)
  | inr ordinary ↦ rw (ordinary) (leave-memory bottom 0x188 s k at_frame)
]

restored_sp :
    (bottom : ℕ) (s : Machine) (g : Gpr) (xmm : ℕ → Xmm) (flags : ℕ)
    → (execute_all bottom restore (returned bottom s g xmm flags 8)).sp ≡ 8
unfolding execute_all execute
restored_sp bottom s g xmm flags = refl

resume-Untouched :
    (bottom : ℕ) (s : Machine) (g : Gpr) (xmm : ℕ → Xmm) (flags : ℕ)
    → Untouched (resume bottom (returned bottom s g xmm flags 8)) s
unfolding resume
resume-Untouched bottom s g xmm flags k =
    let before = returned bottom s g xmm flags 8 in
    land-memory bottom (execute_all bottom restore before) k (restored_sp bottom s g xmm flags)
    ∙ execute_all_untouched bottom restore before k refl
    ∙ entered-memory bottom s k

resume_ordinary :
    (bottom : ℕ) (s : Machine) (g : Gpr) (xmm : ℕ → Xmm) (flags : ℕ)
    → leb (2 ^ 63) g.rax ≡ false
    → let l = resume bottom (returned bottom s g xmm flags 8) in
      Restored l s × (l.rip ≡ g.rax) × (l.sp ≡ 0x190) × (l.flags ≡ s.flags)
unfolding resume land leave entered execute_all execute
resume_ordinary bottom s g xmm flags e = rw (e) ((refl, refl), refl, refl, refl)

resume_tagged :
    (bottom : ℕ) (s : Machine) (g : Gpr) (xmm : ℕ → Xmm) (flags : ℕ)
    → leb (2 ^ 63) g.rax ≡ true
    → let l = resume bottom (returned bottom s g xmm flags 8) in
      Restored l s
      × (l.rip ≡ g.rax - 2 ^ 63)
      × (l.sp ≡ 0x190 + 8)
      × (l.flags ≡ direct_path_eflags s.flags)
unfolding resume land leave entered execute_all execute direct_path_eflags
resume_tagged bottom s g xmm flags e = rw (e) ((refl, refl), refl, refl, refl)

-- The answer of the selector, taken by the two exits.
abbrev pub Lands : Landing → Machine → ℕ → Type 0
Lands l s target =
    Restored l s
    × Untouched l s
    × (l.rip ≡ (if leb (2 ^ 63) target then target - 2 ^ 63 else target))
    × (l.sp ≡ (if leb (2 ^ 63) target then 0x190 + 8 else 0x190))
    × (l.flags ≡ (if leb (2 ^ 63) target then direct_path_eflags s.flags else s.flags))

resume-Lands :
    (bottom : ℕ) (s : Machine) (g : Gpr) (xmm : ℕ → Xmm) (flags : ℕ)
    → Lands (resume bottom (returned bottom s g xmm flags 8)) s g.rax
resume-Lands bottom s g xmm flags =
    let below = resume-Untouched bottom s g xmm flags in
    elim (Bool-cases (leb (2 ^ 63) g.rax)) [
      | inl tagged ↦
          (let t = resume_tagged bottom s g xmm flags tagged in
            rw (tagged) (t.0, below, t.1, t.2, t.3))
      | inr ordinary ↦
          (let t = resume_ordinary bottom s g xmm flags ordinary in
            rw (ordinary) (t.0, below, t.1, t.2, t.3))
    ]

-- The bridge asks the selector about the registers and the return address of the caller. All general and
-- vector registers, and the stack from the return address on, are as at the entry when it jumps, whatever
-- the selector does to the registers that its calling convention does not keep. An answer without the tag
-- is jumped to with the stack pointer and the flags of the entry; with the tag, the rest of it is, one
-- word further up the stack, with the flags of the path that a stub takes to its own syscall.
pub dispatcher_bridge-Lands :
    (bottom : ℕ) (c : Selector) (stacks thread_id : ℕ) (s : Machine)
    → Convention c
    → Lands (dispatcher_bridge bottom c stacks thread_id s) s (c.answer (given (bottom + 0x190) s))
unfolding dispatcher_bridge call_selector entered execute
dispatcher_bridge-Lands bottom c stacks thread_id s convention =
    let g = (entered bottom s).gpr in
    let in_call = put x15 (bridge_stack stacks thread_id) g in
    let g' = put ax (c.answer (arguments_of g)) (c.gpr_after in_call) in
    let xmm' = c.xmm_after (entered bottom s).xmm in
    let flags' = c.flags_after (entered bottom s).flags in
    let frame : g'.rbx - bottom ≡ 8 =
      ap (λ (r : ℕ). r - bottom) (convention.keeps_rbx in_call ∙ entered-rbx bottom s)
      ∙ back bottom in
    let answer = ap c.answer (arguments_of-entered bottom s) in
    subst
      (λ k.
        Lands (resume bottom (returned bottom s g' xmm' flags' k)) s
          (c.answer (given (bottom + 0x190) s)))
      (sym frame)
      (subst (λ t. Lands (resume bottom (returned bottom s g' xmm' flags' 8)) s t) answer
        (resume-Lands bottom s g' xmm' flags'))
