-- ===== src/CpuidTrap/Handler/Dispatching.antt =====
-- Which part of the program a CPUID instruction reaches.
use linuwux_runtime.Base.{
  ℕ, ◌+◌, ◌%◌, ◌≡◌, refl, ap, ◌∙◌, inl, inr, Option-cases, none, some, Bool, Bool-cases, true,
  false, ◌&&◌, ◌==◌, List, [], ◌∷◌, contains, bytes_eq, length, bytes_eq_sound, as_u32, u64_mod,
  arith,
}
use linuwux_runtime.Memory.{Memory, read_memory, reads_as}
use linuwux_runtime.Cpuid.Identity.{registers, Vendor, unknown, intel, amd, is_wine_system_rip}
use linuwux_runtime.Cpuid.Replies.{artifact_intel_reply, artifact_amd_reply, fixed_reply_leaves}
use linuwux_runtime.Cpuid.Active.{load, fixed_reply_of}
use linuwux_runtime.Reflex.Enums.{consumed}
use linuwux_runtime.Reflex.State.{World, resume_identity_unarmed}
use linuwux_runtime.Reflex.HandleCpuid.{handle_cpuid}
use linuwux_runtime.Syscall.Int2e.{Kernel, Fault, int2e_instruction, skip_int2e_fault}
use linuwux_runtime.CpuidTrap.Caches.{CallerKind, ordinary}
use linuwux_runtime.CpuidTrap.Replies.{
  TrapState, Platform, known, is_identity_leaf, artifact_reply, select_caller_presentation,
  caller_of, chosen_reply, note_leaf, reply_as, fixed_reply,
}
use linuwux_runtime.CpuidTrap.Handler.{
  Others, runtime_host, si_kernel, Segv, Faulted, resumed, note_registration, reflex_leaf,
  reply_leaf, with_reply, answer_cpuid, after_int2e, cpuid_sigsegv_handler,
}

module _ (leaf : ℕ) (other : is_identity_leaf leaf ≡ false) where
  not_identity :
      contains (1 ∷ 0x4000_0000 ∷ 0x4000_0001 ∷ 0x8000_0002 ∷ 0x8000_0003 ∷ 0x8000_0004 ∷ []) leaf
      ≡ false
  unfolding is_identity_leaf
  not_identity = ground (arith, other)

  artifact_reply-none : (v : Vendor) → artifact_reply v leaf ≡ none
  unfolding artifact_reply artifact_intel_reply artifact_amd_reply is_identity_leaf
  artifact_reply-none unknown = refl
  artifact_reply-none intel = ground (arith, other)
  artifact_reply-none amd = ground (arith, other)

  fixed_reply_of-none : (active : ℕ) → fixed_reply_of active leaf ≡ none
  unfolding fixed_reply_of
  fixed_reply_of-none active = (fixed_reply_leaves (load active) leaf).0.1 not_identity

  chosen_reply-none :
      {R : Type 0} (e : Platform) (m : Memory) (t : TrapState R) → chosen_reply e m t leaf ≡ none
  unfolding chosen_reply
  chosen_reply-none e m t =
      let vendor = (load t.active).vendor in
      let none_fixed = fixed_reply_of-none t.active in
      elim (Bool-cases t.artifact_selected) [
        | inl chosen ↦ elim (Bool-cases (known vendor)) [
          | inl is_known ↦
              rw (chosen_reply, chosen, is_known, artifact_reply-none vendor) none_fixed
          | inr other_vendor ↦ rw (chosen_reply, chosen, other_vendor) none_fixed
        ]
        | inr not_chosen ↦ rw (chosen_reply, not_chosen) none_fixed
      ]

  caller_of-ordinary :
      {R : Type 0} (e : Platform) (m : Memory) (rip : ℕ) (t : TrapState R)
      → caller_of e m leaf (some rip) t ≡ (ordinary, t)
  unfolding caller_of select_caller_presentation
  caller_of-ordinary e m rip t = rw (select_caller_presentation, other) refl

  reply_as-none :
      {R : Type 0} (e : Platform) (m : Memory) (unarmed : Bool) (t : TrapState R)
      → reply_as e m unarmed leaf t ≡ some (none, t)
  unfolding reply_as
  reply_as-none e m unarmed t = rw (reply_as, chosen_reply-none e m t) refl

  note_leaf-same :
      {R : Type 0} (e : Platform) (m : Memory) (kind : CallerKind) (t : TrapState R)
      → note_leaf e m leaf kind t ≡ t
  unfolding note_leaf
  note_leaf-same e m kind t = rw (note_leaf, artifact_reply-none (load t.active).vendor) refl

  -- The identity of the process has no reply, and its state stays as it is.
  fixed_reply-none :
      {R : Type 0} (e : Platform) (m : Memory) (unarmed : Bool) (rip : ℕ) (t : TrapState R)
      → fixed_reply e m unarmed leaf (some rip) t ≡ some (none, t)
  unfolding fixed_reply
  fixed_reply-none e m unarmed rip t =
      ap (λ x. reply_as e m unarmed leaf (note_leaf e m leaf x.0 x.1))
        (caller_of-ordinary e m rip t)
      ∙ ap (reply_as e m unarmed leaf) (note_leaf-same e m ordinary t)
      ∙ reply_as-none e m unarmed t

  reply_leaf-reflex_leaf :
      {R : Type 0} (o : Others R) (k : Kernel) (e : Platform) (fuel : ℕ) (weak : List Bool)
      (m : Memory) (rip control payload : ℕ) (w : World (TrapState R))
      → is_wine_system_rip rip ≡ false
      → reply_leaf o k e fuel weak m rip leaf control payload w
        ≡ reflex_leaf o k e fuel weak m leaf control payload w
  unfolding reply_leaf
  reply_leaf-reflex_leaf o k e fuel weak m rip control payload w outside =
      rw (reply_leaf, outside, fixed_reply-none e m (resume_identity_unarmed w.state) rip w.host)
        refl

-- Memory reads as one of two strings of a length.
reads_as-other :
    (m : Memory) (address : ℕ) (xs ys : List ℕ)
    → length xs ≡ length ys
    → bytes_eq xs ys ≡ false
    → reads_as m address xs ≡ true
    → reads_as m address ys ≡ false
unfolding reads_as
reads_as-other m address xs ys same differ here =
    elim (Option-cases (read_memory m address (length ys))) [
      | inl unread ↦ rw (reads_as, unread) refl
      | inr (bytes, read) ↦
          let is_xs : bytes ≡ xs = bytes_eq_sound bytes xs (rw (reads_as, same, read) at here) in
          rw (reads_as, read, is_xs) differ
    ]

-- A `cpuid` instruction is no `int 2e`.
skip_int2e_fault-cpuid :
    (k : Kernel) (f : Fault)
    → reads_as f.memory f.context.rip (0x0f ∷ 0xa2 ∷ []) ≡ true
    → skip_int2e_fault k f ≡ (false, f)
unfolding skip_int2e_fault
skip_int2e_fault-cpuid k f here =
    let no_gate =
      reads_as-other f.memory f.context.rip (0x0f ∷ 0xa2 ∷ []) int2e_instruction refl refl here in
    elim (Bool-cases (f.context.trapno == 13)) [
      | inl fault ↦ rw (skip_int2e_fault, fault, no_gate) refl
      | inr other ↦ rw (skip_int2e_fault, other) refl
    ]

-- A fault of a `cpuid` instruction outside Wine's own code, whose leaf is none of the six that the
-- identity of the process answers, reaches Reflex's state machine with RCX and RDX as they are,
-- after the note of the registration leaf, and with the identity, the caches and the choices
-- of the trap as they were; if the machine consumes the leaf, the signal ends with EAX to EDX zero,
-- RIP behind the instruction, and every other register, the memory and the trampolines unchanged.
pub cpuid_sigsegv_handler-handle_cpuid :
    {R : Type 0} (o : Others R) (k : Kernel) (e : Platform) (fuel : ℕ) (weak : List Bool) (s : Segv)
    (p : Faulted R) (after : World (TrapState R))
    → s.null_frame ≡ false
    → s.code ≡ si_kernel
    → p.fault.context.trapno ≡ 13
    → reads_as p.fault.memory p.fault.context.rip (0x0f ∷ 0xa2 ∷ []) ≡ true
    → is_wine_system_rip p.fault.context.rip ≡ false
    → is_identity_leaf (as_u32 p.fault.context.rax) ≡ false
    → handle_cpuid
        (runtime_host o)
        fuel
        weak
        (as_u32 p.fault.context.rax)
        p.fault.context.rcx
        p.fault.context.rdx
        (note_registration o k e fuel weak p.fault.memory
          (as_u32 p.fault.context.rax)
          p.fault.context.rcx
          p.world)
      ≡ some (consumed, after)
    → cpuid_sigsegv_handler o k e fuel weak s p
      ≡ resumed (record {
        fault = record p.fault {
          context = record p.fault.context {
            rax = 0;
            rbx = 0;
            rcx = 0;
            rdx = 0;
            rip = (p.fault.context.rip + 2) % u64_mod;
          };
        };
        world = after;
      })
unfolding cpuid_sigsegv_handler after_int2e answer_cpuid with_reply reflex_leaf
cpuid_sigsegv_handler-handle_cpuid o k e fuel weak s p after framed code trap here outside other
      handled =
    let c = p.fault.context in
    let leaf = as_u32 c.rax in
    let noted = note_registration o k e fuel weak p.fault.memory leaf c.rcx p.world in
    let is_cpuid : (c.trapno == 13) && (s.code == si_kernel) ≡ true = ground (arith, trap, code) in
    let replied : reply_leaf o k e fuel weak p.fault.memory c.rip leaf c.rcx c.rdx noted
        ≡ some (registers 0 0 0 0, after) =
      reply_leaf-reflex_leaf leaf other o k e fuel weak p.fault.memory c.rip c.rcx c.rdx noted
        outside
      ∙ rw (reflex_leaf, handled) refl in
    let skipped = skip_int2e_fault-cpuid k p.fault here in
    let looked : cpuid_sigsegv_handler o k e fuel weak s p ≡ answer_cpuid o k e fuel weak p =
      rw (cpuid_sigsegv_handler, framed)
        (ap (after_int2e o k e fuel weak s p) skipped ∙ rw (after_int2e, is_cpuid, here) refl) in
    looked ∙ rw (answer_cpuid, replied) refl
