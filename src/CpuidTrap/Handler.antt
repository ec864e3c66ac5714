-- ===== src/CpuidTrap/Handler.antt =====
-- `cpuid_sigsegv_handler` of runtime/src/cpuid.rs, with the `int 2e` that it tries first, and
-- the runtime's `Host` of runtime/src/reflex.rs, which the control leaves are handled by. The other
-- sides of that host (the clock, the KUSER page, the registry) are arguments.
pub mod Dispatching
use Prim.Native.String.{String}
use linuwux_runtime.Base.{
  ℕ, ◌+◌, ◌%◌, Bool, true, false, not, ◌&&◌, ◌||◌, ◌>>=◌, Option, none, some, List, [], ◌∷◌, ◌==◌,
  if◌then◌else◌, as_u32, u64_mod,
}
use linuwux_runtime.Kuser.Recipe.{Recipe}
use linuwux_runtime.Memory.{Memory, reads_as}
use linuwux_runtime.Cpuid.Identity.{Registers, registers, is_wine_system_rip}
use linuwux_runtime.Cpuid.Active.{select_legacy_presentation}
use linuwux_runtime.Reflex.Enums.{Action, native, consumed}
use linuwux_runtime.Reflex.State.{State, World, Host, resume_identity_unarmed}
use linuwux_runtime.Reflex.HandleCpuid.{handle_cpuid}
use linuwux_runtime.Syscall.Registers.{Context}
use linuwux_runtime.Syscall.Int2e.{Kernel, Fault, skip_int2e_fault}
use linuwux_runtime.Syscall.Dispatch.ReflexImage.{register_reflex_image}
use linuwux_runtime.CpuidTrap.Replies.{
  TrapState, Platform, native_reply, fixed_reply, cpuid_kuser_recipe,
}

-- The callbacks that this model does not follow.
pub record Others (R : Type 0) : Type 0 where
  pub set_offset : ℕ → R → R
  pub patch_kuser : Recipe → R → Bool × R
  pub set_hwprofile_guid : R → R
  pub yield_thread : World (TrapState R) → World (TrapState R)
  pub log : String → R → R
  pub log_hex : String → ℕ → R → R

abbrev on_rest : {R : Type 0} → (R → R) → TrapState R → TrapState R
on_rest f t = record t { rest = f t.rest }

abbrev is_resume_recipe : Recipe → Bool
is_resume_recipe Recipe.resume = true
is_resume_recipe Recipe.dispatch = false
is_resume_recipe Recipe.selector = false

abbrev dispatch_or_selector : Recipe → Recipe
dispatch_or_selector Recipe.dispatch = Recipe.dispatch
dispatch_or_selector Recipe.selector = Recipe.selector
dispatch_or_selector Recipe.resume = Recipe.selector

-- `RuntimeHost`
unfoldable pub runtime_host : {R : Type 0} → Others R → Host (TrapState R)
runtime_host o = record {
  set_offset = λ time. on_rest (o.set_offset time);
  select_legacy_presentation = λ t. record t { active = select_legacy_presentation [] t.active };
  legacy_presentation_active = λ t. not (is_resume_recipe (cpuid_kuser_recipe t.active));
  selector_kuser_recipe = λ t. dispatch_or_selector (cpuid_kuser_recipe t.active);
  patch_kuser = λ recipe t.
      let (patched, rest) = o.patch_kuser recipe t.rest in (patched, record t { rest = rest });
  set_hwprofile_guid = on_rest o.set_hwprofile_guid;
  yield_thread = o.yield_thread;
  log = λ message. on_rest (o.log message);
  log_hex = λ prefix value. on_rest (o.log_hex prefix value);
}

abbrev pub si_kernel : ℕ
si_kernel = 0x80

abbrev pub registration_leaf : ℕ
registration_leaf = 0x0033_6933

pub record Segv : Type 0 where
  pub null_frame : Bool
  pub code : ℕ

-- The state that a fault changes.
pub record Faulted (R : Type 0) : Type 0 where
  pub fault : Fault
  pub world : World (TrapState R)

-- What the handler does with the signal. `ended` is the end of the process,
-- or a loop of a registration out of fuel.
pub data Outcome (R : Type 0) : Type 0 where
  forwarded : Faulted R → Outcome R
  resumed : Faulted R → Outcome R
  ended : Outcome R

abbrev on_trap :
    {R : Type 0} → (TrapState R → TrapState R) → World (TrapState R) → World (TrapState R)
on_trap f w = record w { host = f w.host }

module _ {R : Type 0} (o : Others R) (k : Kernel) (e : Platform) (fuel : ℕ) (weak : List Bool) where
  unfoldable pub native_leaf :
      Memory → ℕ → ℕ → World (TrapState R) → Option (Registers × World (TrapState R))
  native_leaf m leaf subleaf w = do
    (reply, t) ← native_reply e m w.host leaf subleaf
    some (reply, record w { host = t })

  -- `reflex_handle_cpuid`, and the reply to what it does not consume.
  unfoldable pub reflex_leaf :
      Memory → ℕ → ℕ → ℕ → World (TrapState R) → Option (Registers × World (TrapState R))
  reflex_leaf m leaf control payload w =
      elim (handle_cpuid (runtime_host o) fuel weak leaf control payload w) [
        | none ↦ none
        | some (consumed, after) ↦ some (registers 0 0 0 0, after)
        | some (native, after) ↦ native_leaf m leaf (as_u32 control) after
      ]

  unfoldable pub reply_leaf :
      Memory → ℕ → ℕ → ℕ → ℕ → World (TrapState R) → Option (Registers × World (TrapState R))
  reply_leaf m rip leaf control payload w =
      if is_wine_system_rip rip then native_leaf m leaf (as_u32 control) w else (do
        (reply, t) ← fixed_reply e m (resume_identity_unarmed w.state) leaf (some rip) w.host
        let noted = record w { host = t }
        elim reply [
          | some fixed ↦ some (fixed, noted)
          | none ↦ reflex_leaf m leaf control payload noted
        ])

  -- The leaf that registers Reflex's handler is noted first.
  unfoldable pub note_registration : Memory → ℕ → ℕ → World (TrapState R) → World (TrapState R)
  note_registration m leaf control w =
      if leaf == registration_leaf
      then on_trap
          (λ t. record t { image = register_reflex_image m t.image control; established = true }) w
      else w

  unfoldable pub with_reply : Registers → Context → Context
  with_reply reply c = record c {
    rax = reply.eax;
    rbx = reply.ebx;
    rcx = reply.ecx;
    rdx = reply.edx;
    rip = (c.rip + 2) % u64_mod;
  }

  unfoldable pub answer_cpuid : Faulted R → Outcome R
  answer_cpuid p =
      let c = p.fault.context in
      let leaf = as_u32 c.rax in
      let noted = note_registration p.fault.memory leaf c.rcx p.world in
      elim (reply_leaf p.fault.memory c.rip leaf c.rcx c.rdx noted) [
        | none ↦ ended
        | some (reply, after) ↦
            resumed
              (record { fault = record p.fault { context = with_reply reply c }; world = after })
      ]

  -- What is done with the fault that `skip_int2e_fault` has left.
  unfoldable pub after_int2e : Segv → Faulted R → Bool × Fault → Outcome R
  after_int2e s p (skipped, fault) =
      let left = record p { fault = fault } in
      if skipped
      then resumed left
      else if not ((fault.context.trapno == 13) && (s.code == si_kernel))
      then forwarded left
      else if not (reads_as fault.memory fault.context.rip (0x0f ∷ 0xa2 ∷ []))
      then forwarded left
      else answer_cpuid left

  unfoldable pub cpuid_sigsegv_handler : Segv → Faulted R → Outcome R
  cpuid_sigsegv_handler s p =
      if s.null_frame then forwarded p else after_int2e s p (skip_int2e_fault k p.fault)
