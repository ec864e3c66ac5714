-- ===== src/CpuidTrap/Replies.antt =====
-- What a CPUID instruction is answered. The state of the trap is the statics of runtime/src/cpuid.rs, with
-- the image of Reflex, which the handler registers; `R` is what the host's other callbacks change. The
-- loops on the identity's word meet no other thread's update here: Cpuid/Active has them with the updates.
use linuwux_runtime.Base.{
  ℕ, ◌+◌, ◌-◌, ◌%◌, ◌^◌, Bool, true, false, not, ◌&&◌, ◌||◌, ◌>>=◌, Option, none, some, List, [],
  ◌==◌, ltb, leb, if◌then◌else◌, u64_mod, set_bit, bit_or,
}
use linuwux_runtime.Kuser.Recipe.{Recipe}
use linuwux_runtime.Cpuid.Identity.{
  Registers, registers, Vendor, unknown, intel, amd, CpuPresentation, denuvo, legacy, from_leaf0,
  proton_avx_enabled,
}
use linuwux_runtime.Cpuid.Replies.{artifact_intel_reply, artifact_amd_reply}
use linuwux_runtime.Cpuid.Active.{load, configure_host, select_legacy_presentation, fixed_reply_of}
use linuwux_runtime.Memory.{Memory}
use linuwux_runtime.Syscall.Dispatch.ReflexImage.{ReflexImage}
use linuwux_runtime.CpuidTrap.Caches.{CallerKind, ordinary, reflex64, artifact, CallerCache}
use linuwux_runtime.CpuidTrap.Caches.NativeCache.{NativeCache, lookup_native, insert_native}
use linuwux_runtime.CpuidTrap.Callers.{classify_caller, artifact_module_mapped}

pub record TrapState (R : Type 0) : Type 0 where
  pub active : ℕ
  pub reflex64_selected : Bool
  pub artifact_selected : Bool
  pub established : Bool
  pub callers : CallerCache
  pub natives : NativeCache
  pub scan_generation : ℕ
  pub scan_milliseconds : ℕ
  pub image : ReflexImage
  pub rest : R

-- What one fault sees of the machine: the maps, the count of file mappings if it is kept, the clock, the
-- CPUID instruction of this core, and the answers of the two calls of `arch_prctl`.
pub record Platform : Type 0 where
  pub maps : List (List ℕ)
  pub generation : Option ℕ
  pub now : ℕ
  pub cpuid : ℕ → ℕ → Registers
  pub disarmed : Bool
  pub rearmed : Bool

unfoldable pub is_identity_leaf : ℕ → Bool
is_identity_leaf leaf =
    (leaf == 1)
    || (leb 0x4000_0000 leaf && leb leaf 0x4000_0001)
    || (leb 0x8000_0002 leaf && leb leaf 0x8000_0004)

unfoldable pub leaf_varies_per_core : ℕ → Bool
leaf_varies_per_core leaf = (leaf == 0xb) || (leaf == 0x1f)

unfoldable pub artifact_reply : Vendor → ℕ → Option Registers
artifact_reply intel leaf = artifact_intel_reply leaf
artifact_reply amd leaf = artifact_amd_reply leaf
artifact_reply unknown leaf = none

unfoldable pub with_native_apic_id : Registers → ℕ → Registers
with_native_apic_id reply native_ebx = record reply {
  ebx = bit_or 32 reply.ebx (native_ebx - native_ebx % 2 ^ 24);
}

abbrev pub known : Vendor → Bool
known unknown = false
known intel = true
known amd = true

abbrev is_denuvo : CpuPresentation → Bool
is_denuvo denuvo = true
is_denuvo legacy = false

abbrev is_kind_artifact : CallerKind → Bool
is_kind_artifact artifact = true
is_kind_artifact ordinary = false
is_kind_artifact reflex64 = false

-- `unwrap_or`
abbrev kind_or_ordinary : Option CallerKind → CallerKind
kind_or_ordinary none = ordinary
kind_or_ordinary (some kind) = kind

module _ {R : Type 0} (e : Platform) (m : Memory) where
  -- `none` where faulting cannot be armed again, and the process ends.
  unfoldable pub native_uncached : TrapState R → ℕ → ℕ → Option (Registers × TrapState R)
  native_uncached t leaf subleaf =
      let result = e.cpuid leaf subleaf in
      if not e.disarmed
      then some (registers 0 0 0 0, t)
      else if not e.rearmed
      then none
      else if leaf_varies_per_core leaf
      then some (result, t)
      else some (result, record t { natives = insert_native t.natives leaf subleaf result })

  unfoldable pub native_reply : TrapState R → ℕ → ℕ → Option (Registers × TrapState R)
  native_reply t leaf subleaf =
      if leaf_varies_per_core leaf
      then native_uncached t leaf subleaf
      else (elim (lookup_native t.natives leaf subleaf) [
        | some cached ↦ some (cached, t)
        | none ↦ native_uncached t leaf subleaf
      ])

  -- The choice of the presentation by a caller of a kind.
  unfoldable pub note_caller : CallerKind → TrapState R → TrapState R
  note_caller ordinary t = t
  note_caller artifact t = t
  note_caller reflex64 t =
      if not t.reflex64_selected && is_denuvo (load t.active).presentation
      then record t { active = select_legacy_presentation [] t.active; reflex64_selected = true }
      else t

  unfoldable pub select_caller_presentation : ℕ → ℕ → TrapState R → CallerKind × TrapState R
  select_caller_presentation leaf rip t =
      if not (is_identity_leaf leaf)
      then (ordinary, t)
      else let (found, callers) = classify_caller m e.maps t.established t.callers rip in
        let kind = kind_or_ordinary found in
        (kind, note_caller kind (record t { callers = callers }))

  unfoldable pub artifact_module_newly_mapped : TrapState R → Bool × TrapState R
  artifact_module_newly_mapped t = elim e.generation [
    | none ↦ (artifact_module_mapped e.maps, t)
    | some generation ↦
        let found = artifact_module_mapped e.maps in
        if (generation == t.scan_generation)
          && ltb ((e.now + u64_mod - t.scan_milliseconds) % u64_mod) 1000
        then (false, t)
        else if found
        then (true, t)
        else (false, record t { scan_milliseconds = e.now; scan_generation = generation })
  ]

  -- Whether an artifact is there: its caller, an earlier choice, or a new scan.
  unfoldable pub note_artifact : CallerKind → TrapState R → TrapState R
  note_artifact kind t =
      if is_kind_artifact kind || t.artifact_selected
      then record t { artifact_selected = true }
      else let (present, scanned) = artifact_module_newly_mapped t in
        if present then record scanned { artifact_selected = true } else scanned

  -- The reply that an identity fixes, before the bits of this core and of Reflex.
  unfoldable pub chosen_reply : TrapState R → ℕ → Option Registers
  chosen_reply t leaf =
      let vendor = (load t.active).vendor in
      if t.artifact_selected && known vendor
      then (elim (artifact_reply vendor leaf) [
        | some reply ↦ some reply
        | none ↦ fixed_reply_of t.active leaf
      ])
      else fixed_reply_of t.active leaf

  unfoldable pub finish_reply :
      Bool → TrapState R → ℕ → Registers → Option (Registers × TrapState R)
  finish_reply unarmed t leaf reply =
      if not (leaf == 1)
      then some (reply, t)
      else if t.artifact_selected && known (load t.active).vendor
      then (do (own, after) ← native_reply t 1 0; some (with_native_apic_id reply own.ebx, after))
      else if unarmed
      then some (record reply { ecx = set_bit 31 reply.ecx }, t)
      else some (reply, t)

  -- A caller that is not known is an ordinary one.
  unfoldable pub caller_of : ℕ → Option ℕ → TrapState R → CallerKind × TrapState R
  caller_of leaf none t = (ordinary, t)
  caller_of leaf (some rip) t = select_caller_presentation leaf rip t

  -- A leaf that an artifact's profile replies to is the occasion for the search of one.
  unfoldable pub note_leaf : ℕ → CallerKind → TrapState R → TrapState R
  note_leaf leaf kind t = elim (artifact_reply (load t.active).vendor leaf) [
    | none ↦ t
    | some reply ↦ note_artifact kind t
  ]

  -- The inner `none` is a leaf without a fixed reply.
  unfoldable pub reply_as : Bool → ℕ → TrapState R → Option (Option Registers × TrapState R)
  reply_as unarmed leaf t = elim (chosen_reply t leaf) [
    | none ↦ some (none, t)
    | some reply ↦ (do (done, after) ← finish_reply unarmed t leaf reply; some (some done, after))
  ]

  unfoldable pub fixed_reply :
      Bool → ℕ → Option ℕ → TrapState R → Option (Option Registers × TrapState R)
  fixed_reply unarmed leaf rip t =
      let (kind, called) = caller_of leaf rip t in
      reply_as unarmed leaf (note_leaf leaf kind called)

-- `cpuid_kuser_recipe`
unfoldable pub cpuid_kuser_recipe : ℕ → Recipe
cpuid_kuser_recipe active = elim (load active).presentation [
  | denuvo ↦ Recipe.resume
  | legacy ↦ elim (load active).vendor [
    | intel ↦ Recipe.dispatch
    | amd ↦ Recipe.selector
    | unknown ↦ Recipe.selector
  ]
]

unfoldable pub configure_identity : Bool → Vendor → Bool → ℕ → ℕ
configure_identity forced vendor avx_enabled active =
    let configured = configure_host [] vendor avx_enabled active in
    if forced then select_legacy_presentation [] configured else configured

-- `cpuid_configure_profile`, by the code of a vendor.
unfoldable pub cpuid_configure_profile : Bool → ℕ → ℕ → ℕ → ℕ
cpuid_configure_profile forced vendor avx_enabled active =
    configure_identity forced (if vendor == 1 then intel else if vendor == 2 then amd else unknown)
      (not (avx_enabled == 0)) active

-- The constructor, by the native leaf 0 and `PROTON_AVX`.
unfoldable pub detect_cpu_vendor : Bool → Registers → Option (List ℕ) → ℕ → ℕ
detect_cpu_vendor forced leaf0 value active =
    configure_identity forced (from_leaf0 leaf0)
      (elim value [ none ↦ false | some text ↦ proton_avx_enabled (some text) ]) active
