-- ===== src/Hooks/Signals.antt =====
-- runtime/src/hooks.rs: the actions that the program asks for SIGSEGV and SIGSYS, behind the bridge of the
-- runtime. The kernel's table of actions is a type `K`, and what sigaction of the C library does with it
-- is an argument. A call here runs to its end; Readers takes the accesses of the slot apart.
pub mod Readers
pub mod Reclaim
pub mod Transparent
use linuwux_runtime.Base.{
  ℕ, ◌+◌, ◌%◌, Bool, true, false, not, ◌&&◌, ◌||◌, Option, none, some, List, [], ◌∷◌, ◌++◌, ◌==◌,
  bytes_eq, if◌then◌else◌, u32_mod,
}
use linuwux_runtime.Text.Bytes.{split_first, split_others, last_of}

abbrev pub sigsegv : ℕ
sigsegv = 11

abbrev pub sigsys : ℕ
sigsys = 31

-- `SIG_DFL` and `SIG_IGN` as handlers
abbrev pub sig_dfl : ℕ
sig_dfl = 0

abbrev pub sig_ign : ℕ
sig_ign = 1

-- A `struct sigaction`: the handler, the two flags that are looked at, and all else (the other flags, the
-- mask and the restorer) as one number.
pub record Action : Type 0 where
  pub handler : ℕ
  pub siginfo : Bool
  pub resethand : Bool
  pub others : ℕ

-- The action of a slot without a snapshot, all of whose bytes are zero.
abbrev pub zeroed : Action
zeroed = record { handler = sig_dfl; siginfo = false; resethand = false; others = 0 }

-- The snapshot of the slot, and whether the bridge was installed for the signal.
pub record SignalSlot : Type 0 where
  pub current : Option Action
  pub owned : Bool

-- The statics, with the table of the kernel.
pub record Signals (K : Type 0) : Type 0 where
  pub segv_slot : SignalSlot
  pub sys_slot : SignalSlot
  pub table : K

-- The real sigaction: the read of an action, and the exchange of one for another, which may fail; and
-- the raw `rt_sigaction` that sets the default action.
pub record RealSigaction (K : Type 0) : Type 0 where
  pub query : ℕ → K → Option Action
  pub exchange : ℕ → Action → K → Option (Action × K)
  pub reset : ℕ → K → Option K

-- What else a call depends on: the addresses of `cpuid_sigsegv_handler` and `syscallhook`, the file that
-- `dladdr` finds an address in, and whether the masks and `malloc` serve.
pub record Host : Type 0 where
  pub segv_bridge : ℕ
  pub sys_bridge : ℕ
  pub image_of : ℕ → Option (List ℕ)
  pub blocks : Bool
  pub mallocs : Bool

unfoldable pub slot_for : {K : Type 0} → ℕ → Signals K → Option SignalSlot
slot_for sig s =
    if sig == sigsegv then some s.segv_slot else if sig == sigsys then some s.sys_slot else none

unfoldable pub set_slot : {K : Type 0} → ℕ → SignalSlot → Signals K → Signals K
set_slot sig slot s =
    if sig == sigsegv then record s { segv_slot = slot } else record s { sys_slot = slot }

unfoldable pub bridge_handler : Host → ℕ → ℕ
bridge_handler h sig =
    if sig == sigsegv then h.segv_bridge else if sig == sigsys then h.sys_bridge else 0

unfoldable pub action_is_bridge : Host → ℕ → Action → Bool
action_is_bridge h sig a =
    a.siginfo && not (bridge_handler h sig == 0) && (a.handler == bridge_handler h sig)

-- "ntdll.so", "ntdll.dll.so" and "ntdll.dll"
abbrev pub ntdll_so : List ℕ
ntdll_so = 0x6e ∷ 0x74 ∷ 0x64 ∷ 0x6c ∷ 0x6c ∷ 0x2e ∷ 0x73 ∷ 0x6f ∷ []

abbrev pub ntdll_dll : List ℕ
ntdll_dll = 0x6e ∷ 0x74 ∷ 0x64 ∷ 0x6c ∷ 0x6c ∷ 0x2e ∷ 0x64 ∷ 0x6c ∷ 0x6c ∷ []

abbrev pub ntdll_dll_so : List ℕ
ntdll_dll_so = ntdll_dll ++ (0x2e ∷ 0x73 ∷ 0x6f ∷ [])

abbrev pub is_slash : ℕ → Bool
is_slash b = b == 0x2f

-- `rsplit('/').next()`
abbrev pub basename : List ℕ → List ℕ
basename path = last_of (split_first is_slash path) (split_others is_slash path)

unfoldable pub names_ntdll : Option (List ℕ) → Bool
names_ntdll none = false
names_ntdll (some path) =
    bytes_eq (basename path) ntdll_so
    || bytes_eq (basename path) ntdll_dll_so
    || bytes_eq (basename path) ntdll_dll

unfoldable pub handler_is_from_wine_ntdll : Host → Action → Bool
handler_is_from_wine_ntdll h a =
    not ((a.handler == sig_dfl) || (a.handler == sig_ign)) && names_ntdll (h.image_of a.handler)

-- The action that the kernel gets for a request.
unfoldable pub bridge_of : Host → ℕ → Action → Action
bridge_of h sig requested = record requested {
  handler = bridge_handler h sig;
  siginfo = true;
  resethand = false;
}

-- What a call answers: an error, or the action that it writes to `oldact`.
pub data Answer : Type 0 where
  failed : Answer
  replaced : (old : Action) → Answer

module _ {K : Type 0} (real : RealSigaction K) where
  -- The real call; of no action it is a read.
  unfoldable pub pass_on : ℕ → Option Action → Signals K → Answer × Signals K
  pass_on sig none s = elim (real.query sig s.table) [
    | none ↦ (failed, s)
    | some old ↦ (replaced old, s)
  ]
  pass_on sig (some act) s = elim (real.exchange sig act s.table) [
    | none ↦ (failed, s)
    | some (old, table) ↦ (replaced old, record s { table = table })
  ]

  -- From the `malloc` of the snapshot on: it is stored before the kernel has the bridge, and taken back if
  -- the kernel refuses. What the call does to other parts of the runtime is `bridge_effects`.
  unfoldable pub swap_action :
      Host → SignalSlot → ℕ → Action → Action → Signals K → Answer × Signals K
  swap_action h slot sig requested previous s =
      if not h.mallocs
      then (failed, s)
      else (let stored = set_slot sig (record slot { current = some requested }) s in
          elim (real.exchange sig (bridge_of h sig requested) stored.table) [
            | none ↦ (failed, set_slot sig slot stored)
            | some (bridged, table) ↦ (
              replaced (elim slot.current [ none ↦ previous | some logical ↦ logical ]),
              record (set_slot sig (record { current = some requested; owned = true }) stored) {
                table = table;
              },
            )
          ])

  unfoldable pub install_bridge : Host → SignalSlot → ℕ → Action → Signals K → Answer × Signals K
  install_bridge h slot sig requested s = elim (real.query sig s.table) [
    | none ↦ (failed, s)
    | some previous ↦
        if action_is_bridge h sig requested
        then (replaced previous, s)
        else swap_action h slot sig requested previous s
  ]

  unfoldable pub sigaction : Host → ℕ → Option Action → Signals K → Answer × Signals K
  sigaction h sig act s = elim (slot_for sig s) [
    | none ↦ pass_on sig act s
    | some slot ↦ elim act [
      | none ↦ pass_on sig none s
      | some requested ↦
          if not h.blocks
          then (failed, s)
          else if not slot.owned && not (handler_is_from_wine_ntdll h requested)
          then pass_on sig (some requested) s
          else install_bridge h slot sig requested s
    ]
  ]

-- The calls that `install_bridge` makes at its end, in this order.
pub data Effect : Type 0 where
  force_direct_syscall : Effect
  prepare_shared_page : Effect
  detect_cpu_vendor : Effect
  enable_cpuid_faulting : Effect

unfoldable pub bridge_effects : ℕ → Bool → List Effect
bridge_effects sig first_install =
    force_direct_syscall
    ∷ (if sig == sigsegv
        then prepare_shared_page
          ∷ ((if first_install then detect_cpu_vendor ∷ [] else []) ++ enable_cpuid_faulting ∷ [])
        else [])

-- What becomes of a forwarded signal: the process ends with a status, the default action is raised, the
-- signal is dropped, or a handler is called with the three arguments or with the signal alone.
pub data Delivery : Type 0 where
  terminated : (status : ℕ) → Delivery
  raised : Delivery
  dropped : Delivery
  called : (callback : ℕ) (with_siginfo : Bool) → Delivery

-- Whether the ids are known and `tgkill` succeeds.
pub record RaiseCalls : Type 0 where
  pub has_process_id : Bool
  pub has_thread_id : Bool
  pub kills : Bool

unfoldable pub terminate_from_signal : ℕ → Delivery
terminate_from_signal sig = terminated ((128 + sig) % u32_mod)

-- `copy_saved_action`, without its count of the readers.
abbrev pub saved_action : SignalSlot → Action
saved_action slot = elim slot.current [ none ↦ zeroed | some action ↦ action ]

-- How the default action ends the process, once it is set.
unfoldable pub raise_default : RaiseCalls → ℕ → Delivery
raise_default c sig =
    if not c.has_process_id || not c.has_thread_id
    then terminate_from_signal sig
    else if not c.kills
    then terminate_from_signal sig
    else raised

module _ {K : Type 0} (real : RealSigaction K) (c : RaiseCalls) where
  unfoldable pub restore_default_and_raise : ℕ → Signals K → Delivery × Signals K
  restore_default_and_raise sig s = elim (real.reset sig s.table) [
    | none ↦ (terminate_from_signal sig, s)
    | some table ↦ (raise_default c sig, record s { table = table })
  ]

  unfoldable pub forward_signal : ℕ → Signals K → Delivery × Signals K
  forward_signal sig s = elim (slot_for sig s) [
    | none ↦ restore_default_and_raise sig s
    | some slot ↦
        let saved = saved_action slot in
        if saved.handler == sig_dfl
        then restore_default_and_raise sig s
        else if saved.handler == sig_ign
        then (dropped, s)
        else (
          called saved.handler saved.siginfo,
          if saved.resethand then set_slot sig (record slot { current = none }) s else s,
        )
  ]
