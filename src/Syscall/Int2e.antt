-- ===== src/Syscall/Int2e.antt =====
-- runtime/src/syscall/int2e.rs: what the SIGSEGV handler does with an `int 2e`. A call runs to its end
-- before the next one. The kernel's answers are a record of arguments.
pub mod Thunk
use linuwux_runtime.Base.{
  ℕ, zero, suc, ◌+◌, ◌-◌, ◌*◌, ◌/◌, ◌%◌, ◌^◌, Bool, true, false, not, ◌&&◌, ◌||◌, ◌>>=◌, Option,
  none, some, List, [], ◌∷◌, ◌++◌, ◌==◌, ltb, leb, if◌then◌else◌, length, get_or, bytes_eq, u64_max,
  min, clear_bit, set_bit,
}
use linuwux_runtime.Memory.{Memory, read_memory, reads_as, checked_add, store_bytes}
use linuwux_runtime.Kuser.Buffer.{page_size}
use linuwux_runtime.Text.Maps.{Mapping, parse}
use linuwux_runtime.Syscall.Registers.{Context}

abbrev pub int2e_instruction : List ℕ
int2e_instruction = 0xcd ∷ 0x2e ∷ []

abbrev pub syscall_instruction : List ℕ
syscall_instruction = 0x0f ∷ 0x05 ∷ []

abbrev pub direct_syscall_thunk : List ℕ
direct_syscall_thunk = 0x0f ∷ 0x05 ∷ 0xc3 ∷ []

abbrev pub trampoline_capacity : ℕ
trampoline_capacity = 16384

-- What the kernel answers during one fault: the lines of /proc/self/maps, the page of `mmap`, whether
-- that page may be made executable, whether the page guard is free, and whether the page of the
-- instruction may be made writable and then be protected again.
pub record Kernel : Type 0 where
  pub maps : List (List ℕ)
  pub mmap : Option ℕ
  pub executable : Bool
  pub guard : Bool
  pub unlock : Bool
  pub relock : Bool

-- The two tables of atomics.
pub record Trampolines : Type 0 where
  pub sites : ℕ → ℕ
  pub targets : ℕ → ℕ

pub record Fault : Type 0 where
  pub context : Context
  pub memory : Memory
  pub trampolines : Trampolines

abbrev store_word : (ℕ → ℕ) → ℕ → ℕ → ℕ → ℕ
store_word values index value i = if index == i then value else values i

abbrev pub next_instruction : ℕ → Option ℕ
next_instruction rip = checked_add rip 2

unfoldable pub preceding_direct_syscall : Memory → ℕ → Option ℕ
preceding_direct_syscall m rip =
    if ltb rip 3
    then none
    else if reads_as m (rip - 3) direct_syscall_thunk
    then some (rip - 3)
    else none

-- `(eflags & !0x881) | 0x44`: the bits 0, 7 and 11, and the bits 2 and 6.
unfoldable pub direct_path_eflags : ℕ → ℕ
direct_path_eflags eflags = set_bit 6 (set_bit 2 (clear_bit 11 (clear_bit 7 (clear_bit 0 eflags))))

abbrev pub page_of : ℕ → ℕ
page_of address = address - address % page_size

abbrev pub is_executable : ℕ → ℕ → Option Mapping → Bool
is_executable page end none = false
is_executable page end (some mapping) =
    leb mapping.start page
    && leb end mapping.end
    && (length mapping.permissions == 4)
    && (get_or mapping.permissions 0 0 == 0x72)
    && (get_or mapping.permissions 2 0 == 0x78)

unfoldable pub any_executable : ℕ → ℕ → List (List ℕ) → Bool
any_executable page end [] = false
any_executable page end (line ∷ lines) =
    is_executable page end (parse line) || any_executable page end lines

-- Whether `executable_mapping_protection` has an answer.
unfoldable pub executable_mapping : Kernel → ℕ → Bool
executable_mapping k page = elim (checked_add page page_size) [
  | none ↦ false
  | some end ↦ any_executable page end k.maps
]

unfoldable pub u64_bytes : ℕ → List ℕ
u64_bytes n =
    n % 256
    ∷ n / 2 ^ 8 % 256
    ∷ n / 2 ^ 16 % 256
    ∷ n / 2 ^ 24 % 256
    ∷ n / 2 ^ 32 % 256
    ∷ n / 2 ^ 40 % 256
    ∷ n / 2 ^ 48 % 256
    ∷ n / 2 ^ 56 % 256
    ∷ []

-- `syscall`, `movabs rcx, next`, `jmp [rip]`, and the address that it reads.
unfoldable pub trampoline_code : ℕ → List ℕ
trampoline_code next =
    syscall_instruction
    ++ (0x48 ∷ 0xb9 ∷ [])
    ++ u64_bytes next
    ++ (0xff ∷ 0x25 ∷ 0 ∷ 0 ∷ 0 ∷ 0 ∷ [])
    ++ u64_bytes next

-- The page of the new trampoline, and the memory with it.
unfoldable pub build_private_trampoline : Kernel → Memory → ℕ → ℕ → Option (ℕ × Memory)
build_private_trampoline k m site next =
    if executable_mapping k (page_of site)
    then (do
      page ← k.mmap
      if k.executable then some (page, store_bytes m page (trampoline_code next)) else none)
    else none

unfoldable pub build_or_reuse : Kernel → Fault → ℕ → ℕ → ℕ → Option ℕ × Fault
build_or_reuse k f index site next =
    let existing = f.trampolines.targets index in
    if not (existing == 0)
    then (some existing, f)
    else (elim (build_private_trampoline k f.memory site next) [
      | none ↦ (none, f)
      | some (built, memory) ↦
          let targets = store_word f.trampolines.targets index built in
          (
            some built,
            record f { memory = memory; trampolines = record f.trampolines { targets = targets } },
          )
    ])

-- The first of `n` slots that is the site's or free.
unfoldable pub claim : ℕ → Trampolines → ℕ → ℕ → Option ℕ
claim zero t site offset = none
claim (suc n) t site offset =
    let index = (site / 2 % trampoline_capacity + offset) % trampoline_capacity in
    let rest = claim n t site (offset + 1) in
    if (t.sites index == site) || (t.sites index == 0) then some index else rest

unfoldable pub private_syscall_trampoline : Kernel → Fault → ℕ → Option ℕ × Fault
private_syscall_trampoline k f site = elim (next_instruction site) [
  | none ↦ (none, f)
  | some next ↦ elim (claim trampoline_capacity f.trampolines site 0) [
    | none ↦ (none, f)
    | some index ↦
        let sites = store_word f.trampolines.sites index site in
        build_or_reuse k (record f { trampolines = record f.trampolines { sites = sites } }) index
          site next
  ]
]

-- Whether the opcode is patched and seen to be, and the memory after it. A page that cannot be
-- protected again keeps the patch.
unfoldable pub patch_to_syscall : Kernel → Memory → ℕ → Bool × Memory
patch_to_syscall k m address =
    let page = page_of address in
    let refused =
      not (reads_as m address int2e_instruction)
      || ltb u64_max (address + 1)
      || leb (min (page + page_size) u64_max) (address + 1)
      || not (executable_mapping k page)
      || not k.guard
      || not k.unlock in
    let patched = store_bytes m address syscall_instruction in
    if refused
    then (false, m)
    else (k.relock && reads_as patched address syscall_instruction, patched)

-- The four ways out, in the order in which they are tried.
unfoldable pub resume_int2e : Kernel → Fault → Bool × Fault
resume_int2e k f =
    let c = f.context in
    elim (preceding_direct_syscall f.memory c.rip) [
      | some syscall_rip ↦ (
        true,
        record f { context = record c { eflags = direct_path_eflags c.eflags; rip = syscall_rip } },
      )
      | none ↦
          let (thunk, after) = private_syscall_trampoline k f c.rip in
          elim thunk [
            | some target ↦ (true, record after { context = record c { rip = target } })
            | none ↦
                let (patched, memory) = patch_to_syscall k after.memory c.rip in
                let left = record after { memory = memory } in
                if patched then (true, left) else (elim (next_instruction c.rip) [
                  | none ↦ (false, left)
                  | some next ↦ (true, record left { context = record c { rip = next } })
                ])
          ]
    ]

unfoldable pub skip_int2e_fault : Kernel → Fault → Bool × Fault
skip_int2e_fault k f =
    if (f.context.trapno == 13) && reads_as f.memory f.context.rip int2e_instruction
    then resume_int2e k f
    else (false, f)
