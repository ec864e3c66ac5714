-- ===== src/Hooks/Guard.antt =====
-- runtime/src/hooks.rs: what `malloc` and `free` do around the real ones. A second free of a pointer by
-- win32u is dropped; what was freed is the history of PendingFrees. The list of the loaded images and
-- the answers of dlsym, dladdr and the real malloc are arguments; `none` is a search of the history that
-- ran out of its rounds.
pub mod Kept
pub mod DoubleFree
use linuwux_runtime.Base.{
  ℕ, ◌+◌, ◌%◌, Bool, true, false, not, ◌&&◌, ◌||◌, Option, none, some, List, [], ◌∷◌, ◌++◌, ◌==◌,
  ltb, leb, bytes_eq, if◌then◌else◌, u64_mod,
}
use linuwux_runtime.PendingFrees.{History, Call, mark, consumes, call, new}
use linuwux_runtime.Hooks.Signals.{basename}
use linuwux_runtime.Hooks.Bootstrap.{
  bootstrap_alloc, is_bootstrap_ptr, Resolver, known, nested, asks_dlsym, begin_resolve,
  end_resolve,
}

-- A program header.
pub record Segment : Type 0 where
  pub is_load : Bool
  pub vaddr : ℕ
  pub memsz : ℕ

-- A loaded image as `dl_iterate_phdr` shows it.
pub record Image : Type 0 where
  pub name : Option (List ℕ)
  pub base : ℕ
  pub segments : List Segment

-- "win32u.so" and "win32u.dll.so"
abbrev pub win32u_so : List ℕ
win32u_so = 0x77 ∷ 0x69 ∷ 0x6e ∷ 0x33 ∷ 0x32 ∷ 0x75 ∷ 0x2e ∷ 0x73 ∷ 0x6f ∷ []

abbrev pub win32u_dll_so : List ℕ
win32u_dll_so =
    0x77 ∷ 0x69 ∷ 0x6e ∷ 0x33 ∷ 0x32 ∷ 0x75 ∷ 0x2e ∷ 0x64 ∷ 0x6c ∷ 0x6c ∷ 0x2e ∷ 0x73 ∷ 0x6f ∷ []

unfoldable pub names_win32u : Option (List ℕ) → Bool
names_win32u none = false
names_win32u (some path) =
    bytes_eq (basename path) win32u_so || bytes_eq (basename path) win32u_dll_so

-- The three statics about win32u.
pub record Win32u : Type 0 where
  pub start : ℕ
  pub end : ℕ
  pub scanned : Bool

-- The loop over the headers.
unfoldable pub last_end : ℕ → ℕ → List Segment → ℕ
last_end base end [] = end
last_end base end (ph ∷ phs) =
    let segment_end = (base + ph.vaddr + ph.memsz) % u64_mod in
    last_end base (if ph.is_load && ltb end segment_end then segment_end else end) phs

unfoldable pub record_win32u : Image → Win32u → Bool × Win32u
record_win32u image w =
    if names_win32u image.name
    then (
      true,
      record w { start = image.base; end = last_end image.base image.base image.segments },
    )
    else (false, w)

-- `dl_iterate_phdr` calls it until it answers true.
unfoldable pub scan_images : List Image → Win32u → Win32u
scan_images [] w = w
scan_images (image ∷ images) w =
    let (stop, w') = record_win32u image w in
    let rest = scan_images images w' in if stop then w' else rest

-- The images, and the name that `dladdr` finds for an address.
pub record Loader : Type 0 where
  pub images : List Image
  pub image_of : ℕ → Option (List ℕ)

abbrev pub is_unknown : Win32u → Bool
is_unknown w = (w.start == 0) || leb w.end w.start

abbrev pub within : Win32u → ℕ → Bool
within w caller = leb w.start caller && ltb caller w.end

unfoldable pub caller_from_win32u : Loader → ℕ → Win32u → Bool × Win32u
caller_from_win32u l caller w =
    if caller == 0
    then (false, w)
    else if not (is_unknown w)
    then (within w caller, w)
    else if w.scanned && not (names_win32u (l.image_of caller))
    then (false, record w { scanned = true })
    else (let scanned = scan_images l.images (record w { scanned = true }) in
        (not (is_unknown scanned) && within scanned caller, scanned))

-- What does not change: the pool, whether the thread has keys, the flag of the guard, and whether the
-- process is the game's.
pub record Setting : Type 0 where
  pub pool : ℕ
  pub has_key : Bool
  pub guard : Bool
  pub game : Bool
  pub loader : Loader

-- The statics of the allocation hooks.
pub record Allocator : Type 0 where
  pub offset : ℕ
  pub malloc : Resolver
  pub free : Resolver
  pub win32u : Win32u
  pub history : History

-- `resolve_real_malloc` and `resolve_real_free`; a call of `malloc` from within `dlsym` finds the state
-- of `asks_dlsym`.
unfoldable pub resolve : Bool → ℕ → Resolver → Option ℕ × Resolver
resolve has_key symbol r = elim (begin_resolve has_key r) [
  | known real ↦ (some real, r)
  | nested ↦ (none, r)
  | asks_dlsym marked ↦ end_resolve symbol marked
]

-- Behind the real malloc, once it is known whether win32u calls: the history without the answer.
unfoldable pub forget_of : ℕ → Allocator → Bool → Win32u → Option Allocator
forget_of allocated s false w = some (record s { win32u = w })
forget_of allocated s true w = elim (call s.history (consumes allocated)) [
  | none ↦ none
  | some (consumed, h) ↦ some (record s { win32u = w; history = h })
]

unfoldable pub forget : Setting → ℕ → ℕ → Allocator → Option Allocator
forget c allocated caller s =
    if not (c.guard && c.game)
    then some s
    else (let (from_win32u, w) = caller_from_win32u c.loader caller s.win32u in
        forget_of allocated s from_win32u w)

-- The pool, or the real malloc.
unfoldable pub allocate :
    Setting → ℕ → ℕ → ℕ → Allocator → Option ℕ → Resolver → Option (Option ℕ × Allocator)
allocate c allocated size caller s none r =
    let (block, offset) = bootstrap_alloc c.pool s.offset size in
    some (block, record s { malloc = r; offset = offset })
allocate c allocated size caller s (some real) r =
    elim (forget c allocated caller (record s { malloc = r })) [
      | none ↦ none
      | some s' ↦ some (some allocated, s')
    ]

unfoldable pub malloc_inner : Setting → ℕ → ℕ → ℕ → ℕ → Allocator → Option (Option ℕ × Allocator)
malloc_inner c symbol allocated size caller s =
    let (found, r) = resolve c.has_key symbol s.malloc in allocate c allocated size caller s found r

-- A free that win32u makes is dropped if the history has it.
unfoldable pub note_of : ℕ → Allocator → Bool → Win32u → Option (Option ℕ × Allocator)
note_of ptr s false w = some (some ptr, record s { win32u = w })
note_of ptr s true w = elim (call s.history (mark ptr)) [
  | none ↦ none
  | some (seen, h) ↦ some (if seen then none else some ptr, record s { win32u = w; history = h })
]

unfoldable pub note_free : Setting → ℕ → ℕ → Allocator → Option (Option ℕ × Allocator)
note_free c ptr caller s =
    if not (c.guard && c.game && not (ptr == 0))
    then some (some ptr, s)
    else (let (from_win32u, w) = caller_from_win32u c.loader caller s.win32u in
        note_of ptr s from_win32u w)

unfoldable pub release :
    Setting → ℕ → ℕ → Allocator → Option ℕ → Resolver → Option (Option ℕ × Allocator)
release c ptr caller s none r = some (none, record s { free = r })
release c ptr caller s (some real) r = note_free c ptr caller (record s { free = r })

-- What the real `free` is called with, if it is called.
unfoldable pub free_inner : Setting → ℕ → ℕ → ℕ → Allocator → Option (Option ℕ × Allocator)
free_inner c symbol ptr caller s =
    if is_bootstrap_ptr c.pool ptr
    then some (none, s)
    else (let (found, r) = resolve c.has_key symbol s.free in release c ptr caller s found r)
