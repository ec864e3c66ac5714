-- ===== src/Hooks/SetUp.antt =====
-- runtime/src/hooks.rs: the constructor, and what the child of a fork resets.
use linuwux_runtime.Base.{
  ℕ, Bool, true, false, not, ◌&&◌, Option, none, some, List, ◌==◌, if◌then◌else◌,
}
use linuwux_runtime.Text.Bytes.{is_one}
use linuwux_runtime.PendingFrees.{call, forks}
use linuwux_runtime.Hooks.Guard.{Allocator, resolve}

-- SIGNAL_UPDATE_LOCK, the counts of readers, REAL_SIGACTION, the flag of the guard, and FORK_REGISTERED.
pub record Statics : Type 0 where
  pub update_lock : Bool
  pub segv_readers : ℕ
  pub sys_readers : ℕ
  pub real_sigaction : ℕ
  pub free_guard : Bool
  pub fork_registered : Bool

-- The answers of dlsym for the three names, the variable LINUWUX_WIN32U_FREE_GUARD, and whether
-- pthread_atfork takes the handler.
pub record SetUpCalls : Type 0 where
  pub sigaction_symbol : ℕ
  pub free_symbol : ℕ
  pub malloc_symbol : ℕ
  pub has_key : Bool
  pub free_guard : Option (List ℕ)
  pub registers : Bool

-- `resolve_real_sigaction`, whose look-up allocates without a mark.
unfoldable pub resolve_real_sigaction : ℕ → ℕ → Option ℕ × ℕ
resolve_real_sigaction symbol cached =
    if not (cached == 0)
    then (some cached, cached)
    else if symbol == 0
    then (none, cached)
    else (some symbol, symbol)

unfoldable pub linuwux_setup_hooks : SetUpCalls → Statics → Allocator → Statics × Allocator
linuwux_setup_hooks c t s =
    let (found, cached) = resolve_real_sigaction c.sigaction_symbol t.real_sigaction in
    let (real_free, free) = resolve c.has_key c.free_symbol s.free in
    let (real_malloc, malloc) = resolve c.has_key c.malloc_symbol s.malloc in
    (
      record t {
        real_sigaction = cached;
        free_guard = is_one c.free_guard;
        fork_registered = if t.fork_registered then true else c.registers;
      },
      record s { free = free; malloc = malloc },
    )

-- The history is new and the images are looked at again, if the guard is on. The marks of the thread's
-- look-ups go only if it has keys.
unfoldable pub after_fork : Bool → Statics → Allocator → Option (Statics × Allocator)
after_fork has_key t s =
    let child = record t { update_lock = false; segv_readers = 0; sys_readers = 0 } in
    let free = record s.free { resolving = s.free.resolving && not has_key } in
    let malloc = record s.malloc { resolving = s.malloc.resolving && not has_key } in
    let cleared = record s { free = free; malloc = malloc } in
    if not t.free_guard then some (child, cleared) else elim (call s.history forks) [
      | none ↦ none
      | some (forked, h) ↦
          some (child, record cleared { history = h; win32u = record s.win32u { scanned = false } })
    ]
