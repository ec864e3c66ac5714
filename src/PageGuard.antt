-- ===== src/PageGuard.antt =====
-- runtime/src/page_guard.rs: the guard of the shared page, taken and dropped by any number of threads, one
-- access at a time, with the patch that runs under it and the fork of the process. A thread that holds the
-- guard or is about to take it has SIGSEGV and SIGSYS blocked, so that no handler of its own comes
-- between. A failed sigprocmask, which ends the acquisition at once, is no step.
pub mod Exclusive
pub mod Forked
use linuwux_runtime.Base.{ℕ, ◌≡◌, ◌≢◌, Bool, true, false, ◌==◌, if◌then◌else◌}

-- OWNER, the process id, and whether a patch of the page has begun and not ended, as PATCH_STATE has it.
pub record Guarded : Type 0 where
  pub pid : ℕ
  pub owner : ℕ
  pub applying : Bool

-- Where a thread stands.
pub data Place : Type 0 where
  outside : Place
  loaded : (owner : ℕ) → Place  -- behind the load of OWNER
  taken : (previous : ℕ) → Place  -- behind the compare-exchange
  holding : Place
  patching : Place  -- in the closure that PatchState.patch calls

-- One access of a thread.
pub data Access (m : Guarded) : Place → Guarded → Place → Type 0 where
  load : Access m outside m (loaded m.owner)
  held : {o : ℕ} → o ≡ m.pid → Access m (loaded o) m outside
  lost : {o : ℕ} → m.owner ≢ o → Access m (loaded o) m outside
  take :
      {o : ℕ} → o ≢ m.pid → m.owner ≡ o → Access m (loaded o) (record m { owner = m.pid }) (taken o)
  recover : {o : ℕ} → o ≢ 0 → Access m (taken o) (record m { applying = false }) holding
  acquire : Access m (taken 0) m holding
  begin : m.applying ≡ false → Access m holding (record m { applying = true }) patching
  finish : Access m patching (record m { applying = false }) holding
  release : Access m holding (record m { owner = 0 }) outside

abbrev pub place : (ℕ → Place) → ℕ → Place → ℕ → Place
place pc i p j = if i == j then p else pc j

pub record Process : Type 0 where
  pub guarded : Guarded
  pub pc : ℕ → Place

-- A fork leaves the child one thread, which is outside, and what the words of the parent say.
pub data Move (t : Process) : Process → Type 0 where
  accesses :
      (i : ℕ) {m : Guarded} {p : Place}
      → Access t.guarded (t.pc i) m p
      → Move t (record { guarded = m; pc = place t.pc i p })
  forks :
      (child : ℕ)
      → child ≢ 0
      → Move t (record { guarded = record t.guarded { pid = child }; pc = λ _. outside })

pub data Reached : Process → Type 0 where
  starts :
      (pid : ℕ)
      → pid ≢ 0
      → Reached (record {
        guarded = record { pid = pid; owner = 0; applying = false };
        pc = λ _. outside;
      })
  moves : {s t : Process} → Reached s → Move s t → Reached t
