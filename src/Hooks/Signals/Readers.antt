-- ===== src/Hooks/Signals/Readers.antt =====
-- runtime/src/hooks.rs: `copy_saved_action` and `release_snapshot` of one signal slot by any number of
-- threads, one access at a time and in any order. A snapshot is its address, and 0 is no snapshot. The
-- update lock makes the updates one at a time, so that one program counter is enough for them. Every
-- access is taken as sequentially consistent, as the source asks for.
use linuwux_runtime.Base.{ℕ, ◌+◌, ◌-◌, ◌≡◌, ◌≢◌, ◌<◌, Bool, true, false, ◌==◌, if◌then◌else◌}

-- The atomics of the slot, and which snapshots are allocated.
pub record Slot : Type 0 where
  pub current : ℕ
  pub readers : ℕ
  pub live : ℕ → Bool

-- Where a thread stands that forwards a signal.
pub data Reader : Type 0 where
  outside : Reader
  entered : Reader  -- behind the increment of `readers`
  reading : (snapshot : ℕ) → Reader  -- behind the load of `current`
  leaving : (snapshot : ℕ) → Reader  -- behind the copy of the action
  resetting : (snapshot : ℕ) → Reader  -- before the compare-exchange for SA_RESETHAND

-- Where the update stands that holds the lock.
pub data Updater : Type 0 where
  unlocked : Updater
  allocated : (snapshot : ℕ) → Updater  -- behind `malloc`
  swapped : (old snapshot : ℕ) → Updater  -- behind the swap of `current`, before the real sigaction
  waiting : (released : ℕ) → Updater  -- in the loop of `release_snapshot`
  freeing : (released : ℕ) → Updater  -- behind its load of 0

abbrev pub set_live : (ℕ → Bool) → ℕ → Bool → ℕ → Bool
set_live live s b t = if s == t then b else live t

-- One access of a thread that forwards a signal.
pub data Read (m : Slot) : Reader → Slot → Reader → Type 0 where
  enter : Read m outside (record m { readers = m.readers + 1 }) entered
  load : Read m entered m (reading m.current)
  copy : {s : ℕ} → Read m (reading s) m (leaving s)
  leave : {s : ℕ} → Read m (leaving s) (record m { readers = m.readers - 1 }) outside
  leave_once : {s : ℕ} → Read m (leaving s) (record m { readers = m.readers - 1 }) (resetting s)
  reset : {s : ℕ} → m.current ≡ s → Read m (resetting s) (record m { current = 0 }) outside
  reset_late : {s : ℕ} → m.current ≢ s → Read m (resetting s) m outside

-- One access of the update. `malloc` gives any address that is not allocated.
pub data Update (m : Slot) : Updater → Slot → Updater → Type 0 where
  allocate :
      {s : ℕ}
      → s ≢ 0
      → m.live s ≡ false
      → Update m unlocked (record m { live = set_live m.live s true }) (allocated s)
  swap : {s : ℕ} → Update m (allocated s) (record m { current = s }) (swapped m.current s)
  installed : {old s : ℕ} → Update m (swapped old s) m (waiting old)
  failed : {old s : ℕ} → Update m (swapped old s) (record m { current = old }) (waiting m.current)
  nothing : {f : ℕ} → f ≡ 0 → Update m (waiting f) m unlocked
  drained : {f : ℕ} → f ≢ 0 → m.readers ≡ 0 → Update m (waiting f) m (freeing f)
  free : {f : ℕ} → Update m (freeing f) (record m { live = set_live m.live f false }) unlocked

abbrev pub update : (ℕ → Reader) → ℕ → Reader → ℕ → Reader
update pc i p j = if i == j then p else pc j

-- The slot, the threads and the update.
pub record Threads : Type 0 where
  pub slot : Slot
  pub pc : ℕ → Reader
  pub updater : Updater

-- A move of one of the first `n` threads, of the update, or a fork: `after_fork` in the child, where no
-- other thread is left and the forking one forwards no signal.
pub data Step (n : ℕ) (t : Threads) : Threads → Type 0 where
  reads :
      (i : ℕ) {m : Slot} {p : Reader}
      → i < n
      → Read t.slot (t.pc i) m p
      → Step n t (record t { slot = m; pc = update t.pc i p })
  updates :
      {m : Slot} {u : Updater}
      → Update t.slot t.updater m u
      → Step n t (record t { slot = m; updater = u })
  forks :
      Step n t
        (record { slot = record t.slot { readers = 0 }; pc = λ _. outside; updater = unlocked })

-- A new process.
abbrev pub fresh : Threads
fresh = record {
  slot = record { current = 0; readers = 0; live = λ _. false };
  pc = λ _. outside;
  updater = unlocked;
}

pub data Reach (n : ℕ) : Threads → Type 0 where
  start : Reach n fresh
  later : {s t : Threads} → Reach n s → Step n s t → Reach n t
