-- ===== src/Tests/Snapshots.antt =====
-- A thread reads a snapshot while an update puts another in its place.
use linuwux_runtime.Base.{ℕ, ◌<◌, ◌≡◌, ◌≢◌, refl, true, false, arith}
use linuwux_runtime.Hooks.Signals.Readers.{
  outside, entered, reading, swapped, freeing, set_live, enter, load, allocate, swap, installed,
  nothing, update, Threads, reads, updates, Reach, start, later,
}
use linuwux_runtime.Hooks.Signals.Reclaim.{snapshots_reclaimed}

-- Thread 0 holds the snapshot at 8; the one at 16 was stored a moment ago.
abbrev overtaken : Threads
overtaken = record {
  slot = record {
    current = 16;
    readers = 1;
    live = set_live (set_live (λ _. false) 8 true) 16 true;
  };
  pc = update (update (λ _. outside) 0 entered) 0 (reading 8);
  updater = swapped 8 16;
}

first_stored : (t : Threads) × Reach 2 t
first_stored = (
  _,
  later
      (later
        (later (later start (updates (allocate {s = 8} (λ e. omega arith) refl))) (updates swap))
        (updates installed))
      (updates (nothing refl)),
)

reached : Reach 2 overtaken
unfolding first_stored
reached =
    later
      (later
        (later (later first_stored.1 (reads 0 (omega arith) enter)) (reads 0 (omega arith) load))
        (updates (allocate {s = 16} (λ e. omega arith) refl)))
      (updates swap)

snapshots_reclaimed_example :
    ((i s : ℕ) → i < 2 → overtaken.pc i ≡ reading s → s ≢ 0 → overtaken.slot.live s ≡ true)
    × ((old s : ℕ) → overtaken.updater ≡ swapped old s → old ≢ 0 → overtaken.slot.live old ≡ true)
    × ((f : ℕ)
        → overtaken.updater ≡ freeing f
        → (overtaken.slot.live f ≡ true) × ((i : ℕ) → i < 2 → overtaken.pc i ≢ reading f))
snapshots_reclaimed_example = snapshots_reclaimed 2 reached
