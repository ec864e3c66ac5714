-- ===== src/Hooks/Signals/Reclaim.antt =====
-- No snapshot of a signal's action is read, or freed, after it was freed.
use linuwux_runtime.Base.{
  ℕ, zero, suc, ◌+◌, ◌≤◌, ◌<◌, ◌≡◌, ◌≢◌, refl, sym, subst, ◌∙◌, ◌⊎◌, inl, inr, Bool, true, ◌==◌,
  Bool-cases, arith,
}
use linuwux_runtime.Hooks.Signals.Readers.{
  Slot, Reader, outside, entered, reading, leaving, resetting, Updater, unlocked, allocated,
  swapped, waiting, freeing, Read, enter, load, copy, leave, leave_once, reset, reset_late, Update,
  allocate, swap, installed, failed, nothing, drained, free, update, Threads, reads, updates, forks,
  fresh, Reach, start, later,
}

-- Whether a thread is counted in `readers`.
abbrev counted_in : Reader → ℕ
counted_in outside = 0
counted_in entered = 1
counted_in (reading s) = 1
counted_in (leaving s) = 1
counted_in (resetting s) = 0

-- How many of the first `n` threads are.
total : ℕ → (ℕ → Reader) → ℕ
total zero pc = 0
total (suc n) pc = counted_in (pc n) + total n pc

total-update_above :
    (n i : ℕ) (pc : ℕ → Reader) (p : Reader) → n ≤ i → total n (update pc i p) ≡ total n pc
unfolding total
total-update_above zero i pc p le = refl
total-update_above (suc n) i pc p le = ground (arith, total-update_above n i pc p)

total-update :
    (n i : ℕ) (pc : ℕ → Reader) (p : Reader)
    → i < n
    → total n (update pc i p) + counted_in (pc i) ≡ total n pc + counted_in p
unfolding total
total-update zero i pc p lt = absurd (omega arith)
total-update (suc n) i pc p lt = elim (Bool-cases (i == n)) [
  | inl same ↦
      let at_n : i ≡ n = ground (arith, same) in
      let rest = total-update_above n i pc p (omega arith) in ground (arith, rest)
  | inr other ↦ ground (arith, total-update n i pc p)
]

counted_in-le-total : (n i : ℕ) (pc : ℕ → Reader) → i < n → counted_in (pc i) ≤ total n pc
unfolding total
counted_in-le-total zero i pc lt = absurd (omega arith)
counted_in-le-total (suc n) i pc lt = ground (arith, counted_in-le-total n i pc)

total-outside : (n : ℕ) → total n (λ _. outside) ≡ 0
unfolding total
total-outside zero = refl
total-outside (suc n) = ground (arith, total-outside n)

-- What the locals of a thread say: a snapshot that it reads is not the one that is about to be freed.
abbrev Spares : Updater → ℕ → Type 0
Spares (freeing f) s = s ≢ f
Spares _ s = Unit {0}

abbrev Held : (ℕ → Bool) → Updater → Reader → Type 0
Held live u (reading s) = s ≢ 0 → (live s ≡ true) × Spares u s
Held live u _ = Unit {0}

-- What the locals of the update say.
abbrev Owned : (ℕ → Bool) → ℕ → Updater → Type 0
Owned live current unlocked = Unit {0}
Owned live current (allocated s) = (s ≢ 0) × (live s ≡ true) × (current ≢ s)
Owned live current (swapped old s) =
    (s ≢ 0)
    × (live s ≡ true)
    × (old ≢ s)
    × (old ≢ 0 → live old ≡ true)
    × ((current ≡ s) ⊎ (current ≡ 0))
Owned live current (waiting f) = f ≢ 0 → (live f ≡ true) × (current ≢ f)
Owned live current (freeing f) = (f ≢ 0) × (live f ≡ true) × (current ≢ f)

abbrev Current : (ℕ → Bool) → ℕ → Type 0
Current live current = current ≢ 0 → live current ≡ true

record Inv (n : ℕ) (t : Threads) : Type 0 where
  counted : t.slot.readers ≡ total n t.pc
  current : Current t.slot.live t.slot.current
  held : (i : ℕ) → i < n → Held t.slot.live t.updater (t.pc i)
  owned : Owned t.slot.live t.slot.current t.updater

fresh-Inv : (n : ℕ) → Inv n fresh
fresh-Inv n = record {
  counted = sym (total-outside n);
  current = λ h. absurd (h refl);
  held = λ i lt. tt;
  owned = tt;
}

Owned-reset : (live : ℕ → Bool) (current : ℕ) (u : Updater) → Owned live current u → Owned live 0 u
Owned-reset live current unlocked o = tt
Owned-reset live current (allocated s) o = ground arith
Owned-reset live current (swapped old s) o = (o.0, o.1, o.2, o.3, inr refl)
Owned-reset live current (waiting f) o = λ h. ((o h).0, λ e. h (sym e))
Owned-reset live current (freeing f) o = ground arith

Owned-Spares :
    (live : ℕ → Bool) (current : ℕ) (u : Updater) → Owned live current u → Spares u current
Owned-Spares live current unlocked o = tt
Owned-Spares live current (allocated s) o = tt
Owned-Spares live current (swapped old s) o = tt
Owned-Spares live current (waiting f) o = tt
Owned-Spares live current (freeing f) o = o.2

-- A move of a thread leaves the allocations, and changes `current` at most to 0.
module _ (u : Updater) where
  Read-Owned :
      {m m' : Slot} {p p' : Reader}
      → Read m p m' p'
      → Owned m.live m.current u
      → Owned m'.live m'.current u
  Read-Owned enter o = o
  Read-Owned load o = o
  Read-Owned copy o = o
  Read-Owned leave o = o
  Read-Owned leave_once o = o
  Read-Owned {m} (reset e) o = Owned-reset m.live m.current u o
  Read-Owned (reset_late e) o = o

  Read-Held :
      {m m' : Slot} {p p' : Reader}
      → Read m p m' p'
      → Current m.live m.current
      → Owned m.live m.current u
      → Held m'.live u p'
  Read-Held enter c o = tt
  Read-Held {m} load c o = λ h. (c h, Owned-Spares m.live m.current u o)
  Read-Held copy c o = tt
  Read-Held leave c o = tt
  Read-Held leave_once c o = tt
  Read-Held (reset e) c o = tt
  Read-Held (reset_late e) c o = tt

Read-live : {m m' : Slot} {p p' : Reader} → Read m p m' p' → m'.live ≡ m.live
Read-live enter = refl
Read-live load = refl
Read-live copy = refl
Read-live leave = refl
Read-live leave_once = refl
Read-live (reset e) = refl
Read-live (reset_late e) = refl

Read-current :
    {m m' : Slot} {p p' : Reader}
    → Read m p m' p'
    → Current m.live m.current
    → Current m'.live m'.current
Read-current enter c = c
Read-current load c = c
Read-current copy c = c
Read-current leave c = c
Read-current leave_once c = c
Read-current (reset e) c = λ h. absurd (h refl)
Read-current (reset_late e) c = c

-- `readers` follows the program counter.
Read-counted :
    {m m' : Slot} {p p' : Reader}
    → Read m p m' p'
    → counted_in p ≤ m.readers
    → m'.readers + counted_in p ≡ m.readers + counted_in p'
Read-counted enter le = omega arith
Read-counted load le = omega arith
Read-counted copy le = omega arith
Read-counted leave le = omega arith
Read-counted leave_once le = omega arith
Read-counted (reset e) le = omega arith
Read-counted (reset_late e) le = omega arith

Read-Inv :
    (n : ℕ) {t : Threads} (i : ℕ) {m : Slot} {p : Reader}
    → i < n
    → Inv n t
    → Read t.slot (t.pc i) m p
    → Inv n (record t { slot = m; pc = update t.pc i p })
Read-Inv n {t} i {m} {p} lt inv mv = record {
  counted =
      let before : counted_in (t.pc i) ≤ t.slot.readers =
        omega (arith, counted_in-le-total n i t.pc lt, inv.counted) in
      omega (arith, total-update n i t.pc p lt, inv.counted, Read-counted mv before);
  current = Read-current mv inv.current;
  held = λ j lt_j. elim (Bool-cases (i == j)) [
    | inl same ↦ rw (same) (Read-Held t.updater mv inv.current inv.owned)
    | inr other ↦
        rw (other)
          (subst (λ live. Held live t.updater (t.pc j)) (sym (Read-live mv)) (inv.held j lt_j))
  ];
  owned = Read-Owned t.updater mv inv.owned;
}

Update-readers : {m m' : Slot} {u u' : Updater} → Update m u m' u' → m'.readers ≡ m.readers
Update-readers (allocate pos new) = refl
Update-readers swap = refl
Update-readers installed = refl
Update-readers failed = refl
Update-readers (nothing e) = refl
Update-readers (drained pos none_inside) = refl
Update-readers free = refl

Update-current :
    {m m' : Slot} {u u' : Updater}
    → Update m u m' u'
    → Owned m.live m.current u
    → Current m.live m.current
    → Current m'.live m'.current
Update-current (allocate pos new) o c = λ h. ground (arith, c h)
Update-current swap o c = λ h. o.1
Update-current installed o c = c
Update-current failed o c = o.3
Update-current (nothing e) o c = c
Update-current (drained pos none_inside) o c = c
Update-current free o c = λ h. ground (arith, c h)

Update-Owned :
    {m m' : Slot} {u u' : Updater}
    → Update m u m' u'
    → Owned m.live m.current u
    → Current m.live m.current
    → Owned m'.live m'.current u'
Update-Owned {m} (allocate {s} pos new) o c = (
  pos,
  ground arith,
  λ e.
      let alive : m.live s ≡ true =
        subst (λ a. m.live a ≡ true) e (c (λ zeroed. pos (sym e ∙ zeroed))) in
      cc,
)
Update-Owned {m} (swap {s}) o c = (o.0, o.1, o.2, c, inl refl)
Update-Owned {m} (installed {old} {s}) o c = λ read. (
  o.3 read,
  elim o.4 [ inl stored ↦ λ e. o.2 (sym e ∙ stored) | inr cleared ↦ λ e. read (sym e ∙ cleared) ],
)
Update-Owned {m} (failed {old} {s}) o c = λ read. elim o.4 [
  | inl stored ↦ (subst (λ a. m.live a ≡ true) (sym stored) o.1, λ e. o.2 (e ∙ stored))
  | inr cleared ↦ absurd (read cleared)
]
Update-Owned (nothing e) o c = tt
Update-Owned (drained pos none_inside) o c = (pos, (o pos).0, (o pos).1)
Update-Owned free o c = tt

-- An address that is freed is not one that a thread reads.
Update-Held :
    (q : Reader) {m m' : Slot} {u u' : Updater}
    → Update m u m' u'
    → (m.readers ≡ 0 → counted_in q ≡ 0)
    → Held m.live u q
    → Held m'.live u' q
Update-Held (reading s) (allocate pos new) alone h = λ read. (ground (arith, h read), tt)
Update-Held (reading s) swap alone h = λ read. ((h read).0, tt)
Update-Held (reading s) installed alone h = λ read. ((h read).0, tt)
Update-Held (reading s) failed alone h = λ read. ((h read).0, tt)
Update-Held (reading s) (nothing e) alone h = λ read. ((h read).0, tt)
Update-Held (reading s) (drained pos none_inside) alone h =
    absurd (omega (arith, alone none_inside))
Update-Held (reading s) free alone h = λ read. (ground (arith, h read), tt)
Update-Held outside mv alone h = tt
Update-Held entered mv alone h = tt
Update-Held (leaving s) mv alone h = tt
Update-Held (resetting s) mv alone h = tt

Update-Inv :
    (n : ℕ) {t : Threads} {m : Slot} {u : Updater}
    → Inv n t
    → Update t.slot t.updater m u
    → Inv n (record t { slot = m; updater = u })
Update-Inv n {t} inv mv = record {
  counted = Update-readers mv ∙ inv.counted;
  current = Update-current mv inv.owned inv.current;
  held = λ i lt.
      Update-Held (t.pc i) mv
        (λ none_inside. omega (arith, none_inside, counted_in-le-total n i t.pc lt, inv.counted))
        (inv.held i lt);
  owned = Update-Owned mv inv.owned inv.current;
}

forks-Inv :
    (n : ℕ) (t : Threads)
    → Inv n t
    → Inv n (record { slot = record t.slot { readers = 0 }; pc = λ _. outside; updater = unlocked })
forks-Inv n t inv = record {
  counted = sym (total-outside n);
  current = inv.current;
  held = λ i lt. tt;
  owned = tt;
}

Reach-Inv : (n : ℕ) {t : Threads} → Reach n t → Inv n t
Reach-Inv n start = fresh-Inv n
Reach-Inv n (later r (reads i lt mv)) = Read-Inv n i lt (Reach-Inv n r) mv
Reach-Inv n (later r (updates mv)) = Update-Inv n (Reach-Inv n r) mv
Reach-Inv n (later {s} r forks) = forks-Inv n s (Reach-Inv n r)

-- In every reachable state of any number of threads, what a thread reads is allocated, what the update
-- copies out before it installs the new action is allocated, and what it is about to free is allocated
-- and is read by no thread.
pub snapshots_reclaimed :
    (n : ℕ) {t : Threads}
    → Reach n t
    → ((i s : ℕ) → i < n → t.pc i ≡ reading s → s ≢ 0 → t.slot.live s ≡ true)
      × ((old s : ℕ) → t.updater ≡ swapped old s → old ≢ 0 → t.slot.live old ≡ true)
      × ((f : ℕ)
          → t.updater ≡ freeing f
          → (t.slot.live f ≡ true) × ((i : ℕ) → i < n → t.pc i ≢ reading f))
snapshots_reclaimed n {t} r =
    let inv = Reach-Inv n r in
    (
      λ i s lt at read. (subst (λ p. Held t.slot.live t.updater p) at (inv.held i lt) read).0,
      λ old s at copied. (subst (λ u. Owned t.slot.live t.slot.current u) at inv.owned).3 copied,
      λ f at.
          let freed = subst (λ u. Owned t.slot.live t.slot.current u) at inv.owned in
          (
            freed.1,
            λ i lt at_i.
                let held : Held t.slot.live (freeing f) (reading f) =
                  subst (λ p. Held t.slot.live (freeing f) p) at_i
                    (subst (λ u. Held t.slot.live u (t.pc i)) at (inv.held i lt)) in
                (held freed.0).1 refl,
          ),
    )
