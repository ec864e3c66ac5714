-- ===== src/PageGuard/Exclusive.antt =====
-- One thread of a process has the guard, and no patch is left over under it.
use linuwux_runtime.Base.{
  ℕ, ◌≡◌, ◌≢◌, refl, sym, subst, ◌∙◌, ◌⊎◌, inl, inr, Bool, true, false, ◌==◌, Bool-cases, arith,
}
use linuwux_runtime.PageGuard.{
  Guarded, Place, outside, loaded, taken, holding, patching, Access, load, held, lost, take,
  recover, acquire, begin, finish, release, place, Process, accesses, forks, Reached, starts, moves,
}

-- Behind the compare-exchange and before the release.
abbrev pub inside : Place → Bool
inside outside = false
inside (loaded o) = false
inside (taken o) = true
inside holding = true
inside patching = true

-- Where no patch may be left over.
abbrev pub clear : Place → Bool
clear outside = false
clear (loaded o) = false
clear (taken o) = o == 0
clear holding = true
clear patching = false

clear-inside : (p : Place) → clear p ≡ true → inside p ≡ true
clear-inside outside e = e
clear-inside (loaded o) e = e
clear-inside (taken o) e = refl
clear-inside holding e = refl
clear-inside patching e = refl

-- What the words say.
abbrev Words : Guarded → Type 0
Words m = (m.pid ≢ 0) × (m.owner ≡ 0 → m.applying ≡ false)

-- What they say to a thread.
abbrev Seen : Guarded → Place → Type 0
Seen m p = (inside p ≡ true → m.owner ≡ m.pid) × (clear p ≡ true → m.applying ≡ false)

Access-Words : {m m' : Guarded} {p p' : Place} → Access m p m' p' → Words m → Seen m p → Words m'
Access-Words load w s = w
Access-Words (held own) w s = w
Access-Words (lost moved) w s = w
Access-Words (take other same) w s = (w.0, λ e. absurd (w.0 e))
Access-Words (recover stale) w s = (w.0, λ e. refl)
Access-Words acquire w s = w
Access-Words (begin idle) w s = (w.0, λ e. absurd (w.0 (sym (s.0 refl) ∙ e)))
Access-Words finish w s = (w.0, λ e. refl)
Access-Words release w s = (w.0, λ e. s.1 refl)

Access-Seen : {m m' : Guarded} {p p' : Place} → Access m p m' p' → Words m → Seen m p → Seen m' p'
Access-Seen load w s = (λ e. absurd (ground (arith, e)), λ e. absurd (ground (arith, e)))
Access-Seen (held own) w s = (λ e. absurd (ground (arith, e)), λ e. absurd (ground (arith, e)))
Access-Seen (lost moved) w s = (λ e. absurd (ground (arith, e)), λ e. absurd (ground (arith, e)))
Access-Seen (take other same) w s = (λ e. refl, λ e. w.1 (ground (arith, same, e)))
Access-Seen (recover stale) w s = (λ e. s.0 refl, λ e. refl)
Access-Seen acquire w s = (λ e. s.0 refl, λ e. s.1 refl)
Access-Seen (begin idle) w s = (λ e. s.0 refl, λ e. absurd (ground (arith, e)))
Access-Seen finish w s = (λ e. s.0 refl, λ e. refl)
Access-Seen release w s = (λ e. absurd (ground (arith, e)), λ e. absurd (ground (arith, e)))

-- A thread that does not move, and is not inside together with the one that does.
Access-other :
    {m m' : Guarded} {p p' : Place} (q : Place)
    → Access m p m' p'
    → (inside p ≡ true → inside q ≡ false)
    → Seen m q
    → Seen m' q
Access-other q load apart s = s
Access-other q (held own) apart s = s
Access-other q (lost moved) apart s = s
Access-other q (take other same) apart s = (λ e. refl, s.1)
Access-other q (recover stale) apart s = (s.0, λ e. refl)
Access-other q acquire apart s = s
Access-other q (begin idle) apart s =
    (s.0, λ e. absurd (ground (arith, apart refl, clear-inside q e)))
Access-other q finish apart s = (s.0, λ e. refl)
Access-other q release apart s = (λ e. absurd (ground (arith, apart refl, e)), s.1)

-- A thread that gets inside finds an owner that is not this process.
Access-entry :
    {m m' : Guarded} {p p' : Place}
    → Access m p m' p'
    → inside p' ≡ true
    → (inside p ≡ true) ⊎ (m.owner ≢ m.pid)
Access-entry load e = inl e
Access-entry (held own) e = inl e
Access-entry (lost moved) e = inl e
Access-entry (take other same) e = inr (λ own. other (sym same ∙ own))
Access-entry (recover stale) e = inl refl
Access-entry acquire e = inl refl
Access-entry (begin idle) e = inl refl
Access-entry finish e = inl refl
Access-entry release e = inl refl

record Inv (t : Process) : Type 0 where
  words : Words t.guarded
  seen : (i : ℕ) → Seen t.guarded (t.pc i)
  alone : (i j : ℕ) → inside (t.pc i) ≡ true → inside (t.pc j) ≡ true → i ≡ j

module _ {t : Process} {i : ℕ} {m : Guarded} {p : Place} (inv : Inv t)
    (mv : Access t.guarded (t.pc i) m p) where
  -- If the thread that moves is inside afterwards, no other one is.
  mover_alone : (j : ℕ) → inside p ≡ true → inside (t.pc j) ≡ true → i ≡ j
  mover_alone j e at_j = elim (Access-entry mv e) [
    | inl was ↦ inv.alone i j was at_j
    | inr other ↦ absurd (other ((inv.seen j).0 at_j))
  ]

  moved_alone :
      (j k : ℕ) → inside (place t.pc i p j) ≡ true → inside (place t.pc i p k) ≡ true → j ≡ k
  moved_alone j k at_j at_k = elim (Bool-cases (i == j)) [
    | inl is_j ↦ elim (Bool-cases (i == k)) [
      | inl is_k ↦ ground (arith, is_j, is_k)
      | inr not_k ↦
          let to_k : i ≡ k =
            mover_alone k (ground (arith, is_j, at_j)) (ground (arith, not_k, at_k)) in
          ground (arith, not_k, to_k)
    ]
    | inr not_j ↦ elim (Bool-cases (i == k)) [
      | inl is_k ↦
          let to_j : i ≡ j =
            mover_alone j (ground (arith, is_k, at_k)) (ground (arith, not_j, at_j)) in
          ground (arith, not_j, to_j)
      | inr not_k ↦ inv.alone j k (ground (arith, not_j, at_j)) (ground (arith, not_k, at_k))
    ]
  ]

  apart : (j : ℕ) → (i == j) ≡ false → inside (t.pc i) ≡ true → inside (t.pc j) ≡ false
  apart j differ at_i = elim (Bool-cases (inside (t.pc j))) [
    | inl also ↦ let same = inv.alone i j at_i also in absurd (ground (arith, same, differ))
    | inr away ↦ away
  ]

  Access-Inv : Inv (record { guarded = m; pc = place t.pc i p })
  Access-Inv = record {
    words = Access-Words mv inv.words (inv.seen i);
    seen = λ j. elim (Bool-cases (i == j)) [
      | inl same ↦ rw (same) (Access-Seen mv inv.words (inv.seen i))
      | inr other ↦ rw (other) (Access-other (t.pc j) mv (apart j other) (inv.seen j))
    ];
    alone = moved_alone;
  }

-- Nothing is inside in a process that has begun or has been forked.
outside-Seen : (m : Guarded) → Seen m outside
outside-Seen m = (λ e. absurd (ground (arith, e)), λ e. absurd (ground (arith, e)))

Reached-Inv : {t : Process} → Reached t → Inv t
Reached-Inv (starts pid live) = record {
  words = (live, λ e. refl);
  seen = λ i. outside-Seen _;
  alone = λ i j at_i at_j. absurd (ground (arith, at_i));
}
Reached-Inv (moves r (accesses i mv)) = Access-Inv (Reached-Inv r) mv
Reached-Inv (moves r (forks child live)) = record {
  words = (live, (Reached-Inv r).words.1);
  seen = λ i. outside-Seen _;
  alone = λ i j at_i at_j. absurd (ground (arith, at_i));
}

-- In every state that the threads of a process and of those it is forked from can reach, whatever a fork
-- left over: if two threads are between the compare-exchange and the release, both are the same one, and
-- OWNER is its process; and it does not hold the guard outside of a patch while a patch is left over.
pub guard_alone :
    {t : Process} (i j : ℕ)
    → Reached t
    → inside (t.pc i) ≡ true
    → inside (t.pc j) ≡ true
    → (i ≡ j)
      × (t.guarded.owner ≡ t.guarded.pid)
      × ((t.pc i ≢ holding) ⊎ (t.guarded.applying ≡ false))
guard_alone {t} i j r at_i at_j =
    let inv = Reached-Inv r in
    (
      inv.alone i j at_i at_j,
      (inv.seen i).0 at_i,
      elim (Bool-cases (clear (t.pc i))) [
        | inl is_clear ↦ inr ((inv.seen i).1 is_clear)
        | inr unclear ↦ inl (λ holds.
            let is_clear : clear (t.pc i) ≡ true = subst (λ p. clear p ≡ true) (sym holds) refl in
            ground (arith, unclear, is_clear))
      ],
    )
