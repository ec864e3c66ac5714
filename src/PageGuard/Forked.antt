-- ===== src/PageGuard/Forked.antt =====
-- The child of a fork takes over the guard that its parent left taken.
use linuwux_runtime.Base.{
  ℕ, suc, ◌≡◌, ◌≢◌, refl, sym, subst, ap, inl, inr, ◌∙◌, inl, inr, true, false, ◌==◌, Bool-cases,
  arith,
}
use linuwux_runtime.PageGuard.{
  Guarded, Place, outside, loaded, taken, holding, Access, load, take, recover, acquire, place,
  Process, accesses, forks, Reached, moves,
}
use linuwux_runtime.PageGuard.Exclusive.{inside, guard_alone}

-- So many accesses of one thread, the last one at the end; no other thread moves, and nothing forks.
pub data Accesses (i : ℕ) (t : Process) : ℕ → Process → Type 0 where
  none_yet : Accesses i t 0 t
  further :
      {n : ℕ} {u : Process} {m : Guarded} {p : Place}
      → Accesses i t n u
      → Access u.guarded (u.pc i) m p
      → Accesses i t (suc n) (record { guarded = m; pc = place u.pc i p })

place_same : (pc : ℕ → Place) (i : ℕ) (p : Place) → place pc i p i ≡ p
place_same pc i p = ground arith

-- An access of a thread that stands where it begins.
access_at :
    {i n : ℕ} {t u : Process} {m : Guarded} {p p' : Place}
    → Accesses i t n u
    → u.pc i ≡ p
    → Access u.guarded p m p'
    → Accesses i t (suc n) (record { guarded = m; pc = place u.pc i p' })
access_at {i} {n} {t} {u} {m} {p} {p'} before stands mv =
    further before (subst (λ q. Access u.guarded q m p') (sym stands) mv)

abbrev forked : Process → ℕ → Process
forked t child = record { guarded = record t.guarded { pid = child }; pc = λ _. outside }

-- Behind the compare-exchange of the only thread.
abbrev taking : Process → ℕ → ℕ → Process
taking t child i = record {
  guarded = record t.guarded { pid = child; owner = child };
  pc = place (place (λ _. outside) i (loaded t.guarded.owner)) i (taken t.guarded.owner);
}

taking-Accesses :
    (t : Process) (child i : ℕ)
    → t.guarded.owner ≢ child
    → Accesses i (forked t child) 2 (taking t child i)
taking-Accesses t child i other =
    access_at (access_at none_yet refl load) (place_same (λ _. outside) i (loaded t.guarded.owner))
      (take other refl)

Accesses-Reached :
    {i : ℕ} {t : Process} {n : ℕ} {u : Process} → Reached t → Accesses i t n u → Reached u
Accesses-Reached r none_yet = r
Accesses-Reached {i} r (further l mv) = moves (Accesses-Reached r l) (accesses i mv)

-- The last of the accesses, which has nothing left over behind it.
holds_end :
    {s u : Process} (child i n : ℕ)
    → Reached s
    → Accesses i s n u
    → u.pc i ≡ holding
    → u.guarded.owner ≡ child
    → (v : Process) × Accesses i s n v
      × (v.pc i ≡ holding)
      × (v.guarded.applying ≡ false)
      × (v.guarded.owner ≡ child)
holds_end {s} {u} child i n r l holds own =
    let within : inside (u.pc i) ≡ true = subst (λ p. inside p ≡ true) (sym holds) refl in
    let settled : u.guarded.applying ≡ false =
      elim (guard_alone i i (Accesses-Reached r l) within within).2 [
        | inl away ↦ absurd (away holds)
        | inr none_left ↦ none_left
      ] in
    (u, l, holds, settled, own)

-- Whatever the parent's threads were doing, and whether a patch was left over: three accesses of one
-- thread of the child, with no other move between them, give it the guard, and no patch is left over then;
-- the id of the child is not 0, and is not that of a process that still has the guard.
pub child_acquires :
    {t : Process} (child i : ℕ)
    → Reached t
    → child ≢ 0
    → t.guarded.owner ≢ child
    → (u : Process) × Accesses i
        (record { guarded = record t.guarded { pid = child }; pc = λ _. outside })
        3
        u
      × (u.pc i ≡ holding)
      × (u.guarded.applying ≡ false)
      × (u.guarded.owner ≡ child)
child_acquires {t} child i r live other =
    let r' : Reached (forked t child) = moves r (forks child live) in
    let l = taking-Accesses t child i other in
    let before = place (λ _. outside) i (loaded t.guarded.owner) in
    let at = place_same before i (taken t.guarded.owner) in
    let pc = (taking t child i).pc in
    elim (Bool-cases (t.guarded.owner == 0)) [
      | inl free ↦
          let none_had : t.guarded.owner ≡ 0 = ground (arith, free) in
          holds_end child i 3 r' (access_at l (at ∙ ap (λ (o : ℕ). taken o) none_had) acquire)
            (place_same pc i holding) refl
      | inr stale ↦
          let had : t.guarded.owner ≢ 0 = ground (arith, stale) in
          holds_end child i 3 r' (access_at l at (recover had)) (place_same pc i holding) refl
    ]
