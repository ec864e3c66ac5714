-- ===== src/PendingFrees/Remembered.antt =====
-- How long the ring remembers a free: for as many frees as it has slots, unless it is consumed.
use linuwux_runtime.Base.{
  ℕ, zero, suc, ◌+◌, ◌≤◌, ◌<◌, ◌≡◌, ◌≢◌, refl, inl, inr, Option, some, Bool-cases, Option-cases,
  true, false, arith, ◌==◌, if◌then◌else◌, ltb,
}
use linuwux_runtime.PendingFrees.{capacity, mark, consumes}
use linuwux_runtime.PendingFrees.Reference.{
  Reference, slot_is, position, ref_seen_or_mark, ref_consume, ref_call,
}

-- The search finds a slot that holds the address, and fails only if none does.
position_sound :
    (n i : ℕ) (slots : ℕ → Option ℕ) (a j : ℕ)
    → position n i slots a ≡ some j
    → slot_is (slots j) a ≡ true
unfolding position
position_sound zero i slots a j e = cc
position_sound (suc n) i slots a j e = elim (Bool-cases (slot_is (slots i) a)) [
  | inl here ↦ ground (arith, here)
  | inr not_here ↦ position_sound n (i + 1) slots a j (ground (arith, not_here))
]

position_complete :
    (n i : ℕ) (slots : ℕ → Option ℕ) (a x : ℕ)
    → i ≤ x
    → x < i + n
    → slots x ≡ some a
    → (j : ℕ) × (position n i slots a ≡ some j)
unfolding position
position_complete zero i slots a x le lt e = absurd (omega arith)
position_complete (suc n) i slots a x le lt e = elim (Bool-cases (slot_is (slots i) a)) [
  | inl here ↦ (i, rw here refl)
  | inr not_here ↦
      rw not_here (position_complete n (i + 1) slots a x (ground (arith, e)) (omega arith) e)
]

-- An address has a slot that the cursor reaches behind at least `frees` marks.
pub record Remembers (a frees : ℕ) (r : Reference) : Type 0 where
  pub index : ℕ
  pub holds : r.slots index ≡ some a
  pub in_ring : (index < capacity) × (r.next_index < capacity)
  pub far : r.next_index + frees ≤ index + (if ltb index r.next_index then capacity else 0)

-- What is remembered for long is remembered for a shorter time.
pub weaker_memory :
    (a more frees : ℕ) (r : Reference) → frees ≤ more → Remembers a more r → Remembers a frees r
weaker_memory a more frees r le kept = record {
  index = kept.index;
  holds = kept.holds;
  in_ring = kept.in_ring;
  far = ground arith;
}

pub Remembers-fewer :
    (a frees : ℕ) (r : Reference) → Remembers a (suc frees) r → Remembers a frees r
Remembers-fewer a frees r kept = record {
  index = kept.index;
  holds = kept.holds;
  in_ring = kept.in_ring;
  far = ground arith;
}

module _ (a frees b : ℕ) (r : Reference) where
  pub mark-Remembers : Remembers a (suc frees) r → Remembers a frees (ref_call r (mark b)).1
  unfolding ref_call ref_seen_or_mark
  mark-Remembers kept = elim (Bool-cases (b == 0)) [
    | inl null ↦ rw null (record {
      index = kept.index;
      holds = kept.holds;
      in_ring = kept.in_ring;
      far = ground (arith, kept.far, kept.in_ring);
    })
    | inr live ↦ elim (Option-cases (position capacity 0 r.slots b)) [
      | inl new ↦
          rw (live, ref_seen_or_mark, new)
            (record {
              index = kept.index;
              holds = ground (arith, kept.far, kept.holds);
              in_ring = ground (arith, kept.in_ring);
              far = ground (arith, kept.far, kept.in_ring);
            })
      | inr (i, seen) ↦
          rw (live, ref_seen_or_mark, seen)
            (record {
              index = kept.index;
              holds = kept.holds;
              in_ring = kept.in_ring;
              far = ground (arith, kept.far, kept.in_ring);
            })
    ]
  ]

  pub consumes-Remembers :
      b ≢ a → Remembers a frees r → Remembers a frees (ref_call r (consumes b)).1
  unfolding ref_call ref_consume
  consumes-Remembers other kept = elim (Bool-cases (b == 0)) [
    | inl null ↦ rw null kept
    | inr live ↦ elim (Option-cases (position capacity 0 r.slots b)) [
      | inl new ↦ rw (live, ref_consume, new) kept
      | inr (i, seen) ↦
          rw (live, ref_consume, seen)
            (record {
              index = kept.index;
              holds = ground (arith, position_sound capacity 0 r.slots b i seen, kept.holds, other);
              in_ring = kept.in_ring;
              far = kept.far;
            })
    ]
  ]

-- A marked address that was not known is remembered for the longest time.
pub first-Remembers :
    (a : ℕ) (r : Reference)
    → r.next_index < capacity
    → a ≢ 0
    → (ref_call r (mark a)).0 ≡ false
    → Remembers a 1023 (ref_call r (mark a)).1
unfolding ref_call ref_seen_or_mark
first-Remembers a r lt live new = elim (Option-cases (position capacity 0 r.slots a)) [
  | inl absent ↦
      let named : (a == 0) ≡ false = ground arith in
      rw (named, ref_seen_or_mark, absent)
        (record {
          index = r.next_index;
          holds = ground arith;
          in_ring = omega arith;
          far = ground arith;
        })
  | inr (i, seen) ↦
      let named : (a == 0) ≡ false = ground arith in
      let answer : (ref_call r (mark a)).0 ≡ true = rw (named, ref_seen_or_mark, seen) refl in
      absurd (ground (arith, answer, new))
]

pub again-seen :
    (a frees : ℕ) (r : Reference) → a ≢ 0 → Remembers a frees r → (ref_call r (mark a)).0 ≡ true
unfolding ref_call ref_seen_or_mark
again-seen a frees r live kept =
    let (i, e) =
      position_complete capacity 0 r.slots a kept.index (omega arith) (omega (arith, kept.in_ring))
        kept.holds in
    let named : (a == 0) ≡ false = ground arith in rw (named, ref_seen_or_mark, e) refl
