-- ===== src/Syscall/Markers/Lifecycle.antt =====
-- A marker is consumed twice: once as a route, and once as a replay of the context of the first time.
use linuwux_runtime.Base.{
  ℕ, ◌+◌, ◌<◌, ◌≡◌, ◌≢◌, refl, ap, sym, subst, fun_ext, ◌∙◌, inl, inr, none, some, Bool-cases, true,
  false, ◌==◌, ◌||◌, arith,
}
use linuwux_runtime.Syscall.Markers.{
  marker_capacity, Marker, cleared_marker, Markers, put, is_free, is_marker, marker_slot,
  has_active_markers, find_marker, remember_marker, release_marker, SavedContext, route, replay,
  consume_marker,
}
use linuwux_runtime.Syscall.Markers.Count.{WellFormed}
use linuwux_runtime.Syscall.Markers.Probe.{hit, miss, probe-Probed, probe-only}

put-put : (slots : ℕ → Marker) (i : ℕ) (m m' : Marker) → put (put slots i m) i m' ≡ put slots i m'
put-put slots i m m' = fun_ext (λ j. ground arith)

put_at : (slots : ℕ → Marker) (i : ℕ) (m : Marker) → put slots i m i ≡ m
put_at slots i m = ground arith

-- Two tables have the same markers.
pub record SameMarkers (t u : Markers) : Type 0 where
  pub slots : (i : ℕ) → t.slots i ≡ u.slots i
  pub active : t.active ≡ u.active

find-absent :
    (t : Markers) (tid stack rip : ℕ)
    → ((i : ℕ) → i < marker_capacity → is_marker tid stack rip (t.slots i) ≡ false)
    → find_marker t tid stack rip ≡ none
unfolding find_marker
find-absent t tid stack rip absent =
    elim (probe-Probed (is_marker tid stack rip) t.slots (marker_slot stack)) [
      | hit i e lt pass ↦ absurd (ground (arith, absent i))
      | miss e none_passes ↦ ground (arith, e)
    ]

module _ (t : Markers) (tid stack rip : ℕ) (keyed : (tid ≢ 0) × (stack ≢ 0) × (rip ≢ 0))
    (free-cleared : (i : ℕ) → (t.slots i).stack ≡ 0 → t.slots i ≡ cleared_marker)
    (absent : (i : ℕ) → i < marker_capacity → is_marker tid stack rip (t.slots i) ≡ false) where
  -- The table with a marker of this key and phase in a slot.
  with_marker : ℕ → ℕ → SavedContext → Markers
  with_marker index phase saved = record {
    slots =
        put t.slots index
          (record { stack = stack; tid = tid; rip = rip; phase = phase; saved = saved });
    active = t.active + 1;
  }

  find-with_marker :
      (index phase : ℕ) (saved : SavedContext)
      → index < marker_capacity
      → find_marker (with_marker index phase saved) tid stack rip ≡ some index
  unfolding find_marker has_active_markers with_marker
  find-with_marker index phase saved lt =
      let found =
        probe-only (is_marker tid stack rip) (with_marker index phase saved).slots
          (marker_slot stack) index lt (ground arith) (λ j lt' pass. ground (arith, absent j)) in
      ground (arith, found)

  remembered :
      (remember_marker t tid stack rip).0 ≡ true
      → (index : ℕ) × (index < marker_capacity)
        × (t.slots index ≡ cleared_marker)
        × (remember_marker t tid stack rip ≡ (true, with_marker index 0 cleared_marker.saved))
  unfolding remember_marker with_marker
  remembered done = elim (probe-Probed is_free t.slots (marker_slot stack)) [
    | hit index e lt pass ↦
        let free : t.slots index ≡ cleared_marker = free-cleared index (ground (arith, pass)) in
        (index, lt, free, ground (arith, e, free))
    | miss e none_passes ↦ absurd (ground (arith, done, e))
  ]

  keyed_test : ((tid == 0) || (stack == 0) || (rip == 0)) ≡ false
  keyed_test = ground arith

  at_slot :
      (index phase : ℕ) (saved : SavedContext)
      → (with_marker index phase saved).slots index
        ≡ record { stack = stack; tid = tid; rip = rip; phase = phase; saved = saved }
  unfolding with_marker
  at_slot index phase saved = ground arith

  -- The route phase is closed in place.
  armed :
      (index : ℕ) (saved context : SavedContext)
      → record (with_marker index 0 saved) {
        slots =
            put
              (with_marker index 0 saved).slots
              index
              (record { stack = stack; tid = tid; rip = rip; phase = 1; saved = context });
      }
        ≡ with_marker index 1 context
  unfolding with_marker
  armed index saved context =
      ap (λ slots. record { slots = slots; active = t.active + 1 }) (put-put t.slots index _ _)

  routed :
      (index : ℕ) (saved context : SavedContext)
      → index < marker_capacity
      → consume_marker (with_marker index 0 saved) tid stack rip context
        ≡ (some route, with_marker index 1 context)
  unfolding consume_marker
  routed index saved context lt =
      rw (consume_marker, keyed_test, find-with_marker index 0 saved lt, at_slot index 0 saved)
        (ap (λ u. (some route, u)) (armed index saved context))

  replayed :
      (index : ℕ) (saved context : SavedContext)
      → index < marker_capacity
      → consume_marker (with_marker index 1 saved) tid stack rip context
        ≡ (some (replay saved), release_marker (with_marker index 1 saved) index stack)
  unfolding consume_marker
  replayed index saved context lt =
      rw (consume_marker, keyed_test, find-with_marker index 1 saved lt, at_slot index 1 saved) refl

  released :
      (index phase : ℕ) (saved : SavedContext)
      → t.slots index ≡ cleared_marker
      → SameMarkers t (release_marker (with_marker index phase saved) index stack)
  unfolding release_marker with_marker
  released index phase saved free = record {
    slots = λ i. ground (arith, free);
    active = ground arith;
  }

-- A table without the key: the call is refused and nothing changes.
consume-absent :
    (t : Markers) (tid stack rip : ℕ) (context : SavedContext)
    → ((i : ℕ) → i < marker_capacity → is_marker tid stack rip (t.slots i) ≡ false)
    → consume_marker t tid stack rip context ≡ (none, t)
unfolding consume_marker
consume-absent t tid stack rip context absent =
    elim (Bool-cases ((tid == 0) || (stack == 0) || (rip == 0))) [
      | inl e ↦ rw (consume_marker, e) refl
      | inr e ↦ rw (consume_marker, e, find-absent t tid stack rip absent) refl
    ]

remember-keyed :
    (t : Markers) (tid stack rip : ℕ)
    → (remember_marker t tid stack rip).0 ≡ true
    → (tid ≢ 0) × (stack ≢ 0) × (rip ≢ 0)
unfolding remember_marker
remember-keyed t tid stack rip done = elim (Bool-cases ((tid == 0) || (stack == 0) || (rip == 0))) [
  | inl e ↦ absurd (ground (arith, done, e))
  | inr e ↦ ground (arith, e)
]

-- The tables after one, two and three calls of `consume` for one key.
abbrev pub after_one : Markers → ℕ → ℕ → ℕ → SavedContext → Markers
after_one t tid stack rip first =
    (consume_marker (remember_marker t tid stack rip).1 tid stack rip first).1

abbrev pub after_two : Markers → ℕ → ℕ → ℕ → SavedContext → SavedContext → Markers
after_two t tid stack rip first second =
    (consume_marker (after_one t tid stack rip first) tid stack rip second).1

-- The three answers to a key that was just remembered, and what is left of it.
pub record ConsumedTwice (t : Markers) (tid stack rip : ℕ) (first second third : SavedContext)
    : Type 0 where
  pub routes :
      (consume_marker (remember_marker t tid stack rip).1 tid stack rip first).0 ≡ some route
  pub replays :
      (consume_marker (after_one t tid stack rip first) tid stack rip second).0
      ≡ some (replay first)
  pub ends : (consume_marker (after_two t tid stack rip first second) tid stack rip third).0 ≡ none
  pub restored : SameMarkers t (after_two t tid stack rip first second)

-- In a well-formed table without a marker of a key, a marker that `remember_marker` accepts for the
-- key is consumed exactly twice: the first `consume` answers the route phase, the second the replay
-- of the context that the first one saved, whatever context it is given itself, the third nothing,
-- and the table after the second is the one before the marker was remembered.
pub remember_marker-consume_marker :
    (t : Markers) (tid stack rip : ℕ) (first second third : SavedContext)
    → WellFormed t
    → ((i : ℕ) → i < marker_capacity → is_marker tid stack rip (t.slots i) ≡ false)
    → (remember_marker t tid stack rip).0 ≡ true
    → ConsumedTwice t tid stack rip first second third
remember_marker-consume_marker t tid stack rip first second third wf absent done =
    let keyed = remember-keyed t tid stack rip done in
    let (index, lt, free, start) = remembered t tid stack rip keyed wf.free absent done in
    let one = routed t tid stack rip keyed wf.free absent index cleared_marker.saved first lt in
    let two = replayed t tid stack rip keyed wf.free absent index first second lt in
    let same = released t tid stack rip keyed wf.free absent index 1 first free in
    let table =
      release_marker (with_marker t tid stack rip keyed wf.free absent index 1 first) index stack in
    let gone =
      consume-absent table tid stack rip third
        (λ i lt'. ap (is_marker tid stack rip) (sym (same.slots i)) ∙ absent i lt') in
    let step1 : after_one t tid stack rip first ≡ _ =
      ap (λ p. (consume_marker p.1 tid stack rip first).1) start ∙ ap (λ p. p.1) one in
    let step2 : after_two t tid stack rip first second ≡ table =
      ap (λ u. (consume_marker u tid stack rip second).1) step1 ∙ ap (λ p. p.1) two in
    record {
      routes = ap (λ p. (consume_marker p.1 tid stack rip first).0) start ∙ ap (λ p. p.0) one;
      replays = ap (λ u. (consume_marker u tid stack rip second).0) step1 ∙ ap (λ p. p.0) two;
      ends = ap (λ u. (consume_marker u tid stack rip third).0) step2 ∙ ap (λ p. p.0) gone;
      restored = subst (SameMarkers t) (sym step2) same;
    }
