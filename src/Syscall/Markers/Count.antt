-- ===== src/Syscall/Markers/Count.antt =====
-- The count of the active markers is in step with the table, and a free slot is cleared.
use linuwux_runtime.Base.{
  ℕ, zero, suc, ◌+◌, ◌≤◌, ◌<◌, ◌≡◌, ◌≢◌, refl, inl, inr, Option-cases, some, Bool-cases, true, ◌==◌,
  ◌||◌, if◌then◌else◌, ltb, arith, u64_max,
}
use linuwux_runtime.Syscall.Markers.{
  marker_capacity, Marker, cleared_marker, Markers, no_markers, put, is_free, is_marker,
  marker_slot, find_marker, remember_marker, release_marker, retire_from, retire_markers,
  SavedContext, consume_marker, cancel,
}
use linuwux_runtime.Syscall.Markers.Probe.{hit, miss, probe-Probed}

abbrev pub weight : Marker → ℕ
weight m = if m.stack == 0 then 0 else 1

-- The live markers among the first `n` slots.
unfoldable pub live : ℕ → (ℕ → Marker) → ℕ
live zero slots = 0
live (suc n) slots = weight (slots n) + live n slots

live-put_above :
    (n i : ℕ) (slots : ℕ → Marker) (m : Marker) → n ≤ i → live n (put slots i m) ≡ live n slots
unfolding live
live-put_above zero i slots m le = refl
live-put_above (suc n) i slots m le = ground (arith, live-put_above n i slots m)

live-put :
    (n i : ℕ) (slots : ℕ → Marker) (m : Marker)
    → i < n
    → live n (put slots i m) + weight (slots i) ≡ live n slots + weight m
unfolding live
live-put zero i slots m lt = absurd (omega arith)
live-put (suc n) i slots m lt = elim (Bool-cases (i == n)) [
  | inl same ↦
      let at_n : i ≡ n = ground (arith, same) in
      let rest = live-put_above n i slots m (omega arith) in ground (arith, rest)
  | inr other ↦ ground (arith, live-put n i slots m)
]

pub live-weight : (n i : ℕ) (slots : ℕ → Marker) → i < n → weight (slots i) ≤ live n slots
unfolding live
live-weight zero i slots lt = absurd (omega arith)
live-weight (suc n) i slots lt = ground (arith, live-weight n i slots)

pub record WellFormed (t : Markers) : Type 0 where
  pub count : t.active ≡ live marker_capacity t.slots
  pub free : (i : ℕ) → (t.slots i).stack ≡ 0 → t.slots i ≡ cleared_marker

pub no_markers-WellFormed : WellFormed no_markers
unfolding live
no_markers-WellFormed = record { count = refl; free = λ i e. refl }

-- To fill a free slot, and to change a live one.
fill-WellFormed :
    (t : Markers) (i : ℕ) (m : Marker)
    → WellFormed t
    → i < marker_capacity
    → (t.slots i).stack ≡ 0
    → m.stack ≢ 0
    → WellFormed (record { slots = put t.slots i m; active = t.active + 1 })
fill-WellFormed t i m wf lt empty live_m = record {
  count = ground (arith, live-put marker_capacity i t.slots m, wf.count);
  free = λ j e. ground (arith, e, wf.free j);
}

change-WellFormed :
    (t : Markers) (i : ℕ) (m : Marker)
    → WellFormed t
    → i < marker_capacity
    → (t.slots i).stack ≢ 0
    → m.stack ≢ 0
    → WellFormed (record t { slots = put t.slots i m })
change-WellFormed t i m wf lt full live_m = record {
  count = ground (arith, live-put marker_capacity i t.slots m, wf.count);
  free = λ j e. ground (arith, e, wf.free j);
}

release-WellFormed :
    (t : Markers) (i stack : ℕ)
    → WellFormed t
    → i < marker_capacity
    → stack ≢ 0
    → WellFormed (release_marker t i stack)
unfolding release_marker
release-WellFormed t i stack wf lt keyed = elim (Bool-cases ((t.slots i).stack == stack)) [
  | inl same ↦
      rw (release_marker, same)
        (record {
          count = ground (arith, live-put marker_capacity i t.slots cleared_marker, wf.count);
          free = λ j e. ground (arith, e, wf.free j);
        })
  | inr other ↦ rw (release_marker, other) wf
]

-- What a search of a well-formed table finds under a thread is live.
find-live :
    (t : Markers) (tid stack rip i : ℕ)
    → WellFormed t
    → tid ≢ 0
    → find_marker t tid stack rip ≡ some i
    → (i < marker_capacity) × ((t.slots i).stack ≡ stack) × (stack ≢ 0)
unfolding find_marker
find-live t tid stack rip i wf keyed e =
    elim (probe-Probed (is_marker tid stack rip) t.slots (marker_slot stack)) [
      | hit j found lt pass ↦
          let same : j ≡ i = ground (arith, e, found) in ground (arith, pass, same, wf.free j)
      | miss found none_passes ↦ absurd (ground (arith, e, found))
    ]

pub remember-WellFormed :
    (t : Markers) (tid stack rip : ℕ)
    → WellFormed t
    → WellFormed (remember_marker t tid stack rip).1
unfolding remember_marker
remember-WellFormed t tid stack rip wf =
    elim (Bool-cases ((tid == 0) || (stack == 0) || (rip == 0))) [
      | inl e ↦ rw (remember_marker, e) wf
      | inr keyed ↦ elim (probe-Probed is_free t.slots (marker_slot stack)) [
        | hit i found lt pass ↦
            rw (remember_marker, keyed, found)
              (fill-WellFormed t i _ wf lt (ground (arith, pass)) (ground (arith, keyed)))
        | miss found none_passes ↦ rw (remember_marker, keyed, found) wf
      ]
    ]

pub cancel-WellFormed :
    (t : Markers) (tid stack rip : ℕ) → WellFormed t → tid ≢ 0 → WellFormed (cancel t tid stack rip)
unfolding cancel
cancel-WellFormed t tid stack rip wf keyed = elim (Option-cases (find_marker t tid stack rip)) [
  | inl e ↦ rw (cancel, e) wf
  | inr (i, e) ↦
      let (lt, _, positive) = find-live t tid stack rip i wf keyed e in
      rw (cancel, e) (release-WellFormed t i stack wf lt positive)
]

pub consume-WellFormed :
    (t : Markers) (tid stack rip : ℕ) (context : SavedContext)
    → WellFormed t
    → WellFormed (consume_marker t tid stack rip context).1
unfolding consume_marker
consume-WellFormed t tid stack rip context wf =
    elim (Bool-cases ((tid == 0) || (stack == 0) || (rip == 0))) [
      | inl e ↦ rw (consume_marker, e) wf
      | inr keyed ↦ elim (Option-cases (find_marker t tid stack rip)) [
        | inl e ↦ rw (consume_marker, keyed, e) wf
        | inr (i, e) ↦
            let (lt, at_i, positive) = find-live t tid stack rip i wf (ground (arith, keyed)) e in
            let away = release-WellFormed t i stack wf lt positive in
            elim (Bool-cases ((t.slots i).phase == 0)) [
              | inl closed ↦
                  rw (consume_marker, keyed, e, closed)
                    (change-WellFormed t i _ wf lt (ground (arith, at_i)) (ground (arith, at_i)))
              | inr past ↦ elim (Bool-cases ((t.slots i).phase == 1)) [
                | inl second ↦ rw (consume_marker, keyed, e, past, second) away
                | inr third ↦ rw (consume_marker, keyed, e, past, third) away
              ]
            ]
      ]
    ]

retire_from-WellFormed :
    (n i : ℕ) (t : Markers) (tid stack : ℕ)
    → WellFormed t
    → i + n ≤ marker_capacity
    → WellFormed (retire_from n i t tid stack)
unfolding retire_from
retire_from-WellFormed zero i t tid stack wf le = wf
retire_from-WellFormed (suc n) i t tid stack wf le =
    let m = t.slots i in
    let kept =
      if m.tid == tid then (m.stack == 0) || (m.stack == u64_max) || ltb stack m.stack else true in
    elim (Bool-cases kept) [
      | inl e ↦ rw (retire_from, e) (retire_from-WellFormed n (i + 1) t tid stack wf (omega arith))
      | inr e ↦
          rw (retire_from, e)
            (retire_from-WellFormed n (i + 1) (release_marker t i m.stack) tid stack
              (release-WellFormed t i m.stack wf (omega arith) (ground (arith, e))) (omega arith))
    ]

pub retire-WellFormed :
    (t : Markers) (tid stack : ℕ) → WellFormed t → WellFormed (retire_markers t tid stack)
unfolding retire_markers
retire-WellFormed t tid stack wf = elim (Bool-cases ((tid == 0) || (t.active == 0))) [
  | inl e ↦ rw (retire_markers, e) wf
  | inr e ↦
      rw (retire_markers, e) (retire_from-WellFormed marker_capacity 0 t tid stack wf (omega arith))
]
