-- ===== src/Syscall/Markers/Retired.antt =====
-- The markers that are left when a thread's are retired to a depth.
use linuwux_runtime.Base.{
  ℕ, zero, suc, ◌+◌, ◌≤◌, ◌<◌, ◌≡◌, ◌≢◌, sym, ap, ◌∙◌, inl, inr, Bool-cases, true, false, ◌==◌,
  ◌||◌, if◌then◌else◌, ltb, arith, u64_max,
}
use linuwux_runtime.Syscall.Markers.{
  marker_capacity, cleared_marker, Markers, is_marker, has_active_markers, release_marker,
  retire_from, retire_markers,
}
use linuwux_runtime.Syscall.Markers.Count.{WellFormed, weight, live-weight, retire-WellFormed}

-- `dispatcher_target` retires only in a table with a marker.
abbrev pub retired_table : Markers → ℕ → ℕ → Markers
retired_table t tid stack = if has_active_markers t then retire_markers t tid stack else t

module _ (tid stack rip : ℕ) (keyed : tid ≢ 0) (positive : stack ≢ 0)
    (below : stack < u64_max) where
  cleared_is_other : is_marker tid stack rip cleared_marker ≡ false
  cleared_is_other = ground arith

  release-other :
      (t : Markers) (i j : ℕ) → i ≢ j → (release_marker t i (t.slots i).stack).slots j ≡ t.slots j
  unfolding release_marker
  release-other t i j other = ground arith

  release-cleared :
      (t : Markers) (i : ℕ) → (release_marker t i (t.slots i).stack).slots i ≡ cleared_marker
  unfolding release_marker
  release-cleared t i = ground arith

  released-absent :
      (i : ℕ) (t : Markers)
      → ((j : ℕ) → j < i → is_marker tid stack rip (t.slots j) ≡ false)
      → (k : ℕ) → k < i + 1
      → is_marker tid stack rip ((release_marker t i (t.slots i).stack).slots k) ≡ false
  released-absent i t before k lt = elim (Bool-cases (i == k)) [
    | inl here ↦
        let same : i ≡ k = ground (arith, here) in
        ap (is_marker tid stack rip)
          (ap (release_marker t i (t.slots i).stack).slots (sym same) ∙ release-cleared t i)
        ∙ cleared_is_other
    | inr other ↦
        ap (is_marker tid stack rip) (release-other t i k (ground (arith, other)))
        ∙ before k (ground (arith, other, lt))
  ]

  retire_from-absent :
      (n i : ℕ) (t : Markers) (j : ℕ)
      → j < i + n
      → ((j : ℕ) → j < i → is_marker tid stack rip (t.slots j) ≡ false)
      → is_marker tid stack rip ((retire_from n i t tid stack).slots j) ≡ false
  unfolding retire_from
  retire_from-absent zero i t j lt before = before j (omega arith)
  retire_from-absent (suc n) i t j lt before =
      let m = t.slots i in
      let kept =
        if m.tid == tid
        then (m.stack == 0) || (m.stack == u64_max) || ltb stack m.stack
        else true in
      let released = release_marker t i m.stack in
      elim (Bool-cases kept) [
        | inl e ↦
            let here : is_marker tid stack rip m ≡ false = ground (arith, e) in
            rw (retire_from, e)
              (retire_from-absent n (i + 1) t j (omega arith)
                (λ k lt'. ground (arith, here, before k)))
        | inr e ↦
            rw (retire_from, e)
              (retire_from-absent n (i + 1) released j (omega arith)
                (λ k lt'. released-absent i t before k lt'))
      ]

  -- The table that `dispatcher_target` leaves before it chooses.
  pub retired_table-absent :
      (t : Markers) (j : ℕ)
      → WellFormed t
      → j < marker_capacity
      → is_marker tid stack rip ((retired_table t tid stack).slots j) ≡ false
  unfolding has_active_markers retire_markers
  retired_table-absent t j wf lt = elim (Bool-cases (t.active == 0)) [
    | inl none_active ↦
        let none_live : weight (t.slots j) ≤ 0 =
          ground (arith, live-weight marker_capacity j t.slots lt, wf.count, none_active) in
        ground (arith, none_live, none_active)
    | inr some_active ↦
        let thread : (tid == 0) ≡ false = ground arith in
        rw (retire_markers, some_active, thread)
          (retire_from-absent marker_capacity 0 t j lt (λ k lt'. absurd (omega arith)))
  ]

  pub retired_table-WellFormed :
      (t : Markers) → WellFormed t → WellFormed (retired_table t tid stack)
  retired_table-WellFormed t wf = elim (Bool-cases (has_active_markers t)) [
    | inl e ↦ rw (e) (retire-WellFormed t tid stack wf)
    | inr e ↦ rw (e) wf
  ]
