-- ===== src/Syscall/Markers/Probe.antt =====
-- The probe visits every slot, from any start.
use linuwux_runtime.Base.{
  ℕ, zero, suc, ◌+◌, ◌-◌, ◌%◌, ◌≤◌, ◌<◌, ◌≡◌, ap, ◌∙◌, inl, inr, Option, Option-cases, none, some,
  Bool, Bool-cases, true, false, ◌==◌, arith,
}
use linuwux_runtime.Syscall.Markers.{marker_capacity, Marker, probe}

module _ (test : Marker → Bool) (slots : ℕ → Marker) (start : ℕ) where
  -- What a probe finds is in the array and passes.
  probe-some :
      (n offset i : ℕ)
      → probe test slots start n offset ≡ some i
      → (i < marker_capacity) × (test (slots i) ≡ true)
  unfolding probe
  probe-some zero offset i e = cc
  probe-some (suc n) offset i e = ground (arith, probe-some n (offset + 1) i)

  -- If the probe finds nothing, no slot that it visits passes.
  probe-none :
      (n offset d : ℕ)
      → probe test slots start n offset ≡ none
      → offset ≤ d
      → d < offset + n
      → test (slots ((start + d) % marker_capacity)) ≡ false
  unfolding probe
  probe-none zero offset d e le lt = absurd (omega arith)
  probe-none (suc n) offset d e le lt = elim (Bool-cases (offset == d)) [
    | inl same ↦ ground (arith, e)
    | inr other ↦ ground (arith, e, probe-none n (offset + 1) d)
  ]

abbrev pub full_probe : (Marker → Bool) → (ℕ → Marker) → ℕ → Option ℕ
full_probe test slots start = probe test slots start marker_capacity 0

-- The offset at which a slot is visited.
distance-slot :
    (start i : ℕ)
    → i < marker_capacity
    → (start + (i + (marker_capacity - start % marker_capacity)) % marker_capacity)
        % marker_capacity
      ≡ i
distance-slot start i lt = omega arith

-- A probe of the whole array finds a slot that passes, or there is none.
pub data Probed (test : Marker → Bool) (slots : ℕ → Marker) (start : ℕ) : Type 0 where
  hit :
      (i : ℕ)
      → full_probe test slots start ≡ some i
      → i < marker_capacity
      → test (slots i) ≡ true
      → Probed test slots start
  miss :
      full_probe test slots start ≡ none
      → ((i : ℕ) → i < marker_capacity → test (slots i) ≡ false)
      → Probed test slots start

pub probe-Probed : (test : Marker → Bool) (slots : ℕ → Marker) (start : ℕ) → Probed test slots start
probe-Probed test slots start = elim (Option-cases (full_probe test slots start)) [
  | inl e ↦ miss e (λ i lt. rw (distance-slot start i lt) at (
      probe-none test slots start marker_capacity 0
        ((i + (marker_capacity - start % marker_capacity)) % marker_capacity) e (omega arith)
        (omega arith)))
  | inr (i, e) ↦
      let (lt, pass) = probe-some test slots start marker_capacity 0 i e in hit i e lt pass
]

-- The only slot that passes is the one that is found.
pub probe-only :
    (test : Marker → Bool) (slots : ℕ → Marker) (start i : ℕ)
    → i < marker_capacity
    → test (slots i) ≡ true
    → ((j : ℕ) → j < marker_capacity → test (slots j) ≡ true → j ≡ i)
    → full_probe test slots start ≡ some i
probe-only test slots start i lt pass only = elim (probe-Probed test slots start) [
  | hit j e lt' pass' ↦ e ∙ ap some (only j lt' pass')
  | miss e none_passes ↦ absurd (ground (arith, none_passes i))
]
