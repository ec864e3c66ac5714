-- ===== src/PeExport/Search.antt =====
-- The binary search of the exports against a scan of them in order.
use Prim.Native.Nat.{Ordering}
use linuwux_runtime.Base.{
  ℕ, zero, suc, ◌+◌, ◌-◌, ◌/◌, ◌≤◌, ◌<◌, ◌≡◌, ◌≢◌, refl, sym, ◌∙◌, inl, inr, Option, none, some,
  false, ◌>>=◌, List, [], ◌∷◌, ltb, if◌then◌else◌, arith, bytes_eq, bytes_eq_refl, bytes_eq_sound,
  Bool-cases,
}
use linuwux_runtime.Memory.{Memory}
use linuwux_runtime.PeExport.{
  Exports, read_exports, name_at, service_at, compare_bytes, search, export_service,
}

compare_bytes_refl : (xs : List ℕ) → compare_bytes xs xs ≡ Ordering.eq
unfolding compare_bytes
compare_bytes_refl [] = refl
compare_bytes_refl (x ∷ xs) = ground (arith, compare_bytes_refl xs)

compare_bytes-eq : (xs ys : List ℕ) → compare_bytes xs ys ≡ Ordering.eq → xs ≡ ys
unfolding compare_bytes
compare_bytes-eq [] [] e = refl
compare_bytes-eq [] (y ∷ ys) e = cc
compare_bytes-eq (x ∷ xs) [] e = cc
compare_bytes-eq (x ∷ xs) (y ∷ ys) e = ground (arith, compare_bytes-eq xs ys)

compare_bytes-flip :
    (xs ys : List ℕ) → compare_bytes xs ys ≡ Ordering.lt → compare_bytes ys xs ≡ Ordering.gt
unfolding compare_bytes
compare_bytes-flip [] [] e = cc
compare_bytes-flip [] (y ∷ ys) e = refl
compare_bytes-flip (x ∷ xs) [] e = cc
compare_bytes-flip (x ∷ xs) (y ∷ ys) e = ground (arith, compare_bytes-flip xs ys)

data Compared (xs ys : List ℕ) : Type 0 where
  less : compare_bytes xs ys ≡ Ordering.lt → Compared xs ys
  same : compare_bytes xs ys ≡ Ordering.eq → Compared xs ys
  more : compare_bytes xs ys ≡ Ordering.gt → Compared xs ys

classified : (xs ys : List ℕ) (o : Ordering) → compare_bytes xs ys ≡ o → Compared xs ys
classified xs ys Ordering.lt e = less e
classified xs ys Ordering.eq e = same e
classified xs ys Ordering.gt e = more e

bytes_eq-refuses : (xs ys : List ℕ) → xs ≢ ys → bytes_eq xs ys ≡ false
bytes_eq-refuses xs ys differ = elim (Bool-cases (bytes_eq xs ys)) [
  | inl e ↦ absurd (differ (bytes_eq_sound xs ys e))
  | inr e ↦ e
]

-- A scan of `n` names in order, from the `i`-th on.
unfoldable pub scan_names : ℕ → Memory → Exports → List ℕ → ℕ → Option ℕ
scan_names zero m t export_name i = none
scan_names (suc n) m t export_name i =
    let rest = scan_names n m t export_name (i + 1) in
    (do
      candidate ← name_at m t i
      if bytes_eq candidate export_name then service_at m t i else rest)

module _ (m : Memory) (t : Exports) (target : List ℕ) (names : ℕ → List ℕ)
    (readable : (i : ℕ) → i < t.name_count → name_at m t i ≡ some (names i))
    (sorted : (i j : ℕ)
      → i < j
      → j < t.name_count
      → compare_bytes (names i) (names j) ≡ Ordering.lt) where
  scan-past :
      (n i : ℕ)
      → i < t.name_count
      → names i ≢ target
      → scan_names (suc n) m t target i ≡ scan_names n m t target (i + 1)
  unfolding scan_names
  scan-past n i lt differ = rw (readable i lt, bytes_eq-refuses (names i) target differ) refl

  scan-skip :
      (k n i : ℕ)
      → k ≤ n
      → i + n ≤ t.name_count
      → ((j : ℕ) → i ≤ j → j < i + k → names j ≢ target)
      → scan_names n m t target i ≡ scan_names (n - k) m t target (i + k)
  scan-skip zero n i fits le others =
      let same_n : n - 0 ≡ n = omega arith in let same_i : i + 0 ≡ i = omega arith in cc
  scan-skip (suc k) zero i fits le others = absurd (omega arith)
  scan-skip (suc k) (suc n) i fits le others =
      let step = scan-past n i (omega arith) (others i (omega arith) (omega arith)) in
      let rest =
        scan-skip k n (i + 1) (omega arith) (omega arith)
          (λ j ge lt. others j (omega arith) (omega arith)) in
      let same_at : i + 1 + k ≡ i + suc k = omega arith in
      let same_n : suc n - suc k ≡ n - k = omega arith in cc

  -- What lies past the first `k` of the names is left out.
  scan-cut :
      (k n i : ℕ)
      → k ≤ n
      → i + n ≤ t.name_count
      → ((j : ℕ) → i + k ≤ j → j < i + n → names j ≢ target)
      → scan_names n m t target i ≡ scan_names k m t target i
  unfolding scan_names
  scan-cut zero zero i fits le others = refl
  scan-cut zero (suc n) i fits le others =
      scan-past n i (omega arith) (others i (omega arith) (omega arith))
      ∙ scan-cut zero n (i + 1) (omega arith) (omega arith)
          (λ j ge lt. others j (omega arith) (omega arith))
  scan-cut (suc k) zero i fits le others = absurd (omega arith)
  scan-cut (suc k) (suc n) i fits le others =
      rw
        (
          readable i (omega arith),
          scan-cut k n (i + 1) (omega arith) (omega arith)
              (λ j ge lt. others j (omega arith) (omega arith)),
        )
        refl

  below-less :
      (mid j : ℕ)
      → compare_bytes (names mid) target ≡ Ordering.lt
      → j ≤ mid
      → mid < t.name_count
      → names j ≢ target
  below-less mid j less_mid le lt found = elim (Bool-cases (ltb j mid)) [
    | inl before ↦
        let order = sorted j mid (ground (arith, before)) lt in
        let flipped = compare_bytes-flip (names mid) target less_mid in cc
    | inr at_mid ↦
        let here : j ≡ mid = ground (arith, at_mid) in let equal = compare_bytes_refl target in cc
  ]

  above-more :
      (mid j : ℕ)
      → compare_bytes (names mid) target ≡ Ordering.gt
      → mid ≤ j
      → j < t.name_count
      → names j ≢ target
  above-more mid j more_mid le lt found = elim (Bool-cases (ltb mid j)) [
    | inl after ↦ let order = sorted mid j (ground (arith, after)) lt in cc
    | inr at_mid ↦
        let here : j ≡ mid = ground (arith, at_mid) in let equal = compare_bytes_refl target in cc
  ]

  scan-here :
      (n i : ℕ)
      → i < t.name_count
      → names i ≡ target
      → scan_names (suc n) m t target i ≡ service_at m t i
  unfolding scan_names
  scan-here n i lt found = rw (readable i lt, found, bytes_eq_refl target) refl

  before-same : (mid j : ℕ) → names mid ≡ target → j < mid → mid < t.name_count → names j ≢ target
  before-same mid j here lt in_table found =
      let order = sorted j mid lt in_table in let equal = compare_bytes_refl target in cc

  -- What is left of the scan of `low` to `high` after the comparison with the middle name.
  scan-right :
      (low high mid : ℕ)
      → compare_bytes (names mid) target ≡ Ordering.lt
      → low ≤ mid
      → mid < high
      → high ≤ t.name_count
      → scan_names (high - low) m t target low ≡ scan_names (high - (mid + 1)) m t target (mid + 1)
  scan-right low high mid c ge above le =
      let skipped =
        scan-skip (mid + 1 - low) (high - low) low (omega arith) (omega arith)
          (λ j from to. below-less mid j c (omega arith) (omega arith)) in
      let count : high - low - (mid + 1 - low) ≡ high - (mid + 1) = omega arith in
      let start : low + (mid + 1 - low) ≡ mid + 1 = omega arith in cc

  scan-left :
      (low high mid : ℕ)
      → compare_bytes (names mid) target ≡ Ordering.gt
      → low ≤ mid
      → mid < high
      → high ≤ t.name_count
      → scan_names (high - low) m t target low ≡ scan_names (mid - low) m t target low
  scan-left low high mid c ge above le =
      scan-cut (mid - low) (high - low) low (omega arith) (omega arith)
        (λ j from to. above-more mid j c (omega arith) (omega arith))

  scan-middle :
      (low high mid : ℕ)
      → names mid ≡ target
      → low ≤ mid
      → mid < high
      → high ≤ t.name_count
      → scan_names (high - low) m t target low ≡ service_at m t mid
  scan-middle low high mid here ge above le =
      let skipped =
        scan-skip (mid - low) (high - low) low (omega arith) (omega arith)
          (λ j from to. before-same mid j here (omega arith) (omega arith)) in
      let found = scan-here (high - mid - 1) mid (omega arith) here in
      let count : high - low - (mid - low) ≡ suc (high - mid - 1) = omega arith in
      let start : low + (mid - low) ≡ mid = omega arith in cc

  search-scan_names :
      (n low high : ℕ)
      → high - low < n
      → high ≤ t.name_count
      → search n m t target low high ≡ scan_names (high - low) m t target low
  unfolding search scan_names
  search-scan_names zero low high fuel le = absurd (omega arith)
  search-scan_names (suc n) low high fuel le = elim (Bool-cases (ltb low high)) [
    | inr e ↦ let none_left : high - low ≡ 0 = ground (arith, e) in rw (search, e, none_left) refl
    | inl e ↦
        let mid = low + (high - low) / 2 in
        let ge : low ≤ mid = omega arith in
        let lt : low < high = ground (arith, e) in
        let above : mid < high = omega arith in
        elim (classified (names mid) target (compare_bytes (names mid) target) refl) [
          | less c ↦
              rw (search, e, readable mid (omega arith))
                (rw (◌>>=◌, c)
                  (search-scan_names n (mid + 1) high (omega arith) le
                    ∙ sym (scan-right low high mid c ge above le)))
          | more c ↦
              rw (search, e, readable mid (omega arith))
                (rw (◌>>=◌, c)
                  (search-scan_names n low mid (omega arith) (omega arith)
                    ∙ sym (scan-left low high mid c ge above le)))
          | same c ↦
              rw (search, e, readable mid (omega arith))
                (rw (◌>>=◌, c)
                  (sym
                    (scan-middle low high mid (compare_bytes-eq (names mid) target c) ge above le)))
        ]
  ]

-- In an image whose export directory is read, whose names can all be read and come in their order,
-- the binary search of `export_service` answers what a scan of the names from the first to the last
-- answers: the service of the export of this name, or nothing.
pub export_service-scan_names :
    (m : Memory) (base : ℕ) (t : Exports) (target : List ℕ) (names : ℕ → List ℕ)
    → read_exports m base ≡ some t
    → ((i : ℕ) → i < t.name_count → name_at m t i ≡ some (names i))
    → ((i j : ℕ) → i < j → j < t.name_count → compare_bytes (names i) (names j) ≡ Ordering.lt)
    → export_service m base target ≡ scan_names t.name_count m t target 0
unfolding export_service
export_service-scan_names m base t target names header readable sorted =
    let all =
      search-scan_names m t target names readable sorted (t.name_count + 1) 0 t.name_count
        (omega arith) (omega arith) in
    let from_0 : t.name_count - 0 ≡ t.name_count = omega arith in
    rw (export_service, header) (rw (from_0) at all)
