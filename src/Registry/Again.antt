-- ===== src/Registry/Again.antt =====
-- `init_registry` run again: a run that marks itself as done leaves a file that later runs keep.
use linuwux_runtime.Base.{
  ℕ, zero, suc, ◌≤◌, ◌≡◌, refl, ap, sym, ◌∙◌, Bool, Bool-cases, inl, inr, drop, true, false, List,
  [], ◌∷◌, ◌++◌, length, take, arith, Option, none, some,
}
use linuwux_runtime.Registry.{
  registry_already_present, scan, slide, contains_bytes, profile_marker, guid_marker,
}
use linuwux_runtime.Registry.Append.{
  RegistryCalls, RegistryState, registry_section, registry_name, mark_done, append_section,
  seed_file, seed_prefix, init_registry,
}
use linuwux_runtime.Registry.SecondRun.{registry_already_present-append}

take_all : (n : ℕ) (xs : List ℕ) → length xs ≤ n → take n xs ≡ xs
take_all zero [] le = refl
take_all (suc n) [] le = refl
take_all (suc n) (x ∷ xs) le = ap (λ s. x ∷ s) (take_all n xs (omega arith))
take_all zero (x ∷ xs) le = absurd (omega arith)

take_full : (n : ℕ) (xs : List ℕ) → length (take n xs) ≡ length xs → take n xs ≡ xs
take_full zero [] e = refl
take_full (suc n) [] e = refl
take_full (suc n) (x ∷ xs) e = ap (λ s. x ∷ s) (take_full n xs (omega arith))
take_full zero (x ∷ xs) e = absurd (omega arith)

scan-append :
    (xs ys w : List ℕ) (in_profile : Bool)
    → scan xs w in_profile ≡ true
    → scan (xs ++ ys) w in_profile ≡ true
unfolding scan
scan-append [] ys w in_profile found = cc
scan-append (x ∷ xs) ys w false found =
    elim (Bool-cases (contains_bytes (slide w x) profile_marker)) [
      | inl named ↦
          let found' : scan xs [] true ≡ true = ground (arith, found, named) in
          rw (scan, named) (scan-append xs ys [] true found')
      | inr other ↦
          let found' : scan xs (slide w x) false ≡ true = ground (arith, found, other) in
          rw (scan, other) (scan-append xs ys (slide w x) false found')
    ]
scan-append (x ∷ xs) ys w true found = elim (Bool-cases (contains_bytes (slide w x) guid_marker)) [
  | inl named ↦ rw (scan, named) refl
  | inr other ↦
      let found' : scan xs (slide w x) true ≡ true = ground (arith, found, other) in
      rw (scan, other) (scan-append xs ys (slide w x) true found')
]

take-drop : (n : ℕ) (xs : List ℕ) → take n xs ++ drop n xs ≡ xs
take-drop zero xs = refl
take-drop (suc n) [] = refl
take-drop (suc n) (x ∷ xs) = ap (λ s. x ∷ s) (take-drop n xs)

-- What is found in a part of the file, is in the file.
registry_already_present-take :
    (n : ℕ) (file : List ℕ)
    → registry_already_present (take n file) ≡ true
    → registry_already_present file ≡ true
unfolding registry_already_present
registry_already_present-take n file found =
    ap (λ f. scan f [] false) (sym (take-drop n file))
    ∙ scan-append (take n file) (drop n file) [] false found

-- Reads that deliver the whole file find what is in it.
present_whole :
    (n : ℕ) (file : List ℕ)
    → length file ≤ n
    → registry_already_present file ≡ true
    → registry_already_present (take n file) ≡ true
present_whole n file le present =
    ap (λ f. registry_already_present f) (take_all n file le) ∙ present

module _ (c : RegistryCalls) where
  append_section-done :
      (section : List ℕ) (s : RegistryState)
      → s.is_done ≡ false
      → length section ≤ c.delivered
      → (append_section c section s).is_done ≡ true
      → (append_section c section s).system_reg ≡ s.system_reg ++ section
  unfolding append_section mark_done
  append_section-done section s clear whole marked =
      let full : length (take c.taken section) ≡ length section = ground arith in
      let written : take c.taken section ≡ section = take_full c.taken section full in
      let all : take c.delivered section ≡ section = take_all c.delivered section whole in
      ground (arith, written, all)

  append_section-present :
      (s : RegistryState)
      → s.is_done ≡ false
      → length registry_section ≤ c.delivered
      → (append_section c registry_section s).is_done ≡ true
      → registry_already_present (append_section c registry_section s).system_reg ≡ true
  append_section-present s clear whole marked =
      ap (λ f. registry_already_present f)
        (append_section-done registry_section s clear whole marked)
      ∙ registry_already_present-append s.system_reg

  seed_file-done :
      (path : List ℕ) (s : RegistryState)
      → s.is_done ≡ false
      → length registry_section ≤ c.delivered
      → (seed_file c path s).is_done ≡ true
      → registry_already_present (seed_file c path s).system_reg ≡ true
  unfolding seed_file mark_done
  seed_file-done path s clear whole marked =
      ground (arith, append_section-present s, registry_already_present-take c.scanned s.system_reg)

  seed_prefix-done :
      (prefix : Option (List ℕ)) (s : RegistryState)
      → s.is_done ≡ false
      → length registry_section ≤ c.delivered
      → (seed_prefix c prefix s).is_done ≡ true
      → registry_already_present (seed_prefix c prefix s).system_reg ≡ true
  unfolding seed_prefix
  seed_prefix-done none s clear whole marked = cc
  seed_prefix-done (some prefix) s clear whole marked =
      ground (arith, seed_file-done (prefix ++ registry_name) s)

  init_registry-done :
      (s : RegistryState)
      → s.is_done ≡ false
      → length registry_section ≤ c.delivered
      → (init_registry c s).is_done ≡ true
      → registry_already_present (init_registry c s).system_reg ≡ true
  unfolding init_registry
  init_registry-done s clear whole marked = ground (arith, seed_prefix-done s.wine_prefix s)

  seed_file-kept :
      (path : List ℕ) (s : RegistryState)
      → registry_already_present (take c.scanned s.system_reg) ≡ true
      → (seed_file c path s).system_reg ≡ s.system_reg
  unfolding seed_file mark_done
  seed_file-kept path s present = ground arith

  seed_prefix-kept :
      (prefix : Option (List ℕ)) (s : RegistryState)
      → registry_already_present (take c.scanned s.system_reg) ≡ true
      → (seed_prefix c prefix s).system_reg ≡ s.system_reg
  unfolding seed_prefix
  seed_prefix-kept none s present = refl
  seed_prefix-kept (some prefix) s present =
      ground (arith, seed_file-kept (prefix ++ registry_name) s)

  init_registry-kept :
      (s : RegistryState)
      → registry_already_present (take c.scanned s.system_reg) ≡ true
      → (init_registry c s).system_reg ≡ s.system_reg
  unfolding init_registry
  init_registry-kept s present = ground (arith, seed_prefix-kept s.wine_prefix s)

-- The state that a process finds which was started without `LINUWUX_HWPROFILE`.
abbrev pub next_process : RegistryState → RegistryState
next_process s = record s { is_done = false }

-- A run from an environment without the mark, whose file operations deliver at least a whole section and
-- which sets the mark, leaves a file that every later process without the mark keeps as it is, if its scan
-- reads the file to its end, whatever its other calls answer.
pub init_registry-again :
    (c later : RegistryCalls) (s : RegistryState)
    → s.is_done ≡ false
    → length registry_section ≤ c.delivered
    → (init_registry c s).is_done ≡ true
    → length (init_registry c s).system_reg ≤ later.scanned
    → (init_registry later (next_process (init_registry c s))).system_reg
      ≡ (init_registry c s).system_reg
init_registry-again c later s clear whole marked to_end =
    init_registry-kept later (next_process (init_registry c s)) (
      present_whole later.scanned (init_registry c s).system_reg to_end
        (init_registry-done c s clear whole marked))
