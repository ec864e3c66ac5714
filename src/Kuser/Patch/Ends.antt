-- ===== src/Kuser/Patch/Ends.antt =====
-- `PatchState::patch` ends, and what it leaves in the word on every branch.
use linuwux_runtime.Base.{
  ℕ, zero, suc, ◌+◌, ◌-◌, ◌≤◌, ◌≡◌, ◌≢◌, refl, sym, ap, ◌∙◌, inl, inr, Option, some, Bool, true,
  false, Bool-cases, List, [], ◌∷◌, arith, ◌==◌, length, if◌then◌else◌, contains,
}
use linuwux_runtime.Kuser.Recipe.{Recipe}
use linuwux_runtime.Kuser.Patch.{
  patch_wait_limit, PatchResult, ok, err, conflict, apply_failed, applying_state, ready_state,
  failed_state, Round, done, busy, refused, attempt, round, Shared, End, returned, claimed,
  patch_loop, complete, patch,
}

-- A word that a completed patch leaves: some recipe ready or failed.
abbrev pub is_completed : ℕ → Bool
is_completed word = contains (2 ∷ 3 ∷ 5 ∷ 6 ∷ 8 ∷ 9 ∷ []) word

-- What `patch` leaves for its answer: with `Ok` the recipe is ready; after a failed `apply` the word
-- is completed, by this recipe or by the one it replaced, and not left applying; after `Conflict`
-- the recipe is not ready.
abbrev pub Leaves : {E : Type 0} → Recipe → PatchResult × Shared E → Type 0
Leaves recipe (ok, s) = s.word ≡ ready_state recipe
Leaves recipe (err apply_failed, s) = is_completed s.word ≡ true
Leaves recipe (err conflict, s) = s.word ≢ ready_state recipe

abbrev EndLeaves : {E : Type 0} → Recipe → End × Shared E → Type 0
EndLeaves recipe (returned ok, s) = s.word ≡ ready_state recipe
EndLeaves recipe (returned (err apply_failed), s) = ⊥
EndLeaves recipe (returned (err conflict), s) = s.word ≢ ready_state recipe
EndLeaves recipe (claimed completion, s) = is_completed completion ≡ true

round-done : (recipe : Recipe) (word : ℕ) → round recipe word ≡ done → word ≡ ready_state recipe
unfolding round
round-done recipe word h = ground arith

round_not_done : (recipe : Recipe) (word : ℕ) → round recipe word ≢ done → word ≢ ready_state recipe
unfolding round
round_not_done recipe word h = ground arith

round-attempt :
    (recipe : Recipe) (word : ℕ) → round recipe word ≡ attempt true → is_completed word ≡ true
unfolding round
round-attempt Recipe.resume word h = ground arith
round-attempt Recipe.dispatch word h = ground arith
round-attempt Recipe.selector word h = ground arith

-- A loop that ends as `patch` needs it.
abbrev Ends : {E : Type 0} → Recipe → Option (End × Shared E) → Type 0
Ends {E} recipe o = (e : End × Shared E) × (o ≡ some e) × EndLeaves recipe e

completion-IsCompleted :
    (recipe : Recipe) (word completion : ℕ) (replaces : Bool)
    → round recipe word ≡ attempt replaces
    → is_completed completion ≡ true
    → is_completed (if replaces then word else completion) ≡ true
completion-IsCompleted recipe word completion true e h = round-attempt recipe word e
completion-IsCompleted recipe word completion false e h = h

module _ {E : Type 0} (wait : Shared E → Shared E) (fuel : ℕ) (recipe : Recipe) (s : Shared E) where
  claim_end : Bool → ℕ → End × Shared E
  claim_end replaces completion =
      (claimed (if replaces then s.word else completion), record s { word = applying_state recipe })

  round-Ends :
      (weak : List Bool) (waits completion : ℕ)
      → is_completed completion ≡ true
      → ((waits == patch_wait_limit) ≡ false
          → Ends recipe (patch_loop wait fuel weak recipe (waits + 1) completion (wait s)))
      → ((weak' : List Bool) (c : ℕ)
          → weak ≡ true ∷ weak'
          → is_completed c ≡ true
          → Ends recipe (patch_loop wait fuel weak' recipe waits c s))
      → (r : Round) → round recipe s.word ≡ r
      → Ends recipe (patch_loop wait (suc fuel) weak recipe waits completion s)
  unfolding patch_loop claim_end
  round-Ends weak waits completion known again retry done e =
      ((returned ok, s), rw (e, patch_loop), round-done recipe s.word e)
  round-Ends weak waits completion known again retry refused e = (
    (returned (err conflict), s),
    rw (e, patch_loop),
    round_not_done recipe s.word (λ d. cc (sym e ∙ d)),
  )
  round-Ends weak waits completion known again retry busy e =
      elim (Bool-cases (waits == patch_wait_limit)) [
        | inl full ↦ (
          (returned (err conflict), s),
          rw (e, full, patch_loop),
          round_not_done recipe s.word (λ d. cc (sym e ∙ d)),
        )
        | inr more ↦ rw (e, more, patch_loop) (again more)
      ]
  round-Ends [] waits completion known again retry (attempt b) e = (
    claim_end b completion,
    rw (e, patch_loop),
    completion-IsCompleted recipe s.word completion b e known,
  )
  round-Ends (false ∷ weak) waits completion known again retry (attempt b) e = (
    claim_end b completion,
    rw (e, patch_loop),
    completion-IsCompleted recipe s.word completion b e known,
  )
  round-Ends (true ∷ weak) waits completion known again retry (attempt b) e =
      rw (e, patch_loop)
        (retry weak _ refl (completion-IsCompleted recipe s.word completion b e known))

module _ {E : Type 0} (wait : Shared E → Shared E) where
  loop-Ends :
      (fuel : ℕ) (weak : List Bool) (recipe : Recipe) (waits completion : ℕ) (s : Shared E)
      → waits ≤ patch_wait_limit
      → length weak + (patch_wait_limit - waits) + 1 ≤ fuel
      → is_completed completion ≡ true
      → Ends recipe (patch_loop wait fuel weak recipe waits completion s)
  loop-Ends zero weak recipe waits completion s few enough known = absurd (omega arith)
  loop-Ends (suc fuel) weak recipe waits completion s few enough known =
      round-Ends wait fuel recipe s weak waits completion known
        (λ more.
          loop-Ends fuel weak recipe (waits + 1) completion (wait s) (ground arith) (ground arith)
            known)
        (λ weak' c e k. loop-Ends fuel weak' recipe waits c s few (omega (arith, ap length e)) k)
        (round recipe s.word) refl

complete-Leaves :
    {E : Type 0} (apply : E → Bool × E) (recipe : Recipe) (e : End × Shared E)
    → EndLeaves recipe e
    → Leaves recipe (complete apply recipe e)
unfolding complete
complete-Leaves apply recipe (returned ok, s) h = h
complete-Leaves apply recipe (returned (err apply_failed), s) h = absurd h
complete-Leaves apply recipe (returned (err conflict), s) h = h
complete-Leaves apply recipe (claimed completion, s) h = ground arith

-- With fuel for every spurious failure and for the waits that the limit allows, `patch` returns,
-- whatever other threads do to the word while it waits and whatever `apply` answers, and the word
-- is as its answer says: ready after `Ok`, completed by some recipe after a failed `apply`, and not
-- this recipe's ready word after `Conflict`.
pub patch_returns :
    {E : Type 0} (wait : Shared E → Shared E) (apply : E → Bool × E) (fuel : ℕ) (weak : List Bool)
    (recipe : Recipe) (s : Shared E)
    → length weak + patch_wait_limit + 1 ≤ fuel
    → (r : PatchResult × Shared E) × (patch wait apply fuel weak recipe s ≡ some r)
      × Leaves recipe r
unfolding patch
patch_returns wait apply fuel weak recipe s enough =
    let (e, ran, leaves) =
      loop-Ends wait fuel weak recipe 0 (failed_state recipe) s (omega arith) (omega arith)
        (ground arith) in
    (complete apply recipe e, rw (ran, patch), complete-Leaves apply recipe e leaves)
