-- ===== src/Kuser/Patch/Decided.antt =====
-- What `PatchState::patch` does where it need not wait, and after a fork.
use linuwux_runtime.Base.{
  ℕ, zero, suc, ◌+◌, ◌≤◌, ◌<◌, ◌≡◌, ◌≢◌, refl, ◌⊎◌, some, Bool, true, false, List, [], ◌∷◌, arith,
  length, if◌then◌else◌,
}
use linuwux_runtime.Kuser.Recipe.{Recipe}
use linuwux_runtime.Kuser.Patch.{
  ok, err, conflict, apply_failed, applying_state, failed_state, recover_after_fork, Round, done,
  busy, refused, attempt, round, Shared, End, returned, claimed, patch_loop, complete, patch,
}
use linuwux_runtime.Kuser.Patch.Ends.{is_completed}

-- The end of the loop that a word decides without a wait.
unfoldable pub decided : {E : Type 0} → Recipe → ℕ → Shared E → Round → End × Shared E
decided recipe completion s done = (returned ok, s)
decided recipe completion s busy = (returned (err conflict), s)
decided recipe completion s refused = (returned (err conflict), s)
decided recipe completion s (attempt replaces) =
    (claimed (if replaces then s.word else completion), record s { word = applying_state recipe })

module _ {E : Type 0} (wait : Shared E → Shared E) where
  loop_decided :
      (fuel : ℕ) (weak : List Bool) (recipe : Recipe) (waits completion : ℕ) (s : Shared E)
      (r : Round)
      → round recipe s.word ≡ r
      → r ≢ busy
      → length weak + 1 ≤ fuel
      → patch_loop wait fuel weak recipe waits completion s ≡ some (decided recipe completion s r)
  unfolding patch_loop decided
  loop_decided zero weak recipe waits completion s r e n enough = absurd (omega arith)
  loop_decided (suc fuel) [] recipe waits completion s r e n enough = ground arith
  loop_decided (suc fuel) (false ∷ weak) recipe waits completion s r e n enough = ground arith
  loop_decided (suc fuel) (true ∷ weak) recipe waits completion s (attempt true) e n enough =
      ground (arith, loop_decided fuel weak recipe waits s.word s (attempt true))
  loop_decided (suc fuel) (true ∷ weak) recipe waits completion s (attempt false) e n enough =
      ground (arith, loop_decided fuel weak recipe waits completion s (attempt false))
  loop_decided (suc fuel) (true ∷ weak) recipe waits completion s r e n enough = ground arith

  -- Where the word asks for no wait, `patch` makes none: the answer and the final state are those of
  -- one round, however often the compare-exchange fails spuriously, and `apply` is called at most
  -- once.
  pub patch-decided :
      (apply : E → Bool × E) (fuel : ℕ) (weak : List Bool) (recipe : Recipe) (s : Shared E)
      → round recipe s.word ≢ busy
      → length weak + 1 ≤ fuel
      → patch wait apply fuel weak recipe s
        ≡ some
            (complete apply recipe (decided recipe (failed_state recipe) s (round recipe s.word)))
  unfolding patch
  patch-decided apply fuel weak recipe s n enough = rw (
    loop_decided fuel weak recipe 0 (failed_state recipe) s (round recipe s.word) refl n enough,
    patch,
  )

-- A word of another recipe.
abbrev pub IsOther : ℕ → Type 0
IsOther word = (word ≡ 5) ⊎ (word ≡ 6) ⊎ (word ≡ 8) ⊎ (word ≡ 9)

recovered_round : (recipe : Recipe) (word : ℕ) → round recipe (recover_after_fork word) ≢ busy
unfolding round recover_after_fork
recovered_round Recipe.resume word = ground arith
recovered_round Recipe.dispatch word = ground arith
recovered_round Recipe.selector word = ground arith

-- In the child of a fork, whatever word the fork copied, a patch after `recover_after_fork` never
-- waits for the threads that the child does not have.
pub patch-recover_after_fork :
    {E : Type 0} (wait : Shared E → Shared E) (apply : E → Bool × E) (fuel : ℕ) (weak : List Bool)
    (recipe : Recipe) (word : ℕ) (rest : E)
    → length weak + 1 ≤ fuel
    → patch wait apply fuel weak recipe (record { word = recover_after_fork word; rest = rest })
      ≡ some (
          complete apply recipe (
            decided recipe
              (failed_state recipe)
              (record { word = recover_after_fork word; rest = rest })
              (round recipe (recover_after_fork word))))
patch-recover_after_fork wait apply fuel weak recipe word rest enough =
    patch-decided wait apply fuel weak recipe
      (record { word = recover_after_fork word; rest = rest }) (recovered_round recipe word) enough

resume_refused : (word : ℕ) → IsOther word → round Recipe.resume word ≡ refused
unfolding round
resume_refused word h = ground arith

-- Once the dispatch or the selector recipe has been applied, or has failed, a request for the
-- resume recipe is a conflict that calls nothing and changes nothing.
resume_conflicts :
    {E : Type 0} (wait : Shared E → Shared E) (apply : E → Bool × E) (fuel : ℕ) (weak : List Bool)
    (s : Shared E)
    → IsOther s.word
    → length weak + 1 ≤ fuel
    → patch wait apply fuel weak Recipe.resume s ≡ some (err conflict, s)
unfolding decided complete
resume_conflicts wait apply fuel weak s other enough =
    ground (arith, resume_refused s.word other, patch-decided wait apply fuel weak Recipe.resume s)

replace_round :
    (recipe : Recipe) (word : ℕ)
    → recipe ≢ Recipe.resume
    → is_completed word ≡ true
    → (word < applying_state recipe) ⊎ (failed_state recipe < word)
    → round recipe word ≡ attempt true
unfolding round
replace_round Recipe.resume word n c h = absurd (n refl)
replace_round Recipe.dispatch word n c h = ground arith
replace_round Recipe.selector word n c h = ground arith

-- A dispatch or selector request over another recipe that is ready or failed calls `apply` with the
-- rest of the state; if that fails, the word of the other recipe is restored.
pub failed_replacement :
    {E : Type 0} (wait : Shared E → Shared E) (apply : E → Bool × E) (fuel : ℕ) (weak : List Bool)
    (recipe : Recipe) (s : Shared E)
    → recipe ≢ Recipe.resume
    → is_completed s.word ≡ true
    → (s.word < applying_state recipe) ⊎ (failed_state recipe < s.word)
    → (apply s.rest).0 ≡ false
    → length weak + 1 ≤ fuel
    → patch wait apply fuel weak recipe s
      ≡ some (err apply_failed, record s { rest = (apply s.rest).1 })
unfolding decided complete
failed_replacement wait apply fuel weak recipe s n c h fails enough =
    ground (arith, replace_round recipe s.word n c h, patch-decided wait apply fuel weak recipe s)
