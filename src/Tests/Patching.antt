-- ===== src/Tests/Patching.antt =====
-- The state of the KUSER patch at concrete inputs: what is behind the word is a count of the calls of
-- `apply`, and a wait lets another thread finish.
use linuwux_runtime.Base.{ℕ, suc, ◌≡◌, ◌≢◌, inl, refl, Bool, true, false, some, [], ◌∷◌, arith}
use linuwux_runtime.Kuser.Recipe.{Recipe}
use linuwux_runtime.Kuser.Patch.{
  apply_failed, PatchResult, err, failed_state, busy, round, Shared, complete, patch,
  recover_after_fork,
}
use linuwux_runtime.Kuser.Patch.Ends.{Leaves, patch_returns}
use linuwux_runtime.Kuser.Patch.Decided.{decided, patch-recover_after_fork, failed_replacement}

abbrev shared : ℕ → ℕ → Shared ℕ
shared word calls = record { word = word; rest = calls }

-- Another thread completes the dispatch recipe.
abbrev finishes : Shared ℕ → Shared ℕ
finishes s = record s { word = 5 }

abbrev applies : ℕ → Bool × ℕ
applies calls = (true, suc calls)

abbrev fails : ℕ → Bool × ℕ
fails calls = (false, suc calls)

patch_returns_example :
    (r : PatchResult × Shared ℕ) × (patch finishes applies 4098
        (true ∷ [])
        Recipe.selector
        (shared 4 0)
      ≡ some r)
    × Leaves Recipe.selector r
patch_returns_example =
    patch_returns finishes applies 4098 (true ∷ []) Recipe.selector (shared 4 0) (omega arith)

decides : round Recipe.selector 5 ≢ busy
unfolding round
decides e = ground arith

patch-recover_after_fork_example :
    patch finishes applies 1 [] Recipe.dispatch (shared (recover_after_fork 4) 0)
    ≡ some (
        complete applies Recipe.dispatch (
          decided Recipe.dispatch
            (failed_state Recipe.dispatch)
            (shared (recover_after_fork 4) 0)
            (round Recipe.dispatch (recover_after_fork 4))))
patch-recover_after_fork_example =
    patch-recover_after_fork finishes applies 1 [] Recipe.dispatch 4 0 (omega arith)

selector_not_resume : Recipe.selector ≢ Recipe.resume
selector_not_resume e = cc

failed_replacement_example :
    patch finishes fails 1 [] Recipe.selector (shared 2 0) ≡ some (err apply_failed, shared 2 1)
failed_replacement_example =
    failed_replacement finishes fails 1 [] Recipe.selector (shared 2 0) selector_not_resume refl
      (inl (omega arith)) refl (omega arith)
