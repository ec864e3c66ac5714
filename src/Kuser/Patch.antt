-- ===== src/Kuser/Patch.antt =====
-- `PatchState` of protocol/kuser.rs. The atomic word is its number. `wait` may change it: other
-- threads run there. `weak` has the choices of `compare_exchange_weak` that fail spuriously
-- (`true`), and where the list ends an attempt succeeds. The loop takes fuel for its rounds, and
-- `none` is a loop out of fuel.
pub mod Ends
pub mod Decided
use linuwux_runtime.Base.{
  ℕ, zero, suc, ◌+◌, Option, none, some, Bool, true, false, not, List, [], ◌∷◌, ◌==◌, leb, ◌&&◌,
  ◌||◌, if◌then◌else◌, contains,
}
use linuwux_runtime.Kuser.Recipe.{Recipe}

abbrev pub patch_unapplied : ℕ
patch_unapplied = 0

abbrev pub patch_resume_applying : ℕ
patch_resume_applying = 1

abbrev pub patch_resume_ready : ℕ
patch_resume_ready = 2

abbrev pub patch_resume_failed : ℕ
patch_resume_failed = 3

abbrev pub patch_dispatch_applying : ℕ
patch_dispatch_applying = 4

abbrev pub patch_dispatch_ready : ℕ
patch_dispatch_ready = 5

abbrev pub patch_dispatch_failed : ℕ
patch_dispatch_failed = 6

abbrev pub patch_selector_applying : ℕ
patch_selector_applying = 7

abbrev pub patch_selector_ready : ℕ
patch_selector_ready = 8

abbrev pub patch_selector_failed : ℕ
patch_selector_failed = 9

abbrev pub patch_wait_limit : ℕ
patch_wait_limit = 4096

pub data PatchError : Type 0 where
  conflict apply_failed : PatchError

pub data PatchResult : Type 0 where
  ok : PatchResult
  err : PatchError → PatchResult

unfoldable pub recover_after_fork : ℕ → ℕ
recover_after_fork state =
    if state == patch_resume_applying
    then patch_resume_failed
    else if state == patch_dispatch_applying
    then patch_dispatch_failed
    else if state == patch_selector_applying
    then patch_selector_failed
    else state

abbrev pub applying_state : Recipe → ℕ
applying_state Recipe.resume = patch_resume_applying
applying_state Recipe.dispatch = patch_dispatch_applying
applying_state Recipe.selector = patch_selector_applying

abbrev pub ready_state : Recipe → ℕ
ready_state Recipe.resume = patch_resume_ready
ready_state Recipe.dispatch = patch_dispatch_ready
ready_state Recipe.selector = patch_selector_ready

abbrev pub failed_state : Recipe → ℕ
failed_state Recipe.resume = patch_resume_failed
failed_state Recipe.dispatch = patch_dispatch_failed
failed_state Recipe.selector = patch_selector_failed

abbrev pub is_resume : Recipe → Bool
is_resume Recipe.resume = true
is_resume Recipe.dispatch = false
is_resume Recipe.selector = false

unfoldable pub can_transition_from_recipe : Recipe → ℕ → Bool
can_transition_from_recipe recipe current =
    not (is_resume recipe)
    && contains
        (patch_resume_ready ∷ patch_resume_failed ∷ patch_dispatch_ready ∷ patch_dispatch_failed
          ∷ patch_selector_ready ∷ patch_selector_failed ∷ [])
        current

-- What one round of the loop makes of the word that it loaded: return `Ok`, wait, return
-- `Conflict`, or attempt the exchange, with `current` as the new completion state or not.
pub data Round : Type 0 where
  done busy refused : Round
  attempt : (replaces : Bool) → Round

unfoldable pub round : Recipe → ℕ → Round
unfolding can_transition_from_recipe
round recipe current =
    if current == ready_state recipe
    then done
    else if ((current == patch_dispatch_applying) || (current == patch_selector_applying))
        && not (current == applying_state recipe)
    then busy
    else if not (current == patch_unapplied)
        && not (leb (applying_state recipe) current && leb current (failed_state recipe))
    then (if can_transition_from_recipe recipe current then attempt true else refused)
    else if current == applying_state recipe
    then busy
    else attempt false

-- The word, and whatever else `apply` and `wait` change.
pub record Shared (E : Type 0) : Type 0 where
  pub word : ℕ
  pub rest : E

-- How the loop ends: by a `return`, or by its `break` with the completion state.
pub data End : Type 0 where
  returned : PatchResult → End
  claimed : ℕ → End

module _ {E : Type 0} (wait : Shared E → Shared E) where
  unfoldable pub patch_loop : ℕ → List Bool → Recipe → ℕ → ℕ → Shared E → Option (End × Shared E)
  patch_loop zero weak recipe waits completion s = none
  patch_loop (suc fuel) weak recipe waits completion s = elim (round recipe s.word) [
    | done ↦ some (returned ok, s)
    | refused ↦ some (returned (err conflict), s)
    | busy ↦ elim (waits == patch_wait_limit) [
      | true ↦ some (returned (err conflict), s)
      | false ↦ patch_loop fuel weak recipe (waits + 1) completion (wait s)
    ]
    | attempt replaces ↦
        let completion' = if replaces then s.word else completion in
        elim weak [
          | [] ↦ some (claimed completion', record s { word = applying_state recipe })
          | fails ∷ weak' ↦ elim fails [
            | true ↦ patch_loop fuel weak' recipe waits completion' s
            | false ↦ some (claimed completion', record s { word = applying_state recipe })
          ]
        ]
  ]

-- After the loop: the call of `apply`, and the store of `Completion::drop`.
unfoldable pub complete :
    {E : Type 0} → (E → Bool × E) → Recipe → End × Shared E → PatchResult × Shared E
complete apply recipe (returned result, s) = (result, s)
complete apply recipe (claimed completion, s) =
    let (applied, rest) = apply s.rest in
    if applied
    then (ok, record { word = ready_state recipe; rest = rest })
    else (err apply_failed, record { word = completion; rest = rest })

unfoldable pub patch :
    {E : Type 0}
    → (Shared E → Shared E)
    → (E → Bool × E)
    → ℕ
    → List Bool
    → Recipe
    → Shared E
    → Option (PatchResult × Shared E)
unfolding patch_loop complete
patch wait apply fuel weak recipe s =
    elim (patch_loop wait fuel weak recipe 0 (failed_state recipe) s) [
      | none ↦ none
      | some r ↦ some (complete apply recipe r)
    ]
