-- ===== src/Kuser/SharedPage.antt =====
-- runtime/src/kuser.rs: the patching of the page that Wine shares. The list `answers` has what the
-- next calls of `mprotect` answer, and behind its end they succeed; a call that succeeds sets the
-- protection, and one that fails changes nothing. The guard and the bridge of the syscall dispatcher
-- are what their calls answer.
use linuwux_runtime.Base.{
  ℕ, ◌+◌, ◌≡◌, ◌≤◌, ◌⊎◌, inl, inr, refl, Bool, Bool-cases, true, false, not, ◌&&◌, ◌||◌, Option,
  none, some, List, [], ◌∷◌, length, arith, if◌then◌else◌,
}
use linuwux_runtime.Kuser.Recipe.{Recipe, to_raw, from_raw, from_raw-to_raw}
use linuwux_runtime.Kuser.Writes.{visit_writes}
use linuwux_runtime.Kuser.Buffer.{Page, page_size, set_byte, write_all, kuser_apply_to_buffer}
use linuwux_runtime.Kuser.Buffer.Image.{apply_buffer}
use linuwux_runtime.Kuser.Patch.{PatchResult, ok, err, Shared, ready_state, patch, patch_wait_limit}
use linuwux_runtime.Kuser.Patch.Ends.{Leaves, patch_returns}

abbrev pub system_call_offset : ℕ
system_call_offset = 0x308

-- What does not change while the library runs.
pub record Setup : Type 0 where
  pub page_geometry_supported : Bool
  pub shared_page_available : Bool
  pub avx_enabled : Bool
  pub syscall_hack_enabled : Bool

pub record SharedPage : Type 0 where
  pub page : Page
  pub writable : Bool
  pub hack_applied : Bool
  pub answers : List Bool

unfoldable pub mprotect : Bool → SharedPage → Bool × SharedPage
mprotect writable s = elim s.answers [
  | [] ↦ (true, record s { writable = writable })
  | answer ∷ answers ↦
      if answer
      then (true, record s { writable = writable; answers = answers })
      else (false, record s { answers = answers })
]

-- Two attempts.
unfoldable pub restore_read_only : SharedPage → Bool × SharedPage
restore_read_only s =
    let (first, s₁) = mprotect false s in if first then (true, s₁) else mprotect false s₁

-- The store of zero in `SystemCall`.
unfoldable pub direct_syscall : Bool → Page → Page
direct_syscall hack page = if hack then set_byte page system_call_offset 0 else page

unfoldable pub written : Setup → Recipe → SharedPage → Bool × SharedPage
unfolding direct_syscall
written setup recipe s =
    elim (kuser_apply_to_buffer false s.page page_size (to_raw recipe) setup.avx_enabled) [
      | none ↦ (false, record s { page = direct_syscall setup.syscall_hack_enabled s.page })
      | some page ↦ (true, record s { page = direct_syscall setup.syscall_hack_enabled page })
    ]

unfoldable pub apply_recipe_to_shared_page : Setup → Recipe → SharedPage → Bool × SharedPage
unfolding restore_read_only written
apply_recipe_to_shared_page setup recipe s =
    if not setup.page_geometry_supported || not setup.shared_page_available
    then (false, s)
    else (let (opened, s₁) = mprotect true s in
        if opened
        then (let (applied, s₂) = written setup recipe s₁ in
            let (restored, s₃) = restore_read_only s₂ in
            if restored
            then (
              applied,
              record s₃ { hack_applied = s₃.hack_applied || setup.syscall_hack_enabled },
            )
            else (false, s₃))
        else (false, s₁))

-- `acquired` is what the acquisition of the guard answers.
unfoldable pub force_direct_syscall : Setup → Bool → SharedPage → SharedPage
unfolding restore_read_only direct_syscall
force_direct_syscall setup acquired s =
    if not setup.syscall_hack_enabled
      || s.hack_applied
      || not setup.page_geometry_supported
      || not setup.shared_page_available
      || not acquired
    then s
    else (let (opened, s₁) = mprotect true s in
        if opened
        then (let (restored, s₂) =
              restore_read_only (record s₁ { page = direct_syscall true s₁.page }) in
            if restored then record s₂ { hack_applied = true } else s₂)
        else s₁)

abbrev pub is_ok : PatchResult → Bool
is_ok ok = true
is_ok (err e) = false

-- The answer 0 is `true`, and -1 is `false`; `bridged` is what the installation of the bridge answers.
unfoldable pub patch_kuser_shared_data_recipe :
    Setup
    → (acquired bridged : Bool) → (Shared SharedPage → Shared SharedPage)
    → ℕ
    → List Bool
    → ℕ
    → Shared SharedPage
    → Option (Bool × Shared SharedPage)
patch_kuser_shared_data_recipe setup acquired bridged wait fuel weak raw s = elim (from_raw raw) [
  | none ↦ some (false, s)
  | some recipe ↦
      if acquired
      then (elim (patch wait (apply_recipe_to_shared_page setup recipe) fuel weak recipe s) [
        | none ↦ none
        | some r ↦ let (result, s') = r in some (is_ok result && bridged, s')
      ])
      else some (false, s)
]

-- If the recipe is applied, the page is read-only and is the page of the recipe, with `SystemCall` zero
-- under the hack, whatever the calls of `mprotect` answered.
pub apply_recipe_to_shared_page_lem :
    (setup : Setup) (recipe : Recipe) (s : SharedPage)
    → (apply_recipe_to_shared_page setup recipe s).0 ≡ true
    → ((apply_recipe_to_shared_page setup recipe s).1.writable ≡ false)
      × ((apply_recipe_to_shared_page setup recipe s).1.page
          ≡ direct_syscall setup.syscall_hack_enabled
              (write_all (visit_writes recipe setup.avx_enabled) s.page))
unfolding apply_recipe_to_shared_page mprotect written restore_read_only
apply_recipe_to_shared_page_lem setup recipe s applied =
    ground (arith, applied, apply_buffer s.page page_size recipe setup.avx_enabled)

answered :
    (recipe : Recipe) (bridged : Bool) (result : PatchResult) (s : Shared SharedPage)
    → Leaves recipe (result, s)
    → ((is_ok result && bridged) ≡ false) ⊎ (s.word ≡ ready_state recipe)
answered recipe bridged ok s ready = inr ready
answered recipe bridged (err e) s left = inl refl

-- With fuel for the spurious failures and the waits, a request for a recipe returns; and the answer 0
-- leaves the word of the recipe ready.
patch_kuser_shared_data_recipe_returns :
    (setup : Setup) (acquired bridged : Bool) (wait : Shared SharedPage → Shared SharedPage)
    (fuel : ℕ) (weak : List Bool) (recipe : Recipe) (s : Shared SharedPage)
    → length weak + patch_wait_limit + 1 ≤ fuel
    → (answer : Bool) × (s' : Shared SharedPage) × (patch_kuser_shared_data_recipe setup acquired
          bridged wait fuel weak
          (to_raw recipe)
          s
        ≡ some (answer, s'))
      × ((answer ≡ false) ⊎ (s'.word ≡ ready_state recipe))
unfolding patch_kuser_shared_data_recipe
patch_kuser_shared_data_recipe_returns setup acquired bridged wait fuel weak recipe s enough =
    let (r, ran, leaves) =
      patch_returns wait (apply_recipe_to_shared_page setup recipe) fuel weak recipe s enough in
    elim (Bool-cases acquired) [
      | inl guarded ↦ (
        is_ok r.0 && bridged,
        r.1,
        rw (from_raw-to_raw recipe, patch_kuser_shared_data_recipe, guarded, ran) refl,
        answered recipe bridged r.0 r.1 leaves,
      )
      | inr refused ↦ (
        false,
        s,
        rw (from_raw-to_raw recipe, patch_kuser_shared_data_recipe, refused) refl,
        inl refl,
      )
    ]
