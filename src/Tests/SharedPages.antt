-- ===== src/Tests/SharedPages.antt =====
-- The patching of the shared page at concrete inputs: the first call of `mprotect` behind the opening
-- one fails, and the second attempt restores the protection.
use linuwux_runtime.Base.{◌≡◌, refl, true, false, [], ◌∷◌}
use linuwux_runtime.Kuser.Recipe.{Recipe, to_raw, from_raw}
use linuwux_runtime.Kuser.Writes.{visit_writes}
use linuwux_runtime.Kuser.Buffer.{write_all, kuser_apply_to_buffer}
use linuwux_runtime.Kuser.Patch.{Shared}
use linuwux_runtime.Kuser.SharedPage.{
  Setup, SharedPage, mprotect, restore_read_only, direct_syscall, written,
  apply_recipe_to_shared_page, apply_recipe_to_shared_page_lem,
}

abbrev setup : Setup
setup = record {
  page_geometry_supported = true;
  shared_page_available = true;
  avx_enabled = true;
  syscall_hack_enabled = true;
}

abbrev wine_page : SharedPage
wine_page = record {
  page = λ o. 1;
  writable = false;
  hack_applied = false;
  answers = true ∷ false ∷ true ∷ [];
}

applied : (apply_recipe_to_shared_page setup Recipe.selector wine_page).0 ≡ true
unfolding apply_recipe_to_shared_page mprotect restore_read_only written kuser_apply_to_buffer
    from_raw to_raw
applied = refl

apply_recipe_to_shared_page_lem_example :
    ((apply_recipe_to_shared_page setup Recipe.selector wine_page).1.writable ≡ false)
    × ((apply_recipe_to_shared_page setup Recipe.selector wine_page).1.page
        ≡ direct_syscall true (write_all (visit_writes Recipe.selector true) wine_page.page))
apply_recipe_to_shared_page_lem_example =
    apply_recipe_to_shared_page_lem setup Recipe.selector wine_page applied

abbrev idle : Shared SharedPage
idle = record { word = 0; rest = wine_page }

abbrev nothing : Shared SharedPage → Shared SharedPage
nothing s = s
