-- ===== src/Tests/Overridden.antt =====
-- A game that is started from a drive, where "dxgi=b" is set.
use linuwux_runtime.Base.{ℕ, ◌≡◌, refl, true, Option, some, List, [], ◌∷◌, ◌||◌, bytes_eq, arith}
use linuwux_runtime.Text.Bytes.{split_first, split_others, take_while}
use linuwux_runtime.Registry.{contains_bytes}
use linuwux_runtime.Environment.{
  overrides, any_entry, is_present, is_some, game_executable_argument, direct_game,
  argv0_is_unix_loader, is_exe, equal_name, is_helper_basename, is_system32_helper, lowered,
  setup_overrides,
}
use linuwux_runtime.Environment.Overrides.{setup_overrides-is_present}

-- `Z:\g.exe`
abbrev argv : List (Option (List ℕ))
argv = some (90 ∷ 58 ∷ 92 ∷ 103 ∷ 46 ∷ 101 ∷ 120 ∷ 101 ∷ []) ∷ []

-- `dxgi=b`
abbrev existing : Option (List ℕ)
existing = some (100 ∷ 120 ∷ 103 ∷ 105 ∷ 61 ∷ 98 ∷ [])

-- `winmm`
abbrev winmm : List ℕ
winmm = 119 ∷ 105 ∷ 110 ∷ 109 ∷ 109 ∷ []

is_game : is_some (game_executable_argument argv) ≡ true
unfolding game_executable_argument direct_game argv0_is_unix_loader is_exe equal_name
    is_helper_basename is_system32_helper lowered contains_bytes any_entry split_first split_others
    take_while
is_game = refl

listed : (any_entry (bytes_eq winmm) overrides || is_present existing winmm) ≡ true
unfolding any_entry
listed = refl

setup_overrides-is_present_example : is_present (setup_overrides true argv existing) winmm ≡ true
setup_overrides-is_present_example =
    setup_overrides-is_present argv existing winmm is_game (omega arith) listed
