-- ===== src/Tests/Parsing.antt =====
-- The parsers, the clock and the registry scan at concrete inputs.
use linuwux_runtime.Base.{ℕ, suc, ◌≡◌, refl, Bool, true, false, some, List, [], ◌∷◌, leb, length}
use linuwux_runtime.Text.Bytes.{take_while, drop_while, split_first, split_others}
use linuwux_runtime.Text.Gamescope.{
  gamescope, is_gamescope_path, desktop_list_has_gamescope, list_has_gamescope, parent_process_id,
  strip_prefix, signed_value, parse_digits, first_is,
}
use linuwux_runtime.Text.Lines.{find_line}
use linuwux_runtime.Text.Lines.Chunks.{contents, visit_lines, find_line-visit_lines}

-- Three lines in three reads, and a visit that counts and stops at a line of two bytes.
abbrev reads : List (List ℕ)
reads = (0x61 ∷ 0x0a ∷ 0x62 ∷ []) ∷ (0x63 ∷ 0x0a ∷ []) ∷ (0x64 ∷ []) ∷ []

abbrev counts : List ℕ → ℕ → Bool × ℕ
counts line n = (leb 2 (length line), suc n)

find_line-visit_lines_example :
    (find_line counts true reads 0 ≡ visit_lines counts [] (contents reads) 0)
    × (find_line counts false reads 0 ≡ (false, 0))
find_line-visit_lines_example = find_line-visit_lines counts reads 0

path_ends : is_gamescope_path (0x2f ∷ gamescope) ≡ true
unfolding is_gamescope_path take_while split_first split_others
path_ends = refl

list_names : desktop_list_has_gamescope (0x78 ∷ 0x3a ∷ gamescope) ≡ true
unfolding desktop_list_has_gamescope list_has_gamescope take_while drop_while
list_names = refl

parent_is : parent_process_id (0x50 ∷ 0x50 ∷ 0x69 ∷ 0x64 ∷ 0x3a ∷ 9 ∷ 0x34 ∷ 0x32 ∷ []) ≡ some 42
unfolding parent_process_id strip_prefix signed_value parse_digits first_is take_while drop_while
parent_is = refl
