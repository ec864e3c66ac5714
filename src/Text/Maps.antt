-- ===== src/Text/Maps.antt =====
-- runtime/src/maps.rs: the parser of a line of /proc/self/maps, and the assembly of lines from the
-- chunks that are read. The rest of a line stands for a position in it.
pub mod Hex
use linuwux_runtime.Base.{
  u64_max, ◌>>=◌, ℕ, zero, suc, ◌+◌, ◌-◌, ◌*◌, ◌^◌, ◌≡◌, ◌≤◌, ◌<◌, refl, Bool, true, false, not,
  ◌&&◌, ◌||◌, Option, none, some, List, [], ◌∷◌, ◌++◌, ◌==◌, leb, ltb, length, if◌then◌else◌, arith,
}
use linuwux_runtime.Text.Bytes.{
  is_ascii_whitespace, take_while, drop_while, split_first, split_others,
}

abbrev pub line_capacity : ℕ
line_capacity = 1024

pub record Mapping : Type 0 where
  pub start : ℕ
  pub end : ℕ
  pub permissions : List ℕ
  pub inode : List ℕ
  pub path : List ℕ

unfoldable pub hex_digit : ℕ → Option ℕ
hex_digit b =
    if leb 0x30 b && leb b 0x39
    then some (b - 0x30)
    else if leb 0x61 b && leb b 0x66
    then some (b - 0x61 + 10)
    else if leb 0x41 b && leb b 0x46
    then some (b - 0x41 + 10)
    else none

unfoldable pub fold_hex : List ℕ → ℕ → Option ℕ
fold_hex [] result = some result
fold_hex (b ∷ bs) result = elim (hex_digit b) [
  | none ↦ none
  | some digit ↦
      let rest = fold_hex bs (result * 16 + digit) in
      if ltb u64_max (result * 16) || ltb u64_max (result * 16 + digit) then none else rest
]

unfoldable pub parse_hex : List ℕ → Option ℕ
parse_hex [] = none
parse_hex (b ∷ bs) = fold_hex (b ∷ bs) 0

-- A field and the rest of the line behind it; `none` if there is none.
unfoldable pub next_field : List ℕ → Option (List ℕ × List ℕ)
next_field line =
    let from = drop_while is_ascii_whitespace line in
    let field = take_while (λ b. not (is_ascii_whitespace b)) from in
    if length field == 0
    then none
    else some (field, drop_while (λ b. not (is_ascii_whitespace b)) from)

-- `START-END`, with no third piece.
unfoldable pub parse_bounds : List ℕ → Option (ℕ × ℕ)
parse_bounds range = elim (parse_hex (split_first (λ b. b == 0x2d) range)) [
  | none ↦ none
  | some start ↦ elim (split_others (λ b. b == 0x2d) range) [
    | [] ↦ none
    | piece ∷ pieces ↦ elim (parse_hex piece) [
      | none ↦ none
      | some end ↦ elim pieces [ [] ↦ some (start, end) | third ∷ more ↦ none ]
    ]
  ]
]

unfoldable pub parse : List ℕ → Option Mapping
parse line = do
  (range, line₁) ← next_field line
  (permissions, line₂) ← next_field line₁
  (offset, line₃) ← next_field line₂
  (device, line₄) ← next_field line₃
  (inode, line₅) ← next_field line₄
  (start, end) ← parse_bounds range
  some (record {
    start = start;
    end = end;
    permissions = permissions;
    inode = inode;
    path = drop_while is_ascii_whitespace line₅;
  })
