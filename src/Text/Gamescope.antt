-- ===== src/Text/Gamescope.antt =====
-- protocol/gamescope.rs: the recognition of a Gamescope session, and the parsing that it needs.
-- `none` is the answer `None`; the caller's test `is_space` is an argument.
use linuwux_runtime.Base.{
  ℕ, zero, suc, ◌+◌, ◌-◌, ◌*◌, ◌^◌, ◌≡◌, ◌≤◌, ◌<◌, ◌↔◌, Bool, false, not, ◌&&◌, ◌||◌, Option, none,
  some, List, [], ◌∷◌, ◌==◌, leb, ltb, length, drop, bytes_eq, if◌then◌else◌, arith,
}
use linuwux_runtime.Text.Bytes.{
  is_ascii_whitespace, is_ascii_digit, take_while, drop_while, split, split_first, split_others,
  last_of,
}

-- The bytes of `gamescope`.
abbrev pub gamescope : List ℕ
gamescope = 0x67 ∷ 0x61 ∷ 0x6d ∷ 0x65 ∷ 0x73 ∷ 0x63 ∷ 0x6f ∷ 0x70 ∷ 0x65 ∷ []

unfoldable pub is_gamescope_path : List ℕ → Bool
is_gamescope_path path =
    bytes_eq (last_of (split_first (λ b. b == 0x2f) path) (split_others (λ b. b == 0x2f) path))
      gamescope

abbrev pub is_separator : ℕ → Bool
is_separator b = (b == 0x3a) || is_ascii_whitespace b

-- The outer loop, on what is left of the list; the fuel is a round for each of its bytes.
unfoldable pub list_has_gamescope : ℕ → List ℕ → Bool
list_has_gamescope zero bs = false
list_has_gamescope (suc fuel) [] = false
list_has_gamescope (suc fuel) (b ∷ bs) =
    let token_on = drop_while is_separator (b ∷ bs) in
    let rest = list_has_gamescope fuel (drop_while (λ c. not (is_separator c)) token_on) in
    bytes_eq (take_while (λ c. not (is_separator c)) token_on) gamescope || rest

unfoldable pub desktop_list_has_gamescope : List ℕ → Bool
desktop_list_has_gamescope list = list_has_gamescope (length list) list

unfoldable pub is_gamescope_session : List ℕ → List ℕ → Bool
is_gamescope_session current_desktop session_desktop =
    desktop_list_has_gamescope current_desktop || desktop_list_has_gamescope session_desktop

unfoldable pub any_is : List (List ℕ) → List ℕ → Bool
any_is [] path = false
any_is (token ∷ tokens) path = bytes_eq token path || any_is tokens path

unfoldable pub preload_has_path : List ℕ → List ℕ → (ℕ → Bool) → Bool
preload_has_path list path is_space =
    not (bytes_eq path []) && any_is (split (λ b. (b == 0x3a) || is_space b) list) path

abbrev pub usize_max : ℕ
usize_max = 2 ^ 64 - 1

unfoldable pub preserved_length : ℕ → ℕ → Option ℕ
preserved_length value_length path_length =
    if ltb usize_max path_length || ltb (usize_max - path_length) 2
    then none
    else if ltb (usize_max - path_length - 2) value_length
    then none
    else some (value_length + (if value_length == 0 then 0 else 1) + path_length + 1)

abbrev pub i32_max : ℕ
i32_max = 2 ^ 31 - 1

-- The loop over the digits: `checked_mul`, then `checked_add`.
unfoldable pub parse_digits : List ℕ → ℕ → Option ℕ
parse_digits [] result = some result
parse_digits (b ∷ bs) result =
    let rest = parse_digits bs (result * 10 + (b - 0x30)) in
    if ltb i32_max (result * 10) || ltb i32_max (result * 10 + (b - 0x30)) then none else rest

unfoldable pub first_is : List ℕ → ℕ → Bool
first_is [] b = false
first_is (c ∷ cs) b = c == b

-- The bytes of `PPid:`.
abbrev pub ppid : List ℕ
ppid = 0x50 ∷ 0x50 ∷ 0x69 ∷ 0x64 ∷ 0x3a ∷ []

unfoldable pub strip_prefix : List ℕ → List ℕ → Option (List ℕ)
strip_prefix [] line = some line
strip_prefix (p ∷ ps) [] = none
strip_prefix (p ∷ ps) (b ∷ bs) = if p == b then strip_prefix ps bs else none

unfoldable pub signed_value : List ℕ → Option ℕ
signed_value value =
    let negative = first_is value 0x2d in
    let digits =
      take_while is_ascii_digit (if negative || first_is value 0x2b then drop 1 value else value) in
    if length digits == 0 then none else elim (parse_digits digits 0) [
      | none ↦ none
      | some result ↦ if negative && not (result == 0) then none else some result
    ]

unfoldable pub parent_process_id : List ℕ → Option ℕ
parent_process_id line = elim (strip_prefix ppid line) [
  | none ↦ none
  | some value ↦ signed_value (drop_while (λ b. (b == 0x20) || (leb 9 b && leb b 13)) value)
]

-- For a path whose length is a machine word, a length is refused exactly if the value, the separator,
-- the path and the final zero might not fit a machine word, and every answer fits one, so that no
-- addition wraps.
preserved_length_lem :
    (value_length path_length : ℕ)
    → path_length ≤ usize_max
    → ((preserved_length value_length path_length ≡ none)
        ↔ (usize_max < value_length + path_length + 2))
      × ((n : ℕ) → preserved_length value_length path_length ≡ some n → n ≤ usize_max)
unfolding preserved_length
preserved_length_lem value_length path_length le = (ground arith, λ n. ground arith)
