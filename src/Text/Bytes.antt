-- ===== src/Text/Bytes.antt =====
-- What the parsers use of Rust's byte slices: the classes of ASCII bytes, splits and prefixes.
use linuwux_runtime.Base.{
  Option, none, some, false, ℕ, Bool, not, ◌&&◌, ◌||◌, List, [], ◌∷◌, ◌==◌, leb, if◌then◌else◌,
  length, take, drop, bytes_eq, ◌-◌,
}

-- `u8::is_ascii_whitespace`
abbrev pub is_ascii_whitespace : ℕ → Bool
is_ascii_whitespace b = (b == 0x20) || (b == 9) || (b == 10) || (b == 12) || (b == 13)

-- `u8::is_ascii_digit`
abbrev pub is_ascii_digit : ℕ → Bool
is_ascii_digit b = leb 0x30 b && leb b 0x39

-- The first bytes that pass a test.
unfoldable pub take_while : (ℕ → Bool) → List ℕ → List ℕ
take_while p [] = []
take_while p (b ∷ bs) = if p b then b ∷ take_while p bs else []

-- The bytes behind them.
unfoldable pub drop_while : (ℕ → Bool) → List ℕ → List ℕ
drop_while p [] = []
drop_while p (b ∷ bs) = if p b then drop_while p bs else b ∷ bs

-- `slice::split` as the first piece and the others.
unfoldable pub split_first : (ℕ → Bool) → List ℕ → List ℕ
split_first p bs = take_while (λ b. not (p b)) bs

unfoldable pub split_others : (ℕ → Bool) → List ℕ → List (List ℕ)
split_others p [] = []
split_others p (b ∷ bs) = if p b then split_first p bs ∷ split_others p bs else split_others p bs

abbrev pub split : (ℕ → Bool) → List ℕ → List (List ℕ)
split p bs = split_first p bs ∷ split_others p bs

abbrev pub last_of : List ℕ → List (List ℕ) → List ℕ
last_of piece [] = piece
last_of piece (next ∷ pieces) = last_of next pieces

-- " (deleted)"
abbrev pub deleted_suffix : List ℕ
deleted_suffix = 32 ∷ 40 ∷ 100 ∷ 101 ∷ 108 ∷ 101 ∷ 116 ∷ 101 ∷ 100 ∷ 41 ∷ []

-- `strip_suffix`, or the whole.
unfoldable pub without_suffix : List ℕ → List ℕ → List ℕ
without_suffix path suffix =
    let kept = length path - length suffix in
    if leb (length suffix) (length path) && bytes_eq (drop kept path) suffix
    then take kept path
    else path

-- Whether a variable of the environment is set to "1".
abbrev pub is_one : Option (List ℕ) → Bool
is_one none = false
is_one (some value) = bytes_eq value (0x31 ∷ [])
