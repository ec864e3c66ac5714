-- ===== src/Text/Maps/Hex.antt =====
-- The numbers of a line of /proc/self/maps, against the value of their digits without a bound.
use linuwux_runtime.Base.{
  ℕ, ◌+◌, ◌*◌, ◌≡◌, ◌≤◌, ◌<◌, refl, Option-cases, inl, inr, Option, none, some, List, [], ◌∷◌, ltb,
  if◌then◌else◌, arith,
}
use linuwux_runtime.Base.{u64_max}
use linuwux_runtime.Text.Maps.{hex_digit, fold_hex, parse_hex}

-- The value of hexadecimal digits behind those of `result`; `none` at a byte that is no digit.
unfoldable pub hex_value : List ℕ → ℕ → Option ℕ
hex_value [] result = some result
hex_value (b ∷ bs) result = elim (hex_digit b) [
  | none ↦ none
  | some digit ↦ hex_value bs (result * 16 + digit)
]

abbrev pub within : ℕ → Option ℕ → Option ℕ
within max none = none
within max (some n) = if ltb max n then none else some n

hex_value-le : (bs : List ℕ) (result n : ℕ) → hex_value bs result ≡ some n → result ≤ n
unfolding hex_value
hex_value-le [] result n e = ground arith
hex_value-le (b ∷ bs) result n e = elim (Option-cases (hex_digit b)) [
  | inl bad ↦ absurd (ground (arith, rw (bad, hex_value) at e))
  | inr (digit, good) ↦
      ground (arith, hex_value-le bs (result * 16 + digit) n, rw (good, hex_value) at e)
]

-- Beyond the bound nothing comes back below it.
beyond : (bs : List ℕ) (result : ℕ) → u64_max < result → within u64_max (hex_value bs result) ≡ none
beyond bs result over = elim (Option-cases (hex_value bs result)) [
  | inl bad ↦ rw bad refl
  | inr (n, e) ↦ rw e (ground (arith, hex_value-le bs result n e))
]

fold_hex-hex_value :
    (bs : List ℕ) (result : ℕ)
    → result ≤ u64_max
    → fold_hex bs result ≡ within u64_max (hex_value bs result)
unfolding fold_hex hex_value
fold_hex-hex_value [] result le = ground arith
fold_hex-hex_value (b ∷ bs) result le = elim (Option-cases (hex_digit b)) [
  | inl bad ↦ rw (fold_hex, hex_value, bad) refl
  | inr (digit, good) ↦
      rw (fold_hex, hex_value, good)
        (ground
          (arith, fold_hex-hex_value bs (result * 16 + digit), beyond bs (result * 16 + digit)))
]

-- A slice is read as the value of its digits if all its bytes are hexadecimal digits, there is one,
-- and the value fits 64 bits; otherwise it is refused. No intermediate product or sum wraps.
parse_hex-hex_value :
    (b : ℕ) (bs : List ℕ)
    → (parse_hex [] ≡ none) × (parse_hex (b ∷ bs) ≡ within u64_max (hex_value (b ∷ bs) 0))
unfolding parse_hex
parse_hex-hex_value b bs = (refl, fold_hex-hex_value (b ∷ bs) 0 (omega arith))
