-- ===== src/Base/Words.antt =====
-- Machine words as native numbers: the bounds of u32 and u64, and the casts between them.
use Prim.Native.Nat.{ℕ, zero, suc, ◌+◌, ◌-◌, ◌*◌, ◌/◌, ◌^◌, ◌%◌, min}

abbrev pub u32_mod : ℕ
u32_mod = 2 ^ 32

abbrev pub u64_mod : ℕ
u64_mod = 2 ^ 64

abbrev pub u32_max : ℕ
u32_max = 0xffff_ffff

abbrev pub u64_max : ℕ
u64_max = 0xffff_ffff_ffff_ffff

-- `value as u32` of a u64
abbrev pub as_u32 : ℕ → ℕ
as_u32 n = n % u32_mod

-- A bit of a word, replaced.
abbrev pub clear_bit : ℕ → ℕ → ℕ
clear_bit bit n = n - n / 2 ^ bit % 2 * 2 ^ bit

abbrev pub set_bit : ℕ → ℕ → ℕ
set_bit bit n = clear_bit bit n + 2 ^ bit

-- `a | b`, of words of `w` bits.
unfoldable pub bit_or : ℕ → ℕ → ℕ → ℕ
bit_or zero a b = 0
bit_or (suc w) a b = min 1 (a % 2 + b % 2) + 2 * bit_or w (a / 2) (b / 2)
