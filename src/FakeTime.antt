-- ===== src/FakeTime.antt =====
-- protocol/faketime.rs: the offset between a clock and a FILETIME. Signed seconds are their 64-bit
-- pattern, so that the casts between signed and unsigned words change nothing.
use linuwux_runtime.Base.{ℕ, ◌+◌, ◌-◌, ◌/◌, ◌%◌, ◌≡◌, ◌≤◌, ◌<◌, arith, u64_mod}

abbrev pub ticks_per_second : ℕ
ticks_per_second = 10_000_000

-- `86_400 * (369 * 365 + 89)`
abbrev pub seconds_1601_to_1970 : ℕ
seconds_1601_to_1970 = 11_644_473_600

abbrev pub wrapping_sub : ℕ → ℕ → ℕ
wrapping_sub a b = (a + (u64_mod - b)) % u64_mod

unfoldable pub offset_from_filetime : ℕ → ℕ → ℕ
offset_from_filetime now_seconds filetime =
    wrapping_sub now_seconds (wrapping_sub (filetime / ticks_per_second) seconds_1601_to_1970)

unfoldable pub apply_offset : ℕ → ℕ → ℕ
apply_offset seconds offset = wrapping_sub seconds offset

-- A clock that is read `passed` seconds after the offset was taken shows the requested time and the
-- seconds that passed, if the request is not before 1970 and the clock does not overflow meanwhile;
-- so it does also if the request lies behind the clock and the offset wraps.
pub apply_offset-offset_from_filetime :
    (now filetime passed : ℕ)
    → now + passed < u64_mod
    → seconds_1601_to_1970 ≤ filetime / ticks_per_second
    → filetime / ticks_per_second - seconds_1601_to_1970 + passed < u64_mod
    → apply_offset (now + passed) (offset_from_filetime now filetime)
      ≡ filetime / ticks_per_second - seconds_1601_to_1970 + passed
unfolding apply_offset offset_from_filetime
apply_offset-offset_from_filetime now filetime passed fits after_1970 small = omega arith
