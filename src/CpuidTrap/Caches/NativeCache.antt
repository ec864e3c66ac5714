-- ===== src/CpuidTrap/Caches/NativeCache.antt =====
-- The cache of native replies. Its spinning lock is free whenever a call begins.
use linuwux_runtime.Base.{
  ℕ, zero, suc, ◌+◌, ◌*◌, Option, none, some, ◌==◌, ltb, if◌then◌else◌, min, u32_mod,
}
use linuwux_runtime.Cpuid.Identity.{Registers}

abbrev pub native_cache_cap : ℕ
native_cache_cap = 32

pub record NativeCache : Type 0 where
  pub len : ℕ
  pub keys : ℕ → ℕ
  pub replies : ℕ → Registers

-- `u64::from(leaf) << 32 | u64::from(subleaf)`
abbrev pub key_of : ℕ → ℕ → ℕ
key_of leaf subleaf = leaf * u32_mod + subleaf

unfoldable pub lookup_key : ℕ → ℕ → NativeCache → ℕ → Option Registers
lookup_key zero index c key = none
lookup_key (suc n) index c key =
    let rest = lookup_key n (index + 1) c key in
    if c.keys index == key then some (c.replies index) else rest

unfoldable pub lookup_native : NativeCache → ℕ → ℕ → Option Registers
lookup_native c leaf subleaf = lookup_key (min c.len native_cache_cap) 0 c (key_of leaf subleaf)

unfoldable pub insert_native : NativeCache → ℕ → ℕ → Registers → NativeCache
insert_native c leaf subleaf regs =
    if ltb c.len native_cache_cap
    then record {
      len = c.len + 1;
      keys = λ i. if c.len == i then key_of leaf subleaf else c.keys i;
      replies = λ i. if c.len == i then regs else c.replies i;
    }
    else c
