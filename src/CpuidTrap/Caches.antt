-- ===== src/CpuidTrap/Caches.antt =====
-- The two caches of runtime/src/cpuid.rs. A call runs to its end before the next one, so that a lock is
-- held, and a sequence odd, only where a signal has come within a call on the same thread.
pub mod NativeCache
use linuwux_runtime.Base.{
  ℕ, zero, suc, ◌+◌, ◌*◌, ◌%◌, ◌^◌, Bool, true, false, not, ◌&&◌, ◌||◌, Option, none, some, ◌==◌,
  ltb, leb, if◌then◌else◌, u32_mod,
}

abbrev pub caller_cache_cap : ℕ
caller_cache_cap = 64

pub data CallerKind : Type 0 where
  ordinary : CallerKind
  reflex64 : CallerKind
  artifact : CallerKind

unfoldable pub kind_from_raw : ℕ → CallerKind
kind_from_raw value = if value == 1 then reflex64 else if value == 2 then artifact else ordinary

-- `kind as u32`
unfoldable pub kind_code : CallerKind → ℕ
kind_code ordinary = 0
kind_code reflex64 = 1
kind_code artifact = 2

pub record Range : Type 0 where
  pub sequence : ℕ
  pub start : ℕ
  pub end : ℕ
  pub kind : ℕ

pub record CallerCache : Type 0 where
  pub locked : Bool
  pub next : ℕ
  pub ranges : ℕ → Range

abbrev pub new_callers : CallerCache
new_callers = record {
  locked = false;
  next = 0;
  ranges = λ i. record { sequence = 0; start = 0; end = 0; kind = 0 };
}

abbrev pub covers : Range → ℕ → Bool
covers r address = (r.sequence % 2 == 0) && leb r.start address && ltb address r.end

-- The search of `n` entries from an index on.
unfoldable pub lookup_from : ℕ → ℕ → CallerCache → ℕ → Option CallerKind
lookup_from zero index c address = none
lookup_from (suc n) index c address =
    let rest = lookup_from n (index + 1) c address in
    if covers (c.ranges index) address then some (kind_from_raw (c.ranges index).kind) else rest

unfoldable pub lookup_caller : CallerCache → ℕ → Option CallerKind
lookup_caller c address = lookup_from caller_cache_cap 0 c address

unfoldable pub insert_caller : CallerCache → ℕ → ℕ → CallerKind → CallerCache
insert_caller c start end kind =
    if c.locked
    then c
    else let index = c.next % caller_cache_cap in
      let filled : Range = record {
        sequence = ((c.ranges index).sequence + 2) % u32_mod;
        start = start;
        end = end;
        kind = kind_code kind;
      } in
      record c { next = index + 1; ranges = λ i. if index == i then filled else c.ranges i }
