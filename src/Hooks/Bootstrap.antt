-- ===== src/Hooks/Bootstrap.antt =====
-- runtime/src/hooks.rs: the pool that serves `malloc` before the real one is known, and the look-up of the
-- real functions, during which the pool is used. Arithmetic wraps, as in a release build.
pub mod Disjoint
use linuwux_runtime.Base.{
  ℕ, ◌+◌, ◌*◌, ◌/◌, ◌%◌, ◌^◌, Bool, true, false, not, ◌&&◌, Option, none, some, List, [], ◌∷◌, ◌==◌,
  ltb, leb, if◌then◌else◌, u64_mod,
}

abbrev pub bootstrap_pool_size : ℕ
bootstrap_pool_size = 2 ^ 16

abbrev pub align : ℕ
align = 16

-- `(size.max(1) + ALIGN - 1) & !(ALIGN - 1)`
unfoldable pub aligned : ℕ → ℕ
aligned size = ((if size == 0 then 1 else size) + 15) % u64_mod / align * align

-- The pool at `start`: what it gives, and BOOTSTRAP_OFFSET after the call.
unfoldable pub bootstrap_alloc : ℕ → ℕ → ℕ → Option ℕ × ℕ
unfolding aligned
bootstrap_alloc start offset size =
    let end = (offset + aligned size) % u64_mod in
    (if ltb bootstrap_pool_size end then none else some (start + offset), end)

unfoldable pub is_bootstrap_ptr : ℕ → ℕ → Bool
is_bootstrap_ptr start candidate =
    leb start candidate && ltb candidate (start + bootstrap_pool_size)

-- A cached symbol, 0 if it is not known, and whether the thread is about to look it up.
pub record Resolver : Type 0 where
  pub symbol : ℕ
  pub resolving : Bool

-- `resolve_real_malloc` and `resolve_real_free`: what they give at once, or that `dlsym` is to be called.
-- `has_key` is whether the thread has a place for the mark.
pub data Lookup : Type 0 where
  known : (symbol : ℕ) → Lookup
  nested : Lookup
  asks_dlsym : Resolver → Lookup

unfoldable pub begin_resolve : Bool → Resolver → Lookup
begin_resolve has_key r =
    if not (r.symbol == 0)
    then known r.symbol
    else if r.resolving
    then nested
    else asks_dlsym (record r { resolving = has_key })

-- Behind `dlsym`.
unfoldable pub end_resolve : ℕ → Resolver → Option ℕ × Resolver
end_resolve symbol r =
    if symbol == 0
    then (none, record r { resolving = false })
    else (some symbol, record { symbol = symbol; resolving = false })
