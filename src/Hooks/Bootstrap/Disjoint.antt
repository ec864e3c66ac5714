-- ===== src/Hooks/Bootstrap/Disjoint.antt =====
-- What the pool gives out lies in the pool, and no two blocks of it overlap.
use linuwux_runtime.Base.{
  ℕ, ◌+◌, ◌%◌, ◌≤◌, ◌<◌, ◌≡◌, refl, ◌==◌, if◌then◌else◌, true, Option, none, some, List, [], ◌∷◌,
  ltb, u64_mod, arith, Bool-cases, inl, inr,
}
use linuwux_runtime.Hooks.Bootstrap.{
  bootstrap_pool_size, aligned, bootstrap_alloc, is_bootstrap_ptr,
}

-- The block of a call, if it got one, before the others.
abbrev pub with_block : Option ℕ → ℕ → List (ℕ × ℕ) → List (ℕ × ℕ)
with_block none size rest = rest
with_block (some address) size rest = (address, size) ∷ rest

-- The calls of `malloc` for these sizes in turn: the blocks that were given out, each with its size.
unfoldable pub blocks : ℕ → ℕ → List ℕ → List (ℕ × ℕ)
blocks start offset [] = []
blocks start offset (size ∷ sizes) =
    let (block, end) = bootstrap_alloc start offset size in
    with_block block size (blocks start end sizes)

-- The bytes that the sizes can take in all.
abbrev pub demand : List ℕ → ℕ
demand [] = 0
demand (size ∷ sizes) = size + 16 + demand sizes

-- The bytes that a block has to hold: no block is empty.
abbrev pub needed : ℕ → ℕ
needed size = if size == 0 then 1 else size

-- Blocks in ascending order that do not overlap, from `low` on, at multiples of 16 and in the pool.
abbrev pub Packed : ℕ → ℕ → List (ℕ × ℕ) → Type 0
Packed start low [] = Unit {0}
Packed start low ((address, size) ∷ rest) =
    (low ≤ address)
    × (address % 16 ≡ 0)
    × (start ≤ address)
    × (address + needed size ≤ start + bootstrap_pool_size)
    × (is_bootstrap_ptr start address ≡ true)
    × Packed start (address + needed size) rest

aligned_bounds :
    (size : ℕ)
    → size + 16 < u64_mod
    → (needed size ≤ aligned size) × (aligned size ≤ size + 16) × (aligned size % 16 ≡ 0)
unfolding aligned
aligned_bounds size lt = ground arith

blocks-Packed :
    (start offset low : ℕ) (sizes : List ℕ)
    → start % 16 ≡ 0
    → offset % 16 ≡ 0
    → offset + demand sizes < u64_mod
    → low ≤ start + offset
    → Packed start low (blocks start offset sizes)
unfolding blocks bootstrap_alloc is_bootstrap_ptr
blocks-Packed start offset low [] base at lt le = tt
blocks-Packed start offset low (size ∷ sizes) base at lt le =
    let (fits, tight, whole) = aligned_bounds size (omega arith) in
    let end = (offset + aligned size) % u64_mod in
    let needs : 0 < needed size = ground arith in
    elim (Bool-cases (ltb bootstrap_pool_size end)) [
      | inl full ↦
          rw (blocks, bootstrap_alloc, full, with_block)
            (blocks-Packed start end low sizes base (omega arith) (omega arith) (omega arith))
      | inr room ↦
          let below : end ≤ bootstrap_pool_size = ground arith in
          rw (blocks, bootstrap_alloc, room, with_block)
            (
              omega arith,
              omega arith,
              omega arith,
              omega arith,
              ground arith,
              blocks-Packed start end (start + offset + needed size) sizes base (omega arith)
                  (omega arith) (omega arith),
            )
    ]

-- If the pool starts at a multiple of 16 and the sizes of all calls, each with 16 bytes more, stay below
-- 2⁶⁴, then every block that the pool gives out holds the size that was asked for and at least one byte,
-- starts at a multiple of 16 in the pool, where `free` will know it, ends in the pool, and starts behind
-- the end of the blocks given out before it.
pub bootstrap_alloc-Packed :
    (start : ℕ) (sizes : List ℕ)
    → start % 16 ≡ 0
    → demand sizes < u64_mod
    → Packed start start (blocks start 0 sizes)
bootstrap_alloc-Packed start sizes base lt =
    blocks-Packed start 0 start sizes base refl (omega arith) (omega arith)
