-- ===== src/PendingFrees/Invariant.antt =====
-- The hash index is in step with the ring: every live entry stands once in the chain of its bucket,
-- with the links of its neighbours, and no other entry stands in a chain.
use linuwux_runtime.Base.{ℕ, ◌<◌, ◌≡◌, ◌≢◌, refl, List, [], arith, ◌==◌, if◌then◌else◌}
use linuwux_runtime.PendingFrees.{capacity, no_entry, History, new, bucket, remove}
use linuwux_runtime.PendingFrees.Chain.{
  head_of, to_nat, count, next_of, prev_from, without, IsNodup, count-without, head_of-without,
  without_absent, next_of_mem, prev_of_mem, prev_of_head, next_of-without, prev_of-without,
}
use linuwux_runtime.PendingFrees.Reads.{
  remove_address, remove_next, remove_prev, remove-bucket, remove_next_index,
}

-- How often an index stands in the chain of a bucket.
abbrev pub home : History → ℕ → ℕ → ℕ
home h b i = if (h.entries i).address == 0 then 0 else to_nat (bucket (h.entries i).address == b)

pub record Inv (h : History) (chains : ℕ → List ℕ) : Type 0 where
  pub bounded : (i : ℕ) → (h.entries i).address ≢ 0 → i < capacity
  pub placed : (b i : ℕ) → count i (chains b) ≡ home h b i
  pub heads : (b : ℕ) → h.buckets b ≡ head_of (chains b)
  pub nexts : (b i : ℕ) → 0 < count i (chains b) → (h.entries i).next ≡ next_of (chains b) i
  pub prevs :
      (b i : ℕ) → 0 < count i (chains b) → (h.entries i).prev ≡ prev_from no_entry (chains b) i
  pub unique :
      (i j : ℕ) → (h.entries i).address ≢ 0 → (h.entries i).address ≡ (h.entries j).address → i ≡ j
  pub cursor : h.next_index < capacity

pub Inv-new : Inv new (λ _. [])
unfolding count
Inv-new = record {
  bounded = λ i n. absurd (n refl);
  placed = λ b i. refl;
  heads = λ b. refl;
  nexts = λ b i lt. absurd (omega arith);
  prevs = λ b i lt. absurd (omega arith);
  unique = λ i j n e. absurd (n refl);
  cursor = omega arith;
}

module _ {h : History} {chains : ℕ → List ℕ} (inv : Inv h chains) where
  open inv use {bounded, placed, heads, nexts, prevs, unique, cursor}

  pub chain-IsNodup : (b : ℕ) → IsNodup (chains b)
  chain-IsNodup b i = ground (arith, placed b i)

  pub no_entry_absent : (b : ℕ) → count no_entry (chains b) ≡ 0
  no_entry_absent b = ground (arith, placed b no_entry, bounded no_entry)

  module _ (x : ℕ) (live : (h.entries x).address ≢ 0) where
    own : ℕ
    own = bucket (h.entries x).address

    x-lt : x < capacity
    x-lt = bounded x live

    remove-placed : (b i : ℕ) → count i (without x (chains b)) ≡ home (remove h x) b i
    remove-placed b i =
        ground (arith, count-without x i (chains b), placed b i, remove_address h x i)

    remove-heads : (b : ℕ) → (remove h x).buckets b ≡ head_of (without x (chains b))
    unfolding own
    remove-heads b = ground (
      arith,
      remove-bucket h x b,
      heads b,
      placed b x,
      placed own x,
      prevs own x,
      nexts own x,
      prev_of_head x (chains own) (no_entry_absent own),
      head_of-without x (chains b),
      without_absent x (chains b),
      x-lt,
    )

    -- A neighbour of `x` is in the chain of `x` alone.
    remove-nexts :
        (b i : ℕ)
        → 0 < count i (without x (chains b))
        → ((remove h x).entries i).next ≡ next_of (without x (chains b)) i
    unfolding own
    remove-nexts b i m = ground (
      arith,
      remove_next h x i,
      count-without x i (chains b),
      no_entry_absent b,
      placed b i,
      placed own i,
      placed own x,
      placed b x,
      nexts b i,
      nexts own x,
      prevs own x,
      prev_of_mem (chains own) x,
      next_of-without x i no_entry (chains b) (chain-IsNodup b),
      without_absent x (chains b),
      x-lt,
    )

    remove-prevs :
        (b i : ℕ)
        → 0 < count i (without x (chains b))
        → ((remove h x).entries i).prev ≡ prev_from no_entry (without x (chains b)) i
    unfolding own
    remove-prevs b i m = ground (
      arith,
      remove_prev h x i,
      count-without x i (chains b),
      no_entry_absent b,
      placed b i,
      placed own i,
      placed own x,
      placed b x,
      prevs b i,
      nexts own x,
      prevs own x,
      next_of_mem (chains own) x,
      prev_of-without x i no_entry (chains b) (chain-IsNodup b),
      without_absent x (chains b),
      x-lt,
    )

    pub remove-Inv : Inv (remove h x) (λ b. without x (chains b))
    remove-Inv = record {
      bounded = λ i n. ground (arith, remove_address h x i, bounded i);
      placed = remove-placed;
      heads = remove-heads;
      nexts = remove-nexts;
      prevs = remove-prevs;
      unique = λ i j n e. ground (arith, remove_address h x i, remove_address h x j, unique i j);
      cursor = rw (remove_next_index h x) cursor;
    }
