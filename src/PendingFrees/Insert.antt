-- ===== src/PendingFrees/Insert.antt =====
-- `insert` and the eviction before it keep the hash index in step with the ring.
use linuwux_runtime.Base.{
  ℕ, ◌<◌, ◌≡◌, ◌≢◌, Bool-cases, inl, inr, List, ◌∷◌, arith, ◌==◌, if◌then◌else◌,
}
use linuwux_runtime.PendingFrees.{no_entry, History, bucket, evict, insert}
use linuwux_runtime.PendingFrees.Chain.{
  count, next_of, prev_from, without, head_of_mem, prev_of-cons,
}
use linuwux_runtime.PendingFrees.Reads.{
  remove_address, remove_next_index, insert_address, insert_next, insert_prev, insert-bucket,
  insert_next_index,
}
use linuwux_runtime.PendingFrees.Invariant.{home, Inv, remove-Inv}

abbrev pub joined : History → ℕ → (ℕ → List ℕ) → ℕ → List ℕ
joined h a chains b = if bucket a == b then h.next_index ∷ chains b else chains b

module _ {h : History} {chains : ℕ → List ℕ} (inv : Inv h chains) (a : ℕ) (some_address : a ≢ 0)
    (vacant : (h.entries h.next_index).address ≡ 0)
    (unseen : (i : ℕ) → (h.entries i).address ≢ a) where
  open inv use {bounded, placed, heads, nexts, prevs, unique, cursor}

  index : ℕ
  index = h.next_index

  absent : (b : ℕ) → count index (chains b) ≡ 0
  unfolding index
  absent b = ground (arith, placed b index)

  pub free : h.buckets (bucket a) ≢ h.next_index
  unfolding index
  free =
      ground (arith, heads (bucket a), head_of_mem (chains (bucket a)), absent (bucket a), cursor)

  insert-placed : (b i : ℕ) → count i (joined h a chains b) ≡ home (insert h a) b i
  unfolding index count
  insert-placed b i = ground (arith, insert_address h a i cursor free, placed b i, absent b)

  insert-nexts :
      (b i : ℕ)
      → 0 < count i (joined h a chains b)
      → ((insert h a).entries i).next ≡ next_of (joined h a chains b) i
  unfolding index count next_of
  insert-nexts b i m =
      ground (arith, insert_next h a i cursor free, nexts b i, absent b, heads (bucket a), heads b)

  insert-prevs :
      (b i : ℕ)
      → 0 < count i (joined h a chains b)
      → ((insert h a).entries i).prev ≡ prev_from no_entry (joined h a chains b) i
  unfolding index count prev_from
  insert-prevs b i m = ground (
    arith,
    insert_prev h a i cursor free,
    prevs b i,
    absent b,
    heads (bucket a),
    head_of_mem (chains (bucket a)),
    placed (bucket a) i,
    placed b i,
    placed b no_entry,
    bounded no_entry,
    prev_of-cons index i (chains b),
  )

  pub insert-Inv : Inv (insert h a) (joined h a chains)
  unfolding index
  insert-Inv = record {
    bounded = λ i n. ground (arith, insert_address h a i cursor free, bounded i);
    placed = insert-placed;
    heads = λ b. ground (arith, insert-bucket h a b cursor free, heads b);
    nexts = insert-nexts;
    prevs = insert-prevs;
    unique = λ i j n e. ground (
      arith,
      insert_address h a i cursor free,
      insert_address h a j cursor free,
      unique i j,
      unseen i,
      unseen j,
    );
    cursor = rw (insert_next_index h a) (omega arith);
  }

-- The chains once the slot of the cursor is free.
abbrev pub evicted : History → (ℕ → List ℕ) → ℕ → List ℕ
evicted h chains =
    if (h.entries h.next_index).address == 0 then chains else (λ b. without h.next_index (chains b))

module _ {h : History} {chains : ℕ → List ℕ} (inv : Inv h chains) where
  pub evict-Inv : Inv (evict h) (evicted h chains)
  unfolding evict
  evict-Inv = elim (Bool-cases ((h.entries h.next_index).address == 0)) [
    | inl vacant ↦ rw vacant inv
    | inr live ↦ rw live (remove-Inv inv h.next_index (ground arith))
  ]

module _ (h : History) where
  pub evict_next_index : (evict h).next_index ≡ h.next_index
  unfolding evict
  evict_next_index = ground (arith, remove_next_index h h.next_index)

  -- The slot of the cursor is free, and the others are as they were.
  pub evict_address :
      (i : ℕ)
      → ((evict h).entries i).address ≡ (if h.next_index == i then 0 else (h.entries i).address)
  unfolding evict
  evict_address i = ground (arith, remove_address h h.next_index i)
