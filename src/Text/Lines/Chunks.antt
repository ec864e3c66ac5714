-- ===== src/Text/Lines/Chunks.antt =====
-- `find_line` visits the lines of the file, however the reads cut it into chunks.
use linuwux_runtime.Base.{
  ℕ, ◌≤◌, ◌<◌, ◌≡◌, refl, ap, ◌⊎◌, inl, inr, Bool, Bool-cases, true, false, ◌||◌, List, [], ◌∷◌,
  ◌++◌, ◌==◌, ltb, length, if◌then◌else◌, arith, length-append,
}
use linuwux_runtime.Text.Maps.{line_capacity}
use linuwux_runtime.Text.Lines.{
  Reader, fresh, Fed, stopped, going, feed, read_chunks, last_line, find_line,
}

-- What the reads deliver: the chunks up to the first empty one.
unfoldable pub contents : List (List ℕ) → List ℕ
contents [] = []
contents ([] ∷ chunks) = []
contents ((b ∷ bs) ∷ chunks) = (b ∷ bs) ++ contents chunks

Fed-cases :
    {V : Type 0} (fed : Fed V)
    → ((v : V) × (fed ≡ stopped v)) ⊎ ((r : Reader) × (v : V) × (fed ≡ going r v))
Fed-cases (stopped v) = inl (v, refl)
Fed-cases (going r v) = inr (r, v, refl)

module _ {V : Type 0} (visit : List ℕ → V → Bool × V) where
  -- The visits of the lines of some bytes, behind a piece of a line: a line that is too long is left
  -- out, and so is an empty last one.
  unfoldable pub visit_lines : List ℕ → List ℕ → V → Bool × V
  visit_lines piece [] v =
      if (length piece == 0) || ltb line_capacity (length piece) then (false, v) else visit piece v
  visit_lines piece (b ∷ bs) v = elim (b == 0x0a) [
    | true ↦ elim (ltb line_capacity (length piece)) [
      | true ↦ visit_lines [] bs v
      | false ↦
          (let (found, v') = visit piece v in
            elim found [ true ↦ (true, v') | false ↦ visit_lines [] bs v' ])
    ]
    | false ↦ visit_lines (piece ++ b ∷ []) bs v
  ]

  -- A chunk and what follows it.
  then_feed : List ℕ → Fed V → Fed V
  then_feed ys (stopped v) = stopped v
  then_feed ys (going r v) = feed visit ys r v

  feed-append :
      (xs ys : List ℕ) (r : Reader) (v : V)
      → feed visit (xs ++ ys) r v ≡ then_feed ys (feed visit xs r v)
  unfolding feed then_feed
  feed-append [] ys r v = refl
  feed-append (x ∷ xs) ys r v = ground (
    arith,
    feed-append xs ys fresh v,
    feed-append xs ys fresh (visit r.line v).1,
    feed-append xs ys (record r { line = r.line ++ x ∷ [] }) v,
    feed-append xs ys (record r { overflow = true }) v,
  )

  feed_nothing : (r : Reader) (v : V) → going r v ≡ feed visit [] r v
  unfolding feed
  feed_nothing r v = refl

  read_chunks-feed :
      (chunks : List (List ℕ)) (r : Reader) (v : V)
      → read_chunks visit chunks r v ≡ feed visit (contents chunks) r v
  unfolding read_chunks contents then_feed
  read_chunks-feed [] r v = feed_nothing r v
  read_chunks-feed ([] ∷ chunks) r v = feed_nothing r v
  read_chunks-feed ((b ∷ bs) ∷ chunks) r v = elim (Fed-cases (feed visit (b ∷ bs) r v)) [
    | inl (v', e) ↦ ground (arith, e, feed-append (b ∷ bs) (contents chunks) r v)
    | inr (r', v', e) ↦
        ground (arith, e, feed-append (b ∷ bs) (contents chunks) r v, read_chunks-feed chunks r' v')
  ]

  -- The reader stands behind a piece of a line: with the piece, or overflowed by it.
  data Behind (r : Reader) (piece : List ℕ) : Type 0 where
    short : r.overflow ≡ false → r.line ≡ piece → length piece ≤ line_capacity → Behind r piece
    long :
        r.overflow ≡ true
        → line_capacity < length piece
        → length r.line ≡ line_capacity
        → Behind r piece

  feed-visit_lines :
      (bs piece : List ℕ) (r : Reader) (v : V)
      → Behind r piece
      → last_line visit (feed visit bs r v) ≡ visit_lines piece bs v
  unfolding last_line feed visit_lines
  feed-visit_lines [] piece r v (short o e le) = ground (arith, e)
  feed-visit_lines [] piece r v (long o lt full) = ground arith
  feed-visit_lines (b ∷ bs) piece r v (short o e le) =
      elim (Bool-cases (ltb (length r.line) line_capacity)) [
        | inl fits ↦ ground (
          arith,
          e,
          fits,
          feed-visit_lines bs [] fresh v (short refl refl (omega arith)),
          feed-visit_lines bs [] fresh (visit r.line v).1 (short refl refl (omega arith)),
          feed-visit_lines bs (piece ++ b ∷ []) (record r { line = r.line ++ b ∷ [] }) v
              (short o (ap (λ l. l ++ b ∷ []) e)
                (ground (arith, fits, e, length-append piece (b ∷ [])))),
        )
        | inr full ↦ ground (
          arith,
          e,
          full,
          feed-visit_lines bs [] fresh v (short refl refl (omega arith)),
          feed-visit_lines bs [] fresh (visit r.line v).1 (short refl refl (omega arith)),
          feed-visit_lines bs (piece ++ b ∷ []) (record r { overflow = true }) v
              (long refl (ground (arith, full, e, length-append piece (b ∷ [])))
                (ground (arith, full, e))),
        )
      ]
  feed-visit_lines (b ∷ bs) piece r v (long o lt full) = ground (
    arith,
    feed-visit_lines bs [] fresh v (short refl refl (omega arith)),
    feed-visit_lines bs (piece ++ b ∷ []) (record r { overflow = true }) v
        (long refl (omega (arith, length-append piece (b ∷ []))) full),
  )

  -- If the file opens, `find_line` visits the lines of what the reads deliver until one is found: each
  -- line that a newline ends, and a last one that is not empty, without the lines longer than the
  -- buffer; how the reads cut the file makes no difference. If it does not open, nothing is visited.
  pub find_line-visit_lines :
      (chunks : List (List ℕ)) (v : V)
      → (find_line visit true chunks v ≡ visit_lines [] (contents chunks) v)
        × (find_line visit false chunks v ≡ (false, v))
  unfolding find_line
  find_line-visit_lines chunks v = (
    rw (read_chunks-feed chunks fresh v)
        (feed-visit_lines (contents chunks) [] fresh v (short refl refl (omega arith))),
    refl,
  )
