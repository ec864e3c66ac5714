-- ===== src/Text/Lines.antt =====
-- runtime/src/maps.rs: `find_line`, which puts lines together from the chunks that are read. The reads
-- are a list of chunks, which ends at an empty one; `visit` may change a state of its own. The length
-- of the line so far is that of a list, in place of a fixed buffer with its length.
pub mod Chunks
use linuwux_runtime.Base.{
  ℕ, Bool, true, false, not, ◌&&◌, ◌||◌, List, [], ◌∷◌, ◌++◌, ◌==◌, ltb, length, if◌then◌else◌,
}
use linuwux_runtime.Text.Maps.{line_capacity}

pub record Reader : Type 0 where
  pub line : List ℕ
  pub overflow : Bool

abbrev pub fresh : Reader
fresh = record { line = []; overflow = false }

pub data Fed (V : Type 0) : Type 0 where
  stopped : V → Fed V
  going : Reader → V → Fed V

module _ {V : Type 0} (visit : List ℕ → V → Bool × V) where
  -- The bytes of one chunk.
  unfoldable pub feed : List ℕ → Reader → V → Fed V
  feed [] r v = going r v
  feed (b ∷ bs) r v = elim (b == 0x0a) [
    | true ↦ elim r.overflow [
      | true ↦ feed bs fresh v
      | false ↦
          (let (found, v') = visit r.line v in
            elim found [ true ↦ stopped v' | false ↦ feed bs fresh v' ])
    ]
    | false ↦ elim (ltb (length r.line) line_capacity) [
      | true ↦ feed bs (record r { line = r.line ++ b ∷ [] }) v
      | false ↦ feed bs (record r { overflow = true }) v
    ]
  ]

  unfoldable pub read_chunks : List (List ℕ) → Reader → V → Fed V
  read_chunks [] r v = going r v
  read_chunks ([] ∷ chunks) r v = going r v
  read_chunks ((b ∷ bs) ∷ chunks) r v = elim (feed (b ∷ bs) r v) [
    | stopped v' ↦ stopped v'
    | going r' v' ↦ read_chunks chunks r' v'
  ]

  -- The last line, which no newline ends.
  unfoldable pub last_line : Fed V → Bool × V
  last_line (stopped v) = (true, v)
  last_line (going r v) = if (length r.line == 0) || r.overflow then (false, v) else visit r.line v

  unfoldable pub find_line : Bool → List (List ℕ) → V → Bool × V
  find_line opened chunks v = if opened then last_line (read_chunks chunks fresh v) else (false, v)
