-- ===== src/Syscall/Dispatch/ReflexImage.antt =====
-- The image that holds Reflex's handler: the ranges `REFLEX_IMAGE_START` and `REFLEX_IMAGE_END` of
-- runtime/src/syscall/kuser_dispatch.rs.
use linuwux_runtime.Base.{
  ℕ, zero, suc, ◌+◌, ◌-◌, ◌%◌, Bool, not, ◌&&◌, ◌||◌, ◌>>=◌, Option, none, some, [], ◌∷◌, ◌==◌, ltb,
  leb, if◌then◌else◌, take, drop, bytes_eq,
}
use linuwux_runtime.Memory.{Memory, read_memory, from_le_bytes, checked_add}
use linuwux_runtime.PeExport.{require}

pub record ReflexImage : Type 0 where
  pub start : ℕ
  pub end : ℕ

abbrev pub no_image : ReflexImage
no_image = record { start = 0; end = 0 }

-- The end of the image at a base, if its header is there and it holds the handler.
unfoldable pub image_end : Memory → ℕ → ℕ → Option ℕ
image_end m base handler = do
  dos ← read_memory m base 0x40
  _ ← require (bytes_eq (take 2 dos) (0x4d ∷ 0x5a ∷ []))
  let pe_offset = from_le_bytes (take 4 (drop 0x3c dos))
  _ ← require (leb pe_offset 0x1000)
  headers ← read_memory m (base + pe_offset) 0x60
  _ ← require (bytes_eq (take 4 headers) (0x50 ∷ 0x45 ∷ 0 ∷ 0 ∷ []))
  let image_size = from_le_bytes (take 4 (drop 80 headers))
  end ← checked_add base image_size
  _ ← require (not (image_size == 0) && leb base handler && ltb handler end)
  some end

-- The pages at and below the first, `n` of them from an offset on.
unfoldable pub search_image : ℕ → Memory → ℕ → ℕ → ℕ → Option ReflexImage
search_image zero m first_page offset handler = none
search_image (suc n) m first_page offset handler =
    let rest = search_image n m first_page (offset + 0x1000) handler in
    if ltb first_page offset then none else (elim (image_end m (first_page - offset) handler) [
      | some end ↦ some (record { start = first_page - offset; end = end })
      | none ↦ rest
    ])

-- `0x10_0000 / 0x1000 + 1` pages.
unfoldable pub register_reflex_image : Memory → ReflexImage → ℕ → ReflexImage
register_reflex_image m image handler =
    if (handler == 0) || not (image.start == 0)
    then image
    else (elim (search_image 0x101 m (handler - handler % 0x1000) 0 handler) [
      | none ↦ image
      | some found ↦ found
    ])

unfoldable pub is_reflex_address : ReflexImage → ℕ → Bool
is_reflex_address image address =
    not (image.start == 0) && leb image.start address && ltb address image.end
