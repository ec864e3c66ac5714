-- ===== src/Kuser/Buffer/Image.antt =====
-- The pages that the recipes leave.
use linuwux_runtime.Base.{
  ℕ, ◌+◌, ◌-◌, ◌≤◌, ◌<◌, ◌≡◌, refl, ◌⊎◌, ◌↔◌, Option, none, some, Bool, true, false, not, List, [],
  ◌∷◌, arith, ltb, ◌&&◌, if◌then◌else◌, length, get_elem?, dec_lt,
}
use linuwux_runtime.Kuser.Recipe.{Recipe, to_raw, from_raw, from_raw-to_raw}
use linuwux_runtime.Kuser.Writes.{Write, visit_writes}
use linuwux_runtime.Kuser.Buffer.{page_size, Page, write_all, kuser_apply_to_buffer}
use linuwux_runtime.Kuser.Buffer.Last.{
  last_write, or_byte, write_all-last_write, write_all-write_all, fits, last_write-fits, agree,
  agree_lem,
}

writes-fit : (r : Recipe) (avx : Bool) → fits page_size (visit_writes r avx) ≡ true
unfolding fits visit_writes
writes-fit Recipe.resume true = refl
writes-fit Recipe.resume false = refl
writes-fit Recipe.selector avx = refl
writes-fit Recipe.dispatch avx = refl

-- A run of bytes from an offset.
pub record Run : Type 0 where
  pub start : ℕ
  pub bytes : List ℕ

abbrev pub run : ℕ → List ℕ → Run
run start bytes = record { start = start; bytes = bytes }

-- The byte of the run that covers an offset.
unfoldable pub read_runs : List Run → ℕ → Option ℕ
read_runs [] o = none
read_runs (r ∷ runs) o =
    if not (ltb o r.start) && ltb o (r.start + length r.bytes)
    then get_elem? r.bytes (o - r.start)
    else read_runs runs o

-- The page of the dispatch recipe with its overlapping writes resolved.
abbrev pub dispatch_runs : List Run
dispatch_runs =
    run 0x000 (0 ∷ 0 ∷ 0 ∷ 0 ∷ 0 ∷ 0 ∷ 0xa0 ∷ 0x0f ∷ [])
    ∷ run 0x260 (0x58 ∷ 0x66 ∷ 0 ∷ 0 ∷ 1 ∷ 0 ∷ 0 ∷ 0 ∷ 1 ∷ 0 ∷ 9 ∷ 0 ∷ 0x0a ∷ 0 ∷ 0 ∷ 0 ∷ [])
    ∷ run 0x270 (0 ∷ 0 ∷ 0 ∷ 0 ∷ 0 ∷ 0 ∷ 1 ∷ 1 ∷ 0 ∷ 0 ∷ 1 ∷ [])
    ∷ run 0x281 (1 ∷ 1 ∷ 0 ∷ 0 ∷ 1 ∷ 0 ∷ 0 ∷ 1 ∷ 1 ∷ 1 ∷ 1 ∷ 0 ∷ 0 ∷ 0 ∷ 0 ∷ [])
    ∷ run 0x2d0 (0x10 ∷ 1 ∷ 0 ∷ 0 ∷ 0 ∷ 0x0a ∷ 0x32 ∷ 0 ∷ [])
    ∷ run 0x2e8 (0x0b ∷ 0xb1 ∷ 0x7f ∷ 0 ∷ 0 ∷ 1 ∷ 0 ∷ 0 ∷ [])
    ∷ run 0x2f4 (0 ∷ 0 ∷ 0 ∷ 0 ∷ [])
    ∷ run 0x378 (0 ∷ 0 ∷ 0 ∷ 0 ∷ 1 ∷ 0 ∷ 0 ∷ 0 ∷ [])
    ∷ run 0x3c0 (0x10 ∷ 0 ∷ 0 ∷ 0 ∷ 1 ∷ 0 ∷ 0x83 ∷ 0 ∷ [])
    ∷ []

abbrev pub selector_runs : List Run
selector_runs =
    run 0x260 (0x58 ∷ 0x66 ∷ 0 ∷ 0 ∷ 1 ∷ 0 ∷ 0 ∷ 0 ∷ 1 ∷ 0 ∷ 9 ∷ 0 ∷ 0x0a ∷ 0 ∷ 0 ∷ 0 ∷ [])
    ∷ run 0x270 (0 ∷ 0 ∷ 0 ∷ 0 ∷ [])
    ∷ run 0x288 (1 ∷ 1 ∷ 1 ∷ 1 ∷ [])
    ∷ run 0x2d0 (0x10 ∷ 3 ∷ 0 ∷ 0 ∷ [])
    ∷ run 0x2d6 (0x34 ∷ 0 ∷ 1 ∷ 0 ∷ [])
    ∷ run 0x2e8 (0x8f ∷ 0x9c ∷ 0xbf ∷ 0 ∷ [])
    ∷ run 0x2f4 (0 ∷ 0 ∷ 0 ∷ 0 ∷ [])
    ∷ run 0x3c0 (0x10 ∷ 0 ∷ 0 ∷ 0 ∷ [])
    ∷ []

agree_above :
    (ws : List Write) (f : ℕ → Option ℕ)
    → agree 0x400 ws f ≡ true
    → fits 0x400 ws ≡ true
    → ((o : ℕ) → 0x400 ≤ o → f o ≡ none)
    → (page : Page) (o : ℕ) → write_all ws page o ≡ or_byte (f o) (page o)
agree_above ws f same low above page o = elim (dec_lt o 0x400) [
  | yes lt ↦ rw (write_all-last_write ws page o, agree_lem 0x400 ws f o same lt)
  | no ge ↦ rw (
    write_all-last_write ws page o,
    last_write-fits 0x400 ws o low (omega arith),
    above o (omega arith),
  )
]

dispatch_page :
    (avx : Bool) (page : Page) (o : ℕ)
    → write_all (visit_writes Recipe.dispatch avx) page o
      ≡ or_byte (read_runs dispatch_runs o) (page o)
unfolding agree last_write visit_writes read_runs fits
dispatch_page avx =
    agree_above (visit_writes Recipe.dispatch avx) (read_runs dispatch_runs) refl refl
      (λ o le. ground arith)

selector_page :
    (avx : Bool) (page : Page) (o : ℕ)
    → write_all (visit_writes Recipe.selector avx) page o
      ≡ or_byte (read_runs selector_runs o) (page o)
unfolding agree last_write visit_writes read_runs fits
selector_page avx =
    agree_above (visit_writes Recipe.selector avx) (read_runs selector_runs) refl refl
      (λ o le. ground arith)

pub apply_buffer :
    (page : Page) (length : ℕ) (r : Recipe) (avx : Bool)
    → page_size ≤ length
    → kuser_apply_to_buffer false page length (to_raw r) avx
      ≡ some (write_all (visit_writes r avx) page)
unfolding kuser_apply_to_buffer
apply_buffer page length r avx h = ground (arith, from_raw-to_raw r)

-- On a buffer of a page or more, the dispatch and the selector recipe each leave their runs of
-- bytes, whatever order the overlapping writes stand in, and every other byte as it was.
dispatch_selector_pages :
    (page : Page) (length : ℕ) (avx : Bool)
    → page_size ≤ length
    → ((p : Page) × (kuser_apply_to_buffer false page length (to_raw Recipe.dispatch) avx ≡ some p)
        × ((o : ℕ) → p o ≡ or_byte (read_runs dispatch_runs o) (page o)))
      × ((p : Page) × (kuser_apply_to_buffer false page length (to_raw Recipe.selector) avx
            ≡ some p)
          × ((o : ℕ) → p o ≡ or_byte (read_runs selector_runs o) (page o)))
dispatch_selector_pages page length avx h = (
  (_, apply_buffer page length Recipe.dispatch avx h, dispatch_page avx page),
  (_, apply_buffer page length Recipe.selector avx h, selector_page avx page),
)

-- The answer is an error exactly for a null buffer, one shorter than a page, or a number that is no
-- recipe.
kuser_apply_to_buffer-none :
    (is_null : Bool) (page : Page) (length raw : ℕ) (avx : Bool)
    → (kuser_apply_to_buffer is_null page length raw avx ≡ none)
      ↔ ((is_null ≡ true) ⊎ (length < page_size) ⊎ (from_raw raw ≡ none))
unfolding kuser_apply_to_buffer
kuser_apply_to_buffer-none is_null page length raw avx = ground arith

-- On a buffer of a page or more a recipe touches no byte from the end of the page on, and a second
-- application of it changes nothing.
kuser_apply_to_buffer_twice :
    (page : Page) (length : ℕ) (r : Recipe) (avx : Bool)
    → page_size ≤ length
    → (p q : Page) × (kuser_apply_to_buffer false page length (to_raw r) avx ≡ some p)
      × (kuser_apply_to_buffer false p length (to_raw r) avx ≡ some q)
      × ((o : ℕ) → (p (page_size + o) ≡ page (page_size + o)) × (q o ≡ p o))
kuser_apply_to_buffer_twice page length r avx h =
    let ws = visit_writes r avx in
    (
      write_all ws page,
      write_all ws (write_all ws page),
      apply_buffer page length r avx h,
      apply_buffer (write_all ws page) length r avx h,
      λ o. (
        rw (
          write_all-last_write ws page (page_size + o),
          last_write-fits page_size ws (page_size + o) (writes-fit r avx) (omega arith),
        ),
        write_all-write_all ws page o,
      ),
    )
