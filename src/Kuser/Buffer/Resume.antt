-- ===== src/Kuser/Buffer/Resume.antt =====
-- The fields that the resume recipe leaves, and the one that no recipe may touch.
use linuwux_runtime.Base.{
  ℕ, zero, suc, ◌+◌, ◌*◌, ◌≤◌, ◌<◌, ◌≡◌, refl, ◌⊎◌, none, some, Bool, true, false, List, [], ◌∷◌,
  arith, if◌then◌else◌,
}
use linuwux_runtime.Kuser.Recipe.{Recipe, to_raw}
use linuwux_runtime.Kuser.Writes.{system_root, resume_clears, visit_writes}
use linuwux_runtime.Kuser.Buffer.{page_size, Page, write_all, kuser_apply_to_buffer}
use linuwux_runtime.Kuser.Buffer.Last.{
  last_write, write_all-last_write, last_write-append, last_write-zero_range,
}
use linuwux_runtime.Kuser.Buffer.Image.{apply_buffer}

-- The little-endian number of `size` bytes at an offset.
abbrev pub read_le : Page → ℕ → ℕ → ℕ
read_le page offset zero = 0
read_le page offset (suc size) = page offset + 256 * read_le page (offset + 1) size

-- The characters of the wide text of `count` units at an offset, as far as they are ASCII.
abbrev pub read_wide : Page → ℕ → ℕ → List ℕ
read_wide page offset zero = []
read_wide page offset (suc count) = read_le page offset 2 ∷ read_wide page (offset + 2) count

-- The documented fields of a page: the root, the build and the version, the seven feature bytes,
-- and the marker.
pub record IsResumed (avx : Bool) (p : Page) : Type 0 where
  pub root : read_wide p 0x30 11 ≡ system_root
  pub build : read_le p 0x260 4 ≡ 0x6658
  pub version : read_le p 0x26c 4 ≡ 10
  pub cleared : (p 0x290 ≡ 0) × (p 0x294 ≡ 0) × (p 0x295 ≡ 0) × (p 0x297 ≡ 0)
  pub avx_features :
      (p 0x285 ≡ (if avx then 1 else 0))
      × (p 0x29b ≡ (if avx then 1 else 0))
      × (p 0x29c ≡ (if avx then 1 else 0))
  pub ready : read_le p 0xffc 4 ≡ 0x1337_1337

resume-IsResumed :
    (avx : Bool) (page : Page) → IsResumed avx (write_all (visit_writes Recipe.resume avx) page)
unfolding last_write visit_writes write_all
resume-IsResumed true page = record {
  root = refl;
  build = refl;
  version = refl;
  cleared = (refl, refl, refl, refl);
  avx_features = (refl, refl, refl);
  ready = refl;
}
resume-IsResumed false page = record {
  root = refl;
  build = refl;
  version = refl;
  cleared = (refl, refl, refl, refl);
  avx_features = (refl, refl, refl);
  ready = refl;
}

-- On a buffer of a page or more the resume recipe leaves the documented root, build, version,
-- feature bytes and ready marker, with three of the seven features off only without AVX.
resume_fields :
    (page : Page) (length : ℕ) (avx : Bool)
    → page_size ≤ length
    → (p : Page) × (kuser_apply_to_buffer false page length (to_raw Recipe.resume) avx ≡ some p)
      × IsResumed avx p
resume_fields page length avx h =
    (_, apply_buffer page length Recipe.resume avx h, resume-IsResumed avx page)

-- An offset of the two ranges of extended state.
abbrev pub InXstate : ℕ → Type 0
InXstate o = ((0x3f0 ≤ o) × (o < 0x5f0)) ⊎ ((0x604 ≤ o) × (o < 0x804))

xstate_last :
    (avx : Bool) (o : ℕ) → InXstate o → last_write (visit_writes Recipe.resume avx) o ≡ some 0
unfolding visit_writes resume_clears
xstate_last avx o h = simp (last_write-append, last_write-zero_range) (ground arith)

-- The resume recipe zeroes every byte of the two ranges of extended state.
resume_xstate :
    (page : Page) (length : ℕ) (avx : Bool) (o : ℕ)
    → page_size ≤ length
    → InXstate o
    → (p : Page) × (kuser_apply_to_buffer false page length (to_raw Recipe.resume) avx ≡ some p)
      × (p o ≡ 0)
resume_xstate page length avx o h inside = (
  _,
  apply_buffer page length Recipe.resume avx h,
  rw (write_all-last_write (visit_writes Recipe.resume avx) page o, xstate_last avx o inside),
)

system_call_last : (r : Recipe) (avx : Bool) → last_write (visit_writes r avx) 0x308 ≡ none
unfolding last_write visit_writes
system_call_last Recipe.resume true = refl
system_call_last Recipe.resume false = refl
system_call_last Recipe.selector avx = refl
system_call_last Recipe.dispatch avx = refl

-- No recipe changes `KUSER_SHARED_DATA.SystemCall`, the byte at 0x308 that a syscall stub tests.
system_call_kept :
    (page : Page) (length : ℕ) (r : Recipe) (avx : Bool)
    → page_size ≤ length
    → (p : Page) × (kuser_apply_to_buffer false page length (to_raw r) avx ≡ some p)
      × (p 0x308 ≡ page 0x308)
system_call_kept page length r avx h = (
  _,
  apply_buffer page length r avx h,
  rw (write_all-last_write (visit_writes r avx) page 0x308, system_call_last r avx),
)
