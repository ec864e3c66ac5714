-- ===== src/Kuser/Buffer.antt =====
-- `kuser_apply_to_buffer` of runtime/src/kuser.rs. A page is a function from offsets to bytes; the
-- null pointer is a flag, and `none` is the answer -1.
pub mod Last
pub mod Image
pub mod Resume
use linuwux_runtime.Base.{
  ℕ, Option, none, some, Bool, List, [], ◌∷◌, ◌==◌, ltb, ◌||◌, if◌then◌else◌,
}
use linuwux_runtime.Kuser.Recipe.{from_raw}
use linuwux_runtime.Kuser.Writes.{Write, visit_writes}

abbrev pub page_size : ℕ
page_size = 4096

abbrev pub Page : Type 0
Page = ℕ → ℕ

-- `page.add(offset).write_volatile(byte)`
abbrev pub set_byte : Page → ℕ → ℕ → Page
set_byte page offset byte o = if offset == o then byte else page o

unfoldable pub write_all : List Write → Page → Page
write_all [] page = page
write_all (w ∷ ws) page = write_all ws (set_byte page w.at w.byte)

unfoldable pub kuser_apply_to_buffer : Bool → Page → ℕ → ℕ → Bool → Option Page
kuser_apply_to_buffer is_null page length recipe avx_enabled =
    if is_null || ltb length page_size then none else (elim (from_raw recipe) [
      | none ↦ none
      | some r ↦ some (write_all (visit_writes r avx_enabled) page)
    ])
