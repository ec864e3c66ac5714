-- ===== src/PeStub/Copies.antt =====
-- runtime/src/syscall/pe_stub_layout.rs: which mapped files have a second private image. The four
-- arrays of atomics are functions, and a call runs to its end before the next.
use linuwux_runtime.Base.{
  u64_max, ℕ, zero, suc, ◌+◌, ◌≡◌, refl, Bool, true, false, Option, none, some, ◌==◌, ◌&&◌, not,
  leb, min, if◌then◌else◌, arith,
}

abbrev pub image_track_slots : ℕ
image_track_slots = 64

pub record ImageCopies : Type 0 where
  pub device : ℕ → ℕ
  pub inode : ℕ → ℕ
  pub copy_start : ℕ → ℕ
  pub copy_end : ℕ → ℕ

abbrev pub image_copies : ImageCopies
image_copies = record { device = λ _. 0; inode = λ _. 0; copy_start = λ _. 0; copy_end = λ _. 0 }

-- The store of a value in one slot of an array.
abbrev pub store : (ℕ → ℕ) → ℕ → ℕ → ℕ → ℕ
store array index value i = if index == i then value else array i

abbrev pub saturating_add : ℕ → ℕ → ℕ
saturating_add a b = min (a + b) u64_max

-- The first of `n` slots from `i` on with an inode and a device.
unfoldable pub slot_from : ℕ → ℕ → ImageCopies → ℕ → ℕ → Option ℕ
slot_from zero i c d ino = none
slot_from (suc n) i c d ino =
    if (c.inode i == ino) && (c.device i == d) then some i else slot_from n (i + 1) c d ino

unfoldable pub slot : ImageCopies → ℕ → ℕ → Option ℕ
slot c d ino = slot_from image_track_slots 0 c d ino

-- The first of `n` slots from `i` on whose inode is exchanged from zero.
unfoldable pub claim_from : ℕ → ℕ → ImageCopies → ℕ → ℕ → ImageCopies
claim_from zero i c d ino = c
claim_from (suc n) i c d ino =
    let rest = claim_from n (i + 1) c d ino in
    if c.inode i == 0
    then record {
      device = store c.device i d;
      inode = store c.inode i ino;
      copy_start = store c.copy_start i 0;
      copy_end = store c.copy_end i 0;
    }
    else rest

-- Whether the file had an image before, with the record after the call.
unfoldable pub note_header : ImageCopies → ℕ → ℕ → ℕ → ℕ → Bool × ImageCopies
note_header c d ino base image_size = elim (slot c d ino) [
  | some index ↦ (
    true,
    record c {
      copy_start = store c.copy_start index base;
      copy_end = store c.copy_end index (saturating_add base image_size);
    },
  )
  | none ↦ (false, claim_from image_track_slots 0 c d ino)
]

unfoldable pub in_copy : ImageCopies → ℕ → ℕ → ℕ → ℕ → Bool
in_copy c d ino address len = elim (slot c d ino) [
  | none ↦ false
  | some index ↦
      not (c.copy_start index == 0)
      && leb (c.copy_start index) address
      && leb (saturating_add address len) (c.copy_end index)
]

store_same : (array : ℕ → ℕ) (i value : ℕ) → store array i value i ≡ value
store_same array i value = ground arith

slot_from_same :
    (n i : ℕ) (c : ImageCopies) (d ino : ℕ) (starts ends : ℕ → ℕ)
    → slot_from n i (record c { copy_start = starts; copy_end = ends }) d ino
      ≡ slot_from n i c d ino
unfolding slot_from
slot_from_same zero i c d ino starts ends = refl
slot_from_same (suc n) i c d ino starts ends =
    rw (slot_from_same n (i + 1) c d ino starts ends) refl

-- A later header of a file that has a slot is a copy, and then exactly the ranges within it are in the
-- copy of that file, if it is not based at zero.
note_header_copy :
    (c : ImageCopies) (d ino base image_size address len index : ℕ)
    → slot c d ino ≡ some index
    → let (copy, after) = note_header c d ino base image_size in
      (copy ≡ true)
      × (in_copy after d ino address len ≡ (
          not (base == 0)
          && leb base address
          && leb (saturating_add address len) (saturating_add base image_size)))
unfolding note_header in_copy slot
note_header_copy c d ino base image_size address len index e =
    rw (note_header, e)
      (refl, rw (in_copy, slot_from_same, e, store_same c.copy_start, store_same c.copy_end) refl)
