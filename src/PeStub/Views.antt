-- ===== src/PeStub/Views.antt =====
-- runtime/src/syscall/pe_stub_layout.rs: the interposed `read`, `pread` and `mmap`, and what they do to
-- the bytes of a PE file. The
-- saved errno and the debug log are left out; the calls of the C library are the fields of `MapCalls`.
pub mod Rewritten
use linuwux_runtime.Base.{
  ℕ, ◌-◌, Bool, true, Option, none, some, List, [], ◌∷◌, ◌++◌, length, take, bytes_eq, ◌>>=◌, drop,
  ◌==◌, ◌&&◌, ◌||◌, not, leb, ltb, min, if◌then◌else◌,
}
use linuwux_runtime.PeStub.Thunks.{
  thunk_len, min_file_read, rewrite_complete_pe_read, rewrite_syscall_thunk_tails,
  count_pending_thunk_tails, looks_like_pe_file, pe_size_of_image,
}
use linuwux_runtime.PeStub.Copies.{ImageCopies, note_header, in_copy}

abbrev pub min_file_view : ℕ
min_file_view = 0x4000

-- `PROT_READ`, `PROT_WRITE` and `PROT_EXEC`
pub record Protection : Type 0 where
  pub readable : Bool
  pub writable : Bool
  pub executable : Bool

abbrev pub with_write : Protection → Protection
with_write p = record p { writable = true }

-- The arguments of a call: its length, protection and offset, whether it names a file, and its flags.
pub record MapRequest : Type 0 where
  pub len : ℕ
  pub prot : Protection
  pub offset : ℕ
  pub has_file : Bool
  pub is_anonymous : Bool
  pub is_fixed : Bool
  pub is_private : Bool

-- What the calls on the way answer: `game_process`; `fstat`, with the type, size, device and inode of the
-- file; `mprotect` that adds the write permission; the private mapping in place of the view, and its bytes;
-- the last `mprotect`, whose result is not read.
pub record MapCalls : Type 0 where
  pub game_process : Bool
  pub stat : Bool
  pub is_regular : Bool
  pub size : ℕ
  pub device : ℕ
  pub inode : ℕ
  pub unprotects : Bool
  pub replaces : Bool
  pub mapped : List ℕ
  pub restores : Bool

-- The memory of the view and its protection, with the record of image copies.
pub record View : Type 0 where
  pub address : ℕ
  pub bytes : List ℕ
  pub protection : Protection
  pub copies : ImageCopies

-- The regular files that are large enough.
abbrev pub is_candidate : MapCalls → Bool
is_candidate c = c.game_process && c.stat && c.is_regular && leb min_file_view c.size

-- The rewriting of the first bytes of a view that is writable, and the protection after it.
unfoldable pub rewrite_view : ℕ → Protection → Bool → View → View
rewrite_view scan_length prot restored v =
    let after = rewrite_syscall_thunk_tails (take scan_length v.bytes) in
    record v {
      bytes = after.buffer ++ drop scan_length v.bytes;
      protection = if restored then prot else with_write prot;
    }

-- The header mapping of an image.
unfoldable pub note_image : MapCalls → ℕ → View → View
note_image c len v =
    let header = take (min len 0x1000) v.bytes in
    if ltb min_file_view len || not (looks_like_pe_file header)
    then v
    else elim (pe_size_of_image header) [
      | none ↦ v
      | some image_size ↦
          let (copy, noted) = note_header v.copies c.device c.inode v.address image_size in
          record v { copies = noted }
    ]

-- The mapping of a section of an image.
unfoldable pub rewrite_section : MapCalls → MapRequest → View → View
rewrite_section c r v =
    let scan_length = min r.len (c.size - r.offset) in
    if not (in_copy v.copies c.device c.inode v.address r.len)
    then v
    else if ltb scan_length thunk_len
    then v
    else if r.prot.writable
    then rewrite_view scan_length r.prot true v
    else if not c.unprotects
    then v
    else rewrite_view scan_length r.prot c.restores v

unfoldable pub after_image_map : MapCalls → MapRequest → View → View
after_image_map c r v =
    if not (is_candidate c)
    then v
    else if r.offset == 0
    then note_image c r.len v
    else rewrite_section c r v

-- The view with its answer, the number of thunks changed.
unfoldable pub rewrite_pe_view : MapCalls → MapRequest → ℕ → View → ℕ × View
rewrite_pe_view c r scan_length v =
    let scanned = take scan_length v.bytes in
    if not (looks_like_pe_file scanned) || (count_pending_thunk_tails scanned == 0)
    then (0, v)
    else if not c.replaces
    then (0, v)
    else (
      (rewrite_syscall_thunk_tails (take scan_length c.mapped)).rewritten,
      rewrite_view scan_length r.prot c.restores (record v { bytes = c.mapped }),
    )

unfoldable pub after_file_map : MapCalls → MapRequest → View → View
after_file_map c r v =
    if not (is_candidate c)
    then v
    else (let (changed, after) = rewrite_pe_view c r (min r.len c.size) v in after)

-- The interposed call on the view that the real one made; `none` for `MAP_FAILED`.
unfoldable pub mmap : MapCalls → MapRequest → Option View → Option View
mmap c r none = none
mmap c r (some v) =
    let image = if r.is_fixed && r.is_private then after_image_map c r v else v in
    some (
      if not (r.has_file && not r.is_anonymous && r.prot.readable)
      then v
      else if (r.offset == 0) && leb min_file_view r.len && not r.prot.executable
      then after_file_map c r image
      else image)

-- The bytes that a read delivered.
unfoldable pub after_file_read : MapCalls → List ℕ → List ℕ
after_file_read c bytes =
    if ltb (length bytes) min_file_read || not (bytes_eq (take 2 bytes) (0x4d ∷ 0x5a ∷ []))
    then bytes
    else if not (c.game_process && c.stat && c.is_regular)
    then bytes
    else (rewrite_complete_pe_read bytes).buffer

-- The interposed calls on what the real ones delivered; `none` for an error.
unfoldable pub read : MapCalls → Option (List ℕ) → Option (List ℕ)
read c result = result >>= λ bytes. some (after_file_read c bytes)

unfoldable pub pread : MapCalls → ℕ → Option (List ℕ) → Option (List ℕ)
pread c offset result =
    result >>= λ bytes. some (if offset == 0 then after_file_read c bytes else bytes)
