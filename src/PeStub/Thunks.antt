-- ===== src/PeStub/Thunks.antt =====
-- runtime/src/syscall/pe_stub_layout.rs: the search for syscall thunks in a buffer. The loops run on
-- fuel, the length of the buffer: each round leaves less of it, and without fuel nothing is left.
pub mod Rewriting
pub mod Twice
use linuwux_runtime.Base.{
  ℕ, zero, suc, ◌+◌, ◌-◌, ◌*◌, ◌^◌, Bool, true, false, Option, none, some, List, [], ◌∷◌, ◌++◌,
  length, get_or, take, drop, bytes_eq, ◌&&◌, not, leb, ltb, if◌then◌else◌,
}

abbrev pub thunk_len : ℕ
thunk_len = 0x20

abbrev pub service_offset : ℕ
service_offset = 4

abbrev pub branch_offset : ℕ
branch_offset = 8

abbrev pub tail_offset : ℕ
tail_offset = 0x15

abbrev pub thunk_head : List ℕ
thunk_head = 0x4c ∷ 0x8b ∷ 0xd1 ∷ 0xb8 ∷ []

abbrev pub thunk_branch : List ℕ
thunk_branch =
    0xf6 ∷ 0x04 ∷ 0x25 ∷ 0x08 ∷ 0x03 ∷ 0xfe ∷ 0x7f ∷ 0x01 ∷ 0x75 ∷ 0x03 ∷ 0x0f ∷ 0x05 ∷ 0xc3 ∷ []

abbrev pub windows_tail : List ℕ
windows_tail = 0xcd ∷ 0x2e ∷ 0xc3 ∷ 0x0f ∷ 0x1f ∷ 0x84 ∷ 0x00 ∷ 0x00 ∷ 0x00 ∷ 0x00 ∷ 0x00 ∷ []

abbrev pub min_file_read : ℕ
min_file_read = 0x1000

unfoldable pub is_syscall_thunk_head : List ℕ → Bool
is_syscall_thunk_head bytes =
    leb thunk_len (length bytes)
    && bytes_eq (take service_offset bytes) thunk_head
    && bytes_eq (drop branch_offset (take tail_offset bytes)) thunk_branch

-- `bytes[TAIL_OFFSET..THUNK_LEN]`
abbrev pub tail_of : List ℕ → List ℕ
tail_of bytes = take (thunk_len - tail_offset) (drop tail_offset bytes)

-- A buffer after the rewriting, and how many tails changed.
pub record Rewritten : Type 0 where
  pub buffer : List ℕ
  pub rewritten : ℕ

unfoldable pub rewrite_from : ℕ → List ℕ → Rewritten
rewrite_from zero bytes = record { buffer = bytes; rewritten = 0 }
rewrite_from (suc fuel) bytes = elim (leb thunk_len (length bytes)) [
  | false ↦ record { buffer = bytes; rewritten = 0 }
  | true ↦ elim (is_syscall_thunk_head bytes) [
    | true ↦
        let rest = rewrite_from fuel (drop thunk_len bytes) in
        record {
          buffer = take tail_offset bytes ++ windows_tail ++ rest.buffer;
          rewritten = (if bytes_eq (tail_of bytes) windows_tail then 0 else 1) + rest.rewritten;
        }
    | false ↦
        let rest = rewrite_from fuel (drop 1 bytes) in
        record { buffer = take 1 bytes ++ rest.buffer; rewritten = rest.rewritten }
  ]
]

unfoldable pub rewrite_syscall_thunk_tails : List ℕ → Rewritten
rewrite_syscall_thunk_tails bytes = rewrite_from (length bytes) bytes

unfoldable pub count_from : ℕ → List ℕ → ℕ
count_from zero bytes = 0
count_from (suc fuel) bytes = elim (leb thunk_len (length bytes)) [
  | false ↦ 0
  | true ↦ elim (is_syscall_thunk_head bytes) [
    | true ↦
        (if bytes_eq (tail_of bytes) windows_tail then 0 else 1)
        + count_from fuel (drop thunk_len bytes)
    | false ↦ count_from fuel (drop 1 bytes)
  ]
]

unfoldable pub count_pending_thunk_tails : List ℕ → ℕ
count_pending_thunk_tails bytes = count_from (length bytes) bytes

-- A little-endian word at an offset that the caller has checked.
abbrev pub le_u32 : List ℕ → ℕ → ℕ
le_u32 bytes i =
    get_or bytes i 0
    + get_or bytes (i + 1) 0 * 2 ^ 8
    + get_or bytes (i + 2) 0 * 2 ^ 16
    + get_or bytes (i + 3) 0 * 2 ^ 24

unfoldable pub looks_like_pe_file : List ℕ → Bool
looks_like_pe_file buffer =
    let pe_offset = le_u32 buffer 0x3c in
    leb 0x40 (length buffer)
    && bytes_eq (take 2 buffer) (0x4d ∷ 0x5a ∷ [])
    && leb (pe_offset + 4) (length buffer)
    && bytes_eq (take 4 (drop pe_offset buffer)) (0x50 ∷ 0x45 ∷ 0 ∷ 0 ∷ [])

unfoldable pub rewrite_complete_pe_read : List ℕ → Rewritten
rewrite_complete_pe_read buffer =
    if leb min_file_read (length buffer) && looks_like_pe_file buffer
    then rewrite_syscall_thunk_tails buffer
    else record { buffer = buffer; rewritten = 0 }

-- `SizeOfImage`; `none` if the header ends before it.
unfoldable pub pe_size_of_image : List ℕ → Option ℕ
pe_size_of_image header =
    let field = le_u32 header 0x3c + (24 + 56) in
    if leb 0x40 (length header) && leb (field + 4) (length header)
    then some (le_u32 header field)
    else none
