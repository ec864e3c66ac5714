-- ===== src/Tests/Views.antt =====
-- A data view of a small PE file with one syscall thunk.
use linuwux_runtime.Base.{◌≡◌, refl, arith, true, false, List, ℕ, [], ◌∷◌, take, min}
use linuwux_runtime.PeStub.Thunks.{
  count_pending_thunk_tails, count_from, is_syscall_thunk_head, looks_like_pe_file,
}
use linuwux_runtime.PeStub.Copies.{image_copies}
use linuwux_runtime.PeStub.Views.{MapCalls, MapRequest, View, after_file_map}
use linuwux_runtime.PeStub.Views.Rewritten.{after_file_map-count_pending_thunk_tails}

abbrev pe_file : List ℕ
pe_file =
    0x4d ∷ 0x5a ∷ 0 ∷ 0 ∷ 0 ∷ 0 ∷ 0 ∷ 0 ∷ 0 ∷ 0 ∷ 0 ∷ 0 ∷ 0 ∷ 0 ∷ 0 ∷ 0 ∷ 0 ∷ 0 ∷ 0 ∷ 0 ∷ 0 ∷ 0 ∷ 0
    ∷ 0 ∷ 0 ∷ 0 ∷ 0 ∷ 0 ∷ 0 ∷ 0 ∷ 0 ∷ 0 ∷ 0 ∷ 0 ∷ 0 ∷ 0 ∷ 0 ∷ 0 ∷ 0 ∷ 0 ∷ 0 ∷ 0 ∷ 0 ∷ 0 ∷ 0 ∷ 0 ∷ 0
    ∷ 0 ∷ 0 ∷ 0 ∷ 0 ∷ 0 ∷ 0 ∷ 0 ∷ 0 ∷ 0 ∷ 0 ∷ 0 ∷ 0 ∷ 0 ∷ 0x40 ∷ 0 ∷ 0 ∷ 0 ∷ 0x50 ∷ 0x45 ∷ 0 ∷ 0
    ∷ 0x4c ∷ 0x8b ∷ 0xd1 ∷ 0xb8 ∷ 5 ∷ 0 ∷ 0 ∷ 0 ∷ 0xf6 ∷ 0x04 ∷ 0x25 ∷ 0x08 ∷ 0x03 ∷ 0xfe ∷ 0x7f
    ∷ 0x01 ∷ 0x75 ∷ 0x03 ∷ 0x0f ∷ 0x05 ∷ 0xc3 ∷ 0xcc ∷ 0xcc ∷ 0xcc ∷ 0xcc ∷ 0xcc ∷ 0xcc ∷ 0xcc
    ∷ 0xcc ∷ 0xcc ∷ 0xcc ∷ 0xcc ∷ []

abbrev large_file : MapCalls
large_file = record {
  game_process = true;
  stat = true;
  is_regular = true;
  size = 0x4000;
  device = 1;
  inode = 2;
  unprotects = true;
  replaces = true;
  mapped = pe_file;
  restores = true;
}

abbrev data_view : MapRequest
data_view = record {
  len = 100;
  prot = record { readable = true; writable = false; executable = false };
  offset = 0;
  has_file = true;
  is_anonymous = false;
  is_fixed = false;
  is_private = true;
}

abbrev shared_view : View
shared_view = record {
  address = 0x10000;
  bytes = pe_file;
  protection = data_view.prot;
  copies = image_copies;
}

pe_file_pending : count_pending_thunk_tails pe_file ≡ 1
unfolding count_pending_thunk_tails count_from is_syscall_thunk_head
pe_file_pending = refl

pe_file_looks : looks_like_pe_file (take (min data_view.len large_file.size) pe_file) ≡ true
unfolding looks_like_pe_file
pe_file_looks = refl

after_file_map-count_pending_thunk_tails_example :
    count_pending_thunk_tails (
      take
        (min data_view.len large_file.size)
        (after_file_map large_file data_view shared_view).bytes)
    ≡ 0
after_file_map-count_pending_thunk_tails_example =
    after_file_map-count_pending_thunk_tails large_file data_view shared_view refl refl
      (omega arith) pe_file_looks
