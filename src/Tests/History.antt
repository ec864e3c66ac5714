-- ===== src/Tests/History.antt =====
-- The history of frees and the record of image copies at concrete inputs.
use linuwux_runtime.Base.{ℕ, ◌≡◌, refl, true, false, some, List, [], ◌∷◌, ◌==◌, if◌then◌else◌}
use linuwux_runtime.PendingFrees.{
  new, Call, mark, consumes, forks, call, run, seen_or_mark, consume, find, find_from, insert,
  evict, remove, set_next, set_prev, bucket,
}
use linuwux_runtime.PendingFrees.Reference.{ref_new, ref_run}
use linuwux_runtime.PendingFrees.Refinement.{run-ref_run}
use linuwux_runtime.PeStub.Copies.{ImageCopies, image_copies, slot, slot_from}
use linuwux_runtime.PeStub.Thunks.{
  rewrite_syscall_thunk_tails, count_from, is_syscall_thunk_head, count_pending_thunk_tails,
}
use linuwux_runtime.Base.{take}
use linuwux_runtime.PeStub.Thunks.{tail_offset}
use linuwux_runtime.PeStub.Thunks.Twice.{rewrite_syscall_thunk_tails_twice}

-- Two addresses of one bucket, a null pointer and a fork.
abbrev calls : List Call
calls = mark 16 ∷ mark 32 ∷ mark 16 ∷ consumes 16 ∷ consumes 16 ∷ mark 0 ∷ forks ∷ consumes 32 ∷ []

run-ref_run_example : run new calls ≡ some (ref_run ref_new calls)
run-ref_run_example = run-ref_run calls

calls_answers :
    run new calls ≡ some (false ∷ false ∷ true ∷ true ∷ false ∷ false ∷ false ∷ false ∷ [])
unfolding run call seen_or_mark consume find find_from insert evict remove set_next set_prev bucket
calls_answers = refl

abbrev loaded : ImageCopies
loaded = record image_copies {
  inode = λ i. if i == 0 then 7 else 0;
  device = λ i. if i == 0 then 2 else 0;
}

loaded-slot : slot loaded 2 7 ≡ some 0
unfolding slot slot_from
loaded-slot = refl

-- A thunk with a tail of eleven zeros, after one byte that belongs to none.
abbrev thunk_file : List ℕ
thunk_file =
    0x90 ∷ 0x4c ∷ 0x8b ∷ 0xd1 ∷ 0xb8 ∷ 1 ∷ 0 ∷ 0 ∷ 0 ∷ 0xf6 ∷ 0x04 ∷ 0x25 ∷ 0x08 ∷ 0x03 ∷ 0xfe
    ∷ 0x7f ∷ 0x01 ∷ 0x75 ∷ 0x03 ∷ 0x0f ∷ 0x05 ∷ 0xc3 ∷ 0 ∷ 0 ∷ 0 ∷ 0 ∷ 0 ∷ 0 ∷ 0 ∷ 0 ∷ 0 ∷ 0 ∷ 0
    ∷ []

rewrite_syscall_thunk_tails_twice_example :
    (rewrite_syscall_thunk_tails (rewrite_syscall_thunk_tails thunk_file).buffer
      ≡ record { buffer = (rewrite_syscall_thunk_tails thunk_file).buffer; rewritten = 0 })
    × (take tail_offset (rewrite_syscall_thunk_tails thunk_file).buffer
        ≡ take tail_offset thunk_file)
rewrite_syscall_thunk_tails_twice_example = rewrite_syscall_thunk_tails_twice thunk_file

thunk_file_pending : count_pending_thunk_tails thunk_file ≡ 1
unfolding count_pending_thunk_tails count_from is_syscall_thunk_head
thunk_file_pending = refl
