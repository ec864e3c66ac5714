-- ===== src/PeStub/Thunks/Rewriting.antt =====
-- The rewriting counts what the reader of a buffer finds pending, and keeps the length of the buffer.
use linuwux_runtime.Base.{
  ℕ, zero, suc, ◌≡◌, refl, Bool-cases, inl, inr, true, List, ◌++◌, length, take, drop, arith, leb,
  length-append, length-take, length-drop,
}
use linuwux_runtime.PeStub.Thunks.{
  thunk_len, tail_offset, windows_tail, is_syscall_thunk_head, rewrite_from,
  rewrite_syscall_thunk_tails, count_from, count_pending_thunk_tails,
}

-- The length of a buffer with its first thunk rewritten.
thunk_length :
    (bs rest : List ℕ)
    → leb thunk_len (length bs) ≡ true
    → length rest ≡ length (drop thunk_len bs)
    → length (take tail_offset bs ++ windows_tail ++ rest) ≡ length bs
thunk_length bs rest long e = ground (
  arith,
  length-append (take tail_offset bs) (windows_tail ++ rest),
  length-append windows_tail rest,
  length-take tail_offset bs,
  length-drop thunk_len bs,
)

byte_length :
    (bs rest : List ℕ)
    → leb thunk_len (length bs) ≡ true
    → length rest ≡ length (drop 1 bs)
    → length (take 1 bs ++ rest) ≡ length bs
byte_length bs rest long e =
    ground (arith, length-append (take 1 bs) rest, length-take 1 bs, length-drop 1 bs)

pub length-rewrite_from : (f : ℕ) (bs : List ℕ) → length (rewrite_from f bs).buffer ≡ length bs
unfolding rewrite_from
length-rewrite_from zero bs = refl
length-rewrite_from (suc f) bs = elim (Bool-cases (leb thunk_len (length bs))) [
  | inl long ↦ elim (Bool-cases (is_syscall_thunk_head bs)) [
    | inl head ↦
        rw (rewrite_from, long, head)
          (thunk_length bs _ long (length-rewrite_from f (drop thunk_len bs)))
    | inr byte ↦
        rw (rewrite_from, long, byte) (byte_length bs _ long (length-rewrite_from f (drop 1 bs)))
  ]
  | inr short ↦ rw (rewrite_from, short) refl
]

rewritten-count : (f : ℕ) (bs : List ℕ) → (rewrite_from f bs).rewritten ≡ count_from f bs
unfolding rewrite_from count_from
rewritten-count zero bs = refl
rewritten-count (suc f) bs = elim (Bool-cases (leb thunk_len (length bs))) [
  | inl long ↦ elim (Bool-cases (is_syscall_thunk_head bs)) [
    | inl head ↦
        rw (rewrite_from, count_from, long, head, rewritten-count f (drop thunk_len bs)) refl
    | inr byte ↦ rw (rewrite_from, count_from, long, byte) (rewritten-count f (drop 1 bs))
  ]
  | inr short ↦ rw (rewrite_from, count_from, short) refl
]

-- The rewriting of a buffer changes as many tails as the count finds pending beforehand, and the
-- buffer keeps its length.
pub rewrite_syscall_thunk_tails_lem :
    (buffer : List ℕ)
    → ((rewrite_syscall_thunk_tails buffer).rewritten ≡ count_pending_thunk_tails buffer)
      × (length (rewrite_syscall_thunk_tails buffer).buffer ≡ length buffer)
unfolding rewrite_syscall_thunk_tails count_pending_thunk_tails
rewrite_syscall_thunk_tails_lem buffer =
    (rewritten-count (length buffer) buffer, length-rewrite_from (length buffer) buffer)
