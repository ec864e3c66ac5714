-- ===== src/PeStub/Thunks/Twice.antt =====
-- A second rewriting of a buffer finds every tail in place.
use linuwux_runtime.Base.{
  ℕ, zero, suc, ◌+◌, ◌≤◌, ◌≡◌, refl, sym, ◌∙◌, Bool-cases, inl, inr, true, false, List, [], ◌∷◌,
  ◌++◌, length, take, drop, bytes_eq, arith, leb, leb→le, length-append, length-take, take-take,
  append_assoc, take-append, drop-append, if◌then◌else◌,
}
use linuwux_runtime.PeStub.Thunks.{
  thunk_len, tail_offset, windows_tail, is_syscall_thunk_head, tail_of, Rewritten, rewrite_from,
  rewrite_syscall_thunk_tails,
}
use linuwux_runtime.PeStub.Thunks.Rewriting.{length-rewrite_from}

-- The signature of a thunk is in its first bytes.
is_syscall_thunk_head_lem :
    (xs ys : List ℕ)
    → take tail_offset xs ≡ take tail_offset ys
    → length xs ≡ length ys
    → is_syscall_thunk_head xs ≡ is_syscall_thunk_head ys
unfolding is_syscall_thunk_head
is_syscall_thunk_head_lem xs ys e n =
    rw
      (
        sym (take-take 4 tail_offset xs (omega arith)),
        sym (take-take 4 tail_offset ys (omega arith)),
        e,
        n,
      )
      refl

-- A buffer with its first thunk rewritten.
abbrev with_tail : List ℕ → List ℕ → List ℕ
with_tail bs rest = take tail_offset bs ++ windows_tail ++ rest

module _ (bs rest : List ℕ) (long : thunk_len ≤ length bs) where
  start_length : length (take tail_offset bs) ≡ tail_offset
  start_length = omega (arith, long, length-take tail_offset bs)

  with_tail-start : take tail_offset (with_tail bs rest) ≡ take tail_offset bs
  with_tail-start =
      rw (append_assoc (take tail_offset bs) windows_tail rest)
        (take-append tail_offset (take tail_offset bs) (windows_tail ++ rest) start_length)

  with_tail-tail : tail_of (with_tail bs rest) ≡ windows_tail
  with_tail-tail =
      rw
        (
          append_assoc (take tail_offset bs) windows_tail rest,
          drop-append tail_offset (take tail_offset bs) (windows_tail ++ rest) start_length,
        )
        refl

  with_tail-rest : drop thunk_len (with_tail bs rest) ≡ rest
  with_tail-rest =
      drop-append thunk_len (take tail_offset bs ++ windows_tail) rest
        (omega (arith, start_length, length-append (take tail_offset bs) windows_tail))

-- One round of the loop, in its three cases.
module _ (f : ℕ) (bs : List ℕ) where
  round_thunk :
      leb thunk_len (length bs) ≡ true
      → is_syscall_thunk_head bs ≡ true
      → rewrite_from (suc f) bs ≡ record {
        buffer = with_tail bs (rewrite_from f (drop thunk_len bs)).buffer;
        rewritten =
            (if bytes_eq (tail_of bs) windows_tail then 0 else 1)
            + (rewrite_from f (drop thunk_len bs)).rewritten;
      }
  unfolding rewrite_from
  round_thunk long head = rw (rewrite_from, long, head) refl

  round_byte :
      leb thunk_len (length bs) ≡ true
      → is_syscall_thunk_head bs ≡ false
      → rewrite_from (suc f) bs ≡ record {
        buffer = take 1 bs ++ (rewrite_from f (drop 1 bs)).buffer;
        rewritten = (rewrite_from f (drop 1 bs)).rewritten;
      }
  unfolding rewrite_from
  round_byte long byte = rw (rewrite_from, long, byte) refl

  round_short :
      leb thunk_len (length bs) ≡ false
      → rewrite_from (suc f) bs ≡ record { buffer = bs; rewritten = 0 }
  unfolding rewrite_from
  round_short short = rw (rewrite_from, short) refl

-- The first bytes of a buffer are not changed, so that no thunk appears before one that is rewritten.
rewrite_from-start :
    (f : ℕ) (bs : List ℕ) → take tail_offset (rewrite_from f bs).buffer ≡ take tail_offset bs
unfolding rewrite_from
rewrite_from-start zero bs = refl
rewrite_from-start (suc f) bs = elim (Bool-cases (leb thunk_len (length bs))) [
  | inl long ↦ elim (Bool-cases (is_syscall_thunk_head bs)) [
    | inl head ↦
        rw (round_thunk f bs long head) (with_tail-start bs _ (leb→le thunk_len (length bs) long))
    | inr byte ↦ rw (round_byte f bs long byte) (byte_start bs _ (rewrite_from-start f (drop 1 bs)))
  ]
  | inr short ↦ rw (round_short f bs short) refl
]
  where
    byte_start :
        (cs rest : List ℕ)
        → take tail_offset rest ≡ take tail_offset (drop 1 cs)
        → take tail_offset (take 1 cs ++ rest) ≡ take tail_offset cs
    byte_start [] rest e = e
    byte_start (c ∷ cs) rest e =
        rw
          (
            sym (take-take 20 tail_offset rest (omega arith)),
            e,
            take-take 20 tail_offset cs (omega arith),
          )
          refl

Unchanged : List ℕ → Rewritten → Type 0
Unchanged bs r = r ≡ record { buffer = bs; rewritten = 0 }

module _ (f : ℕ) (bs rest : List ℕ) (long : leb thunk_len (length bs) ≡ true)
    (again : Unchanged rest (rewrite_from f rest)) where
  thunk_again :
      is_syscall_thunk_head bs ≡ true
      → length (with_tail bs rest) ≡ length bs
      → Unchanged (with_tail bs rest) (rewrite_from (suc f) (with_tail bs rest))
  unfolding Unchanged
  thunk_again head same =
      let fits = leb→le thunk_len (length bs) long in
      round_thunk f (with_tail bs rest) (rw same long) (
        is_syscall_thunk_head_lem (with_tail bs rest) bs (with_tail-start bs rest fits) same ∙ head)
      ∙ rw
          (
            with_tail-rest bs rest fits,
            again,
            with_tail-tail bs rest fits,
            with_tail-start bs rest fits,
          )
          refl

  byte_again :
      is_syscall_thunk_head bs ≡ false
      → length (take 1 bs ++ rest) ≡ length bs
      → take tail_offset (take 1 bs ++ rest) ≡ take tail_offset bs
      → Unchanged (take 1 bs ++ rest) (rewrite_from (suc f) (take 1 bs ++ rest))
  unfolding Unchanged
  byte_again byte same start =
      let one : length (take 1 bs) ≡ 1 =
        omega (arith, length-take 1 bs, leb→le thunk_len (length bs) long) in
      round_byte f (take 1 bs ++ rest) (rw same long)
        (is_syscall_thunk_head_lem (take 1 bs ++ rest) bs start same ∙ byte)
      ∙ rw (drop-append 1 (take 1 bs) rest one, take-append 1 (take 1 bs) rest one, again) refl

rewrite_from-twice :
    (f : ℕ) (bs : List ℕ)
    → Unchanged (rewrite_from f bs).buffer (rewrite_from f (rewrite_from f bs).buffer)
unfolding rewrite_from Unchanged
rewrite_from-twice zero bs = refl
rewrite_from-twice (suc f) bs = elim (Bool-cases (leb thunk_len (length bs))) [
  | inl long ↦ elim (Bool-cases (is_syscall_thunk_head bs)) [
    | inl head ↦ rw (round_thunk f bs long head) (
        thunk_again f bs _ long (rewrite_from-twice f (drop thunk_len bs)) head
          (rw (round_thunk f bs long head) at (length-rewrite_from (suc f) bs)))
    | inr byte ↦ rw (round_byte f bs long byte) (
        byte_again f bs _ long (rewrite_from-twice f (drop 1 bs)) byte
          (rw (round_byte f bs long byte) at (length-rewrite_from (suc f) bs))
          (rw (round_byte f bs long byte) at (rewrite_from-start (suc f) bs)))
  ]
  | inr short ↦ rw (round_short f bs short) (round_short f bs short)
]

-- A second rewriting of a buffer changes nothing and counts nothing, and the first bytes of a buffer
-- are as they were after the first.
pub rewrite_syscall_thunk_tails_twice :
    (buffer : List ℕ)
    → (rewrite_syscall_thunk_tails (rewrite_syscall_thunk_tails buffer).buffer
        ≡ record { buffer = (rewrite_syscall_thunk_tails buffer).buffer; rewritten = 0 })
      × (take tail_offset (rewrite_syscall_thunk_tails buffer).buffer ≡ take tail_offset buffer)
unfolding rewrite_syscall_thunk_tails Unchanged
rewrite_syscall_thunk_tails_twice buffer = (
  rw (length-rewrite_from (length buffer) buffer) (rewrite_from-twice (length buffer) buffer),
  rewrite_from-start (length buffer) buffer,
)
