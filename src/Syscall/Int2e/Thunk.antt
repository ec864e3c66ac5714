-- ===== src/Syscall/Int2e/Thunk.antt =====
-- An `int 2e` in a thunk that the rewriting of pe_stub_layout.rs has written.
use linuwux_runtime.Base.{
  ℕ, zero, suc, ◌+◌, ◌-◌, ◌≤◌, ◌≡◌, ◌≢◌, refl, sym, ap, ◌∙◌, inl, inr, Option-cases, some, true,
  false, ◌&&◌, ◌||◌, ◌==◌, ltb, leb, List, ◌∷◌, ◌++◌, length, take, drop, bytes_eq, bytes_eq_refl,
  bytes_eq_sound, both_true, leb→le, length-take, append_assoc, drop-append, drop-append_within,
  drop-drop, arith,
}
use linuwux_runtime.Memory.{Memory, bytes_at, read_memory, reads_as}
use linuwux_runtime.PeStub.Thunks.{
  thunk_len, branch_offset, service_offset, thunk_head, tail_offset, thunk_branch, windows_tail,
  is_syscall_thunk_head, rewrite_from, rewrite_syscall_thunk_tails,
}
use linuwux_runtime.Syscall.Int2e.{
  Kernel, Fault, int2e_instruction, direct_syscall_thunk, preceding_direct_syscall,
  direct_path_eflags, resume_int2e, skip_int2e_fault,
}

bytes_at-suc :
    (m : Memory) (n base : ℕ) (bytes : List ℕ)
    → bytes_at m base (suc n) ≡ some bytes
    → (byte : ℕ) × (rest : List ℕ) × (m base ≡ some byte)
      × (bytes_at m (base + 1) n ≡ some rest)
      × (bytes ≡ byte ∷ rest)
unfolding bytes_at
bytes_at-suc m n base bytes e = elim (Option-cases (m base)) [
  | inl unmapped ↦ absurd (ground (arith, e, unmapped))
  | inr (byte, here) ↦ elim (Option-cases (bytes_at m (base + 1) n)) [
    | inl unmapped ↦ absurd (ground (arith, e, here, unmapped))
    | inr (rest, after) ↦ (byte, rest, here, after, ground (arith, e, here, after))
  ]
]

-- A slice of a block that is read is read.
bytes_at-take :
    (m : Memory) (k n base : ℕ) (bytes : List ℕ)
    → bytes_at m base n ≡ some bytes
    → k ≤ n
    → bytes_at m base k ≡ some (take k bytes)
unfolding bytes_at
bytes_at-take m zero n base bytes e le = refl
bytes_at-take m (suc k) zero base bytes e le = absurd (omega arith)
bytes_at-take m (suc k) (suc n) base bytes e le =
    let (byte, rest, here, after, split) = bytes_at-suc m n base bytes e in
    rw (split, here) (rw (bytes_at-take m k n (base + 1) rest after (omega arith)) refl)

bytes_at-drop :
    (m : Memory) (k n base : ℕ) (bytes : List ℕ)
    → bytes_at m base (k + n) ≡ some bytes
    → bytes_at m (base + k) n ≡ some (drop k bytes)
bytes_at-drop m zero n base bytes e =
    let same_n : 0 + n ≡ n = omega arith in let same_base : base + 0 ≡ base = omega arith in cc
bytes_at-drop m (suc k) n base bytes e =
    let same_n : suc k + n ≡ suc (k + n) = omega arith in
    let (byte, rest, here, after, split) =
      bytes_at-suc m (k + n) base bytes (ap (bytes_at m base) (sym same_n) ∙ e) in
    let tail = bytes_at-drop m k n (base + 1) rest after in
    let same_base : base + suc k ≡ base + 1 + k = omega arith in rw (split, same_base) tail

bytes_at-slice :
    (m : Memory) (k j n base : ℕ) (bytes : List ℕ)
    → bytes_at m base n ≡ some bytes
    → k + j ≤ n
    → bytes_at m (base + k) j ≡ some (take j (drop k bytes))
bytes_at-slice m k j n base bytes e le =
    let whole : k + (n - k) ≡ n = omega arith in
    bytes_at-take m j (n - k) (base + k) (drop k bytes)
      (bytes_at-drop m k (n - k) base bytes (ap (bytes_at m base) whole ∙ e)) (omega arith)

reads_as-slice :
    (m : Memory) (k n base : ℕ) (bytes expected : List ℕ)
    → base ≢ 0
    → bytes_at m base n ≡ some bytes
    → k + length expected ≤ n
    → length expected ≢ 0
    → take (length expected) (drop k bytes) ≡ expected
    → reads_as m (base + k) expected ≡ true
unfolding reads_as read_memory
reads_as-slice m k n base bytes expected mapped e le some_bytes slice =
    let got = bytes_at-slice m k (length expected) n base bytes e le in
    let tests : (base + k == 0) || (length expected == 0) ≡ false = ground arith in
    rw (reads_as, read_memory, tests, got, slice) (bytes_eq_refl expected)

-- The bytes of a rewritten thunk around the end of its branch.
module _ (buffer : List ℕ) (head : is_syscall_thunk_head buffer ≡ true) where
  parts :
      (leb thunk_len (length buffer) ≡ true)
      × (bytes_eq (drop branch_offset (take tail_offset buffer)) thunk_branch ≡ true)
  unfolding is_syscall_thunk_head
  parts =
      let long = leb thunk_len (length buffer) in
      let front = bytes_eq (take service_offset buffer) thunk_head in
      let branch = bytes_eq (drop branch_offset (take tail_offset buffer)) thunk_branch in
      let (left, last) = both_true (long && front) branch head in
      let (first, _) = both_true long front left in (first, last)

  branch_bytes : drop branch_offset (take tail_offset buffer) ≡ thunk_branch
  branch_bytes = bytes_eq_sound _ thunk_branch parts.1

  long_enough : thunk_len ≤ length buffer
  long_enough = leb→le thunk_len (length buffer) parts.0

  length_front : length (take tail_offset buffer) ≡ tail_offset
  length_front = omega (arith, length-take tail_offset buffer, long_enough)

  thunk_split :
      (after : List ℕ) × ((rewrite_syscall_thunk_tails buffer).buffer
        ≡ take tail_offset buffer ++ (windows_tail ++ after))
  unfolding rewrite_syscall_thunk_tails rewrite_from
  thunk_split =
      let fuel : length buffer ≡ suc (length buffer - 1) = omega (arith, long_enough) in
      let long : leb thunk_len (length buffer) ≡ true = parts.0 in
      let after = (rewrite_from (length buffer - 1) (drop thunk_len buffer)).buffer in
      let round : (rewrite_from (suc (length buffer - 1)) buffer).buffer
          ≡ take tail_offset buffer ++ windows_tail ++ after =
        rw (rewrite_from, long, head) refl in
      (
        after,
        ap (λ n. (rewrite_from n buffer).buffer) fuel
            ∙ round
            ∙ append_assoc (take tail_offset buffer) windows_tail after,
      )

  rewritten_bytes :
      let out = (rewrite_syscall_thunk_tails buffer).buffer in
      (take 3 (drop 0x12 out) ≡ direct_syscall_thunk)
      × (take 2 (drop tail_offset out) ≡ int2e_instruction)
  rewritten_bytes =
      let (after, split) = thunk_split in
      let front = take tail_offset buffer in
      let rest = windows_tail ++ after in
      let from_8 : drop branch_offset (front ++ rest) ≡ thunk_branch ++ rest =
        drop-append_within branch_offset front rest (omega (arith, length_front))
        ∙ ap (λ xs. xs ++ rest) branch_bytes in
      let from_18 : drop 0x12 (front ++ rest) ≡ drop 10 (drop branch_offset (front ++ rest)) =
        sym (drop-drop 10 branch_offset (front ++ rest)) in
      (
        rw (split) (ap (take 3) from_18 ∙ ap (λ xs. take 3 (drop 10 xs)) from_8),
        rw (split) (ap (take 2) (drop-append tail_offset front rest length_front)),
      )

-- A thunk at the start of a buffer, after `rewrite_syscall_thunk_tails` has rewritten the buffer, in
-- memory at a base: a general protection fault at the `int 2e` of its tail is resumed at the `syscall`
-- before it, with the flags of the direct path, and neither the memory nor the trampolines change,
-- whatever the kernel would answer.
pub skip_int2e_fault-rewrite_syscall_thunk_tails :
    (k : Kernel) (f : Fault) (buffer : List ℕ) (base : ℕ)
    → is_syscall_thunk_head buffer ≡ true
    → base ≢ 0
    → bytes_at f.memory base (length buffer) ≡ some (rewrite_syscall_thunk_tails buffer).buffer
    → f.context.trapno ≡ 13
    → f.context.rip ≡ base + tail_offset
    → skip_int2e_fault k f ≡ (
      true,
      record f {
        context = record f.context {
          eflags = direct_path_eflags f.context.eflags;
          rip = base + 0x12;
        };
      },
    )
unfolding skip_int2e_fault resume_int2e preceding_direct_syscall
skip_int2e_fault-rewrite_syscall_thunk_tails k f buffer base head mapped loaded trap at_tail =
    let long = long_enough buffer head in
    let (direct, gate) = rewritten_bytes buffer head in
    let out = (rewrite_syscall_thunk_tails buffer).buffer in
    let is_gate : reads_as f.memory (base + tail_offset) int2e_instruction ≡ true =
      reads_as-slice f.memory tail_offset (length buffer) base out int2e_instruction mapped loaded
        (omega (arith, long)) (omega arith) gate in
    let is_direct : reads_as f.memory (base + 0x12) direct_syscall_thunk ≡ true =
      reads_as-slice f.memory 0x12 (length buffer) base out direct_syscall_thunk mapped loaded
        (omega (arith, long)) (omega arith) direct in
    let before : base + tail_offset - 3 ≡ base + 0x12 = omega arith in
    let enough : ltb (base + tail_offset) 3 ≡ false = ground arith in
    let previous : preceding_direct_syscall f.memory (base + tail_offset) ≡ some (base + 0x12) =
      rw (preceding_direct_syscall, enough, before, is_direct) refl in
    let is_trap : (f.context.trapno == 13) ≡ true = ground (arith, trap) in
    rw (skip_int2e_fault, is_trap, at_tail, is_gate, resume_int2e, previous) refl
