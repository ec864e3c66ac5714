-- ===== src/PeStub/Views/Rewritten.antt =====
-- A data view of a PE file after the interposed `mmap`: no thunk tail in it is pending.
use linuwux_runtime.Base.{
  ℕ, ◌≤◌, ◌≡◌, sym, ap, ◌∙◌, Bool, true, List, length, take, drop, min, length-take, take-append,
  ◌==◌, Bool-cases, inl, inr, arith,
}
use linuwux_runtime.PeStub.Thunks.{
  Rewritten, rewrite_syscall_thunk_tails, count_pending_thunk_tails, looks_like_pe_file,
}
use linuwux_runtime.PeStub.Thunks.Rewriting.{rewrite_syscall_thunk_tails_lem}
use linuwux_runtime.PeStub.Thunks.Twice.{rewrite_syscall_thunk_tails_twice}
use linuwux_runtime.PeStub.Views.{
  Protection, MapRequest, MapCalls, View, is_candidate, rewrite_view, rewrite_pe_view,
  after_file_map,
}

rewritten-count_pending :
    (bytes : List ℕ) → count_pending_thunk_tails (rewrite_syscall_thunk_tails bytes).buffer ≡ 0
rewritten-count_pending bytes =
    let (counted, kept) =
      rewrite_syscall_thunk_tails_lem (rewrite_syscall_thunk_tails bytes).buffer in
    let (twice, start) = rewrite_syscall_thunk_tails_twice bytes in
    sym counted ∙ ap (λ (r : Rewritten). r.rewritten) twice

rewrite_view-count_pending :
    (scan_length : ℕ) (prot : Protection) (restored : Bool) (v : View)
    → scan_length ≤ length v.bytes
    → count_pending_thunk_tails (take scan_length (rewrite_view scan_length prot restored v).bytes)
      ≡ 0
unfolding rewrite_view
rewrite_view-count_pending scan_length prot restored v fits =
    let (counted, kept) = rewrite_syscall_thunk_tails_lem (take scan_length v.bytes) in
    let size : length (rewrite_syscall_thunk_tails (take scan_length v.bytes)).buffer
        ≡ scan_length =
      omega (arith, kept, length-take scan_length v.bytes) in
    ap (λ bytes. count_pending_thunk_tails bytes)
      (take-append scan_length (rewrite_syscall_thunk_tails (take scan_length v.bytes)).buffer
        (drop scan_length v.bytes) size)
    ∙ rewritten-count_pending (take scan_length v.bytes)

module _ (c : MapCalls) (r : MapRequest) (scan_length : ℕ) (v : View) where
  rewrite_pe_view-count_pending :
      c.replaces ≡ true
      → scan_length ≤ length c.mapped
      → looks_like_pe_file (take scan_length v.bytes) ≡ true
      → let (changed, after) = rewrite_pe_view c r scan_length v in
        count_pending_thunk_tails (take scan_length after.bytes) ≡ 0
  unfolding rewrite_pe_view
  rewrite_pe_view-count_pending replaced fits pe =
      elim (Bool-cases (count_pending_thunk_tails (take scan_length v.bytes) == 0)) [
        | inl clean ↦
            let none_pending : count_pending_thunk_tails (take scan_length v.bytes) ≡ 0 =
              ground arith in
            rw (rewrite_pe_view, pe, clean) none_pending
        | inr pending ↦
            rw (rewrite_pe_view, pe, pending, replaced)
              (rewrite_view-count_pending scan_length r.prot c.restores
                (record v { bytes = c.mapped }) fits)
      ]

-- In the game process, if the private mapping of a regular file of sufficient size replaces a data view
-- that looks like a PE file, and has the bytes of the file, then the part of the view that the file backs
-- has no pending thunk tail afterwards, whether or not any was pending before.
pub after_file_map-count_pending_thunk_tails :
    (c : MapCalls) (r : MapRequest) (v : View)
    → is_candidate c ≡ true
    → c.replaces ≡ true
    → min r.len c.size ≤ length c.mapped
    → looks_like_pe_file (take (min r.len c.size) v.bytes) ≡ true
    → count_pending_thunk_tails (take (min r.len c.size) (after_file_map c r v).bytes) ≡ 0
unfolding after_file_map
after_file_map-count_pending_thunk_tails c r v candidate replaced fits pe =
    rw (after_file_map, candidate)
      (rewrite_pe_view-count_pending c r (min r.len c.size) v replaced fits pe)
