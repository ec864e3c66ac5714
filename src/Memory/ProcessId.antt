-- ===== src/Memory/ProcessId.antt =====
-- runtime/src/procmem.rs: the process id that is kept for process_vm_readv, and what a fork does to it; and
-- runtime/src/errno.rs: the errno that a block of calls leaves alone.
use linuwux_runtime.Base.{
  ℕ, ◌≡◌, ◌≢◌, refl, not, ◌==◌, List, [], ◌∷◌, if◌then◌else◌, Bool-cases, inl, inr, arith,
}

-- PID, and what getpid answers.
pub record ProcessId : Type 0 where
  pub cached : ℕ
  pub actual : ℕ

unfoldable pub pid : ProcessId → ℕ × ProcessId
pid p = if not (p.cached == 0) then (p.cached, p) else (p.actual, record p { cached = p.actual })

unfoldable pub forget_pid_after_fork : ProcessId → ProcessId
forget_pid_after_fork p = record p { cached = 0 }

-- A read asks for the id, or the process forks and goes on as the child, where the handler of hooks.rs runs.
pub data Use : Type 0 where
  asks : Use
  forks : (child : ℕ) → Use

unfoldable pub used : List Use → ProcessId → ProcessId
used [] p = p
used (asks ∷ us) p = used us (pid p).1
used (forks child ∷ us) p = used us (forget_pid_after_fork (record p { actual = child }))

-- What `Errno` is around: calls that may change errno, which is as before behind them.
unfoldable pub with_errno : {A : Type 0} → (ℕ → A × ℕ) → ℕ → A × ℕ
with_errno calls errno = ((calls errno).0, errno)

-- The id that is kept is none or the right one.
abbrev IsCurrent : ProcessId → Type 0
IsCurrent p = p.cached ≢ 0 → p.cached ≡ p.actual

pid-IsCurrent : (p : ProcessId) → IsCurrent p → IsCurrent (pid p).1
unfolding pid
pid-IsCurrent p current = ground (arith, current)

used-IsCurrent : (us : List Use) (p : ProcessId) → IsCurrent p → IsCurrent (used us p)
unfolding used forget_pid_after_fork
used-IsCurrent [] p current = current
used-IsCurrent (asks ∷ us) p current = used-IsCurrent us (pid p).1 (pid-IsCurrent p current)
used-IsCurrent (forks child ∷ us) p current =
    used-IsCurrent us (record { cached = 0; actual = child }) (λ h. absurd (h refl))

-- Whatever reads and forks were before, the id that is used is the one of the process.
pub pid-used :
    (us : List Use) (start : ℕ)
    → (pid (used us (record { cached = 0; actual = start }))).0
      ≡ (used us (record { cached = 0; actual = start })).actual
unfolding pid
pid-used us start =
    let p = used us (record { cached = 0; actual = start }) in
    let current =
      used-IsCurrent us (record { cached = 0; actual = start }) (λ h. absurd (h refl)) in
    elim (Bool-cases (p.cached == 0)) [
      | inl none_kept ↦ ground (arith, none_kept)
      | inr kept ↦ ground (arith, kept, current)
    ]
