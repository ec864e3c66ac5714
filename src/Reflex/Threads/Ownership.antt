-- ===== src/Reflex/Threads/Ownership.antt =====
-- Whose registration is under way, in every reachable state.
use linuwux_runtime.Base.{ℕ, ◌≤◌, ◌≡◌, ◌≢◌, refl, ◌⊎◌, Bool, true, false, arith}
use linuwux_runtime.Reflex.Enums.{SyscallConvention, RoutingState}
use linuwux_runtime.Reflex.Machine.{is_transition}
use linuwux_runtime.Reflex.Rank.{rank}
use linuwux_runtime.Reflex.Threads.{
  Shared, Pc, dual_target, dual_check, dual_store, dual_convention, dual_publish, resume_store,
  resume_convention, resume_publish, dual_claim, claimed_from, Move, call_dual, dual_win,
  resume_win, dual_finish, resume_finish, update, System, Step, pick, init, Reach, start, later,
}

-- Whether a thread has claimed a transition and not yet published it, and which.
abbrev pub owns : Pc → Bool
owns (dual_target from) = true
owns (dual_check from t) = true
owns (dual_store from t) = true
owns (dual_convention from) = true
owns (dual_publish from) = true
owns (resume_store t) = true
owns resume_convention = true
owns resume_publish = true
owns _ = false

abbrev pub transition : Pc → RoutingState
transition (dual_target from) = claimed_from from
transition (dual_check from t) = claimed_from from
transition (dual_store from t) = claimed_from from
transition (dual_convention from) = claimed_from from
transition (dual_publish from) = claimed_from from
transition _ = RoutingState.registering_resume_target

-- What the locals of a thread say of the shared words.
abbrev pub Local : Shared → Pc → Type 0
Local m (dual_claim from) = (from ≡ RoutingState.unregistered) ⊎ (from ≡ RoutingState.resume_target)
Local m (dual_publish from) = m.convention ≡ SyscallConvention.dual_dispatch
Local m _ = Unit

-- The convention that a routing can stand with.
abbrev pub Convenes : RoutingState → SyscallConvention → Type 0
Convenes RoutingState.unregistered c = c ≡ SyscallConvention.resume_replay
Convenes RoutingState.registering_resume_target c = c ≢ SyscallConvention.dual_dispatch
Convenes RoutingState.resume_target c = c ≢ SyscallConvention.dual_dispatch
Convenes RoutingState.registering_dual_dispatch c = Unit
Convenes RoutingState.promoting_dual_dispatch c = Unit
Convenes RoutingState.dual_dispatch c = c ≡ SyscallConvention.dual_dispatch

pub record Inv (m : Shared) (pc : ℕ → Pc) : Type 0 where
  pub owned : (i : ℕ) → owns (pc i) ≡ true → m.routing ≡ transition (pc i)
  pub alone : (i j : ℕ) → owns (pc i) ≡ true → owns (pc j) ≡ true → i ≡ j
  pub held : is_transition m.routing ≡ true → (i : ℕ) × (owns (pc i) ≡ true)
  pub locals : (i : ℕ) → Local m (pc i)
  pub convention : Convenes m.routing m.convention

Inv-init : Inv init.mem init.pc
unfolding is_transition
Inv-init = record {
  owned = λ i h. cc;
  alone = λ i j h k. cc;
  held = λ h. cc;
  locals = λ i. tt;
  convention = refl;
}

-- The premise of a claim, for the catch-all clauses below, which cannot name it.
abbrev Guard : {m m' : Shared} {p p' : Pc} → Move m p m' p' → Type 0
Guard {m} (dual_win {from} _) = m.routing ≡ from
Guard {m} (resume_win _) = m.routing ≡ RoutingState.unregistered
Guard _ = Unit

guard : {m m' : Shared} {p p' : Pc} (mv : Move m p m' p') → Guard mv
guard (dual_win g) = g
guard (resume_win g) = g
guard _ = tt

module _ {m : Shared} {pc : ℕ → Pc} (inv : Inv m pc) (i : ℕ) where
  open inv use {owned, alone, held, locals, convention}

  Move-owned :
      {p p' : Pc} {m' : Shared}
      → Move m p m' p'
      → pc i ≡ p
      → (j : ℕ) → owns (update pc i p' j) ≡ true
      → m'.routing ≡ transition (update pc i p' j)
  unfolding is_transition
  Move-owned call_dual e j q = ground (arith, owned j)
  Move-owned mv e j q = ground (arith, guard mv, owned j, owned i, locals i, alone i j)

  Move-alone :
      {p p' : Pc} {m' : Shared}
      → Move m p m' p'
      → pc i ≡ p
      → (j k : ℕ) → owns (update pc i p' j) ≡ true
      → owns (update pc i p' k) ≡ true
      → j ≡ k
  unfolding is_transition
  Move-alone call_dual e j k q r = ground (arith, alone j k)
  Move-alone (dual_win g) e j k q r = ground (arith, owned j, owned k, locals i, alone j k)
  Move-alone (resume_win g) e j k q r = ground (arith, owned j, owned k, alone j k)
  Move-alone mv e j k q r = ground (arith, alone j k, alone i j, alone i k)

  Move-held :
      {p p' : Pc} {m' : Shared}
      → Move m p m' p'
      → pc i ≡ p
      → is_transition m'.routing ≡ true
      → (k : ℕ) × (owns (update pc i p' k) ≡ true)
  unfolding is_transition
  Move-held (dual_win g) e h = (i, ground arith)
  Move-held (resume_win g) e h = (i, ground arith)
  Move-held (dual_finish) e h = cc
  Move-held (resume_finish) e h = cc
  Move-held mv e h = let (k, q) = held h in (k, ground arith)

  Move-Local :
      {p p' : Pc} {m' : Shared} → Move m p m' p' → pc i ≡ p → (j : ℕ) → Local m' (update pc i p' j)
  unfolding is_transition
  Move-Local call_dual e j = ground (arith, locals j)
  Move-Local mv e j = ground (arith, locals j, owned i, owned j, alone i j)

  Move-convention :
      {p p' : Pc} {m' : Shared} → Move m p m' p' → pc i ≡ p → Convenes m'.routing m'.convention
  unfolding is_transition
  Move-convention call_dual e = convention
  Move-convention mv e = ground (arith, guard mv, convention, owned i, locals i)

  Move-Inv : {p' : Pc} {m' : Shared} → Move m (pc i) m' p' → Inv m' (update pc i p')
  Move-Inv mv = record {
    owned = Move-owned mv refl;
    alone = Move-alone mv refl;
    held = Move-held mv refl;
    locals = Move-Local mv refl;
    convention = Move-convention mv refl;
  }

  Move-rank :
      {p p' : Pc} {m' : Shared} → Move m p m' p' → pc i ≡ p → rank m.routing ≤ rank m'.routing
  Move-rank call_dual e = omega arith
  Move-rank mv e = ground (arith, guard mv, owned i, locals i)

pub Step-rank : {s t : System} → Inv s.mem s.pc → Step s t → rank s.mem.routing ≤ rank t.mem.routing
Step-rank inv (pick i mv) = Move-rank inv i mv refl

pub Reach-Inv : {s : System} → Reach s → Inv s.mem s.pc
Reach-Inv start = Inv-init
Reach-Inv (later r (pick i mv)) = Move-Inv (Reach-Inv r) i mv
