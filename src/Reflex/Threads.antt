-- ===== src/Reflex/Threads.antt =====
-- The registrations of protocol/reflex/state.rs by any number of threads, one access to a shared
-- atomic at a time and in any order: `activate_dual_dispatch` and `register_resume_target`.
-- Every access is taken as sequentially consistent.
pub mod Ownership
pub mod Safety
use linuwux_runtime.Base.{ℕ, suc, ◌<◌, ◌≡◌, ◌≢◌, Bool, true, false, ◌==◌, if◌then◌else◌}
use linuwux_runtime.Reflex.Enums.{SyscallConvention, RoutingState}
use linuwux_runtime.Reflex.Machine.{is_transition}

-- The atomics that the registrations share.
pub record Shared : Type 0 where
  pub routing : RoutingState
  pub convention : SyscallConvention
  pub resume_target : ℕ
  pub system_target : ℕ

-- Where a thread stands, with the locals that are live there. `from` is the routing that a claim
-- of dual dispatch replaced.
pub data Pc : Type 0 where
  idle : Pc
  dual_loop : Pc  -- the load at the head of the loop of `activate_dual_dispatch`
  dual_claim : (from : RoutingState) → Pc  -- its compare-exchange
  dual_wait : (rounds : ℕ) → Pc  -- `wait_for_transition`, with the rounds left
  dual_target : (from : RoutingState) → Pc  -- the load of `resume_target`
  dual_check : (from : RoutingState) (target : ℕ) → Pc  -- the load of `system_target`
  dual_store : (from : RoutingState) (target : ℕ) → Pc  -- its store
  dual_convention : (from : RoutingState) → Pc
  dual_publish : (from : RoutingState) → Pc
  resume_loop : (target : ℕ) → Pc  -- the load at the head of the loop of `register_resume_target`
  resume_claim : (target : ℕ) → Pc
  resume_wait : (target rounds : ℕ) → Pc
  resume_slot : (target : ℕ) → Pc  -- the store to the system slot under dual dispatch
  resume_patch : (target : ℕ) → Pc  -- the patch over an earlier registration, then the store
  resume_store : (target : ℕ) → Pc
  resume_convention : Pc  -- the test of the presentation and the store under it
  resume_publish : Pc

-- The state that a claim of dual dispatch stores.
abbrev pub claimed_from : RoutingState → RoutingState
claimed_from RoutingState.resume_target = RoutingState.promoting_dual_dispatch
claimed_from _ = RoutingState.registering_dual_dispatch

-- One access of one thread. What the host answers (a patch, the presentation) is left open, and so
-- is a spurious failure of a compare-exchange.
pub data Move (m : Shared) : Pc → Shared → Pc → Type 0 where
  call_dual : Move m idle m dual_loop
  call_resume : (target : ℕ) → Move m idle m (resume_loop target)
  dual_done : m.routing ≡ RoutingState.dual_dispatch → Move m dual_loop m idle
  dual_unregistered :
      m.routing ≡ RoutingState.unregistered
      → Move m dual_loop m (dual_claim RoutingState.unregistered)
  dual_resume :
      m.routing ≡ RoutingState.resume_target
      → Move m dual_loop m (dual_claim RoutingState.resume_target)
  dual_busy : {limit : ℕ} → is_transition m.routing ≡ true → Move m dual_loop m (dual_wait limit)
  dual_win :
      {from : RoutingState}
      → m.routing ≡ from
      → Move m (dual_claim from) (record m { routing = claimed_from from }) (dual_target from)
  dual_lose : {from : RoutingState} → Move m (dual_claim from) m dual_loop
  dual_ready : {n : ℕ} → is_transition m.routing ≡ false → Move m (dual_wait (suc n)) m dual_loop
  dual_yield : {n : ℕ} → is_transition m.routing ≡ true → Move m (dual_wait (suc n)) m (dual_wait n)
  dual_timeout : {n : ℕ} → n ≡ 0 → Move m (dual_wait n) m idle
  dual_load : {from : RoutingState} → Move m (dual_target from) m (dual_check from m.resume_target)
  dual_empty :
      {from : RoutingState} {t : ℕ}
      → m.system_target ≡ 0
      → Move m (dual_check from t) m (dual_store from t)
  dual_kept :
      {from : RoutingState} {t : ℕ}
      → m.system_target ≢ 0
      → Move m (dual_check from t) m (dual_convention from)
  dual_fill :
      {from : RoutingState} {t : ℕ}
      → Move m (dual_store from t) (record m { system_target = t }) (dual_convention from)
  dual_convene :
      {from : RoutingState}
      → Move m
          (dual_convention from)
          (record m { convention = SyscallConvention.dual_dispatch })
          (dual_publish from)
  dual_finish :
      {from : RoutingState}
      → Move m (dual_publish from) (record m { routing = RoutingState.dual_dispatch }) idle
  resume_dual :
      {t : ℕ} → m.routing ≡ RoutingState.dual_dispatch → Move m (resume_loop t) m (resume_slot t)
  resume_again :
      {t : ℕ} → m.routing ≡ RoutingState.resume_target → Move m (resume_loop t) m (resume_patch t)
  resume_unregistered :
      {t : ℕ} → m.routing ≡ RoutingState.unregistered → Move m (resume_loop t) m (resume_claim t)
  resume_busy :
      {t limit : ℕ}
      → is_transition m.routing ≡ true
      → Move m (resume_loop t) m (resume_wait t limit)
  resume_win :
      {t : ℕ}
      → m.routing ≡ RoutingState.unregistered
      → Move m
          (resume_claim t)
          (record m { routing = RoutingState.registering_resume_target })
          (resume_store t)
  resume_lose : {t : ℕ} → Move m (resume_claim t) m (resume_loop t)
  resume_ready :
      {t n : ℕ} → is_transition m.routing ≡ false → Move m (resume_wait t (suc n)) m (resume_loop t)
  resume_yield :
      {t n : ℕ}
      → is_transition m.routing ≡ true
      → Move m (resume_wait t (suc n)) m (resume_wait t n)
  resume_timeout : {t n : ℕ} → n ≡ 0 → Move m (resume_wait t n) m idle
  resume_set_slot : {t : ℕ} → Move m (resume_slot t) (record m { system_target = t }) idle
  resume_patched : {t : ℕ} → Move m (resume_patch t) (record m { resume_target = t }) idle
  resume_patch_failed : {t : ℕ} → Move m (resume_patch t) m idle
  resume_set : {t : ℕ} → Move m (resume_store t) (record m { resume_target = t }) resume_convention
  resume_select :
      Move m resume_convention
        (record m { convention = SyscallConvention.selector_dispatch })
        resume_publish
  resume_replay : Move m resume_convention m resume_publish
  resume_finish : Move m resume_publish (record m { routing = RoutingState.resume_target }) idle

abbrev pub update : (ℕ → Pc) → ℕ → Pc → ℕ → Pc
update f i p j = if i == j then p else f j

-- A thread for every number; only finitely many ever move.
pub record System : Type 0 where
  pub mem : Shared
  pub pc : ℕ → Pc

pub data Step (s : System) : System → Type 0 where
  pick :
      (i : ℕ) {m : Shared} {p : Pc}
      → Move s.mem (s.pc i) m p
      → Step s (record { mem = m; pc = update s.pc i p })

-- The statics of a new process.
abbrev pub init : System
init = record {
  mem = record {
    routing = RoutingState.unregistered;
    convention = SyscallConvention.resume_replay;
    resume_target = 0;
    system_target = 0;
  };
  pc = λ _. idle;
}

pub data Reach : System → Type 0 where
  start : Reach init
  later : {s t : System} → Reach s → Step s t → Reach t
