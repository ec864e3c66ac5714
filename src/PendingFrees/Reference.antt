-- ===== src/PendingFrees/Reference.antt =====
-- The specification of the history: the ring without an index, as the tests of
-- runtime/src/hooks/pending_frees.rs have it.
use linuwux_runtime.Base.{
  ℕ, zero, suc, ◌+◌, ◌%◌, Option, none, some, Bool, true, false, List, [], ◌∷◌, ◌==◌, if◌then◌else◌,
}
use linuwux_runtime.PendingFrees.{capacity, update, Call, mark, consumes, forks}

pub record Reference : Type 0 where
  pub slots : ℕ → Option ℕ
  pub next_index : ℕ

abbrev pub ref_new : Reference
ref_new = record { slots = λ _. none; next_index = 0 }

abbrev pub slot_is : Option ℕ → ℕ → Bool
slot_is none a = false
slot_is (some b) a = b == a

-- The first slot that holds an address, among `n` slots from `i` on.
unfoldable pub position : ℕ → ℕ → (ℕ → Option ℕ) → ℕ → Option ℕ
position zero i slots a = none
position (suc n) i slots a = if slot_is (slots i) a then some i else position n (i + 1) slots a

unfoldable pub ref_seen_or_mark : Reference → ℕ → Bool × Reference
ref_seen_or_mark r a = elim (position capacity 0 r.slots a) [
  | some i ↦ (true, r)
  | none ↦ (
    false,
    record {
      slots = update r.slots r.next_index (some a);
      next_index = (r.next_index + 1) % capacity;
    },
  )
]

unfoldable pub ref_consume : Reference → ℕ → Bool × Reference
ref_consume r a = elim (position capacity 0 r.slots a) [
  | some i ↦ (true, record r { slots = update r.slots i none })
  | none ↦ (false, r)
]

unfoldable pub ref_call : Reference → Call → Bool × Reference
ref_call r (mark ptr) = if ptr == 0 then (false, r) else ref_seen_or_mark r ptr
ref_call r (consumes ptr) = if ptr == 0 then (false, r) else ref_consume r ptr
ref_call r forks = (false, ref_new)

unfoldable pub ref_run : Reference → List Call → List Bool
ref_run r [] = []
ref_run r (c ∷ cs) = let (answer, r') = ref_call r c in answer ∷ ref_run r' cs
