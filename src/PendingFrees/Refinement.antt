-- ===== src/PendingFrees/Refinement.antt =====
-- The indexed history answers every sequence of calls as the plain ring does.
use linuwux_runtime.Base.{
  ℕ, zero, suc, ◌+◌, ◌%◌, ◌≤◌, ◌<◌, ◌≡◌, ◌≢◌, refl, inl, inr, Option, none, some, Bool-cases, Bool,
  true, false, List, [], ◌∷◌, arith, ◌==◌, if◌then◌else◌,
}
use linuwux_runtime.PendingFrees.{
  capacity, update, History, new, remove, evict, insert, seen_or_mark, consume, Call, mark,
  consumes, forks, call, run,
}
use linuwux_runtime.PendingFrees.Chain.{without}
use linuwux_runtime.PendingFrees.Reads.{
  remove_address, remove_next_index, insert_address, insert_next_index,
}
use linuwux_runtime.PendingFrees.Invariant.{Inv, Inv-new, remove-Inv}
use linuwux_runtime.PendingFrees.Insert.{
  free, joined, evicted, insert-Inv, evict-Inv, evict_next_index, evict_address,
}
use linuwux_runtime.PendingFrees.Find.{hit, miss, find-Found}
use linuwux_runtime.PendingFrees.Reference.{
  Reference, ref_new, slot_is, position, ref_seen_or_mark, ref_consume, ref_call, ref_run,
}

-- The address of an entry as a slot of the ring.
abbrev pub slot_of : ℕ → Option ℕ
slot_of a = if a == 0 then none else some a

module _ (a : ℕ) (slots : ℕ → Option ℕ) where
  position-here : (n i : ℕ) → 0 < n → slots i ≡ some a → position n i slots a ≡ some i
  unfolding position
  position-here zero i lt e = absurd (omega arith)
  position-here (suc n) i lt e = rw e (ground arith)

  -- The only slot that holds the address is found.
  position-only :
      (n i x : ℕ)
      → i ≤ x
      → x < i + n
      → slots x ≡ some a
      → ((j : ℕ) → slot_is (slots j) a ≡ true → j ≡ x)
      → position n i slots a ≡ some x
  unfolding position
  position-only zero i x le lt e only = absurd (omega arith)
  position-only (suc n) i x le lt e only = elim (Bool-cases (slot_is (slots i) a)) [
    | inl here ↦ rw (here, only i here) refl
    | inr not_here ↦
        rw (not_here) (position-only n (i + 1) x (ground (arith, e)) (omega arith) e only)
  ]

  position-absent :
      (n i : ℕ) → ((j : ℕ) → slot_is (slots j) a ≡ false) → position n i slots a ≡ none
  unfolding position
  position-absent zero i absent = refl
  position-absent (suc n) i absent = rw (absent i) (position-absent n (i + 1) absent)

-- The slots hold the addresses of the entries, and the cursors are the same.
pub record Agrees (h : History) (r : Reference) : Type 0 where
  pub slots : (i : ℕ) → r.slots i ≡ slot_of (h.entries i).address
  pub cursor : r.next_index ≡ h.next_index

-- The links of the history are those of some chains, and it agrees with a ring.
pub data Simulated (h : History) (r : Reference) : Type 0 where
  simulated : (chains : ℕ → List ℕ) → Inv h chains → Agrees h r → Simulated h r

-- A call of the history returns, with the answer of the ring and a state that agrees again.
pub data Matches (o : Option (Bool × History)) (p : Bool × Reference) : Type 0 where
  matches :
      (answer : Bool) (h : History) (r : Reference)
      → o ≡ some (answer, h)
      → p ≡ (answer, r)
      → Simulated h r
      → Matches o p

module _ {h : History} {r : Reference} (chains : ℕ → List ℕ) (inv : Inv h chains)
    (same : Agrees h r) (a : ℕ) (some_address : a ≢ 0) where
  open inv use {bounded, unique, cursor}

  slot-hit : (j : ℕ) → slot_is (r.slots j) a ≡ true → (h.entries j).address ≡ a
  slot-hit j e = ground (arith, same.slots j)

  hit_position : (x : ℕ) → (h.entries x).address ≡ a → position capacity 0 r.slots a ≡ some x
  hit_position x e =
      position-only a r.slots capacity 0 x (omega arith) (ground (arith, bounded x))
        (ground (arith, same.slots x)) (λ j here. ground (arith, slot-hit j here, unique j x))

  miss_position : ((i : ℕ) → (h.entries i).address ≢ a) → position capacity 0 r.slots a ≡ none
  miss_position unseen =
      position-absent a r.slots capacity 0 (λ j. ground (arith, same.slots j, unseen j))

  removed-Agrees :
      (x : ℕ)
      → (h.entries x).address ≡ a
      → Agrees (remove h x) (record r { slots = update r.slots x none })
  removed-Agrees x e = record {
    slots = λ i. ground (arith, remove_address h x i, same.slots i);
    cursor = rw (remove_next_index h x) same.cursor;
  }

  consume-Matches : Matches (consume h a) (ref_consume r a)
  unfolding consume ref_consume
  consume-Matches = elim (find-Found inv a some_address) [
    | hit x found e ↦
        rw (found, consume, hit_position x e, ref_consume)
          (matches true (remove h x) _ refl refl (
            simulated (λ b. without x (chains b)) (remove-Inv inv x (ground (arith, e)))
              (removed-Agrees x e)))
    | miss found unseen ↦
        rw (found, consume, miss_position unseen, ref_consume)
          (matches false h r refl refl (simulated chains inv same))
  ]

  vacant : ((evict h).entries (evict h).next_index).address ≡ 0
  vacant = ground (arith, evict_next_index h, evict_address h (evict h).next_index)

  module _ (unseen : (i : ℕ) → (h.entries i).address ≢ a) where
    still_unseen : (i : ℕ) → ((evict h).entries i).address ≢ a
    still_unseen i = ground (arith, evict_address h i, unseen i)

    marked-Inv : Inv (insert (evict h) a) (joined (evict h) a (evicted h chains))
    marked-Inv = insert-Inv (evict-Inv inv) a some_address vacant still_unseen

    inserted_address :
        (i : ℕ)
        → ((insert (evict h) a).entries i).address
          ≡ (if (evict h).next_index == i then a else ((evict h).entries i).address)
    inserted_address i =
        insert_address (evict h) a i (evict-Inv inv).cursor
          (free (evict-Inv inv) a some_address vacant still_unseen)

    marked-Agrees : Agrees (insert (evict h) a) (record {
      slots = update r.slots r.next_index (some a);
      next_index = (r.next_index + 1) % capacity;
    })
    marked-Agrees = record {
      slots = λ i. ground (
        arith,
        inserted_address i,
        evict_address h i,
        evict_next_index h,
        same.slots i,
        same.cursor,
      );
      cursor = rw (insert_next_index (evict h) a, evict_next_index h, same.cursor) refl;
    }

  mark-Matches : Matches (seen_or_mark h a) (ref_seen_or_mark r a)
  unfolding seen_or_mark ref_seen_or_mark
  mark-Matches = elim (find-Found inv a some_address) [
    | hit x found e ↦
        rw (found, seen_or_mark, hit_position x e, ref_seen_or_mark)
          (matches true h r refl refl (simulated chains inv same))
    | miss found unseen ↦
        rw (found, seen_or_mark, miss_position unseen, ref_seen_or_mark)
          (matches false (insert (evict h) a) _ refl refl (
            simulated (joined (evict h) a (evicted h chains)) (marked-Inv unseen)
              (marked-Agrees unseen)))
  ]

pub start : Simulated new ref_new
start = simulated (λ b. []) Inv-new (record { slots = λ i. refl; cursor = refl })

pub call-Matches :
    (h : History) (r : Reference) (c : Call) → Simulated h r → Matches (call h c) (ref_call r c)
unfolding call ref_call
call-Matches h r (mark ptr) (simulated chains inv same) = elim (Bool-cases (ptr == 0)) [
  | inl null ↦ rw null (matches false h r refl refl (simulated chains inv same))
  | inr live ↦ rw live (mark-Matches chains inv same ptr (ground arith))
]
call-Matches h r (consumes ptr) (simulated chains inv same) = elim (Bool-cases (ptr == 0)) [
  | inl null ↦ rw null (matches false h r refl refl (simulated chains inv same))
  | inr live ↦ rw live (consume-Matches chains inv same ptr (ground arith))
]
call-Matches h r forks s = matches false new ref_new refl refl start

run_simulated :
    (h : History) (r : Reference) (calls : List Call)
    → Simulated h r
    → run h calls ≡ some (ref_run r calls)
unfolding run ref_run
run_simulated h r [] s = refl
run_simulated h r (c ∷ cs) s = elim (call-Matches h r c s) [
  | matches answer h' r' e e' s' ↦ rw (e, run, e', ref_run, run_simulated h' r' cs s') refl
]

-- From a new history, every sequence of calls returns (no search runs out of the rounds of `find`),
-- and its answers are those of the plain ring without an index.
pub run-ref_run : (calls : List Call) → run new calls ≡ some (ref_run ref_new calls)
run-ref_run calls = run_simulated new ref_new calls start
