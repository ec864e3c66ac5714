-- ===== src/PendingFrees/Find.antt =====
-- `find` walks the chain of the bucket of an address to its end or to the address.
use linuwux_runtime.Base.{
  ℕ, zero, suc, ◌<◌, ◌≡◌, ◌≢◌, refl, inl, inr, Option, none, some, Option-cases, List, [], ◌∷◌,
  arith, length, ◌==◌, if◌then◌else◌,
}
use linuwux_runtime.PendingFrees.{
  capacity, no_entry, find_fuel, Entry, History, bucket, find_from, find,
}
use linuwux_runtime.PendingFrees.Chain.{
  head_of, count, next_of, IsNodup, IsNodup-tail, count_self, length-le_bound,
}
use linuwux_runtime.PendingFrees.Invariant.{Inv, chain-IsNodup, no_entry_absent}

-- The first node of a chain with an address.
search_chain : (ℕ → Entry) → ℕ → List ℕ → Option ℕ
search_chain entries a [] = none
search_chain entries a (y ∷ l) =
    if (entries y).address == a then some y else search_chain entries a l

abbrev Linked : (ℕ → Entry) → List ℕ → Type 0
Linked entries l = (y : ℕ) → 0 < count y l → (entries y).next ≡ next_of l y

Linked-tail :
    (entries : ℕ → Entry) (y : ℕ) (l : List ℕ)
    → IsNodup (y ∷ l)
    → Linked entries (y ∷ l)
    → Linked entries l
unfolding count next_of
Linked-tail entries y l once linked z m = ground (arith, linked z, count_self y l once)

find_from_lem :
    (fuel : ℕ) (entries : ℕ → Entry) (a : ℕ) (l : List ℕ)
    → IsNodup l
    → count no_entry l ≡ 0
    → Linked entries l
    → length l < fuel
    → find_from fuel entries a (head_of l) ≡ some (search_chain entries a l)
unfolding find_from search_chain count next_of
find_from_lem zero entries a l once nn linked lt = absurd (omega arith)
find_from_lem (suc fuel) entries a [] once nn linked lt = refl
find_from_lem (suc fuel) entries a (y ∷ l) once nn linked lt = ground (
  arith,
  linked y,
  find_from_lem fuel entries a l (IsNodup-tail y l once) (ground arith)
      (Linked-tail entries y l once linked) (omega arith),
)

search_chain-some :
    (entries : ℕ → Entry) (a x : ℕ) (l : List ℕ)
    → search_chain entries a l ≡ some x
    → (entries x).address ≡ a
unfolding search_chain
search_chain-some entries a x [] h = cc
search_chain-some entries a x (y ∷ l) h = ground (arith, search_chain-some entries a x l)

search_chain-none :
    (entries : ℕ → Entry) (a x : ℕ) (l : List ℕ)
    → search_chain entries a l ≡ none
    → 0 < count x l
    → (entries x).address ≢ a
unfolding search_chain count
search_chain-none entries a x [] h m = absurd (omega arith)
search_chain-none entries a x (y ∷ l) h m = ground (arith, search_chain-none entries a x l)

-- The answer of `find`: an entry with the address, or that there is none.
pub data Found (h : History) (a : ℕ) : Type 0 where
  hit : (x : ℕ) → find h a ≡ some (some x) → (h.entries x).address ≡ a → Found h a
  miss : find h a ≡ some none → ((i : ℕ) → (h.entries i).address ≢ a) → Found h a

module _ {h : History} {chains : ℕ → List ℕ} (inv : Inv h chains) (a : ℕ)
    (some_address : a ≢ 0) where
  chain : List ℕ
  chain = chains (bucket a)

  chain-short : length chain < find_fuel
  unfolding chain
  chain-short =
      let short =
        length-le_bound capacity chain (chain-IsNodup inv (bucket a))
          (λ y le. ground (arith, inv.placed (bucket a) y, inv.bounded y)) in
      omega arith

  find_lem : find h a ≡ some (search_chain h.entries a chain)
  unfolding find chain
  find_lem = rw (inv.heads (bucket a)) (
      find_from_lem find_fuel h.entries a chain (chain-IsNodup inv (bucket a))
        (no_entry_absent inv (bucket a)) (inv.nexts (bucket a)) chain-short)

  pub find-Found : Found h a
  unfolding chain
  find-Found = elim (Option-cases (search_chain h.entries a chain)) [
    | inr (x, e) ↦ hit x (rw e at find_lem) (search_chain-some h.entries a x chain e)
    | inl e ↦ miss (rw e at find_lem) (λ i same.
        search_chain-none h.entries a i chain e (ground (arith, inv.placed (bucket a) i)) same)
  ]
