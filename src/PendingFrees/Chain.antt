-- ===== src/PendingFrees/Chain.antt =====
-- A chain of the hash index as a list of indices: the links that its nodes must have, and how they
-- change when a node joins at the head or leaves.
use linuwux_runtime.Base.{
  ℕ, zero, suc, ◌+◌, ◌≤◌, ◌<◌, ◌≡◌, ◌≢◌, refl, ◌⊎◌, inl, Bool, true, false, List, [], ◌∷◌, arith,
  length, ◌==◌, if◌then◌else◌,
}
use linuwux_runtime.PendingFrees.{no_entry}

abbrev pub head_of : List ℕ → ℕ
head_of [] = no_entry
head_of (y ∷ l) = y

abbrev pub to_nat : Bool → ℕ
to_nat true = 1
to_nat false = 0

unfoldable pub count : ℕ → List ℕ → ℕ
count x [] = 0
count x (y ∷ l) = to_nat (y == x) + count x l

unfoldable pub next_of : List ℕ → ℕ → ℕ
next_of [] x = no_entry
next_of (y ∷ l) x = if y == x then head_of l else next_of l x

-- The node before `x`, in a list that follows `p`.
unfoldable pub prev_from : ℕ → List ℕ → ℕ → ℕ
prev_from p [] x = no_entry
prev_from p (y ∷ l) x = if y == x then p else prev_from y l x

pub without : ℕ → List ℕ → List ℕ
without x [] = []
without x (y ∷ l) = if y == x then without x l else y ∷ without x l

abbrev pub IsNodup : List ℕ → Type 0
IsNodup l = (y : ℕ) → count y l ≤ 1

pub count-without :
    (x y : ℕ) (l : List ℕ) → count y (without x l) ≡ (if x == y then 0 else count y l)
unfolding count without
count-without x y [] = ground arith
count-without x y (z ∷ l) = ground (arith, count-without x y l)

length-without : (x : ℕ) (l : List ℕ) → length (without x l) + count x l ≡ length l
unfolding count without
length-without x [] = omega arith
length-without x (z ∷ l) = ground (arith, length-without x l)

-- A list without repetition over the numbers below `n` has at most `n` elements.
pub length-le_bound :
    (n : ℕ) (l : List ℕ) → IsNodup l → ((y : ℕ) → n ≤ y → count y l ≡ 0) → length l ≤ n
unfolding count
length-le_bound zero [] once out = omega arith
length-le_bound zero (y ∷ l) once out = absurd (ground (arith, out y))
length-le_bound (suc n) l once out =
    let shorter =
      length-le_bound n (without n l) (λ y. ground (arith, count-without n y l, once y))
        (λ y le. ground (arith, count-without n y l, out y)) in
    omega (arith, length-without n l, once n)

pub without_absent : (x : ℕ) (l : List ℕ) → count x l ≡ 0 → without x l ≡ l
unfolding count without
without_absent x [] h = refl
without_absent x (y ∷ l) h = ground (arith, without_absent x l)

pub head_of-without :
    (x : ℕ) (l : List ℕ)
    → count x l ≤ 1
    → head_of (without x l) ≡ (if head_of l == x then next_of l x else head_of l)
unfolding count without next_of
head_of-without x [] h = ground arith
head_of-without x (y ∷ l) h = ground (arith, without_absent x l)

pub IsNodup-tail : (y : ℕ) (l : List ℕ) → IsNodup (y ∷ l) → IsNodup l
unfolding count
IsNodup-tail y l once x = ground (arith, once x)

pub count_self : (y : ℕ) (l : List ℕ) → IsNodup (y ∷ l) → count y l ≡ 0
unfolding count
count_self y l once = ground (arith, once y)

pub head_of_mem : (l : List ℕ) → (head_of l ≡ no_entry) ⊎ (0 < count (head_of l) l)
unfolding count
head_of_mem [] = inl refl
head_of_mem (y ∷ l) = ground arith

-- A link leads to a node of the chain, or nowhere.
pub next_of_mem : (l : List ℕ) (x : ℕ) → (next_of l x ≡ no_entry) ⊎ (0 < count (next_of l x) l)
unfolding next_of count
next_of_mem [] x = inl refl
next_of_mem (y ∷ []) x = ground arith
next_of_mem (y ∷ z ∷ l) x = ground (arith, next_of_mem (z ∷ l) x)

prev_from_mem :
    (p : ℕ) (l : List ℕ) (x : ℕ)
    → (prev_from p l x ≡ no_entry) ⊎ (prev_from p l x ≡ p) ⊎ (0 < count (prev_from p l x) l)
unfolding prev_from count
prev_from_mem p [] x = inl refl
prev_from_mem p (y ∷ l) x = ground (arith, prev_from_mem y l x)

pub prev_of_mem :
    (l : List ℕ) (x : ℕ)
    → (prev_from no_entry l x ≡ no_entry) ⊎ (0 < count (prev_from no_entry l x) l)
prev_of_mem l x = ground (arith, prev_from_mem no_entry l x)

-- The node before `x` is the one before the list exactly if `x` is its head.
prev_from_head :
    (p x : ℕ) (l : List ℕ)
    → count p l ≡ 0
    → p ≢ no_entry
    → x ≢ no_entry
    → (prev_from p l x == p) ≡ (head_of l == x)
unfolding prev_from count
prev_from_head p x [] h n m = ground arith
prev_from_head p x (y ∷ l) h n m = ground (arith, prev_from_mem y l x)

prev_from_found :
    (p : ℕ) (l : List ℕ) (x : ℕ)
    → 0 < count x l
    → (prev_from p l x ≡ p) ⊎ (0 < count (prev_from p l x) l)
unfolding prev_from count
prev_from_found p [] x h = absurd (omega arith)
prev_from_found p (y ∷ l) x h = ground (arith, prev_from_found y l x)

prev_from_swap :
    (p q y : ℕ) (l : List ℕ)
    → 0 < count y l
    → prev_from p l y ≡ (if head_of l == y then p else prev_from q l y)
unfolding prev_from count
prev_from_swap p q y [] h = absurd (omega arith)
prev_from_swap p q y (z ∷ l) h = ground arith

-- So too where the list follows nothing.
pub prev_of_head :
    (x : ℕ) (l : List ℕ)
    → count no_entry l ≡ 0
    → 0 < count x l
    → (prev_from no_entry l x == no_entry) ≡ (head_of l == x)
unfolding prev_from count
prev_of_head x [] h m = absurd (omega arith)
prev_of_head x (y ∷ l) h m = ground (arith, prev_from_found y l x)

pub next_of-without :
    (x y p : ℕ) (l : List ℕ)
    → IsNodup l
    → count p l ≡ 0
    → count no_entry l ≡ 0
    → x ≢ no_entry
    → 0 < count y l
    → y ≢ x
    → next_of (without x l) y ≡ (if prev_from p l x == y then next_of l x else next_of l y)
unfolding count without next_of prev_from
next_of-without x y p [] once np nn m h n = absurd (omega arith)
next_of-without x y p (z ∷ l) once np nn m h n = ground (
  arith,
  next_of-without x y z l (IsNodup-tail z l once) (count_self z l once),
  head_of-without x l (IsNodup-tail z l once x),
  prev_from_head z x l (count_self z l once),
  without_absent x l,
  count_self z l once,
)

-- The node before `y` once `x` has left.
pub prev_of-without :
    (x y p : ℕ) (l : List ℕ)
    → IsNodup l
    → x ≢ no_entry
    → count no_entry l ≡ 0
    → 0 < count x l
    → 0 < count y l
    → y ≢ x
    → prev_from p (without x l) y ≡ (if next_of l x == y then prev_from p l x else prev_from p l y)
unfolding count without next_of prev_from
prev_of-without x y p [] once m nn g h n = absurd (omega arith)
prev_of-without x y p (z ∷ l) once m nn g h n = ground (
  arith,
  prev_of-without x y z l (IsNodup-tail z l once),
  prev_from_swap p z y l,
  next_of_mem l x,
  without_absent x l,
  count_self z l once,
)

-- A list that a node joins at the head.
pub prev_of-cons :
    (x y : ℕ) (l : List ℕ)
    → 0 < count y l
    → x ≢ y
    → prev_from no_entry (x ∷ l) y ≡ (if head_of l == y then x else prev_from no_entry l y)
unfolding count prev_from
prev_of-cons x y [] h n = absurd (omega arith)
prev_of-cons x y (z ∷ l) h n = ground arith
