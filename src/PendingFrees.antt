-- ===== src/PendingFrees.antt =====
-- runtime/src/hooks/pending_frees.rs: the history of frees that the win32u guard keeps, a ring of
-- entries with a hash index. An array is a function; that every index used is in range is part of
-- the invariant. `find` takes fuel for the rounds of its loop, and `none` is a loop out of fuel.
-- The spin lock that serialises the calls is not modelled: a call here is a whole critical section.
pub mod Chain
pub mod Reads
pub mod Invariant
pub mod Insert
pub mod Find
pub mod Reference
pub mod Refinement
pub mod Remembered
use linuwux_runtime.Base.{
  ℕ, zero, suc, ◌+◌, ◌*◌, ◌/◌, ◌%◌, ◌^◌, Option, none, some, Bool, true, false, List, [], ◌∷◌, ◌==◌,
  if◌then◌else◌, u64_mod,
}

abbrev pub capacity : ℕ
capacity = 1024

abbrev pub bucket_count : ℕ
bucket_count = 4096

-- `u16::MAX`
abbrev pub no_entry : ℕ
no_entry = 0xffff

pub record Entry : Type 0 where
  pub address : ℕ
  pub next : ℕ
  pub prev : ℕ

abbrev pub empty : Entry
empty = record { address = 0; next = no_entry; prev = no_entry }

pub record History : Type 0 where
  pub entries : ℕ → Entry
  pub buckets : ℕ → ℕ
  pub next_index : ℕ

abbrev pub new : History
new = record { entries = λ _. empty; buckets = λ _. no_entry; next_index = 0 }

-- `array[i] = a`
abbrev pub update {ℓ} : {A : Type ℓ} → (ℕ → A) → ℕ → A → ℕ → A
update f i a j = if i == j then a else f j

-- The top twelve bits of the wrapping product.
unfoldable pub bucket : ℕ → ℕ
bucket address = address / 2 ^ 4 * 0x9e37_79b9_7f4a_7c15 % u64_mod / 2 ^ 52

-- The `while` loop of `find`.
unfoldable pub find_from : ℕ → (ℕ → Entry) → ℕ → ℕ → Option (Option ℕ)
find_from zero entries address index = none
find_from (suc fuel) entries address index =
    let rest = find_from fuel entries address (entries index).next in
    if index == no_entry
    then some none
    else if (entries index).address == address
    then some (some index)
    else rest

abbrev pub find_fuel : ℕ
find_fuel = 1025

unfoldable pub find : History → ℕ → Option (Option ℕ)
find h address = find_from find_fuel h.entries address (h.buckets (bucket address))

unfoldable pub set_next : (ℕ → Entry) → ℕ → ℕ → ℕ → Entry
set_next entries index next = update entries index (record (entries index) { next = next })

unfoldable pub set_prev : (ℕ → Entry) → ℕ → ℕ → ℕ → Entry
set_prev entries index prev = update entries index (record (entries index) { prev = prev })

unfoldable pub remove : History → ℕ → History
unfolding set_next set_prev
remove h index =
    let entry = h.entries index in
    let at_head = entry.prev == no_entry in
    let buckets =
      if at_head then update h.buckets (bucket entry.address) entry.next else h.buckets in
    let entries = if at_head then h.entries else set_next h.entries entry.prev entry.next in
    let entries' =
      if entry.next == no_entry then entries else set_prev entries entry.next entry.prev in
    record h { buckets = buckets; entries = update entries' index empty }

-- The slot of the cursor is made free.
unfoldable pub evict : History → History
unfolding remove
evict h = if (h.entries h.next_index).address == 0 then h else remove h h.next_index

-- The new entry at the head of its chain, and the cursor behind it.
unfoldable pub insert : History → ℕ → History
unfolding set_prev
insert h address =
    let index = h.next_index in
    let b = bucket address in
    let head = h.buckets b in
    let entries =
      update h.entries index (record { address = address; next = head; prev = no_entry }) in
    record {
      entries = if head == no_entry then entries else set_prev entries head (index % 2 ^ 16);
      buckets = update h.buckets b (index % 2 ^ 16);
      next_index = (index + 1) % capacity;
    }

unfoldable pub seen_or_mark : History → ℕ → Option (Bool × History)
seen_or_mark h address = elim (find h address) [
  | none ↦ none
  | some found ↦ elim found [
    | some index ↦ some (true, h)
    | none ↦ some (false, insert (evict h) address)
  ]
]

unfoldable pub consume : History → ℕ → Option (Bool × History)
consume h address = elim (find h address) [
  | none ↦ none
  | some found ↦ elim found [ some index ↦ some (true, remove h index) | none ↦ some (false, h) ]
]

-- The calls of hooks.rs: a null pointer is never recorded, and a fork starts a new history.
pub data Call : Type 0 where
  mark : (ptr : ℕ) → Call
  consumes : (ptr : ℕ) → Call
  forks : Call

unfoldable pub call : History → Call → Option (Bool × History)
call h (mark ptr) = if ptr == 0 then some (false, h) else seen_or_mark h ptr
call h (consumes ptr) = if ptr == 0 then some (false, h) else consume h ptr
call h forks = some (false, new)

unfoldable pub run : History → List Call → Option (List Bool)
run h [] = some []
run h (c ∷ cs) = elim (call h c) [
  | none ↦ none
  | some (answer, h') ↦ elim (run h' cs) [ none ↦ none | some answers ↦ some (answer ∷ answers) ]
]
