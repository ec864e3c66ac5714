-- ===== src/Environment/Overrides.antt =====
-- What the overrides are after the set-up of the game's process.
use linuwux_runtime.Base.{
  ℕ, ◌+◌, ◌≤◌, ◌≡◌, refl, sym, ap, ◌∙◌, inl, inr, Bool, Bool-cases, true, false, not, ◌&&◌, ◌||◌,
  Option, none, some, List, [], ◌∷◌, ◌++◌, ◌==◌, length, length-append, bytes_eq, bytes_eq_refl,
  bytes_eq_sound, both_true, u64_max, arith,
}
use linuwux_runtime.Text.Bytes.{take_while, split_first, split_others}
use linuwux_runtime.Environment.{
  overrides, is_semicolon, is_equals, is_for, any_entry, already_present, override_capacity,
  native_first, value_of, fill_override, length_of, is_present, add_override, add_overrides,
  is_some, game_executable_argument, setup_overrides,
}

-- No byte of a string passes a test.
unfoldable pub none_is : (ℕ → Bool) → List ℕ → Bool
none_is p [] = true
none_is p (b ∷ bs) = not (p b) && none_is p bs

or_assoc : (a b c : Bool) → (a || b) || c ≡ a || (b || c)
or_assoc true b c = refl
or_assoc false b c = refl

or_more : (a b c : Bool) → (a || b) ≡ true → (a || (b || c)) ≡ true
or_more true b c e = refl
or_more false true c e = refl
or_more false false c e = cc

append_nil : (xs : List ℕ) → xs ++ [] ≡ xs
append_nil [] = refl
append_nil (x ∷ xs) = ap (λ ys. x ∷ ys) (append_nil xs)

split_first-none :
    (p : ℕ → Bool) (xs ys : List ℕ)
    → none_is p xs ≡ true
    → split_first p (xs ++ ys) ≡ xs ++ split_first p ys
unfolding split_first take_while none_is
split_first-none p [] ys e = refl
split_first-none p (x ∷ xs) ys e = ground (arith, e, split_first-none p xs ys)

split_others-none : (p : ℕ → Bool) (xs : List ℕ) → none_is p xs ≡ true → split_others p xs ≡ []
unfolding split_others none_is
split_others-none p [] e = refl
split_others-none p (x ∷ xs) e = ground (arith, e, split_others-none p xs)

split_first-cut :
    (p : ℕ → Bool) (xs : List ℕ) (b : ℕ) (ys : List ℕ)
    → p b ≡ true
    → split_first p (xs ++ (b ∷ ys)) ≡ split_first p xs
unfolding split_first take_while
split_first-cut p [] b ys e = ground (arith, e)
split_first-cut p (x ∷ xs) b ys e = ground (arith, e, split_first-cut p xs b ys e)

any_entry-cut :
    (test : List ℕ → Bool) (p : ℕ → Bool) (xs : List ℕ) (b : ℕ) (ys : List ℕ)
    → p b ≡ true
    → any_entry test (split_others p (xs ++ (b ∷ ys))) ≡ (
        any_entry test (split_others p xs)
        || (test (split_first p ys) || any_entry test (split_others p ys)))
unfolding any_entry split_others
any_entry-cut test p [] b ys e = rw (e) refl
any_entry-cut test p (x ∷ xs) b ys e = elim (Bool-cases (p x)) [
  | inl cut ↦
      rw (cut, split_first-cut p xs b ys e, any_entry-cut test p xs b ys e)
        (sym (
          or_assoc (test (split_first p xs)) (any_entry test (split_others p xs))
            (test (split_first p ys) || any_entry test (split_others p ys))))
  | inr kept ↦ rw (kept) (any_entry-cut test p xs b ys e)
]

nothing_present : (o : ℕ) (other : List ℕ) → already_present [] (o ∷ other) ≡ false
unfolding already_present split_first take_while split_others any_entry
nothing_present o other = ground arith

override_capacity-some :
    (existing : Option (List ℕ)) (n : ℕ)
    → length (value_of existing) + n + 6 ≤ u64_max
    → (capacity : ℕ) × (override_capacity (length_of existing) n ≡ some capacity)
unfolding override_capacity
override_capacity-some none n fits = (0 + n + 5, ground arith)
override_capacity-some (some value) n fits = (length value + 1 + n + 5, ground arith)

length-fill :
    (existing : Option (List ℕ)) (dll : List ℕ)
    → length (fill_override existing dll) ≤ length (value_of existing) + length dll + 5
unfolding fill_override
length-fill existing dll =
    let entry = length-append dll native_first in
    let all = length-append (value_of existing) (0x3b ∷ (dll ++ native_first)) in
    ground (arith, entry, all)

-- A name that can stand in an entry.
unfoldable pub is_plain : List ℕ → Bool
is_plain dll = none_is is_semicolon dll && none_is is_equals dll

module _ (dll : List ℕ) (plain : is_plain dll ≡ true) where
  is_for-entry : is_for dll (split_first is_semicolon (dll ++ native_first)) ≡ true
  unfolding is_plain split_first take_while
  is_for-entry =
      let (no_semicolon, no_equals) =
        both_true (none_is is_semicolon dll) (none_is is_equals dll) plain in
      let entry : split_first is_semicolon (dll ++ native_first) ≡ dll ++ native_first =
        split_first-none is_semicolon dll native_first no_semicolon in
      let name : split_first is_equals (dll ++ native_first) ≡ dll =
        split_first-none is_equals dll native_first no_equals ∙ append_nil dll in
      ap (is_for dll) entry ∙ ap (λ xs. bytes_eq xs dll) name ∙ bytes_eq_refl dll

  fill-present :
      (existing : Option (List ℕ)) → already_present (fill_override existing dll) dll ≡ true
  unfolding already_present fill_override
  fill-present existing = elim (Bool-cases (length (value_of existing) == 0)) [
    | inl empty ↦ rw (empty, is_for-entry) (ground arith)
    | inr filled ↦
        let cut =
          any_entry-cut (is_for dll) is_semicolon (value_of existing) 0x3b (dll ++ native_first)
            refl in
        rw (filled, cut, is_for-entry) (ground arith)
  ]

  fill-keeps :
      (existing : Option (List ℕ)) (other : List ℕ)
      → is_present existing other ≡ true
      → already_present (fill_override existing dll) other ≡ true
  unfolding already_present fill_override
  fill-keeps none other e = absurd (ground (arith, e))
  fill-keeps (some []) [] e = refl
  fill-keeps (some []) (o ∷ other) e = absurd (ground (arith, e, nothing_present o other))
  fill-keeps (some (x ∷ xs)) other e =
      let value = x ∷ xs in
      let filled : (length value == 0) ≡ false = ground arith in
      let rest = dll ++ native_first in
      let first = split_first-cut is_semicolon value 0x3b rest refl in
      let cut = any_entry-cut (is_for other) is_semicolon value 0x3b rest refl in
      let named = (length other == 0) || is_for other (split_first is_semicolon value) in
      rw (filled, first, cut)
        (or_more named (any_entry (is_for other) (split_others is_semicolon value)) _ e)

  added-present :
      (existing : Option (List ℕ))
      → length (value_of existing) + length dll + 6 ≤ u64_max
      → (is_present (add_override true dll existing) dll ≡ true)
        × ((other : List ℕ)
            → is_present existing other ≡ true
            → is_present (add_override true dll existing) other ≡ true)
        × (length (value_of (add_override true dll existing))
            ≤ length (value_of existing) + length dll + 5)
  unfolding add_override
  added-present existing fits = elim (Bool-cases (is_present existing dll)) [
    | inl there ↦ rw (add_override, there) (there, λ other e. e, omega arith)
    | inr missing ↦
        let (capacity, enough) =
          override_capacity-some existing (length dll) (omega (arith, fits)) in
        rw (add_override, missing, enough)
          (fill-present existing, fill-keeps existing, length-fill existing dll)
  ]

-- The names of a list, and the room that their entries take.
unfoldable pub all_plain : List (List ℕ) → Bool
all_plain [] = true
all_plain (dll ∷ dlls) = is_plain dll && all_plain dlls

unfoldable pub room : List (List ℕ) → ℕ
room [] = 0
room (dll ∷ dlls) = length dll + 6 + room dlls

add_overrides-keeps :
    (dlls : List (List ℕ)) (existing : Option (List ℕ)) (other : List ℕ)
    → all_plain dlls ≡ true
    → length (value_of existing) + room dlls ≤ u64_max
    → is_present existing other ≡ true
    → is_present (add_overrides true dlls existing) other ≡ true
unfolding add_overrides all_plain room
add_overrides-keeps [] existing other plain fits here = here
add_overrides-keeps (dll ∷ dlls) existing other plain fits here =
    let (this, others) = both_true (is_plain dll) (all_plain dlls) plain in
    let (added, keeps, bound) = added-present dll this existing (omega (arith, fits)) in
    add_overrides-keeps dlls (add_override true dll existing) other others
      (omega (arith, fits, bound)) (keeps other here)

any_added :
    (dlls : List (List ℕ)) (existing : Option (List ℕ)) (dll : List ℕ)
    → all_plain dlls ≡ true
    → length (value_of existing) + room dlls ≤ u64_max
    → any_entry (bytes_eq dll) dlls ≡ true
    → is_present (add_overrides true dlls existing) dll ≡ true
unfolding add_overrides all_plain room any_entry
any_added [] existing dll plain fits listed = absurd (ground (arith, listed))
any_added (first ∷ dlls) existing dll plain fits listed =
    let (this, others) = both_true (is_plain first) (all_plain dlls) plain in
    let (added, keeps, bound) = added-present first this existing (omega (arith, fits)) in
    elim (Bool-cases (bytes_eq dll first)) [
      | inl here ↦
          let same : dll ≡ first = bytes_eq_sound dll first here in
          add_overrides-keeps dlls (add_override true first existing) dll others
            (omega (arith, fits, bound)) (rw (same) added)
      | inr later ↦
          any_added dlls (add_override true first existing) dll others (omega (arith, fits, bound))
            (rw (later) at listed)
    ]

overrides_plain : all_plain overrides ≡ true
unfolding all_plain is_plain none_is
overrides_plain = refl

overrides-room : room overrides ≡ 191
unfolding room
overrides-room = refl

either_present :
    (existing : Option (List ℕ)) (dll : List ℕ)
    → length (value_of existing) + room overrides ≤ u64_max
    → (any_entry (bytes_eq dll) overrides || is_present existing dll) ≡ true
    → is_present (add_overrides true overrides existing) dll ≡ true
either_present existing dll fits either = elim (Bool-cases (any_entry (bytes_eq dll) overrides)) [
  | inl listed ↦ any_added overrides existing dll overrides_plain fits listed
  | inr other ↦
      add_overrides-keeps overrides existing dll overrides_plain fits (rw (other) at either)
]

-- After the set-up of a process that its arguments show to be the game, where `malloc` gives memory and
-- the value of WINEDLLOVERRIDES leaves 191 bytes of the address space, each DLL that is to be
-- overridden has an entry in the value, and so has each that had one before.
pub setup_overrides-is_present :
    (argv : List (Option (List ℕ))) (existing : Option (List ℕ)) (dll : List ℕ)
    → is_some (game_executable_argument argv) ≡ true
    → length (value_of existing) + 191 ≤ u64_max
    → (any_entry (bytes_eq dll) overrides || is_present existing dll) ≡ true
    → is_present (setup_overrides true argv existing) dll ≡ true
unfolding setup_overrides
setup_overrides-is_present argv existing dll game fits either =
    rw (setup_overrides, game)
      (either_present existing dll (omega (arith, fits, overrides-room)) either)
