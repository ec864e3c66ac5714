-- ===== src/Session/Parents.antt =====
-- The parent that the status of a process shows is the one that the walk reads.
use linuwux_runtime.Base.{
  ℕ, ◌+◌, ◌-◌, ◌*◌, ◌≤◌, ◌≡◌, ◌≢◌, ◌⊎◌, refl, ap, ◌∙◌, true, false, ◌&&◌, ◌||◌, Option, none, some,
  List, [], ◌∷◌, ◌++◌, ◌==◌, leb, length, take, bytes_eq, Bool-cases, inl, inr, arith,
}
use linuwux_runtime.Text.Bytes.{is_ascii_digit, take_while, drop_while, split_first}
use linuwux_runtime.Text.Gamescope.{
  parent_process_id, strip_prefix, ppid, signed_value, first_is, parse_digits, i32_max,
}
use linuwux_runtime.Session.{Processes, parent_in, parent_of, next_process, has_bad_parent, is_zero}
use linuwux_runtime.Session.Proc.{
  Tree, lacks, all_digits, decimal, parent_line, Others, Shows, Describes, lacks-append,
  split_first-lacks,
}

decimal_bound : (ds : List ℕ) (value : ℕ) → value ≤ decimal ds value
decimal_bound [] value = omega arith
decimal_bound (b ∷ bs) value = omega (arith, decimal_bound bs (value * 10 + (b - 0x30)))

parse_digits-decimal :
    (ds : List ℕ) (value : ℕ)
    → decimal ds value ≤ i32_max
    → parse_digits ds value ≡ some (decimal ds value)
unfolding parse_digits
parse_digits-decimal [] value le = refl
parse_digits-decimal (b ∷ bs) value le =
    let bound = decimal_bound bs (value * 10 + (b - 0x30)) in
    let rest = parse_digits-decimal bs (value * 10 + (b - 0x30)) le in ground (arith, bound, rest)

take_while-digits :
    (ds : List ℕ) → all_digits ds ≡ true → take_while is_ascii_digit (ds ++ 10 ∷ []) ≡ ds
unfolding take_while
take_while-digits [] all = refl
take_while-digits (b ∷ bs) all = ground (arith, take_while-digits bs)

digits_clean : (ds : List ℕ) → all_digits ds ≡ true → lacks 0 ds ≡ true
digits_clean [] all = refl
digits_clean (b ∷ bs) all = ground (arith, digits_clean bs)

signed_value-decimal :
    (d : ℕ) (ds : List ℕ)
    → all_digits (d ∷ ds) ≡ true
    → decimal (d ∷ ds) 0 ≤ i32_max
    → signed_value ((d ∷ ds) ++ 10 ∷ []) ≡ some (decimal (d ∷ ds) 0)
unfolding signed_value first_is
signed_value-decimal d ds all le =
    let digit : is_ascii_digit d ≡ true = ground (arith, all) in
    let no_minus : first_is ((d ∷ ds) ++ 10 ∷ []) 0x2d ≡ false = ground (arith, digit) in
    let no_plus : first_is ((d ∷ ds) ++ 10 ∷ []) 0x2b ≡ false = ground (arith, digit) in
    let some_digits : (length (d ∷ ds) == 0) ≡ false = ground arith in
    rw
      (
        signed_value,
        no_minus,
        no_plus,
        take_while-digits (d ∷ ds) all,
        some_digits,
        parse_digits-decimal (d ∷ ds) 0 le,
      )
      (ground (arith, no_minus))

-- The bytes behind the tab are a digit's.
drop_while-blank :
    (d : ℕ) (rest : List ℕ)
    → is_ascii_digit d ≡ true
    → drop_while (λ b. (b == 0x20) || (leb 9 b && leb b 13)) (9 ∷ d ∷ rest) ≡ d ∷ rest
unfolding drop_while
drop_while-blank d rest digit = ground arith

parent_line-read :
    (d : ℕ) (ds : List ℕ)
    → all_digits (d ∷ ds) ≡ true
    → decimal (d ∷ ds) 0 ≤ i32_max
    → parent_process_id (split_first is_zero (parent_line (d ∷ ds))) ≡ some (decimal (d ∷ ds) 0)
unfolding parent_process_id strip_prefix
parent_line-read d ds all le =
    let clean : lacks 0 (parent_line (d ∷ ds)) ≡ true =
      ground (arith, lacks-append 0 (d ∷ ds) (10 ∷ []), digits_clean (d ∷ ds) all) in
    let digit : is_ascii_digit d ≡ true = ground (arith, all) in
    rw (split_first-lacks (parent_line (d ∷ ds)) clean, parent_process_id, strip_prefix)
      (rw (drop_while-blank d (ds ++ 10 ∷ []) digit) (signed_value-decimal d ds all le))

strip_prefix-other :
    (prefix line : List ℕ)
    → bytes_eq (take (length prefix) line) prefix ≡ false
    → strip_prefix prefix line ≡ none
unfolding strip_prefix
strip_prefix-other [] line other = cc
strip_prefix-other (p ∷ ps) [] other = refl
strip_prefix-other (p ∷ ps) (b ∷ bs) other = ground (arith, strip_prefix-other ps bs)

other_line :
    (line : List ℕ)
    → lacks 0 line ≡ true
    → bytes_eq (take 5 line) ppid ≡ false
    → (parent_process_id (split_first is_zero line) ≡ none)
      × (has_bad_parent (split_first is_zero line) ≡ false)
unfolding parent_process_id has_bad_parent
other_line line clean other =
    let whole = split_first-lacks line clean in
    let stripped = strip_prefix-other ppid line other in
    (rw (whole, parent_process_id, stripped) refl, rw (whole, has_bad_parent, stripped) refl)

parent_in-read :
    (before after : List (List ℕ)) (d : ℕ) (ds : List ℕ)
    → Others before
    → all_digits (d ∷ ds) ≡ true
    → decimal (d ∷ ds) 0 ≤ i32_max
    → parent_in (before ++ parent_line (d ∷ ds) ∷ after) ≡ some (decimal (d ∷ ds) 0)
unfolding parent_in
parent_in-read [] after d ds others all le = rw (parent_in, parent_line-read d ds all le) refl
parent_in-read (line ∷ lines) after d ds (clean, other, others) all le =
    let (unread, fine) = other_line line clean other in
    rw (parent_in, unread, fine) (parent_in-read lines after d ds others all le)

-- The parent is read, or there is none.
parent_of-Shows :
    (ps : Processes) (pid parent : ℕ) (status : Option (List (List ℕ)))
    → ps.status pid ≡ status
    → Shows parent status
    → parent ≤ i32_max
    → (parent_of ps pid ≡ some parent) ⊎ ((parent_of ps pid ≡ none) × (parent ≡ 0))
unfolding parent_of
parent_of-Shows ps pid parent none e shown le = inr (rw (parent_of, e) refl, shown)
parent_of-Shows ps pid parent (some lines) e (before, after, d, ds, spelt, others, all, is) le =
    let small : decimal (d ∷ ds) 0 ≤ i32_max = omega arith in
    let found = parent_in-read before after d ds others all small in
    inl (rw (parent_of, e, spelt) (found ∙ ap (λ (n : ℕ). some n) is))

-- The walk goes on to the parent, or ends at a process that has none or is its own.
pub next_process-Describes :
    (ps : Processes) (t : Tree) (pid : ℕ)
    → Describes ps t
    → (((next_process ps pid ≡ some (t.parent pid)) × (t.parent pid ≢ 0))
        ⊎ ((next_process ps pid ≡ none) × ((t.parent pid ≡ 0) ⊎ (t.parent pid ≡ pid))))
unfolding next_process
next_process-Describes ps t pid shown =
    let first = shown.first in
    elim (parent_of-Shows ps pid (t.parent pid) (ps.status pid) refl (shown.statuses pid)
      (shown.ids pid)) [
        | inl read ↦ elim (Bool-cases (pid == 1)) [
          | inl one ↦
              let is_one : pid ≡ 1 = ground (arith, one) in
              inr (rw (next_process, one) refl, inl (ap (λ (p : ℕ). t.parent p) is_one ∙ first))
          | inr other ↦ elim (Bool-cases (t.parent pid == 0)) [
            | inl top ↦ inr (rw (next_process, other, read, top) refl, inl (ground (arith, top)))
            | inr child ↦ elim (Bool-cases (t.parent pid == pid)) [
              | inl own ↦
                  inr (rw (next_process, other, read, child, own) refl, inr (ground (arith, own)))
              | inr up ↦
                  inl
                    (rw (next_process, other, read, child, up) refl, λ e. ground (arith, child, e))
            ]
          ]
        ]
        | inr (unread, top) ↦ inr (ground (arith, unread), inl top)
      ]
