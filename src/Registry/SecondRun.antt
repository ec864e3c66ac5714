-- ===== src/Registry/SecondRun.antt =====
-- A section that was appended whole is found again, wherever the window and the scan stood before it.
use linuwux_runtime.Base.{
  ℕ, suc, ◌+◌, ◌≤◌, ◌<◌, ◌≡◌, refl, sym, ap, subst, ◌∙◌, Bool, true, false, List, [], ◌∷◌, ◌++◌,
  length, take, bytes_eq_refl, length-append, append_assoc, arith, ◌==◌, inl, inr, Bool-cases,
}
use linuwux_runtime.Registry.{
  contains_bytes, slide, scan, registry_already_present, profile_marker, guid_marker,
}
use linuwux_runtime.Registry.Append.{section_head, section_middle, section_tail, registry_section}

append_nil : (xs : List ℕ) → xs ++ [] ≡ xs
append_nil [] = refl
append_nil (x ∷ xs) = ap (λ s. x ∷ s) (append_nil xs)

take_whole : (xs : List ℕ) → take (length xs) xs ≡ xs
take_whole [] = refl
take_whole (x ∷ xs) = ap (λ s. x ∷ s) (take_whole xs)

contains_bytes-append :
    (xs : List ℕ) (n : ℕ) (ns : List ℕ) → contains_bytes (xs ++ n ∷ ns) (n ∷ ns) ≡ true
unfolding contains_bytes
contains_bytes-append [] n ns = rw (take_whole ns, bytes_eq_refl (n ∷ ns)) refl
contains_bytes-append (x ∷ xs) n ns = ground (arith, contains_bytes-append xs n ns)

-- The window ends with these bytes and is no longer than its array.
abbrev EndsWith : List ℕ → List ℕ → Type 0
EndsWith window end = (length window ≤ 64) × ((p : List ℕ) × (window ≡ p ++ end))

slide-length : (w : List ℕ) (b : ℕ) → length w ≤ 64 → length (slide w b) ≤ 64
unfolding slide
slide-length [] b le = omega arith
slide-length (x ∷ w) b le = ground (arith, length-append w (b ∷ []), length-append (x ∷ w) (b ∷ []))

slide-split :
    (p end : List ℕ) (b : ℕ)
    → length end < 64
    → (q : List ℕ) × (slide (p ++ end) b ≡ q ++ (end ++ b ∷ []))
unfolding slide
slide-split [] end b lt =
    let partial : (length end == 64) ≡ false = ground arith in ([], rw (partial) refl)
slide-split (x ∷ p) end b lt = elim (Bool-cases (length (x ∷ (p ++ end)) == 64)) [
  | inl full ↦ (p, rw (slide, full) (append_assoc p end (b ∷ [])))
  | inr free ↦ (x ∷ p, rw (slide, free) (append_assoc (x ∷ p) end (b ∷ [])))
]

slide-EndsWith :
    (w end : List ℕ) (b : ℕ)
    → length end < 64
    → EndsWith w end
    → EndsWith (slide w b) (end ++ b ∷ [])
slide-EndsWith w end b lt (le, (p, e)) = (
  slide-length w b le,
  (let (q, split) = slide-split p end b lt in (q, ap (λ v. slide v b) e ∙ split)),
)

-- From every window, the scan of these bytes finds the section's name.
abbrev Finds : List ℕ → Bool → Type 0
Finds file in_profile = (w : List ℕ) → length w ≤ 64 → scan file w in_profile ≡ true

either_true :
    (c a b : Bool)
    → (c ≡ true → a ≡ true)
    → (c ≡ false → b ≡ true)
    → (elim c [ true ↦ a | false ↦ b ]) ≡ true
either_true true a b then_a else_b = then_a refl
either_true false a b then_a else_b = else_b refl

-- A window that ends with the needle contains it.
EndsWith-contains_bytes :
    (w needle : List ℕ) (n : ℕ) (ns : List ℕ)
    → needle ≡ n ∷ ns
    → EndsWith w needle
    → contains_bytes w needle ≡ true
EndsWith-contains_bytes w needle n ns spelt (le, (p, e)) =
    rw (e, spelt) (contains_bytes-append p n ns)

-- While bytes of the needle are still to come, less of it than the window holds has passed.
passed_short :
    (x : ℕ) (xs end needle : List ℕ) → end ++ x ∷ xs ≡ needle → length needle ≤ 64 → length end < 64
passed_short x xs end needle spelt short =
    let size : length end + suc (length xs) ≡ length needle =
      sym (length-append end (x ∷ xs)) ∙ ap (λ s. length s) spelt in
    omega arith

first_true : (c a b : Bool) → c ≡ true → a ≡ true → (elim c [ true ↦ a | false ↦ b ]) ≡ true
first_true true a b hit then_a = then_a
first_true false a b hit then_a = cc

-- The last byte of the needle fills a window that contains it.
slide-contains_bytes :
    (w end needle : List ℕ) (x n : ℕ) (ns : List ℕ)
    → needle ≡ n ∷ ns
    → end ++ x ∷ [] ≡ needle
    → length needle ≤ 64
    → EndsWith w end
    → contains_bytes (slide w x) needle ≡ true
slide-contains_bytes w end needle x n ns starts spelt short ends =
    let filled = slide-EndsWith w end x (passed_short x [] end needle spelt short) ends in
    EndsWith-contains_bytes (slide w x) needle n ns starts
      (subst (λ s. EndsWith (slide w x) s) spelt filled)

Finds-behind_true : (xs rest : List ℕ) → Finds rest true → Finds (xs ++ rest) true
unfolding scan
Finds-behind_true [] rest found = found
Finds-behind_true (x ∷ xs) rest found = λ w le.
    (either_true (contains_bytes (slide w x) guid_marker) true (scan (xs ++ rest) (slide w x) true)
      (λ _. refl) (λ _. Finds-behind_true xs rest found (slide w x) (slide-length w x le)))

Finds-behind_false :
    (xs rest : List ℕ) → Finds rest true → Finds rest false → Finds (xs ++ rest) false
unfolding scan
Finds-behind_false [] rest inside found = found
Finds-behind_false (x ∷ xs) rest inside found = λ w le.
    (either_true (contains_bytes (slide w x) profile_marker) (scan (xs ++ rest) [] true)
      (scan (xs ++ rest) (slide w x) false) (λ _. Finds-behind_true xs rest inside [] (omega arith))
      (λ _. Finds-behind_false xs rest inside found (slide w x) (slide-length w x le)))

guid_completes :
    (x : ℕ) (xs end rest w : List ℕ)
    → end ++ x ∷ xs ≡ guid_marker
    → EndsWith w end
    → scan ((x ∷ xs) ++ rest) w true ≡ true
unfolding scan
guid_completes x [] end rest w spelt ends =
    first_true (contains_bytes (slide w x) guid_marker) true (scan rest (slide w x) true)
      (slide-contains_bytes w end guid_marker x _ _ refl spelt (omega arith) ends) refl
guid_completes x (y ∷ ys) end rest w spelt ends =
    let filled =
      slide-EndsWith w end x (passed_short x (y ∷ ys) end guid_marker spelt (omega arith)) ends in
    either_true (contains_bytes (slide w x) guid_marker) true
      (scan ((y ∷ ys) ++ rest) (slide w x) true) (λ _. refl)
      (λ _.
        guid_completes y ys (end ++ x ∷ []) rest (slide w x)
          (append_assoc end (x ∷ []) (y ∷ ys) ∙ spelt) filled)

marker_completes :
    (x : ℕ) (xs end rest w : List ℕ)
    → Finds rest true
    → end ++ x ∷ xs ≡ profile_marker
    → EndsWith w end
    → scan ((x ∷ xs) ++ rest) w false ≡ true
unfolding scan
marker_completes x [] end rest w inside spelt ends =
    first_true (contains_bytes (slide w x) profile_marker) (scan rest [] true)
      (scan rest (slide w x) false)
      (slide-contains_bytes w end profile_marker x _ _ refl spelt (omega arith) ends)
      (inside [] (omega arith))
marker_completes x (y ∷ ys) end rest w inside spelt ends =
    let filled =
      slide-EndsWith w end x (passed_short x (y ∷ ys) end profile_marker spelt (omega arith))
        ends in
    either_true (contains_bytes (slide w x) profile_marker) (scan ((y ∷ ys) ++ rest) [] true)
      (scan ((y ∷ ys) ++ rest) (slide w x) false)
      (λ _. Finds-behind_true (y ∷ ys) rest inside [] (omega arith))
      (λ _.
        marker_completes y ys (end ++ x ∷ []) rest (slide w x) inside
          (append_assoc end (x ∷ []) (y ∷ ys) ∙ spelt) filled)

-- Every window ends with no bytes at all.
trivial_end : (w : List ℕ) → length w ≤ 64 → EndsWith w []
trivial_end w le = (le, (w, sym (append_nil w)))

pub registry_already_present-append :
    (file : List ℕ) → registry_already_present (file ++ registry_section) ≡ true
unfolding registry_already_present
registry_already_present-append file =
    let tail : Finds (guid_marker ++ section_tail) true =
      λ w le. guid_completes _ _ [] section_tail w refl (trivial_end w le) in
    let behind : Finds (section_middle ++ (guid_marker ++ section_tail)) true =
      Finds-behind_true section_middle (guid_marker ++ section_tail) tail in
    let rest = section_middle ++ (guid_marker ++ section_tail) in
    let inside = Finds-behind_true profile_marker rest behind in
    let outside : Finds (profile_marker ++ rest) false =
      λ w le. marker_completes _ _ [] rest w behind refl (trivial_end w le) in
    let marked = profile_marker ++ rest in
    Finds-behind_false file registry_section (Finds-behind_true section_head marked inside)
      (Finds-behind_false section_head marked inside outside) [] (omega arith)
