-- ===== src/Session/Ancestry.antt =====
-- The walk over the parents finds Gamescope exactly among the ancestors that it is to look at.
use linuwux_runtime.Base.{
  ℕ, zero, suc, ◌<◌, ◌≡◌, ◌≢◌, ◌↔◌, refl, ap, ◌∙◌, subst, true, Bool-cases, inl, inr, arith,
}
use linuwux_runtime.Session.{
  Processes, process_is_gamescope, ancestor_within, has_gamescope_ancestor, ancestry_limit,
}
use linuwux_runtime.Session.Proc.{Tree, Describes, Gamescope, process_is_gamescope_iff}
use linuwux_runtime.Session.Parents.{next_process-Describes}

-- The ancestor so many generations up; 0 above a process without a parent.
abbrev pub ancestor : Tree → ℕ → ℕ → ℕ
ancestor t zero pid = pid
ancestor t (suc k) pid = ancestor t k (t.parent pid)

module _ (ps : Processes) (t : Tree) where
  no_ancestor : (k : ℕ) → Describes ps t → ancestor t k 0 ≡ 0
  no_ancestor zero shown = refl
  no_ancestor (suc k) shown = ap (λ (p : ℕ). ancestor t k p) shown.none_above ∙ no_ancestor k shown

  -- The process so many generations up is Gamescope.
  abbrev Found : ℕ → ℕ → Type 0
  Found k pid = (ancestor t k pid ≢ 0) × Gamescope t (ancestor t k pid)

  within_sound :
      (n pid : ℕ)
      → Describes ps t
      → pid ≢ 0
      → ancestor_within n ps pid ≡ true
      → (k : ℕ) × (k < n) × Found k pid
  unfolding ancestor_within
  within_sound zero pid shown live e = cc
  within_sound (suc n) pid shown live e = elim (Bool-cases (process_is_gamescope ps pid)) [
    | inl here ↦ (0, omega arith, (live, (process_is_gamescope_iff ps t pid shown).0 here))
    | inr elsewhere ↦ elim (next_process-Describes ps t pid shown) [
      | inr (last, _) ↦ absurd (ground (arith, e, elsewhere, last))
      | inl (next, child) ↦
          let goes_on : ancestor_within n ps (t.parent pid) ≡ true =
            ground (arith, e, elsewhere, next) in
          let (k, lt, found) = within_sound n (t.parent pid) shown child goes_on in
          (suc k, omega arith, found)
    ]
  ]

  within_complete :
      (n pid k : ℕ)
      → Describes ps t
      → pid ≢ 0
      → k < n
      → Found k pid
      → ancestor_within n ps pid ≡ true
  unfolding ancestor_within
  within_complete zero pid k shown live lt found = absurd (omega arith)
  within_complete (suc n) pid zero shown live lt (_, is) =
      let here : process_is_gamescope ps pid ≡ true =
        (process_is_gamescope_iff ps t pid shown).1 is in
      ground (arith, here)
  within_complete (suc n) pid (suc k) shown live lt (there, is) =
      elim (next_process-Describes ps t pid shown) [
        | inl (next, child) ↦
            let rest : ancestor_within n ps (t.parent pid) ≡ true =
              within_complete n (t.parent pid) k shown child (omega arith) (there, is) in
            ground (arith, next, rest)
        | inr (last, inl top) ↦
            absurd (there (ap (λ (p : ℕ). ancestor t k p) top ∙ no_ancestor k shown))
        | inr (last, inr own) ↦
            within_complete (suc n) pid k shown live (omega arith)
              (subst (λ (p : ℕ). Found k p) own (there, is))
      ]

-- Where /proc shows a tree of processes in its documented form, the walk finds Gamescope exactly if the
-- process itself or one of its nearest 63 ancestors in the tree runs an executable of this name; no process
-- has id 0, process 1 has no parent, and links are shorter than PATH_MAX.
pub has_gamescope_ancestor_iff :
    (ps : Processes) (t : Tree) (pid : ℕ)
    → Describes ps t
    → pid ≢ 0
    → (has_gamescope_ancestor ps pid ≡ true)
      ↔ ((k : ℕ) × (k < 64) × ((ancestor t k pid ≢ 0) × Gamescope t (ancestor t k pid)))
unfolding has_gamescope_ancestor
has_gamescope_ancestor_iff ps t pid shown live = (
  within_sound ps t ancestry_limit pid shown live,
  λ (k, lt, found). within_complete ps t ancestry_limit pid k shown live lt found,
)
