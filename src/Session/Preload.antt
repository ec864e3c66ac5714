-- ===== src/Session/Preload.antt =====
-- The runtime stays in LD_PRELOAD.
use linuwux_runtime.Base.{
  ℕ, ◌≡◌, ◌≢◌, ◌⊎◌, inl, inr, refl, sym, ap, subst, ◌∙◌, Bool, true, false, not, ◌&&◌, ◌||◌, some,
  List, [], ◌∷◌, ◌++◌, ◌==◌, length, bytes_eq, bytes_eq_refl, bytes_eq_sound, arith, Bool-cases,
  Option-cases,
}
use linuwux_runtime.Text.Bytes.{take_while, split_first, split_others}
use linuwux_runtime.Text.Gamescope.{any_is, preload_has_path, preserved_length}
use linuwux_runtime.Session.{
  ld_preload, fill_preserved, RealEnvironment, Preloading, is_set, set_preserved, setenv, unsetenv,
}

-- No byte of the path separates entries.
abbrev pub Whole : (ℕ → Bool) → List ℕ → Type 0
Whole separates [] = Unit {0}
Whole separates (b ∷ bs) = (separates b ≡ false) × Whole separates bs

split_first-Whole :
    (separates : ℕ → Bool) (path : List ℕ)
    → Whole separates path
    → split_first separates path ≡ path
unfolding split_first take_while
split_first-Whole separates [] whole = refl
split_first-Whole separates (b ∷ bs) whole =
    rw (whole.0) (ap (λ s. b ∷ s) (split_first-Whole separates bs whole.1))

or_true : (a b : Bool) → b ≡ true → (a || b) ≡ true
or_true true b e = refl
or_true false b e = e

split_others-last :
    (separates : ℕ → Bool) (value path : List ℕ) (b : ℕ)
    → separates b ≡ true
    → Whole separates path
    → any_is (split_others separates (value ++ b ∷ path)) path ≡ true
unfolding split_others any_is
split_others-last separates [] path b sep whole =
    rw (sep, split_first-Whole separates path whole, bytes_eq_refl path) refl
split_others-last separates (c ∷ cs) path b sep whole =
    let rest = split_others-last separates cs path b sep whole in
    elim (Bool-cases (separates c)) [
      | inl cut ↦ rw cut (or_true _ _ rest)
      | inr kept ↦ rw (kept) rest
    ]

abbrev separator : (ℕ → Bool) → ℕ → Bool
separator is_space b = (b == 0x3a) || is_space b

-- What is written has the path as an entry.
preload_has_path-fill_preserved :
    (is_space : ℕ → Bool) (value path : List ℕ)
    → path ≢ []
    → Whole (separator is_space) path
    → preload_has_path (fill_preserved value path) path is_space ≡ true
unfolding preload_has_path fill_preserved any_is
preload_has_path-fill_preserved is_space [] [] named whole = absurd (named refl)
preload_has_path-fill_preserved is_space [] (p ∷ ps) named whole =
    rw (split_first-Whole (separator is_space) (p ∷ ps) whole, bytes_eq_refl (p ∷ ps)) refl
preload_has_path-fill_preserved is_space (b ∷ bs) [] named whole = absurd (named refl)
preload_has_path-fill_preserved is_space (b ∷ bs) (p ∷ ps) named whole =
    or_true _ _ (split_others-last (separator is_space) (b ∷ bs) (p ∷ ps) 0x3a refl whole)

-- What is documented of the real functions: a call concerns the variable that it names alone, setenv
-- stores its value or changes nothing, and changes nothing of a variable that is set without the leave to
-- overwrite.
pub record Documented {E : Type 0} (real : RealEnvironment E) : Type 0 where
  pub stores :
      (name value : List ℕ) (overwrite : Bool) (e : E)
      → (real.getenv name (real.setenv name value overwrite e).1 ≡ some value)
        ⊎ (real.getenv name (real.setenv name value overwrite e).1 ≡ real.getenv name e)
  pub keeps :
      (name value : List ℕ) (e : E)
      → is_set (real.getenv name e) ≡ true
      → real.getenv name (real.setenv name value false e).1 ≡ real.getenv name e
  pub set_apart :
      (name other value : List ℕ) (overwrite : Bool) (e : E)
      → bytes_eq name other ≡ false
      → real.getenv other (real.setenv name value overwrite e).1 ≡ real.getenv other e
  pub unset_apart :
      (name other : List ℕ) (e : E)
      → bytes_eq name other ≡ false
      → real.getenv other (real.unsetenv name e).1 ≡ real.getenv other e

pub data Call : Type 0 where
  sets : (name value : List ℕ) (overwrite : Bool) → Call
  unsets : (name : List ℕ) → Call

module _ {E : Type 0} (real : RealEnvironment E) (c : Preloading) where
  unfoldable pub after : List Call → E → E
  after [] e = e
  after (sets name value overwrite ∷ calls) e = after calls (setenv real c name value overwrite e).1
  after (unsets name ∷ calls) e = after calls (unsetenv real c name e).1

  -- LD_PRELOAD is set and has the path as an entry.
  abbrev pub Preloads : List ℕ → E → Type 0
  Preloads path e =
      (value : List ℕ) × (real.getenv ld_preload e ≡ some value)
      × (preload_has_path value path c.is_space ≡ true)

  module _ (path : List ℕ) (documented : Documented real) (named : path ≢ [])
      (whole : Whole (separator c.is_space) path) (enabled : c.enabled ≡ some path) where
    -- A variable that is as before.
    same-Preloads :
        (e e' : E)
        → real.getenv ld_preload e' ≡ real.getenv ld_preload e
        → Preloads path e
        → Preloads path e'
    same-Preloads e e' same (value, is_value, has) = (value, same ∙ is_value, has)

    -- A stored value that has the path.
    stored-Preloads :
        (value : List ℕ) (overwrite : Bool) (e : E)
        → preload_has_path value path c.is_space ≡ true
        → Preloads path e
        → Preloads path (real.setenv ld_preload value overwrite e).1
    stored-Preloads value overwrite e has before =
        elim (documented.stores ld_preload value overwrite e) [
          | inl stored ↦ (value, stored, has)
          | inr same ↦ same-Preloads e (real.setenv ld_preload value overwrite e).1 same before
        ]

    set_preserved-Preloads :
        (value : List ℕ) (overwrite : Bool) (e : E)
        → Preloads path e
        → Preloads path (set_preserved real c path value overwrite e).1
    unfolding set_preserved
    set_preserved-Preloads value overwrite e before =
        elim (Option-cases (preserved_length (length value) (length path))) [
          | inl long ↦ rw (set_preserved, long) before
          | inr (size, fits) ↦ elim (Bool-cases c.mallocs) [
            | inr starved ↦ rw (set_preserved, fits, starved) before
            | inl served ↦
                rw (set_preserved, fits, served)
                  (stored-Preloads (fill_preserved value path) overwrite e
                    (preload_has_path-fill_preserved c.is_space value path named whole) before)
          ]
        ]

    own_setenv-Preloads :
        (value : List ℕ) (overwrite : Bool) (e : E)
        → Preloads path e
        → Preloads path (setenv real c ld_preload value overwrite e).1
    unfolding setenv
    own_setenv-Preloads value overwrite e before =
        elim (Bool-cases (preload_has_path value path c.is_space)) [
          | inl has ↦ rw (setenv, enabled, has) (stored-Preloads value overwrite e has before)
          | inr lacks ↦ elim (Bool-cases (not overwrite && is_set (real.getenv ld_preload e))) [
            | inr written ↦
                rw (setenv, enabled, lacks, written)
                  (set_preserved-Preloads value overwrite e before)
            | inl untouched ↦
                let weak : overwrite ≡ false = ground (arith, untouched) in
                let set : is_set (real.getenv ld_preload e) ≡ true = ground (arith, untouched) in
                rw (setenv, enabled, lacks, untouched)
                  (same-Preloads e (real.setenv ld_preload value overwrite e).1
                    (subst
                      (λ o.
                        real.getenv ld_preload (real.setenv ld_preload value o e).1
                        ≡ real.getenv ld_preload e)
                      (sym weak) (documented.keeps ld_preload value e set))
                    before)
          ]
        ]

    setenv-Preloads :
        (name value : List ℕ) (overwrite : Bool) (e : E)
        → Preloads path e
        → Preloads path (setenv real c name value overwrite e).1
    unfolding setenv
    setenv-Preloads name value overwrite e before = elim (Bool-cases (bytes_eq name ld_preload)) [
      | inr other ↦
          rw (setenv, enabled, other)
            (same-Preloads e (real.setenv name value overwrite e).1
              (documented.set_apart name ld_preload value overwrite e other) before)
      | inl own ↦
          subst (λ n. Preloads path (setenv real c n value overwrite e).1)
            (sym (bytes_eq_sound name ld_preload own))
            (own_setenv-Preloads value overwrite e before)
    ]

    preload_itself : preload_has_path path path c.is_space ≡ true
    unfolding fill_preserved
    preload_itself = preload_has_path-fill_preserved c.is_space [] path named whole

    own_unsetenv-Preloads :
        (e : E) → Preloads path e → Preloads path (unsetenv real c ld_preload e).1
    unfolding unsetenv
    own_unsetenv-Preloads e before =
        rw (unsetenv, enabled) (stored-Preloads path true e preload_itself before)

    unsetenv-Preloads :
        (name : List ℕ) (e : E) → Preloads path e → Preloads path (unsetenv real c name e).1
    unfolding unsetenv
    unsetenv-Preloads name e before = elim (Bool-cases (bytes_eq name ld_preload)) [
      | inr other ↦
          rw (unsetenv, enabled, other)
            (same-Preloads e (real.unsetenv name e).1
              (documented.unset_apart name ld_preload e other) before)
      | inl own ↦
          subst (λ n. Preloads path (unsetenv real c n e).1)
            (sym (bytes_eq_sound name ld_preload own)) (own_unsetenv-Preloads e before)
    ]

    -- While the interposition is enabled with a path that is not empty and has no byte that separates
    -- entries, and if LD_PRELOAD has the path at first, then it has it after any calls of setenv and
    -- unsetenv, those that fail included.
    pub after-Preloads :
        (calls : List Call) (e : E) → Preloads path e → Preloads path (after calls e)
    unfolding after
    after-Preloads [] e before = before
    after-Preloads (sets name value overwrite ∷ calls) e before =
        after-Preloads calls (setenv real c name value overwrite e).1
          (setenv-Preloads name value overwrite e before)
    after-Preloads (unsets name ∷ calls) e before =
        after-Preloads calls (unsetenv real c name e).1 (unsetenv-Preloads name e before)
