-- ===== src/Hooks/Guard/DoubleFree.antt =====
-- A second free by win32u does not reach the real `free`.
use linuwux_runtime.Base.{
  ℕ, ◌≤◌, ◌<◌, ◌≡◌, ◌≢◌, refl, sym, ap, ◌∙◌, subst, Bool, true, false, not, ◌&&◌, Option, none,
  some, List, arith, ◌==◌, if◌then◌else◌, Bool-cases, inl, inr,
}
use linuwux_runtime.PendingFrees.{History, mark, capacity}
use linuwux_runtime.PendingFrees.Reference.{Reference}
use linuwux_runtime.PendingFrees.Refinement.{Simulated, simulated, matches, call-Matches}
use linuwux_runtime.PendingFrees.Remembered.{Remembers, weaker_memory, first-Remembers, again-seen}
use linuwux_runtime.Hooks.Bootstrap.{is_bootstrap_ptr, Resolver}
use linuwux_runtime.Hooks.Guard.{
  Win32u, within, Setting, Allocator, note_of, note_free, release, free_inner,
}
use linuwux_runtime.Hooks.Guard.Kept.{
  Event, after, free_count, Spares, Watching, known-caller, resolve-free, Kept, with_history,
  after-Kept,
}

-- A call of win32u that the range check recognises.
abbrev pub CalledBy : Win32u → ℕ → Type 0
CalledBy window caller = (not (caller == 0) && within window caller) ≡ true

-- A free by win32u, of memory that is not of the pool, is decided by the history.
free_inner-note :
    (c : Setting) (s : Allocator) (a caller : ℕ)
    → Watching c s
    → a ≢ 0
    → is_bootstrap_ptr c.pool a ≡ false
    → CalledBy s.win32u caller
    → free_inner c 0 a caller s ≡ note_of a s true s.win32u
unfolding free_inner release note_free
free_inner-note c s a caller w live own from_win32u =
    let named : (a == 0) ≡ false = ground arith in
    rw (free_inner, own)
      (ap (λ (p : Option ℕ × Resolver). release c a caller s p.0 p.1) (resolve-free c s w)
        ∙ rw (note_free, w.guard, w.game, named)
            (ap (λ (p : Bool × Win32u). note_of a s p.0 p.1) (known-caller c s w caller)
              ∙ rw (from_win32u) refl))

Simulated-cursor : (h : History) (r : Reference) → Simulated h r → r.next_index < capacity
Simulated-cursor h r (simulated chains inv same) = omega (arith, inv.cursor, same.cursor)

module _ (c : Setting) (s : Allocator) (r : Reference) (a : ℕ) (watching : Watching c s)
    (live : a ≢ 0) where
  first_free :
      (s₁ : Allocator)
      → Simulated s.history r
      → note_of a s true s.win32u ≡ some (some a, s₁)
      → Kept c s.win32u a 1023 s₁
  unfolding note_of
  first_free s₁ history passed = elim (call-Matches s.history r (mark a) history) [
    | matches seen h' r' e e' simulated' ↦
        let noted : note_of a s true s.win32u
            ≡ some (if seen then none else some a, record s { history = h' }) =
          rw (note_of, e) refl in
        elim (Bool-cases seen) [
          | inl old ↦ absurd (ground (arith, passed, noted, old))
          | inr new ↦
              let same : record s { history = h' } ≡ s₁ = ground (arith, passed, noted, new) in
              subst (λ t. Kept c s.win32u a 1023 t) same
                (with_history c s.win32u a 1023 s h' r' refl simulated'
                  (subst (λ (p : Bool × Reference). Remembers a 1023 p.1) e'
                    (first-Remembers a r (Simulated-cursor s.history r history) live
                      (ap (λ (p : Bool × Reference). p.0) e' ∙ new)))
                  watching)
        ]
  ]

second_free :
    (c : Setting) (window : Win32u) (s : Allocator) (a : ℕ)
    → a ≢ 0
    → Kept c window a 0 s
    → (s' : Allocator) × (note_of a s true s.win32u ≡ some (none, s'))
unfolding note_of
second_free c window s a live kept = elim (call-Matches s.history kept.ring (mark a) kept.history) [
  | matches seen h' r' e e' simulated' ↦
      let known_seen : seen ≡ true =
        sym (ap (λ (p : Bool × Reference). p.0) e')
        ∙ again-seen a 0 kept.ring live kept.remembers in
      (record s { history = h' }, rw (note_of, e, known_seen) refl)
]

-- With the guard on in the game's process, the real functions and the range of win32u known, and a history
-- that some calls made: when win32u frees memory that is not the pool's and the free goes through, and
-- then up to 1023 other frees and any allocations follow that do not give out this address, then all of
-- them return, and a second free of the address by win32u does not reach the real free.
pub free_inner-free_inner :
    (c : Setting) (s s₁ : Allocator) (r : Reference) (a caller again : ℕ) (es : List Event)
    → Simulated s.history r
    → Watching c s
    → a ≢ 0
    → is_bootstrap_ptr c.pool a ≡ false
    → CalledBy s.win32u caller
    → CalledBy s.win32u again
    → free_inner c 0 a caller s ≡ some (some a, s₁)
    → Spares a es
    → free_count es ≤ 1023
    → (s₂ s₃ : Allocator) × (after c s₁ es ≡ some s₂)
      × (free_inner c 0 a again s₂ ≡ some (none, s₃))
free_inner-free_inner c s s₁ r a caller again es history watching live own by by_again passed spares
      few =
    let kept =
      first_free c s r a watching live s₁ history
        (sym (free_inner-note c s a caller watching live own by) ∙ passed) in
    let fewer : Kept c s.win32u a (free_count es) s₁ = record {
      same_window = kept.same_window;
      ring = kept.ring;
      history = kept.history;
      remembers = weaker_memory a 1023 (free_count es) kept.ring few kept.remembers;
      watching = kept.watching;
    } in
    let (s₂, run, kept₂) = after-Kept c s.win32u a es s₁ spares fewer in
    let (s₃, dropped) = second_free c s.win32u s₂ a live kept₂ in
    let still : CalledBy s₂.win32u again =
      subst (λ w. CalledBy w again) (sym kept₂.same_window) by_again in
    (s₂, s₃, run, free_inner-note c s₂ a again kept₂.watching live own still ∙ dropped)
