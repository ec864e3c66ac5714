-- ===== src/Hooks/Guard/Kept.antt =====
-- What the calls between two frees keep: the ring remembers the first one, and the caches stand.
use linuwux_runtime.Base.{
  ℕ, suc, ◌≡◌, ◌≢◌, refl, ap, ◌∙◌, subst, Bool, true, false, not, ◌&&◌, Option, none, some, List,
  [], ◌∷◌, ◌==◌, if◌then◌else◌, Bool-cases, inl, inr,
}
use linuwux_runtime.PendingFrees.{History, mark, consumes}
use linuwux_runtime.PendingFrees.Reference.{Reference}
use linuwux_runtime.PendingFrees.Refinement.{Simulated, matches, call-Matches}
use linuwux_runtime.PendingFrees.Remembered.{
  Remembers, Remembers-fewer, mark-Remembers, consumes-Remembers,
}
use linuwux_runtime.Hooks.Bootstrap.{is_bootstrap_ptr, Resolver, begin_resolve}
use linuwux_runtime.Hooks.Guard.{
  Win32u, is_unknown, within, caller_from_win32u, Setting, Allocator, resolve, forget, forget_of,
  allocate, malloc_inner, note_of, note_free, release, free_inner,
}

-- A call of `malloc`, with the answer of the real one, or of `free`.
pub data Event : Type 0 where
  mallocs : (allocated size caller : ℕ) → Event
  frees : (ptr caller : ℕ) → Event

-- The state after some calls.
unfoldable pub after : Setting → Allocator → List Event → Option Allocator
after c s [] = some s
after c s (mallocs allocated size caller ∷ es) = elim (malloc_inner c 0 allocated size caller s) [
  | none ↦ none
  | some (answer, s') ↦ after c s' es
]
after c s (frees ptr caller ∷ es) = elim (free_inner c 0 ptr caller s) [
  | none ↦ none
  | some (passed, s') ↦ after c s' es
]

-- How many calls are of `free`.
abbrev pub free_count : List Event → ℕ
free_count [] = 0
free_count (mallocs allocated size caller ∷ es) = free_count es
free_count (frees ptr caller ∷ es) = suc (free_count es)

-- No call of win32u allocates the address.
abbrev pub Spares : ℕ → List Event → Type 0
Spares a [] = Unit {0}
Spares a (mallocs allocated size caller ∷ es) = (allocated ≢ a) × Spares a es
Spares a (frees ptr caller ∷ es) = Spares a es

-- The guard is on in the game's process, both real functions are known, and so is win32u.
pub record Watching (c : Setting) (s : Allocator) : Type 0 where
  pub guard : c.guard ≡ true
  pub game : c.game ≡ true
  pub malloc_known : (s.malloc.symbol == 0) ≡ false
  pub free_known : (s.free.symbol == 0) ≡ false
  pub win32u_known : is_unknown s.win32u ≡ false

module _ (c : Setting) (s : Allocator) (watching : Watching c s) where
  pub known-caller :
      (caller : ℕ)
      → caller_from_win32u c.loader caller s.win32u
        ≡ (not (caller == 0) && within s.win32u caller, s.win32u)
  unfolding caller_from_win32u
  known-caller caller = elim (Bool-cases (caller == 0)) [
    | inl null ↦ rw null refl
    | inr call_site ↦ rw (call_site, caller_from_win32u, watching.win32u_known) refl
  ]

  resolve-malloc : resolve c.has_key 0 s.malloc ≡ (some s.malloc.symbol, s.malloc)
  unfolding resolve begin_resolve
  resolve-malloc = rw (resolve, begin_resolve, watching.malloc_known) refl

  pub resolve-free : resolve c.has_key 0 s.free ≡ (some s.free.symbol, s.free)
  unfolding resolve begin_resolve
  resolve-free = rw (resolve, begin_resolve, watching.free_known) refl

-- The address is in the ring that the history stands for, with room for some more frees.
pub record Kept (c : Setting) (window : Win32u) (a free_room : ℕ) (s : Allocator) : Type 0 where
  pub same_window : s.win32u ≡ window
  pub ring : Reference
  pub history : Simulated s.history ring
  pub remembers : Remembers a free_room ring
  pub watching : Watching c s

pub with_history :
    (c : Setting) (window : Win32u) (a free_room : ℕ) (s : Allocator) (h : History)
    (ring : Reference)
    → s.win32u ≡ window
    → Simulated h ring
    → Remembers a free_room ring
    → Watching c s
    → Kept c window a free_room (record s { history = h })
with_history c window a free_room s h ring same_window history remembers watching = record {
  same_window = same_window;
  ring = ring;
  history = history;
  remembers = remembers;
  watching = record {
    guard = watching.guard;
    game = watching.game;
    malloc_known = watching.malloc_known;
    free_known = watching.free_known;
    win32u_known = watching.win32u_known;
  };
}

module _ (c : Setting) (window : Win32u) (a free_room : ℕ) (s : Allocator) where
  forget-Kept :
      (allocated caller : ℕ)
      → allocated ≢ a
      → Kept c window a free_room s
      → (s' : Allocator) × (forget c allocated caller s ≡ some s') × Kept c window a free_room s'
  unfolding forget forget_of
  forget-Kept allocated caller other kept =
      let w = kept.watching in
      elim (Bool-cases (not (caller == 0) && within s.win32u caller)) [
        | inr elsewhere ↦ (
          s,
          rw (w.guard, w.game)
              (ap (λ (p : Bool × Win32u). forget_of allocated s p.0 p.1) (known-caller c s w caller)
                ∙ rw (elsewhere) refl),
          kept,
        )
        | inl from_win32u ↦
            elim (call-Matches s.history kept.ring (consumes allocated) kept.history) [
              | matches answer h' r' e e' simulated' ↦ (
                record s { history = h' },
                rw (w.guard, w.game)
                    (ap (λ (p : Bool × Win32u). forget_of allocated s p.0 p.1)
                        (known-caller c s w caller)
                      ∙ rw (from_win32u, forget_of, e) refl),
                with_history c window a free_room s h' r' kept.same_window simulated'
                    (subst (λ (p : Bool × Reference). Remembers a free_room p.1) e'
                      (consumes-Remembers a free_room allocated kept.ring other kept.remembers))
                    w,
              )
            ]
      ]

  malloc_inner-Kept :
      (allocated size caller : ℕ)
      → allocated ≢ a
      → Kept c window a free_room s
      → (answer : Option ℕ) × (s' : Allocator) × (malloc_inner c 0 allocated size caller s
          ≡ some (answer, s'))
        × Kept c window a free_room s'
  unfolding malloc_inner allocate
  malloc_inner-Kept allocated size caller other kept =
      let (s', e, kept') = forget-Kept allocated caller other kept in
      (
        some allocated,
        s',
        ap (λ (p : Option ℕ × Resolver). allocate c allocated size caller s p.0 p.1)
              (resolve-malloc c s kept.watching)
            ∙ rw (e, allocate) refl,
        kept',
      )

  note_free-Kept :
      (ptr caller : ℕ)
      → Kept c window a (suc free_room) s
      → (passed : Option ℕ) × (s' : Allocator) × (note_free c ptr caller s ≡ some (passed, s'))
        × Kept c window a free_room s'
  unfolding note_free note_of
  note_free-Kept ptr caller kept =
      let w = kept.watching in
      let fewer : Kept c window a free_room s = record {
        same_window = kept.same_window;
        ring = kept.ring;
        history = kept.history;
        remembers = Remembers-fewer a free_room kept.ring kept.remembers;
        watching = w;
      } in
      elim (Bool-cases (ptr == 0)) [
        | inl null ↦ (some ptr, s, rw (w.guard, w.game, null) refl, fewer)
        | inr live ↦ elim (Bool-cases (not (caller == 0) && within s.win32u caller)) [
          | inr elsewhere ↦ (
            some ptr,
            s,
            rw (w.guard, w.game, live)
                (ap (λ (p : Bool × Win32u). note_of ptr s p.0 p.1) (known-caller c s w caller)
                  ∙ rw (elsewhere) refl),
            fewer,
          )
          | inl from_win32u ↦ elim (call-Matches s.history kept.ring (mark ptr) kept.history) [
            | matches seen h' r' e e' simulated' ↦ (
              if seen then none else some ptr,
              record s { history = h' },
              rw (w.guard, w.game, live)
                  (ap (λ (p : Bool × Win32u). note_of ptr s p.0 p.1) (known-caller c s w caller)
                    ∙ rw (from_win32u, note_of, e) refl),
              with_history c window a free_room s h' r' kept.same_window simulated'
                  (subst (λ (p : Bool × Reference). Remembers a free_room p.1) e'
                    (mark-Remembers a free_room ptr kept.ring kept.remembers))
                  w,
            )
          ]
        ]
      ]

  free_inner-Kept :
      (ptr caller : ℕ)
      → Kept c window a (suc free_room) s
      → (passed : Option ℕ) × (s' : Allocator) × (free_inner c 0 ptr caller s ≡ some (passed, s'))
        × Kept c window a free_room s'
  unfolding free_inner release
  free_inner-Kept ptr caller kept = elim (Bool-cases (is_bootstrap_ptr c.pool ptr)) [
    | inl pooled ↦ (
      none,
      s,
      rw (free_inner, pooled) refl,
      record {
        same_window = kept.same_window;
        ring = kept.ring;
        history = kept.history;
        remembers = Remembers-fewer a free_room kept.ring kept.remembers;
        watching = kept.watching;
      },
    )
    | inr own ↦
        let (passed, s', e, kept') = note_free-Kept ptr caller kept in
        (
          passed,
          s',
          rw (free_inner, own)
              (ap (λ (p : Option ℕ × Resolver). release c ptr caller s p.0 p.1)
                  (resolve-free c s kept.watching)
                ∙ e),
          kept',
        )
  ]

pub after-Kept :
    (c : Setting) (window : Win32u) (a : ℕ) (es : List Event) (s : Allocator)
    → Spares a es
    → Kept c window a (free_count es) s
    → (s' : Allocator) × (after c s es ≡ some s') × Kept c window a 0 s'
unfolding after
after-Kept c window a [] s spares kept = (s, refl, kept)
after-Kept c window a (mallocs allocated size caller ∷ es) s spares kept =
    let (answer, s₁, e, kept₁) =
      malloc_inner-Kept c window a (free_count es) s allocated size caller spares.0 kept in
    let (s', rest, kept') = after-Kept c window a es s₁ spares.1 kept₁ in
    (s', rw (after, e) rest, kept')
after-Kept c window a (frees ptr caller ∷ es) s spares kept =
    let (passed, s₁, e, kept₁) = free_inner-Kept c window a (free_count es) s ptr caller kept in
    let (s', rest, kept') = after-Kept c window a es s₁ spares kept₁ in
    (s', rw (after, e) rest, kept')
