-- ===== src/Syscall/Dispatch/Install/Wired.antt =====
-- The slot and the page under any installations.
use linuwux_runtime.Base.{
  ℕ, ◌≡◌, ◌≢◌, refl, sym, subst, ◌∙◌, Bool, true, false, not, ◌&&◌, List, [], ◌∷◌, ◌==◌,
  if◌then◌else◌, Bool-cases, inl, inr, arith,
}
use linuwux_runtime.Syscall.Dispatch.Install.{
  Installation, protect, swap_slot, close_page, open_page, install,
}

-- Before Wine has filled the slot.
abbrev pub unfilled : List Bool → Installation
unfilled answers = record {
  installed = false;
  original = 0;
  slot = 0;
  writable = false;
  answers = answers;
}

-- Wine fills the slot, or the bridge is asked for.
pub data Event : Type 0 where
  fills : (dispatcher : ℕ) → Event
  installs : (guards : Bool) → Event

-- Wine fills an empty slot only.
unfoldable pub happens : ℕ → Event → Installation → Installation
happens bridge (fills dispatcher) s = if s.slot == 0 then record s { slot = dispatcher } else s
happens bridge (installs guards) s = (install bridge guards s).1

unfoldable pub happen : ℕ → List Event → Installation → Installation
happen bridge [] s = s
happen bridge (e ∷ es) s = happen bridge es (happens bridge e s)

-- No dispatcher of Wine's is the bridge.
abbrev pub Foreign : ℕ → List Event → Type 0
Foreign bridge [] = Unit {0}
Foreign bridge (fills dispatcher ∷ es) = (dispatcher ≢ bridge) × Foreign bridge es
Foreign bridge (installs guards ∷ es) = Foreign bridge es

-- The dispatcher that the bridge goes on to is not the bridge itself, there is one as soon as the bridge
-- is in the slot, and when it is installed it is in the slot and the page is closed.
pub record Wired (bridge : ℕ) (s : Installation) : Type 0 where
  pub goes_on : s.original ≢ bridge
  pub known : s.slot ≡ bridge → s.original ≢ 0
  pub in_slot : s.installed ≡ true → s.slot ≡ bridge
  pub closed : s.installed ≡ true → s.writable ≡ false

-- The part of it that holds of any installation.
abbrev Loose : ℕ → Installation → Type 0
Loose bridge s = (s.original ≢ bridge) × (s.slot ≡ bridge → s.original ≢ 0)

protect_kept :
    (writable : Bool) (s : Installation)
    → ((protect writable s).1.original ≡ s.original)
      × ((protect writable s).1.slot ≡ s.slot)
      × ((protect writable s).1.installed ≡ s.installed)
unfolding protect
protect_kept writable s = ground arith

protect_closes :
    (s : Installation) → (protect false s).0 ≡ true → (protect false s).1.writable ≡ false
unfolding protect
protect_closes s e = ground arith

protect-Loose :
    (bridge : ℕ) (writable : Bool) (s : Installation)
    → Loose bridge s
    → Loose bridge (protect writable s).1
protect-Loose bridge writable s l =
    let kept = protect_kept writable s in
    (λ e. l.0 (sym kept.0 ∙ e), λ e z. l.1 (sym kept.1 ∙ e) (sym kept.0 ∙ z))

new-Wired : (bridge : ℕ) (s : Installation) → s.installed ≡ false → Loose bridge s → Wired bridge s
new-Wired bridge s new l = record {
  goes_on = l.0;
  known = l.1;
  in_slot = λ e. absurd (ground (arith, e, new));
  closed = λ e. absurd (ground (arith, e, new));
}

-- The exchange keeps what holds of any installation, and answers whether the bridge is in the slot.
swap_slot-Loose :
    (bridge : ℕ) (s : Installation)
    → Loose bridge s
    → Loose bridge (swap_slot bridge s).1
      × ((swap_slot bridge s).1.installed ≡ s.installed)
      × ((swap_slot bridge s).0 ≡ true → (swap_slot bridge s).1.slot ≡ bridge)
unfolding swap_slot
swap_slot-Loose bridge s l = elim (Bool-cases (not (s.slot == 0) && not (s.slot == bridge))) [
  | inl filled ↦
      let not_bridge : s.slot ≢ bridge = ground (arith, filled) in
      let not_zero : s.slot ≢ 0 = ground (arith, filled) in
      rw (filled) ((not_bridge, λ e. not_zero), refl, λ e. refl)
  | inr other ↦ rw (other) (l, refl, λ e. ground (arith, e))
]

close_page-Wired :
    (bridge : ℕ) (present : Bool) (s : Installation)
    → s.installed ≡ false
    → Loose bridge s
    → (present ≡ true → s.slot ≡ bridge)
    → Wired bridge (close_page (present, s)).1
unfolding close_page
close_page-Wired bridge present s new l there =
    let kept = protect_kept false s in
    let loose = protect-Loose bridge false s l in
    elim (Bool-cases (present && (protect false s).0)) [
      | inl done ↦
          let is_present : present ≡ true = ground (arith, done) in
          let is_closed : (protect false s).0 ≡ true = ground (arith, done) in
          rw (done) (record {
            goes_on = loose.0;
            known = loose.1;
            in_slot = λ e. kept.1 ∙ there is_present;
            closed = λ e. protect_closes s is_closed;
          })
      | inr undone ↦ rw (undone) (new-Wired bridge (protect false s).1 (kept.2 ∙ new) loose)
    ]

open_page-Wired :
    (bridge : ℕ) (opened : Bool) (s : Installation)
    → s.installed ≡ false
    → Loose bridge s
    → Wired bridge (open_page bridge (opened, s)).1
unfolding open_page
open_page-Wired bridge false s new l = new-Wired bridge s new l
open_page-Wired bridge true s new l =
    let swapped = swap_slot-Loose bridge s l in
    close_page-Wired bridge (swap_slot bridge s).0 (swap_slot bridge s).1 (swapped.1 ∙ new)
      swapped.0 swapped.2

install_old :
    (bridge : ℕ) (guards : Bool) (s : Installation)
    → s.installed ≡ true
    → install bridge guards s ≡ (true, s)
unfolding install
install_old bridge guards s old = ground arith

install_unguarded :
    (bridge : ℕ) (s : Installation) → s.installed ≡ false → install bridge false s ≡ (false, s)
unfolding install
install_unguarded bridge s new = ground arith

install_new :
    (bridge : ℕ) (s : Installation)
    → s.installed ≡ false
    → install bridge true s ≡ open_page bridge (protect true s)
unfolding install
install_new bridge s new = ground arith

install-Wired :
    (bridge : ℕ) (guards : Bool) (s : Installation)
    → Wired bridge s
    → Wired bridge (install bridge guards s).1
install-Wired bridge guards s w = elim (Bool-cases s.installed) [
  | inl old ↦
      subst (λ (r : Bool × Installation). Wired bridge r.1) (sym (install_old bridge guards s old))
        w
  | inr new ↦ elim guards as (λ k. Wired bridge (install bridge k s).1) [
    | false ↦
        subst (λ (r : Bool × Installation). Wired bridge r.1) (sym (install_unguarded bridge s new))
          w
    | true ↦
        subst (λ (r : Bool × Installation). Wired bridge r.1) (sym (install_new bridge s new))
          (open_page-Wired bridge (protect true s).0 (protect true s).1
            ((protect_kept true s).2 ∙ new) (protect-Loose bridge true s (w.goes_on, w.known)))
  ]
]

happens-Wired :
    (bridge : ℕ) (e : Event) (s : Installation)
    → bridge ≢ 0
    → Foreign bridge (e ∷ [])
    → Wired bridge s
    → Wired bridge (happens bridge e s)
unfolding happens
happens-Wired bridge (installs guards) s real foreign w = install-Wired bridge guards s w
happens-Wired bridge (fills dispatcher) s real foreign w = elim (Bool-cases (s.slot == 0)) [
  | inr full ↦ rw (full) w
  | inl empty ↦ rw (empty) (record {
    goes_on = w.goes_on;
    known = λ e. absurd (foreign.0 e);
    in_slot = λ e. absurd (real (sym (w.in_slot e) ∙ ground (arith, empty)));
    closed = w.closed;
  })
]

happen_keeps :
    (bridge : ℕ) (es : List Event) (s : Installation)
    → bridge ≢ 0
    → Foreign bridge es
    → Wired bridge s
    → Wired bridge (happen bridge es s)
unfolding happen
happen_keeps bridge [] s real foreign w = w
happen_keeps bridge (fills d ∷ es) s real foreign w =
    happen_keeps bridge es (happens bridge (fills d) s) real foreign.1
      (happens-Wired bridge (fills d) s real (foreign.0, tt) w)
happen_keeps bridge (installs guards ∷ es) s real foreign w =
    happen_keeps bridge es (happens bridge (installs guards) s) real foreign
      (happens-Wired bridge (installs guards) s real tt w)

-- Wine fills the empty slot with other addresses than the bridge's, and the bridge is asked for, in any
-- order and with any answers of mprotect and of the guard: the dispatcher that the bridge goes on to is
-- never the bridge itself, is known as soon as the bridge is in the slot, and once the bridge counts as
-- installed it is in the slot and the page is closed.
pub happen-Wired :
    (bridge : ℕ) (es : List Event) (answers : List Bool)
    → bridge ≢ 0
    → Foreign bridge es
    → Wired bridge (happen bridge es (unfilled answers))
happen-Wired bridge es answers real foreign =
    happen_keeps bridge es (unfilled answers) real foreign
      (new-Wired bridge (unfilled answers) refl ((λ e. real (sym e)), λ e. absurd (real (sym e))))
