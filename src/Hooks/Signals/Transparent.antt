-- ===== src/Hooks/Signals/Transparent.antt =====
-- Behind the bridge a signal behaves as if the program's own actions were installed.
use linuwux_runtime.Base.{
  ℕ, ◌≡◌, ◌&&◌, arith, refl, ap, ◌∙◌, ◌⊎◌, inl, inr, Bool, true, false, none, some, List, [], ◌∷◌,
  ◌==◌, if◌then◌else◌, Bool-cases,
}
use linuwux_runtime.Hooks.Signals.{
  sigsegv, sigsys, sig_dfl, sig_ign, Action, SignalSlot, Signals, RealSigaction, Host, slot_for,
  set_slot, action_is_bridge, handler_is_from_wine_ntdll, bridge_of, Answer, replaced, swap_action,
  install_bridge, sigaction, pass_on, terminate_from_signal, Delivery, dropped, called, raised,
  terminated, bridge_handler, RaiseCalls, raise_default, restore_default_and_raise, forward_signal,
}

-- What the program does: it asks for an action, or reads the action, or a signal arrives that the runtime
-- does not consume. An arrival is forced if the thread's own instruction causes it, as a fault does.
pub data Event : Type 0 where
  asks : (requested : Action) → Event
  reads : Event
  arrives : (forced : Bool) → Event

pub data Seen : Type 0 where
  answered : (answer : Answer) → Seen
  delivered : (delivery : Delivery) → Seen

-- Whether a delivery ends the process, as the default actions of the two signals do.
abbrev pub ends : Delivery → Bool
ends (terminated status) = true
ends raised = true
ends _ = false

-- What a kernel does to a signal with an action: one that is forced is not dropped.
abbrev pub plain_delivery : Bool → Action → Delivery → Delivery
plain_delivery forced a default =
    if a.handler == sig_dfl
    then default
    else if a.handler == sig_ign
    then (if forced then default else dropped)
    else called a.handler a.siginfo

-- The specification: one action, which a request replaces and an arrival finds; a read sees what `shown`
-- makes of it.
unfoldable pub plain_run : (Action → Action) → Delivery → Action → List Event → List Seen
plain_run shown default a [] = []
plain_run shown default a (asks requested ∷ es) =
    answered (replaced a) ∷ plain_run shown default requested es
plain_run shown default a (reads ∷ es) =
    answered (replaced (shown a)) ∷ plain_run shown default a es
plain_run shown default a (arrives forced ∷ es) =
    let delivery = plain_delivery forced a default in
    delivered delivery ∷ (elim (ends delivery) [ true ↦ [] | false ↦ plain_run shown default a es ])

same_end :
    (ended : Bool) (xs ys : List Seen)
    → ended ≡ true
    → (elim ended [ true ↦ [] | false ↦ xs ]) ≡ (elim ended [ true ↦ [] | false ↦ ys ])
same_end true xs ys e = refl
same_end false xs ys e = cc

raise_default-ends : (c : RaiseCalls) (sig : ℕ) → ends (raise_default c sig) ≡ true
unfolding raise_default terminate_from_signal
raise_default-ends c sig = ground arith

module _ {K : Type 0} (real : RealSigaction K) (h : Host) (c : RaiseCalls) (sig : ℕ) where
  unfoldable pub run : Signals K → List Event → List Seen
  run s [] = []
  run s (asks requested ∷ es) =
      let (answer, s') = sigaction real h sig (some requested) s in answered answer ∷ run s' es
  run s (reads ∷ es) = let (answer, s') = sigaction real h sig none s in answered answer ∷ run s' es
  run s (arrives forced ∷ es) =
      let (delivery, s') = forward_signal real c sig s in
      delivered delivery ∷ (elim (ends delivery) [ true ↦ [] | false ↦ run s' es ])

  -- The requests that are the program's own: not the bridge that a read of the kernel's table shows, and
  -- without SA_RESETHAND; and no forced arrival while the action is SIG_IGN.
  abbrev pub Own : Action → List Event → Type 0
  Own a [] = Unit {0}
  Own a (asks requested ∷ es) =
      (action_is_bridge h sig requested ≡ false) × (requested.resethand ≡ false) × Own requested es
  Own a (reads ∷ es) = Own a es
  Own a (arrives forced ∷ es) = (forced && (a.handler == sig_ign) ≡ false) × Own a es

  -- The signal is one with a slot, which the bridge owns and which holds an action; the kernel has the
  -- bridge for it.
  pub record Behind (a : Action) (s : Signals K) : Type 0 where
    pub handled : (sig ≡ sigsegv) ⊎ (sig ≡ sigsys)
    pub slot : slot_for sig s ≡ some (record { current = some a; owned = true })
    pub once : a.resethand ≡ false
    pub shows : real.query sig s.table ≡ some (bridge_of h sig a)

  -- No call fails, and the kernel shows the action that it was given.
  pub record Serves : Type 0 where
    pub blocks : h.blocks ≡ true
    pub mallocs : h.mallocs ≡ true
    pub queries : (k : K) → (a : Action) × (real.query sig k ≡ some a)
    pub exchanges :
        (a : Action) (k : K)
        → (old : Action) × (k' : K) × (real.exchange sig a k ≡ some (old, k'))
          × (real.query sig k' ≡ some a)
    pub resets : (k : K) → (k' : K) × (real.reset sig k ≡ some k')

  slot_for-set_slot :
      (slot : SignalSlot) (s : Signals K) (table : K)
      → (sig ≡ sigsegv) ⊎ (sig ≡ sigsys)
      → slot_for sig (record (set_slot sig slot s) { table = table }) ≡ some slot
  unfolding slot_for set_slot
  slot_for-set_slot slot s table (inl e) = rw e refl
  slot_for-set_slot slot s table (inr e) = rw e refl

  asks_lem :
      (a requested : Action) (s : Signals K)
      → Serves
      → Behind a s
      → action_is_bridge h sig requested ≡ false
      → requested.resethand ≡ false
      → (s' : Signals K) × (sigaction real h sig (some requested) s ≡ (replaced a, s'))
        × Behind requested s'
  unfolding sigaction install_bridge swap_action bridge_of set_slot bridge_handler
  asks_lem a requested s serves behind own once =
      let next : SignalSlot = record { current = some requested; owned = true } in
      let stored = set_slot sig next s in
      let (previous, q) = serves.queries s.table in
      let (old, k', e, shows) = serves.exchanges (bridge_of h sig requested) stored.table in
      (
        record (set_slot sig next stored) { table = k' },
        rw
            (
              sigaction, behind.slot, serves.blocks, install_bridge, q, own, swap_action,
              serves.mallocs, e,
            )
            refl,
        record {
          handled = behind.handled;
          slot = slot_for-set_slot next stored k' behind.handled;
          once = once;
          shows = shows;
        },
      )

  reads_lem :
      (a : Action) (s : Signals K)
      → Behind a s
      → sigaction real h sig none s ≡ (replaced (bridge_of h sig a), s)
  unfolding sigaction pass_on
  reads_lem a s behind = rw (sigaction, behind.slot, pass_on, behind.shows) refl

  restore_lem :
      (s : Signals K)
      → Serves
      → (s' : Signals K) × (restore_default_and_raise real c sig s ≡ (raise_default c sig, s'))
        × (ends (raise_default c sig) ≡ true)
  unfolding restore_default_and_raise
  restore_lem s serves =
      let (table, e) = serves.resets s.table in
      (record s { table = table }, rw (restore_default_and_raise, e) refl, raise_default-ends c sig)

  arrives_lem :
      (forced : Bool) (a : Action) (s : Signals K)
      → Serves
      → Behind a s
      → forced && (a.handler == sig_ign) ≡ false
      → let seen = plain_delivery forced a (raise_default c sig) in
        (s' : Signals K) × (forward_signal real c sig s ≡ (seen, s'))
        × ((ends seen ≡ true) ⊎ Behind a s')
  unfolding forward_signal
  arrives_lem forced a s serves behind may = elim (Bool-cases (a.handler == sig_dfl)) [
    | inl default ↦
        let (s', e, ended) = restore_lem s serves in
        (s', rw (forward_signal, behind.slot, default) e, rw (default) (inl ended))
    | inr other ↦ elim (Bool-cases (a.handler == sig_ign)) [
      | inl ignored ↦
          let free : forced ≡ false = ground (arith, may, ignored) in
          (s, rw (forward_signal, behind.slot, other, ignored, free) refl, inr behind)
      | inr callback ↦
          (s, rw (forward_signal, behind.slot, other, callback, behind.once) refl, inr behind)
    ]
  ]

  run-Behind :
      (a : Action) (s : Signals K) (es : List Event)
      → Serves
      → Behind a s
      → Own a es
      → run s es ≡ plain_run (bridge_of h sig) (raise_default c sig) a es
  unfolding run plain_run
  run-Behind a s [] serves behind own = refl
  run-Behind a s (asks requested ∷ es) serves behind (own, once, rest) =
      let (s', e, behind') = asks_lem a requested s serves behind own once in
      rw (run, e)
        (ap (λ seen. answered (replaced a) ∷ seen) (run-Behind requested s' es serves behind' rest))
  run-Behind a s (reads ∷ es) serves behind own =
      rw (run, reads_lem a s behind)
        (ap (λ seen. answered (replaced (bridge_of h sig a)) ∷ seen)
          (run-Behind a s es serves behind own))
  run-Behind a s (arrives forced ∷ es) serves behind (may, own) =
      let (s', e, after) = arrives_lem forced a s serves behind may in
      let seen = plain_delivery forced a (raise_default c sig) in
      let plain = plain_run (bridge_of h sig) (raise_default c sig) a es in
      ap
        (λ (r : Delivery × Signals K).
          delivered r.0 ∷ (elim (ends r.0) [ true ↦ [] | false ↦ run r.1 es ]))
        e
      ∙ (elim after [
        | inl ended ↦
            ap (λ tail. delivered seen ∷ tail) (same_end (ends seen) (run s' es) plain ended)
        | inr behind' ↦
            ap (λ tail. delivered seen ∷ (elim (ends seen) [ true ↦ [] | false ↦ tail ]))
              (run-Behind a s' es serves behind' own)
      ])

  -- The first request of Wine for the signal.
  first_lem :
      (requested previous : Action) (s : Signals K)
      → Serves
      → (sig ≡ sigsegv) ⊎ (sig ≡ sigsys)
      → slot_for sig s ≡ some (record { current = none; owned = false })
      → real.query sig s.table ≡ some previous
      → handler_is_from_wine_ntdll h requested ≡ true
      → action_is_bridge h sig requested ≡ false
      → requested.resethand ≡ false
      → (s' : Signals K) × (sigaction real h sig (some requested) s ≡ (replaced previous, s'))
        × Behind requested s'
  unfolding sigaction install_bridge swap_action bridge_of set_slot bridge_handler
      handler_is_from_wine_ntdll
  first_lem requested previous s serves handled slot q wine own once =
      let next : SignalSlot = record { current = some requested; owned = true } in
      let stored = set_slot sig (record { current = some requested; owned = false }) s in
      let (old, k', e, shows) = serves.exchanges (bridge_of h sig requested) stored.table in
      (
        record (set_slot sig next stored) { table = k' },
        rw
            (
              sigaction, slot, serves.blocks, wine, install_bridge, q, own, swap_action,
              serves.mallocs, e,
            )
            refl,
        record {
          handled = handled;
          slot = slot_for-set_slot next stored k' handled;
          once = once;
          shows = shows;
        },
      )

  -- From the first request of Wine for SIGSEGV or SIGSYS on, and while no call of the library or the
  -- kernel fails, each request answers the action of the request before it (the first one the action of
  -- the kernel), and each signal that is forwarded finds the action of the last request, as on a kernel
  -- without the bridge, until a default action ends the process; a read of the action, unlike there, shows
  -- the bridge with the mask and the other flags of the last request. Left out are requests for the bridge,
  -- requests with SA_RESETHAND, and forced signals while the action is SIG_IGN.
  pub run-plain_run :
      (wine previous : Action) (s : Signals K) (es : List Event)
      → Serves
      → (sig ≡ sigsegv) ⊎ (sig ≡ sigsys)
      → slot_for sig s ≡ some (record { current = none; owned = false })
      → real.query sig s.table ≡ some previous
      → handler_is_from_wine_ntdll h wine ≡ true
      → Own previous (asks wine ∷ es)
      → run s (asks wine ∷ es)
        ≡ plain_run (bridge_of h sig) (raise_default c sig) previous (asks wine ∷ es)
  unfolding run plain_run
  run-plain_run wine previous s es serves handled slot q from_wine (own, once, rest) =
      let (s', e, behind) = first_lem wine previous s serves handled slot q from_wine own once in
      rw (run, e)
        (ap (λ seen. answered (replaced previous) ∷ seen)
          (run-Behind wine s' es serves behind rest))
