-- ===== src/Cpuid/Active/Updates.antt =====
-- The configuration of the host and the other updates of the identity, whatever other threads do between a
-- load and an exchange.
use linuwux_runtime.Base.{
  ℕ, ◌≡◌, refl, ap, sym, ◌∙◌, Bool, Bool-cases, inl, inr, List, [], ◌∷◌, ◌++◌, map, ◌==◌,
  if◌then◌else◌, arith,
}
use linuwux_runtime.Cpuid.Identity.{
  Vendor, CpuPresentation, legacy, CpuIdentity, denuvo_identity, with_presentation, decode,
  decode-encode,
}
use linuwux_runtime.Cpuid.Active.{configured, configure_host, legacy_of}

-- What another thread does to the word.
pub data Update : Type 0 where
  configures : (v : Vendor) (avx : Bool) → Update
  selects : Update

unfoldable pub applied : List Update → ℕ → ℕ
applied [] raw = raw
applied (configures v avx ∷ us) raw = applied us (configured v avx raw)
applied (selects ∷ us) raw = applied us (legacy_of raw)

-- The presentation behind some updates: the first one, until one selects the legacy one.
abbrev pub presented : List Update → CpuPresentation → CpuPresentation
presented [] p = p
presented (configures v avx ∷ us) p = presented us p
presented (selects ∷ us) p = presented us legacy

-- The updates of the rounds up to and with the first one that leaves the word as it was, in turn.
abbrev pub until_still : List (List Update) → ℕ → List Update
until_still [] raw = []
until_still (us ∷ rounds) raw =
    us ++ (if applied us raw == raw then [] else until_still rounds (applied us raw))

decode-configured :
    (v : Vendor) (avx : Bool) (raw : ℕ)
    → decode (configured v avx raw)
      ≡ with_presentation (denuvo_identity v avx) (decode raw).presentation
unfolding configured
decode-configured v avx raw = decode-encode _

decode-legacy_of : (raw : ℕ) → decode (legacy_of raw) ≡ with_presentation (decode raw) legacy
unfolding legacy_of
decode-legacy_of raw = decode-encode _

applied-presented :
    (us : List Update) (raw : ℕ)
    → (decode (applied us raw)).presentation ≡ presented us (decode raw).presentation
unfolding applied with_presentation
applied-presented [] raw = refl
applied-presented (configures v avx ∷ us) raw =
    applied-presented us (configured v avx raw)
    ∙ ap (λ (id : CpuIdentity). presented us id.presentation) (decode-configured v avx raw)
applied-presented (selects ∷ us) raw =
    applied-presented us (legacy_of raw)
    ∙ ap (λ (id : CpuIdentity). presented us id.presentation) (decode-legacy_of raw)

presented-append :
    (us vs : List Update) (p : CpuPresentation)
    → presented (us ++ vs) p ≡ presented vs (presented us p)
presented-append [] vs p = refl
presented-append (configures v avx ∷ us) vs p = presented-append us vs p
presented-append (selects ∷ us) vs p = presented-append us vs legacy

-- The host as it was configured, with a presentation.
abbrev pub host_with : Vendor → Bool → CpuPresentation → CpuIdentity
host_with v avx p = with_presentation (denuvo_identity v avx) p

-- The loop leaves the host as it was configured, and loses no selection of the legacy presentation: the
-- word at the first load is any one, other threads configure and select between the load and the exchange
-- of each round, and the presentation at the end is the one behind all that they did up to and with the
-- first round that leaves the word as it was, in which the exchange succeeds.
pub configure_host-presented :
    (v : Vendor) (avx : Bool) (rounds : List (List Update)) (raw : ℕ)
    → decode (configure_host (map applied rounds) v avx raw)
      ≡ host_with v avx (presented (until_still rounds raw) (decode raw).presentation)
unfolding configure_host
configure_host-presented v avx [] raw = decode-configured v avx raw
configure_host-presented v avx (us ∷ rounds) raw = elim (Bool-cases (applied us raw == raw)) [
  | inl same ↦
      let is_same : applied us raw ≡ raw = ground (arith, same) in
      let kept : (decode raw).presentation ≡ presented us (decode raw).presentation =
        ap (λ (w : ℕ). (decode w).presentation) (sym is_same) ∙ applied-presented us raw in
      rw (same) (
        decode-configured v avx raw
        ∙ ap (λ p. host_with v avx p)
            (kept ∙ sym (presented-append us [] (decode raw).presentation)))
  | inr other ↦
      let later = until_still rounds (applied us raw) in
      rw (other) (
        configure_host-presented v avx rounds (applied us raw)
        ∙ ap (λ p. host_with v avx p)
            (ap (λ p. presented later p) (applied-presented us raw)
              ∙ sym (presented-append us later (decode raw).presentation)))
]
