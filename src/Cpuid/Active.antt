-- ===== src/Cpuid/Active.antt =====
-- protocol/cpuid.rs: the identity of the process, one atomic word that threads update by loops of a
-- load and a strong exchange. A list holds what the other threads do to the word between the load and
-- the exchange of each round; behind its end they leave the word alone, and the exchange succeeds.
pub mod Updates
use linuwux_runtime.Base.{
  ℕ, ◌≡◌, refl, Bool, true, false, Option, List, [], ◌∷◌, arith, ◌==◌, if◌then◌else◌, ◌||◌,
  Bool-cases, inl, inr, ap, sym, ◌∙◌,
}
use linuwux_runtime.Cpuid.Identity.{
  Registers, Vendor, unknown, CpuPresentation, denuvo, legacy, CpuIdentity, denuvo_identity,
  with_presentation, encode, decode, decode-encode,
}
use linuwux_runtime.Cpuid.Replies.{fixed_reply}

abbrev pub new : ℕ
new = encode (denuvo_identity unknown false)

abbrev pub load : ℕ → CpuIdentity
load raw = decode raw

unfoldable pub configured : Vendor → Bool → ℕ → ℕ
configured v avx current =
    encode (with_presentation (denuvo_identity v avx) (decode current).presentation)

unfoldable pub configure_host : List (ℕ → ℕ) → Vendor → Bool → ℕ → ℕ
configure_host [] v avx current = configured v avx current
configure_host (others ∷ rounds) v avx current =
    let rest = configure_host rounds v avx (others current) in
    if others current == current then configured v avx current else rest

unfoldable pub legacy_of : ℕ → ℕ
legacy_of current = encode (with_presentation (decode current) legacy)

unfoldable pub select_legacy_presentation : List (ℕ → ℕ) → ℕ → ℕ
select_legacy_presentation [] current = legacy_of current
select_legacy_presentation (others ∷ rounds) current =
    let rest = select_legacy_presentation rounds (others current) in
    if others current == current then legacy_of current else rest

unfoldable pub fixed_reply_of : ℕ → ℕ → Option Registers
fixed_reply_of raw leaf = fixed_reply (load raw) leaf
