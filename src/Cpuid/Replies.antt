-- ===== src/Cpuid/Replies.antt =====
-- protocol/cpuid.rs: the canned replies to the CPUID leaves, for each identity and for the two
-- artifact profiles. `none` leaves the leaf to the processor.
use linuwux_runtime.Base.{
  ℕ, ◌+◌, ◌-◌, ◌*◌, ◌≡◌, ◌↔◌, ◌⊎◌, inl, inr, refl, Bool, true, false, Option, none, some, List, ◌∷◌,
  [], arith, ◌==◌, ◌&&◌, if◌then◌else◌, leb, get_or, contains, not, Bool-cases,
}
use linuwux_runtime.Cpuid.Identity.{
  Registers, registers, Vendor, unknown, intel, amd, CpuPresentation, denuvo, legacy, CpuIdentity,
}

unfoldable pub artifact_amd_reply : ℕ → Option Registers
artifact_amd_reply leaf =
    if leaf == 1
    then some (registers 0x00a2_0f12 0x0010_0800 0x00f8_220b 0x178b_fbff)
    else if leaf == 0x8000_0002
    then some (registers 0x3230_4744 0x4254_5253 0x464d_3450 0x2020_2041)
    else if leaf == 0x8000_0003
    then some (registers 0x2020_2020 0x2020_2020 0x2020_2020 0x2020_2020)
    else if leaf == 0x8000_0004
    then some (registers 0x2020_2020 0x2020_2020 0x2020_2020 0x0020_2020)
    else none

unfoldable pub artifact_intel_reply : ℕ → Option Registers
artifact_intel_reply leaf =
    if leaf == 1
    then some (registers 0x000a_0655 0x0020_0800 0x01fa_ebff 0xbfeb_fbff)
    else if leaf == 0x8000_0002
    then some (registers 0x6574_6e49 0x2952_286c 0x6e65_5020 0x6d75_6974)
    else if leaf == 0x8000_0003
    then some (registers 0x2029_5228 0x2055_5043 0x3532_3434 0x2040_2059)
    else if leaf == 0x8000_0004
    then some (registers 0x3037_2e31 0x007a_4847 0 0)
    else none

abbrev pub modern_brand : List ℕ
modern_brand =
    0x756e_6544 ∷ 0x4f77_4f76 ∷ 0x5550_4320 ∷ 0x3120_4020 ∷ 0x2037_3333 ∷ 0x007a_4847 ∷ 0 ∷ 0 ∷ 0
    ∷ 0 ∷ 0 ∷ 0 ∷ []

abbrev pub legacy_intel_brand : List ℕ
legacy_intel_brand =
    0x6574_6e49 ∷ 0x2952_286c ∷ 0x726f_4320 ∷ 0x4d54_2865 ∷ 0x3969_2029 ∷ 0x3930_312d ∷ 0x204b_3030
    ∷ 0x2055_5043 ∷ 0x2e33_2040 ∷ 0x4847_3037 ∷ 0x0000_007a ∷ 0 ∷ []

abbrev pub legacy_amd_brand : List ℕ
legacy_amd_brand =
    0x2044_4d41 ∷ 0x657a_7952 ∷ 0x2039_206e ∷ 0x3030_3935 ∷ 0x3231_2058 ∷ 0x726f_432d ∷ 0x7250_2065
    ∷ 0x7365_636f ∷ 0x2072_6f73 ∷ 0x2020_2020 ∷ 0x2020_2020 ∷ 0x0020_2020 ∷ []

unfoldable pub leaf1 : CpuIdentity → Registers
leaf1 id = by_cases id.presentation id.vendor id.avx_enabled
  where
    by_cases : CpuPresentation → Vendor → Bool → Registers
    by_cases denuvo unknown avx = registers 0 0 0 0
    by_cases denuvo intel false = registers 0x000a_0655 0x0020_0800 0x01fa_ebff 0xbfeb_fbff
    by_cases denuvo intel true = registers 0x000a_0655 0x0020_0800 0x7bfa_fbff 0xbfeb_fbff
    by_cases denuvo amd false = registers 0x00a2_0f12 0x0010_0800 0x00f8_220b 0x178b_fbff
    by_cases denuvo amd true = registers 0x00a2_0f12 0x0010_0800 0x7ad8_320b 0x178b_fbff
    by_cases legacy intel avx = registers 0x000a_0655 0x0020_0800 0x7bfa_fbff 0xbfeb_fbff
    by_cases legacy amd avx = registers 0x00a2_0f10 0x0018_0800 0x7ad8_320b 0x178b_fbff
    by_cases legacy unknown avx = registers 0x00a2_0f10 0x0018_0800 0x7ad8_320b 0

unfoldable pub brand : CpuIdentity → List ℕ
brand id = elim id.presentation [
  | denuvo ↦ modern_brand
  | legacy ↦ elim id.vendor [
    | intel ↦ legacy_intel_brand
    | amd ↦ legacy_amd_brand
    | unknown ↦ legacy_amd_brand
  ]
]

-- Four words of a table; every offset used is within it, so that the default stands for a panic
-- that does not happen.
abbrev pub words_at : List ℕ → ℕ → Registers
words_at words offset =
    registers (get_or words offset 0) (get_or words (offset + 1) 0) (get_or words (offset + 2) 0)
      (get_or words (offset + 3) 0)

unfoldable pub fixed_reply : CpuIdentity → ℕ → Option Registers
fixed_reply id leaf =
    if leaf == 1
    then some (leaf1 id)
    else if leaf == 0x4000_0000
    then some (elim id.vendor [
      | unknown ↦ registers 0 0 0 0
      | intel ↦ registers 0x4000_0001 0x6570_7948 0x6762_4472 0
      | amd ↦ registers 0x4000_0001 0x706d_6953 0x7653_656c 0x2020_206d
    ])
    else if leaf == 0x4000_0001
    then some (elim id.vendor [
      | unknown ↦ registers 0 0 0 0
      | intel ↦ registers 0x3023_7648 0 0 0
      | amd ↦ registers 0x3023_7648 0 0 0
    ])
    else if leb 0x8000_0002 leaf && leb leaf 0x8000_0004
    then some (words_at (brand id) ((leaf - 0x8000_0002) * 4))
    else none

reply_leaves :
    (id : CpuIdentity) (leaf : ℕ)
    → (fixed_reply id leaf ≡ none) ↔ (
        contains (1 ∷ 0x4000_0000 ∷ 0x4000_0001 ∷ 0x8000_0002 ∷ 0x8000_0003 ∷ 0x8000_0004 ∷ []) leaf
        ≡ false)
unfolding fixed_reply
reply_leaves id leaf = ground arith

avx_hidden :
    (id : CpuIdentity) (leaf : ℕ)
    → (leaf ≡ 1)
      ⊎ (fixed_reply (record id { avx_enabled = not id.avx_enabled }) leaf ≡ fixed_reply id leaf)
unfolding fixed_reply brand
avx_hidden id leaf = elim (Bool-cases (leaf == 1)) [
  | inl same ↦ inl (ground arith)
  | inr other ↦ inr (rw other refl)
]

-- Whatever the identity, a leaf is left to the processor exactly if it is not the feature leaf, one of
-- the two hypervisor leaves or one of the three brand leaves; and the feature leaf is the only one
-- whose reply depends on AVX.
pub fixed_reply_leaves :
    (id : CpuIdentity) (leaf : ℕ)
    → ((fixed_reply id leaf ≡ none) ↔ (
        contains (1 ∷ 0x4000_0000 ∷ 0x4000_0001 ∷ 0x8000_0002 ∷ 0x8000_0003 ∷ 0x8000_0004 ∷ []) leaf
        ≡ false))
      × ((leaf ≡ 1)
          ⊎ (fixed_reply (record id { avx_enabled = not id.avx_enabled }) leaf
              ≡ fixed_reply id leaf))
fixed_reply_leaves id leaf = (reply_leaves id leaf, avx_hidden id leaf)
