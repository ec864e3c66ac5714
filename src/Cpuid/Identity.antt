-- ===== src/Cpuid/Identity.antt =====
-- protocol/cpuid.rs: the registers, the vendor of the host, the identity and its encoding as a word.
-- The bits that `encode` joins by `|` are disjoint, so that the word is their sum.
use linuwux_runtime.Base.{
  ℕ, ◌+◌, ◌*◌, ◌/◌, ◌%◌, ◌≡◌, refl, Bool, true, false, Option, none, some, List, ◌∷◌, [], ◌==◌,
  ◌&&◌, not, if◌then◌else◌, ltb, leb, bytes_eq,
}

pub record Registers : Type 0 where
  pub eax : ℕ
  pub ebx : ℕ
  pub ecx : ℕ
  pub edx : ℕ

abbrev pub registers : ℕ → ℕ → ℕ → ℕ → Registers
registers a b c d = record { eax = a; ebx = b; ecx = c; edx = d }

pub data Vendor : Type 0 where
  unknown : Vendor
  intel : Vendor
  amd : Vendor

pub data CpuPresentation : Type 0 where
  denuvo : CpuPresentation
  legacy : CpuPresentation

pub record CpuIdentity : Type 0 where
  pub vendor : Vendor
  pub avx_enabled : Bool
  pub presentation : CpuPresentation

unfoldable pub denuvo_identity : Vendor → Bool → CpuIdentity
denuvo_identity v avx = record { vendor = v; avx_enabled = avx; presentation = denuvo }

unfoldable pub with_presentation : CpuIdentity → CpuPresentation → CpuIdentity
with_presentation id p = record id { presentation = p }

abbrev pub vendor_code : Vendor → ℕ
vendor_code unknown = 0
vendor_code intel = 1
vendor_code amd = 2

abbrev pub presentation_code : CpuPresentation → ℕ
presentation_code denuvo = 0
presentation_code legacy = 1

unfoldable pub encode : CpuIdentity → ℕ
encode id =
    vendor_code id.vendor
    + (if id.avx_enabled then 1 else 0) * 4
    + presentation_code id.presentation * 8

unfoldable pub decode : ℕ → CpuIdentity
decode raw = record {
  vendor = if raw % 4 == 1 then intel else if raw % 4 == 2 then amd else unknown;
  avx_enabled = not (raw / 4 % 2 == 0);
  presentation = if raw / 8 % 2 == 0 then denuvo else legacy;
}

-- The vendor string of leaf 0: `GenuineIntel` or `AuthenticAMD`.
unfoldable pub from_leaf0 : Registers → Vendor
from_leaf0 r =
    if (r.ebx == 0x756e_6547) && (r.edx == 0x4965_6e69) && (r.ecx == 0x6c65_746e)
    then intel
    else if (r.ebx == 0x6874_7541) && (r.edx == 0x6974_6e65) && (r.ecx == 0x444d_4163)
    then amd
    else unknown

-- The value of `PROTON_AVX` is exactly `1`.
unfoldable pub proton_avx_enabled : Option (List ℕ) → Bool
proton_avx_enabled none = false
proton_avx_enabled (some value) = bytes_eq value (0x31 ∷ [])

abbrev pub wine_system_rip_min : ℕ
wine_system_rip_min = 0x0000_6fff_ff00_0000

abbrev pub wine_system_rip_max : ℕ
wine_system_rip_max = 0x0000_7000_0000_0000

unfoldable pub is_wine_system_rip : ℕ → Bool
is_wine_system_rip address = leb wine_system_rip_min address && ltb address wine_system_rip_max

decode-encode_fields :
    (v : Vendor) (avx : Bool) (p : CpuPresentation)
    → decode (encode (record { vendor = v; avx_enabled = avx; presentation = p }))
      ≡ record { vendor = v; avx_enabled = avx; presentation = p }
unfolding decode encode
decode-encode_fields unknown false denuvo = refl
decode-encode_fields unknown false legacy = refl
decode-encode_fields unknown true denuvo = refl
decode-encode_fields unknown true legacy = refl
decode-encode_fields intel false denuvo = refl
decode-encode_fields intel false legacy = refl
decode-encode_fields intel true denuvo = refl
decode-encode_fields intel true legacy = refl
decode-encode_fields amd false denuvo = refl
decode-encode_fields amd false legacy = refl
decode-encode_fields amd true denuvo = refl
decode-encode_fields amd true legacy = refl

-- Every identity is read back from the word that encodes it.
pub decode-encode : (id : CpuIdentity) → decode (encode id) ≡ id
decode-encode id = decode-encode_fields id.vendor id.avx_enabled id.presentation
