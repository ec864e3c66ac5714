-- ===== src/Tests/Registers.antt =====
-- The presented CPU and the pages of the KUSER recipes at concrete inputs.
use linuwux_runtime.Base.{List, false, ℕ, ◌≡◌, ◌≤◌, true, [], ◌∷◌, arith, map}
use linuwux_runtime.Cpuid.Identity.{amd, intel, legacy, CpuIdentity, decode}
use linuwux_runtime.Cpuid.Active.{configure_host}
use linuwux_runtime.Cpuid.Active.Updates.{
  Update, configures, selects, applied, until_still, presented, host_with, configure_host-presented,
}
use linuwux_runtime.Kuser.Buffer.{Page, page_size}

abbrev old_amd : CpuIdentity
old_amd = record { vendor = amd; avx_enabled = true; presentation = legacy }

abbrev brand_leaf : ℕ
brand_leaf = 0x8000_0003

-- Another thread configures other things, and then selects the legacy presentation.
abbrev others : List (List Update)
others = (configures amd false ∷ []) ∷ (selects ∷ []) ∷ []

configure_host-presented_example :
    decode (configure_host (map applied others) intel true 4)
    ≡ host_with intel true (presented (until_still others 4) (decode 4).presentation)
configure_host-presented_example = configure_host-presented intel true others 4

abbrev page : Page
page o = o

whole : page_size ≤ 4096
whole = omega arith
