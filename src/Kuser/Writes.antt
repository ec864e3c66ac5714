-- ===== src/Kuser/Writes.antt =====
-- `Recipe::visit_writes` of protocol/kuser.rs: the bytes that a recipe writes to the shared page, in
-- order. `Kuser.Buffer` has the function of runtime/src/kuser.rs that makes the writes.
use linuwux_runtime.Base.{ℕ, zero, suc, ◌+◌, ◌/◌, ◌%◌, Bool, List, [], ◌∷◌, ◌++◌, if◌then◌else◌}
use linuwux_runtime.Kuser.Recipe.{Recipe}

-- An offset, a size in bytes and a little-endian value.
pub record Op : Type 0 where
  pub offset : ℕ
  pub size : ℕ
  pub value : ℕ

abbrev pub op : ℕ → ℕ → ℕ → Op
op offset size value = record { offset = offset; size = size; value = value }

abbrev pub resume_ops : List Op
resume_ops =
    op 0x260 8 0x100006658
    ∷ op 0x268 4 0x90001
    ∷ op 0x26c 4 0xa
    ∷ op 0x270 4 0x0
    ∷ op 0x274 4 0x1010000
    ∷ op 0x278 4 0x10000
    ∷ op 0x27c 4 0x10101
    ∷ op 0x280 4 0x10101
    ∷ op 0x284 4 0x100
    ∷ op 0x288 4 0x1010101
    ∷ op 0x28c 4 0x0
    ∷ op 0x290 4 0x1
    ∷ op 0x294 4 0x1000101
    ∷ op 0x298 4 0x1010101
    ∷ op 0x29c 4 0x10001
    ∷ op 0x2a0 4 0x0
    ∷ op 0x2a4 4 0x0
    ∷ op 0x2a8 4 0x0
    ∷ op 0x2ac 4 0x0
    ∷ op 0x2b0 4 0x1
    ∷ op 0x3d8 8 0x0
    ∷ op 0x3e0 8 0x0
    ∷ op 0x3ec 4 0x0
    ∷ op 0x5f0 8 0x0
    ∷ op 0x5f8 8 0x0
    ∷ op 0x808 8 0x0
    ∷ op 0x810 8 0x0
    ∷ op 0x2d0 8 0x320a0000000110
    ∷ op 0x2e8 8 0x100007fb10b
    ∷ op 0x2f4 4 0x0
    ∷ op 0x36c 8 0x0
    ∷ op 0x374 8 0x0
    ∷ op 0x37c 4 0x1
    ∷ op 0x3c0 8 0x83000100000010
    ∷ op 0xffc 4 0x13371337
    ∷ []

abbrev pub dispatch_ops : List Op
dispatch_ops =
    op 0x26e 8 0x0
    ∷ op 0x283 8 0x101010000010000
    ∷ op 0x288 8 0x1010101
    ∷ op 0x268 8 0xa00090001
    ∷ op 0x261 8 0x100000001000066
    ∷ op 0x272 8 0x10100000000
    ∷ op 0x3c0 4 0x10
    ∷ op 0x260 8 0x100006658
    ∷ op 0x282 8 0x101000001000001
    ∷ op 0x2d0 4 0x110
    ∷ op 0x2e8 4 0x7fb10b
    ∷ op 0x378 4 0x0
    ∷ op 0x2e8 8 0x100007fb10b
    ∷ op 0x273 8 0x100000101000000
    ∷ op 0x2d0 8 0x320a0000000110
    ∷ op 0x000 8 0xfa0000000000000
    ∷ op 0x378 8 0x100000000
    ∷ op 0x3c0 8 0x83000100000010
    ∷ op 0x26c 8 0xa
    ∷ op 0x2f4 4 0x0
    ∷ op 0x264 4 0x1
    ∷ op 0x270 4 0x0
    ∷ op 0x281 8 0x100000100000101
    ∷ []

abbrev pub selector_ops : List Op
selector_ops =
    op 0x2d6 4 0x10034
    ∷ op 0x2e8 4 0xbf9c8f
    ∷ op 0x3c0 4 0x10
    ∷ op 0x288 4 0x1010101
    ∷ op 0x268 4 0x90001
    ∷ op 0x2f4 4 0x0
    ∷ op 0x264 4 0x1
    ∷ op 0x2d0 4 0x310
    ∷ op 0x260 4 0x6658
    ∷ op 0x26c 4 0xa
    ∷ op 0x270 4 0x0
    ∷ []

pub record Write : Type 0 where
  pub at : ℕ
  pub byte : ℕ

abbrev pub write : ℕ → ℕ → Write
write at byte = record { at = at; byte = byte }

-- `value.to_le_bytes()[..size]`
unfoldable pub le_bytes : ℕ → ℕ → List ℕ
le_bytes zero value = []
le_bytes (suc size) value = value % 256 ∷ le_bytes size (value / 256)

unfoldable pub write_bytes : ℕ → List ℕ → List Write
write_bytes offset [] = []
write_bytes offset (byte ∷ bytes) = write offset byte ∷ write_bytes (offset + 1) bytes

-- The loop over a table.
unfoldable pub write_ops : List Op → List Write
unfolding write_bytes le_bytes
write_ops [] = []
write_ops (o ∷ ops) = write_bytes o.offset (le_bytes o.size o.value) ++ write_ops ops

-- `for offset in start..start + count`
unfoldable pub zero_range : ℕ → ℕ → List Write
zero_range start zero = []
zero_range start (suc count) = write start 0 ∷ zero_range (start + 1) count

unfoldable pub zero_at : List ℕ → List Write
zero_at [] = []
zero_at (offset ∷ offsets) = write offset 0 ∷ zero_at offsets

-- Each character of the root and a zero byte behind it.
unfoldable pub write_wide : ℕ → List ℕ → List Write
write_wide offset [] = []
write_wide offset (byte ∷ bytes) =
    write offset byte ∷ write (offset + 1) 0 ∷ write_wide (offset + 2) bytes

-- `b"C:\\Windows\0"`
abbrev pub system_root : List ℕ
system_root = b'C' ∷ b':' ∷ 0x5c ∷ b'W' ∷ b'i' ∷ b'n' ∷ b'd' ∷ b'o' ∷ b'w' ∷ b's' ∷ 0 ∷ []

-- What `Resume` writes after its table.
unfoldable pub resume_clears : Bool → List Write
unfolding zero_at zero_range
resume_clears avx_enabled =
    zero_at (0x290 ∷ 0x294 ∷ 0x295 ∷ 0x297 ∷ [])
    ++ ((if avx_enabled then [] else zero_at (0x285 ∷ 0x29b ∷ 0x29c ∷ []))
        ++ (zero_range 0x3f0 0x200 ++ zero_range 0x604 0x200))

unfoldable pub visit_writes : Recipe → Bool → List Write
unfolding write_wide zero_range write_ops resume_clears
visit_writes Recipe.dispatch avx_enabled = write_ops dispatch_ops
visit_writes Recipe.selector avx_enabled = write_ops selector_ops
visit_writes Recipe.resume avx_enabled =
    write_wide 0x30 system_root
    ++ (zero_range 0x46 0xee ++ (write_ops resume_ops ++ resume_clears avx_enabled))
