-- ===== src/Tests/Exports.antt =====
-- An image with two exports, NtA and NtB, at 0x1_0000: the binary search finds the service of NtB.
use Prim.Native.Nat.{Ordering}
use linuwux_runtime.Base.{
  ℕ, zero, suc, ◌≡◌, ◌<◌, ◌+◌, ◌-◌, refl, none, some, List, [], ◌∷◌, ◌==◌, ltb, leb, if◌then◌else◌,
  get_or, arith,
}
use linuwux_runtime.Memory.{
  Memory, bytes_at, read_memory, read_u16, read_u32, from_le_bytes, checked_add,
}
use linuwux_runtime.Text.Bytes.{take_while}
use linuwux_runtime.PeExport.{
  Exports, rva, entry_rva, read_exports, name_at, service_at, compare_bytes, export_service,
}
use linuwux_runtime.PeExport.Search.{scan_names, export_service-scan_names}

-- A run of bytes at an address, before the rest.
abbrev with_run : ℕ → List ℕ → ℕ → Memory → Memory
with_run start bytes n m a =
    if leb start a
    then (if ltb a (start + n) then some (get_or bytes (a - start) 0) else m a)
    else m a

abbrev blank : Memory
blank a = if leb 0x1_0000 a then (if ltb a 0x1_1000 then some 0 else none) else none

abbrev image : Memory
image = with_run 0x1_0000 (0x4d ∷ 0x5a ∷ []) 2 (
    with_run 0x1_003c (0x80 ∷ []) 1 (
      with_run 0x1_0080 (0x50 ∷ 0x45 ∷ 0 ∷ 0 ∷ []) 4 (
        with_run 0x1_0098 (0x0b ∷ 0x02 ∷ []) 2 (
          with_run 0x1_00d0 (0 ∷ 0x10 ∷ []) 2 (
            with_run 0x1_0108 (0 ∷ 0x02 ∷ []) 2 (
              with_run 0x1_0214
                (2 ∷ 0 ∷ 0 ∷ 0 ∷ 2 ∷ 0 ∷ 0 ∷ 0 ∷ 0 ∷ 3 ∷ 0 ∷ 0 ∷ 0x40 ∷ 3 ∷ 0 ∷ 0 ∷ 0x60 ∷ 3 ∷ 0 ∷ 0
                  ∷ [])
                20
                (with_run 0x1_0300 (0 ∷ 4 ∷ 0 ∷ 0 ∷ 0x10 ∷ 4 ∷ []) 6 (
                  with_run 0x1_0340 (0x80 ∷ 3 ∷ 0 ∷ 0 ∷ 0xa0 ∷ 3 ∷ []) 6 (
                    with_run 0x1_0360 (0 ∷ 0 ∷ 1 ∷ 0 ∷ []) 4 (
                      with_run 0x1_0380 (78 ∷ 116 ∷ 65 ∷ []) 3 (
                        with_run 0x1_03a0 (78 ∷ 116 ∷ 66 ∷ []) 3 (
                          with_run 0x1_0400 (0x4c ∷ 0x8b ∷ 0xd1 ∷ 0xb8 ∷ 0x18 ∷ []) 5 (
                            with_run 0x1_0410 (0x4c ∷ 0x8b ∷ 0xd1 ∷ 0xb8 ∷ 0x5a ∷ 0x13 ∷ []) 6
                              blank)))))))))))))

abbrev exports : Exports
exports = record {
  base = 0x1_0000;
  image_size = 0x1000;
  function_count = 2;
  name_count = 2;
  functions = 0x300;
  names = 0x340;
  ordinals = 0x360;
}

abbrev target : List ℕ
target = 78 ∷ 116 ∷ 66 ∷ []

abbrev names : ℕ → List ℕ
names i = if i == 0 then 78 ∷ 116 ∷ 65 ∷ [] else target

header : read_exports image 0x1_0000 ≡ some exports
unfolding read_exports read_memory bytes_at from_le_bytes checked_add read_u16 read_u32 rva
header = refl

readable : (i : ℕ) → i < 2 → name_at image exports i ≡ some (names i)
unfolding name_at entry_rva rva read_memory bytes_at from_le_bytes checked_add read_u32 take_while
readable zero lt = refl
readable (suc zero) lt = refl
readable (suc (suc i)) lt = absurd (omega arith)

sorted : (i j : ℕ) → i < j → j < 2 → compare_bytes (names i) (names j) ≡ Ordering.lt
unfolding compare_bytes
sorted zero (suc zero) lt le = refl
sorted zero zero lt le = absurd (omega arith)
sorted (suc i) (suc zero) lt le = absurd (omega arith)
sorted (suc i) zero lt le = absurd (omega arith)
sorted i (suc (suc j)) lt le = absurd (omega arith)

export_service-scan_names_example :
    export_service image 0x1_0000 target ≡ scan_names 2 image exports target 0
export_service-scan_names_example =
    export_service-scan_names image 0x1_0000 exports target names header readable sorted

-- The scan answers the service in the code of NtB.
service_b : scan_names 2 image exports target 0 ≡ some 0x135a
unfolding scan_names name_at service_at entry_rva rva read_memory bytes_at from_le_bytes checked_add
    read_u16 read_u32 take_while
service_b = refl
