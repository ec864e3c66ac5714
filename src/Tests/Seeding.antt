-- ===== src/Tests/Seeding.antt =====
-- The seeding of a small `system.reg`, and a second process that finds it.
use linuwux_runtime.Base.{◌≡◌, ◌≤◌, length, refl, arith, true, false, some, [], ◌∷◌, ◌++◌}
use linuwux_runtime.Registry.{
  registry_file_is_valid, contains_bytes, slide, scan, registry_already_present,
  wine_registry_magic,
}
use linuwux_runtime.Registry.Append.{
  RegistryCalls, RegistryState, mark_done, append_section, seed_file, seed_prefix, init_registry,
}
use linuwux_runtime.Registry.Again.{next_process, init_registry-again}

abbrev answering : RegistryCalls
answering = record {
  accessible = λ _. true;
  opens = λ _. true;
  locks = true;
  header_read = 64;
  scanned = 200;
  seeks = true;
  taken = 200;
  delivered = 200;
}

-- A file of its first line, in the prefix `/p`.
abbrev fresh_prefix : RegistryState
fresh_prefix = record {
  is_done = false;
  wine_prefix = some (0x2f ∷ 0x70 ∷ []);
  system_reg = wine_registry_magic ++ 10 ∷ [];
}

seeded_mark : (init_registry answering fresh_prefix).is_done ≡ true
unfolding init_registry seed_prefix seed_file append_section mark_done registry_file_is_valid
    registry_already_present scan slide contains_bytes
seeded_mark = refl

seeded_size : length (init_registry answering fresh_prefix).system_reg ≤ 200
unfolding init_registry seed_prefix seed_file append_section mark_done registry_file_is_valid
    registry_already_present scan slide contains_bytes
seeded_size = omega arith

init_registry-again_example :
    (init_registry answering (next_process (init_registry answering fresh_prefix))).system_reg
    ≡ (init_registry answering fresh_prefix).system_reg
init_registry-again_example =
    init_registry-again answering answering fresh_prefix refl (omega arith) seeded_mark seeded_size
