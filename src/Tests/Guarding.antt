-- ===== src/Tests/Guarding.antt =====
-- The guard of the shared page, taken by one thread and left over in a fork; and the test of Wine's mapping.
use linuwux_runtime.Text.Bytes.{take_while, drop_while, split_first, split_others, without_suffix}
use linuwux_runtime.Text.Maps.{parse, next_field, parse_bounds, parse_hex, fold_hex, hex_digit}
use linuwux_runtime.Base.{
  List, [], ◌∷◌, some, none, ◌&&◌, if◌then◌else◌, ℕ, ◌≡◌, ◌≢◌, ◌⊎◌, refl, true, false, arith,
}
use linuwux_runtime.PageGuard.{
  Guarded, outside, loaded, taken, holding, patching, load, take, acquire, begin, place, Process,
  accesses, Reached, starts, moves,
}
use linuwux_runtime.PageGuard.Exclusive.{guard_alone}
use linuwux_runtime.Kuser.Recipe.{Recipe}
use linuwux_runtime.Kuser.SharedPage.{SharedPage, apply_recipe_to_shared_page}
use linuwux_runtime.Kuser.SharedTime.{
  wine_mapping, Look, Statics, SetUpCalls, linuwux_setup_kuser, ensure_verified, Event, happened,
  any_shows, is_page_size, setup_of, available_iff_shown,
}
use linuwux_runtime.PageGuard.Forked.{Accesses, child_acquires}

-- Process 40.
abbrev words : ℕ → Guarded
words owner = record { pid = 40; owner = owner; applying = false }

abbrev at_first : Process
at_first = record { guarded = words 0; pc = λ _. outside }

abbrev after_load : Process
after_load = record { guarded = words 0; pc = place at_first.pc 3 (loaded 0) }

abbrev after_take : Process
after_take = record { guarded = words 40; pc = place after_load.pc 3 (taken 0) }

abbrev with_guard : Process
with_guard = record { guarded = words 40; pc = place after_take.pc 3 holding }

-- Thread 3 patches.
abbrev in_patch : Process
in_patch = record {
  guarded = record { pid = 40; owner = 40; applying = true };
  pc = place with_guard.pc 3 patching;
}

in_patch-Reached : Reached in_patch
in_patch-Reached =
    moves
      (moves
        (moves (moves (starts 40 (λ e. omega arith)) (accesses 3 load))
          (accesses 3 (take (λ e. omega arith) refl)))
        (accesses 3 acquire))
      (accesses 3 (begin refl))

guard_alone_example :
    (◌≡◌ {A = ℕ} 3 3)
    × (in_patch.guarded.owner ≡ in_patch.guarded.pid)
    × ((in_patch.pc 3 ≢ holding) ⊎ (in_patch.guarded.applying ≡ false))
guard_alone_example = guard_alone 3 3 in_patch-Reached refl refl

child_acquires_example :
    (u : Process) × Accesses 0
      (record { guarded = record in_patch.guarded { pid = 41 }; pc = λ _. outside })
      3
      u
    × (u.pc 0 ≡ holding)
    × (u.guarded.applying ≡ false)
    × (u.guarded.owner ≡ 41)
child_acquires_example = child_acquires 41 0 in_patch-Reached (λ e. omega arith) (λ e. omega arith)

-- "7ffe0000-7ffe1000 rw-s 00000000 00:01 123 /memfd:wine-mapping (deleted)"
abbrev deleted_line : List ℕ
deleted_line =
    0x37 ∷ 0x66 ∷ 0x66 ∷ 0x65 ∷ 0x30 ∷ 0x30 ∷ 0x30 ∷ 0x30 ∷ 0x2d ∷ 0x37 ∷ 0x66 ∷ 0x66 ∷ 0x65 ∷ 0x31
    ∷ 0x30 ∷ 0x30 ∷ 0x30 ∷ 0x20 ∷ 0x72 ∷ 0x77 ∷ 0x2d ∷ 0x73 ∷ 0x20 ∷ 0x30 ∷ 0x30 ∷ 0x30 ∷ 0x30
    ∷ 0x30 ∷ 0x30 ∷ 0x30 ∷ 0x30 ∷ 0x20 ∷ 0x30 ∷ 0x30 ∷ 0x3a ∷ 0x30 ∷ 0x31 ∷ 0x20 ∷ 0x31 ∷ 0x32
    ∷ 0x33 ∷ 0x20 ∷ 0x2f ∷ 0x6d ∷ 0x65 ∷ 0x6d ∷ 0x66 ∷ 0x64 ∷ 0x3a ∷ 0x77 ∷ 0x69 ∷ 0x6e ∷ 0x65
    ∷ 0x2d ∷ 0x6d ∷ 0x61 ∷ 0x70 ∷ 0x70 ∷ 0x69 ∷ 0x6e ∷ 0x67 ∷ 0x20 ∷ 0x28 ∷ 0x64 ∷ 0x65 ∷ 0x6c
    ∷ 0x65 ∷ 0x74 ∷ 0x65 ∷ 0x64 ∷ 0x29 ∷ []

-- "7ffe0000-7ffe1000 rw-s 00000000 00:01 123 /memfd:something-else (deleted)"
abbrev other_line : List ℕ
other_line =
    0x37 ∷ 0x66 ∷ 0x66 ∷ 0x65 ∷ 0x30 ∷ 0x30 ∷ 0x30 ∷ 0x30 ∷ 0x2d ∷ 0x37 ∷ 0x66 ∷ 0x66 ∷ 0x65 ∷ 0x31
    ∷ 0x30 ∷ 0x30 ∷ 0x30 ∷ 0x20 ∷ 0x72 ∷ 0x77 ∷ 0x2d ∷ 0x73 ∷ 0x20 ∷ 0x30 ∷ 0x30 ∷ 0x30 ∷ 0x30
    ∷ 0x30 ∷ 0x30 ∷ 0x30 ∷ 0x30 ∷ 0x20 ∷ 0x30 ∷ 0x30 ∷ 0x3a ∷ 0x30 ∷ 0x31 ∷ 0x20 ∷ 0x31 ∷ 0x32
    ∷ 0x33 ∷ 0x20 ∷ 0x2f ∷ 0x6d ∷ 0x65 ∷ 0x6d ∷ 0x66 ∷ 0x64 ∷ 0x3a ∷ 0x73 ∷ 0x6f ∷ 0x6d ∷ 0x65
    ∷ 0x74 ∷ 0x68 ∷ 0x69 ∷ 0x6e ∷ 0x67 ∷ 0x2d ∷ 0x65 ∷ 0x6c ∷ 0x73 ∷ 0x65 ∷ 0x20 ∷ 0x28 ∷ 0x64
    ∷ 0x65 ∷ 0x6c ∷ 0x65 ∷ 0x74 ∷ 0x65 ∷ 0x64 ∷ 0x29 ∷ []

deleted_is_wine : wine_mapping deleted_line ≡ true
unfolding wine_mapping parse next_field take_while drop_while parse_bounds parse_hex fold_hex
    hex_digit split_first split_others without_suffix
deleted_is_wine = refl

other_is_not_wine : wine_mapping other_line ≡ false
unfolding wine_mapping parse next_field take_while drop_while parse_bounds parse_hex fold_hex
    hex_digit split_first split_others without_suffix
other_is_not_wine = refl

-- The maps show another file first, and Wine's mapping at the second look.
abbrev unmapped : Look
unmapped = record { present = true; opens = true; chunks = other_line ∷ [] }

abbrev mapped : Look
mapped = record { present = true; opens = true; chunks = deleted_line ∷ [] }

abbrev variables : SetUpCalls
variables = record {
  proton_avx = some (0x31 ∷ []);
  syscall_hack = none;
  page_size = some 4096;
  first_look = unmapped;
}

abbrev zeroed : Statics
zeroed = record {
  page_geometry_supported = false;
  avx_enabled = false;
  syscall_hack_enabled = false;
  verified = false;
}

abbrev wine_page : SharedPage
wine_page = record { page = λ o. 1; writable = false; hack_applied = false; answers = [] }

-- A look that shows the mapping, a preparation that does not, and a look that does again.
abbrev more_events : List Event
more_events = Event.checks mapped ∷ Event.prepares unmapped ∷ Event.checks mapped ∷ []

available_iff_shown_example :
    let w = happened more_events (linuwux_setup_kuser variables zeroed) in
    let shown = is_page_size (some 4096) && any_shows (unmapped ∷ mapped ∷ unmapped ∷ []) in
    ((ensure_verified unmapped w).0 ≡ shown)
    × (apply_recipe_to_shared_page
          (setup_of w true (ensure_verified unmapped w).0)
          Recipe.resume
          wine_page
        ≡ (if shown
            then apply_recipe_to_shared_page (setup_of w true true) Recipe.resume wine_page
            else (false, wine_page)))
available_iff_shown_example =
    available_iff_shown variables more_events unmapped zeroed true Recipe.resume wine_page
