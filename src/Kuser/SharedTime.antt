-- ===== src/Kuser/SharedTime.antt =====
-- runtime/src/shared_time.rs and the set-up of runtime/src/kuser.rs: whether the shared page is Wine's
-- mapping. What mincore, the reads of /proc/self/maps, getenv and sysconf answer are arguments.
use linuwux_runtime.Base.{
  ℕ, ◌+◌, ◌≡◌, ap, Bool, true, false, not, ◌&&◌, ◌||◌, Option, none, some, List, [], ◌∷◌, ◌++◌, ◌∙◌,
  ◌==◌, leb, bytes_eq, if◌then◌else◌, arith,
}
use linuwux_runtime.Text.Bytes.{is_one, deleted_suffix, without_suffix}
use linuwux_runtime.Text.Maps.{parse}
use linuwux_runtime.Text.Lines.{find_line}
use linuwux_runtime.Kuser.Recipe.{Recipe}
use linuwux_runtime.Kuser.Buffer.{page_size}
use linuwux_runtime.Kuser.SharedPage.{Setup, SharedPage, apply_recipe_to_shared_page}

abbrev pub address : ℕ
address = 0x7ffe_0000

-- "/memfd:wine-mapping"
abbrev pub wine_mapping_path : List ℕ
wine_mapping_path =
    0x2f ∷ 0x6d ∷ 0x65 ∷ 0x6d ∷ 0x66 ∷ 0x64 ∷ 0x3a ∷ 0x77 ∷ 0x69 ∷ 0x6e ∷ 0x65 ∷ 0x2d ∷ 0x6d ∷ 0x61
    ∷ 0x70 ∷ 0x70 ∷ 0x69 ∷ 0x6e ∷ 0x67 ∷ []

-- "r--s" and "rw-s"
abbrev pub is_shared_mapping : List ℕ → Bool
is_shared_mapping permissions =
    bytes_eq permissions (0x72 ∷ 0x2d ∷ 0x2d ∷ 0x73 ∷ [])
    || bytes_eq permissions (0x72 ∷ 0x77 ∷ 0x2d ∷ 0x73 ∷ [])

unfoldable pub wine_mapping : List ℕ → Bool
wine_mapping line = elim (parse line) [
  | none ↦ false
  | some mapping ↦
      (mapping.start == address)
      && leb (address + page_size) mapping.end
      && is_shared_mapping mapping.permissions
      && not (bytes_eq mapping.inode (0x30 ∷ []))
      && bytes_eq (without_suffix mapping.path deleted_suffix) wine_mapping_path
]

-- What the kernel shows at one look: whether the page is mapped, whether the maps open, and their reads.
pub record Look : Type 0 where
  pub present : Bool
  pub opens : Bool
  pub chunks : List (List ℕ)

-- The statics of kuser.rs and shared_time.rs that the set-up and the check write.
pub record Statics : Type 0 where
  pub page_geometry_supported : Bool
  pub avx_enabled : Bool
  pub syscall_hack_enabled : Bool
  pub verified : Bool

-- `find_line(wine_mapping)`; the visitor keeps nothing.
abbrev pub maps_wine : Look → Bool
maps_wine look = (find_line (λ line v. (wine_mapping line, v)) look.opens look.chunks true).0

unfoldable pub verify_shared_page : Look → Statics → Bool
verify_shared_page look w =
    if not w.page_geometry_supported then false else look.present && maps_wine look

unfoldable pub prepare_shared_page : Look → Statics → Statics
prepare_shared_page look w = record w { verified = verify_shared_page look w }

-- `ensure_verified`, and so `shared_page_available_for_write`.
unfoldable pub ensure_verified : Look → Statics → Bool × Statics
ensure_verified look w =
    if w.verified
    then (true, w)
    else if verify_shared_page look w
    then (true, record w { verified = true })
    else (false, w)

-- The variables PROTON_AVX and LINUWUX_SYSCALL_HACK, the page size, and the first look.
pub record SetUpCalls : Type 0 where
  pub proton_avx : Option (List ℕ)
  pub syscall_hack : Option (List ℕ)
  pub page_size : Option ℕ
  pub first_look : Look

abbrev pub is_page_size : Option ℕ → Bool
is_page_size none = false
is_page_size (some size) = size == page_size

-- `linuwux_setup_kuser`, less the installation of the bridge in the game's process.
unfoldable pub linuwux_setup_kuser : SetUpCalls → Statics → Statics
linuwux_setup_kuser c w = prepare_shared_page c.first_look (record w {
  page_geometry_supported = is_page_size c.page_size;
  avx_enabled = is_one c.proton_avx;
  syscall_hack_enabled = is_one c.syscall_hack;
})

-- A check, or the preparation that `install_bridge` of hooks.rs repeats for each action of SIGSEGV.
pub data Event : Type 0 where
  checks : (look : Look) → Event
  prepares : (look : Look) → Event

-- The statics after some more events.
unfoldable pub happened : List Event → Statics → Statics
happened [] w = w
happened (checks look ∷ es) w = happened es (ensure_verified look w).1
happened (prepares look ∷ es) w = happened es (prepare_shared_page look w)

-- The looks since the last preparation, behind those that there were.
abbrev pub recent : List Event → List Look → List Look
recent [] looks = looks
recent (checks look ∷ es) looks = recent es (looks ++ look ∷ [])
recent (prepares look ∷ es) looks = recent es (look ∷ [])

-- Whether one of the looks shows Wine's mapping.
unfoldable pub any_shows : List Look → Bool
any_shows [] = false
any_shows (look ∷ looks) = (look.present && maps_wine look) || any_shows looks

any_shows-append :
    (looks : List Look) (look : Look)
    → any_shows (looks ++ look ∷ []) ≡ any_shows looks || (look.present && maps_wine look)
unfolding any_shows
any_shows-append [] look = ground arith
any_shows-append (first ∷ looks) look = ground (arith, any_shows-append looks look)

-- What was verified is what the looks showed.
abbrev Shown : Statics → List Look → Type 0
Shown w looks = w.verified ≡ w.page_geometry_supported && any_shows looks

ensure_verified-shows :
    (look : Look) (looks : List Look) (w : Statics)
    → Shown w looks
    → ((ensure_verified look w).0 ≡ w.page_geometry_supported && any_shows (looks ++ look ∷ []))
      × Shown (ensure_verified look w).1 (looks ++ look ∷ [])
      × ((ensure_verified look w).1.page_geometry_supported ≡ w.page_geometry_supported)
unfolding ensure_verified verify_shared_page
ensure_verified-shows look looks w shown =
    let more = any_shows-append looks look in ground (arith, more, shown)

prepare_shared_page-Shown :
    (look : Look) (w : Statics) → Shown (prepare_shared_page look w) (look ∷ [])
unfolding prepare_shared_page verify_shared_page any_shows
prepare_shared_page-Shown look w = ground arith

happened-ensure_verified :
    (es : List Event) (looks : List Look) (last : Look) (w : Statics)
    → Shown w looks
    → (ensure_verified last (happened es w)).0
      ≡ w.page_geometry_supported && any_shows (recent es looks ++ last ∷ [])
unfolding happened prepare_shared_page
happened-ensure_verified [] looks last w shown = (ensure_verified-shows last looks w shown).0
happened-ensure_verified (checks look ∷ es) looks last w shown =
    let (answer, shown', same) = ensure_verified-shows look looks w shown in
    happened-ensure_verified es (looks ++ look ∷ []) last (ensure_verified look w).1 shown'
    ∙ ap (λ g. g && any_shows (recent es (looks ++ look ∷ []) ++ last ∷ [])) same
happened-ensure_verified (prepares look ∷ es) looks last w shown =
    happened-ensure_verified es (look ∷ []) last (prepare_shared_page look w)
      (prepare_shared_page-Shown look w)

linuwux_setup_kuser-ensure_verified :
    (c : SetUpCalls) (es : List Event) (last : Look) (w : Statics)
    → (ensure_verified last (happened es (linuwux_setup_kuser c w))).0
      ≡ is_page_size c.page_size && any_shows (recent es (c.first_look ∷ []) ++ last ∷ [])
unfolding linuwux_setup_kuser prepare_shared_page
linuwux_setup_kuser-ensure_verified c es last w =
    happened-ensure_verified es (c.first_look ∷ []) last (linuwux_setup_kuser c w) (
      prepare_shared_page-Shown c.first_look (record w {
        page_geometry_supported = is_page_size c.page_size;
        avx_enabled = is_one c.proton_avx;
        syscall_hack_enabled = is_one c.syscall_hack;
      }))

-- What a patch of the page works with, in the game's process or another one.
unfoldable pub setup_of : Statics → (game available : Bool) → Setup
setup_of w game available = record {
  page_geometry_supported = w.page_geometry_supported;
  shared_page_available = available;
  avx_enabled = w.avx_enabled;
  syscall_hack_enabled = w.syscall_hack_enabled && game;
}

apply_available :
    (w : Statics) (game : Bool) (recipe : Recipe) (s : SharedPage) (available shown : Bool)
    → available ≡ shown
    → apply_recipe_to_shared_page (setup_of w game available) recipe s
      ≡ (if shown then apply_recipe_to_shared_page (setup_of w game true) recipe s else (false, s))
unfolding apply_recipe_to_shared_page setup_of
apply_available w game recipe s available true e =
    ap (λ a. apply_recipe_to_shared_page (setup_of w game a) recipe s) e
apply_available w game recipe s available false e = ground (arith, e)

-- After the set-up and any number of further checks and preparations, the next check finds the page
-- available exactly if pages have 4096 bytes and one of the looks from the last preparation on shows
-- Wine's mapping, those of that preparation (the set-up's, if it is not repeated) and of the check itself
-- included; and otherwise a recipe changes nothing and fails.
pub available_iff_shown :
    (c : SetUpCalls) (es : List Event) (last : Look) (w : Statics) (game : Bool) (recipe : Recipe)
    (s : SharedPage)
    → let w' = happened es (linuwux_setup_kuser c w) in
      let looks = recent es (c.first_look ∷ []) ++ last ∷ [] in
      let shown = is_page_size c.page_size && any_shows looks in
      ((ensure_verified last w').0 ≡ shown)
      × (apply_recipe_to_shared_page (setup_of w' game (ensure_verified last w').0) recipe s ≡ (
          if shown
          then apply_recipe_to_shared_page (setup_of w' game true) recipe s
          else (false, s)))
available_iff_shown c es last w game recipe s =
    let e = linuwux_setup_kuser-ensure_verified c es last w in
    (e, apply_available (happened es (linuwux_setup_kuser c w)) game recipe s _ _ e)
