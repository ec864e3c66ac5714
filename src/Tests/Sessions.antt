-- ===== src/Tests/Sessions.antt =====
-- The walk to Gamescope, the interposed setenv and the shared clock at concrete inputs.
use linuwux_runtime.Base.{
  ℕ, ◌≡◌, ◌≢◌, ◌≤◌, ◌⊎◌, ◌↔◌, ◌<◌, refl, inl, inr, Bool, true, false, Option, none, some, List, [],
  ◌∷◌, ◌==◌, ◌++◌, ◌+◌, bytes_eq, bytes_eq_sound, if◌then◌else◌, Bool-cases, arith,
}
use linuwux_runtime.Text.Bytes.{split_others, split_first, take_while, drop_while}
use linuwux_runtime.Text.Gamescope.{
  any_is, preload_has_path, preserved_length, is_gamescope_path, parent_process_id, strip_prefix,
  signed_value, parse_digits, first_is, gamescope, i32_max,
}
use linuwux_runtime.Session.{
  Processes, process_is_gamescope, parent_in, has_bad_parent, parent_of, next_process,
  ancestor_within, has_gamescope_ancestor, ld_preload, fill_preserved, RealEnvironment, Preloading,
  is_set, set_preserved, setenv,
}
use linuwux_runtime.Session.Proc.{Tree, link_of, IsPath, Shows, parent_line, Describes, Gamescope}
use linuwux_runtime.Session.Ancestry.{ancestor, has_gamescope_ancestor_iff}
use linuwux_runtime.Session.Preload.{
  Documented, Call, sets, unsets, after, Preloads, after-Preloads,
}
use linuwux_runtime.SharedClock.{
  Clock, new_clock, Socket, SetCalls, peek_due, gettimeofday, set_offset, init_socketpair,
  make_pair, place_pair,
}
use linuwux_runtime.SharedClock.Published.{Delivers, set_offset-gettimeofday}

-- An environment with LD_PRELOAD alone.
abbrev Environment : Type 0
Environment = Option (List ℕ)

abbrev write : List ℕ → Bool → Environment → Environment
write value true e = some value
write value false none = some value
write value false (some old) = some old

abbrev real_getenv : List ℕ → Environment → Option (List ℕ)
real_getenv name e = if bytes_eq name ld_preload then e else none

abbrev real_setenv : List ℕ → List ℕ → Bool → Environment → Bool × Environment
real_setenv name value overwrite e =
    (true, if bytes_eq name ld_preload then write value overwrite e else e)

abbrev real_unsetenv : List ℕ → Environment → Bool × Environment
real_unsetenv name e = (true, if bytes_eq name ld_preload then none else e)

abbrev real : RealEnvironment Environment
real = record { getenv = real_getenv; setenv = real_setenv; unsetenv = real_unsetenv }

both_own :
    (name other : List ℕ)
    → bytes_eq name other ≡ false
    → bytes_eq name ld_preload ≡ true
    → bytes_eq other ld_preload ≡ false
both_own name other apart own = elim (Bool-cases (bytes_eq other ld_preload)) [
  | inr stranger ↦ stranger
  | inl also ↦
      let same : bytes_eq name other ≡ true =
        rw (bytes_eq_sound name ld_preload own, bytes_eq_sound other ld_preload also) refl in
      absurd (ground (arith, same, apart))
]

apart_lem :
    (name other : List ℕ) (changed e : Environment)
    → bytes_eq name other ≡ false
    → real_getenv other (if bytes_eq name ld_preload then changed else e) ≡ real_getenv other e
apart_lem name other changed e apart = elim (Bool-cases (bytes_eq name ld_preload)) [
  | inr stranger ↦ rw stranger refl
  | inl own ↦ rw (both_own name other apart own) refl
]

written_value :
    (value : List ℕ) (overwrite : Bool) (e : Environment)
    → (write value overwrite e ≡ some value) ⊎ (write value overwrite e ≡ e)
written_value value true e = inl refl
written_value value false none = inl refl
written_value value false (some old) = inr refl

stores_lem :
    (name value : List ℕ) (overwrite : Bool) (e : Environment)
    → (real_getenv name (real_setenv name value overwrite e).1 ≡ some value)
      ⊎ (real_getenv name (real_setenv name value overwrite e).1 ≡ real_getenv name e)
stores_lem name value overwrite e = elim (Bool-cases (bytes_eq name ld_preload)) [
  | inr stranger ↦ inr (rw stranger refl)
  | inl own ↦ elim (written_value value overwrite e) [
    | inl new ↦ inl (rw (own, new) refl)
    | inr old ↦ inr (rw (own, old) refl)
  ]
]

keeps_lem :
    (name value : List ℕ) (e : Environment)
    → is_set (real_getenv name e) ≡ true
    → real_getenv name (real_setenv name value false e).1 ≡ real_getenv name e
keeps_lem name value none set = ground (arith, set)
keeps_lem name value (some old) set = ground (arith, set)

real-Documented : Documented real
real-Documented = record {
  stores = stores_lem;
  keeps = keeps_lem;
  set_apart = λ name other value overwrite e. apart_lem name other (write value overwrite e) e;
  unset_apart = λ name other e. apart_lem name other none e;
}

-- "/a"
abbrev runtime_path : List ℕ
runtime_path = 0x2f ∷ 0x61 ∷ []

-- "/b"
abbrev other_path : List ℕ
other_path = 0x2f ∷ 0x62 ∷ []

abbrev preloading : Preloading
preloading = record { enabled = some runtime_path; is_space = λ b. b == 0x20; mallocs = true }

-- LD_PRELOAD is overwritten, then removed, and another variable is set.
abbrev calls : List Call
calls = sets ld_preload other_path true ∷ unsets ld_preload ∷ sets other_path other_path true ∷ []

runtime_named : runtime_path ≢ []
runtime_named e = cc

-- "/b:/a"
overwritten :
    (setenv real preloading ld_preload other_path true (some runtime_path)).1
    ≡ some (0x2f ∷ 0x62 ∷ 0x3a ∷ 0x2f ∷ 0x61 ∷ [])
unfolding setenv set_preserved fill_preserved preload_has_path preserved_length any_is split_others
    split_first take_while
overwritten = refl

after-Preloads_example :
    Preloads real preloading runtime_path (after real preloading calls (some runtime_path))
unfolding preload_has_path any_is split_others split_first take_while
after-Preloads_example =
    after-Preloads real preloading runtime_path real-Documented runtime_named (refl, (refl, tt))
      refl calls (some runtime_path) (runtime_path, refl, refl)

-- "PPid:\t7" and a newline, behind another line
abbrev status_lines : List (List ℕ)
status_lines = (0x4e ∷ 10 ∷ []) ∷ parent_line (0x37 ∷ []) ∷ []

-- Process 9 is a child of process 7, which is Gamescope.
abbrev executable_if : Bool → Option (List ℕ × List ℕ)
executable_if true = some (other_path, gamescope)
executable_if false = some ([], 0x62 ∷ [])

abbrev parent_if : Bool → ℕ
parent_if true = 7
parent_if false = 0

abbrev status_if : Bool → Option (List (List ℕ))
status_if true = some status_lines
status_if false = none

abbrev tree : Tree
tree = record { parent = λ pid. parent_if (pid == 9); executable = λ pid. executable_if (pid == 7) }

abbrev processes : Processes
processes = record {
  exe = λ pid. link_of (executable_if (pid == 7));
  status = λ pid. status_if (pid == 9);
}

paths_if : (is : Bool) → IsPath (executable_if is)
paths_if true = (refl, refl, refl, omega arith)
paths_if false = (refl, refl, refl, omega arith)

statuses_if : (is : Bool) → Shows (parent_if is) (status_if is)
statuses_if true = ((0x4e ∷ 10 ∷ []) ∷ [], [], 0x37, [], refl, (refl, refl, tt), refl, refl)
statuses_if false = refl

ids_if : (is : Bool) → parent_if is ≤ i32_max
ids_if true = omega arith
ids_if false = omega arith

processes-Describes : Describes processes tree
processes-Describes = record {
  links = λ pid. refl;
  paths = λ pid. paths_if (pid == 7);
  statuses = λ pid. statuses_if (pid == 9);
  ids = λ pid. ids_if (pid == 9);
  first = refl;
  none_above = refl;
}

has_gamescope_ancestor_iff_example :
    (has_gamescope_ancestor processes 9 ≡ true)
    ↔ ((k : ℕ) × (k < 64) × ((ancestor tree k 9 ≢ 0) × Gamescope tree (ancestor tree k 9)))
has_gamescope_ancestor_iff_example =
    has_gamescope_ancestor_iff processes tree 9 processes-Describes (λ e. omega arith)

child_of_gamescope : has_gamescope_ancestor processes 9 ≡ true
unfolding has_gamescope_ancestor ancestor_within process_is_gamescope next_process parent_of
    parent_in has_bad_parent parent_process_id strip_prefix signed_value parse_digits first_is
    drop_while take_while is_gamescope_path split_first split_others
child_of_gamescope = refl

-- A pair whose datagrams queue.
abbrev first_of : List ℕ → Option ℕ
first_of [] = none
first_of (x ∷ xs) = some x

abbrev queue : Socket (List ℕ)
queue = record { peek = first_of; send = λ offset waiting. (true, waiting ++ offset ∷ []) }

queue-Delivers : Delivers queue []
queue-Delivers = record { waits = λ offset. refl }

abbrev ready_clock : Clock
ready_clock = record new_clock { initialized = true; ready = true }

due_at_first : (peek_due 1000 ready_clock).0 ≡ true
unfolding peek_due
due_at_first = refl

-- At 1700000000, the time is set to 1600000000; it is shown 5 seconds later.
set_offset-gettimeofday_example :
    let c : SetCalls = record { guards = true; real_seconds = some 1700000000 } in
    let (writer, channel) = set_offset queue c 132444736000000000 [] ready_clock in
    ((gettimeofday queue 1000 channel (some (1700000000 + 5)) ready_clock).0
      ≡ some (1600000000 + 5))
    × ((gettimeofday queue 1000 channel (some (1700000000 + 5)) writer).0 ≡ some (1600000000 + 5))
set_offset-gettimeofday_example =
    set_offset-gettimeofday queue [] queue-Delivers 1700000000 132444736000000000 5 1000 ready_clock
      ready_clock (omega arith) (omega arith) (omega arith) refl refl refl due_at_first

-- Both ends are closed behind their copies.
new_pair :
    init_socketpair
      (record {
        recv_is_socket = false;
        send_is_socket = false;
        recv_is_open = false;
        send_is_open = false;
        pair = some (4, 5);
        dups_recv = true;
        dups_send = true;
      })
      new_clock
    ≡ (ready_clock, 4 ∷ 5 ∷ [])
unfolding init_socketpair make_pair place_pair
new_pair = refl

-- The pair lands on the second descriptor: the end that sends is replaced before its copy is made.
pair_on_the_other_place :
    init_socketpair
      (record {
        recv_is_socket = false;
        send_is_socket = false;
        recv_is_open = false;
        send_is_open = false;
        pair = some (4, 67);
        dups_recv = true;
        dups_send = true;
      })
      new_clock
    ≡ (ready_clock, 4 ∷ [])
unfolding init_socketpair make_pair place_pair
pair_on_the_other_place = refl

-- A socket of somebody else at the first descriptor is replaced if the second one is free.
socket_replaced :
    init_socketpair
      (record {
        recv_is_socket = true;
        send_is_socket = false;
        recv_is_open = true;
        send_is_open = false;
        pair = some (4, 5);
        dups_recv = true;
        dups_send = true;
      })
      new_clock
    ≡ (ready_clock, 4 ∷ 5 ∷ [])
unfolding init_socketpair make_pair place_pair
socket_replaced = refl
