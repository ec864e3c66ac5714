-- ===== src/Tests/Freeing.antt =====
-- win32u frees an address twice, with other calls between.
use linuwux_runtime.Base.{◌≡◌, refl, none, some, true, false, List, [], ◌∷◌, arith}
use linuwux_runtime.PendingFrees.{
  History, new, call, seen_or_mark, find, find_from, evict, insert, bucket,
}
use linuwux_runtime.PendingFrees.Refinement.{start}
use linuwux_runtime.PendingFrees.Reference.{ref_new}
use linuwux_runtime.Hooks.Bootstrap.{is_bootstrap_ptr, begin_resolve}
use linuwux_runtime.Hooks.Guard.{
  Setting, Allocator, resolve, note_of, note_free, release, free_inner, caller_from_win32u,
}
use linuwux_runtime.Hooks.Guard.Kept.{Event, mallocs, frees, after, Watching}
use linuwux_runtime.Hooks.Guard.DoubleFree.{free_inner-free_inner}

abbrev guarded : Setting
guarded = record {
  pool = 0x10_0000;
  has_key = true;
  guard = true;
  game = true;
  loader = record { images = []; image_of = λ _. none };
}

abbrev before : Allocator
before = record {
  offset = 0;
  malloc = record { symbol = 1000; resolving = false };
  free = record { symbol = 2000; resolving = false };
  win32u = record { start = 0x4000; end = 0x8000; scanned = true };
  history = new;
}

-- The history after the first free.
abbrev marked : History
marked = insert (evict new) 64

abbrev freed : Allocator
freed = record before { history = marked }

watched : Watching guarded before
watched = record {
  guard = refl;
  game = refl;
  malloc_known = refl;
  free_known = refl;
  win32u_known = refl;
}

first_passes : free_inner guarded 0 64 0x4100 before ≡ some (some 64, freed)
unfolding free_inner release resolve begin_resolve is_bootstrap_ptr note_free note_of
    caller_from_win32u call seen_or_mark find find_from bucket
first_passes = refl

in_heap : is_bootstrap_ptr guarded.pool 64 ≡ false
unfolding is_bootstrap_ptr
in_heap = refl

abbrev between : List Event
between = frees 80 0x4200 ∷ mallocs 96 8 0x4300 ∷ frees 0 0x4200 ∷ frees 112 0x9000 ∷ []

free_inner-free_inner_example :
    (s₂ s₃ : Allocator) × (after guarded freed between ≡ some s₂)
    × (free_inner guarded 0 64 0x4400 s₂ ≡ some (none, s₃))
free_inner-free_inner_example =
    free_inner-free_inner guarded before freed ref_new 64 0x4100 0x4400 between start watched
      (λ e. omega arith) in_heap refl refl first_passes (λ e. omega arith, tt) (omega arith)
