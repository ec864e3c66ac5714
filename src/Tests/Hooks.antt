-- ===== src/Tests/Hooks.antt =====
-- The signal slots, the bootstrap pool and the free guard at concrete inputs.
use linuwux_runtime.Base.{◌≡◌, refl, inl, true, false, none, some, List, [], ◌∷◌, arith}
use linuwux_runtime.Text.Bytes.{split_others, split_first, take_while}
use linuwux_runtime.Hooks.Signals.{
  Action, SignalSlot, Signals, RealSigaction, Host, RaiseCalls, sigsegv, slot_for,
  handler_is_from_wine_ntdll, names_ntdll, action_is_bridge, bridge_handler, raise_default,
  ntdll_so, bridge_of,
}
use linuwux_runtime.Hooks.Signals.Transparent.{
  Event, asks, reads, arrives, run, plain_run, Serves, run-plain_run,
}
use linuwux_runtime.Hooks.Bootstrap.Disjoint.{blocks, Packed, bootstrap_alloc-Packed}

-- A kernel with one action.
abbrev one_action : RealSigaction Action
one_action = record {
  query = λ sig table. some table;
  exchange = λ sig a table. some (table, a);
  reset =
      λ sig table. some (record { handler = 0; siginfo = false; resethand = false; others = 0 });
}

-- The handlers at 4096 and above are ntdll's; the bridges are at 100 and 200.
abbrev host : Host
host = record {
  segv_bridge = 100;
  sys_bridge = 200;
  image_of = λ address. some ntdll_so;
  blocks = true;
  mallocs = true;
}

abbrev ids : RaiseCalls
ids = record { has_process_id = true; has_thread_id = true; kills = true }

abbrev fresh_slot : SignalSlot
fresh_slot = record { current = none; owned = false }

abbrev default_action : Action
default_action = record { handler = 0; siginfo = false; resethand = false; others = 0 }

abbrev new_process : Signals Action
new_process = record { segv_slot = fresh_slot; sys_slot = fresh_slot; table = default_action }

abbrev wine_action : Action
wine_action = record { handler = 4096; siginfo = true; resethand = false; others = 7 }

abbrev game_action : Action
game_action = record { handler = 8192; siginfo = false; resethand = false; others = 3 }

abbrev session : List Event
session = arrives true ∷ asks game_action ∷ reads ∷ arrives false ∷ asks wine_action ∷ []

host_serves : Serves one_action host ids sigsegv
host_serves = record {
  blocks = refl;
  mallocs = refl;
  queries = λ k. (k, refl);
  exchanges = λ a k. (k, a, refl, refl);
  resets = λ k. (default_action, refl);
}

from_ntdll : handler_is_from_wine_ntdll host wine_action ≡ true
unfolding handler_is_from_wine_ntdll names_ntdll split_others split_first take_while
from_ntdll = refl

slot_of_segv : slot_for sigsegv new_process ≡ some fresh_slot
unfolding slot_for
slot_of_segv = refl

own_wine : action_is_bridge host sigsegv wine_action ≡ false
unfolding action_is_bridge bridge_handler
own_wine = refl

own_game : action_is_bridge host sigsegv game_action ≡ false
unfolding action_is_bridge bridge_handler
own_game = refl

run-plain_run_example :
    run one_action host ids sigsegv new_process (asks wine_action ∷ session)
    ≡ plain_run
        (bridge_of host sigsegv)
        (raise_default ids sigsegv)
        default_action
        (asks wine_action ∷ session)
run-plain_run_example =
    run-plain_run one_action host ids sigsegv wine_action default_action new_process session
      host_serves (inl refl) slot_of_segv refl from_ntdll
      (own_wine, refl, (refl, (own_game, refl, (refl, (own_wine, refl, tt)))))

bootstrap_alloc-Packed_example : Packed 4096 4096 (blocks 4096 0 (100 ∷ 0 ∷ 70000 ∷ 8 ∷ []))
bootstrap_alloc-Packed_example =
    bootstrap_alloc-Packed 4096 (100 ∷ 0 ∷ 70000 ∷ 8 ∷ []) refl (omega arith)
