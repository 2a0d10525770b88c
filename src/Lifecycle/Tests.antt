-- ===== src/Lifecycle/Tests.antt =====
-- The effect scope and the fiber on small examples, with numbers for the disposers.
use offline_companion_core.Base.{
  ℕ, ◌≡◌, refl, true, false, Option, none, some, List, [], ◌∷◌, ◌++◌, nat_eq, string_eq, pair_eq,
  ok, err,
}
use mathlib.Core.List.{Perm}
use offline_companion_core.Lifecycle.Effects.{EffectScope, throws, dispose}
use offline_companion_core.Lifecycle.Fiber.{
  LifecycleState, event_refused, Core, fiber, nil, Plugin, load, unload,
}
use offline_companion_core.Lifecycle.Rollback.{Call, adds, registers, disposes, run, run-Perm}
use offline_companion_core.Base.{String, Result, contains, arith}
use offline_companion_core.Base.Dict.{lookup, member}
use offline_companion_core.Lifecycle.Fiber.{bad_config, release}
use offline_companion_core.Lifecycle.Topo.{PluginConfigEntry, topological_sort, is_enabled}
use offline_companion_core.Base.{select}
use offline_companion_core.Lifecycle.Topo.Sorted.{Sorts, topological_sort-Sorts}
use offline_companion_core.Lifecycle.Loader.{
  PluginLoader, LoaderError, open_loader, load_each, load_all, reload, active_in, not_loaded,
}
use offline_companion_core.Lifecycle.Loader.Services.{
  IsServed, requires_of, load_each-IsServed, load_all-IsServed,
}
use offline_companion_core.Lifecycle.Loader.Reload.{reload_strands}
use offline_companion_core.Lifecycle.States.{Attempt, unloads, loads, AllRefused, unload_stuck}

abbrev open_scope : EffectScope ℕ
open_scope = record { name = "p"; disposers = 1 ∷ 2 ∷ []; disposed = false }

abbrev three_calls : List (Call ℕ)
three_calls = registers 3 ∷ adds throws ∷ disposes ∷ []

run-Perm_example :
    Perm
      ((run three_calls open_scope).1 ++ (run three_calls open_scope).0.disposers)
      (1 ∷ 2 ∷ (run three_calls open_scope).2)
run-Perm_example = run-Perm three_calls open_scope

abbrev core_in : LifecycleState → Option (EffectScope ℕ) → Core ℕ ℕ
core_in state effect = record {
  plugin_id = "p";
  requires = [];
  optional_requires = [];
  state = state;
  effect = effect;
  error = none;
  service = none;
  service_snapshot = [];
  has_stream = true;
}

abbrev good_plugin : Plugin ℕ ℕ
good_plugin = record {
  config_valid = true;
  factory = λ services scope. (scope, some 5);
  accepts = λ e. true;
}

abbrev running_core : Core ℕ ℕ
running_core = core_in LifecycleState.active (some open_scope)

abbrev three_attempts : List (Attempt ℕ ℕ)
three_attempts = unloads (λ e. true) ∷ loads good_plugin [] true ∷ unloads (λ e. false) ∷ []

unload_stuck_example :
    let u = unload (λ e. false) (fiber running_core nil) in
    (u.result ≡ err event_refused)
    × (u.calls ≡ [])
    × (u.self ≡ fiber (core_in LifecycleState.unloading (some open_scope)) nil)
    × AllRefused three_attempts u.self
unload_stuck_example = unload_stuck (λ e. false) three_attempts running_core nil refl refl refl

abbrev plugin_entry : String → List String → PluginConfigEntry ℕ
plugin_entry v requires = record {
  id = v;
  plugin_module = v;
  enabled = true;
  requires = requires;
  optional_requires = [];
  config = 0;
  version = "1.0.0";
}

-- The first requires the second.
abbrev chat : PluginConfigEntry ℕ
chat = plugin_entry "chat" ("store" ∷ [])

abbrev store : PluginConfigEntry ℕ
store = plugin_entry "store" []

topological_sort-Sorts_example :
    Sorts (select is_enabled (chat ∷ store ∷ [])) (topological_sort (chat ∷ store ∷ []))
topological_sort-Sorts_example = topological_sort-Sorts (chat ∷ store ∷ []) (refl, (refl, tt))

sorted : topological_sort (chat ∷ store ∷ []) ≡ some (ok (store ∷ chat ∷ []))
unfolding topological_sort
sorted = refl

-- A plugin with a service that is a number, or with a configuration that its schema refuses.
abbrev working : PluginConfigEntry ℕ → Option (Plugin ℕ ℕ)
working p = some (record {
  config_valid = true;
  factory = λ services scope. (scope, some 1);
  accepts = λ e. true;
})

abbrev broken : PluginConfigEntry ℕ → Option (Plugin ℕ ℕ)
broken p = some (record {
  config_valid = false;
  factory = λ services scope. (scope, some 1);
  accepts = λ e. true;
})

abbrev nothing_loaded : PluginLoader ℕ ℕ ℕ
nothing_loaded = open_loader (chat ∷ store ∷ []) true

abbrev both_loaded : PluginLoader ℕ ℕ ℕ
both_loaded = (load_each working (store ∷ chat ∷ []) nothing_loaded).0

nothing_loaded-IsServed : IsServed nothing_loaded
nothing_loaded-IsServed = record { stands = λ v. refl; required = λ v r a k. absurd (ground arith) }

load_all-IsServed_example :
    (t : PluginLoader ℕ ℕ ℕ) × (r : Result LoaderError (Unit {0})) × (load_all working
        nothing_loaded
      ≡ some (t, r))
    × IsServed t
load_all-IsServed_example =
    load_all-IsServed working nothing_loaded (refl, (refl, tt)) nothing_loaded-IsServed

both_loaded-IsServed : IsServed both_loaded
both_loaded-IsServed =
    load_each-IsServed working (store ∷ chat ∷ []) nothing_loaded nothing_loaded-IsServed

abbrev store_lost : PluginLoader ℕ ℕ ℕ
store_lost = (reload broken (λ e. true) "store" both_loaded).0

store_not_loaded :
    reload broken (λ e. true) "store" both_loaded ≡ (store_lost, err (not_loaded bad_config))
unfolding reload load_each load unload release dispose
store_not_loaded = refl

chat_is_active :
    (active_in "chat" both_loaded ≡ true)
    × (contains (requires_of (lookup "chat" both_loaded.fibers)) "store" ≡ true)
unfolding load_each load
chat_is_active = (refl, refl)

reload_strands_example :
    (lookup "chat" store_lost.fibers ≡ lookup "chat" both_loaded.fibers)
    × (active_in "chat" store_lost ≡ true)
    × (member "store" store_lost.services ≡ false)
reload_strands_example =
    reload_strands broken (λ e. true) "store" "chat" both_loaded store_lost bad_config
      both_loaded-IsServed refl chat_is_active.0 chat_is_active.1 store_not_loaded
