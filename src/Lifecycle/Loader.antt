-- ===== src/Lifecycle/Loader.antt =====
-- `PluginLoader`, core/lifecycle/loader.py. `definition` is what `_definition` makes of an entry, with what
-- the plugin then does; it is `none` where the import raises. The log of the events and of the
-- disposers called is added.
use offline_companion_core.Base.{
  ℕ, zero, suc, ◌+◌, ◌-◌, ◌*◌, ◌≤◌, ◌<◌, max, min, String, ◌≡◌, refl, sym, ap, subst, ◌∙◌, ◌≢◌, ◌↔◌,
  ◌⊎◌, inl, inr, Bool, true, false, not, ◌&&◌, ◌||◌, Option, none, some, List, [], ◌∷◌, ◌++◌, map,
  arith, ltb, leb, nat_beq, if◌then◌else◌, nat_beq_iff, leb→le, Bool-cases, Option-cases, is_some,
  get_or, length, get_elem?, drop, select, all, any, length-append, get_elem?-append_self,
  get_elem?-append_left, length-select-le, Eq, ◌==◌, nat_eq, string_eq, pair_eq, contains, beq_self,
  Result, ok, err, ◌>>=◌, ◌>>◌, guard, Result-cases,
}
use offline_companion_core.Base.Text.{
  is_empty, is_space, lstrip, rstrip, strip, or_else, split_where, words, cut_at, all_digits,
  digits_value,
}
use offline_companion_core.Base.Dict.{
  Dict, Unique, keys, values, lookup, insert, erase, member, lookup-insert, lookup-erase,
  lookup-insert_self, lookup-erase_self, lookup-insert_ne, lookup-erase_ne,
}
use offline_companion_core.Lifecycle.Fiber.{
  LifecycleState, FiberEvent, FiberError, Core, Fiber, fiber, nil, Plugin, core_of, is_active, load,
  unload, Left,
}
use offline_companion_core.Lifecycle.Topo.{PluginConfigEntry, SortError, topological_sort}
pub mod Services
pub mod Reload

pub data LoaderError : Type 0 where
  unsorted : SortError → LoaderError
  not_importable : String → LoaderError
  unknown_plugin : String → LoaderError
  not_loaded not_unloaded : FiberError → LoaderError

pub record PluginLoader (S D C : Type 0) : Type 0 where
  pub plugins : List (PluginConfigEntry C)
  pub has_stream : Bool
  pub fibers : Dict String (Fiber S D)
  pub services : Dict String S
  pub events : List FiberEvent
  pub calls : List D

-- What a method leaves, and whether it raises.
abbrev pub Ran : Type 0 → Type 0 → Type 0 → Type 0
Ran S D C = PluginLoader S D C × Result LoaderError (Unit {0})

-- The service is kept where the load ends.
unfoldable pub served : {S : Type 0} → Result FiberError S → String → Dict String S → Dict String S
served (err e) v services = services
served (ok made) v services = insert v made services

module _ {S D C : Type 0} where
  abbrev pub open_loader : List (PluginConfigEntry C) → Bool → PluginLoader S D C
  open_loader plugins has_stream = record {
    plugins = plugins;
    has_stream = has_stream;
    fibers = [];
    services = [];
    events = [];
    calls = [];
  }

  abbrev pub active_in : String → PluginLoader S D C → Bool
  active_in v s = elim (lookup v s.fibers) [ none ↦ false | some f ↦ is_active (core_of f).state ]

  -- `PluginFiber(definition)`
  abbrev pub new_fiber : PluginConfigEntry C → Core S D
  new_fiber p = record {
    plugin_id = p.id;
    requires = p.requires;
    optional_requires = p.optional_requires;
    state = LifecycleState.pending;
    effect = none;
    error = none;
    service = none;
    service_snapshot = [];
    has_stream = false;
  }

  -- A new fiber in the place of the entry's, loaded over the services that are there.
  abbrev pub loaded : Plugin S D → PluginConfigEntry C → PluginLoader S D C → Left S D S
  loaded plugin p s = load plugin s.services s.has_stream (new_fiber p)

  unfoldable pub load_entry :
      Plugin S D → PluginConfigEntry C → PluginLoader S D C → PluginLoader S D C
  unfolding served
  load_entry plugin p s =
      let l = loaded plugin p s in
      record s {
        fibers = insert p.id (fiber l.core nil) s.fibers;
        services = served l.result p.id s.services;
        events = s.events ++ l.events;
        calls = s.calls ++ l.calls;
      }

  -- `fiber.unload()` of the entry's fiber, and the service goes where that ends.
  unfoldable pub unload_entry :
      (FiberEvent → Bool) → String → Fiber S D → PluginLoader S D C → Ran S D C
  unload_entry accepts v f s =
      let u = unload accepts f in
      let s' = record s {
        fibers = insert v u.self s.fibers;
        events = s.events ++ u.events;
        calls = s.calls ++ u.calls;
      } in
      elim u.result [
        | err e ↦ (s', err (not_unloaded e))
        | ok _ ↦ (record s' { services = erase v s.services }, ok tt)
      ]

module _ {S D C : Type 0} (definition : PluginConfigEntry C → Option (Plugin S D)) where
  unfoldable pub load_each : List (PluginConfigEntry C) → PluginLoader S D C → Ran S D C
  unfolding load_entry
  load_each [] s = (s, ok tt)
  load_each (p ∷ ps) s = if active_in p.id s then load_each ps s else elim (definition p) [
    | none ↦ (s, err (not_importable p.id))
    | some plugin ↦ load_each ps (load_entry plugin p s)
  ]

  -- `none` is the sort out of fuel.
  unfoldable pub load_all : PluginLoader S D C → Option (Ran S D C)
  unfolding load_each
  load_all s = elim (topological_sort s.plugins) [
    | none ↦ none
    | some (err e) ↦ some (s, err (unsorted e))
    | some (ok order) ↦ some (load_each order s)
  ]

  unfoldable pub restart : PluginConfigEntry C → PluginLoader S D C → Ran S D C
  unfolding load_entry
  restart p s = elim (definition p) [
    | none ↦ (s, err (not_importable p.id))
    | some plugin ↦ elim (loaded plugin p s).result [
      | err e ↦ (load_entry plugin p s, err (not_loaded e))
      | ok _ ↦ (load_entry plugin p s, ok tt)
    ]
  ]

module _ {S D C : Type 0} (accepts : FiberEvent → Bool) where
  -- The last of the order first.
  unfoldable pub unload_each : List (PluginConfigEntry C) → PluginLoader S D C → Ran S D C
  unfolding unload_entry
  unload_each [] s = (s, ok tt)
  unload_each (p ∷ ps) s =
      let (s', r) = unload_each ps s in
      elim r [
        | err e ↦ (s', err e)
        | ok _ ↦ elim (lookup p.id s'.fibers) [
          | none ↦ (s', ok tt)
          | some f ↦
              if is_active (core_of f).state then unload_entry accepts p.id f s' else (s', ok tt)
        ]
      ]

  unfoldable pub unload_all : PluginLoader S D C → Option (Ran S D C)
  unfolding unload_each
  unload_all s = elim (topological_sort s.plugins) [
    | none ↦ none
    | some (err e) ↦ some (s, err (unsorted e))
    | some (ok order) ↦ some (unload_each order s)
  ]

  -- The unload of `reload`, of an active fiber.
  unfoldable pub stop : String → PluginLoader S D C → Ran S D C
  unfolding unload_entry
  stop v s = elim (lookup v s.fibers) [
    | none ↦ (s, ok tt)
    | some f ↦ if is_active (core_of f).state then unload_entry accepts v f s else (s, ok tt)
  ]

abbrev pub entry_of :
    {C : Type 0} → String → List (PluginConfigEntry C) → Option (PluginConfigEntry C)
entry_of v [] = none
entry_of v (p ∷ ps) = if p.id == v then some p else entry_of v ps

module _ {S D C : Type 0} (definition : PluginConfigEntry C → Option (Plugin S D))
    (accepts : FiberEvent → Bool) where
  unfoldable pub reload : String → PluginLoader S D C → Ran S D C
  unfolding stop restart
  reload v s = elim (entry_of v s.plugins) [
    | none ↦ (s, err (unknown_plugin v))
    | some p ↦
        if p.enabled
        then (let (s', r) = stop accepts v s in
            elim r [ err e ↦ (s', err e) | ok _ ↦ restart definition p s' ])
        else (s, err (unknown_plugin v))
  ]
