-- ===== src/Lifecycle/Fiber.antt =====
-- `PluginFiber`, core/lifecycle/fiber.py. The children of a fiber are its own: none is shared and
-- none holds its parent. What the plugin's factory and its configuration schema do, and whether the
-- event stream takes an event or raises, are arguments. A disposal that takes too long is logged by
-- the source and the rest of `unload` goes on; here every disposal ends.
use offline_companion_core.Base.{
  String, Bool, true, false, not, ◌||◌, Option, none, some, List, [], ◌∷◌, ◌++◌, if◌then◌else◌,
  nat_eq, string_eq, pair_eq, Result, ok, err,
}
use offline_companion_core.Base.Dict.{Dict, lookup, insert, member}
use offline_companion_core.Lifecycle.Effects.{EffectScope, new, dispose}

pub data LifecycleState : Type 0 where
  pending loading active failed unloading disposed : LifecycleState

pub data FiberEvent : Type 0 where
  plugin_loaded plugin_failed plugin_unloading plugin_disposed : String → FiberEvent

pub data FiberError : Type 0 where
  bad_state : FiberError
  missing_service : String → FiberError
  bad_config factory_failed event_refused : FiberError

-- The parts of a fiber besides its children; `requires`, `optional_requires` and `version` are the
-- definition's.
pub record Core (S D : Type 0) : Type 0 where
  pub plugin_id : String
  pub requires : List String
  pub optional_requires : List String
  pub state : LifecycleState
  pub effect : Option (EffectScope D)
  pub error : Option FiberError
  pub service : Option S
  pub service_snapshot : Dict String S
  pub has_stream : Bool

mutual
  pub data Fiber (S D : Type 0) : Type 0 where
    fiber : Core S D → Fibers S D → Fiber S D

  pub data Fibers (S D : Type 0) : Type 0 where
    nil : Fibers S D
    cons : Fiber S D → Fibers S D → Fibers S D

abbrev pub loadable : LifecycleState → Bool
loadable LifecycleState.pending = true
loadable LifecycleState.failed = true
loadable _ = false

abbrev pub is_active : LifecycleState → Bool
is_active LifecycleState.active = true
is_active _ = false

abbrev pub is_disposed : LifecycleState → Bool
is_disposed LifecycleState.disposed = true
is_disposed _ = false

-- What the fiber does not decide: whether the configuration is valid, what the factory returns and
-- registers on the scope, and which events the stream takes.
pub record Plugin (S D : Type 0) : Type 0 where
  pub config_valid : Bool
  pub factory : Dict String S → EffectScope D → EffectScope D × Option S
  pub accepts : FiberEvent → Bool

-- What a method leaves: the parts, the disposers called, the events appended, and the result.
pub record Left (S D A : Type 0) : Type 0 where
  pub core : Core S D
  pub calls : List D
  pub events : List FiberEvent
  pub result : Result FiberError A

abbrev pub dispose_effect : {D : Type 0} → Option (EffectScope D) → Option (EffectScope D) × List D
dispose_effect none = (none, [])
dispose_effect (some s) = let (s', calls, r) = dispose s in (some s', calls)

abbrev pub first_missing : {S : Type 0} → List String → Dict String S → Option String
first_missing [] available = none
first_missing (r ∷ rs) available = if member r available then first_missing rs available else some r

-- The dict over the required and the optional services that are there.
unfoldable pub snapshot : {S : Type 0} → List String → Dict String S → Dict String S
snapshot [] available = []
snapshot (r ∷ rs) available =
    let rest = snapshot rs available in
    elim (lookup r available) [ none ↦ rest | some s ↦ insert r s rest ]

-- A whole unload: the fiber, the disposers called, the events, and the result.
pub record Unloaded (S D : Type 0) : Type 0 where
  pub self : Fiber S D
  pub calls : List D
  pub events : List FiberEvent
  pub result : Result FiberError (Unit {0})

module _ {S D : Type 0} where
  abbrev pub core_of : Fiber S D → Core S D
  core_of (fiber c cs) = c

  -- `_append_event`: without a stream nothing happens.
  abbrev pub taken : (FiberEvent → Bool) → Core S D → FiberEvent → Bool
  taken accepts c e = not c.has_stream || accepts e

  abbrev pub logged : Core S D → FiberEvent → List FiberEvent
  logged c e = if c.has_stream then e ∷ [] else []

  -- The handler of `load`: an exception of the event stream takes the place of the first one.
  unfoldable pub fail_load : Plugin S D → FiberError → Core S D → Left S D S
  fail_load p e c =
      let (effect, calls) = dispose_effect c.effect in
      let c' = record c { error = some e; state = LifecycleState.failed; effect = effect } in
      let event = plugin_failed c.plugin_id in
      if taken p.accepts c event
      then record { core = c'; calls = calls; events = logged c event; result = err e }
      else record { core = c'; calls = calls; events = []; result = err event_refused }

  -- From the factory's return on.
  unfoldable pub activate : Plugin S D → Option S → Core S D → Left S D S
  unfolding fail_load
  activate p none c = fail_load p factory_failed c
  activate p (some s) c =
      let c' = record c { service = some s; state = LifecycleState.active } in
      let event = plugin_loaded c.plugin_id in
      if taken p.accepts c event
      then record { core = c'; calls = []; events = logged c event; result = ok s }
      else fail_load p event_refused c'

  unfoldable pub build : Plugin S D → Dict String S → Core S D → Left S D S
  unfolding activate snapshot
  build p available c =
      let services = snapshot (c.requires ++ c.optional_requires) available in
      let (scope, made) = p.factory services (new c.plugin_id) in
      activate p made (record c { service_snapshot = services; effect = some scope })

  unfoldable pub load : Plugin S D → Dict String S → Bool → Core S D → Left S D S
  unfolding build fail_load
  load p available has_stream c =
      let c' = record c { state = LifecycleState.loading; error = none; has_stream = has_stream } in
      if not (loadable c.state)
      then record { core = c; calls = []; events = []; result = err bad_state }
      else elim (first_missing c.requires available) [
        | some r ↦ fail_load p (missing_service r) c'
        | none ↦ if p.config_valid then build p available c' else fail_load p bad_config c'
      ]

  -- The end of `unload`, after the children.
  unfoldable pub release : (FiberEvent → Bool) → Core S D → Left S D (Unit {0})
  release accepts c =
      let (effect, calls) = dispose_effect c.effect in
      let c' = record c {
        effect = effect;
        service_snapshot = [];
        service = none;
        state = LifecycleState.disposed;
      } in
      let event = plugin_disposed c.plugin_id in
      if taken accepts c event
      then record { core = c'; calls = calls; events = logged c event; result = ok tt }
      else record { core = c'; calls = calls; events = []; result = err event_refused }

  abbrev pub after_children :
      (FiberEvent → Bool) → Core S D → List D × List FiberEvent → Unloaded S D
  after_children accepts c (calls, events) =
      let l = release accepts c in
      record {
        self = fiber l.core nil;
        calls = calls ++ l.calls;
        events = logged c (plugin_unloading c.plugin_id) ++ events ++ l.events;
        result = l.result;
      }

unfoldable mutual
  -- What a child raises is logged and dropped.
  pub unload : {S D : Type 0} → (FiberEvent → Bool) → Fiber S D → Unloaded S D
  unload accepts (fiber c cs) =
      let children = unload_all accepts cs in
      let c' = record c { state = LifecycleState.unloading } in
      if is_disposed c.state
      then record { self = fiber c cs; calls = []; events = []; result = ok tt }
      else (if not (is_active c.state)
          then record { self = fiber c cs; calls = []; events = []; result = err bad_state }
          else (if taken accepts c (plugin_unloading c.plugin_id)
              then after_children accepts c' children
              else record {
                self = fiber c' cs;
                calls = [];
                events = [];
                result = err event_refused;
              }))

  pub unload_all : {S D : Type 0} → (FiberEvent → Bool) → Fibers S D → List D × List FiberEvent
  unload_all accepts nil = ([], [])
  unload_all accepts (cons f fs) =
      let one = unload accepts f in
      let (calls, events) = unload_all accepts fs in (one.calls ++ calls, one.events ++ events)

module _ {S D : Type 0} where
  abbrev pub append_fiber : Fibers S D → Fiber S D → Fibers S D
  append_fiber nil f = cons f nil
  append_fiber (cons g gs) f = cons g (append_fiber gs f)

  -- `add_child`; `same` tells whether the child is the fiber itself, which is refused.
  unfoldable pub add_child : Bool → Fiber S D → Fiber S D → Option (Fiber S D)
  add_child same child (fiber c cs) = if same then none else some (fiber c (append_fiber cs child))
