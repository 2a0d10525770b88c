-- ===== src/Lifecycle/States.antt =====
-- The state machine of a fiber.
use offline_companion_core.Base.{
  String, ◌≡◌, refl, subst, inl, inr, Bool, true, false, Option, none, some, List, [], ◌∷◌, ◌++◌,
  sym, Result, arith, Bool-cases, Option-cases, nat_eq, string_eq, pair_eq, ok, err,
}
use offline_companion_core.Base.Dict.{Dict}
use offline_companion_core.Lifecycle.Effects.{EffectScope, dispose, new}
use offline_companion_core.Lifecycle.Fiber.{
  LifecycleState, FiberEvent, plugin_loaded, plugin_failed, plugin_unloading, plugin_disposed,
  FiberError, bad_state, missing_service, event_refused, bad_config, factory_failed, Core, Fiber,
  fiber, Fibers, nil, loadable, Plugin, Left, taken, dispose_effect, fail_load, first_missing,
  snapshot, activate, build, load, release, unload,
}

module _ {D : Type 0} where
  abbrev pub IsReleased : Option (EffectScope D) → Type 0
  IsReleased none = Unit {0}
  IsReleased (some s) = s.disposed ≡ true

  dispose_effect-IsReleased : (o : Option (EffectScope D)) → IsReleased (dispose_effect o).0
  unfolding dispose
  dispose_effect-IsReleased none = tt
  dispose_effect-IsReleased (some s) = ground arith

-- An attempt to stop a fiber or to start it again.
pub data Attempt (S D : Type 0) : Type 0 where
  unloads : (FiberEvent → Bool) → Attempt S D
  loads : Plugin S D → Dict String S → Bool → Attempt S D

abbrev pub raised_by : {A : Type 0} → Result FiberError A → Option FiberError
raised_by (ok x) = none
raised_by (err e) = some e

module _ {S D : Type 0} where
  -- The ways a load may end: refused in its state with nothing changed, active with the service
  -- that it returns, or failed with its error kept and its scope disposed.
  pub data Loads (c : Core S D) (l : Left S D S) : Type 0 where
    refused : loadable c.state ≡ false → l.core ≡ c → l.result ≡ err bad_state → Loads c l
    activated :
        (s : S)
        → loadable c.state ≡ true
        → l.core.state ≡ LifecycleState.active
        → l.core.service ≡ some s
        → l.result ≡ ok s
        → Loads c l
    failed :
        (e x : FiberError)
        → loadable c.state ≡ true
        → l.core.state ≡ LifecycleState.failed
        → l.core.error ≡ some e
        → IsReleased l.core.effect
        → l.result ≡ err x
        → Loads c l

  fail_load-Loads :
      (p : Plugin S D) (e : FiberError) (c d : Core S D)
      → loadable c.state ≡ true
      → Loads c (fail_load p e d)
  unfolding fail_load
  fail_load-Loads p e c d h = elim (Bool-cases (taken p.accepts d (plugin_failed d.plugin_id))) [
    | inl q ↦
        failed e e h (ground arith) (ground arith)
          (subst IsReleased (ground arith) (dispose_effect-IsReleased d.effect)) (ground arith)
    | inr q ↦
        failed e event_refused h (ground arith) (ground arith)
          (subst IsReleased (ground arith) (dispose_effect-IsReleased d.effect)) (ground arith)
  ]

  activate-Loads :
      (p : Plugin S D) (made : Option S) (c d : Core S D)
      → loadable c.state ≡ true
      → Loads c (activate p made d)
  unfolding activate
  activate-Loads p none c d h = fail_load-Loads p factory_failed c d h
  activate-Loads p (some s) c d h =
      elim (Bool-cases (taken p.accepts d (plugin_loaded d.plugin_id))) [
        | inl q ↦ rw (q, activate) (activated s h refl refl refl)
        | inr q ↦
            rw (q, activate)
              (fail_load-Loads p event_refused c
                (record d { service = some s; state = LifecycleState.active }) h)
      ]

  -- Every call of `load` ends in one of these ways, for every plugin and every event stream.
  pub load-Loads :
      (p : Plugin S D) (available : Dict String S) (has_stream : Bool) (c : Core S D)
      → Loads c (load p available has_stream c)
  unfolding load build
  load-Loads p available has_stream c = elim (Bool-cases (loadable c.state)) [
    | inr q ↦ rw (q, load) (refused q refl refl)
    | inl q ↦
        let c' = record c {
          state = LifecycleState.loading;
          error = none;
          has_stream = has_stream;
        } in
        elim (Option-cases (first_missing c.requires available)) [
          | inr (r, m) ↦ rw (q, load) (rw m (fail_load-Loads p (missing_service r) c c' q))
          | inl m ↦ elim (Bool-cases p.config_valid) [
            | inr v ↦ rw (q, load) (rw m (rw v (fail_load-Loads p bad_config c c' q)))
            | inl v ↦
                let services = snapshot (c.requires ++ c.optional_requires) available in
                let built = p.factory services (new c.plugin_id) in
                rw (q, load)
                  (rw m (
                    rw v (
                      activate-Loads p built.1 c
                        (record c' { service_snapshot = services; effect = some built.0 }) q)))
          ]
        ]
  ]

  -- A stream that takes every event: an active fiber is then disposed, whatever its children do;
  -- its scope is disposed, and its service, services and children are gone.
  pub unload_active :
      (accepts : FiberEvent → Bool) (c : Core S D) (cs : Fibers S D)
      → c.state ≡ LifecycleState.active
      → ((e : FiberEvent) → accepts e ≡ true)
      → let u = unload accepts (fiber c cs) in
        (u.result ≡ ok tt)
        × ((d : Core S D) × (u.self ≡ fiber d nil)
            × (d.state ≡ LifecycleState.disposed)
            × (d.service ≡ none)
            × (d.service_snapshot ≡ [])
            × IsReleased d.effect)
  unfolding unload release
  unload_active accepts c cs a ok_ =
      let first = ok_ (plugin_unloading c.plugin_id) in
      let last = ok_ (plugin_disposed c.plugin_id) in
      (
        ground arith,
        (
          record c {
            effect = (dispose_effect c.effect).0;
            service_snapshot = [];
            service = none;
            state = LifecycleState.disposed;
          },
          ground arith,
          refl,
          refl,
          refl,
          dispose_effect-IsReleased c.effect,
        ),
      )

  abbrev pub retried : Attempt S D → Fiber S D → Option FiberError × Fiber S D
  retried (unloads accepts) f = let u = unload accepts f in (raised_by u.result, u.self)
  retried (loads p available has_stream) (fiber c cs) =
      let l = load p available has_stream c in (raised_by l.result, fiber l.core cs)

  -- Every attempt is refused for the state, and leaves the fiber as it is.
  abbrev pub AllRefused : List (Attempt S D) → Fiber S D → Type 0
  AllRefused [] f = Unit {0}
  AllRefused (a ∷ attempts) f =
      (retried a f ≡ (some bad_state, f)) × AllRefused attempts (retried a f).1

  retried-unloading :
      (a : Attempt S D) (c : Core S D) (cs : Fibers S D)
      → c.state ≡ LifecycleState.unloading
      → retried a (fiber c cs) ≡ (some bad_state, fiber c cs)
  unfolding unload load
  retried-unloading (unloads accepts) c cs h = rw (h) refl
  retried-unloading (loads p available has_stream) c cs h = rw (h) refl

  AllRefused-unloading :
      (attempts : List (Attempt S D)) (c : Core S D) (cs : Fibers S D)
      → c.state ≡ LifecycleState.unloading
      → AllRefused attempts (fiber c cs)
  AllRefused-unloading [] c cs h = tt
  AllRefused-unloading (a ∷ attempts) c cs h =
      let e = retried-unloading a c cs h in
      (e, subst (λ x. AllRefused attempts x.1) (sym e) (AllRefused-unloading attempts c cs h))

  -- If the event stream raises at the event `plugin/unloading`, the fiber is left unloading with its
  -- scope, its service and its children as they were; and from then on every attempt to unload or
  -- to load it is refused and leaves it so, however many are made and whatever stream takes the
  -- events by then.
  pub unload_stuck :
      (accepts : FiberEvent → Bool) (attempts : List (Attempt S D)) (c : Core S D) (cs : Fibers S D)
      → c.state ≡ LifecycleState.active
      → c.has_stream ≡ true
      → accepts (plugin_unloading c.plugin_id) ≡ false
      → let u = unload accepts (fiber c cs) in
        (u.result ≡ err event_refused)
        × (u.calls ≡ [])
        × (u.self ≡ fiber (record c { state = LifecycleState.unloading }) cs)
        × AllRefused attempts u.self
  unfolding unload
  unload_stuck accepts attempts c cs a s r =
      let left : (unload accepts (fiber c cs)).self
          ≡ fiber (record c { state = LifecycleState.unloading }) cs =
        ground arith in
      (
        ground arith,
        ground arith,
        left,
        subst (AllRefused attempts) (sym left)
            (AllRefused-unloading attempts (record c { state = LifecycleState.unloading }) cs refl),
      )
