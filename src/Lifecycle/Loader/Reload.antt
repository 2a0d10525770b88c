-- ===== src/Lifecycle/Loader/Reload.antt =====
-- `reload` does not look at the plugins that use the one it reloads.
use offline_companion_core.Base.{
  String, ◌≡◌, refl, sym, ap, subst, ◌∙◌, ◌≢◌, inl, inr, Bool, true, false, Option, none, some,
  List, [], ◌∷◌, arith, Bool-cases, Option-cases, ◌==◌, nat_eq, string_eq, pair_eq, contains, ok,
  err, Result-cases,
}
use offline_companion_core.Base.Dict.{lookup, member, lookup-insert, lookup-erase_self}
use offline_companion_core.Lifecycle.Fiber.{
  FiberEvent, FiberError, Fiber, Plugin, core_of, is_active, unload,
}
use offline_companion_core.Lifecycle.Topo.{PluginConfigEntry}
use offline_companion_core.Lifecycle.Loader.{
  PluginLoader, not_loaded, active_in, loaded, load_entry, unload_entry, stop, restart, reload,
  entry_of,
}
use offline_companion_core.Lifecycle.Loader.Services.{
  IsServed, requires_of, load_entry_other, member-served_err,
}

entry_of_id :
    {C : Type 0} (v : String) (ps : List (PluginConfigEntry C)) (p : PluginConfigEntry C)
    → entry_of v ps ≡ some p
    → (p.id == v) ≡ true
entry_of_id {C} v [] p h = absurd (ground arith)
entry_of_id {C} v (q ∷ qs) p h = elim (Bool-cases (q.id == v)) [
  | inl e ↦
      let same : some q ≡ some p = rw e at h in
      let same' : q ≡ p = ground arith in
      subst (λ (x : PluginConfigEntry C). (x.id == v) ≡ true) same' e
  | inr e ↦ entry_of_id v qs p (rw e at h)
]

module _ {S D C : Type 0} (accepts : FiberEvent → Bool) where
  unload_entry_other :
      (v w : String) (f : Fiber S D) (s : PluginLoader S D C)
      → (v == w) ≡ false
      → lookup w (unload_entry accepts v f s).0.fibers ≡ lookup w s.fibers
  unfolding unload_entry
  unload_entry_other v w f s ne = ground (arith, lookup-insert v w (unload accepts f).self s.fibers)

  unload_entry_gone :
      (v : String) (f : Fiber S D) (s : PluginLoader S D C)
      → (unload_entry accepts v f s).1 ≡ ok tt
      → member v (unload_entry accepts v f s).0.services ≡ false
  unfolding unload_entry
  unload_entry_gone v f s h = ground (arith, lookup-erase_self v s.services)

  stop_other :
      (v w : String) (s : PluginLoader S D C)
      → (v == w) ≡ false
      → lookup w (stop accepts v s).0.fibers ≡ lookup w s.fibers
  unfolding stop
  stop_other v w s ne = elim (Option-cases (lookup v s.fibers)) [
    | inl q ↦ rw (stop, q) refl
    | inr (f, q) ↦ elim (Bool-cases (is_active (core_of f).state)) [
      | inl u ↦ rw (stop, q, u) (unload_entry_other v w f s ne)
      | inr u ↦ rw (stop, q, u) refl
    ]
  ]

  stop_active :
      (v : String) (s : PluginLoader S D C)
      → active_in v s ≡ true
      → (stop accepts v s).1 ≡ ok tt
      → member v (stop accepts v s).0.services ≡ false
  unfolding stop
  stop_active v s a h = elim (Option-cases (lookup v s.fibers)) [
    | inl q ↦ absurd (ground arith)
    | inr (f, q) ↦
        let u : is_active (core_of f).state ≡ true = rw (active_in, q) at a in
        let h' : (unload_entry accepts v f s).1 ≡ ok tt = rw (stop, q, u) at h in
        rw (stop, q, u) (unload_entry_gone v f s h')
  ]

module _ {S D C : Type 0} (definition : PluginConfigEntry C → Option (Plugin S D)) where
  restart_failed :
      (p : PluginConfigEntry C) (w : String) (s : PluginLoader S D C) (e : FiberError)
      → (p.id == w) ≡ false
      → (restart definition p s).1 ≡ err (not_loaded e)
      → (lookup w (restart definition p s).0.fibers ≡ lookup w s.fibers)
        × ((v : String) → member v (restart definition p s).0.services ≡ member v s.services)
  unfolding restart load_entry
  restart_failed p w s e ne h = elim (Option-cases (definition p)) [
    | inl q ↦ absurd (ground arith)
    | inr (plugin, q) ↦ elim (Result-cases (loaded plugin p s).result) [
      | inl (x, u) ↦ absurd (ground arith)
      | inr (f, u) ↦
          rw (restart, q, u)
            (
              (load_entry_other plugin p s w ne).0,
              λ v. member-served_err (loaded plugin p s).result f p.id v s.services u,
            )
    ]
  ]

module _ {S D C : Type 0} (definition : PluginConfigEntry C → Option (Plugin S D))
    (accepts : FiberEvent → Bool) where
  reload_steps :
      (v : String) (p : PluginConfigEntry C) (s t : PluginLoader S D C) (e : FiberError)
      → entry_of v s.plugins ≡ some p
      → reload definition accepts v s ≡ (t, err (not_loaded e))
      → ((stop accepts v s).1 ≡ ok tt)
        × (restart definition p (stop accepts v s).0 ≡ (t, err (not_loaded e)))
  unfolding reload
  reload_steps v p s t e q h = elim (Result-cases (stop accepts v s).1) [
    | inl (tt, u) ↦ ground arith
    | inr (f, u) ↦ absurd (ground arith)
  ]

  reload_unknown :
      (v : String) (s t : PluginLoader S D C) (e : FiberError)
      → entry_of v s.plugins ≡ none
      → reload definition accepts v s ≢ (t, err (not_loaded e))
  unfolding reload
  reload_unknown v s t e q h = ground arith

  -- A plugin that uses another is left without it by a failed reload. Where services stand for active
  -- fibers, `w` is active and requires `v`, and the reload of `v` raises what its load raised, then
  -- the fiber of `w` is as it was, active with the old service, and there is no service of `v`.
  pub reload_strands :
      (v w : String) (s t : PluginLoader S D C) (e : FiberError)
      → IsServed s
      → (v == w) ≡ false
      → active_in w s ≡ true
      → contains (requires_of (lookup w s.fibers)) v ≡ true
      → reload definition accepts v s ≡ (t, err (not_loaded e))
      → (lookup w t.fibers ≡ lookup w s.fibers)
        × (active_in w t ≡ true)
        × (member v t.services ≡ false)
  reload_strands v w s t e h ne a k r = elim (Option-cases (entry_of v s.plugins)) [
    | inl q ↦ absurd (reload_unknown v s t e q r)
    | inr (p, q) ↦
        let steps = reload_steps v p s t e q r in
        let same = (string_eq.beq_iff p.id v).0 (entry_of_id v s.plugins p q) in
        let ne' : (p.id == w) ≡ false = subst (λ x. (x == w) ≡ false) (sym same) ne in
        let s' = (stop accepts v s).0 in
        let end = restart_failed definition p w s' e ne' (ap (λ x. x.1) steps.1) in
        let there : active_in v s ≡ true = sym (h.stands v) ∙ h.required w v a k in
        let fibers_same : lookup w t.fibers ≡ lookup w s.fibers =
          subst (λ (x : PluginLoader S D C). lookup w x.fibers ≡ lookup w s.fibers)
            (ap (λ x. x.0) steps.1) (end.0 ∙ stop_other accepts v w s ne) in
        (
          fibers_same,
          rw (active_in, fibers_same) a,
          subst (λ (x : PluginLoader S D C). member v x.services ≡ false) (ap (λ x. x.0) steps.1)
              (end.1 v ∙ stop_active accepts v s there steps.0),
        )
  ]
