-- ===== src/Lifecycle/Loader/Services.antt =====
-- The services of a loader stand for its active fibers.
use offline_companion_core.Base.{
  String, ◌≡◌, refl, sym, ap, subst, ◌∙◌, inl, inr, Bool, true, false, ◌||◌, Option, none, some,
  List, [], ◌∷◌, arith, if◌then◌else◌, Bool-cases, Option-cases, select, ◌==◌, nat_eq, string_eq,
  pair_eq, contains, Result, ok, err, Result-cases,
}
use offline_companion_core.Base.Dict.{Dict, lookup, insert, member, lookup-insert}
use offline_companion_core.Lifecycle.Fiber.{
  LifecycleState, FiberError, Core, Fiber, fiber, nil, Plugin, core_of, is_active, load, Left,
  fail_load, activate, build, first_missing,
}
use offline_companion_core.Lifecycle.States.{refused, activated, failed, load-Loads}
use offline_companion_core.Lifecycle.Topo.{PluginConfigEntry, topological_sort, ids, is_enabled}
use offline_companion_core.Lifecycle.Topo.Counts.{Distinct}
use offline_companion_core.Lifecycle.Topo.Sorted.{Sorts, topological_sort-Sorts}
use offline_companion_core.Lifecycle.Loader.{
  PluginLoader, active_in, new_fiber, loaded, served, load_entry, load_each, load_all, unsorted,
  not_importable, LoaderError,
}

first_missing-none :
    {S : Type 0} (rs : List String) (d : Dict String S) (r : String)
    → first_missing rs d ≡ none
    → contains rs r ≡ true
    → member r d ≡ true
first_missing-none [] d r h k = absurd (ground arith)
first_missing-none (q ∷ qs) d r h k = elim (Bool-cases (member q d)) [
  | inr m ↦ absurd (ground arith)
  | inl m ↦ elim (Bool-cases (q == r)) [
    | inl e ↦ subst (λ x. member x d ≡ true) ((string_eq.beq_iff q r).0 e) m
    | inr e ↦ first_missing-none qs d r (rw m at h) (ground arith)
  ]
]

module _ {S D : Type 0} where
  -- A fiber that a load leaves active has given its service, and had what it requires.
  pub record Served (available : Dict String S) (c : Core S D) (l : Left S D S) : Type 0 where
    pub made : (e : FiberError) → l.result ≡ err e → is_active l.core.state ≡ false
    pub gave : (s : S) → l.result ≡ ok s → is_active l.core.state ≡ true
    pub had : is_active l.core.state ≡ true → first_missing c.requires available ≡ none
    pub kept : l.core.requires ≡ c.requires

  load-kept :
      (p : Plugin S D) (available : Dict String S) (has_stream : Bool) (c : Core S D)
      → (load p available has_stream c).core.requires ≡ c.requires
  unfolding load build activate fail_load
  load-kept p available has_stream c = ground arith

  load_missing :
      (p : Plugin S D) (available : Dict String S) (has_stream : Bool) (c : Core S D) (r : String)
      → c.state ≡ LifecycleState.pending
      → first_missing c.requires available ≡ some r
      → is_active (load p available has_stream c).core.state ≡ false
  unfolding load fail_load
  load_missing p available has_stream c r h q = ground arith

  pub load-Served :
      (p : Plugin S D) (available : Dict String S) (has_stream : Bool) (c : Core S D)
      → c.state ≡ LifecycleState.pending
      → Served available c (load p available has_stream c)
  load-Served p available has_stream c h = record {
    made = λ e k. elim (load-Loads p available has_stream c) [
      | refused a b d ↦ absurd (ground arith)
      | activated s a b d f ↦ absurd (ground arith)
      | failed e x a b d f g ↦ ground arith
    ];
    gave = λ s k. elim (load-Loads p available has_stream c) [
      | refused a b d ↦ absurd (ground arith)
      | activated s a b d f ↦ ground arith
      | failed e x a b d f g ↦ absurd (ground arith)
    ];
    had = λ k. elim (Option-cases (first_missing c.requires available)) [
      | inl q ↦ q
      | inr (r, q) ↦ let n = load_missing p available has_stream c r h q in absurd (ground arith)
    ];
    kept = load-kept p available has_stream c;
  }

abbrev pub requires_of : {S D : Type 0} → Option (Fiber S D) → List String
requires_of none = []
requires_of (some f) = (core_of f).requires

module _ {S : Type 0} where
  member-insert :
      (k v : String) (x : S) (d : Dict String S) → member v (insert k x d) ≡ (k == v || member v d)
  member-insert k v x d = elim (Bool-cases (k == v)) [
    | inl q ↦ rw (lookup-insert k v x d, q) refl
    | inr q ↦ rw (lookup-insert k v x d, q) refl
  ]

  member-served_ok :
      (r : Result FiberError S) (x : S) (k v : String) (d : Dict String S)
      → r ≡ ok x
      → member v (served r k d) ≡ (k == v || member v d)
  unfolding served
  member-served_ok r x k v d h = rw h (member-insert k v x d)

  pub member-served_err :
      (r : Result FiberError S) (e : FiberError) (k v : String) (d : Dict String S)
      → r ≡ err e
      → member v (served r k d) ≡ member v d
  unfolding served
  member-served_err r e k v d h = rw h refl

module _ {S D C : Type 0} where
  -- A service is there exactly where the fiber is active, and what an active fiber requires is there.
  pub record IsServed (s : PluginLoader S D C) : Type 0 where
    pub stands : (v : String) → member v s.services ≡ active_in v s
    pub required :
        (v r : String)
        → active_in v s ≡ true
        → contains (requires_of (lookup v s.fibers)) r ≡ true
        → member r s.services ≡ true

  member-load_entry :
      (plugin : Plugin S D) (p : PluginConfigEntry C) (s : PluginLoader S D C) (r : String)
      → member r s.services ≡ true
      → member r (load_entry plugin p s).services ≡ true
  unfolding load_entry
  member-load_entry plugin p s r h = elim (Result-cases (loaded plugin p s).result) [
    | inl (x, q) ↦
        member-served_ok (loaded plugin p s).result x p.id r s.services q ∙ rw h (ground arith)
    | inr (e, q) ↦ member-served_err (loaded plugin p s).result e p.id r s.services q ∙ h
  ]

  load_entry_own :
      (plugin : Plugin S D) (p : PluginConfigEntry C) (s : PluginLoader S D C) (v : String)
      → (p.id == v) ≡ true
      → active_in v s ≡ false
      → IsServed s
      → let s' = load_entry plugin p s in
        (lookup v s'.fibers ≡ some (fiber (loaded plugin p s).core nil))
        × (member v s'.services ≡ is_active (loaded plugin p s).core.state)
  unfolding load_entry
  load_entry_own plugin p s v q idle h =
      let l = load-Served plugin s.services s.has_stream (new_fiber p) refl in
      let here : lookup v (insert p.id (fiber (loaded plugin p s).core nil) s.fibers)
          ≡ some (fiber (loaded plugin p s).core nil) =
        lookup-insert p.id v _ s.fibers ∙ rw q refl in
      elim (Result-cases (loaded plugin p s).result) [
        | inl (x, u) ↦ (
          here,
          member-served_ok (loaded plugin p s).result x p.id v s.services u
              ∙ rw q (sym (l.gave x u)),
        )
        | inr (e, u) ↦ (
          here,
          member-served_err (loaded plugin p s).result e p.id v s.services u
              ∙ (h.stands v ∙ (idle ∙ sym (l.made e u))),
        )
      ]

  pub load_entry_other :
      (plugin : Plugin S D) (p : PluginConfigEntry C) (s : PluginLoader S D C) (v : String)
      → (p.id == v) ≡ false
      → let s' = load_entry plugin p s in
        (lookup v s'.fibers ≡ lookup v s.fibers) × (member v s'.services ≡ member v s.services)
  unfolding load_entry
  load_entry_other plugin p s v q =
      let here : lookup v (insert p.id (fiber (loaded plugin p s).core nil) s.fibers)
          ≡ lookup v s.fibers =
        lookup-insert p.id v _ s.fibers ∙ rw q refl in
      elim (Result-cases (loaded plugin p s).result) [
        | inl (x, u) ↦
            (here, member-served_ok (loaded plugin p s).result x p.id v s.services u ∙ rw q refl)
        | inr (e, u) ↦ (here, member-served_err (loaded plugin p s).result e p.id v s.services u)
      ]

  load_entry-IsServed :
      (plugin : Plugin S D) (p : PluginConfigEntry C) (s : PluginLoader S D C)
      → active_in p.id s ≡ false
      → IsServed s
      → IsServed (load_entry plugin p s)
  load_entry-IsServed plugin p s idle h = record {
    stands = λ v. elim (Bool-cases (p.id == v)) [
      | inl q ↦ let o = load_entry_own plugin p s v q (idle_at v q) h in rw (active_in, o.0) (o.1)
      | inr q ↦ let o = load_entry_other plugin p s v q in rw (active_in, o.0) (o.1 ∙ h.stands v)
    ];
    required = λ v r a k. member-load_entry plugin p s r (elim (Bool-cases (p.id == v)) [
      | inl q ↦
          let o = load_entry_own plugin p s v q (idle_at v q) h in
          let l = load-Served plugin s.services s.has_stream (new_fiber p) refl in
          let a' : is_active (loaded plugin p s).core.state ≡ true = rw (active_in, o.0) at a in
          let k' : contains (loaded plugin p s).core.requires r ≡ true = rw o.0 at k in
          let k'' : contains p.requires r ≡ true = rw l.kept at k' in
          first_missing-none p.requires s.services r (l.had a') k''
      | inr q ↦
          let o = load_entry_other plugin p s v q in
          h.required v r (rw (active_in, o.0) at a) (rw o.0 at k)
    ]);
  }
    where
      idle_at : (v : String) → (p.id == v) ≡ true → active_in v s ≡ false
      idle_at v q = subst (λ x. active_in x s ≡ false) ((string_eq.beq_iff p.id v).0 q) idle

  -- A round of `load_all`: an entry that is active is passed over, one that cannot be imported ends
  -- the loop, and any other is loaded.
  load_each_round :
      (definition : PluginConfigEntry C → Option (Plugin S D)) (p : PluginConfigEntry C)
      (ps : List (PluginConfigEntry C)) (s : PluginLoader S D C)
      → load_each definition (p ∷ ps) s ≡ (
          if active_in p.id s then load_each definition ps s else (elim (definition p) [
            | none ↦ (s, err (not_importable p.id))
            | some plugin ↦ load_each definition ps (load_entry plugin p s)
          ]))
  unfolding load_each
  load_each_round definition p ps s = refl

  pub load_each-IsServed :
      (definition : PluginConfigEntry C → Option (Plugin S D)) (order : List (PluginConfigEntry C))
      (s : PluginLoader S D C)
      → IsServed s
      → IsServed (load_each definition order s).0
  unfolding load_each
  load_each-IsServed definition [] s h = h
  load_each-IsServed definition (p ∷ ps) s h =
      let e = ap (λ x. x.0) (load_each_round definition p ps s) in
      elim (Bool-cases (active_in p.id s)) [
        | inl q ↦ subst IsServed (sym (e ∙ rw q refl)) (load_each-IsServed definition ps s h)
        | inr q ↦ elim (Option-cases (definition p)) [
          | inl u ↦ subst IsServed (sym (e ∙ rw (q, u) refl)) h
          | inr (plugin, u) ↦
              let s' = load_entry plugin p s in
              subst IsServed (sym (e ∙ rw (q, u) refl))
                (load_each-IsServed definition ps s' (load_entry-IsServed plugin p s q h))
        ]
      ]

  -- Where a service is there exactly for each active fiber, and what the active fibers require is
  -- there, both hold again after `load_all`, whichever plugins fail, and also where it raises. Where no
  -- two plugins have one id, it ends.
  pub load_all-IsServed :
      (definition : PluginConfigEntry C → Option (Plugin S D)) (s : PluginLoader S D C)
      → Distinct (ids s.plugins)
      → IsServed s
      → (t : PluginLoader S D C) × (r : Result LoaderError (Unit {0})) × (load_all definition s
          ≡ some (t, r))
        × IsServed t
  unfolding load_all
  load_all-IsServed definition s d h = elim (Option-cases (topological_sort s.plugins)) [
    | inl q ↦
        absurd (subst (Sorts (select is_enabled s.plugins)) q (topological_sort-Sorts s.plugins d))
    | inr (err e, q) ↦ (s, err (unsorted e), rw (load_all, q) refl, h)
    | inr (ok order, q) ↦
        let ran = load_each definition order s in
        (ran.0, ran.1, rw (load_all, q) refl, load_each-IsServed definition order s h)
  ]
