-- ===== src/Lifecycle/Topo/Start.antt =====
-- Where the loop of core/lifecycle/topo.py starts: the dict of the entries, the empty graph, and the ids
-- of degree 0; and the list of its error.
use offline_companion_core.Base.{
  ℕ, ◌<◌, String, ◌≡◌, refl, subst, ◌∙◌, inl, inr, true, false, ◌&&◌, some, List, [], ◌∷◌, arith,
  nat_beq, Bool-cases, select, ◌==◌, nat_eq, string_eq, pair_eq, contains,
}
use offline_companion_core.Base.Dict.{Dict, lookup, insert, lookup-insert}
use offline_companion_core.Lifecycle.Topo.{
  PluginConfigEntry, Graph, degree, dependents, is_enabled, ids, id_map, empty_graph, roots,
  remaining,
}
use offline_companion_core.Lifecycle.Topo.Counts.{Distinct, contains-select}
use offline_companion_core.Lifecycle.Topo.Links.{
  degree-insert, dependents-insert, wanted, wanted_first, wanted_later,
}
use offline_companion_core.Lifecycle.Topo.Invariant.{Zeros}

abbrev pub no_graph : Graph
no_graph = record { in_degree = []; edges = [] }

module _ {C : Type 0} where
  pub lookup-id_map_other :
      (ps : List (PluginConfigEntry C)) (m : Dict String (PluginConfigEntry C)) (v : String)
      → contains (ids ps) v ≡ false
      → lookup v (id_map ps m) ≡ lookup v m
  unfolding id_map
  lookup-id_map_other [] m v h = refl
  lookup-id_map_other (p ∷ ps) m v h =
      let other : (p.id == v) ≡ false = ground arith in
      lookup-id_map_other ps (insert p.id p m) v (ground arith)
      ∙ (lookup-insert p.id v p m ∙ rw other refl)

  pub lookup-id_map :
      (ps : List (PluginConfigEntry C)) (m : Dict String (PluginConfigEntry C)) (v : String)
      → contains (ids ps) v ≡ true
      → (p : PluginConfigEntry C) × (lookup v (id_map ps m) ≡ some p)
        × (p.id ≡ v)
        × ((r : String) → contains p.requires r ≡ true → contains (wanted ps v) r ≡ true)
  unfolding id_map
  lookup-id_map [] m v h = absurd (ground arith)
  lookup-id_map (p ∷ ps) m v h = elim (Bool-cases (contains (ids ps) v)) [
    | inl q ↦
        let (o, found, same, needs) = lookup-id_map ps (insert p.id p m) v q in
        (o, found, same, λ r k. wanted_later p ps v r (needs r k))
    | inr q ↦
        let mine : (p.id == v) ≡ true = ground arith in
        let same = (string_eq.beq_iff p.id v).0 mine in
        (
          p,
          lookup-id_map_other ps (insert p.id p m) v q ∙ (lookup-insert p.id v p m ∙ rw mine refl),
          same,
          λ r k. subst (λ x. contains (wanted (p ∷ ps) x) r ≡ true) same (wanted_first p ps r k),
        )
  ]

  pub empty_graph_empty :
      (ps : List (PluginConfigEntry C)) (g : Graph)
      → ((v : String) → (degree g.in_degree v ≡ 0) × (dependents g.edges v ≡ []))
      → (v : String)
      → (degree (empty_graph ps g).in_degree v ≡ 0) × (dependents (empty_graph ps g).edges v ≡ [])
  unfolding empty_graph
  empty_graph_empty [] g h = h
  empty_graph_empty (p ∷ ps) g h =
      empty_graph_empty ps
        (record { in_degree = insert p.id 0 g.in_degree; edges = insert p.id [] g.edges })
        (λ v. elim (Bool-cases (p.id == v)) [
          | inl q ↦
              rw (degree-insert p.id v 0 g.in_degree, dependents-insert p.id v [] g.edges, q)
                (refl, refl)
          | inr q ↦
              rw (degree-insert p.id v 0 g.in_degree, dependents-insert p.id v [] g.edges, q) (h v)
        ])

  pub wanted_known :
      (ps : List (PluginConfigEntry C)) (v r : String)
      → contains (wanted ps v) r ≡ true
      → contains (ids ps) v ≡ true
  wanted_known [] v r h = absurd (ground arith)
  wanted_known (p ∷ ps) v r h = elim (Bool-cases (p.id == v)) [
    | inl q ↦ rw q refl
    | inr q ↦ let k = wanted_known ps v r (rw q at h) in rw q k
  ]

  ids-select :
      (ps : List (PluginConfigEntry C)) (v : String)
      → contains (ids ps) v ≡ false
      → contains (ids (select is_enabled ps)) v ≡ false
  ids-select [] v h = refl
  ids-select (p ∷ ps) v h = elim (Bool-cases p.enabled) [
    | inl q ↦ rw q (ground (arith, ids-select ps v (ground arith)))
    | inr q ↦ rw q (ids-select ps v (ground arith))
  ]

  pub select-Distinct :
      (ps : List (PluginConfigEntry C)) → Distinct (ids ps) → Distinct (ids (select is_enabled ps))
  select-Distinct [] d = tt
  select-Distinct (p ∷ ps) d = elim (Bool-cases p.enabled) [
    | inl q ↦ rw q (ids-select ps p.id d.0, select-Distinct ps d.1)
    | inr q ↦ rw q (select-Distinct ps d.1)
  ]

roots-contains :
    (d : Dict String ℕ) (vs : List String) (v : String)
    → contains (roots d vs) v ≡ (contains vs v && nat_beq (degree d v) 0)
roots-contains d vs v = contains-select (λ w. nat_beq (degree d w) 0) vs v

roots-Distinct : (d : Dict String ℕ) (vs : List String) → Distinct vs → Distinct (roots d vs)
roots-Distinct d [] h = tt
roots-Distinct d (v ∷ vs) h = elim (Bool-cases (nat_beq (degree d v) 0)) [
  | inl q ↦ let r = roots-contains d vs v in rw q (ground (arith, h.0), roots-Distinct d vs h.1)
  | inr q ↦ rw q (roots-Distinct d vs h.1)
]

pub roots-Zeros : (d : Dict String ℕ) (vs : List String) → Distinct vs → Zeros vs [] d (roots d vs)
roots-Zeros d vs h = record {
  distinct = roots-Distinct d vs h;
  fresh = λ v k. refl;
  known = λ v k. ground (arith, roots-contains d vs v);
  queued = λ v k. ground (arith, roots-contains d vs v);
  done = λ v k. absurd (ground arith);
  covered = λ v a n k. absurd (ground (arith, roots-contains d vs v));
}

-- An id with a degree is reported.
pub remaining-contains :
    (d : Dict String ℕ) (v : String) → 0 < degree d v → contains (remaining d) v ≡ true
remaining-contains [] v h = absurd (omega arith)
remaining-contains ((w, n) ∷ d) v h = elim (Bool-cases (w == v)) [
  | inl q ↦ elim (Bool-cases (nat_beq n 0)) [
    | inl s ↦ absurd (ground arith)
    | inr s ↦ rw (s, q) refl
  ]
  | inr q ↦ elim (Bool-cases (nat_beq n 0)) [
    | inl s ↦ rw s (remaining-contains d v (rw q at h))
    | inr s ↦ rw (s, q) (remaining-contains d v (rw q at h))
  ]
]
