-- ===== src/Lifecycle/Topo/Links.antt =====
-- The graph that the plugins' requirements make: how often an id depends on another, and the in-degrees.
use offline_companion_core.Base.{
  ℕ, ◌+◌, String, ◌≡◌, refl, sym, ap, subst, inl, inr, true, false, List, [], ◌∷◌, ◌++◌, arith,
  if◌then◌else◌, Bool-cases, length, length-append, ◌==◌, nat_eq, string_eq, pair_eq, contains,
  beq_self, Result, ok, err, Result-cases,
}
use offline_companion_core.Base.Dict.{Dict, insert, member, lookup-insert}
use offline_companion_core.Lifecycle.Topo.{
  PluginConfigEntry, SortError, missing_dependency, Graph, degree, dependents, link, link_all,
}
use offline_companion_core.Lifecycle.Topo.Counts.{count, count-append, contains-append}

pub degree-insert :
    (k v : String) (n : ℕ) (d : Dict String ℕ)
    → degree (insert k n d) v ≡ (if k == v then n else degree d v)
degree-insert k v n d = elim (Bool-cases (k == v)) [
  | inl q ↦ rw (lookup-insert k v n d, q) refl
  | inr q ↦ rw (lookup-insert k v n d, q) refl
]

pub dependents-insert :
    (k v : String) (vs : List String) (d : Dict String (List String))
    → dependents (insert k vs d) v ≡ (if k == v then vs else dependents d v)
dependents-insert k v vs d = elim (Bool-cases (k == v)) [
  | inl q ↦ rw (lookup-insert k v vs d, q) refl
  | inr q ↦ rw (lookup-insert k v vs d, q) refl
]

-- From one graph to another, `more v` has been added to what `v` requires.
pub record Adds (g g' : Graph) (more : String → List String) : Type 0 where
  pub counts :
      (u v : String)
      → count v (dependents g'.edges u) ≡ count v (dependents g.edges u) + count u (more v)
  pub degrees : (v : String) → degree g'.in_degree v ≡ degree g.in_degree v + length (more v)

abbrev only : String → List String → String → List String
only p rs v = if p == v then rs else []

abbrev one_link : String → String → Graph → Graph
one_link p r g = record {
  edges = insert r (dependents g.edges r ++ p ∷ []) g.edges;
  in_degree = insert p (degree g.in_degree p + 1) g.in_degree;
}

one_link-counts :
    (p r : String) (g : Graph) (u v : String)
    → count v (dependents (one_link p r g).edges u)
      ≡ count v (dependents g.edges u) + count u (only p (r ∷ []) v)
one_link-counts p r g u v =
    let a = string_eq.beq_iff r u in
    let b = string_eq.beq_iff u r in
    let c = string_eq.beq_iff p v in
    let d = string_eq.beq_iff v p in
    elim (Bool-cases (r == u)) [
      | inl q ↦
          let same : dependents g.edges r ≡ dependents g.edges u =
            ap (dependents g.edges) (a.0 q) in
          let back : (u == r) ≡ true = b.1 (sym (a.0 q)) in
          let n = count-append v (dependents g.edges u) (p ∷ []) in
          elim (Bool-cases (p == v)) [
            | inl s ↦
                let t : (v == p) ≡ true = d.1 (sym (c.0 s)) in
                rw
                  (
                    dependents-insert r u (dependents g.edges r ++ p ∷ []) g.edges,
                    q,
                    s,
                    same,
                    n,
                    t,
                    back,
                  )
                  (omega arith)
            | inr s ↦
                let t : (v == p) ≡ false = ground arith in
                rw
                  (dependents-insert r u (dependents g.edges r ++ p ∷ []) g.edges, q, s, same, n, t)
                  (omega arith)
          ]
      | inr q ↦
          let back : (u == r) ≡ false = ground arith in
          elim (Bool-cases (p == v)) [
            | inl s ↦
                rw (dependents-insert r u (dependents g.edges r ++ p ∷ []) g.edges, q, s, back)
                  (omega arith)
            | inr s ↦
                rw (dependents-insert r u (dependents g.edges r ++ p ∷ []) g.edges, q, s)
                  (omega arith)
          ]
    ]

one_link-degrees :
    (p r : String) (g : Graph) (v : String)
    → degree (one_link p r g).in_degree v ≡ degree g.in_degree v + length (only p (r ∷ []) v)
one_link-degrees p r g v = elim (Bool-cases (p == v)) [
  | inl s ↦
      let same : degree g.in_degree p ≡ degree g.in_degree v =
        ap (degree g.in_degree) ((string_eq.beq_iff p v).0 s) in
      rw (degree-insert p v (degree g.in_degree p + 1) g.in_degree, s, same) refl
  | inr s ↦ rw (degree-insert p v (degree g.in_degree p + 1) g.in_degree, s) (omega arith)
]

one_link-Adds : (p r : String) (g : Graph) → Adds g (one_link p r g) (only p (r ∷ []))
one_link-Adds p r g = record { counts = one_link-counts p r g; degrees = one_link-degrees p r g }

Adds-nil : (g : Graph) → Adds g g (λ v. [])
Adds-nil g = record { counts = λ u v. omega arith; degrees = λ v. omega arith }

Adds-trans :
    (f g h : Graph) (a b c : String → List String)
    → Adds f g a
    → Adds g h b
    → ((v : String) → c v ≡ a v ++ b v)
    → Adds f h c
Adds-trans f g h a b c x y e = record {
  counts = λ u v. rw (e v, count-append u (a v) (b v)) (omega (arith, x.counts u v, y.counts u v));
  degrees = λ v. rw (e v, length-append (a v) (b v)) (omega (arith, x.degrees v, y.degrees v));
}

only-cons :
    (p r : String) (rs : List String) (v : String)
    → only p (r ∷ rs) v ≡ only p (r ∷ []) v ++ only p rs v
only-cons p r rs v = elim (Bool-cases (p == v)) [ inl q ↦ rw q refl | inr q ↦ rw q refl ]

only_none : (p : String) (g : Graph) → Adds g g (only p [])
only_none p g =
    Adds-trans g g g (λ v. []) (λ v. []) (only p []) (Adds-nil g) (Adds-nil g)
      (λ v. elim (Bool-cases (p == v)) [ inl q ↦ rw q refl | inr q ↦ rw q refl ])

module _ {C : Type 0} where
  -- All that the entries with an id require.
  abbrev pub wanted : List (PluginConfigEntry C) → String → List String
  wanted [] v = []
  wanted (p ∷ ps) v = let rest = wanted ps v in if p.id == v then p.requires ++ rest else rest

  -- Each requirement of the plugin is a key of `m`.
  abbrev pub Present : Dict String (PluginConfigEntry C) → List String → Type 0
  Present m rs = (r : String) → contains rs r ≡ true → member r m ≡ true

  Present-cons :
      (m : Dict String (PluginConfigEntry C)) (r : String) (rs : List String)
      → member r m ≡ true
      → Present m rs
      → Present m (r ∷ rs)
  Present-cons m r rs q h s k = elim (Bool-cases (r == s)) [
    | inl e ↦ subst (λ x. member x m ≡ true) ((string_eq.beq_iff r s).0 e) q
    | inr e ↦ h s (ground arith)
  ]

  wanted-cons :
      (p : PluginConfigEntry C) (ps : List (PluginConfigEntry C)) (v : String)
      → wanted (p ∷ ps) v ≡ only p.id p.requires v ++ wanted ps v
  wanted-cons p ps v = elim (Bool-cases (p.id == v)) [ inl q ↦ rw q refl | inr q ↦ rw q refl ]

  pub wanted_first :
      (p : PluginConfigEntry C) (ps : List (PluginConfigEntry C)) (r : String)
      → contains p.requires r ≡ true
      → contains (wanted (p ∷ ps) p.id) r ≡ true
  wanted_first p ps r h =
      rw (beq_self p.id) (rw (contains-append p.requires (wanted ps p.id) r, h) refl)

  pub wanted_later :
      (p : PluginConfigEntry C) (ps : List (PluginConfigEntry C)) (v r : String)
      → contains (wanted ps v) r ≡ true
      → contains (wanted (p ∷ ps) v) r ≡ true
  wanted_later p ps v r h = elim (Bool-cases (p.id == v)) [
    | inl q ↦ rw (q, contains-append p.requires (wanted ps v) r, h) (ground arith)
    | inr q ↦ rw q h
  ]

  Present-wanted :
      (m : Dict String (PluginConfigEntry C)) (p : PluginConfigEntry C)
      (ps : List (PluginConfigEntry C)) (v : String)
      → Present m p.requires
      → Present m (wanted ps v)
      → Present m (wanted (p ∷ ps) v)
  Present-wanted m p ps v a b r h = elim (Bool-cases (p.id == v)) [
    | inr q ↦ b r (rw q at h)
    | inl q ↦
        let h' : contains (p.requires ++ wanted ps v) r ≡ true = rw q at h in
        let split = contains-append p.requires (wanted ps v) r in
        elim (Bool-cases (contains p.requires r)) [ inl s ↦ a r s | inr s ↦ b r (ground arith) ]
  ]

  abbrev Linked :
      Dict String (PluginConfigEntry C)
      → String
      → List String
      → Graph
      → Result SortError Graph
      → Type 0
  Linked m p rs g (ok g') = Adds g g' (only p rs) × Present m rs
  Linked m p rs g (err e) =
      (r : String) × (e ≡ missing_dependency p r) × (contains rs r ≡ true) × (member r m ≡ false)

  link-Linked :
      (m : Dict String (PluginConfigEntry C)) (p : String) (rs : List String) (g : Graph)
      → Linked m p rs g (link m p rs g)
  unfolding link
  link-Linked m p [] g = (only_none p g, λ r h. absurd (ground arith))
  link-Linked m p (r ∷ rs) g = elim (Bool-cases (member r m)) [
    | inr q ↦ rw q (r, refl, ground (arith, beq_self r), q)
    | inl q ↦ elim (Result-cases (link m p rs (one_link p r g))) [
      | inl (g', s) ↦
          let ih : Linked m p rs (one_link p r g) (ok g') =
            subst (Linked m p rs (one_link p r g)) s (link-Linked m p rs (one_link p r g)) in
          rw (q, s)
            (
              Adds-trans g (one_link p r g) g' (only p (r ∷ [])) (only p rs) (only p (r ∷ rs))
                  (one_link-Adds p r g) ih.0 (only-cons p r rs),
              Present-cons m r rs q ih.1,
            )
      | inr (e, s) ↦
          let ih : Linked m p rs (one_link p r g) (err e) =
            subst (Linked m p rs (one_link p r g)) s (link-Linked m p rs (one_link p r g)) in
          rw (q, s) (ih.0, ih.1, ground (arith, ih.2), ih.3)
    ]
  ]

  abbrev pub LinkedAll :
      Dict String (PluginConfigEntry C)
      → List (PluginConfigEntry C)
      → Graph
      → Result SortError Graph
      → Type 0
  LinkedAll m ps g (ok g') = Adds g g' (wanted ps) × ((v : String) → Present m (wanted ps v))
  LinkedAll m ps g (err e) =
      (v r : String) × (e ≡ missing_dependency v r)
      × (contains (wanted ps v) r ≡ true)
      × (member r m ≡ false)

  -- The loops that build the graph add every requirement, or raise at one that is not there.
  pub link_all-LinkedAll :
      (m : Dict String (PluginConfigEntry C)) (ps : List (PluginConfigEntry C)) (g : Graph)
      → LinkedAll m ps g (link_all m ps g)
  unfolding link_all
  link_all-LinkedAll m [] g = (Adds-nil g, λ v r h. absurd (ground arith))
  link_all-LinkedAll m (p ∷ ps) g = elim (Result-cases (link m p.id p.requires g)) [
    | inr (e, q) ↦
        let one : Linked m p.id p.requires g (err e) =
          subst (Linked m p.id p.requires g) q (link-Linked m p.id p.requires g) in
        rw (LinkedAll, link_all, q) (p.id, one.0, one.1, wanted_first p ps one.0 one.2, one.3)
    | inl (g', q) ↦
        let one : Linked m p.id p.requires g (ok g') =
          subst (Linked m p.id p.requires g) q (link-Linked m p.id p.requires g) in
        elim (Result-cases (link_all m ps g')) [
          | inr (e, s) ↦
              let ih : LinkedAll m ps g' (err e) =
                subst (LinkedAll m ps g') s (link_all-LinkedAll m ps g') in
              rw (link_all, q, s) (ih.0, ih.1, ih.2, wanted_later p ps ih.0 ih.1 ih.3, ih.4)
          | inl (g'', s) ↦
              let ih : LinkedAll m ps g' (ok g'') =
                subst (LinkedAll m ps g') s (link_all-LinkedAll m ps g') in
              rw (link_all, q, s)
                (
                  Adds-trans g g' g'' (only p.id p.requires) (wanted ps) (wanted (p ∷ ps)) one.0
                      ih.0 (wanted-cons p ps),
                  λ v. Present-wanted m p ps v one.1 (ih.1 v),
                )
        ]
  ]
