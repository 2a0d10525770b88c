-- ===== src/Lifecycle/Topo/Sorted.antt =====
-- What `topological_sort` gives, for any plugins with different ids.
use offline_companion_core.Base.{
  ℕ, suc, ◌<◌, String, ◌≡◌, refl, sym, subst, ◌∙◌, ◌≢◌, inl, inr, Bool, true, false, not, Option,
  none, some, List, [], ◌∷◌, arith, nat_beq, if◌then◌else◌, nat_beq_iff, Bool-cases, length, select,
  nat_eq, string_eq, pair_eq, contains, Result, ok, err, Result-cases,
}
use offline_companion_core.Base.Dict.{Dict, member}
use offline_companion_core.Lifecycle.Topo.{
  PluginConfigEntry, SortError, missing_dependency, circular_dependency, Graph, is_enabled, ids,
  id_map, empty_graph, link_all, roots, remaining, drain, sort_enabled, topological_sort, degree,
}
use offline_companion_core.Lifecycle.Topo.Counts.{
  Distinct, outside, outside_some, outside_none, outside-nil, contains-select,
}
use offline_companion_core.Lifecycle.Topo.Links.{
  wanted, Adds, Present, LinkedAll, link_all-LinkedAll,
}
use offline_companion_core.Lifecycle.Topo.Rounds.{
  IsOrdered, put, put-contains, Stored, Fits, Between, Drained, drain-Drained,
}
use offline_companion_core.Lifecycle.Topo.Start.{
  lookup-id_map, lookup-id_map_other, no_graph, empty_graph_empty, wanted_known, select-Distinct,
  roots-Zeros, remaining-contains,
}

module _ {C : Type 0} (entries : List (PluginConfigEntry C)) where
  -- Of the enabled plugins: an order of all of them with requirements first; or a requirement that is
  -- none of them; or a list with some of them each of which requires another one of these.
  abbrev pub Sorts : Option (Result SortError (List (PluginConfigEntry C))) → Type 0
  Sorts none = ⊥
  Sorts (some (ok result)) =
      IsOrdered [] result
      × Stored (id_map entries []) result
      × (length result ≡ length entries)
      × ((v : String) → contains (ids entries) v ≡ true → contains (ids result) v ≡ true)
  Sorts (some (err (missing_dependency v r))) =
      (contains (wanted entries v) r ≡ true) × (contains (ids entries) r ≡ false)
  Sorts (some (err (circular_dependency reported))) =
      (stuck : List String) × ((v : String) × (contains stuck v ≡ true))
      × ((v : String)
          → contains stuck v ≡ true
          → (contains reported v ≡ true)
            × ((r : String) × (contains (wanted entries v) r ≡ true) × (contains stuck r ≡ true)))

  member-id_map : (r : String) → member r (id_map entries []) ≡ contains (ids entries) r
  member-id_map r = elim (Bool-cases (contains (ids entries) r)) [
    | inl q ↦ let f = lookup-id_map entries [] r q in rw (f.1, q) refl
    | inr q ↦ rw (lookup-id_map_other entries [] r q, q) refl
  ]

  abbrev start : Graph
  start = empty_graph entries no_graph

  fits :
      (g : Graph)
      → Distinct (ids entries)
      → Adds start g (wanted entries)
      → Fits (id_map entries []) g.edges (wanted entries) (ids entries)
  fits g d a = record {
    links = λ u v.
        let c = a.counts u v in
        let none_yet = (empty_graph_empty entries no_graph (λ w. (refl, refl)) u).1 in
        c ∙ rw none_yet (omega arith);
    listed = wanted_known entries;
    found = lookup-id_map entries [];
    once = d;
  }

  first_round :
      (g : Graph)
      → Distinct (ids entries)
      → Adds start g (wanted entries)
      → Between
          (id_map entries [])
          g.edges
          (wanted entries)
          (ids entries)
          []
          g.in_degree
          (roots g.in_degree (ids entries))
  first_round g d a = record {
    zeros = roots-Zeros g.in_degree (ids entries) d;
    counted = λ v.
        let none_yet = (empty_graph_empty entries no_graph (λ w. (refl, refl)) v).0 in
        a.degrees v ∙ rw (none_yet, outside-nil (wanted entries v)) (omega arith);
  }

  ids-length : (ps : List (PluginConfigEntry C)) → length (ids ps) ≡ length ps
  ids-length [] = refl
  ids-length (p ∷ ps) = omega (arith, ids-length ps)

  -- The two ends of the loop.
  all_out :
      (g : Graph) (result : List (PluginConfigEntry C)) (left : Dict String ℕ)
      → Drained (id_map entries []) g.edges (wanted entries) (ids entries) [] result left
      → length result ≡ length entries
      → Sorts (some (ok result))
  all_out g result left d same = (
    d.ordered,
    d.stored,
    same,
    λ v h.
        let none_left : outside (put result []) (ids entries) ≡ 0 =
          omega (arith, d.sized, outside-nil (ids entries), ids-length entries, same) in
        let out = outside_none (put result []) (ids entries) v none_left h in
        ground (arith, put-contains result [] v),
  )

  some_stuck :
      (g : Graph) (result : List (PluginConfigEntry C)) (left : Dict String ℕ)
      → Drained (id_map entries []) g.edges (wanted entries) (ids entries) [] result left
      → ((v : String) → Present (id_map entries []) (wanted entries v))
      → length result ≢ length entries
      → Sorts (some (err (circular_dependency (remaining left))))
  some_stuck g result left d present differ = (
    select is_stuck (ids entries),
    (one.0, rw (contains-select is_stuck (ids entries) one.0, one.1, one.2) refl),
    λ v h.
        let known : contains (ids entries) v ≡ true =
          ground (arith, contains-select is_stuck (ids entries) v) in
        let waits : contains (put result []) v ≡ false =
          ground (arith, contains-select is_stuck (ids entries) v) in
        let degree_left = has_degree v known waits in
        let needs : 0 < outside (put result []) (wanted entries v) =
          omega (arith, d.last.counted v, degree_left) in
        let need = outside_some (put result []) (wanted entries v) needs in
        let there : contains (ids entries) need.0 ≡ true =
          sym (member-id_map need.0) ∙ present v need.0 need.1 in
        (
          remaining-contains left v degree_left,
          (need.0, need.1, rw (contains-select is_stuck (ids entries) need.0, there, need.2) refl),
        ),
  )
    where
      is_stuck : String → Bool
      is_stuck v = not (contains (put result []) v)

      one : (v : String) × (contains (ids entries) v ≡ true) × (contains (put result []) v ≡ false)
      one =
          outside_some (put result []) (ids entries)
            (omega (arith, d.sized, outside-nil (ids entries), ids-length entries, differ))

      has_degree :
          (v : String)
          → contains (ids entries) v ≡ true
          → contains (put result []) v ≡ false
          → 0 < degree left v
      has_degree v known waits = elim (Bool-cases (nat_beq (degree left v) 0)) [
        | inr q ↦ ground arith
        | inl q ↦
            let out = d.last.zeros.covered v known (ground arith) refl in absurd (ground arith)
      ]

  sort_enabled_refused :
      (e : SortError)
      → link_all (id_map entries []) entries start ≡ err e
      → sort_enabled entries ≡ some (err e)
  unfolding sort_enabled
  sort_enabled_refused e q = rw (sort_enabled, q) refl

  sort_enabled_linked :
      (g : Graph) (result : List (PluginConfigEntry C)) (left : Dict String ℕ)
      → link_all (id_map entries []) entries start ≡ ok g
      → drain
          (suc (length entries))
          (id_map entries [])
          g.edges
          g.in_degree
          (roots g.in_degree (ids entries))
        ≡ some (result, left)
      → sort_enabled entries ≡ (
          if nat_beq (length result) (length entries)
          then some (ok result)
          else some (err (circular_dependency (remaining left))))
  unfolding sort_enabled
  sort_enabled_linked g result left q r = rw (sort_enabled, q, r) refl

  sort_enabled-Sorts : Distinct (ids entries) → Sorts (sort_enabled entries)
  sort_enabled-Sorts d = elim (Result-cases (link_all (id_map entries []) entries start)) [
    | inr (e, q) ↦
        let l : LinkedAll (id_map entries []) entries start (err e) =
          subst (LinkedAll (id_map entries []) entries start) q
            (link_all-LinkedAll (id_map entries []) entries start) in
        rw (sort_enabled_refused e q, l.2) (l.3, sym (member-id_map l.1) ∙ l.4)
    | inl (g, q) ↦
        let l : LinkedAll (id_map entries []) entries start (ok g) =
          subst (LinkedAll (id_map entries []) entries start) q
            (link_all-LinkedAll (id_map entries []) entries start) in
        let (result, left, ends, drained) =
          drain-Drained (id_map entries []) g.edges (wanted entries) (ids entries)
            (suc (length entries)) [] g.in_degree (roots g.in_degree (ids entries)) (fits g d l.0)
            (first_round g d l.0) (omega (arith, outside-nil (ids entries), ids-length entries)) in
        elim (Bool-cases (nat_beq (length result) (length entries))) [
          | inl s ↦
              rw (sort_enabled_linked g result left q ends, s)
                (all_out g result left drained ((nat_beq_iff (length result) (length entries)).0 s))
          | inr s ↦
              rw (sort_enabled_linked g result left q ends, s)
                (some_stuck g result left drained l.1 (λ e. ground arith))
        ]
  ]

module _ {C : Type 0} where
  -- Where no two plugins have one id, `topological_sort` ends. Of the enabled plugins it gives an order
  -- of all of them in which each comes after what it requires; or it raises at a plugin that requires
  -- an id that is not enabled; or it raises with ids among which some, at least one, each require
  -- another of these.
  pub topological_sort-Sorts :
      (plugins : List (PluginConfigEntry C))
      → Distinct (ids plugins)
      → Sorts (select is_enabled plugins) (topological_sort plugins)
  unfolding topological_sort
  topological_sort-Sorts plugins d =
      sort_enabled-Sorts (select is_enabled plugins) (select-Distinct plugins d)
