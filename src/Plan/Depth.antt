-- ===== src/Plan/Depth.antt =====
-- The fuel of `validate_dag` is enough: the steps on the current path are distinct steps of the plan.
use offline_companion_core.Base.{
  ℕ, zero, suc, ◌≤◌, ◌<◌, String, ◌≡◌, ◌≢◌, inl, inr, true, false, List, [], ◌∷◌, arith,
  if◌then◌else◌, Bool-cases, length, ◌==◌, nat_eq, string_eq, pair_eq, contains, beq_self, Result,
  err, Result-cases,
}
use offline_companion_core.Base.Dict.{Dict, keys, member}
use offline_companion_core.Plan.Types.{PlanStep}
use offline_companion_core.Plan.Dag.{
  DagError, out_of_fuel, deps_of, visit_deps, visit, visit_all, validate_dag,
}

-- The keys that are not on the path.
abbrev free : List String → List String → ℕ
free visiting [] = 0
free visiting (k ∷ ks) =
    let rest = free visiting ks in if contains visiting k then rest else suc rest

free-le-length : (visiting ks : List String) → free visiting ks ≤ length ks
free-le-length visiting [] = omega arith
free-le-length visiting (k ∷ ks) = ground (arith, free-le-length visiting ks)

free-cons-le :
    (id : String) (visiting ks : List String) → free (id ∷ visiting) ks ≤ free visiting ks
free-cons-le id visiting [] = omega arith
free-cons-le id visiting (k ∷ ks) = ground (arith, free-cons-le id visiting ks)

free-cons-lt :
    (id : String) (visiting ks : List String)
    → contains ks id ≡ true
    → contains visiting id ≡ false
    → free (id ∷ visiting) ks < free visiting ks
free-cons-lt id visiting [] h n = cc
free-cons-lt id visiting (k ∷ ks) h n = elim (Bool-cases (k == id)) [
  | inl q ↦
      let e : k ≡ id = (string_eq.beq_iff k id).0 q in
      let fresh : contains visiting k ≡ false = rw e n in
      let hit = beq_self id in
      let turned : (id == k) ≡ true = rw e hit in ground (arith, free-cons-le id visiting ks)
  | inr q ↦ ground (arith, free-cons-lt id visiting ks)
]

member-contains-keys :
    {A : Type 0} (id : String) (d : Dict String A)
    → member id d ≡ true
    → contains (keys d) id ≡ true
member-contains-keys id [] h = h
member-contains-keys id ((k, a) ∷ d) h = ground (arith, member-contains-keys id d)

module _ {R : Type 0} (steps : Dict String (PlanStep R)) where
  visit_deps-ne-out_of_fuel :
      (go : String → List String → Result DagError (List String)) (owner : String)
      (ds vs : List String)
      → ((d : String) (us : List String) → go d us ≢ err out_of_fuel)
      → visit_deps steps go owner ds vs ≢ err out_of_fuel
  unfolding visit_deps
  visit_deps-ne-out_of_fuel go owner [] vs ih h = cc
  visit_deps-ne-out_of_fuel go owner (d ∷ ds) vs ih h = elim (Result-cases (go d vs)) [
    | inl (us, q) ↦ visit_deps-ne-out_of_fuel go owner ds us ih (ground arith)
    | inr (e, q) ↦ ground (arith, ih d vs)
  ]

  visit-ne-out_of_fuel :
      (fuel : ℕ) (visiting : List String) (id : String) (vs : List String)
      → free visiting (keys steps) < fuel
      → visit steps fuel visiting id vs ≢ err out_of_fuel
  unfolding visit
  visit-ne-out_of_fuel zero visiting id vs f h = absurd (omega arith)
  visit-ne-out_of_fuel (suc fuel) visiting id vs f h = elim (Bool-cases (contains visiting id)) [
    | inl q ↦ ground arith
    | inr q ↦ elim (Bool-cases (member id steps)) [
      | inr n ↦ ground arith
      | inl m ↦
          let less = free-cons-lt id visiting (keys steps) (member-contains-keys id steps m) q in
          let deps =
            visit_deps-ne-out_of_fuel (visit steps fuel (id ∷ visiting)) id (deps_of steps id) vs
              (λ d us. visit-ne-out_of_fuel fuel (id ∷ visiting) d us (omega arith)) in
          elim (Result-cases
            (visit_deps steps (visit steps fuel (id ∷ visiting)) id (deps_of steps id) vs)) [
              | inl (us, r) ↦ ground arith
              | inr (e, r) ↦ ground arith
            ]
    ]
  ]

  visit_all-ne-out_of_fuel :
      (fuel : ℕ) (ids vs : List String)
      → length (keys steps) < fuel
      → visit_all steps fuel ids vs ≢ err out_of_fuel
  unfolding visit_all
  visit_all-ne-out_of_fuel fuel [] vs f h = cc
  visit_all-ne-out_of_fuel fuel (id ∷ ids) vs f h =
      elim (Result-cases (visit steps fuel [] id vs)) [
        | inl (us, q) ↦ visit_all-ne-out_of_fuel fuel ids us f (ground arith)
        | inr (e, q) ↦
            let first =
              visit-ne-out_of_fuel fuel [] id vs (omega (arith, free-le-length [] (keys steps))) in
            ground arith
      ]

  -- The search always ends with an answer of its own: an order, a cycle, or a missing step.
  pub validate_dag-ne-out_of_fuel : validate_dag steps ≢ err out_of_fuel
  unfolding validate_dag
  validate_dag-ne-out_of_fuel =
      visit_all-ne-out_of_fuel (suc (length (keys steps))) (keys steps) [] (omega arith)
