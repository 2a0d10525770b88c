-- ===== src/Plan/Order.antt =====
-- What an accepted plan guarantees: the finished steps stand in an order in which every dependency
-- comes before the step that needs it, so no step depends on itself through any chain.
use offline_companion_core.Base.{
  ℕ, zero, suc, ◌≤◌, ◌<◌, String, ◌≡◌, refl, subst, ◌≢◌, inl, inr, Bool, true, List, [], ◌∷◌, arith,
  if◌then◌else◌, Bool-cases, length, all, ◌==◌, nat_eq, string_eq, pair_eq, contains, beq_self,
  Result, ok, Result-cases,
}
use offline_companion_core.Base.Dict.{Dict, keys, member}
use offline_companion_core.Plan.Types.{PlanStep}
use offline_companion_core.Plan.Dag.{DagError, deps_of, visit_deps, visit, visit_all, validate_dag}

contains-cons :
    (x y : String) (xs : List String) → contains xs y ≡ true → contains (x ∷ xs) y ≡ true
contains-cons x y xs h = ground arith

module _ {R : Type 0} (steps : Dict String (PlanStep R)) where
  -- The newest finished step is at the head, and its dependencies are below it.
  abbrev pub Ordered : List String → Type 0
  Ordered [] = Unit {0}
  Ordered (id ∷ vs) =
      (all (contains vs) (deps_of steps id) ≡ true) × (member id steps ≡ true) × Ordered vs

  abbrev Extends : List String → List String → Type 0
  Extends vs vs' = (x : String) → contains vs x ≡ true → contains vs' x ≡ true

  abbrev Finds : String → List String → List String → Type 0
  Finds id vs vs' = Ordered vs' × (contains vs' id ≡ true) × Extends vs vs'

  visit_deps-Ordered :
      (go : String → List String → Result DagError (List String)) (owner : String)
      (ds vs vs' : List String)
      → ((d : String) (us us' : List String) → go d us ≡ ok us' → Ordered us → Finds d us us')
      → visit_deps steps go owner ds vs ≡ ok vs'
      → Ordered vs
      → Ordered vs' × (all (contains vs') ds ≡ true) × Extends vs vs'
  unfolding visit_deps
  visit_deps-Ordered go owner [] vs vs' sound h o =
      let e : vs ≡ vs' = ground arith in
      (subst Ordered e o, refl, λ x p. subst (λ us. contains us x ≡ true) e p)
  visit_deps-Ordered go owner (d ∷ ds) vs vs' sound h o = elim (Result-cases (go d vs)) [
    | inr (e, q) ↦ absurd (ground arith)
    | inl (us, q) ↦
        let first = sound d vs us q o in
        let rest = visit_deps-Ordered go owner ds us vs' sound (ground arith) first.0 in
        let found = rest.2 d first.1 in
        let others = rest.1 in (rest.0, ground arith, λ x p. rest.2 x (first.2 x p))
  ]

  visit-Ordered :
      (fuel : ℕ) (visiting : List String) (id : String) (vs vs' : List String)
      → visit steps fuel visiting id vs ≡ ok vs'
      → Ordered vs
      → Finds id vs vs'
  unfolding visit
  visit-Ordered zero visiting id vs vs' h o = cc
  visit-Ordered (suc fuel) visiting id vs vs' h o = elim (Bool-cases (contains vs id)) [
    | inl known ↦
        let e : vs ≡ vs' = ground arith in
        (
          subst Ordered e o,
          subst (λ us. contains us id ≡ true) e known,
          λ x p. subst (λ us. contains us x ≡ true) e p,
        )
    | inr new ↦
        elim (Result-cases
          (visit_deps steps (visit steps fuel (id ∷ visiting)) id (deps_of steps id) vs)) [
            | inr (x, q) ↦ absurd (ground arith)
            | inl (us, q) ↦
                let rest =
                  visit_deps-Ordered (visit steps fuel (id ∷ visiting)) id (deps_of steps id) vs us
                    (visit-Ordered fuel (id ∷ visiting)) q o in
                let e : id ∷ us ≡ vs' = ground arith in
                let listed : member id steps ≡ true = ground arith in
                (
                  subst Ordered e (rest.1, listed, rest.0),
                  subst (λ ws. contains ws id ≡ true) e (rw (beq_self id) refl),
                  λ x p. subst (λ ws. contains ws x ≡ true) e (contains-cons id x us (rest.2 x p)),
                )
          ]
  ]

  visit_all-Ordered :
      (fuel : ℕ) (ids vs vs' : List String)
      → visit_all steps fuel ids vs ≡ ok vs'
      → Ordered vs
      → Ordered vs' × (all (contains vs') ids ≡ true) × Extends vs vs'
  unfolding visit_all
  visit_all-Ordered fuel [] vs vs' h o =
      let e : vs ≡ vs' = ground arith in
      (subst Ordered e o, refl, λ x p. subst (λ us. contains us x ≡ true) e p)
  visit_all-Ordered fuel (id ∷ ids) vs vs' h o = elim (Result-cases (visit steps fuel [] id vs)) [
    | inr (e, q) ↦ absurd (ground arith)
    | inl (us, q) ↦
        let first = visit-Ordered fuel [] id vs us q o in
        let rest = visit_all-Ordered fuel ids us vs' (ground arith) first.0 in
        let found = rest.2 id first.1 in
        let others = rest.1 in (rest.0, ground arith, λ x p. rest.2 x (first.2 x p))
  ]

  -- An accepted plan has been put in order: every step of the plan is finished, and each finished
  -- step is one of the plan and has all its dependencies finished before it.
  pub validate_dag-Ordered :
      (vs : List String)
      → validate_dag steps ≡ ok vs
      → Ordered vs × (all (contains vs) (keys steps) ≡ true)
  unfolding validate_dag
  validate_dag-Ordered vs h =
      let r = visit_all-Ordered (suc (length (keys steps))) (keys steps) [] vs h tt in (r.0, r.1)

  -- The height of a step above the end of the order, at its oldest occurrence.
  abbrev rank : String → List String → ℕ
  rank id [] = 0
  rank id (x ∷ vs) =
      let rest = rank id vs in
      if contains vs id then rest else (if x == id then suc (length vs) else 0)

  rank-le-length : (id : String) (vs : List String) → rank id vs ≤ length vs
  rank-le-length id [] = omega arith
  rank-le-length id (x ∷ vs) = ground (arith, rank-le-length id vs)

  contains-of_all :
      (p : String → Bool) (d : String) (ds : List String)
      → all p ds ≡ true
      → contains ds d ≡ true
      → p d ≡ true
  contains-of_all p d [] h k = cc
  contains-of_all p d (x ∷ ds) h k = elim (Bool-cases (x == d)) [
    | inl q ↦ subst (λ y. p y ≡ true) ((string_eq.beq_iff x d).0 q) (ground arith)
    | inr q ↦ contains-of_all p d ds (ground arith) (ground arith)
  ]

  rank-lt :
      (id d : String) (vs : List String)
      → Ordered vs
      → contains vs id ≡ true
      → contains (deps_of steps id) d ≡ true
      → (contains vs d ≡ true) × (rank d vs < rank id vs)
  rank-lt id d [] o k n = cc
  rank-lt id d (x ∷ vs) o k n = elim (Bool-cases (contains vs id)) [
    | inl old ↦ let ih = rank-lt id d vs o.2 old n in (ground arith, ground arith)
    | inr new ↦
        let e : x ≡ id = (string_eq.beq_iff x id).0 (ground arith) in
        let below = contains-of_all (contains vs) d (deps_of steps x) o.0 (rw e n) in
        let small = rank-le-length d vs in (ground arith, ground arith)
  ]

  -- A chain of dependencies, of one link or more.
  pub data DependsOn (id : String) : String → Type 0 where
    direct : {d : String} → contains (deps_of steps id) d ≡ true → DependsOn id d
    through : {d e : String} → DependsOn id d → contains (deps_of steps d) e ≡ true → DependsOn id e

  chain-rank :
      (id : String) {d : String} (vs : List String)
      → Ordered vs
      → contains vs id ≡ true
      → DependsOn id d
      → (contains vs d ≡ true) × (rank d vs < rank id vs)
  chain-rank id {d} vs o k (direct n) = rank-lt id d vs o k n
  chain-rank id {d} vs o k (through {d = e} c n) =
      let up = chain-rank id vs o k c in let down = rank-lt e d vs o up.0 n in (down.0, omega arith)

  -- No step of an accepted plan depends on itself, through a chain of any length; and every step
  -- that one of its steps depends on is in the plan.
  pub validate_dag-acyclic :
      (vs : List String) (id d : String)
      → validate_dag steps ≡ ok vs
      → contains (keys steps) id ≡ true
      → DependsOn id d
      → (member d steps ≡ true) × (d ≢ id)
  validate_dag-acyclic vs id d h k c =
      let r = validate_dag-Ordered vs h in
      let down = chain-rank id vs r.0 (contains-of_all (contains vs) id (keys steps) r.1 k) c in
      (listed vs r.0 down.0, λ e. below (subst (λ x. rank x vs < rank id vs) e down.1))
    where
      listed : (us : List String) → Ordered us → contains us d ≡ true → member d steps ≡ true
      listed [] o p = cc
      listed (x ∷ us) o p = elim (Bool-cases (x == d)) [
        | inl q ↦ subst (λ y. member y steps ≡ true) ((string_eq.beq_iff x d).0 q) o.1
        | inr q ↦ listed us o.2 (ground arith)
      ]

      below : rank id vs < rank id vs → ⊥
      below p = omega arith
