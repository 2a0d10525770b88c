-- ===== src/Plan/Dag.antt =====
-- `validate_dag`: the depth-first search over the dependencies. The set `visited` is kept with the
-- step that was finished last at its head; the recursion takes fuel for its depth.
use offline_companion_core.Base.{
  ℕ, zero, suc, String, none, some, List, [], ◌∷◌, if◌then◌else◌, length, nat_eq, string_eq,
  pair_eq, contains, Result, ok, err, ◌>>=◌,
}
use offline_companion_core.Base.Dict.{Dict, keys, lookup, member}
use offline_companion_core.Plan.Types.{PlanStep}

pub data DagError : Type 0 where
  cycle missing_step : String → DagError
  missing_dependency : String → String → DagError
  out_of_fuel : DagError

module _ {R : Type 0} (steps : Dict String (PlanStep R)) where
  abbrev pub deps_of : String → List String
  deps_of id = elim (lookup id steps) [ none ↦ [] | some s ↦ s.depends_on ]

  -- The loop over the dependencies of `owner`; `go` is the recursive call.
  unfoldable pub visit_deps :
      (String → List String → Result DagError (List String))
      → String
      → List String
      → List String
      → Result DagError (List String)
  visit_deps go owner [] visited = ok visited
  visit_deps go owner (d ∷ ds) visited =
      if member d steps
      then (go d visited >>= λ visited'. visit_deps go owner ds visited')
      else err (missing_dependency owner d)

  unfoldable pub visit : ℕ → List String → String → List String → Result DagError (List String)
  visit zero visiting id visited = err out_of_fuel
  visit (suc fuel) visiting id visited =
      let go = visit fuel (id ∷ visiting) in
      if contains visited id
      then ok visited
      else (if contains visiting id
          then err (cycle id)
          else (if member id steps
              then (visit_deps go id (deps_of id) visited >>= λ visited'. ok (id ∷ visited'))
              else err (missing_step id)))

  unfoldable pub visit_all : ℕ → List String → List String → Result DagError (List String)
  visit_all fuel [] visited = ok visited
  visit_all fuel (id ∷ ids) visited =
      visit fuel [] id visited >>= λ visited'. visit_all fuel ids visited'

  -- A path of distinct steps is at most as long as the plan.
  unfoldable pub validate_dag : Result DagError (List String)
  validate_dag = visit_all (suc (length (keys steps))) (keys steps) []
