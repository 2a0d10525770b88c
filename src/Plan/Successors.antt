-- ===== src/Plan/Successors.antt =====
-- `propagate_failure` and `propagate_unblock`: the walk over the steps downstream. The queue loop
-- takes fuel; a queue entry comes from the start or from one edge of a step that is met the first
-- time, so the edges, twice counted, are enough.
use offline_companion_core.Base.{
  ℕ, zero, suc, ◌+◌, String, Bool, true, false, not, ◌&&◌, Option, none, some, List, [], ◌∷◌, ◌++◌,
  if◌then◌else◌, get_or, length, select, any, ◌==◌, nat_eq, string_eq, pair_eq, contains,
}
use offline_companion_core.Base.Dict.{Dict, lookup, insert, erase}
use offline_companion_core.Plan.Types.{
  StepStatus, is_failure, is_waiting, is_blocked, holds, PlanStep, TaskContext, Runtime,
}
use offline_companion_core.Plan.Context.{status_of, mark_processed, touch, mark_step_completed}

-- `successors.setdefault(k, []).append(v)`
abbrev pub add_successor : String → String → Dict String (List String) → Dict String (List String)
add_successor k v d = insert k (get_or (lookup k d) [] ++ v ∷ []) d

abbrev pub edges : Dict String (List String) → ℕ
edges [] = 0
edges ((_, vs) ∷ d) = length vs + edges d

unfoldable pub add_dependencies :
    String → List String → Dict String (List String) → Dict String (List String)
add_dependencies id [] d = d
add_dependencies id (dep ∷ deps) d = add_dependencies id deps (add_successor dep id d)

module _ {R : Type 0} where
  unfoldable pub empty_successors : Dict String (PlanStep R) → Dict String (List String)
  empty_successors [] = []
  empty_successors ((id, _) ∷ steps) = (id, []) ∷ empty_successors steps

  unfoldable pub add_steps :
      Dict String (PlanStep R) → Dict String (List String) → Dict String (List String)
  unfolding add_dependencies
  add_steps [] d = d
  add_steps ((id, s) ∷ steps) d = add_steps steps (add_dependencies id s.depends_on d)

  -- `_build_successors`
  unfoldable pub build_successors : Dict String (PlanStep R) → Dict String (List String)
  unfolding add_steps empty_successors
  build_successors steps = add_steps steps (empty_successors steps)

module _ {R T : Type 0} where
  -- The queue loop: `act` is what is done with a step that is met the first time. `none` means that
  -- the fuel ran out.
  unfoldable pub walk :
      (String → TaskContext R T → TaskContext R T × Bool)
      → Dict String (List String)
      → ℕ
      → List String
      → List String
      → List String
      → TaskContext R T
      → Option (TaskContext R T × List String)
  walk act successors zero queue visited hits c = none
  walk act successors (suc fuel) [] visited hits c = some (c, hits)
  walk act successors (suc fuel) (id ∷ queue) visited hits c =
      let old = walk act successors fuel queue visited hits c in
      let (c', hit) = act id c in
      let new =
        walk act successors fuel (queue ++ get_or (lookup id successors) []) (id ∷ visited)
          (if hit then hits ++ id ∷ [] else hits) c' in
      if contains visited id then old else new

  module _ (env : Runtime R T) where
    -- A step that still waits becomes blocked.
    unfoldable pub block : String → TaskContext R T → TaskContext R T × Bool
    unfolding mark_processed mark_step_completed
    block id c =
        if is_waiting (get_or (status_of id c) StepStatus.pending)
        then (
          mark_processed id (
              mark_step_completed env id
                (record c { step_status = insert id StepStatus.blocked c.step_status })),
          true,
        )
        else (c, false)

    abbrev pub touch_if : List String → TaskContext R T → TaskContext R T
    touch_if [] c = c
    touch_if (x ∷ xs) c = touch env c

    abbrev pub finish :
        Option (TaskContext R T × List String) → Option (TaskContext R T × List String)
    finish none = none
    finish (some (c, hits)) = some (touch_if hits c, hits)

    abbrev pub walk_fuel : Dict String (List String) → ℕ
    walk_fuel successors = suc (edges successors + edges successors)

    unfoldable pub propagate_failure :
        String → TaskContext R T → Option (TaskContext R T × List String)
    unfolding walk
    propagate_failure failed_step_id c =
        let successors = build_successors c.steps in
        finish (
          walk block successors (walk_fuel successors)
            (get_or (lookup failed_step_id successors) []) [] [] c)

    abbrev pub deps_in : String → TaskContext R T → List String
    deps_in id c = elim (lookup id c.steps) [ none ↦ [] | some s ↦ s.depends_on ]

    -- A blocked step none of whose dependencies has failed waits again.
    unfoldable pub unblock : String → TaskContext R T → TaskContext R T × Bool
    unblock id c =
        if holds is_blocked (status_of id c)
          && not (any (λ d. holds is_failure (status_of d c)) (deps_in id c))
        then (
          record c {
            step_status = insert id StepStatus.pending c.step_status;
            step_completed_at = erase id c.step_completed_at;
            processed_steps = select (λ x. not (x == id)) c.processed_steps;
            published_step_events = select (λ x. not (x == id)) c.published_step_events;
          },
          true,
        )
        else (c, false)

    unfoldable pub propagate_unblock :
        String → TaskContext R T → Option (TaskContext R T × List String)
    unfolding walk
    propagate_unblock completed_step_id c =
        let successors = build_successors c.steps in
        finish (
          walk unblock successors (walk_fuel successors)
            (get_or (lookup completed_step_id successors) []) [] [] c)
