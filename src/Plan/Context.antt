-- ===== src/Plan/Context.antt =====
-- The methods of `TaskContext`.
use offline_companion_core.Base.{
  String, Bool, ◌&&◌, Option, none, some, List, [], ◌∷◌, ◌++◌, if◌then◌else◌, get_or, select, all,
  nat_eq, string_eq, pair_eq, contains,
}
use offline_companion_core.Base.Dict.{Dict, values, lookup, insert, member}
use offline_companion_core.Plan.Types.{
  StepStatus, satisfies, is_failure, is_waiting, is_final_plan, holds, PlanStep, TaskContext,
  Runtime,
}

abbrev pub set_add : String → List String → List String
set_add id xs = if contains xs id then xs else xs ++ id ∷ []

-- `dict.setdefault(k, v)`
abbrev pub set_default : {A : Type 0} → String → A → Dict String A → Dict String A
set_default k v d = if member k d then d else insert k v d

abbrev pub or_now : {T : Type 0} → Option T → T → Option T
or_now none now = some now
or_now (some t) now = some t

module _ {R T : Type 0} where
  abbrev pub status_of : String → TaskContext R T → Option StepStatus
  status_of id c = lookup id c.step_status

  unfoldable pub mark_dependency_satisfied : String → TaskContext R T → TaskContext R T
  mark_dependency_satisfied id c = record c {
    processed_steps = set_add id c.processed_steps;
    satisfied = set_add id c.satisfied;
  }

  unfoldable pub mark_processed : String → TaskContext R T → TaskContext R T
  mark_processed id c = record c { processed_steps = set_add id c.processed_steps }

  unfoldable pub rebuild_satisfied : TaskContext R T → TaskContext R T
  rebuild_satisfied c = record c {
    satisfied = select (λ id. holds satisfies (status_of id c)) c.processed_steps;
  }

  abbrev pub is_candidate : TaskContext R T → PlanStep R → Bool
  is_candidate c s =
      is_waiting (get_or (status_of s.step_id c) StepStatus.pending)
      && all (contains c.satisfied) s.depends_on

  unfoldable pub get_ready_steps : TaskContext R T → List (PlanStep R)
  get_ready_steps c = select (is_candidate c) (values c.steps)

  abbrev pub is_terminal : TaskContext R T → Bool
  is_terminal c = is_final_plan c.status

  unfoldable pub dependency_failed : PlanStep R → TaskContext R T → List String
  dependency_failed s c = select (λ d. holds is_failure (status_of d c)) s.depends_on

  module _ (env : Runtime R T) where
    unfoldable pub touch : TaskContext R T → TaskContext R T
    touch c = record c { updated_at = some (env.time c) }

    unfoldable pub mark_started : TaskContext R T → TaskContext R T
    mark_started c = record c {
      started_at = or_now c.started_at (env.time c);
      updated_at = some (env.time c);
    }

    unfoldable pub mark_terminal : TaskContext R T → TaskContext R T
    mark_terminal c = record c {
      completed_at = or_now c.completed_at (env.time c);
      updated_at = some (env.time c);
    }

    unfoldable pub mark_step_started : String → TaskContext R T → TaskContext R T
    mark_step_started id c = record c {
      step_started_at = set_default id (env.time c) c.step_started_at;
      updated_at = some (env.time c);
    }

    unfoldable pub mark_step_completed : String → TaskContext R T → TaskContext R T
    mark_step_completed id c = record c {
      step_completed_at = set_default id (env.time c) c.step_completed_at;
      updated_at = some (env.time c);
    }

    -- `none` is the `KeyError` of an unknown step.
    unfoldable pub set_step_result : String → R → TaskContext R T → Option (TaskContext R T)
    unfolding touch
    set_step_result id result c = elim (lookup id c.steps) [
      | none ↦ none
      | some s ↦ some (
          touch (record c {
            step_results = insert s.result_key result c.step_results;
            context_vars = insert s.result_key result c.context_vars;
          }))
    ]
