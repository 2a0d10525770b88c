-- ===== src/Plan/Tests.antt =====
-- The plan engine on a plan of two steps, of which the first fails once.
use offline_companion_core.Base.{
  ℕ, String, ◌≡◌, refl, ◌≢◌, Bool, true, false, not, Option, none, some, List, [], ◌∷◌, nat_beq,
  if◌then◌else◌, get_or, all, nat_eq, string_eq, pair_eq, contains, ok, err,
}
use offline_companion_core.Base.Dict.{Dict, keys, lookup, member}
use offline_companion_core.Plan.Types.{
  StepStatus, PlanStatus, is_waiting, satisfies, holds, PlanStep, TaskContext, Runtime,
}
use offline_companion_core.Plan.Context.{
  dependency_failed, status_of, get_ready_steps, rebuild_satisfied, mark_started, touch,
}
use offline_companion_core.Plan.Dag.{validate_dag, visit_all, visit, visit_deps}
use offline_companion_core.Plan.Engine.{
  execute_with_retry, run_until_blocked, run_loop, turn, settle, start_run, all_steps_final,
  all_dependencies_failed,
}
use offline_companion_core.Plan.Control.{
  Resumed, resume, cancel, resume_from, decide, copy_consent_request, get_step_consent_request,
}
use offline_companion_core.Plan.Order.{Ordered, direct, validate_dag-Ordered, validate_dag-acyclic}
use offline_companion_core.Plan.Attempts.{Attempted, execute_with_retry-Attempted}
use offline_companion_core.Plan.Termination.{run_until_blocked_total}
use offline_companion_core.Plan.Safety.{begin, first_ready_satisfied}
use offline_companion_core.Plan.Context.{
  mark_terminal, mark_step_started, mark_step_completed, mark_dependency_satisfied, set_step_result,
}
use offline_companion_core.Plan.Engine.{
  advance, retry_loop, begin_attempt, conclude_step, complete, after_completion, mark_completed,
  check_condition,
}
use offline_companion_core.Plan.Completion.{run_until_blocked_done}
use offline_companion_core.Plan.Decisions.{cancel_settles}

abbrev flaky : Runtime ℕ ℕ
flaky = record {
  time = λ c. 9;
  truthy = λ v. not (nat_beq v 0);
  execute = λ s n vars.
      (vars, if nat_beq n 1 then err (record { text = "timeout"; retryable = true }) else ok 7);
}

abbrev step_of : String → List String → Bool → PlanStep ℕ
step_of id deps consent = record {
  step_id = id;
  result_key = id;
  depends_on = deps;
  condition_key = none;
  retry_max = 2;
  degrade_value = none;
  require_consent = consent;
  fail_fast = false;
}

abbrev two_steps : Dict String (PlanStep ℕ)
two_steps = ("b", step_of "b" ("a" ∷ []) false) ∷ ("a", step_of "a" [] false) ∷ []

abbrev context_of :
    PlanStatus
    → Dict String (PlanStep ℕ)
    → Dict String StepStatus
    → Option String
    → Option String
    → TaskContext ℕ ℕ
context_of status steps statuses reason step = record {
  status = status;
  steps = steps;
  step_status = statuses;
  step_results = [];
  step_errors = [];
  step_attempts = [];
  processed_steps = [];
  published_step_events = [];
  context_vars = [];
  error = none;
  paused_reason = reason;
  paused_step_id = step;
  plan_status = none;
  started_at = none;
  updated_at = none;
  completed_at = none;
  step_started_at = [];
  step_completed_at = [];
  step_consent_requests = [];
  feedback_overrides = [];
  quality_retry_counts = [];
  satisfied = [];
}

abbrev fresh : TaskContext ℕ ℕ
fresh =
    context_of PlanStatus.pending two_steps
      (("b", StepStatus.pending) ∷ ("a", StepStatus.pending) ∷ []) none none

two_steps_valid : validate_dag two_steps ≡ ok ("b" ∷ "a" ∷ [])
unfolding validate_dag visit_all visit visit_deps
two_steps_valid = refl

validate_dag-Ordered_example :
    Ordered two_steps ("b" ∷ "a" ∷ []) × (all (contains ("b" ∷ "a" ∷ [])) (keys two_steps) ≡ true)
validate_dag-Ordered_example = validate_dag-Ordered two_steps ("b" ∷ "a" ∷ []) two_steps_valid

validate_dag-acyclic_example : (member "a" two_steps ≡ true) × (◌≢◌ {A = String} "a" "b")
validate_dag-acyclic_example =
    validate_dag-acyclic two_steps ("b" ∷ "a" ∷ []) "b" "a" two_steps_valid refl (direct refl)

abbrev cyclic : Dict String (PlanStep ℕ)
cyclic = ("b", step_of "b" ("a" ∷ []) false) ∷ ("a", step_of "a" ("b" ∷ []) false) ∷ []

execute_with_retry-Attempted_example :
    let left = execute_with_retry flaky (step_of "a" [] false) fresh in
    Attempted flaky (step_of "a" [] false) 1 fresh.context_vars left.0 left.1
execute_with_retry-Attempted_example =
    execute_with_retry-Attempted flaky (step_of "a" [] false) fresh

run_until_blocked_total_example :
    (d : TaskContext ℕ ℕ) × (run_until_blocked flaky none fresh ≡ some d)
run_until_blocked_total_example = run_until_blocked_total flaky none fresh refl

-- At the first turn only `a` is ready.
first_turn : get_ready_steps (start_run flaky fresh) ≡ step_of "a" [] false ∷ []
unfolding get_ready_steps start_run rebuild_satisfied mark_started
first_turn = refl

first_ready_satisfied_example :
    (is_waiting (get_or (status_of "a" (start_run flaky fresh)) StepStatus.pending) ≡ true)
    × (all (λ dep. holds satisfies (status_of dep (start_run flaky fresh))) [] ≡ true)
first_ready_satisfied_example =
    first_ready_satisfied flaky none fresh (step_of "a" [] false) [] begin first_turn

-- Both steps fail once and then give 7.
abbrev completed : TaskContext ℕ ℕ
completed = record fresh {
  status = PlanStatus.done;
  step_status = ("b", StepStatus.done) ∷ ("a", StepStatus.done) ∷ [];
  step_results = ("a", 7) ∷ ("b", 7) ∷ [];
  step_attempts = ("a", 2) ∷ ("b", 2) ∷ [];
  processed_steps = "a" ∷ "b" ∷ [];
  context_vars = ("a", 7) ∷ ("b", 7) ∷ [];
  started_at = some 9;
  updated_at = some 9;
  completed_at = some 9;
  step_started_at = ("a", 9) ∷ ("b", 9) ∷ [];
  step_completed_at = ("a", 9) ∷ ("b", 9) ∷ [];
  satisfied = "a" ∷ "b" ∷ [];
}

ran_fresh : run_until_blocked flaky none fresh ≡ some completed
unfolding run_until_blocked run_loop turn settle advance start_run mark_started rebuild_satisfied
    get_ready_steps all_steps_final execute_with_retry retry_loop begin_attempt mark_step_started
    conclude_step complete after_completion set_step_result mark_completed mark_step_completed
    mark_dependency_satisfied mark_terminal touch check_condition
ran_fresh = refl

run_until_blocked_done_example : all_steps_final completed ≡ true
run_until_blocked_done_example =
    run_until_blocked_done flaky none fresh completed refl ran_fresh refl

cancel_settles_example :
    (lookup "a" (cancel flaky fresh).step_status ≡ some StepStatus.cancelled)
    × ((cancel flaky fresh).status ≡ PlanStatus.cancelled)
cancel_settles_example = cancel_settles flaky "a" StepStatus.pending fresh (refl, (refl, tt)) refl

abbrev never_mapping : ℕ → Bool
never_mapping v = false

-- A plan that waits for consent to its only step.
abbrev asking : TaskContext ℕ ℕ
asking =
    context_of PlanStatus.paused (("a", step_of "a" [] true) ∷ []) (("a", StepStatus.blocked) ∷ [])
      (some "waiting_consent") (some "a")

abbrev undecided : TaskContext ℕ ℕ
undecided = record asking { updated_at = some 9 }

abbrev stranded : TaskContext ℕ ℕ
stranded = record asking {
  started_at = some 9;
  updated_at = some 9;
  paused_reason = some "waiting_dependencies";
  paused_step_id = none;
}

resumed_undecided : resume flaky never_mapping none asking ≡ Resumed.runs undecided
unfolding resume resume_from decide copy_consent_request get_step_consent_request touch
resumed_undecided = refl

ran_undecided : run_until_blocked flaky none undecided ≡ some stranded
unfolding run_until_blocked run_loop turn settle start_run mark_started rebuild_satisfied
    get_ready_steps all_steps_final all_dependencies_failed dependency_failed touch
ran_undecided = refl

resumed_stranded : resume flaky never_mapping (some true) stranded ≡ Resumed.runs stranded
unfolding resume touch
resumed_stranded = refl

none_ready : get_ready_steps (start_run flaky undecided) ≡ []
unfolding get_ready_steps start_run mark_started rebuild_satisfied
none_ready = refl

unfinished : all_steps_final (start_run flaky undecided) ≡ false
unfolding all_steps_final start_run mark_started rebuild_satisfied
unfinished = refl

unfailed : all_dependencies_failed (start_run flaky undecided) ≡ false
unfolding all_dependencies_failed dependency_failed start_run mark_started rebuild_satisfied
unfailed = refl
