-- ===== src/Plan/Engine.antt =====
-- `PlanDAGEngine.run_until_blocked` and what it calls. One turn of its loop is a function; the loop
-- itself takes fuel. Statuses are the enumeration's (the source also accepts their texts).
use offline_companion_core.Base.{
  ℕ, zero, suc, String, Bool, true, false, not, ◌&&◌, ◌||◌, Option, none, some, List, [], ◌∷◌, leb,
  if◌then◌else◌, length, all, nat_eq, string_eq, pair_eq, Result, ok, err,
}
use offline_companion_core.Base.Text.{is_empty}
use offline_companion_core.Base.Dict.{Dict, keys, lookup, insert}
use offline_companion_core.Plan.Types.{
  StepStatus, PlanStatus, is_final, satisfies, is_failure, is_ready, holds, PlanStep, step_error,
  upstream_failed, TaskContext, Failure, Runtime,
}
use offline_companion_core.Plan.Context.{
  status_of, mark_dependency_satisfied, mark_processed, rebuild_satisfied, get_ready_steps,
  is_terminal, dependency_failed, touch, mark_started, mark_terminal, mark_step_started,
  mark_step_completed, set_step_result,
}
use offline_companion_core.Plan.Successors.{propagate_failure}
use Prim.Native.String.{compare}
use Prim.Native.Nat.{Ordering}

-- `sorted(texts)`
abbrev pub insert_text : String → List String → List String
insert_text x [] = x ∷ []
insert_text x (y ∷ ys) =
    let rest = insert_text x ys in elim (compare x y) [ Ordering.gt ↦ y ∷ rest | _ ↦ x ∷ y ∷ ys ]

abbrev pub sort_texts : List String → List String
sort_texts [] = []
sort_texts (x ∷ xs) = insert_text x (sort_texts xs)

abbrev pub first_three : List String → List String
first_three (x ∷ y ∷ z ∷ rest) = x ∷ y ∷ z ∷ []
first_three xs = xs

abbrev pub keys_where : (StepStatus → Bool) → Dict String StepStatus → List String
keys_where p [] = []
keys_where p ((id, s) ∷ d) = let rest = keys_where p d in if p s then id ∷ rest else rest

abbrev pub is_nonempty : {A : Type 0} → List A → Bool
is_nonempty [] = false
is_nonempty (_ ∷ _) = true

module _ {R T : Type 0} where
  unfoldable pub all_steps_final : TaskContext R T → Bool
  all_steps_final c = all (λ id. holds is_final (status_of id c)) (keys c.steps)

  abbrev pub not_final : TaskContext R T → Dict String (PlanStep R) → List (PlanStep R)
  not_final c [] = []
  not_final c ((id, s) ∷ steps) =
      let rest = not_final c steps in if holds is_final (status_of id c) then rest else s ∷ rest

  unfoldable pub all_dependencies_failed : TaskContext R T → Bool
  all_dependencies_failed c =
      is_nonempty (not_final c c.steps)
      && all (λ s. is_nonempty (dependency_failed s c)) (not_final c c.steps)

  unfoldable pub collect_first_failed_deps : TaskContext R T → List String
  collect_first_failed_deps c = first_three (sort_texts (keys_where is_failure c.step_status))

  unfoldable pub mark_completed : String → TaskContext R T → TaskContext R T
  mark_completed id c =
      if holds satisfies (status_of id c)
      then mark_dependency_satisfied id c
      else mark_processed id c

  module _ (env : Runtime R T) where
    unfoldable pub check_condition : PlanStep R → Dict String R → Bool
    check_condition s vars = elim s.condition_key [
      | none ↦ true
      | some key ↦ is_empty key || elim (lookup key vars) [ none ↦ false | some v ↦ env.truthy v ]
    ]

    -- The start of an attempt.
    unfoldable pub begin_attempt : PlanStep R → ℕ → TaskContext R T → TaskContext R T
    begin_attempt s attempts c = mark_step_started env s.step_id (record c {
      step_attempts = insert s.step_id attempts c.step_attempts;
      step_status = insert s.step_id StepStatus.running c.step_status;
    })

    abbrev pub unreachable_retry : Failure
    unreachable_retry = record { text = "unreachable retry state"; retryable = true }

    -- The loop of `execute_with_retry` with `rounds` rounds left after `attempts` attempts.
    unfoldable pub retry_loop :
        PlanStep R → ℕ → ℕ → TaskContext R T → TaskContext R T × Result Failure R
    retry_loop s zero attempts c = (c, err unreachable_retry)
    retry_loop s (suc rounds) attempts c =
        let began = begin_attempt s (suc attempts) c in
        let (vars, outcome) = env.execute s (suc attempts) began.context_vars in
        let c' = record began { context_vars = vars } in
        let again = retry_loop s rounds (suc attempts) c' in
        elim outcome [
          | ok result ↦ (c', ok result)
          | err e ↦ if leb s.retry_max (suc attempts) || not e.retryable then (c', err e) else again
        ]

    unfoldable pub execute_with_retry :
        PlanStep R → TaskContext R T → TaskContext R T × Result Failure R
    unfolding retry_loop
    execute_with_retry s c = retry_loop s (suc s.retry_max) 0 c

    -- What a turn of the loop leads to: `break`, or another turn.
    pub data Turn : Type 0 where
      halted : TaskContext R T → Turn
      again : TaskContext R T → ℕ → Turn
      crashed : Turn

    abbrev pub reached : Option ℕ → ℕ → Bool
    reached none executed = false
    reached (some n) executed = leb n executed

    unfoldable pub conclude_if_final : TaskContext R T → TaskContext R T
    unfolding all_steps_final
    conclude_if_final c =
        if all_steps_final c then mark_terminal env (record c { status = PlanStatus.done }) else c

    -- The loop over the failed steps; `none` is a walk that ran out of fuel.
    unfoldable pub block_downstream : List String → TaskContext R T → Option (TaskContext R T)
    block_downstream [] c = some c
    block_downstream (id ∷ ids) c = elim (propagate_failure env id c) [
      | none ↦ none
      | some (c', _) ↦ block_downstream ids c'
    ]

    -- No step is ready: done, failed, or waiting.
    unfoldable pub settle : TaskContext R T → Turn
    unfolding all_steps_final
    settle c =
        if all_steps_final c
        then halted (mark_terminal env (record c { status = PlanStatus.done }))
        else (if all_dependencies_failed c
            then elim (block_downstream (keys_where is_failure c.step_status) (record c {
              status = PlanStatus.failed;
              error = some (upstream_failed (collect_first_failed_deps c));
            })) [ none ↦ crashed | some c' ↦ halted (mark_terminal env c') ]
            else halted (
                touch env (record c {
                  status = PlanStatus.paused;
                  paused_reason = some "waiting_dependencies";
                })))

    -- The step has given a value, its own or its substitute.
    unfoldable pub complete :
        PlanStep R
        → StepStatus
        → R
        → Dict String String
        → TaskContext R T
        → Option (TaskContext R T)
    complete s status value errors c =
        elim (set_step_result env s.step_id value
          (record c { step_status = insert s.step_id status c.step_status })) [
            | none ↦ none
            | some c' ↦ some (
                mark_completed s.step_id
                  (mark_step_completed env s.step_id (record c' { step_errors = errors })))
          ]

    unfoldable pub after_completion : Option ℕ → ℕ → Option (TaskContext R T) → Turn
    after_completion max_steps executed none = crashed
    after_completion max_steps executed (some c) =
        if reached max_steps executed then halted (conclude_if_final c) else again c executed

    -- The step has failed and has no substitute.
    unfoldable pub fail : PlanStep R → Failure → Option ℕ → ℕ → TaskContext R T → Turn
    fail s e max_steps executed c =
        let c' = mark_processed s.step_id (
          mark_step_completed env s.step_id (record c {
            step_status = insert s.step_id StepStatus.failed c.step_status;
            step_errors = insert s.step_id e.text c.step_errors;
          })) in
        if s.fail_fast
        then halted (
            mark_terminal env (record c' {
              status = PlanStatus.failed;
              error = some (step_error e.text);
              paused_step_id = some s.step_id;
            }))
        else (if reached max_steps executed then halted c' else again c' executed)

    unfoldable pub conclude_step :
        PlanStep R → Option ℕ → ℕ → TaskContext R T × Result Failure R → Turn
    unfolding complete after_completion fail
    conclude_step s max_steps executed (c, ok value) =
        after_completion max_steps executed (complete s StepStatus.done value c.step_errors c)
    conclude_step s max_steps executed (c, err e) = elim s.degrade_value [
      | some value ↦
          after_completion max_steps executed
            (complete s StepStatus.degraded value (insert s.step_id e.text c.step_errors) c)
      | none ↦ fail s e max_steps executed c
    ]

    -- The step waits for a decision of the user.
    unfoldable pub await_consent : PlanStep R → TaskContext R T → TaskContext R T
    await_consent s c = touch env (record c {
      status = PlanStatus.paused;
      paused_reason = some "waiting_consent";
      paused_step_id = some s.step_id;
      step_status = insert s.step_id StepStatus.blocked c.step_status;
    })

    unfoldable pub skip : PlanStep R → TaskContext R T → TaskContext R T
    skip s c = mark_completed s.step_id (
        mark_step_completed env s.step_id
          (record c { step_status = insert s.step_id StepStatus.skipped c.step_status }))

    unfoldable pub advance : PlanStep R → Option ℕ → ℕ → TaskContext R T → Turn
    advance s max_steps executed c =
        if s.require_consent && not (holds is_ready (status_of s.step_id c))
        then halted (await_consent s c)
        else (if not (check_condition s c.context_vars)
            then again (skip s c) executed
            else conclude_step s max_steps (suc executed) (execute_with_retry s c))

    unfoldable pub turn : Option ℕ → ℕ → TaskContext R T → Turn
    unfolding advance settle
    turn max_steps executed c = elim (get_ready_steps c) [
      | [] ↦ settle c
      | s ∷ rest ↦ advance s max_steps executed c
    ]

    -- `none` means that the fuel ran out or that an exception left the loop.
    unfoldable pub run_loop : ℕ → Option ℕ → ℕ → TaskContext R T → Option (TaskContext R T)
    run_loop zero max_steps executed c = none
    run_loop (suc fuel) max_steps executed c = elim (turn max_steps executed c) [
      | halted c' ↦ some c'
      | again c' executed' ↦ run_loop fuel max_steps executed' c'
      | crashed ↦ none
    ]

    unfoldable pub start_run : TaskContext R T → TaskContext R T
    start_run c =
        record (mark_started env (record (rebuild_satisfied c) { status = PlanStatus.running })) {
          paused_reason = none;
          paused_step_id = none;
        }

    -- Every turn but the last brings a waiting step to an end.
    unfoldable pub run_until_blocked : Option ℕ → TaskContext R T → Option (TaskContext R T)
    unfolding run_loop start_run
    run_until_blocked max_steps c =
        if is_terminal c
        then some c
        else run_loop (suc (length (keys c.steps))) max_steps 0 (start_run c)
