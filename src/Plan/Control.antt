-- ===== src/Plan/Control.antt =====
-- The operations of the user on a stored plan, core/plan_orchestrator.py: `resume` up to the run,
-- `pause`, `cancel` and `retry_failed_step`. The store, the published events and the sample library
-- are left to the caller.
use offline_companion_core.Base.{
  String, Bool, true, false, not, ◌&&◌, Option, none, some, [], ◌∷◌, if◌then◌else◌, select, ◌==◌,
  nat_eq, string_eq, pair_eq, Result, ok, err,
}
use offline_companion_core.Base.Text.{is_empty}
use offline_companion_core.Base.Dict.{Dict, lookup, insert, erase}
use offline_companion_core.Plan.Types.{
  StepStatus, PlanStatus, is_final, is_failed, is_paused, holds, TaskContext, Runtime,
}
use offline_companion_core.Plan.Context.{
  status_of, mark_processed, is_terminal, touch, mark_terminal, mark_step_completed,
}

pub data ControlError : Type 0 where
  cannot_resume step_not_found step_not_failed : ControlError

module _ {R T : Type 0} (env : Runtime R T) where
  abbrev waits_for_consent : TaskContext R T → Bool
  waits_for_consent c =
      is_paused c.status
      && elim c.paused_reason [ none ↦ false | some reason ↦ reason == "waiting_consent" ]

  -- `get_step_consent_request`; `legacy` is the variable `consent_request` where it is a mapping.
  unfoldable pub get_step_consent_request : (R → Bool) → String → TaskContext R T → Option R
  get_step_consent_request is_mapping id c = elim (lookup id c.step_consent_requests) [
    | some request ↦ some request
    | none ↦ elim (lookup "consent_request" c.context_vars) [
      | none ↦ none
      | some v ↦ if is_mapping v then some v else none
    ]
  ]

  unfoldable pub set_step_consent_request : String → R → TaskContext R T → TaskContext R T
  set_step_consent_request id request c = touch env (record c {
    step_consent_requests = insert id request c.step_consent_requests;
    context_vars = insert "consent_request" request c.context_vars;
  })

  unfoldable pub copy_consent_request : (R → Bool) → String → TaskContext R T → TaskContext R T
  copy_consent_request is_mapping id c = elim (get_step_consent_request is_mapping id c) [
    | none ↦ c
    | some request ↦ set_step_consent_request id request c
  ]

  pub data Resumed : Type 0 where
    -- The caller runs the engine on the context.
    runs : TaskContext R T → Resumed
    cancels : TaskContext R T → Resumed
    refuses : ControlError → Resumed

  unfoldable pub decide : Option Bool → String → TaskContext R T → Resumed
  decide none id c = runs (touch env c)
  decide (some true) id c = runs (
      touch env (
        touch env (record c {
          step_status = insert id StepStatus.ready c.step_status;
          paused_reason = none;
          paused_step_id = none;
        })))
  decide (some false) id c = cancels (
      mark_terminal env
        (record (mark_processed id (
          mark_step_completed env id
            (record c { step_status = insert id StepStatus.cancelled c.step_status }))) {
              status = PlanStatus.cancelled;
            }))

  unfoldable pub resume_from : (R → Bool) → Option Bool → TaskContext R T → Resumed
  unfolding decide
  resume_from is_mapping granted c = elim c.paused_step_id [
    | none ↦ runs (touch env c)
    | some id ↦ decide granted id (copy_consent_request is_mapping id c)
  ]

  unfoldable pub resume : (R → Bool) → Option Bool → TaskContext R T → Resumed
  unfolding resume_from
  resume is_mapping granted c =
      if is_terminal c
      then refuses cannot_resume
      else (if waits_for_consent c then resume_from is_mapping granted c else runs (touch env c))

  unfoldable pub pause : String → TaskContext R T → TaskContext R T
  pause reason c =
      if is_terminal c
      then c
      else touch env (record c {
        status = PlanStatus.paused;
        paused_reason = some reason;
        paused_step_id = none;
      })

  unfoldable pub cancel_one : String → StepStatus → TaskContext R T → TaskContext R T
  cancel_one id s c =
      if is_final s
      then c
      else mark_processed id (
          mark_step_completed env id
            (record c { step_status = insert id StepStatus.cancelled c.step_status }))

  -- The loop of `cancel` over the statuses as they were.
  unfoldable pub cancel_each : Dict String StepStatus → TaskContext R T → TaskContext R T
  cancel_each [] c = c
  cancel_each ((id, s) ∷ d) c = cancel_each d (cancel_one id s c)

  unfoldable pub cancel : TaskContext R T → TaskContext R T
  unfolding cancel_each
  cancel c =
      mark_terminal env (cancel_each c.step_status (record c { status = PlanStatus.cancelled }))

  abbrev pub feedback_after : String → Option String → Dict String String → Dict String String
  feedback_after id none d = erase id d
  feedback_after id (some text) d = if is_empty text then erase id d else insert id text d

  unfoldable pub reset_step : String → String → Option String → TaskContext R T → TaskContext R T
  reset_step id result_key feedback c =
      let here : Bool = elim c.paused_step_id [ none ↦ false | some p ↦ p == id ] in
      touch env (record c {
        status = PlanStatus.running;
        step_status = insert id StepStatus.pending c.step_status;
        step_errors = erase id c.step_errors;
        step_attempts = erase id c.step_attempts;
        step_results = erase result_key c.step_results;
        context_vars = erase result_key c.context_vars;
        quality_retry_counts = erase id c.quality_retry_counts;
        step_started_at = erase id c.step_started_at;
        step_completed_at = erase id c.step_completed_at;
        processed_steps = select (λ x. not (x == id)) c.processed_steps;
        published_step_events = select (λ x. not (x == id)) c.published_step_events;
        paused_reason = if here then none else c.paused_reason;
        paused_step_id = if here then none else c.paused_step_id;
        feedback_overrides = feedback_after id feedback c.feedback_overrides;
        error = none;
        completed_at = none;
        plan_status = none;
      })

  unfoldable pub retry_failed_step :
      String → Option String → TaskContext R T → Result ControlError (TaskContext R T)
  retry_failed_step id feedback c = elim (lookup id c.steps) [
    | none ↦ err step_not_found
    | some s ↦
        if holds is_failed (status_of id c)
        then ok (reset_step id s.result_key feedback c)
        else err step_not_failed
  ]
