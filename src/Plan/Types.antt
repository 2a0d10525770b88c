-- ===== src/Plan/Types.antt =====
-- The statuses, the steps and the context of a plan, core/plan_orchestrator.py. `R` stands for the
-- values of results and context variables, `T` for the times (floats). The fields that neither the
-- engine nor the operations below read or write are left out (`skill_id`, `payload`, the texts for
-- display, `snapshot_version`, `trace_id`, `retry_backoff_s` and the route decisions).
use offline_companion_core.Base.{
  ℕ, String, Bool, true, false, Option, none, some, List, nat_eq, string_eq, pair_eq, Result,
}
use offline_companion_core.Base.Dict.{Dict}

pub data StepStatus : Type 0 where
  pending ready running done failed skipped degraded blocked cancelled : StepStatus

pub data PlanStatus : Type 0 where
  pending running paused done failed cancelled : PlanStatus

-- `FINAL_STEP_STATUSES`
abbrev pub is_final : StepStatus → Bool
is_final StepStatus.done = true
is_final StepStatus.failed = true
is_final StepStatus.skipped = true
is_final StepStatus.degraded = true
is_final StepStatus.cancelled = true
is_final _ = false

-- `DEPENDENCY_SATISFIED_STATUSES`
abbrev pub satisfies : StepStatus → Bool
satisfies StepStatus.done = true
satisfies StepStatus.skipped = true
satisfies StepStatus.degraded = true
satisfies _ = false

-- `DEPENDENCY_FAILED_STATUSES`
abbrev pub is_failure : StepStatus → Bool
is_failure StepStatus.failed = true
is_failure StepStatus.blocked = true
is_failure StepStatus.cancelled = true
is_failure _ = false

abbrev pub is_waiting : StepStatus → Bool
is_waiting StepStatus.pending = true
is_waiting StepStatus.ready = true
is_waiting _ = false

abbrev pub is_done : StepStatus → Bool
is_done StepStatus.done = true
is_done _ = false

abbrev pub is_ready : StepStatus → Bool
is_ready StepStatus.ready = true
is_ready _ = false

abbrev pub is_blocked : StepStatus → Bool
is_blocked StepStatus.blocked = true
is_blocked _ = false

abbrev pub is_failed : StepStatus → Bool
is_failed StepStatus.failed = true
is_failed _ = false

abbrev pub is_paused : PlanStatus → Bool
is_paused PlanStatus.paused = true
is_paused _ = false

-- `FINAL_PLAN_STATUSES`
abbrev pub is_final_plan : PlanStatus → Bool
is_final_plan PlanStatus.done = true
is_final_plan PlanStatus.failed = true
is_final_plan PlanStatus.cancelled = true
is_final_plan _ = false

-- A test of a status that may be missing.
abbrev pub holds : (StepStatus → Bool) → Option StepStatus → Bool
holds p none = false
holds p (some s) = p s

pub record PlanStep (R : Type 0) : Type 0 where
  pub step_id : String
  pub result_key : String
  pub depends_on : List String
  pub condition_key : Option String
  pub retry_max : ℕ
  pub degrade_value : Option R
  pub require_consent : Bool
  pub fail_fast : Bool

-- The text of `context.error`.
pub data PlanError : Type 0 where
  step_error : String → PlanError
  upstream_failed : List String → PlanError

pub record TaskContext (R T : Type 0) : Type 0 where
  pub status : PlanStatus
  pub steps : Dict String (PlanStep R)
  pub step_status : Dict String StepStatus
  pub step_results : Dict String R
  pub step_errors : Dict String String
  pub step_attempts : Dict String ℕ
  pub processed_steps : List String
  pub published_step_events : List String
  pub context_vars : Dict String R
  pub error : Option PlanError
  pub paused_reason : Option String
  pub paused_step_id : Option String
  pub plan_status : Option String
  pub started_at : Option T
  pub updated_at : Option T
  pub completed_at : Option T
  pub step_started_at : Dict String T
  pub step_completed_at : Dict String T
  pub step_consent_requests : Dict String R
  pub feedback_overrides : Dict String String
  pub quality_retry_counts : Dict String ℕ
  -- `_dependency_satisfied_set`
  pub satisfied : List String

-- An exception of a step: its text, and whether it is one of the retryable types.
pub record Failure : Type 0 where
  pub text : String
  pub retryable : Bool

-- What the engine is given: the clock (a reading may depend on anything, so on the context at that
-- moment), the truth value of a variable, and the executor, which sees the variables, may change
-- them, and may behave otherwise on each attempt.
pub record Runtime (R T : Type 0) : Type 0 where
  pub time : TaskContext R T → T
  pub truthy : R → Bool
  pub execute : PlanStep R → ℕ → Dict String R → Dict String R × Result Failure R
