-- ===== src/Scheduler/Tasks.antt =====
-- The rows of `job_tasks`, shell/job_scheduler.py. An instant is a number of seconds, for the
-- timestamp and for its ISO text alike. `P` stands for the payloads.
use offline_companion_core.Base.{
  ℕ, String, Bool, true, false, Option, none, some, if◌then◌else◌, ◌==◌, nat_eq, string_eq, pair_eq,
}
use offline_companion_core.Base.Dict.{Dict}

pub data TaskType : Type 0 where
  cron delay long_running event : TaskType

pub data TaskStatus : Type 0 where
  pending running failed completed : TaskStatus

pub data TaskError : Type 0 where
  skill_not_alive heartbeat_timeout dispatch_failed : TaskError
  reported : String → TaskError

pub record Task (P : Type 0) : Type 0 where
  pub skill_name : String
  pub task_type : TaskType
  pub cron_expr : Option String
  pub delay_until : Option ℕ
  pub payload : P
  pub status : TaskStatus
  pub priority : String
  pub session_id : String
  pub queue_type : String
  pub created_at : ℕ
  pub started_at : Option ℕ
  pub completed_at : Option ℕ
  pub last_heartbeat : Option ℕ
  pub heartbeat_timeout_sec : ℕ
  pub retry_count : ℕ
  pub max_retries : ℕ
  pub idempotency_key : Option String
  pub error : Option TaskError

-- The table behind its primary key, and the calls that are in flight, with whether each is done.
pub record Scheduler (P : Type 0) : Type 0 where
  pub tasks : Dict String (Task P)
  pub running_futures : Dict String Bool

abbrev pub is_pending : TaskStatus → Bool
is_pending TaskStatus.pending = true
is_pending _ = false

abbrev pub is_running : TaskStatus → Bool
is_running TaskStatus.running = true
is_running _ = false

abbrev pub is_failed : TaskStatus → Bool
is_failed TaskStatus.failed = true
is_failed _ = false

abbrev pub is_cron : TaskType → Bool
is_cron TaskType.cron = true
is_cron _ = false

abbrev pub task_type_of : String → Option TaskType
task_type_of s =
    if s == "cron"
    then some cron
    else (if s == "delay"
        then some delay
        else (if s == "long_running"
            then some long_running
            else (if s == "event" then some event else none)))
