-- ===== src/Scheduler/Registration.antt =====
-- `register_task`, `unregister_task` and `recover` of `JobScheduler`, shell/job_scheduler.py. Which
-- sessions exist, the clock and the new identifier are arguments.
use offline_companion_core.Base.{
  ℕ, max, String, Bool, true, false, ◌||◌, Option, none, some, [], ◌∷◌, if◌then◌else◌, ◌==◌, nat_eq,
  string_eq, pair_eq, Result, ok, err, ◌>>=◌, ◌>>◌, guard,
}
use offline_companion_core.Base.Text.{is_empty, strip, or_else}
use offline_companion_core.Base.Dict.{Dict, lookup, insert, erase, member}
use offline_companion_core.Scheduler.Cron.{CronError, CronExpression, parse}
use offline_companion_core.Scheduler.Tasks.{
  TaskType, cron, delay, long_running, event, TaskStatus, Task, Scheduler, is_pending, is_running,
  task_type_of,
}

pub data SchedulerError : Type 0 where
  bad_task_type event_not_implemented bad_priority bad_queue_type no_cron_expr no_delay_until :
      SchedulerError
  unknown_task duplicate_task unknown_session : SchedulerError
  bad_cron : CronError → SchedulerError

abbrev pub cron_checked : Result CronError CronExpression → Result SchedulerError (Unit {0})
cron_checked (ok e) = ok tt
cron_checked (err e) = err (bad_cron e)

-- `(s or default).strip() or default`
abbrev pub text_or : String → String → String
text_or s default = or_else (strip (or_else s default)) default

abbrev pub valid_priority : String → Bool
valid_priority p = p == "low" || p == "normal" || p == "high"

abbrev pub valid_queue : String → Bool
valid_queue q = q == "dialog" || q == "background"

-- What the type of a task asks of its other fields.
unfoldable pub check_schedule :
    TaskType → Option String → Option ℕ → Result SchedulerError (Unit {0})
check_schedule cron none delay_until = err no_cron_expr
check_schedule cron (some e) delay_until =
    if is_empty e then err no_cron_expr else cron_checked (parse e)
check_schedule delay cron_expr none = err no_delay_until
check_schedule delay cron_expr (some t) = ok tt
check_schedule long_running cron_expr delay_until = ok tt
check_schedule event cron_expr delay_until = ok tt

abbrev known_type : Option TaskType → Result SchedulerError TaskType
known_type none = err bad_task_type
known_type (some event) = err event_not_implemented
known_type (some t) = ok t

-- The arguments of `register_task`, as they are given.
pub record Request (P : Type 0) : Type 0 where
  pub task_id : String
  pub skill_name : String
  pub task_type : String
  pub session_id : String
  pub payload : P
  pub delay_until : Option ℕ
  pub cron_expr : Option String
  pub queue_type : String
  pub priority : String
  pub heartbeat_timeout_sec : ℕ
  pub max_retries : ℕ
  pub idempotency_key : Option String

module _ {P : Type 0} where
  -- The checks in the order of the source, and the row that is inserted.
  unfoldable pub new_task : ℕ → Request P → Result SchedulerError (Task P)
  unfolding check_schedule
  new_task now r = do
    task_type ← known_type (task_type_of (strip r.task_type))
    let priority = text_or r.priority "normal"
    guard (valid_priority priority) bad_priority
    let queue_type = text_or r.queue_type "background"
    guard (valid_queue queue_type) bad_queue_type
    check_schedule task_type r.cron_expr r.delay_until
    ok (record {
      skill_name = r.skill_name;
      task_type = task_type;
      cron_expr = r.cron_expr;
      delay_until = r.delay_until;
      payload = r.payload;
      status = TaskStatus.pending;
      priority = priority;
      session_id = r.session_id;
      queue_type = queue_type;
      created_at = now;
      started_at = none;
      completed_at = none;
      last_heartbeat = none;
      heartbeat_timeout_sec = max 1 r.heartbeat_timeout_sec;
      retry_count = 0;
      max_retries = r.max_retries;
      idempotency_key = r.idempotency_key;
      error = none;
    })

  abbrev pub with_task : String → Task P → Scheduler P → Scheduler P
  with_task id t s = record s { tasks = insert id t s.tasks }

  unfoldable pub register_task :
      (String → Bool) → ℕ → Request P → Scheduler P → Result SchedulerError (Task P) × Scheduler P
  unfolding new_task
  register_task session_exists now r s = elim (new_task now r) [
    | err e ↦ (err e, s)
    | ok t ↦
        if member r.task_id s.tasks
        then (err duplicate_task, s)
        else (if session_exists r.session_id
            then (ok t, with_task r.task_id t s)
            else (err unknown_session, s))
  ]

  unfoldable pub unregister_task : String → Scheduler P → Bool × Scheduler P
  unregister_task id s = elim (lookup id s.tasks) [
    | none ↦ (false, s)
    | some t ↦
        if is_running t.status then (false, s) else (true, record s { tasks = erase id s.tasks })
  ]

  abbrev recovered : Task P → Task P
  recovered t =
      if is_running t.status || is_pending t.status
      then record t {
        status = TaskStatus.pending;
        started_at = none;
        completed_at = none;
        last_heartbeat = none;
      }
      else t

  abbrev map_tasks : (Task P → Task P) → Dict String (Task P) → Dict String (Task P)
  map_tasks f [] = []
  map_tasks f ((id, t) ∷ d) = (id, f t) ∷ map_tasks f d

  unfoldable pub recover : Scheduler P → Scheduler P
  recover s = record s { tasks = map_tasks recovered s.tasks }
