-- ===== src/Scheduler/Table.antt =====
-- The polling round of `JobScheduler` over its table, shell/job_scheduler.py: promotion, dispatch and
-- heartbeats. The worker pool appears as the dict of the calls in flight; what the router answers and
-- the clock are arguments.
use offline_companion_core.Base.{
  ℕ, ◌-◌, ◌*◌, String, Bool, true, false, ◌&&◌, Option, none, some, List, [], ◌∷◌, ltb, leb,
  if◌then◌else◌, get_or, nat_eq, string_eq, pair_eq, Result, ok, err, ◌>>=◌,
}
use offline_companion_core.Base.Text.{is_empty}
use offline_companion_core.Base.Dict.{Dict, lookup, insert, erase}
use Prim.Native.Nat.{◌/◌}
use offline_companion_core.Scheduler.Cron.{Moment, CronError, parse, next_after}
use offline_companion_core.Scheduler.Tasks.{
  TaskType, cron, delay, long_running, event, TaskStatus, TaskError, dispatch_failed,
  heartbeat_timeout, skill_not_alive, Task, Scheduler, is_pending, is_running, is_failed, is_cron,
}
use offline_companion_core.Scheduler.Registration.{with_task}

abbrev due_since : Option ℕ → ℕ → Bool → Bool
due_since none now without = without
due_since (some t) now without = leb t now

-- The instant of the next minute that fits, as `CronExpression(expr).next_after(t)` gives it.
unfoldable pub next_run : (ℕ → Moment) → String → ℕ → Result CronError ℕ
next_run calendar expression t = do
  e ← parse expression
  m ← next_after calendar e (t / 60)
  ok (m * 60)

module _ {P : Type 0} where
  -- `UPDATE … WHERE task_id = ?`
  abbrev pub update : String → (Task P → Task P) → Scheduler P → Scheduler P
  update id f s = elim (lookup id s.tasks) [ none ↦ s | some t ↦ with_task id (f t) s ]

  abbrev pub marked_failed : ℕ → TaskError → Task P → Task P
  marked_failed now e t = record t {
    status = TaskStatus.failed;
    completed_at = some now;
    last_heartbeat = some now;
    error = some e;
  }

  unfoldable pub mark_failed : ℕ → String → TaskError → Scheduler P → Scheduler P
  mark_failed now id e s = update id (marked_failed now e) s

  abbrev marked_running : ℕ → Task P → Task P
  marked_running now t = record t {
    status = TaskStatus.running;
    started_at = some now;
    completed_at = none;
    last_heartbeat = some now;
    delay_until = none;
  }

  -- Only a pending task is taken; the call is then in flight.
  unfoldable pub mark_running : ℕ → String → Scheduler P → Bool × Scheduler P
  mark_running now id s = elim (lookup id s.tasks) [
    | none ↦ (false, s)
    | some t ↦
        if is_pending t.status then (true, with_task id (marked_running now t) s) else (false, s)
  ]

  unfoldable pub promote : ℕ → String → Scheduler P → Scheduler P
  unfolding mark_running
  promote now id s =
      let (taken, s') = mark_running now id s in
      if taken then record s' { running_futures = insert id false s'.running_futures } else s'

  module _ (calendar : ℕ → Moment) where
    -- An exception of the cron parser leaves the polling round: `none`.
    unfoldable pub cron_due : ℕ → Task P → Option Bool
    cron_due now t = elim t.cron_expr [
      | none ↦ some false
      | some e ↦ if is_empty e then some false else elim t.delay_until [
        | some at ↦ some (leb at now)
        | none ↦ elim (next_run calendar e (get_or t.last_heartbeat t.created_at)) [
          | err x ↦ none
          | ok at ↦ some (leb at now)
        ]
      ]
    ]

    unfoldable pub is_due : ℕ → Task P → Option Bool
    unfolding cron_due
    is_due now t = elim t.task_type [
      | cron ↦ cron_due now t
      | delay ↦ some (due_since t.delay_until now false)
      | long_running ↦ some (due_since t.delay_until now true)
      | event ↦ some false
    ]

    -- The pending rows that are due, in the order of the table. (The source orders them by
    -- `created_at`, and rows are inserted in that order.)
    unfoldable pub due_tasks : ℕ → Dict String (Task P) → Option (List String)
    unfolding is_due
    due_tasks now [] = some []
    due_tasks now ((id, t) ∷ d) =
        let rest = due_tasks now d in
        if is_pending t.status
        then elim (is_due now t) [
          | none ↦ none
          | some b ↦ elim rest [ none ↦ none | some ids ↦ some (if b then id ∷ ids else ids) ]
        ]
        else rest

    unfoldable pub promote_each : ℕ → List String → Scheduler P → Scheduler P
    unfolding promote
    promote_each now [] s = s
    promote_each now (id ∷ ids) s = promote_each now ids (promote now id s)

    unfoldable pub promote_due_tasks : ℕ → Scheduler P → Option (Scheduler P)
    unfolding promote_each due_tasks
    promote_due_tasks now s = elim (due_tasks now s.tasks) [
      | none ↦ none
      | some ids ↦ some (promote_each now ids s)
    ]

    abbrev rescheduled : ℕ → Option ℕ → Task P → Task P
    rescheduled now next t = record t {
      status = TaskStatus.pending;
      started_at = none;
      completed_at = some now;
      last_heartbeat = some now;
      delay_until = next;
    }

    -- `none` is an exception of the cron parser.
    unfoldable pub reschedule_cron : ℕ → String → Scheduler P → Option (Scheduler P)
    reschedule_cron now id s = elim (lookup id s.tasks) [
      | none ↦ some s
      | some t ↦ elim t.cron_expr [
        | none ↦ some (with_task id (rescheduled now none t) s)
        | some e ↦
            if is_empty e
            then some (with_task id (rescheduled now none t) s)
            else elim (next_run calendar e now) [
              | err x ↦ none
              | ok at ↦ some (with_task id (rescheduled now (some at) t) s)
            ]
      ]
    ]

    abbrev marked_completed : ℕ → Task P → Task P
    marked_completed now t = record t {
      status = TaskStatus.completed;
      completed_at = some now;
      last_heartbeat = some now;
    }

    -- `_finalize_after_dispatch`: the answer of the router is success, or an error that it may name.
    unfoldable pub finalize :
        ℕ
        → String
        → TaskType
        → Result (Option TaskError) (Unit {0})
        → Scheduler P
        → Option (Scheduler P)
    finalize now id task_type answer s = elim (lookup id s.tasks) [
      | none ↦ some s
      | some t ↦
          let again = reschedule_cron now id s in
          if is_failed t.status then some s else elim answer [
            | ok _ ↦ if is_cron task_type then again else some (update id (marked_completed now) s)
            | err e ↦ some (mark_failed now id (get_or e dispatch_failed) s)
          ]
    ]

  -- The end of `_trigger_task`: the call is no longer in flight, whatever happened.
  unfoldable pub forget : String → Scheduler P → Scheduler P
  forget id s = record s { running_futures = erase id s.running_futures }

  -- `_trigger_task` up to the dispatch, with the type of the task that is dispatched. A task that is
  -- gone raises before the `finally` that takes the call out.
  unfoldable pub begin_trigger :
      (String → Bool) → ℕ → String → Scheduler P → Option TaskType × Scheduler P
  unfolding forget mark_failed
  begin_trigger alive now id s = elim (lookup id s.tasks) [
    | none ↦ (none, s)
    | some t ↦
        if alive t.skill_name
        then (some t.task_type, s)
        else (none, forget id (mark_failed now id skill_not_alive s))
  ]

  -- `_trigger_task` from the answer on; the table may have changed since the dispatch.
  unfoldable pub end_trigger :
      (ℕ → Moment)
      → ℕ
      → String
      → TaskType
      → Result (Option TaskError) (Unit {0})
      → Scheduler P
      → Scheduler P
  unfolding forget finalize
  end_trigger calendar now id task_type answer s =
      elim (finalize calendar now id task_type answer s) [
        | none ↦ forget id s
        | some s' ↦ forget id s'
      ]

  abbrev pub beat : ℕ → Task P → Task P
  beat now t = if is_running t.status then record t { last_heartbeat = some now } else t

  -- `_refresh_running_heartbeats` over the calls in flight.
  unfoldable pub refresh_each : ℕ → Dict String Bool → Scheduler P → Scheduler P
  unfolding forget
  refresh_each now [] s = s
  refresh_each now ((id, done) ∷ d) s =
      refresh_each now d (if done then forget id s else update id (beat now) s)

  unfoldable pub refresh_running_heartbeats : ℕ → Scheduler P → Scheduler P
  unfolding refresh_each
  refresh_running_heartbeats now s = refresh_each now s.running_futures s

  -- A running task whose last heartbeat is older than its limit.
  unfoldable pub overdue : ℕ → Task P → Bool
  overdue now t = is_running t.status && elim t.last_heartbeat [
    | none ↦ false
    | some beat_at ↦ ltb t.heartbeat_timeout_sec (now - beat_at)
  ]

  -- The rows are read first, and then marked one by one.
  unfoldable pub sweep_each : ℕ → Dict String (Task P) → Scheduler P → Scheduler P
  unfolding overdue mark_failed
  sweep_each now [] s = s
  sweep_each now ((id, t) ∷ d) s =
      sweep_each now d (if overdue now t then mark_failed now id heartbeat_timeout s else s)

  unfoldable pub heartbeat_sweeper : ℕ → Scheduler P → Scheduler P
  unfolding sweep_each
  heartbeat_sweeper now s = sweep_each now s.tasks s
