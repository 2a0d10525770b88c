-- ===== src/Scheduler/Tests.antt =====
-- The cron expressions on small examples.
use offline_companion_core.Base.{
  ◌⊎◌, some, ℕ, zero, suc, ◌+◌, ◌≤◌, ◌<◌, ◌≡◌, refl, true, false, none, [], ◌∷◌, arith, nat_eq,
  string_eq, pair_eq, ok, err,
}
use offline_companion_core.Base.Text.{strip}
use offline_companion_core.Base.Text.{split_where, cut_at, all_digits, digits_value}
use offline_companion_core.Scheduler.Cron.{
  Moment, CronExpression, no_match, parse_value, range_from, parse_range, parse_field, parse_chunks,
  parse_chunk, parse_step, parse_base, matches, search, next_after, candidates,
}
use offline_companion_core.Scheduler.Tasks.{
  long_running, TaskStatus, heartbeat_timeout, Task, Scheduler,
}
use offline_companion_core.Scheduler.Table.{refresh_running_heartbeats, heartbeat_sweeper}
use offline_companion_core.Scheduler.Heartbeats.{
  IsSilent, heartbeat_sweeper_decides, heartbeat_sweeper-refresh_running_heartbeats,
}
use offline_companion_core.Base.Dict.{lookup}
use offline_companion_core.Scheduler.CronLaws.{next_after_first}

weekdays_parse : parse_field 0 6 true "1-3,7" ≡ ok (1 ∷ 2 ∷ 3 ∷ 0 ∷ [])
unfolding parse_field parse_chunks parse_chunk parse_step parse_base parse_range parse_value
    range_from split_where cut_at strip all_digits digits_value
weekdays_parse = refl

five : parse_value 0 6 true "5" ≡ ok 5
unfolding parse_value all_digits digits_value
five = refl

-- A calendar whose minutes run on without hours, and the expression `3 0 1 1 *` in it.
abbrev flat : ℕ → Moment
flat n = record { minute = n; hour = 0; day = 1; month = 1; weekday = 0 }

abbrev at_minute : ℕ → CronExpression
at_minute n = record {
  minutes = n ∷ [];
  hours = 0 ∷ [];
  days = 1 ∷ [];
  months = 1 ∷ [];
  weekdays = 1 ∷ [];
}

found_three : next_after flat (at_minute 3) 1 ≡ ok 3
unfolding next_after search matches
found_three = refl

next_after_first_example :
    (1 < 3)
    × (3 ≤ 1 + candidates)
    × (matches (at_minute 3) (flat 3) ≡ true)
    × ((k : ℕ) → 1 < k → k < 3 → matches (at_minute 3) (flat k) ≡ false)
next_after_first_example = next_after_first flat (at_minute 3) 1 3 found_three

abbrev no_minute : CronExpression
no_minute = record (at_minute 3) { minutes = [] }

never_found : (left candidate : ℕ) → search flat no_minute left candidate ≡ none
unfolding search matches
never_found zero candidate = refl
never_found (suc left) candidate = never_found left (suc candidate)

never_fits : next_after flat no_minute 1 ≡ err no_match
unfolding next_after
never_fits = rw (never_found candidates 2, next_after) refl

-- A task that has run since 100, with a limit of 60 seconds.
abbrev slow : Task ℕ
slow = record {
  skill_name = "skill";
  task_type = long_running;
  cron_expr = none;
  delay_until = none;
  payload = 0;
  status = TaskStatus.running;
  priority = "normal";
  session_id = "s";
  queue_type = "background";
  created_at = 90;
  started_at = some 100;
  completed_at = none;
  last_heartbeat = some 100;
  heartbeat_timeout_sec = 60;
  retry_count = 0;
  max_retries = 3;
  idempotency_key = none;
  error = none;
}

abbrev two_tasks : Scheduler ℕ
two_tasks = record {
  tasks = ("a", record slow { last_heartbeat = some 950 }) ∷ ("b", slow) ∷ [];
  running_futures = ("b", false) ∷ [];
}

heartbeat_sweeper_decides_example :
    let after = lookup "b" (heartbeat_sweeper 1000 two_tasks).tasks in
    (IsSilent 1000 slow
      × (after
          ≡ some (record slow {
            status = TaskStatus.failed;
            completed_at = some 1000;
            last_heartbeat = some 1000;
            error = some heartbeat_timeout;
          })))
    ⊎ ((¬ IsSilent 1000 slow) × (after ≡ some slow))
heartbeat_sweeper_decides_example =
    heartbeat_sweeper_decides 1000 "b" two_tasks slow (refl, (refl, tt)) refl

heartbeat_sweeper-refresh_running_heartbeats_example :
    lookup "b" (heartbeat_sweeper 1002 (refresh_running_heartbeats 1000 two_tasks)).tasks
    ≡ some (record slow { last_heartbeat = some 1000 })
heartbeat_sweeper-refresh_running_heartbeats_example =
    heartbeat_sweeper-refresh_running_heartbeats 1000 1002 "b" two_tasks slow (refl, (refl, tt))
      (refl, tt) refl refl refl (omega arith)
