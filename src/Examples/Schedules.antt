-- ===== src/Examples/Schedules.antt =====
-- packages/core/src/schedule/index.ts: two tasks, a handler that never ends, and a lock that is not had.
use athena_console.Prelude.{
  ◌+◌, ◌≤◌, String, ◌≡◌, refl, true, false, none, some, [], ◌∷◌, includes, distinct, str_eq, ok,
  throw,
}
use athena_console.Json.{pos, integer, end}
use athena_console.SessionId.{is_session_id}
use athena_console.Text.{has_text, trim}
use athena_console.Schedule.{
  ScheduledTask, UpsertScheduleRequest, RunScheduleResult, Schedules, lock_failed, find_task,
  load_tasks, upsert_task, remove_task,
}
use athena_console.Schedule.Runs.{Handler, fulfilled, run_task, enter, append_run_log, skipped}
use athena_console.Schedule.Ends.{IsAtRest, run_task-returns, run_task-lock_failed}
use athena_console.Schedule.Tasks.Removal.{remove_task-removes}
use athena_console.Schedule.Tasks.{ids, IsMerged, upsert_task-puts}

abbrev task : String → ScheduledTask
task id = record {
  schema_version = 1;
  id = id;
  session_id = "s";
  input = "go";
  every_minutes = 5;
  enabled = true;
  running = false;
  created_at = 0;
  updated_at = 0;
  last_run_at = none;
  next_run_at = 10;
  other = end;
}

abbrev state : Schedules
state = record { tasks = task "a" ∷ task "b" ∷ []; running_ids = []; logs = [] }

-- One that never ends, and one that takes 3 milliseconds.
abbrev endless : Handler
endless schedules task = record { settles = none; meanwhile = λ after. schedules }

abbrev short : Handler
short schedules task = record { settles = some (3, fulfilled); meanwhile = λ after. schedules }

run_task-returns_example :
    (state' : Schedules) × (result : RunScheduleResult) × (run_task
        (some 50)
        endless
        true
        state
        "b"
        20
      ≡ some (state', ok result))
    × (result.finished_at ≤ 20 + 50)
    × (includes state'.running_ids "b" ≡ false)
    × IsAtRest result.finished_at (find_task "b" (load_tasks state'))
unfolding is_session_id str_eq
run_task-returns_example = run_task-returns 50 endless state "b" 20 (task "b") refl refl refl

run_task-lock_failed_example :
    (run_task none short false state "a" 20 ≡ some (enter "a" state, throw lock_failed))
    × (run_task none short true (enter "a" state) "a" 90
        ≡ some (append_run_log (skipped "a" 90) (enter "a" state), ok (skipped "a" 90)))
unfolding is_session_id str_eq
run_task-lock_failed_example =
    run_task-lock_failed none none short short state "a" 20 90 true refl refl

abbrev request : UpsertScheduleRequest
request = record {
  id = "c";
  session_id = some "s";
  input = some "go";
  every_minutes = integer (pos 5);
  enabled = none;
  start_now = true;
}

upsert_task-puts_example :
    (state' : Schedules) × (next : ScheduledTask) × (upsert_task (λ i. pos 0) state request 30
      ≡ ok (state', next))
    × IsMerged request "s" "go" 5 30 (find_task "c" (load_tasks state)) next
    × (find_task "c" (load_tasks state') ≡ some next)
    × (find_task "a" (load_tasks state') ≡ find_task "a" (load_tasks state))
    × (distinct (ids state'.tasks) ≡ true)
unfolding is_session_id str_eq has_text trim
upsert_task-puts_example =
    upsert_task-puts (λ i. pos 0) state request "s" "go" 5 30 "a" refl refl refl refl refl refl refl

remove_task-removes_example :
    (state' : Schedules) × (remove_task state "a" ≡ ok (state', true))
    × (find_task "a" (load_tasks state') ≡ none)
    × (find_task "b" (load_tasks state') ≡ find_task "b" (load_tasks state))
    × (distinct (ids state'.tasks) ≡ true)
unfolding is_session_id str_eq
remove_task-removes_example = remove_task-removes state "a" "b" refl refl refl refl
