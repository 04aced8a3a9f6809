-- ===== src/Schedule/Runs.antt =====
-- schedule/index.ts: `runTask`, `runDue` and `readLogs`. The handler is a parameter.
-- The timer of a limit is ideal: it fires on time, and the limit is within the range of setTimeout.
use athena_console.Prelude.{
  ℕ, ◌+◌, ◌-◌, String, Bool, true, false, ◌&&◌, Option, none, some, List, [], ◌∷◌, ◌++◌, str_eq,
  ltb, leb, max, includes, without, filter, take, length, if◌then◌else◌, Result, ok, throw,
}
use athena_console.Json.{ℤ, pos, negsuc}
use athena_console.Schedule.{
  ScheduledTask, RunStatus, ok_run, failed_run, already_running, RunFailure, timed_out,
  RunScheduleResult, Schedules, ScheduleError, invalid_schedule_id, not_found, lock_failed,
  is_schedule_id, load_tasks, save_tasks, update_first, find_task, add_minutes,
}

pub data Settled : Type 0 where
  fulfilled : Settled
  rejected : RunFailure → Settled

-- What a call of the handler comes to: how long it takes and how it ends, or none if it never does, and the state
-- so long after the call.
pub record HandlerRun : Type 0 where
  pub settles : Option (ℕ × Settled)
  pub meanwhile : ℕ → Schedules

abbrev pub Handler : Type 0
Handler = Schedules → ScheduledTask → HandlerRun

-- `runWithTimeout`: a limit that is not finite or not positive is none.
abbrev pub run_with_timeout : Option ℕ → Option (ℕ × Settled) → Option (ℕ × Settled)
run_with_timeout none settles = settles
run_with_timeout (some timeout_ms) none = some (timeout_ms, rejected (timed_out timeout_ms))
run_with_timeout (some timeout_ms) (some (after, settled)) =
    if ltb after timeout_ms
    then some (after, settled)
    else some (timeout_ms, rejected (timed_out timeout_ms))

abbrev pub append_run_log : RunScheduleResult → Schedules → Schedules
append_run_log log state = record state { logs = state.logs ++ log ∷ [] }

abbrev pub skipped : String → ℕ → RunScheduleResult
skipped id now = record {
  id = id;
  session_id = "unknown";
  status = already_running;
  started_at = now;
  finished_at = now;
  error = none;
}

abbrev pub started : ℕ → ScheduledTask → ScheduledTask
started start task = record task { running = true; updated_at = start }

-- How a run that has ended leaves its task.
abbrev pub finished : Settled → ℕ → ScheduledTask → ScheduledTask
finished fulfilled finish task = record task {
  running = false;
  last_run_at = some finish;
  next_run_at = add_minutes finish task.every_minutes;
  updated_at = finish;
}
finished (rejected failure) finish task = record task {
  running = false;
  next_run_at = add_minutes finish task.every_minutes;
  updated_at = finish;
}

abbrev status_of : Settled → RunStatus
status_of fulfilled = ok_run
status_of (rejected failure) = failed_run

abbrev error_of : Settled → Option RunFailure
error_of fulfilled = none
error_of (rejected failure) = some failure

abbrev pub result_of : ScheduledTask → String → Settled → ℕ → ℕ → RunScheduleResult
result_of task id settled start finish = record {
  id = id;
  session_id = task.session_id;
  status = status_of settled;
  started_at = start;
  finished_at = finish;
  error = error_of settled;
}

-- `runningIds.add` and `runningIds.delete`
abbrev pub enter : String → Schedules → Schedules
enter id state = record state { running_ids = id ∷ without id state.running_ids }

abbrev pub leave : String → Schedules → Schedules
leave id state = record state { running_ids = without id state.running_ids }

-- The task is written as ended if it is still there.
abbrev pub end_run : String → Settled → ℕ → Schedules → Schedules
end_run id settled finish state =
    save_tasks (update_first id (finished settled finish) (load_tasks state)) state

-- Where a run came to, with what it returned or threw; none if it never returns.
abbrev pub RunEnd : Type 0
RunEnd = Option (Schedules × Result ScheduleError RunScheduleResult)

abbrev ended : String → ScheduledTask → ℕ → HandlerRun → Option (ℕ × Settled) → RunEnd
ended id task start run none = none
ended id task start run (some (after, settled)) =
    let finish = start + after in
    let result = result_of task id settled start finish in
    some (
      leave id (append_run_log result (end_run id settled finish (run.meanwhile after))),
      ok result,
    )

abbrev pub run_started : Option ℕ → Handler → Schedules → String → ScheduledTask → ℕ → RunEnd
run_started timeout handler state id task start =
    let marked = save_tasks (update_first id (started start) (load_tasks state)) (enter id state) in
    let run = handler marked (started start task) in
    ended id (started start task) start run (run_with_timeout timeout run.settles)

-- `is_locked` says whether the lock of the task is had; otherwise `acquireSessionLock` throws, before the `try`.
unfoldable pub run_task : Option ℕ → Handler → Bool → Schedules → String → ℕ → RunEnd
run_task timeout handler is_locked state id now =
    if is_schedule_id id
    then (if includes state.running_ids id
        then some (append_run_log (skipped id now) state, ok (skipped id now))
        else (if is_locked
            then elim (find_task id (load_tasks state)) [
              | none ↦ some (leave id (enter id state), throw (not_found id))
              | some task ↦ run_started timeout handler state id task now
            ]
            else some (enter id state, throw lock_failed)))
    else some (state, throw (invalid_schedule_id id))

abbrev pub is_due : ℕ → ScheduledTask → Bool
is_due now task = task.enabled && leb task.next_run_at now

-- What the runs return, in their order, or the error of the first that throws.
abbrev pub DueEnd : Type 0
DueEnd = Option (Schedules × Result ScheduleError (List RunScheduleResult))

abbrev with_result : RunScheduleResult → DueEnd → DueEnd
with_result result none = none
with_result result (some (state, throw error)) = some (state, throw error)
with_result result (some (state, ok results)) = some (state, ok (result ∷ results))

abbrev pub due_tasks : Schedules → ℕ → List ScheduledTask
due_tasks state now = filter (is_due now) (load_tasks state)

module _ (timeout : Option ℕ) (handler : Handler) (is_locked : String → Bool) where
  -- A run starts when the one before has finished.
  unfoldable pub run_each : Schedules → List ScheduledTask → ℕ → DueEnd
  run_each state [] now = some (state, ok [])
  run_each state (task ∷ tasks) now =
      elim (run_task timeout handler (is_locked task.id) state task.id now) [
        | none ↦ none
        | some (state', throw error) ↦ some (state', throw error)
        | some (state', ok result) ↦ with_result result (run_each state' tasks result.finished_at)
      ]

  -- The runs, and how many tasks were not due.
  unfoldable pub run_due : Schedules → ℕ → DueEnd × ℕ
  run_due state now =
      let due = due_tasks state now in
      (run_each state due now, length (load_tasks state) - length due)

-- `Math.max(1, Math.floor(limit))`, of the limit after `Math.floor`.
abbrev log_limit : ℤ → ℕ
log_limit (pos n) = max 1 n
log_limit (negsuc n) = 1

abbrev reversed : List RunScheduleResult → List RunScheduleResult → List RunScheduleResult
reversed [] done = done
reversed (log ∷ logs) done = reversed logs (log ∷ done)

-- The last rows of a task's log, the latest first.
unfoldable pub read_logs : Schedules → String → ℤ → Result ScheduleError (List RunScheduleResult)
read_logs state id limit =
    if is_schedule_id id
    then ok (take (log_limit limit) (reversed (filter (λ log. str_eq log.id id) state.logs) []))
    else throw (invalid_schedule_id id)
