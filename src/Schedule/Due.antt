-- ===== src/Schedule/Due.antt =====
-- schedule/index.ts: `runDue` runs each task that is due, once.
use athena_console.Prelude.{
  ℕ, ◌++◌, str_eq, String, ◌≡◌, Bool, true, false, List, [], ◌∷◌, includes,
}
use athena_console.Schedule.{
  ScheduledTask, RunScheduleResult, Schedules, is_schedule_id, load_tasks, find_task,
}
use athena_console.Schedule.Runs.{Handler}
use athena_console.Schedule.Tasks.{ids}
use athena_console.Schedule.Ends.{Answers, IsAtRest}

-- A handler that leaves the schedules.
abbrev pub IsQuiet : Handler → Type 0
IsQuiet handler =
    (state : Schedules) (task : ScheduledTask) (after : ℕ)
    → (handler state task).meanwhile after ≡ state

-- A task that can be run.
abbrev pub IsReady : (String → Bool) → List String → List String → ScheduledTask → Type 0
IsReady is_locked running_ids known task =
    (is_schedule_id task.id ≡ true)
    × (is_locked task.id ≡ true)
    × (includes running_ids task.id ≡ false)
    × (includes known task.id ≡ true)

-- One run of a task. The handler is called with the task, marked as running, while its id is among those that run;
-- the result tells how that call has settled, and stands last in the log; afterwards the task is at rest, and no
-- task has come or gone.
pub record Ran (timeout_ms : ℕ) (handler : Handler) (now : ℕ) (task : ScheduledTask)
    (state : Schedules) (result : RunScheduleResult) (state' : Schedules) : Type 0 where
  pub called : Schedules
  pub shown : ScheduledTask
  pub named : str_eq shown.id task.id ≡ true
  pub marked : shown.running ≡ true
  pub entered : includes called.running_ids task.id ≡ true
  pub answers : Answers timeout_ms (handler called shown).settles result
  pub id_is : result.id ≡ task.id
  pub started_at_is : result.started_at ≡ now
  pub logged : state'.logs ≡ state.logs ++ result ∷ []
  pub rest : IsAtRest result.finished_at (find_task task.id (load_tasks state'))
  pub same_ids : ids state'.tasks ≡ ids state.tasks

-- The tasks are run one after the other, each from when the one before has finished, with the results in their
-- order.
abbrev pub InTurn :
    ℕ → Handler → ℕ → List ScheduledTask → List RunScheduleResult → Schedules → Schedules → Type 0
InTurn timeout_ms handler now [] [] state state' = state' ≡ state
InTurn timeout_ms handler now [] (result ∷ results) state state' = ⊥
InTurn timeout_ms handler now (task ∷ tasks) [] state state' = ⊥
InTurn timeout_ms handler now (task ∷ tasks) (result ∷ results) state state' =
    (mid : Schedules) × Ran timeout_ms handler now task state result mid
    × InTurn timeout_ms handler result.finished_at tasks results mid state'
