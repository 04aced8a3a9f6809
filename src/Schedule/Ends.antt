-- ===== src/Schedule/Ends.antt =====
-- schedule/index.ts: how a run of a task ends, and what a lock that is not had leaves behind.
use athena_console.Prelude.{
  ℕ, ◌+◌, ◌≤◌, ◌<◌, ◌⊎◌, String, ◌≡◌, refl, sym, subst, ap, Bool, true, false, Option, none, some,
  List, [], ◌∷◌, str_eq, str_eq_refl, ltb, includes, without, ok, throw, arith, Bool-cases, inl,
  inr,
}
use athena_console.Schedule.{
  ScheduledTask, ok_run, failed_run, RunFailure, timed_out, RunScheduleResult, Schedules,
  lock_failed, is_schedule_id, is_task, load_tasks, migrate_scheduled_task, migrate_tasks,
  update_first, find_task, add_minutes, save_tasks,
}
use athena_console.Schedule.Runs.{
  Settled, fulfilled, rejected, HandlerRun, Handler, run_with_timeout, append_run_log, skipped,
  started, finished, result_of, enter, leave, end_run, run_task,
}

-- A task that does not run, and is due after its interval; or no task.
abbrev pub IsAtRest : ℕ → Option ScheduledTask → Type 0
IsAtRest finish none = Unit
IsAtRest finish (some task) =
    (task.running ≡ false) × (task.next_run_at ≡ add_minutes finish task.every_minutes)

includes-without : (id : String) (ids : List String) → includes (without id ids) id ≡ false
includes-without id [] = refl
includes-without id (other ∷ ids) = ground (arith, includes-without id ids)

finished-IsAtRest :
    (settled : Settled) (finish : ℕ) (task : ScheduledTask)
    → IsAtRest finish (some (finished settled finish task))
finished-IsAtRest fulfilled finish task = (refl, refl)
finished-IsAtRest (rejected failure) finish task = (refl, refl)

pub finished-id :
    (settled : Settled) (finish : ℕ) (task : ScheduledTask)
    → (finished settled finish task).id ≡ task.id
finished-id fulfilled finish task = refl
finished-id (rejected failure) finish task = refl

-- Whatever the tasks, the one that is found after a run has ended is at rest.
pub update_first-IsAtRest :
    (id : String) (settled : Settled) (finish : ℕ) (tasks : List ScheduledTask)
    → IsAtRest finish
        (find_task id (migrate_tasks (update_first id (finished settled finish) tasks)))
update_first-IsAtRest id settled finish [] = tt
update_first-IsAtRest id settled finish (task ∷ tasks) = elim (Bool-cases (is_task id task)) [
  | inl here ↦
      let same : str_eq (finished settled finish task).id id ≡ true =
        rw (finished-id settled finish task) here in
      rw (here) (rw same (finished-IsAtRest settled finish task))
  | inr other ↦ rw (other) (rw other (update_first-IsAtRest id settled finish tasks))
]

pub migrate_tasks_idem :
    (tasks : List ScheduledTask) → migrate_tasks (migrate_tasks tasks) ≡ migrate_tasks tasks
migrate_tasks_idem [] = refl
migrate_tasks_idem (task ∷ tasks) =
    ap (λ rest. migrate_scheduled_task task ∷ rest) (migrate_tasks_idem tasks)

-- A handler that does not settle within a limit.
abbrev pub IsLate : ℕ → Option (ℕ × Settled) → Type 0
IsLate timeout_ms none = Unit
IsLate timeout_ms (some (after, settled)) = timeout_ms ≤ after

-- The result tells how the handler has settled within the limit, and when, or that it has not.
abbrev pub Answers : ℕ → Option (ℕ × Settled) → RunScheduleResult → Type 0
Answers timeout_ms settles result =
    ((after : ℕ) × (settles ≡ some (after, fulfilled))
      × (after < timeout_ms)
      × (result.status ≡ ok_run)
      × (result.error ≡ none)
      × (result.finished_at ≡ result.started_at + after))
    ⊎ (((after : ℕ) × (failure : RunFailure) × (settles ≡ some (after, rejected failure))
          × (after < timeout_ms)
          × (result.status ≡ failed_run)
          × (result.error ≡ some failure)
          × (result.finished_at ≡ result.started_at + after))
        ⊎ (IsLate timeout_ms settles
            × (result.status ≡ failed_run)
            × (result.error ≡ some (timed_out timeout_ms))
            × (result.finished_at ≡ result.started_at + timeout_ms)))

early-Answers :
    (timeout_ms after : ℕ) (settled : Settled)
    → after < timeout_ms
    → (task : ScheduledTask) (id : String) (now : ℕ)
    → Answers timeout_ms (some (after, settled)) (result_of task id settled now (now + after))
early-Answers timeout_ms after fulfilled early task id now =
    inl (after, refl, early, refl, refl, refl)
early-Answers timeout_ms after (rejected failure) early task id now =
    inr (inl (after, failure, refl, early, refl, refl, refl))

race :
    (timeout_ms : ℕ) (settles : Option (ℕ × Settled))
    → (after : ℕ) × (settled : Settled) × (run_with_timeout (some timeout_ms) settles
        ≡ some (after, settled))
      × (after ≤ timeout_ms)
      × ((task : ScheduledTask) (id : String) (now : ℕ)
          → Answers timeout_ms settles (result_of task id settled now (now + after)))
race timeout_ms none = (
  timeout_ms,
  rejected (timed_out timeout_ms),
  refl,
  omega arith,
  λ task id now. inr (inr (tt, refl, refl, refl)),
)
race timeout_ms (some (after, settled)) = elim (Bool-cases (ltb after timeout_ms)) [
  | inl early ↦ (
    after,
    settled,
    rw early refl,
    ground arith,
    early-Answers timeout_ms after settled (ground arith),
  )
  | inr late ↦ (
    timeout_ms,
    rejected (timed_out timeout_ms),
    rw late refl,
    omega arith,
    λ task id now. inr (inr (ground arith, refl, refl, refl)),
  )
]

-- The state that a run leaves.
abbrev pub left_by : String → Settled → ℕ → RunScheduleResult → Schedules → Schedules
left_by id settled finish result state =
    leave id (append_run_log result (end_run id settled finish state))

-- The handler's part of a run, once it is ended by itself or by the limit.
abbrev pub run_of : Handler → Schedules → String → ScheduledTask → ℕ → HandlerRun
run_of handler state id task now =
    handler (save_tasks (update_first id (started now) (load_tasks state)) (enter id state))
      (started now task)

pub run_task-ends :
    (timeout_ms : ℕ) (handler : Handler) (state : Schedules) (id : String) (now : ℕ)
    (task : ScheduledTask)
    → is_schedule_id id ≡ true
    → includes state.running_ids id ≡ false
    → find_task id (load_tasks state) ≡ some task
    → (after : ℕ) × (settled : Settled) × (after ≤ timeout_ms)
      × (run_task (some timeout_ms) handler true state id now
          ≡ some (
            left_by id settled
                (now + after)
                (result_of (started now task) id settled now (now + after))
                ((run_of handler state id task now).meanwhile after),
            ok (result_of (started now task) id settled now (now + after)),
          ))
      × Answers timeout_ms
          (run_of handler state id task now).settles
          (result_of (started now task) id settled now (now + after))
unfolding run_task
run_task-ends timeout_ms handler state id now task valid free there =
    let (after, settled, ran, le, answers) =
      race timeout_ms (run_of handler state id task now).settles in
    (
      after,
      settled,
      le,
      rw (valid, free, run_task) (rw (there, run_task) (rw ran refl)),
      answers (started now task) id now,
    )

-- Where there is a limit, a run of a task that is there and does not run returns within it, even if the handler
-- never does and whatever it does to the tasks. Then the id is free to run again, and the task, if there still is
-- one, is marked as not running and is due after its interval.
pub run_task-returns :
    (timeout_ms : ℕ) (handler : Handler) (state : Schedules) (id : String) (now : ℕ)
    (task : ScheduledTask)
    → is_schedule_id id ≡ true
    → includes state.running_ids id ≡ false
    → find_task id (load_tasks state) ≡ some task
    → (state' : Schedules) × (result : RunScheduleResult) × (run_task
          (some timeout_ms)
          handler
          true
          state
          id
          now
        ≡ some (state', ok result))
      × (result.finished_at ≤ now + timeout_ms)
      × (includes state'.running_ids id ≡ false)
      × IsAtRest result.finished_at (find_task id (load_tasks state'))
run_task-returns timeout_ms handler state id now task valid free there =
    let (after, settled, le, ran, _) =
      run_task-ends timeout_ms handler state id now task valid free there in
    let result = result_of (started now task) id settled now (now + after) in
    let meanwhile = (run_of handler state id task now).meanwhile after in
    (
      left_by id settled (now + after) result meanwhile,
      result,
      ran,
      omega arith,
      includes-without id meanwhile.running_ids,
      subst (λ tasks. IsAtRest (now + after) (find_task id tasks))
          (sym (
            migrate_tasks_idem
              (update_first id (finished settled (now + after)) (load_tasks meanwhile))))
          (update_first-IsAtRest id settled (now + after) (load_tasks meanwhile)),
    )

-- When the lock of a task is not had, the run throws and the id stays in `runningIds`: a run of the task on the
-- state that is left, at any time and even with the lock, is skipped as one that is running already.
pub run_task-lock_failed :
    (timeout later_timeout : Option ℕ) (handler later_handler : Handler) (state : Schedules)
    (id : String) (now later : ℕ) (is_locked : Bool)
    → is_schedule_id id ≡ true
    → includes state.running_ids id ≡ false
    → (run_task timeout handler false state id now ≡ some (enter id state, throw lock_failed))
      × (run_task later_timeout later_handler is_locked (enter id state) id later
          ≡ some (append_run_log (skipped id later) (enter id state), ok (skipped id later)))
unfolding run_task
run_task-lock_failed timeout later_timeout handler later_handler state id now later is_locked valid
      free =
    (rw (valid, free) refl, rw (valid, str_eq_refl id) refl)
