-- ===== src/Schedule.antt =====
-- packages/core/src/schedule/index.ts: the tasks that are run again and again. What is done under the lock of the
-- folder is one step, a time is a number of milliseconds, and the ids of the log's rows are left out.
pub mod Runs
pub mod Due
pub mod Ends
pub mod Tasks
use athena_console.Prelude.{
  ℕ, zero, suc, ◌+◌, ◌*◌, ◌-◌, String, Bool, true, false, ◌&&◌, not, Option, none, some, List, [],
  ◌∷◌, ◌++◌, str_eq, ltb, leb, max, min, is_empty, is_some, includes, without, filter, find, take,
  length, get_or, if◌then◌else◌, Result, ok, throw,
}
use athena_console.Json.{ℤ, pos, negsuc, Value, Fields, end, integer, fraction}
use athena_console.SessionId.{is_session_id}
use athena_console.Text.{has_text}

-- `other` are the fields that nothing here reads.
pub record ScheduledTask : Type 0 where
  pub schema_version : ℕ
  pub id : String
  pub session_id : String
  pub input : String
  pub every_minutes : ℕ
  pub enabled : Bool
  pub running : Bool
  pub created_at : ℕ
  pub updated_at : ℕ
  pub last_run_at : Option ℕ
  pub next_run_at : ℕ
  pub other : Fields

pub record UpsertScheduleRequest : Type 0 where
  pub id : String
  pub session_id : Option String
  pub input : Option String
  pub every_minutes : Value
  pub enabled : Option Bool
  pub start_now : Bool

pub data RunStatus : Type 0 where
  ok_run failed_run already_running : RunStatus

-- The message and the code of an error, or the limit that a run was stopped at.
pub data RunFailure : Type 0 where
  failed_with : String → Option String → RunFailure
  timed_out : ℕ → RunFailure

-- A row of the log, and what `runTask` returns, have the same fields.
pub record RunScheduleResult : Type 0 where
  pub id : String
  pub session_id : String
  pub status : RunStatus
  pub started_at : ℕ
  pub finished_at : ℕ
  pub error : Option RunFailure

-- `tasks.json`, the `runningIds` of this process, and the logs, in the order in which they were written.
pub record Schedules : Type 0 where
  pub tasks : List ScheduledTask
  pub running_ids : List String
  pub logs : List RunScheduleResult

pub data ScheduleError : Type 0 where
  invalid_schedule_id invalid_session_id : String → ScheduleError
  session_id_required input_required every_minutes_not_positive : ScheduleError
  not_found : String → ScheduleError
  lock_failed : ScheduleError

abbrev schedule_task_schema_version : ℕ
schedule_task_schema_version = 1

-- `SCHEDULE_ID_PATTERN`, which is that of the ids of sessions.
abbrev pub is_schedule_id : String → Bool
is_schedule_id id = is_session_id id

abbrev pub is_task : String → ScheduledTask → Bool
is_task id task = str_eq task.id id

abbrev pub migrate_scheduled_task : ScheduledTask → ScheduledTask
migrate_scheduled_task task = record task { schema_version = schedule_task_schema_version }

abbrev pub migrate_tasks : List ScheduledTask → List ScheduledTask
migrate_tasks [] = []
migrate_tasks (task ∷ tasks) = migrate_scheduled_task task ∷ migrate_tasks tasks

abbrev pub load_tasks : Schedules → List ScheduledTask
load_tasks state = migrate_tasks state.tasks

abbrev pub save_tasks : List ScheduledTask → Schedules → Schedules
save_tasks tasks state = record state { tasks = migrate_tasks tasks }

-- `tasks.splice(index, 1)` and a change of the task that `find` finds.
abbrev pub remove_first : String → List ScheduledTask → List ScheduledTask
remove_first id [] = []
remove_first id (task ∷ tasks) = if is_task id task then tasks else task ∷ remove_first id tasks

abbrev pub update_first :
    String → (ScheduledTask → ScheduledTask) → List ScheduledTask → List ScheduledTask
update_first id f [] = []
update_first id f (task ∷ tasks) =
    if is_task id task then f task ∷ tasks else task ∷ update_first id f tasks

abbrev pub find_task : String → List ScheduledTask → Option ScheduledTask
find_task id tasks = find (is_task id) tasks

unfoldable pub remove_task : Schedules → String → Result ScheduleError (Schedules × Bool)
remove_task state id =
    if is_schedule_id id
    then (if is_some (find_task id (load_tasks state))
        then ok (save_tasks (remove_first id (load_tasks state)) state, true)
        else ok (state, false))
    else throw (invalid_schedule_id id)

-- `addMinutes`
abbrev pub add_minutes : ℕ → ℕ → ℕ
add_minutes time minutes = time + minutes * 60000

-- A positive finite number, after `Math.max(1, Math.floor(n))`. What `Math.floor` makes of a fraction is given.
abbrev at_least_1 : ℤ → Option ℕ
at_least_1 (pos n) = some (max 1 n)
at_least_1 (negsuc n) = none

abbrev pub interval_of : (ℕ → ℤ) → Value → Option ℕ
interval_of floor (integer (pos n)) = if ltb 0 n then some n else none
interval_of floor (fraction i) = at_least_1 (floor i)
interval_of floor _ = none

abbrev pub enabled_of : Option Bool → Option ScheduledTask → Bool
enabled_of (some enabled) existing = enabled
enabled_of none (some task) = task.enabled
enabled_of none none = true

abbrev next_of : UpsertScheduleRequest → ℕ → ℕ → ℕ
next_of request minutes now = if request.start_now then now else add_minutes now minutes

abbrev pub upserted :
    UpsertScheduleRequest → String → String → ℕ → ℕ → Option ScheduledTask → ScheduledTask
upserted request session_id input minutes now (some existing) = record existing {
  session_id = session_id;
  input = input;
  every_minutes = minutes;
  enabled = enabled_of request.enabled (some existing);
  next_run_at = next_of request minutes now;
  updated_at = now;
}
upserted request session_id input minutes now none = record {
  schema_version = schedule_task_schema_version;
  id = request.id;
  session_id = session_id;
  input = input;
  every_minutes = minutes;
  enabled = enabled_of request.enabled none;
  running = false;
  created_at = now;
  updated_at = now;
  last_run_at = none;
  next_run_at = next_of request minutes now;
  other = end;
}

abbrev pub given_text : Option String → Option String
given_text none = none
given_text (some text) = if is_empty text then none else some text

abbrev pub input_of : Option String → Option String
input_of none = none
input_of (some text) = if has_text text then some text else none

-- The task in the place of the one of its id, or at the end.
abbrev pub put_task :
    String → Option ScheduledTask → ScheduledTask → List ScheduledTask → List ScheduledTask
put_task id none next tasks = tasks ++ next ∷ []
put_task id (some existing) next tasks = update_first id (λ _. next) tasks

abbrev pub upsert :
    Schedules → UpsertScheduleRequest → String → String → ℕ → ℕ → Schedules × ScheduledTask
upsert state request session_id input minutes now =
    let existing = find_task request.id (load_tasks state) in
    let next = upserted request session_id input minutes now existing in
    (save_tasks (put_task request.id existing next (load_tasks state)) state, next)

unfoldable pub upsert_task :
    (ℕ → ℤ)
    → Schedules
    → UpsertScheduleRequest
    → ℕ
    → Result ScheduleError (Schedules × ScheduledTask)
upsert_task floor state request now =
    if is_schedule_id request.id
    then elim (given_text request.session_id) [
      | none ↦ throw session_id_required
      | some session_id ↦ elim (input_of request.input) [
        | none ↦ throw input_required
        | some input ↦ elim (interval_of floor request.every_minutes) [
          | none ↦ throw every_minutes_not_positive
          | some minutes ↦
              if is_session_id session_id
              then ok (upsert state request session_id input minutes now)
              else throw (invalid_session_id session_id)
        ]
      ]
    ]
    else throw (invalid_schedule_id request.id)
