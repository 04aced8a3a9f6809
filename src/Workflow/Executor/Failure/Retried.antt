-- ===== src/Workflow/Executor/Failure/Retried.antt =====
-- workflow-dag-executor.ts: what a turn makes of a run whose task did not complete.
use athena_console.Prelude.{
  Bool, ℕ, String, ◌≡◌, true, false, some, List, [], ◌∷◌, ◌++◌, if◌then◌else◌, Result, ok, throw,
  ◌⊎◌, ◌↔◌, includes, get_or,
}
use athena_console.Tasks.{TaskRecord, TaskError}
use athena_console.Workflow.Runs.{
  WorkflowDagRunStatus, WorkflowDagRunEventRecord, WorkflowDagRunSnapshot, WorkflowDagStepRecord,
  Tables,
}
use athena_console.Workflow.Runs.View.{View}
use athena_console.Workflow.State.{find_step}
use athena_console.Workflow.State.Resume.{resume_from_first_failed_step}
use athena_console.Workflow.State.Descendants.{Descends}
use athena_console.Workflow.State.Resumed.{resumed_status}
use athena_console.Workflow.State.Moves.{status_of}
use athena_console.Workflow.Executor.{TaskRun, RetryDecision, evaluate_retry_decision}
use athena_console.Workflow.Executor.Failure.{
  AppState, ExecutorError, task_error, Turn, provenance_of, reset_projected_tasks,
}

-- The decision on a step, with the attempt that the snapshot has.
abbrev pub decision_on :
    WorkflowDagRunSnapshot → WorkflowDagStepRecord → TaskRecord → TaskRun → RetryDecision
decision_on snapshot step task task_run =
    evaluate_retry_decision (provenance_of task)
      (get_or (find_step snapshot.steps step.step_id) step).attempt task_run

-- An event of a type about a step is put behind the events, and nothing else changes.
pub record Logs (run_id step_id type : String) (now : ℕ) (tables tables' : Tables) : Type 0 where
  pub event : WorkflowDagRunEventRecord
  pub of_run : event.run_id ≡ run_id
  pub of_step : event.step_id ≡ some step_id
  pub of_type : event.type ≡ type
  pub at_time : event.timestamp ≡ now
  pub written :
      tables'
      ≡ record tables { workflow_dag_run_events = tables.workflow_dag_run_events ++ event ∷ [] }

-- The loop ends: the run and the tasks are as they were, and the event says that there is no retry.
pub record Blocked (run_id step_id : String) (now : ℕ) (state : AppState)
    (snapshot : WorkflowDagRunSnapshot) (outcome : Result ExecutorError Turn) : Type 0 where
  pub tables : Tables
  pub logs : Logs run_id step_id "workflow.step.retry_blocked" now state.tables tables
  pub returned :
      outcome
      ≡ ok (record {
        goes_on = false;
        state = record { tables = tables; tasks = state.tasks };
        delays = [];
        snapshot = snapshot;
      })
  pub view : View tables run_id snapshot.run snapshot.steps

-- The tasks of the steps of a resumed run are put back.
pub record Resumes (run_id : String) (now : ℕ) (tables : Tables) (tasks : List TaskRecord)
    (outcome : Result TaskError (List TaskRecord)) : Type 0 where
  pub tables' : Tables
  pub resumable : WorkflowDagRunSnapshot
  pub resumed : resume_from_first_failed_step tables run_id now ≡ ok (tables', resumable)
  pub reset : reset_projected_tasks resumable.run.id resumable.steps now tasks ≡ outcome

-- The loop goes on after a delay: the first failed step and what depends on it are pending again.
pub record Retried (run_id step_id : String) (delays : List ℕ) (now : ℕ) (tables : Tables)
    (tasks : List TaskRecord) (snapshot : WorkflowDagRunSnapshot)
    (outcome : Result ExecutorError Turn) : Type 0 where
  pub next : Turn
  pub returned : outcome ≡ ok next
  pub goes_on : next.goes_on ≡ true
  pub slept : next.delays ≡ delays
  pub resumes : Resumes run_id now tables tasks (ok next.state.tasks)
  pub affected : List String
  pub descends :
      (k : String) → (includes affected k ≡ true) ↔ Descends snapshot.run.dependencies step_id k
  pub view : View next.state.tables run_id next.snapshot.run next.snapshot.steps
  pub run_status_is : next.snapshot.run.status ≡ WorkflowDagRunStatus.pending
  pub statuses_are :
      (k : String) → status_of next.snapshot.steps k ≡ resumed_status affected snapshot.steps k

-- The repository refuses to make a task ready.
pub record Refused (run_id : String) (now : ℕ) (tables : Tables) (tasks : List TaskRecord)
    (outcome : Result ExecutorError Turn) : Type 0 where
  pub error : TaskError
  pub returned : outcome ≡ throw (task_error error)
  pub resumes : Resumes run_id now tables tasks (throw error)

-- The loop ends without a retry; with one the event says so, and from there it goes on, or the repository
-- refuses to make a task ready. The event is about the step that was executed.
abbrev pub Followed :
    String
    → String
    → String
    → RetryDecision
    → List ℕ
    → ℕ
    → AppState
    → WorkflowDagRunSnapshot
    → Result ExecutorError Turn
    → Type 0
Followed run_id step_id failed_id decision delays now state snapshot outcome =
    ((decision.retry ≡ false) × Blocked run_id step_id now state snapshot outcome)
    ⊎ ((decision.retry ≡ true)
        × (tables : Tables) × Logs run_id step_id "workflow.step.retry_scheduled" now state.tables
            tables
        × (Refused run_id now tables state.tasks outcome
            ⊎ Retried run_id failed_id delays now tables state.tasks snapshot outcome))

abbrev type_of : Bool → String
type_of retry = if retry then "workflow.step.retry_scheduled" else "workflow.step.retry_blocked"
