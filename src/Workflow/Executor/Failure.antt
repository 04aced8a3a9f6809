-- ===== src/Workflow/Executor/Failure.antt =====
-- workflow-dag-executor.ts: what the loop does when the task of a step did not complete: the event of the retry
-- decision, and for a retry the steps and tasks that are put back.
pub mod Retried
use athena_console.Prelude.{
  ℕ, String, Bool, true, false, ◌||◌, Option, none, some, List, [], ◌∷◌, get_or, if◌then◌else◌,
  ◌<>◌, Result, ok, throw, ◌>>=◌,
}
use athena_console.Json.{pos, Value, undefined, boolean, integer, string, object, end, field}
use athena_console.Tasks.{TaskRecord, TaskStatus, TaskError, task_update, update_task}
use athena_console.Tasks.Reads.{find_by_workflow_dag_step}
use athena_console.Workflow.Runs.{
  WorkflowDagStepRecord, WorkflowDagRunEventLevel, WorkflowDagRunEventRecord,
  WorkflowDagRunSnapshot, Tables, RunError,
}
use athena_console.Workflow.Runs.Repository.{append_event}
use athena_console.Workflow.State.{Outcome, find_step, is_pending, recompute_readiness}
use athena_console.Workflow.State.Resume.{resume_from_first_failed_step}
use athena_console.Workflow.Retry.{
  RetryFailurePhase, runtime_start, execution, provider, verification, artifact_export,
  connector_rate_limit, parse_workflow_task_retry_policy, compute_retry_backoff_ms,
  default_retry_base_delay_ms,
}
use athena_console.Workflow.Executor.{
  TaskRun, RetryReason, no_policy, exhausted, phase_not_retryable, unsafe_non_idempotent_write,
  eligible, RetryDecision, evaluate_retry_decision,
}

-- The tables of the runs and that of the tasks.
pub record AppState : Type 0 where
  pub tables : Tables
  pub tasks : List TaskRecord

pub data ExecutorError : Type 0 where
  state_error : RunError → ExecutorError
  task_error : TaskError → ExecutorError
  no_task : String → String → ExecutorError
  run_task_error : ExecutorError

-- A call of the state service, and the tables it leaves.
abbrev pub with_tables :
    AppState → Outcome → Result ExecutorError (AppState × WorkflowDagRunSnapshot)
with_tables state (throw error) = throw (state_error error)
with_tables state (ok (tables, snapshot)) =
    ok (record { tables = tables; tasks = state.tasks }, snapshot)

abbrev phase_text : RetryFailurePhase → String
phase_text runtime_start = "runtime-start"
phase_text execution = "execution"
phase_text provider = "provider"
phase_text verification = "verification"
phase_text artifact_export = "artifact-export"
phase_text connector_rate_limit = "connector-rate-limit"

abbrev reason_text : RetryReason → String
reason_text no_policy = "no-policy"
reason_text exhausted = "exhausted"
reason_text phase_not_retryable = "phase-not-retryable"
reason_text unsafe_non_idempotent_write = "unsafe-non-idempotent-write"
reason_text eligible = "eligible"

abbrev decision_json : RetryDecision → Value
decision_json decision = object (
    field "retry" (boolean decision.retry) (
      field "reason" (string (reason_text decision.reason)) (
        field "phase" (string (phase_text decision.phase)) (
          field "attempt" (integer (pos decision.attempt))
            (field "maxAttempts" (integer decision.max_attempts) end)))))

abbrev is_exhausted : RetryReason → Bool
is_exhausted exhausted = true
is_exhausted _ = false

abbrev retry_level : RetryDecision → WorkflowDagRunEventLevel
retry_level decision =
    if decision.retry || is_exhausted decision.reason
    then WorkflowDagRunEventLevel.warning
    else WorkflowDagRunEventLevel.info

unfoldable pub retry_event : String → String → RetryDecision → ℕ → WorkflowDagRunEventRecord
retry_event run_id step_id decision now = record {
  run_id = run_id;
  step_id = some step_id;
  type = if decision.retry then "workflow.step.retry_scheduled" else "workflow.step.retry_blocked";
  level = retry_level decision;
  message =
      if decision.retry
      then "Workflow step " <> step_id <> " scheduled for retry."
      else "Workflow step "
        <> step_id
        <> " will not be retried: "
        <> reason_text decision.reason
        <> ".";
  payload = decision_json decision;
  timestamp = now;
}

abbrev stays : TaskStatus → Bool
stays TaskStatus.ready = true
stays TaskStatus.completed = true
stays TaskStatus.archived = true
stays _ = false

abbrev reset_task : List TaskRecord → Option TaskRecord → ℕ → Result TaskError (List TaskRecord)
reset_task tasks none now = ok tasks
reset_task tasks (some task) now =
    if stays task.status
    then ok tasks
    else (update_task tasks task.id (record task_update { status = some TaskStatus.ready }) now
        >>= (λ (tasks', _). ok tasks'))

-- `resetProjectedTasksForPendingSteps`, over the steps of the snapshot.
unfoldable pub reset_projected_tasks :
    String → List WorkflowDagStepRecord → ℕ → List TaskRecord → Result TaskError (List TaskRecord)
reset_projected_tasks run_id [] now tasks = ok tasks
reset_projected_tasks run_id (step ∷ steps) now tasks =
    (if is_pending step.status
      then reset_task tasks (find_by_workflow_dag_step tasks run_id step.step_id) now
      else ok tasks)
    >>= reset_projected_tasks run_id steps now

unfoldable pub reset_for : AppState → WorkflowDagRunSnapshot → ℕ → Result ExecutorError AppState
reset_for state snapshot now =
    elim (reset_projected_tasks snapshot.run.id snapshot.steps now state.tasks) [
      | throw error ↦ throw (task_error error)
      | ok tasks ↦ ok (record { tables = state.tables; tasks = tasks })
    ]

unfoldable pub logged : AppState → WorkflowDagRunEventRecord → Result ExecutorError AppState
logged state event = elim (append_event state.tables event) [
  | throw error ↦ throw (state_error error)
  | ok tables ↦ ok (record { tables = tables; tasks = state.tasks })
]

abbrev pub provenance_of : TaskRecord → Value
provenance_of task = get_or task.provenance undefined

abbrev pub delay_of : Value → ℕ → List ℕ
delay_of provenance attempt = elim (parse_workflow_task_retry_policy provenance) [
  | none ↦ []
  | some policy ↦ compute_retry_backoff_ms policy.backoff attempt default_retry_base_delay_ms ∷ []
]

-- What a turn of the loop comes to: the loop goes on, or it breaks.
pub record Turn : Type 0 where
  pub goes_on : Bool
  pub state : AppState
  pub delays : List ℕ
  pub snapshot : WorkflowDagRunSnapshot

-- The retry: the steps and their tasks are put back.
unfoldable pub put_back : AppState → String → List ℕ → ℕ → Result ExecutorError Turn
put_back state run_id delays now = do
  (state1, resumable) ← with_tables state (resume_from_first_failed_step state.tables run_id now)
  state2 ← reset_for state1 resumable now
  (state3, snapshot) ← with_tables state2 (recompute_readiness state2.tables run_id now)
  ok (record { goes_on = true; state = state3; delays = delays; snapshot = snapshot })

unfoldable pub follow_decision :
    AppState
    → String
    → String
    → RetryDecision
    → List ℕ
    → WorkflowDagRunSnapshot
    → ℕ
    → Result ExecutorError Turn
follow_decision state run_id step_id decision delays snapshot now =
    logged state (retry_event run_id step_id decision now) >>= (λ state1.
      if decision.retry
      then put_back state1 run_id delays now
      else ok (record { goes_on = false; state = state1; delays = []; snapshot = snapshot }))

-- The rest of a turn whose task did not complete.
unfoldable pub after_failure :
    AppState
    → String
    → WorkflowDagStepRecord
    → TaskRecord
    → TaskRun
    → WorkflowDagRunSnapshot
    → ℕ
    → Result ExecutorError Turn
after_failure state run_id step task task_run snapshot now =
    let failed_step = get_or (find_step snapshot.steps step.step_id) step in
    follow_decision state run_id step.step_id
      (evaluate_retry_decision (provenance_of task) failed_step.attempt task_run)
      (delay_of (provenance_of task) failed_step.attempt) snapshot now
