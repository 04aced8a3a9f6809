-- ===== src/Workflow/Executor/Loop.antt =====
-- workflow-dag-executor.ts: the steps of a run are executed one after the other. What `runTask` of the task
-- workbench does is a parameter, and so are the times, one for each turn of the loop.
pub mod Progress
pub mod Ends
use athena_console.Prelude.{
  ℕ, zero, suc, String, Bool, true, false, ◌||◌, not, Option, none, some, List, [], ◌∷◌, ◌++◌,
  get_or, if◌then◌else◌, ◌<>◌, Result, ok, throw, ◌>>=◌,
}
use athena_console.Json.{
  ℤ, pos, Value, null, undefined, boolean, integer, string, object, Fields, end, field,
}
use athena_console.Tasks.{TaskRecord, TaskStatus, TaskError, task_update, update_task}
use athena_console.Tasks.Reads.{find_by_workflow_dag_step}
use athena_console.Workflow.Runs.{
  WorkflowDagRunStatus, WorkflowDagStepStatus, WorkflowDagStepRecord, WorkflowDagRunEventLevel,
  WorkflowDagRunEventRecord, WorkflowDagRunSnapshot, Tables, RunError,
}
use athena_console.Workflow.Runs.Repository.{append_event}
use athena_console.Workflow.State.{Outcome, find_step, is_pending, recompute_readiness}
use athena_console.Workflow.State.Failure.{recover_stale_running_steps}
use athena_console.Workflow.State.Resume.{resume_from_first_failed_step}
use athena_console.Workflow.Retry.{
  RetryFailurePhase, runtime_start, execution, provider, verification, artifact_export,
  connector_rate_limit, WorkflowTaskRetryPolicy, parse_workflow_task_retry_policy,
  compute_retry_backoff_ms, default_retry_base_delay_ms,
}
use athena_console.Workflow.Executor.{
  TaskWorkbenchRunStatus, TaskRun, RetryReason, no_policy, exhausted, phase_not_retryable,
  unsafe_non_idempotent_write, eligible, RetryDecision, evaluate_retry_decision,
  select_next_ready_step,
}
use athena_console.Workflow.Executor.Failure.{
  AppState, ExecutorError, state_error, task_error, no_task, run_task_error, with_tables, Turn,
  after_failure, reset_for,
}

-- The result, with the state that it leaves and the delays that were slept.
pub record WorkflowDagExecutionResult : Type 0 where
  pub state : AppState
  pub executed_step_ids : List String
  pub delays : List ℕ
  pub snapshot : WorkflowDagRunSnapshot

abbrev pub RunTask : Type 0
RunTask = AppState → String → ℕ → Result ExecutorError (AppState × TaskRun)

abbrev pub is_over : WorkflowDagRunStatus → Bool
is_over WorkflowDagRunStatus.failed = true
is_over WorkflowDagRunStatus.completed = true
is_over WorkflowDagRunStatus.resumable = true
is_over _ = false

abbrev pub is_done : TaskWorkbenchRunStatus → Bool
is_done TaskWorkbenchRunStatus.completed = true
is_done _ = false

module _ (run_task : RunTask) (clock : ℕ → ℕ) where
  -- A turn runs the task of the chosen step.
  unfoldable pub turn : AppState → String → WorkflowDagStepRecord → ℕ → Result ExecutorError Turn
  turn state run_id step now = elim (find_by_workflow_dag_step state.tasks run_id step.step_id) [
    | none ↦ throw (no_task run_id step.step_id)
    | some task ↦ run_task state task.id now >>= (λ (state1, task_run).
        with_tables state1 (recompute_readiness state1.tables run_id now) >>= (λ (state2, snapshot).
          if is_done task_run.status
          then ok (record { goes_on = true; state = state2; delays = []; snapshot = snapshot })
          else after_failure state2 run_id step task task_run snapshot now))
  ]

  -- The `while` loop with fuel, which is also the number of the turn; none says that it ran out.
  unfoldable pub execute_loop :
      ℕ
      → AppState
      → String
      → WorkflowDagRunSnapshot
      → List String
      → List ℕ
      → Option (Result ExecutorError WorkflowDagExecutionResult)
  execute_loop zero state run_id snapshot executed delays = none
  execute_loop (suc fuel) state run_id snapshot executed delays =
      let result : WorkflowDagExecutionResult = record {
        state = state;
        executed_step_ids = executed;
        delays = delays;
        snapshot = snapshot;
      } in
      if is_over snapshot.run.status
      then some (ok result)
      else elim (select_next_ready_step snapshot) [
        | none ↦ some (ok result)
        | some step ↦ elim (turn state run_id step (clock fuel)) [
          | throw error ↦ some (throw error)
          | ok t ↦ elim t.goes_on [
            | true ↦
                execute_loop fuel t.state run_id t.snapshot (executed ++ step.step_id ∷ [])
                  (delays ++ t.delays)
            | false ↦ some (
                ok (record {
                  state = t.state;
                  executed_step_ids = executed ++ step.step_id ∷ [];
                  delays = delays ++ t.delays;
                  snapshot = t.snapshot;
                }))
          ]
        ]
      ]

  unfoldable pub execute_internal :
      ℕ → AppState → String → Option (Result ExecutorError WorkflowDagExecutionResult)
  execute_internal fuel state run_id =
      elim (with_tables state (recompute_readiness state.tables run_id (clock fuel))) [
        | throw error ↦ some (throw error)
        | ok (state', snapshot) ↦ execute_loop fuel state' run_id snapshot [] []
      ]

  unfoldable pub resume_internal :
      ℕ → AppState → String → Option (Result ExecutorError WorkflowDagExecutionResult)
  resume_internal fuel state run_id =
      let now = clock fuel in
      let prepared : Result ExecutorError AppState = (do
        (state1, _) ← with_tables state (recover_stale_running_steps state.tables run_id now)
        (state2, resumable) ←
            with_tables state1 (resume_from_first_failed_step state1.tables run_id now)
        reset_for state2 resumable now) in
      elim prepared [
        | throw error ↦ some (throw error)
        | ok state' ↦ execute_internal fuel state' run_id
      ]
