-- ===== src/Examples/Executor.antt =====
-- packages/core/src/control-plane/services/workflow-dag-executor.ts on the run of two steps, with tasks that
-- complete.
use athena_console.Prelude.{
  Bool, ◌&&◌, is_some, if◌then◌else◌, ℕ, ◌≡◌, refl, sym, true, false, Option, none, some, List, [],
  ◌∷◌, String, str_eq, Result, ok, throw, inl, inr, includes, str_eq_iff, Bool-cases, map, subst,
  arith,
}
use athena_console.Workflow.Retry.{
  parse_workflow_task_retry_policy, is_retry_backoff, is_retry_idempotency, is_external_write_retry,
  is_retry_failure_phase,
}
use athena_console.Json.{
  is_record, pos, array, item, nil, integer, Fields, prop, null, object, string, field, end,
}
use athena_console.Tasks.{TaskStatus, get_task, TaskRecord, ready, map_task_row}
use athena_console.Tasks.Reads.{find_by_workflow_dag_step}
use athena_console.Workflow.Runs.{
  WorkflowDagRunSnapshot, WorkflowDagStepStatus, WorkflowDagStepRecord, require_snapshot, Tables,
  RunError,
}
use athena_console.Workflow.Runs.View.{at_step, require_snapshot-View, update_step-View}
use athena_console.Workflow.Runs.Repository.{
  update_step, step_update, updated_step, UpdateWorkflowDagStepInput,
}
use athena_console.Workflow.State.Steps.{status_of-at_step}
use athena_console.Workflow.Executor.{
  evaluate_retry_decision, classify_retry_failure_phase, TaskWorkbenchRunStatus, TaskRun,
  select_next_ready_step,
}
use athena_console.Workflow.Executor.Failure.{AppState, ExecutorError, state_error, run_task_error}
use athena_console.Workflow.Executor.Failure.Retried.{decision_on}
use athena_console.Workflow.Executor.Guard.{
  Flight, Guard, Reached, start, then_step, calls, settles, with_run_guard, Reached-guards,
}
use athena_console.Workflow.Executor.Loop.{RunTask, execute_internal}
use athena_console.Workflow.Executor.Loop.Progress.{
  select_from-listed, Completes, select_from-found,
}
use athena_console.Workflow.Executor.Loop.Ends.{Ends, execute_internal-Ends}
use athena_console.Examples.State.{
  run_of, run_pending, run_running, broken, waiting, steps_with, tables_with, waiting-View,
}

abbrev to_completed : UpdateWorkflowDagStepInput
to_completed = record step_update { status = some WorkflowDagStepStatus.completed }

abbrev success : TaskRun
success = record {
  status = TaskWorkbenchRunStatus.completed;
  failure = null;
  verification_status = none;
}

abbrev written : AppState → Result RunError Tables → Result ExecutorError (AppState × TaskRun)
written state (throw error) = throw (state_error error)
written state (ok tables) = ok (record { tables = tables; tasks = state.tasks }, success)

abbrev write :
    AppState → ℕ → Option WorkflowDagStepRecord → Result ExecutorError (AppState × TaskRun)
write state now none = throw run_task_error
write state now (some step) =
    written state (update_step state.tables "run" step.step_id to_completed now)

abbrev task_status_is_ready : TaskStatus → Bool
task_status_is_ready ready = true
task_status_is_ready _ = false

abbrev can_start : Option TaskRecord → Bool
can_start none = false
can_start (some task) = task_status_is_ready task.status && is_some task.assigned_agent_id

-- It throws for a task that is not ready or has no agent, and else completes the step that is next.
abbrev run_task : RunTask
run_task state task_id now =
    if can_start (get_task state.tasks task_id)
    then elim (require_snapshot state.tables "run") [
      | throw error ↦ throw (state_error error)
      | ok snapshot ↦ write state now (select_next_ready_step snapshot)
    ]
    else throw run_task_error

abbrev order : List String
order = "fetch" ∷ "report" ∷ []

abbrev task_of : String → Fields → TaskRecord
task_of step_id fields = record {
  id = step_id;
  title = step_id;
  description = "";
  status = ready;
  capability_requirements = [];
  assigned_agent_id = some "agent";
  assigned_agent_version = none;
  inputs = null;
  depends_on = [];
  mission_id = none;
  source_run_id = none;
  provenance = some (
      object (
        field "source" (string "workflow-template") (
          field "workflowDagRunId" (string "run")
            (field "workflowDagStepId" (string step_id) fields))));
  created_by = none;
  workspace_id = "default";
  created_at = 0;
  updated_at = 0;
  archived_at = none;
}

abbrev first_state : AppState
first_state = record {
  tables = tables_with run_pending waiting;
  tasks = task_of "fetch" end ∷ task_of "report" end ∷ [];
}

-- The tasks are those of the first state.
abbrev HasFirstTasks : AppState → Type 0
HasFirstTasks state = state.tasks ≡ first_state.tasks

abbrev Startable : String → Type 0
Startable k =
    (task : TaskRecord)
    → find_by_workflow_dag_step first_state.tasks "run" k ≡ some task
    → can_start (get_task first_state.tasks task.id) ≡ true

found_task :
    (t task : TaskRecord)
    → some t ≡ some task
    → can_start (get_task first_state.tasks t.id) ≡ true
    → can_start (get_task first_state.tasks task.id) ≡ true
found_task t task e starts =
    let same : t ≡ task = cc in
    subst (λ u. can_start (get_task first_state.tasks u.id) ≡ true) same starts

startable : (k : String) → includes order k ≡ true → Startable k
unfolding find_by_workflow_dag_step str_eq prop get_task map_task_row
startable k listed = elim (Bool-cases (str_eq "fetch" k)) [
  | inl here ↦
      let same = (str_eq_iff "fetch" k).0 here in
      subst Startable same (λ task e. found_task (map_task_row (task_of "fetch" end)) task e refl)
  | inr other ↦
      let same = (str_eq_iff "report" k).0 (ground arith) in
      subst Startable same (λ task e. found_task (map_task_row (task_of "report" end)) task e refl)
]

run_task-Completes : Completes "run" order HasFirstTasks run_task
unfolding select_next_ready_step
run_task-Completes state run steps step task now good holds chosen found =
    let started : can_start (get_task state.tasks task.id) ≡ true = rw good (
      startable step.step_id (select_from-listed steps order step chosen) task
        (rw good at found)) in
    let e = select_from-found steps order step chosen in
    let next = rw (sym holds.ordered) at chosen in
    let (t', ran, view') =
      update_step-View state.tables "run" run steps holds.view step.step_id to_completed now step
        e in
    record {
      state' = record { tables = t'; tasks = state.tasks };
      task_run = success;
      run' = run;
      steps' = map (at_step step.step_id (updated_step to_completed now step)) steps;
      returned = rw started (
          rw (require_snapshot-View state.tables "run" run steps holds.view, run_task)
            (rw (next, write) (rw (ran, written) refl)));
      done = refl;
      kept = good;
      holds = record { view = view'; ordered = holds.ordered; tasked = holds.tasked };
      statuses = status_of-at_step step.step_id to_completed now step steps e;
    }

abbrev HasTask : String → Type 0
HasTask k = (task : TaskRecord) × (find_by_workflow_dag_step first_state.tasks "run" k ≡ some task)

first_state-tasked : (k : String) → includes order k ≡ true → HasTask k
unfolding find_by_workflow_dag_step str_eq prop
first_state-tasked k listed = elim (Bool-cases (str_eq "fetch" k)) [
  | inl here ↦
      let same = (str_eq_iff "fetch" k).0 here in
      subst HasTask same (map_task_row (task_of "fetch" end), refl)
  | inr other ↦
      let same = (str_eq_iff "report" k).0 (ground arith) in
      subst HasTask same (map_task_row (task_of "report" end), refl)
]

execute_internal-Ends_example :
    Ends order (steps_with waiting) 0 (execute_internal run_task (λ turn. 9) 3 first_state "run")
execute_internal-Ends_example =
    execute_internal-Ends "run" order HasFirstTasks run_task run_task-Completes
      (λ state tables snapshot now ran good. good) (λ turn. 9) 3 first_state (run_of run_pending)
      (steps_with waiting) refl
      (record { view = waiting-View; ordered = refl; tasked = first_state-tasked }) (omega arith)

abbrev failure_of : TaskRun
failure_of = record {
  status = TaskWorkbenchRunStatus.failed;
  failure = object (field "phase" (string "provider") end);
  verification_status = none;
}

-- A task with a policy for three attempts.
abbrev patient : TaskRecord
patient = task_of "fetch" (
    field "retryPolicy"
      (object (
        field "maxAttempts" (integer (pos 3)) (
          field "backoff" (string "none") (
            field "retryableFailurePhases" (array (item (string "provider") nil)) (
              field "idempotency" (string "read-only")
                (field "externalWriteRetry" (string "forbid") end))))))
      end)

abbrev failed_state : AppState
failed_state = record {
  tables = tables_with run_running broken;
  tasks = patient ∷ task_of "report" end ∷ [];
}

abbrev failed_snapshot : WorkflowDagRunSnapshot
failed_snapshot = record {
  run = run_of run_running;
  steps = steps_with broken;
  attempts = [];
  events = [];
}

patient-retries : (decision_on failed_snapshot broken patient failure_of).retry ≡ true
unfolding evaluate_retry_decision classify_retry_failure_phase parse_workflow_task_retry_policy
    is_record is_retry_backoff is_retry_idempotency is_external_write_retry is_retry_failure_phase
    str_eq prop
patient-retries = refl

abbrev of_run : String → ℕ → Flight
of_run run_id promise = record { run_id = run_id; promise = promise }

-- Two runs are executed, and the first one ends.
abbrev guard : Guard
guard = record { in_flight = of_run "b" 1 ∷ []; running = of_run "b" 1 ∷ []; next = 2 }

guard-Reached : Reached guard
unfolding str_eq
guard-Reached =
    then_step (then_step (then_step start (calls _ "a")) (calls _ "b"))
      (settles _ 2 (of_run "b" 1 ∷ []) (of_run "a" 0) [])

Reached-guards_example : (includes [] "b" ≡ false) × (with_run_guard guard "b" ≡ (guard, 1))
Reached-guards_example = Reached-guards guard-Reached [] (of_run "b" 1) [] refl
