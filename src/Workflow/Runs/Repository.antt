-- ===== src/Workflow/Runs/Repository.antt =====
-- The writes of workflow-state-repository.ts. A call returns the tables behind it or throws; the row that
-- it reads back is left out. The transaction around a call is its result: what throws changes nothing.
use athena_console.Prelude.{
  ℕ, String, Bool, ◌&&◌, Option, none, some, List, [], ◌∷◌, ◌++◌, str_eq, any, find, update_where,
  if◌then◌else◌, Result, ok, throw, ◌>>=◌, ◌==◌,
}
use athena_console.Json.{Value}
use athena_console.Workflow.Runs.{
  WorkflowDagRunStatus, WorkflowDagStepStatus, WorkflowDagStepAttemptStatus, WorkflowDagRunRecord,
  WorkflowDagStepRecord, WorkflowDagStepAttemptRecord, WorkflowDagRunEventRecord, Tables, RunError,
  step_not_found, constraint, require, list_steps,
}

-- A field of an update that is `undefined`, `null` or a time.
pub data Patch : Type 0 where
  keep clear : Patch
  at : ℕ → Patch

abbrev pub patched : Patch → Option ℕ → Option ℕ
patched keep old = old
patched clear old = none
patched (at t) old = some t

-- `input ?? existing`, and `input === undefined ? existing : input` for a JSON column.
abbrev pub or_else {ℓ} : {A : Type ℓ} → Option A → A → A
or_else none old = old
or_else (some a) old = a

abbrev pub or_keep {ℓ} : {A : Type ℓ} → Option A → Option A → Option A
or_keep none old = old
or_keep (some a) old = some a

pub record UpdateWorkflowDagRunInput : Type 0 where
  pub status : Option WorkflowDagRunStatus
  pub failure : Option Value
  pub started_at : Patch
  pub finished_at : Patch

pub record UpdateWorkflowDagStepInput : Type 0 where
  pub status : Option WorkflowDagStepStatus
  pub attempt : Option ℕ
  pub ready : Option Bool
  pub blocking_step_ids : Option (List String)
  pub started_at : Patch
  pub finished_at : Patch
  pub failure : Option Value
  pub output : Option Value

abbrev pub run_update : UpdateWorkflowDagRunInput
run_update = record { status = none; failure = none; started_at = keep; finished_at = keep }

abbrev pub step_update : UpdateWorkflowDagStepInput
step_update = record {
  status = none;
  attempt = none;
  ready = none;
  blocking_step_ids = none;
  started_at = keep;
  finished_at = keep;
  failure = none;
  output = none;
}

abbrev pub updated_run :
    UpdateWorkflowDagRunInput
    → ℕ
    → WorkflowDagRunRecord
    → WorkflowDagRunRecord
    → WorkflowDagRunRecord
updated_run input now existing row = record row {
  status = or_else input.status existing.status;
  failure = or_keep input.failure existing.failure;
  updated_at = now;
  started_at = patched input.started_at existing.started_at;
  finished_at = patched input.finished_at existing.finished_at;
}

unfoldable pub update_run : Tables → String → UpdateWorkflowDagRunInput → ℕ → Result RunError Tables
update_run t id input now = do
  existing ← require t id
  ok (record t {
    workflow_dag_runs =
        update_where (λ r. str_eq r.id id) (updated_run input now existing) t.workflow_dag_runs;
  })

unfoldable pub require_step : Tables → String → String → Result RunError WorkflowDagStepRecord
require_step t run_id step_id = elim (find (λ s. str_eq s.step_id step_id) (list_steps t run_id)) [
  | none ↦ throw (step_not_found run_id step_id)
  | some step ↦ ok step
]

abbrev pub updated_step :
    UpdateWorkflowDagStepInput
    → ℕ
    → WorkflowDagStepRecord
    → WorkflowDagStepRecord
    → WorkflowDagStepRecord
updated_step input now existing row = record row {
  status = or_else input.status existing.status;
  attempt = or_else input.attempt existing.attempt;
  ready = or_else input.ready existing.ready;
  blocking_step_ids = or_else input.blocking_step_ids existing.blocking_step_ids;
  started_at = patched input.started_at existing.started_at;
  finished_at = patched input.finished_at existing.finished_at;
  failure = or_keep input.failure existing.failure;
  output = or_keep input.output existing.output;
  updated_at = now;
}

abbrev pub is_step : String → String → WorkflowDagStepRecord → Bool
is_step run_id step_id s = str_eq s.run_id run_id && str_eq s.step_id step_id

unfoldable pub update_step :
    Tables → String → String → UpdateWorkflowDagStepInput → ℕ → Result RunError Tables
update_step t run_id step_id input now = do
  existing ← require_step t run_id step_id
  ok (record t {
    workflow_dag_run_steps =
        update_where (is_step run_id step_id) (updated_step input now existing)
          t.workflow_dag_run_steps;
  })

abbrev pub is_attempt : String → String → ℕ → WorkflowDagStepAttemptRecord → Bool
is_attempt run_id step_id attempt a =
    str_eq a.run_id run_id && (str_eq a.step_id step_id && a.attempt == attempt)

-- The insert statement with its `on conflict` clause. The row refers to a row of the steps.
unfoldable pub insert_attempt : Tables → WorkflowDagStepAttemptRecord → Result RunError Tables
insert_attempt t row =
    if any (is_step row.run_id row.step_id) t.workflow_dag_run_steps
    then ok (record t {
      workflow_dag_run_step_attempts =
          if any (is_attempt row.run_id row.step_id row.attempt) t.workflow_dag_run_step_attempts
          then update_where (is_attempt row.run_id row.step_id row.attempt) (λ _. row)
              t.workflow_dag_run_step_attempts
          else t.workflow_dag_run_step_attempts ++ row ∷ [];
    })
    else throw constraint

unfoldable pub start_attempt : Tables → String → String → ℕ → ℕ → ℕ → Result RunError Tables
start_attempt t run_id step_id attempt started_at now = insert_attempt t (record {
  run_id = run_id;
  step_id = step_id;
  attempt = attempt;
  status = WorkflowDagStepAttemptStatus.running;
  started_at = started_at;
  finished_at = none;
  failure = none;
  output = none;
  updated_at = now;
})

pub record FinishWorkflowDagStepAttemptInput : Type 0 where
  pub run_id : String
  pub step_id : String
  pub attempt : ℕ
  pub status : WorkflowDagStepAttemptStatus
  pub finished_at : ℕ
  pub failure : Option Value
  pub output : Option Value

-- An update that changes no row is followed by an insert.
unfoldable pub finish_attempt :
    Tables → FinishWorkflowDagStepAttemptInput → ℕ → Result RunError Tables
finish_attempt t input now =
    if any (is_attempt input.run_id input.step_id input.attempt) t.workflow_dag_run_step_attempts
    then ok (record t {
      workflow_dag_run_step_attempts =
          update_where (is_attempt input.run_id input.step_id input.attempt)
            (λ row. record row {
              status = input.status;
              finished_at = some input.finished_at;
              failure = input.failure;
              output = input.output;
              updated_at = now;
            })
            t.workflow_dag_run_step_attempts;
    })
    else insert_attempt t (record {
      run_id = input.run_id;
      step_id = input.step_id;
      attempt = input.attempt;
      status = input.status;
      started_at = input.finished_at;
      finished_at = some input.finished_at;
      failure = input.failure;
      output = input.output;
      updated_at = now;
    })

-- The row refers to a row of the runs.
unfoldable pub append_event : Tables → WorkflowDagRunEventRecord → Result RunError Tables
append_event t event =
    if any (λ r. str_eq r.id event.run_id) t.workflow_dag_runs
    then ok (record t { workflow_dag_run_events = t.workflow_dag_run_events ++ event ∷ [] })
    else throw constraint
