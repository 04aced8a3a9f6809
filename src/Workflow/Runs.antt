-- ===== src/Workflow/Runs.antt =====
-- packages/core/src/control-plane/app-state/workflow-state-repository.ts: the tables of the workflow runs
-- and the reads. A table is the list of its rows in the order of their row ids. A JSON column holds the
-- value that it was written from, a time is a number of milliseconds, and the random id of an event
-- is left out.
pub mod Repository
pub mod Create
pub mod View
pub mod Listing
use athena_console.Prelude.{
  ℕ, String, Bool, true, false, ◌&&◌, Option, none, some, List, [], ◌∷◌, ltb, str_eq, str_lt,
  filter, find, sort_by, is_empty, if◌then◌else◌, Result, ok, throw, ◌==◌, ◌||◌,
}
use athena_console.Json.{Value}

pub data WorkflowDagRunStatus : Type 0 where
  pending running completed failed resumable cancelled : WorkflowDagRunStatus

pub data WorkflowDagStepStatus : Type 0 where
  pending running completed failed skipped cancelled : WorkflowDagStepStatus

pub data WorkflowDagStepAttemptStatus : Type 0 where
  running completed failed cancelled : WorkflowDagStepAttemptStatus

pub data WorkflowDagRunEventLevel : Type 0 where
  info warning error : WorkflowDagRunEventLevel

pub record WorkflowDagRunRecord : Type 0 where
  pub id : String
  pub workflow_template_id : String
  pub workflow_template_version : Option String
  pub plugin_id : Option String
  pub plugin_version : Option String
  pub status : WorkflowDagRunStatus
  pub step_order : List String
  pub dependencies : List (String × List String)
  pub failure : Option Value
  pub created_at : ℕ
  pub updated_at : ℕ
  pub started_at : Option ℕ
  pub finished_at : Option ℕ

pub record WorkflowDagStepRecord : Type 0 where
  pub run_id : String
  pub step_id : String
  pub status : WorkflowDagStepStatus
  pub attempt : ℕ
  pub ready : Bool
  pub dependencies : List String
  pub blocking_step_ids : List String
  pub started_at : Option ℕ
  pub finished_at : Option ℕ
  pub failure : Option Value
  pub output : Option Value
  pub updated_at : ℕ

pub record WorkflowDagStepAttemptRecord : Type 0 where
  pub run_id : String
  pub step_id : String
  pub attempt : ℕ
  pub status : WorkflowDagStepAttemptStatus
  pub started_at : ℕ
  pub finished_at : Option ℕ
  pub failure : Option Value
  pub output : Option Value
  pub updated_at : ℕ

pub record WorkflowDagRunEventRecord : Type 0 where
  pub run_id : String
  pub step_id : Option String
  pub type : String
  pub level : WorkflowDagRunEventLevel
  pub message : String
  pub payload : Value
  pub timestamp : ℕ

pub record WorkflowDagRunSnapshot : Type 0 where
  pub run : WorkflowDagRunRecord
  pub steps : List WorkflowDagStepRecord
  pub attempts : List WorkflowDagStepAttemptRecord
  pub events : List WorkflowDagRunEventRecord

pub record Tables : Type 0 where
  pub workflow_dag_runs : List WorkflowDagRunRecord
  pub workflow_dag_run_steps : List WorkflowDagStepRecord
  pub workflow_dag_run_step_attempts : List WorkflowDagStepAttemptRecord
  pub workflow_dag_run_events : List WorkflowDagRunEventRecord

-- `parse_failed` stands for the errors of `parseWorkflowTemplateDag`; `constraint` for those of SQLite.
pub data RunError : Type 0 where
  run_not_found : String → RunError
  step_not_found step_not_in_run : String → String → RunError
  constraint : RunError
  parse_failed : RunError

-- A nullable column is read as absent where it holds the empty text.
abbrev pub truthy : Option String → Option String
truthy none = none
truthy (some s) = if is_empty s then none else some s

unfoldable pub map_workflow_dag_run_row : WorkflowDagRunRecord → WorkflowDagRunRecord
map_workflow_dag_run_row row = record row {
  workflow_template_version = truthy row.workflow_template_version;
  plugin_id = truthy row.plugin_id;
  plugin_version = truthy row.plugin_version;
}

unfoldable pub map_workflow_dag_run_event_row :
    WorkflowDagRunEventRecord → WorkflowDagRunEventRecord
map_workflow_dag_run_event_row row = record row { step_id = truthy row.step_id }

abbrev pub map_option {ℓ κ} : {A : Type ℓ} {B : Type κ} → (A → B) → Option A → Option B
map_option f none = none
map_option f (some a) = some (f a)

unfoldable pub get : Tables → String → Option WorkflowDagRunRecord
get t id = map_option map_workflow_dag_run_row (find (λ r. str_eq r.id id) t.workflow_dag_runs)

unfoldable pub require : Tables → String → Result RunError WorkflowDagRunRecord
require t id = elim (get t id) [ none ↦ throw (run_not_found id) | some run ↦ ok run ]

unfoldable pub list_steps : Tables → String → List WorkflowDagStepRecord
list_steps t run_id = filter (λ s. str_eq s.run_id run_id) t.workflow_dag_run_steps

abbrev attempt_before : WorkflowDagStepAttemptRecord → WorkflowDagStepAttemptRecord → Bool
attempt_before a b =
    str_lt a.step_id b.step_id || (str_eq a.step_id b.step_id && ltb a.attempt b.attempt)

unfoldable pub list_attempts : Tables → String → List WorkflowDagStepAttemptRecord
list_attempts t run_id =
    sort_by attempt_before (filter (λ a. str_eq a.run_id run_id) t.workflow_dag_run_step_attempts)

abbrev map_rows {ℓ} : {A : Type ℓ} → (A → A) → List A → List A
map_rows f [] = []
map_rows f (x ∷ xs) = f x ∷ map_rows f xs

unfoldable pub list_events : Tables → String → List WorkflowDagRunEventRecord
list_events t run_id = map_rows map_workflow_dag_run_event_row (
    sort_by (λ a b. ltb a.timestamp b.timestamp)
      (filter (λ e. str_eq e.run_id run_id) t.workflow_dag_run_events))

unfoldable pub get_snapshot : Tables → String → Option WorkflowDagRunSnapshot
get_snapshot t id =
    map_option
      (λ run. record {
        run = run;
        steps = list_steps t id;
        attempts = list_attempts t id;
        events = list_events t id;
      })
      (get t id)

unfoldable pub require_snapshot : Tables → String → Result RunError WorkflowDagRunSnapshot
require_snapshot t id = elim (get_snapshot t id) [
  | none ↦ throw (run_not_found id)
  | some snapshot ↦ ok snapshot
]

unfoldable pub reads : Unit {0}
unfolding map_workflow_dag_run_row map_workflow_dag_run_event_row get require list_steps
    list_attempts list_events get_snapshot require_snapshot
reads = tt
