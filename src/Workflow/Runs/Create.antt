-- ===== src/Workflow/Runs/Create.antt =====
-- `create` of workflow-state-repository.ts. The id is the one given, or drawn where none is.
use athena_console.Prelude.{
  ℕ, String, Bool, true, false, Option, none, List, [], ◌∷◌, ◌++◌, str_eq, any, get_or, map_of,
  if◌then◌else◌, Result, ok, throw, ◌>>=◌,
}
use athena_console.Json.{object, end}
use athena_console.Workflow.Runs.{
  WorkflowDagRunStatus, WorkflowDagStepStatus, WorkflowDagRunEventLevel, WorkflowDagRunEventRecord,
  WorkflowDagRunRecord, WorkflowDagStepRecord, WorkflowDagRunSnapshot, Tables, RunError, constraint,
  require_snapshot,
}
use athena_console.Workflow.Runs.Repository.{is_step, append_event}

pub record CreateWorkflowDagRunInput : Type 0 where
  pub id : String
  pub workflow_template_id : String
  pub workflow_template_version : Option String
  pub plugin_id : Option String
  pub plugin_version : Option String
  pub step_order : List String
  pub dependencies : List (String × List String)

abbrev pub is_nil : List String → Bool
is_nil [] = true
is_nil (_ ∷ _) = false

abbrev pub new_run : CreateWorkflowDagRunInput → ℕ → WorkflowDagRunRecord
new_run input now = record {
  id = input.id;
  workflow_template_id = input.workflow_template_id;
  workflow_template_version = input.workflow_template_version;
  plugin_id = input.plugin_id;
  plugin_version = input.plugin_version;
  status = WorkflowDagRunStatus.pending;
  step_order = input.step_order;
  dependencies = input.dependencies;
  failure = none;
  created_at = now;
  updated_at = now;
  started_at = none;
  finished_at = none;
}

abbrev pub new_step : CreateWorkflowDagRunInput → ℕ → String → WorkflowDagStepRecord
new_step input now step_id =
    let dependencies = get_or (map_of input.dependencies step_id) [] in
    record {
      run_id = input.id;
      step_id = step_id;
      status = WorkflowDagStepStatus.pending;
      attempt = 0;
      ready = is_nil dependencies;
      dependencies = dependencies;
      blocking_step_ids = dependencies;
      started_at = none;
      finished_at = none;
      failure = none;
      output = none;
      updated_at = now;
    }

-- Both tables have primary keys.
unfoldable pub insert_run : Tables → WorkflowDagRunRecord → Result RunError Tables
insert_run t row =
    if any (λ r. str_eq r.id row.id) t.workflow_dag_runs
    then throw constraint
    else ok (record t { workflow_dag_runs = t.workflow_dag_runs ++ row ∷ [] })

unfoldable pub insert_step : Tables → WorkflowDagStepRecord → Result RunError Tables
insert_step t row =
    if any (is_step row.run_id row.step_id) t.workflow_dag_run_steps
    then throw constraint
    else ok (record t { workflow_dag_run_steps = t.workflow_dag_run_steps ++ row ∷ [] })

unfoldable pub insert_steps :
    CreateWorkflowDagRunInput → ℕ → List String → Tables → Result RunError Tables
insert_steps input now [] t = ok t
insert_steps input now (step_id ∷ step_ids) t =
    insert_step t (new_step input now step_id) >>= insert_steps input now step_ids

abbrev pub created_event : CreateWorkflowDagRunInput → ℕ → WorkflowDagRunEventRecord
created_event input now = record {
  run_id = input.id;
  step_id = none;
  type = "workflow.created";
  level = WorkflowDagRunEventLevel.info;
  message = "Workflow DAG run state created.";
  payload = object end;
  timestamp = now;
}

unfoldable pub create :
    Tables → CreateWorkflowDagRunInput → ℕ → Result RunError (Tables × WorkflowDagRunSnapshot)
create t input now = do
  t1 ← insert_run t (new_run input now)
  t2 ← insert_steps input now input.step_order t1
  t3 ← append_event t2 (created_event input now)
  snapshot ← require_snapshot t3 input.id
  ok (t3, snapshot)
