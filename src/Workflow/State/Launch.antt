-- ===== src/Workflow/State/Launch.antt =====
-- workflow-state.ts: a run is created from the tasks of a template.
use athena_console.Prelude.{
  ℕ, String, ◌&&◌, Option, some, List, [], ◌∷◌, map, if◌then◌else◌, ok, throw,
}
use athena_console.Json.{
  Value, undefined, string, array, object, end, field, defined_field, is_record, prop, items, item,
  nil, Items,
}
use athena_console.Workflow.Runs.{Tables, parse_failed}
use athena_console.Workflow.State.{Outcome}
use athena_console.Workflow.Template.Order.{
  WorkflowTemplateDagDefinition, parse_workflow_template_dag,
}
use athena_console.Workflow.Runs.Create.{CreateWorkflowDagRunInput, create}

pub record CreateWorkflowStateRunRequest : Type 0 where
  pub workflow_template_id : String
  pub workflow_template_version : Option String
  pub plugin_id : Option String
  pub plugin_version : Option String
  pub tasks : List Value
  pub run_id : String

abbrev pub run_input :
    CreateWorkflowStateRunRequest → WorkflowTemplateDagDefinition → CreateWorkflowDagRunInput
run_input request dag = record {
  id = request.run_id;
  workflow_template_id = request.workflow_template_id;
  workflow_template_version = request.workflow_template_version;
  plugin_id = request.plugin_id;
  plugin_version = request.plugin_version;
  step_order = dag.task_order;
  dependencies = dag.dependencies_by_task_id;
}

unfoldable pub create_run : Tables → CreateWorkflowStateRunRequest → ℕ → Outcome
create_run t request now = elim (parse_workflow_template_dag (some request.tasks)) [
  | throw e ↦ throw parse_failed
  | ok dag ↦ create t (run_input request dag) now
]

abbrev only_texts : List Value → Items
only_texts [] = nil
only_texts (string s ∷ vs) = item (string s) (only_texts vs)
only_texts (_ ∷ vs) = only_texts vs

abbrev depends_on : Value → Value
depends_on (array vs) = array (only_texts (items vs))
depends_on _ = undefined

abbrev task_of : Value → Value → Value
task_of (string id) dependencies =
    object (field "id" (string id) (defined_field "dependsOn" (depends_on dependencies) end))
task_of _ dependencies = object (field "id" (string "") end)

unfoldable pub extract_template_task : Value → Value
extract_template_task task =
    if is_record task
    then task_of (prop "id" task) (prop "dependsOn" task)
    else object (field "id" (string "") end)

abbrev extracted : Value → List Value
extracted (array vs) = map extract_template_task (items vs)
extracted _ = []

unfoldable pub extract_template_tasks : Value → List Value
unfolding extract_template_task is_record prop
extract_template_tasks manifest =
    if is_record manifest && is_record (prop "workflow" manifest)
    then extracted (prop "tasks" (prop "workflow" manifest))
    else []
