-- ===== src/Examples/Tasks.antt =====
-- packages/core/src/control-plane/app-state/domain-repositories/tasks.ts: a task with an agent, and one without.
use athena_console.Prelude.{none, some, List, [], ◌∷◌}
use athena_console.Json.{null}
use athena_console.Tasks.{TaskRecord, CreateTaskInput, UpdateTaskInput, draft, ready, task_update}

abbrev row : TaskRecord
row = record {
  id = "k";
  title = "t";
  description = "";
  status = draft;
  capability_requirements = [];
  assigned_agent_id = none;
  assigned_agent_version = none;
  inputs = null;
  depends_on = [];
  mission_id = none;
  source_run_id = none;
  provenance = none;
  created_by = none;
  workspace_id = "default";
  created_at = 0;
  updated_at = 0;
  archived_at = none;
}

abbrev rows : List TaskRecord
rows = row ∷ []

abbrev make_ready : UpdateTaskInput
make_ready = record task_update { status = some ready; assigned_agent_id = some "a" }

abbrev input : CreateTaskInput
input = record {
  id = "n";
  title = "t";
  description = none;
  status = some ready;
  capability_requirements = none;
  assigned_agent_id = some "a";
  assigned_agent_version = none;
  inputs = none;
  depends_on = none;
  mission_id = none;
  source_run_id = none;
  provenance = none;
  created_by = none;
  workspace_id = none;
}
