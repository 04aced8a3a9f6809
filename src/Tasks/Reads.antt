-- ===== src/Tasks/Reads.antt =====
-- packages/core/src/control-plane/app-state/domain-repositories/tasks.ts: the reads of the table, findByWorkflowDagStep
-- and list, with the order and the limit of their rows.
use athena_console.Prelude.{
  ℕ, String, Bool, true, false, ◌||◌, ◌&&◌, not, Option, none, some, List, [], ◌∷◌, map, str_eq,
  ltb, ◌==◌, filter, take, sort_by, is_some, min, max,
}
use athena_console.Json.{ℤ, pos, negsuc, Value, null, string, prop}
use athena_console.Tasks.{
  TaskStatus, draft, proposed, ready, running, blocked, completed, failed, cancelled, archived,
  TaskRecord, map_task_row, is_archived, filled,
}

abbrev is_text : String → Value → Bool
is_text s (string u) = str_eq u s
is_text s _ = false

-- `json_extract` of a field is null where the provenance has none.
abbrev provenance_of : Option Value → Value
provenance_of none = null
provenance_of (some v) = v

abbrev pub is_for_step : String → String → TaskRecord → Bool
is_for_step run_id step_id row =
    let provenance = provenance_of row.provenance in
    not (is_some row.archived_at)
    && is_text "workflow-template" (prop "source" provenance)
    && is_text run_id (prop "workflowDagRunId" provenance)
    && is_text step_id (prop "workflowDagStepId" provenance)

-- `order by updated_at desc, created_at desc`
abbrev pub comes_first : TaskRecord → TaskRecord → Bool
comes_first a b =
    ltb b.updated_at a.updated_at || (a.updated_at == b.updated_at && ltb b.created_at a.created_at)

abbrev first_task : List TaskRecord → Option TaskRecord
first_task [] = none
first_task (row ∷ rows) = some (map_task_row row)

unfoldable pub find_by_workflow_dag_step : List TaskRecord → String → String → Option TaskRecord
find_by_workflow_dag_step rows run_id step_id =
    first_task (sort_by comes_first (filter (is_for_step run_id step_id) rows))

abbrev status_number : TaskStatus → ℕ
status_number draft = 0
status_number proposed = 1
status_number ready = 2
status_number running = 3
status_number blocked = 4
status_number completed = 5
status_number failed = 6
status_number cancelled = 7
status_number archived = 8

-- The limit is the number after `Math.trunc`; one that is absent or not finite is none.
pub record ListTasksOptions : Type 0 where
  pub include_archived : Bool
  pub status : Option TaskStatus
  pub mission_id : Option String
  pub workspace_id : Option String
  pub limit : Option ℤ

abbrev pub clamp_app_state_list_limit : Option ℤ → ℕ
clamp_app_state_list_limit none = 500
clamp_app_state_list_limit (some (pos n)) = max 1 (min n 1000)
clamp_app_state_list_limit (some (negsuc n)) = 1

abbrev has_task_status : Option TaskStatus → TaskRecord → Bool
has_task_status none row = true
has_task_status (some status) row = status_number row.status == status_number status

abbrev has_mission : Option String → Option String → Bool
has_mission (some wanted) (some mission_id) = str_eq mission_id wanted
has_mission (some wanted) none = false
has_mission none _ = true

abbrev has_workspace : Option String → TaskRecord → Bool
has_workspace none row = true
has_workspace (some wanted) row = str_eq row.workspace_id wanted

abbrev pub is_listed : ListTasksOptions → TaskRecord → Bool
is_listed options row =
    (options.include_archived || not (is_archived row.status))
    && has_task_status options.status row
    && has_mission (filled options.mission_id) row.mission_id
    && has_workspace (filled options.workspace_id) row

unfoldable pub list_tasks : List TaskRecord → ListTasksOptions → List TaskRecord
list_tasks rows options = map map_task_row (
    take (clamp_app_state_list_limit options.limit)
      (sort_by comes_first (filter (is_listed options) rows)))
