-- ===== src/Tasks.antt =====
-- packages/core/src/control-plane/app-state/domain-repositories/tasks.ts: the table of the tasks, as the list of its
-- rows in the order of their row ids. A JSON column holds the value that it was written from, and a time is a number
-- of milliseconds.
pub mod Rows
pub mod Reads
use athena_console.Prelude.{
  ℕ, String, Bool, true, false, ◌||◌, ◌&&◌, not, Option, none, some, List, [], ◌∷◌, ◌++◌, map,
  str_eq, ltb, ◌==◌, any, find, filter, take, sort_by, update_where, is_empty, is_some, get_or, min,
  max, if◌then◌else◌, Result, ok, throw, ◌>>=◌,
}
use athena_console.Json.{ℤ, pos, negsuc, Value, null, end, object, string, prop}

pub data TaskStatus : Type 0 where
  draft proposed ready running blocked completed failed cancelled archived : TaskStatus

-- The row of a task; an absent `provenance` is none.
pub record TaskRecord : Type 0 where
  pub id : String
  pub title : String
  pub description : String
  pub status : TaskStatus
  pub capability_requirements : List String
  pub assigned_agent_id : Option String
  pub assigned_agent_version : Option String
  pub inputs : Value
  pub depends_on : List String
  pub mission_id : Option String
  pub source_run_id : Option String
  pub provenance : Option Value
  pub created_by : Option String
  pub workspace_id : String
  pub created_at : ℕ
  pub updated_at : ℕ
  pub archived_at : Option ℕ

pub record CreateTaskInput : Type 0 where
  pub id : String
  pub title : String
  pub description : Option String
  pub status : Option TaskStatus
  pub capability_requirements : Option (List String)
  pub assigned_agent_id : Option String
  pub assigned_agent_version : Option String
  pub inputs : Option Value
  pub depends_on : Option (List String)
  pub mission_id : Option String
  pub source_run_id : Option String
  pub provenance : Option Value
  pub created_by : Option String
  pub workspace_id : Option String

pub record UpdateTaskInput : Type 0 where
  pub title : Option String
  pub description : Option String
  pub status : Option TaskStatus
  pub capability_requirements : Option (List String)
  pub assigned_agent_id : Option String
  pub assigned_agent_version : Option String
  pub inputs : Option Value
  pub depends_on : Option (List String)
  pub mission_id : Option String
  pub source_run_id : Option String
  pub provenance : Option Value
  pub created_by : Option String
  pub workspace_id : Option String

-- An update of nothing.
abbrev pub task_update : UpdateTaskInput
task_update = record {
  title = none;
  description = none;
  status = none;
  capability_requirements = none;
  assigned_agent_id = none;
  assigned_agent_version = none;
  inputs = none;
  depends_on = none;
  mission_id = none;
  source_run_id = none;
  provenance = none;
  created_by = none;
  workspace_id = none;
}

-- `duplicate_id` is the primary key's.
pub data TaskError : Type 0 where
  task_not_found : String → TaskError
  assigned_agent_required : TaskError
  duplicate_id : String → TaskError

abbrev pub is_ready : TaskStatus → Bool
is_ready ready = true
is_ready _ = false

abbrev pub is_archived : TaskStatus → Bool
is_archived archived = true
is_archived _ = false

-- A column is read as absent where it holds the empty text.
abbrev pub filled : Option String → Option String
filled none = none
filled (some s) = if is_empty s then none else some s

unfoldable pub map_task_row : TaskRecord → TaskRecord
map_task_row row = record row {
  assigned_agent_id = filled row.assigned_agent_id;
  assigned_agent_version = filled row.assigned_agent_version;
  mission_id = filled row.mission_id;
  source_run_id = filled row.source_run_id;
  created_by = filled row.created_by;
}

-- `assertTaskReadyAssignment`
abbrev pub is_assigned : TaskStatus → Option String → Bool
is_assigned status assigned_agent_id = not (is_ready status) || is_some (filled assigned_agent_id)

abbrev pub has_id : String → TaskRecord → Bool
has_id id row = str_eq row.id id

unfoldable pub get_task : List TaskRecord → String → Option TaskRecord
get_task rows id = elim (find (has_id id) rows) [ none ↦ none | some row ↦ some (map_task_row row) ]

unfoldable pub require_task : List TaskRecord → String → Result TaskError TaskRecord
require_task rows id = elim (get_task rows id) [
  | none ↦ throw (task_not_found id)
  | some task ↦ ok task
]

abbrev archived_time : TaskStatus → Option ℕ → ℕ → Option ℕ
archived_time status before now = if is_archived status then some (get_or before now) else before

-- `??` takes null for absent.
abbrev not_null : Option Value → Option Value
not_null (some null) = none
not_null v = v

abbrev pub created : CreateTaskInput → TaskStatus → ℕ → TaskRecord
created input status now = record {
  id = input.id;
  title = input.title;
  description = get_or input.description "";
  status = status;
  capability_requirements = get_or input.capability_requirements [];
  assigned_agent_id = input.assigned_agent_id;
  assigned_agent_version = input.assigned_agent_version;
  inputs = get_or (not_null input.inputs) (object end);
  depends_on = get_or input.depends_on [];
  mission_id = input.mission_id;
  source_run_id = input.source_run_id;
  provenance = input.provenance;
  created_by = input.created_by;
  workspace_id = get_or input.workspace_id "default";
  created_at = now;
  updated_at = now;
  archived_at = archived_time status none now;
}

unfoldable pub create_task :
    List TaskRecord → CreateTaskInput → ℕ → Result TaskError (List TaskRecord × TaskRecord)
create_task rows input now =
    let status = get_or input.status draft in
    let rows' = rows ++ created input status now ∷ [] in
    if is_assigned status input.assigned_agent_id
    then (if any (has_id input.id) rows
        then throw (duplicate_id input.id)
        else (require_task rows' input.id >>= (λ task. ok (rows', task))))
    else throw assigned_agent_required

-- `a ?? b` of two fields that may be absent.
abbrev pub or_else {ℓ} : {A : Type ℓ} → Option A → Option A → Option A
or_else none b = b
or_else (some a) b = some a

abbrev pub updated_task : TaskRecord → UpdateTaskInput → ℕ → TaskRecord → TaskRecord
updated_task existing input now row =
    let status = get_or input.status existing.status in
    record row {
      title = get_or input.title existing.title;
      description = get_or input.description existing.description;
      status = status;
      capability_requirements =
          get_or input.capability_requirements existing.capability_requirements;
      assigned_agent_id = or_else input.assigned_agent_id existing.assigned_agent_id;
      assigned_agent_version = or_else input.assigned_agent_version existing.assigned_agent_version;
      inputs = get_or (not_null input.inputs) existing.inputs;
      depends_on = get_or input.depends_on existing.depends_on;
      mission_id = or_else input.mission_id existing.mission_id;
      source_run_id = or_else input.source_run_id existing.source_run_id;
      provenance = or_else input.provenance existing.provenance;
      created_by = or_else input.created_by existing.created_by;
      workspace_id = get_or input.workspace_id existing.workspace_id;
      updated_at = now;
      archived_at = archived_time status existing.archived_at now;
    }

unfoldable pub update_task :
    List TaskRecord → String → UpdateTaskInput → ℕ → Result TaskError (List TaskRecord × TaskRecord)
update_task rows id input now = do
  existing ← require_task rows id
  let rows' = update_where (has_id id) (updated_task existing input now) rows
  if is_assigned (get_or input.status existing.status)
        (or_else input.assigned_agent_id existing.assigned_agent_id)
      then (require_task rows' id >>= (λ task. ok (rows', task)))
      else throw assigned_agent_required

unfoldable pub archive_task :
    List TaskRecord → String → ℕ → Result TaskError (List TaskRecord × TaskRecord)
archive_task rows id now = update_task rows id (record task_update { status = some archived }) now
