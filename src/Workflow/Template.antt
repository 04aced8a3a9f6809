-- ===== src/Workflow/Template.antt =====
-- packages/core/src/control-plane/workflow-template-dag.ts: the tasks of a workflow template are
-- checked (ids, dependency lists, missing tasks, cycles) and ordered by Kahn's algorithm.
-- A message is a constructor with what its text is built from, and a path is relative to
-- `options.path`.
pub mod Search
pub mod Cycle
pub mod Reported
pub mod Checks
pub mod Order
pub mod Tables
pub mod Loop
pub mod Kahn
pub mod Declared
pub mod Parse
use athena_console.Prelude.{
  ℕ, zero, suc, ◌+◌, String, ◌≡◌, Bool, true, false, ◌&&◌, ◌||◌, Option, none, some, List, [], ◌∷◌,
  ◌++◌, map, Result, ok, throw, if◌then◌else◌, ltb, str_eq, str_lt, is_empty, includes, dedupe,
  without, length, filter, any, every, sort_by, get_or,
}
use athena_console.Json.{ℤ, pos, negsuc, Value, undefined, string, array, items, is_record, prop}

pub data IssuePath : Type 0 where
  whole : IssuePath
  task_id : ℕ → IssuePath
  task_depends_on : ℕ → IssuePath

pub data IssueMessage : Type 0 where
  no_tasks : IssueMessage
  no_id : ℕ → IssueMessage
  not_strings : IssuePath → IssueMessage
  not_unique : List String → IssueMessage
  depends_on_itself : String → IssueMessage
  depends_on_missing : String → String → IssueMessage
  has_cycle : List String → IssueMessage

pub data IssueKeyword : Type 0 where
  min_items required item_type unique_task_ids self_dependency missing_dependency cycle :
      IssueKeyword

pub record WorkflowTemplateDagIssue : Type 0 where
  pub path : IssuePath
  pub message : IssueMessage
  pub keyword : IssueKeyword

abbrev issue : IssuePath → IssueMessage → IssueKeyword → WorkflowTemplateDagIssue
issue path message keyword = record { path = path; message = message; keyword = keyword }

pub record NormalizedDagTask : Type 0 where
  pub id : String
  pub index : ℕ
  pub dependencies : List String

pub record Normalized : Type 0 where
  pub normalized : List NormalizedDagTask
  pub issues : List WorkflowTemplateDagIssue
  pub duplicates : List String

abbrev pub is_string : Value → Bool
is_string (string _) = true
is_string _ = false

abbrev pub strings : List Value → List String
strings [] = []
strings (string s ∷ vs) = s ∷ strings vs
strings (_ ∷ vs) = strings vs

-- The dependencies, and the issue that the call pushes, if any.
unfoldable pub normalize_dependency_list :
    Value → IssuePath → List String × List WorkflowTemplateDagIssue
normalize_dependency_list undefined path = ([], [])
normalize_dependency_list (array vs) path =
    if every is_string (items vs)
    then (dedupe (strings (items vs)), [])
    else ([], issue path (not_strings path) item_type ∷ [])
normalize_dependency_list _ path = ([], issue path (not_strings path) item_type ∷ [])

-- The task's id, where `isRecord(task) && typeof task.id === "string" && task.id.length > 0`.
abbrev non_empty_string : Value → Option String
non_empty_string (string s) = if is_empty s then none else some s
non_empty_string _ = none

unfoldable pub id_of : Value → Option String
unfolding is_record prop
id_of task = if is_record task then non_empty_string (prop "id" task) else none

-- The body of `tasks.forEach`, from `index` on, with the ids seen so far.
unfoldable pub normalize_from : ℕ → List String → List Value → Normalized
normalize_from index seen [] = record { normalized = []; issues = []; duplicates = [] }
normalize_from index seen (task ∷ tasks) = elim (id_of task) [
  | none ↦
      let rest = normalize_from (index + 1) seen tasks in
      record rest { issues = issue (task_id index) (no_id index) required ∷ rest.issues }
  | some id ↦
      let rest = normalize_from (index + 1) (id ∷ seen) tasks in
      let dependencies =
        normalize_dependency_list (prop "dependsOn" task) (task_depends_on index) in
      record {
        normalized =
            record { id = id; index = index; dependencies = dependencies.0 } ∷ rest.normalized;
        issues = dependencies.1 ++ rest.issues;
        duplicates = if includes seen id then id ∷ rest.duplicates else rest.duplicates;
      }
]

abbrev non_empty : List String → Bool
non_empty [] = false
non_empty (_ ∷ _) = true

unfoldable pub normalize_dag_tasks :
    List Value → List NormalizedDagTask × List WorkflowTemplateDagIssue
normalize_dag_tasks tasks =
    let all = normalize_from 0 [] tasks in
    let duplicates = dedupe all.duplicates in
    (
      all.normalized,
      if non_empty duplicates
          then all.issues
            ++ issue whole (not_unique (sort_by str_lt duplicates)) unique_task_ids ∷ []
          else all.issues,
    )

-- What `dependenciesByTaskId.get(id)` finds: of two tasks with one id, the later.
unfoldable pub dependencies_by_id : List NormalizedDagTask → String → Option (List String)
dependencies_by_id [] id = none
dependencies_by_id (t ∷ ts) id = elim (dependencies_by_id ts id) [
  | none ↦ if str_eq t.id id then some t.dependencies else none
  | some ds ↦ some ds
]

unfoldable pub dependencies_of : List NormalizedDagTask → String → List String
unfolding dependencies_by_id
dependencies_of tasks id = get_or (dependencies_by_id tasks id) []

-- The sets and the stack of `findCycle`; the top of the stack stands last.
pub record SearchState : Type 0 where
  pub visited : List String
  pub visiting : List String
  pub stack : List String

pub data Visit : Type 0 where
  done : SearchState → Visit
  found : List String → Visit
  out_of_fuel : Visit

-- `stack.slice(stack.indexOf(id))`
abbrev pub from_first : String → List String → List String
from_first id [] = []
from_first id (x ∷ xs) = if str_eq x id then x ∷ xs else from_first id xs

abbrev pub pop : List String → List String
pop [] = []
pop (x ∷ []) = []
pop (x ∷ y ∷ xs) = x ∷ pop (y ∷ xs)

abbrev pub enter : String → SearchState → SearchState
enter id s = record s { visiting = id ∷ s.visiting; stack = s.stack ++ id ∷ [] }

abbrev pub leave : String → SearchState → SearchState
leave id s = record {
  visited = id ∷ s.visited;
  visiting = without id s.visiting;
  stack = pop s.stack;
}

-- Go on where no cycle was found.
abbrev pub and_then : Visit → (SearchState → Visit) → Visit
and_then (done s) go = go s
and_then (found path) go = found path
and_then out_of_fuel go = out_of_fuel

-- The loop over the dependencies, and the loop of `findCycle`: the first cycle found ends it.
unfoldable pub visit_each : (String → SearchState → Visit) → List String → SearchState → Visit
visit_each go [] s = done s
visit_each go (d ∷ ds) s = and_then (go d s) (visit_each go ds)

-- `visit`, with fuel for the depth of the recursion.
unfoldable pub visit : ℕ → (String → List String) → String → SearchState → Visit
unfolding visit_each
visit zero deps id s = out_of_fuel
visit (suc fuel) deps id s =
    if includes s.visited id
    then done s
    else (if includes s.visiting id
        then found (from_first id s.stack ++ id ∷ [])
        else and_then (visit_each (visit fuel deps) (deps id) (enter id s))
            (λ s'. done (leave id s')))

abbrev pub start : SearchState
start = record { visited = []; visiting = []; stack = [] }

abbrev pub ids : List NormalizedDagTask → List String
ids tasks = map (λ t. t.id) tasks

-- A path of the recursion meets each task once at most, so that this fuel is enough.
unfoldable pub find_cycle : List NormalizedDagTask → Visit
find_cycle tasks = visit_each (visit (suc (length tasks)) (dependencies_of tasks)) (ids tasks) start

-- The issues of one task's dependencies.
unfoldable pub dependency_issues :
    List String → NormalizedDagTask → List String → List WorkflowTemplateDagIssue
dependency_issues task_ids task [] = []
dependency_issues task_ids task (d ∷ ds) =
    let rest = dependency_issues task_ids task ds in
    let path = task_depends_on task.index in
    if str_eq d task.id
    then issue path (depends_on_itself task.id) self_dependency ∷ rest
    else (if includes task_ids d
        then rest
        else issue path (depends_on_missing task.id d) missing_dependency ∷ rest)

unfoldable pub all_dependency_issues :
    List String → List NormalizedDagTask → List WorkflowTemplateDagIssue
unfolding dependency_issues
all_dependency_issues task_ids [] = []
all_dependency_issues task_ids (t ∷ ts) =
    dependency_issues task_ids t t.dependencies ++ all_dependency_issues task_ids ts

abbrev pub cycle_issues : Visit → List WorkflowTemplateDagIssue
cycle_issues (found path) = issue whole (has_cycle path) cycle ∷ []
cycle_issues _ = []

unfoldable pub validate_normalized_dag_tasks :
    List NormalizedDagTask → List WorkflowTemplateDagIssue
validate_normalized_dag_tasks tasks = elim (all_dependency_issues (ids tasks) tasks) [
  | [] ↦ cycle_issues (find_cycle tasks)
  | i ∷ is ↦ i ∷ is
]

unfoldable pub validate_workflow_template_dag : Option (List Value) → List WorkflowTemplateDagIssue
validate_workflow_template_dag none = issue whole no_tasks min_items ∷ []
validate_workflow_template_dag (some []) = issue whole no_tasks min_items ∷ []
validate_workflow_template_dag (some (t ∷ ts)) =
    let n = normalize_dag_tasks (t ∷ ts) in
    elim n.1 [ [] ↦ validate_normalized_dag_tasks n.0 | i ∷ is ↦ i ∷ is ]

-- A test that names `checks` on its `unfolding` line sees through all of this file.
unfoldable pub checks : Unit {0}
unfolding normalize_dependency_list id_of is_record prop normalize_from normalize_dag_tasks
    dependencies_by_id dependencies_of visit_each visit find_cycle dependency_issues
    all_dependency_issues validate_normalized_dag_tasks validate_workflow_template_dag
checks = tt
