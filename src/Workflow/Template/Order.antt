-- ===== src/Workflow/Template/Order.antt =====
-- The order of a template's tasks (workflow-template-dag.ts, `buildWorkflowTemplateDag`): Kahn's
-- algorithm with the ready tasks kept in the order of the template.
use athena_console.Prelude.{
  ℕ, zero, suc, String, Bool, true, false, Option, none, some, List, [], ◌∷◌, ◌++◌, map,
  if◌then◌else◌, length, sort_by, ltb, put, map_of, Result, ok, throw, get_or,
}
use athena_console.Json.{ℤ, pos, negsuc, Value}
use athena_console.Workflow.Template.{
  NormalizedDagTask, WorkflowTemplateDagIssue, normalize_dag_tasks, validate_normalized_dag_tasks,
  validate_workflow_template_dag, checks,
}

-- `dependenciesByTaskId` is an object: its entries in the order in which they were put in.
pub record WorkflowTemplateDagDefinition : Type 0 where
  pub task_order : List String
  pub dependencies_by_task_id : List (String × List String)

abbrev pub Dependents : Type 0
Dependents = String → Option (List String)

abbrev pub Indegrees : Type 0
Indegrees = String → Option ℤ

abbrev pub pred_ℤ : ℤ → ℤ
pred_ℤ (pos zero) = negsuc 0
pred_ℤ (pos (suc n)) = pos n
pred_ℤ (negsuc n) = negsuc (suc n)

abbrev pub is_zero : ℤ → Bool
is_zero (pos zero) = true
is_zero (pos (suc n)) = false
is_zero (negsuc n) = false

-- `(left, right) => indexById.get(left) - indexById.get(right)` is negative.
unfoldable pub comes_before : List NormalizedDagTask → String → String → Bool
comes_before tasks left right =
    let index_by_id = map_of (map (λ t. (t.id, t.index)) tasks) in
    ltb (get_or (index_by_id left) 0) (get_or (index_by_id right) 0)

unfoldable pub add_dependent : String → List String → Dependents → Dependents
add_dependent task_id [] m = m
add_dependent task_id (d ∷ ds) m =
    add_dependent task_id ds (put d (get_or (m d) [] ++ task_id ∷ []) m)

unfoldable pub add_dependents : List NormalizedDagTask → Dependents → Dependents
unfolding add_dependent
add_dependents [] m = m
add_dependents (t ∷ ts) m = add_dependents ts (add_dependent t.id t.dependencies m)

-- `dependentsByTaskId.get(id) ?? []`, after the lists were sorted.
unfoldable pub dependents_of : List NormalizedDagTask → String → List String
unfolding add_dependents comes_before
dependents_of tasks id =
    sort_by (comes_before tasks) (get_or (add_dependents tasks (λ k. none) id) [])

unfoldable pub indegrees : List NormalizedDagTask → Indegrees
indegrees tasks = map_of (map (λ t. (t.id, pos (length t.dependencies))) tasks)

-- The loop over the dependents of the task that was taken.
unfoldable pub settle :
    (String → String → Bool) → List String → Indegrees × List String → Indegrees × List String
settle before [] s = s
settle before (d ∷ ds) (indegree, ready) =
    let next = pred_ℤ (get_or (indegree d) (pos 0)) in
    settle before ds
      (put d next indegree, if is_zero next then sort_by before (ready ++ d ∷ []) else ready)

-- The `while` loop. Each task is taken once at most, so that as much fuel as there are tasks is enough;
-- `none` says that it ran out.
unfoldable pub take_ready :
    ℕ → List NormalizedDagTask → Indegrees → List String → List String → Option (List String)
unfolding settle dependents_of
take_ready fuel tasks indegree [] order = some order
take_ready zero tasks indegree (id ∷ ready) order = none
take_ready (suc fuel) tasks indegree (id ∷ ready) order =
    let (indegree', ready') =
      settle (comes_before tasks) (dependents_of tasks id) (indegree, ready) in
    take_ready fuel tasks indegree' ready' (order ++ id ∷ [])

abbrev pub is_free : NormalizedDagTask → Bool
is_free t = elim (t.dependencies) [ [] ↦ true | _ ∷ _ ↦ false ]

abbrev pub free_ids : List NormalizedDagTask → List String
free_ids [] = []
free_ids (t ∷ ts) = if is_free t then t.id ∷ free_ids ts else free_ids ts

unfoldable pub order_tasks : List NormalizedDagTask → Option (List String)
order_tasks tasks = take_ready (length tasks) tasks (indegrees tasks) (free_ids tasks) []

pub data BuildError : Type 0 where
  config_error : List WorkflowTemplateDagIssue → BuildError
  no_fuel : BuildError

abbrev pub definition_of :
    List NormalizedDagTask → Option (List String) → Result BuildError WorkflowTemplateDagDefinition
definition_of tasks none = throw no_fuel
definition_of tasks (some order) = ok (record {
  task_order = order;
  dependencies_by_task_id = map (λ t. (t.id, t.dependencies)) tasks;
})

unfoldable pub build_workflow_template_dag :
    List Value → Result BuildError WorkflowTemplateDagDefinition
build_workflow_template_dag tasks =
    let n = normalize_dag_tasks tasks in
    elim (validate_normalized_dag_tasks n.0) [
      | [] ↦ definition_of n.0 (order_tasks n.0)
      | i ∷ is ↦ throw (config_error (i ∷ is))
    ]

unfoldable pub parse_workflow_template_dag :
    Option (List Value) → Result BuildError WorkflowTemplateDagDefinition
parse_workflow_template_dag tasks = elim (validate_workflow_template_dag tasks) [
  | [] ↦ build_workflow_template_dag (get_or tasks [])
  | i ∷ is ↦ throw (config_error (i ∷ is))
]

unfoldable pub building : Unit {0}
unfolding checks comes_before add_dependent add_dependents dependents_of indegrees settle take_ready
    order_tasks build_workflow_template_dag parse_workflow_template_dag
building = tt
