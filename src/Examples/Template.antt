-- ===== src/Examples/Template.antt =====
-- packages/core/src/control-plane/workflow-template-dag.ts on small templates.
use athena_console.Prelude.{
  ℕ, String, ◌≡◌, refl, ◌≢◌, ◌↔◌, true, false, some, List, [], ◌∷◌, includes, distinct, str_eq,
  str_eq_iff, subst, arith, ok, throw,
}
use athena_console.Json.{Value, string, array, object, item, nil, field, end}
use athena_console.Workflow.Template.{
  NormalizedDagTask, found, ids, find_cycle, validate_normalized_dag_tasks,
  validate_workflow_template_dag, dependencies_of, checks, whole, no_tasks, min_items,
}
use athena_console.Workflow.Template.Order.{
  WorkflowTemplateDagDefinition, config_error, order_tasks, parse_workflow_template_dag, building,
}
use athena_console.Workflow.Template.Cycle.{IsCycle}
use athena_console.Workflow.Template.Checks.{
  IsClosed, find_cycle-IsCycle, validate_normalized_dag_tasks_iff,
}
use athena_console.Workflow.Template.Loop.{IsOrdered}
use athena_console.Workflow.Template.Kahn.{order_tasks-IsOrdered}
use athena_console.Workflow.Template.Parse.{IsPlan, parse-IsPlan, parse-throw_iff}

abbrev template : List Value
template =
    object
      (field "id" (string "report") (field "dependsOn" (array (item (string "fetch") nil)) end))
    ∷ object (field "id" (string "fetch") end)
    ∷ []

abbrev task : String → ℕ → List String → NormalizedDagTask
task id index dependencies = record { id = id; index = index; dependencies = dependencies }

abbrev two_tasks : List NormalizedDagTask
two_tasks = task "report" 0 ("fetch" ∷ []) ∷ task "fetch" 1 [] ∷ []

abbrev looped : List NormalizedDagTask
looped = task "a" 0 ("b" ∷ []) ∷ task "b" 1 ("a" ∷ []) ∷ []

template-clean : validate_workflow_template_dag (some template) ≡ []
unfolding building checks str_eq
template-clean = refl

parse-IsPlan_example :
    (dag : WorkflowTemplateDagDefinition) × (parse_workflow_template_dag (some template) ≡ ok dag)
    × IsPlan template dag
parse-IsPlan_example = parse-IsPlan template template-clean

parse-throw_iff_example :
    (parse_workflow_template_dag (some [])
      ≡ throw
          (config_error (record { path = whole; message = no_tasks; keyword = min_items } ∷ [])))
    ↔ ((validate_workflow_template_dag (some []) ≢ [])
        × (config_error (record { path = whole; message = no_tasks; keyword = min_items } ∷ [])
            ≡ config_error (validate_workflow_template_dag (some []))))
parse-throw_iff_example =
    parse-throw_iff (some [])
      (config_error (record { path = whole; message = no_tasks; keyword = min_items } ∷ []))

validate_normalized_dag_tasks_iff_example : (validate_normalized_dag_tasks two_tasks ≡ []) ↔ (
    IsClosed (ids two_tasks) two_tasks
    × ((path : List String) → ¬ IsCycle (dependencies_of two_tasks) path))
validate_normalized_dag_tasks_iff_example = validate_normalized_dag_tasks_iff two_tasks

looped-found : find_cycle looped ≡ found ("a" ∷ "b" ∷ "a" ∷ [])
unfolding checks str_eq
looped-found = refl

find_cycle-IsCycle_example : IsCycle (dependencies_of looped) ("a" ∷ "b" ∷ "a" ∷ [])
find_cycle-IsCycle_example = find_cycle-IsCycle looped ("a" ∷ "b" ∷ "a" ∷ []) looped-found

only : (x d : String) → includes (x ∷ []) d ≡ true → x ≡ d
only x d m = (str_eq_iff x d).0 (ground arith)

looped-IsClosed : IsClosed (ids looped) looped
unfolding str_eq
looped-IsClosed = (
  (λ d m.
      subst (λ k. (includes (ids looped) k ≡ true) × (str_eq k "a" ≡ false)) (only "b" d m)
        (refl, refl)),
  (
    (λ d m.
        subst (λ k. (includes (ids looped) k ≡ true) × (str_eq k "b" ≡ false)) (only "a" d m)
          (refl, refl)),
    tt,
  ),
)

two_tasks-clean : validate_normalized_dag_tasks two_tasks ≡ []
unfolding checks str_eq
two_tasks-clean = refl

order_tasks-IsOrdered_example :
    (order : List String) × (order_tasks two_tasks ≡ some order)
    × (distinct order ≡ true)
    × ((k : String) → includes order k ≡ includes (ids two_tasks) k)
    × IsOrdered (dependencies_of two_tasks) [] order
unfolding str_eq
order_tasks-IsOrdered_example =
    order_tasks-IsOrdered two_tasks refl (refl, (refl, tt)) two_tasks-clean
