-- ===== src/Workflow/Template/Parse.antt =====
-- What `parseWorkflowTemplateDag` (workflow-template-dag.ts) accepts, and the definition that it returns.
use athena_console.Prelude.{
  ℕ, ◌+◌, String, ◌≡◌, refl, sym, ◌∙◌, ap, ◌≢◌, inl, inr, true, false, Option, none, some, List, [],
  ◌∷◌, ◌++◌, map, arith, if◌then◌else◌, Bool-cases, str_eq_iff, str_eq_refl, includes, dedupe,
  dedupe_from, map_of, ok, throw, Option-cases, ◌↔◌, distinct, get_or, subst, fun_ext,
}
use athena_console.Json.{
  Value, undefined, null, boolean, integer, fraction, string, array, object, prop, items,
}
use athena_console.Workflow.Template.{
  NormalizedDagTask, WorkflowTemplateDagIssue, IssuePath, ids, dependencies_by_id, dependencies_of,
  validate_normalized_dag_tasks, normalize_dependency_list, strings, id_of, normalize_from,
  normalize_dag_tasks, validate_workflow_template_dag, non_empty,
}
use athena_console.Workflow.Template.Order.{
  WorkflowTemplateDagDefinition, BuildError, config_error, order_tasks, build_workflow_template_dag,
  parse_workflow_template_dag, definition_of,
}
use athena_console.Workflow.Template.Declared.{
  template_ids, ids-normalize_from, declares, includes-normalized,
}
use athena_console.Workflow.Template.Tables.{DistinctDependencies}
use athena_console.Workflow.Template.Loop.{IsOrdered}
use athena_console.Workflow.Template.Kahn.{order_tasks-IsOrdered}

dedupe_from-fresh :
    (seen xs : List String) (k : String)
    → includes seen k ≡ true
    → includes (dedupe_from seen xs) k ≡ false
dedupe_from-fresh seen [] k h = refl
dedupe_from-fresh seen (x ∷ xs) k h =
    ground (arith, dedupe_from-fresh seen xs k, dedupe_from-fresh (x ∷ seen) xs k, str_eq_iff x k)

distinct-dedupe_from : (seen xs : List String) → distinct (dedupe_from seen xs) ≡ true
distinct-dedupe_from seen [] = refl
distinct-dedupe_from seen (x ∷ xs) = ground (
  arith,
  distinct-dedupe_from seen xs,
  distinct-dedupe_from (x ∷ seen) xs,
  dedupe_from-fresh (x ∷ seen) xs x (rw (str_eq_refl x)),
)

distinct-normalize_dependency_list :
    (v : Value) (path : IssuePath) → distinct (normalize_dependency_list v path).0 ≡ true
unfolding normalize_dependency_list
distinct-normalize_dependency_list undefined path = refl
distinct-normalize_dependency_list (array vs) path =
    ground (arith, distinct-dedupe_from [] (strings (items vs)))
distinct-normalize_dependency_list null path = refl
distinct-normalize_dependency_list (boolean b) path = refl
distinct-normalize_dependency_list (integer z) path = refl
distinct-normalize_dependency_list (fraction n) path = refl
distinct-normalize_dependency_list (string s) path = refl
distinct-normalize_dependency_list (object fs) path = refl

normalize_from-DistinctDependencies :
    (i : ℕ) (seen : List String) (tasks : List Value)
    → DistinctDependencies (normalize_from i seen tasks).normalized
unfolding normalize_from
normalize_from-DistinctDependencies i seen [] = tt
normalize_from-DistinctDependencies i seen (t ∷ ts) = elim (Option-cases (id_of t)) [
  | inl e ↦ rw (e, normalize_from) (normalize_from-DistinctDependencies (i + 1) seen ts)
  | inr (id, e) ↦
      rw (e, normalize_from)
        (
          distinct-normalize_dependency_list (prop "dependsOn" t) _,
          normalize_from-DistinctDependencies (i + 1) (id ∷ seen) ts,
        )
]

-- Where no id was seen twice, the ids are distinct, and none was seen before.
normalize_from-distinct :
    (i : ℕ) (seen : List String) (tasks : List Value)
    → (normalize_from i seen tasks).duplicates ≡ []
    → (distinct (template_ids tasks) ≡ true)
      × ((k : String) → includes seen k ≡ true → includes (template_ids tasks) k ≡ false)
unfolding normalize_from
normalize_from-distinct i seen [] h = (refl, λ k m. refl)
normalize_from-distinct i seen (t ∷ ts) h = elim (Option-cases (id_of t)) [
  | inl e ↦
      rw (e, template_ids) (normalize_from-distinct (i + 1) seen ts (rw (e, normalize_from) at h))
  | inr (id, e) ↦
      let dup : (if includes seen id
            then id ∷ (normalize_from (i + 1) (id ∷ seen) ts).duplicates
            else (normalize_from (i + 1) (id ∷ seen) ts).duplicates)
          ≡ [] =
        rw (e, normalize_from) at h in
      let rest = normalize_from-distinct (i + 1) (id ∷ seen) ts (ground arith) in
      let apart = rest.1 id (rw (str_eq_refl id)) in
      rw (e, template_ids)
        (
          ground (arith, rest.0, apart),
          λ k m. ground (arith, rest.1 k (ground arith), str_eq_iff id k),
        )
]

-- What `dag.dependenciesByTaskId[id] ?? []` finds.
abbrev pub dependencies_in : WorkflowTemplateDagDefinition → String → List String
dependencies_in dag id = get_or (map_of dag.dependencies_by_task_id id) []

dependencies_in-eq :
    (tasks : List NormalizedDagTask) (k : String)
    → map_of (map (λ t. (t.id, t.dependencies)) tasks) k ≡ dependencies_by_id tasks k
unfolding dependencies_by_id
dependencies_in-eq [] k = refl
dependencies_in-eq (t ∷ ts) k = rw (dependencies_in-eq ts k)

dedupe-eq-nil : (xs : List String) → dedupe xs ≡ [] → xs ≡ []
dedupe-eq-nil [] h = refl
dedupe-eq-nil (x ∷ xs) h = cc

non_empty-nil : (xs : List String) → non_empty xs ≡ false → xs ≡ []
non_empty-nil [] h = refl
non_empty-nil (x ∷ xs) h = cc

append_cons-ne-nil :
    (xs : List WorkflowTemplateDagIssue) (y : WorkflowTemplateDagIssue) → xs ++ y ∷ [] ≢ []
append_cons-ne-nil [] y h = cc
append_cons-ne-nil (x ∷ xs) y h = cc

-- Normalized tasks with no issue have distinct ids.
normalize_dag_tasks-distinct :
    (tasks : List Value) → (normalize_dag_tasks tasks).1 ≡ [] → distinct (template_ids tasks) ≡ true
unfolding normalize_dag_tasks
normalize_dag_tasks-distinct tasks h =
    let duplicates = (normalize_from 0 [] tasks).duplicates in
    elim (Bool-cases (non_empty (dedupe duplicates))) [
      | inl some_twice ↦ absurd (append_cons-ne-nil _ _ (rw some_twice at h))
      | inr all_once ↦
          (normalize_from-distinct 0 [] tasks
            (dedupe-eq-nil duplicates (non_empty-nil (dedupe duplicates) all_once))).0
    ]

-- Normalized tasks with no issue have the dependencies that the template declares.
normalize_dag_tasks-declared :
    (tasks : List Value)
    → (normalize_dag_tasks tasks).1 ≡ []
    → (id d : String)
    → includes (dependencies_of (normalize_dag_tasks tasks).0 id) d ≡ declares tasks id d
unfolding normalize_dag_tasks
normalize_dag_tasks-declared tasks h =
    let once = normalize_dag_tasks-distinct tasks h in
    elim (Bool-cases (non_empty (dedupe (normalize_from 0 [] tasks).duplicates))) [
      | inl some_twice ↦ absurd (append_cons-ne-nil _ _ (rw some_twice at h))
      | inr all_once ↦ includes-normalized 0 [] tasks (rw all_once at h) once
    ]

-- The definition has each task of the template exactly once in its order, behind its dependencies, which are those
-- that the template declares.
pub record IsPlan (tasks : List Value) (dag : WorkflowTemplateDagDefinition) : Type 0 where
  pub once : distinct dag.task_order ≡ true
  pub same : (k : String) → includes dag.task_order k ≡ includes (template_ids tasks) k
  pub declared : (id d : String) → includes (dependencies_in dag id) d ≡ declares tasks id d
  pub ordered : IsOrdered (dependencies_in dag) [] dag.task_order

validate-eq-nil :
    (t : Value) (ts : List Value)
    → validate_workflow_template_dag (some (t ∷ ts)) ≡ []
    → ((normalize_dag_tasks (t ∷ ts)).1 ≡ [])
      × (validate_normalized_dag_tasks (normalize_dag_tasks (t ∷ ts)).0 ≡ [])
unfolding validate_workflow_template_dag
validate-eq-nil t ts h = of_issues (normalize_dag_tasks (t ∷ ts)).1 refl
  where
    of_issues :
        (is : List WorkflowTemplateDagIssue)
        → (normalize_dag_tasks (t ∷ ts)).1 ≡ is
        → ((normalize_dag_tasks (t ∷ ts)).1 ≡ [])
          × (validate_normalized_dag_tasks (normalize_dag_tasks (t ∷ ts)).0 ≡ [])
    of_issues [] e = (e, ground (arith, e))
    of_issues (i ∷ is) e = absurd (ground (arith, e))

build-eq-ok :
    (ts : List Value) (order : List String)
    → validate_normalized_dag_tasks (normalize_dag_tasks ts).0 ≡ []
    → order_tasks (normalize_dag_tasks ts).0 ≡ some order
    → build_workflow_template_dag ts ≡ definition_of (normalize_dag_tasks ts).0 (some order)
unfolding build_workflow_template_dag
build-eq-ok ts order clean e = rw (clean, build_workflow_template_dag) (rw e)

normalized-facts :
    (ts : List Value)
    → (ids (normalize_dag_tasks ts).0 ≡ template_ids ts)
      × DistinctDependencies (normalize_dag_tasks ts).0
unfolding normalize_dag_tasks
normalized-facts ts = (ids-normalize_from 0 [] ts, normalize_from-DistinctDependencies 0 [] ts)

dependencies_of-in :
    (tasks : List NormalizedDagTask) (order : List String)
    → dependencies_of tasks
      ≡ dependencies_in (record {
        task_order = order;
        dependencies_by_task_id = map (λ t. (t.id, t.dependencies)) tasks;
      })
unfolding dependencies_of
dependencies_of-in tasks order = fun_ext (λ k. rw (dependencies_in-eq tasks k))

-- A template with at least one task and no issue is parsed into a definition with such an order.
IsPlan-of :
    (ts : List Value)
    → (normalize_dag_tasks ts).1 ≡ []
    → validate_normalized_dag_tasks (normalize_dag_tasks ts).0 ≡ []
    → (dag : WorkflowTemplateDagDefinition) × (build_workflow_template_dag ts ≡ ok dag)
      × IsPlan ts dag
IsPlan-of ts no_issues clean =
    let tasks = (normalize_dag_tasks ts).0 in
    let (named, dist) = normalized-facts ts in
    let (order, e, once, same, ordered) =
      order_tasks-IsOrdered tasks (rw named (normalize_dag_tasks-distinct ts no_issues)) dist
        clean in
    (
      record {
        task_order = order;
        dependencies_by_task_id = map (λ t. (t.id, t.dependencies)) tasks;
      },
      build-eq-ok ts order clean e,
      record {
        once = once;
        same = λ k. same k ∙ ap (λ (l : List String). includes l k) named;
        declared = λ id d.
            ap (λ deps. includes (deps id) d) (sym (dependencies_of-in tasks order))
            ∙ normalize_dag_tasks-declared ts no_issues id d;
        ordered = subst (λ deps. IsOrdered deps [] order) (dependencies_of-in tasks order) ordered;
      },
    )

parse-eq-build :
    (ts : List Value)
    → validate_workflow_template_dag (some ts) ≡ []
    → parse_workflow_template_dag (some ts) ≡ build_workflow_template_dag ts
unfolding parse_workflow_template_dag
parse-eq-build ts h = rw (h, parse_workflow_template_dag)

-- A template in which no issue is found is parsed: the definition gives each task just the dependencies that its
-- `dependsOn` lists, and its order has each task id exactly once and puts every task behind its dependencies.
-- The loops of the parser end.
pub parse-IsPlan :
    (tasks : List Value)
    → validate_workflow_template_dag (some tasks) ≡ []
    → (dag : WorkflowTemplateDagDefinition) × (parse_workflow_template_dag (some tasks) ≡ ok dag)
      × IsPlan tasks dag
unfolding validate_workflow_template_dag
parse-IsPlan [] h = cc
parse-IsPlan (t ∷ ts) h =
    let (no_issues, clean) = validate-eq-nil t ts h in
    let (dag, e, plan) = IsPlan-of (t ∷ ts) no_issues clean in
    (dag, parse-eq-build (t ∷ ts) h ∙ e, plan)

parse-eq-throw :
    (tasks : Option (List Value))
    → validate_workflow_template_dag tasks ≢ []
    → parse_workflow_template_dag tasks
      ≡ throw (config_error (validate_workflow_template_dag tasks))
unfolding parse_workflow_template_dag
parse-eq-throw tasks h = ground arith

-- A template is refused exactly where it has issues, and then with just these issues.
pub parse-throw_iff :
    (tasks : Option (List Value)) (e : BuildError)
    → (parse_workflow_template_dag tasks ≡ throw e) ↔ (
        (validate_workflow_template_dag tasks ≢ [])
        × (e ≡ config_error (validate_workflow_template_dag tasks)))
unfolding validate_workflow_template_dag
parse-throw_iff none e =
    let thrown = parse-eq-throw none (λ h. cc) in
    ((λ h. ((λ g. cc), cc)), (λ h. thrown ∙ ap throw (sym h.1)))
parse-throw_iff (some ts) e = (
  (λ h.
      let bad : validate_workflow_template_dag (some ts) ≢ [] =
        λ clean. let (dag, ran, _) = parse-IsPlan ts clean in cc in
      (bad, (let thrown = parse-eq-throw (some ts) bad in cc))),
  (λ h. parse-eq-throw (some ts) h.0 ∙ ap throw (sym h.1)),
)
