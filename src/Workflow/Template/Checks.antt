-- ===== src/Workflow/Template/Checks.antt =====
-- The checks of a normalized template (workflow-template-dag.ts, `validateNormalizedDagTasks`) against
-- what they are meant to rule out.
use athena_console.Prelude.{
  suc, String, ◌≡◌, refl, ap, ◌≢◌, ◌⊎◌, inl, inr, true, false, none, List, [], ◌∷◌, ◌++◌, ◌↔◌,
  arith, Bool-cases, str_eq, str_eq_iff, str_eq_refl, includes, missing-nil, Within, length, All,
  get_or,
}
use athena_console.Workflow.Template.{
  NormalizedDagTask, SearchState, done, found, out_of_fuel, visit, start, ids, dependencies_by_id,
  dependencies_of, find_cycle, dependency_issues, all_dependency_issues,
  validate_normalized_dag_tasks, WorkflowTemplateDagIssue,
}
use athena_console.Workflow.Template.Search.{Finished, visit_each-Sound, visit-Sound}
use athena_console.Workflow.Template.Cycle.{IsCycle, Visit-cases, visit-Total, visit_each-Total}
use athena_console.Workflow.Template.Reported.{
  visit-Genuine, visit_each-Genuine, Finished-Unfounded, IsCycle-Unfounded,
}

-- Every dependency names another task of the template.
abbrev pub IsClosed : List String → List NormalizedDagTask → Type 0
IsClosed known tasks =
    All
      (λ t.
        (d : String)
        → includes t.dependencies d ≡ true
        → (includes known d ≡ true) × (str_eq d t.id ≡ false))
      tasks

dependency_issues-eq-nil :
    (known : List String) (t : NormalizedDagTask) (ds : List String)
    → dependency_issues known t ds ≡ []
    → (d : String) → includes ds d ≡ true
    → (includes known d ≡ true) × (str_eq d t.id ≡ false)
unfolding dependency_issues
dependency_issues-eq-nil known t [] e d m = cc
dependency_issues-eq-nil known t (x ∷ ds) e d m = ground (
  arith,
  λ (h : dependency_issues known t ds ≡ []). dependency_issues-eq-nil known t ds h d,
  str_eq_iff x d,
)

dependency_issues-nil :
    (known : List String) (t : NormalizedDagTask) (ds : List String)
    → ((d : String) → includes ds d ≡ true → (includes known d ≡ true) × (str_eq d t.id ≡ false))
    → dependency_issues known t ds ≡ []
unfolding dependency_issues
dependency_issues-nil known t [] h = refl
dependency_issues-nil known t (x ∷ ds) h = ground (
  arith,
  h x (rw (str_eq_refl x)),
  dependency_issues-nil known t ds (λ d m. h d (ground (arith, m))),
)

append-eq-nil : (xs ys : List WorkflowTemplateDagIssue) → xs ++ ys ≡ [] → (xs ≡ []) × (ys ≡ [])
append-eq-nil [] ys e = (refl, e)
append-eq-nil (x ∷ xs) ys e = cc

all_dependency_issues_iff :
    (known : List String) (tasks : List NormalizedDagTask)
    → (all_dependency_issues known tasks ≡ []) ↔ IsClosed known tasks
unfolding all_dependency_issues
all_dependency_issues_iff known [] = (λ _. tt, λ _. refl)
all_dependency_issues_iff known (t ∷ ts) =
    let rest = all_dependency_issues_iff known ts in
    (
      (λ e.
          let (here, there) = append-eq-nil (dependency_issues known t t.dependencies) _ e in
          (dependency_issues-eq-nil known t t.dependencies here, rest.0 there)),
      (λ c. rw (dependency_issues-nil known t t.dependencies c.0) (rest.1 c.1)),
    )

-- The dependencies found by an id are those of a task of that id.
dependencies_by_id-Within :
    (known : List String) (tasks : List NormalizedDagTask)
    → IsClosed known tasks
    → (id : String) → Within (get_or (dependencies_by_id tasks id) []) known
unfolding dependencies_by_id
dependencies_by_id-Within known [] c id k m = cc
dependencies_by_id-Within known (t ∷ ts) c id k m =
    ground (arith, c.0 k, dependencies_by_id-Within known ts c.1 id k)

pub dependencies_of-Within :
    (tasks : List NormalizedDagTask)
    → IsClosed (ids tasks) tasks
    → (id : String) → Within (dependencies_of tasks id) (ids tasks)
unfolding dependencies_of
dependencies_of-Within tasks c id = dependencies_by_id-Within (ids tasks) tasks c id

dependencies_by_id_unknown :
    (tasks : List NormalizedDagTask) (id : String)
    → includes (ids tasks) id ≡ false
    → dependencies_by_id tasks id ≡ none
unfolding dependencies_by_id
dependencies_by_id_unknown [] id h = refl
dependencies_by_id_unknown (t ∷ ts) id h = ground (arith, dependencies_by_id_unknown ts id)

has_dependency-known :
    (tasks : List NormalizedDagTask) (id d : String)
    → includes (dependencies_of tasks id) d ≡ true
    → includes (ids tasks) id ≡ true
unfolding dependencies_of
has_dependency-known tasks id d h = elim (Bool-cases (includes (ids tasks) id)) [
  | inl known ↦ known
  | inr unknown ↦
      let e = dependencies_by_id_unknown tasks id unknown in
      let bad : includes [] d ≡ true = rw e at h in cc
]

start-OnStack : (k : String) → includes start.visiting k ≡ includes start.stack k
start-OnStack k = refl

pub length-ids : (tasks : List NormalizedDagTask) → length (ids tasks) ≡ length tasks
length-ids [] = refl
length-ids (t ∷ ts) = ap suc (length-ids ts)

-- The search of a closed template ends within its fuel.
pub find_cycle-ne-out_of_fuel :
    (tasks : List NormalizedDagTask) → IsClosed (ids tasks) tasks → find_cycle tasks ≢ out_of_fuel
unfolding find_cycle
find_cycle-ne-out_of_fuel tasks c =
    let deps = dependencies_of tasks in
    visit_each-Total deps (ids tasks) (dependencies_of-Within tasks c) (suc (length tasks))
      (visit (suc (length tasks)) deps) (visit-Sound deps (suc (length tasks)))
      (visit-Total deps (ids tasks) (dependencies_of-Within tasks c) (suc (length tasks)))
      (ids tasks) start (λ k m. m) (omega (arith, missing-nil (ids tasks), length-ids tasks))

-- A path that is reported is a cycle.
pub find_cycle-IsCycle :
    (tasks : List NormalizedDagTask) (path : List String)
    → find_cycle tasks ≡ found path
    → IsCycle (dependencies_of tasks) path
unfolding find_cycle
find_cycle-IsCycle tasks path e =
    let deps = dependencies_of tasks in
    visit_each-Genuine deps (visit (suc (length tasks)) deps)
      (visit-Sound deps (suc (length tasks))) (visit-Genuine deps (suc (length tasks))) (ids tasks)
      start path (λ d m. tt) start-OnStack e

-- Where the search ends with no report, the tasks are finished in an order of their dependencies.
pub find_cycle-Finished :
    (tasks : List NormalizedDagTask) (s : SearchState)
    → find_cycle tasks ≡ done s
    → Finished (dependencies_of tasks) s.visited × Within (ids tasks) s.visited
unfolding find_cycle
find_cycle-Finished tasks s e =
    let deps = dependencies_of tasks in
    let (g, all) =
      visit_each-Sound deps (visit (suc (length tasks)) deps)
        (visit-Sound deps (suc (length tasks))) (ids tasks) start s e in
    (g.finished tt, all)

pub Finished-no-IsCycle :
    (tasks : List NormalizedDagTask) (vs : List String)
    → Finished (dependencies_of tasks) vs × Within (ids tasks) vs
    → (path : List String) → ¬ IsCycle (dependencies_of tasks) path
Finished-no-IsCycle tasks vs (f, all) path c =
    let u = IsCycle-Unfounded (dependencies_of tasks) c in
    let top_in : includes path c.top ≡ true = rw (c.shape, str_eq_refl c.top) in
    let (d, dep, _) = u c.top top_in in
    let out =
      Finished-Unfounded (dependencies_of tasks) (includes path) u vs f c.top
        (all c.top (has_dependency-known tasks c.top d dep)) in
    ground arith

Issues-cases :
    (is : List WorkflowTemplateDagIssue)
    → (is ≡ [])
      ⊎ ((i : WorkflowTemplateDagIssue) × (r : List WorkflowTemplateDagIssue) × (is ≡ i ∷ r))
Issues-cases [] = inl refl
Issues-cases (i ∷ r) = inr (i, r, refl)

accepted :
    (tasks : List NormalizedDagTask)
    → validate_normalized_dag_tasks tasks ≡ []
    → IsClosed (ids tasks) tasks
      × ((s : SearchState) × Finished (dependencies_of tasks) s.visited
          × Within (ids tasks) s.visited)
unfolding validate_normalized_dag_tasks
accepted tasks e = elim (Issues-cases (all_dependency_issues (ids tasks) tasks)) [
  | inr (i, r, bad) ↦ absurd (ground arith)
  | inl clean ↦
      let closed = (all_dependency_issues_iff (ids tasks) tasks).0 clean in
      elim (Visit-cases (find_cycle tasks)) [
        | inl (s, ran) ↦ let f = find_cycle-Finished tasks s ran in (closed, (s, f.0, f.1))
        | inr (inl (path, stopped)) ↦ absurd (ground arith)
        | inr (inr stuck) ↦ absurd (find_cycle-ne-out_of_fuel tasks closed stuck)
      ]
]

-- A template without issues can be ordered: its tasks stand in a list in which the dependencies of
-- each element stand behind it.
pub validate-Finished :
    (tasks : List NormalizedDagTask)
    → validate_normalized_dag_tasks tasks ≡ []
    → IsClosed (ids tasks) tasks
      × ((vs : List String) × Finished (dependencies_of tasks) vs × Within (ids tasks) vs)
validate-Finished tasks e =
    let (closed, (s, f, w)) = accepted tasks e in (closed, (s.visited, f, w))

-- No issue is reported exactly for a template in which each dependency names another task of it and
-- no path along the dependencies comes back to where it starts.
pub validate_normalized_dag_tasks_iff :
    (tasks : List NormalizedDagTask)
    → (validate_normalized_dag_tasks tasks ≡ []) ↔ (
        IsClosed (ids tasks) tasks
        × ((path : List String) → ¬ IsCycle (dependencies_of tasks) path))
unfolding validate_normalized_dag_tasks
validate_normalized_dag_tasks_iff tasks = (
  (λ e.
      let (closed, (s, f, w)) = accepted tasks e in
      (closed, Finished-no-IsCycle tasks s.visited (f, w))),
  (λ (closed, acyclic).
      let clean = (all_dependency_issues_iff (ids tasks) tasks).1 closed in
      elim (Visit-cases (find_cycle tasks)) [
        | inl (s, ran) ↦ ground arith
        | inr (inl (path, stopped)) ↦ absurd (acyclic path (find_cycle-IsCycle tasks path stopped))
        | inr (inr stuck) ↦ absurd (find_cycle-ne-out_of_fuel tasks closed stuck)
      ]),
)
