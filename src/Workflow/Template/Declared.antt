-- ===== src/Workflow/Template/Declared.antt =====
-- workflow-template-dag.ts: the dependencies that the tasks of a template declare, read off the template, and those
-- that the normalized tasks have.
use athena_console.Prelude.{
  ℕ, ◌+◌, String, ◌≡◌, refl, ◌∙◌, ap, Bool, true, false, ◌&&◌, ◌||◌, not, none, some, List, [], ◌∷◌,
  ◌++◌, arith, inl, inr, Bool-cases, Option-cases, str_eq, str_eq_iff, includes, dedupe_from,
  distinct, every,
}
use athena_console.Json.{
  Value, undefined, null, boolean, integer, fraction, string, array, object, prop, items,
}
use athena_console.Workflow.Template.{
  IssuePath, task_depends_on, WorkflowTemplateDagIssue, NormalizedDagTask, ids, dependencies_by_id,
  dependencies_of, is_string, normalize_dependency_list, strings, id_of, normalize_from,
}
use athena_console.Workflow.Template.Tables.{unknown_id}

-- The ids of the template's tasks, where they are texts that are not empty.
abbrev pub template_ids : List Value → List String
template_ids [] = []
template_ids (t ∷ ts) = elim (id_of t) [ none ↦ template_ids ts | some id ↦ id ∷ template_ids ts ]

-- The text is one of the values.
abbrev names : List Value → String → Bool
names [] d = false
names (string s ∷ vs) d = str_eq s d || names vs d
names (_ ∷ vs) d = names vs d

abbrev lists : Value → String → Bool
lists (array vs) d = names (items vs) d
lists _ d = false

-- Some task with the first id has the second in its `dependsOn`.
abbrev pub declares : List Value → String → String → Bool
declares [] id d = false
declares (t ∷ ts) id d = elim (id_of t) [
  | none ↦ declares ts id d
  | some task_id ↦ (str_eq task_id id && lists (prop "dependsOn" t) d) || declares ts id d
]

includes-dedupe_from :
    (seen xs : List String) (k : String)
    → includes (dedupe_from seen xs) k ≡ (includes xs k && not (includes seen k))
includes-dedupe_from seen [] k = refl
includes-dedupe_from seen (x ∷ xs) k =
    ground
      (arith, includes-dedupe_from seen xs k, includes-dedupe_from (x ∷ seen) xs k, str_eq_iff x k)

includes-strings : (vs : List Value) (k : String) → includes (strings vs) k ≡ names vs k
includes-strings [] k = refl
includes-strings (string s ∷ vs) k = ap (λ b. str_eq s k || b) (includes-strings vs k)
includes-strings (undefined ∷ vs) k = includes-strings vs k
includes-strings (null ∷ vs) k = includes-strings vs k
includes-strings (boolean b ∷ vs) k = includes-strings vs k
includes-strings (integer z ∷ vs) k = includes-strings vs k
includes-strings (fraction n ∷ vs) k = includes-strings vs k
includes-strings (array ws ∷ vs) k = includes-strings vs k
includes-strings (object fs ∷ vs) k = includes-strings vs k

-- A list that is read without an issue has what the template lists.
includes-normalize_dependency_list :
    (v : Value) (path : IssuePath) (k : String)
    → (normalize_dependency_list v path).1 ≡ []
    → includes (normalize_dependency_list v path).0 k ≡ lists v k
unfolding normalize_dependency_list
includes-normalize_dependency_list undefined path k h = refl
includes-normalize_dependency_list (array vs) path k h =
    elim (Bool-cases (every is_string (items vs))) [
      | inl all_texts ↦ rw all_texts (
          includes-dedupe_from [] (strings (items vs)) k
          ∙ (rw (includes-strings (items vs) k) (ground arith)))
      | inr other ↦ absurd (let g = rw other at h in cc)
    ]
includes-normalize_dependency_list null path k h = cc
includes-normalize_dependency_list (boolean b) path k h = cc
includes-normalize_dependency_list (integer z) path k h = cc
includes-normalize_dependency_list (fraction n) path k h = cc
includes-normalize_dependency_list (string s) path k h = cc
includes-normalize_dependency_list (object fs) path k h = cc

declares-unknown :
    (ts : List Value) (id d : String)
    → includes (template_ids ts) id ≡ false
    → declares ts id d ≡ false
declares-unknown [] id d h = refl
declares-unknown (t ∷ ts) id d h = elim (Option-cases (id_of t)) [
  | inl e ↦ rw (e, declares) (declares-unknown ts id d (rw (e, template_ids) at h))
  | inr (task_id, e) ↦
      let h' : includes (task_id ∷ template_ids ts) id ≡ false = rw (e, template_ids) at h in
      rw (e, declares) (ground (arith, declares-unknown ts id d))
]

pub ids-normalize_from :
    (i : ℕ) (seen : List String) (tasks : List Value)
    → ids (normalize_from i seen tasks).normalized ≡ template_ids tasks
unfolding normalize_from
ids-normalize_from i seen [] = refl
ids-normalize_from i seen (t ∷ ts) = elim (Option-cases (id_of t)) [
  | inl e ↦ ground (arith, e, ids-normalize_from (i + 1) seen ts)
  | inr (id, e) ↦
      rw (e, normalize_from, template_ids)
        (ap (λ l. id ∷ l) (ids-normalize_from (i + 1) (id ∷ seen) ts))
]

append-eq-nil : (xs ys : List WorkflowTemplateDagIssue) → xs ++ ys ≡ [] → (xs ≡ []) × (ys ≡ [])
append-eq-nil [] ys h = (refl, h)
append-eq-nil (x ∷ xs) ys h = absurd cc

nothing_declared : (id d : String) → includes (dependencies_of [] id) d ≡ false
unfolding dependencies_of dependencies_by_id
nothing_declared id d = refl

module _ (task : NormalizedDagTask) (tasks : List NormalizedDagTask) (id : String) where
  dependencies_of-here :
      str_eq task.id id ≡ true
      → includes (ids tasks) id ≡ false
      → dependencies_of (task ∷ tasks) id ≡ task.dependencies
  unfolding dependencies_of dependencies_by_id
  dependencies_of-here here gone = rw (unknown_id tasks id gone) (rw here refl)

  dependencies_of-other :
      str_eq task.id id ≡ false → dependencies_of (task ∷ tasks) id ≡ dependencies_of tasks id
  unfolding dependencies_of dependencies_by_id
  dependencies_of-other other = elim (Option-cases (dependencies_by_id tasks id)) [
    | inl gone ↦ rw gone (rw other refl)
    | inr (ds, there) ↦ rw there refl
  ]

-- Where the tasks are read without an issue and no id stands twice, each has the dependencies that it declares.
pub includes-normalized :
    (i : ℕ) (seen : List String) (tasks : List Value)
    → (normalize_from i seen tasks).issues ≡ []
    → distinct (template_ids tasks) ≡ true
    → (id d : String)
    → includes (dependencies_of (normalize_from i seen tasks).normalized id) d ≡ declares tasks id d
unfolding normalize_from
includes-normalized i seen [] clean once id d = nothing_declared id d
includes-normalized i seen (t ∷ ts) clean once id d = elim (Option-cases (id_of t)) [
  | inl e ↦ absurd (let g = rw (e, normalize_from) at clean in cc)
  | inr (task_id, e) ↦
      let rest = (normalize_from (i + 1) (task_id ∷ seen) ts).normalized in
      let (read, others) =
        append-eq-nil (normalize_dependency_list (prop "dependsOn" t) (task_depends_on i)).1
          (normalize_from (i + 1) (task_id ∷ seen) ts).issues (rw (e, normalize_from) at clean) in
      let unique : distinct (task_id ∷ template_ids ts) ≡ true = rw (e, template_ids) at once in
      let later = includes-normalized (i + 1) (task_id ∷ seen) ts others (ground arith) id d in
      let task : NormalizedDagTask = record {
        id = task_id;
        index = i;
        dependencies = (normalize_dependency_list (prop "dependsOn" t) (task_depends_on i)).0;
      } in
      let listed =
        includes-normalize_dependency_list (prop "dependsOn" t) (task_depends_on i) d read in
      elim (Bool-cases (str_eq task_id id)) [
        | inl here ↦
            let same = (str_eq_iff task_id id).0 here in
            let gone : includes (template_ids ts) id ≡ false = rw (← same) (ground arith) in
            rw (e, normalize_from, declares)
              (rw
                (dependencies_of-here task rest id here (
                  ap (λ (l : List String). includes l id)
                    (ids-normalize_from (i + 1) (task_id ∷ seen) ts)
                  ∙ gone))
                (listed ∙ rw (here, declares-unknown ts id d gone) (ground arith)))
        | inr other ↦
            rw (e, normalize_from, declares)
              (rw (dependencies_of-other task rest id other) (later ∙ rw other refl))
      ]
]
