-- ===== src/Workflow/Template/Tables.antt =====
-- The tables that `buildWorkflowTemplateDag` (workflow-template-dag.ts) builds before its loop.
use athena_console.Prelude.{
  String, ◌≡◌, refl, sym, ap, inl, inr, Bool, true, false, ◌||◌, ◌&&◌, not, Option, none, some,
  List, [], ◌∷◌, ◌++◌, arith, if◌then◌else◌, Bool-cases, str_eq, str_eq_iff, includes, length,
  sort_by, insert_by, put, ◌==◌, Option-cases, distinct, All, get_or,
}
use mathlib.Core.List.{append_assoc, append-nil}
use athena_console.Json.{ℤ, pos}
use athena_console.Workflow.Template.{NormalizedDagTask, ids, dependencies_by_id, dependencies_of}
use athena_console.Workflow.Template.Order.{
  Dependents, add_dependent, add_dependents, dependents_of, comes_before, indegrees, is_free,
  free_ids,
}

module _ (before : String → String → Bool) where
  includes-insert_by :
      (x k : String) (ys : List String)
      → includes (insert_by before x ys) k ≡ (str_eq x k || includes ys k)
  includes-insert_by x k [] = refl
  includes-insert_by x k (y ∷ ys) = ground (arith, includes-insert_by x k ys)

  distinct-insert_by :
      (x : String) (ys : List String)
      → distinct (insert_by before x ys) ≡ (not (includes ys x) && distinct ys)
  distinct-insert_by x [] = refl
  distinct-insert_by x (y ∷ ys) =
      ground
        (arith, distinct-insert_by x ys, includes-insert_by x y ys, str_eq_iff x y, str_eq_iff y x)

  pub includes-sort_by :
      (xs : List String) (k : String) → includes (sort_by before xs) k ≡ includes xs k
  includes-sort_by [] k = refl
  includes-sort_by (x ∷ xs) k =
      rw (includes-insert_by x k (sort_by before xs), includes-sort_by xs k)

  pub distinct-sort_by : (xs : List String) → distinct (sort_by before xs) ≡ distinct xs
  distinct-sort_by [] = refl
  distinct-sort_by (x ∷ xs) =
      rw (distinct-insert_by x (sort_by before xs), includes-sort_by xs x, distinct-sort_by xs)

-- The ids of the tasks that depend on `x`.
abbrev dependers : List NormalizedDagTask → String → List String
dependers [] x = []
dependers (t ∷ ts) x = if includes t.dependencies x then t.id ∷ dependers ts x else dependers ts x

add_dependent_lem :
    (id x : String) (ds : List String) (m : Dependents)
    → distinct ds ≡ true
    → get_or (add_dependent id ds m x) []
      ≡ get_or (m x) [] ++ (if includes ds x then id ∷ [] else [])
unfolding add_dependent
add_dependent_lem id x [] m d = sym (append-nil (get_or (m x) []))
add_dependent_lem id x (y ∷ ds) m d =
    let rest = add_dependent_lem id x ds (put y (get_or (m y) [] ++ id ∷ []) m) (ground arith) in
    elim (Bool-cases (str_eq y x)) [
      | inl here ↦
          let same = (str_eq_iff y x).0 here in
          let gone : includes ds x ≡ false = rw (← same) (ground arith) in
          rw (rest, here, gone, append-nil, same)
      | inr other ↦ rw (rest, other)
    ]

abbrev pub DistinctDependencies : List NormalizedDagTask → Type 0
DistinctDependencies tasks = All (λ t. distinct t.dependencies ≡ true) tasks

add_dependents_lem :
    (x : String) (tasks : List NormalizedDagTask) (m : Dependents)
    → DistinctDependencies tasks
    → get_or (add_dependents tasks m x) [] ≡ get_or (m x) [] ++ dependers tasks x
unfolding add_dependents
add_dependents_lem x [] m d = sym (append-nil (get_or (m x) []))
add_dependents_lem x (t ∷ ts) m d =
    let rest = add_dependents_lem x ts (add_dependent t.id t.dependencies m) d.1 in
    let here = add_dependent_lem t.id x t.dependencies m d.0 in
    elim (Bool-cases (includes t.dependencies x)) [
      | inl inside ↦ rw (rest, here, inside, append_assoc)
      | inr outside ↦ rw (rest, here, outside, append-nil)
    ]

dependers-Within :
    (x k : String) (tasks : List NormalizedDagTask)
    → includes (ids tasks) k ≡ false
    → includes (dependers tasks x) k ≡ false
dependers-Within x k [] h = refl
dependers-Within x k (t ∷ ts) h = ground (arith, dependers-Within x k ts)

distinct-dependers :
    (x : String) (tasks : List NormalizedDagTask)
    → distinct (ids tasks) ≡ true
    → distinct (dependers tasks x) ≡ true
distinct-dependers x [] d = refl
distinct-dependers x (t ∷ ts) d =
    ground (arith, distinct-dependers x ts, dependers-Within x t.id ts)

-- Ids that no task has are found by no lookup.
pub unknown_id :
    (tasks : List NormalizedDagTask) (k : String)
    → includes (ids tasks) k ≡ false
    → dependencies_by_id tasks k ≡ none
unfolding dependencies_by_id
unknown_id [] k h = refl
unknown_id (t ∷ ts) k h = ground (arith, unknown_id ts k)

includes-dependers :
    (x k : String) (tasks : List NormalizedDagTask)
    → distinct (ids tasks) ≡ true
    → includes (dependers tasks x) k
      ≡ (includes (ids tasks) k && includes (dependencies_of tasks k) x)
unfolding dependencies_of dependencies_by_id
includes-dependers x k [] d = refl
includes-dependers x k (t ∷ ts) d = elim (Bool-cases (str_eq t.id k)) [
  | inl here ↦
      let same = (str_eq_iff t.id k).0 here in
      let gone : includes (ids ts) k ≡ false = rw (← same) (ground arith) in
      ground (arith, unknown_id ts k gone, dependers-Within x k ts gone)
  | inr other ↦ ground (arith, includes-dependers x k ts, Option-cases (dependencies_by_id ts k))
]

module _ (tasks : List NormalizedDagTask) (unique : distinct (ids tasks) ≡ true)
    (dist : DistinctDependencies tasks) where
  dependents_of-eq :
      (x : String) → dependents_of tasks x ≡ sort_by (comes_before tasks) (dependers tasks x)
  unfolding dependents_of
  dependents_of-eq x =
      ap (sort_by (comes_before tasks)) (add_dependents_lem x tasks (λ k. none) dist)

  -- The dependents of a task are the tasks that have it for a dependency, each once.
  pub includes-dependents_of :
      (x k : String)
      → includes (dependents_of tasks x) k
        ≡ (includes (ids tasks) k && includes (dependencies_of tasks k) x)
  includes-dependents_of x k =
      rw (dependents_of-eq x, includes-sort_by (comes_before tasks) (dependers tasks x) k)
        (includes-dependers x k tasks unique)

  pub distinct-dependents_of : (x : String) → distinct (dependents_of tasks x) ≡ true
  distinct-dependents_of x =
      rw (dependents_of-eq x, distinct-sort_by (comes_before tasks) (dependers tasks x))
        (distinct-dependers x tasks unique)

known_id :
    (tasks : List NormalizedDagTask) (k : String)
    → includes (ids tasks) k ≡ true
    → (ds : List String) × (dependencies_by_id tasks k ≡ some ds)
unfolding dependencies_by_id
known_id [] k h = cc
known_id (t ∷ ts) k h = elim (Bool-cases (includes (ids ts) k)) [
  | inl later ↦ let (ds, e) = known_id ts k later in (ds, rw e)
  | inr never ↦ (t.dependencies, ground (arith, unknown_id ts k never))
]

abbrev count_of : Option (List String) → Option ℤ
count_of none = none
count_of (some ds) = some (pos (length ds))

indegrees-eq :
    (tasks : List NormalizedDagTask) (k : String)
    → indegrees tasks k ≡ count_of (dependencies_by_id tasks k)
unfolding indegrees dependencies_by_id
indegrees-eq [] k = refl
indegrees-eq (t ∷ ts) k = elim (Option-cases (dependencies_by_id ts k)) [
  | inl e ↦ rw (indegrees-eq ts k, e) (ground arith)
  | inr (ds, e) ↦ rw (indegrees-eq ts k, e)
]

pub indegrees_lem :
    (tasks : List NormalizedDagTask) (k : String)
    → includes (ids tasks) k ≡ true
    → indegrees tasks k ≡ some (pos (length (dependencies_of tasks k)))
unfolding dependencies_of
indegrees_lem tasks k h = let (ds, e) = known_id tasks k h in rw (indegrees-eq tasks k, e)

free_ids-Within :
    (k : String) (tasks : List NormalizedDagTask)
    → includes (ids tasks) k ≡ false
    → includes (free_ids tasks) k ≡ false
free_ids-Within k [] h = refl
free_ids-Within k (t ∷ ts) h = ground (arith, free_ids-Within k ts)

pub distinct-free_ids :
    (tasks : List NormalizedDagTask)
    → distinct (ids tasks) ≡ true
    → distinct (free_ids tasks) ≡ true
distinct-free_ids [] d = refl
distinct-free_ids (t ∷ ts) d = ground (arith, distinct-free_ids ts, free_ids-Within t.id ts)

is_free-length : (t : NormalizedDagTask) → is_free t ≡ (length t.dependencies == 0)
is_free-length t = of_list (t.dependencies)
  where
    of_list : (ds : List String) → elim ds [ [] ↦ true | _ ∷ _ ↦ false ] ≡ (length ds == 0)
    of_list [] = refl
    of_list (d ∷ ds) = ground arith

pub includes-free_ids :
    (tasks : List NormalizedDagTask) (k : String)
    → distinct (ids tasks) ≡ true
    → includes (free_ids tasks) k
      ≡ (includes (ids tasks) k && (length (dependencies_of tasks k) == 0))
unfolding dependencies_of dependencies_by_id
includes-free_ids [] k d = refl
includes-free_ids (t ∷ ts) k d = elim (Bool-cases (str_eq t.id k)) [
  | inl here ↦
      let same = (str_eq_iff t.id k).0 here in
      let gone : includes (ids ts) k ≡ false = rw (← same) (ground arith) in
      ground (arith, unknown_id ts k gone, free_ids-Within k ts gone, is_free-length t)
  | inr other ↦ ground (arith, includes-free_ids ts k, Option-cases (dependencies_by_id ts k))
]
