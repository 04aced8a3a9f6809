-- ===== src/Workflow/Runs/Listing.antt =====
-- `list` and `listForTemplate` of workflow-state-repository.ts. Rows that the order does not tell apart stay in the
-- order of their row ids.
use athena_console.Prelude.{
  ℕ, ◌≤◌, ◌<◌, ◌++◌, ◌⊎◌, if◌then◌else◌, min, max, String, ◌≡◌, refl, ap, ◌∙◌, Bool, true, false,
  ◌&&◌, ◌||◌, not, inl, inr, Option, none, some, List, [], ◌∷◌, map, zero, suc, take, drop, filter,
  length, sort_by, insert_by, ltb, ◌==◌, str_eq, every, arith, Bool-cases,
}
use athena_console.Json.{ℤ, pos, negsuc}
use athena_console.Workflow.Runs.{
  WorkflowDagRunStatus, WorkflowDagRunRecord, Tables, map_workflow_dag_run_row,
}

-- `order by updated_at desc, created_at desc`
abbrev pub is_newer : WorkflowDagRunRecord → WorkflowDagRunRecord → Bool
is_newer a b =
    ltb b.updated_at a.updated_at || (a.updated_at == b.updated_at && ltb b.created_at a.created_at)

-- The limit is the number after `Math.trunc`; one that is absent or not finite is `none`.
abbrev pub clamp_workflow_dag_run_list_limit : Option ℤ → ℕ
clamp_workflow_dag_run_list_limit none = 500
clamp_workflow_dag_run_list_limit (some (pos n)) = max 1 (min n 1000)
clamp_workflow_dag_run_list_limit (some (negsuc n)) = 1

abbrev pub same_run_status : WorkflowDagRunStatus → WorkflowDagRunStatus → Bool
same_run_status WorkflowDagRunStatus.pending WorkflowDagRunStatus.pending = true
same_run_status WorkflowDagRunStatus.running WorkflowDagRunStatus.running = true
same_run_status WorkflowDagRunStatus.completed WorkflowDagRunStatus.completed = true
same_run_status WorkflowDagRunStatus.failed WorkflowDagRunStatus.failed = true
same_run_status WorkflowDagRunStatus.resumable WorkflowDagRunStatus.resumable = true
same_run_status WorkflowDagRunStatus.cancelled WorkflowDagRunStatus.cancelled = true
same_run_status _ _ = false

abbrev pub has_status : Option WorkflowDagRunStatus → WorkflowDagRunRecord → Bool
has_status none row = true
has_status (some status) row = same_run_status row.status status

unfoldable pub list : Tables → Option WorkflowDagRunStatus → Option ℤ → List WorkflowDagRunRecord
list t status limit = map map_workflow_dag_run_row (
    take (clamp_workflow_dag_run_list_limit limit)
      (sort_by is_newer (filter (has_status status) t.workflow_dag_runs)))

unfoldable pub list_for_template : Tables → String → List WorkflowDagRunRecord
list_for_template t workflow_template_id = map map_workflow_dag_run_row (
    sort_by is_newer
      (filter (λ row. str_eq row.workflow_template_id workflow_template_id) t.workflow_dag_runs))

every-filter :
    (p : WorkflowDagRunRecord → Bool) (rows : List WorkflowDagRunRecord)
    → every p (filter p rows) ≡ true
every-filter p [] = refl
every-filter p (r ∷ rows) = ground (arith, every-filter p rows)

every-insert_by :
    (p : WorkflowDagRunRecord → Bool) (r : WorkflowDagRunRecord) (rows : List WorkflowDagRunRecord)
    → p r ≡ true
    → every p rows ≡ true
    → every p (insert_by is_newer r rows) ≡ true
every-insert_by p r [] h hs = rw h refl
every-insert_by p r (u ∷ rows) h hs = elim (Bool-cases (is_newer u r)) [
  | inl newer ↦ rw newer (ground (arith, every-insert_by p r rows))
  | inr older ↦ rw older (ground arith)
]

every-sort_by :
    (p : WorkflowDagRunRecord → Bool) (rows : List WorkflowDagRunRecord)
    → every p rows ≡ true
    → every p (sort_by is_newer rows) ≡ true
every-sort_by p [] hs = refl
every-sort_by p (r ∷ rows) hs =
    every-insert_by p r (sort_by is_newer rows) (ground arith) (every-sort_by p rows (ground arith))

every-take :
    (p : WorkflowDagRunRecord → Bool) (n : ℕ) (rows : List WorkflowDagRunRecord)
    → every p rows ≡ true
    → every p (take n rows) ≡ true
every-take p zero rows hs = refl
every-take p (suc n) [] hs = refl
every-take p (suc n) (r ∷ rows) hs = ground (arith, every-take p n rows)

-- The first run is not older than any of the others, and so on behind it.
abbrev pub IsNewestFirst : List WorkflowDagRunRecord → Type 0
IsNewestFirst [] = Unit {0}
IsNewestFirst (r ∷ rows) = (every (λ u. not (is_newer u r)) rows ≡ true) × IsNewestFirst rows

every-implied :
    (p q : WorkflowDagRunRecord → Bool) (rows : List WorkflowDagRunRecord)
    → ((r : WorkflowDagRunRecord) → p r ≡ true → q r ≡ true)
    → every p rows ≡ true
    → every q rows ≡ true
every-implied p q [] h hs = refl
every-implied p q (r ∷ rows) h hs = ground (arith, h r, every-implied p q rows h)

not_newer :
    (a b c : WorkflowDagRunRecord)
    → is_newer b c ≡ false
    → not (is_newer a b) ≡ true
    → not (is_newer a c) ≡ true
not_newer a b c h g = ground arith

insert_by-IsNewestFirst :
    (r : WorkflowDagRunRecord) (rows : List WorkflowDagRunRecord)
    → IsNewestFirst rows
    → IsNewestFirst (insert_by is_newer r rows)
insert_by-IsNewestFirst r [] h = (refl, tt)
insert_by-IsNewestFirst r (u ∷ rows) (first, rest) = elim (Bool-cases (is_newer u r)) [
  | inl newer ↦ rw newer (
    every-insert_by (λ x. not (is_newer x u)) r rows (ground arith) first,
    insert_by-IsNewestFirst r rows rest,
  )
  | inr older ↦ rw older (
    rw
        (every-implied (λ x. not (is_newer x u)) (λ x. not (is_newer x r)) rows
          (λ x. not_newer x u r older) first)
        (rw older refl),
    (first, rest),
  )
]

sort_by-IsNewestFirst : (rows : List WorkflowDagRunRecord) → IsNewestFirst (sort_by is_newer rows)
sort_by-IsNewestFirst [] = tt
sort_by-IsNewestFirst (r ∷ rows) =
    insert_by-IsNewestFirst r (sort_by is_newer rows) (sort_by-IsNewestFirst rows)

-- How many rows pass a test.
abbrev pub count : (WorkflowDagRunRecord → Bool) → List WorkflowDagRunRecord → ℕ
count p [] = 0
count p (r ∷ rows) = if p r then suc (count p rows) else count p rows

append-take-drop :
    (n : ℕ) (rows : List WorkflowDagRunRecord)
    → map map_workflow_dag_run_row (take n rows) ++ map map_workflow_dag_run_row (drop n rows)
      ≡ map map_workflow_dag_run_row rows
append-take-drop zero rows = refl
append-take-drop (suc n) [] = refl
append-take-drop (suc n) (r ∷ rows) =
    ap (λ l. map_workflow_dag_run_row r ∷ l) (append-take-drop n rows)

length-take :
    (n : ℕ) (rows : List WorkflowDagRunRecord) → length (take n rows) ≡ min n (length rows)
length-take zero rows = omega arith
length-take (suc n) [] = omega arith
length-take (suc n) (r ∷ rows) = omega (arith, length-take n rows)

length-insert_by :
    (r : WorkflowDagRunRecord) (rows : List WorkflowDagRunRecord)
    → length (insert_by is_newer r rows) ≡ suc (length rows)
length-insert_by r [] = refl
length-insert_by r (u ∷ rows) = elim (Bool-cases (is_newer u r)) [
  | inl newer ↦ rw newer (ap suc (length-insert_by r rows))
  | inr older ↦ rw older refl
]

length-sort_by : (rows : List WorkflowDagRunRecord) → length (sort_by is_newer rows) ≡ length rows
length-sort_by [] = refl
length-sort_by (r ∷ rows) =
    length-insert_by r (sort_by is_newer rows) ∙ ap suc (length-sort_by rows)

length-matching :
    (p : WorkflowDagRunRecord → Bool) (rows : List WorkflowDagRunRecord)
    → length (filter p rows) ≡ count p rows
length-matching p [] = refl
length-matching p (r ∷ rows) = ground (arith, length-matching p rows)

module _ (p : WorkflowDagRunRecord → Bool) where
  count-insert_by :
      (r : WorkflowDagRunRecord) (rows : List WorkflowDagRunRecord)
      → count p (insert_by is_newer r rows) ≡ count p (r ∷ rows)
  count-insert_by r [] = refl
  count-insert_by r (u ∷ rows) = elim (Bool-cases (is_newer u r)) [
    | inl newer ↦ rw newer (ground (arith, count-insert_by r rows))
    | inr older ↦ rw older refl
  ]

  count-sort_by :
      (rows : List WorkflowDagRunRecord) → count p (sort_by is_newer rows) ≡ count p rows
  count-sort_by [] = refl
  count-sort_by (r ∷ rows) =
      count-insert_by r (sort_by is_newer rows) ∙ ground (arith, count-sort_by rows)

  count-map :
      (rows : List WorkflowDagRunRecord)
      → count p (map map_workflow_dag_run_row rows)
        ≡ count (λ r. p (map_workflow_dag_run_row r)) rows
  count-map [] = refl
  count-map (r ∷ rows) = ground (arith, count-map rows)

  count-filter :
      (q : WorkflowDagRunRecord → Bool) (rows : List WorkflowDagRunRecord)
      → count p (filter q rows) ≡ count (λ r. q r && p r) rows
  count-filter q [] = refl
  count-filter q (r ∷ rows) = ground (arith, count-filter q rows)

every_older :
    (r : WorkflowDagRunRecord) (rows : List WorkflowDagRunRecord)
    → every (λ u. not (is_newer u (map_workflow_dag_run_row r))) (map map_workflow_dag_run_row rows)
      ≡ every (λ u. not (is_newer u r)) rows
unfolding map_workflow_dag_run_row
every_older r [] = refl
every_older r (u ∷ rows) = ap (λ b. not (is_newer u r) && b) (every_older r rows)

every_status :
    (status : Option WorkflowDagRunStatus) (rows : List WorkflowDagRunRecord)
    → every (has_status status) (map map_workflow_dag_run_row rows) ≡ every (has_status status) rows
unfolding map_workflow_dag_run_row
every_status status [] = refl
every_status none (u ∷ rows) = every_status none rows
every_status (some status) (u ∷ rows) =
    ap (λ b. same_run_status u.status status && b) (every_status (some status) rows)

length-rows :
    (rows : List WorkflowDagRunRecord) → length (map map_workflow_dag_run_row rows) ≡ length rows
length-rows [] = refl
length-rows (r ∷ rows) = ap suc (length-rows rows)

map-IsNewestFirst :
    (rows : List WorkflowDagRunRecord)
    → IsNewestFirst rows
    → IsNewestFirst (map map_workflow_dag_run_row rows)
unfolding map_workflow_dag_run_row
map-IsNewestFirst [] h = tt
map-IsNewestFirst (r ∷ rows) (first, rest) =
    (every_older r rows ∙ first, map-IsNewestFirst rows rest)

-- The limit that is asked for is kept between 1 and 1000, and 500 is the one where none is.
abbrev pub IsLimit : Option ℤ → ℕ → Type 0
IsLimit none n = n ≡ 500
IsLimit (some (negsuc m)) n = n ≡ 1
IsLimit (some (pos m)) n =
    ((m ≡ 0) × (n ≡ 1)) ⊎ (((1 ≤ m) × (m ≤ 1000) × (n ≡ m)) ⊎ ((1000 < m) × (n ≡ 1000)))

clamp-IsLimit : (limit : Option ℤ) → IsLimit limit (clamp_workflow_dag_run_list_limit limit)
clamp-IsLimit none = refl
clamp-IsLimit (some (pos zero)) = inl (refl, refl)
clamp-IsLimit (some (pos (suc n))) = elim (Bool-cases (ltb 1000 (suc n))) [
  | inl above ↦ inr (inr (ground arith, ground arith))
  | inr within ↦ inr (inl (ground arith, ground arith, ground arith))
]
clamp-IsLimit (some (negsuc n)) = refl

-- The runs that are listed, with some others behind them, are just the runs of the status that is asked for, the
-- newest first; there are as many of them as the limit allows.
pub list-IsNewestFirst :
    (t : Tables) (status : Option WorkflowDagRunStatus) (limit : Option ℤ)
    → (n : ℕ) × IsLimit limit n
      × (length (list t status limit) ≡ min n (count (has_status status) t.workflow_dag_runs))
      × (every (has_status status) (list t status limit) ≡ true)
      × (others : List WorkflowDagRunRecord) × IsNewestFirst (list t status limit ++ others)
      × ((p : WorkflowDagRunRecord → Bool)
          → count p (list t status limit ++ others)
            ≡ count
                (λ r. has_status status r && p (map_workflow_dag_run_row r))
                t.workflow_dag_runs)
unfolding list
list-IsNewestFirst t status limit =
    let n = clamp_workflow_dag_run_list_limit limit in
    let rows = filter (has_status status) t.workflow_dag_runs in
    let sorted = sort_by is_newer rows in
    let whole = append-take-drop n sorted in
    (
      n,
      clamp-IsLimit limit,
      omega (
        arith,
        length-rows (take n sorted),
        length-take n sorted,
        length-sort_by rows,
        length-matching (has_status status) t.workflow_dag_runs,
      ),
      every_status status (take n sorted)
          ∙ every-take (has_status status) n sorted (
              every-sort_by (has_status status) rows
                (every-filter (has_status status) t.workflow_dag_runs)),
      map map_workflow_dag_run_row (drop n sorted),
      rw whole (map-IsNewestFirst sorted (sort_by-IsNewestFirst rows)),
      λ p.
          ap (count p) whole
          ∙ count-map p sorted
          ∙ count-sort_by (λ r. p (map_workflow_dag_run_row r)) rows
          ∙ count-filter (λ r. p (map_workflow_dag_run_row r)) (has_status status)
              t.workflow_dag_runs,
    )
