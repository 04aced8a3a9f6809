-- ===== src/Workflow/Runs/View.antt =====
-- What the writes of workflow-state-repository.ts do to one run: its record and the list of its steps.
use athena_console.Prelude.{
  ℕ, String, ◌≡◌, refl, ◌∙◌, ap, inl, inr, Bool, true, some, List, [], ◌∷◌, ◌++◌, map, arith,
  if◌then◌else◌, Bool-cases, Option-cases, str_eq, str_eq_iff, distinct, filter, find, any,
  update_where, ok,
}
use athena_console.Workflow.Runs.{
  WorkflowDagRunRecord, WorkflowDagStepRecord, WorkflowDagStepAttemptRecord,
  WorkflowDagRunEventRecord, WorkflowDagRunSnapshot, Tables, get, require, map_workflow_dag_run_row,
  map_option, list_steps, get_snapshot, require_snapshot, list_attempts, list_events,
}
use athena_console.Workflow.Runs.Repository.{
  UpdateWorkflowDagRunInput, UpdateWorkflowDagStepInput, updated_run, update_run, require_step,
  updated_step, is_step, update_step, is_attempt, insert_attempt, start_attempt,
  FinishWorkflowDagStepAttemptInput, finish_attempt, append_event,
}

abbrev pub step_ids : List WorkflowDagStepRecord → List String
step_ids steps = map (λ s. s.step_id) steps

-- The record of a run and its steps, whose ids are distinct (the primary key).
pub record View (t : Tables) (id : String) (run : WorkflowDagRunRecord)
    (steps : List WorkflowDagStepRecord) : Type 0 where
  pub found : get t id ≡ some run
  pub listed : list_steps t id ≡ steps
  pub keyed : distinct (step_ids steps) ≡ true

-- The steps with an id, rewritten.
abbrev pub at_step :
    String
    → (WorkflowDagStepRecord → WorkflowDagStepRecord)
    → WorkflowDagStepRecord
    → WorkflowDagStepRecord
at_step id f s = if str_eq s.step_id id then f s else s

abbrev of_run : String → WorkflowDagStepRecord → Bool
of_run id s = str_eq s.run_id id

filter-update_steps :
    (id step_id : String) (f : WorkflowDagStepRecord → WorkflowDagStepRecord)
    → ((s : WorkflowDagStepRecord) → (f s).run_id ≡ s.run_id)
    → (rows : List WorkflowDagStepRecord)
    → filter (of_run id) (update_where (is_step id step_id) f rows)
      ≡ map (at_step step_id f) (filter (of_run id) rows)
filter-update_steps id step_id f same [] = refl
filter-update_steps id step_id f same (s ∷ rows) =
    ground (arith, filter-update_steps id step_id f same rows, same s)

step_ids-at_step :
    (step_id : String) (f : WorkflowDagStepRecord → WorkflowDagStepRecord)
    → ((s : WorkflowDagStepRecord) → (f s).step_id ≡ s.step_id)
    → (steps : List WorkflowDagStepRecord)
    → step_ids (map (at_step step_id f) steps) ≡ step_ids steps
step_ids-at_step step_id f same [] = refl
step_ids-at_step step_id f same (s ∷ steps) =
    ground (arith, step_ids-at_step step_id f same steps, same s)

find-update_runs :
    (id : String) (f : WorkflowDagRunRecord → WorkflowDagRunRecord)
    → ((r : WorkflowDagRunRecord) → (f r).id ≡ r.id)
    → (rows : List WorkflowDagRunRecord)
    → find (λ r. str_eq r.id id) (update_where (λ r. str_eq r.id id) f rows)
      ≡ map_option f (find (λ r. str_eq r.id id) rows)
find-update_runs id f same [] = refl
find-update_runs id f same (r ∷ rows) = ground (arith, find-update_runs id f same rows, same r)

map_run_row-updated :
    (input : UpdateWorkflowDagRunInput) (now : ℕ) (row : WorkflowDagRunRecord)
    → map_workflow_dag_run_row (updated_run input now (map_workflow_dag_run_row row) row)
      ≡ updated_run input now (map_workflow_dag_run_row row) (map_workflow_dag_run_row row)
unfolding map_workflow_dag_run_row
map_run_row-updated input now row = refl

require-found :
    (t : Tables) (id : String) {run : WorkflowDagRunRecord}
    → get t id ≡ some run
    → require t id ≡ ok run
unfolding require
require-found t id e = rw (e, require)

get-update :
    (t : Tables) (id : String) (input : UpdateWorkflowDagRunInput) (now : ℕ)
    (run : WorkflowDagRunRecord)
    → get t id ≡ some run
    → map_option map_workflow_dag_run_row (
        find
          (λ r. str_eq r.id id)
          (update_where (λ r. str_eq r.id id) (updated_run input now run) t.workflow_dag_runs))
      ≡ some (updated_run input now run run)
unfolding get
get-update t id input now run e =
    elim (Option-cases (find (λ r. str_eq r.id id) t.workflow_dag_runs)) [
      | inl missing ↦ absurd (ground arith)
      | inr (row, here) ↦
          let same : map_workflow_dag_run_row row ≡ run = ground arith in
          rw (find-update_runs id (updated_run input now run) (λ r. refl) t.workflow_dag_runs, here)
            (ap some (rw (← same) (map_run_row-updated input now row)))
    ]

module _ (t : Tables) (id : String) (run : WorkflowDagRunRecord)
    (steps : List WorkflowDagStepRecord) (view : View t id run steps) where
  pub update_run-View :
      (input : UpdateWorkflowDagRunInput) (now : ℕ)
      → (t' : Tables) × (update_run t id input now ≡ ok t')
        × View t' id (updated_run input now run run) steps
  unfolding update_run get list_steps
  update_run-View input now = (
    record t {
      workflow_dag_runs =
          update_where (λ r. str_eq r.id id) (updated_run input now run) t.workflow_dag_runs;
    },
    rw (require-found t id view.found, update_run),
    record {
      found = get-update t id input now run view.found;
      listed = view.listed;
      keyed = view.keyed;
    },
  )

  pub require_step-View :
      (step_id : String) {s : WorkflowDagStepRecord}
      → find (λ u. str_eq u.step_id step_id) steps ≡ some s
      → require_step t id step_id ≡ ok s
  unfolding require_step
  require_step-View step_id e = rw (view.listed, e, require_step)

  pub update_step-View :
      (step_id : String) (input : UpdateWorkflowDagStepInput) (now : ℕ) (s : WorkflowDagStepRecord)
      → find (λ u. str_eq u.step_id step_id) steps ≡ some s
      → (t' : Tables) × (update_step t id step_id input now ≡ ok t')
        × View t' id run (map (at_step step_id (updated_step input now s)) steps)
  unfolding update_step get list_steps
  update_step-View step_id input now s e = (
    record t {
      workflow_dag_run_steps =
          update_where (is_step id step_id) (updated_step input now s) t.workflow_dag_run_steps;
    },
    rw (require_step-View step_id e, update_step),
    record {
      found = view.found;
      listed =
          filter-update_steps id step_id (updated_step input now s) (λ u. refl)
            t.workflow_dag_run_steps
          ∙ ap (map (at_step step_id (updated_step input now s))) view.listed;
      keyed = rw (step_ids-at_step step_id (updated_step input now s) (λ u. refl) steps) view.keyed;
    },
  )

-- A step of the run is a row of the table.
any-step :
    (id step_id : String) (rows : List WorkflowDagStepRecord) (s : WorkflowDagStepRecord)
    → find (λ u. str_eq u.step_id step_id) (filter (of_run id) rows) ≡ some s
    → any (is_step id step_id) rows ≡ true
any-step id step_id [] s e = cc
any-step id step_id (u ∷ rows) s e = ground (
  arith,
  λ (h : find (λ v. str_eq v.step_id step_id) (filter (of_run id) rows) ≡ some s).
      any-step id step_id rows s h,
)

any-run :
    (id : String) (rows : List WorkflowDagRunRecord) {run : WorkflowDagRunRecord}
    → map_option map_workflow_dag_run_row (find (λ r. str_eq r.id id) rows) ≡ some run
    → any (λ r. str_eq r.id id) rows ≡ true
any-run id [] e = cc
any-run id (r ∷ rows) {run} e = ground (
  arith,
  λ (h : map_option map_workflow_dag_run_row (find (λ u. str_eq u.id id) rows) ≡ some run).
      any-run id rows h,
)

module _ (t : Tables) (id : String) (run : WorkflowDagRunRecord)
    (steps : List WorkflowDagStepRecord) (view : View t id run steps) where
  insert_attempt-View :
      (row : WorkflowDagStepAttemptRecord) (s : WorkflowDagStepRecord)
      → row.run_id ≡ id
      → find (λ u. str_eq u.step_id row.step_id) steps ≡ some s
      → (t' : Tables) × (insert_attempt t row ≡ ok t') × View t' id run steps
  unfolding insert_attempt get list_steps
  insert_attempt-View row s same e =
      let present : any (is_step row.run_id row.step_id) t.workflow_dag_run_steps ≡ true =
        rw same (any-step id row.step_id t.workflow_dag_run_steps s (rw view.listed e)) in
      (
        record t {
          workflow_dag_run_step_attempts =
              if any (is_attempt row.run_id row.step_id row.attempt)
                t.workflow_dag_run_step_attempts
              then update_where (is_attempt row.run_id row.step_id row.attempt) (λ _. row)
                  t.workflow_dag_run_step_attempts
              else t.workflow_dag_run_step_attempts ++ row ∷ [];
        },
        rw present,
        record { found = view.found; listed = view.listed; keyed = view.keyed },
      )

  pub start_attempt-View :
      (step_id : String) (attempt started_at now : ℕ) (s : WorkflowDagStepRecord)
      → find (λ u. str_eq u.step_id step_id) steps ≡ some s
      → (t' : Tables) × (start_attempt t id step_id attempt started_at now ≡ ok t')
        × View t' id run steps
  unfolding start_attempt
  start_attempt-View step_id attempt started_at now s e = insert_attempt-View _ s refl e

  pub finish_attempt-View :
      (input : FinishWorkflowDagStepAttemptInput) (now : ℕ) (s : WorkflowDagStepRecord)
      → input.run_id ≡ id
      → find (λ u. str_eq u.step_id input.step_id) steps ≡ some s
      → (t' : Tables) × (finish_attempt t input now ≡ ok t') × View t' id run steps
  unfolding finish_attempt get list_steps
  finish_attempt-View input now s same e =
      elim (Bool-cases (
        any (is_attempt input.run_id input.step_id input.attempt)
          t.workflow_dag_run_step_attempts)) [
            | inl old ↦ (
              record t {
                workflow_dag_run_step_attempts =
                    update_where (is_attempt input.run_id input.step_id input.attempt)
                      (λ row. record row {
                        status = input.status;
                        finished_at = some input.finished_at;
                        failure = input.failure;
                        output = input.output;
                        updated_at = now;
                      })
                      t.workflow_dag_run_step_attempts;
              },
              rw old,
              record { found = view.found; listed = view.listed; keyed = view.keyed },
            )
            | inr new ↦ rw new (insert_attempt-View _ s same e)
          ]

  pub append_event-View :
      (event : WorkflowDagRunEventRecord)
      → event.run_id ≡ id
      → (t' : Tables) × (append_event t event ≡ ok t') × View t' id run steps
  unfolding append_event get list_steps
  append_event-View event same =
      let present : any (λ r. str_eq r.id event.run_id) t.workflow_dag_runs ≡ true =
        rw same (any-run id t.workflow_dag_runs view.found) in
      (
        record t { workflow_dag_run_events = t.workflow_dag_run_events ++ event ∷ [] },
        rw present,
        record { found = view.found; listed = view.listed; keyed = view.keyed },
      )

  pub append_event-eq :
      (event : WorkflowDagRunEventRecord)
      → event.run_id ≡ id
      → append_event t event
        ≡ ok (record t { workflow_dag_run_events = t.workflow_dag_run_events ++ event ∷ [] })
  unfolding append_event get
  append_event-eq event same =
      let present : any (λ r. str_eq r.id event.run_id) t.workflow_dag_runs ≡ true =
        rw same (any-run id t.workflow_dag_runs view.found) in
      rw present refl

  abbrev pub snapshot_of : WorkflowDagRunSnapshot
  snapshot_of = record {
    run = run;
    steps = steps;
    attempts = list_attempts t id;
    events = list_events t id;
  }

  pub require_snapshot-View : require_snapshot t id ≡ ok snapshot_of
  unfolding require_snapshot get_snapshot
  require_snapshot-View = rw (view.found, require_snapshot) (rw view.listed)

find-id :
    (id : String) (rows : List WorkflowDagRunRecord) (run : WorkflowDagRunRecord)
    → map_option map_workflow_dag_run_row (find (λ r. str_eq r.id id) rows) ≡ some run
    → run.id ≡ id
unfolding map_workflow_dag_run_row
find-id id [] run e = cc
find-id id (r ∷ rows) run e = elim (Bool-cases (str_eq r.id id)) [
  | inl here ↦ ground (arith, (str_eq_iff r.id id).0 here)
  | inr other ↦ find-id id rows run (rw other at e)
]

-- The record that is found by an id has it.
pub View-id :
    {t : Tables} {id : String} {run : WorkflowDagRunRecord} {steps : List WorkflowDagStepRecord}
    → View t id run steps
    → run.id ≡ id
unfolding get
View-id {t} {id} {run} view = find-id id t.workflow_dag_runs run view.found
