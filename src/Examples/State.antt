-- ===== src/Examples/State.antt =====
-- packages/core/src/control-plane/services/workflow-state.ts on a run of two steps.
use athena_console.Workflow.Runs.Listing.{
  IsNewestFirst, IsLimit, count, has_status, list, list-IsNewestFirst,
}
use athena_console.Json.{pos}
use athena_console.Prelude.{
  min, ◌&&◌, ◌++◌, length, every, All, ℕ, String, ◌≡◌, refl, ◌↔◌, Bool, true, false, none, some,
  List, [], ◌∷◌, includes, str_eq, if◌then◌else◌,
}
use athena_console.Json.{string, null}
use athena_console.Json.{object, end, field, array, item, nil}
use athena_console.Workflow.Template.{validate_workflow_template_dag, checks}
use athena_console.Workflow.Template.Order.{WorkflowTemplateDagDefinition}
use athena_console.Workflow.Template.Parse.{IsPlan}
use athena_console.Workflow.State.Launch.{CreateWorkflowStateRunRequest, create_run}
use athena_console.Workflow.State.Created.{HasDeclared, create_run-Moves}
use athena_console.Workflow.Runs.{
  map_workflow_dag_run_row, WorkflowDagRunStatus, WorkflowDagStepStatus, WorkflowDagRunRecord,
  WorkflowDagStepRecord, WorkflowDagRunSnapshot, Tables, reads,
}
use athena_console.Workflow.Runs.View.{View}
use athena_console.Workflow.State.{start_step, complete_step, recompute_readiness}
use athena_console.Workflow.State.Failure.{fail_step, cancel_step, recover_stale_running_steps}
use athena_console.Workflow.State.Resume.{
  resume_from_first_failed_step, collect_descendant_step_ids,
}
use athena_console.Workflow.State.Moves.{Moves, status_of, attempt_of, recompute_readiness-Moves}
use athena_console.Workflow.State.Steps.{with_key, start_step-Moves, complete_step-Moves}
use athena_console.Workflow.State.Ends.{fail_step-Moves, cancel_step-Moves}
use athena_console.Workflow.State.Descendants.{Descends, collect_descendant_step_ids_iff}
use athena_console.Workflow.State.Resumed.{
  recovered_status, resumed_status, recover_stale_running_steps-Moves,
  resume_from_first_failed_step-Moves,
}

abbrev pub run_of : WorkflowDagRunStatus → WorkflowDagRunRecord
run_of status = record {
  id = "run";
  workflow_template_id = "template";
  workflow_template_version = none;
  plugin_id = none;
  plugin_version = none;
  status = status;
  step_order = "fetch" ∷ "report" ∷ [];
  dependencies = ("fetch", []) ∷ ("report", "fetch" ∷ []) ∷ [];
  failure = none;
  created_at = 1;
  updated_at = 1;
  started_at = none;
  finished_at = none;
}

abbrev step_of : String → WorkflowDagStepStatus → ℕ → Bool → List String → WorkflowDagStepRecord
step_of step_id status attempt ready dependencies = record {
  run_id = "run";
  step_id = step_id;
  status = status;
  attempt = attempt;
  ready = ready;
  dependencies = dependencies;
  blocking_step_ids = dependencies;
  started_at = none;
  finished_at = none;
  failure = none;
  output = none;
  updated_at = 1;
}

abbrev report : WorkflowDagStepRecord
report = step_of "report" WorkflowDagStepStatus.pending 0 false ("fetch" ∷ [])

abbrev pub steps_with : WorkflowDagStepRecord → List WorkflowDagStepRecord
steps_with fetch = fetch ∷ report ∷ []

abbrev pub tables_with : WorkflowDagRunStatus → WorkflowDagStepRecord → Tables
tables_with status fetch = record {
  workflow_dag_runs = run_of status ∷ [];
  workflow_dag_run_steps = steps_with fetch;
  workflow_dag_run_step_attempts = [];
  workflow_dag_run_events = [];
}

abbrev fetch_at : WorkflowDagStepStatus → WorkflowDagStepRecord
fetch_at status = step_of "fetch" status 1 false []

abbrev pub run_pending : WorkflowDagRunStatus
run_pending = WorkflowDagRunStatus.pending

abbrev pub run_running : WorkflowDagRunStatus
run_running = WorkflowDagRunStatus.running

abbrev pub waiting : WorkflowDagStepRecord
waiting = fetch_at WorkflowDagStepStatus.pending

abbrev at_work : WorkflowDagStepRecord
at_work = fetch_at WorkflowDagStepStatus.running

abbrev pub broken : WorkflowDagStepRecord
broken = fetch_at WorkflowDagStepStatus.failed

abbrev dropped : WorkflowDagStepRecord
dropped = fetch_at WorkflowDagStepStatus.cancelled

pub waiting-View :
    View (tables_with run_pending waiting) "run" (run_of run_pending) (steps_with waiting)
unfolding reads str_eq
waiting-View = record { found = refl; listed = refl; keyed = refl }

at_work-View :
    View (tables_with run_running at_work) "run" (run_of run_running) (steps_with at_work)
unfolding reads str_eq
at_work-View = record { found = refl; listed = refl; keyed = refl }

pub broken-View :
    View (tables_with run_running broken) "run" (run_of run_running) (steps_with broken)
unfolding reads str_eq
broken-View = record { found = refl; listed = refl; keyed = refl }

dropped-View :
    View (tables_with run_running dropped) "run" (run_of run_running) (steps_with dropped)
unfolding reads str_eq
dropped-View = record { found = refl; listed = refl; keyed = refl }

recompute_readiness-Moves_example :
    Moves "run"
      (recompute_readiness (tables_with run_pending waiting) "run" 9)
      run_pending
      (status_of (steps_with waiting))
      (attempt_of (steps_with waiting))
recompute_readiness-Moves_example =
    recompute_readiness-Moves (tables_with run_pending waiting) "run" (run_of run_pending)
      (steps_with waiting) 9 waiting-View

start_step-Moves_example :
    Moves "run"
      (start_step (tables_with run_pending waiting) "run" "fetch" 9)
      run_running
      (with_key "fetch" WorkflowDagStepStatus.running (status_of (steps_with waiting)))
      (with_key "fetch" 2 (attempt_of (steps_with waiting)))
unfolding str_eq
start_step-Moves_example =
    start_step-Moves (tables_with run_pending waiting) "run" (run_of run_pending)
      (steps_with waiting) waiting-View "fetch" waiting refl 9

complete_step-Moves_example :
    Moves "run"
      (complete_step (tables_with run_running at_work) "run" "fetch" (string "page") 9)
      run_running
      (with_key "fetch" WorkflowDagStepStatus.completed (status_of (steps_with at_work)))
      (with_key "fetch" 1 (attempt_of (steps_with at_work)))
unfolding str_eq
complete_step-Moves_example =
    complete_step-Moves (tables_with run_running at_work) "run" (run_of run_running)
      (steps_with at_work) at_work-View "fetch" at_work refl 9 (string "page")

fail_step-Moves_example :
    Moves "run"
      (fail_step (tables_with run_running at_work) "run" "fetch" (string "offline") 9)
      WorkflowDagRunStatus.failed
      (with_key "fetch" WorkflowDagStepStatus.failed (status_of (steps_with at_work)))
      (with_key "fetch" 1 (attempt_of (steps_with at_work)))
unfolding str_eq
fail_step-Moves_example =
    fail_step-Moves (tables_with run_running at_work) "run" (run_of run_running)
      (steps_with at_work) at_work-View "fetch" at_work refl 9 (string "offline")

cancel_step-Moves_example :
    Moves "run"
      (cancel_step (tables_with run_running at_work) "run" "fetch" null 9)
      WorkflowDagRunStatus.cancelled
      (with_key "fetch" WorkflowDagStepStatus.cancelled (status_of (steps_with at_work)))
      (with_key "fetch" 1 (attempt_of (steps_with at_work)))
unfolding str_eq
cancel_step-Moves_example =
    cancel_step-Moves (tables_with run_running at_work) "run" (run_of run_running)
      (steps_with at_work) at_work-View "fetch" at_work refl 9 null refl

recover_stale_running_steps-Moves_example :
    Moves "run"
      (recover_stale_running_steps (tables_with run_running at_work) "run" 9)
      WorkflowDagRunStatus.resumable
      (λ k. recovered_status (status_of (steps_with at_work) k))
      (attempt_of (steps_with at_work))
recover_stale_running_steps-Moves_example =
    recover_stale_running_steps-Moves (tables_with run_running at_work) "run" (run_of run_running)
      (steps_with at_work) at_work-View 9 at_work [] refl

resume_from_first_failed_step-Moves_example :
    (affected : List String) × ((k : String)
      → (includes affected k ≡ true) ↔ Descends (run_of run_running).dependencies "fetch" k)
    × Moves "run"
        (resume_from_first_failed_step (tables_with run_running broken) "run" 9)
        run_pending
        (resumed_status affected (steps_with broken))
        (attempt_of (steps_with broken))
resume_from_first_failed_step-Moves_example =
    resume_from_first_failed_step-Moves (tables_with run_running broken) "run" (run_of run_running)
      (steps_with broken) broken-View 9 broken refl

abbrev snapshot : WorkflowDagRunSnapshot
snapshot = record {
  run = run_of run_pending;
  steps = steps_with waiting;
  attempts = [];
  events = [];
}

collect_descendant_step_ids_iff_example :
    (found : List String) × (collect_descendant_step_ids snapshot "fetch" ≡ some found)
    × ((k : String) → (includes found k ≡ true) ↔ Descends snapshot.run.dependencies "fetch" k)
collect_descendant_step_ids_iff_example = collect_descendant_step_ids_iff snapshot "fetch"

abbrev request : CreateWorkflowStateRunRequest
request = record {
  workflow_template_id = "template";
  workflow_template_version = none;
  plugin_id = none;
  plugin_version = none;
  tasks =
      object
        (field "id" (string "report") (field "dependsOn" (array (item (string "fetch") nil)) end))
      ∷ object (field "id" (string "fetch") end)
      ∷ [];
  run_id = "other";
}

request-clean : validate_workflow_template_dag (some request.tasks) ≡ []
unfolding checks str_eq
request-clean = refl

create_run-Moves_example :
    (dag : WorkflowTemplateDagDefinition) × IsPlan request.tasks dag
    × (m : Moves "other"
        (create_run (tables_with run_pending waiting) request 9)
        run_pending
        (λ k. if includes dag.task_order k then some WorkflowDagStepStatus.pending else none)
        (λ k. if includes dag.task_order k then some 0 else none))
    × (m.snapshot.run.step_order ≡ dag.task_order)
    × All (HasDeclared request.tasks) m.snapshot.steps
unfolding reads str_eq
create_run-Moves_example =
    create_run-Moves (tables_with run_pending waiting) request 9 request-clean refl refl

abbrev listed : List WorkflowDagRunRecord
listed = list (tables_with run_pending waiting) (some run_pending) (some (pos 5000))

abbrev run_rows : List WorkflowDagRunRecord
run_rows = (tables_with run_pending waiting).workflow_dag_runs

list-IsNewestFirst_example :
    (n : ℕ) × IsLimit (some (pos 5000)) n
    × (length listed ≡ min n (count (has_status (some run_pending)) run_rows))
    × (every (has_status (some run_pending)) listed ≡ true)
    × (others : List WorkflowDagRunRecord) × IsNewestFirst (listed ++ others)
    × ((p : WorkflowDagRunRecord → Bool)
        → count p (listed ++ others)
          ≡ count (λ r. has_status (some run_pending) r && p (map_workflow_dag_run_row r)) run_rows)
list-IsNewestFirst_example =
    list-IsNewestFirst (tables_with run_pending waiting) (some run_pending) (some (pos 5000))
