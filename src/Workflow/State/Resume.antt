-- ===== src/Workflow/State/Resume.antt =====
-- workflow-state.ts: a run is resumed from its first failed step.
use athena_console.Prelude.{
  ℕ, zero, suc, ◌*◌, String, false, Option, none, some, List, [], ◌∷◌, ◌++◌, ◌<>◌, is_empty,
  includes, find, length, if◌then◌else◌, Result, ok, ◌>>=◌,
}
use athena_console.Json.{null, object, end}
use athena_console.Workflow.Runs.{
  WorkflowDagRunStatus, WorkflowDagStepStatus, WorkflowDagRunEventLevel, WorkflowDagStepRecord,
  WorkflowDagRunEventRecord, WorkflowDagRunSnapshot, Tables, RunError, require_snapshot,
}
use athena_console.Workflow.Runs.Repository.{
  UpdateWorkflowDagRunInput, UpdateWorkflowDagStepInput, clear, run_update, step_update, update_run,
  update_step, append_event,
}
use athena_console.Workflow.State.{Outcome, is_failed, recompute_readiness}

-- `Object.entries(snapshot.run.dependencies)` whose list has the step.
abbrev pub dependents_in : List (String × List String) → String → List String
dependents_in [] step_id = []
dependents_in ((candidate, dependencies) ∷ entries) step_id =
    if includes dependencies step_id
    then candidate ∷ dependents_in entries step_id
    else dependents_in entries step_id

-- The `while` loop of `collectDescendantStepIds`, with fuel; `none` says that it ran out.
unfoldable pub collect :
    ℕ → List (String × List String) → List String → List String → Option (List String)
collect fuel entries [] visited = some visited
collect zero entries (step_id ∷ queue) visited = none
collect (suc fuel) entries (step_id ∷ queue) visited =
    let skipped = collect fuel entries queue visited in
    let entered =
      collect fuel entries (queue ++ dependents_in entries step_id) (step_id ∷ visited) in
    if is_empty step_id then skipped else (if includes visited step_id then skipped else entered)

-- Each step is entered once at most, and puts one entry of the table into the queue at most.
abbrev pub collect_fuel : List (String × List String) → ℕ
collect_fuel entries = suc (suc (length entries) * suc (length entries))

unfoldable pub collect_descendant_step_ids : WorkflowDagRunSnapshot → String → Option (List String)
collect_descendant_step_ids snapshot start_step_id =
    collect (collect_fuel snapshot.run.dependencies) snapshot.run.dependencies (start_step_id ∷ [])
      []

abbrev pub step_reset : UpdateWorkflowDagStepInput
step_reset = record step_update {
  status = some WorkflowDagStepStatus.pending;
  ready = some false;
  finished_at = clear;
  failure = some null;
}

-- The loop over the steps of the snapshot: the affected ones are reset.
unfoldable pub reset_each :
    List String → String → ℕ → List WorkflowDagStepRecord → Tables → Result RunError Tables
reset_each affected run_id now [] t = ok t
reset_each affected run_id now (step ∷ rest) t =
    (if includes affected step.step_id
      then update_step t run_id step.step_id step_reset now
      else ok t)
    >>= reset_each affected run_id now rest

abbrev pub first_failed : List WorkflowDagStepRecord → Option WorkflowDagStepRecord
first_failed steps = find (λ s. is_failed s.status) steps

abbrev pub run_reset : UpdateWorkflowDagRunInput
run_reset = record run_update {
  status = some WorkflowDagRunStatus.pending;
  failure = some null;
  finished_at = clear;
}

abbrev pub resumed_event : String → String → ℕ → WorkflowDagRunEventRecord
resumed_event run_id step_id now = record {
  run_id = run_id;
  step_id = some step_id;
  type = "workflow.resume.prepared";
  level = WorkflowDagRunEventLevel.info;
  message = "Workflow resume prepared from failed step " <> step_id <> ".";
  payload = object end;
  timestamp = now;
}

unfoldable pub resume_from :
    Tables → String → WorkflowDagRunSnapshot → WorkflowDagStepRecord → List String → ℕ → Outcome
resume_from t run_id snapshot step affected now = do
  t1 ← reset_each affected run_id now snapshot.steps t
  t2 ← update_run t1 run_id run_reset now
  t3 ← append_event t2 (resumed_event run_id step.step_id now)
  recompute_readiness t3 run_id now

abbrev pub or_no_ids : Option (List String) → List String
or_no_ids none = []
or_no_ids (some ids) = ids

unfoldable pub resume_from_first_failed_step : Tables → String → ℕ → Outcome
resume_from_first_failed_step t run_id now = do
  snapshot ← require_snapshot t run_id
  elim (first_failed snapshot.steps) [
    | none ↦ recompute_readiness t run_id now
    | some step ↦
        resume_from t run_id snapshot step
          (or_no_ids (collect_descendant_step_ids snapshot step.step_id)) now
  ]
