-- ===== src/Workflow/State.antt =====
-- packages/core/src/control-plane/services/workflow-state.ts: the life of a workflow run. Each method runs in
-- a transaction, so that its result is the new tables and a snapshot, or an error and nothing changed.
pub mod Readiness
pub mod Moves
pub mod Steps
pub mod Ends
pub mod Descendants
pub mod Recovery
pub mod Resumed
pub mod Failure
pub mod Resume
pub mod Launch
pub mod Created
use athena_console.Prelude.{
  ℕ, zero, suc, ◌+◌, ◌*◌, String, Bool, true, false, ◌&&◌, not, Option, none, some, List, [], ◌∷◌,
  ◌++◌, map, str_eq, ◌<>◌, is_empty, includes, filter, find, every, length, get_or, if◌then◌else◌,
  ltb, Result, ok, throw, ◌>>=◌, ◌==◌,
}
use athena_console.Json.{
  Value, Fields, null, undefined, integer, pos, string, array, object, end, field, defined,
  defined_field, texts, is_record, prop, items,
}
use athena_console.Workflow.Template.Order.{
  WorkflowTemplateDagDefinition, BuildError, parse_workflow_template_dag,
}
use athena_console.Workflow.Runs.{
  WorkflowDagRunStatus, WorkflowDagStepStatus, WorkflowDagStepAttemptStatus,
  WorkflowDagRunEventLevel, WorkflowDagRunRecord, WorkflowDagStepRecord, WorkflowDagRunEventRecord,
  WorkflowDagRunSnapshot, Tables, RunError, step_not_in_run, parse_failed, require_snapshot,
}
use athena_console.Workflow.Runs.Repository.{
  UpdateWorkflowDagRunInput, UpdateWorkflowDagStepInput, FinishWorkflowDagStepAttemptInput, Patch,
  keep, clear, at, run_update, step_update, update_run, update_step, start_attempt, finish_attempt,
  append_event,
}
use athena_console.Workflow.Runs.Create.{create}

abbrev pub Outcome : Type 0
Outcome = Result RunError (Tables × WorkflowDagRunSnapshot)

abbrev pub is_completed : WorkflowDagStepStatus → Bool
is_completed WorkflowDagStepStatus.completed = true
is_completed _ = false

abbrev pub is_pending : WorkflowDagStepStatus → Bool
is_pending WorkflowDagStepStatus.pending = true
is_pending _ = false

abbrev pub is_running : WorkflowDagStepStatus → Bool
is_running WorkflowDagStepStatus.running = true
is_running _ = false

abbrev pub is_failed : WorkflowDagStepStatus → Bool
is_failed WorkflowDagStepStatus.failed = true
is_failed _ = false

abbrev pub is_cancelled : WorkflowDagStepStatus → Bool
is_cancelled WorkflowDagStepStatus.cancelled = true
is_cancelled _ = false

abbrev pub find_step : List WorkflowDagStepRecord → String → Option WorkflowDagStepRecord
find_step steps step_id = find (λ s. str_eq s.step_id step_id) steps

unfoldable pub require_step :
    WorkflowDagRunSnapshot → String → Result RunError WorkflowDagStepRecord
require_step snapshot step_id = elim (find_step snapshot.steps step_id) [
  | none ↦ throw (step_not_in_run snapshot.run.id step_id)
  | some step ↦ ok step
]

-- `dependency?.status !== "completed"`
abbrev pub blocks : List WorkflowDagStepRecord → String → Bool
blocks steps dependency_id = elim (find_step steps dependency_id) [
  | none ↦ true
  | some dependency ↦ not (is_completed dependency.status)
]

abbrev pub blocking : List WorkflowDagStepRecord → WorkflowDagStepRecord → List String
blocking steps step = filter (blocks steps) step.dependencies

abbrev pub no_texts : List String → Bool
no_texts [] = true
no_texts (_ ∷ _) = false

-- The loop of `recomputeReadiness` over the steps of the snapshot that it has read.
unfoldable pub recompute_each :
    List WorkflowDagStepRecord
    → String
    → ℕ
    → List WorkflowDagStepRecord
    → Tables
    → Result RunError Tables
recompute_each steps run_id now [] t = ok t
recompute_each steps run_id now (step ∷ rest) t =
    update_step t run_id step.step_id
      (record step_update {
        ready = some (is_pending step.status && no_texts (blocking steps step));
        blocking_step_ids = some (blocking steps step);
      })
      now
    >>= recompute_each steps run_id now rest

unfoldable pub recompute_readiness : Tables → String → ℕ → Outcome
recompute_readiness t run_id now = do
  snapshot ← require_snapshot t run_id
  t' ← recompute_each snapshot.steps run_id now snapshot.steps t
  snapshot' ← require_snapshot t' run_id
  ok (t', snapshot')

abbrev pub started_or : Option ℕ → ℕ → ℕ
started_or none now = now
started_or (some t) now = t

-- The row of an event about a step.
abbrev pub step_event :
    String
    → String
    → ℕ
    → String
    → WorkflowDagRunEventLevel
    → String
    → Fields
    → WorkflowDagRunEventRecord
step_event run_id step_id now type level verb payload = record {
  run_id = run_id;
  step_id = some step_id;
  type = type;
  level = level;
  message = "Workflow step " <> step_id <> verb;
  payload = object payload;
  timestamp = now;
}

abbrev pub attempt_field : ℕ → Fields → Fields
attempt_field attempt rest = field "attempt" (integer (pos attempt)) rest

abbrev pub run_started : WorkflowDagRunRecord → ℕ → UpdateWorkflowDagRunInput
run_started run now = record run_update {
  status = some WorkflowDagRunStatus.running;
  started_at = at (started_or run.started_at now);
  finished_at = clear;
}

-- `failure: undefined` keeps the failure that is stored.
abbrev pub step_started : ℕ → ℕ → UpdateWorkflowDagStepInput
step_started attempt now = record step_update {
  status = some WorkflowDagStepStatus.running;
  attempt = some attempt;
  ready = some false;
  started_at = at now;
  finished_at = clear;
}

unfoldable pub start_step : Tables → String → String → ℕ → Outcome
start_step t run_id step_id now = do
  snapshot ← require_snapshot t run_id
  step ← require_step snapshot step_id
  let attempt = step.attempt + 1
  t1 ← update_run t run_id (run_started snapshot.run now) now
  t2 ← update_step t1 run_id step_id (step_started attempt now) now
  t3 ← start_attempt t2 run_id step_id attempt now now
  t4 ← append_event t3 (
      step_event run_id step_id now "workflow.step.started" WorkflowDagRunEventLevel.info
        " started." (attempt_field attempt end))
  recompute_readiness t4 run_id now

abbrev pub ends_run : WorkflowDagRunStatus → Bool
ends_run WorkflowDagRunStatus.failed = true
ends_run WorkflowDagRunStatus.resumable = true
ends_run _ = false

abbrev pub all_completed : List WorkflowDagStepRecord → Bool
all_completed steps = every (λ s. is_completed s.status) steps

abbrev pub run_completed : ℕ → UpdateWorkflowDagRunInput
run_completed now = record run_update {
  status = some WorkflowDagRunStatus.completed;
  failure = some null;
  finished_at = at now;
}

abbrev pub run_goes_on : UpdateWorkflowDagRunInput
run_goes_on = record run_update { status = some WorkflowDagRunStatus.running }

unfoldable pub finalize_run : Tables → WorkflowDagRunSnapshot → ℕ → Outcome
finalize_run t snapshot now = do
  t' ←
      (if all_completed snapshot.steps
        then update_run t snapshot.run.id (run_completed now) now
        else (if ends_run snapshot.run.status
            then ok t
            else update_run t snapshot.run.id run_goes_on now))
  snapshot' ← require_snapshot t' snapshot.run.id
  ok (t', snapshot')

abbrev pub step_completed : Value → ℕ → UpdateWorkflowDagStepInput
step_completed output now = record step_update {
  status = some WorkflowDagStepStatus.completed;
  ready = some false;
  finished_at = at now;
  output = defined output;
}

-- The end of a step's attempt.
abbrev pub attempt_end :
    String
    → String
    → ℕ
    → WorkflowDagStepAttemptStatus
    → Option Value
    → Option Value
    → ℕ
    → FinishWorkflowDagStepAttemptInput
attempt_end run_id step_id attempt status failure output now = record {
  run_id = run_id;
  step_id = step_id;
  attempt = attempt;
  status = status;
  finished_at = now;
  failure = failure;
  output = output;
}

-- `output` is the argument after its default `{}` was filled in.
unfoldable pub complete_step : Tables → String → String → Value → ℕ → Outcome
complete_step t run_id step_id output now = do
  snapshot ← require_snapshot t run_id
  step ← require_step snapshot step_id
  t1 ← update_step t run_id step_id (step_completed output now) now
  t2 ←
      finish_attempt t1
        (attempt_end run_id step_id step.attempt WorkflowDagStepAttemptStatus.completed none
          (defined output) now)
        now
  t3 ← append_event t2 (
      step_event run_id step_id now "workflow.step.completed" WorkflowDagRunEventLevel.info
        " completed." (attempt_field step.attempt end))
  (t4, snapshot') ← recompute_readiness t3 run_id now
  finalize_run t4 snapshot' now
