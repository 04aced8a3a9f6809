-- ===== src/Workflow/State/Failure.antt =====
-- workflow-state.ts: the ways in which a step ends without its output.
use athena_console.Prelude.{
  ℕ, String, false, Option, none, some, List, [], ◌∷◌, map, filter, if◌then◌else◌, ltb, Result, ok,
  ◌>>=◌,
}
use athena_console.Json.{
  Value, string, array, object, end, field, defined, defined_field, texts, Fields,
}
use athena_console.Workflow.Runs.{
  WorkflowDagRunStatus, WorkflowDagStepStatus, WorkflowDagStepAttemptStatus,
  WorkflowDagRunEventLevel, WorkflowDagStepRecord, WorkflowDagRunEventRecord, Tables, RunError,
  require_snapshot,
}
use athena_console.Workflow.Runs.Repository.{
  UpdateWorkflowDagRunInput, UpdateWorkflowDagStepInput, at, run_update, step_update, update_run,
  update_step, finish_attempt, append_event,
}
use athena_console.Workflow.State.{
  step_event, attempt_field, attempt_end, Outcome, is_running, is_cancelled, require_step,
  recompute_readiness,
}

abbrev pub step_failure : String → Value → Value
step_failure step_id detail =
    object (field "stepId" (string step_id) (defined_field "detail" detail end))

-- What the step gets when it fails or is cancelled, and what the run gets.
abbrev pub step_ended : WorkflowDagStepStatus → Option Value → ℕ → UpdateWorkflowDagStepInput
step_ended status failure now = record step_update {
  status = some status;
  ready = some false;
  finished_at = at now;
  failure = failure;
}

abbrev pub run_ended : WorkflowDagRunStatus → Value → ℕ → UpdateWorkflowDagRunInput
run_ended status failure now = record run_update {
  status = some status;
  failure = some failure;
  finished_at = at now;
}

unfoldable pub fail_step : Tables → String → String → Value → ℕ → Outcome
fail_step t run_id step_id failure now = do
  snapshot ← require_snapshot t run_id
  step ← require_step snapshot step_id
  t1 ←
      update_step t run_id step_id (step_ended WorkflowDagStepStatus.failed (defined failure) now)
        now
  t2 ←
      update_run t1 run_id
        (run_ended WorkflowDagRunStatus.failed (step_failure step_id failure) now) now
  t3 ←
      finish_attempt t2
        (attempt_end run_id step_id step.attempt WorkflowDagStepAttemptStatus.failed
          (defined failure) none now)
        now
  t4 ← append_event t3 (
      step_event run_id step_id now "workflow.step.failed" WorkflowDagRunEventLevel.error " failed."
        (attempt_field step.attempt (defined_field "failure" failure end)))
  recompute_readiness t4 run_id now

-- What `cancelStep` does to a step that is not cancelled yet.
unfoldable pub cancel_open_step :
    Tables → String → String → WorkflowDagStepRecord → Value → ℕ → Outcome
cancel_open_step t run_id step_id step cancellation now = do
  t1 ←
      update_step t run_id step_id
        (step_ended WorkflowDagStepStatus.cancelled (defined cancellation) now) now
  t2 ←
      update_run t1 run_id
        (run_ended WorkflowDagRunStatus.cancelled (step_failure step_id cancellation) now) now
  t3 ←
      (if ltb 0 step.attempt
        then finish_attempt t2
            (attempt_end run_id step_id step.attempt WorkflowDagStepAttemptStatus.cancelled
              (defined cancellation) none now)
            now
        else ok t2)
  t4 ← append_event t3 (
      step_event run_id step_id now "workflow.step.cancelled" WorkflowDagRunEventLevel.warning
        " cancelled." (attempt_field step.attempt (defined_field "cancellation" cancellation end)))
  recompute_readiness t4 run_id now

unfoldable pub cancel_step : Tables → String → String → Value → ℕ → Outcome
cancel_step t run_id step_id cancellation now = do
  snapshot ← require_snapshot t run_id
  step ← require_step snapshot step_id
  let closed = is_cancelled step.status
  if closed then ok (t, snapshot) else cancel_open_step t run_id step_id step cancellation now

abbrev pub stale_step_failure : Value
stale_step_failure = object (
    field "code" (string "STALE_RUNNING_STEP")
      (field "message" (string "Recovered stale running step after restart.") end))

-- The loop of `recoverStaleRunningSteps`.
unfoldable pub fail_stale :
    String → ℕ → List WorkflowDagStepRecord → Tables → Result RunError Tables
fail_stale run_id now [] t = ok t
fail_stale run_id now (step ∷ rest) t = do
  t1 ←
      update_step t run_id step.step_id
        (step_ended WorkflowDagStepStatus.failed (some stale_step_failure) now) now
  t2 ←
      finish_attempt t1
        (attempt_end run_id step.step_id step.attempt WorkflowDagStepAttemptStatus.failed
          (some stale_step_failure) none now)
        now
  fail_stale run_id now rest t2

abbrev pub running_steps : List WorkflowDagStepRecord → List WorkflowDagStepRecord
running_steps steps = filter (λ s. is_running s.status) steps

abbrev pub step_ids : List WorkflowDagStepRecord → List String
step_ids steps = map (λ s. s.step_id) steps

abbrev pub stale_ids : List WorkflowDagStepRecord → Fields → Fields
stale_ids running rest = field "stepIds" (array (texts (step_ids running))) rest

abbrev pub recovered_event : String → List WorkflowDagStepRecord → ℕ → WorkflowDagRunEventRecord
recovered_event run_id running now = record {
  run_id = run_id;
  step_id = none;
  type = "workflow.recovered_stale_steps";
  level = WorkflowDagRunEventLevel.warning;
  message = "Recovered stale running workflow steps after restart.";
  payload = object (stale_ids running end);
  timestamp = now;
}

unfoldable pub recover_stale : Tables → String → List WorkflowDagStepRecord → ℕ → Outcome
recover_stale t run_id running now = do
  t1 ← fail_stale run_id now running t
  t2 ←
      update_run t1 run_id
        (run_ended WorkflowDagRunStatus.resumable
          (object (field "code" (string "STALE_RUNNING_STEPS") (stale_ids running end))) now)
        now
  t3 ← append_event t2 (recovered_event run_id running now)
  recompute_readiness t3 run_id now

unfoldable pub recover_stale_running_steps : Tables → String → ℕ → Outcome
recover_stale_running_steps t run_id now = do
  snapshot ← require_snapshot t run_id
  let running = running_steps snapshot.steps
  elim running [ [] ↦ ok (t, snapshot) | step ∷ rest ↦ recover_stale t run_id (step ∷ rest) now ]
