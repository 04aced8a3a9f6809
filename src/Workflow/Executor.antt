-- ===== src/Workflow/Executor.antt =====
-- packages/core/src/control-plane/services/workflow-dag-executor.ts: which step runs next, and whether a failed
-- one is tried again.
pub mod Decision
pub mod Failure
pub mod Guard
pub mod Loop
use athena_console.Prelude.{
  ℕ, String, Bool, true, false, ◌||◌, ◌&&◌, not, Option, none, some, List, [], ◌∷◌, str_eq, leb,
  ◌==◌, if◌then◌else◌,
}
use athena_console.Json.{ℤ, pos, negsuc, Value, integer, string, is_record, prop}
use athena_console.Workflow.Runs.{WorkflowDagRunSnapshot, WorkflowDagStepRecord}
use athena_console.Workflow.State.{find_step, is_pending}
use athena_console.Workflow.Retry.{
  RetryFailurePhase, runtime_start, execution, provider, verification, artifact_export,
  connector_rate_limit, WorkflowTaskRetryPolicy, RetryIdempotency, non_idempotent, read_only,
  idempotent, ExternalWriteRetry, allow, forbid, require_approval, is_retry_failure_phase,
  parse_workflow_task_retry_policy,
}

pub data TaskWorkbenchVerificationStatus : Type 0 where
  passed verification_failed : TaskWorkbenchVerificationStatus

pub data TaskWorkbenchRunStatus : Type 0 where
  queued validating running waiting_for_approval completed failed cancelled stopped_by_limit :
      TaskWorkbenchRunStatus

-- The fields of a `TaskWorkbenchTaskRun` that are read here.
pub record TaskRun : Type 0 where
  pub status : TaskWorkbenchRunStatus
  pub failure : Value
  pub verification_status : Option TaskWorkbenchVerificationStatus

pub data RetryReason : Type 0 where
  no_policy exhausted phase_not_retryable unsafe_non_idempotent_write eligible : RetryReason

pub record RetryDecision : Type 0 where
  pub retry : Bool
  pub reason : RetryReason
  pub phase : RetryFailurePhase
  pub attempt : ℕ
  pub max_attempts : ℤ

abbrev is_verification_failed : Option TaskWorkbenchVerificationStatus → Bool
is_verification_failed (some verification_failed) = true
is_verification_failed _ = false

abbrev is_stopped_by_limit : TaskWorkbenchRunStatus → Bool
is_stopped_by_limit stopped_by_limit = true
is_stopped_by_limit _ = false

-- `value === 429`
abbrev is_429 : Value → Bool
is_429 (integer (pos n)) = n == 429
is_429 _ = false

abbrev is_text : String → Value → Bool
is_text s (string u) = str_eq u s
is_text s _ = false

abbrev stopped_phase : TaskWorkbenchRunStatus → RetryFailurePhase
stopped_phase status = if is_stopped_by_limit status then execution else execution

abbrev other_phase : Value → TaskWorkbenchRunStatus → RetryFailurePhase
other_phase phase status =
    if is_text "start" phase
    then runtime_start
    else (if is_text "artifact" phase
        then artifact_export
        else (if is_text "provider" phase then provider else stopped_phase status))

abbrev phase_or : Option RetryFailurePhase → RetryFailurePhase → RetryFailurePhase
phase_or none other = other
phase_or (some phase) other = phase

unfoldable pub classify_retry_failure_phase : Value → TaskRun → RetryFailurePhase
classify_retry_failure_phase failure task_run =
    if is_verification_failed task_run.verification_status
    then verification
    else (if is_record failure
        then (if is_429 (prop "status" failure)
            then connector_rate_limit
            else phase_or (is_retry_failure_phase (prop "phase" failure))
                (other_phase (prop "phase" failure) task_run.status))
        else stopped_phase task_run.status)

-- `attempt >= maxAttempts`, where the attempts are counted from 0.
abbrev pub reaches : ℕ → ℤ → Bool
reaches attempt (pos n) = leb n attempt
reaches attempt (negsuc n) = true

abbrev pub same_phase : RetryFailurePhase → RetryFailurePhase → Bool
same_phase runtime_start runtime_start = true
same_phase execution execution = true
same_phase provider provider = true
same_phase verification verification = true
same_phase artifact_export artifact_export = true
same_phase connector_rate_limit connector_rate_limit = true
same_phase _ _ = false

abbrev pub includes_phase : List RetryFailurePhase → RetryFailurePhase → Bool
includes_phase [] phase = false
includes_phase (p ∷ ps) phase = same_phase p phase || includes_phase ps phase

abbrev pub unsafe_write : RetryIdempotency → ExternalWriteRetry → Bool
unsafe_write non_idempotent allow = false
unsafe_write non_idempotent _ = true
unsafe_write _ _ = false

abbrev decide : RetryFailurePhase → ℕ → WorkflowTaskRetryPolicy → RetryDecision
decide phase attempt policy =
    let decision : Bool → RetryReason → RetryDecision = λ retry reason. record {
      retry = retry;
      reason = reason;
      phase = phase;
      attempt = attempt;
      max_attempts = policy.max_attempts;
    } in
    if reaches attempt policy.max_attempts
    then decision false exhausted
    else (if includes_phase policy.retryable_failure_phases phase
        then (if unsafe_write policy.idempotency policy.external_write_retry
            then decision false unsafe_non_idempotent_write
            else decision true eligible)
        else decision false phase_not_retryable)

-- The task is given by its `provenance`, and the step by its attempt.
unfoldable pub evaluate_retry_decision : Value → ℕ → TaskRun → RetryDecision
evaluate_retry_decision provenance attempt task_run =
    let phase = classify_retry_failure_phase task_run.failure task_run in
    elim (parse_workflow_task_retry_policy provenance) [
      | none ↦ record {
        retry = false;
        reason = no_policy;
        phase = phase;
        attempt = attempt;
        max_attempts = pos 1;
      }
      | some policy ↦ decide phase attempt policy
    ]

abbrev pub is_runnable : WorkflowDagStepRecord → Bool
is_runnable step = is_pending step.status && step.ready

abbrev pub runnable_step : Option WorkflowDagStepRecord → Option WorkflowDagStepRecord
runnable_step none = none
runnable_step (some step) = if is_runnable step then some step else none

abbrev or_next :
    Option WorkflowDagStepRecord → Option WorkflowDagStepRecord → Option WorkflowDagStepRecord
or_next none next = next
or_next (some step) next = some step

-- The loop of `selectNextReadyStep` over the order of the steps.
unfoldable pub select_from : List WorkflowDagStepRecord → List String → Option WorkflowDagStepRecord
select_from steps [] = none
select_from steps (step_id ∷ step_ids) =
    or_next (runnable_step (find_step steps step_id)) (select_from steps step_ids)

unfoldable pub select_next_ready_step : WorkflowDagRunSnapshot → Option WorkflowDagStepRecord
select_next_ready_step snapshot = select_from snapshot.steps snapshot.run.step_order
