-- ===== src/Examples/Retries.antt =====
-- packages/core/src/control-plane/services/workflow-retry-policy.ts, workflow-dag-executor.ts and
-- packages/core/src/control-plane/rbac.ts at concrete inputs.
use athena_console.Prelude.{
  ◌≤◌, String, ◌≡◌, refl, ◌↔◌, ◌⊎◌, Bool, true, false, none, some, [], ◌∷◌, includes, All, arith,
  str_eq,
}
use athena_console.Json.{pos, Value, string, integer, array, item, nil, object, field, end}
use athena_console.Workflow.Runs.{
  WorkflowDagStepRecord, WorkflowDagRunSnapshot, WorkflowDagRunStatus, WorkflowDagStepStatus,
}
use athena_console.Workflow.State.{find_step}
use athena_console.Workflow.Retry.{
  exponential, WorkflowTaskRetryPolicy, parse_workflow_task_retry_policy, compute_retry_backoff_ms,
  max_retry_delay_ms,
}
use athena_console.Workflow.Retry.Backoff.{compute_retry_backoff_ms-bounds}
use athena_console.Workflow.Executor.{
  TaskRun, TaskWorkbenchRunStatus, evaluate_retry_decision, classify_retry_failure_phase,
  select_next_ready_step, runnable_step,
}
use athena_console.Workflow.Executor.Decision.{
  IsBelow, IsListed, IsRepeatable, IsFirst, evaluate_retry_decision_iff,
  select_next_ready_step-IsFirst,
}
use athena_console.Rbac.{viewer, admin, get_permissions_for_role}
use athena_console.Rbac.Permissions.{get_permissions_for_role-le}

abbrev policy_value : Value
policy_value = object (
    field "maxAttempts" (integer (pos 3)) (
      field "backoff" (string "exponential") (
        field "retryableFailurePhases" (array (item (string "provider") nil)) (
          field "idempotency" (string "idempotent")
            (field "externalWriteRetry" (string "forbid") end)))))

abbrev provenance : Value
provenance = object (field "retryPolicy" policy_value end)

abbrev refused_by_provider : TaskRun
refused_by_provider = record {
  status = TaskWorkbenchRunStatus.failed;
  failure = object (field "phase" (string "provider") end);
  verification_status = none;
}

evaluate_retry_decision_iff_example :
    ((evaluate_retry_decision provenance 1 refused_by_provider).retry ≡ true) ↔ (
      (policy : WorkflowTaskRetryPolicy) × (parse_workflow_task_retry_policy provenance
        ≡ some policy)
      × IsBelow 1 policy.max_attempts
      × IsListed
          (classify_retry_failure_phase refused_by_provider.failure refused_by_provider)
          policy.retryable_failure_phases
      × IsRepeatable policy)
evaluate_retry_decision_iff_example = evaluate_retry_decision_iff provenance 1 refused_by_provider

compute_retry_backoff_ms-bounds_example :
    (compute_retry_backoff_ms exponential 2 1000 ≤ compute_retry_backoff_ms exponential 9 1000)
    × (compute_retry_backoff_ms exponential 9 1000 ≤ max_retry_delay_ms)
compute_retry_backoff_ms-bounds_example =
    compute_retry_backoff_ms-bounds exponential 2 9 1000 (omega arith)

abbrev step_of : String → Bool → WorkflowDagStepRecord
step_of step_id ready = record {
  run_id = "run";
  step_id = step_id;
  status = WorkflowDagStepStatus.pending;
  attempt = 0;
  ready = ready;
  dependencies = [];
  blocking_step_ids = [];
  started_at = none;
  finished_at = none;
  failure = none;
  output = none;
  updated_at = 1;
}

abbrev snapshot : WorkflowDagRunSnapshot
snapshot = record {
  run = record {
    id = "run";
    workflow_template_id = "template";
    workflow_template_version = none;
    plugin_id = none;
    plugin_version = none;
    status = WorkflowDagRunStatus.pending;
    step_order = "fetch" ∷ "report" ∷ [];
    dependencies = [];
    failure = none;
    created_at = 1;
    updated_at = 1;
    started_at = none;
    finished_at = none;
  };
  steps = step_of "fetch" false ∷ step_of "report" true ∷ [];
  attempts = [];
  events = [];
}

select_next_ready_step-IsFirst_example :
    ((select_next_ready_step snapshot ≡ none)
      × All (λ k. runnable_step (find_step snapshot.steps k) ≡ none) snapshot.run.step_order)
    ⊎ ((step : WorkflowDagStepRecord) × (select_next_ready_step snapshot ≡ some step)
        × IsFirst snapshot.steps snapshot.run.step_order step)
select_next_ready_step-IsFirst_example = select_next_ready_step-IsFirst snapshot

get_permissions_for_role-le_example : includes (get_permissions_for_role admin) "events.list" ≡ true
unfolding get_permissions_for_role str_eq
get_permissions_for_role-le_example =
    get_permissions_for_role-le viewer admin (omega arith) "events.list" refl
