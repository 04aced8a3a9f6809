-- ===== src/Workflow/Retry.antt =====
-- packages/core/src/control-plane/services/workflow-retry-policy.ts: the retry policy of a task.
pub mod Backoff
use athena_console.Prelude.{
  ℕ, ◌-◌, ◌*◌, ◌^◌, min, max, String, Bool, true, false, ◌||◌, ◌&&◌, not, Option, none, some, List,
  [], ◌∷◌, str_eq, leb, find, any, if◌then◌else◌,
}
use athena_console.Json.{
  ℤ, pos, negsuc, Value, integer, string, array, is_record, prop, Items, nil, item,
}

pub data RetryFailurePhase : Type 0 where
  runtime_start execution provider verification artifact_export connector_rate_limit :
      RetryFailurePhase

pub data RetryBackoff : Type 0 where
  no_backoff fixed linear exponential : RetryBackoff

pub data RetryIdempotency : Type 0 where
  read_only idempotent non_idempotent : RetryIdempotency

pub data ExternalWriteRetry : Type 0 where
  forbid require_approval allow : ExternalWriteRetry

pub record WorkflowTaskRetryPolicy : Type 0 where
  pub max_attempts : ℤ
  pub backoff : RetryBackoff
  pub retryable_failure_phases : List RetryFailurePhase
  pub idempotency : RetryIdempotency
  pub external_write_retry : ExternalWriteRetry

-- The type guards give the value that they have recognised.
abbrev phase_named : String → Option RetryFailurePhase
phase_named s =
    if str_eq s "runtime-start"
    then some runtime_start
    else (if str_eq s "execution"
        then some execution
        else (if str_eq s "provider"
            then some provider
            else (if str_eq s "verification"
                then some verification
                else (if str_eq s "artifact-export"
                    then some artifact_export
                    else (if str_eq s "connector-rate-limit"
                        then some connector_rate_limit
                        else none)))))

unfoldable pub is_retry_failure_phase : Value → Option RetryFailurePhase
is_retry_failure_phase (string s) = phase_named s
is_retry_failure_phase _ = none

abbrev backoff_named : String → Option RetryBackoff
backoff_named s =
    if str_eq s "none"
    then some no_backoff
    else (if str_eq s "fixed"
        then some fixed
        else (if str_eq s "linear"
            then some linear
            else (if str_eq s "exponential" then some exponential else none)))

unfoldable pub is_retry_backoff : Value → Option RetryBackoff
is_retry_backoff (string s) = backoff_named s
is_retry_backoff _ = none

abbrev idempotency_named : String → Option RetryIdempotency
idempotency_named s =
    if str_eq s "read-only"
    then some read_only
    else (if str_eq s "idempotent"
        then some idempotent
        else (if str_eq s "non-idempotent" then some non_idempotent else none))

unfoldable pub is_retry_idempotency : Value → Option RetryIdempotency
is_retry_idempotency (string s) = idempotency_named s
is_retry_idempotency _ = none

abbrev external_write_named : String → Option ExternalWriteRetry
external_write_named s =
    if str_eq s "forbid"
    then some forbid
    else (if str_eq s "require-approval"
        then some require_approval
        else (if str_eq s "allow" then some allow else none))

unfoldable pub is_external_write_retry : Value → Option ExternalWriteRetry
is_external_write_retry (string s) = external_write_named s
is_external_write_retry _ = none

infixl 5 ◌>>=◌
abbrev ◌>>=◌ : {A B : Type 0} → Option A → (A → Option B) → Option B
none >>= f = none
some a >>= f = f a

abbrev integer_of : Value → Option ℤ
integer_of (integer n) = some n
integer_of _ = none

abbrev put_phase : Option RetryFailurePhase → List RetryFailurePhase → List RetryFailurePhase
put_phase none ps = ps
put_phase (some p) ps = p ∷ ps

-- `.filter(isRetryFailurePhase)`
abbrev pub phases_of : Items → List RetryFailurePhase
phases_of nil = []
phases_of (item v vs) = put_phase (is_retry_failure_phase v) (phases_of vs)

abbrev array_of : Value → Option Items
array_of (array vs) = some vs
array_of _ = none

abbrev some_phases : List RetryFailurePhase → Option (List RetryFailurePhase)
some_phases [] = none
some_phases (p ∷ ps) = some (p ∷ ps)

abbrev parse_policy : Value → Option WorkflowTaskRetryPolicy
parse_policy policy = do
  max_attempts ← integer_of (prop "maxAttempts" policy)
  backoff ← is_retry_backoff (prop "backoff" policy)
  entries ← array_of (prop "retryableFailurePhases" policy)
  idempotency ← is_retry_idempotency (prop "idempotency" policy)
  external_write_retry ← is_external_write_retry (prop "externalWriteRetry" policy)
  phases ← some_phases (phases_of entries)
  some (record {
    max_attempts = max_attempts;
    backoff = backoff;
    retryable_failure_phases = phases;
    idempotency = idempotency;
    external_write_retry = external_write_retry;
  })

-- The task is given by its `provenance`, the one field that is read.
unfoldable pub parse_workflow_task_retry_policy : Value → Option WorkflowTaskRetryPolicy
parse_workflow_task_retry_policy provenance =
    if is_record provenance && is_record (prop "retryPolicy" provenance)
    then parse_policy (prop "retryPolicy" provenance)
    else none

abbrev pub default_retry_base_delay_ms : ℕ
default_retry_base_delay_ms = 1000

abbrev pub max_retry_delay_ms : ℕ
max_retry_delay_ms = 60000

abbrev uncapped_ms : RetryBackoff → ℕ → ℕ → ℕ
uncapped_ms no_backoff n base_ms = 0
uncapped_ms fixed n base_ms = base_ms
uncapped_ms linear n base_ms = base_ms * n
uncapped_ms exponential n base_ms = base_ms * 2 ^ (n - 1)

-- The attempt is a count of the attempts so far, so that `Math.trunc` keeps it.
unfoldable pub compute_retry_backoff_ms : RetryBackoff → ℕ → ℕ → ℕ
compute_retry_backoff_ms backoff attempt base_ms =
    min (uncapped_ms backoff (max 1 attempt) base_ms) max_retry_delay_ms
