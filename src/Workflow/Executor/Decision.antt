-- ===== src/Workflow/Executor/Decision.antt =====
-- workflow-dag-executor.ts: when a failed step is tried again, and which step is chosen to run.
use athena_console.Prelude.{
  ℕ, String, ◌≡◌, refl, true, false, Option, none, some, List, [], ◌∷◌, arith, Bool-cases,
  Option-cases, ◌↔◌, ◌⊎◌, ◌<◌, ◌≢◌, inl, inr, ◌++◌, ap, subst, All,
}
use athena_console.Json.{ℤ, pos, negsuc, Value}
use athena_console.Workflow.Runs.{WorkflowDagRunSnapshot, WorkflowDagStepRecord}
use athena_console.Workflow.State.{find_step}
use athena_console.Workflow.Retry.{
  RetryFailurePhase, runtime_start, execution, provider, verification, artifact_export,
  connector_rate_limit, RetryIdempotency, non_idempotent, read_only, idempotent, ExternalWriteRetry,
  allow, forbid, require_approval, WorkflowTaskRetryPolicy, parse_workflow_task_retry_policy,
}
use athena_console.Workflow.Executor.{
  TaskRun, classify_retry_failure_phase, reaches, same_phase, includes_phase, unsafe_write,
  evaluate_retry_decision, is_runnable, runnable_step, select_from, select_next_ready_step,
}

-- An attempt below a limit.
abbrev pub IsBelow : ℕ → ℤ → Type 0
IsBelow attempt (pos n) = attempt < n
IsBelow attempt (negsuc n) = ⊥

abbrev pub IsListed : RetryFailurePhase → List RetryFailurePhase → Type 0
IsListed phase [] = ⊥
IsListed phase (p ∷ ps) = (p ≡ phase) ⊎ IsListed phase ps

-- The task can be repeated, or the policy allows its external writes to be.
abbrev pub IsRepeatable : WorkflowTaskRetryPolicy → Type 0
IsRepeatable policy = (policy.idempotency ≢ non_idempotent) ⊎ (policy.external_write_retry ≡ allow)

reaches_iff : (attempt : ℕ) (n : ℤ) → (reaches attempt n ≡ false) ↔ IsBelow attempt n
reaches_iff attempt (pos n) = ((λ h. ground arith), (λ h. ground arith))
reaches_iff attempt (negsuc n) = ((λ h. cc), (λ h. absurd h))

same_phase_refl : (p : RetryFailurePhase) → same_phase p p ≡ true
same_phase_refl runtime_start = refl
same_phase_refl execution = refl
same_phase_refl provider = refl
same_phase_refl verification = refl
same_phase_refl artifact_export = refl
same_phase_refl connector_rate_limit = refl

same_phase-eq : (p q : RetryFailurePhase) → same_phase p q ≡ true → p ≡ q
same_phase-eq runtime_start runtime_start h = refl
same_phase-eq execution execution h = refl
same_phase-eq provider provider h = refl
same_phase-eq verification verification h = refl
same_phase-eq artifact_export artifact_export h = refl
same_phase-eq connector_rate_limit connector_rate_limit h = refl
same_phase-eq _ _ h = cc

includes_phase_iff :
    (phase : RetryFailurePhase) (ps : List RetryFailurePhase)
    → (includes_phase ps phase ≡ true) ↔ IsListed phase ps
includes_phase_iff phase [] = ((λ h. cc), (λ h. absurd h))
includes_phase_iff phase (p ∷ ps) = (
  (λ h. elim (Bool-cases (same_phase p phase)) [
    | inl here ↦ inl (same_phase-eq p phase here)
    | inr other ↦ inr ((includes_phase_iff phase ps).0 (ground arith))
  ]),
  (λ h. elim h [
    | inl same ↦
        let here : same_phase p phase ≡ true = rw same (same_phase_refl phase) in rw here refl
    | inr later ↦ let there = (includes_phase_iff phase ps).1 later in ground arith
  ]),
)

unsafe_write_iff :
    (idempotency : RetryIdempotency) (write : ExternalWriteRetry)
    → (unsafe_write idempotency write ≡ false) ↔ ((idempotency ≢ non_idempotent) ⊎ (write ≡ allow))
unsafe_write_iff non_idempotent allow = ((λ h. inr refl), (λ h. refl))
unsafe_write_iff non_idempotent forbid =
    ((λ h. absurd cc), (λ h. elim h [ inl n ↦ absurd (n refl) | inr e ↦ absurd cc ]))
unsafe_write_iff non_idempotent require_approval =
    ((λ h. absurd cc), (λ h. elim h [ inl n ↦ absurd (n refl) | inr e ↦ absurd cc ]))
unsafe_write_iff read_only write = ((λ h. inl (λ e. cc)), (λ h. refl))
unsafe_write_iff idempotent write = ((λ h. inl (λ e. cc)), (λ h. refl))

-- A failed step is tried again exactly when its task has a policy whose limit is above the step's attempt, which
-- lists the phase of the failure, and whose task can be repeated or whose external writes are allowed to be.
pub evaluate_retry_decision_iff :
    (provenance : Value) (attempt : ℕ) (task_run : TaskRun)
    → ((evaluate_retry_decision provenance attempt task_run).retry ≡ true) ↔ (
        (policy : WorkflowTaskRetryPolicy) × (parse_workflow_task_retry_policy provenance
          ≡ some policy)
        × IsBelow attempt policy.max_attempts
        × IsListed
            (classify_retry_failure_phase task_run.failure task_run)
            policy.retryable_failure_phases
        × IsRepeatable policy)
unfolding evaluate_retry_decision
evaluate_retry_decision_iff provenance attempt task_run =
    let phase = classify_retry_failure_phase task_run.failure task_run in
    elim (Option-cases (parse_workflow_task_retry_policy provenance)) [
      | inl gone ↦ rw gone ((λ h. cc), (λ h. cc))
      | inr (policy, e) ↦
          let fresh_iff = reaches_iff attempt policy.max_attempts in
          let listed_iff = includes_phase_iff phase policy.retryable_failure_phases in
          let safe_iff = unsafe_write_iff policy.idempotency policy.external_write_retry in
          rw e (
            (λ h. (
              policy,
              refl,
              fresh_iff.0 (ground arith),
              listed_iff.0 (ground arith),
              safe_iff.0 (ground arith),
            )),
            (λ (p, same, fresh, listed, safe).
                let own : p ≡ policy = cc in
                let below = fresh_iff.1 (rw own at fresh) in
                let there = listed_iff.1 (rw own at listed) in
                let repeats = safe_iff.1 (rw own at safe) in
                ground (arith, e, below, there, repeats)),
          )
    ]

-- The chosen step stands in the order, is pending and ready, and no step before it in the order is.
pub record IsFirst (steps : List WorkflowDagStepRecord) (order : List String)
    (step : WorkflowDagStepRecord) : Type 0 where
  pub before : List String
  pub step_id : String
  pub after : List String
  pub split : order ≡ before ++ step_id ∷ after
  pub found : find_step steps step_id ≡ some step
  pub runnable : is_runnable step ≡ true
  pub first : All (λ k. runnable_step (find_step steps k) ≡ none) before

pub runnable_step-some :
    (found : Option WorkflowDagStepRecord) {step : WorkflowDagStepRecord}
    → runnable_step found ≡ some step
    → (found ≡ some step) × (is_runnable step ≡ true)
runnable_step-some none e = cc
runnable_step-some (some s) {step} e = elim (Bool-cases (is_runnable s)) [
  | inl runs ↦
      let same : s ≡ step = ground arith in
      (ap some same, subst (λ u. is_runnable u ≡ true) same runs)
  | inr blocked ↦ absurd (ground arith)
]

select_from-IsFirst :
    (steps : List WorkflowDagStepRecord) (order : List String)
    → ((select_from steps order ≡ none) × All (λ k. runnable_step (find_step steps k) ≡ none) order)
      ⊎ ((step : WorkflowDagStepRecord) × (select_from steps order ≡ some step)
          × IsFirst steps order step)
unfolding select_from
select_from-IsFirst steps [] = inl (refl, tt)
select_from-IsFirst steps (k ∷ order) = elim (Option-cases (runnable_step (find_step steps k))) [
  | inr (step, e) ↦
      let (found, runs) = runnable_step-some (find_step steps k) e in
      inr (
        step,
        rw e,
        record {
          before = [];
          step_id = k;
          after = order;
          split = refl;
          found = found;
          runnable = runs;
          first = tt;
        },
      )
  | inl e ↦ elim (select_from-IsFirst steps order) [
    | inl (nothing, all) ↦ inl (rw e nothing, (e, all))
    | inr (step, chosen, is_first) ↦ inr (
      step,
      rw e chosen,
      record {
        before = k ∷ is_first.before;
        step_id = is_first.step_id;
        after = is_first.after;
        split = ap (λ l. k ∷ l) is_first.split;
        found = is_first.found;
        runnable = is_first.runnable;
        first = (e, is_first.first);
      },
    )
  ]
]

-- Either no step of the order is pending and ready, and none is chosen, or the one chosen is the first in the
-- order that is.
pub select_next_ready_step-IsFirst :
    (snapshot : WorkflowDagRunSnapshot)
    → ((select_next_ready_step snapshot ≡ none)
        × All (λ k. runnable_step (find_step snapshot.steps k) ≡ none) snapshot.run.step_order)
      ⊎ ((step : WorkflowDagStepRecord) × (select_next_ready_step snapshot ≡ some step)
          × IsFirst snapshot.steps snapshot.run.step_order step)
unfolding select_next_ready_step
select_next_ready_step-IsFirst snapshot = select_from-IsFirst snapshot.steps snapshot.run.step_order
