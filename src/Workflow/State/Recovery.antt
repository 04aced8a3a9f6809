-- ===== src/Workflow/State/Recovery.antt =====
-- workflow-state.ts: what `recoverStaleRunningSteps` and `resumeFromFirstFailedStep` do to a run.
use athena_console.Prelude.{
  ℕ, String, ◌≡◌, refl, ◌∙◌, inl, inr, Bool, true, ◌&&◌, none, some, List, [], ◌∷◌, arith,
  if◌then◌else◌, Bool-cases, Option-cases, str_eq, str_eq_iff, str_eq_refl, includes, ok, is_some,
}
use athena_console.Workflow.Runs.{
  WorkflowDagRunRecord, WorkflowDagStepRecord, WorkflowDagStepStatus, Tables, map_option,
}
use athena_console.Workflow.Runs.View.{View, step_ids, update_step-View}
use athena_console.Workflow.State.{find_step}
use athena_console.Workflow.Runs.{WorkflowDagStepAttemptStatus}
use athena_console.Workflow.Runs.View.{finish_attempt-View}
use athena_console.Workflow.State.{attempt_end}
use athena_console.Workflow.State.Failure.{step_ended, stale_step_failure, fail_stale}
use athena_console.Workflow.State.Resume.{step_reset, reset_each}
use athena_console.Workflow.State.Moves.{status_of, attempt_of}
use athena_console.Workflow.State.Steps.{
  with_key, status_of-at_step, attempt_of-at_step, find-at_step,
}

pub has_step :
    (steps : List WorkflowDagStepRecord) (k : String)
    → is_some (status_of steps k) ≡ true
    → (s : WorkflowDagStepRecord) × (find_step steps k ≡ some s)
has_step steps k h = elim (Option-cases (find_step steps k)) [
  | inl gone ↦ absurd (
      let bad : is_some (map_option (λ (s : WorkflowDagStepRecord). s.status) none) ≡ true =
        rw gone at h in
      cc)
  | inr (s, e) ↦ (s, e)
]

-- What a loop over steps leaves: the steps of some ids have a status, and the others keep theirs.
pub record Sets (t' : Tables) (id : String) (run : WorkflowDagRunRecord)
    (steps : List WorkflowDagStepRecord) (chosen : String → Bool) (status : WorkflowDagStepStatus)
    : Type 0 where
  pub after : List WorkflowDagStepRecord
  pub view : View t' id run after
  pub statuses :
      (k : String) → status_of after k ≡ (if chosen k then some status else status_of steps k)
  pub attempts : (k : String) → attempt_of after k ≡ attempt_of steps k

attempt_kept :
    (steps : List WorkflowDagStepRecord) (id : String) (s : WorkflowDagStepRecord)
    → find_step steps id ≡ some s
    → (k : String) → with_key id s.attempt (attempt_of steps) k ≡ attempt_of steps k
attempt_kept steps id s e k = elim (Bool-cases (str_eq id k)) [
  | inl here ↦ rw (here, ← (str_eq_iff id k).0 here) (rw e)
  | inr other ↦ rw other
]

module _ (id : String) (run : WorkflowDagRunRecord) (now : ℕ) where
  pub fail_stale-Sets :
      (rs : List WorkflowDagStepRecord) (t : Tables) (steps : List WorkflowDagStepRecord)
      → View t id run steps
      → ((k : String) → includes (step_ids rs) k ≡ true → is_some (status_of steps k) ≡ true)
      → (t' : Tables) × (fail_stale id now rs t ≡ ok t')
        × Sets t' id run steps (includes (step_ids rs)) WorkflowDagStepStatus.failed
  unfolding fail_stale
  fail_stale-Sets [] t steps view known =
      (t, refl, record { after = steps; view = view; statuses = λ k. refl; attempts = λ k. refl })
  fail_stale-Sets (r ∷ rs) t steps view known =
      let input = step_ended WorkflowDagStepStatus.failed (some stale_step_failure) now in
      let (s, e) = has_step steps r.step_id (known r.step_id (rw (str_eq_refl r.step_id))) in
      let (t1, ran1, view1) = update_step-View t id run steps view r.step_id input now s e in
      let found = find-at_step r.step_id input now s steps e in
      let (t2, ran2, view2) =
        finish_attempt-View t1 id _ _ view1
          (attempt_end id r.step_id r.attempt WorkflowDagStepAttemptStatus.failed
            (some stale_step_failure) none now)
          now _ refl found in
      let moved = status_of-at_step r.step_id input now s steps e in
      let tried = attempt_of-at_step r.step_id input now s steps e in
      let (t3, ran3, rest) =
        fail_stale-Sets rs t2 _ view2 (λ k m. rw (moved k) (ground (arith, known k))) in
      (
        t3,
        rw ran1 (rw ran2 ran3),
        record {
          after = rest.after;
          view = rest.view;
          statuses = λ k. rest.statuses k ∙ (rw (moved k) (ground arith));
          attempts = λ k. rest.attempts k ∙ tried k ∙ attempt_kept steps r.step_id s e k;
        },
      )

  pub reset_each-Sets :
      (affected : List String) (rs : List WorkflowDagStepRecord) (t : Tables)
      (steps : List WorkflowDagStepRecord)
      → View t id run steps
      → ((k : String) → includes (step_ids rs) k ≡ true → is_some (status_of steps k) ≡ true)
      → (t' : Tables) × (reset_each affected id now rs t ≡ ok t')
        × Sets t' id run steps
            (λ k. includes (step_ids rs) k && includes affected k)
            WorkflowDagStepStatus.pending
  unfolding reset_each
  reset_each-Sets affected [] t steps view known =
      (t, refl, record { after = steps; view = view; statuses = λ k. refl; attempts = λ k. refl })
  reset_each-Sets affected (r ∷ rs) t steps view known =
      elim (Bool-cases (includes affected r.step_id)) [
        | inl hit ↦
            let (s, e) = has_step steps r.step_id (known r.step_id (rw (str_eq_refl r.step_id))) in
            let (t1, ran1, view1) =
              update_step-View t id run steps view r.step_id step_reset now s e in
            let moved = status_of-at_step r.step_id step_reset now s steps e in
            let tried = attempt_of-at_step r.step_id step_reset now s steps e in
            let (t2, ran2, rest) =
              reset_each-Sets affected rs t1 _ view1
                (λ k m. rw (moved k) (ground (arith, known k))) in
            (
              t2,
              rw hit (rw ran1 ran2),
              record {
                after = rest.after;
                view = rest.view;
                statuses =
                    λ k. rest.statuses k ∙ (rw (moved k) (ground (arith, str_eq_iff r.step_id k)));
                attempts = λ k. rest.attempts k ∙ tried k ∙ attempt_kept steps r.step_id s e k;
              },
            )
        | inr miss ↦
            let (t1, ran, rest) =
              reset_each-Sets affected rs t steps view (λ k m. known k (ground arith)) in
            (
              t1,
              rw miss ran,
              record {
                after = rest.after;
                view = rest.view;
                statuses = λ k. rest.statuses k ∙ (ground (arith, str_eq_iff r.step_id k));
                attempts = rest.attempts;
              },
            )
      ]
