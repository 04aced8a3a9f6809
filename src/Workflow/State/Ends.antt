-- ===== src/Workflow/State/Ends.antt =====
-- workflow-state.ts: what `failStep`, `cancelStep` and `recoverStaleRunningSteps` do to a run.
use athena_console.Prelude.{
  ℕ, String, ◌≡◌, refl, inl, inr, true, false, none, some, List, if◌then◌else◌, Bool-cases, ok, ltb,
}
use athena_console.Workflow.Runs.{
  WorkflowDagRunRecord, WorkflowDagStepRecord, WorkflowDagStepStatus, WorkflowDagRunSnapshot,
  Tables,
}
use athena_console.Workflow.Runs.View.{View, update_step-View, require_snapshot-View, snapshot_of}
use athena_console.Workflow.State.{find_step}
use athena_console.Json.{Value, defined, defined_field, end}
use athena_console.Workflow.Runs.{
  WorkflowDagRunStatus, WorkflowDagStepAttemptStatus, WorkflowDagRunEventLevel,
}
use athena_console.Workflow.Runs.Repository.{finish_attempt}
use athena_console.Workflow.Runs.View.{update_run-View, finish_attempt-View, append_event-View}
use athena_console.Workflow.State.{
  require_step, step_event, attempt_field, attempt_end, is_cancelled,
}
use athena_console.Workflow.State.Failure.{
  step_failure, step_ended, run_ended, fail_step, cancel_open_step, cancel_step,
}
use athena_console.Workflow.State.Moves.{Moves, status_of, attempt_of, recompute_readiness-Moves}
use athena_console.Workflow.State.Steps.{
  with_key, status_of-at_step, attempt_of-at_step, find-at_step, Moves-cast,
}

module _ (t : Tables) (id : String) (run : WorkflowDagRunRecord)
    (steps : List WorkflowDagStepRecord) (view : View t id run steps) (step_id : String)
    (s : WorkflowDagStepRecord) (e : find_step steps step_id ≡ some s) (now : ℕ) where
  -- Failing a step of a run returns: the run and the step are failed, the other steps keep their status
  -- and all steps their attempt, and the readiness of every step is up to date.
  pub fail_step-Moves :
      (failure : Value)
      → Moves id
          (fail_step t id step_id failure now)
          WorkflowDagRunStatus.failed
          (with_key step_id WorkflowDagStepStatus.failed (status_of steps))
          (with_key step_id s.attempt (attempt_of steps))
  unfolding fail_step require_step
  fail_step-Moves failure =
      let input = step_ended WorkflowDagStepStatus.failed (defined failure) now in
      let (t1, ran1, view1) = update_step-View t id run steps view step_id input now s e in
      let found = find-at_step step_id input now s steps e in
      let (t2, ran2, view2) =
        update_run-View t1 id _ _ view1
          (run_ended WorkflowDagRunStatus.failed (step_failure step_id failure) now) now in
      let (t3, ran3, view3) =
        finish_attempt-View t2 id _ _ view2
          (attempt_end id step_id s.attempt WorkflowDagStepAttemptStatus.failed (defined failure)
            none now)
          now _ refl found in
      let (t4, ran4, view4) =
        append_event-View t3 id _ _ view3
          (step_event id step_id now "workflow.step.failed" WorkflowDagRunEventLevel.error
            " failed." (attempt_field s.attempt (defined_field "failure" failure end)))
          refl in
      Moves-cast (recompute_readiness-Moves t4 id _ _ now view4)
        (rw (require_snapshot-View t id run steps view, fail_step)
          (rw (e, require_step) (rw ran1 (rw ran2 (rw ran3 (rw ran4))))))
        (status_of-at_step step_id input now s steps e)
        (attempt_of-at_step step_id input now s steps e)

  cancel_attempt-View :
      (cancellation : Value) (t2 : Tables) {run2 : WorkflowDagRunRecord}
      {steps2 : List WorkflowDagStepRecord} {s2 : WorkflowDagStepRecord}
      → View t2 id run2 steps2
      → find_step steps2 step_id ≡ some s2
      → (t3 : Tables) × ((if ltb 0 s.attempt
            then finish_attempt t2
                (attempt_end id step_id s.attempt WorkflowDagStepAttemptStatus.cancelled
                  (defined cancellation)
                  none
                  now)
                now
            else ok t2)
          ≡ ok t3)
        × View t3 id run2 steps2
  cancel_attempt-View cancellation t2 view2 found = elim (Bool-cases (ltb 0 s.attempt)) [
    | inl tried ↦ rw tried (
        finish_attempt-View t2 id _ _ view2
          (attempt_end id step_id s.attempt WorkflowDagStepAttemptStatus.cancelled
            (defined cancellation) none now)
          now _ refl found)
    | inr untried ↦ rw untried (t2, refl, view2)
  ]

  -- Cancelling a step that is not cancelled returns: the run and the step are cancelled, the other steps
  -- keep their status and all steps their attempt, and the readiness of every step is up to date.
  pub cancel_step-Moves :
      (cancellation : Value)
      → is_cancelled s.status ≡ false
      → Moves id
          (cancel_step t id step_id cancellation now)
          WorkflowDagRunStatus.cancelled
          (with_key step_id WorkflowDagStepStatus.cancelled (status_of steps))
          (with_key step_id s.attempt (attempt_of steps))
  unfolding cancel_step cancel_open_step require_step
  cancel_step-Moves cancellation open_step =
      let input = step_ended WorkflowDagStepStatus.cancelled (defined cancellation) now in
      let (t1, ran1, view1) = update_step-View t id run steps view step_id input now s e in
      let found = find-at_step step_id input now s steps e in
      let (t2, ran2, view2) =
        update_run-View t1 id _ _ view1
          (run_ended WorkflowDagRunStatus.cancelled (step_failure step_id cancellation) now) now in
      let (t3, ran3, view3) = cancel_attempt-View cancellation t2 view2 found in
      let (t4, ran4, view4) =
        append_event-View t3 id _ _ view3
          (step_event id step_id now "workflow.step.cancelled" WorkflowDagRunEventLevel.warning
            " cancelled." (attempt_field s.attempt (defined_field "cancellation" cancellation end)))
          refl in
      Moves-cast (recompute_readiness-Moves t4 id _ _ now view4)
        (rw (require_snapshot-View t id run steps view, cancel_step)
          (rw (e, require_step) (rw open_step (rw ran1 (rw ran2 (rw ran3 (rw ran4)))))))
        (status_of-at_step step_id input now s steps e)
        (attempt_of-at_step step_id input now s steps e)

  -- Cancelling a cancelled step changes nothing.
  pub cancel_step_again :
      (cancellation : Value)
      → is_cancelled s.status ≡ true
      → (snapshot : WorkflowDagRunSnapshot) × (cancel_step t id step_id cancellation now
          ≡ ok (t, snapshot))
        × (snapshot.run ≡ run)
        × (snapshot.steps ≡ steps)
  unfolding cancel_step require_step
  cancel_step_again cancellation closed = (
    snapshot_of t id run steps view,
    rw (require_snapshot-View t id run steps view, cancel_step) (rw (e, require_step) (rw closed)),
    refl,
    refl,
  )
