-- ===== src/Workflow/State/Resumed.antt =====
-- workflow-state.ts: the runs that `recoverStaleRunningSteps` and `resumeFromFirstFailedStep` return.
use athena_console.Prelude.{
  ℕ, String, ◌≡◌, refl, sym, ◌∙◌, Bool, true, false, ◌&&◌, Option, none, some, List, [], ◌∷◌, arith,
  if◌then◌else◌, str_eq_iff, includes, distinct, filter, ◌↔◌, is_some,
}
use athena_console.Workflow.Runs.{
  WorkflowDagRunRecord, WorkflowDagStepRecord, WorkflowDagStepStatus, Tables,
}
use athena_console.Workflow.Runs.View.{View, step_ids, require_snapshot-View, snapshot_of}
use athena_console.Json.{object, field, string, end}
use athena_console.Workflow.Runs.{WorkflowDagRunStatus}
use athena_console.Workflow.Runs.View.{update_run-View, append_event-View}
use athena_console.Workflow.State.{is_running}
use athena_console.Workflow.State.Failure.{
  run_ended, running_steps, stale_ids, recovered_event, recover_stale, recover_stale_running_steps,
}
use athena_console.Workflow.State.Resume.{
  run_reset, resumed_event, resume_from, first_failed, resume_from_first_failed_step,
}
use athena_console.Workflow.State.Descendants.{Descends, collect_descendant_step_ids_iff}
use athena_console.Workflow.State.Moves.{Moves, status_of, attempt_of, recompute_readiness-Moves}
use athena_console.Workflow.State.Recovery.{fail_stale-Sets, reset_each-Sets}
use athena_console.Workflow.State.Steps.{Moves-cast}

includes-filtered :
    (p : WorkflowDagStepRecord → Bool) (steps : List WorkflowDagStepRecord) (k : String)
    → includes (step_ids (filter p steps)) k ≡ true
    → includes (step_ids steps) k ≡ true
includes-filtered p [] k m = m
includes-filtered p (s ∷ steps) k m = ground (arith, includes-filtered p steps k)

known_status :
    (steps : List WorkflowDagStepRecord) (k : String)
    → includes (step_ids steps) k ≡ true
    → is_some (status_of steps k) ≡ true
known_status [] k m = cc
known_status (s ∷ steps) k m = ground (arith, known_status steps k)

listed_step :
    (steps : List WorkflowDagStepRecord) (k : String)
    → includes (step_ids steps) k ≡ is_some (status_of steps k)
listed_step [] k = refl
listed_step (s ∷ steps) k = ground (arith, listed_step steps k)

abbrev is_running_now : Option WorkflowDagStepStatus → Bool
is_running_now none = false
is_running_now (some status) = is_running status

running_ids :
    (steps : List WorkflowDagStepRecord) (k : String)
    → distinct (step_ids steps) ≡ true
    → includes (step_ids (running_steps steps)) k ≡ is_running_now (status_of steps k)
running_ids [] k keyed = refl
running_ids (s ∷ steps) k keyed = ground (
  arith,
  running_ids steps k,
  includes-filtered (λ u. is_running u.status) steps k,
  str_eq_iff s.step_id k,
)

-- A running step is marked as failed, and the other steps keep their status.
abbrev pub recovered_status : Option WorkflowDagStepStatus → Option WorkflowDagStepStatus
recovered_status none = none
recovered_status (some status) =
    if is_running status then some WorkflowDagStepStatus.failed else some status

-- The steps that descend from the failed one are pending again, and the others keep their status.
abbrev pub resumed_status :
    List String → List WorkflowDagStepRecord → String → Option WorkflowDagStepStatus
resumed_status affected steps k =
    if includes affected k && is_some (status_of steps k)
    then some WorkflowDagStepStatus.pending
    else status_of steps k

module _ (t : Tables) (id : String) (run : WorkflowDagRunRecord)
    (steps : List WorkflowDagStepRecord) (view : View t id run steps) (now : ℕ) where
  recover_stale-Moves :
      (rs : List WorkflowDagStepRecord)
      → rs ≡ running_steps steps
      → Moves id
          (recover_stale t id rs now)
          WorkflowDagRunStatus.resumable
          (λ k. recovered_status (status_of steps k))
          (attempt_of steps)
  unfolding recover_stale
  recover_stale-Moves rs same =
      let known : (k : String)
          → includes (step_ids rs) k ≡ true
          → is_some (status_of steps k) ≡ true =
        λ k m.
          known_status steps k
            (includes-filtered (λ u. is_running u.status) steps k (rw (← same) m)) in
      let (t1, ran1, sets) = fail_stale-Sets id run now rs t steps view known in
      let (t2, ran2, view2) =
        update_run-View t1 id _ _ sets.view
          (run_ended WorkflowDagRunStatus.resumable
            (object (field "code" (string "STALE_RUNNING_STEPS") (stale_ids rs end))) now)
          now in
      let (t3, ran3, view3) = append_event-View t2 id _ _ view2 (recovered_event id rs now) refl in
      Moves-cast (recompute_readiness-Moves t3 id _ _ now view3) (rw ran1 (rw ran2 (rw ran3)))
        (λ k. sets.statuses k ∙ (rw (same, running_ids steps k view.keyed) (ground arith)))
        sets.attempts

  -- Where a step of the run is running, recovery returns: the run is resumable, the running steps are
  -- failed, the other steps keep their status and all steps their attempt, and the readiness of every step
  -- is up to date.
  pub recover_stale_running_steps-Moves :
      (s : WorkflowDagStepRecord) (rest : List WorkflowDagStepRecord)
      → running_steps steps ≡ s ∷ rest
      → Moves id
          (recover_stale_running_steps t id now)
          WorkflowDagRunStatus.resumable
          (λ k. recovered_status (status_of steps k))
          (attempt_of steps)
  unfolding recover_stale_running_steps
  recover_stale_running_steps-Moves s rest e =
      Moves-cast (recover_stale-Moves (s ∷ rest) (sym e))
        (rw (require_snapshot-View t id run steps view) (rw e)) (λ k. refl) (λ k. refl)

  -- Where a step of the run is failed, resuming returns: the run is pending, the steps that are the first
  -- failed one or depend on it, directly or not, are pending, the other steps keep their status and all
  -- steps their attempt, and the readiness of every step is up to date.
  pub resume_from_first_failed_step-Moves :
      (s : WorkflowDagStepRecord)
      → first_failed steps ≡ some s
      → (affected : List String) × ((k : String)
          → (includes affected k ≡ true) ↔ Descends run.dependencies s.step_id k)
        × Moves id
            (resume_from_first_failed_step t id now)
            WorkflowDagRunStatus.pending
            (resumed_status affected steps)
            (attempt_of steps)
  unfolding resume_from_first_failed_step resume_from
  resume_from_first_failed_step-Moves s e =
      let snapshot = snapshot_of t id run steps view in
      let (affected, found, exact) = collect_descendant_step_ids_iff snapshot s.step_id in
      let (t1, ran1, sets) =
        reset_each-Sets id run now affected steps t steps view (known_status steps) in
      let (t2, ran2, view2) = update_run-View t1 id _ _ sets.view run_reset now in
      let (t3, ran3, view3) =
        append_event-View t2 id _ _ view2 (resumed_event id s.step_id now) refl in
      (
        affected,
        exact,
        Moves-cast (recompute_readiness-Moves t3 id _ _ now view3)
            (rw (require_snapshot-View t id run steps view)
              (rw e (rw found (rw ran1 (rw ran2 (rw ran3))))))
            (λ k. sets.statuses k ∙ (rw (listed_step steps k) (ground arith))) sets.attempts,
      )
