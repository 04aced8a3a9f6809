-- ===== src/Workflow/State/Steps.antt =====
-- workflow-state.ts: what `startStep` and `completeStep` do to a run.
use athena_console.Prelude.{
  ℕ, String, ◌≡◌, refl, ◌∙◌, inl, inr, Bool, true, false, ◌||◌, Option, none, some, List, [], ◌∷◌,
  map, arith, if◌then◌else◌, Bool-cases, Option-cases, str_eq, str_eq_iff, str_eq_refl, ok, ◌>>=◌,
  subst, ◌+◌, every,
}
use mathlib.Core.Path.{ap₂}
use athena_console.Workflow.Runs.{
  WorkflowDagRunRecord, WorkflowDagStepRecord, WorkflowDagStepStatus, Tables, require_snapshot,
  map_option,
}
use athena_console.Workflow.Runs.Repository.{updated_step}
use athena_console.Workflow.Runs.View.{
  View, at_step, update_step-View, require_snapshot-View, snapshot_of,
}
use athena_console.Workflow.State.{find_step, is_completed}
use athena_console.Json.{Value, defined, end}
use athena_console.Workflow.Runs.{
  WorkflowDagRunStatus, WorkflowDagStepAttemptStatus, WorkflowDagRunEventLevel,
}
use athena_console.Workflow.Runs.Repository.{UpdateWorkflowDagStepInput, or_else}
use athena_console.Workflow.Runs.View.{
  View-id, update_run-View, start_attempt-View, finish_attempt-View, append_event-View,
}
use athena_console.Workflow.State.{
  Outcome, require_step, start_step, complete_step, finalize_run, all_completed, ends_run,
  step_event, attempt_field, attempt_end, run_started, step_started, step_completed, run_completed,
  run_goes_on,
}
use athena_console.Workflow.State.Readiness.{refresh}
use athena_console.Workflow.State.Moves.{
  Moves, status_of, attempt_of, find-map, recompute_readiness-Moves, recomputed,
  recompute_readiness-steps,
}

-- A table with one key set.
abbrev pub with_key : {A : Type 0} → String → A → (String → Option A) → String → Option A
with_key id v f k = if str_eq id k then some v else f k

module _ (id : String) (input : UpdateWorkflowDagStepInput) (now : ℕ) (s : WorkflowDagStepRecord)
    (steps : List WorkflowDagStepRecord) (e : find_step steps id ≡ some s) where
  found_at : (k : String) → str_eq id k ≡ true → find_step steps k ≡ some s
  found_at k h = let same = (str_eq_iff id k).0 h in rw same at e

  found-at_step :
      (k : String)
      → find_step (map (at_step id (updated_step input now s)) steps) k
        ≡ map_option (at_step id (updated_step input now s)) (find_step steps k)
  found-at_step k = find-map (at_step id (updated_step input now s)) (λ u. ground arith) steps k

  id_of_found :
      (u : WorkflowDagStepRecord) (k : String) (l : List WorkflowDagStepRecord)
      → find_step l k ≡ some u
      → u.step_id ≡ k
  id_of_found u k [] h = cc
  id_of_found u k (x ∷ l) h =
      ground (arith, λ (g : find_step l k ≡ some u). id_of_found u k l g, str_eq_iff x.step_id k)

  pub status_of-at_step :
      (k : String)
      → status_of (map (at_step id (updated_step input now s)) steps) k
        ≡ with_key id (or_else input.status s.status) (status_of steps) k
  status_of-at_step k = elim (Bool-cases (str_eq id k)) [
    | inl here ↦
        rw (found-at_step k, found_at k here, here)
          (ground (arith, id_of_found s id steps e, str_eq_refl id))
    | inr other ↦ elim (Option-cases (find_step steps k)) [
      | inl gone ↦ rw (found-at_step k, gone, other)
      | inr (u, there) ↦
          let named = id_of_found u k steps there in
          let apart : str_eq u.step_id id ≡ false =
            ground (arith, named, str_eq_iff k id, str_eq_iff id k) in
          rw (found-at_step k, there, other) (rw apart)
    ]
  ]

  pub attempt_of-at_step :
      (k : String)
      → attempt_of (map (at_step id (updated_step input now s)) steps) k
        ≡ with_key id (or_else input.attempt s.attempt) (attempt_of steps) k
  attempt_of-at_step k = elim (Bool-cases (str_eq id k)) [
    | inl here ↦
        rw (found-at_step k, found_at k here, here)
          (ground (arith, id_of_found s id steps e, str_eq_refl id))
    | inr other ↦ elim (Option-cases (find_step steps k)) [
      | inl gone ↦ rw (found-at_step k, gone, other)
      | inr (u, there) ↦
          let named = id_of_found u k steps there in
          let apart : str_eq u.step_id id ≡ false =
            ground (arith, named, str_eq_iff k id, str_eq_iff id k) in
          rw (found-at_step k, there, other) (rw apart)
    ]
  ]

  pub find-at_step :
      find_step (map (at_step id (updated_step input now s)) steps) id
      ≡ some (updated_step input now s s)
  find-at_step = rw (found-at_step id, e) (ground (arith, id_of_found s id steps e, str_eq_refl id))

-- The statuses and attempts may be named otherwise, and the call may be one that leads to it.
pub Moves-cast :
    {id : String} {outcome outcome' : Outcome} {r : WorkflowDagRunStatus}
    {f f' : String → Option WorkflowDagStepStatus} {g g' : String → Option ℕ}
    → Moves id outcome r f g
    → outcome' ≡ outcome
    → ((k : String) → f k ≡ f' k)
    → ((k : String) → g k ≡ g' k)
    → Moves id outcome' r f' g'
Moves-cast m e hf hg = record {
  tables = m.tables;
  snapshot = m.snapshot;
  returned = e ∙ m.returned;
  view = m.view;
  run_status_is = m.run_status_is;
  statuses_are = λ k. m.statuses_are k ∙ hf k;
  attempts_are = λ k. m.attempts_are k ∙ hg k;
  current = m.current;
}

module _ (t : Tables) (id : String) (run : WorkflowDagRunRecord)
    (steps : List WorkflowDagStepRecord) (view : View t id run steps) (step_id : String)
    (s : WorkflowDagStepRecord) (e : find_step steps step_id ≡ some s) (now : ℕ) where
  -- Starting a step of a run returns: the run is running, the step is running in its next attempt, the
  -- other steps keep status and attempt, and the readiness of every step is up to date.
  pub start_step-Moves :
      Moves id
        (start_step t id step_id now)
        WorkflowDagRunStatus.running
        (with_key step_id WorkflowDagStepStatus.running (status_of steps))
        (with_key step_id (s.attempt + 1) (attempt_of steps))
  unfolding start_step require_step
  start_step-Moves =
      let attempt = s.attempt + 1 in
      let (t1, ran1, view1) = update_run-View t id run steps view (run_started run now) now in
      let (t2, ran2, view2) =
        update_step-View t1 id _ steps view1 step_id (step_started attempt now) now s e in
      let found = find-at_step step_id (step_started attempt now) now s steps e in
      let (t3, ran3, view3) = start_attempt-View t2 id _ _ view2 step_id attempt now now _ found in
      let (t4, ran4, view4) =
        append_event-View t3 id _ _ view3
          (step_event id step_id now "workflow.step.started" WorkflowDagRunEventLevel.info
            " started." (attempt_field attempt end))
          refl in
      Moves-cast (recompute_readiness-Moves t4 id _ _ now view4)
        (rw (require_snapshot-View t id run steps view, start_step)
          (rw (e, require_step) (rw ran1 (rw ran2 (rw ran3 (rw ran4))))))
        (status_of-at_step step_id (step_started attempt now) now s steps e)
        (attempt_of-at_step step_id (step_started attempt now) now s steps e)

-- The status of a run after a step of it was completed.
abbrev pub status_after : WorkflowDagRunStatus → Bool → WorkflowDagRunStatus
status_after status true = WorkflowDagRunStatus.completed
status_after status false = if ends_run status then status else WorkflowDagRunStatus.running

module _ (id : String) (f : String → Option WorkflowDagStepStatus) (g : String → Option ℕ)
    {outcome : Outcome} {r : WorkflowDagRunStatus} (m : Moves id outcome r f g) (now : ℕ) where
  finalized :
      (t : Tables) (run : WorkflowDagRunRecord)
      → View t id run m.snapshot.steps
      → Moves id (require_snapshot t id >>= λ snapshot. ok (t, snapshot)) run.status f g
  finalized t run view = record {
    tables = t;
    snapshot = snapshot_of t id run m.snapshot.steps view;
    returned = rw (require_snapshot-View t id run m.snapshot.steps view);
    view = view;
    run_status_is = refl;
    statuses_are = m.statuses_are;
    attempts_are = m.attempts_are;
    current = m.current;
  }

  finalize_run-Moves :
      Moves id
        (finalize_run m.tables m.snapshot now)
        (status_after m.snapshot.run.status (all_completed m.snapshot.steps))
        f
        g
  unfolding finalize_run
  finalize_run-Moves =
      let named = View-id m.view in
      elim (Bool-cases (all_completed m.snapshot.steps)) [
        | inl all ↦
            let (t', ran, view') =
              update_run-View m.tables id m.snapshot.run m.snapshot.steps m.view (run_completed now)
                now in
            rw (all, named) (rw ran (finalized t' _ view'))
        | inr some_open ↦ elim (Bool-cases (ends_run m.snapshot.run.status)) [
          | inl over ↦ rw (some_open, named) (rw over (finalized m.tables m.snapshot.run m.view))
          | inr open_run ↦
              let (t', ran, view') =
                update_run-View m.tables id m.snapshot.run m.snapshot.steps m.view run_goes_on
                  now in
              rw (some_open, named) (rw open_run (rw ran (finalized t' _ view')))
        ]
      ]

-- Every step but one is completed.
abbrev pub others_completed : String → List WorkflowDagStepRecord → Bool
others_completed id steps = every (λ u. str_eq u.step_id id || is_completed u.status) steps

all_completed-refresh :
    (id : String) (now : ℕ) (output : Value) (s : WorkflowDagStepRecord)
    (before steps : List WorkflowDagStepRecord)
    → all_completed (
        map
          (refresh now before)
          (map (at_step id (updated_step (step_completed output now) now s)) steps))
      ≡ others_completed id steps
all_completed-refresh id now output s before [] = refl
all_completed-refresh id now output s before (u ∷ steps) =
    ground (arith, all_completed-refresh id now output s before steps)

module _ (t : Tables) (id : String) (run : WorkflowDagRunRecord)
    (steps : List WorkflowDagStepRecord) (view : View t id run steps) (step_id : String)
    (s : WorkflowDagStepRecord) (e : find_step steps step_id ≡ some s) (now : ℕ) where
  -- Completing a step of a run returns: the step is completed, the other steps keep their status and all
  -- steps their attempt, the readiness of every step is up to date, and the run is completed if every
  -- other step is; else it stays failed or resumable, or is running.
  pub complete_step-Moves :
      (output : Value)
      → Moves id
          (complete_step t id step_id output now)
          (status_after run.status (others_completed step_id steps))
          (with_key step_id WorkflowDagStepStatus.completed (status_of steps))
          (with_key step_id s.attempt (attempt_of steps))
  unfolding complete_step require_step finalize_run
  complete_step-Moves output =
      let input = step_completed output now in
      let (t1, ran1, view1) = update_step-View t id run steps view step_id input now s e in
      let found = find-at_step step_id input now s steps e in
      let (t2, ran2, view2) =
        finish_attempt-View t1 id _ _ view1
          (attempt_end id step_id s.attempt WorkflowDagStepAttemptStatus.completed none
            (defined output) now)
          now _ refl found in
      let (t3, ran3, view3) =
        append_event-View t2 id _ _ view2
          (step_event id step_id now "workflow.step.completed" WorkflowDagRunEventLevel.info
            " completed." (attempt_field s.attempt end))
          refl in
      let steps3 = map (at_step step_id (updated_step input now s)) steps in
      let m = recomputed t3 id run steps3 now view3 in
      let ends : all_completed m.snapshot.steps ≡ others_completed step_id steps =
        rw (recompute_readiness-steps t3 id run steps3 now view3)
          (all_completed-refresh step_id now output s steps3 steps) in
      let final = finalize_run-Moves id _ _ m now in
      subst
        (λ r.
          Moves id (complete_step t id step_id output now) r
            (with_key step_id WorkflowDagStepStatus.completed (status_of steps))
            (with_key step_id s.attempt (attempt_of steps)))
        (ap₂ status_after m.run_status_is ends)
        (Moves-cast final
          (rw (require_snapshot-View t id run steps view, complete_step)
            (rw (e, require_step) (rw ran1 (rw ran2 (rw ran3 (rw m.returned))))))
          (status_of-at_step step_id input now s steps e)
          (attempt_of-at_step step_id input now s steps e))
