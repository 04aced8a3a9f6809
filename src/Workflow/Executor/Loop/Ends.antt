-- ===== src/Workflow/Executor/Loop/Ends.antt =====
-- workflow-dag-executor.ts: where every run of a task completes its step, the executor returns.
use athena_console.Prelude.{
  ℕ, zero, suc, ◌+◌, ◌≤◌, ◌<◌, String, ◌≡◌, refl, ◌∙◌, true, Option, none, some, List, [], ◌∷◌,
  ◌++◌, length, length-append, includes, Result, ok, arith, Bool-cases, inl, inr, ◌⊎◌,
}
use athena_console.Workflow.Runs.{
  WorkflowDagRunRecord, WorkflowDagRunSnapshot, WorkflowDagStepRecord, WorkflowDagStepStatus,
  Tables,
}
use athena_console.Workflow.State.{recompute_readiness}
use athena_console.Workflow.State.Steps.{with_key}
use athena_console.Workflow.State.Moves.{status_of, status_of-refresh}
use athena_console.Workflow.State.Readiness.{recompute-View}
use athena_console.Workflow.Executor.{select_from, select_next_ready_step}
use athena_console.Workflow.Executor.Decision.{select_next_ready_step-IsFirst}
use athena_console.Workflow.Executor.Failure.{ExecutorError, AppState, Turn}
use athena_console.Workflow.Executor.Loop.{
  RunTask, WorkflowDagExecutionResult, is_over, turn, execute_loop, execute_internal,
}
use athena_console.Workflow.Executor.Loop.Progress.{
  Holds, Completes, Recomputes, open_steps, open_steps-le-length, open_steps-cong, next_listed,
  next_drops,
}

-- The readiness is computed again: the run still has its order and its statuses.
recompute-Holds :
    (run_id : String) (order : List String) (state : AppState) (run : WorkflowDagRunRecord)
    (steps : List WorkflowDagStepRecord) (now : ℕ)
    → Holds run_id order state run steps
    → (tables : Tables) × (snapshot : WorkflowDagRunSnapshot) × (recompute_readiness state.tables
          run_id now
        ≡ ok (tables, snapshot))
      × Holds run_id order
          (record { tables = tables; tasks = state.tasks })
          snapshot.run
          snapshot.steps
      × ((k : String) → status_of snapshot.steps k ≡ status_of steps k)
recompute-Holds run_id order state run steps now holds =
    let (t', snapshot, ran, view', same_run, same_steps) =
      recompute-View state.tables run_id run steps now holds.view in
    (
      t',
      snapshot,
      ran,
      record {
        view = rw (same_run, same_steps) view';
        ordered = rw same_run holds.ordered;
        tasked = holds.tasked;
      },
      λ k. rw same_steps (status_of-refresh now steps k),
    )

-- What a turn leaves of a run whose step is completed by its task.
record Advances (run_id : String) (order : List String) (inv : AppState → Type 0) (step_id : String)
    (steps : List WorkflowDagStepRecord) (outcome : Result ExecutorError Turn) : Type 0 where
  next : Turn
  returned : outcome ≡ ok next
  goes_on : next.goes_on ≡ true
  kept : inv next.state
  holds : Holds run_id order next.state next.snapshot.run next.snapshot.steps
  statuses :
      (k : String)
      → status_of next.snapshot.steps k
        ≡ with_key step_id WorkflowDagStepStatus.completed (status_of steps) k

-- The executor returns a result whose run is over or has no step that is next; each step that it executed
-- is one less that is not completed.
pub record Ends (order : List String) (steps : List WorkflowDagStepRecord) (count : ℕ)
    (outcome : Option (Result ExecutorError WorkflowDagExecutionResult)) : Type 0 where
  pub result : WorkflowDagExecutionResult
  pub returned : outcome ≡ some (ok result)
  pub over :
      (is_over result.snapshot.run.status ≡ true) ⊎ (select_next_ready_step result.snapshot ≡ none)
  pub counted :
      length result.executed_step_ids + open_steps result.snapshot.steps order
      ≤ count + open_steps steps order

module _ (run_id : String) (order : List String) (inv : AppState → Type 0) (run_task : RunTask)
    (completes : Completes run_id order inv run_task) (recomputes : Recomputes run_id inv)
    (clock : ℕ → ℕ) where
  turn-Advances :
      (state : AppState) (run : WorkflowDagRunRecord) (steps : List WorkflowDagStepRecord)
      (step : WorkflowDagStepRecord) (now : ℕ)
      → inv state
      → Holds run_id order state run steps
      → select_from steps order ≡ some step
      → includes order step.step_id ≡ true
      → Advances run_id order inv step.step_id steps (turn run_task clock state run_id step now)
  unfolding turn
  turn-Advances state run steps step now good holds chosen listed =
      let (task, found) = holds.tasked step.step_id listed in
      let c = completes state run steps step task now good holds chosen found in
      let (t', snapshot, ran, holds', same) =
        recompute-Holds run_id order c.state' c.run' c.steps' now c.holds in
      record {
        next = record {
          goes_on = true;
          state = record { tables = t'; tasks = c.state'.tasks };
          delays = [];
          snapshot = snapshot;
        };
        returned = rw (found, turn) (rw c.returned (rw ran (rw c.done refl)));
        goes_on = refl;
        kept = recomputes c.state' t' snapshot now ran c.kept;
        holds = holds';
        statuses = λ k. same k ∙ c.statuses k;
      }

  execute_loop-Ends :
      (fuel : ℕ) (state : AppState) (snapshot : WorkflowDagRunSnapshot) (executed : List String)
      (delays : List ℕ)
      → inv state
      → Holds run_id order state snapshot.run snapshot.steps
      → open_steps snapshot.steps order < fuel
      → Ends order snapshot.steps
          (length executed)
          (execute_loop run_task clock fuel state run_id snapshot executed delays)
  unfolding execute_loop select_next_ready_step
  execute_loop-Ends zero state snapshot executed delays good holds enough = absurd (omega arith)
  execute_loop-Ends (suc fuel) state snapshot executed delays good holds enough =
      elim (Bool-cases (is_over snapshot.run.status)) [
        | inl over ↦ record {
          result = record {
            state = state;
            executed_step_ids = executed;
            delays = delays;
            snapshot = snapshot;
          };
          returned = rw (over, execute_loop) refl;
          over = inl over;
          counted = omega arith;
        }
        | inr going ↦ elim (select_next_ready_step-IsFirst snapshot) [
          | inl (nothing, _) ↦ record {
            result = record {
              state = state;
              executed_step_ids = executed;
              delays = delays;
              snapshot = snapshot;
            };
            returned = rw (going, execute_loop) (rw nothing refl);
            over = inr nothing;
            counted = omega arith;
          }
          | inr (step, chosen, is_first) ↦
              let a =
                turn-Advances state snapshot.run snapshot.steps step (clock fuel) good holds
                  (rw holds.ordered at chosen)
                  (next_listed snapshot.steps order step (rw holds.ordered at is_first)) in
              let fewer =
                next_drops snapshot.steps order step (rw holds.ordered at is_first)
                  a.next.snapshot.steps a.statuses in
              let rest =
                execute_loop-Ends fuel a.next.state a.next.snapshot (executed ++ step.step_id ∷ [])
                  (delays ++ a.next.delays) a.kept a.holds (omega (arith, fewer, enough)) in
              record {
                result = rest.result;
                returned =
                    rw (going, execute_loop)
                      (rw (chosen, execute_loop)
                        (rw (a.returned, execute_loop) (rw a.goes_on rest.returned)));
                over = rest.over;
                counted =
                    omega (arith, fewer, rest.counted, length-append executed (step.step_id ∷ []));
              }
        ]
      ]

  -- Take states of a kind in which a run of the task of the next step completes that step and leaves a state of this
  -- kind, and a state of it in which every step of the order has a task. Then the execution of the run returns a
  -- result, for any fuel above the number of steps: the run is failed, completed or resumable, or no step is next.
  -- No more steps are executed than were not completed.
  pub execute_internal-Ends :
      (fuel : ℕ) (state : AppState) (run : WorkflowDagRunRecord)
      (steps : List WorkflowDagStepRecord)
      → inv state
      → Holds run_id order state run steps
      → length order < fuel
      → Ends order steps 0 (execute_internal run_task clock fuel state run_id)
  unfolding execute_internal
  execute_internal-Ends fuel state run steps good holds enough =
      let (t', snapshot, ran, holds', same) =
        recompute-Holds run_id order state run steps (clock fuel) holds in
      let as_many = open_steps-cong snapshot.steps steps same order in
      let ends =
        execute_loop-Ends fuel (record { tables = t'; tasks = state.tasks }) snapshot [] []
          (recomputes state t' snapshot (clock fuel) ran good) holds'
          (omega (arith, enough, open_steps-le-length snapshot.steps order)) in
      record {
        result = ends.result;
        returned = rw (ran, execute_internal) ends.returned;
        over = ends.over;
        counted = omega (arith, ends.counted, as_many);
      }
