-- ===== src/Workflow/State/Moves.antt =====
-- What a call of workflow-state.ts returns: the statuses and attempts of the run's steps, with their
-- readiness up to date.
use athena_console.Prelude.{
  ℕ, String, ◌≡◌, refl, sym, ◌∙◌, inl, inr, Bool, true, false, ◌&&◌, Option, some, List, [], ◌∷◌,
  map, arith, Bool-cases, Option-cases, str_eq_iff, str_eq_refl, includes, filter, ok, All, ◌↔◌,
  ◌≢◌, ◌↔◌,
}
use athena_console.Workflow.Runs.{
  WorkflowDagRunRecord, WorkflowDagStepRecord, WorkflowDagStepStatus, WorkflowDagRunSnapshot,
  Tables, map_option,
}
use athena_console.Workflow.Runs.View.{View}
use athena_console.Workflow.State.{find_step, blocks, blocking, no_texts, recompute_readiness}
use athena_console.Workflow.Runs.{WorkflowDagRunStatus}
use athena_console.Workflow.State.{Outcome}
use athena_console.Workflow.State.Readiness.{refresh, recompute-View}

abbrev pub status_of : List WorkflowDagStepRecord → String → Option WorkflowDagStepStatus
status_of steps k = map_option (λ s. s.status) (find_step steps k)

abbrev pub attempt_of : List WorkflowDagStepRecord → String → Option ℕ
attempt_of steps k = map_option (λ s. s.attempt) (find_step steps k)

-- The dependencies that are not completed are listed as blocking, and the step is ready exactly when it
-- is pending and all of its dependencies are completed.
pub record IsCurrent (steps : List WorkflowDagStepRecord) (s : WorkflowDagStepRecord) : Type 0 where
  pub blocked :
      (d : String)
      → (includes s.blocking_step_ids d ≡ true) ↔ (
          (includes s.dependencies d ≡ true)
          × (status_of steps d ≢ some WorkflowDagStepStatus.completed))
  pub ready : (s.ready ≡ true) ↔ (
      (s.status ≡ WorkflowDagStepStatus.pending)
      × ((d : String)
          → includes s.dependencies d ≡ true
          → status_of steps d ≡ some WorkflowDagStepStatus.completed))

-- A call returns tables and a snapshot with a run status, and the steps' statuses and attempts.
pub record Moves (id : String) (outcome : Outcome) (run_status : WorkflowDagRunStatus)
    (statuses : String → Option WorkflowDagStepStatus) (attempts : String → Option ℕ) : Type 0 where
  pub tables : Tables
  pub snapshot : WorkflowDagRunSnapshot
  pub returned : outcome ≡ ok (tables, snapshot)
  pub view : View tables id snapshot.run snapshot.steps
  pub run_status_is : snapshot.run.status ≡ run_status
  pub statuses_are : (k : String) → status_of snapshot.steps k ≡ statuses k
  pub attempts_are : (k : String) → attempt_of snapshot.steps k ≡ attempts k
  pub current : All (IsCurrent snapshot.steps) snapshot.steps

blocks_iff :
    (steps : List WorkflowDagStepRecord) (d : String)
    → (blocks steps d ≡ false) ↔ (status_of steps d ≡ some WorkflowDagStepStatus.completed)
blocks_iff steps d = elim (Option-cases (find_step steps d)) [
  | inl e ↦ rw (e, blocks) ((λ h. cc), (λ h. cc))
  | inr (s, e) ↦ ground arith
]

includes-filter :
    (p : String → Bool) (xs : List String) (k : String)
    → includes (filter p xs) k ≡ (includes xs k && p k)
includes-filter p [] k = refl
includes-filter p (x ∷ xs) k = ground (arith, includes-filter p xs k, str_eq_iff x k)

no_texts_iff : (xs : List String) → (no_texts xs ≡ true) ↔ ((k : String) → includes xs k ≡ false)
no_texts_iff [] = ((λ h k. refl), (λ h. refl))
no_texts_iff (x ∷ xs) = ((λ h. cc), (λ h. ground (arith, h x, str_eq_refl x)))

pub find-map :
    (f : WorkflowDagStepRecord → WorkflowDagStepRecord)
    → ((s : WorkflowDagStepRecord) → (f s).step_id ≡ s.step_id)
    → (steps : List WorkflowDagStepRecord) (k : String)
    → find_step (map f steps) k ≡ map_option f (find_step steps k)
find-map f same [] k = refl
find-map f same (s ∷ steps) k = ground (arith, find-map f same steps k, same s)

pub status_of-refresh :
    (now : ℕ) (steps : List WorkflowDagStepRecord) (k : String)
    → status_of (map (refresh now steps) steps) k ≡ status_of steps k
status_of-refresh now steps k = rw (find-map (refresh now steps) (λ s. refl) steps k) (ground arith)

pub attempt_of-refresh :
    (now : ℕ) (steps : List WorkflowDagStepRecord) (k : String)
    → attempt_of (map (refresh now steps) steps) k ≡ attempt_of steps k
attempt_of-refresh now steps k =
    rw (find-map (refresh now steps) (λ s. refl) steps k) (ground arith)

module _ (steps after : List WorkflowDagStepRecord)
    (same : (k : String) → status_of after k ≡ status_of steps k) (now : ℕ) where
  refresh-IsCurrent : (s : WorkflowDagStepRecord) → IsCurrent after (refresh now steps s)
  refresh-IsCurrent s = record {
    blocked = λ d. (
      (λ h.
          let m = sym (includes-filter (blocks steps) s.dependencies d) ∙ h in
          (ground arith, λ done. ground (arith, (blocks_iff steps d).1 (sym (same d) ∙ done)))),
      (λ h. includes-filter (blocks steps) s.dependencies d ∙ (elim (Bool-cases (blocks steps d)) [
        | inl waits ↦ rw (h.0, waits)
        | inr free ↦ absurd (h.1 (same d ∙ (blocks_iff steps d).0 free))
      ])),
    );
    ready = (
      (λ h.
          let none_blocks : no_texts (blocking steps s) ≡ true = ground arith in
          (
            ground arith,
            λ d m.
                same d
                ∙ (blocks_iff steps d).0 (
                    ground (
                      arith,
                      (no_texts_iff (blocking steps s)).0 none_blocks d,
                      includes-filter (blocks steps) s.dependencies d,
                    )),
          )),
      (λ h.
          let none_blocks : no_texts (blocking steps s) ≡ true =
            (no_texts_iff (blocking steps s)).1 (λ d.
              includes-filter (blocks steps) s.dependencies d
              ∙ (elim (Bool-cases (includes s.dependencies d)) [
                | inl m ↦ rw ((blocks_iff steps d).1 (sym (same d) ∙ h.1 d m)) (ground arith)
                | inr m ↦ rw m
              ])) in
          ground arith),
    );
  }

  All-refreshed :
      (todo : List WorkflowDagStepRecord) → All (IsCurrent after) (map (refresh now steps) todo)
  All-refreshed [] = tt
  All-refreshed (s ∷ todo) = (refresh-IsCurrent s, All-refreshed todo)

-- What the recomputation returns.
pub recomputed :
    (t : Tables) (id : String) (run : WorkflowDagRunRecord) (steps : List WorkflowDagStepRecord)
    (now : ℕ)
    → View t id run steps
    → Moves id (recompute_readiness t id now) run.status (status_of steps) (attempt_of steps)
recomputed t id run steps now view =
    let (t', snapshot, ran, view', same_run, same_steps) = recompute-View t id run steps now view in
    record {
      tables = t';
      snapshot = snapshot;
      returned = ran;
      view = rw (same_run, same_steps) view';
      run_status_is = rw same_run;
      statuses_are = λ k. rw same_steps (status_of-refresh now steps k);
      attempts_are = λ k. rw same_steps (attempt_of-refresh now steps k);
      current = rw same_steps (
          All-refreshed steps (map (refresh now steps) steps) (status_of-refresh now steps) now
            steps);
    }

pub recompute_readiness-steps :
    (t : Tables) (id : String) (run : WorkflowDagRunRecord) (steps : List WorkflowDagStepRecord)
    (now : ℕ) (view : View t id run steps)
    → (recomputed t id run steps now view).snapshot.steps ≡ map (refresh now steps) steps
unfolding recomputed
recompute_readiness-steps t id run steps now view = (recompute-View t id run steps now view).5

-- Recomputing the readiness keeps every status and attempt and brings the readiness of every step up to date.
pub recompute_readiness-Moves :
    (t : Tables) (id : String) (run : WorkflowDagRunRecord) (steps : List WorkflowDagStepRecord)
    (now : ℕ)
    → View t id run steps
    → Moves id (recompute_readiness t id now) run.status (status_of steps) (attempt_of steps)
recompute_readiness-Moves = recomputed
