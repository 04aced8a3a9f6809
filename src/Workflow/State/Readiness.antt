-- ===== src/Workflow/State/Readiness.antt =====
-- workflow-state.ts, `recomputeReadiness`: every step gets the dependencies that block it, and is ready when
-- it is pending and none does.
use athena_console.Prelude.{
  ℕ, String, ◌≡◌, refl, sym, ◌∙◌, ap, true, false, ◌&&◌, some, List, [], ◌∷◌, ◌++◌, map, arith,
  str_eq, str_eq_iff, str_eq_refl, includes, distinct, ok, subst,
}
use mathlib.Core.List.{append_assoc}
use athena_console.Workflow.Runs.{
  WorkflowDagRunRecord, WorkflowDagStepRecord, WorkflowDagRunSnapshot, Tables,
}
use athena_console.Workflow.Runs.Repository.{updated_step, step_update}
use athena_console.Workflow.Runs.View.{
  View, step_ids, at_step, update_step-View, require_snapshot-View, snapshot_of,
}
use athena_console.Workflow.State.{
  find_step, is_pending, blocking, no_texts, recompute_each, recompute_readiness,
}

-- The step that the loop writes, from the steps that were read before it.
abbrev pub refresh : ℕ → List WorkflowDagStepRecord → WorkflowDagStepRecord → WorkflowDagStepRecord
refresh now steps s =
    updated_step
      (record step_update {
        ready = some (is_pending s.status && no_texts (blocking steps s));
        blocking_step_ids = some (blocking steps s);
      })
      now s s

includes_middle :
    (front : List WorkflowDagStepRecord) (s : WorkflowDagStepRecord)
    (rest : List WorkflowDagStepRecord)
    → includes (step_ids (front ++ s ∷ rest)) s.step_id ≡ true
includes_middle [] s rest = rw (str_eq_refl s.step_id)
includes_middle (x ∷ front) s rest = ground (arith, includes_middle front s rest)

pub find_middle :
    (front : List WorkflowDagStepRecord) (s : WorkflowDagStepRecord)
    (rest : List WorkflowDagStepRecord)
    → distinct (step_ids (front ++ s ∷ rest)) ≡ true
    → find_step (front ++ s ∷ rest) s.step_id ≡ some s
find_middle [] s rest d = rw (str_eq_refl s.step_id)
find_middle (x ∷ front) s rest d =
    ground (
      arith,
      find_middle front s rest,
      includes_middle front s rest,
      str_eq_iff x.step_id s.step_id,
    )

at_step_absent :
    (id : String) (f : WorkflowDagStepRecord → WorkflowDagStepRecord)
    (steps : List WorkflowDagStepRecord)
    → includes (step_ids steps) id ≡ false
    → map (at_step id f) steps ≡ steps
at_step_absent id f [] h = refl
at_step_absent id f (s ∷ steps) h =
    let rest = at_step_absent id f steps (ground arith) in
    let other : str_eq s.step_id id ≡ false = ground arith in rw (other, rest)

pub at_step_middle :
    (f : WorkflowDagStepRecord → WorkflowDagStepRecord) (front : List WorkflowDagStepRecord)
    (s : WorkflowDagStepRecord) (rest : List WorkflowDagStepRecord)
    → distinct (step_ids (front ++ s ∷ rest)) ≡ true
    → map (at_step s.step_id f) (front ++ s ∷ rest) ≡ front ++ f s ∷ rest
at_step_middle f [] s rest d =
    rw (str_eq_refl s.step_id) (ap (λ l. f s ∷ l) (at_step_absent s.step_id f rest (ground arith)))
at_step_middle f (x ∷ front) s rest d =
    let other : str_eq x.step_id s.step_id ≡ false =
      ground (arith, includes_middle front s rest, str_eq_iff x.step_id s.step_id) in
    rw other (ap (λ l. x ∷ l) (at_step_middle f front s rest (ground arith)))

module _ (steps : List WorkflowDagStepRecord) (id : String) (run : WorkflowDagRunRecord)
    (now : ℕ) where
  recompute_each-View :
      (front todo : List WorkflowDagStepRecord) (t : Tables)
      → View t id run (front ++ todo)
      → (t' : Tables) × (recompute_each steps id now todo t ≡ ok t')
        × View t' id run (front ++ map (refresh now steps) todo)
  unfolding recompute_each
  recompute_each-View front [] t view = (t, refl, view)
  recompute_each-View front (s ∷ rest) t view =
      let (t1, ran, view1) =
        update_step-View t id run (front ++ s ∷ rest) view s.step_id
          (record step_update {
            ready = some (is_pending s.status && no_texts (blocking steps s));
            blocking_step_ids = some (blocking steps s);
          })
          now s (find_middle front s rest view.keyed) in
      let moved =
        at_step_middle
          (updated_step
            (record step_update {
              ready = some (is_pending s.status && no_texts (blocking steps s));
              blocking_step_ids = some (blocking steps s);
            })
            now s)
          front s rest view.keyed
        ∙ sym (append_assoc front (refresh now steps s ∷ []) rest) in
      let (t2, ran', view2) =
        recompute_each-View (front ++ refresh now steps s ∷ []) rest t1
          (subst (View t1 id run) moved view1) in
      (
        t2,
        rw ran ran',
        subst (View t2 id run)
            (append_assoc front (refresh now steps s ∷ []) (map (refresh now steps) rest)) view2,
      )

-- The call returns: every step is refreshed, and nothing else of the run changes.
pub recompute-View :
    (t : Tables) (id : String) (run : WorkflowDagRunRecord) (steps : List WorkflowDagStepRecord)
    (now : ℕ)
    → View t id run steps
    → (t' : Tables) × (snapshot : WorkflowDagRunSnapshot) × (recompute_readiness t id now
        ≡ ok (t', snapshot))
      × View t' id run (map (refresh now steps) steps)
      × (snapshot.run ≡ run)
      × (snapshot.steps ≡ map (refresh now steps) steps)
unfolding recompute_readiness
recompute-View t id run steps now view =
    let (t', ran, view') = recompute_each-View steps id run now [] steps t view in
    let read = require_snapshot-View t id run steps view in
    let read' = require_snapshot-View t' id run (map (refresh now steps) steps) view' in
    (
      t',
      snapshot_of t' id run (map (refresh now steps) steps) view',
      rw (read, recompute_readiness) (rw ran (rw read')),
      view',
      refl,
      refl,
    )
