-- ===== src/Workflow/Template/Kahn.antt =====
-- The loop of `buildWorkflowTemplateDag` (workflow-template-dag.ts) takes every task once, each behind
-- its dependencies.
use athena_console.Prelude.{
  ℕ, zero, suc, ◌≤◌, String, ◌≡◌, refl, sym, ◌∙◌, ap, inl, inr, true, false, ◌&&◌, not, some, List,
  [], ◌∷◌, ◌++◌, arith, if◌then◌else◌, Bool-cases, str_eq_iff, str_eq_refl, includes, missing,
  Adds-snoc, missing-Adds-lt, missing-Adds_one, missing-Adds_other, missing_zero, length, ◌==◌,
  missing-nil, missing_pos, distinct,
}
use athena_console.Json.{pos}
use athena_console.Workflow.Template.{
  NormalizedDagTask, ids, dependencies_by_id, dependencies_of, validate_normalized_dag_tasks,
}
use athena_console.Workflow.Template.Reported.{Unfounded, Finished-Unfounded}
use athena_console.Workflow.Template.Checks.{
  IsClosed, dependencies_of-Within, validate-Finished, length-ids,
}
use athena_console.Workflow.Template.Order.{
  Indegrees, comes_before, dependents_of, settle, take_ready, order_tasks, indegrees, free_ids,
}
use athena_console.Workflow.Template.Tables.{
  DistinctDependencies, includes-dependents_of, distinct-dependents_of, indegrees_lem,
  includes-free_ids, distinct-free_ids,
}
use athena_console.Workflow.Template.Loop.{
  Settled, settle-Settled, distinct-settle, includes-snoc, distinct-snoc, IsOrdered, IsOrdered-snoc,
}

distinct-dependencies_of :
    (tasks : List NormalizedDagTask) (k : String)
    → DistinctDependencies tasks
    → distinct (dependencies_of tasks k) ≡ true
unfolding dependencies_of dependencies_by_id
distinct-dependencies_of [] k d = refl
distinct-dependencies_of (t ∷ ts) k d = ground (arith, distinct-dependencies_of ts k d.1)

module _ (tasks : List NormalizedDagTask) (unique : distinct (ids tasks) ≡ true)
    (dist : DistinctDependencies tasks) where
  abbrev waits : List String → String → ℕ
  waits order k = missing (dependencies_of tasks k) order

  record Inv (indegree : Indegrees) (ready order : List String) : Type 0 where
    counts : (k : String) → includes (ids tasks) k ≡ true → indegree k ≡ some (pos (waits order k))
    offered :
        (k : String)
        → includes ready k
          ≡ (includes (ids tasks) k && (not (includes order k) && (waits order k == 0)))
    once : distinct ready ≡ true
    taken_once : distinct order ≡ true
    known : (k : String) → includes order k ≡ true → includes (ids tasks) k ≡ true
    settled : (k : String) → includes order k ≡ true → waits order k ≡ 0
    ordered : IsOrdered (dependencies_of tasks) [] order

  waits-before :
      (x k : String) (order : List String)
      → includes order x ≡ false
      → waits order k ≡ (
          if includes (dependencies_of tasks k) x
          then suc (waits (order ++ x ∷ []) k)
          else waits (order ++ x ∷ []) k)
  waits-before x k order new =
      let deps = dependencies_of tasks k in
      elim (Bool-cases (includes deps x)) [
        | inl inside ↦ rw inside (
            sym (
              missing-Adds_one (Adds-snoc x order) deps (distinct-dependencies_of tasks k dist)
                inside new))
        | inr outside ↦ rw outside (sym (missing-Adds_other (Adds-snoc x order) deps outside))
      ]

  start-Inv : Inv (indegrees tasks) (free_ids tasks) []
  start-Inv = record {
    counts = λ k m. rw (indegrees_lem tasks k m, missing-nil (dependencies_of tasks k));
    offered = λ k. rw (includes-free_ids tasks k unique, missing-nil (dependencies_of tasks k));
    once = distinct-free_ids tasks unique;
    taken_once = refl;
    known = λ k m. cc;
    settled = λ k m. cc;
    ordered = tt;
  }

  module _ (indegree : Indegrees) (x : String) (ready order : List String)
      (inv : Inv indegree (x ∷ ready) order) where
    abbrev after : Indegrees × List String
    after = settle (comes_before tasks) (dependents_of tasks x) (indegree, ready)

    facts : (includes (ids tasks) x ≡ true) × (includes order x ≡ false) × (waits order x ≡ 0)
    facts = ground (arith, inv.offered x, str_eq_refl x)

    not_its_own : includes (dependencies_of tasks x) x ≡ false
    not_its_own = elim (Bool-cases (includes (dependencies_of tasks x) x)) [
      | inl own ↦
          let taken = missing_zero (dependencies_of tasks x) order facts.2 x own in
          absurd (ground (arith, facts))
      | inr other ↦ other
    ]

    Settled-after : Settled (dependents_of tasks x) (indegree, ready) after
    Settled-after =
        settle-Settled (comes_before tasks) (dependents_of tasks x) (indegree, ready)
          (distinct-dependents_of tasks unique dist x)

    counts_after :
        (k : String)
        → includes (ids tasks) k ≡ true
        → after.0 k ≡ some (pos (waits (order ++ x ∷ []) k))
    counts_after k m =
        let before = inv.counts k m in
        let fewer = waits-before x k order facts.1 in
        let listed = includes-dependents_of tasks unique dist x k in
        elim (Bool-cases (includes (dependencies_of tasks k) x)) [
          | inl inside ↦
              Settled-after.less k (waits (order ++ x ∷ []) k) (rw (listed, m, inside))
                (before ∙ ap (λ n. some (pos n)) (fewer ∙ rw inside))
          | inr outside ↦
              Settled-after.same k (rw (listed, m, outside))
              ∙ before
              ∙ ap (λ n. some (pos n)) (fewer ∙ rw outside)
        ]

    offered_after :
        (k : String)
        → includes after.1 k ≡ (
            includes (ids tasks) k
            && (not (includes (order ++ x ∷ []) k) && (waits (order ++ x ∷ []) k == 0)))
    offered_after k = elim (Bool-cases (includes (ids tasks) k)) [
      | inl m ↦ ground (
        arith,
        Settled-after.ready k,
        inv.counts k m,
        inv.offered k,
        inv.settled k,
        inv.once,
        waits-before x k order facts.1,
        includes-dependents_of tasks unique dist x k,
        includes-snoc order x k,
        str_eq_iff x k,
        not_its_own,
        facts,
      )
      | inr m ↦ ground (
        arith,
        Settled-after.ready k,
        inv.offered k,
        includes-dependents_of tasks unique dist x k,
      )
    ]

    step-Inv : Inv after.0 after.1 (order ++ x ∷ [])
    step-Inv = record {
      counts = counts_after;
      offered = offered_after;
      once =
          distinct-settle (comes_before tasks) (dependents_of tasks x) (indegree, ready)
            (distinct-dependents_of tasks unique dist x) (ground (arith, inv.once))
            (λ k m. ground (
              arith,
              inv.offered k,
              includes-dependents_of tasks unique dist x k,
              waits-before x k order facts.1,
            ));
      taken_once = rw (distinct-snoc order x, facts.1, inv.taken_once);
      known = λ k m. ground (arith, inv.known k, includes-snoc order x k, str_eq_iff x k, facts);
      settled = λ k m. ground (
        arith,
        inv.settled k,
        includes-snoc order x k,
        str_eq_iff x k,
        facts,
        not_its_own,
        waits-before x k order facts.1,
      );
      ordered =
          IsOrdered-snoc (dependencies_of tasks) [] order x inv.ordered
            (missing_zero (dependencies_of tasks x) order facts.2);
    }

  -- What the loop ends with.
  record Final (order : List String) : Type 0 where
    indegree : Indegrees
    inv : Inv indegree [] order

  take_ready-Final :
      (fuel : ℕ) (indegree : Indegrees) (ready order : List String)
      → Inv indegree ready order
      → missing (ids tasks) order ≤ fuel
      → (final : List String) × (take_ready fuel tasks indegree ready order ≡ some final)
        × Final final
  unfolding take_ready
  take_ready-Final zero indegree [] order inv h =
      (order, refl, record { indegree = indegree; inv = inv })
  take_ready-Final (suc fuel) indegree [] order inv h =
      (order, refl, record { indegree = indegree; inv = inv })
  take_ready-Final zero indegree (x ∷ ready) order inv h =
      let (m, new, _) = facts indegree x ready order inv in
      absurd (omega (arith, missing-Adds-lt (Adds-snoc x order) (ids tasks) m new))
  take_ready-Final (suc fuel) indegree (x ∷ ready) order inv h =
      let (m, new, _) = facts indegree x ready order inv in
      let less = missing-Adds-lt (Adds-snoc x order) (ids tasks) m new in
      let next = after indegree x ready order inv in
      take_ready-Final fuel next.0 next.1 (order ++ x ∷ []) (step-Inv indegree x ready order inv)
        (omega (arith, less))

  -- A task that is never taken waits for another such task.
  left_over-Unfounded :
      (order : List String)
      → Final order
      → IsClosed (ids tasks) tasks
      → Unfounded (dependencies_of tasks) (λ k. includes (ids tasks) k && not (includes order k))
  left_over-Unfounded order final closed k h =
      let (d, dep, out) =
        missing_pos (dependencies_of tasks k) order (λ e. ground (arith, final.inv.offered k, e)) in
      (d, dep, ground (arith, dependencies_of-Within tasks closed k d dep, out))

  all_taken :
      (order : List String)
      → Final order
      → validate_normalized_dag_tasks tasks ≡ []
      → (k : String) → includes order k ≡ includes (ids tasks) k
  all_taken order final clean k =
      let (closed, (vs, finished, all)) = validate-Finished tasks clean in
      let left = left_over-Unfounded order final closed in
      elim (Bool-cases (includes (ids tasks) k)) [
        | inl m ↦
            let out =
              Finished-Unfounded (dependencies_of tasks)
                (λ j. includes (ids tasks) j && not (includes order j)) left vs finished k
                (all k m) in
            ground arith
        | inr m ↦ ground (arith, final.inv.known k)
      ]

-- For normalized tasks of distinct ids and dependencies in which no issue is found, the loop ends, and
-- the order has each task exactly once and behind all of its dependencies.
pub order_tasks-IsOrdered :
    (tasks : List NormalizedDagTask)
    → distinct (ids tasks) ≡ true
    → DistinctDependencies tasks
    → validate_normalized_dag_tasks tasks ≡ []
    → (order : List String) × (order_tasks tasks ≡ some order)
      × (distinct order ≡ true)
      × ((k : String) → includes order k ≡ includes (ids tasks) k)
      × IsOrdered (dependencies_of tasks) [] order
unfolding order_tasks
order_tasks-IsOrdered tasks unique dist clean =
    let (order, e, final) =
      take_ready-Final tasks unique dist (length tasks) (indegrees tasks) (free_ids tasks) []
        (start-Inv tasks unique dist) (omega (arith, missing-nil (ids tasks), length-ids tasks)) in
    (
      order,
      e,
      final.inv.taken_once,
      all_taken tasks unique dist order final clean,
      final.inv.ordered,
    )
