-- ===== src/Workflow/State/Created.antt =====
-- workflow-state.ts, `createRun`: a run is created from a template.
use athena_console.Prelude.{
  ℕ, String, ◌≡◌, refl, sym, ◌∙◌, ap, inl, inr, ◌↔◌, ◌≢◌, true, false, none, some, List, [], ◌∷◌,
  ◌++◌, map, arith, if◌then◌else◌, Bool-cases, str_eq, str_eq_iff, str_eq_refl, includes,
  includes-append, distinct, filter, find, any, get_or, map_of, ok, ◌>>=◌, All,
}
use mathlib.Core.List.{append-nil, append_assoc}
use athena_console.Workflow.Template.{validate_workflow_template_dag}
use athena_console.Workflow.Template.Order.{WorkflowTemplateDagDefinition}
use athena_console.Json.{Value}
use athena_console.Workflow.Template.Declared.{declares}
use athena_console.Workflow.Template.Parse.{IsPlan, parse-IsPlan}
use athena_console.Workflow.Runs.{
  WorkflowDagRunRecord, WorkflowDagStepRecord, WorkflowDagRunStatus, WorkflowDagStepStatus, Tables,
  get, list_steps, map_workflow_dag_run_row, require_snapshot,
}
use athena_console.Workflow.Runs.Repository.{is_step}
use athena_console.Workflow.Runs.Create.{
  CreateWorkflowDagRunInput, new_run, new_step, insert_run, insert_step, insert_steps,
  created_event, create, is_nil,
}
use athena_console.Workflow.Runs.View.{
  View, step_ids, append_event-View, require_snapshot-View, snapshot_of,
}
use athena_console.Workflow.State.Moves.{Moves, IsCurrent, status_of, attempt_of}
use athena_console.Workflow.State.Launch.{CreateWorkflowStateRunRequest, run_input, create_run}

-- The steps that a run is created with.
abbrev pub new_steps : CreateWorkflowDagRunInput → ℕ → List String → List WorkflowDagStepRecord
new_steps input now step_ids = map (new_step input now) step_ids

any-step :
    (id k : String) (rows : List WorkflowDagStepRecord)
    → any (is_step id k) rows ≡ includes (step_ids (filter (λ s. str_eq s.run_id id) rows)) k
any-step id k [] = refl
any-step id k (s ∷ rows) = ground (arith, any-step id k rows)

filter-snoc :
    (id : String) (rows : List WorkflowDagStepRecord) (s : WorkflowDagStepRecord)
    → s.run_id ≡ id
    → filter (λ (u : WorkflowDagStepRecord). str_eq u.run_id id) (rows ++ s ∷ [])
      ≡ filter (λ (u : WorkflowDagStepRecord). str_eq u.run_id id) rows ++ s ∷ []
filter-snoc id [] s e = ground (arith, str_eq_iff s.run_id id)
filter-snoc id (u ∷ rows) s e = ground (arith, filter-snoc id rows s e)

find-snoc :
    (id : String) (rows : List WorkflowDagRunRecord) (r : WorkflowDagRunRecord)
    → r.id ≡ id
    → any (λ (u : WorkflowDagRunRecord). str_eq u.id id) rows ≡ false
    → find (λ (u : WorkflowDagRunRecord). str_eq u.id id) (rows ++ r ∷ []) ≡ some r
find-snoc id [] r e free = ground (arith, str_eq_iff r.id id)
find-snoc id (u ∷ rows) r e free = ground (arith, find-snoc id rows r e)

step_ids-append :
    (xs ys : List WorkflowDagStepRecord) → step_ids (xs ++ ys) ≡ step_ids xs ++ step_ids ys
step_ids-append [] ys = refl
step_ids-append (x ∷ xs) ys = ap (λ l. x.step_id ∷ l) (step_ids-append xs ys)

step_ids-new_steps :
    (input : CreateWorkflowDagRunInput) (now : ℕ) (ks : List String)
    → step_ids (new_steps input now ks) ≡ ks
step_ids-new_steps input now [] = refl
step_ids-new_steps input now (k ∷ ks) = ap (λ l. k ∷ l) (step_ids-new_steps input now ks)

module _ (input : CreateWorkflowDagRunInput) (now : ℕ) where
  -- Each step is put behind those of the run that are there.
  insert_steps-listed :
      (ks : List String) (t : Tables)
      → distinct ks ≡ true
      → ((k : String)
          → includes ks k ≡ true
          → includes (step_ids (list_steps t input.id)) k ≡ false)
      → (t' : Tables) × (insert_steps input now ks t ≡ ok t')
        × (t'.workflow_dag_runs ≡ t.workflow_dag_runs)
        × (list_steps t' input.id ≡ list_steps t input.id ++ new_steps input now ks)
  unfolding insert_steps insert_step list_steps
  insert_steps-listed [] t unique apart = (t, refl, refl, sym (append-nil (list_steps t input.id)))
  insert_steps-listed (k ∷ ks) t unique apart =
      let s = new_step input now k in
      let rows = t.workflow_dag_run_steps in
      let free : any (is_step input.id k) rows ≡ false =
        any-step input.id k rows ∙ apart k (rw (str_eq_refl k)) in
      let t1 : Tables = record t { workflow_dag_run_steps = rows ++ s ∷ [] } in
      let listed = filter-snoc input.id rows s refl in
      let (t', ran, runs, steps) = insert_steps-listed ks t1 (ground arith) (λ j m.
        rw (listed, step_ids-append (list_steps t input.id) (s ∷ []))
          (ground (
            arith,
            includes-append (step_ids (list_steps t input.id)) (k ∷ []) j,
            apart j,
            str_eq_iff k j,
          ))) in
      (
        t',
        rw (free) ran,
        runs,
        steps
            ∙ ap (λ l. l ++ new_steps input now ks) listed
            ∙ append_assoc (list_steps t input.id) (s ∷ []) (new_steps input now ks),
      )

  created_event-View :
      (t : Tables)
      → distinct input.step_order ≡ true
      → any (λ (r : WorkflowDagRunRecord). str_eq r.id input.id) t.workflow_dag_runs ≡ false
      → list_steps t input.id ≡ []
      → (t' : Tables) × (View t' input.id
          (map_workflow_dag_run_row (new_run input now))
          (new_steps input now input.step_order))
        × (create t input now ≡ (require_snapshot t' input.id >>= λ snapshot. ok (t', snapshot)))
  unfolding create insert_run get list_steps
  created_event-View t unique fresh bare =
      let t1 : Tables = record t {
        workflow_dag_runs = t.workflow_dag_runs ++ new_run input now ∷ [];
      } in
      let (t2, ran2, runs, steps) =
        insert_steps-listed input.step_order t1 unique (λ k m. rw bare) in
      let view2 : View t2 input.id (map_workflow_dag_run_row (new_run input now))
          (new_steps input now input.step_order) =
        record {
          found =
              rw (runs, find-snoc input.id t.workflow_dag_runs (new_run input now) refl fresh) refl;
          listed = steps ∙ (rw bare refl);
          keyed = rw (step_ids-new_steps input now input.step_order) unique;
        } in
      let (t3, ran3, view3) =
        append_event-View t2 input.id _ _ view2 (created_event input now) refl in
      (t3, view3, rw (fresh) (rw ran2 (rw ran3)))

  status_of-new_steps :
      (ks : List String) (k : String)
      → status_of (new_steps input now ks) k
        ≡ (if includes ks k then some WorkflowDagStepStatus.pending else none)
  status_of-new_steps [] k = refl
  status_of-new_steps (j ∷ ks) k = ground (arith, status_of-new_steps ks k)

  attempt_of-new_steps :
      (ks : List String) (k : String)
      → attempt_of (new_steps input now ks) k ≡ (if includes ks k then some 0 else none)
  attempt_of-new_steps [] k = refl
  attempt_of-new_steps (j ∷ ks) k = ground (arith, attempt_of-new_steps ks k)

  none_completed :
      (ks : List String) (d : String)
      → status_of (new_steps input now ks) d ≢ some WorkflowDagStepStatus.completed
  none_completed ks d h = elim (Bool-cases (includes ks d)) [
    | inl m ↦
        let is : status_of (new_steps input now ks) d ≡ some WorkflowDagStepStatus.pending =
          status_of-new_steps ks d ∙ (rw m refl) in
        ground arith
    | inr m ↦
        let is : status_of (new_steps input now ks) d ≡ none =
          status_of-new_steps ks d ∙ (rw m refl) in
        ground arith
  ]

  -- A list has no member exactly if it is empty.
  is_nil_iff : (ds : List String) → (is_nil ds ≡ true) ↔ ((d : String) → includes ds d ≡ false)
  is_nil_iff [] = ((λ h d. refl), (λ h. refl))
  is_nil_iff (x ∷ ds) = ((λ h. cc), (λ h. ground (arith, h x, str_eq_refl x)))

  new_step-IsCurrent :
      (ks : List String) (k : String) → IsCurrent (new_steps input now ks) (new_step input now k)
  new_step-IsCurrent ks k =
      let ds = get_or (map_of input.dependencies k) [] in
      record {
        blocked = λ d. ((λ m. (m, none_completed ks d)), (λ h. h.0));
        ready = (
          (λ r. (refl, λ d m. absurd (let out = (is_nil_iff ds).0 r d in cc))),
          (λ h. (is_nil_iff ds).1 (λ d. elim (Bool-cases (includes ds d)) [
            | inl m ↦ absurd (none_completed ks d (h.1 d m))
            | inr m ↦ m
          ])),
        );
      }

  All-new_steps :
      (ks rest : List String) → All (IsCurrent (new_steps input now ks)) (new_steps input now rest)
  All-new_steps ks [] = tt
  All-new_steps ks (k ∷ rest) = (new_step-IsCurrent ks k, All-new_steps ks rest)

  create-Moves :
      (t : Tables)
      → distinct input.step_order ≡ true
      → any (λ (r : WorkflowDagRunRecord). str_eq r.id input.id) t.workflow_dag_runs ≡ false
      → list_steps t input.id ≡ []
      → (m : Moves input.id
          (create t input now)
          WorkflowDagRunStatus.pending
          (λ k. if includes input.step_order k then some WorkflowDagStepStatus.pending else none)
          (λ k. if includes input.step_order k then some 0 else none))
        × (m.snapshot.run.step_order ≡ input.step_order)
        × (m.snapshot.steps ≡ new_steps input now input.step_order)
  unfolding map_workflow_dag_run_row
  create-Moves t unique fresh bare =
      let (t', view, ran) = created_event-View t unique fresh bare in
      (
        record {
          tables = t';
          snapshot = snapshot_of t' input.id _ _ view;
          returned = ran ∙ (rw (require_snapshot-View t' input.id _ _ view) refl);
          view = view;
          run_status_is = refl;
          statuses_are = status_of-new_steps input.step_order;
          attempts_are = attempt_of-new_steps input.step_order;
          current = All-new_steps input.step_order input.step_order;
        },
        refl,
        refl,
      )

-- Each step depends on what the template declares for its task.
abbrev pub HasDeclared : List Value → WorkflowDagStepRecord → Type 0
HasDeclared tasks s = (d : String) → includes s.dependencies d ≡ declares tasks s.step_id d

All-declared :
    (input : CreateWorkflowDagRunInput) (now : ℕ) (tasks : List Value)
    → ((id d : String)
        → includes (get_or (map_of input.dependencies id) []) d ≡ declares tasks id d)
    → (ks : List String) → All (HasDeclared tasks) (new_steps input now ks)
All-declared input now tasks declared [] = tt
All-declared input now tasks declared (k ∷ ks) =
    (declared k, All-declared input now tasks declared ks)

-- Creating a run from a template in which no issue is found returns, where the tables hold no run of its id and
-- no step of such a run: the run is pending, its order is that of the plan, its steps are the tasks of the plan, each
-- with just the dependencies that the template declares, pending, with no attempt and with its readiness up to
-- date.
pub create_run-Moves :
    (t : Tables) (request : CreateWorkflowStateRunRequest) (now : ℕ)
    → validate_workflow_template_dag (some request.tasks) ≡ []
    → any (λ (r : WorkflowDagRunRecord). str_eq r.id request.run_id) t.workflow_dag_runs ≡ false
    → list_steps t request.run_id ≡ []
    → (dag : WorkflowTemplateDagDefinition) × IsPlan request.tasks dag
      × (m : Moves request.run_id
          (create_run t request now)
          WorkflowDagRunStatus.pending
          (λ k. if includes dag.task_order k then some WorkflowDagStepStatus.pending else none)
          (λ k. if includes dag.task_order k then some 0 else none))
      × (m.snapshot.run.step_order ≡ dag.task_order)
      × All (HasDeclared request.tasks) m.snapshot.steps
unfolding create_run
create_run-Moves t request now clean fresh bare =
    let (dag, parsed, plan) = parse-IsPlan request.tasks clean in
    let (m, same_order, same_steps) =
      create-Moves (run_input request dag) now t plan.once fresh bare in
    (
      dag,
      plan,
      record {
        tables = m.tables;
        snapshot = m.snapshot;
        returned = rw (parsed, create_run) m.returned;
        view = m.view;
        run_status_is = m.run_status_is;
        statuses_are = m.statuses_are;
        attempts_are = m.attempts_are;
        current = m.current;
      },
      same_order,
      rw same_steps
          (All-declared (run_input request dag) now request.tasks plan.declared dag.task_order),
    )
