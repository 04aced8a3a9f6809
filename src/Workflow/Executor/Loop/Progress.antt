-- ===== src/Workflow/Executor/Loop/Progress.antt =====
-- workflow-dag-executor.ts: a run of a task that completes its step, and how many steps it leaves open.
use athena_console.Prelude.{
  ℕ, suc, ◌≤◌, ◌<◌, String, ◌≡◌, refl, Bool, true, false, Option, none, some, List, [], ◌∷◌, ◌++◌,
  length, includes, str_eq, str_eq_iff, str_eq_refl, ok, arith, Bool-cases, Option-cases, ap, sym,
  ◌∙◌, subst, inl, inr, if◌then◌else◌,
}
use athena_console.Tasks.{TaskRecord}
use athena_console.Tasks.Reads.{find_by_workflow_dag_step}
use athena_console.Workflow.Runs.{
  WorkflowDagRunRecord, WorkflowDagStepRecord, WorkflowDagStepStatus, Tables,
  WorkflowDagRunSnapshot,
}
use athena_console.Workflow.Runs.View.{View}
use athena_console.Workflow.State.{recompute_readiness, find_step, is_pending, is_completed}
use athena_console.Workflow.State.Steps.{with_key}
use athena_console.Workflow.State.Moves.{status_of}
use athena_console.Workflow.Executor.{TaskRun, select_from, is_runnable, runnable_step}
use athena_console.Workflow.Executor.Decision.{IsFirst, runnable_step-some}
use athena_console.Workflow.Executor.Failure.{AppState}
use athena_console.Workflow.Executor.Loop.{RunTask, is_done}

-- The tables hold the run, and each step of its order has a task.
pub record Holds (run_id : String) (order : List String) (state : AppState)
    (run : WorkflowDagRunRecord) (steps : List WorkflowDagStepRecord) : Type 0 where
  pub view : View state.tables run_id run steps
  pub ordered : run.step_order ≡ order
  pub tasked :
      (k : String)
      → includes order k ≡ true
      → (task : TaskRecord) × (find_by_workflow_dag_step state.tasks run_id k ≡ some task)

-- What the workbench has made of a state when it has run the task of a step to its end.
pub record Completed (run_id : String) (order : List String) (inv : AppState → Type 0)
    (run_task : RunTask) (state : AppState) (steps : List WorkflowDagStepRecord)
    (step_id task_id : String) (now : ℕ) : Type 0 where
  pub state' : AppState
  pub task_run : TaskRun
  pub run' : WorkflowDagRunRecord
  pub steps' : List WorkflowDagStepRecord
  pub returned : run_task state task_id now ≡ ok (state', task_run)
  pub done : is_done task_run.status ≡ true
  pub kept : inv state'
  pub holds : Holds run_id order state' run' steps'
  pub statuses :
      (k : String)
      → status_of steps' k ≡ with_key step_id WorkflowDagStepStatus.completed (status_of steps) k

-- In the states of a kind, a run of the task of the step that is next completes that step, and leaves a state of
-- this kind. The kind says what the workbench asks for, such as tasks that are ready and have an agent.
abbrev pub Completes : String → List String → (AppState → Type 0) → RunTask → Type 0
Completes run_id order inv run_task =
    (state : AppState) (run : WorkflowDagRunRecord) (steps : List WorkflowDagStepRecord)
    (step : WorkflowDagStepRecord) (task : TaskRecord) (now : ℕ)
    → inv state
    → Holds run_id order state run steps
    → select_from steps order ≡ some step
    → find_by_workflow_dag_step state.tasks run_id step.step_id ≡ some task
    → Completed run_id order inv run_task state steps step.step_id task.id now

-- To compute the readiness again keeps the kind of a state.
abbrev pub Recomputes : String → (AppState → Type 0) → Type 0
Recomputes run_id inv =
    (state : AppState) (tables : Tables) (snapshot : WorkflowDagRunSnapshot) (now : ℕ)
    → recompute_readiness state.tables run_id now ≡ ok (tables, snapshot)
    → inv state
    → inv (record { tables = tables; tasks = state.tasks })

abbrev is_closed : Option WorkflowDagStepStatus → Bool
is_closed none = false
is_closed (some status) = is_completed status

-- How many steps of an order are not completed.
abbrev pub open_steps : List WorkflowDagStepRecord → List String → ℕ
open_steps steps [] = 0
open_steps steps (k ∷ ks) =
    if is_closed (status_of steps k) then open_steps steps ks else suc (open_steps steps ks)

pub open_steps-le-length :
    (steps : List WorkflowDagStepRecord) (ks : List String) → open_steps steps ks ≤ length ks
open_steps-le-length steps [] = omega arith
open_steps-le-length steps (k ∷ ks) = elim (Bool-cases (is_closed (status_of steps k))) [
  | inl closed ↦ rw closed (omega (arith, open_steps-le-length steps ks))
  | inr open_one ↦ rw open_one (omega (arith, open_steps-le-length steps ks))
]

pub open_steps-cong :
    (steps steps' : List WorkflowDagStepRecord)
    → ((k : String) → status_of steps k ≡ status_of steps' k)
    → (ks : List String) → open_steps steps ks ≡ open_steps steps' ks
open_steps-cong steps steps' same [] = refl
open_steps-cong steps steps' same (k ∷ ks) =
    rw (same k) (ground (arith, open_steps-cong steps steps' same ks))

module _ (steps steps' : List WorkflowDagStepRecord) (step_id : String)
    (statuses : (k : String)
      → status_of steps' k
        ≡ with_key step_id WorkflowDagStepStatus.completed (status_of steps) k) where
  closed-stays :
      (k : String) → is_closed (status_of steps k) ≡ true → is_closed (status_of steps' k) ≡ true
  closed-stays k closed = rw (statuses k) (elim (Bool-cases (str_eq step_id k)) [
    | inl here ↦ rw here refl
    | inr other ↦ rw other closed
  ])

  open_steps-le : (ks : List String) → open_steps steps' ks ≤ open_steps steps ks
  open_steps-le [] = omega arith
  open_steps-le (k ∷ ks) = elim (Bool-cases (is_closed (status_of steps k))) [
    | inl closed ↦ rw (closed, closed-stays k closed) (open_steps-le ks)
    | inr open_one ↦ elim (Bool-cases (is_closed (status_of steps' k))) [
      | inl closed ↦ rw (open_one, closed) (omega (arith, open_steps-le ks))
      | inr still_open ↦ rw (open_one, still_open) (omega (arith, open_steps-le ks))
    ]
  ]

  -- A step that was open is not any more.
  open_steps-lt :
      (before after : List String)
      → is_closed (status_of steps step_id) ≡ false
      → open_steps steps' (before ++ step_id ∷ after) < open_steps steps (before ++ step_id ∷ after)
  open_steps-lt [] after open_one =
      let closed : is_closed (status_of steps' step_id) ≡ true =
        rw (statuses step_id) (rw (str_eq_refl step_id) refl) in
      rw (open_one, closed) (omega (arith, open_steps-le after))
  open_steps-lt (k ∷ before) after open_one = elim (Bool-cases (is_closed (status_of steps k))) [
    | inl closed ↦ rw (closed, closed-stays k closed) (open_steps-lt before after open_one)
    | inr opened ↦ elim (Bool-cases (is_closed (status_of steps' k))) [
      | inl closed ↦ rw (opened, closed) (omega (arith, open_steps-lt before after open_one))
      | inr still_open ↦
          rw (opened, still_open) (omega (arith, open_steps-lt before after open_one))
    ]
  ]

found_id :
    (steps : List WorkflowDagStepRecord) (k : String) (s : WorkflowDagStepRecord)
    → find_step steps k ≡ some s
    → s.step_id ≡ k
found_id [] k s e = cc
found_id (u ∷ steps) k s e = ground (arith, found_id steps k s, str_eq_iff u.step_id k)

-- The chosen step is the one that its id finds.
pub select_from-found :
    (steps : List WorkflowDagStepRecord) (order : List String) (step : WorkflowDagStepRecord)
    → select_from steps order ≡ some step
    → find_step steps step.step_id ≡ some step
unfolding select_from
select_from-found steps [] step chosen = cc
select_from-found steps (k ∷ order) step chosen = elim (Option-cases (find_step steps k)) [
  | inl gone ↦ select_from-found steps order step (rw gone at chosen)
  | inr (s, there) ↦ elim (Bool-cases (is_runnable s)) [
    | inl runs ↦
        let same : s ≡ step = ground (arith, there, runs, chosen) in
        let named = found_id steps k s there in
        subst (λ u. find_step steps u.step_id ≡ some u) same (ap (find_step steps) named ∙ there)
    | inr blocked ↦ select_from-found steps order step (rw (there, blocked) at chosen)
  ]
]

pub select_from-listed :
    (steps : List WorkflowDagStepRecord) (order : List String) (step : WorkflowDagStepRecord)
    → select_from steps order ≡ some step
    → includes order step.step_id ≡ true
unfolding select_from
select_from-listed steps [] step chosen = cc
select_from-listed steps (k ∷ order) step chosen =
    elim (Option-cases (runnable_step (find_step steps k))) [
      | inl gone ↦
          let there = select_from-listed steps order step (rw gone at chosen) in ground arith
      | inr (s, e) ↦
          let (found, runs) = runnable_step-some (find_step steps k) e in
          let named = found_id steps k s found in
          let same : s ≡ step = ground (arith, e, chosen) in
          let here : step.step_id ≡ k = ap (λ u. u.step_id) (sym same) ∙ named in
          rw (here, str_eq_refl k) refl
    ]

pending-open :
    (status : WorkflowDagStepStatus) → is_pending status ≡ true → is_completed status ≡ false
pending-open WorkflowDagStepStatus.pending h = refl
pending-open WorkflowDagStepStatus.completed h = cc
pending-open _ h = ground arith

includes-middle :
    (before : List String) (k : String) (after : List String)
    → includes (before ++ k ∷ after) k ≡ true
includes-middle [] k after = rw (str_eq_refl k)
includes-middle (x ∷ before) k after = ground (arith, includes-middle before k after)

module _ (steps : List WorkflowDagStepRecord) (order : List String) (step : WorkflowDagStepRecord)
    (is_first : IsFirst steps order step) where
  next_id : step.step_id ≡ is_first.step_id
  next_id = found_id steps is_first.step_id step is_first.found

  pub next_listed : includes order step.step_id ≡ true
  next_listed =
      rw (next_id, is_first.split) (includes-middle is_first.before is_first.step_id is_first.after)

  next_open : is_closed (status_of steps is_first.step_id) ≡ false
  next_open = rw is_first.found (pending-open step.status (ground arith))

  -- One step less is open when the next one is completed.
  pub next_drops :
      (steps' : List WorkflowDagStepRecord)
      → ((k : String)
          → status_of steps' k
            ≡ with_key step.step_id WorkflowDagStepStatus.completed (status_of steps) k)
      → open_steps steps' order < open_steps steps order
  next_drops steps' statuses = rw is_first.split (
      open_steps-lt steps steps' is_first.step_id (rw next_id at statuses) is_first.before
        is_first.after next_open)
