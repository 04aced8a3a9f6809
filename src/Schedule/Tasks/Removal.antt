-- ===== src/Schedule/Tasks/Removal.antt =====
-- schedule/index.ts, `removeTask`: the task that is taken out and the others.
use athena_console.Prelude.{
  String, ◌≡◌, refl, ◌∙◌, ap, true, false, none, List, [], ◌∷◌, str_eq, str_eq_iff, is_some,
  includes, distinct, ok, arith, Bool-cases, inl, inr,
}
use athena_console.Schedule.{
  ScheduledTask, Schedules, is_schedule_id, is_task, load_tasks, migrate_tasks, remove_first,
  find_task, save_tasks, remove_task,
}
use athena_console.Schedule.Ends.{migrate_tasks_idem}
use athena_console.Schedule.Tasks.{ids, ids-migrate_tasks}

-- A task that is not among the ids is not found.
find_task-missing :
    (id : String) (tasks : List ScheduledTask)
    → includes (ids tasks) id ≡ false
    → find_task id (migrate_tasks tasks) ≡ none
find_task-missing id [] h = refl
find_task-missing id (task ∷ tasks) h = ground (arith, find_task-missing id tasks)

includes-remove_first :
    (id other : String) (tasks : List ScheduledTask)
    → includes (ids tasks) other ≡ false
    → includes (ids (remove_first id tasks)) other ≡ false
includes-remove_first id other [] h = refl
includes-remove_first id other (task ∷ tasks) h =
    ground (arith, includes-remove_first id other tasks)

distinct-remove_first :
    (id : String) (tasks : List ScheduledTask)
    → distinct (ids tasks) ≡ true
    → (distinct (ids (remove_first id tasks)) ≡ true)
      × (includes (ids (remove_first id tasks)) id ≡ false)
distinct-remove_first id [] h = (refl, refl)
distinct-remove_first id (task ∷ tasks) h = elim (Bool-cases (is_task id task)) [
  | inl here ↦
      let e = (str_eq_iff task.id id).0 here in rw here (ground arith, rw (← e) (ground arith))
  | inr other ↦
      let (rest, gone) = distinct-remove_first id tasks (ground arith) in
      rw other (ground (arith, includes-remove_first id task.id tasks), ground arith)
]

find_task-remove_first :
    (id other : String) (tasks : List ScheduledTask)
    → str_eq id other ≡ false
    → find_task other (migrate_tasks (remove_first id tasks))
      ≡ find_task other (migrate_tasks tasks)
find_task-remove_first id other [] h = refl
find_task-remove_first id other (task ∷ tasks) h = elim (Bool-cases (is_task id task)) [
  | inl here ↦
      let e = (str_eq_iff task.id id).0 here in
      let apart : str_eq task.id other ≡ false = rw e h in rw here (rw apart refl)
  | inr there ↦ rw there (elim (Bool-cases (is_task other task)) [
    | inl found ↦ rw found refl
    | inr missed ↦ rw missed (find_task-remove_first id other tasks h)
  ])
]

-- A task that is there is taken out: it is not found any more, every other one is as before, and the ids stay
-- distinct.
pub remove_task-removes :
    (state : Schedules) (id other : String)
    → is_schedule_id id ≡ true
    → distinct (ids state.tasks) ≡ true
    → is_some (find_task id (load_tasks state)) ≡ true
    → str_eq id other ≡ false
    → (state' : Schedules) × (remove_task state id ≡ ok (state', true))
      × (find_task id (load_tasks state') ≡ none)
      × (find_task other (load_tasks state') ≡ find_task other (load_tasks state))
      × (distinct (ids state'.tasks) ≡ true)
unfolding remove_task
remove_task-removes state id other valid once there apart =
    let tasks = load_tasks state in
    let once' : distinct (ids tasks) ≡ true = rw (ids-migrate_tasks state.tasks) once in
    let (distinct_rest, gone) = distinct-remove_first id tasks once' in
    (
      save_tasks (remove_first id tasks) state,
      rw (valid, there) refl,
      rw (migrate_tasks_idem (remove_first id tasks))
          (find_task-missing id (remove_first id tasks) gone),
      rw (migrate_tasks_idem (remove_first id tasks)) (
          find_task-remove_first id other tasks apart
          ∙ ap (find_task other) (migrate_tasks_idem state.tasks)),
      rw (ids-migrate_tasks (remove_first id tasks)) distinct_rest,
    )
