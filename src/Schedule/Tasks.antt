-- ===== src/Schedule/Tasks.antt =====
-- schedule/index.ts: the ids of the tasks, and the tasks that are put in.
pub mod Removal
use athena_console.Prelude.{
  ℕ, ◌+◌, ◌*◌, Bool, get_or, if◌then◌else◌, String, ◌≡◌, refl, sym, subst, ◌∙◌, ap, true, false,
  ◌||◌, Option, none, some, List, [], ◌∷◌, ◌++◌, str_eq, str_eq_refl, str_eq_iff, is_some, includes,
  distinct, ok, arith, Bool-cases, inl, inr,
}
use athena_console.Json.{ℤ}
use athena_console.SessionId.{is_session_id}
use athena_console.Schedule.{
  ScheduledTask, UpsertScheduleRequest, Schedules, is_schedule_id, is_task, load_tasks,
  migrate_tasks, migrate_scheduled_task, remove_first, update_first, find_task, save_tasks,
  remove_task, interval_of, enabled_of, given_text, input_of, upserted, put_task, upsert_task,
}
use athena_console.Schedule.Ends.{migrate_tasks_idem}

abbrev pub ids : List ScheduledTask → List String
ids [] = []
ids (task ∷ tasks) = task.id ∷ ids tasks

pub ids-migrate_tasks : (tasks : List ScheduledTask) → ids (migrate_tasks tasks) ≡ ids tasks
ids-migrate_tasks [] = refl
ids-migrate_tasks (task ∷ tasks) = ap (λ rest. task.id ∷ rest) (ids-migrate_tasks tasks)

find_task-append :
    (id : String) (next : ScheduledTask) (tasks : List ScheduledTask)
    → str_eq next.id id ≡ true
    → find_task id tasks ≡ none
    → find_task id (migrate_tasks (tasks ++ next ∷ [])) ≡ some (migrate_scheduled_task next)
find_task-append id next [] here gone = rw here refl
find_task-append id next (task ∷ tasks) here gone = elim (Bool-cases (is_task id task)) [
  | inl found ↦ absurd (let h : some task ≡ none = rw (found, find_task) at gone in cc)
  | inr missed ↦ rw missed (find_task-append id next tasks here (rw (missed, find_task) at gone))
]

find_task-append_other :
    (other : String) (next : ScheduledTask) (tasks : List ScheduledTask)
    → str_eq next.id other ≡ false
    → find_task other (migrate_tasks (tasks ++ next ∷ [])) ≡ find_task other (migrate_tasks tasks)
find_task-append_other other next [] apart = rw apart refl
find_task-append_other other next (task ∷ tasks) apart = elim (Bool-cases (is_task other task)) [
  | inl found ↦ rw found refl
  | inr missed ↦ rw missed (find_task-append_other other next tasks apart)
]

find_task-update_first :
    (id : String) (next : ScheduledTask) (tasks : List ScheduledTask)
    → str_eq next.id id ≡ true
    → is_some (find_task id tasks) ≡ true
    → find_task id (migrate_tasks (update_first id (λ _. next) tasks))
      ≡ some (migrate_scheduled_task next)
find_task-update_first id next [] here there = absurd cc
find_task-update_first id next (task ∷ tasks) here there = elim (Bool-cases (is_task id task)) [
  | inl found ↦ rw found (rw here refl)
  | inr missed ↦
      let rest : is_some (find_task id tasks) ≡ true = rw (missed, find_task) at there in
      rw missed (rw missed (find_task-update_first id next tasks here rest))
]

find_task-update_first_other :
    (id other : String) (next : ScheduledTask) (tasks : List ScheduledTask)
    → str_eq id other ≡ false
    → str_eq next.id id ≡ true
    → find_task other (migrate_tasks (update_first id (λ _. next) tasks))
      ≡ find_task other (migrate_tasks tasks)
find_task-update_first_other id other next [] apart here = refl
find_task-update_first_other id other next (task ∷ tasks) apart here =
    elim (Bool-cases (is_task id task)) [
      | inl found ↦
          let e = (str_eq_iff task.id id).0 found in
          let h = (str_eq_iff next.id id).0 here in
          let first : str_eq task.id other ≡ false = rw e apart in
          let second : str_eq next.id other ≡ false = rw h apart in
          rw found (rw (first, second) refl)
      | inr missed ↦ rw missed (elim (Bool-cases (is_task other task)) [
        | inl yes_there ↦ rw yes_there refl
        | inr not_there ↦ rw not_there (find_task-update_first_other id other next tasks apart here)
      ])
    ]

-- A task that is loaded has the current version, and the id that it is found by.
find_task-loaded :
    (id : String) (tasks : List ScheduledTask) {task : ScheduledTask}
    → find_task id (migrate_tasks tasks) ≡ some task
    → (migrate_scheduled_task task ≡ task) × (str_eq task.id id ≡ true)
find_task-loaded id [] e = absurd cc
find_task-loaded id (first ∷ tasks) {task} e = elim (Bool-cases (is_task id first)) [
  | inl here ↦
      let same : some (migrate_scheduled_task first) ≡ some task = rw (here, find_task) at e in
      let plain : migrate_scheduled_task first ≡ task = cc in
      subst (λ t. (migrate_scheduled_task t ≡ t) × (str_eq t.id id ≡ true)) plain (refl, here)
  | inr other ↦ find_task-loaded id tasks (rw (other, find_task) at e)
]

ids-append :
    (next : ScheduledTask) (tasks : List ScheduledTask) (id : String)
    → includes (ids (tasks ++ next ∷ [])) id ≡ (includes (ids tasks) id || str_eq next.id id)
ids-append next [] id = ground arith
ids-append next (task ∷ tasks) id = ground (arith, ids-append next tasks id)

distinct-append :
    (next : ScheduledTask) (tasks : List ScheduledTask)
    → distinct (ids tasks) ≡ true
    → find_task next.id tasks ≡ none
    → distinct (ids (tasks ++ next ∷ [])) ≡ true
distinct-append next [] once gone = refl
distinct-append next (task ∷ tasks) once gone = elim (Bool-cases (is_task next.id task)) [
  | inl found ↦ absurd (let h : some task ≡ none = rw (found, find_task) at gone in cc)
  | inr missed ↦
      let rest : find_task next.id tasks ≡ none = rw (missed, find_task) at gone in
      let e = ids-append next tasks task.id in
      ground
        (arith, distinct-append next tasks, str_eq_iff next.id task.id, str_eq_iff task.id next.id)
]

ids-update_first :
    (id : String) (next : ScheduledTask) (tasks : List ScheduledTask)
    → str_eq next.id id ≡ true
    → ids (update_first id (λ _. next) tasks) ≡ ids tasks
ids-update_first id next [] here = refl
ids-update_first id next (task ∷ tasks) here = elim (Bool-cases (is_task id task)) [
  | inl found ↦ rw found (
      ap (λ k. k ∷ ids tasks)
        ((str_eq_iff next.id id).0 here ∙ sym ((str_eq_iff task.id id).0 found)))
  | inr missed ↦ rw missed (ap (λ rest. task.id ∷ rest) (ids-update_first id next tasks here))
]

-- What `put_task` does to a list that has the task at most once.
record Puts (id other : String) (next : ScheduledTask) (tasks tasks' : List ScheduledTask)
    : Type 0 where
  pub here : find_task id (migrate_tasks tasks') ≡ some next
  pub elsewhere : find_task other (migrate_tasks tasks') ≡ find_task other (migrate_tasks tasks)
  pub once : distinct (ids tasks') ≡ true

put_task-Puts :
    (request : UpsertScheduleRequest) (session_id input : String) (minutes now : ℕ)
    (tasks : List ScheduledTask) (other : String)
    → distinct (ids tasks) ≡ true
    → str_eq request.id other ≡ false
    → (existing : Option ScheduledTask) → find_task request.id (migrate_tasks tasks) ≡ existing
    → Puts request.id other
        (upserted request session_id input minutes now existing)
        (migrate_tasks tasks)
        (put_task request.id existing
          (upserted request session_id input minutes now existing)
          (migrate_tasks tasks))
put_task-Puts request session_id input minutes now tasks other once apart none e =
    let next = upserted request session_id input minutes now none in
    record {
      here = find_task-append request.id next (migrate_tasks tasks) (str_eq_refl request.id) e;
      elsewhere = find_task-append_other other next (migrate_tasks tasks) apart;
      once = distinct-append next (migrate_tasks tasks) (rw (ids-migrate_tasks tasks) once) e;
    }
put_task-Puts request session_id input minutes now tasks other once apart (some existing) e =
    let next = upserted request session_id input minutes now (some existing) in
    let (current, named) = find_task-loaded request.id tasks e in
    let same : migrate_scheduled_task next ≡ next =
      ap (λ (v : ℕ). record next { schema_version = v })
        (ap (λ (t : ScheduledTask). t.schema_version) current) in
    record {
      here =
          find_task-update_first request.id next (migrate_tasks tasks) named (rw e refl)
          ∙ ap some same;
      elsewhere =
          find_task-update_first_other request.id other next (migrate_tasks tasks) apart named;
      once =
          rw (ids-update_first request.id next (migrate_tasks tasks) named)
            (rw (ids-migrate_tasks tasks) once);
    }

abbrev Kept : Option ScheduledTask → ℕ → ScheduledTask → Type 0
Kept none now next = (next.created_at ≡ now) × (next.running ≡ false) × (next.last_run_at ≡ none)
Kept (some existing) now next =
    (next.created_at ≡ existing.created_at)
    × (next.running ≡ existing.running)
    × (next.last_run_at ≡ existing.last_run_at)
    × (next.other ≡ existing.other)

abbrev was_enabled : Option ScheduledTask → Bool
was_enabled none = true
was_enabled (some existing) = existing.enabled

-- The task says what the request does, and the rest is as it was before.
pub record IsMerged (request : UpsertScheduleRequest) (session_id input : String) (minutes now : ℕ)
    (existing : Option ScheduledTask) (next : ScheduledTask) : Type 0 where
  pub named : next.id ≡ request.id
  pub session : next.session_id ≡ session_id
  pub text : next.input ≡ input
  pub interval : next.every_minutes ≡ minutes
  pub enabled : next.enabled ≡ get_or request.enabled (was_enabled existing)
  pub due : next.next_run_at ≡ (if request.start_now then now else now + minutes * 60000)
  pub updated : next.updated_at ≡ now
  pub kept : Kept existing now next

get_or-enabled_of :
    (enabled : Option Bool) (existing : Option ScheduledTask)
    → enabled_of enabled existing ≡ get_or enabled (was_enabled existing)
get_or-enabled_of (some enabled) existing = refl
get_or-enabled_of none none = refl
get_or-enabled_of none (some existing) = refl

upserted-IsMerged :
    (request : UpsertScheduleRequest) (session_id input : String) (minutes now : ℕ)
    (tasks : List ScheduledTask) (existing : Option ScheduledTask)
    → find_task request.id (migrate_tasks tasks) ≡ existing
    → IsMerged request session_id input minutes now existing
        (upserted request session_id input minutes now existing)
upserted-IsMerged request session_id input minutes now tasks none e = record {
  named = refl;
  session = refl;
  text = refl;
  interval = refl;
  enabled = get_or-enabled_of request.enabled none;
  due = refl;
  updated = refl;
  kept = (refl, refl, refl);
}
upserted-IsMerged request session_id input minutes now tasks (some existing) e = record {
  named = (str_eq_iff existing.id request.id).0 (find_task-loaded request.id tasks e).1;
  session = refl;
  text = refl;
  interval = refl;
  enabled = get_or-enabled_of request.enabled (some existing);
  due = refl;
  updated = refl;
  kept = (refl, refl, refl, refl);
}

-- A request whose ids are allowed, and whose input and interval are given, is accepted. The task that is
-- returned has the id, session, input and interval of the request and is next due now or after the interval, as the
-- request says; it is enabled as the request says, or else as before, and its other fields are as before. Then it is
-- found as it is returned, every other task is as before, and the ids stay distinct.
pub upsert_task-puts :
    (floor : ℕ → ℤ) (state : Schedules) (request : UpsertScheduleRequest)
    (session_id input : String) (minutes now : ℕ) (other : String)
    → is_schedule_id request.id ≡ true
    → given_text request.session_id ≡ some session_id
    → input_of request.input ≡ some input
    → interval_of floor request.every_minutes ≡ some minutes
    → is_session_id session_id ≡ true
    → distinct (ids state.tasks) ≡ true
    → str_eq request.id other ≡ false
    → (state' : Schedules) × (next : ScheduledTask) × (upsert_task floor state request now
        ≡ ok (state', next))
      × IsMerged request session_id input minutes now (find_task request.id (load_tasks state)) next
      × (find_task request.id (load_tasks state') ≡ some next)
      × (find_task other (load_tasks state') ≡ find_task other (load_tasks state))
      × (distinct (ids state'.tasks) ≡ true)
unfolding upsert_task
upsert_task-puts floor state request session_id input minutes now other valid session text every
      valid_session once apart =
    let tasks = load_tasks state in
    let existing = find_task request.id tasks in
    let next = upserted request session_id input minutes now existing in
    let tasks' = put_task request.id existing next tasks in
    let puts =
      put_task-Puts request session_id input minutes now state.tasks other once apart existing
        refl in
    (
      save_tasks tasks' state,
      next,
      rw (valid, session) (rw (text, every) (rw valid_session refl)),
      upserted-IsMerged request session_id input minutes now state.tasks existing refl,
      rw (migrate_tasks_idem tasks') puts.here,
      rw (migrate_tasks_idem tasks')
          (puts.elsewhere ∙ ap (find_task other) (migrate_tasks_idem state.tasks)),
      rw (ids-migrate_tasks tasks') puts.once,
    )
