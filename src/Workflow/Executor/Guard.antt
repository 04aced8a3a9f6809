-- ===== src/Workflow/Executor/Guard.antt =====
-- workflow-dag-executor.ts, `withRunGuard`: the executions of runs that are in flight. A promise is a number.
use athena_console.Prelude.{
  ℕ, suc, String, ◌≡◌, refl, ap, ◌∙◌, true, false, not, Option, none, some, List, [], ◌∷◌, ◌++◌,
  map, filter, str_eq, str_eq_iff, str_eq_refl, includes, distinct, arith, Option-cases, inl, inr,
  subst,
}

pub record Flight : Type 0 where
  pub run_id : String
  pub promise : ℕ

-- The map `inFlightRuns`, and the executions that have begun and not ended, with the next number.
pub record Guard : Type 0 where
  pub in_flight : List Flight
  pub running : List Flight
  pub next : ℕ

abbrev pub run_ids : List Flight → List String
run_ids flights = map (λ f. f.run_id) flights

-- `inFlightRuns.get` and `inFlightRuns.delete`.
abbrev pub get_flight : List Flight → String → Option ℕ
get_flight [] run_id = none
get_flight (f ∷ flights) run_id = elim (str_eq f.run_id run_id) [
  | true ↦ some f.promise
  | false ↦ get_flight flights run_id
]

abbrev pub delete_flight : List Flight → String → List Flight
delete_flight flights run_id = filter (λ f. not (str_eq f.run_id run_id)) flights

-- A call of `execute` or `resume`, and the promise that it returns.
abbrev pub with_run_guard : Guard → String → Guard × ℕ
with_run_guard guard run_id = elim (get_flight guard.in_flight run_id) [
  | some promise ↦ (guard, promise)
  | none ↦
      let flight : Flight = record { run_id = run_id; promise = guard.next } in
      (
        record {
          in_flight = flight ∷ guard.in_flight;
          running = flight ∷ guard.running;
          next = suc guard.next;
        },
        guard.next,
      )
]

-- What can happen: a call, or the end of an execution, with the callback of `finally`.
pub data GuardStep : Guard → Guard → Type 0 where
  calls : (guard : Guard) (run_id : String) → GuardStep guard (with_run_guard guard run_id).0
  settles :
      (in_flight : List Flight) (next : ℕ) (before : List Flight) (f : Flight) (after : List Flight)
      → GuardStep
          (record { in_flight = in_flight; running = before ++ f ∷ after; next = next })
          (record {
            in_flight = delete_flight in_flight f.run_id;
            running = before ++ after;
            next = next;
          })

pub data Reached : Guard → Type 0 where
  start : Reached (record { in_flight = []; running = []; next = 0 })
  then_step : {guard guard' : Guard} → Reached guard → GuardStep guard guard' → Reached guard'

-- What runs is what the map has, each run once.
record IsGuarded (guard : Guard) : Type 0 where
  same : guard.in_flight ≡ guard.running
  once : distinct (run_ids guard.running) ≡ true

get_flight-none :
    (flights : List Flight) (run_id : String)
    → get_flight flights run_id ≡ none
    → includes (run_ids flights) run_id ≡ false
get_flight-none [] run_id e = refl
get_flight-none (f ∷ flights) run_id e = ground (arith, get_flight-none flights run_id)

delete_flight-absent :
    (flights : List Flight) (run_id : String)
    → includes (run_ids flights) run_id ≡ false
    → delete_flight flights run_id ≡ flights
delete_flight-absent [] run_id e = refl
delete_flight-absent (f ∷ flights) run_id e = ground (arith, delete_flight-absent flights run_id)

includes-run_ids :
    (before : List Flight) (f : Flight) (after : List Flight)
    → includes (run_ids (before ++ f ∷ after)) f.run_id ≡ true
includes-run_ids [] f after = ground (arith, str_eq_refl f.run_id)
includes-run_ids (g ∷ before) f after = ground (arith, includes-run_ids before f after)

includes-taken_out :
    (before : List Flight) (f : Flight) (after : List Flight) (k : String)
    → includes (run_ids (before ++ f ∷ after)) k ≡ false
    → includes (run_ids (before ++ after)) k ≡ false
includes-taken_out [] f after k e = ground arith
includes-taken_out (g ∷ before) f after k e = ground (arith, includes-taken_out before f after k)

delete_flight-middle :
    (before : List Flight) (f : Flight) (after : List Flight)
    → distinct (run_ids (before ++ f ∷ after)) ≡ true
    → delete_flight (before ++ f ∷ after) f.run_id ≡ before ++ after
delete_flight-middle [] f after once =
    rw (str_eq_refl f.run_id) (delete_flight-absent after f.run_id (ground arith))
delete_flight-middle (g ∷ before) f after once =
    let other : str_eq g.run_id f.run_id ≡ false =
      ground (arith, includes-run_ids before f after, str_eq_iff g.run_id f.run_id) in
    rw other (ap (λ l. g ∷ l) (delete_flight-middle before f after (ground arith)))

distinct-taken_out :
    (before : List Flight) (f : Flight) (after : List Flight)
    → distinct (run_ids (before ++ f ∷ after)) ≡ true
    → distinct (run_ids (before ++ after)) ≡ true
distinct-taken_out [] f after once = ground arith
distinct-taken_out (g ∷ before) f after once =
    ground (arith, distinct-taken_out before f after, includes-taken_out before f after g.run_id)

-- In a list without repeats the run of an entry is on no other, and is found with its promise.
alone :
    (before : List Flight) (f : Flight) (after : List Flight)
    → distinct (run_ids (before ++ f ∷ after)) ≡ true
    → includes (run_ids (before ++ after)) f.run_id ≡ false
alone [] f after once = ground arith
alone (g ∷ before) f after once =
    ground
      (arith, alone before f after, includes-run_ids before f after, str_eq_iff g.run_id f.run_id)

get_flight-middle :
    (before : List Flight) (f : Flight) (after : List Flight)
    → distinct (run_ids (before ++ f ∷ after)) ≡ true
    → get_flight (before ++ f ∷ after) f.run_id ≡ some f.promise
get_flight-middle [] f after once = rw (str_eq_refl f.run_id, get_flight) refl
get_flight-middle (g ∷ before) f after once =
    let other : str_eq g.run_id f.run_id ≡ false =
      ground (arith, includes-run_ids before f after, str_eq_iff g.run_id f.run_id) in
    rw (other, get_flight) (get_flight-middle before f after (ground arith))

GuardStep-IsGuarded :
    {guard guard' : Guard} → GuardStep guard guard' → IsGuarded guard → IsGuarded guard'
GuardStep-IsGuarded (calls guard run_id) guarded =
    elim (Option-cases (get_flight guard.in_flight run_id)) [
      | inl free ↦
          rw (free, with_run_guard)
            (record {
              same = ap (λ l. record { run_id = run_id; promise = guard.next } ∷ l) guarded.same;
              once = ground (
                arith,
                guarded.once,
                get_flight-none guard.running run_id (rw guarded.same at free),
              );
            })
      | inr (promise, held) ↦ rw (held, with_run_guard) guarded
    ]
GuardStep-IsGuarded (settles in_flight next before f after) guarded = record {
  same =
      ap (λ l. delete_flight l f.run_id) guarded.same
      ∙ delete_flight-middle before f after guarded.once;
  once = distinct-taken_out before f after guarded.once;
}

Reached-IsGuarded : {guard : Guard} → Reached guard → IsGuarded guard
Reached-IsGuarded start = record { same = refl; once = refl }
Reached-IsGuarded (then_step reached step) = GuardStep-IsGuarded step (Reached-IsGuarded reached)

-- After any calls and ends of executions, while an execution of a run is in flight, no other execution of the
-- run is, and a call for the run begins none and returns the promise of that one.
pub Reached-guards :
    {guard : Guard}
    → Reached guard
    → (before : List Flight) (f : Flight) (after : List Flight)
    → guard.running ≡ before ++ f ∷ after
    → (includes (run_ids (before ++ after)) f.run_id ≡ false)
      × (with_run_guard guard f.run_id ≡ (guard, f.promise))
Reached-guards {guard} reached before f after split =
    let guarded = Reached-IsGuarded reached in
    let once = subst (λ l. distinct (run_ids l) ≡ true) split guarded.once in
    let held : get_flight guard.in_flight f.run_id ≡ some f.promise =
      ap (λ l. get_flight l f.run_id) (guarded.same ∙ split)
      ∙ get_flight-middle before f after once in
    (alone before f after once, rw (held, with_run_guard) refl)
