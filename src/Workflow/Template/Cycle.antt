-- ===== src/Workflow/Template/Cycle.antt =====
-- `findCycle` (workflow-template-dag.ts) ends within its fuel, and what it reports is a cycle.
use athena_console.Prelude.{
  ℕ, zero, suc, ◌<◌, String, ◌≡◌, refl, ◌≢◌, ◌⊎◌, inl, inr, true, List, [], ◌∷◌, ◌++◌, arith,
  Bool-cases, str_eq, str_eq_iff, str_eq_refl, includes, missing, Adds-cons, missing-Adds-lt,
  Within,
}
use athena_console.Workflow.Template.{
  SearchState, Visit, done, found, out_of_fuel, visit_each, visit, enter, from_first,
}
use athena_console.Workflow.Template.Search.{Sound, visit-Sound}

missing_congr :
    (xs a b : List String)
    → ((k : String) → includes a k ≡ includes b k)
    → missing xs a ≡ missing xs b
missing_congr [] a b h = refl
missing_congr (x ∷ xs) a b h = rw (h x, missing_congr xs a b h)

pub Visit-cases :
    (v : Visit)
    → ((s : SearchState) × (v ≡ done s)) ⊎ ((p : List String) × (v ≡ found p)) ⊎ (v ≡ out_of_fuel)
Visit-cases (done s) = inl (s, refl)
Visit-cases (found p) = inr (inl (p, refl))
Visit-cases out_of_fuel = inr (inr refl)

-- Each element of the list depends on the one behind it.
abbrev pub Chain : (String → List String) → List String → Type 0
Chain deps [] = Unit
Chain deps (x ∷ []) = Unit
Chain deps (x ∷ y ∷ xs) = (includes (deps x) y ≡ true) × Chain deps (y ∷ xs)

-- A path along dependencies that ends where it starts.
pub record IsCycle (deps : String → List String) (path : List String) : Type 0 where
  pub top : String
  pub inner : List String
  pub shape : path ≡ (top ∷ inner) ++ top ∷ []
  pub chain : Chain deps path

module _ (deps : String → List String) where
  Chain-tail : (x : String) (xs : List String) → Chain deps (x ∷ xs) → Chain deps xs
  Chain-tail x [] c = tt
  Chain-tail x (y ∷ xs) c = c.1

  pub Chain-from_first :
      (k z : String) (xs : List String)
      → Chain deps (xs ++ z ∷ [])
      → Chain deps (from_first k xs ++ z ∷ [])
  Chain-from_first k z [] c = c
  Chain-from_first k z (x ∷ xs) c = elim (Bool-cases (str_eq x k)) [
    | inl here ↦ rw here c
    | inr later ↦ rw later (Chain-from_first k z xs (Chain-tail x (xs ++ z ∷ []) c))
  ]

  pub Chain-snoc :
      (xs : List String) (a b : String)
      → Chain deps (xs ++ a ∷ [])
      → includes (deps a) b ≡ true
      → Chain deps ((xs ++ a ∷ []) ++ b ∷ [])
  Chain-snoc [] a b c h = (h, tt)
  Chain-snoc (x ∷ []) a b c h = (c.0, (h, tt))
  Chain-snoc (x ∷ y ∷ xs) a b c h = (c.0, Chain-snoc (y ∷ xs) a b c.1 h)

pub from_first_head :
    (k : String) (xs : List String)
    → includes xs k ≡ true
    → (inner : List String) × (from_first k xs ≡ k ∷ inner)
from_first_head k [] h = cc
from_first_head k (x ∷ xs) h = elim (Bool-cases (str_eq x k)) [
  | inl here ↦ (xs, rw (here, (str_eq_iff x k).0 here))
  | inr later ↦ let (inner, e) = from_first_head k xs (ground arith) in (inner, rw later e)
]

module _ (deps : String → List String) (task_ids : List String)
    (closed : (id : String) → Within (deps id) task_ids) where
  -- Fuel above the number of tasks that are not on the stack is enough.
  abbrev pub Total : ℕ → (String → SearchState → Visit) → Type 0
  Total bound go =
      (d : String) (s : SearchState)
      → includes task_ids d ≡ true
      → missing task_ids s.visiting < bound
      → go d s ≢ out_of_fuel

  pub visit_each-Total :
      (bound : ℕ) (go : String → SearchState → Visit)
      → Sound deps go
      → Total bound go
      → (ds : List String) (s : SearchState) → Within ds task_ids
      → missing task_ids s.visiting < bound
      → visit_each go ds s ≢ out_of_fuel
  unfolding visit_each
  visit_each-Total bound go sound total [] s w h e = cc
  visit_each-Total bound go sound total (d ∷ ds) s w h e = elim (Visit-cases (go d s)) [
    | inl (t, ran) ↦
        let (g, _) = sound d s t ran in
        visit_each-Total bound go sound total ds t (λ k m. w k (ground (arith, m)))
          (rw (missing_congr task_ids t.visiting s.visiting g.visiting) h) (rw ran at e)
    | inr (inl (p, stopped)) ↦ let bad : found p ≡ out_of_fuel = rw stopped at e in cc
    | inr (inr stuck) ↦ total d s (w d (rw (str_eq_refl d))) h stuck
  ]

  pub visit-Total : (fuel : ℕ) → Total fuel (visit fuel deps)
  unfolding visit
  visit-Total zero d s m h e = omega arith
  visit-Total (suc fuel) d s m h e = elim (Bool-cases (includes s.visited d)) [
    | inl old ↦ absurd (ground arith)
    | inr new ↦ elim (Bool-cases (includes s.visiting d)) [
      | inl busy ↦ absurd (ground arith)
      | inr fresh ↦
          let less = missing-Adds-lt (Adds-cons d s.visiting) task_ids m fresh in
          let ran =
            visit_each-Total fuel (visit fuel deps) (visit-Sound deps fuel) (visit-Total fuel)
              (deps d) (enter d s) (closed d) (omega (arith, less)) in
          ran (ground arith)
    ]
  ]
