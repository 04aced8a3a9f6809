-- ===== src/Workflow/Template/Search.antt =====
-- The depth-first search of `findCycle` (workflow-template-dag.ts): what its sets and its stack hold.
use athena_console.Prelude.{
  ℕ, zero, suc, String, ◌≡◌, refl, ◌∙◌, ap, inl, inr, true, false, List, [], ◌∷◌, ◌++◌, arith,
  Bool-cases, str_eq_iff, str_eq_refl, includes, includes-without, Within,
}
use athena_console.Workflow.Template.{
  SearchState, Visit, done, found, out_of_fuel, and_then, visit_each, visit, enter, leave, pop,
}

-- Each list element, from the last one on, has all of its dependencies behind it.
abbrev pub Finished : (String → List String) → List String → Type 0
Finished deps [] = Unit
Finished deps (v ∷ vs) = Within (deps v) vs × Finished deps vs

-- What a call that finds no cycle leaves as it was, and what it adds.
pub record Grows (deps : String → List String) (s s' : SearchState) : Type 0 where
  pub finished : Finished deps s.visited → Finished deps s'.visited
  pub kept : Within s.visited s'.visited
  pub visiting : (k : String) → includes s'.visiting k ≡ includes s.visiting k
  pub stack : s'.stack ≡ s.stack

and_then-eq-done :
    (v : Visit) (go : SearchState → Visit) {s' : SearchState}
    → and_then v go ≡ done s'
    → (s : SearchState) × (v ≡ done s) × (go s ≡ done s')
and_then-eq-done (done s) go h = (s, refl, h)
and_then-eq-done (found path) go h = cc
and_then-eq-done out_of_fuel go h = cc

Grows-refl : (deps : String → List String) (s : SearchState) → Grows deps s s
Grows-refl deps s = record {
  finished = λ f. f;
  kept = λ k h. h;
  visiting = λ k. refl;
  stack = refl;
}

Grows-trans :
    {deps : String → List String} {s t u : SearchState}
    → Grows deps s t
    → Grows deps t u
    → Grows deps s u
Grows-trans g h = record {
  finished = λ f. h.finished (g.finished f);
  kept = λ k m. h.kept k (g.kept k m);
  visiting = λ k. h.visiting k ∙ g.visiting k;
  stack = h.stack ∙ g.stack;
}

pop-snoc : (xs : List String) (x : String) → pop (xs ++ x ∷ []) ≡ xs
pop-snoc [] x = refl
pop-snoc (y ∷ []) x = refl
pop-snoc (y ∷ z ∷ xs) x = ap (λ t. y ∷ t) (pop-snoc (z ∷ xs) x)

module _ (deps : String → List String) where
  -- A call that finds no cycle grows the visited set by what it is called for.
  abbrev pub Sound : (String → SearchState → Visit) → Type 0
  Sound go =
      (d : String) (s s' : SearchState)
      → go d s ≡ done s'
      → Grows deps s s' × (includes s'.visited d ≡ true)

  pub visit_each-Sound :
      (go : String → SearchState → Visit) (sound : Sound go) (ds : List String) (s s' : SearchState)
      → visit_each go ds s ≡ done s'
      → Grows deps s s' × Within ds s'.visited
  unfolding visit_each
  visit_each-Sound go sound [] s s' h =
      let e : s ≡ s' = cc in (rw (← e) (Grows-refl deps s), λ k m. cc)
  visit_each-Sound go sound (d ∷ ds) s s' h =
      let (t, first, rest) = and_then-eq-done (go d s) (visit_each go ds) h in
      let (g, here) = sound d s t first in
      let (g', below) = visit_each-Sound go sound ds t s' rest in
      (Grows-trans g g', λ k m. ground (arith, below k, g'.kept k, here, str_eq_iff d k))

  leave-Grows :
      (id : String) (s t : SearchState)
      → includes s.visiting id ≡ false
      → Grows deps (enter id s) t
      → Within (deps id) t.visited
      → Grows deps s (leave id t)
  leave-Grows id s t fresh g below = record {
    finished = λ f. (below, g.finished f);
    kept = λ k m. ground (arith, g.kept k m);
    visiting = λ k. ground (arith, includes-without id k t.visiting, g.visiting k, str_eq_iff id k);
    stack = rw g.stack (pop-snoc s.stack id);
  }

  pub visit-Sound : (fuel : ℕ) → Sound (visit fuel deps)
  unfolding visit
  visit-Sound zero d s s' h = cc
  visit-Sound (suc fuel) d s s' h = elim (Bool-cases (includes s.visited d)) [
    | inl old ↦ let e : s ≡ s' = ground arith in (rw (← e) (Grows-refl deps s), rw (← e) old)
    | inr new ↦ elim (Bool-cases (includes s.visiting d)) [
      | inl busy ↦ absurd (ground arith)
      | inr fresh ↦
          let below = visit_each-Sound (visit fuel deps) (visit-Sound fuel) (deps d) (enter d s) in
          let (t, looked, e) =
            and_then-eq-done (visit_each (visit fuel deps) (deps d) (enter d s))
              (λ t. done (leave d t)) {s' = s'} (ground (arith)) in
          let (g, deps_in) = below t looked in
          let same : leave d t ≡ s' = cc in
          (
            rw (← same) (leave-Grows d s t fresh g deps_in),
            rw (← same) (ground (arith, str_eq_refl d)),
          )
    ]
  ]
