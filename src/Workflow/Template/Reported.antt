-- ===== src/Workflow/Template/Reported.antt =====
-- What `findCycle` (workflow-template-dag.ts) reports is a cycle of the dependencies, and where it reports
-- none there is none.
use athena_console.Prelude.{
  ℕ, zero, suc, String, ◌≡◌, sym, ◌∙◌, ap, inl, inr, Bool, true, false, List, [], ◌∷◌, ◌++◌, arith,
  Bool-cases, str_eq, str_eq_iff, str_eq_refl, includes, includes-append, subst,
}
use athena_console.Workflow.Template.{
  SearchState, Visit, found, out_of_fuel, visit_each, visit, enter, from_first,
}
use athena_console.Workflow.Template.Search.{Finished, Sound, visit-Sound}
use athena_console.Workflow.Template.Cycle.{
  Chain, IsCycle, Chain-from_first, Chain-snoc, from_first_head, Visit-cases,
}

abbrev pub OnStack : SearchState → Type 0
OnStack s = (k : String) → includes s.visiting k ≡ includes s.stack k

module _ (deps : String → List String) where
  abbrev pub Genuine : (String → SearchState → Visit) → Type 0
  Genuine go =
      (d : String) (s : SearchState) (p : List String)
      → Chain deps (s.stack ++ d ∷ [])
      → OnStack s
      → go d s ≡ found p
      → IsCycle deps p

  pub visit_each-Genuine :
      (go : String → SearchState → Visit)
      → Sound deps go
      → Genuine go
      → (ds : List String) (s : SearchState) (p : List String)
      → ((d : String) → includes ds d ≡ true → Chain deps (s.stack ++ d ∷ []))
      → OnStack s
      → visit_each go ds s ≡ found p
      → IsCycle deps p
  unfolding visit_each
  visit_each-Genuine go sound genuine [] s p links on e = cc
  visit_each-Genuine go sound genuine (d ∷ ds) s p links on e = elim (Visit-cases (go d s)) [
    | inl (t, ran) ↦
        let (g, _) = sound d s t ran in
        visit_each-Genuine go sound genuine ds t p (λ k m. rw g.stack (links k (ground (arith, m))))
          (λ k. g.visiting k ∙ on k ∙ ap (λ (l : List String). includes l k) (sym g.stack))
          (rw ran at e)
    | inr (inl (q, stopped)) ↦
        genuine d s p (links d (rw (str_eq_refl d))) on
          (stopped ∙ (let same : found q ≡ found p = rw stopped at e in same))
    | inr (inr stuck) ↦ let bad : out_of_fuel ≡ found p = rw stuck at e in cc
  ]

  IsCycle-stack :
      (d : String) (stack : List String)
      → includes stack d ≡ true
      → Chain deps (stack ++ d ∷ [])
      → IsCycle deps (from_first d stack ++ d ∷ [])
  IsCycle-stack d stack m c =
      let (inner, e) = from_first_head d stack m in
      record { top = d; inner = inner; shape = rw e; chain = Chain-from_first deps d d stack c }

  pub visit-Genuine : (fuel : ℕ) → Genuine (visit fuel deps)
  unfolding visit
  visit-Genuine zero d s p c on e = cc
  visit-Genuine (suc fuel) d s p c on e = elim (Bool-cases (includes s.visited d)) [
    | inl old ↦ absurd (ground arith)
    | inr new ↦ elim (Bool-cases (includes s.visiting d)) [
      | inl busy ↦
          subst (IsCycle deps)
            (let same : from_first d s.stack ++ d ∷ [] ≡ p = ground arith in same)
            (IsCycle-stack d s.stack (sym (on d) ∙ busy) c)
      | inr fresh ↦ elim (Visit-cases (visit_each (visit fuel deps) (deps d) (enter d s))) [
        | inl (t, ran) ↦ absurd (ground arith)
        | inr (inl (q, stopped)) ↦
            visit_each-Genuine (visit fuel deps) (visit-Sound deps fuel) (visit-Genuine fuel)
              (deps d) (enter d s) p (λ k m. Chain-snoc deps s.stack d k c m)
              (λ k. ground (arith, on k, includes-append s.stack (d ∷ []) k)) (ground arith)
        | inr (inr stuck) ↦ absurd (ground arith)
      ]
    ]
  ]

-- Every text of the set depends on one of the set.
abbrev pub Unfounded : (String → List String) → (String → Bool) → Type 0
Unfounded deps set =
    (k : String) → set k ≡ true → (d : String) × (includes (deps k) d ≡ true) × (set d ≡ true)

-- Such a set and a finished list have nothing in common.
pub Finished-Unfounded :
    (deps : String → List String) (set : String → Bool)
    → Unfounded deps set
    → (vs : List String) → Finished deps vs
    → (k : String) → includes vs k ≡ true
    → set k ≡ false
Finished-Unfounded deps set u (v ∷ vs) f k m = elim (Bool-cases (set k)) [
  | inl inside ↦ elim (Bool-cases (str_eq v k)) [
    | inl here ↦
        let (d, dep, again) = u k inside in
        let same : v ≡ k = (str_eq_iff v k).0 here in
        let out = Finished-Unfounded deps set u vs f.1 d (f.0 d (rw same dep)) in
        absurd (ground arith)
    | inr there ↦ Finished-Unfounded deps set u vs f.1 k (ground arith)
  ]
  | inr outside ↦ outside
]
Finished-Unfounded deps set u [] f k m = cc

Chain-next :
    (deps : String → List String) (xs : List String) (z k : String)
    → Chain deps (xs ++ z ∷ [])
    → includes xs k ≡ true
    → (d : String) × (includes (deps k) d ≡ true) × (includes (xs ++ z ∷ []) d ≡ true)
Chain-next deps [] z k c m = cc
Chain-next deps (x ∷ []) z k c m = (
  z,
  (let same : x ≡ k = (str_eq_iff x k).0 (ground arith) in rw same at c.0),
  ground (arith, str_eq_refl z),
)
Chain-next deps (x ∷ y ∷ xs) z k c m = elim (Bool-cases (str_eq x k)) [
  | inl here ↦ (y, (rw ((str_eq_iff x k).0 here) at c.0), ground (arith, str_eq_refl y))
  | inr there ↦
      let (d, dep, inside) = Chain-next deps (y ∷ xs) z k c.1 (ground arith) in
      (d, dep, ground (arith, inside))
]

pub IsCycle-Unfounded :
    (deps : String → List String) {path : List String}
    → IsCycle deps path
    → Unfounded deps (includes path)
IsCycle-Unfounded deps {path} c k m =
    let shaped : includes ((c.top ∷ c.inner) ++ c.top ∷ []) k ≡ true = rw c.shape at m in
    let front : includes (c.top ∷ c.inner) k ≡ true =
      ground (arith, includes-append (c.top ∷ c.inner) (c.top ∷ []) k) in
    let (d, dep, inside) =
      Chain-next deps (c.top ∷ c.inner) c.top k (subst (Chain deps) c.shape c.chain) front in
    (d, dep, rw c.shape inside)
