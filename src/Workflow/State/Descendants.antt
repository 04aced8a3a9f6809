-- ===== src/Workflow/State/Descendants.antt =====
-- workflow-state.ts, `collectDescendantStepIds`: the steps that depend on one, directly or not.
use athena_console.Prelude.{
  ℕ, zero, suc, ◌+◌, ◌<◌, ◌≤◌, String, ◌≡◌, refl, sym, ap, inl, inr, true, false, ◌||◌, some, List,
  [], ◌∷◌, ◌++◌, arith, Bool-cases, str_eq, str_eq_iff, str_eq_refl, includes, includes-append,
  missing, Adds-cons, missing-Adds-lt, missing-nil, Within, length, length-append, is_empty, ◌*◌,
  ◌↔◌, subst,
}
use athena_console.Workflow.Runs.{WorkflowDagRunSnapshot}
use athena_console.Workflow.State.Resume.{
  dependents_in, collect, collect_fuel, collect_descendant_step_ids,
}

-- The step itself, and what depends on a descendant. An empty id is none.
pub data Descends (entries : List (String × List String)) (start : String) : String → Type 0 where
  itself : is_empty start ≡ false → Descends entries start start
  next :
      {a b : String}
      → Descends entries start a
      → includes (dependents_in entries a) b ≡ true
      → is_empty b ≡ false
      → Descends entries start b

keys : List (String × List String) → List String
keys [] = []
keys ((k, ds) ∷ entries) = k ∷ keys entries

length-keys : (entries : List (String × List String)) → length (keys entries) ≡ length entries
unfolding keys
length-keys [] = refl
length-keys ((k, ds) ∷ entries) = ap suc (length-keys entries)

dependents_in-Within :
    (entries : List (String × List String)) (a : String)
    → Within (dependents_in entries a) (keys entries)
unfolding keys
dependents_in-Within [] a k m = cc
dependents_in-Within ((j, ds) ∷ entries) a k m = ground (arith, dependents_in-Within entries a k)

length-dependents_in :
    (entries : List (String × List String)) (a : String)
    → length (dependents_in entries a) ≤ length entries
length-dependents_in [] a = omega arith
length-dependents_in ((j, ds) ∷ entries) a = ground (arith, length-dependents_in entries a)

module _ (entries : List (String × List String)) (start : String) where
  record Inv (queue visited : List String) : Type 0 where
    known : Within queue (start ∷ keys entries)
    queued : (k : String) → includes queue k ≡ true → is_empty k ≡ false → Descends entries start k
    sound : (k : String) → includes visited k ≡ true → Descends entries start k
    filled : (k : String) → includes visited k ≡ true → is_empty k ≡ false
    begun : is_empty start ≡ false → (includes visited start || includes queue start) ≡ true
    closed :
        (a b : String)
        → includes visited a ≡ true
        → includes (dependents_in entries a) b ≡ true
        → is_empty b ≡ false
        → (includes visited b || includes queue b) ≡ true

  same_as : (x k : String) → str_eq x k ≡ true → x ≡ k
  same_as x k h = (str_eq_iff x k).0 h

  skip-Inv :
      (x : String) (queue visited : List String)
      → Inv (x ∷ queue) visited
      → (is_empty x || includes visited x) ≡ true
      → Inv queue visited
  skip-Inv x queue visited inv h = record {
    known = λ k m. inv.known k (ground arith);
    queued = λ k m f. inv.queued k (ground arith) f;
    sound = inv.sound;
    filled = inv.filled;
    begun = λ f. ground (arith, inv.begun f, str_eq_iff x start);
    closed = λ a b m d f. ground (arith, inv.closed a b m d f, str_eq_iff x b);
  }

  enter-Inv :
      (x : String) (queue visited : List String)
      → Inv (x ∷ queue) visited
      → is_empty x ≡ false
      → Inv (queue ++ dependents_in entries x) (x ∷ visited)
  enter-Inv x queue visited inv h =
      let here : Descends entries start x = inv.queued x (rw (str_eq_refl x)) h in
      record {
        known = λ k m. ground (
          arith,
          inv.known k,
          includes-append queue (dependents_in entries x) k,
          dependents_in-Within entries x k,
        );
        queued = λ k m f. elim (Bool-cases (includes queue k)) [
          | inl old ↦ inv.queued k (ground arith) f
          | inr new ↦
              next here (ground (arith, includes-append queue (dependents_in entries x) k)) f
        ];
        sound = λ k m. elim (Bool-cases (str_eq x k)) [
          | inl same ↦ subst (Descends entries start) (same_as x k same) here
          | inr other ↦ inv.sound k (ground arith)
        ];
        filled = λ k m. ground (arith, inv.filled k, str_eq_iff x k, h);
        begun =
            λ f. ground (arith, inv.begun f, includes-append queue (dependents_in entries x) start);
        closed = λ a b m d f. elim (Bool-cases (str_eq x a)) [
          | inl same ↦
              let moved : includes (dependents_in entries x) b ≡ true =
                subst (λ y. includes (dependents_in entries y) b ≡ true) (sym (same_as x a same))
                  d in
              ground (arith, includes-append queue (dependents_in entries x) b)
          | inr other ↦ ground (
            arith,
            inv.closed a b (ground arith) d f,
            includes-append queue (dependents_in entries x) b,
          )
        ];
      }

  abbrev weight : List String → List String → ℕ
  weight queue visited =
      length queue + missing (start ∷ keys entries) visited * suc (length entries)

  weight_less : (m m' q d e : ℕ) → m' < m → d ≤ e → (q + d) + m' * suc e < suc q + m * suc e
  weight_less m m' q d e h k = grind arith

  collect-Inv :
      (fuel : ℕ) (queue visited : List String)
      → Inv queue visited
      → weight queue visited ≤ fuel
      → (final : List String) × (collect fuel entries queue visited ≡ some final) × Inv [] final
  unfolding collect
  collect-Inv zero [] visited inv h = (visited, refl, inv)
  collect-Inv (suc fuel) [] visited inv h = (visited, refl, inv)
  collect-Inv zero (x ∷ queue) visited inv h = absurd (omega arith)
  collect-Inv (suc fuel) (x ∷ queue) visited inv h = elim (Bool-cases (is_empty x)) [
    | inl blank ↦
        rw blank
          (collect-Inv fuel queue visited (skip-Inv x queue visited inv (rw blank)) (omega arith))
    | inr text ↦ elim (Bool-cases (includes visited x)) [
      | inl old ↦
          rw (text, old)
            (collect-Inv fuel queue visited (skip-Inv x queue visited inv (rw (old, text)))
              (omega arith))
      | inr new ↦
          let less =
            missing-Adds-lt (Adds-cons x visited) (start ∷ keys entries)
              (inv.known x (rw (str_eq_refl x))) new in
          let lighter =
            weight_less (missing (start ∷ keys entries) visited)
              (missing (start ∷ keys entries) (x ∷ visited)) (length queue)
              (length (dependents_in entries x)) (length entries) less
              (length-dependents_in entries x) in
          rw (text, new)
            (collect-Inv fuel (queue ++ dependents_in entries x) (x ∷ visited)
              (enter-Inv x queue visited inv text)
              (rw (length-append queue (dependents_in entries x)) (omega (arith, lighter))))
    ]
  ]

  start-Inv : Inv (start ∷ []) []
  start-Inv = record {
    known = λ k m. ground arith;
    queued = λ k m f.
        let same = same_as start k (ground arith) in
        subst (Descends entries start) same (itself (rw same f));
    sound = λ k m. cc;
    filled = λ k m. cc;
    begun = λ f. rw (str_eq_refl start);
    closed = λ a b m d f. cc;
  }

  complete :
      (final : List String)
      → Inv [] final
      → {k : String} → Descends entries start k
      → includes final k ≡ true
  complete final inv (itself f) = ground (arith, inv.begun f)
  complete final inv (next {a} {b} d m f) =
      ground (arith, inv.closed a b (complete final inv d) m f)

-- The search for the descendants of a step ends, and finds just these.
pub collect_descendant_step_ids_iff :
    (snapshot : WorkflowDagRunSnapshot) (start : String)
    → (found : List String) × (collect_descendant_step_ids snapshot start ≡ some found)
      × ((k : String) → (includes found k ≡ true) ↔ Descends snapshot.run.dependencies start k)
unfolding collect_descendant_step_ids
collect_descendant_step_ids_iff snapshot start =
    let entries = snapshot.run.dependencies in
    let bound : weight entries start (start ∷ []) [] ≤ collect_fuel entries =
      rw (missing-nil (keys entries), length-keys entries) (omega arith) in
    let (found, ran, inv) =
      collect-Inv entries start (collect_fuel entries) (start ∷ []) [] (start-Inv entries start)
        bound in
    (found, ran, λ k. (inv.sound k, complete entries start found inv))
