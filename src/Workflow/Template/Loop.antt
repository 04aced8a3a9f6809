-- ===== src/Workflow/Template/Loop.antt =====
-- The loop of `buildWorkflowTemplateDag` (workflow-template-dag.ts): its invariant, its end and its result.
use athena_console.Prelude.{
  ℕ, suc, String, ◌≡◌, refl, Bool, true, false, ◌||◌, ◌&&◌, not, some, List, [], ◌∷◌, ◌++◌, arith,
  if◌then◌else◌, str_eq, str_eq_iff, str_eq_refl, includes, includes-append, Within, sort_by, put,
  distinct, get_or,
}
use athena_console.Json.{pos}
use athena_console.Workflow.Template.Order.{Indegrees, pred_ℤ, is_zero, settle}
use athena_console.Workflow.Template.Tables.{includes-sort_by, distinct-sort_by}

-- Behind the inner loop: what the counts and the ready tasks are.
pub record Settled (ds : List String) (s s' : Indegrees × List String) : Type 0 where
  pub same : (k : String) → includes ds k ≡ false → s'.0 k ≡ s.0 k
  pub less :
      (k : String) (n : ℕ)
      → includes ds k ≡ true
      → s.0 k ≡ some (pos (suc n))
      → s'.0 k ≡ some (pos n)
  pub ready :
      (k : String)
      → includes s'.1 k
        ≡ (includes s.1 k || (includes ds k && is_zero (pred_ℤ (get_or (s.0 k) (pos 0)))))

pub includes-snoc :
    (xs : List String) (x k : String) → includes (xs ++ x ∷ []) k ≡ (includes xs k || str_eq x k)
includes-snoc xs x k = ground (arith, includes-append xs (x ∷ []) k)

pub distinct-snoc :
    (xs : List String) (x : String) → distinct (xs ++ x ∷ []) ≡ (not (includes xs x) && distinct xs)
distinct-snoc [] x = refl
distinct-snoc (y ∷ ys) x =
    ground (arith, distinct-snoc ys x, includes-snoc ys x y, str_eq_iff x y, str_eq_iff y x)

module _ (before : String → String → Bool) where
  abbrev ready_after : String → Indegrees × List String → List String
  ready_after d s =
      if is_zero (pred_ℤ (get_or (s.0 d) (pos 0))) then sort_by before (s.1 ++ d ∷ []) else s.1

  includes-ready_after :
      (d k : String) (s : Indegrees × List String)
      → includes (ready_after d s) k
        ≡ (includes s.1 k || (str_eq d k && is_zero (pred_ℤ (get_or (s.0 d) (pos 0)))))
  includes-ready_after d k s =
      ground (arith, includes-sort_by before (s.1 ++ d ∷ []) k, includes-snoc s.1 d k)

  pub settle-Settled :
      (ds : List String) (s : Indegrees × List String)
      → distinct ds ≡ true
      → Settled ds s (settle before ds s)
  unfolding settle
  settle-Settled [] s d = record {
    same = λ k h. refl;
    less = λ k n h. cc;
    ready = λ k. ground arith;
  }
  settle-Settled (x ∷ ds) s d =
      let next = pred_ℤ (get_or (s.0 x) (pos 0)) in
      let t : Indegrees × List String = (put x next s.0, ready_after x s) in
      let rest = settle-Settled ds t (ground arith) in
      record {
        same = λ k h. ground (arith, rest.same k);
        less = λ k n h e. ground (arith, rest.same k, rest.less k n, str_eq_iff x k);
        ready = λ k. ground (arith, rest.ready k, includes-ready_after x k s, str_eq_iff x k);
      }

  pub distinct-settle :
      (ds : List String) (s : Indegrees × List String)
      → distinct ds ≡ true
      → distinct s.1 ≡ true
      → ((k : String) → includes ds k ≡ true → includes s.1 k ≡ false)
      → distinct (settle before ds s).1 ≡ true
  unfolding settle
  distinct-settle [] s d r apart = r
  distinct-settle (x ∷ ds) s d r apart =
      let next = pred_ℤ (get_or (s.0 x) (pos 0)) in
      distinct-settle ds (put x next s.0, ready_after x s) (ground arith)
        (ground (
          arith,
          distinct-sort_by before (s.1 ++ x ∷ []),
          distinct-snoc s.1 x,
          apart x (rw (str_eq_refl x)),
        ))
        (λ k h. ground (arith, includes-ready_after x k s, apart k (ground arith), str_eq_iff x k))

-- Each element has all of its dependencies before it, or in `seen`.
abbrev pub IsOrdered : (String → List String) → List String → List String → Type 0
IsOrdered deps seen [] = Unit
IsOrdered deps seen (x ∷ xs) = Within (deps x) seen × IsOrdered deps (x ∷ seen) xs

pub IsOrdered-snoc :
    (deps : String → List String) (seen xs : List String) (x : String)
    → IsOrdered deps seen xs
    → ((k : String) → includes (deps x) k ≡ true → (includes seen k || includes xs k) ≡ true)
    → IsOrdered deps seen (xs ++ x ∷ [])
IsOrdered-snoc deps seen [] x o w = (λ k m. ground (arith, w k m), tt)
IsOrdered-snoc deps seen (y ∷ ys) x o w =
    (o.0, IsOrdered-snoc deps (y ∷ seen) ys x o.1 (λ k m. ground (arith, w k m)))
