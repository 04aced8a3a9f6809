-- ===== src/Cancellation/Listing/Sorted.antt =====
-- cancellation.ts: the order of the rows is total where no two rows are the same to it, and the rows are sorted by it.
use Prim.Native.Nat.{compare, Ordering}
use athena_console.Prelude.{
  String, ◌≡◌, refl, sym, ◌∙◌, ap, Bool, true, false, List, [], ◌∷◌, All, sort_by, insert_by, arith,
  Bool-cases, inl, inr, ◌⊎◌,
}
use athena_console.Cancellation.Listing.{
  ◌or_by◌, is_before, is_after, compare_active_runs_desc, compare_cancellation_requests_desc,
}
use athena_console.Cancellation.Listing.Pages.{Follows, InSequence}

abbrev pub opposite : Ordering → Ordering
opposite Ordering.lt = Ordering.gt
opposite Ordering.eq = Ordering.eq
opposite Ordering.gt = Ordering.lt

abbrev pub is_same : Ordering → Bool
is_same Ordering.eq = true
is_same _ = false

-- A total order, up to the rows that are the same to it.
pub record IsTotal {ℓ} {T : Type ℓ} (order : T → T → Ordering) : Type ℓ where
  pub flips : (s t : T) → order s t ≡ opposite (order t s)
  pub chains :
      (s t u : T) → order s t ≡ Ordering.lt → order t u ≡ Ordering.lt → order s u ≡ Ordering.lt
  pub replaces : (s t u : T) → order s t ≡ Ordering.eq → order s u ≡ order t u

opposite-or_by : (a b : Ordering) → opposite (a or_by b) ≡ (opposite a or_by opposite b)
opposite-or_by Ordering.lt b = refl
opposite-or_by Ordering.eq b = refl
opposite-or_by Ordering.gt b = refl

or_by-eq : (a b : Ordering) → (a or_by b) ≡ Ordering.eq → (a ≡ Ordering.eq) × (b ≡ Ordering.eq)
or_by-eq Ordering.lt b e = absurd cc
or_by-eq Ordering.eq b e = (refl, e)
or_by-eq Ordering.gt b e = absurd cc

or_by-lt :
    (a b : Ordering)
    → (a or_by b) ≡ Ordering.lt
    → (a ≡ Ordering.lt) ⊎ ((a ≡ Ordering.eq) × (b ≡ Ordering.lt))
or_by-lt Ordering.lt b e = inl refl
or_by-lt Ordering.eq b e = inr (refl, e)
or_by-lt Ordering.gt b e = absurd cc

module _ {ℓ} {T : Type ℓ} where
  replaces-right :
      {order : T → T → Ordering}
      → IsTotal order
      → (s t u : T) → order t u ≡ Ordering.eq
      → order s t ≡ order s u
  replaces-right {order} total s t u e =
      total.flips s t ∙ ap opposite (total.replaces t u s e) ∙ sym (total.flips s u)

  IsTotal-or_by :
      {a b : T → T → Ordering} → IsTotal a → IsTotal b → IsTotal (λ s t. a s t or_by b s t)
  IsTotal-or_by {a} {b} first second = record {
    flips = λ s t. rw (first.flips s t, second.flips s t) (sym (opposite-or_by (a t s) (b t s)));
    chains = λ s t u e h. elim (or_by-lt (a s t) (b s t) e) [
      | inl before ↦ elim (or_by-lt (a t u) (b t u) h) [
        | inl then_before ↦ rw (first.chains s t u before then_before) refl
        | inr (same, _) ↦ rw (sym (replaces-right first s t u same) ∙ before) refl
      ]
      | inr (same, below) ↦ elim (or_by-lt (a t u) (b t u) h) [
        | inl then_before ↦ rw (first.replaces s t u same ∙ then_before) refl
        | inr (same', below') ↦
            rw (first.replaces s t u same ∙ same') (second.chains s t u below below')
      ]
    ];
    replaces = λ s t u e.
        let (same, same') = or_by-eq (a s t) (b s t) e in
        rw (first.replaces s t u same, second.replaces s t u same') refl;
  }

  pub IsTotal-on {κ} :
      {S : Type κ} {order : S → S → Ordering} (f : T → S)
      → IsTotal order
      → IsTotal (λ s t. order (f s) (f t))
  IsTotal-on f total = record {
    flips = λ s t. total.flips (f s) (f t);
    chains = λ s t u. total.chains (f s) (f t) (f u);
    replaces = λ s t u. total.replaces (f s) (f t) (f u);
  }

  IsTotal-desc : {order : T → T → Ordering} → IsTotal order → IsTotal (λ s t. order t s)
  IsTotal-desc total = record {
    flips = λ s t. total.flips t s;
    chains = λ s t u e h. total.chains u t s h e;
    replaces = λ s t u e. sym (replaces-right total u t s e);
  }

pub IsTotal-compare : IsTotal compare
IsTotal-compare = record {
  flips = λ s t. ground arith;
  chains = λ s t u e h. ground arith;
  replaces = λ s t u e. ground arith;
}

pub IsTotal-compare_active_runs_desc :
    {locale_compare : String → String → Ordering}
    → IsTotal locale_compare
    → IsTotal (compare_active_runs_desc locale_compare)
IsTotal-compare_active_runs_desc total =
    IsTotal-or_by (IsTotal-on (λ r. r.started_at) (IsTotal-desc total)) (
      IsTotal-or_by (IsTotal-on (λ r. r.session_id) (IsTotal-desc total)) (
        IsTotal-or_by (IsTotal-on (λ r. r.run_id) (IsTotal-desc total))
          (IsTotal-on (λ r. r.pid) (IsTotal-desc IsTotal-compare))))

pub IsTotal-compare_cancellation_requests_desc :
    {locale_compare : String → String → Ordering}
    → IsTotal locale_compare
    → IsTotal (compare_cancellation_requests_desc locale_compare)
IsTotal-compare_cancellation_requests_desc total =
    IsTotal-or_by (IsTotal-on (λ r. r.requested_at) (IsTotal-desc total)) (
      IsTotal-or_by (IsTotal-on (λ r. r.session_id) (IsTotal-desc total))
        (IsTotal-on (λ r. r.run_id) (IsTotal-desc total)))

after-opposite : (a b : Ordering) → a ≡ opposite b → is_after a ≡ true → b ≡ Ordering.lt
after-opposite a Ordering.lt e h = refl
after-opposite a Ordering.eq e h = absurd (ground arith)
after-opposite a Ordering.gt e h = absurd (ground arith)

before-opposite :
    (a b : Ordering)
    → a ≡ opposite b
    → is_before a ≡ true
    → (is_after b ≡ true) × (is_after a ≡ false)
before-opposite a Ordering.lt e h = absurd (ground arith)
before-opposite a Ordering.eq e h = absurd (ground arith)
before-opposite a Ordering.gt e h = (refl, rw e refl)

other-opposite :
    (a b : Ordering)
    → a ≡ opposite b
    → is_before a ≡ false
    → is_same b ≡ false
    → (b ≡ Ordering.lt) × (is_after a ≡ true) × (is_after b ≡ false)
other-opposite a Ordering.lt e h k = (refl, rw e refl, refl)
other-opposite a Ordering.eq e h k = absurd cc
other-opposite a Ordering.gt e h k = absurd (ground arith)

-- No two rows are the same to the order.
abbrev pub Apart {ℓ} : {T : Type ℓ} → (T → T → Ordering) → List T → Type 0
Apart order [] = Unit
Apart order (r ∷ rows) = All (λ s. is_same (order r s) ≡ false) rows × Apart order rows

module _ {ℓ} {T : Type ℓ} (order : T → T → Ordering) (total : IsTotal order) where
  abbrev before : T → T → Bool
  before s t = is_before (order s t)

  order_refl : (r : T) → is_after (order r r) ≡ false
  order_refl r = let e = total.flips r r in ground (arith, opposite (order r r))

  All-insert_by :
      (P : T → Type 0) (r : T) (rows : List T) → P r → All P rows → All P (insert_by before r rows)
  All-insert_by P r [] h hs = (h, tt)
  All-insert_by P r (s ∷ rows) h (h', hs) = elim (Bool-cases (before s r)) [
    | inl earlier ↦ rw (earlier) (h', All-insert_by P r rows h hs)
    | inr later ↦ rw (later) (h, (h', hs))
  ]

  pub All-sort_by : (P : T → Type 0) (rows : List T) → All P rows → All P (sort_by before rows)
  All-sort_by P [] hs = tt
  All-sort_by P (r ∷ rows) (h, hs) =
      All-insert_by P r (sort_by before rows) h (All-sort_by P rows hs)

  Follows-insert_by :
      (q r : T) (rows : List T)
      → is_after (order r q) ≡ true
      → is_after (order q r) ≡ false
      → Follows order q rows
      → Follows order q (insert_by before r rows)
  Follows-insert_by q r [] h k hs = (h, k, tt)
  Follows-insert_by q r (s ∷ rows) h k (h', k', hs) = elim (Bool-cases (before s r)) [
    | inl earlier ↦ rw (earlier) (h', k', Follows-insert_by q r rows h k hs)
    | inr later ↦ rw (later) (h, k, (h', k', hs))
  ]

  Follows-chain :
      (q r : T) (rows : List T)
      → order q r ≡ Ordering.lt
      → Follows order r rows
      → Follows order q rows
  Follows-chain q r [] e hs = tt
  Follows-chain q r (s ∷ rows) e (h, k, hs) =
      let r-s : order r s ≡ Ordering.lt =
        after-opposite (order s r) (order r s) (total.flips s r) h in
      let q-s = total.chains q r s e r-s in
      let s-q = total.flips s q in (rw (s-q, q-s) refl, rw q-s refl, Follows-chain q r rows e hs)

  InSequence-insert_by :
      (r : T) (rows : List T)
      → All (λ s. is_same (order r s) ≡ false) rows
      → InSequence order rows
      → InSequence order (insert_by before r rows)
  InSequence-insert_by r [] apart hs = (order_refl r, tt, tt)
  InSequence-insert_by r (s ∷ rows) (other, apart) (same, later, hs) =
      elim (Bool-cases (before s r)) [
        | inl earlier ↦
            let (after, not_before) =
              before-opposite (order s r) (order r s) (total.flips s r) earlier in
            rw earlier (
              same,
              Follows-insert_by s r rows after not_before later,
              InSequence-insert_by r rows apart hs,
            )
        | inr first ↦
            let (below, after, not_before) =
              other-opposite (order s r) (order r s) (total.flips s r) first other in
            rw first (
              order_refl r,
              (after, not_before, Follows-chain r s rows below later),
              (same, later, hs),
            )
      ]

  -- Rows that are pairwise apart are sorted into a sequence.
  pub InSequence-sort_by :
      (rows : List T) → Apart order rows → InSequence order (sort_by before rows)
  InSequence-sort_by [] apart = tt
  InSequence-sort_by (r ∷ rows) (other, apart) =
      InSequence-insert_by r (sort_by before rows)
        (All-sort_by (λ s. is_same (order r s) ≡ false) rows other) (InSequence-sort_by rows apart)
