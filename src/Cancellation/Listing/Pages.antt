-- ===== src/Cancellation/Listing/Pages.antt =====
-- cancellation.ts: the pages that the cursors lead through.
use Prim.Native.Nat.{Ordering}
use mathlib.Core.List.{append_assoc}
use athena_console.Prelude.{
  ℕ, ◌≤◌, zero, suc, String, ◌≡◌, refl, ◌∙◌, ap, Bool, true, false, Option, none, some, List, [],
  ◌∷◌, ◌++◌, take, drop, length, ltb, arith, Bool-cases, inl, inr, Option-cases,
}
use athena_console.Cancellation.Paging.{Page, find_index, slice_from, last, page_of}
use athena_console.Cancellation.Listing.{is_after}

-- No row comes after itself, and each comes after those before it.
module _ {ℓ} {T : Type ℓ} (order : T → T → Ordering) where
  abbrev pub Follows : T → List T → Type 0
  Follows r [] = Unit
  Follows r (s ∷ rows) =
      (is_after (order s r) ≡ true) × (is_after (order r s) ≡ false) × Follows r rows

  abbrev pub InSequence : List T → Type 0
  InSequence [] = Unit
  InSequence (r ∷ rows) = (is_after (order r r) ≡ false) × Follows r rows × InSequence rows

  slice_from-skip :
      (p : T → Bool) (r : T) (rows : List T)
      → p r ≡ false
      → slice_from p (r ∷ rows) ≡ slice_from p rows
  slice_from-skip p r rows e = elim (Option-cases (find_index p rows)) [
    | inl nowhere ↦ rw (e, slice_from, find_index) (rw (nowhere, slice_from) refl)
    | inr (i, there) ↦ rw (e, slice_from, find_index) (rw (there, slice_from) refl)
  ]

  slice_from-Follows :
      (r : T) (rows : List T) → Follows r rows → slice_from (λ s. is_after (order s r)) rows ≡ rows
  slice_from-Follows r [] h = refl
  slice_from-Follows r (s ∷ rows) (after, _, _) = rw (after, slice_from) refl

  Follows-middle :
      (q : T) (before : List T) (r : T) (rows : List T)
      → Follows q (before ++ r ∷ rows)
      → is_after (order q r) ≡ false
  Follows-middle q [] r rows (_, h, _) = h
  Follows-middle q (s ∷ before) r rows (_, _, h) = Follows-middle q before r rows h

  -- What comes after a row.
  pub slice_from-append :
      (before : List T) (r : T) (rows : List T)
      → InSequence (before ++ r ∷ rows)
      → slice_from (λ s. is_after (order s r)) (before ++ r ∷ rows) ≡ rows
  slice_from-append [] r rows (same, later, _) =
      slice_from-skip (λ s. is_after (order s r)) r rows same ∙ slice_from-Follows r rows later
  slice_from-append (q ∷ before) r rows (_, later, rest) =
      slice_from-skip (λ s. is_after (order s r)) q (before ++ r ∷ rows)
        (Follows-middle q before r rows later)
      ∙ slice_from-append before r rows rest

-- What the pages hold, from that of a cursor to one that has no next: none when there is no end within the fuel.
module _ {ℓ} {T : Type ℓ} where
  abbrev after_page : List T → Option (List T) → Option (List T)
  after_page items none = none
  after_page items (some rows) = some (items ++ rows)

  unfoldable pub follow : (Option String → Page T) → ℕ → Option String → Option (List T)
  follow page zero cursor = none
  follow page (suc n) cursor = elim ((page cursor).next_cursor) [
    | none ↦ some (page cursor).items
    | some next ↦ after_page (page cursor).items (follow page n (some next))
  ]

  take-drop : (n : ℕ) (rows : List T) → (take n rows ++ drop n rows) ≡ rows
  take-drop zero rows = refl
  take-drop (suc n) [] = refl
  take-drop (suc n) (r ∷ rows) = ap (λ rest. r ∷ rest) (take-drop n rows)

  take-all : (n : ℕ) (rows : List T) → length rows ≤ length (take n rows) → take n rows ≡ rows
  take-all zero [] le = refl
  take-all zero (r ∷ rows) le = absurd (omega arith)
  take-all (suc n) [] le = refl
  take-all (suc n) (r ∷ rows) le = ap (λ rest. r ∷ rest) (take-all n rows (omega arith))

  length-drop-le : (n : ℕ) (rows : List T) → length (drop n rows) ≤ length rows
  length-drop-le zero rows = omega arith
  length-drop-le (suc n) [] = omega arith
  length-drop-le (suc n) (r ∷ rows) = omega (arith, length-drop-le n rows)

  -- The last row of a page, those before it, and those that remain.
  last-take :
      (n : ℕ) (r : T) (rows : List T)
      → (before : List T) × (s : T) × (last (take (suc n) (r ∷ rows)) ≡ some s)
        × ((before ++ s ∷ drop (suc n) (r ∷ rows)) ≡ (r ∷ rows))
  last-take zero r rows = ([], r, refl, refl)
  last-take (suc n) r [] = ([], r, refl, refl)
  last-take (suc n) r (s ∷ rows) =
      let (before, t, e, h) = last-take n s rows in (r ∷ before, t, e, ap (λ rest. r ∷ rest) h)

  module _ (page : Option String → Page T) (encode : T → String) (limit : ℕ) (rows : List T)
      (resumes : (before : List T) (r : T) (rest : List T)
        → (before ++ r ∷ rest) ≡ rows
        → page (some (encode r)) ≡ page_of encode (suc limit) rest) where
    pub follow-rest :
        (n : ℕ) (cursor : Option String) (before rest : List T)
        → (before ++ rest) ≡ rows
        → page cursor ≡ page_of encode (suc limit) rest
        → length rest ≤ n
        → follow page (suc n) cursor ≡ some rest
    unfolding follow
    follow-rest n cursor before [] e here le = rw (here, follow) (rw here refl)
    follow-rest zero cursor before (r ∷ rest) e here le = absurd (omega arith)
    follow-rest (suc n) cursor before (r ∷ rest) e here le =
        elim (Bool-cases (ltb (length (take (suc limit) (r ∷ rest))) (length (r ∷ rest)))) [
          | inl more ↦
              let (front, s, found, split) = last-take limit r rest in
              let remaining = drop (suc limit) (r ∷ rest) in
              let at_last : ((before ++ front) ++ s ∷ remaining) ≡ rows =
                append_assoc before front (s ∷ remaining) ∙ ap (λ xs. before ++ xs) split ∙ e in
              let later : follow page (suc n) (some (encode s)) ≡ some remaining =
                follow-rest n (some (encode s)) ((before ++ front) ++ s ∷ []) remaining
                  (append_assoc (before ++ front) (s ∷ []) remaining ∙ at_last)
                  (resumes (before ++ front) s remaining at_last)
                  (omega (arith, length-drop-le limit rest)) in
              rw (here, follow)
                (rw (more, found) (rw (later, here) (ap some (take-drop (suc limit) (r ∷ rest)))))
          | inr all ↦
              rw (here, follow)
                (rw (all, here) (ap some (take-all (suc limit) (r ∷ rest) (ground arith))))
        ]
