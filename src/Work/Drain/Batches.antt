-- ===== src/Work/Drain/Batches.antt =====
-- packages/core/src/work/index.ts: a batch is taken off the front of the queue.
use athena_console.Prelude.{
  ◌≤◌, String, ◌≡◌, refl, ◌∙◌, Bool, true, false, not, List, [], ◌∷◌, ◌++◌, str_eq_iff, str_eq_refl,
  includes, distinct, filter, length, arith,
}
use athena_console.Work.{followup, collect, WorkItem}
use athena_console.Work.Drain.{collect_items, batch_of, item_ids, not_removed}

-- What stays in the queue behind the items that are collected, and behind a batch.
abbrev uncollected : List WorkItem → List WorkItem
uncollected [] = []
uncollected (item ∷ items) = elim item.mode [
  | followup ↦ item ∷ items
  | collect ↦ uncollected items
]

abbrev pub behind : WorkItem → List WorkItem → List WorkItem
behind first items = elim first.mode [ followup ↦ items | collect ↦ uncollected items ]

collect_items-split : (items : List WorkItem) → items ≡ collect_items items ++ uncollected items
collect_items-split [] = refl
collect_items-split (item ∷ items) = ground (arith, collect_items-split items)

length-uncollected : (items : List WorkItem) → length (uncollected items) ≤ length items
length-uncollected [] = omega arith
length-uncollected (item ∷ items) = ground (arith, length-uncollected items)

-- The items of a batch are the first of the queue, and there is one at least.
pub batch_of-split :
    (session_id : String) (first : WorkItem) (items : List WorkItem)
    → ((first ∷ items) ≡ (batch_of session_id first items).source_items ++ behind first items)
      × (length (behind first items) ≤ length items)
batch_of-split session_id first items =
    (ground (arith, collect_items-split items), ground (arith, length-uncollected items))

-- Items whose ids are not among the removed ones stay.
filter_out :
    (removed : List String) (items : List WorkItem)
    → ((k : String) → includes (item_ids items) k ≡ true → includes removed k ≡ true)
    → filter (λ (item : WorkItem). not (includes removed item.id)) items ≡ []
filter_out removed [] h = refl
filter_out removed (item ∷ items) h =
    ground
      (arith, h item.id, str_eq_refl item.id, filter_out removed items (λ k m. h k (ground arith)))

filter_in :
    (removed : List String) (items : List WorkItem)
    → ((k : String) → includes (item_ids items) k ≡ true → includes removed k ≡ false)
    → filter (λ (item : WorkItem). not (includes removed item.id)) items ≡ items
filter_in removed [] h = refl
filter_in removed (item ∷ items) h =
    ground
      (arith, h item.id, str_eq_refl item.id, filter_in removed items (λ k m. h k (ground arith)))

filter-append :
    (p : WorkItem → Bool) (xs ys : List WorkItem) → filter p (xs ++ ys) ≡ filter p xs ++ filter p ys
filter-append p [] ys = refl
filter-append p (x ∷ xs) ys = ground (arith, filter-append p xs ys)

later :
    (xs ys : List WorkItem) (k : String)
    → includes (item_ids ys) k ≡ true
    → includes (item_ids (xs ++ ys)) k ≡ true
later [] ys k m = m
later (x ∷ xs) ys k m = ground (arith, later xs ys k m)

apart :
    (xs ys : List WorkItem) (k : String)
    → distinct (item_ids (xs ++ ys)) ≡ true
    → includes (item_ids ys) k ≡ true
    → includes (item_ids xs) k ≡ false
apart [] ys k keyed m = refl
apart (x ∷ xs) ys k keyed m = ground (arith, apart xs ys k, str_eq_iff x.id k, later xs ys x.id)

pub distinct-rest :
    (xs ys : List WorkItem) → distinct (item_ids (xs ++ ys)) ≡ true → distinct (item_ids ys) ≡ true
distinct-rest [] ys keyed = keyed
distinct-rest (x ∷ xs) ys keyed = ground (arith, distinct-rest xs ys)

-- Taking the items of a batch away by their ids leaves the rest of the queue.
pub not_removed-front :
    (xs ys : List WorkItem) → distinct (item_ids (xs ++ ys)) ≡ true → not_removed xs (xs ++ ys) ≡ ys
not_removed-front xs ys keyed =
    filter-append (λ item. not (includes (item_ids xs) item.id)) xs ys
    ∙ (rw
        (
          filter_out (item_ids xs) xs (λ k m. m),
          filter_in (item_ids xs) ys (λ k m. apart xs ys k keyed m),
        )
        refl)
