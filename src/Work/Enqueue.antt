-- ===== src/Work/Enqueue.antt =====
-- packages/core/src/work/index.ts, `enqueue`: what it keeps of the queue.
use athena_console.Prelude.{
  ℕ, String, ◌≡◌, refl, ◌∙◌, ap, ◌⊎◌, inl, inr, Bool, true, false, any, none, some, List, [], ◌∷◌,
  ◌++◌, put, get_or, Bool-cases, Option-cases, if◌then◌else◌, ok,
}
use athena_console.SessionId.{is_session_id}
use athena_console.Work.{
  WorkItem, WorkQueueState, EnqueueWorkRequest, WorkDedupeMode, by_payload, WorkDropPolicy,
  keep_old, keep_new, Files, load_queue_unlocked, with_items, is_match, new_item, replace_match,
  enqueue_item, enqueue,
}

pub load-session_id :
    (files : Files) (session_id : String) (now : ℕ)
    → (load_queue_unlocked files session_id now).session_id ≡ session_id
unfolding load_queue_unlocked
load-session_id files session_id now = elim (Option-cases (files session_id)) [
  | inl e ↦ rw (e, load_queue_unlocked) refl
  | inr (queue, e) ↦ rw (e, load_queue_unlocked) refl
]

-- A list with its first match replaced: what is before it does not match.
pub record Replaced (mode : WorkDedupeMode) (item : WorkItem) (items : List WorkItem)
    (after : List WorkItem) : Type 0 where
  pub before : List WorkItem
  pub old : WorkItem
  pub behind : List WorkItem
  pub was : items ≡ before ++ old ∷ behind
  pub becomes : after ≡ before ++ item ∷ behind
  pub matches : is_match mode item old ≡ true
  pub first : any (is_match mode item) before ≡ false

replace_match-Replaced :
    (mode : WorkDedupeMode) (item : WorkItem) (items : List WorkItem)
    → ((replace_match mode item items ≡ none) × (any (is_match mode item) items ≡ false))
      ⊎ ((after : List WorkItem) × (replace_match mode item items ≡ some after)
          × Replaced mode item items after)
unfolding replace_match
replace_match-Replaced mode item [] = inl (refl, refl)
replace_match-Replaced mode item (existing ∷ items) =
    elim (Bool-cases (is_match mode item existing)) [
      | inl here ↦ inr (
        item ∷ items,
        rw here refl,
        record {
          before = [];
          old = existing;
          behind = items;
          was = refl;
          becomes = refl;
          matches = here;
          first = refl;
        },
      )
      | inr other ↦ elim (replace_match-Replaced mode item items) [
        | inl (nothing, apart) ↦ inl (rw other (rw nothing refl), rw (other, apart) refl)
        | inr (after, replaced, r) ↦ inr (
          existing ∷ after,
          rw other (rw replaced refl),
          record {
            before = existing ∷ r.before;
            old = r.old;
            behind = r.behind;
            was = ap (λ l. existing ∷ l) r.was;
            becomes = ap (λ l. existing ∷ l) r.becomes;
            matches = r.matches;
            first = rw (other, r.first) refl;
          },
        )
      ]
    ]

-- What enqueueing an item leaves. Where no item of the queue matches it, it is put at the end. Where one does,
-- the queue is as it was under `keep-old`, and else the item stands in the place of the first that matches.
abbrev pub Enqueued :
    WorkDedupeMode → WorkDropPolicy → WorkItem → ℕ → WorkQueueState → WorkQueueState × Bool → Type 0
Enqueued mode policy item now queue outcome =
    ((any (is_match mode item) queue.items ≡ false)
      × (outcome ≡ (with_items queue (queue.items ++ item ∷ []) now, true)))
    ⊎ ((after : List WorkItem) × Replaced mode item queue.items after
        × (((policy ≡ keep_old) × (outcome ≡ (queue, false)))
            ⊎ ((policy ≡ keep_new) × (outcome ≡ (with_items queue after now, true)))))

by_policy :
    (mode : WorkDedupeMode) (policy : WorkDropPolicy) (item : WorkItem) (now : ℕ)
    (queue : WorkQueueState) (after : List WorkItem)
    → replace_match mode item queue.items ≡ some after
    → ((policy ≡ keep_old) × (enqueue_item mode policy item now queue ≡ (queue, false)))
      ⊎ ((policy ≡ keep_new)
          × (enqueue_item mode policy item now queue ≡ (with_items queue after now, true)))
unfolding enqueue_item
by_policy mode keep_old item now queue after e = inl (refl, rw (e, enqueue_item) refl)
by_policy mode keep_new item now queue after e = inr (refl, rw (e, enqueue_item) refl)

enqueue_item-Enqueued :
    (mode : WorkDedupeMode) (policy : WorkDropPolicy) (item : WorkItem) (now : ℕ)
    (queue : WorkQueueState)
    → Enqueued mode policy item now queue (enqueue_item mode policy item now queue)
unfolding enqueue_item
enqueue_item-Enqueued mode policy item now queue =
    elim (replace_match-Replaced mode item queue.items) [
      | inl (nothing, apart) ↦ inl (apart, rw (nothing, enqueue_item) refl)
      | inr (after, replaced, r) ↦
          inr (after, r, by_policy mode policy item now queue after replaced)
    ]

enqueue_item-session_id :
    (mode : WorkDedupeMode) (policy : WorkDropPolicy) (item : WorkItem) (now : ℕ)
    (queue : WorkQueueState)
    → (enqueue_item mode policy item now queue).0.session_id ≡ queue.session_id
enqueue_item-session_id mode policy item now queue =
    elim (enqueue_item-Enqueued mode policy item now queue) [
      | inl (apart, e) ↦ rw e refl
      | inr (after, r, inl (same, e)) ↦ rw e refl
      | inr (after, r, inr (new, e)) ↦ rw e refl
    ]

-- Enqueueing to a valid session returns: the new item is put at the end of the queue where nothing in it
-- matches, and else the queue is as it was and its file too, or the item takes the place of the first match.
-- The file of the session holds the queue that is returned, where it is changed, and other files are kept.
pub enqueue-Enqueued :
    (files : Files) (request : EnqueueWorkRequest) (id : String) (now : ℕ)
    → is_session_id request.session_id ≡ true
    → let mode = get_or request.dedupe_mode by_payload in
      let policy = get_or request.drop_policy keep_old in
      let queue = load_queue_unlocked files request.session_id now in
      (outcome : WorkQueueState × Bool) × Enqueued mode policy
        (new_item request id now)
        now
        queue
        outcome
      × (enqueue files request id now
          ≡ ok (if outcome.1 then put request.session_id outcome.0 files else files, outcome.0))
unfolding enqueue
enqueue-Enqueued files request id now valid =
    let mode = get_or request.dedupe_mode by_payload in
    let policy = get_or request.drop_policy keep_old in
    let queue = load_queue_unlocked files request.session_id now in
    let item = new_item request id now in
    let outcome = enqueue_item mode policy item now queue in
    let named : outcome.0.session_id ≡ request.session_id =
      enqueue_item-session_id mode policy item now queue
      ∙ load-session_id files request.session_id now in
    (
      outcome,
      enqueue_item-Enqueued mode policy item now queue,
      rw valid
          (ap (λ k. ok ((if outcome.1 then put k outcome.0 files else files), outcome.0)) named),
    )
