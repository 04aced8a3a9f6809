-- ===== src/Work/Drain/Served.antt =====
-- packages/core/src/work/index.ts, `drain`: what the handler is given, and what stays in the queue.
use athena_console.Prelude.{
  ℕ, zero, suc, ◌+◌, ◌≤◌, String, ◌≡◌, refl, sym, ◌∙◌, ap, ◌⊎◌, inl, inr, Bool, true, false, some,
  List, [], ◌∷◌, ◌++◌, str_eq, str_eq_refl, distinct, length, length-append, arith, Bool-cases,
  subst,
}
use athena_console.Work.{WorkItem, WorkQueueState, DrainBatch, Files, save_queue, with_items}
use athena_console.Work.Drain.{
  batch_of, item_ids, not_removed, LoopEnd, emptied, failed, Loop, drain_loop,
}
use athena_console.Work.Drain.Batches.{behind, batch_of-split, not_removed-front, distinct-rest}

module _ {W : Type 0} (handler : W → DrainBatch → W × Bool) (clock : W → ℕ)
    (session_id : String) where
  -- The handler has completed batch after batch from the front of the queue, from one state of what it acts
  -- on to another. The second list is what is left.
  pub data Served : W → List WorkItem → W → List WorkItem → Type 0 where
    no_more : {w : W} {items : List WorkItem} → Served w items w items
    serve :
        {w w' : W} {items left : List WorkItem} (first : WorkItem) (rest : List WorkItem)
        → ((first ∷ items) ≡ (batch_of session_id first items).source_items ++ rest)
        → (handler w (batch_of session_id first items)).1 ≡ true
        → Served (handler w (batch_of session_id first items)).0 rest w' left
        → Served w (first ∷ items) w' left

  -- How a drain has ended: the queue is empty, or the handler has thrown on the next batch.
  abbrev pub Ended : W → List WorkItem → LoopEnd → W → Type 0
  Ended w left end w' =
      ((end ≡ emptied) × (left ≡ []) × (w ≡ w'))
      ⊎ ((first : WorkItem) × (rest : List WorkItem) × (end ≡ failed)
          × (left ≡ first ∷ rest)
          × (handler w (batch_of session_id first rest) ≡ (w', false)))

  pub record Ends (w : W) (files : Files) (queue : WorkQueueState) (n : ℕ) (items : List WorkItem)
      (loop : Loop handler clock) : Type 0 where
    pub last : W
    pub left : List WorkItem
    pub served : Served w items last left
    pub ended : Ended last left loop.end loop.world
    pub remaining : loop.queue.items ≡ left
    pub saved : (loop.files session_id ≡ some loop.queue)
    pub marked : loop.queue.draining ≡ true
    pub others : (k : String) → str_eq session_id k ≡ false → loop.files k ≡ files k
    pub counted : loop.drained_items + length left ≡ n + length items

  -- Taking the items of a batch away by their ids leaves what is behind them.
  left_behind :
      (first : WorkItem) (items : List WorkItem)
      → distinct (item_ids (first ∷ items)) ≡ true
      → not_removed (batch_of session_id first items).source_items (first ∷ items)
        ≡ behind first items
  left_behind first items keyed =
      let split = (batch_of-split session_id first items).0 in
      let sources = (batch_of session_id first items).source_items in
      subst (λ l. not_removed sources l ≡ behind first items) (sym split)
        (not_removed-front sources (behind first items)
          (subst (λ l. distinct (item_ids l) ≡ true) split keyed))

module _ {W : Type 0} (handler : W → DrainBatch → W × Bool) (clock : W → ℕ) where
  drain_loop-completed :
      (fuel : ℕ) (w : W) (files : Files) (queue : WorkQueueState) (n : ℕ) (first : WorkItem)
      (items : List WorkItem)
      → distinct (item_ids (first ∷ items)) ≡ true
      → (handler w (batch_of queue.session_id first items)).1 ≡ true
      → let w' = (handler w (batch_of queue.session_id first items)).0 in
        let queue' = with_items queue (behind first items) (clock w') in
        drain_loop handler clock (suc fuel) w files queue n (first ∷ items)
        ≡ drain_loop handler clock fuel w'
            (save_queue queue' files)
            queue'
            (n + length (batch_of queue.session_id first items).source_items)
            (behind first items)
  unfolding drain_loop
  drain_loop-completed fuel w files queue n first items keyed completed =
      let w' = (handler w (batch_of queue.session_id first items)).0 in
      rw completed (
        ap
          (λ l.
            drain_loop handler clock fuel w' (save_queue (with_items queue l (clock w')) files)
              (with_items queue l (clock w'))
              (n + length (batch_of queue.session_id first items).source_items) l)
          (left_behind handler clock queue.session_id first items keyed))

  pub drain_loop-Ends :
      (fuel : ℕ) (w : W) (files : Files) (queue : WorkQueueState) (n : ℕ) (items : List WorkItem)
      → length items ≤ fuel
      → distinct (item_ids items) ≡ true
      → queue.items ≡ items
      → queue.draining ≡ true
      → files queue.session_id ≡ some queue
      → Ends handler clock queue.session_id w files queue n items
          (drain_loop handler clock fuel w files queue n items)
  unfolding drain_loop
  drain_loop-Ends fuel w files queue n [] enough keyed listed marked saved = record {
    last = w;
    left = [];
    served = no_more;
    ended = inl (refl, refl, refl);
    remaining = listed;
    saved = saved;
    marked = marked;
    others = λ k o. refl;
    counted = refl;
  }
  drain_loop-Ends zero w files queue n (first ∷ items) enough keyed listed marked saved =
      absurd (omega arith)
  drain_loop-Ends (suc fuel) w files queue n (first ∷ items) enough keyed listed marked saved =
      let batch = batch_of queue.session_id first items in
      let w' = (handler w batch).0 in
      let (split, shorter) = batch_of-split queue.session_id first items in
      elim (Bool-cases (handler w batch).1) [
        | inl completed ↦
            let queue' = with_items queue (behind first items) (clock w') in
            let rest =
              drain_loop-Ends fuel w' (save_queue queue' files) queue'
                (n + length batch.source_items) (behind first items) (omega arith)
                (distinct-rest batch.source_items (behind first items)
                  (subst (λ l. distinct (item_ids l) ≡ true) split keyed))
                refl marked (rw (str_eq_refl queue.session_id)) in
            let sizes = ap length split ∙ length-append batch.source_items (behind first items) in
            subst (λ loop. Ends handler clock queue.session_id w files queue n (first ∷ items) loop)
              (sym (drain_loop-completed fuel w files queue n first items keyed completed))
              (record {
                last = rest.last;
                left = rest.left;
                served = serve first (behind first items) split completed rest.served;
                ended = rest.ended;
                remaining = rest.remaining;
                saved = rest.saved;
                marked = rest.marked;
                others = λ k o. rest.others k o ∙ (rw o);
                counted = omega arith;
              })
        | inr threw ↦ rw threw (record {
          last = w;
          left = first ∷ items;
          served = no_more;
          ended = inr (first, items, refl, refl, rw (← threw));
          remaining = listed;
          saved = saved;
          marked = marked;
          others = λ k o. refl;
          counted = refl;
        })
      ]
