-- ===== src/Work/Drain/Whole.antt =====
-- packages/core/src/work/index.ts, `drain` from its first line to its last.
use athena_console.Prelude.{
  ℕ, String, ◌≡◌, refl, sym, ◌∙◌, ◌⊎◌, inl, inr, Bool, true, false, some, List, [], ◌∷◌, str_eq,
  str_eq_iff, str_eq_refl, includes, includes-without, distinct, length, put, without, arith,
  Result, ok, throw, subst,
}
use athena_console.SessionId.{is_session_id}
use athena_console.Work.{
  WorkItem, WorkQueueState, DrainBatch, DrainResult, drained, WorkError, handler_failed, Files,
  load_queue_unlocked, save_queue, migrate_queue,
}
use athena_console.Work.Enqueue.{load-session_id}
use athena_console.Work.Drain.{
  batch_of, item_ids, emptied, failed, WorkManager, Loop, clear_draining, loop_result,
  started_queue, run_loop, drain_open, drain,
}
use athena_console.Work.Drain.Served.{Served, Ends, drain_loop-Ends}

-- What the file of a session that was marked as draining is when the mark is cleared.
abbrev pub cleared : WorkQueueState → String → ℕ → WorkQueueState
cleared queue session_id now = record (migrate_queue (record queue { session_id = session_id })) {
  draining = false;
  updated_at = now;
}

module _ {W : Type 0} (handler : W → DrainBatch → W × Bool) (clock : W → ℕ)
    (session_id : String) where
  clear_draining-saved :
      (files : Files) (queue : WorkQueueState) (now : ℕ)
      → files session_id ≡ some queue
      → queue.draining ≡ true
      → clear_draining handler clock files session_id now
        ≡ put session_id (cleared queue session_id now) files
  unfolding clear_draining load_queue_unlocked
  clear_draining-saved files queue now e marked = rw (e, load_queue_unlocked) (rw marked refl)

  -- What a drain returns, its result last, for the items that the queue had.
  pub record Drains (manager : WorkManager) (w : W) (items : List WorkItem)
      (outcome : WorkManager × W × Result WorkError DrainResult) : Type 0 where
    pub last : W
    pub left : List WorkItem
    pub served : Served handler clock session_id w items last left
    pub ended :
        ((outcome.2
            ≡ ok (record {
              drained_items = length items;
              status = drained;
              queue_depth_before = length items;
              queue_depth_after = 0;
            }))
          × (left ≡ [])
          × (last ≡ outcome.1))
        ⊎ ((first : WorkItem) × (rest : List WorkItem) × (outcome.2 ≡ throw handler_failed)
            × (left ≡ first ∷ rest)
            × (handler last (batch_of session_id first rest) ≡ (outcome.1, false)))
    pub file : WorkQueueState
    pub saved : outcome.0.files session_id ≡ some file
    pub remaining : file.items ≡ left
    pub unmarked : file.draining ≡ false
    pub others : (k : String) → str_eq session_id k ≡ false → outcome.0.files k ≡ manager.files k
    pub sessions :
        (k : String) → includes outcome.0.draining_sessions k ≡ includes manager.draining_sessions k

  result-emptied :
      (before : ℕ) (loop : Loop handler clock)
      → loop.end ≡ emptied
      → loop_result handler clock before loop
        ≡ ok (record {
          drained_items = loop.drained_items;
          status = drained;
          queue_depth_before = before;
          queue_depth_after = length loop.queue.items;
        })
  result-emptied before loop e = rw e refl

  result-failed :
      (before : ℕ) (loop : Loop handler clock)
      → loop.end ≡ failed
      → loop_result handler clock before loop ≡ throw handler_failed
  result-failed before loop e = rw e refl

  -- What follows the loop, whatever the loop was.
  after_loop-Drains :
      (manager : WorkManager) (w : W) (queue : WorkQueueState) (files : Files)
      (loop : Loop handler clock)
      → ((k : String) → str_eq session_id k ≡ false → files k ≡ manager.files k)
      → includes manager.draining_sessions session_id ≡ false
      → Ends handler clock session_id w files queue 0 queue.items loop
      → Drains manager w queue.items (
        record {
          files = clear_draining handler clock loop.files session_id (clock loop.world);
          draining_sessions = without session_id (session_id ∷ manager.draining_sessions);
        },
        loop.world,
        loop_result handler clock (length queue.items) loop,
      )
  after_loop-Drains manager w queue files loop same closed ends =
      let now = clock loop.world in
      let clears = clear_draining-saved loop.files loop.queue now ends.saved ends.marked in
      record {
        last = ends.last;
        left = ends.left;
        served = ends.served;
        ended = elim ends.ended [
          | inl (end, nothing, world) ↦ inl (
            result-emptied (length queue.items) loop end
                ∙ (let none_left : length loop.queue.items ≡ 0 =
                      rw (ends.remaining, nothing) refl in
                    let all : loop.drained_items ≡ length queue.items =
                      (let counted = ends.counted in
                        let no_left : length ends.left ≡ 0 = rw nothing refl in omega arith) in
                    rw (none_left, all) refl),
            nothing,
            world,
          )
          | inr (first, rest, end, next, threw) ↦
              inr (first, rest, result-failed (length queue.items) loop end, next, threw)
        ];
        file = cleared loop.queue session_id now;
        saved = rw (clears, str_eq_refl session_id) refl;
        remaining = ends.remaining;
        unmarked = refl;
        others = λ k o. rw (clears, o) (ends.others k o ∙ same k o);
        sessions = λ k. rw (str_eq_refl session_id) (
            ground (
              arith,
              includes-without session_id k manager.draining_sessions,
              str_eq_iff session_id k,
              closed,
            ));
      }

  drain-open :
      (manager : WorkManager) (w : W)
      → is_session_id session_id ≡ true
      → includes manager.draining_sessions session_id ≡ false
      → drain handler clock manager session_id w ≡ (
          let loop = run_loop handler clock manager.files session_id w in
          (
            record {
              files = clear_draining handler clock loop.files session_id (clock loop.world);
              draining_sessions = without session_id (session_id ∷ manager.draining_sessions);
            },
            loop.world,
            loop_result handler clock
                (length (started_queue handler clock manager.files session_id (clock w)).items)
                loop,
          ))
  unfolding drain drain_open
  drain-open manager w valid closed = rw (valid, closed) refl

  -- A drain of a session that is not being drained, whose items have different ids, ends: the handler has
  -- completed batches from the front of the queue, each item in one batch and in order, and then either the
  -- queue is empty and the number of its items is returned, or the handler threw on the next batch and so
  -- does the drain. The file keeps just what was not handled and is not marked as draining, and neither
  -- another session's file nor the set of the sessions being drained is changed.
  pub drain-Drains :
      (manager : WorkManager) (w : W)
      → is_session_id session_id ≡ true
      → includes manager.draining_sessions session_id ≡ false
      → distinct (item_ids (load_queue_unlocked manager.files session_id (clock w)).items) ≡ true
      → Drains manager w
          (load_queue_unlocked manager.files session_id (clock w)).items
          (drain handler clock manager session_id w)
  drain-Drains manager w valid closed keyed =
      let queue = started_queue handler clock manager.files session_id (clock w) in
      let named = load-session_id manager.files session_id (clock w) in
      let loop = run_loop handler clock manager.files session_id w in
      let ends : Ends handler clock session_id w (save_queue queue manager.files) queue 0
          queue.items loop =
        subst
          (λ s. Ends handler clock s w (save_queue queue manager.files) queue 0 queue.items loop)
          named
          (drain_loop-Ends handler clock (length queue.items) w (save_queue queue manager.files)
            queue 0 queue.items (omega arith) keyed refl refl
            (rw (str_eq_refl queue.session_id))) in
      subst
        (λ outcome.
          Drains manager w (load_queue_unlocked manager.files session_id (clock w)).items outcome)
        (sym (drain-open manager w valid closed))
        (after_loop-Drains manager w queue (save_queue queue manager.files) loop
          (λ k o. rw (named, o) refl) closed ends)
