-- ===== src/Work/Drain.antt =====
-- packages/core/src/work/index.ts, `drain` and `buildNextBatch`. The session lock is held all through, so that
-- no other call writes the file of the session.
pub mod Batches
pub mod Served
pub mod Whole
use athena_console.Prelude.{
  ℕ, zero, suc, ◌+◌, String, Bool, true, false, ◌||◌, ◌&&◌, not, Option, none, some, List, [], ◌∷◌,
  ◌++◌, map, str_eq, ◌<>◌, includes, filter, length, without, if◌then◌else◌, Result, ok, throw,
  ◌>>=◌,
}
use athena_console.SessionId.{is_session_id}
use athena_console.Work.{
  WorkMode, followup, collect, WorkItem, WorkQueueState, DrainBatch, DrainStatus, drained,
  already_draining, DrainResult, WorkError, invalid_session_id, empty_batch, handler_failed,
  out_of_fuel, Files, load_queue_unlocked, save_queue, with_items,
}

-- `payloads.join("\n\n")`
abbrev pub join : List String → String
join [] = ""
join (payload ∷ []) = payload
join (payload ∷ payloads) = payload <> "\n\n" <> join payloads

-- The items up to the first that is not to be collected.
abbrev pub collect_items : List WorkItem → List WorkItem
collect_items [] = []
collect_items (item ∷ items) = elim item.mode [
  | followup ↦ []
  | collect ↦ item ∷ collect_items items
]

abbrev pub collected : String → List WorkItem → DrainBatch
collected session_id sources = record {
  session_id = session_id;
  mode = collect;
  payload = join (map (λ item. item.payload) sources);
  source_items = sources;
}

abbrev pub batch_of : String → WorkItem → List WorkItem → DrainBatch
batch_of session_id first items = elim first.mode [
  | followup ↦ record {
    session_id = session_id;
    mode = followup;
    payload = first.payload;
    source_items = first ∷ [];
  }
  | collect ↦ collected session_id (collect_items (first ∷ items))
]

-- Of the queue: its session and its items.
abbrev pub build_next_batch : String → List WorkItem → Result WorkError DrainBatch
build_next_batch session_id [] = throw empty_batch
build_next_batch session_id (first ∷ items) = ok (batch_of session_id first items)

abbrev pub item_ids : List WorkItem → List String
item_ids items = map (λ item. item.id) items

abbrev pub not_removed : List WorkItem → List WorkItem → List WorkItem
not_removed removed items = filter (λ item. not (includes (item_ids removed) item.id)) items

pub data LoopEnd : Type 0 where
  emptied failed stopped : LoopEnd

pub record WorkManager : Type 0 where
  pub files : Files
  pub draining_sessions : List String

-- `W` is what the handler acts on. It returns that and whether it has completed or thrown. `clock` reads the
-- time.
module _ {W : Type 0} (handler : W → DrainBatch → W × Bool) (clock : W → ℕ) where
  pub record Loop : Type 0 where
    pub end : LoopEnd
    pub world : W
    pub files : Files
    pub queue : WorkQueueState
    pub drained_items : ℕ

  -- The `while` loop, with fuel: `stopped` says that it ran out. The list is `queue.items`.
  unfoldable pub drain_loop : ℕ → W → Files → WorkQueueState → ℕ → List WorkItem → Loop
  drain_loop fuel w files queue n [] = record {
    end = emptied;
    world = w;
    files = files;
    queue = queue;
    drained_items = n;
  }
  drain_loop zero w files queue n (first ∷ items) = record {
    end = stopped;
    world = w;
    files = files;
    queue = queue;
    drained_items = n;
  }
  drain_loop (suc fuel) w files queue n (first ∷ items) =
      let next = batch_of queue.session_id first items in
      let (w', completed) = handler w next in
      let left = not_removed next.source_items (first ∷ items) in
      let queue' = with_items queue left (clock w') in
      let rest =
        drain_loop fuel w' (save_queue queue' files) queue' (n + length next.source_items) left in
      if completed
      then rest
      else record { end = failed; world = w'; files = files; queue = queue; drained_items = n }

  -- The `finally` block under the lock.
  unfoldable pub clear_draining : Files → String → ℕ → Files
  clear_draining files session_id now =
      let queue = load_queue_unlocked files session_id now in
      if queue.draining
      then save_queue (record queue { draining = false; updated_at = now }) files
      else files

  abbrev pub loop_result : ℕ → Loop → Result WorkError DrainResult
  loop_result before loop = elim loop.end [
    | emptied ↦ ok (record {
      drained_items = loop.drained_items;
      status = drained;
      queue_depth_before = before;
      queue_depth_after = length loop.queue.items;
    })
    | failed ↦ throw handler_failed
    | stopped ↦ throw out_of_fuel
  ]

  abbrev pub started_queue : Files → String → ℕ → WorkQueueState
  started_queue files session_id now = record (load_queue_unlocked files session_id now) {
    draining = true;
    updated_at = now;
  }

  -- The loop on the queue that has been loaded, marked as draining and saved.
  abbrev pub run_loop : Files → String → W → Loop
  run_loop files session_id w =
      let queue = started_queue files session_id (clock w) in
      drain_loop (length queue.items) w (save_queue queue files) queue 0 queue.items

  unfoldable pub drain_open :
      WorkManager → String → W → WorkManager × W × Result WorkError DrainResult
  drain_open manager session_id w =
      let loop = run_loop manager.files session_id w in
      (
        record {
          files = clear_draining loop.files session_id (clock loop.world);
          draining_sessions = without session_id (session_id ∷ manager.draining_sessions);
        },
        loop.world,
        loop_result (length (started_queue manager.files session_id (clock w)).items) loop,
      )

  abbrev pub nothing_drained : ℕ → DrainResult
  nothing_drained depth = record {
    drained_items = 0;
    status = already_draining;
    queue_depth_before = depth;
    queue_depth_after = depth;
  }

  unfoldable pub drain : WorkManager → String → W → WorkManager × W × Result WorkError DrainResult
  drain manager session_id w =
      if is_session_id session_id
      then (if includes manager.draining_sessions session_id
          then (
            manager,
            w,
            ok (
                nothing_drained
                  (length (load_queue_unlocked manager.files session_id (clock w)).items)),
          )
          else drain_open manager session_id w)
      else (manager, w, throw invalid_session_id)
