-- ===== src/Examples/Queue.antt =====
-- packages/core/src/work/index.ts on a queue of three items, with a handler that notes what it is given.
use athena_console.Prelude.{
  ℕ, String, ◌≡◌, refl, Bool, true, false, none, some, List, [], ◌∷◌, put, str_eq, if◌then◌else◌,
  ok,
}
use athena_console.SessionId.{is_session_id}
use athena_console.Work.{
  WorkMode, followup, collect, WorkItem, WorkQueueState, EnqueueWorkRequest, DrainBatch, Files,
  load_queue_unlocked, by_payload, keep_new, new_item, enqueue,
}
use athena_console.Work.Enqueue.{Enqueued, enqueue-Enqueued}
use athena_console.Work.Drain.{WorkManager, drain}
use athena_console.Work.Drain.Whole.{Drains, drain-Drains}

abbrev item_of : String → WorkMode → WorkItem
item_of id mode = record {
  id = id;
  session_id = "s";
  payload = id;
  mode = mode;
  dedupe_key = none;
  created_at = 1;
}

abbrev queue : WorkQueueState
queue = record {
  schema_version = none;
  session_id = "s";
  items = item_of "a" collect ∷ item_of "b" collect ∷ item_of "c" followup ∷ [];
  draining = false;
  updated_at = 1;
}

abbrev files : Files
files = put "s" queue (λ _. none)

abbrev manager : WorkManager
manager = record { files = files; draining_sessions = [] }

-- What has been handled. The second batch is refused.
abbrev note : List String → DrainBatch → List String × Bool
note [] batch = (batch.payload ∷ [], true)
note (p ∷ ps) batch = (p ∷ ps, false)

abbrev clock : List String → ℕ
clock _ = 5

drain-Drains_example :
    Drains note clock "s" manager []
      (load_queue_unlocked files "s" 5).items
      (drain note clock manager "s" [])
unfolding is_session_id load_queue_unlocked str_eq
drain-Drains_example = drain-Drains note clock "s" manager [] refl refl refl

abbrev request : EnqueueWorkRequest
request = record {
  session_id = "s";
  payload = "b";
  mode = collect;
  dedupe_key = none;
  dedupe_mode = none;
  drop_policy = some keep_new;
}

enqueue-Enqueued_example :
    (outcome : WorkQueueState × Bool) × Enqueued by_payload keep_new
      (new_item request "d" 7)
      7
      (load_queue_unlocked files "s" 7)
      outcome
    × (enqueue files request "d" 7
        ≡ ok (if outcome.1 then put "s" outcome.0 files else files, outcome.0))
unfolding is_session_id str_eq
enqueue-Enqueued_example = enqueue-Enqueued files request "d" 7 refl
