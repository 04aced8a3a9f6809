-- ===== src/Work.antt =====
-- packages/core/src/work/index.ts: the work queue of a session, which is one file.
pub mod Enqueue
pub mod Drain
use athena_console.Prelude.{
  ℕ, zero, suc, ◌+◌, String, Bool, true, false, ◌||◌, ◌&&◌, not, Option, none, some, List, [], ◌∷◌,
  ◌++◌, map, str_eq, ◌<>◌, is_empty, includes, filter, length, get_or, without, put, if◌then◌else◌,
  Result, ok, throw, ◌>>=◌,
}
use athena_console.SessionId.{is_session_id}

pub data WorkMode : Type 0 where
  followup collect : WorkMode

pub data WorkDedupeMode : Type 0 where
  by_dedupe_key by_payload no_dedupe : WorkDedupeMode

pub data WorkDropPolicy : Type 0 where
  keep_old keep_new : WorkDropPolicy

pub record WorkItem : Type 0 where
  pub id : String
  pub session_id : String
  pub payload : String
  pub mode : WorkMode
  pub dedupe_key : Option String
  pub created_at : ℕ

pub record WorkQueueState : Type 0 where
  pub schema_version : Option ℕ
  pub session_id : String
  pub items : List WorkItem
  pub draining : Bool
  pub updated_at : ℕ

pub record EnqueueWorkRequest : Type 0 where
  pub session_id : String
  pub payload : String
  pub mode : WorkMode
  pub dedupe_key : Option String
  pub dedupe_mode : Option WorkDedupeMode
  pub drop_policy : Option WorkDropPolicy

pub record DrainBatch : Type 0 where
  pub session_id : String
  pub mode : WorkMode
  pub payload : String
  pub source_items : List WorkItem

pub data DrainStatus : Type 0 where
  drained already_draining : DrainStatus

pub record DrainResult : Type 0 where
  pub drained_items : ℕ
  pub status : DrainStatus
  pub queue_depth_before : ℕ
  pub queue_depth_after : ℕ

pub data WorkError : Type 0 where
  invalid_session_id empty_batch handler_failed out_of_fuel : WorkError

-- The queue files by their session.
abbrev pub Files : Type 0
Files = String → Option WorkQueueState

abbrev pub work_queue_schema_version : ℕ
work_queue_schema_version = 1

abbrev pub create_empty_queue : String → ℕ → WorkQueueState
create_empty_queue session_id now = record {
  schema_version = some work_queue_schema_version;
  session_id = session_id;
  items = [];
  draining = false;
  updated_at = now;
}

abbrev pub migrate_queue : WorkQueueState → WorkQueueState
migrate_queue queue = record queue { schema_version = some work_queue_schema_version }

unfoldable pub load_queue_unlocked : Files → String → ℕ → WorkQueueState
load_queue_unlocked files session_id now = elim (files session_id) [
  | none ↦ create_empty_queue session_id now
  | some parsed ↦ migrate_queue (record parsed { session_id = session_id })
]

abbrev pub save_queue : WorkQueueState → Files → Files
save_queue queue files = put queue.session_id queue files

-- A key that is present and not empty.
abbrev pub given_key : Option String → Option String
given_key none = none
given_key (some key) = if is_empty key then none else some key

abbrev pub new_item : EnqueueWorkRequest → String → ℕ → WorkItem
new_item request id now = record {
  id = id;
  session_id = request.session_id;
  payload = request.payload;
  mode = request.mode;
  dedupe_key = given_key request.dedupe_key;
  created_at = now;
}

abbrev pub same_mode : WorkMode → WorkMode → Bool
same_mode followup followup = true
same_mode collect collect = true
same_mode _ _ = false

abbrev pub same_key : Option String → Option String → Bool
same_key (some key) (some other) = str_eq key other
same_key _ _ = false

-- The test that `findIndex` is given: the new item, then the existing one.
abbrev pub is_match : WorkDedupeMode → WorkItem → WorkItem → Bool
is_match no_dedupe item existing = false
is_match by_dedupe_key item existing = same_key item.dedupe_key existing.dedupe_key
is_match by_payload item existing =
    str_eq existing.payload item.payload && same_mode existing.mode item.mode

-- The items with the new one in the place of the first match, or none where nothing matches.
unfoldable pub replace_match : WorkDedupeMode → WorkItem → List WorkItem → Option (List WorkItem)
replace_match mode item [] = none
replace_match mode item (existing ∷ items) =
    let rest = replace_match mode item items in
    if is_match mode item existing
    then some (item ∷ items)
    else (elim rest [ none ↦ none | some replaced ↦ some (existing ∷ replaced) ])

abbrev pub is_keep_old : WorkDropPolicy → Bool
is_keep_old keep_old = true
is_keep_old keep_new = false

abbrev pub with_items : WorkQueueState → List WorkItem → ℕ → WorkQueueState
with_items queue items now = record queue { items = items; updated_at = now }

-- What `enqueue` does to the queue that it has loaded: the queue it returns, and whether that is saved.
unfoldable pub enqueue_item :
    WorkDedupeMode → WorkDropPolicy → WorkItem → ℕ → WorkQueueState → WorkQueueState × Bool
enqueue_item mode policy item now queue = elim (replace_match mode item queue.items) [
  | none ↦ (with_items queue (queue.items ++ item ∷ []) now, true)
  | some replaced ↦
      if is_keep_old policy then (queue, false) else (with_items queue replaced now, true)
]

-- `id` is the one drawn by this call, which holds the lock of the session from here on.
unfoldable pub enqueue :
    Files → EnqueueWorkRequest → String → ℕ → Result WorkError (Files × WorkQueueState)
enqueue files request id now =
    if is_session_id request.session_id
    then (let (queue, saved) =
          enqueue_item (get_or request.dedupe_mode by_payload) (get_or request.drop_policy keep_old)
            (new_item request id now) now (load_queue_unlocked files request.session_id now) in
        ok (if saved then save_queue queue files else files, queue))
    else throw invalid_session_id
