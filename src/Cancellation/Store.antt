-- ===== src/Cancellation/Store.antt =====
-- cancellation.ts: the rows of the runs and of the requests, each in a file named by its session.
pub mod Requests
pub mod ByRun
use athena_console.Prelude.{
  ℕ, String, Bool, true, false, ◌||◌, ◌&&◌, not, Option, none, some, List, [], ◌∷◌, str_eq, any,
  find, filter, is_empty, is_some, get_or, if◌then◌else◌, Result, ok, throw, sort_by,
}
use athena_console.Json.{
  pos, Value, integer, string, object, Fields, end, field, defined_field, prop,
}
use athena_console.SessionId.{is_session_id}
use athena_console.Text.{has_text, trim}
use athena_console.Cancellation.{
  ActiveRunRecord, CancellationRequestRecord, RunControlQuery, parse_active_run_row,
  parse_cancellation_request_row,
}

-- The file `<session_id>.json` with what `JSON.parse` makes of it; `undefined` is a text that it refuses.
pub record File : Type 0 where
  pub session_id : String
  pub content : Value

-- The folders `runtime/active` and `runtime/cancel`, in the order of `readdir`.
pub record Runtime : Type 0 where
  pub active : List File
  pub cancel : List File

pub data CancellationError : Type 0 where
  invalid_session_id : String → CancellationError

pub data CancellationStatus : Type 0 where
  cancelled not_running : CancellationStatus

abbrev is_of : String → File → Bool
is_of session_id file = str_eq file.session_id session_id

-- `existsSync`
abbrev pub exists : String → List File → Bool
exists session_id files = any (is_of session_id) files

-- `rm` with `force`
abbrev pub remove : String → List File → List File
remove session_id files = filter (λ file. not (is_of session_id file)) files

-- `atomicWriteFile`: the file in its place, or a new one at the end.
abbrev pub write : String → Value → List File → List File
write session_id content [] = record { session_id = session_id; content = content } ∷ []
write session_id content (file ∷ files) =
    if is_of session_id file
    then record { session_id = session_id; content = content } ∷ files
    else file ∷ write session_id content files

abbrev pub content_of : Option File → Option Value
content_of none = none
content_of (some file) = some file.content

abbrev pub read : String → List File → Option Value
read session_id files = content_of (find (is_of session_id) files)

-- `assertValidSessionId`, before a path is made of the id.
abbrev pub checked {ℓ} : {A : Type ℓ} → String → A → Result CancellationError A
checked session_id a =
    if is_session_id session_id then ok a else throw (invalid_session_id session_id)

abbrev pub active_row : String → ℕ → String → String → String → Value
active_row session_id pid started_at run_id trace_id = object (
    field "schemaVersion" (integer (pos 1)) (
      field "sessionId" (string session_id) (
        field "pid" (integer (pos pid)) (
          field "startedAt" (string started_at)
            (field "runId" (string run_id) (field "traceId" (string trace_id) end))))))

-- `pid` is this process, `now` the time, and the ids are those given, or drawn.
unfoldable pub mark_run_active :
    Runtime → String → ℕ → String → String → String → Result CancellationError Runtime
mark_run_active state session_id pid now run_id trace_id = checked session_id (record {
  active = write session_id (active_row session_id pid now run_id trace_id) state.active;
  cancel = state.cancel;
})

unfoldable pub clear_run_active : Runtime → String → Result CancellationError Runtime
clear_run_active state session_id =
    checked session_id (record { active = remove session_id state.active; cancel = state.cancel })

unfoldable pub clear_cancellation_request : Runtime → String → Result CancellationError Runtime
clear_cancellation_request state session_id =
    checked session_id (record { active = state.active; cancel = remove session_id state.cancel })

-- A field that is written unless its text is absent or empty.
abbrev pub text_field : String → Option String → Fields → Fields
text_field key none fields = fields
text_field key (some text) fields = if is_empty text then fields else field key (string text) fields

abbrev run_id_or : Option ActiveRunRecord → String → String
run_id_or none drawn = drawn
run_id_or (some active) drawn = active.run_id

abbrev pub trace_id_in : Option ActiveRunRecord → Option String
trace_id_in none = none
trace_id_in (some active) = active.trace_id

abbrev pub started_at_in : Option ActiveRunRecord → Option String
started_at_in none = none
started_at_in (some active) = some active.started_at

abbrev pub cancel_row : String → String → Option String → Option ActiveRunRecord → String → Value
cancel_row session_id now reason active drawn = object (
    field "schemaVersion" (integer (pos 1)) (
      field "sessionId" (string session_id) (
        field "requestedAt" (string now) (
          field "runId" (string (run_id_or active drawn)) (
            text_field "reason" reason (
              text_field "traceId" (trace_id_in active)
                (text_field "startedAt" (started_at_in active) end)))))))

-- `readRecordsFromDir`: the rows that can be read.
abbrev pub read_records {ℓ} : {T : Type ℓ} → (Value → Option T) → List File → List T
read_records parser [] = []
read_records parser (file ∷ files) = elim (parser file.content) [
  | none ↦ read_records parser files
  | some row ↦ row ∷ read_records parser files
]

abbrev pub is_run : String → ActiveRunRecord → Bool
is_run run_id row = str_eq row.run_id run_id

abbrev session_of : Option CancellationRequestRecord → Option String
session_of none = none
session_of (some row) = some row.session_id

-- A run that was asked to stop before, and is marked still, is taken for one that has ended.
abbrev cleared_if : Bool → String → Runtime × CancellationStatus → Result CancellationError Runtime
cleared_if true session_id (state, cancelled) = clear_run_active state session_id
cleared_if _ session_id (state, status) = ok state

abbrev pub after_request :
    Bool
    → String
    → Result CancellationError (Runtime × CancellationStatus)
    → Result CancellationError (Runtime × CancellationStatus × Option String)
after_request had_request session_id (throw error) = throw error
after_request had_request session_id (ok (state, status)) =
    elim (cleared_if had_request session_id (state, status)) [
      | throw error ↦ throw error
      | ok state' ↦ ok (state', status, some session_id)
    ]

module _ (sha256 : String → String) where
  abbrev pub active_run_of : Option Value → Option ActiveRunRecord
  active_run_of none = none
  active_run_of (some row) = parse_active_run_row sha256 row

  -- `drawn` is the id that is used when the row of the run cannot be read.
  unfoldable pub request_cancellation :
      Runtime
      → String
      → Option String
      → String
      → String
      → Result CancellationError (Runtime × CancellationStatus)
  request_cancellation state session_id reason now drawn =
      let active = active_run_of (read session_id state.active) in
      checked session_id (
        if exists session_id state.active
        then (
          record {
            active = state.active;
            cancel = write session_id (cancel_row session_id now reason active drawn) state.cancel;
          },
          cancelled,
        )
        else (state, not_running))

  abbrev pub active_runs : Runtime → List ActiveRunRecord
  active_runs state = read_records (parse_active_run_row sha256) state.active

  abbrev pub cancellation_requests : Runtime → List CancellationRequestRecord
  cancellation_requests state = read_records (parse_cancellation_request_row sha256) state.cancel

  unfoldable pub request_cancellation_by_run_id :
      Runtime
      → String
      → Option String
      → String
      → String
      → Result CancellationError (Runtime × CancellationStatus × Option String)
  request_cancellation_by_run_id state run_id reason now drawn =
      elim (find (is_run run_id) (active_runs state)) [
        | some row ↦
            after_request (exists row.session_id state.cancel) row.session_id
              (request_cancellation state row.session_id reason now drawn)
        | none ↦ ok (
          state,
          not_running,
          session_of (find (λ row. str_eq row.run_id run_id) (cancellation_requests state)),
        )
      ]

-- The trimmed reason of a request, if it has one.
abbrev pub reason_of : Value → Option String
reason_of (string reason) = if has_text reason then some (trim reason) else none
reason_of _ = none

abbrev reason_in : Option Value → Option String
reason_in none = none
reason_in (some row) = reason_of (prop "reason" row)

-- One `check` of `watchForCancellation`: none while there is no request. The one that is found is removed, and the
-- run is stopped for its reason.
unfoldable pub check :
    Runtime → String → Result CancellationError (Runtime × Option (Option String))
check state session_id =
    if exists session_id state.cancel
    then elim (clear_cancellation_request state session_id) [
      | throw error ↦ throw error
      | ok state' ↦ ok (state', some (reason_in (read session_id state.cancel)))
    ]
    else ok (state, none)
