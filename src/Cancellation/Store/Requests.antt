-- ===== src/Cancellation/Store/Requests.antt =====
-- cancellation.ts: a run that is marked is found, and a request to stop it reaches whoever watches it, once.
use athena_console.Prelude.{
  ℕ, ◌<◌, String, ◌≡◌, refl, ◌∙◌, true, false, Option, none, some, List, [], ◌∷◌, str_eq,
  str_eq_refl, str_eq_iff, ltb, is_empty, ok, arith, Bool-cases, inl, inr, if◌then◌else◌,
}
use athena_console.Json.{Value, undefined, prop, Fields, end, get_field, is_record}
use athena_console.SessionId.{is_session_id}
use athena_console.Text.{has_text, trim}
use athena_console.Cancellation.{ActiveRunRecord, parse_active_run_row}
use athena_console.Cancellation.Store.{
  File, Runtime, cancelled, exists, remove, write, read, active_row, clear_cancellation_request,
  cancel_row, active_run_of, request_cancellation, reason_of, check, text_field, trace_id_in,
  started_at_in,
}

pub exists-write :
    (session_id : String) (content : Value) (files : List File)
    → exists session_id (write session_id content files) ≡ true
exists-write session_id content [] = rw (str_eq_refl session_id) refl
exists-write session_id content (file ∷ files) =
    elim (Bool-cases (str_eq file.session_id session_id)) [
      | inl here ↦ rw here (rw (str_eq_refl session_id) refl)
      | inr other ↦ rw other (rw other (exists-write session_id content files))
    ]

read-write :
    (session_id : String) (content : Value) (files : List File)
    → read session_id (write session_id content files) ≡ some content
read-write session_id content [] = rw (str_eq_refl session_id) refl
read-write session_id content (file ∷ files) =
    elim (Bool-cases (str_eq file.session_id session_id)) [
      | inl here ↦ rw here (rw (str_eq_refl session_id) refl)
      | inr other ↦ rw other (rw other (read-write session_id content files))
    ]

pub exists-remove :
    (session_id : String) (files : List File) → exists session_id (remove session_id files) ≡ false
exists-remove session_id [] = refl
exists-remove session_id (file ∷ files) = ground (arith, exists-remove session_id files)

-- What a run is marked with is read back: a positive process, and ids that are more than white space.
pub parse_active_run_row-active_row :
    (sha256 : String → String) (session_id : String) (pid : ℕ) (started_at run_id trace_id : String)
    → 0 < pid
    → has_text run_id ≡ true
    → has_text trace_id ≡ true
    → parse_active_run_row sha256 (active_row session_id pid started_at run_id trace_id)
      ≡ some (record {
        session_id = session_id;
        pid = pid;
        started_at = started_at;
        run_id = run_id;
        trace_id = some trace_id;
      })
unfolding parse_active_run_row str_eq prop is_record
parse_active_run_row-active_row sha256 session_id pid started_at run_id trace_id positive run
      trace =
    let running : ltb 0 pid ≡ true = ground arith in rw (running) (rw (run, trace) refl)

-- The reason that is handed on: the one that was given, trimmed, unless that leaves nothing.
abbrev pub trimmed : Option String → Option String
trimmed none = none
trimmed (some reason) = if has_text reason then some (trim reason) else none

get_field-text_field :
    (k j : String) (text : Option String) (fields : Fields)
    → str_eq j k ≡ false
    → get_field k (text_field j text fields) ≡ get_field k fields
get_field-text_field k j none fields e = refl
get_field-text_field k j (some text) fields e = elim (Bool-cases (is_empty text)) [
  | inl bare ↦ rw bare refl
  | inr full ↦ rw full (rw e refl)
]

-- An empty text has no text in it.
has_text-empty : (text : String) → is_empty text ≡ true → has_text text ≡ false
unfolding has_text trim str_eq
has_text-empty text e = rw ((str_eq_iff text "").0 e) refl

reason_of-text_field :
    (k : String) (text : Option String) (fields : Fields)
    → get_field k fields ≡ undefined
    → reason_of (get_field k (text_field k text fields)) ≡ trimmed text
reason_of-text_field k none fields e = rw e refl
reason_of-text_field k (some text) fields e = elim (Bool-cases (is_empty text)) [
  | inl bare ↦ rw bare (rw e (rw (has_text-empty text bare) refl))
  | inr full ↦ rw full (rw (str_eq_refl k) refl)
]

reason_of-cancel_row :
    (session_id now : String) (reason : Option String) (active : Option ActiveRunRecord)
    (drawn : String)
    → reason_of (prop "reason" (cancel_row session_id now reason active drawn)) ≡ trimmed reason
unfolding str_eq prop
reason_of-cancel_row session_id now reason active drawn =
    reason_of-text_field "reason" reason
      (text_field "traceId" (trace_id_in active)
        (text_field "startedAt" (started_at_in active) end))
      (get_field-text_field "reason" "traceId" (trace_id_in active)
          (text_field "startedAt" (started_at_in active) end) refl
        ∙ get_field-text_field "reason" "startedAt" (started_at_in active) end refl)

-- What a session that runs is asked with, and what is left of it.
abbrev pub requested :
    (String → String) → Runtime → String → Option String → String → String → Runtime
requested sha256 state session_id reason now drawn = record {
  active = state.active;
  cancel =
      write session_id
        (cancel_row session_id now reason (active_run_of sha256 (read session_id state.active))
          drawn)
        state.cancel;
}

abbrev pub answered : Runtime → String → Runtime
answered state session_id = record {
  active = state.active;
  cancel = remove session_id state.cancel;
}

-- A session that runs and is asked to stop, for whatever reason and even if it was asked before, is found to be by
-- the next check of whoever watches it, which hands on the trimmed reason; the check after that finds nothing.
pub check-request_cancellation :
    (sha256 : String → String) (state : Runtime) (session_id : String) (reason : Option String)
    (now drawn : String)
    → is_session_id session_id ≡ true
    → exists session_id state.active ≡ true
    → (request_cancellation sha256 state session_id reason now drawn
        ≡ ok (requested sha256 state session_id reason now drawn, cancelled))
      × (check (requested sha256 state session_id reason now drawn) session_id
          ≡ ok (
            answered (requested sha256 state session_id reason now drawn) session_id,
            some (trimmed reason),
          ))
      × (check (answered (requested sha256 state session_id reason now drawn) session_id) session_id
          ≡ ok (answered (requested sha256 state session_id reason now drawn) session_id, none))
unfolding request_cancellation check clear_cancellation_request
check-request_cancellation sha256 state session_id reason now drawn valid runs =
    let row =
      cancel_row session_id now reason (active_run_of sha256 (read session_id state.active))
        drawn in
    (
      rw (valid, runs) refl,
      rw (exists-write session_id row state.cancel, valid, read-write session_id row state.cancel)
          (rw
            (reason_of-cancel_row session_id now reason
              (active_run_of sha256 (read session_id state.active)) drawn)
            refl),
      rw (exists-remove session_id (write session_id row state.cancel)) refl,
    )
