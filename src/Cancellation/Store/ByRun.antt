-- ===== src/Cancellation/Store/ByRun.antt =====
-- cancellation.ts: a run is asked to stop by its id.
use athena_console.Prelude.{
  ℕ, ◌<◌, String, ◌≡◌, refl, Bool, true, false, Option, none, some, List, [], ◌∷◌, str_eq,
  str_eq_refl, find, ok, Bool-cases, Option-cases, inl, inr,
}
use athena_console.Json.{Value}
use athena_console.SessionId.{is_session_id}
use athena_console.Text.{has_text}
use athena_console.Cancellation.{parse_active_run_row}
use athena_console.Cancellation.Store.{
  File, Runtime, cancelled, exists, remove, write, active_row, mark_run_active, clear_run_active,
  request_cancellation, request_cancellation_by_run_id, read_records, is_run, active_runs,
  after_request,
}
use athena_console.Cancellation.Store.Requests.{
  exists-write, parse_active_run_row-active_row, requested,
}

module _ {ℓ} {T : Type ℓ} (parser : Value → Option T) (p : T → Bool) (session_id : String)
    (content : Value) (row : T) where
  -- A row that is written is found where none was.
  find-write :
      (files : List File)
      → parser content ≡ some row
      → p row ≡ true
      → find p (read_records parser files) ≡ none
      → find p (read_records parser (write session_id content files)) ≡ some row
  find-write [] e h fresh = rw (e, read_records) (rw h refl)
  find-write (file ∷ files) e h fresh = elim (Bool-cases (str_eq file.session_id session_id)) [
    | inl here ↦ rw here (rw e (rw h refl))
    | inr other ↦ elim (Option-cases (parser file.content)) [
      | inl unread ↦
          let rest : find p (read_records parser files) ≡ none =
            rw (unread, find, read_records) at fresh in
          rw other (rw unread (find-write files e h rest))
      | inr (first, parsed) ↦ elim (Bool-cases (p first)) [
        | inl found ↦
            absurd
              (let h : some first ≡ none = rw (parsed, found, find, read_records) at fresh in cc)
        | inr missed ↦
            let rest : find p (read_records parser files) ≡ none =
              rw (parsed, missed, find, read_records) at fresh in
            rw other (rw parsed (rw missed (find-write files e h rest)))
      ]
    ]
  ]

abbrev pub marked : Runtime → String → ℕ → String → String → String → Runtime
marked state session_id pid now run_id trace_id = record {
  active = write session_id (active_row session_id pid now run_id trace_id) state.active;
  cancel = state.cancel;
}

abbrev pub unmarked : Runtime → String → Runtime
unmarked state session_id = record {
  active = remove session_id state.active;
  cancel = state.cancel;
}

-- A run that is marked under an id that no marked run has, in a session that nobody asked to stop, is asked to stop
-- by that id. When it is asked a second time, and nobody has seen the first, its mark is taken away too.
pub mark-request_cancellation_by_run_id :
    (sha256 : String → String) (state : Runtime) (session_id : String) (pid : ℕ)
    (now run_id trace_id : String) (reason : Option String) (drawn : String)
    → is_session_id session_id ≡ true
    → 0 < pid
    → has_text run_id ≡ true
    → has_text trace_id ≡ true
    → find (is_run run_id) (active_runs sha256 state) ≡ none
    → exists session_id state.cancel ≡ false
    → let runs = marked state session_id pid now run_id trace_id in
      let asked = requested sha256 runs session_id reason now drawn in
      (mark_run_active state session_id pid now run_id trace_id ≡ ok runs)
      × (request_cancellation_by_run_id sha256 runs run_id reason now drawn
          ≡ ok (asked, cancelled, some session_id))
      × (request_cancellation_by_run_id sha256 asked run_id reason now drawn
          ≡ ok (
            unmarked (requested sha256 asked session_id reason now drawn) session_id,
            cancelled,
            some session_id,
          ))
unfolding mark_run_active request_cancellation_by_run_id request_cancellation clear_run_active
mark-request_cancellation_by_run_id sha256 state session_id pid now run_id trace_id reason drawn
      valid positive run trace fresh unasked =
    let runs = marked state session_id pid now run_id trace_id in
    let row = active_row session_id pid now run_id trace_id in
    let parsed =
      parse_active_run_row-active_row sha256 session_id pid now run_id trace_id positive run
        trace in
    let found : find (is_run run_id) (active_runs sha256 runs)
        ≡ some (record {
          session_id = session_id;
          pid = pid;
          started_at = now;
          run_id = run_id;
          trace_id = some trace_id;
        }) =
      find-write (parse_active_run_row sha256) (is_run run_id) session_id row _ state.active parsed
        (str_eq_refl run_id) fresh in
    let there = exists-write session_id row state.active in
    (
      rw valid refl,
      rw (found, request_cancellation_by_run_id) (rw (unasked, valid, there) refl),
      rw (found, request_cancellation_by_run_id)
          (rw (exists-write session_id _ state.cancel, valid, there)
            (rw (valid, after_request) refl)),
    )
