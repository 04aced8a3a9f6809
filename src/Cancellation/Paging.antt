-- ===== src/Cancellation/Paging.antt =====
-- cancellation.ts: the rows that a query asks for, a page at a time. A cursor is a JSON text in base64url, and
-- names the last row of the page before.
pub mod Cursors
use athena_console.Prelude.{
  ℕ, ◌+◌, zero, suc, String, Bool, true, false, ◌||◌, ◌&&◌, not, Option, none, some, List, [], ◌∷◌,
  str_eq, ltb, ◌==◌, min, max, take, drop, length, filter, sort_by, is_empty, is_some, get_or,
  if◌then◌else◌, Result, ok, throw,
}
use athena_console.Prelude.Maybe.{◌>>=◌}
use athena_console.Json.{ℤ, pos, negsuc, Value, integer, string, object, end, field, prop}
use athena_console.SessionId.{is_session_id}
use athena_console.Text.{parse_int}
use athena_console.Cancellation.{
  ActiveRunRecord, CancellationRequestRecord, RunControlQuery, pid_of,
}
use athena_console.Cancellation.Store.{
  Runtime, CancellationError, checked, active_runs, cancellation_requests,
}

-- `Buffer` between UTF-8 and base64url, and `JSON`; a text that `JSON.parse` refuses is none.
pub record Codec : Type 0 where
  pub to_base64url : String → String
  pub from_base64url : String → String
  pub stringify : Value → String
  pub parse : String → Option Value

pub record Page {ℓ} (T : Type ℓ) : Type ℓ where
  pub items : List T
  pub next_cursor : Option String

abbrev pub run_control_limit_default : ℤ
run_control_limit_default = pos 100

abbrev run_control_limit_max : ℕ
run_control_limit_max = 500

-- `Math.max(1, Math.min(run_control_limit_max, value))`
abbrev pub clamp_limit : ℤ → ℕ
clamp_limit (pos n) = max 1 (min run_control_limit_max n)
clamp_limit (negsuc n) = 1

abbrev pub limit_of : RunControlQuery → ℕ
limit_of query = clamp_limit (get_or query.limit run_control_limit_default)

-- An empty text is no cursor, and no session or run to look for.
abbrev pub given : Option String → Option String
given none = none
given (some text) = if is_empty text then none else some text

pub data DecodedRunControlCursor : Type 0 where
  offset : ℕ → DecodedRunControlCursor
  active : String → String → String → ℕ → DecodedRunControlCursor
  cancel : String → String → String → DecodedRunControlCursor

abbrev not_negative : Option ℤ → Option ℕ
not_negative (some (pos n)) = some n
not_negative _ = none

abbrev is_zero : Option ℕ → Bool
is_zero (some zero) = true
is_zero _ = false

abbrev text_of : Value → Option String
text_of (string s) = some s
text_of _ = none

abbrev run_id_of : Value → String
run_id_of (string s) = s
run_id_of _ = ""

abbrev is_text : String → Value → Bool
is_text s (string u) = str_eq u s
is_text s _ = false

-- `findIndex`
abbrev pub find_index {ℓ} : {T : Type ℓ} → (T → Bool) → List T → Option ℕ
find_index p [] = none
find_index p (x ∷ xs) =
    if p x then some 0 else (elim (find_index p xs) [ none ↦ none | some i ↦ some (suc i) ])

-- The rows from the first that passes the test.
abbrev pub slice_from {ℓ} : {T : Type ℓ} → (T → Bool) → List T → List T
slice_from p xs = elim (find_index p xs) [ none ↦ [] | some i ↦ drop i xs ]

-- `xs[xs.length - 1]`
abbrev pub last {ℓ} : {T : Type ℓ} → List T → Option T
last [] = none
last (x ∷ []) = some x
last (x ∷ y ∷ xs) = last (y ∷ xs)

abbrev decode_active : Value → Option DecodedRunControlCursor
decode_active parsed = do
  started_at ← text_of (prop "startedAt" parsed)
  session_id ← text_of (prop "sessionId" parsed)
  pid ← pid_of (prop "pid" parsed)
  some (active started_at session_id (run_id_of (prop "runId" parsed)) pid)

abbrev decode_cancel : Value → Option DecodedRunControlCursor
decode_cancel parsed = do
  requested_at ← text_of (prop "requestedAt" parsed)
  session_id ← text_of (prop "sessionId" parsed)
  some (cancel requested_at session_id (run_id_of (prop "runId" parsed)))

abbrev pub decode_row : Value → Option DecodedRunControlCursor
decode_row parsed =
    if is_text "active" (prop "kind" parsed)
    then decode_active parsed
    else (if is_text "cancel" (prop "kind" parsed) then decode_cancel parsed else none)

abbrev pub active_cursor_json : ActiveRunRecord → Value
active_cursor_json row = object (
    field "kind" (string "active") (
      field "startedAt" (string row.started_at) (
        field "sessionId" (string row.session_id)
          (field "runId" (string row.run_id) (field "pid" (integer (pos row.pid)) end)))))

abbrev pub cancel_cursor_json : CancellationRequestRecord → Value
cancel_cursor_json row = object (
    field "kind" (string "cancel") (
      field "requestedAt" (string row.requested_at)
        (field "sessionId" (string row.session_id) (field "runId" (string row.run_id) end))))

abbrev cursor_of {ℓ} : {T : Type ℓ} → (T → String) → Option T → Option String
cursor_of encode none = none
cursor_of encode (some row) = some (encode row)

-- The first rows of what remains, and a cursor after the last of them when there are more.
abbrev pub page_of {ℓ} : {T : Type ℓ} → (T → String) → ℕ → List T → Page T
page_of encode limit remaining =
    let items = take limit remaining in
    record {
      items = items;
      next_cursor =
          if ltb (length items) (length remaining) then cursor_of encode (last items) else none;
    }

module _ (codec : Codec) where
  abbrev pub encode_offset_cursor : (ℕ → String) → ℕ → String
  encode_offset_cursor number_text n = codec.to_base64url (number_text n)

  abbrev pub decode_offset_cursor_raw : String → Option ℕ
  decode_offset_cursor_raw cursor = not_negative (parse_int (codec.from_base64url cursor))

  unfoldable pub decode_offset_cursor : Option String → ℕ
  decode_offset_cursor cursor = elim (given cursor) [
    | none ↦ 0
    | some text ↦ get_or (decode_offset_cursor_raw text) 0
  ]

  unfoldable pub decode_run_control_cursor : Option String → Option DecodedRunControlCursor
  decode_run_control_cursor cursor = elim (given cursor) [
    | none ↦ none
    | some text ↦
        if ltb 0 (decode_offset_cursor (some text)) || is_zero (decode_offset_cursor_raw text)
        then some (offset (decode_offset_cursor (some text)))
        else (codec.parse (codec.from_base64url text) >>= decode_row)
  ]

  abbrev pub encode_active_run_cursor : ActiveRunRecord → String
  encode_active_run_cursor row = codec.to_base64url (codec.stringify (active_cursor_json row))

  abbrev pub encode_cancellation_request_cursor : CancellationRequestRecord → String
  encode_cancellation_request_cursor row =
      codec.to_base64url (codec.stringify (cancel_cursor_json row))

  -- `number_text` is `String(n)`.
  unfoldable pub page_rows_by_offset {ℓ} :
      {T : Type ℓ} → (ℕ → String) → List T → RunControlQuery → Page T
  page_rows_by_offset number_text rows query =
      let start = decode_offset_cursor query.cursor in
      let items = take (limit_of query) (drop start rows) in
      let next = start + length items in
      record {
        items = items;
        next_cursor =
            if ltb next (length rows) then some (encode_offset_cursor number_text next) else none;
      }
