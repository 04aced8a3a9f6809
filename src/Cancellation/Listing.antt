-- ===== src/Cancellation/Listing.antt =====
-- cancellation.ts: the runs and the requests in the order of their times, the latest first, and the pages of them.
pub mod Sorted
pub mod Pages
pub mod Complete
use Prim.Native.Nat.{compare, Ordering}
use athena_console.Prelude.{
  ℕ, String, Bool, true, false, ◌||◌, ◌&&◌, not, Option, none, some, List, [], ◌∷◌, str_eq, filter,
  sort_by, is_some, if◌then◌else◌, Result, ok, throw,
}
use athena_console.SessionId.{is_session_id}
use athena_console.Cancellation.{ActiveRunRecord, CancellationRequestRecord, RunControlQuery}
use athena_console.Cancellation.Store.{
  Runtime, CancellationError, checked, active_runs, cancellation_requests,
}
use athena_console.Cancellation.Paging.{
  Codec, Page, limit_of, given, DecodedRunControlCursor, offset, active, cancel, slice_from,
  decode_run_control_cursor, encode_active_run_cursor, encode_cancellation_request_cursor, page_of,
  page_rows_by_offset,
}

-- The order of two rows, where the first part that tells them apart decides: a later time comes first.
infixr 20 ◌or_by◌
abbrev pub ◌or_by◌ : Ordering → Ordering → Ordering
Ordering.eq or_by o = o
o or_by _ = o

abbrev is_before : Ordering → Bool
is_before Ordering.lt = true
is_before _ = false

abbrev pub is_after : Ordering → Bool
is_after Ordering.gt = true
is_after _ = false

abbrev given_text : Option String → Bool
given_text cursor = is_some (given cursor)

-- `!decoded || decoded.kind === "offset"`
abbrev by_offset : Option DecodedRunControlCursor → Bool
by_offset none = true
by_offset (some (offset n)) = true
by_offset _ = false

-- A part of the query that is given, and is not the row's.
abbrev differs : Option String → String → Bool
differs none text = false
differs (some wanted) text = not (str_eq text wanted)

abbrev pub is_wanted : RunControlQuery → String → String → Bool
is_wanted query session_id run_id =
    if differs (given query.session_id) session_id
    then false
    else (if differs (given query.run_id) run_id then false else true)

abbrev checked_query {ℓ} : {A : Type ℓ} → RunControlQuery → A → Result CancellationError A
checked_query query a = elim (given query.session_id) [
  | none ↦ ok a
  | some session_id ↦ checked session_id a
]

-- `localeCompare`, by the sign of what it returns.
module _ (locale_compare : String → String → Ordering) where
  abbrev compare_strings_desc : String → String → Ordering
  compare_strings_desc left right = locale_compare right left

  abbrev pub compare_active_runs_desc : ActiveRunRecord → ActiveRunRecord → Ordering
  compare_active_runs_desc left right =
      compare_strings_desc left.started_at right.started_at
      or_by compare_strings_desc left.session_id right.session_id
      or_by compare_strings_desc left.run_id right.run_id
      or_by compare right.pid left.pid

  abbrev pub compare_cancellation_requests_desc :
      CancellationRequestRecord → CancellationRequestRecord → Ordering
  compare_cancellation_requests_desc left right =
      compare_strings_desc left.requested_at right.requested_at
      or_by compare_strings_desc left.session_id right.session_id
      or_by compare_strings_desc left.run_id right.run_id

  abbrev pub compare_active_run_to_cursor : ActiveRunRecord → DecodedRunControlCursor → Ordering
  compare_active_run_to_cursor row (active started_at session_id run_id pid) =
      compare_strings_desc row.started_at started_at
      or_by compare_strings_desc row.session_id session_id
      or_by compare_strings_desc row.run_id run_id
      or_by compare pid row.pid
  compare_active_run_to_cursor row _ = Ordering.lt

  abbrev pub compare_cancellation_request_to_cursor :
      CancellationRequestRecord → DecodedRunControlCursor → Ordering
  compare_cancellation_request_to_cursor row (cancel requested_at session_id run_id) =
      compare_strings_desc row.requested_at requested_at
      or_by compare_strings_desc row.session_id session_id
      or_by compare_strings_desc row.run_id run_id
  compare_cancellation_request_to_cursor row _ = Ordering.lt

  -- The rows after the one that the cursor names; all of them for a cursor of the other kind.
  abbrev active_remaining :
      List ActiveRunRecord → Option DecodedRunControlCursor → List ActiveRunRecord
  active_remaining rows (some (active started_at session_id run_id pid)) =
      slice_from
        (λ row.
          is_after (compare_active_run_to_cursor row (active started_at session_id run_id pid)))
        rows
  active_remaining rows _ = rows

  abbrev cancel_remaining :
      List CancellationRequestRecord
      → Option DecodedRunControlCursor
      → List CancellationRequestRecord
  cancel_remaining rows (some (cancel requested_at session_id run_id)) =
      slice_from
        (λ row.
          is_after
            (compare_cancellation_request_to_cursor row (cancel requested_at session_id run_id)))
        rows
  cancel_remaining rows _ = rows

  unfoldable pub page_active_run_rows :
      Codec → (ℕ → String) → List ActiveRunRecord → RunControlQuery → Page ActiveRunRecord
  page_active_run_rows codec number_text rows query =
      let decoded = decode_run_control_cursor codec query.cursor in
      if given_text query.cursor && by_offset decoded
      then page_rows_by_offset codec number_text rows query
      else page_of (encode_active_run_cursor codec) (limit_of query) (active_remaining rows decoded)

  unfoldable pub page_cancellation_request_rows :
      Codec
      → (ℕ → String)
      → List CancellationRequestRecord
      → RunControlQuery
      → Page CancellationRequestRecord
  page_cancellation_request_rows codec number_text rows query =
      let decoded = decode_run_control_cursor codec query.cursor in
      if given_text query.cursor && by_offset decoded
      then page_rows_by_offset codec number_text rows query
      else page_of (encode_cancellation_request_cursor codec) (limit_of query)
          (cancel_remaining rows decoded)

  abbrev pub sorted_active_runs : List ActiveRunRecord → RunControlQuery → List ActiveRunRecord
  sorted_active_runs rows query =
      sort_by (λ left right. is_before (compare_active_runs_desc left right))
        (filter (λ row. is_wanted query row.session_id row.run_id) rows)

  abbrev pub sorted_cancellation_requests :
      List CancellationRequestRecord → RunControlQuery → List CancellationRequestRecord
  sorted_cancellation_requests rows query =
      sort_by (λ left right. is_before (compare_cancellation_requests_desc left right))
        (filter (λ row. is_wanted query row.session_id row.run_id) rows)

  unfoldable pub list_active_runs :
      (String → String)
      → Codec
      → (ℕ → String)
      → Runtime
      → RunControlQuery
      → Result CancellationError (Page ActiveRunRecord)
  list_active_runs sha256 codec number_text state query = checked_query query (
      page_active_run_rows codec number_text (sorted_active_runs (active_runs sha256 state) query)
        query)

  unfoldable pub list_cancellation_requests :
      (String → String)
      → Codec
      → (ℕ → String)
      → Runtime
      → RunControlQuery
      → Result CancellationError (Page CancellationRequestRecord)
  list_cancellation_requests sha256 codec number_text state query = checked_query query (
      page_cancellation_request_rows codec number_text
        (sorted_cancellation_requests (cancellation_requests sha256 state) query) query)
