-- ===== src/Examples/Cancellation.antt =====
-- packages/core/src/runtime/cancellation.ts: two runs, listed one to a page, and one of them stopped.
use Prim.Native.Nat.{compare, Ordering}
use Prim.Native.String.{[] as empty_text, ◌∷◌ as cons_text}
use athena_console.Prelude.{
  ℕ, suc, String, ◌≡◌, refl, none, some, List, [], ◌∷◌, length, str_eq, ◌<>◌, ok, arith,
  if◌then◌else◌,
}
use athena_console.Json.{pos, Value, string, prop}
use athena_console.Text.{has_text, trim}
use athena_console.SessionId.{is_session_id}
use athena_console.Cancellation.{ActiveRunRecord, RunControlQuery}
use athena_console.Cancellation.Store.{
  Runtime, cancelled, mark_run_active, request_cancellation, request_cancellation_by_run_id, check,
}
use athena_console.Cancellation.Store.Requests.{
  requested, answered, trimmed, check-request_cancellation,
}
use athena_console.Cancellation.Store.ByRun.{marked, unmarked, mark-request_cancellation_by_run_id}
use athena_console.Cancellation.Paging.{
  Codec, active, active_cursor_json, decode_run_control_cursor, encode_active_run_cursor,
}
use athena_console.Cancellation.Paging.Cursors.{Restores, decode-encode_active_run_cursor}
use athena_console.Cancellation.Listing.{page_active_run_rows, sorted_active_runs}
use athena_console.Cancellation.Listing.Pages.{follow}
use athena_console.Cancellation.Listing.Sorted.{IsTotal, IsTotal-on, IsTotal-compare}
use athena_console.Cancellation.Listing.Complete.{at_cursor, follow-page_active_run_rows}

abbrev run_row : String → String → ActiveRunRecord
run_row session_id started_at = record {
  session_id = session_id;
  pid = 7;
  started_at = started_at;
  run_id = "r";
  trace_id = none;
}

abbrev earlier : ActiveRunRecord
earlier = run_row "s" "i"

abbrev later : ActiveRunRecord
later = run_row "t" "ii"

-- Texts by their lengths.
abbrev text_length : String → ℕ
text_length empty_text = 0
text_length (cons_text c s) = suc (text_length s)

abbrev by_length : String → String → Ordering
by_length s t = compare (text_length s) (text_length t)

by_length-IsTotal : IsTotal by_length
by_length-IsTotal = IsTotal-on text_length IsTotal-compare

-- A row's text is told by its session.
abbrev session_text : Value → String
session_text (string s) = s
session_text _ = ""

abbrev codec : Codec
codec = record {
  to_base64url = λ s. s;
  from_base64url = λ s. s;
  stringify = λ v. "{" <> session_text (prop "sessionId" v);
  parse = λ text.
      if str_eq text "{s"
      then some (active_cursor_json earlier)
      else some (active_cursor_json later);
}

earlier_row-Restores : Restores codec (active_cursor_json earlier)
unfolding str_eq prop
earlier_row-Restores = record {
  rest = "s";
  opens = refl;
  parses = refl;
  decodes = refl;
  fills = refl;
}

later_row-Restores : Restores codec (active_cursor_json later)
unfolding str_eq prop
later_row-Restores = record {
  rest = "t";
  opens = refl;
  parses = refl;
  decodes = refl;
  fills = refl;
}

abbrev query : RunControlQuery
query = record { session_id = none; run_id = none; limit = some (pos 1); cursor = none }

abbrev rows : List ActiveRunRecord
rows = earlier ∷ later ∷ []

follow-page_active_run_rows_example :
    follow
      (λ cursor.
        page_active_run_rows by_length codec
          (λ n. "0")
          (sorted_active_runs by_length rows query)
          (at_cursor query cursor))
      (suc (length (sorted_active_runs by_length rows query)))
      none
    ≡ some (sorted_active_runs by_length rows query)
follow-page_active_run_rows_example =
    follow-page_active_run_rows by_length by_length-IsTotal codec (λ n. "0") query rows
      ((refl, tt), (tt, tt))
      ((omega arith, earlier_row-Restores), ((omega arith, later_row-Restores), tt))

-- The latest first.
sorted_rows : sorted_active_runs by_length rows query ≡ later ∷ earlier ∷ []
sorted_rows = refl

decode-encode_active_run_cursor_example :
    decode_run_control_cursor codec (some (encode_active_run_cursor codec later))
    ≡ some (active "ii" "t" "r" 7)
decode-encode_active_run_cursor_example =
    decode-encode_active_run_cursor codec later (omega arith) later_row-Restores

abbrev quiet : Runtime
quiet = record { active = []; cancel = [] }

abbrev sha256 : String → String
sha256 s = s

abbrev running : Runtime
running = marked quiet "s" 7 "i" "r" "x"

check-request_cancellation_example :
    (request_cancellation sha256 running "s" (some " no ") "ii" "d"
      ≡ ok (requested sha256 running "s" (some " no ") "ii" "d", cancelled))
    × (check (requested sha256 running "s" (some " no ") "ii" "d") "s"
        ≡ ok (
          answered (requested sha256 running "s" (some " no ") "ii" "d") "s",
          some (trimmed (some " no ")),
        ))
    × (check (answered (requested sha256 running "s" (some " no ") "ii" "d") "s") "s"
        ≡ ok (answered (requested sha256 running "s" (some " no ") "ii" "d") "s", none))
unfolding is_session_id str_eq
check-request_cancellation_example =
    check-request_cancellation sha256 running "s" (some " no ") "ii" "d" refl refl

mark-request_cancellation_by_run_id_example :
    (mark_run_active quiet "s" 7 "i" "r" "x" ≡ ok running)
    × (request_cancellation_by_run_id sha256 running "r" none "i" "d"
        ≡ ok (requested sha256 running "s" none "i" "d", cancelled, some "s"))
    × (request_cancellation_by_run_id sha256
          (requested sha256 running "s" none "i" "d")
          "r"
          none
          "i"
          "d"
        ≡ ok (
          unmarked
              (requested sha256 (requested sha256 running "s" none "i" "d") "s" none "i" "d")
              "s",
          cancelled,
          some "s",
        ))
unfolding is_session_id str_eq has_text trim
mark-request_cancellation_by_run_id_example =
    mark-request_cancellation_by_run_id sha256 quiet "s" 7 "i" "r" "x" none "d" refl (omega arith)
      refl refl refl refl
