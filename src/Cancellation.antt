-- ===== src/Cancellation.antt =====
-- packages/core/src/runtime/cancellation.ts: which sessions run, and which are asked to stop. `createHash` and
-- `localeCompare` are parameters.
pub mod Store
pub mod Paging
pub mod Listing
use Prim.Native.String.{[] as empty_text, ◌∷◌ as cons_text}
use athena_console.Prelude.{
  ℕ, zero, suc, String, Bool, true, false, Option, none, some, ltb, if◌then◌else◌, ◌<>◌, get_or,
}
use athena_console.Prelude.Maybe.{◌>>=◌}
use athena_console.Json.{ℤ, pos, Value, integer, string, is_record, prop}
use athena_console.Text.{has_text}

pub record ActiveRunRecord : Type 0 where
  pub session_id : String
  pub pid : ℕ
  pub started_at : String
  pub run_id : String
  pub trace_id : Option String

pub record CancellationRequestRecord : Type 0 where
  pub session_id : String
  pub requested_at : String
  pub run_id : String
  pub reason : Option String
  pub trace_id : Option String
  pub started_at : Option String

-- A limit is the number after `Math.floor`.
pub record RunControlQuery : Type 0 where
  pub session_id : Option String
  pub run_id : Option String
  pub limit : Option ℤ
  pub cursor : Option String

-- `String.prototype.slice(0, n)`
abbrev take_text : ℕ → String → String
take_text zero s = empty_text
take_text (suc n) empty_text = empty_text
take_text (suc n) (cons_text c s) = cons_text c (take_text n s)

-- `sha256` is the digest in hexadecimal.
abbrev pub derive_legacy_run_id :
    (String → String) → String → Option String → Option String → String
derive_legacy_run_id sha256 session_id started_at requested_at =
    "legacy-"
    <> take_text 24
        (sha256 (session_id <> "|" <> get_or started_at "" <> "|" <> get_or requested_at ""))

abbrev text_of : Value → Option String
text_of (string s) = some s
text_of _ = none

-- A text with more than white space.
abbrev pub text_in : Value → Option String
text_in (string s) = if has_text s then some s else none
text_in _ = none

-- A positive integer.
abbrev pub pid_of : Value → Option ℕ
pid_of (integer (pos n)) = if ltb 0 n then some n else none
pid_of _ = none

abbrev record_of : Value → Option Value
record_of row = if is_record row then some row else none

unfoldable pub parse_active_run_row : (String → String) → Value → Option ActiveRunRecord
parse_active_run_row sha256 row = do
  parsed ← record_of row
  session_id ← text_of (prop "sessionId" parsed)
  pid ← pid_of (prop "pid" parsed)
  started_at ← text_of (prop "startedAt" parsed)
  some (record {
    session_id = session_id;
    pid = pid;
    started_at = started_at;
    run_id =
        get_or (text_in (prop "runId" parsed))
          (derive_legacy_run_id sha256 session_id (some started_at) none);
    trace_id = text_in (prop "traceId" parsed);
  })

-- The run id of a request that has none is that of the run it was made for, when it says when that started.
abbrev requested_run_id : (String → String) → String → String → Option String → String
requested_run_id sha256 session_id requested_at none =
    derive_legacy_run_id sha256 session_id none (some requested_at)
requested_run_id sha256 session_id requested_at (some started_at) =
    derive_legacy_run_id sha256 session_id (some started_at) none

unfoldable pub parse_cancellation_request_row :
    (String → String) → Value → Option CancellationRequestRecord
parse_cancellation_request_row sha256 row = do
  parsed ← record_of row
  session_id ← text_of (prop "sessionId" parsed)
  requested_at ← text_of (prop "requestedAt" parsed)
  some (record {
    session_id = session_id;
    requested_at = requested_at;
    run_id =
        get_or (text_in (prop "runId" parsed))
          (requested_run_id sha256 session_id requested_at (text_in (prop "startedAt" parsed)));
    reason = text_in (prop "reason" parsed);
    trace_id = text_in (prop "traceId" parsed);
    started_at = text_in (prop "startedAt" parsed);
  })
