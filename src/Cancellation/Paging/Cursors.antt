-- ===== src/Cancellation/Paging/Cursors.antt =====
-- cancellation.ts: a cursor names the row that it was made of.
use Prim.Native.String.{◌∷◌ as cons_text}
use Prim.Native.String.append
use athena_console.Prelude.{
  ◌<◌, String, str_eq, ◌≡◌, refl, ◌∙◌, true, false, none, some, ltb, is_empty, ◌<>◌, arith,
}
use athena_console.Json.{Value, prop}
use athena_console.Text.{parse_int}
use athena_console.Cancellation.{ActiveRunRecord, CancellationRequestRecord}
use athena_console.Cancellation.Paging.{
  Codec, active, cancel, decode_offset_cursor, decode_row, decode_run_control_cursor,
  active_cursor_json, encode_active_run_cursor, cancel_cursor_json,
  encode_cancellation_request_cursor,
}

-- What is documented of `JSON` and of base64url, on a value that is an object.
pub record Restores (codec : Codec) (v : Value) : Type 0 where
  pub rest : String
  pub opens : codec.stringify v ≡ ("{" <> rest)
  pub parses : codec.parse (codec.stringify v) ≡ some v
  pub decodes : codec.from_base64url (codec.to_base64url (codec.stringify v)) ≡ codec.stringify v
  pub fills : is_empty (codec.to_base64url (codec.stringify v)) ≡ false

append_brace : (rest : String) → ("{" <> rest) ≡ cons_text "{" rest
append_brace rest = (λ i. append.cons "{" "" rest i) ∙ (λ i. cons_text "{" (append.nil rest i))

-- The text of an object is no number.
parse_int-brace : (rest : String) → parse_int ("{" <> rest) ≡ none
unfolding parse_int
parse_int-brace rest = rw (append_brace rest) refl

decode-encode :
    (codec : Codec) (v : Value)
    → Restores codec v
    → decode_run_control_cursor codec (some (codec.to_base64url (codec.stringify v))) ≡ decode_row v
unfolding decode_run_control_cursor decode_offset_cursor
decode-encode codec v restores =
    let no_number : parse_int (codec.stringify v) ≡ none =
      rw restores.opens (parse_int-brace restores.rest) in
    let offset : decode_offset_cursor codec (some (codec.to_base64url (codec.stringify v))) ≡ 0 =
      rw (restores.fills, decode_offset_cursor) (rw restores.decodes (rw no_number refl)) in
    rw (restores.fills, decode_run_control_cursor)
      (rw (offset, restores.decodes) (rw (no_number, restores.parses) refl))

-- The cursor of a run with a positive process is decoded to the times and ids it was made of, and is taken for no
-- offset, where its JSON text and base64url are read back.
pub decode-encode_active_run_cursor :
    (codec : Codec) (row : ActiveRunRecord)
    → 0 < row.pid
    → Restores codec (active_cursor_json row)
    → decode_run_control_cursor codec (some (encode_active_run_cursor codec row))
      ≡ some (active row.started_at row.session_id row.run_id row.pid)
unfolding str_eq prop
decode-encode_active_run_cursor codec row runs restores =
    decode-encode codec (active_cursor_json row) restores
    ∙ (let running : ltb 0 row.pid ≡ true = ground arith in rw running refl)

-- So is that of a request.
pub decode-encode_cancellation_request_cursor :
    (codec : Codec) (row : CancellationRequestRecord)
    → Restores codec (cancel_cursor_json row)
    → decode_run_control_cursor codec (some (encode_cancellation_request_cursor codec row))
      ≡ some (cancel row.requested_at row.session_id row.run_id)
unfolding str_eq prop
decode-encode_cancellation_request_cursor codec row restores =
    decode-encode codec (cancel_cursor_json row) restores ∙ refl
