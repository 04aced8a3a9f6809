-- ===== src/Cancellation/Listing/Complete.antt =====
-- cancellation.ts: whoever follows the cursors is shown each row once.
use Prim.Native.Nat.{Ordering}
use athena_console.Prelude.{
  ℕ, ◌<◌, suc, String, ◌≡◌, refl, Bool, false, Option, none, some, List, [], ◌∷◌, ◌++◌, All, length,
  filter, max, min, ◌-◌, get_or, arith, Bool-cases, inl, inr,
}
use athena_console.Json.{ℤ, pos, negsuc}
use athena_console.Cancellation.{ActiveRunRecord, CancellationRequestRecord, RunControlQuery}
use athena_console.Cancellation.Paging.{
  Codec, run_control_limit_default, clamp_limit, limit_of, page_of, decode_run_control_cursor,
  active_cursor_json, cancel_cursor_json, encode_active_run_cursor,
  encode_cancellation_request_cursor,
}
use athena_console.Cancellation.Paging.Cursors.{
  Restores, decode-encode_active_run_cursor, decode-encode_cancellation_request_cursor,
}
use athena_console.Cancellation.Listing.{
  is_wanted, compare_active_runs_desc, compare_cancellation_requests_desc, page_active_run_rows,
  page_cancellation_request_rows, sorted_active_runs, sorted_cancellation_requests,
}
use athena_console.Cancellation.Listing.Pages.{InSequence, follow, follow-rest, slice_from-append}
use athena_console.Cancellation.Listing.Sorted.{
  IsTotal, IsTotal-compare_active_runs_desc, IsTotal-compare_cancellation_requests_desc, Apart,
  InSequence-sort_by, All-sort_by, is_same,
}

-- The query of the page after a cursor.
abbrev pub at_cursor : RunControlQuery → Option String → RunControlQuery
at_cursor query cursor = record {
  session_id = query.session_id;
  run_id = query.run_id;
  limit = query.limit;
  cursor = cursor;
}

clamp_limit-suc : (limit : ℤ) → (n : ℕ) × (clamp_limit limit ≡ suc n)
clamp_limit-suc (pos n) = (max 1 (min 500 n) - 1, omega arith)
clamp_limit-suc (negsuc n) = (0, refl)

limit_of-suc : (query : RunControlQuery) → (n : ℕ) × (limit_of query ≡ suc n)
limit_of-suc query = clamp_limit-suc (get_or query.limit run_control_limit_default)

module _ {ℓ} {T : Type ℓ} where
  All-middle :
      (P : T → Type 0) (before : List T) (r : T) (rest : List T) → All P (before ++ r ∷ rest) → P r
  All-middle P [] r rest (h, _) = h
  All-middle P (s ∷ before) r rest (_, hs) = All-middle P before r rest hs

  All-filter : (P : T → Type 0) (p : T → Bool) (rows : List T) → All P rows → All P (filter p rows)
  All-filter P p [] hs = tt
  All-filter P p (r ∷ rows) (h, hs) = elim (Bool-cases (p r)) [
    | inl kept ↦ rw kept (h, All-filter P p rows hs)
    | inr left ↦ rw left (All-filter P p rows hs)
  ]

  Apart-filter :
      (order : T → T → Ordering) (p : T → Bool) (rows : List T)
      → Apart order rows
      → Apart order (filter p rows)
  Apart-filter order p [] hs = tt
  Apart-filter order p (r ∷ rows) (h, hs) = elim (Bool-cases (p r)) [
    | inl kept ↦
        rw kept
          (All-filter (λ s. is_same (order r s) ≡ false) p rows h, Apart-filter order p rows hs)
    | inr left ↦ rw left (Apart-filter order p rows hs)
  ]

-- What a row needs to be named by a cursor.
abbrev pub IsNamed : Codec → ActiveRunRecord → Type 0
IsNamed codec row = (0 < row.pid) × Restores codec (active_cursor_json row)

abbrev pub IsNamedRequest : Codec → CancellationRequestRecord → Type 0
IsNamedRequest codec row = Restores codec (cancel_cursor_json row)

module _ (locale_compare : String → String → Ordering) (total : IsTotal locale_compare)
    (codec : Codec) (number_text : ℕ → String) where
  active-resumes :
      (query : RunControlQuery) (limit : ℕ) (rows : List ActiveRunRecord)
      → limit_of query ≡ suc limit
      → All (IsNamed codec) rows
      → InSequence (compare_active_runs_desc locale_compare) rows
      → (before : List ActiveRunRecord) (r : ActiveRunRecord) (rest : List ActiveRunRecord)
      → (before ++ r ∷ rest) ≡ rows
      → page_active_run_rows locale_compare codec number_text rows
          (at_cursor query (some (encode_active_run_cursor codec r)))
        ≡ page_of (encode_active_run_cursor codec) (suc limit) rest
  unfolding page_active_run_rows
  active-resumes query limit rows bounded named ordered before r rest e =
      let (runs, restores) = All-middle (IsNamed codec) before r rest (rw e named) in
      let decoded = decode-encode_active_run_cursor codec r runs restores in
      let remaining =
        slice_from-append (compare_active_runs_desc locale_compare) before r rest (rw e ordered) in
      rw (← e) (rw (decoded, bounded) (rw (restores.fills) (rw remaining refl)))

  -- To follow the cursors from the first page of the runs, in the order of the texts of the locale, which is total,
  -- comes to an end after no more pages than there are rows, and one, and shows every row that the query asks for
  -- once, the latest first. No two rows are the same to the order, each has a positive process, and its cursor can
  -- be read back.
  pub follow-page_active_run_rows :
      (query : RunControlQuery) (rows : List ActiveRunRecord)
      → Apart (compare_active_runs_desc locale_compare) rows
      → All (IsNamed codec) rows
      → follow
          (λ cursor.
            page_active_run_rows locale_compare codec number_text
              (sorted_active_runs locale_compare rows query)
              (at_cursor query cursor))
          (suc (length (sorted_active_runs locale_compare rows query)))
          none
        ≡ some (sorted_active_runs locale_compare rows query)
  unfolding page_active_run_rows decode_run_control_cursor
  follow-page_active_run_rows query rows apart named =
      let order = compare_active_runs_desc locale_compare in
      let total_order = IsTotal-compare_active_runs_desc total in
      let wanted = filter (λ row. is_wanted query row.session_id row.run_id) rows in
      let sorted = sorted_active_runs locale_compare rows query in
      let (limit, bounded) = limit_of-suc query in
      let p : ActiveRunRecord → Bool = λ row. is_wanted query row.session_id row.run_id in
      let ordered = InSequence-sort_by order total_order wanted (Apart-filter order p rows apart) in
      let all_named =
        All-sort_by order total_order (IsNamed codec) wanted
          (All-filter (IsNamed codec) p rows named) in
      follow-rest
        (λ cursor.
          page_active_run_rows locale_compare codec number_text sorted (at_cursor query cursor))
        (encode_active_run_cursor codec) limit sorted
        (active-resumes query limit sorted bounded all_named ordered) (length sorted) none [] sorted
        refl (rw bounded refl) (omega arith)

  request-resumes :
      (query : RunControlQuery) (limit : ℕ) (rows : List CancellationRequestRecord)
      → limit_of query ≡ suc limit
      → All (IsNamedRequest codec) rows
      → InSequence (compare_cancellation_requests_desc locale_compare) rows
      → (before : List CancellationRequestRecord) (r : CancellationRequestRecord)
        (rest : List CancellationRequestRecord)
      → (before ++ r ∷ rest) ≡ rows
      → page_cancellation_request_rows locale_compare codec number_text rows
          (at_cursor query (some (encode_cancellation_request_cursor codec r)))
        ≡ page_of (encode_cancellation_request_cursor codec) (suc limit) rest
  unfolding page_cancellation_request_rows
  request-resumes query limit rows bounded named ordered before r rest e =
      let restores = All-middle (IsNamedRequest codec) before r rest (rw e named) in
      let decoded = decode-encode_cancellation_request_cursor codec r restores in
      let remaining =
        slice_from-append (compare_cancellation_requests_desc locale_compare) before r rest
          (rw e ordered) in
      rw (← e) (rw (decoded, bounded) (rw (restores.fills) (rw remaining refl)))

  -- To follow the cursors from the first page of the requests to stop a run comes to an end after no more pages than
  -- there are rows, and one, and shows every row that the query asks for once, the latest first. The order of the
  -- texts of the locale is total, no two rows are the same to it, and the cursor of each can be read back.
  pub follow-page_cancellation_request_rows :
      (query : RunControlQuery) (rows : List CancellationRequestRecord)
      → Apart (compare_cancellation_requests_desc locale_compare) rows
      → All (IsNamedRequest codec) rows
      → follow
          (λ cursor.
            page_cancellation_request_rows locale_compare codec number_text
              (sorted_cancellation_requests locale_compare rows query)
              (at_cursor query cursor))
          (suc (length (sorted_cancellation_requests locale_compare rows query)))
          none
        ≡ some (sorted_cancellation_requests locale_compare rows query)
  unfolding page_cancellation_request_rows decode_run_control_cursor
  follow-page_cancellation_request_rows query rows apart named =
      let order = compare_cancellation_requests_desc locale_compare in
      let total_order = IsTotal-compare_cancellation_requests_desc total in
      let wanted = filter (λ row. is_wanted query row.session_id row.run_id) rows in
      let sorted = sorted_cancellation_requests locale_compare rows query in
      let (limit, bounded) = limit_of-suc query in
      let p : CancellationRequestRecord → Bool = λ row. is_wanted query row.session_id row.run_id in
      let ordered = InSequence-sort_by order total_order wanted (Apart-filter order p rows apart) in
      let all_named =
        All-sort_by order total_order (IsNamedRequest codec) wanted
          (All-filter (IsNamedRequest codec) p rows named) in
      follow-rest
        (λ cursor.
          page_cancellation_request_rows locale_compare codec number_text sorted
            (at_cursor query cursor))
        (encode_cancellation_request_cursor codec) limit sorted
        (request-resumes query limit sorted bounded all_named ordered) (length sorted) none []
        sorted refl (rw bounded refl) (omega arith)
