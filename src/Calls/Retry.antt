-- ===== src/Calls/Retry.antt =====
-- `mark_model_attempt_unknown`, `retry_model_call` and `recover_model_calls` of
-- backend/app/v1/storage.py.
use project_town.Base.{
  ℕ, ◌+◌, ℤ, pos, negsuc, String, Bool, true, false, not, ◌&&◌, ◌||◌, Option, none, some, List, [],
  ◌∷◌, any, filter, length, is_some, ltb, ◌==◌, if◌then◌else◌,
}
use project_town.Base.Result.{
  Result, ok, err, key_error, value_error, attempt_not_dispatched, retry_identifiers_invalid,
  call_terminal, call_stale, token_budget_exceeded, retry_limit_exceeded, ◌>>=◌,
}
use project_town.Runtime.Json.{Fields, str, end, field}
use project_town.Storage.Db.{Host}
use project_town.Costs.Prices.{Quote, validated_cost_reservation}
use project_town.Costs.Accounts.{
  Reservation, CostStatus, held, released_row, unknown_row, mark_cost_unknown, reserve_cost,
}
use project_town.Calls.Summary.{model_summary}
use project_town.Calls.Rows.{
  CallStatus, prepared, dispatched, failed, unknown_outcome, cancelled_before_dispatch, Binding,
  CallRow, AttemptRow, Calls, is_status, is_cancelled, find_call, find_attempt, update_call,
  update_attempt, token_usage, last_number,
}
use project_town.Calls.Binding.{model_binding, is_bound_to, exceeds}
use project_town.Calls.Prepare.{
  CallTransaction, any_empty, checked_quote, new_attempt, insert_attempt, reserve_quote, updated,
}

-- MODEL_MAX_ATTEMPTS
abbrev pub model_max_attempts : ℕ
model_max_attempts = 3

-- `error` is empty or absent: nothing is cleaned and nothing is stored.
abbrev pub given : Option Fields → Option Fields
given none = none
given (some end) = none
given (some (field key value fs)) = some (field key value fs)

abbrev pub terminal : CallStatus → Bool
terminal failed = true
terminal unknown_outcome = true
terminal _ = false

-- The arguments of `retry_model_call`, less the call.
pub record Retry : Type 0 where
  pub id : String
  pub token : String
  pub by_adapter : String
  pub by_model : String
  pub with_parameters : Fields
  pub reserve : ℤ
  pub quote : Option Quote

module _ (host : Host) where
  abbrev pub clean_failure : Option Fields → Result (Option Fields)
  clean_failure none = ok none
  clean_failure (some error) = do clean ← model_summary host true 8192 error; ok (some clean)

  -- The writes of `mark_model_attempt_unknown`
  abbrev pub mark_unknown : AttemptRow → Option Fields → CallTransaction AttemptRow
  mark_unknown row error s =
      let attempts =
        update_attempt row.attempt
          (λ r. record r { attempt_status = unknown_outcome; failure = error }) s.attempts in
      updated (find_attempt row.attempt attempts) (record s {
        attempts = attempts;
        costs = mark_cost_unknown row.attempt s.costs;
        calls = update_call row.of_call (λ r. record r { call_status = unknown_outcome }) s.calls;
      })

  abbrev pub unknown_found : Option AttemptRow → String → Option Fields → CallTransaction AttemptRow
  unknown_found none id error s = err (key_error id)
  unknown_found (some row) id error s =
      if is_status row.attempt_status unknown_outcome
      then ok (row, s)
      else if is_status row.attempt_status dispatched
      then (do clean ← clean_failure (given error); mark_unknown row clean s)
      else err (value_error attempt_not_dispatched)

  -- `mark_model_attempt_unknown`
  unfoldable pub mark_model_attempt_unknown : String → Option Fields → CallTransaction AttemptRow
  unfolding find_attempt update_attempt update_call mark_cost_unknown model_summary
  mark_model_attempt_unknown id error s = unknown_found (find_attempt id s.attempts) id error s

  -- The writes of `retry_model_call`
  unfoldable pub write_retry : CallRow → Retry → Fields → ℕ → ℕ → CallTransaction AttemptRow
  unfolding insert_attempt reserve_cost update_call find_attempt
  write_retry call r parameters reserved number s = do
    s1 ←
        insert_attempt
          (new_attempt r.id call.call_id number r.token r.by_adapter r.by_model parameters reserved)
          s
    s2 ← reserve_quote r.quote r.id s1
    let s3 = record s2 {
      calls = update_call call.call_id (λ row. record row { call_status = prepared }) s2.calls;
    }
    updated (find_attempt r.id s3.attempts) s3

  abbrev pub retry_bound : Binding → CallRow → Retry → Fields → ℕ → CallTransaction AttemptRow
  retry_bound b call r parameters reserved s =
      if not (is_bound_to b call.bound)
      then err (value_error call_stale)
      else if exceeds (token_usage call.call_quest s.calls s.attempts + reserved)
          call.bound.max_tokens
      then err (value_error token_budget_exceeded)
      else if ltb model_max_attempts (last_number call.call_id s.attempts + 1)
      then err (value_error retry_limit_exceeded)
      else write_retry call r parameters reserved (last_number call.call_id s.attempts + 1) s

  abbrev pub retry_found : Option CallRow → String → Retry → Fields → ℕ → CallTransaction AttemptRow
  retry_found none id r parameters reserved s = err (key_error id)
  retry_found (some call) id r parameters reserved s =
      if is_some call.winner || not (terminal call.call_status)
      then err (value_error call_terminal)
      else (do
        b ← model_binding host call.call_quest s.db
        retry_bound b call r parameters reserved s)

  abbrev pub retry_amount : ℤ → String → Retry → CallTransaction AttemptRow
  retry_amount (negsuc n) id r s = err (value_error retry_identifiers_invalid)
  retry_amount (pos reserved) id r s =
      if any_empty (r.id ∷ r.token ∷ r.by_adapter ∷ r.by_model ∷ [])
      then err (value_error retry_identifiers_invalid)
      else (do
        parameters ← model_summary host true 8192 r.with_parameters
        quote ← checked_quote r.quote
        retry_found (find_call id s.calls) id r parameters reserved s)

  -- `retry_model_call`
  unfoldable pub retry_model_call : String → Retry → CallTransaction AttemptRow
  unfolding model_summary validated_cost_reservation find_call model_binding is_bound_to token_usage
      last_number write_retry
  retry_model_call id r s = retry_amount r.reserve id r s

abbrev interruption : String → Fields
interruption message = field "code" (str "PROCESS_INTERRUPTED") (field "message" (str message) end)

-- `attempt_id IN (SELECT attempt_id FROM v1_model_attempts WHERE status = …)`
abbrev has_attempt : CallStatus → List AttemptRow → String → Bool
has_attempt status attempts id =
    any (λ row. (row.attempt == id) && is_status row.attempt_status status) attempts

abbrev still_held : CostStatus → Bool
still_held held = true
still_held _ = false

-- An UPDATE of the reservations that are held for the attempts in a status.
unfoldable pub update_reservations :
    CallStatus → (Reservation → Reservation) → List AttemptRow → List Reservation → List Reservation
update_reservations status change attempts [] = []
update_reservations status change attempts (row ∷ rows) =
    (if still_held row.cost_status && has_attempt status attempts row.attempt_id
      then change row
      else row)
    ∷ update_reservations status change attempts rows

-- The first UPDATE of the attempts, on one row
abbrev pub cancel : AttemptRow → AttemptRow
cancel row =
    if is_status row.attempt_status prepared
    then record row {
      attempt_status = failed;
      validation = cancelled_before_dispatch;
      settled_tokens = 0;
      failure = some (interruption "Prepared model call was never dispatched");
    }
    else row

-- The second
abbrev pub forget : AttemptRow → AttemptRow
forget row =
    if is_status row.attempt_status dispatched
    then record row {
      attempt_status = unknown_outcome;
      failure = some (interruption "Dispatch outcome requires reconciliation");
    }
    else row

unfoldable pub change_all : (AttemptRow → AttemptRow) → List AttemptRow → List AttemptRow
change_all change [] = []
change_all change (row ∷ rows) = change row ∷ change_all change rows

-- An UPDATE of the calls without a winner that have an attempt of a kind.
unfoldable pub update_open_calls :
    CallStatus → (AttemptRow → Bool) → List AttemptRow → List CallRow → List CallRow
update_open_calls status test attempts [] = []
update_open_calls status test attempts (row ∷ rows) =
    (if not (is_some row.winner) && any (λ a. (a.of_call == row.call_id) && test a) attempts
      then record row { call_status = status }
      else row)
    ∷ update_open_calls status test attempts rows

-- `recover_model_calls`, with the numbers of attempts that it cancelled and of those it marked
unfoldable pub recover_model_calls : Calls → (ℕ × ℕ) × Calls
unfolding update_reservations change_all update_open_calls
recover_model_calls s =
    let released = update_reservations prepared released_row s.attempts s.costs.reservations in
    let cancelled = change_all cancel s.attempts in
    let unknown = update_reservations dispatched unknown_row cancelled released in
    let attempts = change_all forget cancelled in
    let failed_calls =
      update_open_calls failed (λ row. is_cancelled row.validation) attempts s.calls in
    (
      (
        length (filter (λ row. is_status row.attempt_status prepared) s.attempts),
        length (filter (λ row. is_status row.attempt_status dispatched) cancelled),
      ),
      record s {
        calls =
            update_open_calls unknown_outcome (λ row. is_status row.attempt_status unknown_outcome)
              attempts failed_calls;
        attempts = attempts;
        costs = record { accounts = s.costs.accounts; reservations = unknown };
      },
    )
