-- ===== src/Calls/Settle.antt =====
-- `_settle_model_attempt`, `record_model_success` and `record_model_failure` of
-- backend/app/v1/storage.py.
use Prim.Native.String
use project_town.Base.{
  ℕ, ◌+◌, ℤ, pos, String, Bool, true, false, not, ◌&&◌, ◌||◌, Option, none, some, List, any, ltb,
  ◌==◌, if◌then◌else◌,
}
use project_town.Base.Result.{
  Result, ok, err, type_error, key_error, value_error, token_usage_negative, model_too_large,
  callback_quest_conflict, callback_input_conflict, callback_response_conflict, attempt_final,
  ◌>>=◌,
}
use project_town.Runtime.Json.{Fields, obj}
use project_town.Storage.Db.{Host}
use project_town.Costs.Accounts.{settle_cost}
use project_town.Calls.Summary.{model_summary, require_model_hash}
use project_town.Calls.Rows.{
  CallStatus, prepared, dispatched, succeeded, failed, Validation, pending, validated_current,
  invalid, stale, conflict, CallRow, AttemptRow, Calls, is_status, is_current, find_call,
  find_attempt, update_call, update_attempt,
}
use project_town.Calls.Binding.{model_binding, is_bound_to}
use project_town.Calls.Prepare.{CallTransaction}

-- The arguments of `_settle_model_attempt`.
pub record Settlement : Type 0 where
  pub to_status : CallStatus
  pub to_validation : Validation
  pub response : Option String
  pub proposal : Option Fields
  pub input : ℤ
  pub output : ℤ
  pub usage : Option Fields
  pub cost : Option Fields
  pub error : Option Fields
  pub validate_current : Bool
  pub callback_quest : Option String
  pub callback_input : Option String
  pub retain : Bool

-- What the checks before the transaction make of the arguments.
pub record Cleaned : Type 0 where
  pub kept : Option Fields
  pub kept_hash : Option String
  pub input_count : ℕ
  pub output_count : ℕ
  pub clean_usage : Option Fields
  pub clean_cost : Option Fields
  pub clean_error : Option Fields

-- `given is not None and actual != given`
abbrev pub differs : Option String → String → Bool
differs none actual = false
differs (some expected) actual = not (actual == expected)

abbrev equals : Option String → String → Bool
equals none actual = false
equals (some given) actual = given == actual

-- `SELECT … WHERE call_id = ? AND validation_status = 'validated_current'`
abbrev pub has_winner : String → List AttemptRow → Bool
has_winner call attempts = any (λ row. (row.of_call == call) && is_current row.validation) attempts

-- The arguments of `record_model_success`.
pub record Success : Type 0 where
  pub quest : String
  pub input_hash : String
  pub response_hash : String
  pub candidate : Fields
  pub input_tokens : ℤ
  pub output_tokens : ℤ
  pub used : Option Fields
  pub costed : Option Fields
  pub retain_candidate : Bool

-- What `_model_attempt_from_row` makes of a row: the attempt, and the quest of its call where the
-- row is one of the join of the two tables.
pub record AttemptAnswer : Type 0 where
  pub attempt_row : AttemptRow
  pub joined_quest : Option String

-- The answer after the writes, where the attempt is selected alone
abbrev pub answered : Option AttemptRow → CallTransaction AttemptAnswer
answered none s = err type_error
answered (some row) s = ok (record { attempt_row = row; joined_quest = none }, s)

module _ (host : Host) where
  open host use {stable_hash, dumps}

  abbrev pub summary_of : Option Fields → Result (Option Fields)
  summary_of none = ok none
  summary_of (some value) = do clean ← model_summary host true 8192 value; ok (some clean)

  -- `clean_candidate` and its hash; the candidate is stored where it is to be retained.
  abbrev clean_candidate : Option Fields → Bool → Result (Option Fields × Option String)
  clean_candidate none retain = ok (none, none)
  clean_candidate (some value) retain = do
    clean ← model_summary host false 262144 value
    if retain && ltb 262144 (String.len (dumps (obj clean)))
        then err (value_error model_too_large)
        else (do
          hash ← require_model_hash (stable_hash (obj clean))
          ok (if retain then some clean else none, some hash))

  abbrev clean_amounts : Settlement → ℕ → ℕ → Result Cleaned
  clean_amounts a input output = do
    (kept, hash) ← clean_candidate a.proposal a.retain
    usage ← summary_of a.usage
    cost ← summary_of a.cost
    error ← summary_of a.error
    ok (record {
      kept = kept;
      kept_hash = hash;
      input_count = input;
      output_count = output;
      clean_usage = usage;
      clean_cost = cost;
      clean_error = error;
    })

  abbrev clean_counts : Settlement → ℤ → ℤ → Result Cleaned
  clean_counts a (pos input) (pos output) = clean_amounts a input output
  clean_counts a _ _ = err (value_error token_usage_negative)

  unfoldable pub cleaned : Settlement → Result Cleaned
  unfolding model_summary require_model_hash
  cleaned a = clean_counts a a.input a.output

  -- `final_validation`
  unfoldable pub final_validation : Settlement → CallRow → Calls → Result Validation
  unfolding model_binding is_bound_to
  final_validation a call s =
      if a.validate_current
      then (do
        b ← model_binding host call.call_quest s.db
        ok (
            if is_bound_to b call.bound
            then if has_winner call.call_id s.attempts then conflict else validated_current
            else stale))
      else ok a.to_validation

  abbrev pub settled_row : Settlement → Cleaned → Validation → AttemptRow → AttemptRow
  settled_row a c validation row = record row {
    attempt_status = a.to_status;
    validation = validation;
    settled_tokens = c.input_count + c.output_count;
    input_tokens = c.input_count;
    output_tokens = c.output_count;
    candidate = c.kept;
    candidate_hash = c.kept_hash;
    response_hash = a.response;
    usage_summary = c.clean_usage;
    cost_summary = c.clean_cost;
    failure = c.clean_error;
  }

  -- `UPDATE … WHERE call_id = ? AND winning_attempt_id IS NULL`
  abbrev pub win : CallStatus → String → CallRow → CallRow
  win status attempt row = elim row.winner [
    | none ↦ record row { call_status = status; winner = some attempt }
    | some other ↦ row
  ]

  abbrev pub settled_call : CallStatus → String → Validation → CallRow → CallRow
  settled_call status attempt validated_current row = win status attempt row
  settled_call status attempt other row = record row { call_status = status }

  -- The writes
  unfoldable pub write_settlement :
      Settlement → Cleaned → Validation → AttemptRow → CallTransaction AttemptAnswer
  unfolding update_attempt update_call find_attempt settle_cost
  write_settlement a c validation row s =
      let attempts = update_attempt row.attempt (settled_row a c validation) s.attempts in
      do
        costs ← settle_cost row.attempt c.input_count c.output_count s.costs
        answered (find_attempt row.attempt attempts) (record s {
          attempts = attempts;
          costs = costs;
          calls = update_call row.of_call (settled_call a.to_status row.attempt validation) s.calls;
        })

  abbrev pub settleable : Bool → CallStatus → Bool
  settleable true status = is_status status dispatched
  settleable false status = is_status status prepared || is_status status dispatched

  abbrev pub settle_response :
      Option String → Settlement → Cleaned → AttemptRow → CallRow → CallTransaction AttemptAnswer
  settle_response (some stored) a c row call s =
      if equals a.response stored
      then ok (record { attempt_row = row; joined_quest = some call.call_quest }, s)
      else err (value_error callback_response_conflict)
  settle_response none a c row call s =
      if settleable a.validate_current row.attempt_status
      then (do validation ← final_validation a call s; write_settlement a c validation row s)
      else err (value_error attempt_final)

  abbrev pub settle_call :
      Option CallRow → String → Settlement → Cleaned → AttemptRow → CallTransaction AttemptAnswer
  settle_call none id a c row s = err (key_error id)
  settle_call (some call) id a c row s =
      if differs a.callback_quest call.call_quest
      then err (value_error callback_quest_conflict)
      else if differs a.callback_input call.input_hash
      then err (value_error callback_input_conflict)
      else settle_response row.response_hash a c row call s

  abbrev pub settle_found :
      Option AttemptRow → String → Settlement → Cleaned → CallTransaction AttemptAnswer
  settle_found none id a c s = err (key_error id)
  settle_found (some row) id a c s = settle_call (find_call row.of_call s.calls) id a c row s

  -- `_settle_model_attempt`
  unfoldable pub settle_model_attempt : String → Settlement → CallTransaction AttemptAnswer
  unfolding cleaned find_attempt find_call final_validation write_settlement
  settle_model_attempt id a s = do c ← cleaned a; settle_found (find_attempt id s.attempts) id a c s

  abbrev pub success_of : Success → Settlement
  success_of a = record {
    to_status = succeeded;
    to_validation = pending;
    response = some a.response_hash;
    proposal = some a.candidate;
    input = a.input_tokens;
    output = a.output_tokens;
    usage = a.used;
    cost = a.costed;
    error = none;
    validate_current = true;
    callback_quest = some a.quest;
    callback_input = some a.input_hash;
    retain = a.retain_candidate;
  }

  -- `record_model_success`
  unfoldable pub record_model_success : String → Success → CallTransaction AttemptAnswer
  unfolding settle_model_attempt require_model_hash
  record_model_success id a s = do
    input ← require_model_hash a.input_hash
    response ← require_model_hash a.response_hash
    settle_model_attempt id (success_of a) s

  abbrev pub failure_of : Fields → ℤ → ℤ → Option Fields → Option Fields → Settlement
  failure_of error input output usage cost = record {
    to_status = failed;
    to_validation = invalid;
    response = none;
    proposal = none;
    input = input;
    output = output;
    usage = usage;
    cost = cost;
    error = some error;
    validate_current = false;
    callback_quest = none;
    callback_input = none;
    retain = true;
  }

  -- `record_model_failure`
  unfoldable pub record_model_failure :
      String → Fields → ℤ → ℤ → Option Fields → Option Fields → CallTransaction AttemptAnswer
  unfolding settle_model_attempt
  record_model_failure id error input output usage cost s =
      settle_model_attempt id (failure_of error input output usage cost) s
