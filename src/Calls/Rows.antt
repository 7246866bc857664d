-- ===== src/Calls/Rows.antt =====
-- The tables v1_model_calls and v1_model_attempts of backend/app/v1/storage.py, less their times, and
-- the queries on them.
use project_town.Base.{
  ℕ, ◌+◌, ℤ, String, Bool, true, false, ◌&&◌, Option, none, some, List, [], ◌∷◌, find, filter, max,
  ◌==◌, if◌then◌else◌,
}
use project_town.Runtime.Json.{Fields}
use project_town.Storage.Db.{Db}
use project_town.Costs.Accounts.{CostDb}

-- The CHECK list of both `status` columns.
pub data CallStatus : Type 0 where
  prepared dispatched succeeded failed unknown_outcome : CallStatus

-- The CHECK list of `validation_status`.
pub data Validation : Type 0 where
  pending validated_current invalid stale conflict cancelled_before_dispatch : Validation

-- What `_model_binding_locked` returns, less the quest.
pub record Binding : Type 0 where
  pub state_version : ℕ
  pub contract_id : String
  pub contract_version : ℤ
  pub contract_hash : String
  pub plan_id : String
  pub plan_version : ℤ
  pub plan_hash : String
  pub max_tokens : ℤ

-- v1_model_calls
pub record CallRow : Type 0 where
  pub call_id : String
  pub call_quest : String
  pub purpose : String
  pub call_key : String
  pub request_schema : ℕ
  pub candidate_schema : ℕ
  pub input_hash : String
  pub prompt_version : String
  pub bound : Binding
  pub call_status : CallStatus
  pub winner : Option String

-- v1_model_attempts
pub record AttemptRow : Type 0 where
  pub attempt : String
  pub of_call : String
  pub number : ℕ
  pub dispatch_token : String
  pub adapter : String
  pub model : String
  pub parameters : Fields
  pub attempt_status : CallStatus
  pub validation : Validation
  pub reserved_tokens : ℕ
  pub settled_tokens : ℕ
  pub input_tokens : ℕ
  pub output_tokens : ℕ
  pub candidate : Option Fields
  pub candidate_hash : Option String
  pub response_hash : Option String
  pub usage_summary : Option Fields
  pub cost_summary : Option Fields
  pub failure : Option Fields

-- The tables that the model calls read and write.
pub record Calls : Type 0 where
  pub db : Db
  pub calls : List CallRow
  pub attempts : List AttemptRow
  pub costs : CostDb

abbrev pub is_status : CallStatus → CallStatus → Bool
is_status prepared prepared = true
is_status dispatched dispatched = true
is_status succeeded succeeded = true
is_status failed failed = true
is_status unknown_outcome unknown_outcome = true
is_status _ _ = false

abbrev pub is_current : Validation → Bool
is_current validated_current = true
is_current _ = false

abbrev pub is_cancelled : Validation → Bool
is_cancelled cancelled_before_dispatch = true
is_cancelled _ = false

unfoldable pub find_call : String → List CallRow → Option CallRow
find_call id rows = find (λ row. row.call_id == id) rows

unfoldable pub find_call_key : String → String → List CallRow → Option CallRow
find_call_key q key rows = find (λ row. row.call_quest == q && row.call_key == key) rows

unfoldable pub find_attempt : String → List AttemptRow → Option AttemptRow
find_attempt id rows = find (λ row. row.attempt == id) rows

-- `UPDATE … WHERE call_id = ?`
unfoldable pub update_call : String → (CallRow → CallRow) → List CallRow → List CallRow
update_call id change [] = []
update_call id change (row ∷ rows) =
    (if row.call_id == id then change row else row) ∷ update_call id change rows

-- `UPDATE … WHERE attempt_id = ?`
unfoldable pub update_attempt :
    String → (AttemptRow → AttemptRow) → List AttemptRow → List AttemptRow
update_attempt id change [] = []
update_attempt id change (row ∷ rows) =
    (if row.attempt == id then change row else row) ∷ update_attempt id change rows

-- The statuses that hold the reserved tokens.
abbrev pub is_held : CallStatus → Bool
is_held prepared = true
is_held dispatched = true
is_held unknown_outcome = true
is_held _ = false

-- What a row adds to the sum of the two aggregates of `_model_usage_locked`.
abbrev pub tokens_of : AttemptRow → ℕ
tokens_of row = row.settled_tokens + (if is_held row.attempt_status then row.reserved_tokens else 0)

-- The join of `_model_usage_locked`: the attempts whose call is of the quest.
unfoldable pub is_of_quest : String → List CallRow → AttemptRow → Bool
unfolding find_call
is_of_quest q calls row = elim (find_call row.of_call calls) [
  | none ↦ false
  | some call ↦ call.call_quest == q
]

-- `_model_usage_locked`, its two numbers added
unfoldable pub token_usage : String → List CallRow → List AttemptRow → ℕ
unfolding is_of_quest
token_usage q calls [] = 0
token_usage q calls (row ∷ rows) =
    (if is_of_quest q calls row then tokens_of row else 0) + token_usage q calls rows

-- `SELECT COALESCE(MAX(attempt_no), 0) … WHERE call_id = ?`
unfoldable pub last_number : String → List AttemptRow → ℕ
last_number id [] = 0
last_number id (row ∷ rows) =
    let rest = last_number id rows in if row.of_call == id then max row.number rest else rest

-- `get_model_call`; the attempts of a call stand in the order of their numbers.
abbrev pub call_with_attempts :
    Option CallRow → List AttemptRow → Option (CallRow × List AttemptRow)
call_with_attempts none attempts = none
call_with_attempts (some call) attempts =
    some (call, filter (λ row. row.of_call == call.call_id) attempts)

unfoldable pub get_model_call : String → Calls → Option (CallRow × List AttemptRow)
unfolding find_call
get_model_call id s = call_with_attempts (find_call id s.calls) s.attempts
