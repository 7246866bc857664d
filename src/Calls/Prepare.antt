-- ===== src/Calls/Prepare.antt =====
-- `prepare_model_call` and `mark_model_attempt_dispatched` of backend/app/v1/storage.py.
use Prim.Native.String
use project_town.Base.{
  ℕ, ◌+◌, ℤ, pos, negsuc, int_eq, String, Bool, true, false, not, ◌&&◌, ◌||◌, Option, none, some,
  List, [], ◌∷◌, ◌++◌, any, find, is_some, nat_eq, ltb, ◌==◌, if◌then◌else◌,
}
use project_town.Base.Result.{
  Result, ok, err, key_error, value_error, type_error, integrity_error, model_identifiers_invalid,
  state_version_conflict, model_idempotency_conflict, cost_idempotency_conflict,
  token_budget_exceeded, attempt_not_prepared, ◌>>=◌,
}
use project_town.Runtime.Json.{Fields, obj}
use project_town.Storage.Db.{Host}
use project_town.Costs.Prices.{Quote, same_quote, validated_cost_reservation}
use project_town.Costs.Accounts.{Reservation, find_reservation, reserve_cost}
use project_town.Calls.Summary.{model_summary, require_model_hash}
use project_town.Calls.Rows.{
  CallStatus, prepared, dispatched, pending, Binding, CallRow, AttemptRow, Calls, is_status,
  find_call, find_call_key, find_attempt, update_call, update_attempt, token_usage, get_model_call,
}
use project_town.Calls.Binding.{model_binding, is_bound_to, exceeds}

-- A method inside `with self._transaction()`.
abbrev pub CallTransaction : Type 0 → Type 0
CallTransaction A = Calls → Result (A × Calls)

-- The arguments of `prepare_model_call`.
pub record CallRequest : Type 0 where
  pub id : String
  pub quest : String
  pub asked_for : String
  pub key : String
  pub hash : String
  pub prompt : String
  pub request_schema_version : ℕ
  pub candidate_schema_version : ℕ
  pub by_adapter : String
  pub by_model : String
  pub with_parameters : Fields
  pub reserve : ℤ
  pub expected_version : Option ℕ
  pub token : Option String
  pub quote : Option Quote

-- The call and its attempts; `none` stands for the empty dict of `get_model_call(…) or {}`.
abbrev pub CallAnswer : Type 0
CallAnswer = Option (CallRow × List AttemptRow)

-- `all(…)` on strings
abbrev pub any_empty : List String → Bool
any_empty texts = any (λ text. text == "") texts

-- `dispatch_token or f"dispatch_{call_id}_1"`
abbrev pub token_or : Option String → String → String
token_or none other = other
token_or (some token) other = if token == "" then other else token

abbrev pub token_of : CallRequest → String
token_of r = token_or r.token (String.◌++◌ (String.◌++◌ "dispatch_" r.id) "_1")

abbrev pub first_attempt_id : String → String
first_attempt_id id = String.◌++◌ id ":1"

-- The reservation of the arguments, which is checked before anything is read.
abbrev pub checked_quote : Option Quote → Result (Option Quote)
checked_quote none = ok none
checked_quote (some quote) = do checked ← validated_cost_reservation quote; ok (some quote)

-- The rows that a request writes.
abbrev pub call_of : CallRequest → Binding → CallRow
call_of r b = record {
  call_id = r.id;
  call_quest = r.quest;
  purpose = r.asked_for;
  call_key = r.key;
  request_schema = r.request_schema_version;
  candidate_schema = r.candidate_schema_version;
  input_hash = r.hash;
  prompt_version = r.prompt;
  bound = b;
  call_status = prepared;
  winner = none;
}

abbrev pub new_attempt : String → String → ℕ → String → String → String → Fields → ℕ → AttemptRow
new_attempt id call number token adapter model parameters reserved = record {
  attempt = id;
  of_call = call;
  number = number;
  dispatch_token = token;
  adapter = adapter;
  model = model;
  parameters = parameters;
  attempt_status = prepared;
  validation = pending;
  reserved_tokens = reserved;
  settled_tokens = 0;
  input_tokens = 0;
  output_tokens = 0;
  candidate = none;
  candidate_hash = none;
  response_hash = none;
  usage_summary = none;
  cost_summary = none;
  failure = none;
}

-- `existing[key] == value` for every key of `expected_call`
unfoldable pub same_call : CallRow → CallRow → Bool
unfolding is_bound_to
same_call row new =
    (row.call_id == new.call_id)
    && (row.call_quest == new.call_quest)
    && (row.purpose == new.purpose)
    && (row.call_key == new.call_key)
    && nat_eq row.request_schema new.request_schema
    && nat_eq row.candidate_schema new.candidate_schema
    && (row.input_hash == new.input_hash)
    && (row.prompt_version == new.prompt_version)
    && is_bound_to row.bound new.bound
    && int_eq row.bound.max_tokens new.bound.max_tokens

-- The CHECKs of v1_model_calls, and its primary key
abbrev positive : ℤ → Bool
positive (pos n) = ltb 0 n
positive (negsuc n) = false

abbrev not_negative : ℤ → Bool
not_negative (pos n) = true
not_negative (negsuc n) = false

unfoldable pub insert_call : CallRow → Calls → Result Calls
unfolding find_call
insert_call new s =
    if is_some (find_call new.call_id s.calls)
      || not (ltb 0 new.request_schema)
      || not (ltb 0 new.candidate_schema)
      || not (positive new.bound.contract_version)
      || not (positive new.bound.plan_version)
      || not (not_negative new.bound.max_tokens)
    then err integrity_error
    else ok (record s { calls = s.calls ++ new ∷ [] })

-- The keys of v1_model_attempts
abbrev pub collides : AttemptRow → AttemptRow → Bool
collides new row =
    (row.attempt == new.attempt)
    || (row.dispatch_token == new.dispatch_token)
    || ((row.of_call == new.of_call) && nat_eq row.number new.number)

unfoldable pub insert_attempt : AttemptRow → Calls → Result Calls
insert_attempt new s =
    if any (collides new) s.attempts
    then err integrity_error
    else ok (record s { attempts = s.attempts ++ new ∷ [] })

abbrev pub reserve_quote : Option Quote → String → Calls → Result Calls
reserve_quote none attempt s = ok s
reserve_quote (some quote) attempt s = do
  costs ← reserve_cost attempt quote s.costs
  ok (record s { costs = costs })

-- The comparison of the reservations of a repeated request
abbrev pub same_reservation : Option Reservation → Option Quote → Bool
same_reservation none none = true
same_reservation (some row) (some quote) = same_quote row.quote quote
same_reservation _ _ = false

module _ (host : Host) where
  open host use {dumps}

  abbrev pub same_attempt : CallRequest → Fields → ℕ → AttemptRow → Bool
  same_attempt r parameters reserved row =
      (row.adapter == r.by_adapter)
      && (row.model == r.by_model)
      && (dumps (obj row.parameters) == dumps (obj parameters))
      && nat_eq row.reserved_tokens reserved
      && (row.dispatch_token == token_of r)

  abbrev pub repeat_attempt :
      Option AttemptRow → CallRow → CallRequest → Binding → Fields → ℕ → CallTransaction CallAnswer
  repeat_attempt none existing r b parameters reserved s =
      err (value_error model_idempotency_conflict)
  repeat_attempt (some row) existing r b parameters reserved s =
      if same_call existing (call_of r b) && same_attempt r parameters reserved row
      then if same_reservation (find_reservation row.attempt s.costs.reservations) r.quote
        then ok (some (existing, row ∷ []), s)
        else err (value_error cost_idempotency_conflict)
      else err (value_error model_idempotency_conflict)

  -- The writes of a request that is new
  unfoldable pub create_call : CallRequest → Binding → Fields → ℕ → CallTransaction CallAnswer
  unfolding insert_call insert_attempt token_usage get_model_call reserve_cost
  create_call r b parameters reserved s =
      if exceeds (token_usage r.quest s.calls s.attempts + reserved) b.max_tokens
      then err (value_error token_budget_exceeded)
      else (do
        s1 ← insert_call (call_of r b) s
        s2 ←
            insert_attempt
              (new_attempt (first_attempt_id r.id) r.id 1 (token_of r) r.by_adapter r.by_model
                parameters reserved)
              s1
        s3 ← reserve_quote r.quote (first_attempt_id r.id) s2
        ok (get_model_call r.id s3, s3))

  abbrev pub prepare_keyed :
      Option CallRow → CallRequest → Binding → Fields → ℕ → CallTransaction CallAnswer
  prepare_keyed (some existing) r b parameters reserved s =
      repeat_attempt
        (find (λ row. (row.of_call == existing.call_id) && nat_eq row.number 1) s.attempts) existing
        r b parameters reserved s
  prepare_keyed none r b parameters reserved s = create_call r b parameters reserved s

  abbrev pub is_other_version : Option ℕ → ℕ → Bool
  is_other_version none version = false
  is_other_version (some expected) version = not (nat_eq version expected)

  abbrev pub prepare_bound : Binding → CallRequest → Fields → ℕ → CallTransaction CallAnswer
  prepare_bound b r parameters reserved s =
      if is_other_version r.expected_version b.state_version
      then err (value_error state_version_conflict)
      else prepare_keyed (find_call_key r.quest r.key s.calls) r b parameters reserved s

  abbrev pub prepare_amount : ℤ → CallRequest → CallTransaction CallAnswer
  prepare_amount (negsuc n) r s = err (value_error model_identifiers_invalid)
  prepare_amount (pos reserved) r s =
      if any_empty (r.id ∷ r.asked_for ∷ r.key ∷ r.hash ∷ r.prompt ∷ r.by_adapter ∷ r.by_model ∷ [])
      then err (value_error model_identifiers_invalid)
      else (do
        hash ← require_model_hash r.hash
        parameters ← model_summary host true 8192 r.with_parameters
        quote ← checked_quote r.quote
        b ← model_binding host r.quest s.db
        prepare_bound b r parameters reserved s)

  -- `prepare_model_call`
  unfoldable pub prepare_model_call : CallRequest → CallTransaction CallAnswer
  unfolding require_model_hash model_summary model_binding find_call_key create_call same_call
      find_reservation validated_cost_reservation
  prepare_model_call r s = prepare_amount r.reserve r s

-- The row of an attempt after a write
abbrev pub updated : Option AttemptRow → CallTransaction AttemptRow
updated none s = err type_error
updated (some row) s = ok (row, s)

abbrev pub mark_status : CallStatus → String → String → Calls → Calls
mark_status status attempt call s = record s {
  attempts = update_attempt attempt (λ row. record row { attempt_status = status }) s.attempts;
  calls = update_call call (λ row. record row { call_status = status }) s.calls;
}

abbrev pub dispatch_found : Option AttemptRow → String → CallTransaction AttemptRow
dispatch_found none id s = err (key_error id)
dispatch_found (some row) id s =
    if is_status row.attempt_status dispatched
    then ok (row, s)
    else if is_status row.attempt_status prepared
    then (let s' = mark_status dispatched id row.of_call s in
        updated (find_attempt id s'.attempts) s')
    else err (value_error attempt_not_prepared)

-- `mark_model_attempt_dispatched`
unfoldable pub mark_model_attempt_dispatched : String → CallTransaction AttemptRow
unfolding find_attempt update_attempt update_call
mark_model_attempt_dispatched id s = dispatch_found (find_attempt id s.attempts) id s
