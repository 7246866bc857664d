-- ===== src/Calls/Tests.antt =====
-- The theorems of the model calls at a quest that was drafted and planned.
use project_town.Base.{
  ℕ, ◌+◌, ◌≤◌, pos, String, ◌≡◌, refl, true, false, Option, none, some, List, [], ◌∷◌, All,
}
use project_town.Runtime.Json.{str, end, field, get}
use project_town.Runtime.Reducer.{apply}
use project_town.Storage.Db.{Host}
use project_town.Storage.Tests.{host}
use project_town.Storage.Replay.{save_checkpoint}
use project_town.Storage.Events.{append_event}
use project_town.Drafts.Create.{create_draft}
use project_town.History.Commands.{run_commands}
use project_town.History.Tests.{final}
use project_town.Calls.Rows.{
  AttemptRow, CallRow, Calls, Binding, find_attempt, find_call, token_usage, succeeded, pending,
}
use project_town.Calls.Prepare.{CallRequest, call_of, mark_model_attempt_dispatched}
use project_town.Calls.Marks.{
  mark_model_attempt_dispatched_repeat, mark_model_attempt_unknown_repeat,
}
use project_town.Calls.Binding.{exceeds}
use project_town.Calls.Budgets.{retry_model_call-token_usage}
use project_town.Calls.Settle.{Success, record_model_success}
use project_town.Calls.Repeats.{record_model_success_repeat}
use project_town.Base.Result.{ok}
use project_town.Calls.Retry.{
  model_max_attempts, recover_model_calls, Retry, retry_model_call, mark_model_attempt_unknown,
}
use project_town.Calls.Changes.{is_open, winners}
use project_town.Calls.Runs.{
  CallCommand, prepare_call, dispatch_attempt, succeed, lose, fail_attempt, retry, recover,
  run_calls, no_calls, run_calls_single, closed_attempt_stays,
}
use project_town.Calls.Recovered.{recover_model_calls-closed}

abbrev hash0 : String
hash0 = "0123456789abcdef0123456789abcdef0123456789abcdef0123456789abcdef"

abbrev host1 : Host
host1 = record host { stable_hash = λ value. hash0 }

abbrev request : CallRequest
request = record {
  id = "c";
  quest = "q";
  asked_for = "draft";
  key = "k";
  hash = hash0;
  prompt = "p1";
  request_schema_version = 1;
  candidate_schema_version = 1;
  by_adapter = "mock";
  by_model = "m";
  with_parameters = end;
  reserve = pos 100;
  expected_version = none;
  token = none;
  quote = none;
}

abbrev answer : Success
answer = record {
  quest = "q";
  input_hash = hash0;
  response_hash = hash0;
  candidate = field "text" (str "done") end;
  input_tokens = pos 10;
  output_tokens = pos 20;
  used = none;
  costed = none;
  retain_candidate = true;
}

abbrev calls0 : List CallCommand
calls0 = prepare_call request ∷ dispatch_attempt "c:1" ∷ succeed "c:1" answer ∷ []

abbrev served : Calls
served = run_calls host1 calls0 (no_calls final)

abbrev row_or : Option AttemptRow → AttemptRow → AttemptRow
row_or none other = other
row_or (some row) other = row

abbrev empty_row : AttemptRow
empty_row = record {
  attempt = "";
  of_call = "";
  number = 0;
  dispatch_token = "";
  adapter = "";
  model = "";
  parameters = end;
  attempt_status = succeeded;
  validation = pending;
  reserved_tokens = 0;
  settled_tokens = 0;
  input_tokens = 0;
  output_tokens = 0;
  candidate = none;
  candidate_hash = none;
  response_hash = none;
  usage_summary = none;
  cost_summary = none;
  failure = none;
}

abbrev row0 : AttemptRow
row0 = row_or (find_attempt "c:1" served.attempts) empty_row

found0 : find_attempt "c:1" served.attempts ≡ some row0
unfolding find_attempt run_calls run_commands create_draft append_event save_checkpoint apply get
found0 = refl

won0 : winners "c" served.attempts ≡ 1
unfolding winners run_calls run_commands create_draft append_event save_checkpoint apply get
won0 = refl

closed0 : is_open row0.attempt_status ≡ false
unfolding find_attempt run_calls run_commands create_draft append_event save_checkpoint apply get
closed0 = refl

run_calls_single_example :
    (winners "c" served.attempts ≤ 1) × All (λ row. row.number ≤ model_max_attempts) served.attempts
run_calls_single_example = run_calls_single host1 calls0 final "c"

closed_attempt_stays_example :
    find_attempt "c:1" (run_calls host1 (recover ∷ succeed "c:1" answer ∷ []) served).attempts
    ≡ some row0
closed_attempt_stays_example =
    closed_attempt_stays host1 (recover ∷ succeed "c:1" answer ∷ []) served "c:1" row0 found0
      closed0

abbrev prepared0 : Calls
prepared0 = run_calls host1 (prepare_call request ∷ []) (no_calls final)

recover_model_calls-closed_example :
    All (λ row. is_open row.attempt_status ≡ false) (recover_model_calls prepared0).1.attempts
recover_model_calls-closed_example = recover_model_calls-closed prepared0

abbrev sent0 : Calls
sent0 = run_calls host1 (prepare_call request ∷ dispatch_attempt "c:1" ∷ []) (no_calls final)

success0 :
    record_model_success host1 "c:1" answer sent0
    ≡ ok (record { attempt_row = row0; joined_quest = none }, served)
unfolding record_model_success run_calls run_commands create_draft append_event save_checkpoint
    apply get
success0 = refl

record_model_success_repeat_example :
    record_model_success host1 "c:1" answer served
    ≡ ok (record { attempt_row = row0; joined_quest = some "q" }, served)
record_model_success_repeat_example =
    record_model_success_repeat host1 "c:1" answer sent0
      (record { attempt_row = row0; joined_quest = none }) served success0

abbrev failed0 : Calls
failed0 =
    run_calls host1
      (prepare_call request
        ∷ dispatch_attempt "c:1"
        ∷ fail_attempt "c:1" end (pos 10) (pos 5) none none
        ∷ [])
      (no_calls final)

abbrev retry0 : Retry
retry0 = record {
  id = "c:2";
  token = "again";
  by_adapter = "mock";
  by_model = "m";
  with_parameters = end;
  reserve = pos 50;
  quote = none;
}

abbrev retried0 : Calls
retried0 = run_calls host1 (retry "c" retry0 ∷ []) failed0

abbrev row1 : AttemptRow
row1 = row_or (find_attempt "c:2" retried0.attempts) empty_row

abbrev empty_binding : Binding
empty_binding = record {
  state_version = 0;
  contract_id = "";
  contract_version = pos 0;
  contract_hash = "";
  plan_id = "";
  plan_version = pos 0;
  plan_hash = "";
  max_tokens = pos 0;
}

abbrev call_or : Option CallRow → CallRow → CallRow
call_or none other = other
call_or (some row) other = row

abbrev call0 : CallRow
call0 = call_or (find_call "c" failed0.calls) (call_of request empty_binding)

called0 : find_call "c" failed0.calls ≡ some call0
unfolding find_call run_calls run_commands create_draft append_event save_checkpoint apply get
called0 = refl

retry_success0 : retry_model_call host1 "c" retry0 failed0 ≡ ok (row1, retried0)
unfolding retry_model_call run_calls run_commands create_draft append_event save_checkpoint apply
    get
retry_success0 = refl

used0 : token_usage "q" retried0.calls retried0.attempts ≡ 65
unfolding token_usage run_calls run_commands create_draft append_event save_checkpoint apply get
used0 = refl

retry_model_call-token_usage_example :
    (reserved : ℕ) × (pos 50 ≡ pos reserved)
    × (token_usage call0.call_quest retried0.calls retried0.attempts
        ≡ token_usage call0.call_quest failed0.calls failed0.attempts + reserved)
    × (exceeds
          (token_usage call0.call_quest retried0.calls retried0.attempts)
          call0.bound.max_tokens
        ≡ false)
retry_model_call-token_usage_example =
    retry_model_call-token_usage host1 "c" retry0 failed0 row1 retried0 call0 called0 retry_success0

abbrev sent_row0 : AttemptRow
sent_row0 = row_or (find_attempt "c:1" sent0.attempts) empty_row

dispatched0 : mark_model_attempt_dispatched "c:1" prepared0 ≡ ok (sent_row0, sent0)
unfolding mark_model_attempt_dispatched run_calls run_commands create_draft append_event
    save_checkpoint apply get
dispatched0 = refl

mark_model_attempt_dispatched_repeat_example :
    mark_model_attempt_dispatched "c:1" sent0 ≡ ok (sent_row0, sent0)
mark_model_attempt_dispatched_repeat_example =
    mark_model_attempt_dispatched_repeat "c:1" prepared0 sent_row0 sent0 dispatched0

abbrev lost0 : Calls
lost0 = run_calls host1 (lose "c:1" none ∷ []) sent0

abbrev lost_row0 : AttemptRow
lost_row0 = row_or (find_attempt "c:1" lost0.attempts) empty_row

unknown0 : mark_model_attempt_unknown host1 "c:1" none sent0 ≡ ok (lost_row0, lost0)
unfolding mark_model_attempt_unknown run_calls run_commands create_draft append_event
    save_checkpoint apply get
unknown0 = refl

mark_model_attempt_unknown_repeat_example :
    mark_model_attempt_unknown host1 "c:1" (some (field "code" (str "LATE") end)) lost0
    ≡ ok (lost_row0, lost0)
mark_model_attempt_unknown_repeat_example =
    mark_model_attempt_unknown_repeat host1 "c:1" none (some (field "code" (str "LATE") end)) sent0
      lost_row0 lost0 unknown0
