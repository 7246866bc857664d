-- ===== src/Runtime/Tests.antt =====
-- The theorems of the runtime primitives at concrete inputs.
use project_town.Base.{ℕ, ◌-◌, ◌≤◌, String, ◌≡◌, refl, false, none, some, List, [], ◌∷◌}
use project_town.Base.Result.{ok}
use project_town.Runtime.Json.{Json, Fields, nat, str, obj, end, field}
use project_town.Runtime.Budget.{
  ExecutionBudget, Kind, tool_call, token, BudgetGuard, counter, consume, remaining, new_guard,
}
use project_town.Runtime.Spent.{consume_all, counters_bounded, remaining-consume}
use project_town.Runtime.Progress.{ProgressWatchdog}
use project_town.Runtime.Bus.{SparseMessage, empty_bus, publish, publish_all, publish_again_refused}

abbrev hash_of : Json → String
hash_of (str text) = text
hash_of _ = "object"

abbrev base0 : Fields
base0 = field "a" (nat 1) (field "b" (obj (field "c" (nat 2) end)) end)

abbrev patch0 : Fields
patch0 = field "b" (obj (field "d" (nat 3) end)) (field "e" (nat 4) end)

abbrev budget0 : ExecutionBudget
budget0 = record {
  max_steps = some 2;
  max_tool_calls = some 3;
  max_messages = none;
  max_tokens = some 100;
  max_replans = none;
  max_seconds = some 60;
}

abbrev calls0 : List (Kind × ℕ × ℕ)
calls0 = (tool_call, 2, 10) ∷ (tool_call, 2, 11) ∷ (tool_call, 1, 12) ∷ (token, 70, 13) ∷ []

counters_bounded_example : counter tool_call (consume_all calls0 (new_guard budget0 5)) ≤ 3
counters_bounded_example = counters_bounded budget0 5 calls0 tool_call 3 refl

abbrev spent0 : BudgetGuard
spent0 = record (new_guard budget0 5) { tool_calls = 2 }

consumed0 : consume tool_call 2 10 (new_guard budget0 5) ≡ ok spent0
unfolding consume
consumed0 = refl

left0 : remaining tool_call (new_guard budget0 5) ≡ ok (some 3)
unfolding remaining
left0 = refl

remaining-consume_example : (2 ≤ 3) × (remaining tool_call spent0 ≡ ok (some (3 - 2)))
remaining-consume_example =
    remaining-consume tool_call 2 10 3 (new_guard budget0 5) spent0 consumed0 left0

abbrev watchdog0 : ProgressWatchdog
watchdog0 = record { threshold = 3; last = none; seen_evidence = []; consecutive = 0 }

abbrev before0 : List (Json × String × List String)
before0 = (str "read", "w", "e1" ∷ []) ∷ (str "read", "w", "e1" ∷ []) ∷ []

abbrev message0 : SparseMessage
message0 = record {
  task_id = "t";
  state_version = 1;
  sender = "planner";
  recipient = "executor";
  evidence_ids = "e2" ∷ "e1" ∷ "e2" ∷ [];
  expected_reply = none;
  payload = nat 1;
}

publish_again_refused_example :
    ((publish hash_of
        (record message0 { state_version = 7 })
        (publish_all hash_of (message0 ∷ []) empty_bus)).1.accepted
      ≡ false)
    × ((publish hash_of
          (record message0 { state_version = 7 })
          (publish_all hash_of (message0 ∷ []) empty_bus)).0
        ≡ publish_all hash_of (message0 ∷ []) empty_bus)
publish_again_refused_example = publish_again_refused hash_of message0 7 [] empty_bus
