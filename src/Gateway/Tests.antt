-- ===== src/Gateway/Tests.antt =====
-- The theorems of the tool gateway at a small store.
use project_town.Base.{◌==◌, ℕ, String, ◌≡◌, refl, true, none, some, [], ◌∷◌}
use project_town.Base.Result.{type_error, err}
use project_town.Runtime.Json.{Json, str, obj, end}
use project_town.Storage.Db.{Host, QuestRow, ActionRow, ReceiptStatus, dispatched, failed}
use project_town.Storage.Events.{find_quest}
use project_town.Storage.Actions.{find_action, find_key}
use project_town.Gateway.Tools.{
  gave, absent, stable, Tools, ToolGateway, GatewayState, receipt_of, app_error, returned, raised,
}
use project_town.Gateway.Files.{fine, pre_effect_hash_of}
use project_town.Gateway.Execute.{ToolRequest, authorize, execute}
use project_town.Gateway.Finals.{execute_all, execute_keeps_final}
use project_town.Gateway.Replays.{execute_replays, execute_conflicts, execute_leaves_unknown}

abbrev hash_of : Json → String
hash_of (str text) = text
hash_of _ = "object"

abbrev host0 : Host
host0 = record {
  stable_hash = hash_of;
  dumps = hash_of;
  to_str = hash_of;
  to_dict = λ value. err type_error;
  to_int = λ value. err type_error;
  same_json = λ value other. hash_of value == hash_of other;
  casefold = λ text. text;
}

-- The files are counted by the tools that ran.
abbrev tools0 : Tools ℕ
tools0 = record {
  run_tool = λ tool workspace arguments n. (gave (obj end), 1);
  file_state = λ workspace path n. absent;
  resolve_existing = λ workspace path n. none;
  probe = λ workspace path pass n. stable "x" 1;
  display_path = λ workspace path n. path;
  sha256 = λ text. text;
  utf8_size = λ text. 1;
}

abbrev gateway0 : ToolGateway
gateway0 = record {
  allowlist = "read_file" ∷ "send" ∷ [];
  high_risk_tools = "send" ∷ [];
  read_only_tools = "read_file" ∷ [];
}

abbrev quest0 : QuestRow
quest0 = record {
  quest_id = "q";
  state = end;
  state_version = 3;
  status = "running";
  updated_at = "t";
}

abbrev action_of : ReceiptStatus → ActionRow
action_of status = record {
  action_id = "a";
  action_quest = "q";
  milestone_id = "m";
  idempotency_key = "k";
  tool_name = "send";
  arguments_hash = "object";
  arguments = end;
  pre_effect_hash = none;
  expected_version = 1;
  action_status = status;
  result = none;
  error = none;
  committed_event = none;
}

abbrev state_of : ReceiptStatus → GatewayState ℕ
state_of status = record {
  db = record {
    quests = quest0 ∷ [];
    events = [];
    last_event_id = 0;
    checkpoints = [];
    actions = action_of status ∷ [];
    observations = [];
    leases = [];
    resource_leases = [];
    contracts = [];
    plans = [];
    plan_milestones = [];
    plan_dependencies = [];
    decisions = [];
  };
  world = 0;
  points = [];
}

abbrev request0 : ToolRequest
request0 = record {
  id = "a";
  quest = "q";
  milestone = "m";
  key = "k";
  version = 3;
  workspace = "w";
  tool = "send";
  arguments = obj end;
  approved = true;
}

abbrev other_tool : ToolRequest
other_tool = record request0 { tool = "read_file" }

allowed0 : authorize gateway0 "send" true ≡ none
unfolding authorize
allowed0 = refl

allowed1 : authorize gateway0 "read_file" true ≡ none
unfolding authorize
allowed1 = refl

seen0 : pre_effect_hash_of host0 tools0 "w" "send" end 0 ≡ fine none
unfolding pre_effect_hash_of
seen0 = refl

seen1 : pre_effect_hash_of host0 tools0 "w" "read_file" end 0 ≡ fine none
unfolding pre_effect_hash_of
seen1 = refl

present0 : (status : ReceiptStatus) → find_quest "q" (state_of status).db.quests ≡ some quest0
unfolding find_quest
present0 status = refl

used0 :
    (status : ReceiptStatus)
    → find_key "q" "k" (state_of status).db.actions ≡ some (action_of status)
unfolding find_key
used0 status = refl

final0 : find_action "a" (state_of failed).db.actions ≡ some (action_of failed)
unfolding find_action
final0 = refl

execute_keeps_final_example :
    find_action "a"
      (execute_all host0 tools0 gateway0
        (("t1", request0) ∷ ("t2", other_tool) ∷ [])
        (state_of failed)).db.actions
    ≡ some (action_of failed)
execute_keeps_final_example =
    execute_keeps_final host0 tools0 gateway0 (("t1", request0) ∷ ("t2", other_tool) ∷ []) "a"
      (action_of failed) (state_of failed) final0 refl

execute_replays_example :
    execute host0 tools0 gateway0 "t1" request0 (state_of failed)
    ≡ (returned (receipt_of (action_of failed)), state_of failed)
execute_replays_example =
    execute_replays host0 tools0 gateway0 "t1" request0 end none quest0 (action_of failed)
      (state_of failed) refl allowed0 seen0 (present0 failed) (used0 failed) refl refl refl

execute_conflicts_example :
    execute host0 tools0 gateway0 "t1" other_tool (state_of failed)
    ≡ (raised (app_error "IDEMPOTENCY_CONFLICT"), state_of failed)
execute_conflicts_example =
    execute_conflicts host0 tools0 gateway0 "t1" other_tool end none quest0 (action_of failed)
      (state_of failed) refl allowed1 seen1 (present0 failed) (used0 failed) refl

execute_leaves_unknown_example :
    (execute host0 tools0 gateway0 "t1" request0 (state_of dispatched)).1.world ≡ 0
execute_leaves_unknown_example =
    execute_leaves_unknown host0 tools0 gateway0 "t1" request0 end none quest0
      (action_of dispatched) (state_of dispatched) refl allowed0 seen0 (present0 dispatched)
      (used0 dispatched) refl refl refl refl
