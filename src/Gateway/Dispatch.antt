-- ===== src/Gateway/Dispatch.antt =====
-- `ToolGateway._dispatch` of backend/app/v1/gateway.py: the run of a tool and what is kept of it.
use project_town.Base.{String, ◌||◌, Option, some, if◌then◌else◌}
use project_town.Base.Result.{Result, ok, err}
use project_town.Runtime.Json.{Json, Fields, null, str, obj, end, field}
use project_town.Storage.Db.{Db, Host, ActionRow, prepared, Observation}
use project_town.Storage.Actions.{
  same_status, mark_action_dispatched, fail_action, mark_action_unknown, commit_action_with_event,
}
use project_town.Gateway.Tools.{
  ToolFailure, failure, ToolOutcome, gave, tool_failed, crashed, Tools, ToolGateway, GatewayState,
  member, without, receipt_of, store_raised, Answer, returned, raised, answer_of, error_name,
  known_no_effect_errors,
}
use project_town.Gateway.Files.{OrFailure, fine, failing, write_file_observation}

abbrev pub error_text : String → String → Fields
error_text code message = field "code" (str code) (field "message" (str message) end)

module _ {World : Type 0} (host : Host) (tools : Tools World) (gateway : ToolGateway)
    (now : String) where
  open host use {stable_hash}
  open tools use {run_tool, file_state, display_path, sha256, utf8_size}
  open gateway use {read_only_tools}

  -- `except ToolError`
  unfoldable pub on_tool_error :
      String → String → ToolFailure → GatewayState World → Answer × GatewayState World
  on_tool_error id tool e s =
      if member tool read_only_tools || member e.code known_no_effect_errors
      then answer_of (fail_action id e.as_dict) s
      else answer_of (mark_action_unknown id (some e.as_dict)) s

  abbrev pub interruption : String → Fields
  interruption name = field "code" (str "TOOL_EXECUTION_INTERRUPTED") (
      field "message" (str "Tool outcome is ambiguous")
        (field "details" (obj (field "exception_type" (str name) end)) end))

  -- `except Exception`
  unfoldable pub on_exception :
      String → String → String → GatewayState World → Answer × GatewayState World
  on_exception id tool name s =
      if member tool read_only_tools
      then answer_of (fail_action id (interruption name)) s
      else answer_of (mark_action_unknown id (some (interruption name))) s

  -- `_commit` inside the `try`
  abbrev pub committed_or :
      Result (ActionRow × Db) → String → String → GatewayState World → Answer × GatewayState World
  committed_or (ok (row, db)) id tool s = (returned (receipt_of row), record s { db = db })
  committed_or (err e) id tool s = on_exception id tool (error_name e) s

  abbrev pub commit_observed :
      OrFailure (Option Observation)
      → ActionRow
      → String
      → Fields
      → GatewayState World
      → Answer × GatewayState World
  commit_observed (failing e) row tool result s = on_tool_error row.action_id tool e s
  commit_observed (fine observation) row tool result s =
      committed_or (commit_action_with_event host row.action_id result observation now s.db)
        row.action_id tool s

  abbrev pub commit_result :
      Json → ActionRow → String → String → Fields → GatewayState World → Answer × GatewayState World
  commit_result (obj result) row workspace tool arguments s =
      commit_observed (write_file_observation host tools row workspace arguments s.world) row tool
        result s
  commit_result _ row workspace tool arguments s =
      on_tool_error row.action_id tool
        (failure "MALFORMED_RESULT" "Tool returned a non-object result" end) s

  -- The `try` of `_dispatch` after `registry.execute` returned.
  unfoldable pub after_effect :
      Json → ActionRow → String → String → Fields → GatewayState World → Answer × GatewayState World
  unfolding on_tool_error on_exception write_file_observation without
  after_effect result row workspace tool arguments s =
      if member "after_effect_before_receipt" s.points
      then answer_of
          (mark_action_unknown row.action_id
            (some (error_text "UNKNOWN_EFFECT" "fault injected: after_effect_before_receipt")))
          (record s { points = without "after_effect_before_receipt" s.points })
      else if member "malformed_result" s.points
      then commit_result null row workspace tool arguments
          (record s { points = without "malformed_result" s.points })
      else commit_result result row workspace tool arguments s

  abbrev pub on_outcome :
      ToolOutcome
      → ActionRow
      → String
      → String
      → Fields
      → GatewayState World
      → Answer × GatewayState World
  on_outcome (gave result) row workspace tool arguments s =
      after_effect result row workspace tool arguments s
  on_outcome (tool_failed e) row workspace tool arguments s = on_tool_error row.action_id tool e s
  on_outcome (crashed name) row workspace tool arguments s = on_exception row.action_id tool name s

  unfoldable pub run :
      ActionRow → String → String → Fields → GatewayState World → Answer × GatewayState World
  unfolding after_effect
  run row workspace tool arguments s =
      let (outcome, world) = run_tool tool workspace arguments s.world in
      on_outcome outcome row workspace tool arguments (record s { world = world })

  abbrev pub marked :
      Result (ActionRow × Db)
      → ActionRow
      → String
      → String
      → Fields
      → GatewayState World
      → Answer × GatewayState World
  marked (err e) row workspace tool arguments s = (raised (store_raised e), s)
  marked (ok (marked_row, db)) row workspace tool arguments s =
      run row workspace tool arguments (record s { db = db })

  -- `_dispatch`
  unfoldable pub dispatch :
      ActionRow → String → String → Fields → GatewayState World → Answer × GatewayState World
  unfolding run without
  dispatch row workspace tool arguments s =
      if member "before_dispatch" s.points
      then answer_of
          (fail_action row.action_id
            (error_text "DISPATCH_FAILED" "fault injected: before_dispatch"))
          (record s { points = without "before_dispatch" s.points })
      else if same_status row.action_status prepared
      then marked (mark_action_dispatched row.action_id s.db) row workspace tool arguments s
      else run row workspace tool arguments s
