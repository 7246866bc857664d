-- ===== src/Gateway/Keeps.antt =====
-- What `execute` of backend/app/v1/gateway.py does to the store: nothing but calls of its operations.
use mathlib.Core.Path.{subst}
use project_town.Base.{String, ◌≡◌, refl, sym, Bool, true, false, ◌||◌, Option, some, if◌then◌else◌}
use project_town.Base.Result.{Result, ok, err}
use project_town.Runtime.Json.{Json, Fields, null, bool, nat, negative, float, str, arr, obj}
use project_town.Storage.Db.{Db, Host, ActionRow, prepared, Observation, Transaction}
use project_town.Storage.Actions.{
  same_status, mark_action_dispatched, fail_action, mark_action_unknown, commit_action_with_event,
}
use project_town.Storage.Lifecycle.{Operation, run_operation, tables, kept_or}
use project_town.Gateway.Tools.{
  ToolFailure, ToolOutcome, gave, tool_failed, crashed, Tools, ToolGateway, GatewayState, member,
  Answer, settled, answer_of, error_name, known_no_effect_errors,
}
use project_town.Gateway.Files.{OrFailure, fine, failing, write_file_observation}
use project_town.Gateway.Dispatch.{
  on_tool_error, interruption, on_exception, committed_or, commit_observed, commit_result,
  after_effect, on_outcome, run, marked, dispatch,
}

module _ {World : Type 0} (host : Host) (tools : Tools World) (gateway : ToolGateway) (now : String)
    (P : Db → Type 0)
    (closed : (op : Operation) (db : Db) → P db → P (kept_or (run_operation host op db) db)) where
  abbrev pub Keeps : Answer × GatewayState World → Type 0
  Keeps x = P x.1.db

  pub if-Keeps :
      (b : Bool) (x y : Answer × GatewayState World)
      → Keeps x
      → Keeps y
      → Keeps (if b then x else y)
  if-Keeps true x y p q = p
  if-Keeps false x y p q = q

  settled-db :
      (m : Result (ActionRow × Db)) (s : GatewayState World)
      → (settled m s).1.db ≡ kept_or (tables m) s.db
  settled-db (ok (row, db)) s = refl
  settled-db (err e) s = refl

  pub answer_of-Keeps :
      (op : Operation) (call : Transaction ActionRow) (s : GatewayState World)
      → tables (call s.db) ≡ run_operation host op s.db
      → P s.db
      → Keeps (answer_of call s)
  answer_of-Keeps op call s same p =
      subst P (sym (settled-db (call s.db) s))
        (subst (λ m. P (kept_or m s.db)) (sym same) (closed op s.db p))

  fail_action-Keeps :
      (id : String) (e : Fields) (s : GatewayState World)
      → P s.db
      → Keeps (answer_of (fail_action id e) s)
  unfolding run_operation
  fail_action-Keeps id e s p = answer_of-Keeps (Operation.fail id e) (fail_action id e) s refl p

  pub mark_action_unknown-Keeps :
      (id : String) (e : Option Fields) (s : GatewayState World)
      → P s.db
      → Keeps (answer_of (mark_action_unknown id e) s)
  unfolding run_operation
  mark_action_unknown-Keeps id e s p =
      answer_of-Keeps (Operation.unknown id e) (mark_action_unknown id e) s refl p

  on_tool_error-Keeps :
      (id tool : String) (e : ToolFailure) (s : GatewayState World)
      → P s.db
      → Keeps (on_tool_error host tools gateway now id tool e s)
  unfolding on_tool_error
  on_tool_error-Keeps id tool e s p =
      if-Keeps (member tool gateway.read_only_tools || member e.code known_no_effect_errors) _ _
        (fail_action-Keeps id e.as_dict s p) (mark_action_unknown-Keeps id (some e.as_dict) s p)

  on_exception-Keeps :
      (id tool name : String) (s : GatewayState World)
      → P s.db
      → Keeps (on_exception host tools gateway now id tool name s)
  unfolding on_exception
  on_exception-Keeps id tool name s p =
      if-Keeps (member tool gateway.read_only_tools) _ _
        (fail_action-Keeps id (interruption host tools gateway now name) s p)
        (mark_action_unknown-Keeps id (some (interruption host tools gateway now name)) s p)

  commit_observed-Keeps :
      (o : OrFailure (Option Observation)) (row : ActionRow) (tool : String) (result : Fields)
      (s : GatewayState World)
      → P s.db
      → Keeps (commit_observed host tools gateway now o row tool result s)
  unfolding run_operation
  commit_observed-Keeps (failing e) row tool result s p =
      on_tool_error-Keeps row.action_id tool e s p
  commit_observed-Keeps (fine o) row tool result s p =
      by-result (commit_action_with_event host row.action_id result o now s.db)
        (closed (Operation.commit_with_event row.action_id result o now) s.db p)
    where
      by-result :
          (m : Result (ActionRow × Db))
          → P (kept_or (tables m) s.db)
          → Keeps (committed_or host tools gateway now m row.action_id tool s)
      by-result (ok (new, db)) q = q
      by-result (err e) q = on_exception-Keeps row.action_id tool (error_name e) s q

  commit_result-Keeps :
      (j : Json) (row : ActionRow) (workspace tool : String) (arguments : Fields)
      (s : GatewayState World)
      → P s.db
      → Keeps (commit_result host tools gateway now j row workspace tool arguments s)
  commit_result-Keeps (obj result) row workspace tool arguments s p =
      commit_observed-Keeps (write_file_observation host tools row workspace arguments s.world) row
        tool result s p
  commit_result-Keeps null row workspace tool arguments s p =
      on_tool_error-Keeps row.action_id tool _ s p
  commit_result-Keeps (bool b) row workspace tool arguments s p =
      on_tool_error-Keeps row.action_id tool _ s p
  commit_result-Keeps (nat n) row workspace tool arguments s p =
      on_tool_error-Keeps row.action_id tool _ s p
  commit_result-Keeps (negative n) row workspace tool arguments s p =
      on_tool_error-Keeps row.action_id tool _ s p
  commit_result-Keeps (float t) row workspace tool arguments s p =
      on_tool_error-Keeps row.action_id tool _ s p
  commit_result-Keeps (str t) row workspace tool arguments s p =
      on_tool_error-Keeps row.action_id tool _ s p
  commit_result-Keeps (arr xs) row workspace tool arguments s p =
      on_tool_error-Keeps row.action_id tool _ s p

  after_effect-Keeps :
      (j : Json) (row : ActionRow) (workspace tool : String) (arguments : Fields)
      (s : GatewayState World)
      → P s.db
      → Keeps (after_effect host tools gateway now j row workspace tool arguments s)
  unfolding after_effect
  after_effect-Keeps j row workspace tool arguments s p =
      if-Keeps (member "after_effect_before_receipt" s.points) _ _
        (mark_action_unknown-Keeps row.action_id _ _ p)
        (if-Keeps (member "malformed_result" s.points) _ _
          (commit_result-Keeps null row workspace tool arguments _ p)
          (commit_result-Keeps j row workspace tool arguments s p))

  on_outcome-Keeps :
      (o : ToolOutcome) (row : ActionRow) (workspace tool : String) (arguments : Fields)
      (s : GatewayState World)
      → P s.db
      → Keeps (on_outcome host tools gateway now o row workspace tool arguments s)
  on_outcome-Keeps (gave j) row workspace tool arguments s p =
      after_effect-Keeps j row workspace tool arguments s p
  on_outcome-Keeps (tool_failed e) row workspace tool arguments s p =
      on_tool_error-Keeps row.action_id tool e s p
  on_outcome-Keeps (crashed name) row workspace tool arguments s p =
      on_exception-Keeps row.action_id tool name s p

  run-Keeps :
      (row : ActionRow) (workspace tool : String) (arguments : Fields) (s : GatewayState World)
      → P s.db
      → Keeps (run host tools gateway now row workspace tool arguments s)
  unfolding run
  run-Keeps row workspace tool arguments s p =
      on_outcome-Keeps (tools.run_tool tool workspace arguments s.world).0 row workspace tool
        arguments _ p

  pub dispatch-Keeps :
      (row : ActionRow) (workspace tool : String) (arguments : Fields) (s : GatewayState World)
      → P s.db
      → Keeps (dispatch host tools gateway now row workspace tool arguments s)
  unfolding dispatch run_operation
  dispatch-Keeps row workspace tool arguments s p =
      if-Keeps (member "before_dispatch" s.points) _ _ (fail_action-Keeps row.action_id _ _ p) (
        if-Keeps (same_status row.action_status prepared) _ _
          (by-result (mark_action_dispatched row.action_id s.db)
            (closed (Operation.dispatch row.action_id) s.db p))
          (run-Keeps row workspace tool arguments s p))
    where
      by-result :
          (m : Result (ActionRow × Db))
          → P (kept_or (tables m) s.db)
          → Keeps (marked host tools gateway now m row workspace tool arguments s)
      by-result (ok (new, db)) q = run-Keeps row workspace tool arguments (record s { db = db }) q
      by-result (err e) q = q
