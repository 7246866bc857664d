-- ===== src/Gateway/Execute.antt =====
-- `ToolGateway.execute` and `_reconcile` of backend/app/v1/gateway.py. Every call of the store is a
-- transaction of its own, so what it wrote stays when a later step raises.
use project_town.Base.{
  ℕ, String, Bool, true, false, not, ◌&&◌, ◌||◌, Option, none, some, ◌==◌, if◌then◌else◌,
}
use project_town.Base.Result.{
  Result, ok, err, Error, value_error, Message, idempotency_key_conflict,
}
use project_town.Runtime.Json.{Json, Fields, get, bool, nat, str, obj, end, field}
use project_town.Storage.Db.{
  Db, Host, ActionRow, ReceiptStatus, prepared, dispatched, committed, failed, unknown_effect,
  Observation,
}
use project_town.Storage.Actions.{
  same_status, ActionRequest, prepare_action, mark_action_unknown, commit_action_with_event,
}
use project_town.Gateway.Tools.{
  FileState, refused, absent, not_file, file, Tools, ToolGateway, GatewayState, member, receipt_of,
  Raised, app_error, tool_raised, store_raised, Answer, returned, raised, answer_of,
}
use project_town.Gateway.Files.{
  text_of, OrFailure, fine, failing, pre_effect_hash_of, write_file_observation,
}
use project_town.Gateway.Dispatch.{dispatch, error_text}

-- The arguments of `execute`.
pub record ToolRequest : Type 0 where
  pub id : String
  pub quest : String
  pub milestone : String
  pub key : String
  pub version : ℕ
  pub workspace : String
  pub tool : String
  pub arguments : Json
  pub approved : Bool

-- `_authorize`: the code of the `AppError`, if any.
unfoldable pub authorize : ToolGateway → String → Bool → Option String
authorize gateway tool approved =
    if not (member tool gateway.allowlist)
    then some "TOOL_NOT_ALLOWED"
    else if member tool gateway.high_risk_tools && not approved
    then some "APPROVAL_REQUIRED"
    else none

abbrev pub prepare_request : ToolRequest → Fields → String → Option String → ActionRequest
prepare_request r args hash effect = record {
  id = r.id;
  quest = r.quest;
  milestone = r.milestone;
  key = r.key;
  tool = r.tool;
  hash = hash;
  args = args;
  expected_state_version = r.version;
  pre_effect = effect;
}

abbrev pub conflict_code : Message → String
conflict_code idempotency_key_conflict = "IDEMPOTENCY_CONFLICT"
conflict_code _ = "STATE_VERSION_CONFLICT"

-- The handler of `except ValueError`.
abbrev pub refused_request : Error → Raised
refused_request (value_error message) = app_error (conflict_code message)
refused_request e = store_raised e

module _ {World : Type 0} (host : Host) (tools : Tools World) (gateway : ToolGateway)
    (now : String) where
  open host use {stable_hash}
  open tools use {run_tool, file_state, display_path, sha256, utf8_size}
  open gateway use {read_only_tools}

  -- What `_reconcile` returns: the receipt and the state, or whether a retry is safe; it may raise.
  pub data Reconciled : Type 0 where
    answered : Answer × GatewayState World → Reconciled
    safe_retry : Bool → Reconciled

  abbrev pub reconciled_result : ActionRow → String → String → String → World → Fields
  reconciled_result row workspace path content world =
      field "path" (str (display_path workspace path world)) (
        field "size_bytes" (nat (utf8_size content)) (
          field "created" (bool (is_absent row.pre_effect_hash))
            (field "reconciled" (bool true) end)))
    where
      is_absent : Option String → Bool
      is_absent none = false
      is_absent (some text) = text == "absent"

  abbrev pub reconciled_with :
      OrFailure (Option Observation)
      → ActionRow
      → String
      → String
      → String
      → GatewayState World
      → Reconciled
  reconciled_with (failing e) row workspace path content s = safe_retry false
  reconciled_with (fine observation) row workspace path content s = answered (
      answer_of
        (λ db.
          commit_action_with_event host row.action_id
            (reconciled_result row workspace path content s.world) observation now db)
        s)

  abbrev pub is_false : Option Json → Bool
  is_false (some (bool b)) = not b
  is_false _ = false

  abbrev pub is_absent_hash : Option String → Bool
  is_absent_hash none = false
  is_absent_hash (some text) = text == "absent"

  abbrev pub reconcile_file :
      FileState → ActionRow → String → Fields → String → String → GatewayState World → Reconciled
  reconcile_file (refused e) row workspace arguments path content s =
      answered (raised (tool_raised e), s)
  reconcile_file absent row workspace arguments path content s =
      safe_retry (is_absent_hash row.pre_effect_hash)
  reconcile_file not_file row workspace arguments path content s = safe_retry false
  reconcile_file (file sha) row workspace arguments path content s =
      if not (sha == sha256 content)
      then safe_retry false
      else if is_false (get "overwrite" arguments) && not (is_absent_hash row.pre_effect_hash)
      then safe_retry false
      else reconciled_with (write_file_observation host tools row workspace arguments s.world) row
          workspace path content s

  abbrev pub reconcile_texts :
      Option String → Option String → ActionRow → String → Fields → GatewayState World → Reconciled
  reconcile_texts none path row workspace arguments s = safe_retry false
  reconcile_texts (some content) none row workspace arguments s = safe_retry false
  reconcile_texts (some content) (some path) row workspace arguments s =
      reconcile_file (file_state workspace path s.world) row workspace arguments path content s

  -- `_reconcile`
  unfoldable pub reconcile : ActionRow → String → Fields → GatewayState World → Reconciled
  unfolding get write_file_observation
  reconcile row workspace arguments s =
      if member row.tool_name read_only_tools
      then safe_retry true
      else if not (row.tool_name == "write_file")
      then safe_retry false
      else reconcile_texts (text_of (get "content" arguments)) (text_of (get "path" arguments)) row
          workspace arguments s

  abbrev pub after_reconcile :
      Reconciled
      → ActionRow
      → String
      → String
      → Fields
      → GatewayState World
      → Answer × GatewayState World
  after_reconcile (answered reply) row workspace tool arguments s = reply
  after_reconcile (safe_retry true) row workspace tool arguments s =
      dispatch host tools gateway now row workspace tool arguments s
  after_reconcile (safe_retry false) row workspace tool arguments s =
      if same_status row.action_status dispatched
      then answer_of
          (mark_action_unknown row.action_id
            (some (error_text "UNKNOWN_EFFECT" "Tool effect could not be reconciled")))
          s
      else (returned (receipt_of row), s)

  -- `execute` after the receipt is read, by its status.
  abbrev pub by_status :
      ReceiptStatus
      → ActionRow
      → String
      → String
      → Fields
      → GatewayState World
      → Answer × GatewayState World
  by_status committed row workspace tool arguments s = (returned (receipt_of row), s)
  by_status failed row workspace tool arguments s = (returned (receipt_of row), s)
  by_status dispatched row workspace tool arguments s =
      after_reconcile (reconcile row workspace arguments s) row workspace tool arguments s
  by_status unknown_effect row workspace tool arguments s =
      after_reconcile (reconcile row workspace arguments s) row workspace tool arguments s
  by_status prepared row workspace tool arguments s =
      dispatch host tools gateway now row workspace tool arguments s

  abbrev pub on_prepared :
      Result (ActionRow × Db)
      → String
      → ToolRequest
      → Fields
      → GatewayState World
      → Answer × GatewayState World
  on_prepared (err e) hash r arguments s = (raised (refused_request e), s)
  on_prepared (ok (row, db)) hash r arguments s =
      if not (row.arguments_hash == hash) || not (row.tool_name == r.tool)
      then (raised (app_error "IDEMPOTENCY_CONFLICT"), record s { db = db })
      else by_status row.action_status row r.workspace r.tool arguments (record s { db = db })

  abbrev pub on_effect_hash :
      OrFailure (Option String)
      → ToolRequest
      → Fields
      → GatewayState World
      → Answer × GatewayState World
  on_effect_hash (failing e) r arguments s = (raised (tool_raised e), s)
  on_effect_hash (fine effect) r arguments s =
      let hash = stable_hash (obj arguments) in
      on_prepared (prepare_action (prepare_request r arguments hash effect) s.db) hash r arguments s

  abbrev pub on_arguments : Json → ToolRequest → GatewayState World → Answer × GatewayState World
  on_arguments (obj arguments) r s =
      on_effect_hash (pre_effect_hash_of host tools r.workspace r.tool arguments s.world) r
        arguments s
  on_arguments _ r s = (raised (app_error "INVALID_TOOL_ARGUMENTS"), s)

  abbrev pub on_authority :
      Option String → ToolRequest → GatewayState World → Answer × GatewayState World
  on_authority (some code) r s = (raised (app_error code), s)
  on_authority none r s = on_arguments r.arguments r s

  -- `execute`
  unfoldable pub execute : ToolRequest → GatewayState World → Answer × GatewayState World
  unfolding authorize dispatch reconcile
  execute r s = on_authority (authorize gateway r.tool r.approved) r s
