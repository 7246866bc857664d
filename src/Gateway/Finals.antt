-- ===== src/Gateway/Finals.antt =====
-- What a run of `execute` of backend/app/v1/gateway.py does to the receipts of the store.
use project_town.Base.{
  String, ◌≡◌, refl, Bool, true, false, not, ◌&&◌, ◌||◌, Option, none, some, List, [], ◌∷◌, ◌==◌,
  if◌then◌else◌,
}
use project_town.Base.Result.{Result, ok, err}
use project_town.Runtime.Json.{Json, Fields, get, null, bool, nat, negative, float, str, arr, obj}
use project_town.Storage.Db.{
  Db, Host, ActionRow, ReceiptStatus, prepared, dispatched, committed, failed, unknown_effect,
  Observation,
}
use project_town.Storage.Actions.{
  same_status, find_action, prepare_action, commit_action_with_event,
}
use project_town.Storage.Lifecycle.{
  Operation, run_operation, tables, kept_or, run_operations, is_final, final_receipt_stays,
}
use project_town.Gateway.Tools.{
  FileState, refused, absent, not_file, file, Tools, ToolGateway, GatewayState, member, Answer,
}
use project_town.Gateway.Files.{
  text_of, OrFailure, fine, failing, pre_effect_hash_of, write_file_observation,
}
use project_town.Gateway.Execute.{
  ToolRequest, authorize, prepare_request, Reconciled, answered, safe_retry, reconciled_result,
  reconciled_with, is_false, is_absent_hash, reconcile_file, reconcile_texts, reconcile,
  after_reconcile, by_status, on_prepared, on_effect_hash, on_arguments, on_authority, execute,
}
use project_town.Gateway.Keeps.{
  if-Keeps, answer_of-Keeps, mark_action_unknown-Keeps, dispatch-Keeps,
}

module _ {World : Type 0} (host : Host) (tools : Tools World) (gateway : ToolGateway) (now : String)
    (P : Db → Type 0)
    (closed : (op : Operation) (db : Db) → P db → P (kept_or (run_operation host op db) db)) where
  abbrev Kept : Answer × GatewayState World → Type 0
  Kept x = P x.1.db

  abbrev KeptBy : Reconciled host tools gateway now → Type 0
  KeptBy (answered reply) = Kept reply
  KeptBy (safe_retry b) = Unit

  reconciled_with-Kept :
      (o : OrFailure (Option Observation)) (row : ActionRow) (workspace path content : String)
      (s : GatewayState World)
      → P s.db
      → KeptBy (reconciled_with host tools gateway now o row workspace path content s)
  unfolding run_operation
  reconciled_with-Kept (failing e) row workspace path content s p = tt
  reconciled_with-Kept (fine o) row workspace path content s p =
      answer_of-Keeps host tools gateway now P closed
        (Operation.commit_with_event row.action_id
          (reconciled_result host tools gateway now row workspace path content s.world) o now)
        (λ db.
          commit_action_with_event host row.action_id
            (reconciled_result host tools gateway now row workspace path content s.world) o now db)
        s refl p

  if-KeptBy :
      (b : Bool) (x y : Reconciled host tools gateway now)
      → KeptBy x
      → KeptBy y
      → KeptBy (if b then x else y)
  if-KeptBy true x y p q = p
  if-KeptBy false x y p q = q

  reconcile_file-Kept :
      (f : FileState) (row : ActionRow) (workspace : String) (arguments : Fields)
      (path content : String) (s : GatewayState World)
      → P s.db
      → KeptBy (reconcile_file host tools gateway now f row workspace arguments path content s)
  reconcile_file-Kept (refused e) row workspace arguments path content s p = p
  reconcile_file-Kept absent row workspace arguments path content s p = tt
  reconcile_file-Kept not_file row workspace arguments path content s p = tt
  reconcile_file-Kept (file sha) row workspace arguments path content s p =
      if-KeptBy (not (sha == tools.sha256 content)) _ _ tt (
        if-KeptBy
          (is_false host tools gateway now (get "overwrite" arguments)
            && not (is_absent_hash host tools gateway now row.pre_effect_hash))
          _ _ tt
          (reconciled_with-Kept (write_file_observation host tools row workspace arguments s.world)
            row workspace path content s p))

  reconcile_texts-Kept :
      (content path : Option String) (row : ActionRow) (workspace : String) (arguments : Fields)
      (s : GatewayState World)
      → P s.db
      → KeptBy (reconcile_texts host tools gateway now content path row workspace arguments s)
  reconcile_texts-Kept none path row workspace arguments s p = tt
  reconcile_texts-Kept (some content) none row workspace arguments s p = tt
  reconcile_texts-Kept (some content) (some path) row workspace arguments s p =
      reconcile_file-Kept (tools.file_state workspace path s.world) row workspace arguments path
        content s p

  reconcile-Kept :
      (row : ActionRow) (workspace : String) (arguments : Fields) (s : GatewayState World)
      → P s.db
      → KeptBy (reconcile host tools gateway now row workspace arguments s)
  unfolding reconcile
  reconcile-Kept row workspace arguments s p =
      if-KeptBy (member row.tool_name gateway.read_only_tools) _ _ tt (
        if-KeptBy (not (row.tool_name == "write_file")) _ _ tt (
          reconcile_texts-Kept (text_of (get "content" arguments)) (text_of (get "path" arguments))
            row workspace arguments s p))

  after_reconcile-Kept :
      (x : Reconciled host tools gateway now) (row : ActionRow) (workspace tool : String)
      (arguments : Fields) (s : GatewayState World)
      → KeptBy x
      → P s.db
      → Kept (after_reconcile host tools gateway now x row workspace tool arguments s)
  after_reconcile-Kept (answered reply) row workspace tool arguments s q p = q
  after_reconcile-Kept (safe_retry true) row workspace tool arguments s q p =
      dispatch-Keeps host tools gateway now P closed row workspace tool arguments s p
  after_reconcile-Kept (safe_retry false) row workspace tool arguments s q p =
      if-Keeps host tools gateway now P closed (same_status row.action_status dispatched) _ _
        (mark_action_unknown-Keeps host tools gateway now P closed row.action_id _ s p) p

  by_status-Kept :
      (status : ReceiptStatus) (row : ActionRow) (workspace tool : String) (arguments : Fields)
      (s : GatewayState World)
      → P s.db
      → Kept (by_status host tools gateway now status row workspace tool arguments s)
  by_status-Kept committed row workspace tool arguments s p = p
  by_status-Kept failed row workspace tool arguments s p = p
  by_status-Kept dispatched row workspace tool arguments s p =
      after_reconcile-Kept (reconcile host tools gateway now row workspace arguments s) row
        workspace tool arguments s (reconcile-Kept row workspace arguments s p) p
  by_status-Kept unknown_effect row workspace tool arguments s p =
      after_reconcile-Kept (reconcile host tools gateway now row workspace arguments s) row
        workspace tool arguments s (reconcile-Kept row workspace arguments s p) p
  by_status-Kept prepared row workspace tool arguments s p =
      dispatch-Keeps host tools gateway now P closed row workspace tool arguments s p

  on_effect_hash-Kept :
      (effect : OrFailure (Option String)) (r : ToolRequest) (arguments : Fields)
      (s : GatewayState World)
      → P s.db
      → Kept (on_effect_hash host tools gateway now effect r arguments s)
  unfolding run_operation
  on_effect_hash-Kept (failing e) r arguments s p = p
  on_effect_hash-Kept (fine effect) r arguments s p =
      by-result
        (prepare_action (prepare_request r arguments (host.stable_hash (obj arguments)) effect)
          s.db)
        (closed
          (Operation.prepare
            (prepare_request r arguments (host.stable_hash (obj arguments)) effect))
          s.db p)
    where
      by-result :
          (m : Result (ActionRow × Db))
          → P (kept_or (tables m) s.db)
          → Kept (
              on_prepared host tools gateway now m (host.stable_hash (obj arguments)) r arguments s)
      by-result (ok (row, db)) q =
          if-Keeps host tools gateway now P closed
            (not (row.arguments_hash == host.stable_hash (obj arguments))
              || not (row.tool_name == r.tool))
            _ _ q
            (by_status-Kept row.action_status row r.workspace r.tool arguments
              (record s { db = db }) q)
      by-result (err e) q = q

  on_arguments-Kept :
      (j : Json) (r : ToolRequest) (s : GatewayState World)
      → P s.db
      → Kept (on_arguments host tools gateway now j r s)
  on_arguments-Kept (obj arguments) r s p =
      on_effect_hash-Kept (pre_effect_hash_of host tools r.workspace r.tool arguments s.world) r
        arguments s p
  on_arguments-Kept null r s p = p
  on_arguments-Kept (bool b) r s p = p
  on_arguments-Kept (nat n) r s p = p
  on_arguments-Kept (negative n) r s p = p
  on_arguments-Kept (float t) r s p = p
  on_arguments-Kept (str t) r s p = p
  on_arguments-Kept (arr xs) r s p = p

  on_authority-Kept :
      (code : Option String) (r : ToolRequest) (s : GatewayState World)
      → P s.db
      → Kept (on_authority host tools gateway now code r s)
  on_authority-Kept (some code) r s p = p
  on_authority-Kept none r s p = on_arguments-Kept r.arguments r s p

  pub execute-Kept :
      (r : ToolRequest) (s : GatewayState World)
      → P s.db
      → P (execute host tools gateway now r s).1.db
  unfolding execute
  execute-Kept r s p = on_authority-Kept (authorize gateway r.tool r.approved) r s p

one_operation :
    (host : Host) (a : String) (row : ActionRow) (op : Operation) (db : Db)
    → find_action a db.actions ≡ some row
    → is_final row.action_status ≡ true
    → find_action a (kept_or (run_operation host op db) db).actions ≡ some row
unfolding run_operations
one_operation host a row op db there final = final_receipt_stays host a row (op ∷ []) db there final

-- A run of calls of `execute`, each at its time.
unfoldable pub execute_all :
    {World : Type 0}
    → Host
    → Tools World
    → ToolGateway
    → List (String × ToolRequest)
    → GatewayState World
    → GatewayState World
execute_all host tools gateway [] s = s
execute_all host tools gateway ((now, r) ∷ more) s =
    execute_all host tools gateway more (execute host tools gateway now r s).1

-- A receipt that is committed or failed stays as it is, its result and error included, whatever
-- tool calls are executed after it: whatever the tools do and whatever faults are injected.
pub execute_keeps_final :
    {World : Type 0} (host : Host) (tools : Tools World) (gateway : ToolGateway)
    (calls : List (String × ToolRequest)) (a : String) (row : ActionRow) (s : GatewayState World)
    → find_action a s.db.actions ≡ some row
    → is_final row.action_status ≡ true
    → find_action a (execute_all host tools gateway calls s).db.actions ≡ some row
unfolding execute_all
execute_keeps_final host tools gateway [] a row s found final = found
execute_keeps_final host tools gateway ((now, r) ∷ more) a row s found final =
    execute_keeps_final host tools gateway more a row (execute host tools gateway now r s).1
      (execute-Kept host tools gateway now (λ db. find_action a db.actions ≡ some row)
        (λ op db there. one_operation host a row op db there final) r s found)
      final
