-- ===== src/Gateway/Tools.antt =====
-- What the gateway of backend/app/v1/gateway.py works with: the tools and the sandbox, which are an
-- interface here, the injected faults, and the answers of a call.
use project_town.Base.{ℕ, String, Bool, false, Option, List, [], ◌∷◌, any, ◌==◌, if◌then◌else◌}
use project_town.Base.Result.{
  Result, ok, err, Error, key_error, value_error, type_error, attribute_error, integrity_error,
  runtime_error,
}
use project_town.Runtime.Json.{Json, Fields, str, bool, obj, end, field}
use project_town.Storage.Db.{Db, ActionRow, ReceiptStatus, Transaction}

-- A `ToolError`: its code and what `as_dict` gives.
pub record ToolFailure : Type 0 where
  pub code : String
  pub as_dict : Fields

abbrev pub failure : String → String → Fields → ToolFailure
failure code message details = record {
  code = code;
  as_dict = field "code" (str code) (
      field "message" (str message)
        (field "details" (obj details) (field "retryable" (bool false) end)));
}

-- What `registry.execute` does: it returns a value, or raises a `ToolError` or another exception,
-- which is kept by the name of its type.
pub data ToolOutcome : Type 0 where
  gave : Json → ToolOutcome
  tool_failed : ToolFailure → ToolOutcome
  crashed : String → ToolOutcome

-- A path of a workspace: `resolve` may refuse it; a file is kept by the SHA-256 of its bytes.
pub data FileState : Type 0 where
  refused : ToolFailure → FileState
  absent not_file : FileState
  file : String → FileState

-- One pass of the loop of `_write_file_observation`: the path is unsafe, the pass failed or saw the
-- file change, or the bytes were read with the same metadata before and after.
pub data Probe : Type 0 where
  unsafe unstable : Probe
  stable : String → ℕ → Probe

-- The registry and the sandbox of backend/app/tools.py with the files they work on, and two
-- functions of Python's library. The numbers of `probe` tell the passes of its loop apart.
pub record Tools (World : Type 0) : Type 0 where
  pub run_tool : String → String → Fields → World → ToolOutcome × World
  pub file_state : String → String → World → FileState
  pub resolve_existing : String → String → World → Option ToolFailure
  pub probe : String → String → ℕ → World → Probe
  pub display_path : String → String → World → String
  pub sha256 : String → String
  pub utf8_size : String → ℕ

-- `ToolGateway.__init__`, without the store and the faults, which are in the state.
pub record ToolGateway : Type 0 where
  pub allowlist : List String
  pub high_risk_tools : List String
  pub read_only_tools : List String

-- The store, the files, and the points of `FaultInjector`.
pub record GatewayState (World : Type 0) : Type 0 where
  pub db : Db
  pub world : World
  pub points : List String

abbrev pub member : String → List String → Bool
member x xs = any (λ y. y == x) xs

-- `points.remove(point)`
unfoldable pub without : String → List String → List String
without point [] = []
without point (p ∷ ps) = if p == point then without point ps else p ∷ without point ps

-- The mapping of `_receipt`.
pub record Receipt : Type 0 where
  pub receipt_id : String
  pub receipt_key : String
  pub receipt_status : ReceiptStatus
  pub receipt_result : Option Fields
  pub receipt_error : Option Fields

abbrev pub receipt_of : ActionRow → Receipt
receipt_of row = record {
  receipt_id = row.action_id;
  receipt_key = row.idempotency_key;
  receipt_status = row.action_status;
  receipt_result = row.result;
  receipt_error = row.error;
}

-- An `AppError` by its code, a `ToolError`, or what the store raised.
pub data Raised : Type 0 where
  app_error : String → Raised
  tool_raised : ToolFailure → Raised
  store_raised : Error → Raised

pub data Answer : Type 0 where
  returned : Receipt → Answer
  raised : Raised → Answer

abbrev pub settled :
    {World : Type 0} → Result (ActionRow × Db) → GatewayState World → Answer × GatewayState World
settled (ok (row, db)) s = (returned (receipt_of row), record s { db = db })
settled (err e) s = (raised (store_raised e), s)

-- `self._receipt(self.store.…(…))`
abbrev pub answer_of :
    {World : Type 0} → Transaction ActionRow → GatewayState World → Answer × GatewayState World
answer_of call s = settled (call s.db) s

-- `type(exc).__name__`
abbrev pub error_name : Error → String
error_name (key_error key) = "KeyError"
error_name (value_error message) = "ValueError"
error_name type_error = "TypeError"
error_name attribute_error = "AttributeError"
error_name integrity_error = "IntegrityError"
error_name runtime_error = "RuntimeError"

abbrev pub known_no_effect_errors : List String
known_no_effect_errors =
    "FILE_ALREADY_EXISTS" ∷ "FILE_TOO_LARGE" ∷ "FILE_TYPE_NOT_ALLOWED" ∷ "INVALID_PATH"
    ∷ "INVALID_TOOL_ARGUMENTS" ∷ "PATH_OUTSIDE_SANDBOX" ∷ "PATH_OUTSIDE_WORKSPACE" ∷ []
