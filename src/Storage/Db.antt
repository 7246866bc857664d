-- ===== src/Storage/Db.antt =====
-- The tables of backend/app/v1/storage.py (`MIGRATIONS`) that the modelled operations read or write,
-- one record for a row. A JSON column holds the value that `json.loads` reads back from it.
use project_town.Base.{ℕ, ℤ, String, Bool, Option, List}
use project_town.Base.Result.{Result}
use project_town.Runtime.Json.{Json, Fields}

-- v1_quests
pub record QuestRow : Type 0 where
  pub quest_id : String
  pub state : Fields
  pub state_version : ℕ
  pub status : String
  pub updated_at : String

-- v1_events
pub record EventRow : Type 0 where
  pub event_id : ℕ
  pub event_quest : String
  pub sequence : ℕ
  pub event_type : String
  pub schema_version : ℕ
  pub version_before : ℕ
  pub version_after : ℕ
  pub payload : Json
  pub state_hash : String
  pub created_at : String

-- v1_checkpoints
pub record Checkpoint : Type 0 where
  pub checkpoint_quest : String
  pub version : ℕ
  pub saved : Fields
  pub saved_hash : String

-- `ReceiptStatus` of backend/app/v1/models.py
pub data ReceiptStatus : Type 0 where
  prepared dispatched committed failed unknown_effect : ReceiptStatus

-- v1_tool_actions
pub record ActionRow : Type 0 where
  pub action_id : String
  pub action_quest : String
  pub milestone_id : String
  pub idempotency_key : String
  pub tool_name : String
  pub arguments_hash : String
  pub arguments : Fields
  pub pre_effect_hash : Option String
  pub expected_version : ℕ
  pub action_status : ReceiptStatus
  pub result : Option Fields
  pub error : Option Fields
  pub committed_event : Option ℕ

-- The CHECK lists of v1_tool_file_observations
pub data ChangeKind : Type 0 where
  created modified deleted unchanged unsupported_kind : ChangeKind

pub data ObservationStatus : Type 0 where
  observed unstable unsupported unrecoverable : ObservationStatus

-- The mapping that the gateway hands to `commit_action_with_event`.
pub record Observation : Type 0 where
  pub observation_id : String
  pub relative_path : String
  pub before_sha256 : Option String
  pub after_sha256 : String
  pub after_size_bytes : ℕ
  pub change_kind : ChangeKind
  pub observation_status : ObservationStatus

-- v1_tool_file_observations
pub record ObservationRow : Type 0 where
  pub observation : Observation
  pub observed_quest : String
  pub observed_action : String
  pub observed_event : ℕ

-- v1_leases
pub record Lease : Type 0 where
  pub lease_quest : String
  pub owner : String
  pub expires_at : ℕ

-- v1_resource_leases
pub record ResourceLease : Type 0 where
  pub resource_key : String
  pub holder_quest : String
  pub holder : String
  pub until : ℕ

-- v1_goal_contracts
pub record ContractRow : Type 0 where
  pub contract_id : String
  pub contract_version : ℤ
  pub contract_quest : String
  pub contract : Fields
  pub contracted_at : String

-- v1_plan_versions
pub record PlanRow : Type 0 where
  pub plan_id : String
  pub plan_version : ℤ
  pub plan_quest : String
  pub plan : Fields
  pub planned_at : String

-- v1_plan_milestones
pub record MilestoneRow : Type 0 where
  pub of_plan : String
  pub of_version : ℤ
  pub milestone : String
  pub milestone_title : String
  pub milestone_data : Fields

-- v1_plan_dependencies
pub record DependencyRow : Type 0 where
  pub in_plan : String
  pub in_version : ℤ
  pub dependent : String
  pub dependency : String

-- v1_decisions
pub record DecisionRow : Type 0 where
  pub decision_id : String
  pub decision_quest : String
  pub decision_data : Fields
  pub decided_at : String

pub record Db : Type 0 where
  pub quests : List QuestRow
  pub events : List EventRow
  -- `sqlite_sequence` of the AUTOINCREMENT key of v1_events
  pub last_event_id : ℕ
  pub checkpoints : List Checkpoint
  pub actions : List ActionRow
  pub observations : List ObservationRow
  pub leases : List Lease
  pub resource_leases : List ResourceLease
  pub contracts : List ContractRow
  pub plans : List PlanRow
  pub plan_milestones : List MilestoneRow
  pub plan_dependencies : List DependencyRow
  pub decisions : List DecisionRow

-- A method inside `with self._transaction()`: it commits the new tables, or raises and rolls back.
abbrev pub Transaction : Type 0 → Type 0
Transaction A = Db → Result (A × Db)

-- What the source takes from libraries: SHA-256 over `json.dumps` (`stable_hash` of
-- backend/app/runtime.py), `json.dumps` itself (`_json`), Python's `str` and `==` of decoded values, its
-- `dict` of a value that is no object, its `int` of one that is no integer, and `str.casefold`.
pub record Host : Type 0 where
  pub stable_hash : Json → String
  pub dumps : Json → String
  pub to_str : Json → String
  pub to_dict : Json → Result Fields
  pub to_int : Json → Result ℤ
  pub same_json : Json → Json → Bool
  pub casefold : String → String
