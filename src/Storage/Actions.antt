-- ===== src/Storage/Actions.antt =====
-- The receipts of tool calls: `prepare_action`, `_transition_action`, `commit_action_with_event` and
-- their callers in backend/app/v1/storage.py.
use project_town.Base.{
  ℕ, String, Bool, true, false, not, ◌&&◌, ◌||◌, Option, none, some, List, [], ◌∷◌, ◌++◌, find,
  filter, length, nat_eq, is_some, ◌==◌, if◌then◌else◌,
}
use project_town.Base.Result.{
  Result, ok, err, key_error, value_error, type_error, integrity_error, state_version_conflict,
  idempotency_key_conflict, action_transition, committed_result_conflict, receipt_event_missing,
  ◌>>=◌,
}
use project_town.Runtime.Json.{Fields, null, str, obj, end, field}
use project_town.Storage.Db.{
  Db, Host, QuestRow, ActionRow, ReceiptStatus, prepared, dispatched, committed, failed,
  unknown_effect, Observation, Transaction,
}
use project_town.Storage.Events.{event_schema_version, find_quest, append_locked}
use project_town.Storage.Observations.{insert_observation}

abbrev pub same_status : ReceiptStatus → ReceiptStatus → Bool
same_status prepared prepared = true
same_status dispatched dispatched = true
same_status committed committed = true
same_status failed failed = true
same_status unknown_effect unknown_effect = true
same_status _ _ = false

-- `SELECT * FROM v1_tool_actions WHERE action_id = ?`, which is `get_action`
unfoldable pub find_action : String → List ActionRow → Option ActionRow
find_action id rows = find (λ row. row.action_id == id) rows

-- `… WHERE quest_id = ? AND idempotency_key = ?`
unfoldable pub find_key : String → String → List ActionRow → Option ActionRow
find_key q key rows = find (λ row. row.action_quest == q && row.idempotency_key == key) rows

-- `UPDATE v1_tool_actions SET … WHERE action_id = ?`
unfoldable pub replace_action : ActionRow → List ActionRow → List ActionRow
replace_action new [] = []
replace_action new (row ∷ rows) =
    (if row.action_id == new.action_id then new else row) ∷ replace_action new rows

-- The arguments of `prepare_action`.
pub record ActionRequest : Type 0 where
  pub id : String
  pub quest : String
  pub milestone : String
  pub key : String
  pub tool : String
  pub hash : String
  pub args : Fields
  pub expected_state_version : ℕ
  pub pre_effect : Option String

abbrev pub prepared_row : ActionRequest → ActionRow
prepared_row r = record {
  action_id = r.id;
  action_quest = r.quest;
  milestone_id = r.milestone;
  idempotency_key = r.key;
  tool_name = r.tool;
  arguments_hash = r.hash;
  arguments = r.args;
  pre_effect_hash = r.pre_effect;
  expected_version = r.expected_state_version;
  action_status = prepared;
  result = none;
  error = none;
  committed_event = none;
}

-- The primary key refuses an identifier that another request has taken.
abbrev insert_prepared : ActionRequest → Transaction ActionRow
insert_prepared r db =
    if is_some (find_action r.id db.actions)
    then err integrity_error
    else ok (prepared_row r, record db { actions = db.actions ++ prepared_row r ∷ [] })

abbrev prepare_for : Option QuestRow → Option ActionRow → ActionRequest → Transaction ActionRow
prepare_for none existing r db = err (key_error r.quest)
prepare_for (some projection) (some existing) r db =
    if not (existing.arguments_hash == r.hash) || not (existing.tool_name == r.tool)
    then err (value_error idempotency_key_conflict)
    else ok (existing, db)
prepare_for (some projection) none r db =
    if nat_eq projection.state_version r.expected_state_version
    then insert_prepared r db
    else err (value_error state_version_conflict)

-- `prepare_action`
unfoldable pub prepare_action : ActionRequest → Transaction ActionRow
unfolding find_quest find_key find_action
prepare_action r db =
    prepare_for (find_quest r.quest db.quests) (find_key r.quest r.key db.actions) r db

abbrev transition_row :
    Option ActionRow
    → String
    → (ReceiptStatus → Bool)
    → ReceiptStatus
    → Option Fields
    → Option Fields
    → Transaction ActionRow
transition_row none id allowed_from status result error db = err (key_error id)
transition_row (some row) id allowed_from status result error db =
    if same_status row.action_status status
    then ok (row, db)
    else if allowed_from row.action_status
    then (let new : ActionRow = record row {
      action_status = status;
      result = result;
      error = error;
    } in
        ok (new, record db { actions = replace_action new db.actions }))
    else err (value_error action_transition)

-- `_transition_action`
unfoldable pub transition_action :
    String
    → (ReceiptStatus → Bool)
    → ReceiptStatus
    → Option Fields
    → Option Fields
    → Transaction ActionRow
unfolding find_action replace_action
transition_action id allowed_from status result error db =
    transition_row (find_action id db.actions) id allowed_from status result error db

abbrev pub from_prepared : ReceiptStatus → Bool
from_prepared status = same_status status prepared

abbrev pub from_dispatched : ReceiptStatus → Bool
from_dispatched status = same_status status dispatched

abbrev pub committable : ReceiptStatus → Bool
committable status = same_status status dispatched || same_status status unknown_effect

abbrev pub failable : ReceiptStatus → Bool
failable status = same_status status prepared || same_status status dispatched

unfoldable pub mark_action_dispatched : String → Transaction ActionRow
unfolding transition_action
mark_action_dispatched id db = transition_action id from_prepared dispatched none none db

unfoldable pub commit_action : String → Fields → Transaction ActionRow
unfolding transition_action
commit_action id result db = transition_action id committable committed (some result) none db

unfoldable pub fail_action : String → Fields → Transaction ActionRow
unfolding transition_action
fail_action id error db = transition_action id failable failed none (some error) db

unfoldable pub mark_action_unknown : String → Option Fields → Transaction ActionRow
unfolding transition_action
mark_action_unknown id error db = transition_action id from_dispatched unknown_effect none error db

-- `list_unresolved_actions`; the rows stand in the order of their creation.
unfoldable pub list_unresolved_actions : String → Db → List ActionRow
list_unresolved_actions q db =
    filter (λ row. row.action_quest == q && committable row.action_status) db.actions

abbrev interrupted : Fields
interrupted =
    field "code" (str "PROCESS_INTERRUPTED")
      (field "message" (str "Dispatch outcome must be reconciled") end)

-- `SET … WHERE status = 'dispatched'`, on one row
unfoldable pub interrupt_row : ActionRow → ActionRow
interrupt_row row =
    if same_status row.action_status dispatched
    then record row { action_status = unknown_effect; error = some interrupted }
    else row

unfoldable pub mark_rows_unknown : List ActionRow → List ActionRow
unfolding interrupt_row
mark_rows_unknown [] = []
mark_rows_unknown (row ∷ rows) = interrupt_row row ∷ mark_rows_unknown rows

-- `mark_dispatched_actions_unknown`, with the number of rows that it changed
unfoldable pub mark_dispatched_actions_unknown : Db → ℕ × Db
unfolding mark_rows_unknown
mark_dispatched_actions_unknown db = (
  length (filter (λ row. same_status row.action_status dispatched) db.actions),
  record db { actions = mark_rows_unknown db.actions },
)

module _ (host : Host) where
  open host use {dumps}

  abbrev pub receipt_patch : ActionRow → Fields → Fields
  receipt_patch row result =
      field "last_receipt"
        (obj (
          field "action_id" (str row.action_id) (
            field "idempotency_key" (str row.idempotency_key) (
              field "status" (str "committed")
                (field "result" (obj result) (field "error" null end))))))
        end

  abbrev pub observe : Option Observation → ActionRow → ℕ → Db → Result Db
  observe none row event_id db = ok db
  observe (some o) row event_id db = insert_observation o row.action_id row.action_quest event_id db

  -- The answer for an action that is committed already.
  abbrev replayed : ActionRow → Option Fields → Fields → Transaction ActionRow
  replayed row none result db = err type_error
  replayed row (some stored) result db =
      if not (dumps (obj stored) == dumps (obj result))
      then err (value_error committed_result_conflict)
      else if is_some row.committed_event
      then ok (row, db)
      else err (value_error receipt_event_missing)

  abbrev pub version_of : Option QuestRow → Result ℕ
  version_of none = err type_error
  version_of (some row) = ok row.state_version

  abbrev pub committed_row : ActionRow → Fields → Option ℕ → ActionRow
  committed_row row result event_id = record row {
    action_status = committed;
    result = some result;
    error = none;
    committed_event = event_id;
  }

  -- The writes of `commit_action_with_event`, in their order.
  unfoldable pub commit_row :
      ActionRow → Fields → Option Observation → String → Transaction ActionRow
  unfolding replace_action append_locked insert_observation find_quest
  commit_row row result observation now db = do
    let first = record db {
      actions = replace_action (committed_row row result row.committed_event) db.actions;
    }
    version ← version_of (find_quest row.action_quest first.quests)
    (e, second) ←
        append_locked host row.action_quest "ToolCommitted" (receipt_patch row result) version
          event_schema_version now first
    let linked = committed_row row result (some e.event_id)
    third ←
        observe observation row e.event_id
          (record second { actions = replace_action linked second.actions })
    ok (linked, third)

  abbrev commit_found :
      Option ActionRow → String → Fields → Option Observation → String → Transaction ActionRow
  commit_found none id result observation now db = err (key_error id)
  commit_found (some row) id result observation now db =
      if same_status row.action_status committed
      then replayed row row.result result db
      else if committable row.action_status
      then commit_row row result observation now db
      else err (value_error action_transition)

  -- `commit_action_with_event`
  unfoldable pub commit_action_with_event :
      String → Fields → Option Observation → String → Transaction ActionRow
  unfolding find_action commit_row
  commit_action_with_event id result observation now db =
      commit_found (find_action id db.actions) id result observation now db
