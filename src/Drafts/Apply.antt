-- ===== src/Drafts/Apply.antt =====
-- `apply_decision` of backend/app/v1/storage.py.
use project_town.Base.{
  ℕ, String, Bool, true, Option, none, some, List, [], ◌∷◌, map, nat_eq, ◌==◌, if◌then◌else◌,
}
use project_town.Base.Result.{
  Result, ok, err, key_error, integrity_error, value_error, state_version_conflict,
  completed_milestone_modified, decision_not_requested, approval_mismatch, decision_incomplete,
  decision_conflict, ◌>>=◌,
}
use project_town.Runtime.Json.{Json, Fields, arr, obj, nil, end, get, truthy}
use project_town.Storage.Db.{Db, Host, QuestRow, EventRow, Transaction}
use project_town.Storage.Events.{find_quest, append_each}
use project_town.Drafts.Plans.{default_json, iterate, validate_plan}
use project_town.Drafts.Tables.{insert_contract, insert_plan, insert_decision_row}
use project_town.Drafts.Create.{or_null, require_quest}
use project_town.Drafts.Decisions.{fields_of, is_completed, proposed, complete, complete_as}

-- The arguments of `apply_decision`.
pub record Decision : Type 0 where
  pub id : String
  pub details : Fields
  pub expected_state_version : ℕ
  pub kind : String
  pub decision_events : List (String × Fields)
  pub new_contract : Option Fields
  pub new_plan : Option Fields

-- `state.get("pending_approval") or {}`
abbrev or_empty : Option Json → Json
or_empty none = obj end
or_empty (some value) = if truthy value then value else obj end

-- `except sqlite3.IntegrityError`
abbrev pub as_conflict {ℓ} : {A : Type ℓ} → Result A → Result A
as_conflict (err integrity_error) = err (value_error decision_conflict)
as_conflict (err raised) = err raised
as_conflict (ok value) = ok value

-- An event of the decision at the one reading of the clock.
abbrev pub at_time : String → String × Fields → String × Fields × String
at_time now (event_type, patch) = (event_type, patch, now)

module _ (host : Host) where
  open host use {to_str, same_json}

  -- The test of an approval
  abbrev pub check_target : Fields → Fields → Result Bool
  check_target details state = do
    patch ← fields_of (default_json (obj end) (get "contract_patch" details))
    pending ← fields_of (or_empty (get "pending_approval" state))
    if same_json (or_null (get "action_id" patch)) (or_null (get "action_id" pending))
        then ok true
        else err (value_error approval_mismatch)

  abbrev pub check_approval : String → Fields → Fields → Result Bool
  check_approval kind details state =
      if kind == "approve" then check_target details state else ok true

  -- `str(old["id"])`
  abbrev pub key_of : Option Json → Result String
  key_of none = err (key_error "id")
  key_of (some key) = ok (to_str key)

  abbrev pub keep_old : Fields → List Fields → Result (List Fields)
  keep_old old ms =
      if is_completed old
      then (do
        id ← key_of (get "id" old)
        complete_as host (value_error completed_milestone_modified)
            (value_error completed_milestone_modified) (proposed host id ms) id old ms)
      else ok ms

  -- The loop of `apply_decision` over the milestones of the projection
  unfoldable pub keep_each : List Json → List Fields → Result (List Fields)
  unfolding proposed complete iterate get
  keep_each [] ms = ok ms
  keep_each (item ∷ items) ms = do old ← fields_of item; ms' ← keep_old old ms; keep_each items ms'

  -- The contract, the plan and the milestones of a modification
  abbrev pub Change : Type 0
  Change = Fields × Fields × List Fields

  abbrev pub both : Option Fields → Option Fields → Result (Fields × Fields)
  both (some contract) (some plan) = ok (contract, plan)
  both _ _ = err (value_error decision_incomplete)

  abbrev pub modify : Decision → Fields → Result (Option Change)
  modify d state = do
    (contract, plan) ← both d.new_contract d.new_plan
    ms ← validate_plan host plan
    olds ← iterate (default_json (arr nil) (get "milestones" state))
    kept ← keep_each olds ms
    ok (some (contract, plan, kept))

  abbrev pub change_of : Decision → Fields → Result (Option Change)
  change_of d state = if d.kind == "modify" then modify d state else ok none

  abbrev pub insert_change : String → Option Change → String → Db → Result Db
  insert_change q none now db = ok db
  insert_change q (some (contract, plan, ms)) now db = do
    db' ← insert_contract host q contract now db
    insert_plan host q plan ms now db'

  -- The body of the `try`
  unfoldable pub record_decision :
      String → Decision → Option Change → String → Transaction (List EventRow)
  unfolding insert_decision_row insert_contract insert_plan append_each
  record_decision q d change now db = do
    db1 ←
        insert_decision_row
          (record {
            decision_id = d.id;
            decision_quest = q;
            decision_data = d.details;
            decided_at = now;
          })
          db
    db2 ← insert_change q change now db1
    append_each host q (map (at_time now) d.decision_events) d.expected_state_version db2

  abbrev pub decide_row : Option QuestRow → String → Decision → String → Transaction (List EventRow)
  decide_row none q d now db = err (key_error q)
  decide_row (some row) q d now db =
      if nat_eq row.state_version d.expected_state_version
      then if row.status == "waiting_user"
        then (do
          checked ← check_approval d.kind d.details row.state
          change ← change_of d row.state
          as_conflict (record_decision q d change now db))
        else err (value_error decision_not_requested)
      else err (value_error state_version_conflict)

  -- `apply_decision`
  unfoldable pub apply_decision : String → Decision → String → Transaction Fields
  unfolding find_quest keep_each validate_plan iterate record_decision require_quest get
  apply_decision q d now db = do
    (es, db') ← decide_row (find_quest q db.quests) q d now db
    result ← require_quest q db'
    ok (result, db')
