-- ===== src/Drafts/Create.antt =====
-- `create_draft`, `require_quest` and `store_contract_version` of backend/app/v1/storage.py.
use Prim.Native.String
use project_town.Base.{
  ℕ, ℤ, pos, negsuc, String, Bool, false, Option, none, some, List, [], ◌∷◌, nat_eq, ◌==◌,
  if◌then◌else◌,
}
use project_town.Base.Result.{
  Result, ok, err, key_error, attribute_error, value_error, state_version_conflict, ◌>>=◌,
}
use project_town.Runtime.Json.{
  Json, Items, Fields, null, bool, nat, negative, float, str, arr, obj, nil, cons, end, field, get,
  set,
}
use project_town.Storage.Db.{Db, Host, QuestRow, EventRow, Transaction}
use project_town.Storage.Events.{event_schema_version, find_quest, append_locked}
use project_town.Drafts.Plans.{default_json, iterate, items_of, dict_of, text_or, validate_plan}
use project_town.Drafts.Tables.{
  insert_quest_row, insert_contract, insert_plan, objects, int_of, version_of,
}

-- `get_quest`
abbrev pub state_of : Option QuestRow → Option Fields
state_of none = none
state_of (some row) = some row.state

abbrev required : String → Option QuestRow → Result Fields
required q none = err (key_error q)
required q (some row) = ok row.state

-- `require_quest`
unfoldable pub require_quest : String → Db → Result Fields
unfolding find_quest
require_quest q db = required q (find_quest q db.quests)

unfoldable pub array_of : List Json → Items
array_of [] = nil
array_of (x ∷ xs) = cons x (array_of xs)

abbrev pub integer : ℤ → Json
integer (pos n) = nat n
integer (negsuc n) = negative n

-- `d.get(key)`, where a missing key reads as `None`
abbrev pub or_null : Option Json → Json
or_null none = null
or_null (some value) = value

-- `plan.get("metadata", {}).get("template_id")`
abbrev pub template_of : Json → Result Json
template_of (obj metadata) = ok (or_null (get "template_id" metadata))
template_of other = err attribute_error

-- `workspace or …`, `list(route or ["agent"])`
abbrev pub workspace_or : Option String → String → String
workspace_or none other = other
workspace_or (some workspace) other = if workspace == "" then other else workspace

abbrev pub route_or : Option (List String) → List String
route_or none = "agent" ∷ []
route_or (some []) = "agent" ∷ []
route_or (some (agent ∷ agents)) = agent ∷ agents

abbrev pub budget_usage : Fields
budget_usage = field "steps" (nat 0) (
    field "tool_calls" (nat 0)
      (field "messages" (nat 0) (field "tokens" (nat 0) (field "replans" (nat 0) end))))

-- The arguments of `create_draft`.
pub record Draft : Type 0 where
  pub goal_contract : Fields
  pub draft_plan : Fields
  pub workspace : Option String
  pub route : Option (List String)
  pub draft_status : String

module _ (host : Host) where
  open host use {to_str}

  -- An entry of `milestone_state`
  unfoldable pub milestone_state : Fields → Result Fields
  unfolding get set iterate array_of
  milestone_state m = do
    evidence ← iterate (default_json (arr nil) (get "evidence_ids" m))
    attempt ← int_of host (default_json (nat 0) (get "attempt" m))
    ok (
        set "attempt" (integer attempt) (
          set "evidence_ids" (arr (array_of evidence))
            (set "status" (str (text_or host "pending" (get "status" m))) m)))

  unfoldable pub milestone_states : List Fields → Result (List Fields)
  unfolding milestone_state
  milestone_states [] = ok []
  milestone_states (m ∷ ms) = do m' ← milestone_state m; ms' ← milestone_states ms; ok (m' ∷ ms')

  abbrev pub initial_fields : String → Draft → String → List Fields → ℤ → Fields → Json → Fields
  initial_fields q draft now milestones version metadata template = field "id" (str q) (
      field "goal" (str (text_or host "" (get "goal" draft.goal_contract))) (
        field "workspace"
          (str
            (workspace_or draft.workspace (text_or host "" (get "workspace" draft.goal_contract))))
          (field "status" (str draft.draft_status) (
            field "state_version" (nat 0) (
              field "plan_id"
                (str (text_or host (String.◌++◌ "plan_" q) (get "id" draft.draft_plan)))
                (field "plan_version" (integer version) (
                  field "plan_metadata" (obj metadata) (
                    field "template_id" template (
                      field "contract" (obj draft.goal_contract) (
                        field "milestones" (arr (objects milestones)) (
                          field "current_milestone_id" null (
                            field "progress" (float "0.0") (
                              field "route" (arr (items_of (route_or draft.route))) (
                                field "budget_usage" (obj budget_usage) (
                                  field "pause_requested" (bool false) (
                                    field "recovery_required" (bool false) (
                                      field "artifact_review_required" (bool false) (
                                        field "artifact_disposition" (str "not_applicable") (
                                          field "pending_artifact_review" null (
                                            field "legacy_unverified" (bool false) (
                                              field "error" null (
                                                field "created_at" (str now) (
                                                  field "updated_at" (str now) (
                                                    field "started_at" null (
                                                      field "finished_at" null
                                                        end)))))))))))))))))))))))))

  -- `initial_state`
  unfoldable pub initial_state : String → Draft → List Fields → String → Result Fields
  unfolding milestone_states get objects items_of
  initial_state q draft ms now = do
    states ← milestone_states ms
    version ← version_of host draft.draft_plan
    metadata ← dict_of host (default_json (obj end) (get "metadata" draft.draft_plan))
    template ← template_of (default_json (obj end) (get "metadata" draft.draft_plan))
    ok (initial_fields q draft now states version metadata template)

  abbrev pub draft_row : String → Draft → String → QuestRow
  draft_row q draft now = record {
    quest_id = q;
    state = end;
    state_version = 0;
    status = draft.draft_status;
    updated_at = now;
  }

  -- The transaction of `create_draft`.
  unfoldable pub insert_draft :
      String → Draft → List Fields → Fields → String → Transaction EventRow
  unfolding insert_quest_row insert_contract insert_plan append_locked
  insert_draft q draft ms state now db = do
    db1 ← insert_quest_row (draft_row q draft now) db
    db2 ← insert_contract host q draft.goal_contract now db1
    db3 ← insert_plan host q draft.draft_plan ms now db2
    append_locked host q "QuestDrafted" state 0 event_schema_version now db3

  -- `create_draft`
  unfoldable pub create_draft : String → Draft → String → Transaction Fields
  unfolding validate_plan initial_state insert_draft require_quest
  create_draft q draft now db = do
    ms ← validate_plan host draft.draft_plan
    state ← initial_state q draft ms now
    (e, db') ← insert_draft q draft ms state now db
    result ← require_quest q db'
    ok (result, db')

  abbrev pub contract_patch : Fields → String → Fields
  contract_patch contract status = field "contract" (obj contract) (
      field "goal" (str (text_or host "" (get "goal" contract)))
        (field "status" (str status) (field "error" null end)))

  abbrev pub at_version : Option QuestRow → ℕ → Bool
  at_version none expected = false
  at_version (some row) expected = nat_eq row.state_version expected

  -- `store_contract_version`.
  unfoldable pub store_contract_version :
      String → Fields → ℕ → String → String → String → String → Transaction EventRow
  unfolding find_quest insert_contract append_locked get
  store_contract_version q contract expected event_type status now later db =
      if at_version (find_quest q db.quests) expected
      then (do
        db1 ← insert_contract host q contract now db
        append_locked host q event_type (contract_patch contract status) expected
            event_schema_version later db1)
      else err (value_error state_version_conflict)
