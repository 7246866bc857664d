-- ===== src/Drafts/Decisions.antt =====
-- `store_plan_version` and `apply_decision` of backend/app/v1/storage.py.
use project_town.Base.{
  ℕ, ℤ, String, Bool, false, ◌&&◌, Option, none, some, List, [], ◌∷◌, find, ◌==◌, if◌then◌else◌,
}
use project_town.Base.Result.{
  Result, ok, err, Error, key_error, type_error, attribute_error, value_error,
  state_version_conflict, completed_milestone_removed, completed_milestone_modified, ◌>>=◌,
}
use project_town.Runtime.Json.{Json, Fields, str, arr, obj, nil, end, field, get, set}
use project_town.Storage.Db.{Db, Host, EventRow, Transaction}
use project_town.Storage.Events.{event_schema_version, find_quest, append_locked}
use project_town.Drafts.Plans.{default_json, iterate, dict_of, text_or, id_of, validate_plan}
use project_town.Drafts.Tables.{insert_plan, objects, version_of}
use project_town.Drafts.Create.{or_null, array_of, integer, at_version, require_quest}

-- `item.get(key)` of a decoded item
abbrev pub fields_of : Json → Result Fields
fields_of (obj fs) = ok fs
fields_of other = err attribute_error

-- `item.get("status") == "completed"`
abbrev pub says_completed : Option Json → Bool
says_completed (some (str s)) = s == "completed"
says_completed other = false

abbrev pub is_completed : Fields → Bool
is_completed m = says_completed (get "status" m)

-- A key of the dict `completed`: a list or an object is not hashable.
abbrev pub hashable : Option Json → Result Json
hashable none = err (key_error "id")
hashable (some (arr xs)) = err type_error
hashable (some (obj fs)) = err type_error
hashable (some key) = ok key

module _ (host : Host) where
  open host use {to_str, same_json}

  -- `completed[key] = item`
  unfoldable pub put : Json → Fields → List (Json × Fields) → List (Json × Fields)
  put key item [] = (key, item) ∷ []
  put key item ((k, old) ∷ rest) =
      if same_json k key then (k, item) ∷ rest else (k, old) ∷ put key item rest

  -- The dict `completed`, built from the end.
  unfoldable pub completed_from : List (Json × Fields) → List Json → Result (List (Json × Fields))
  unfolding put get
  completed_from found [] = ok found
  completed_from found (item ∷ items) = do
    m ← fields_of item
    if is_completed m
        then (do key ← hashable (get "id" m); completed_from (put key m found) items)
        else completed_from found items

  -- `proposed.get(key)`: the identifiers of `proposed` are strings.
  unfoldable pub proposed : String → List Fields → Option Fields
  unfolding get
  proposed id ms = find (λ m. id_of host m == id) ms

  abbrev pub proposed_at : Json → List Fields → Option Fields
  proposed_at (str id) ms = proposed id ms
  proposed_at other ms = none

  -- `old.get(field) != new.get(field)` for none of the three fields
  abbrev pub same_field : String → Fields → Fields → Bool
  same_field key old new = same_json (or_null (get key old)) (or_null (get key new))

  unfoldable pub same_work : Fields → Fields → Bool
  unfolding get
  same_work old new =
      same_field "tool_name" old new
      && same_field "tool_args" old new
      && same_field "acceptance_criteria" old new

  -- `new["status"]` and `new["evidence_ids"]`, assigned in the list that holds `new`
  unfoldable pub complete : String → List Json → List Fields → List Fields
  unfolding set get array_of
  complete id evidence [] = []
  complete id evidence (m ∷ ms) =
      (if id_of host m == id
        then set "evidence_ids" (arr (array_of evidence)) (set "status" (str "completed") m)
        else m)
      ∷ complete id evidence ms

  abbrev pub complete_as :
      Error → Error → Option Fields → String → Fields → List Fields → Result (List Fields)
  complete_as removed modified none id old ms = err removed
  complete_as removed modified (some new) id old ms =
      if same_work old new
      then (do
        evidence ← iterate (default_json (arr nil) (get "evidence_ids" old))
        ok (complete id evidence ms))
      else err modified

  -- What a key stands for among strings; another key is in no dict of strings.
  abbrev pub key_text : Json → String
  key_text (str s) = s
  key_text other = ""

  -- The loop of `store_plan_version` over `completed`
  unfoldable pub keep_completed : List (Json × Fields) → List Fields → Result (List Fields)
  unfolding proposed same_work complete iterate get
  keep_completed [] ms = ok ms
  keep_completed ((key, old) ∷ rest) ms = do
    ms' ←
        complete_as (value_error completed_milestone_removed)
          (value_error completed_milestone_modified) (proposed_at key ms) (key_text key) old ms
    keep_completed rest ms'

  abbrev pub plan_patch : Fields → String → ℤ → Fields → List Fields → Fields
  plan_patch plan current version metadata ms =
      field "plan_id" (str (text_or host current (get "id" plan))) (
        field "plan_version" (integer version) (
          field "plan_metadata" (obj metadata)
            (field "milestones" (arr (objects ms)) (field "status" (str "running") end))))

  -- The transaction of `store_plan_version`
  unfoldable pub insert_replan :
      String → Fields → List Fields → String → ℕ → String → String → Transaction EventRow
  unfolding find_quest insert_plan append_locked get objects
  insert_replan q plan ms current expected now later db =
      if at_version host (find_quest q db.quests) expected
      then (do
        db1 ← insert_plan host q plan ms now db
        version ← version_of host plan
        metadata ← dict_of host (default_json (obj end) (get "metadata" plan))
        append_locked host q "PlanReplanned" (plan_patch plan current version metadata ms) expected
            event_schema_version later db1)
      else err (value_error state_version_conflict)

  -- `store_plan_version`: `seen` are the tables as they are read before the transaction begins.
  unfoldable pub store_plan_version :
      String → Fields → ℕ → String → String → Db → Transaction EventRow
  unfolding validate_plan require_quest completed_from keep_completed insert_replan iterate get
  store_plan_version q plan expected now later seen db = do
    ms ← validate_plan host plan
    current ← require_quest q seen
    items ← iterate (default_json (arr nil) (get "milestones" current))
    completed ← completed_from [] items
    kept ← keep_completed completed ms
    insert_replan q plan kept (text_or host "" (get "plan_id" current)) expected now later db
