-- ===== src/Calls/Binding.antt =====
-- `_model_binding_locked` of backend/app/v1/storage.py.
use Prim.Native.String
use project_town.Base.{
  ℕ, ℤ, pos, negsuc, int_eq, String, Bool, true, false, not, ◌&&◌, ◌||◌, Option, none, some, List,
  find, nat_eq, ltb, ◌==◌, if◌then◌else◌,
}
use project_town.Base.Result.{Result, ok, err, key_error, value_error, binding_missing, ◌>>=◌}
use project_town.Runtime.Json.{Json, Fields, nat, obj, end, field, get, truthy}
use project_town.Storage.Db.{Db, Host, QuestRow, PlanRow}
use project_town.Storage.Events.{find_quest}
use project_town.Drafts.Plans.{default_json, dict_of}
use project_town.Drafts.Tables.{int_of, text_of}
use project_town.Calls.Rows.{Binding}

-- `SELECT plan_json FROM v1_plan_versions WHERE plan_id = ? AND version = ?`
unfoldable pub find_plan : String → ℤ → List PlanRow → Option PlanRow
find_plan id version rows = find (λ row. row.plan_id == id && int_eq row.plan_version version) rows

-- `value or other`
abbrev pub or_else : Option Json → Json → Json
or_else none other = other
or_else (some value) other = if truthy value then value else other

abbrev is_positive : ℤ → Bool
is_positive (pos n) = ltb 0 n
is_positive (negsuc n) = false

abbrev is_empty : Fields → Bool
is_empty end = true
is_empty (field key value fs) = false

module _ (host : Host) where
  open host use {stable_hash}

  abbrev bind_plan : Option PlanRow → String → QuestRow → Fields → String → ℤ → Result Binding
  bind_plan none q row contract plan version = err (value_error binding_missing)
  bind_plan (some stored) q row contract plan version =
      if is_empty contract || plan == "" || not (is_positive version)
      then err (value_error binding_missing)
      else (do
        budget ← dict_of host (or_else (get "budget" contract) (obj end))
        contract_version ← int_of host (or_else (get "version" contract) (nat 1))
        max_tokens ← int_of host (default_json (nat 20000) (get "max_tokens" budget))
        ok (record {
          state_version = row.state_version;
          contract_id = text_of host (get "id" contract) (String.◌++◌ "contract_" q);
          contract_version = contract_version;
          contract_hash = stable_hash (obj contract);
          plan_id = plan;
          plan_version = version;
          plan_hash = stable_hash (obj stored.plan);
          max_tokens = max_tokens;
        }))

  abbrev bind_row : Option QuestRow → String → Db → Result Binding
  bind_row none q db = err (key_error q)
  bind_row (some row) q db = do
    contract ← dict_of host (or_else (get "contract" row.state) (obj end))
    let plan = text_of host (get "plan_id" row.state) ""
    version ← int_of host (or_else (get "plan_version" row.state) (nat 0))
    bind_plan (find_plan plan version db.plans) q row contract plan version

  -- `_model_binding_locked`
  unfoldable pub model_binding : String → Db → Result Binding
  unfolding find_quest find_plan get
  model_binding q db = bind_row (find_quest q db.quests) q db

-- The comparison of a call with the present binding.
unfoldable pub is_bound_to : Binding → Binding → Bool
is_bound_to b call =
    nat_eq b.state_version call.state_version
    && (b.contract_id == call.contract_id)
    && int_eq b.contract_version call.contract_version
    && (b.contract_hash == call.contract_hash)
    && (b.plan_id == call.plan_id)
    && int_eq b.plan_version call.plan_version
    && (b.plan_hash == call.plan_hash)

-- `total > max_tokens`
abbrev pub exceeds : ℕ → ℤ → Bool
exceeds total (pos limit) = ltb limit total
exceeds total (negsuc limit) = true
