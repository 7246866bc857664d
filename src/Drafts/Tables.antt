-- ===== src/Drafts/Tables.antt =====
-- `_insert_contract_locked` and `_insert_plan_locked` of backend/app/v1/storage.py, with the keys of
-- their tables: a row whose key is taken, or whose foreign key is missing, is refused.
use Prim.Native.String
use project_town.Base.{
  ℤ, pos, negsuc, int_eq, String, Bool, not, ◌&&◌, ◌||◌, Option, none, some, List, [], ◌∷◌, ◌++◌,
  any, ◌==◌, if◌then◌else◌,
}
use project_town.Base.Result.{Result, ok, err, integrity_error, ◌>>=◌}
use project_town.Runtime.Json.{
  Json, Items, Fields, bool, nat, negative, arr, obj, nil, cons, get, set, truthy,
}
use project_town.Storage.Db.{
  Db, Host, ContractRow, PlanRow, MilestoneRow, DependencyRow, DecisionRow, QuestRow,
}
use project_town.Drafts.Plans.{default_json, iterate, text_or, id_of}

unfoldable pub same_contract : ContractRow → ContractRow → Bool
same_contract new row =
    (row.contract_id == new.contract_id && int_eq row.contract_version new.contract_version)
    || (row.contract_quest == new.contract_quest
        && int_eq row.contract_version new.contract_version)

unfoldable pub same_plan : PlanRow → PlanRow → Bool
same_plan new row =
    (row.plan_id == new.plan_id && int_eq row.plan_version new.plan_version)
    || (row.plan_quest == new.plan_quest && int_eq row.plan_version new.plan_version)

unfoldable pub is_milestone : String → ℤ → String → MilestoneRow → Bool
is_milestone plan version id row =
    row.of_plan == plan && int_eq row.of_version version && row.milestone == id

unfoldable pub same_dependency : DependencyRow → DependencyRow → Bool
same_dependency new row =
    row.in_plan == new.in_plan
    && int_eq row.in_version new.in_version
    && row.dependent == new.dependent
    && row.dependency == new.dependency

-- `INSERT INTO v1_goal_contracts`
unfoldable pub insert_contract_row : ContractRow → Db → Result Db
unfolding same_contract
insert_contract_row new db =
    if any (same_contract new) db.contracts
    then err integrity_error
    else ok (record db { contracts = db.contracts ++ new ∷ [] })

-- `INSERT INTO v1_plan_versions`
unfoldable pub insert_plan_row : PlanRow → Db → Result Db
unfolding same_plan
insert_plan_row new db =
    if any (same_plan new) db.plans
    then err integrity_error
    else ok (record db { plans = db.plans ++ new ∷ [] })

-- `INSERT INTO v1_plan_milestones`
unfoldable pub insert_milestone_row : MilestoneRow → Db → Result Db
unfolding is_milestone
insert_milestone_row new db =
    if any (is_milestone new.of_plan new.of_version new.milestone) db.plan_milestones
    then err integrity_error
    else ok (record db { plan_milestones = db.plan_milestones ++ new ∷ [] })

-- `INSERT INTO v1_plan_dependencies`
unfoldable pub insert_dependency_row : DependencyRow → Db → Result Db
unfolding is_milestone same_dependency
insert_dependency_row new db =
    if any (same_dependency new) db.plan_dependencies
      || not (any (is_milestone new.in_plan new.in_version new.dependent) db.plan_milestones)
      || not (any (is_milestone new.in_plan new.in_version new.dependency) db.plan_milestones)
    then err integrity_error
    else ok (record db { plan_dependencies = db.plan_dependencies ++ new ∷ [] })

-- `INSERT INTO v1_decisions`
unfoldable pub insert_decision_row : DecisionRow → Db → Result Db
insert_decision_row new db =
    if any (λ row. row.decision_id == new.decision_id) db.decisions
    then err integrity_error
    else ok (record db { decisions = db.decisions ++ new ∷ [] })

-- `INSERT INTO v1_quests`
unfoldable pub insert_quest_row : QuestRow → Db → Result Db
insert_quest_row new db =
    if any (λ row. row.quest_id == new.quest_id) db.quests
    then err integrity_error
    else ok (record db { quests = db.quests ++ new ∷ [] })

unfoldable pub objects : List Fields → Items
objects [] = nil
objects (m ∷ ms) = cons (obj m) (objects ms)

module _ (host : Host) where
  open host use {to_str, to_int}

  -- `int(value)`
  abbrev pub int_of : Json → Result ℤ
  int_of (nat n) = ok (pos n)
  int_of (negative n) = ok (negsuc n)
  int_of (bool b) = ok (pos (if b then 1 else 0))
  int_of other = to_int other

  -- `str(value or other)`
  abbrev pub text_of : Option Json → String → String
  text_of none other = other
  text_of (some value) other = if truthy value then to_str value else other

  -- `int(d.get("version", 1))`
  abbrev pub version_of : Fields → Result ℤ
  version_of d = int_of (default_json (nat 1) (get "version" d))

  -- `_insert_contract_locked`
  unfoldable pub insert_contract : String → Fields → String → Db → Result Db
  unfolding insert_contract_row get
  insert_contract q contract now db = do
    version ← version_of contract
    insert_contract_row
        (record {
          contract_id = text_of (get "id" contract) (String.◌++◌ "contract_" q);
          contract_version = version;
          contract_quest = q;
          contract = contract;
          contracted_at = now;
        })
        db

  -- The first loop of `_insert_plan_locked`
  unfoldable pub insert_milestones : String → ℤ → List Fields → Db → Result Db
  unfolding insert_milestone_row get
  insert_milestones plan version [] db = ok db
  insert_milestones plan version (m ∷ ms) db = do
    db' ←
        insert_milestone_row
          (record {
            of_plan = plan;
            of_version = version;
            milestone = id_of host m;
            milestone_title = text_or host (id_of host m) (get "title" m);
            milestone_data = m;
          })
          db
    insert_milestones plan version ms db'

  unfoldable pub insert_dependencies : String → ℤ → String → List Json → Db → Result Db
  unfolding insert_dependency_row
  insert_dependencies plan version id [] db = ok db
  insert_dependencies plan version id (d ∷ ds) db = do
    db' ←
        insert_dependency_row
          (record { in_plan = plan; in_version = version; dependent = id; dependency = to_str d })
          db
    insert_dependencies plan version id ds db'

  -- The second loop of `_insert_plan_locked`
  unfoldable pub insert_all_dependencies : String → ℤ → List Fields → Db → Result Db
  unfolding insert_dependencies iterate get
  insert_all_dependencies plan version [] db = ok db
  insert_all_dependencies plan version (m ∷ ms) db = do
    ds ← iterate (default_json (arr nil) (get "dependencies" m))
    db' ← insert_dependencies plan version (id_of host m) ds db
    insert_all_dependencies plan version ms db'

  -- `_insert_plan_locked`
  unfoldable pub insert_plan : String → Fields → List Fields → String → Db → Result Db
  unfolding insert_plan_row insert_milestones insert_all_dependencies get set objects
  insert_plan q plan ms now db = do
    version ← version_of plan
    let id = text_of (get "id" plan) (String.◌++◌ "plan_" q)
    db1 ←
        insert_plan_row
          (record {
            plan_id = id;
            plan_version = version;
            plan_quest = q;
            plan = set "milestones" (arr (objects ms)) plan;
            planned_at = now;
          })
          db
    db2 ← insert_milestones id version ms db1
    insert_all_dependencies id version ms db2
