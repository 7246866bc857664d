-- ===== src/History/Inserts.antt =====
-- The inserts of backend/app/v1/storage.py into the tables of contracts, plans and decisions.
use project_town.Base.{ℤ, String, ◌≡◌, ◌∙◌, List, [], ◌∷◌, arith}
use project_town.Base.Result.{Result, ok, ◌>>=◌, >>=-eq-ok}
use project_town.Runtime.Json.{Json, Fields, nil, arr, get}
use project_town.Storage.Db.{
  Db, Host, ContractRow, PlanRow, MilestoneRow, DependencyRow, DecisionRow,
}
use project_town.Drafts.Plans.{default_json, iterate, id_of}
use project_town.Drafts.Tables.{
  insert_contract_row, insert_plan_row, insert_milestone_row, insert_dependency_row,
  insert_decision_row, insert_contract, insert_milestones, insert_dependencies,
  insert_all_dependencies, insert_plan, version_of,
}
use project_town.History.Beside.{IsQuiet}

IsQuiet-trans : (a b c : Db) → IsQuiet a b → IsQuiet b c → IsQuiet a c
IsQuiet-trans a b c h g = (g.0 ∙ h.0, g.1 ∙ h.1, g.2 ∙ h.2)

-- A chain of inserts is quiet where each is.
then-IsQuiet :
    (first : Result Db) (next : Db → Result Db) (db db' : Db)
    → ((mid : Db) → first ≡ ok mid → IsQuiet db mid)
    → ((mid out : Db) → next mid ≡ ok out → IsQuiet mid out)
    → (first >>= next) ≡ ok db'
    → IsQuiet db db'
then-IsQuiet first next db db' quiet1 quiet2 h =
    let (mid, done, rest) = >>=-eq-ok first next h in
    IsQuiet-trans db mid db' (quiet1 mid done) (quiet2 mid db' rest)

insert_contract_row-IsQuiet :
    (new : ContractRow) (db db' : Db) → insert_contract_row new db ≡ ok db' → IsQuiet db db'
unfolding insert_contract_row
insert_contract_row-IsQuiet new db db' h = ground arith

insert_plan_row-IsQuiet :
    (new : PlanRow) (db db' : Db) → insert_plan_row new db ≡ ok db' → IsQuiet db db'
unfolding insert_plan_row
insert_plan_row-IsQuiet new db db' h = ground arith

insert_milestone_row-IsQuiet :
    (new : MilestoneRow) (db db' : Db) → insert_milestone_row new db ≡ ok db' → IsQuiet db db'
unfolding insert_milestone_row
insert_milestone_row-IsQuiet new db db' h = ground arith

insert_dependency_row-IsQuiet :
    (new : DependencyRow) (db db' : Db) → insert_dependency_row new db ≡ ok db' → IsQuiet db db'
unfolding insert_dependency_row
insert_dependency_row-IsQuiet new db db' h = ground arith

pub insert_decision_row-IsQuiet :
    (new : DecisionRow) (db db' : Db) → insert_decision_row new db ≡ ok db' → IsQuiet db db'
unfolding insert_decision_row
insert_decision_row-IsQuiet new db db' h = ground arith

module _ (host : Host) where
  pub insert_contract-IsQuiet :
      (q : String) (contract : Fields) (now : String) (db db' : Db)
      → insert_contract host q contract now db ≡ ok db'
      → IsQuiet db db'
  unfolding insert_contract
  insert_contract-IsQuiet q contract now db db' h =
      let (version, _, rest) = >>=-eq-ok (version_of host contract) _ h in
      insert_contract_row-IsQuiet _ db db' rest

  insert_milestones-IsQuiet :
      (plan : String) (version : ℤ) (ms : List Fields) (db db' : Db)
      → insert_milestones host plan version ms db ≡ ok db'
      → IsQuiet db db'
  unfolding insert_milestones
  insert_milestones-IsQuiet plan version [] db db' h = ground arith
  insert_milestones-IsQuiet plan version (m ∷ ms) db db' h =
      then-IsQuiet _ (insert_milestones host plan version ms) db db'
        (insert_milestone_row-IsQuiet _ db) (insert_milestones-IsQuiet plan version ms) h

  insert_dependencies-IsQuiet :
      (plan : String) (version : ℤ) (id : String) (ds : List Json) (db db' : Db)
      → insert_dependencies host plan version id ds db ≡ ok db'
      → IsQuiet db db'
  unfolding insert_dependencies
  insert_dependencies-IsQuiet plan version id [] db db' h = ground arith
  insert_dependencies-IsQuiet plan version id (d ∷ ds) db db' h =
      then-IsQuiet _ (insert_dependencies host plan version id ds) db db'
        (insert_dependency_row-IsQuiet _ db) (insert_dependencies-IsQuiet plan version id ds) h

  insert_all_dependencies-IsQuiet :
      (plan : String) (version : ℤ) (ms : List Fields) (db db' : Db)
      → insert_all_dependencies host plan version ms db ≡ ok db'
      → IsQuiet db db'
  unfolding insert_all_dependencies
  insert_all_dependencies-IsQuiet plan version [] db db' h = ground arith
  insert_all_dependencies-IsQuiet plan version (m ∷ ms) db db' h =
      let (ds, _, rest) = >>=-eq-ok (iterate (default_json (arr nil) (get "dependencies" m))) _ h in
      then-IsQuiet (insert_dependencies host plan version (id_of host m) ds db)
        (insert_all_dependencies host plan version ms) db db'
        (insert_dependencies-IsQuiet plan version (id_of host m) ds db)
        (insert_all_dependencies-IsQuiet plan version ms) rest

  pub insert_plan-IsQuiet :
      (q : String) (plan : Fields) (ms : List Fields) (now : String) (db db' : Db)
      → insert_plan host q plan ms now db ≡ ok db'
      → IsQuiet db db'
  unfolding insert_plan
  insert_plan-IsQuiet q plan ms now db db' h =
      let (version, _, rest) = >>=-eq-ok (version_of host plan) _ h in
      then-IsQuiet _ _ db db' (insert_plan_row-IsQuiet _ db)
        (λ mid out.
          then-IsQuiet _ _ mid out (insert_milestones-IsQuiet _ version ms mid)
            (insert_all_dependencies-IsQuiet _ version ms))
        rest
