-- ===== src/History/Effects.antt =====
-- How the operations of backend/app/v1/storage.py that append events or create quests write.
use mathlib.Core.Path.{subst}
use project_town.Base.{
  ℕ, ◌+◌, String, ◌≡◌, refl, inl, inr, false, Option, none, some, List, [], ◌∷◌, ◌++◌, map, any,
  arith, nat_eq, ◌==◌, Bool-cases,
}
use project_town.Base.Result.{Result, ok, err, ok-injective, ◌>>=◌, >>=-eq-ok}
use project_town.Runtime.Json.{Fields, obj, end, nil, arr, get}
use project_town.Storage.Db.{Db, Host, QuestRow, EventRow}
use project_town.Storage.Events.{event_schema_version, find_quest, append_locked, append_each}
use project_town.Drafts.Plans.{default_json, iterate, dict_of, text_or, validate_plan}
use project_town.Drafts.Tables.{
  insert_decision_row, insert_quest_row, insert_contract, insert_plan, version_of,
}
use project_town.Drafts.Create.{
  Draft, draft_row, initial_state, insert_draft, require_quest, create_draft, contract_patch,
  at_version, store_contract_version,
}
use project_town.Drafts.Decisions.{
  completed_from, keep_completed, plan_patch, insert_replan, store_plan_version,
}
use project_town.Drafts.Apply.{
  Decision, check_approval, change_of, Change, insert_change, record_decision, decide_row,
  as_conflict, at_time, apply_decision,
}
use project_town.History.Writes.{Writes, beside, created, appended, chain}
use project_town.History.Beside.{IsQuiet}
use project_town.History.Inserts.{
  insert_contract-IsQuiet, insert_plan-IsQuiet, insert_decision_row-IsQuiet,
}

pub find_quest-any :
    (q : String) (rows : List QuestRow)
    → any (λ row. row.quest_id == q) rows ≡ false
    → find_quest q rows ≡ none
unfolding find_quest
find_quest-any q [] h = refl
find_quest-any q (r ∷ rows) h = ground (arith, find_quest-any q rows)

module _ (host : Host) where
  pub quiet : (db db' : Db) → IsQuiet db db' → Writes host db db'
  quiet db db' (quests, events, checkpoints) = beside db db' quests events checkpoints

  pub still : (db db' : Db) → db ≡ db' → Writes host db db'
  still db db' same = subst (Writes host db) same (beside db db refl refl refl)

  pub append_each-Writes :
      (q : String) (events : List (String × Fields × String)) (version : ℕ) (db : Db)
      (es : List EventRow) (db' : Db)
      → append_each host q events version db ≡ ok (es, db')
      → Writes host db db'
  unfolding append_each
  append_each-Writes q [] version db es db' h = still db db' (cc h)
  append_each-Writes q ((event_type, patch, now) ∷ events) version db es db' h =
      let ((e, db1), first, rest) =
        >>=-eq-ok (append_locked host q event_type patch version event_schema_version now db) _ h in
      let ((fs, db2), second, last) =
        >>=-eq-ok (append_each host q events (version + 1) db1) _ rest in
      let same : db2 ≡ db' = cc last in
      chain db db1 db' (appended q event_type patch version event_schema_version now db e db1 first)
        (subst (Writes host db1) same (append_each-Writes q events (version + 1) db1 fs db2 second))

  insert_quest_row-Writes :
      (new : QuestRow) (db db' : Db)
      → new.state ≡ end
      → new.state_version ≡ 0
      → insert_quest_row new db ≡ ok db'
      → Writes host db db'
  unfolding insert_quest_row
  insert_quest_row-Writes new db db' empty version h =
      elim (Bool-cases (any (λ row. row.quest_id == new.quest_id) db.quests)) [
        | inl taken ↦ absurd (ground (arith, taken))
        | inr free ↦
            let same : record db { quests = db.quests ++ new ∷ [] } ≡ db' =
              ok-injective (record db { quests = db.quests ++ new ∷ [] }) db' (rw free at h) in
            subst (Writes host db) same (
              created new db (record db { quests = db.quests ++ new ∷ [] })
                (find_quest-any new.quest_id db.quests free) empty version refl refl refl)
      ]

  insert_draft-Writes :
      (q : String) (draft : Draft) (ms : List Fields) (state : Fields) (now : String) (db : Db)
      (e : EventRow) (db' : Db)
      → insert_draft host q draft ms state now db ≡ ok (e, db')
      → Writes host db db'
  unfolding insert_draft
  insert_draft-Writes q draft ms state now db e db' h =
      let (db1, first, rest1) = >>=-eq-ok (insert_quest_row (draft_row host q draft now) db) _ h in
      let (db2, second, rest2) =
        >>=-eq-ok (insert_contract host q draft.goal_contract now db1) _ rest1 in
      let (db3, third, last) = >>=-eq-ok (insert_plan host q draft.draft_plan ms now db2) _ rest2 in
      chain db db1 db' (insert_quest_row-Writes (draft_row host q draft now) db db1 refl refl first)
        (chain db1 db2 db'
          (quiet db1 db2 (insert_contract-IsQuiet host q draft.goal_contract now db1 db2 second))
          (chain db2 db3 db'
            (quiet db2 db3 (insert_plan-IsQuiet host q draft.draft_plan ms now db2 db3 third))
            (appended q "QuestDrafted" state 0 event_schema_version now db3 e db' last)))

  pub create_draft-Writes :
      (q : String) (draft : Draft) (now : String) (db : Db) (state : Fields) (db' : Db)
      → create_draft host q draft now db ≡ ok (state, db')
      → Writes host db db'
  unfolding create_draft
  create_draft-Writes q draft now db state db' h =
      let (ms, _, rest1) = >>=-eq-ok (validate_plan host draft.draft_plan) _ h in
      let (initial, _, rest2) = >>=-eq-ok (initial_state host q draft ms now) _ rest1 in
      let ((e, db1), third, rest3) =
        >>=-eq-ok (insert_draft host q draft ms initial now db) _ rest2 in
      let (result, _, last) = >>=-eq-ok (require_quest q db1) _ rest3 in
      let same : db1 ≡ db' = cc last in
      subst (Writes host db) same (insert_draft-Writes q draft ms initial now db e db1 third)

  pub store_contract_version-Writes :
      (q : String) (contract : Fields) (expected : ℕ) (event_type status now later : String)
      (db : Db) (e : EventRow) (db' : Db)
      → store_contract_version host q contract expected event_type status now later db ≡ ok (e, db')
      → Writes host db db'
  unfolding store_contract_version
  store_contract_version-Writes q contract expected event_type status now later db e db' h =
      elim (Bool-cases (at_version host (find_quest q db.quests) expected)) [
        | inl current ↦
            let (db1, first, last) =
              >>=-eq-ok (insert_contract host q contract now db)
                (λ db1.
                  append_locked host q event_type (contract_patch host contract status) expected
                    event_schema_version later db1)
                (rw current at h) in
            chain db db1 db'
              (quiet db db1 (insert_contract-IsQuiet host q contract now db db1 first))
              (appended q event_type (contract_patch host contract status) expected
                event_schema_version later db1 e db' last)
        | inr stale ↦ absurd (ground (arith, stale))
      ]

  insert_replan-Writes :
      (q : String) (plan : Fields) (ms : List Fields) (current : String) (expected : ℕ)
      (now later : String) (db : Db) (e : EventRow) (db' : Db)
      → insert_replan host q plan ms current expected now later db ≡ ok (e, db')
      → Writes host db db'
  unfolding insert_replan
  insert_replan-Writes q plan ms current expected now later db e db' h =
      elim (Bool-cases (at_version host (find_quest q db.quests) expected)) [
        | inl fresh_enough ↦
            let (db1, first, rest1) =
              >>=-eq-ok (insert_plan host q plan ms now db)
                (λ db1. do
                  version ← version_of host plan
                  metadata ← dict_of host (default_json (obj end) (get "metadata" plan))
                  append_locked host q "PlanReplanned"
                      (plan_patch host plan current version metadata ms) expected
                      event_schema_version later db1)
                (rw fresh_enough at h) in
            let (version, _, rest2) = >>=-eq-ok (version_of host plan) _ rest1 in
            let (metadata, _, last) =
              >>=-eq-ok (dict_of host (default_json (obj end) (get "metadata" plan))) _ rest2 in
            chain db db1 db' (quiet db db1 (insert_plan-IsQuiet host q plan ms now db db1 first)) (
              appended q "PlanReplanned" (plan_patch host plan current version metadata ms) expected
                event_schema_version later db1 e db' last)
        | inr stale ↦ absurd (ground (arith, stale))
      ]

  pub store_plan_version-Writes :
      (q : String) (plan : Fields) (expected : ℕ) (now later : String) (seen db : Db) (e : EventRow)
      (db' : Db)
      → store_plan_version host q plan expected now later seen db ≡ ok (e, db')
      → Writes host db db'
  unfolding store_plan_version
  store_plan_version-Writes q plan expected now later seen db e db' h =
      let (ms, _, rest1) = >>=-eq-ok (validate_plan host plan) _ h in
      let (current, _, rest2) = >>=-eq-ok (require_quest q seen) _ rest1 in
      let (items, _, rest3) =
        >>=-eq-ok (iterate (default_json (arr nil) (get "milestones" current))) _ rest2 in
      let (completed, _, rest4) = >>=-eq-ok (completed_from host [] items) _ rest3 in
      let (kept, _, last) = >>=-eq-ok (keep_completed host completed ms) _ rest4 in
      insert_replan-Writes q plan kept (text_or host "" (get "plan_id" current)) expected now later
        db e db' last

  insert_change-Writes :
      (q : String) (change : Option (Change host)) (now : String) (db db' : Db)
      → insert_change host q change now db ≡ ok db'
      → Writes host db db'
  insert_change-Writes q none now db db' h = still db db' (ok-injective db db' h)
  insert_change-Writes q (some (contract, plan, ms)) now db db' h =
      let (db1, first, last) = >>=-eq-ok (insert_contract host q contract now db) _ h in
      chain db db1 db' (quiet db db1 (insert_contract-IsQuiet host q contract now db db1 first))
        (quiet db1 db' (insert_plan-IsQuiet host q plan ms now db1 db' last))

  record_decision-Writes :
      (q : String) (d : Decision) (change : Option (Change host)) (now : String) (db : Db)
      (es : List EventRow) (db' : Db)
      → record_decision host q d change now db ≡ ok (es, db')
      → Writes host db db'
  unfolding record_decision
  record_decision-Writes q d change now db es db' h =
      let (db1, first, rest1) = >>=-eq-ok (insert_decision_row _ db) _ h in
      let (db2, second, last) = >>=-eq-ok (insert_change host q change now db1) _ rest1 in
      chain db db1 db' (quiet db db1 (insert_decision_row-IsQuiet _ db db1 first)) (
        chain db1 db2 db' (insert_change-Writes q change now db1 db2 second) (
          append_each-Writes q (map (at_time now) d.decision_events) d.expected_state_version db2 es
            db' last))

  as_conflict-ok {ℓ} : {A : Type ℓ} (r : Result A) (a : A) → as_conflict r ≡ ok a → r ≡ ok a
  as_conflict-ok (ok value) a h = h
  as_conflict-ok (err raised) a h = ground arith

  decide_row-Writes :
      (found : Option QuestRow) (q : String) (d : Decision) (now : String) (db : Db)
      (es : List EventRow) (db' : Db)
      → decide_row host found q d now db ≡ ok (es, db')
      → Writes host db db'
  decide_row-Writes none q d now db es db' h = cc
  decide_row-Writes (some row) q d now db es db' h =
      elim (Bool-cases (nat_eq row.state_version d.expected_state_version)) [
        | inl current ↦ elim (Bool-cases (row.status == "waiting_user")) [
          | inl waits ↦
              let (checked, _, rest1) =
                >>=-eq-ok (check_approval host d.kind d.details row.state)
                  (λ checked. do
                    change ← change_of host d row.state
                    as_conflict (record_decision host q d change now db))
                  (rw waits at (rw current at h)) in
              let (change, _, last) = >>=-eq-ok (change_of host d row.state) _ rest1 in
              record_decision-Writes q d change now db es db'
                (as_conflict-ok (record_decision host q d change now db) (es, db') last)
          | inr busy ↦ absurd (ground (arith, current, busy))
        ]
        | inr stale ↦ absurd (ground (arith, stale))
      ]

  pub apply_decision-Writes :
      (q : String) (d : Decision) (now : String) (db : Db) (state : Fields) (db' : Db)
      → apply_decision host q d now db ≡ ok (state, db')
      → Writes host db db'
  unfolding apply_decision
  apply_decision-Writes q d now db state db' h =
      let ((es, db1), first, rest) =
        >>=-eq-ok (decide_row host (find_quest q db.quests) q d now db) _ h in
      let (result, _, last) = >>=-eq-ok (require_quest q db1) _ rest in
      let same : db1 ≡ db' = cc last in
      subst (Writes host db) same
        (decide_row-Writes (find_quest q db.quests) q d now db es db1 first)
