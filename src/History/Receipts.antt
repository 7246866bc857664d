-- ===== src/History/Receipts.antt =====
-- How `commit_action_with_event` and `admit_execution` of backend/app/v1/storage.py write.
use project_town.Base.{
  ℕ, ◌+◌, String, ◌≡◌, refl, sym, inl, inr, Option, none, some, arith, nat_eq, ◌==◌, ◌||◌,
  Bool-cases,
}
use project_town.Base.Result.{Result, ok, err}
use project_town.Runtime.Json.{Fields, get}
use project_town.Storage.Db.{Db, Host, QuestRow, EventRow, ActionRow, Observation}
use project_town.Storage.Events.{event_schema_version, find_quest, append_locked}
use project_town.Storage.Actions.{
  replace_action, committed_row, receipt_patch, commit_action_with_event,
}
use project_town.Storage.Leases.{
  find_lease, claim, admission_patch, is_active_status, is_taken, admit_row, admitted,
  admit_execution,
}
use project_town.Storage.Commits.{
  Committed, Outcome, repeated, fresh, commit_action_with_event-Outcome, observe-frame,
}
use project_town.History.Writes.{Writes, beside, appended, chain}
use project_town.History.Effects.{still}

module _ (host : Host) where
  Committed-Writes :
      (row : ActionRow) (result : Fields) (o : Option Observation) (now : String) (db : Db)
      (out : ActionRow) (db' : Db)
      → Committed host row result o now db out db'
      → Writes host db db'
  Committed-Writes row result o now db out db' c =
      let first : Db = record db {
        actions = replace_action (committed_row host row result row.committed_event) db.actions;
      } in
      let (_, events, quests, checkpoints) =
        observe-frame host o row c.receipt.event_id
          (record c.second {
            actions =
                replace_action (committed_row host row result (some c.receipt.event_id))
                  c.second.actions;
          })
          db' c.observed in
      chain db first db' (beside db first refl refl refl) (
        chain first c.second db'
          (appended row.action_quest "ToolCommitted" (receipt_patch host row result) c.version
            event_schema_version now first c.receipt c.second c.appended)
          (beside c.second db' quests events checkpoints))

  pub commit_action_with_event-Writes :
      (id : String) (result : Fields) (o : Option Observation) (now : String) (db : Db)
      (out : ActionRow) (db' : Db)
      → commit_action_with_event host id result o now db ≡ ok (out, db')
      → Writes host db db'
  commit_action_with_event-Writes id result o now db out db' h =
      settle (commit_action_with_event-Outcome host id result o now db out db' h)
    where
      settle : Outcome host id result o now db out db' → Writes host db db'
      settle (repeated found done stored kept equal linked same) = still host db db' (sym same)
      settle (fresh action found allowed c) = Committed-Writes action result o now db out db' c

  admitted-ok :
      (r : Result (EventRow × Db)) (out : Option EventRow) (db' : Db)
      → admitted host r ≡ ok (out, db')
      → (e : EventRow) × (r ≡ ok (e, db'))
  admitted-ok (ok (e, db)) out db' h = (e, cc h)
  admitted-ok (err raised) out db' h = cc

  admit_row-Writes :
      (found : Option QuestRow) (q owner : String) (ttl expected : ℕ) (admitted_at : String)
      (now : ℕ) (stamp : String) (db : Db) (out : Option EventRow) (db' : Db)
      → admit_row host found q owner ttl expected admitted_at now stamp db ≡ ok (out, db')
      → Writes host db db'
  admit_row-Writes none q owner ttl expected admitted_at now stamp db out db' h = cc
  admit_row-Writes (some row) q owner ttl expected admitted_at now stamp db out db' h =
      elim (Bool-cases (nat_eq row.state_version expected)) [
        | inr stale ↦ absurd (ground (arith, stale))
        | inl current ↦ elim (Bool-cases (is_active_status (get "status" row.state))) [
          | inr idle ↦ absurd (ground (arith, current, idle))
          | inl active ↦ elim (Bool-cases (is_taken (find_lease q db.leases) owner now)) [
            | inl taken ↦ still host db db' (cc (rw taken at (rw active at (rw current at h))))
            | inr free ↦
                let claimed : Db = record db { leases = claim q owner (now + ttl) db.leases } in
                let (e, wrote) =
                  admitted-ok
                    (append_locked host q "ExecutionAdmitted"
                      (admission_patch row.state admitted_at) expected event_schema_version stamp
                      claimed)
                    out db' (rw free at (rw active at (rw current at h))) in
                chain db claimed db' (beside db claimed refl refl refl) (
                  appended q "ExecutionAdmitted" (admission_patch row.state admitted_at) expected
                    event_schema_version stamp claimed e db' wrote)
          ]
        ]
      ]

  pub admit_execution-Writes :
      (q owner : String) (ttl expected : ℕ) (admitted_at : String) (now : ℕ) (stamp : String)
      (db : Db) (out : Option EventRow) (db' : Db)
      → admit_execution host q owner ttl expected admitted_at now stamp db ≡ ok (out, db')
      → Writes host db db'
  unfolding admit_execution
  admit_execution-Writes q owner ttl expected admitted_at now stamp db out db' h =
      elim (Bool-cases (nat_eq ttl 0 || owner == "" || admitted_at == "")) [
        | inl invalid ↦ absurd (ground (arith, invalid))
        | inr valid ↦
            admit_row-Writes (find_quest q db.quests) q owner ttl expected admitted_at now stamp db
              out db' (rw valid at h)
      ]
