-- ===== src/History/Histories.antt =====
-- What every database that the calls of backend/app/v1/storage.py reach from the empty one keeps.
use mathlib.Core.Path.{subst}
use project_town.Base.{
  String, ◌≡◌, refl, ap, ◌∙◌, inl, inr, true, false, some, List, [], ◌∷◌, arith, Option-cases,
}
use project_town.Base.Result.{Result, ok, err, ok-injective}
use project_town.Runtime.Json.{Fields}
use project_town.Storage.Db.{Db, Host, QuestRow}
use project_town.Storage.Events.{find_quest, append_event}
use project_town.Storage.Replay.{replay}
use project_town.Storage.Actions.{mark_dispatched_actions_unknown}
use project_town.Storage.Leases.{
  release_lease, release_resource_lease, clear_runtime_leases_on_startup,
}
use project_town.Storage.Recovery.{replay_full, replay_suffix}
use project_town.Drafts.Create.{require_quest}
use project_town.History.Writes.{Writes, appended, saved, IsSound}
use project_town.History.Sound.{Writes-IsSound}
use project_town.History.Beside.{
  IsQuiet, prepare_action-IsQuiet, mark_action_dispatched-IsQuiet, commit_action-IsQuiet,
  fail_action-IsQuiet, mark_action_unknown-IsQuiet, acquire_lease-IsQuiet, renew_lease-IsQuiet,
  acquire_resource_lease-IsQuiet,
}
use project_town.History.Commands.{
  Command, create, store_contract, store_plan, decide, append, append_all, checkpoint, prepare,
  dispatch, commit, commit_with_event, fail, unknown, interrupt, acquire, renew, release,
  acquire_resource, release_resource, clear_leases, admit, tables, run_command, run_commands,
  kept_or, empty_db,
}
use project_town.History.Effects.{
  quiet, append_each-Writes, create_draft-Writes, store_contract_version-Writes,
  store_plan_version-Writes, apply_decision-Writes,
}
use project_town.History.Receipts.{commit_action_with_event-Writes, admit_execution-Writes}

-- A property of two databases that every returning call has, has also the call's tables.
tables-ok {ℓ} :
    {A : Type ℓ} (P : Db → Type 0) (r : Result (A × Db)) (db' : Db)
    → ((value : A) (out : Db) → r ≡ ok (value, out) → P out)
    → tables r ≡ ok db'
    → P db'
tables-ok P (ok (value, out)) db' each h = subst P (ok-injective out db' h) (each value out refl)
tables-ok P (err raised) db' each h = cc

module _ (host : Host) where
  tables-quiet {ℓ} :
      {A : Type ℓ} (db : Db) (r : Result (A × Db)) (db' : Db)
      → ((value : A) (out : Db) → r ≡ ok (value, out) → IsQuiet db out)
      → tables r ≡ ok db'
      → Writes host db db'
  tables-quiet db r db' each =
      tables-ok (Writes host db) r db' (λ value out h. quiet host db out (each value out h))

  direct : (db out db' : Db) → IsQuiet db out → ok out ≡ ok db' → Writes host db db'
  direct db out db' still_there h =
      subst (Writes host db) (ok-injective out db' h) (quiet host db out still_there)

  run_command-Writes :
      (c : Command) (db db' : Db) → run_command host c db ≡ ok db' → Writes host db db'
  unfolding run_command
  run_command-Writes (create q draft now) db db' =
      tables-ok (Writes host db) _ db' (create_draft-Writes host q draft now db)
  run_command-Writes (store_contract q contract expected event_type status now later) db db' =
      tables-ok (Writes host db) _ db'
        (store_contract_version-Writes host q contract expected event_type status now later db)
  run_command-Writes (store_plan q plan expected now later seen) db db' =
      tables-ok (Writes host db) _ db'
        (store_plan_version-Writes host q plan expected now later seen db)
  run_command-Writes (decide q decision now) db db' =
      tables-ok (Writes host db) _ db' (apply_decision-Writes host q decision now db)
  run_command-Writes (append q event_type patch expected schema now) db db' =
      unfold append_event in
      tables-ok (Writes host db) _ db' (appended q event_type patch expected schema now db)
  run_command-Writes (append_all q events version) db db' =
      tables-ok (Writes host db) _ db' (append_each-Writes host q events version db)
  run_command-Writes (checkpoint q) db db' = tables-ok (Writes host db) _ db' (saved q db)
  run_command-Writes (prepare request) db db' =
      tables-quiet db _ db' (prepare_action-IsQuiet request db)
  run_command-Writes (dispatch id) db db' =
      tables-quiet db _ db' (mark_action_dispatched-IsQuiet id db)
  run_command-Writes (commit id result) db db' =
      tables-quiet db _ db' (commit_action-IsQuiet id result db)
  run_command-Writes (commit_with_event id result observation now) db db' =
      tables-ok (Writes host db) _ db'
        (commit_action_with_event-Writes host id result observation now db)
  run_command-Writes (fail id error) db db' =
      tables-quiet db _ db' (fail_action-IsQuiet id error db)
  run_command-Writes (unknown id error) db db' =
      tables-quiet db _ db' (mark_action_unknown-IsQuiet id error db)
  run_command-Writes interrupt db db' =
      unfold mark_dispatched_actions_unknown in direct db _ db' (refl, refl, refl)
  run_command-Writes (acquire q owner ttl now) db db' =
      tables-quiet db _ db' (acquire_lease-IsQuiet q owner ttl now db)
  run_command-Writes (renew q owner ttl now) db db' =
      tables-quiet db _ db' (renew_lease-IsQuiet q owner ttl now db)
  run_command-Writes (release q owner) db db' =
      unfold release_lease in direct db _ db' (refl, refl, refl)
  run_command-Writes (acquire_resource key q owner ttl now) db db' =
      tables-quiet db _ db' (acquire_resource_lease-IsQuiet key q owner ttl now db)
  run_command-Writes (release_resource key q owner) db db' =
      unfold release_resource_lease in direct db _ db' (refl, refl, refl)
  run_command-Writes clear_leases db db' =
      unfold clear_runtime_leases_on_startup in direct db _ db' (refl, refl, refl)
  run_command-Writes (admit q owner ttl expected admitted_at now stamp) db db' =
      tables-ok (Writes host db) _ db'
        (admit_execution-Writes host q owner ttl expected admitted_at now stamp db)

  kept_or-IsSound :
      (r : Result Db) (db : Db)
      → ((db' : Db) → r ≡ ok db' → Writes host db db')
      → IsSound host db
      → IsSound host (kept_or r db)
  kept_or-IsSound (ok db') db writes s = Writes-IsSound host db db' (writes db' refl) s
  kept_or-IsSound (err raised) db writes s = s

  run_commands-IsSound :
      (cs : List Command) (db : Db) → IsSound host db → IsSound host (run_commands host cs db)
  unfolding run_commands
  run_commands-IsSound [] db s = s
  run_commands-IsSound (c ∷ cs) db s =
      run_commands-IsSound cs (kept_or (run_command host c db) db)
        (kept_or-IsSound (run_command host c db) db (run_command-Writes c db) s)

  empty_db-IsSound : IsSound host empty_db
  unfolding find_quest
  empty_db-IsSound = record { known = λ q row found. cc; fresh = λ q missing. (refl, tt) }

  require_quest-found :
      (q : String) (db : Db) (state : Fields)
      → require_quest q db ≡ ok state
      → (row : QuestRow) × (find_quest q db.quests ≡ some row) × (row.state ≡ state)
  unfolding require_quest
  require_quest-found q db state h = elim (Option-cases (find_quest q db.quests)) [
    | inl missing ↦ absurd (ground (arith, missing))
    | inr (row, found) ↦ (row, found, ground (arith, found))
  ]

  -- After any calls from the empty database, in any order, with every refused one rolled back, the
  -- state that `require_quest` returns for a quest is what `replay` computes from its events, from
  -- the first event and from its latest checkpoint alike.
  pub require_quest-replay :
      (cs : List Command) (q : String) (state : Fields)
      → require_quest q (run_commands host cs empty_db) ≡ ok state
      → (replay host q false (run_commands host cs empty_db) ≡ ok state)
        × (replay host q true (run_commands host cs empty_db) ≡ ok state)
  require_quest-replay cs q state h =
      let db = run_commands host cs empty_db in
      let (row, found, same) = require_quest-found q db state h in
      let inv = (run_commands-IsSound cs empty_db empty_db-IsSound).known q row found in
      (replay_full host q row db inv ∙ ap ok same, replay_suffix host q row db inv ∙ ap ok same)
