-- ===== src/History/Commands.antt =====
-- The calls of backend/app/v1/storage.py that write quests, plans, events, checkpoints, receipts and
-- leases, as one machine. A call that raises has rolled back, and the caller goes on.
use project_town.Base.{ℕ, String, Option, List, [], ◌∷◌}
use project_town.Base.Result.{Result, ok, err}
use project_town.Runtime.Json.{Fields}
use project_town.Storage.Db.{Db, Host, Observation}
use project_town.Storage.Events.{append_event, append_each}
use project_town.Storage.Replay.{save_checkpoint}
use project_town.Storage.Actions.{
  ActionRequest, prepare_action, mark_action_dispatched, commit_action, fail_action,
  mark_action_unknown, mark_dispatched_actions_unknown, commit_action_with_event,
}
use project_town.Storage.Leases.{
  acquire_lease, renew_lease, release_lease, acquire_resource_lease, release_resource_lease,
  clear_runtime_leases_on_startup, admit_execution,
}
use project_town.Drafts.Create.{Draft, create_draft, store_contract_version}
use project_town.Drafts.Decisions.{store_plan_version}
use project_town.Drafts.Apply.{Decision, apply_decision}

pub data Command : Type 0 where
  create : String → Draft → String → Command
  store_contract : String → Fields → ℕ → String → String → String → String → Command
  store_plan : String → Fields → ℕ → String → String → Db → Command
  decide : String → Decision → String → Command
  append : String → String → Fields → ℕ → ℕ → String → Command
  append_all : String → List (String × Fields × String) → ℕ → Command
  checkpoint : String → Command
  prepare : ActionRequest → Command
  dispatch : String → Command
  commit : String → Fields → Command
  commit_with_event : String → Fields → Option Observation → String → Command
  fail : String → Fields → Command
  unknown : String → Option Fields → Command
  interrupt : Command
  acquire : String → String → ℕ → ℕ → Command
  renew : String → String → ℕ → ℕ → Command
  release : String → String → Command
  acquire_resource : String → String → String → ℕ → ℕ → Command
  release_resource : String → String → String → Command
  clear_leases : Command
  admit : String → String → ℕ → ℕ → String → ℕ → String → Command

-- The tables that a call leaves.
abbrev pub tables {ℓ} : {A : Type ℓ} → Result (A × Db) → Result Db
tables (ok (value, db)) = ok db
tables (err raised) = err raised

unfoldable pub run_command : Host → Command → Db → Result Db
run_command host (create q draft now) db = tables (create_draft host q draft now db)
run_command host (store_contract q contract expected event_type status now later) db =
    tables (store_contract_version host q contract expected event_type status now later db)
run_command host (store_plan q plan expected now later seen) db =
    tables (store_plan_version host q plan expected now later seen db)
run_command host (decide q decision now) db = tables (apply_decision host q decision now db)
run_command host (append q event_type patch expected schema now) db =
    tables (append_event host q event_type patch expected schema now db)
run_command host (append_all q events version) db = tables (append_each host q events version db)
run_command host (checkpoint q) db = tables (save_checkpoint host q db)
run_command host (prepare request) db = tables (prepare_action request db)
run_command host (dispatch id) db = tables (mark_action_dispatched id db)
run_command host (commit id result) db = tables (commit_action id result db)
run_command host (commit_with_event id result observation now) db =
    tables (commit_action_with_event host id result observation now db)
run_command host (fail id error) db = tables (fail_action id error db)
run_command host (unknown id error) db = tables (mark_action_unknown id error db)
run_command host interrupt db = ok (mark_dispatched_actions_unknown db).1
run_command host (acquire q owner ttl now) db = tables (acquire_lease q owner ttl now db)
run_command host (renew q owner ttl now) db = tables (renew_lease q owner ttl now db)
run_command host (release q owner) db = tables (release_lease q owner db)
run_command host (acquire_resource key q owner ttl now) db =
    tables (acquire_resource_lease key q owner ttl now db)
run_command host (release_resource key q owner) db = tables (release_resource_lease key q owner db)
run_command host clear_leases db = tables (clear_runtime_leases_on_startup db)
run_command host (admit q owner ttl expected admitted_at now stamp) db =
    tables (admit_execution host q owner ttl expected admitted_at now stamp db)

abbrev pub kept_or : Result Db → Db → Db
kept_or (ok db') db = db'
kept_or (err raised) db = db

unfoldable pub run_commands : Host → List Command → Db → Db
unfolding run_command
run_commands host [] db = db
run_commands host (c ∷ cs) db = run_commands host cs (kept_or (run_command host c db) db)

-- The database after the migrations
abbrev pub empty_db : Db
empty_db = record {
  quests = [];
  events = [];
  last_event_id = 0;
  checkpoints = [];
  actions = [];
  observations = [];
  leases = [];
  resource_leases = [];
  contracts = [];
  plans = [];
  plan_milestones = [];
  plan_dependencies = [];
  decisions = [];
}
