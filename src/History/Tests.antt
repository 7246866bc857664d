-- ===== src/History/Tests.antt =====
-- The theorems of the whole database at a quest that is drafted, planned and checkpointed.
use project_town.Base.{◌≡◌, refl, true, false, none, some, List, [], ◌∷◌}
use project_town.Base.Result.{Result, ok, err}
use project_town.Runtime.Json.{Fields, str, end, field, get}
use project_town.Storage.Db.{Db}
use project_town.Storage.Tests.{host}
use project_town.Storage.Replay.{replay, save_checkpoint}
use project_town.Runtime.Reducer.{apply}
use project_town.Storage.Events.{append_event}
use project_town.Drafts.Create.{Draft, create_draft, require_quest}
use project_town.Drafts.Tests.{plan}
use project_town.History.Drafted.{IsDrafted, create_draft-require_quest}
use project_town.History.Commands.{Command, create, append, checkpoint, run_commands, empty_db}
use project_town.History.Histories.{require_quest-replay}

abbrev pub draft : Draft
draft = record {
  goal_contract = field "goal" (str "write the report") end;
  draft_plan = plan;
  workspace = none;
  route = none;
  draft_status = "draft";
}

abbrev calls : List Command
calls =
    create "q" draft "t0"
    ∷ checkpoint "q"
    ∷ append "q" "QuestPlanned" (field "status" (str "planned") end) 1 1 "t1"
    ∷ append "q" "QuestPlanned" (field "status" (str "running") end) 1 1 "t2"
    ∷ []

abbrev value_of : Result Fields → Fields
value_of (ok state) = state
value_of (err raised) = end

abbrev pub final : Db
final = run_commands host calls empty_db

abbrev final_state : Fields
final_state = value_of (require_quest "q" final)

reached : require_quest "q" final ≡ ok final_state
unfolding require_quest run_commands create_draft append_event save_checkpoint apply
reached = refl

planned : get "status" final_state ≡ some (str "planned")
unfolding require_quest run_commands create_draft append_event save_checkpoint apply get
planned = refl

require_quest-replay_example :
    (replay host "q" false final ≡ ok final_state) × (replay host "q" true final ≡ ok final_state)
require_quest-replay_example = require_quest-replay host calls "q" final_state reached

abbrev drafted_db : Result (Fields × Db)
drafted_db = create_draft host "q" draft "t0" empty_db

abbrev state_of : Result (Fields × Db) → Fields × Db
state_of (ok out) = out
state_of (err raised) = (end, empty_db)

drafted : create_draft host "q" draft "t0" empty_db ≡ ok (state_of drafted_db)
unfolding create_draft apply
drafted = refl

create_draft-require_quest_example :
    (require_quest "q" (state_of drafted_db).1 ≡ ok (state_of drafted_db).0)
    × IsDrafted host draft (state_of drafted_db).0
create_draft-require_quest_example =
    create_draft-require_quest host "q" draft "t0" empty_db (state_of drafted_db).0
      (state_of drafted_db).1 drafted
