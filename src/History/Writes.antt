-- ===== src/History/Writes.antt =====
-- The ways in which the operations of backend/app/v1/storage.py change the quests, the events and the
-- checkpoints, and the invariant of the whole database.
use project_town.Base.{ℕ, String, ◌≡◌, ◌≢◌, none, some, [], ◌∷◌, ◌++◌, filter, All}
use project_town.Base.Result.{ok}
use project_town.Runtime.Json.{Fields, end}
use project_town.Storage.Db.{Db, Host, QuestRow, EventRow, Checkpoint}
use project_town.Storage.Events.{find_quest, selects, append_locked}
use project_town.Storage.Replay.{save_checkpoint}
use project_town.Storage.Consistent.{IsReplayable}

pub data Writes (host : Host) : Db → Db → Type 0 where
  -- Other tables
  beside :
      (db db' : Db)
      → db'.quests ≡ db.quests
      → db'.events ≡ db.events
      → db'.checkpoints ≡ db.checkpoints
      → Writes host db db'
  -- A quest that is new, at version 0
  created :
      (new : QuestRow) (db db' : Db)
      → find_quest new.quest_id db.quests ≡ none
      → new.state ≡ end
      → new.state_version ≡ 0
      → db'.quests ≡ db.quests ++ new ∷ []
      → db'.events ≡ db.events
      → db'.checkpoints ≡ db.checkpoints
      → Writes host db db'
  appended :
      (q event_type : String) (patch : Fields) (expected schema : ℕ) (now : String) (db : Db)
      (e : EventRow) (db' : Db)
      → append_locked host q event_type patch expected schema now db ≡ ok (e, db')
      → Writes host db db'
  saved :
      (q : String) (db : Db) (c : Checkpoint) (db' : Db)
      → save_checkpoint host q db ≡ ok (c, db')
      → Writes host db db'
  chain : (a b c : Db) → Writes host a b → Writes host b c → Writes host a c

-- Every quest keeps the replay invariant, and what is no quest has no event and no checkpoint.
pub record IsSound (host : Host) (db : Db) : Type 0 where
  pub known :
      (q : String) (row : QuestRow) → find_quest q db.quests ≡ some row → IsReplayable host q row db
  pub fresh :
      (q : String)
      → find_quest q db.quests ≡ none
      → (filter (selects q 0) db.events ≡ []) × All (λ c. c.checkpoint_quest ≢ q) db.checkpoints
