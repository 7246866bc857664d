-- ===== src/Storage/Replay.antt =====
-- `replay`, `save_checkpoint`, `validate_checkpoint` and `has_checkpoint` of
-- backend/app/v1/storage.py.
use project_town.Base.{
  ℕ, String, Bool, true, false, not, ◌&&◌, Option, none, some, List, [], ◌∷◌, ◌++◌, find, leb,
  nat_eq, is_some, ◌==◌, if◌then◌else◌,
}
use project_town.Base.Result.{
  Result, ok, err, key_error, value_error, unknown_event_schema, replay_checksum,
  checkpoint_conflict, ◌>>=◌,
}
use project_town.Runtime.Json.{Fields, obj, end}
use project_town.Runtime.Reducer.{event, apply}
use project_town.Storage.Db.{Db, Host, QuestRow, EventRow, Checkpoint, Transaction}
use project_town.Storage.Events.{event_schema_version, find_quest, list_events}

abbrev newer : Checkpoint → Option Checkpoint → Option Checkpoint
newer c none = some c
newer c (some d) = if leb d.version c.version then some c else some d

-- `SELECT * FROM v1_checkpoints WHERE quest_id = ? ORDER BY state_version DESC LIMIT 1`
unfoldable pub latest : String → List Checkpoint → Option Checkpoint
latest q [] = none
latest q (c ∷ cs) = let rest = latest q cs in if c.checkpoint_quest == q then newer c rest else rest

-- `has_checkpoint`
unfoldable pub has_checkpoint : String → Db → Bool
unfolding latest
has_checkpoint q db = is_some (latest q db.checkpoints)

-- `SELECT … FROM v1_checkpoints WHERE quest_id = ? AND state_version = ?`
unfoldable pub checkpoint_at : String → ℕ → List Checkpoint → Option Checkpoint
checkpoint_at q v cs = find (λ c. c.checkpoint_quest == q && nat_eq c.version v) cs

-- Where `replay` starts.
abbrev pub start_of : Option Checkpoint → Fields × ℕ
start_of none = (end, 0)
start_of (some c) = (c.saved, c.version)

abbrev chosen : String → Option ℕ → Db → Option Checkpoint
chosen q none db = latest q db.checkpoints
chosen q (some v) db = checkpoint_at q v db.checkpoints

module _ (host : Host) where
  open host use {stable_hash}

  -- The loop of `replay`.
  unfoldable pub replay_rows : Fields → List EventRow → Result Fields
  replay_rows state [] = ok state
  replay_rows state (e ∷ es) =
      if nat_eq e.schema_version event_schema_version
      then (do
        next ← apply (some state) (event e.event_type e.payload)
        if stable_hash (obj next) == e.state_hash
            then replay_rows next es
            else err (value_error replay_checksum))
      else err (value_error unknown_event_schema)

  -- `replay`
  unfoldable pub replay : String → Bool → Db → Result Fields
  unfolding replay_rows latest
  replay q from_checkpoint db =
      let (initial, start) = start_of (if from_checkpoint then latest q db.checkpoints else none) in
      replay_rows initial (list_events q start db)

  abbrev conflicts : Option Checkpoint → String → Bool
  conflicts none hash = false
  conflicts (some c) hash = not (c.saved_hash == hash)

  -- `INSERT OR IGNORE INTO v1_checkpoints`
  abbrev pub inserted : Option Checkpoint → Checkpoint → List Checkpoint → List Checkpoint
  inserted none c cs = cs ++ c ∷ []
  inserted (some existing) c cs = cs

  -- `save_checkpoint`, from the projection row that it read.
  unfoldable pub save_row : QuestRow → Transaction Checkpoint
  unfolding checkpoint_at
  save_row row db =
      let c : Checkpoint = record {
        checkpoint_quest = row.quest_id;
        version = row.state_version;
        saved = row.state;
        saved_hash = stable_hash (obj row.state);
      } in
      let existing = checkpoint_at row.quest_id row.state_version db.checkpoints in
      if conflicts existing c.saved_hash
      then err (value_error checkpoint_conflict)
      else ok (c, record db { checkpoints = inserted existing c db.checkpoints })

  abbrev save_found : Option QuestRow → String → Transaction Checkpoint
  save_found none q db = err (key_error q)
  save_found (some row) q db = save_row row db

  -- `save_checkpoint`
  unfoldable pub save_checkpoint : String → Transaction Checkpoint
  unfolding save_row find_quest
  save_checkpoint q db = save_found (find_quest q db.quests) q db

  abbrev matches : Fields → Fields → Option QuestRow → Bool
  matches full suffix none = false
  matches full suffix (some row) =
      (stable_hash (obj full) == stable_hash (obj suffix))
      && (stable_hash (obj suffix) == stable_hash (obj row.state))

  -- The end of `validate_checkpoint`: it catches a `ValueError` of either replay and nothing else.
  abbrev agree : Result Fields → Result Fields → Option QuestRow → Result Bool
  agree (ok full) (ok suffix) current = ok (matches full suffix current)
  agree (ok full) (err (value_error m)) current = ok false
  agree (ok full) (err e) current = err e
  agree (err (value_error m)) suffix current = ok false
  agree (err e) suffix current = err e

  abbrev validate_found : Option Checkpoint → String → Db → Result Bool
  validate_found none q db = ok false
  validate_found (some c) q db =
      if stable_hash (obj c.saved) == c.saved_hash
      then agree (replay q false db) (replay q true db) (find_quest q db.quests)
      else ok false

  -- `validate_checkpoint`
  unfoldable pub validate_checkpoint : String → Option ℕ → Db → Result Bool
  unfolding replay latest checkpoint_at find_quest
  validate_checkpoint q version db = validate_found (chosen q version db) q db
