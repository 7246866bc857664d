-- ===== src/Storage/Events.antt =====
-- The event log and the projection: `_append_locked`, `append_event`, `append_events`,
-- `list_events`, `replay`, `save_checkpoint` and `validate_checkpoint` of
-- backend/app/v1/storage.py.
use project_town.Base.{
  ℕ, ◌+◌, String, Bool, ◌&&◌, Option, none, some, List, [], ◌∷◌, ◌++◌, filter, find, ltb, leb,
  nat_eq, ◌==◌, if◌then◌else◌,
}
use project_town.Base.Result.{
  ok, err, key_error, value_error, unknown_event_schema, state_version_conflict, ◌>>=◌,
}
use project_town.Runtime.Json.{Json, Fields, nat, str, obj, end, field, get, set}
use project_town.Runtime.Reducer.{event, apply}
use project_town.Storage.Db.{Db, Host, QuestRow, EventRow, Transaction}

-- EVENT_SCHEMA_VERSION
abbrev pub event_schema_version : ℕ
event_schema_version = 1

-- `SELECT … FROM v1_quests WHERE quest_id = ?`
unfoldable pub find_quest : String → List QuestRow → Option QuestRow
find_quest q rows = find (λ row. row.quest_id == q) rows

-- `UPDATE v1_quests SET … WHERE quest_id = ? AND state_version = ?`
unfoldable pub update_quest : QuestRow → ℕ → List QuestRow → List QuestRow
update_quest new expected [] = []
update_quest new expected (row ∷ rows) =
    (if row.quest_id == new.quest_id && nat_eq row.state_version expected then new else row)
    ∷ update_quest new expected rows

-- `SELECT * FROM v1_events WHERE quest_id = ? AND sequence > ? ORDER BY sequence`
unfoldable pub insert_by_sequence : EventRow → List EventRow → List EventRow
insert_by_sequence e [] = e ∷ []
insert_by_sequence e (x ∷ xs) =
    if leb e.sequence x.sequence then e ∷ x ∷ xs else x ∷ insert_by_sequence e xs

unfoldable pub order_by_sequence : List EventRow → List EventRow
unfolding insert_by_sequence
order_by_sequence [] = []
order_by_sequence (e ∷ es) = insert_by_sequence e (order_by_sequence es)

unfoldable pub selects : String → ℕ → EventRow → Bool
selects q after e = e.event_quest == q && ltb after e.sequence

unfoldable pub list_events : String → ℕ → Db → List EventRow
unfolding order_by_sequence selects
list_events q after db = order_by_sequence (filter (selects q after) db.events)

module _ (host : Host) where
  open host use {stable_hash, to_str}

  -- `str(new_state.get("status", "draft"))`
  abbrev pub status_text : Option Json → String
  status_text none = "draft"
  status_text (some status) = to_str status

  -- The patch with its two bookkeeping keys.
  abbrev pub stamped : Fields → ℕ → String → Fields
  stamped patch after timestamp =
      set "updated_at" (str timestamp) (set "state_version" (nat after) patch)

  abbrev pub payload_json : Fields → ℕ → String → Json
  payload_json patch after timestamp = obj (field "patch" (obj (stamped patch after timestamp)) end)

  -- The two writes of `_append_locked`.
  unfoldable pub write_event : QuestRow → String → Fields → String → Fields → Db → EventRow × Db
  unfolding update_quest
  write_event row event_type patch now state db =
      let after = row.state_version + 1 in
      let e : EventRow = record {
        event_id = db.last_event_id + 1;
        event_quest = row.quest_id;
        sequence = after;
        event_type = event_type;
        schema_version = event_schema_version;
        version_before = row.state_version;
        version_after = after;
        payload = payload_json patch after now;
        state_hash = stable_hash (obj state);
        created_at = now;
      } in
      let projected : QuestRow = record {
        quest_id = row.quest_id;
        state = state;
        state_version = after;
        status = status_text (get "status" state);
        updated_at = now;
      } in
      (
        e,
        record db {
          events = db.events ++ e ∷ [];
          last_event_id = db.last_event_id + 1;
          quests = update_quest projected row.state_version db.quests;
        },
      )

  -- `_append_locked`, from the row that the SELECT returned.
  unfoldable pub append_row :
      Option QuestRow → String → String → Fields → ℕ → String → Transaction EventRow
  unfolding write_event
  append_row none q event_type patch expected now db = err (key_error q)
  append_row (some row) q event_type patch expected now db =
      if nat_eq row.state_version expected
      then (do
        state ← apply (some row.state) (event event_type (payload_json patch (expected + 1) now))
        ok (write_event row event_type patch now state db))
      else err (value_error state_version_conflict)

  -- `_append_locked`
  unfoldable pub append_locked : String → String → Fields → ℕ → ℕ → String → Transaction EventRow
  unfolding append_row find_quest
  append_locked q event_type patch expected schema now db =
      if nat_eq schema event_schema_version
      then append_row (find_quest q db.quests) q event_type patch expected now db
      else err (value_error unknown_event_schema)

  -- `append_event`; its legacy keyword arguments are gone.
  unfoldable pub append_event : String → String → Fields → ℕ → ℕ → String → Transaction EventRow
  unfolding append_locked
  append_event q event_type patch expected schema now =
      append_locked q event_type patch expected schema now

  -- The loop of `append_events`; each event has its own reading of the clock.
  unfoldable pub append_each :
      String → List (String × Fields × String) → ℕ → Transaction (List EventRow)
  unfolding append_locked
  append_each q [] version db = ok ([], db)
  append_each q ((event_type, patch, now) ∷ events) version db = do
    (e, db') ← append_locked q event_type patch version event_schema_version now db
    (es, db'') ← append_each q events (version + 1) db'
    ok (e ∷ es, db'')
