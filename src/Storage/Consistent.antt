-- ===== src/Storage/Consistent.antt =====
-- The invariant that ties the projection of a quest to its events and checkpoints, and how
-- `_append_locked` and `save_checkpoint` keep it.
use project_town.Base.{
  ℕ, ◌+◌, ◌≤◌, String, ◌≡◌, refl, ◌∙◌, inl, inr, true, some, List, [], ◌∷◌, ◌++◌, filter,
  filter-append, All, arith, nat_eq, eq_iff, Bool-cases,
}
use project_town.Base.Result.{ok, >>=-eq-ok}
use project_town.Runtime.Json.{Fields, obj, end, get}
use project_town.Runtime.Reducer.{event, apply}
use project_town.Storage.Db.{Db, Host, QuestRow, EventRow, Checkpoint}
use project_town.Storage.Events.{
  event_schema_version, find_quest, selects, write_event, append_row, append_locked, payload_json,
  status_text,
}
use project_town.Storage.Follows.{Follows, Follows-append, find_quest-update_quest_self}

module _ (host : Host) where
  open host use {stable_hash}

  -- From a checkpoint the later events of the quest lead to the projection.
  abbrev pub Restarts : String → QuestRow → List EventRow → Checkpoint → Type 0
  Restarts q row events c =
      c.checkpoint_quest ≡ q
      → (stable_hash (obj c.saved) ≡ c.saved_hash)
        × (c.version ≤ row.state_version)
        × Follows host c.saved c.version (filter (selects q c.version) events) row.state
            row.state_version

  pub record IsReplayable (q : String) (row : QuestRow) (db : Db) : Type 0 where
    pub found : find_quest q db.quests ≡ some row
    pub named : row.quest_id ≡ q
    pub history : Follows host end 0 (filter (selects q 0) db.events) row.state row.state_version
    pub restarts : All (Restarts q row db.events) db.checkpoints

  -- The projection row that `_append_locked` writes.
  abbrev pub projected : QuestRow → Fields → String → QuestRow
  projected row state now = record {
    quest_id = row.quest_id;
    state = state;
    state_version = row.state_version + 1;
    status = status_text host (get "status" state);
    updated_at = now;
  }

  pub record Appended (q event_type : String) (patch : Fields) (expected : ℕ) (now : String)
      (row : QuestRow) (db : Db) (e : EventRow) (db' : Db) : Type 0 where
    pub state : Fields
    pub current : row.state_version ≡ expected
    pub applied :
        apply (some row.state) (event event_type (payload_json host patch (expected + 1) now))
        ≡ ok state
    pub event_written : e ≡ (write_event host row event_type patch now state db).0
    pub db_written : db' ≡ (write_event host row event_type patch now state db).1

  append_row-Appended :
      (q event_type : String) (patch : Fields) (expected : ℕ) (now : String) (row : QuestRow)
      (db : Db) (e : EventRow) (db' : Db)
      → append_row host (some row) q event_type patch expected now db ≡ ok (e, db')
      → Appended q event_type patch expected now row db e db'
  unfolding append_row
  append_row-Appended q event_type patch expected now row db e db' h =
      elim (Bool-cases (nat_eq row.state_version expected)) [
        | inl same ↦
            let (state, applied, wrote) =
              >>=-eq-ok
                (apply (some row.state)
                  (event event_type (payload_json host patch (expected + 1) now)))
                (λ state. ok (write_event host row event_type patch now state db)) (rw same at h) in
            record {
              state = state;
              current = ground (arith, same);
              applied = applied;
              event_written = cc wrote;
              db_written = cc wrote;
            }
        | inr other ↦ absurd (ground (arith, other))
      ]

  -- What a call that returned has done, from the row that it found.
  pub append_locked-Appended :
      (q event_type : String) (patch : Fields) (expected schema : ℕ) (now : String) (row : QuestRow)
      (db : Db) (e : EventRow) (db' : Db)
      → find_quest q db.quests ≡ some row
      → append_locked host q event_type patch expected schema now db ≡ ok (e, db')
      → Appended q event_type patch expected now row db e db'
  unfolding append_locked
  append_locked-Appended q event_type patch expected schema now row db e db' found h =
      append_row-Appended q event_type patch expected now row db e db'
        (elim (Bool-cases (nat_eq schema event_schema_version)) [
          | inl same ↦ rw found at (rw same at h)
          | inr other ↦ absurd (ground (arith, other))
        ])

  -- The event that `_append_locked` writes is selected by every query of its quest that ends before.
  selects-write_event :
      (q event_type : String) (patch : Fields) (now : String) (row : QuestRow) (state : Fields)
      (db : Db) (v : ℕ)
      → row.quest_id ≡ q
      → v ≤ row.state_version
      → selects q v (write_event host row event_type patch now state db).0 ≡ true
  unfolding selects write_event
  selects-write_event q event_type patch now row state db v named h =
      ground (arith, eq_iff row.quest_id q)

  pub filter-write_event :
      (q event_type : String) (patch : Fields) (now : String) (row : QuestRow) (state : Fields)
      (db : Db) (v : ℕ)
      → row.quest_id ≡ q
      → v ≤ row.state_version
      → filter (selects q v) (write_event host row event_type patch now state db).1.events
        ≡ filter (selects q v) db.events
          ++ (write_event host row event_type patch now state db).0 ∷ []
  unfolding write_event
  filter-write_event q event_type patch now row state db v named h =
      filter-append (selects q v) db.events
        ((write_event host row event_type patch now state db).0 ∷ [])
      ∙ rw (selects-write_event q event_type patch now row state db v named h)

  -- One more event leads one step further.
  Follows-write_event :
      (event_type : String) (patch : Fields) (now : String) (row : QuestRow) (state : Fields)
      (db : Db)
      → apply
          (some row.state)
          (event event_type (payload_json host patch (row.state_version + 1) now))
        ≡ ok state
      → Follows host row.state row.state_version
          ((write_event host row event_type patch now state db).0 ∷ [])
          state
          (row.state_version + 1)
  unfolding write_event
  Follows-write_event event_type patch now row state db h =
      (state, refl, refl, h, refl, (refl, refl))

  Follows-filter :
      (q event_type : String) (patch : Fields) (now : String) (row : QuestRow) (state : Fields)
      (db : Db) (s : Fields) (v : ℕ)
      → row.quest_id ≡ q
      → apply
          (some row.state)
          (event event_type (payload_json host patch (row.state_version + 1) now))
        ≡ ok state
      → v ≤ row.state_version
      → Follows host s v (filter (selects q v) db.events) row.state row.state_version
      → Follows host s v
          (filter (selects q v) (write_event host row event_type patch now state db).1.events)
          state
          (row.state_version + 1)
  Follows-filter q event_type patch now row state db s v named applied le h =
      rw (filter-write_event q event_type patch now row state db v named le) (
        Follows-append host row.state state row.state_version (row.state_version + 1) s v
          (filter (selects q v) db.events)
          ((write_event host row event_type patch now state db).0 ∷ []) h
          (Follows-write_event event_type patch now row state db applied))

  Restarts-write_event :
      (q event_type : String) (patch : Fields) (now : String) (row : QuestRow) (state : Fields)
      (db : Db) (cs : List Checkpoint)
      → row.quest_id ≡ q
      → apply
          (some row.state)
          (event event_type (payload_json host patch (row.state_version + 1) now))
        ≡ ok state
      → All (Restarts q row db.events) cs
      → All
          (Restarts q
            (projected row state now)
            (write_event host row event_type patch now state db).1.events)
          cs
  Restarts-write_event q event_type patch now row state db [] named applied h = tt
  Restarts-write_event q event_type patch now row state db (c ∷ cs) named applied h = (
    λ mine.
        let (hash, le, run) = h.0 mine in
        (
          hash,
          omega arith,
          Follows-filter q event_type patch now row state db c.saved c.version named applied le run,
        ),
    Restarts-write_event q event_type patch now row state db cs named applied h.1,
  )

  -- `_append_locked` keeps the invariant of its quest and moves its version on by one.
  pub append_locked-IsReplayable :
      (q event_type : String) (patch : Fields) (expected schema : ℕ) (now : String) (row : QuestRow)
      (db : Db) (e : EventRow) (db' : Db)
      → IsReplayable q row db
      → append_locked host q event_type patch expected schema now db ≡ ok (e, db')
      → (state : Fields) × (row.state_version ≡ expected)
        × IsReplayable q (projected row state now) db'
  append_locked-IsReplayable q event_type patch expected schema now row db e db' inv h =
      let a =
        append_locked-Appended q event_type patch expected schema now row db e db' inv.found h in
      let applied : apply (some row.state)
            (event event_type (payload_json host patch (row.state_version + 1) now))
          ≡ ok a.state =
        rw a.current a.applied in
      (
        a.state,
        a.current,
        rw a.db_written (record {
          found =
              unfold write_event in
              find_quest-update_quest_self q row (projected row a.state now) db.quests inv.found
                inv.named;
          named = inv.named;
          history =
              Follows-filter q event_type patch now row a.state db end 0 inv.named applied
                (omega arith) inv.history;
          restarts =
              unfold write_event in
              Restarts-write_event q event_type patch now row a.state db db.checkpoints inv.named
                applied inv.restarts;
        }),
      )
