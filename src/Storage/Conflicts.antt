-- ===== src/Storage/Conflicts.antt =====
-- Optimistic concurrency: what a stale `expected_state_version` and other quests see.
use project_town.Base.{
  ℕ, String, ◌≡◌, ◌≢◌, sym, ◌∙◌, some, List, [], ◌∷◌, filter, filter-append, All, arith, eq_iff,
}
use mathlib.Core.Path.{subst}
use mathlib.Core.List.{append-nil}
use project_town.Base.Result.{ok, err, value_error, state_version_conflict}
use project_town.Runtime.Json.{Fields}
use project_town.Storage.Db.{Db, Host, QuestRow, EventRow, Checkpoint}
use project_town.Storage.Events.{
  event_schema_version, find_quest, selects, write_event, append_row, append_locked,
}
use project_town.Storage.Follows.{find_quest-update_quest_ne}
use project_town.Storage.Consistent.{
  IsReplayable, Restarts, projected, append_locked-Appended, append_locked-IsReplayable,
}

module _ (host : Host) where
  open host use {stable_hash}

  -- An append whose expected version is not the row's is refused.
  stale_refused :
      (q event_type : String) (patch : Fields) (expected : ℕ) (now : String) (row : QuestRow)
      (db : Db)
      → find_quest q db.quests ≡ some row
      → row.state_version ≢ expected
      → append_locked host q event_type patch expected event_schema_version now db
        ≡ err (value_error state_version_conflict)
  unfolding append_locked append_row
  stale_refused q event_type patch expected now row db found stale = rw found (ground arith)

  -- Of two appends prepared for the same version of a quest that keeps the invariant, the second is
  -- refused once the first is accepted, whatever it wants to write.
  pub second_append_refused :
      (q t1 t2 : String) (p1 p2 : Fields) (expected : ℕ) (n1 n2 : String) (row : QuestRow) (db : Db)
      (e : EventRow) (db' : Db)
      → IsReplayable host q row db
      → append_locked host q t1 p1 expected event_schema_version n1 db ≡ ok (e, db')
      → append_locked host q t2 p2 expected event_schema_version n2 db'
        ≡ err (value_error state_version_conflict)
  second_append_refused q t1 t2 p1 p2 expected n1 n2 row db e db' inv first =
      let (state, current, inv') =
        append_locked-IsReplayable host q t1 p1 expected event_schema_version n1 row db e db' inv
          first in
      stale_refused q t2 p2 expected n2 (projected host row state n1) db' inv'.found
        (omega (arith, current))

  pub filter-write_event_ne :
      (j event_type : String) (patch : Fields) (now : String) (row : QuestRow) (state : Fields)
      (db : Db) (v : ℕ)
      → row.quest_id ≢ j
      → filter (selects j v) (write_event host row event_type patch now state db).1.events
        ≡ filter (selects j v) db.events
  unfolding write_event selects
  filter-write_event_ne j event_type patch now row state db v ne =
      filter-append (selects j v) db.events
        ((write_event host row event_type patch now state db).0 ∷ [])
      ∙ ground (arith, eq_iff row.quest_id j, append-nil (filter (selects j v) db.events))

  Restarts-write_event_ne :
      (j event_type : String) (patch : Fields) (now : String) (row other : QuestRow)
      (state : Fields) (db : Db) (cs : List Checkpoint)
      → row.quest_id ≢ j
      → All (Restarts host j other db.events) cs
      → All (Restarts host j other (write_event host row event_type patch now state db).1.events) cs
  Restarts-write_event_ne j event_type patch now row other state db [] ne h = tt
  Restarts-write_event_ne j event_type patch now row other state db (c ∷ cs) ne h = (
    λ mine.
        let (hash, le, run) = h.0 mine in
        (hash, le, rw (filter-write_event_ne j event_type patch now row state db c.version ne) run),
    Restarts-write_event_ne j event_type patch now row other state db cs ne h.1,
  )

  -- An append to one quest that is accepted leaves the projection and the invariant of every other
  -- quest as they were, where both keep the invariant.
  pub append_locked-IsReplayable_ne :
      (q j event_type : String) (patch : Fields) (expected schema : ℕ) (now : String)
      (row other : QuestRow) (db : Db) (e : EventRow) (db' : Db)
      → IsReplayable host q row db
      → IsReplayable host j other db
      → q ≢ j
      → append_locked host q event_type patch expected schema now db ≡ ok (e, db')
      → IsReplayable host j other db'
  append_locked-IsReplayable_ne q j event_type patch expected schema now row other db e db' inv that
        ne h =
      let a =
        append_locked-Appended host q event_type patch expected schema now row db e db' inv.found
          h in
      let apart : row.quest_id ≢ j = λ same. ne (sym inv.named ∙ same) in
      subst (IsReplayable host j other) (sym a.db_written) (record {
        found =
            unfold write_event in
            find_quest-update_quest_ne j row.state_version (projected host row a.state now)
              db.quests apart
            ∙ that.found;
        named = that.named;
        history =
            rw (filter-write_event_ne j event_type patch now row a.state db 0 apart) that.history;
        restarts =
            unfold write_event in
            Restarts-write_event_ne j event_type patch now row other a.state db db.checkpoints apart
              that.restarts;
      })
