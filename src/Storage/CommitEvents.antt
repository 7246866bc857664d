-- ===== src/Storage/CommitEvents.antt =====
-- A commit of a receipt keeps the event log and the projection of its quest in step.
use mathlib.Core.Path.{subst}
use project_town.Base.{
  ℕ, ◌+◌, String, ◌≡◌, refl, sym, ap, ◌∙◌, ◌⊎◌, inl, inr, Option, some, [], ◌∷◌, ◌++◌,
}
use project_town.Base.Result.{ok}
use project_town.Runtime.Json.{Fields}
use project_town.Storage.Db.{Db, Host, QuestRow, EventRow, ActionRow, committed, Observation}
use project_town.Storage.Events.{event_schema_version, write_event}
use project_town.Storage.Actions.{
  replace_action, committed_row, receipt_patch, commit_action_with_event,
}
use project_town.Storage.Consistent.{
  IsReplayable, Appended, projected, append_locked-Appended, append_locked-IsReplayable,
}
use project_town.Storage.Commits.{
  Committed, Outcome, repeated, fresh, commit_action_with_event-Outcome, observe-frame,
}

-- The invariant speaks of the quests, the events and the checkpoints alone.
pub IsReplayable-frame :
    (host : Host) (q : String) (row : QuestRow) (db db' : Db)
    → db'.quests ≡ db.quests
    → db'.events ≡ db.events
    → db'.checkpoints ≡ db.checkpoints
    → IsReplayable host q row db
    → IsReplayable host q row db'
IsReplayable-frame host q row db db' quests events checkpoints inv = record {
  found = rw quests inv.found;
  named = inv.named;
  history = rw events inv.history;
  restarts = rw (events, checkpoints) inv.restarts;
}

Appended-event :
    (host : Host) (q event_type : String) (patch : Fields) (expected schema : ℕ) (now : String)
    (row : QuestRow) (db : Db) (e : EventRow) (db' : Db)
    → Appended host q event_type patch expected now row db e db'
    → (db'.events ≡ db.events ++ e ∷ []) × (e.event_type ≡ event_type)
unfolding write_event
Appended-event host q event_type patch expected schema now row db e db' a = (
  ap (λ (d : Db). d.events) a.db_written ∙ ap (λ x. db.events ++ x ∷ []) (sym a.event_written),
  ap (λ (x : EventRow). x.event_type) a.event_written,
)

-- What a fresh commit adds: one version, and one `ToolCommitted` event that the receipt links to.
pub record IsRecorded (host : Host) (row : QuestRow) (db : Db) (out : ActionRow) (db' : Db)
    : Type 0 where
  pub row' : QuestRow
  pub event : EventRow
  pub replayable : IsReplayable host out.action_quest row' db'
  pub moved : row'.state_version ≡ row.state_version + 1
  pub logged : db'.events ≡ db.events ++ event ∷ []
  pub kind : event.event_type ≡ "ToolCommitted"
  pub linked : out.committed_event ≡ some event.event_id
  pub status : out.action_status ≡ committed

Committed-IsRecorded :
    (host : Host) (result : Fields) (o : Option Observation) (now : String) (q : QuestRow)
    (row : ActionRow) (db : Db) (out : ActionRow) (db' : Db)
    → IsReplayable host out.action_quest q db
    → Committed host row result o now db out db'
    → IsRecorded host q db out db'
Committed-IsRecorded host result o now q row db out db' inv c =
    let same : out.action_quest ≡ row.action_quest =
      ap (λ (x : ActionRow). x.action_quest) c.linked in
    let first : Db = record db {
      actions = replace_action (committed_row host row result row.committed_event) db.actions;
    } in
    let before =
      IsReplayable-frame host row.action_quest q db first refl refl refl
        (subst (λ k. IsReplayable host k q db) same inv) in
    let (state, current, after) =
      append_locked-IsReplayable host row.action_quest "ToolCommitted"
        (receipt_patch host row result) c.version event_schema_version now q first c.receipt
        c.second before c.appended in
    let written =
      append_locked-Appended host row.action_quest "ToolCommitted" (receipt_patch host row result)
        c.version event_schema_version now q first c.receipt c.second before.found c.appended in
    let log =
      Appended-event host row.action_quest "ToolCommitted" (receipt_patch host row result) c.version
        event_schema_version now q first c.receipt c.second written in
    let frame =
      observe-frame host o row c.receipt.event_id
        (record c.second {
          actions =
              replace_action (committed_row host row result (some c.receipt.event_id))
                c.second.actions;
        })
        db' c.observed in
    record {
      row' = projected host q state now;
      event = c.receipt;
      replayable =
          subst (λ k. IsReplayable host k (projected host q state now) db') (sym same)
            (IsReplayable-frame host row.action_quest (projected host q state now) c.second db'
              frame.2 frame.1 frame.3 after);
      moved = refl;
      logged = frame.1 ∙ log.0;
      kind = log.1;
      linked = ap (λ (x : ActionRow). x.committed_event) c.linked;
      status = ap (λ (x : ActionRow). x.action_status) c.linked;
    }

-- On a database whose quest keeps the replay invariant, a call of `commit_action_with_event` that
-- returns either repeats an earlier commit and changes nothing, or keeps the invariant, moves the
-- projection on by one version, and logs one `ToolCommitted` event that the committed receipt links.
pub commit_action_with_event-IsRecorded :
    (host : Host) (id : String) (result : Fields) (o : Option Observation) (now : String)
    (row : QuestRow) (db : Db) (out : ActionRow) (db' : Db)
    → IsReplayable host out.action_quest row db
    → commit_action_with_event host id result o now db ≡ ok (out, db')
    → (db' ≡ db) ⊎ IsRecorded host row db out db'
commit_action_with_event-IsRecorded host id result o now row db out db' inv h =
    settle (commit_action_with_event-Outcome host id result o now db out db' h)
  where
    settle : Outcome host id result o now db out db' → (db' ≡ db) ⊎ IsRecorded host row db out db'
    settle (repeated found done stored kept equal linked same) = inl same
    settle (fresh action found allowed c) =
        inr (Committed-IsRecorded host result o now row action db out db' inv c)
