-- ===== src/History/Sound.antt =====
-- Every way of writing keeps the invariant of the whole database.
use mathlib.Core.Path.{subst}
use project_town.Base.{
  ℕ, String, ◌≡◌, ◌≢◌, refl, sym, ap, ◌∙◌, inl, inr, false, Option, none, some, List, [], ◌∷◌, ◌++◌,
  filter, All, All-append, All-map, arith, ◌==◌, eq_iff, Bool-cases, Option-cases, some-injective,
  is_some, if◌then◌else◌,
}
use project_town.Base.Result.{ok, ok-injective}
use project_town.Runtime.Json.{Fields, end}
use project_town.Storage.Db.{Db, Host, QuestRow, EventRow, Checkpoint}
use project_town.Storage.Events.{find_quest, selects, append_locked, append_row, write_event}
use project_town.Storage.Replay.{save_checkpoint, checkpoint_at, inserted}
use project_town.Storage.Follows.{Follows, find_quest-update_quest_ne}
use project_town.Storage.Consistent.{
  IsReplayable, Restarts, projected, append_locked-Appended, append_locked-IsReplayable,
}
use project_town.Storage.Conflicts.{filter-write_event_ne, append_locked-IsReplayable_ne}
use project_town.Storage.CommitEvents.{IsReplayable-frame}
use project_town.Storage.Saving.{save_checkpoint_valid, saved_of, after_save}
use project_town.History.Writes.{Writes, beside, created, appended, saved, chain, IsSound}

pub find_quest-append :
    (q : String) (new : QuestRow) (rows : List QuestRow)
    → find_quest q (rows ++ new ∷ []) ≡ (
        if is_some (find_quest q rows)
        then find_quest q rows
        else if new.quest_id == q
        then some new
        else none)
unfolding find_quest
find_quest-append q new [] = refl
find_quest-append q new (r ∷ rows) = ground (arith, find_quest-append q new rows)

apart : (s t : String) → (s == t) ≡ false → s ≢ t
apart s t h e = ground (arith, h, eq_iff s t)

none≢some : (row : QuestRow) → none ≢ some row
none≢some row e = cc

module _ (host : Host) where
  append_locked-found :
      (q event_type : String) (patch : Fields) (expected schema : ℕ) (now : String) (db : Db)
      (e : EventRow) (db' : Db)
      → append_locked host q event_type patch expected schema now db ≡ ok (e, db')
      → (row : QuestRow) × (find_quest q db.quests ≡ some row)
  unfolding append_locked append_row
  append_locked-found q event_type patch expected schema now db e db' h =
      elim (Option-cases (find_quest q db.quests)) [
        | inl missing ↦ absurd (ground (arith, missing))
        | inr found ↦ found
      ]

  beside-IsSound :
      (db db' : Db)
      → db'.quests ≡ db.quests
      → db'.events ≡ db.events
      → db'.checkpoints ≡ db.checkpoints
      → IsSound host db
      → IsSound host db'
  beside-IsSound db db' quests events checkpoints s = record {
    known = λ q row found.
        IsReplayable-frame host q row db db' quests events checkpoints
          (s.known q row (sym (ap (find_quest q) quests) ∙ found));
    fresh = λ q missing.
        let (none_logged, none_saved) = s.fresh q (sym (ap (find_quest q) quests) ∙ missing) in
        (ap (filter (selects q 0)) events ∙ none_logged, rw checkpoints none_saved);
  }

  appended-IsSound :
      (q event_type : String) (patch : Fields) (expected schema : ℕ) (now : String) (db : Db)
      (e : EventRow) (db' : Db)
      → append_locked host q event_type patch expected schema now db ≡ ok (e, db')
      → IsSound host db
      → IsSound host db'
  appended-IsSound q event_type patch expected schema now db e db' h s =
      let (row, found) = append_locked-found q event_type patch expected schema now db e db' h in
      let inv = s.known q row found in
      let (state, _, inv') =
        append_locked-IsReplayable host q event_type patch expected schema now row db e db' inv h in
      let a =
        append_locked-Appended host q event_type patch expected schema now row db e db' found h in
      let elsewhere : (j : String) → (q == j) ≡ false → row.quest_id ≢ j =
        λ j differ e. apart q j differ (sym inv.named ∙ e) in
      let kept : (j : String)
          → (q == j) ≡ false
          → find_quest j db'.quests ≡ find_quest j db.quests =
        λ j differ.
          ap (λ (d : Db). find_quest j d.quests) a.db_written
          ∙ (unfold write_event in
              find_quest-update_quest_ne j row.state_version (projected host row a.state now)
                db.quests (elsewhere j differ)) in
      record {
        known = λ j other at. elim (Bool-cases (q == j)) [
          | inl same ↦
              let here : q ≡ j = (eq_iff q j).0 same in
              let now_at =
                some-injective (projected host row state now) other
                  (sym inv'.found ∙ ap (λ k. find_quest k db'.quests) here ∙ at) in
              subst (λ k. IsReplayable host k other db') here
                (subst (λ (r : QuestRow). IsReplayable host q r db') now_at inv')
          | inr differ ↦
              append_locked-IsReplayable_ne host q j event_type patch expected schema now row other
                db e db' inv (s.known j other (sym (kept j differ) ∙ at)) (apart q j differ) h
        ];
        fresh = λ j missing. elim (Bool-cases (q == j)) [
          | inl same ↦
              let here : q ≡ j = (eq_iff q j).0 same in
              absurd (
                none≢some (projected host row state now)
                  (sym missing ∙ sym (ap (λ k. find_quest k db'.quests) here) ∙ inv'.found))
          | inr differ ↦
              let (none_logged, none_saved) = s.fresh j (sym (kept j differ) ∙ missing) in
              (
                ap (λ (d : Db). filter (selects j 0) d.events) a.db_written
                    ∙ filter-write_event_ne host j event_type patch now row a.state db 0
                        (elsewhere j differ)
                    ∙ none_logged,
                subst (All (λ c. c.checkpoint_quest ≢ j))
                    (sym (ap (λ (d : Db). d.checkpoints) a.db_written))
                    (unfold write_event in none_saved),
              )
        ];
      }

  created-IsSound :
      (new : QuestRow) (db db' : Db)
      → find_quest new.quest_id db.quests ≡ none
      → new.state ≡ end
      → new.state_version ≡ 0
      → db'.quests ≡ db.quests ++ new ∷ []
      → db'.events ≡ db.events
      → db'.checkpoints ≡ db.checkpoints
      → IsSound host db
      → IsSound host db'
  created-IsSound new db db' absent empty zero_version quests events checkpoints s =
      let looked : (q : String) → find_quest q db'.quests ≡ find_quest q (db.quests ++ new ∷ []) =
        λ q. ap (find_quest q) quests in
      let started : (q : String) → new.quest_id ≡ q → IsReplayable host q new db' = λ q here.
        let missing : find_quest q db.quests ≡ none =
          subst (λ k. find_quest k db.quests ≡ none) here absent in
        let (none_logged, none_saved) = s.fresh q missing in
        record {
          found =
              looked q
              ∙ ground
                  (arith, find_quest-append q new db.quests, missing, eq_iff new.quest_id q, here);
          named = here;
          history =
              subst (λ (es : List EventRow). Follows host end 0 es new.state new.state_version)
                (sym (ap (filter (selects q 0)) events ∙ none_logged))
                (sym empty, sym zero_version);
          restarts = subst (All (Restarts host q new db'.events)) (sym checkpoints) (
              All-map (λ c. c.checkpoint_quest ≢ q) (Restarts host q new db'.events) db.checkpoints
                (λ c ne mine. absurd (ne mine)) none_saved);
        } in
      record {
        known = λ q row found. elim (Bool-cases (new.quest_id == q)) [
          | inl same ↦
              let here = (eq_iff new.quest_id q).0 same in
              let inv = started q here in
              subst (λ (r : QuestRow). IsReplayable host q r db')
                (some-injective new row (sym inv.found ∙ found)) inv
          | inr differ ↦
              let inv =
                s.known q row
                  (ground (arith, differ, looked q, found, find_quest-append q new db.quests)) in
              record {
                found = found;
                named = inv.named;
                history = rw events inv.history;
                restarts = rw (events, checkpoints) inv.restarts;
              }
        ];
        fresh = λ q missing.
            let (none_logged, none_saved) =
              s.fresh q (ground (arith, looked q, missing, find_quest-append q new db.quests)) in
            (ap (filter (selects q 0)) events ∙ none_logged, rw checkpoints none_saved);
      }

  save_checkpoint-found :
      (q : String) (db : Db) (c : Checkpoint) (db' : Db)
      → save_checkpoint host q db ≡ ok (c, db')
      → (row : QuestRow) × (find_quest q db.quests ≡ some row)
  unfolding save_checkpoint
  save_checkpoint-found q db c db' h = elim (Option-cases (find_quest q db.quests)) [
    | inl missing ↦ absurd (ground (arith, missing))
    | inr found ↦ found
  ]

  Restarts-inserted_ne :
      (q j : String) (row other : QuestRow) (events : List EventRow) (cs : List Checkpoint)
      (found : Option Checkpoint)
      → row.quest_id ≢ j
      → All (Restarts host j other events) cs
      → All (Restarts host j other events) (inserted host found (saved_of host row) cs)
  Restarts-inserted_ne q j row other events cs none ne all =
      All-append (Restarts host j other events) cs (saved_of host row ∷ []) all
        (λ mine. absurd (ne mine), tt)
  Restarts-inserted_ne q j row other events cs (some c) ne all = all

  unsaved-inserted :
      (j : String) (row : QuestRow) (cs : List Checkpoint) (found : Option Checkpoint)
      → row.quest_id ≢ j
      → All (λ c. c.checkpoint_quest ≢ j) cs
      → All (λ c. c.checkpoint_quest ≢ j) (inserted host found (saved_of host row) cs)
  unsaved-inserted j row cs none ne all =
      All-append (λ c. c.checkpoint_quest ≢ j) cs (saved_of host row ∷ []) all (ne, tt)
  unsaved-inserted j row cs (some c) ne all = all

  after_save-IsSound :
      (q : String) (row : QuestRow) (db : Db)
      → find_quest q db.quests ≡ some row
      → IsSound host db
      → IsSound host (after_save host q row db)
  after_save-IsSound q row db found s =
      let inv = s.known q row found in
      let existing = checkpoint_at q row.state_version db.checkpoints in
      record {
        known = λ j other at. elim (Bool-cases (q == j)) [
          | inl same ↦
              let here : q ≡ j = (eq_iff q j).0 same in
              let this =
                some-injective row other (sym found ∙ ap (λ k. find_quest k db.quests) here ∙ at) in
              subst (λ k. IsReplayable host k other (after_save host q row db)) here
                (subst (λ (r : QuestRow). IsReplayable host q r (after_save host q row db)) this
                  (save_checkpoint_valid host q row db inv).1)
          | inr differ ↦
              let that = s.known j other at in
              record {
                found = at;
                named = that.named;
                history = that.history;
                restarts =
                    Restarts-inserted_ne q j row other db.events db.checkpoints existing
                      (λ e. apart q j differ (sym inv.named ∙ e)) that.restarts;
              }
        ];
        fresh = λ j missing.
            let (none_logged, none_saved) = s.fresh j missing in
            (
              none_logged,
              unsaved-inserted j row db.checkpoints existing
                  (λ e. none≢some row (
                    sym missing
                    ∙ sym (ap (λ k. find_quest k db.quests) (sym inv.named ∙ e))
                    ∙ found))
                  none_saved,
            );
      }

  saved-IsSound :
      (q : String) (db : Db) (c : Checkpoint) (db' : Db)
      → save_checkpoint host q db ≡ ok (c, db')
      → IsSound host db
      → IsSound host db'
  saved-IsSound q db c db' h s =
      let (row, found) = save_checkpoint-found q db c db' h in
      let valid = save_checkpoint_valid host q row db (s.known q row found) in
      let same : (saved_of host row, after_save host q row db) ≡ (c, db') =
        ok-injective (saved_of host row, after_save host q row db) (c, db') (sym valid.0 ∙ h) in
      subst (λ (x : Checkpoint × Db). IsSound host x.1) same (after_save-IsSound q row db found s)

  -- What one of the ways of writing, or several in turn, make of a sound database is sound.
  pub Writes-IsSound : (db db' : Db) → Writes host db db' → IsSound host db → IsSound host db'
  Writes-IsSound _ _ (beside db db' quests events checkpoints) s =
      beside-IsSound db db' quests events checkpoints s
  Writes-IsSound _ _ (created new db db' absent empty version quests events checkpoints) s =
      created-IsSound new db db' absent empty version quests events checkpoints s
  Writes-IsSound _ _ (appended q event_type patch expected schema now db e db' h) s =
      appended-IsSound q event_type patch expected schema now db e db' h s
  Writes-IsSound _ _ (saved q db c db' h) s = saved-IsSound q db c db' h s
  Writes-IsSound _ _ (chain a b c first second) s =
      Writes-IsSound b c second (Writes-IsSound a b first s)
