-- ===== src/Storage/Saving.antt =====
-- `save_checkpoint` on a database that keeps the invariant.
use mathlib.Core.Path.{subst}
use project_town.Base.{
  ℕ, String, ◌≡◌, refl, sym, ap, ◌∙◌, inl, inr, true, ◌&&◌, Option, none, some, List, [], ◌∷◌, ◌++◌,
  filter, All, All-append, arith, nat_eq, is_some, ◌==◌, eq_iff, eq_refl, Bool-cases, Option-cases,
}
use project_town.Base.Result.{ok}
use project_town.Runtime.Json.{Fields, obj, end}
use project_town.Storage.Db.{Db, Host, QuestRow, EventRow, Checkpoint}
use project_town.Storage.Events.{selects}
use project_town.Storage.Replay.{
  latest, has_checkpoint, checkpoint_at, inserted, save_checkpoint, validate_checkpoint,
}
use project_town.Storage.Follows.{Follows, Follows-bounded, selects_beyond}
use project_town.Storage.Consistent.{IsReplayable, Restarts}
use project_town.Storage.Recovery.{validate_checkpoint-has_checkpoint}

checkpoint_at-of :
    (P : Checkpoint → Type 0) (q : String) (v : ℕ) (cs : List Checkpoint) (c : Checkpoint)
    → All P cs
    → checkpoint_at q v cs ≡ some c
    → P c × (c.checkpoint_quest ≡ q) × (c.version ≡ v)
unfolding checkpoint_at
checkpoint_at-of P q v [] c h e = cc
checkpoint_at-of P q v (d ∷ cs) c h e =
    elim (Bool-cases (d.checkpoint_quest == q && nat_eq d.version v)) [
      | inl mine ↦
          let same : d ≡ c = ground (arith, mine) in
          subst (λ x. P x × (x.checkpoint_quest ≡ q) × (x.version ≡ v)) same
            (h.0, ground (arith, mine, eq_iff d.checkpoint_quest q), ground (arith, mine))
      | inr other ↦ checkpoint_at-of P q v cs c h.1 (ground (arith, other))
    ]

-- A checkpoint of the quest in the table makes the query find one.
latest-append :
    (q : String) (cs : List Checkpoint) (c : Checkpoint)
    → c.checkpoint_quest ≡ q
    → is_some (latest q (cs ++ c ∷ [])) ≡ true
unfolding latest
latest-append q [] c h = ground (arith, eq_iff c.checkpoint_quest q)
latest-append q (d ∷ cs) c h = ground (arith, latest-append q cs c h)

latest-checkpoint_at :
    (q : String) (v : ℕ) (cs : List Checkpoint) (c : Checkpoint)
    → checkpoint_at q v cs ≡ some c
    → is_some (latest q cs) ≡ true
unfolding latest checkpoint_at
latest-checkpoint_at q v [] c h = cc
latest-checkpoint_at q v (d ∷ cs) c h = ground (arith, latest-checkpoint_at q v cs c)

module _ (host : Host) where
  open host use {stable_hash}

  abbrev pub saved_of : QuestRow → Checkpoint
  saved_of row = record {
    checkpoint_quest = row.quest_id;
    version = row.state_version;
    saved = row.state;
    saved_hash = stable_hash (obj row.state);
  }

  abbrev pub after_save : String → QuestRow → Db → Db
  after_save q row db = record db {
    checkpoints =
        inserted host (checkpoint_at q row.state_version db.checkpoints) (saved_of row)
          db.checkpoints;
  }

  -- The checkpoint of the current projection restarts from it, with no event left.
  saved_of-Restarts :
      (q : String) (row : QuestRow) (db : Db)
      → IsReplayable host q row db
      → Restarts host q row db.events (saved_of row)
  saved_of-Restarts q row db inv mine =
      let bound =
        Follows-bounded host row.state row.state_version end 0 (filter (selects q 0) db.events)
          inv.history in
      (refl, omega arith, rw (selects_beyond q row.state_version db.events bound.1) (refl, refl))

  -- A checkpoint that is already there for this version holds the same state.
  existing_agrees :
      (q : String) (row : QuestRow) (db : Db) (c : Checkpoint)
      → IsReplayable host q row db
      → checkpoint_at q row.state_version db.checkpoints ≡ some c
      → stable_hash (obj row.state) ≡ c.saved_hash
  existing_agrees q row db c inv found =
      let (valid, mine, at) =
        checkpoint_at-of (Restarts host q row db.events) q row.state_version db.checkpoints c
          inv.restarts found in
      let bound =
        Follows-bounded host row.state row.state_version end 0 (filter (selects q 0) db.events)
          inv.history in
      let empty : filter (selects q c.version) db.events ≡ [] =
        rw at (selects_beyond q row.state_version db.events bound.1) in
      let run : Follows host c.saved c.version [] row.state row.state_version =
        subst
          (λ (es : List EventRow). Follows host c.saved c.version es row.state row.state_version)
          empty (valid mine).2 in
      ap (λ (s : Fields). stable_hash (obj s)) (sym run.0) ∙ (valid mine).0

  -- `save_checkpoint` never meets a conflict.
  save_checkpoint-total :
      (q : String) (row : QuestRow) (db : Db)
      → IsReplayable host q row db
      → save_checkpoint host q db ≡ ok (saved_of row, after_save q row db)
  unfolding save_checkpoint
  save_checkpoint-total q row db inv =
      elim (Option-cases (checkpoint_at q row.state_version db.checkpoints)) [
        | inl absent ↦ rw (inv.found, inv.named, absent)
        | inr (c, found) ↦
            rw (inv.found, inv.named, found, existing_agrees q row db c inv found, eq_refl)
      ]

  Restarts-inserted :
      (q : String) (row : QuestRow) (db : Db) (found : Option Checkpoint)
      → IsReplayable host q row db
      → All (Restarts host q row db.events) (inserted host found (saved_of row) db.checkpoints)
  Restarts-inserted q row db none inv =
      All-append (Restarts host q row db.events) db.checkpoints (saved_of row ∷ []) inv.restarts
        (saved_of-Restarts q row db inv, tt)
  Restarts-inserted q row db (some c) inv = inv.restarts

  is_some-after_save :
      (q : String) (row : QuestRow) (cs : List Checkpoint) (found : Option Checkpoint)
      → row.quest_id ≡ q
      → checkpoint_at q row.state_version cs ≡ found
      → is_some (latest q (inserted host found (saved_of row) cs)) ≡ true
  is_some-after_save q row cs none named e = latest-append q cs (saved_of row) named
  is_some-after_save q row cs (some c) named e = latest-checkpoint_at q row.state_version cs c e

  after_save-IsReplayable :
      (q : String) (row : QuestRow) (db : Db)
      → IsReplayable host q row db
      → IsReplayable host q row (after_save q row db)
  after_save-IsReplayable q row db inv = record {
    found = inv.found;
    named = inv.named;
    history = inv.history;
    restarts = Restarts-inserted q row db (checkpoint_at q row.state_version db.checkpoints) inv;
  }

  -- On a database that keeps the invariant, saving a checkpoint returns, keeps the invariant, changes
  -- no table but the checkpoints, and leaves a checkpoint that `validate_checkpoint` accepts.
  pub save_checkpoint_valid :
      (q : String) (row : QuestRow) (db : Db)
      → IsReplayable host q row db
      → (save_checkpoint host q db ≡ ok (saved_of row, after_save q row db))
        × IsReplayable host q row (after_save q row db)
        × (validate_checkpoint host q none (after_save q row db) ≡ ok true)
  save_checkpoint_valid q row db inv =
      let kept = after_save-IsReplayable q row db inv in
      (
        save_checkpoint-total q row db inv,
        kept,
        validate_checkpoint-has_checkpoint host q row (after_save q row db) kept
            ∙ ap ok (
                unfold has_checkpoint in
                is_some-after_save q row db.checkpoints
                  (checkpoint_at q row.state_version db.checkpoints) inv.named refl),
      )
