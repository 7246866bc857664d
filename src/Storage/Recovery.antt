-- ===== src/Storage/Recovery.antt =====
-- What the event log promises: a replay rebuilds the projection, from the start or from a checkpoint.
use mathlib.Core.Path.{subst}
use project_town.Base.{
  ℕ, suc, ◌+◌, String, ◌≡◌, sym, ap, ◌∙◌, inl, inr, true, false, none, some, List, [], ◌∷◌, length,
  filter, All, arith, leb, ◌==◌, eq_iff, eq_refl, Bool-cases, Option-cases,
}
use project_town.Base.Result.{ok, ◌>>=◌, >>=-eq-ok}
use project_town.Runtime.Json.{Fields, end}
use project_town.Storage.Db.{Db, Host, QuestRow, EventRow, Checkpoint}
use project_town.Storage.Events.{
  event_schema_version, selects, list_events, append_locked, append_each,
}
use project_town.Storage.Replay.{latest, has_checkpoint, replay, validate_checkpoint}
use project_town.Storage.Follows.{order-Follows, replay_rows-Follows}
use project_town.Storage.Consistent.{IsReplayable, Restarts, projected, append_locked-IsReplayable}

-- The checkpoint that the query finds is one of the quest's in the table.
latest-of :
    (P : Checkpoint → Type 0) (q : String) (cs : List Checkpoint) (c : Checkpoint)
    → All P cs
    → latest q cs ≡ some c
    → P c × (c.checkpoint_quest ≡ q)
unfolding latest
latest-of P q [] c h e = cc
latest-of P q (d ∷ cs) c h e = elim (Bool-cases (d.checkpoint_quest == q)) [
  | inl mine ↦ elim (Option-cases (latest q cs)) [
    | inl alone ↦
        let same : d ≡ c = ground (arith, mine, alone) in
        rw (← same) (h.0, (eq_iff d.checkpoint_quest q).0 mine)
    | inr (x, found) ↦ elim (Bool-cases (leb x.version d.version)) [
      | inl first ↦
          let same : d ≡ c = ground (arith, mine, found, first) in
          rw (← same) (h.0, (eq_iff d.checkpoint_quest q).0 mine)
      | inr second ↦
          let same : x ≡ c = ground (arith, mine, found, second) in
          latest-of P q cs c h.1 (found ∙ ap some same)
    ]
  ]
  | inr other ↦ latest-of P q cs c h.1 (ground (arith, other))
]

module _ (host : Host) where
  open host use {stable_hash}

  -- In a database that keeps the invariant, a full replay of a quest rebuilds its projection.
  pub replay_full :
      (q : String) (row : QuestRow) (db : Db)
      → IsReplayable host q row db
      → replay host q false db ≡ ok row.state
  unfolding replay list_events
  replay_full q row db inv =
      rw
        (order-Follows host row.state row.state_version end 0 (filter (selects q 0) db.events)
          inv.history)
        (replay_rows-Follows host row.state row.state_version end 0 (filter (selects q 0) db.events)
          inv.history)

  -- In a database that keeps the invariant, a replay of a quest from its latest checkpoint rebuilds
  -- its projection.
  pub replay_suffix :
      (q : String) (row : QuestRow) (db : Db)
      → IsReplayable host q row db
      → replay host q true db ≡ ok row.state
  unfolding replay list_events
  replay_suffix q row db inv = elim (Option-cases (latest q db.checkpoints)) [
    | inl absent ↦ rw absent (unfold replay list_events in replay_full q row db inv)
    | inr (c, found) ↦
        let (valid, mine) =
          latest-of (Restarts host q row db.events) q db.checkpoints c inv.restarts found in
        let run = (valid mine).2 in
        rw found (
          rw
            (order-Follows host row.state row.state_version c.saved c.version
              (filter (selects q c.version) db.events) run)
            (replay_rows-Follows host row.state row.state_version c.saved c.version
              (filter (selects q c.version) db.events) run))
  ]

  pub validate_checkpoint-has_checkpoint :
      (q : String) (row : QuestRow) (db : Db)
      → IsReplayable host q row db
      → validate_checkpoint host q none db ≡ ok (has_checkpoint q db)
  unfolding validate_checkpoint has_checkpoint
  validate_checkpoint-has_checkpoint q row db inv = elim (Option-cases (latest q db.checkpoints)) [
    | inl absent ↦ rw absent
    | inr (c, found) ↦
        let (valid, mine) =
          latest-of (Restarts host q row db.events) q db.checkpoints c inv.restarts found in
        rw (
          found,
          (valid mine).0,
          eq_refl,
          replay_full q row db inv,
          replay_suffix q row db inv,
          inv.found,
          eq_refl,
        )
  ]

  -- On a quest that keeps the invariant, a group of events appended at its version that commits
  -- advances the version by the number of its events, keeps the invariant, and returns one event
  -- for each.
  pub append_each-IsReplayable :
      (q : String) (events : List (String × Fields × String)) (version : ℕ) (row : QuestRow)
      (db : Db) (es : List EventRow) (db' : Db)
      → IsReplayable host q row db
      → row.state_version ≡ version
      → append_each host q events version db ≡ ok (es, db')
      → (row' : QuestRow) × IsReplayable host q row' db'
        × (row'.state_version ≡ version + length events)
        × (length es ≡ length events)
  unfolding append_each
  append_each-IsReplayable q [] version row db es db' inv v h =
      let same : db ≡ db' = cc h in
      let none_left : [] ≡ es = cc h in
      (row, subst (IsReplayable host q row) same inv, omega (arith, v), sym (ap length none_left))
  append_each-IsReplayable q ((event_type, patch, now) ∷ events) version row db es db' inv v h =
      let ((e, db1), first, rest) =
        >>=-eq-ok (append_locked host q event_type patch version event_schema_version now db)
          (λ (e, db1).
            append_each host q events (version + 1) db1 >>= λ (es, db2). ok (e ∷ es, db2))
          h in
      let ((fs, db2), second, last) =
        >>=-eq-ok (append_each host q events (version + 1) db1) (λ (es, db2). ok (e ∷ es, db2))
          rest in
      let (state, current, inv') =
        append_locked-IsReplayable host q event_type patch version event_schema_version now row db e
          db1 inv first in
      let moved : row.state_version + 1 ≡ version + 1 = omega (arith, current) in
      let (row', inv2, v2, count) =
        append_each-IsReplayable q events (version + 1) (projected host row state now) db1 fs db2
          inv' moved second in
      let same : db2 ≡ db' = cc last in
      let listed : e ∷ fs ≡ es = cc last in
      (
        row',
        subst (IsReplayable host q row') same inv2,
        omega (arith, v2),
        subst (λ (l : List EventRow). length l ≡ suc (length events)) listed (ap suc count),
      )
