-- ===== src/Storage/Commits.antt =====
-- `commit_action_with_event`: what a commit that returned has done to the tables.
use mathlib.Core.Path.{subst}
use mathlib.Core.Bool.{false≢true}
use project_town.Base.{
  ℕ, String, ◌≡◌, ◌≢◌, refl, sym, ap, ◌∙◌, inl, inr, true, Option, none, some, arith, is_some, ◌==◌,
  eq_iff, Bool-cases, Option-cases,
}
use project_town.Base.Result.{ok, ◌>>=◌, >>=-eq-ok}
use project_town.Runtime.Json.{Fields, obj}
use project_town.Storage.Db.{Db, Host, EventRow, ActionRow, ReceiptStatus, committed, Observation}
use project_town.Storage.Events.{event_schema_version, find_quest, append_locked}
use project_town.Storage.Actions.{
  same_status, find_action, replace_action, committable, receipt_patch, observe, version_of,
  committed_row, commit_row, commit_action_with_event,
}
use project_town.Storage.Receipts.{
  permitted, Evolves, Evolution, Evolution-eq, find_action-replace_action_self,
  find_action-replace_action_ne, find_action-id, append_locked-frame, insert_observation-frame,
}

module _ (host : Host) where
  open host use {dumps}

  -- The intermediate tables of `commit_action_with_event`.
  pub record Committed (row : ActionRow) (result : Fields) (observation : Option Observation)
      (now : String) (db : Db) (out : ActionRow) (db' : Db) : Type 0 where
    pub version : ℕ
    pub receipt : EventRow
    pub second : Db
    pub appended :
        append_locked host row.action_quest "ToolCommitted"
          (receipt_patch host row result)
          version
          event_schema_version
          now
          (record db {
            actions = replace_action (committed_row host row result row.committed_event) db.actions;
          })
        ≡ ok (receipt, second)
    pub linked : out ≡ committed_row host row result (some receipt.event_id)
    pub observed :
        observe host observation row receipt.event_id (record second {
          actions =
              replace_action (committed_row host row result (some receipt.event_id)) second.actions;
        })
        ≡ ok db'

  pub commit_row-Committed :
      (row : ActionRow) (result : Fields) (observation : Option Observation) (now : String)
      (db : Db) (out : ActionRow) (db' : Db)
      → commit_row host row result observation now db ≡ ok (out, db')
      → Committed row result observation now db out db'
  unfolding commit_row
  commit_row-Committed row result observation now db out db' h =
      let first : Db = record db {
        actions = replace_action (committed_row host row result row.committed_event) db.actions;
      } in
      let (version, _, rest) =
        >>=-eq-ok (version_of host (find_quest row.action_quest db.quests))
          (λ version.
            append_locked host row.action_quest "ToolCommitted" (receipt_patch host row result)
              version event_schema_version now first
            >>= λ (e, second).
                observe host observation row e.event_id (record second {
                  actions =
                      replace_action (committed_row host row result (some e.event_id))
                        second.actions;
                })
                >>= λ third. ok (committed_row host row result (some e.event_id), third))
          h in
      let ((e, second), appended, rest2) =
        >>=-eq-ok
          (append_locked host row.action_quest "ToolCommitted" (receipt_patch host row result)
            version event_schema_version now first)
          (λ (e, second).
            observe host observation row e.event_id (record second {
              actions =
                  replace_action (committed_row host row result (some e.event_id)) second.actions;
            })
            >>= λ third. ok (committed_row host row result (some e.event_id), third))
          rest in
      let (third, observed, last) =
        >>=-eq-ok
          (observe host observation row e.event_id (record second {
            actions =
                replace_action (committed_row host row result (some e.event_id)) second.actions;
          }))
          (λ third. ok (committed_row host row result (some e.event_id), third)) rest2 in
      let same : third ≡ db' = cc last in
      record {
        version = version;
        receipt = e;
        second = second;
        appended = appended;
        linked = cc last;
        observed = observed ∙ ap ok same;
      }

  pub observe-frame :
      (o : Option Observation) (row : ActionRow) (event_id : ℕ) (db db' : Db)
      → observe host o row event_id db ≡ ok db'
      → (db'.actions ≡ db.actions)
        × (db'.events ≡ db.events)
        × (db'.quests ≡ db.quests)
        × (db'.checkpoints ≡ db.checkpoints)
  observe-frame none row event_id db db' h =
      let same : db ≡ db' = cc h in
      (
        ap (λ (d : Db). d.actions) (sym same),
        ap (λ (d : Db). d.events) (sym same),
        ap (λ (d : Db). d.quests) (sym same),
        ap (λ (d : Db). d.checkpoints) (sym same),
      )
  observe-frame (some o) row event_id db db' h =
      insert_observation-frame o row.action_id row.action_quest event_id db db' h

  -- The table of actions after a commit: the row is replaced twice.
  actions-Committed :
      (row : ActionRow) (result : Fields) (observation : Option Observation) (now : String)
      (db : Db) (out : ActionRow) (db' : Db) (c : Committed row result observation now db out db')
      → db'.actions
        ≡ replace_action
            (committed_row host row result (some c.receipt.event_id))
            (replace_action (committed_row host row result row.committed_event) db.actions)
  actions-Committed row result observation now db out db' c =
      let frame =
        observe-frame observation row c.receipt.event_id
          (record c.second {
            actions =
                replace_action (committed_row host row result (some c.receipt.event_id))
                  c.second.actions;
          })
          db' c.observed in
      let kept =
        append_locked-frame host row.action_quest "ToolCommitted" (receipt_patch host row result)
          c.version event_schema_version now
          (record db {
            actions = replace_action (committed_row host row result row.committed_event) db.actions;
          })
          c.receipt c.second c.appended in
      frame.0 ∙ ap (replace_action (committed_row host row result (some c.receipt.event_id))) kept.0

  -- The row that a commit returns is the row of the table.
  pub find_action-Committed :
      (id : String) (row : ActionRow) (result : Fields) (observation : Option Observation)
      (now : String) (db : Db) (out : ActionRow) (db' : Db)
      → find_action id db.actions ≡ some row
      → Committed row result observation now db out db'
      → find_action id db'.actions ≡ some out
  find_action-Committed id row result observation now db out db' found c =
      let named = find_action-id id row db.actions found in
      let first =
        find_action-replace_action_self id row (committed_row host row result row.committed_event)
          db.actions found named in
      let both =
        find_action-replace_action_self id (committed_row host row result row.committed_event)
          (committed_row host row result (some c.receipt.event_id))
          (replace_action (committed_row host row result row.committed_event) db.actions) first
          named in
      ap (find_action id) (actions-Committed row result observation now db out db' c)
      ∙ both
      ∙ ap some (sym c.linked)

  Evolution-Committed :
      (id : String) (row : ActionRow) (result : Fields) (observation : Option Observation)
      (now : String) (db : Db) (out : ActionRow) (db' : Db)
      → find_action id db.actions ≡ some row
      → permitted row.action_status committed ≡ true
      → Committed row result observation now db out db'
      → Evolution db.actions db'.actions
  Evolution-Committed id row result observation now db out db' found allowed c a r h =
      let named = find_action-id id row db.actions found in
      let first = committed_row host row result row.committed_event in
      let second = committed_row host row result (some c.receipt.event_id) in
      elim (Bool-cases (id == a)) [
        | inl same ↦
            let at : id ≡ a = (eq_iff id a).0 same in
            let is_row : row ≡ r = ground (arith, found, h, at) in
            (
              out,
              ap (λ k. find_action k db'.actions) (sym at)
                  ∙ find_action-Committed id row result observation now db out db' found c,
              subst (λ x. Evolves x out) is_row
                  (subst (Evolves row) (sym c.linked) (record {
                    id = refl;
                    quest = refl;
                    key = refl;
                    tool = refl;
                    hash = refl;
                    moved = inr allowed;
                  })),
            )
        | inr other ↦
            let apart : id ≢ a = λ e. false≢true (sym other ∙ (eq_iff id a).1 e) in
            let once =
              find_action-replace_action_ne a first db.actions (λ e. apart (sym named ∙ e)) in
            let twice =
              find_action-replace_action_ne a second (replace_action first db.actions)
                (λ e. apart (sym named ∙ e)) in
            (
              r,
              ap (find_action a) (actions-Committed row result observation now db out db' c)
                  ∙ twice
                  ∙ once
                  ∙ h,
              record {
                id = refl;
                quest = refl;
                key = refl;
                tool = refl;
                hash = refl;
                moved = inl refl;
              },
            )
      ]

  committable-permitted : (s : ReceiptStatus) → committable s ≡ true → permitted s committed ≡ true
  committable-permitted s h = ground arith

  -- What a call of `commit_action_with_event` that returned was: a repetition, which changed nothing,
  -- or a commit of a dispatched or unknown effect.
  pub data Outcome (id : String) (result : Fields) (observation : Option Observation) (now : String)
      (db : Db) (out : ActionRow) (db' : Db) : Type 0 where
    repeated :
        find_action id db.actions ≡ some out
        → out.action_status ≡ committed
        → (stored : Fields) → out.result ≡ some stored
        → (dumps (obj stored) == dumps (obj result)) ≡ true
        → is_some out.committed_event ≡ true
        → db' ≡ db
        → Outcome id result observation now db out db'
    fresh :
        (row : ActionRow)
        → find_action id db.actions ≡ some row
        → committable row.action_status ≡ true
        → Committed row result observation now db out db'
        → Outcome id result observation now db out db'

  same_status-eq : (a b : ReceiptStatus) → same_status a b ≡ true → a ≡ b
  same_status-eq a b h = ground arith

  pub commit_action_with_event-Outcome :
      (id : String) (result : Fields) (observation : Option Observation) (now : String) (db : Db)
      (out : ActionRow) (db' : Db)
      → commit_action_with_event host id result observation now db ≡ ok (out, db')
      → Outcome id result observation now db out db'
  unfolding commit_action_with_event
  commit_action_with_event-Outcome id result observation now db out db' h =
      elim (Option-cases (find_action id db.actions)) [
        | inl absent ↦ absurd (ground (arith, absent))
        | inr (row, found) ↦ elim (Bool-cases (same_status row.action_status committed)) [
          | inl done ↦ elim (Option-cases row.result) [
            | inl missing ↦ absurd (ground (arith, found, done, missing))
            | inr (stored, kept) ↦
                let same : row ≡ out = ground (arith, found, done, kept) in
                repeated (found ∙ ap some same)
                  (subst (λ (x : ActionRow). x.action_status ≡ committed) same
                    (same_status-eq row.action_status committed done))
                  stored (subst (λ (x : ActionRow). x.result ≡ some stored) same kept)
                  (ground (arith, found, done, kept))
                  (subst (λ (x : ActionRow). is_some x.committed_event ≡ true) same
                    (ground (arith, found, done, kept)))
                  (ground (arith, found, done, kept))
          ]
          | inr open_still ↦ elim (Bool-cases (committable row.action_status)) [
            | inl allowed ↦ fresh row found allowed (
                commit_row-Committed row result observation now db out db'
                  (ground (arith, found, open_still, allowed)))
            | inr refused ↦ absurd (ground (arith, found, open_still, refused))
          ]
        ]
      ]

  pub Evolution-Outcome :
      (id : String) (result : Fields) (observation : Option Observation) (now : String) (db : Db)
      (out : ActionRow) (db' : Db)
      → Outcome id result observation now db out db'
      → Evolution db.actions db'.actions
  Evolution-Outcome id result observation now db out db'
        (repeated found done stored kept equal linked same) =
      Evolution-eq db.actions db'.actions (ap (λ (d : Db). d.actions) (sym same))
  Evolution-Outcome id result observation now db out db' (fresh row found allowed c) =
      Evolution-Committed id row result observation now db out db' found
        (committable-permitted row.action_status allowed) c
