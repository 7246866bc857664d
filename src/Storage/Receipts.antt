-- ===== src/Storage/Receipts.antt =====
-- The life of a receipt: which statuses follow which, and what no operation changes.
use mathlib.Core.Path.{subst}
use mathlib.Core.Bool.{false≢true}
use project_town.Base.{
  ℕ, String, ◌≡◌, ◌≢◌, refl, sym, ap, ◌∙◌, ◌⊎◌, inl, inr, Bool, true, false, Option, some, List, [],
  ◌∷◌, ◌++◌, arith, ◌==◌, eq_iff, Bool-cases, Option-cases,
}
use project_town.Base.Result.{ok}
use project_town.Runtime.Json.{Fields}
use project_town.Storage.Db.{
  Db, Host, EventRow, ActionRow, ReceiptStatus, prepared, dispatched, committed, failed,
  unknown_effect, Observation,
}
use project_town.Storage.Events.{find_quest, write_event, append_row, append_locked}
use project_town.Storage.Consistent.{append_locked-Appended}
use project_town.Storage.Observations.{insert_observation}
use project_town.Storage.Actions.{same_status, find_action, replace_action, transition_action}

-- The lifecycle of a receipt: prepared, then dispatched; a dispatched effect is committed, failed or
-- unknown; an unknown one may still be committed. Nothing leaves committed or failed.
abbrev pub permitted : ReceiptStatus → ReceiptStatus → Bool
permitted prepared dispatched = true
permitted prepared failed = true
permitted dispatched committed = true
permitted dispatched failed = true
permitted dispatched unknown_effect = true
permitted unknown_effect committed = true
permitted _ _ = false

-- A row and what it has become: the request that it records is the same, and the row is unchanged or
-- its status has moved along the lifecycle.
pub record Evolves (r r' : ActionRow) : Type 0 where
  pub id : r'.action_id ≡ r.action_id
  pub quest : r'.action_quest ≡ r.action_quest
  pub key : r'.idempotency_key ≡ r.idempotency_key
  pub tool : r'.tool_name ≡ r.tool_name
  pub hash : r'.arguments_hash ≡ r.arguments_hash
  pub moved : (r' ≡ r) ⊎ (permitted r.action_status r'.action_status ≡ true)

pub Evolves-refl : (r : ActionRow) → Evolves r r
Evolves-refl r = record {
  id = refl;
  quest = refl;
  key = refl;
  tool = refl;
  hash = refl;
  moved = inl refl;
}

-- In two tables every row of the first is found in the second, as it has evolved.
abbrev pub Evolution : List ActionRow → List ActionRow → Type 0
Evolution rows rows' =
    (a : String) (r : ActionRow)
    → find_action a rows ≡ some r
    → (r' : ActionRow) × (find_action a rows' ≡ some r') × Evolves r r'

pub Evolution-refl : (rows : List ActionRow) → Evolution rows rows
Evolution-refl rows a r h = (r, h, Evolves-refl r)

pub find_action-replace_action_self :
    (a : String) (row new : ActionRow) (rows : List ActionRow)
    → find_action a rows ≡ some row
    → new.action_id ≡ a
    → find_action a (replace_action new rows) ≡ some new
unfolding find_action replace_action
find_action-replace_action_self a row new [] h e = cc
find_action-replace_action_self a row new (r ∷ rows) h e = ground (
  arith,
  eq_iff r.action_id a,
  eq_iff r.action_id new.action_id,
  eq_iff new.action_id a,
  find_action-replace_action_self a row new rows,
)

pub find_action-replace_action_ne :
    (a : String) (new : ActionRow) (rows : List ActionRow)
    → new.action_id ≢ a
    → find_action a (replace_action new rows) ≡ find_action a rows
unfolding find_action replace_action
find_action-replace_action_ne a new [] h = refl
find_action-replace_action_ne a new (r ∷ rows) h = ground (
  arith,
  eq_iff r.action_id a,
  eq_iff r.action_id new.action_id,
  eq_iff new.action_id a,
  find_action-replace_action_ne a new rows h,
)

pub find_action-id :
    (a : String) (row : ActionRow) (rows : List ActionRow)
    → find_action a rows ≡ some row
    → row.action_id ≡ a
unfolding find_action
find_action-id a row [] h = cc
find_action-id a row (r ∷ rows) h = ground (arith, eq_iff r.action_id a, find_action-id a row rows)

pub find_action-append :
    (a : String) (row new : ActionRow) (rows : List ActionRow)
    → find_action a rows ≡ some row
    → find_action a (rows ++ new ∷ []) ≡ some row
unfolding find_action
find_action-append a row new [] h = cc
find_action-append a row new (r ∷ rows) h = ground (arith, find_action-append a row new rows)

-- Replacing a row by one that evolves from it is an evolution of the table.
pub Evolution-replace_action :
    (id : String) (old new : ActionRow) (rows : List ActionRow)
    → find_action id rows ≡ some old
    → old.action_id ≡ id
    → Evolves old new
    → Evolution rows (replace_action new rows)
Evolution-replace_action id old new rows here named ev a r h = elim (Bool-cases (id == a)) [
  | inl same ↦
      let at : id ≡ a = (eq_iff id a).0 same in
      let is_old : old ≡ r = ground (arith, here, h, at) in
      (
        new,
        find_action-replace_action_self a r new rows h (ev.id ∙ named ∙ at),
        subst (λ x. Evolves x new) is_old ev,
      )
  | inr other ↦ (
    r,
    find_action-replace_action_ne a new rows
          (λ e. false≢true (sym other ∙ (eq_iff id a).1 (sym named ∙ sym ev.id ∙ e)))
        ∙ h,
    Evolves-refl r,
  )
]

pub Evolution-eq : (rows rows' : List ActionRow) → rows ≡ rows' → Evolution rows rows'
Evolution-eq rows rows' e = subst (Evolution rows) e (Evolution-refl rows)

-- `_transition_action` evolves the table whenever its origins are permitted for its target.
pub transition_action-Evolution :
    (id : String) (allowed_from : ReceiptStatus → Bool) (status : ReceiptStatus)
    (result error : Option Fields) (db : Db) (row : ActionRow) (db' : Db)
    → ((s : ReceiptStatus) → allowed_from s ≡ true → permitted s status ≡ true)
    → transition_action id allowed_from status result error db ≡ ok (row, db')
    → Evolution db.actions db'.actions
unfolding transition_action
transition_action-Evolution id allowed_from status result error db row db' lawful h =
    elim (Option-cases (find_action id db.actions)) [
      | inl absent ↦ absurd (ground (arith, absent))
      | inr (old, found) ↦ elim (Bool-cases (same_status old.action_status status)) [
        | inl done ↦ Evolution-eq db.actions db'.actions (ground (arith, found, done))
        | inr apart ↦ elim (Bool-cases (allowed_from old.action_status)) [
          | inl allowed ↦
              let new : ActionRow = record old {
                action_status = status;
                result = result;
                error = error;
              } in
              let wrote : replace_action new db.actions ≡ db'.actions =
                ground (arith, found, apart, allowed) in
              subst (Evolution db.actions) wrote (
                Evolution-replace_action id old new db.actions found
                  (find_action-id id old db.actions found)
                  (record {
                    id = refl;
                    quest = refl;
                    key = refl;
                    tool = refl;
                    hash = refl;
                    moved = inr (lawful old.action_status allowed);
                  }))
          | inr refused ↦ absurd (ground (arith, found, apart, refused))
        ]
      ]
    ]

-- What `append_locked` leaves alone.
pub append_locked-frame :
    (host : Host) (q event_type : String) (patch : Fields) (expected schema : ℕ) (now : String)
    (db : Db) (e : EventRow) (db' : Db)
    → append_locked host q event_type patch expected schema now db ≡ ok (e, db')
    → (db'.actions ≡ db.actions) × (db'.observations ≡ db.observations) × (db'.leases ≡ db.leases)
unfolding append_locked append_row write_event
append_locked-frame host q event_type patch expected schema now db e db' h =
    elim (Option-cases (find_quest q db.quests)) [
      | inl absent ↦ absurd (ground (arith, absent))
      | inr (row, found) ↦
          let a =
            append_locked-Appended host q event_type patch expected schema now row db e db' found
              h in
          (
            ap (λ (d : Db). d.actions) a.db_written,
            ap (λ (d : Db). d.observations) a.db_written,
            ap (λ (d : Db). d.leases) a.db_written,
          )
    ]

pub insert_observation-frame :
    (o : Observation) (id q : String) (event_id : ℕ) (db db' : Db)
    → insert_observation o id q event_id db ≡ ok db'
    → (db'.actions ≡ db.actions)
      × (db'.events ≡ db.events)
      × (db'.quests ≡ db.quests)
      × (db'.checkpoints ≡ db.checkpoints)
unfolding insert_observation
insert_observation-frame o id q event_id db db' h = ground arith
