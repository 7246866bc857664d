-- ===== src/History/Beside.antt =====
-- The operations of backend/app/v1/storage.py that write to the tables of receipts, observations and
-- leases alone.
use project_town.Base.{
  ℕ, String, ◌≡◌, inl, inr, Bool, Option, none, some, arith, Bool-cases, Option-cases,
}
use project_town.Base.Result.{ok}
use project_town.Runtime.Json.{Fields}
use project_town.Storage.Db.{Db, ActionRow, ReceiptStatus}
use project_town.Storage.Events.{find_quest}
use project_town.Storage.Actions.{
  same_status, find_action, find_key, ActionRequest, prepare_action, transition_action,
  from_prepared, from_dispatched, committable, failable, mark_action_dispatched, commit_action,
  fail_action, mark_action_unknown,
}
use project_town.Storage.Leases.{find_resource, acquire_lease, renew_lease, acquire_resource_lease}

-- The quests, the events and the checkpoints are as they were.
abbrev pub IsQuiet : Db → Db → Type 0
IsQuiet db db' =
    (db'.quests ≡ db.quests) × (db'.events ≡ db.events) × (db'.checkpoints ≡ db.checkpoints)

pub prepare_action-IsQuiet :
    (r : ActionRequest) (db : Db) (row : ActionRow) (db' : Db)
    → prepare_action r db ≡ ok (row, db')
    → IsQuiet db db'
unfolding prepare_action
prepare_action-IsQuiet r db row db' h = elim (Option-cases (find_quest r.quest db.quests)) [
  | inl missing ↦ absurd (ground (arith, missing))
  | inr (projection, found) ↦ elim (Option-cases (find_key r.quest r.key db.actions)) [
    | inl new ↦ ground (arith, found, new)
    | inr (existing, seen) ↦ ground (arith, found, seen)
  ]
]

transition_action-IsQuiet :
    (id : String) (allowed_from : ReceiptStatus → Bool) (status : ReceiptStatus)
    (result error : Option Fields) (db : Db) (row : ActionRow) (db' : Db)
    → transition_action id allowed_from status result error db ≡ ok (row, db')
    → IsQuiet db db'
unfolding transition_action
transition_action-IsQuiet id allowed_from status result error db row db' h =
    elim (Option-cases (find_action id db.actions)) [
      | inl absent ↦ absurd (ground (arith, absent))
      | inr (old, found) ↦ elim (Bool-cases (same_status old.action_status status)) [
        | inl done ↦ ground (arith, found, done)
        | inr apart ↦ elim (Bool-cases (allowed_from old.action_status)) [
          | inl allowed ↦ ground (arith, found, apart, allowed)
          | inr refused ↦ absurd (ground (arith, found, apart, refused))
        ]
      ]
    ]

pub mark_action_dispatched-IsQuiet :
    (id : String) (db : Db) (row : ActionRow) (db' : Db)
    → mark_action_dispatched id db ≡ ok (row, db')
    → IsQuiet db db'
unfolding mark_action_dispatched
mark_action_dispatched-IsQuiet id db row db' =
    transition_action-IsQuiet id from_prepared _ none none db row db'

pub acquire_lease-IsQuiet :
    (q owner : String) (ttl now : ℕ) (db : Db) (won : Bool) (db' : Db)
    → acquire_lease q owner ttl now db ≡ ok (won, db')
    → IsQuiet db db'
unfolding acquire_lease
acquire_lease-IsQuiet q owner ttl now db won db' h = ground arith

pub renew_lease-IsQuiet :
    (q owner : String) (ttl now : ℕ) (db : Db) (won : Bool) (db' : Db)
    → renew_lease q owner ttl now db ≡ ok (won, db')
    → IsQuiet db db'
unfolding renew_lease
renew_lease-IsQuiet q owner ttl now db won db' h = ground arith

pub acquire_resource_lease-IsQuiet :
    (key q owner : String) (ttl now : ℕ) (db : Db) (won : Bool) (db' : Db)
    → acquire_resource_lease key q owner ttl now db ≡ ok (won, db')
    → IsQuiet db db'
unfolding acquire_resource_lease
acquire_resource_lease-IsQuiet key q owner ttl now db won db' h =
    elim (Option-cases (find_resource key db.resource_leases)) [
      | inl free ↦ ground (arith, free)
      | inr (row, held) ↦ ground (arith, held)
    ]

pub commit_action-IsQuiet :
    (id : String) (result : Fields) (db : Db) (row : ActionRow) (db' : Db)
    → commit_action id result db ≡ ok (row, db')
    → IsQuiet db db'
unfolding commit_action
commit_action-IsQuiet id result db row db' =
    transition_action-IsQuiet id committable _ (some result) none db row db'

pub fail_action-IsQuiet :
    (id : String) (error : Fields) (db : Db) (row : ActionRow) (db' : Db)
    → fail_action id error db ≡ ok (row, db')
    → IsQuiet db db'
unfolding fail_action
fail_action-IsQuiet id error db row db' =
    transition_action-IsQuiet id failable _ none (some error) db row db'

pub mark_action_unknown-IsQuiet :
    (id : String) (error : Option Fields) (db : Db) (row : ActionRow) (db' : Db)
    → mark_action_unknown id error db ≡ ok (row, db')
    → IsQuiet db db'
unfolding mark_action_unknown
mark_action_unknown-IsQuiet id error db row db' =
    transition_action-IsQuiet id from_dispatched _ none error db row db'
