-- ===== src/Storage/Exclusion.antt =====
-- A live execution lease is exclusive.
use mathlib.Core.Path.{subst}
use project_town.Base.{
  ℕ, ◌+◌, ◌<◌, String, ◌≡◌, ◌≢◌, refl, sym, ap, ◌∙◌, inl, inr, true, none, some, List, [], ◌∷◌,
  ◌++◌, arith, All, nat_eq, ◌==◌, eq_iff, eq_refl, Bool-cases, Option-cases,
}
use project_town.Base.Result.{Result, ok, err}
use project_town.Storage.Db.{Db, Host, Lease}
use project_town.Storage.Events.{find_quest}
use project_town.Storage.Leases.{
  find_lease, delete_lease, is_live, claim, acquire_lease, renew_lease, release_lease, is_taken,
  admit_execution,
}
use project_town.Storage.LeaseRows.{
  IsKeyed, delete_lease-IsKeyed, find_lease-claim, find_lease-delete_lease, find_lease-snoc,
  held_other, not_owner, renew_rows-other,
}

-- What an owner may try on the execution lease of a quest.
pub data Attempt : Type 0 where
  acquire : ℕ → Attempt
  admit : ℕ → ℕ → String → String → Attempt
  renew : ℕ → Attempt
  release : Attempt

-- The database after a call, which a refusal rolls back.
abbrev committed_or : {A : Type 0} → Result (A × Db) → Db → Db
committed_or (ok (a, db')) db = db'
committed_or (err e) db = db

unfoldable pub run_attempt : Host → String → String → ℕ → Attempt → Db → Db
run_attempt host q owner now (acquire ttl) db = committed_or (acquire_lease q owner ttl now db) db
run_attempt host q owner now (admit ttl expected admitted_at stamp) db =
    committed_or (admit_execution host q owner ttl expected admitted_at now stamp db) db
run_attempt host q owner now (renew ttl) db = committed_or (renew_lease q owner ttl now db) db
run_attempt host q owner now release db = committed_or (release_lease q owner db) db

acquire_lease-live :
    (q owner : String) (ttl now : ℕ) (db : Db) (row : Lease)
    → find_lease q db.leases ≡ some row
    → now < row.expires_at
    → committed_or (acquire_lease q owner ttl now db) db ≡ db
unfolding acquire_lease
acquire_lease-live q owner ttl now db row found live = rw found (ground arith)

is_taken-other :
    (owner : String) (now : ℕ) (row : Lease)
    → now < row.expires_at
    → row.owner ≢ owner
    → is_taken (some row) owner now ≡ true
is_taken-other owner now row live ne = rw (not_owner row owner ne) (ground arith)

admit_execution-taken :
    (host : Host) (q owner : String) (ttl expected : ℕ) (admitted_at : String) (now : ℕ)
    (stamp : String) (db : Db)
    → is_taken (find_lease q db.leases) owner now ≡ true
    → committed_or (admit_execution host q owner ttl expected admitted_at now stamp db) db ≡ db
unfolding admit_execution
admit_execution-taken host q owner ttl expected admitted_at now stamp db taken =
    elim (Option-cases (find_quest q db.quests)) [
      | inl absent ↦ rw absent (ground arith)
      | inr (row, found) ↦ rw (found, taken) (ground arith)
    ]

renew_lease-other :
    (q owner : String) (ttl now : ℕ) (db : Db) (row : Lease)
    → IsKeyed db.leases
    → find_lease q db.leases ≡ some row
    → row.owner ≢ owner
    → committed_or (renew_lease q owner ttl now db) db ≡ db
unfolding renew_lease
renew_lease-other q owner ttl now db row k found ne =
    rw (renew_rows-other q owner now (now + ttl) db.leases row k found ne) (ground arith)

release_lease-other :
    (q owner : String) (db : Db) (row : Lease)
    → IsKeyed db.leases
    → find_lease q db.leases ≡ some row
    → row.owner ≢ owner
    → committed_or (release_lease q owner db) db ≡ db
unfolding release_lease
release_lease-other q owner db row k found ne = rw (held_other q owner db.leases row k found ne)

-- While a lease of a quest is live, no call of another owner changes anything in the database.
pub lease_excludes :
    (host : Host) (q owner : String) (now : ℕ) (attempt : Attempt) (db : Db) (row : Lease)
    → IsKeyed db.leases
    → find_lease q db.leases ≡ some row
    → now < row.expires_at
    → row.owner ≢ owner
    → run_attempt host q owner now attempt db ≡ db
unfolding run_attempt
lease_excludes host q owner now (acquire ttl) db row k found live ne =
    acquire_lease-live q owner ttl now db row found live
lease_excludes host q owner now (admit ttl expected admitted_at stamp) db row k found live ne =
    admit_execution-taken host q owner ttl expected admitted_at now stamp db
      (ap (λ o. is_taken o owner now) found ∙ is_taken-other owner now row live ne)
lease_excludes host q owner now (renew ttl) db row k found live ne =
    renew_lease-other q owner ttl now db row k found ne
lease_excludes host q owner now release db row k found live ne =
    release_lease-other q owner db row k found ne

-- A schedule of calls on the lease of a quest, each with its caller and time.
unfoldable pub run_schedule : Host → String → List (String × ℕ × Attempt) → Db → Db
unfolding run_attempt
run_schedule host q [] db = db
run_schedule host q ((owner, now, attempt) ∷ rest) db =
    run_schedule host q rest (run_attempt host q owner now attempt db)

-- A call that another owner makes before the lease ends.
abbrev pub IsRival : Lease → String × ℕ × Attempt → Type 0
IsRival row (owner, now, attempt) = (now < row.expires_at) × (row.owner ≢ owner)

run_schedule-rivals :
    (host : Host) (q : String) (db : Db) (row : Lease) (schedule : List (String × ℕ × Attempt))
    → IsKeyed db.leases
    → find_lease q db.leases ≡ some row
    → All (IsRival row) schedule
    → run_schedule host q schedule db ≡ db
unfolding run_schedule
run_schedule-rivals host q db row [] k found h = refl
run_schedule-rivals host q db row ((owner, now, attempt) ∷ rest) k found h =
    rw (lease_excludes host q owner now attempt db row k found h.0.0 h.0.1)
      (run_schedule-rivals host q db row rest k found h.1)

IsKeyed-snoc :
    (new : Lease) (rows : List Lease)
    → IsKeyed rows
    → find_lease new.lease_quest rows ≡ none
    → IsKeyed (rows ++ new ∷ [])
unfolding find_lease
IsKeyed-snoc new [] k h = (refl, tt)
IsKeyed-snoc new (row ∷ rows) k h = elim (Bool-cases (row.lease_quest == new.lease_quest)) [
  | inl same ↦ absurd (ground (arith, same))
  | inr apart ↦ (
    find_lease-snoc row.lease_quest new rows
        ∙ ground (
          arith,
          k.0,
          eq_iff row.lease_quest new.lease_quest,
          eq_iff new.lease_quest row.lease_quest,
        ),
    IsKeyed-snoc new rows k.1 (rw apart at h),
  )
]

claim-IsKeyed :
    (q owner : String) (until : ℕ) (rows : List Lease)
    → IsKeyed rows
    → IsKeyed (claim q owner until rows)
claim-IsKeyed q owner until rows k =
    IsKeyed-snoc (record { lease_quest = q; owner = owner; expires_at = until })
      (delete_lease q rows) (delete_lease-IsKeyed q rows k)
      (find_lease-delete_lease q q rows ∙ rw eq_refl)

acquire_lease-claim :
    (q owner : String) (ttl now : ℕ) (db db' : Db)
    → acquire_lease q owner ttl now db ≡ ok (true, db')
    → db'.leases ≡ claim q owner (now + ttl) db.leases
unfolding acquire_lease
acquire_lease-claim q owner ttl now db db' h = elim (Bool-cases (nat_eq ttl 0)) [
  | inl zero_ttl ↦ absurd (ground (arith, zero_ttl))
  | inr positive ↦ elim (Bool-cases (is_live (find_lease q db.leases) now)) [
    | inl live ↦ absurd (ground (arith, positive, live))
    | inr free ↦ ground (arith, positive, free)
  ]
]

-- In a table with one lease at most for each quest, once a caller has acquired the execution lease,
-- every schedule of calls on it by other owners before it ends leaves the database as the
-- acquisition left it.
pub acquired_lease_holds :
    (host : Host) (q owner : String) (ttl now : ℕ) (db db' : Db)
    (schedule : List (String × ℕ × Attempt))
    → IsKeyed db.leases
    → acquire_lease q owner ttl now db ≡ ok (true, db')
    → All (IsRival (record { lease_quest = q; owner = owner; expires_at = now + ttl })) schedule
    → run_schedule host q schedule db' ≡ db'
acquired_lease_holds host q owner ttl now db db' schedule k h rivals =
    let wrote = acquire_lease-claim q owner ttl now db db' h in
    run_schedule-rivals host q db'
      (record { lease_quest = q; owner = owner; expires_at = now + ttl }) schedule
      (subst IsKeyed (sym wrote) (claim-IsKeyed q owner (now + ttl) db.leases k))
      (ap (find_lease q) wrote ∙ find_lease-claim q q owner (now + ttl) db.leases ∙ rw eq_refl)
      rivals
