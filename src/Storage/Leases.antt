-- ===== src/Storage/Leases.antt =====
-- Execution and resource leases of backend/app/v1/storage.py. Time is counted in ticks of the clock
-- that `time.time()` reads; a `ttl` that is not positive is 0 here.
use project_town.Base.{
  ℕ, ◌+◌, String, Bool, true, false, not, ◌&&◌, ◌||◌, Option, none, some, List, [], ◌∷◌, ◌++◌, find,
  filter, length, any, ltb, nat_eq, ◌==◌, if◌then◌else◌,
}
use project_town.Base.Result.{
  Result, ok, err, key_error, value_error, state_version_conflict, lease_invalid, quest_not_active,
}
use project_town.Runtime.Json.{Json, Fields, null, str, end, field, get, set}
use project_town.Storage.Db.{Db, Host, QuestRow, EventRow, Lease, ResourceLease, Transaction}
use project_town.Storage.Events.{event_schema_version, find_quest, append_locked}

-- `SELECT owner, expires_at FROM v1_leases WHERE quest_id = ?`
unfoldable pub find_lease : String → List Lease → Option Lease
find_lease q rows = find (λ row. row.lease_quest == q) rows

-- `DELETE FROM v1_leases WHERE quest_id = ?`
unfoldable pub delete_lease : String → List Lease → List Lease
delete_lease q rows = filter (λ row. not (row.lease_quest == q)) rows

-- `float(row["expires_at"]) > now`, for a row that is there
abbrev pub is_live : Option Lease → ℕ → Bool
is_live none now = false
is_live (some row) now = ltb now row.expires_at

abbrev pub claim : String → String → ℕ → List Lease → List Lease
claim q owner expires_at rows =
    delete_lease q rows ++ record { lease_quest = q; owner = owner; expires_at = expires_at } ∷ []

-- `acquire_lease`
unfoldable pub acquire_lease : String → String → ℕ → ℕ → Transaction Bool
unfolding find_lease delete_lease
acquire_lease q owner ttl now db =
    if nat_eq ttl 0
    then err (value_error lease_invalid)
    else if is_live (find_lease q db.leases) now
    then ok (false, db)
    else ok (true, record db { leases = claim q owner (now + ttl) db.leases })

-- The condition of the UPDATE of `renew_lease`.
abbrev renewable : String → String → ℕ → Lease → Bool
renewable q owner now row = (row.lease_quest == q) && (row.owner == owner) && ltb now row.expires_at

unfoldable pub renew_rows : String → String → ℕ → ℕ → List Lease → List Lease
renew_rows q owner now until [] = []
renew_rows q owner now until (row ∷ rows) =
    (if renewable q owner now row then record row { expires_at = until } else row)
    ∷ renew_rows q owner now until rows

-- `renew_lease`
unfoldable pub renew_lease : String → String → ℕ → ℕ → Transaction Bool
unfolding renew_rows
renew_lease q owner ttl now db =
    if nat_eq ttl 0 || owner == ""
    then err (value_error lease_invalid)
    else ok (
      nat_eq (length (filter (renewable q owner now) db.leases)) 1,
      record db { leases = renew_rows q owner now (now + ttl) db.leases },
    )

abbrev pub held_by : String → String → Lease → Bool
held_by q owner row = (row.lease_quest == q) && (row.owner == owner)

-- `release_lease`
unfoldable pub release_lease : String → String → Transaction Bool
release_lease q owner db = ok (
  any (held_by q owner) db.leases,
  record db { leases = filter (λ row. not (held_by q owner row)) db.leases },
)

-- `find` in v1_resource_leases
abbrev pub find_resource : String → List ResourceLease → Option ResourceLease
find_resource key rows = find (λ row. row.resource_key == key) rows

abbrev resource_for : Option ResourceLease → String → String → String → ℕ → ℕ → Transaction Bool
resource_for none key q owner ttl now db = ok (
  true,
  record db {
    resource_leases =
        filter (λ row. not (row.resource_key == key)) db.resource_leases
        ++ record { resource_key = key; holder_quest = q; holder = owner; until = now + ttl } ∷ [];
  },
)
resource_for (some row) key q owner ttl now db =
    if ltb now row.until
    then ok ((row.holder_quest == q) && (row.holder == owner), db)
    else ok (
      true,
      record db {
        resource_leases =
            filter (λ x. not (x.resource_key == key)) db.resource_leases
            ++ record { resource_key = key; holder_quest = q; holder = owner; until = now + ttl }
              ∷ [];
      },
    )

-- `acquire_resource_lease`
unfoldable pub acquire_resource_lease : String → String → String → ℕ → ℕ → Transaction Bool
acquire_resource_lease key q owner ttl now db =
    if nat_eq ttl 0
    then err (value_error lease_invalid)
    else resource_for (find_resource key db.resource_leases) key q owner ttl now db

abbrev held_resource : String → String → String → ResourceLease → Bool
held_resource key q owner row =
    (row.resource_key == key) && (row.holder_quest == q) && (row.holder == owner)

-- `release_resource_lease`
unfoldable pub release_resource_lease : String → String → String → Transaction Bool
release_resource_lease key q owner db = ok (
  any (held_resource key q owner) db.resource_leases,
  record db {
    resource_leases = filter (λ row. not (held_resource key q owner row)) db.resource_leases;
  },
)

-- `clear_runtime_leases_on_startup`
unfoldable pub clear_runtime_leases_on_startup : Transaction (ℕ × ℕ)
clear_runtime_leases_on_startup db =
    ok (
      (length db.leases, length db.resource_leases),
      record db { leases = []; resource_leases = [] },
    )

abbrev pub is_active_status : Option Json → Bool
is_active_status (some (str s)) =
    (s == "planned")
    || (s == "recovering")
    || (s == "running")
    || (s == "verifying")
    || (s == "replanning")
is_active_status _ = false

-- `state.get("started_at") is None`
abbrev is_absent : Option Json → Bool
is_absent none = true
is_absent (some null) = true
is_absent (some value) = false

abbrev pub admission_patch : Fields → String → Fields
admission_patch state admitted_at =
    let patch : Fields = field "status" (str "running") (field "error" null end) in
    if is_absent (get "started_at" state) then set "started_at" (str admitted_at) patch else patch

-- Another owner's live lease.
abbrev pub is_taken : Option Lease → String → ℕ → Bool
is_taken none owner now = false
is_taken (some row) owner now = ltb now row.expires_at && not (row.owner == owner)

module _ (host : Host) where
  -- The result of `_append_locked`, as the caller of `admit_execution` sees it.
  abbrev pub admitted : Result (EventRow × Db) → Result (Option EventRow × Db)
  admitted (ok (e, db)) = ok (some e, db)
  admitted (err e) = err e

  abbrev pub admit_row :
      Option QuestRow
      → String
      → String
      → ℕ
      → ℕ
      → String
      → ℕ
      → String
      → Transaction (Option EventRow)
  admit_row none q owner ttl expected admitted_at now stamp db = err (key_error q)
  admit_row (some row) q owner ttl expected admitted_at now stamp db =
      if not (nat_eq row.state_version expected)
      then err (value_error state_version_conflict)
      else if not (is_active_status (get "status" row.state))
      then err (value_error quest_not_active)
      else if is_taken (find_lease q db.leases) owner now
      then ok (none, db)
      else admitted (
          append_locked host q "ExecutionAdmitted" (admission_patch row.state admitted_at) expected
            event_schema_version stamp (record db { leases = claim q owner (now + ttl) db.leases }))

  -- `admit_execution`; `stamp` is the `utc_now()` of `_append_locked`.
  unfoldable pub admit_execution :
      String → String → ℕ → ℕ → String → ℕ → String → Transaction (Option EventRow)
  unfolding find_lease delete_lease find_quest append_locked
  admit_execution q owner ttl expected admitted_at now stamp db =
      if nat_eq ttl 0 || owner == "" || admitted_at == ""
      then err (value_error lease_invalid)
      else admit_row (find_quest q db.quests) q owner ttl expected admitted_at now stamp db
