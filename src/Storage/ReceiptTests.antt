-- ===== src/Storage/ReceiptTests.antt =====
-- The theorems of the receipts and the leases at a small database.
use project_town.Base.{◌+◌, String, ◌≡◌, ◌≢◌, refl, true, none, some, [], ◌∷◌, ◌⊎◌, arith, eq_iff}
use project_town.Base.Result.{ok}
use project_town.Runtime.Json.{Fields, str, end, field, get}
use project_town.Runtime.Reducer.{apply, merge_fields}
use project_town.Storage.Db.{Db, ActionRow}
use project_town.Storage.Events.{stamped, write_event}
use project_town.Storage.Actions.{
  find_action, receipt_patch, committed_row, replace_action, commit_action_with_event,
}
use project_town.Storage.Lifecycle.{
  commit, fail, interrupt, unknown, run_operations, final_receipt_stays,
  commit_action_with_event_repeat,
}
use project_town.Storage.CommitEvents.{IsRecorded, commit_action_with_event-IsRecorded}
use project_town.Storage.Leases.{acquire_lease, claim}
use project_town.Storage.Exclusion.{acquire, renew, release, run_schedule, acquired_lease_holds}
use project_town.Storage.Tests.{host, row0, db0, action0, row0-IsReplayable}

abbrev result0 : Fields
result0 = field "path" (str "README.md") end

-- The database after the commit of the dispatched action.
abbrev first0 : Db
first0 = record db0 {
  actions = replace_action (committed_row host action0 result0 none) db0.actions;
}

abbrev state2 : Fields
state2 = merge_fields end (stamped host (receipt_patch host action0 result0) 1 "t2")

abbrev second0 : Db
second0 =
    (write_event host row0 "ToolCommitted" (receipt_patch host action0 result0) "t2" state2
      first0).1

abbrev out0 : ActionRow
out0 = committed_row host action0 result0 (some 1)

abbrev db2 : Db
db2 = record second0 { actions = replace_action out0 second0.actions }

committed0 : commit_action_with_event host "a" result0 none "t2" db0 ≡ ok (out0, db2)
unfolding commit_action_with_event write_event apply get
committed0 = refl

commit_action_with_event_repeat_example :
    commit_action_with_event host "a" result0 none "t9" db2 ≡ ok (out0, db2)
commit_action_with_event_repeat_example =
    commit_action_with_event_repeat host "a" result0 none none "t2" "t9" db0 out0 db2 committed0

commit_action_with_event-IsRecorded_example : (db2 ≡ db0) ⊎ IsRecorded host row0 db0 out0 db2
commit_action_with_event-IsRecorded_example =
    commit_action_with_event-IsRecorded host "a" result0 none "t2" row0 db0 out0 db2
      row0-IsReplayable committed0

out0-found : find_action "a" db2.actions ≡ some out0
unfolding find_action replace_action write_event
out0-found = refl

final_receipt_stays_example :
    find_action "a"
      (run_operations host
        (fail "a" end ∷ unknown "a" none ∷ interrupt ∷ commit "a" end ∷ [])
        db2).actions
    ≡ some out0
final_receipt_stays_example =
    final_receipt_stays host "a" out0
      (fail "a" end ∷ unknown "a" none ∷ interrupt ∷ commit "a" end ∷ []) db2 out0-found refl

abbrev leased0 : Db
leased0 = record db0 { leases = claim "q" "w1" (100 + 30) [] }

acquired0 : acquire_lease "q" "w1" 30 100 db0 ≡ ok (true, leased0)
unfolding acquire_lease
acquired0 = refl

apart : ◌≢◌ {A = String} "w1" "w2"
apart = ground (arith, eq_iff "w1" "w2")

acquired_lease_holds_example :
    run_schedule host "q"
      (("w2", 110, acquire 30) ∷ ("w2", 120, renew 30) ∷ ("w2", 129, release) ∷ [])
      leased0
    ≡ leased0
acquired_lease_holds_example =
    acquired_lease_holds host "q" "w1" 30 100 db0 leased0
      (("w2", 110, acquire 30) ∷ ("w2", 120, renew 30) ∷ ("w2", 129, release) ∷ []) tt acquired0
      ((omega arith, apart), ((omega arith, apart), ((omega arith, apart), tt)))
