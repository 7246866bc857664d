-- ===== src/Calls/Runs.antt =====
-- The operations on model calls of backend/app/v1/storage.py as one machine, and what holds along
-- every run of it. Between two of them the other tables may change in any way.
use project_town.Base.{◌≤◌, ℤ, String, ◌≡◌, refl, false, Option, some, List, [], ◌∷◌, All, arith}
use project_town.Base.Result.{Result, ok, err}
use project_town.Runtime.Json.{Fields}
use project_town.Storage.Db.{Db, Host}
use project_town.Calls.Rows.{AttemptRow, Calls, find_attempt}
use project_town.Calls.Prepare.{CallRequest, prepare_model_call, mark_model_attempt_dispatched}
use project_town.Calls.Settle.{Success, record_model_success, record_model_failure}
use project_town.Calls.Retry.{
  model_max_attempts, Retry, mark_model_attempt_unknown, retry_model_call, recover_model_calls,
}
use project_town.Calls.Changes.{Change, untouched, recovered, is_open, winners, IsLawful}
use project_town.Calls.Lawful.{Change-IsLawful}
use project_town.Calls.Finals.{Change-final}
use project_town.Calls.Steps.{prepare_model_call-Change, mark_model_attempt_dispatched-Change}
use project_town.Calls.Settled.{
  mark_model_attempt_unknown-Change, record_model_success-Change, record_model_failure-Change,
}
use project_town.Calls.Retried.{retry_model_call-Change}

pub data CallCommand : Type 0 where
  prepare_call : CallRequest → CallCommand
  dispatch_attempt : String → CallCommand
  succeed : String → Success → CallCommand
  fail_attempt : String → Fields → ℤ → ℤ → Option Fields → Option Fields → CallCommand
  lose : String → Option Fields → CallCommand
  retry : String → Retry → CallCommand
  recover : CallCommand
  elsewhere : Db → CallCommand

-- The tables after a call; a call that raises has rolled back.
abbrev pub after {ℓ} : {A : Type ℓ} → Result (A × Calls) → Calls → Calls
after (ok (value, s')) s = s'
after (err raised) s = s

unfoldable pub run_call : Host → CallCommand → Calls → Calls
unfolding prepare_model_call mark_model_attempt_dispatched record_model_success record_model_failure
    mark_model_attempt_unknown retry_model_call recover_model_calls
run_call host (prepare_call r) s = after (prepare_model_call host r s) s
run_call host (dispatch_attempt id) s = after (mark_model_attempt_dispatched id s) s
run_call host (succeed id a) s = after (record_model_success host id a s) s
run_call host (fail_attempt id error input output usage cost) s =
    after (record_model_failure host id error input output usage cost s) s
run_call host (lose id error) s = after (mark_model_attempt_unknown host id error s) s
run_call host (retry id r) s = after (retry_model_call host id r s) s
run_call host recover s = (recover_model_calls s).1
run_call host (elsewhere db) s = record s { db = db }

unfoldable pub run_calls : Host → List CallCommand → Calls → Calls
unfolding run_call
run_calls host [] s = s
run_calls host (c ∷ cs) s = run_calls host cs (run_call host c s)

abbrev pub no_calls : Db → Calls
no_calls db = record {
  db = db;
  calls = [];
  attempts = [];
  costs = record { accounts = []; reservations = [] };
}

after-Change {ℓ} :
    {A : Type ℓ} (r : Result (A × Calls)) (s : Calls)
    → ((value : A) (s' : Calls) → r ≡ ok (value, s') → Change s.attempts s'.attempts)
    → Change s.attempts (after r s).attempts
after-Change (ok (value, s')) s each = each value s' refl
after-Change (err raised) s each = untouched s.attempts

module _ (host : Host) where
  run_call-Change : (c : CallCommand) (s : Calls) → Change s.attempts (run_call host c s).attempts
  unfolding run_call
  run_call-Change (prepare_call r) s = after-Change _ s (prepare_model_call-Change host r s)
  run_call-Change (dispatch_attempt id) s =
      after-Change _ s (mark_model_attempt_dispatched-Change id s)
  run_call-Change (succeed id a) s = after-Change _ s (record_model_success-Change host id a s)
  run_call-Change (fail_attempt id error input output usage cost) s =
      after-Change _ s (record_model_failure-Change host id error input output usage cost s)
  run_call-Change (lose id error) s =
      after-Change _ s (mark_model_attempt_unknown-Change host id error s)
  run_call-Change (retry id r) s = after-Change _ s (retry_model_call-Change host id r s)
  run_call-Change recover s = unfold recover_model_calls in recovered s.attempts
  run_call-Change (elsewhere db) s = untouched s.attempts

  run_calls-IsLawful :
      (cs : List CallCommand) (s : Calls)
      → IsLawful s.attempts
      → IsLawful (run_calls host cs s).attempts
  unfolding run_calls
  run_calls-IsLawful [] s l = l
  run_calls-IsLawful (c ∷ cs) s l =
      run_calls-IsLawful cs (run_call host c s)
        (Change-IsLawful s.attempts (run_call host c s).attempts (run_call-Change c s) l)

  none-IsLawful : IsLawful []
  unfolding winners
  none-IsLawful = record { keyed = tt; limited = tt; single = λ call. omega arith }

  -- After any calls from empty tables, refused ones included, no model call has two attempts that
  -- are validated as current, and no attempt has a number above the limit of three.
  pub run_calls_single :
      (cs : List CallCommand) (db : Db) (call : String)
      → (winners call (run_calls host cs (no_calls db)).attempts ≤ 1)
        × All (λ row. row.number ≤ model_max_attempts) (run_calls host cs (no_calls db)).attempts
  run_calls_single cs db call =
      let l = run_calls-IsLawful cs (no_calls db) none-IsLawful in (l.single call, l.limited)

  -- An attempt that succeeded, failed or has an unknown outcome stays as it is through any calls,
  -- late callbacks and recoveries included.
  pub closed_attempt_stays :
      (cs : List CallCommand) (s : Calls) (id : String) (row : AttemptRow)
      → find_attempt id s.attempts ≡ some row
      → is_open row.attempt_status ≡ false
      → find_attempt id (run_calls host cs s).attempts ≡ some row
  unfolding run_calls
  closed_attempt_stays [] s id row found closed = found
  closed_attempt_stays (c ∷ cs) s id row found closed =
      closed_attempt_stays cs (run_call host c s) id row
        (Change-final id s.attempts (run_call host c s).attempts row (run_call-Change c s) closed
          found)
        closed
