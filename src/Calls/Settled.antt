-- ===== src/Calls/Settled.antt =====
-- `_settle_model_attempt` and `mark_model_attempt_unknown` of backend/app/v1/storage.py, as changes
-- of the table of attempts.
use mathlib.Core.Path.{subst}
use project_town.Base.{
  ℤ, String, ◌≡◌, refl, sym, ap, inl, inr, Bool, true, false, ◌&&◌, Option, none, some, List, [],
  ◌∷◌, arith, ◌==◌, Bool-cases, Option-cases, some-injective, eq_iff, if◌then◌else◌,
}
use project_town.Base.Result.{ok, ok-injective, >>=-eq-ok}
use project_town.Runtime.Json.{Fields}
use project_town.Storage.Db.{Host}
use project_town.Costs.Accounts.{settle_cost}
use project_town.Calls.Summary.{require_model_hash}
use project_town.Calls.Rows.{
  CallStatus, dispatched, unknown_outcome, Validation, validated_current, conflict, stale, CallRow,
  AttemptRow, Calls, is_status, is_current, find_call, find_attempt, update_attempt,
}
use project_town.Calls.Binding.{model_binding, is_bound_to}
use project_town.Calls.Settle.{
  AttemptAnswer, answered, Settlement, Cleaned, cleaned, has_winner, final_validation, settled_row,
  settleable, write_settlement, settle_response, settle_model_attempt, differs,
  record_model_success, record_model_failure, success_of, failure_of, Success,
}
use project_town.Calls.Retry.{
  unknown_found, clean_failure, given, mark_unknown, mark_model_attempt_unknown,
}
use project_town.Calls.Finals.{find_attempt-key}
use project_town.Calls.Steps.{unchanged, updated-calls}
use project_town.Calls.Changes.{Change, moved, is_open}

pub find_call-key :
    (id : String) (rows : List CallRow) (row : CallRow)
    → find_call id rows ≡ some row
    → row.call_id ≡ id
unfolding find_call
find_call-key id [] row h = cc
find_call-key id (r ∷ rows) row h = elim (Bool-cases (r.call_id == id)) [
  | inl here ↦
      subst (λ (x : CallRow). x.call_id ≡ id) (some-injective r row (rw here at h))
        ((eq_iff r.call_id id).0 here)
  | inr on ↦ find_call-key id rows row (rw on at h)
]

answered-calls :
    (row : Option AttemptRow) (s : Calls) (out : AttemptAnswer) (s' : Calls)
    → answered row s ≡ ok (out, s')
    → s ≡ s'
answered-calls none s out s' h = cc
answered-calls (some row) s out s' h = cc

module _ (host : Host) where
  summary-unknown :
      (row : AttemptRow) (id : String) (error : Option Fields) (s : Calls) (out : AttemptRow)
      (s' : Calls)
      → find_attempt id s.attempts ≡ some row
      → row.attempt ≡ id
      → unknown_found host (some row) id error s ≡ ok (out, s')
      → Change s.attempts s'.attempts
  summary-unknown row id error s out s' found key h =
      elim (Bool-cases (is_status row.attempt_status unknown_outcome)) [
        | inl done ↦ unchanged s s' (ground (arith, done))
        | inr new ↦ elim (Bool-cases (is_status row.attempt_status dispatched)) [
          | inr refused ↦ absurd (ground (arith, new, refused))
          | inl sent ↦
              let (clean, _, last) =
                >>=-eq-ok (clean_failure host (given error))
                  (λ clean. mark_unknown host row clean s) (rw sent at (rw new at h)) in
              let change = λ (r : AttemptRow). record r {
                attempt_status = unknown_outcome;
                failure = clean;
              } in
              let wrote =
                updated-calls
                  (find_attempt row.attempt (update_attempt row.attempt change s.attempts)) _ out s'
                  last in
              subst (Change s.attempts) (ap (λ (x : Calls). x.attempts) wrote) (
                moved row.attempt row change s.attempts
                  (subst (λ k. find_attempt k s.attempts ≡ some row) (sym key) found)
                  (ground (arith, sent)) (λ r. refl) (λ r. refl) (λ r. refl) (inl refl))
        ]
      ]

  pub mark_model_attempt_unknown-Change :
      (id : String) (error : Option Fields) (s : Calls) (out : AttemptRow) (s' : Calls)
      → mark_model_attempt_unknown host id error s ≡ ok (out, s')
      → Change s.attempts s'.attempts
  unfolding mark_model_attempt_unknown
  mark_model_attempt_unknown-Change id error s out s' h =
      elim (Option-cases (find_attempt id s.attempts)) [
        | inl missing ↦ absurd (ground (arith, missing))
        | inr (row, found) ↦
            summary-unknown row id error s out s' found (find_attempt-key id s.attempts row found)
              (rw found at h)
      ]

  write_settlement-Change :
      (id : String) (a : Settlement) (c : Cleaned) (validation : Validation) (row : AttemptRow)
      (s : Calls) (out : AttemptAnswer) (s' : Calls)
      → find_attempt id s.attempts ≡ some row
      → row.attempt ≡ id
      → is_open row.attempt_status ≡ true
      → (is_current validation && has_winner row.of_call s.attempts) ≡ false
      → write_settlement host a c validation row s ≡ ok (out, s')
      → Change s.attempts s'.attempts
  unfolding write_settlement
  write_settlement-Change id a c validation row s out s' found key still_open free h =
      let change = settled_row host a c validation in
      let (costs, _, last) =
        >>=-eq-ok (settle_cost row.attempt c.input_count c.output_count s.costs) _ h in
      let wrote =
        answered-calls (find_attempt row.attempt (update_attempt row.attempt change s.attempts)) _
          out s' last in
      subst (Change s.attempts) (ap (λ (x : Calls). x.attempts) wrote) (
        moved row.attempt row change s.attempts
          (subst (λ k. find_attempt k s.attempts ≡ some row) (sym key) found) still_open (λ r. refl)
          (λ r. refl) (λ r. refl) (inr free))

  -- A final validation is `validated_current` only where the call has no winner yet.
  final_validation-free :
      (a : Settlement) (call : CallRow) (s : Calls) (validation : Validation)
      → is_current a.to_validation ≡ false
      → final_validation host a call s ≡ ok validation
      → (is_current validation && has_winner call.call_id s.attempts) ≡ false
  unfolding final_validation
  final_validation-free a call s validation plain h = elim (Bool-cases a.validate_current) [
    | inr without ↦
        let same : a.to_validation ≡ validation =
          ok-injective a.to_validation validation (rw without at h) in
        ground (arith, ap is_current same, plain)
    | inl with_binding ↦
        let (b, _, last) =
          >>=-eq-ok (model_binding host call.call_quest s.db)
            (λ b. ok (
              if is_bound_to b call.bound
              then if has_winner call.call_id s.attempts then conflict else validated_current
              else stale))
            (rw with_binding at h) in
        ground (arith, last)
  ]

  settle_response-Change :
      (id : String) (stored : Option String) (a : Settlement) (c : Cleaned) (row : AttemptRow)
      (call : CallRow) (s : Calls) (out : AttemptAnswer) (s' : Calls)
      → find_attempt id s.attempts ≡ some row
      → row.attempt ≡ id
      → call.call_id ≡ row.of_call
      → is_current a.to_validation ≡ false
      → settle_response host stored a c row call s ≡ ok (out, s')
      → Change s.attempts s'.attempts
  settle_response-Change id (some stored) a c row call s out s' found key mine plain h =
      unchanged s s' (ground arith)
  settle_response-Change id none a c row call s out s' found key mine plain h =
      elim (Bool-cases (settleable host a.validate_current row.attempt_status)) [
        | inr final ↦ absurd (ground (arith, final))
        | inl still_open ↦
            let (validation, decided, last) =
              >>=-eq-ok (final_validation host a call s)
                (λ validation. write_settlement host a c validation row s) (rw still_open at h) in
            write_settlement-Change id a c validation row s out s' found key
              (settleable-open a.validate_current row.attempt_status still_open)
              (subst (λ k. (is_current validation && has_winner k s.attempts) ≡ false) mine
                (final_validation-free a call s validation plain decided))
              last
      ]
    where
      settleable-open :
          (current : Bool) (status : CallStatus)
          → settleable host current status ≡ true
          → is_open status ≡ true
      settleable-open true status h = ground arith
      settleable-open false status h = ground arith

  settle_model_attempt-Change :
      (id : String) (a : Settlement) (s : Calls) (out : AttemptAnswer) (s' : Calls)
      → is_current a.to_validation ≡ false
      → settle_model_attempt host id a s ≡ ok (out, s')
      → Change s.attempts s'.attempts
  unfolding settle_model_attempt
  settle_model_attempt-Change id a s out s' plain h =
      let (c, _, rest) = >>=-eq-ok (cleaned host a) _ h in
      elim (Option-cases (find_attempt id s.attempts)) [
        | inl missing ↦ absurd (ground (arith, missing))
        | inr (row, found) ↦ elim (Option-cases (find_call row.of_call s.calls)) [
          | inl lost ↦ absurd (ground (arith, found, lost))
          | inr (call, called) ↦ elim (Bool-cases (differs a.callback_quest call.call_quest)) [
            | inl other ↦ absurd (ground (arith, found, called, other))
            | inr quest ↦ elim (Bool-cases (differs a.callback_input call.input_hash)) [
              | inl other ↦ absurd (ground (arith, found, called, quest, other))
              | inr input ↦
                  settle_response-Change id row.response_hash a c row call s out s' found
                    (find_attempt-key id s.attempts row found)
                    (find_call-key row.of_call s.calls call called) plain
                    (rw input at (rw quest at (rw called at (rw found at rest))))
            ]
          ]
        ]
      ]

  pub record_model_success-Change :
      (id : String) (a : Success) (s : Calls) (out : AttemptAnswer) (s' : Calls)
      → record_model_success host id a s ≡ ok (out, s')
      → Change s.attempts s'.attempts
  unfolding record_model_success
  record_model_success-Change id a s out s' h =
      let (input, _, rest1) = >>=-eq-ok (require_model_hash a.input_hash) _ h in
      let (response, _, last) = >>=-eq-ok (require_model_hash a.response_hash) _ rest1 in
      settle_model_attempt-Change id (success_of host a) s out s' refl last

  pub record_model_failure-Change :
      (id : String) (error : Fields) (input output : ℤ) (usage cost : Option Fields) (s : Calls)
      (out : AttemptAnswer) (s' : Calls)
      → record_model_failure host id error input output usage cost s ≡ ok (out, s')
      → Change s.attempts s'.attempts
  unfolding record_model_failure
  record_model_failure-Change id error input output usage cost s out s' h =
      settle_model_attempt-Change id (failure_of host error input output usage cost) s out s' refl h
