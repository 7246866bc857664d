-- ===== src/Calls/Steps.antt =====
-- The operations on model calls of backend/app/v1/storage.py, as changes of the table of attempts.
use mathlib.Core.Path.{subst}
use project_town.Base.{
  ℕ, ◌+◌, ◌≤◌, ℤ, pos, negsuc, String, ◌≡◌, refl, sym, ap, ◌∙◌, inl, inr, true, false, ◌&&◌, Option,
  none, some, [], ◌∷◌, ◌++◌, any, find, nat_eq, arith, ◌==◌, Bool-cases, Option-cases,
}
use project_town.Base.Result.{ok, ok-injective, ◌>>=◌, >>=-eq-ok}
use project_town.Runtime.Json.{Fields}
use project_town.Storage.Db.{Host}
use project_town.Costs.Prices.{Quote}
use project_town.Costs.Accounts.{reserve_cost}
use project_town.Calls.Summary.{model_summary, require_model_hash}
use project_town.Calls.Rows.{
  prepared, dispatched, Binding, CallRow, AttemptRow, Calls, is_status, is_current, find_call_key,
  find_attempt, token_usage, get_model_call,
}
use project_town.Calls.Binding.{model_binding, exceeds}
use project_town.Calls.Prepare.{
  CallRequest, CallAnswer, call_of, checked_quote, collides, new_attempt, first_attempt_id,
  token_of, insert_call, insert_attempt, reserve_quote, create_call, repeat_attempt, prepare_keyed,
  prepare_bound, prepare_amount, is_other_version, any_empty, prepare_model_call, updated,
  mark_status, mark_model_attempt_dispatched,
}
use project_town.Calls.Retry.{model_max_attempts}
use project_town.Calls.Changes.{Change, untouched, added, moved}

-- Calls that leave the table of attempts as it is.
pub unchanged : (s s' : Calls) → s'.attempts ≡ s.attempts → Change s.attempts s'.attempts
unchanged s s' e = subst (Change s.attempts) (sym e) (untouched s.attempts)

pub insert_attempt-Change :
    (new : AttemptRow) (s s' : Calls)
    → new.attempt_status ≡ prepared
    → is_current new.validation ≡ false
    → new.number ≤ model_max_attempts
    → insert_attempt new s ≡ ok s'
    → Change s.attempts s'.attempts
unfolding insert_attempt
insert_attempt-Change new s s' status pending_still number h =
    elim (Bool-cases (any (collides new) s.attempts)) [
      | inl taken ↦ absurd (ground (arith, taken))
      | inr free ↦
          let wrote : s.attempts ++ new ∷ [] ≡ s'.attempts = ground (arith, free) in
          subst (Change s.attempts) wrote (added new s.attempts free status pending_still number)
    ]

pub reserve_quote-attempts :
    (quote : Option Quote) (attempt : String) (s s' : Calls)
    → reserve_quote quote attempt s ≡ ok s'
    → s'.attempts ≡ s.attempts
reserve_quote-attempts none attempt s s' h =
    ap (λ (x : Calls). x.attempts) (sym (ok-injective s s' h))
reserve_quote-attempts (some quote) attempt s s' h =
    let (costs, _, made) = >>=-eq-ok (reserve_cost attempt quote s.costs) _ h in
    ap (λ (x : Calls). x.attempts) (sym (ok-injective (record s { costs = costs }) s' made))

insert_call-attempts :
    (new : CallRow) (s s' : Calls) → insert_call new s ≡ ok s' → s'.attempts ≡ s.attempts
unfolding insert_call
insert_call-attempts new s s' h = ground arith

pub updated-calls :
    (row : Option AttemptRow) (s : Calls) (out : AttemptRow) (s' : Calls)
    → updated row s ≡ ok (out, s')
    → s ≡ s'
updated-calls none s out s' h = cc
updated-calls (some row) s out s' h = cc

module _ (host : Host) where
  create_call-Change :
      (r : CallRequest) (b : Binding) (parameters : Fields) (reserved : ℕ) (s : Calls)
      (out : CallAnswer) (s' : Calls)
      → create_call host r b parameters reserved s ≡ ok (out, s')
      → Change s.attempts s'.attempts
  unfolding create_call
  create_call-Change r b parameters reserved s out s' h =
      elim (Bool-cases (exceeds (token_usage r.quest s.calls s.attempts + reserved) b.max_tokens)) [
        | inl over ↦ absurd (ground (arith, over))
        | inr within ↦
            let new =
              new_attempt (first_attempt_id r.id) r.id 1 (token_of r) r.by_adapter r.by_model
                parameters reserved in
            let (s1, first, rest1) =
              >>=-eq-ok (insert_call (call_of r b) s)
                (λ s1. insert_attempt new s1 >>= λ s2.
                  reserve_quote r.quote (first_attempt_id r.id) s2 >>= λ s3.
                  ok (get_model_call r.id s3, s3))
                (rw within at h) in
            let (s2, second, rest2) = >>=-eq-ok (insert_attempt new s1) _ rest1 in
            let (s3, third, last) =
              >>=-eq-ok (reserve_quote r.quote (first_attempt_id r.id) s2) _ rest2 in
            let finally : s3 ≡ s' = cc last in
            let before = insert_call-attempts (call_of r b) s s1 first in
            let after =
              ap (λ (x : Calls). x.attempts) (sym finally)
              ∙ reserve_quote-attempts r.quote (first_attempt_id r.id) s2 s3 third in
            subst (Change s.attempts) (sym after) (
              subst (λ rows. Change rows s2.attempts) before
                (insert_attempt-Change new s1 s2 refl refl (omega arith) second))
      ]

  prepare_keyed-Change :
      (existing : Option CallRow) (r : CallRequest) (b : Binding) (parameters : Fields)
      (reserved : ℕ) (s : Calls) (out : CallAnswer) (s' : Calls)
      → prepare_keyed host existing r b parameters reserved s ≡ ok (out, s')
      → Change s.attempts s'.attempts
  prepare_keyed-Change none r b parameters reserved s out s' h =
      create_call-Change r b parameters reserved s out s' h
  prepare_keyed-Change (some existing) r b parameters reserved s out s' h = unchanged s s' (
      repeat_attempt-attempts
        (find (λ row. (row.of_call == existing.call_id) && nat_eq row.number 1) s.attempts) existing
        r b parameters reserved s out s' h)
    where
      repeat_attempt-attempts :
          (row : Option AttemptRow) (existing : CallRow) (r : CallRequest) (b : Binding)
          (parameters : Fields) (reserved : ℕ) (s : Calls) (out : CallAnswer) (s' : Calls)
          → repeat_attempt host row existing r b parameters reserved s ≡ ok (out, s')
          → s'.attempts ≡ s.attempts
      repeat_attempt-attempts none existing r b parameters reserved s out s' h = cc
      repeat_attempt-attempts (some row) existing r b parameters reserved s out s' h = ground arith

  prepare_amount-Change :
      (amount : ℤ) (r : CallRequest) (s : Calls) (out : CallAnswer) (s' : Calls)
      → prepare_amount host amount r s ≡ ok (out, s')
      → Change s.attempts s'.attempts
  prepare_amount-Change (negsuc n) r s out s' h = cc
  prepare_amount-Change (pos reserved) r s out s' h =
      elim (Bool-cases (
        any_empty
          (r.id ∷ r.asked_for ∷ r.key ∷ r.hash ∷ r.prompt ∷ r.by_adapter ∷ r.by_model ∷ []))) [
            | inl missing ↦ absurd (ground (arith, missing))
            | inr given_all ↦
                let (hash, _, rest1) =
                  >>=-eq-ok (require_model_hash r.hash)
                    (λ hash. do
                      parameters ← model_summary host true 8192 r.with_parameters
                      quote ← checked_quote r.quote
                      b ← model_binding host r.quest s.db
                      prepare_bound host b r parameters reserved s)
                    (rw given_all at h) in
                let (parameters, _, rest2) =
                  >>=-eq-ok (model_summary host true 8192 r.with_parameters) _ rest1 in
                let (quote, _, rest3) = >>=-eq-ok (checked_quote r.quote) _ rest2 in
                let (b, _, last) = >>=-eq-ok (model_binding host r.quest s.db) _ rest3 in
                elim (Bool-cases (is_other_version host r.expected_version b.state_version)) [
                  | inl other ↦ absurd (ground (arith, other))
                  | inr right ↦
                      prepare_keyed-Change (find_call_key r.quest r.key s.calls) r b parameters
                        reserved s out s' (rw right at last)
                ]
          ]

  pub prepare_model_call-Change :
      (r : CallRequest) (s : Calls) (out : CallAnswer) (s' : Calls)
      → prepare_model_call host r s ≡ ok (out, s')
      → Change s.attempts s'.attempts
  unfolding prepare_model_call
  prepare_model_call-Change r s out s' h = prepare_amount-Change r.reserve r s out s' h

pub mark_model_attempt_dispatched-Change :
    (id : String) (s : Calls) (out : AttemptRow) (s' : Calls)
    → mark_model_attempt_dispatched id s ≡ ok (out, s')
    → Change s.attempts s'.attempts
unfolding mark_model_attempt_dispatched
mark_model_attempt_dispatched-Change id s out s' h =
    elim (Option-cases (find_attempt id s.attempts)) [
      | inl missing ↦ absurd (ground (arith, missing))
      | inr (row, found) ↦ elim (Bool-cases (is_status row.attempt_status dispatched)) [
        | inl done ↦ unchanged s s' (ground (arith, found, done))
        | inr new ↦ elim (Bool-cases (is_status row.attempt_status prepared)) [
          | inr refused ↦ absurd (ground (arith, found, new, refused))
          | inl ready ↦
              let to = mark_status dispatched id row.of_call s in
              let same_tables : to ≡ s' =
                updated-calls (find_attempt id to.attempts) to out s'
                  (rw ready at (rw new at (rw found at h))) in
              subst (Change s.attempts) (ap (λ (x : Calls). x.attempts) same_tables) (
                moved id row (λ r. record r { attempt_status = dispatched }) s.attempts found
                  (ground (arith, ready)) (λ r. refl) (λ r. refl) (λ r. refl) (inl refl))
        ]
      ]
    ]
