-- ===== src/Calls/Retried.antt =====
-- `retry_model_call` of backend/app/v1/storage.py, as a change of the table of attempts.
use mathlib.Core.Path.{subst}
use project_town.Base.{
  ℕ, ◌+◌, ◌≤◌, ℤ, pos, negsuc, String, ◌≡◌, refl, sym, ap, ◌∙◌, inl, inr, true, false, not, some,
  ◌||◌, [], ◌∷◌, is_some, ltb, arith, Bool-cases, Option-cases,
}
use project_town.Base.Result.{ok, ◌>>=◌, >>=-eq-ok}
use project_town.Runtime.Json.{Fields}
use project_town.Storage.Db.{Host}
use project_town.Calls.Summary.{model_summary}
use project_town.Calls.Rows.{
  Binding, CallRow, AttemptRow, Calls, find_call, find_attempt, token_usage, last_number,
}
use project_town.Calls.Binding.{model_binding, is_bound_to, exceeds}
use project_town.Calls.Prepare.{
  checked_quote, new_attempt, insert_attempt, reserve_quote, any_empty,
}
use project_town.Calls.Retry.{
  model_max_attempts, Retry, write_retry, retry_bound, retry_found, retry_amount, retry_model_call,
  terminal,
}
use project_town.Calls.Steps.{updated-calls, insert_attempt-Change, reserve_quote-attempts}
use project_town.Calls.Changes.{Change}

-- What a retry that returned has checked and written.
pub record IsRetried (host : Host) (id : String) (r : Retry) (s : Calls) (out : AttemptRow)
    (s' : Calls) : Type 0 where
  pub call : CallRow
  pub parameters : Fields
  pub reserved : ℕ
  pub called : find_call id s.calls ≡ some call
  pub amount : r.reserve ≡ pos reserved
  pub within :
      exceeds (token_usage call.call_quest s.calls s.attempts + reserved) call.bound.max_tokens
      ≡ false
  pub few : last_number call.call_id s.attempts + 1 ≤ model_max_attempts
  pub wrote :
      write_retry host call r parameters reserved (last_number call.call_id s.attempts + 1) s
      ≡ ok (out, s')

module _ (host : Host) where
  write_retry-Change :
      (call : CallRow) (r : Retry) (parameters : Fields) (reserved number : ℕ) (s : Calls)
      (out : AttemptRow) (s' : Calls)
      → number ≤ model_max_attempts
      → write_retry host call r parameters reserved number s ≡ ok (out, s')
      → Change s.attempts s'.attempts
  unfolding write_retry
  write_retry-Change call r parameters reserved number s out s' limit h =
      let new =
        new_attempt r.id call.call_id number r.token r.by_adapter r.by_model parameters reserved in
      let (s1, first, rest1) = >>=-eq-ok (insert_attempt new s) _ h in
      let (s2, second, last) = >>=-eq-ok (reserve_quote r.quote r.id s1) _ rest1 in
      let wrote = updated-calls (find_attempt r.id s2.attempts) _ out s' last in
      subst (Change s.attempts)
        (sym (reserve_quote-attempts r.quote r.id s1 s2 second)
          ∙ ap (λ (x : Calls). x.attempts) wrote)
        (insert_attempt-Change new s s1 refl refl limit first)

  retry_bound-IsRetried :
      (b : Binding) (call : CallRow) (id : String) (r : Retry) (parameters : Fields) (reserved : ℕ)
      (s : Calls) (out : AttemptRow) (s' : Calls)
      → find_call id s.calls ≡ some call
      → r.reserve ≡ pos reserved
      → retry_bound host b call r parameters reserved s ≡ ok (out, s')
      → IsRetried host id r s out s'
  retry_bound-IsRetried b call id r parameters reserved s out s' called amount h =
      let number = last_number call.call_id s.attempts + 1 in
      elim (Bool-cases (is_bound_to b call.bound)) [
        | inr old ↦ absurd (ground (arith, old))
        | inl current ↦
            elim (Bool-cases (
              exceeds (token_usage call.call_quest s.calls s.attempts + reserved)
                call.bound.max_tokens)) [
                  | inl over ↦ absurd (ground (arith, current, over))
                  | inr within ↦ elim (Bool-cases (ltb model_max_attempts number)) [
                    | inl many ↦ absurd (ground (arith, current, within, many))
                    | inr few ↦ record {
                      call = call;
                      parameters = parameters;
                      reserved = reserved;
                      called = called;
                      amount = amount;
                      within = within;
                      few = ground (arith, few);
                      wrote = rw few at (rw within at (rw current at h));
                    }
                  ]
                ]
      ]

  retry_amount-IsRetried :
      (amount : ℤ) (id : String) (r : Retry) (s : Calls) (out : AttemptRow) (s' : Calls)
      → r.reserve ≡ amount
      → retry_amount host amount id r s ≡ ok (out, s')
      → IsRetried host id r s out s'
  retry_amount-IsRetried (negsuc n) id r s out s' same h = cc
  retry_amount-IsRetried (pos reserved) id r s out s' same h =
      elim (Bool-cases (any_empty (r.id ∷ r.token ∷ r.by_adapter ∷ r.by_model ∷ []))) [
        | inl missing ↦ absurd (ground (arith, missing))
        | inr given_all ↦
            let (parameters, _, rest1) =
              >>=-eq-ok (model_summary host true 8192 r.with_parameters)
                (λ parameters. checked_quote r.quote >>= λ quote.
                  retry_found host (find_call id s.calls) id r parameters reserved s)
                (rw given_all at h) in
            let (quote, _, rest2) = >>=-eq-ok (checked_quote r.quote) _ rest1 in
            elim (Option-cases (find_call id s.calls)) [
              | inl lost ↦ absurd (ground (arith, lost))
              | inr (call, called) ↦
                  elim (Bool-cases (is_some call.winner || not (terminal call.call_status))) [
                    | inl ended ↦ absurd (ground (arith, called, ended))
                    | inr open_again ↦
                        let (b, _, last) =
                          >>=-eq-ok (model_binding host call.call_quest s.db)
                            (λ b. retry_bound host b call r parameters reserved s)
                            (rw open_again at (rw called at rest2)) in
                        retry_bound-IsRetried b call id r parameters reserved s out s' called same
                          last
                  ]
            ]
      ]

  pub retry_model_call-IsRetried :
      (id : String) (r : Retry) (s : Calls) (out : AttemptRow) (s' : Calls)
      → retry_model_call host id r s ≡ ok (out, s')
      → IsRetried host id r s out s'
  unfolding retry_model_call
  retry_model_call-IsRetried id r s out s' h = retry_amount-IsRetried r.reserve id r s out s' refl h

  pub retry_model_call-Change :
      (id : String) (r : Retry) (s : Calls) (out : AttemptRow) (s' : Calls)
      → retry_model_call host id r s ≡ ok (out, s')
      → Change s.attempts s'.attempts
  retry_model_call-Change id r s out s' h =
      let done = retry_model_call-IsRetried id r s out s' h in
      write_retry-Change done.call r done.parameters done.reserved
        (last_number done.call.call_id s.attempts + 1) s out s' done.few done.wrote
