-- ===== src/Calls/Budgets.antt =====
-- The token budget of a quest under `retry_model_call` of backend/app/v1/storage.py.
use mathlib.Core.Path.{subst}
use project_town.Base.{
  ℕ, ◌+◌, ℤ, pos, String, ◌≡◌, refl, sym, ap, ◌∙◌, inl, inr, true, false, Option, none, some, List,
  [], ◌∷◌, ◌++◌, any, arith, ◌==◌, eq_refl, Bool-cases, some-injective, if◌then◌else◌,
}
use project_town.Base.Result.{ok, ok-injective, >>=-eq-ok}
use project_town.Runtime.Json.{Fields}
use project_town.Storage.Db.{Host}
use project_town.Costs.Prices.{Quote}
use project_town.Calls.Rows.{
  prepared, CallRow, AttemptRow, Calls, find_call, find_attempt, update_call, is_of_quest,
  tokens_of, token_usage, last_number,
}
use project_town.Calls.Binding.{exceeds}
use project_town.Calls.Prepare.{new_attempt, insert_attempt, reserve_quote, collides}
use project_town.Calls.Retry.{Retry, write_retry, retry_model_call}
use project_town.Calls.Steps.{updated-calls, reserve_quote-attempts}
use project_town.Calls.Settled.{find_call-key}
use project_town.Calls.Retried.{IsRetried, retry_model_call-IsRetried}

abbrev reopen : CallRow → CallRow
reopen row = record row { call_status = prepared }

is_of_quest-update_call :
    (q id : String) (calls : List CallRow) (row : AttemptRow)
    → is_of_quest q (update_call id reopen calls) row ≡ is_of_quest q calls row
unfolding is_of_quest update_call find_call
is_of_quest-update_call q id [] row = refl
is_of_quest-update_call q id (call ∷ calls) row =
    let rest = is_of_quest-update_call q id calls row in
    elim (Bool-cases (call.call_id == id)) [
      | inl here ↦ elim (Bool-cases (call.call_id == row.of_call)) [
        | inl mine ↦ rw (is_of_quest, here, mine) refl
        | inr other ↦ rw (is_of_quest, here, other) rest
      ]
      | inr on ↦ elim (Bool-cases (call.call_id == row.of_call)) [
        | inl mine ↦ rw (is_of_quest, on, mine) refl
        | inr other ↦ rw (is_of_quest, on, other) rest
      ]
    ]

token_usage-update_call :
    (q id : String) (calls : List CallRow) (rows : List AttemptRow)
    → token_usage q (update_call id reopen calls) rows ≡ token_usage q calls rows
unfolding token_usage
token_usage-update_call q id calls [] = refl
token_usage-update_call q id calls (row ∷ rows) = rw (is_of_quest-update_call q id calls row) (
    ap (λ n. (if is_of_quest q calls row then tokens_of row else 0) + n)
      (token_usage-update_call q id calls rows))

-- An attempt that is added to a call of the quest counts with its tokens.
token_usage-append :
    (q : String) (calls : List CallRow) (rows : List AttemptRow) (new : AttemptRow) (n : ℕ)
    → is_of_quest q calls new ≡ true
    → tokens_of new ≡ n
    → token_usage q calls (rows ++ new ∷ []) ≡ token_usage q calls rows + n
unfolding token_usage
token_usage-append q calls [] new n mine tokens = ground (arith, mine, tokens)
token_usage-append q calls (row ∷ rows) new n mine tokens =
    ground (arith, token_usage-append q calls rows new n mine tokens)

insert_attempt-tables :
    (new : AttemptRow) (s s' : Calls)
    → insert_attempt new s ≡ ok s'
    → (s'.attempts ≡ s.attempts ++ new ∷ []) × (s'.calls ≡ s.calls)
unfolding insert_attempt
insert_attempt-tables new s s' h = elim (Bool-cases (any (collides new) s.attempts)) [
  | inl taken ↦ absurd (ground (arith, taken))
  | inr free ↦ (ground (arith, free), ground (arith, free))
]

reserve_quote-calls :
    (quote : Option Quote) (attempt : String) (s s' : Calls)
    → reserve_quote quote attempt s ≡ ok s'
    → s'.calls ≡ s.calls
reserve_quote-calls none attempt s s' h = ap (λ (x : Calls). x.calls) (sym (ok-injective s s' h))
reserve_quote-calls (some quote) attempt s s' h =
    let (costs, _, made) = >>=-eq-ok _ (λ costs. ok (record s { costs = costs })) h in
    ap (λ (x : Calls). x.calls) (sym (ok-injective (record s { costs = costs }) s' made))

is_of_quest-found :
    (calls : List CallRow) (call : CallRow) (row : AttemptRow)
    → find_call row.of_call calls ≡ some call
    → is_of_quest call.call_quest calls row ≡ true
unfolding is_of_quest
is_of_quest-found calls call row h = rw (is_of_quest, h) (eq_refl call.call_quest)

exceeds-false : (n m : ℕ) (limit : ℤ) → n ≡ m → exceeds m limit ≡ false → exceeds n limit ≡ false
exceeds-false n m limit same h = ap (λ k. exceeds k limit) same ∙ h

module _ (host : Host) where
  write_retry-token_usage :
      (call : CallRow) (r : Retry) (parameters : Fields) (reserved number : ℕ) (s : Calls)
      (out : AttemptRow) (s' : Calls)
      → find_call call.call_id s.calls ≡ some call
      → write_retry host call r parameters reserved number s ≡ ok (out, s')
      → token_usage call.call_quest s'.calls s'.attempts
        ≡ token_usage call.call_quest s.calls s.attempts + reserved
  unfolding write_retry
  write_retry-token_usage call r parameters reserved number s out s' called h =
      let q = call.call_quest in
      let new =
        new_attempt r.id call.call_id number r.token r.by_adapter r.by_model parameters reserved in
      let (s1, first, rest1) = >>=-eq-ok (insert_attempt new s) _ h in
      let (s2, second, last) = >>=-eq-ok (reserve_quote r.quote r.id s1) _ rest1 in
      let (attempts, calls) = insert_attempt-tables new s s1 first in
      let wrote = updated-calls (find_attempt r.id s2.attempts) _ out s' last in
      let rows : s2.attempts ≡ s.attempts ++ new ∷ [] =
        reserve_quote-attempts r.quote r.id s1 s2 second ∙ attempts in
      let same_calls : s2.calls ≡ s.calls = reserve_quote-calls r.quote r.id s1 s2 second ∙ calls in
      sym (ap (λ (x : Calls). token_usage q x.calls x.attempts) wrote)
      ∙ token_usage-update_call q call.call_id s2.calls s2.attempts
      ∙ ap (λ rows. token_usage q s2.calls rows) rows
      ∙ ap (λ calls. token_usage q calls (s.attempts ++ new ∷ [])) same_calls
      ∙ token_usage-append q s.calls s.attempts new reserved
          (is_of_quest-found s.calls call new called) (omega arith)

  -- A retry that returned was asked for a number of tokens which is not negative; it raised the
  -- token usage of the quest of its call by that number, and the usage is within the limit that
  -- the call was bound to.
  pub retry_model_call-token_usage :
      (id : String) (r : Retry) (s : Calls) (out : AttemptRow) (s' : Calls) (call : CallRow)
      → find_call id s.calls ≡ some call
      → retry_model_call host id r s ≡ ok (out, s')
      → (reserved : ℕ) × (r.reserve ≡ pos reserved)
        × (token_usage call.call_quest s'.calls s'.attempts
            ≡ token_usage call.call_quest s.calls s.attempts + reserved)
        × (exceeds (token_usage call.call_quest s'.calls s'.attempts) call.bound.max_tokens ≡ false)
  retry_model_call-token_usage id r s out s' call called h =
      let done = retry_model_call-IsRetried host id r s out s' h in
      let same : done.call ≡ call = some-injective done.call call (sym done.called ∙ called) in
      subst
        (λ (c : CallRow).
          (reserved : ℕ) × (r.reserve ≡ pos reserved)
          × (token_usage c.call_quest s'.calls s'.attempts
              ≡ token_usage c.call_quest s.calls s.attempts + reserved)
          × (exceeds (token_usage c.call_quest s'.calls s'.attempts) c.bound.max_tokens ≡ false))
        same (raised done)
    where
      raised :
          (done : IsRetried host id r s out s')
          → (reserved : ℕ) × (r.reserve ≡ pos reserved)
            × (token_usage done.call.call_quest s'.calls s'.attempts
                ≡ token_usage done.call.call_quest s.calls s.attempts + reserved)
            × (exceeds
                  (token_usage done.call.call_quest s'.calls s'.attempts)
                  done.call.bound.max_tokens
                ≡ false)
      raised done =
          let usage =
            write_retry-token_usage done.call r done.parameters done.reserved
              (last_number done.call.call_id s.attempts + 1) s out s'
              (subst (λ k. find_call k s.calls ≡ some done.call)
                (sym (find_call-key id s.calls done.call done.called)) done.called)
              done.wrote in
          (
            done.reserved,
            done.amount,
            usage,
            exceeds-false _ _ done.call.bound.max_tokens usage done.within,
          )
