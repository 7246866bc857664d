-- ===== src/Calls/Repeats.antt =====
-- A success of a model attempt that is reported twice, in backend/app/v1/storage.py.
use mathlib.Core.Path.{subst}
use project_town.Base.{
  String, ◌≡◌, refl, sym, ap, ◌∙◌, inl, inr, true, false, Option, none, some, List, [], ◌∷◌, arith,
  ◌==◌, eq_iff, eq_refl, Bool-cases, Option-cases, some-injective,
}
use project_town.Base.Result.{ok, >>=-eq-ok}
use project_town.Storage.Db.{Host}
use project_town.Costs.Accounts.{settle_cost}
use project_town.Calls.Summary.{require_model_hash}
use project_town.Calls.Rows.{
  CallStatus, succeeded, Validation, validated_current, CallRow, AttemptRow, Calls, find_call,
  find_attempt, update_call, update_attempt,
}
use project_town.Calls.Settle.{
  AttemptAnswer, answered, Cleaned, cleaned, final_validation, settled_row, settled_call,
  settleable, write_settlement, settle_response, settle_model_attempt, differs, Success, success_of,
  record_model_success,
}
use project_town.Calls.Finals.{find_attempt-key}

pub find_attempt-update_self :
    (id : String) (change : AttemptRow → AttemptRow) (rows : List AttemptRow) (row : AttemptRow)
    → ((r : AttemptRow) → (change r).attempt ≡ r.attempt)
    → find_attempt id rows ≡ some row
    → find_attempt id (update_attempt id change rows) ≡ some (change row)
unfolding find_attempt update_attempt
find_attempt-update_self id change [] row keys h = cc
find_attempt-update_self id change (r ∷ rows) row keys h = elim (Bool-cases (r.attempt == id)) [
  | inl here ↦
      let test : ((change r).attempt == id) ≡ true = ap (λ k. k == id) (keys r) ∙ here in
      rw here (rw test (ap (λ x. some (change x)) (some-injective r row (rw here at h))))
  | inr on ↦ rw on (rw on (find_attempt-update_self id change rows row keys (rw on at h)))
]

find_call-update_self :
    (id : String) (change : CallRow → CallRow) (rows : List CallRow) (row : CallRow)
    → ((r : CallRow) → (change r).call_id ≡ r.call_id)
    → find_call id rows ≡ some row
    → find_call id (update_call id change rows) ≡ some (change row)
unfolding find_call update_call
find_call-update_self id change [] row keys h = cc
find_call-update_self id change (r ∷ rows) row keys h = elim (Bool-cases (r.call_id == id)) [
  | inl here ↦
      let test : ((change r).call_id == id) ≡ true = ap (λ k. k == id) (keys r) ∙ here in
      rw here (rw test (ap (λ x. some (change x)) (some-injective r row (rw here at h))))
  | inr on ↦ rw on (rw on (find_call-update_self id change rows row keys (rw on at h)))
]

-- The key, the quest and the input hash of a call are not changed.
record IsSameCall (r r' : CallRow) : Type 0 where
  id : r'.call_id ≡ r.call_id
  quest : r'.call_quest ≡ r.call_quest
  input : r'.input_hash ≡ r.input_hash

module _ (host : Host) where
  settled_call-IsSameCall :
      (status : CallStatus) (attempt : String) (v : Validation) (r : CallRow)
      → IsSameCall r (settled_call host status attempt v r)
  settled_call-IsSameCall status attempt validated_current r = elim (Option-cases r.winner) [
    | inl open_still ↦ rw open_still (record { id = refl; quest = refl; input = refl })
    | inr (other, taken) ↦ rw taken (record { id = refl; quest = refl; input = refl })
  ]
  settled_call-IsSameCall status attempt _ r = record { id = refl; quest = refl; input = refl }

  -- The answer to a callback that is reported again: the row of the join
  abbrev pub answer_again : AttemptRow → String → AttemptAnswer
  answer_again row quest = record { attempt_row = row; joined_quest = some quest }

  same_quest : (quest actual : String) → differs (some quest) actual ≡ false → actual ≡ quest
  same_quest quest actual h = (eq_iff actual quest).0 (ground (arith, h))

  same_response :
      (stored : Option String) (a : Success) (c : Cleaned) (row : AttemptRow) (call : CallRow)
      (s : Calls)
      → differs (some a.quest) call.call_quest ≡ false
      → stored ≡ some a.response_hash
      → settle_response host stored (success_of host a) c row call s
        ≡ ok (answer_again row a.quest, s)
  same_response stored a c row call s quest response = rw response (
      rw (eq_refl a.response_hash)
        (ap (λ q. ok (answer_again row q, s)) (same_quest a.quest call.call_quest quest)))

  -- A settled attempt answers the same callback with its row.
  settled_answers :
      (id : String) (a : Success) (c : Cleaned) (row : AttemptRow) (call : CallRow) (s : Calls)
      → cleaned host (success_of host a) ≡ ok c
      → find_attempt id s.attempts ≡ some row
      → find_call row.of_call s.calls ≡ some call
      → differs (some a.quest) call.call_quest ≡ false
      → differs (some a.input_hash) call.input_hash ≡ false
      → row.response_hash ≡ some a.response_hash
      → settle_model_attempt host id (success_of host a) s ≡ ok (answer_again row a.quest, s)
  unfolding settle_model_attempt
  settled_answers id a c row call s clean found called quest input response = rw clean (
      rw found (
        rw called
          (rw quest (rw input (same_response row.response_hash a c row call s quest response)))))

  answered-row :
      (found : Option AttemptRow) (s : Calls) (out : AttemptAnswer) (s' : Calls)
      → answered found s ≡ ok (out, s')
      → found ≡ some out.attempt_row × s ≡ s'
  answered-row none s out s' h = cc
  answered-row (some row) s out s' h = (cc, cc)

  -- What `_settle_model_attempt` wrote answers the same callback.
  write_settlement_answers :
      (id : String) (a : Success) (c : Cleaned) (v : Validation) (row : AttemptRow) (call : CallRow)
      (s : Calls) (out : AttemptAnswer) (s' : Calls)
      → cleaned host (success_of host a) ≡ ok c
      → find_attempt id s.attempts ≡ some row
      → row.attempt ≡ id
      → find_call row.of_call s.calls ≡ some call
      → differs (some a.quest) call.call_quest ≡ false
      → differs (some a.input_hash) call.input_hash ≡ false
      → write_settlement host (success_of host a) c v row s ≡ ok (out, s')
      → settle_model_attempt host id (success_of host a) s'
        ≡ ok (answer_again out.attempt_row a.quest, s')
  unfolding write_settlement
  write_settlement_answers id a c v row call s out s' clean found key called quest input h =
      let settle = success_of host a in
      let change = settled_row host settle c v in
      let move = settled_call host succeeded row.attempt v in
      let attempts = update_attempt row.attempt change s.attempts in
      let (costs, _, last) =
        >>=-eq-ok (settle_cost row.attempt c.input_count c.output_count s.costs) _ h in
      let (read, wrote) = answered-row (find_attempt row.attempt attempts) _ out s' last in
      let same : change row ≡ out.attempt_row = some-injective (change row) out.attempt_row (
        sym (
          find_attempt-update_self row.attempt change s.attempts row (λ r. refl)
            (subst (λ k. find_attempt k s.attempts ≡ some row) (sym key) found))
        ∙ read) in
      let kept = settled_call-IsSameCall succeeded row.attempt v call in
      let stored : find_call row.of_call s'.calls ≡ some (move call) =
        subst (λ (x : Calls). find_call row.of_call x.calls ≡ some (move call)) wrote
          (find_call-update_self row.of_call move s.calls call
            (λ r. (settled_call-IsSameCall succeeded row.attempt v r).id) called) in
      settled_answers id a c out.attempt_row (move call) s' clean
        (subst (λ k. find_attempt k s'.attempts ≡ some out.attempt_row) key
          (subst (λ (x : Calls). find_attempt row.attempt x.attempts ≡ some out.attempt_row) wrote
            read))
        (subst (λ (r : AttemptRow). find_call r.of_call s'.calls ≡ some (move call)) same stored)
        (ap (λ q. differs (some a.quest) q) kept.quest ∙ quest)
        (ap (λ q. differs (some a.input_hash) q) kept.input ∙ input)
        (sym (ap (λ (r : AttemptRow). r.response_hash) same))

  settle_response_answers :
      (id : String) (stored : Option String) (a : Success) (c : Cleaned) (row : AttemptRow)
      (call : CallRow) (s : Calls) (out : AttemptAnswer) (s' : Calls)
      → settle_model_attempt host id (success_of host a) s ≡ ok (out, s')
      → cleaned host (success_of host a) ≡ ok c
      → find_attempt id s.attempts ≡ some row
      → row.attempt ≡ id
      → find_call row.of_call s.calls ≡ some call
      → differs (some a.quest) call.call_quest ≡ false
      → differs (some a.input_hash) call.input_hash ≡ false
      → settle_response host stored (success_of host a) c row call s ≡ ok (out, s')
      → settle_model_attempt host id (success_of host a) s'
        ≡ ok (answer_again out.attempt_row a.quest, s')
  settle_response_answers id (some stored) a c row call s out s' whole clean found key called quest
        input h =
      let same : s ≡ s' = ground arith in
      let made : answer_again row call.call_quest ≡ out = ground arith in
      let shape : out ≡ answer_again out.attempt_row a.quest =
        subst (λ (o : AttemptAnswer). o ≡ answer_again o.attempt_row a.quest) made
          (ap (answer_again row) (same_quest a.quest call.call_quest quest)) in
      subst (λ x. settle_model_attempt host id (success_of host a) x ≡ ok (out, s')) same whole
      ∙ ap (λ o. ok (o, s')) shape
  settle_response_answers id none a c row call s out s' whole clean found key called quest input h =
      let settle = success_of host a in
      elim (Bool-cases (settleable host true row.attempt_status)) [
        | inr final ↦ absurd (ground (arith, final))
        | inl still_open ↦
            let (v, _, last) =
              >>=-eq-ok (final_validation host settle call s)
                (λ v. write_settlement host settle c v row s) (rw still_open at h) in
            write_settlement_answers id a c v row call s out s' clean found key called quest input
              last
      ]

  settle_model_attempt_repeat :
      (id : String) (a : Success) (s : Calls) (out : AttemptAnswer) (s' : Calls)
      → settle_model_attempt host id (success_of host a) s ≡ ok (out, s')
      → settle_model_attempt host id (success_of host a) s'
        ≡ ok (answer_again out.attempt_row a.quest, s')
  unfolding settle_model_attempt
  settle_model_attempt_repeat id a s out s' h =
      let (c, clean, rest) = >>=-eq-ok (cleaned host (success_of host a)) _ h in
      elim (Option-cases (find_attempt id s.attempts)) [
        | inl missing ↦ absurd (ground (arith, missing))
        | inr (row, found) ↦ elim (Option-cases (find_call row.of_call s.calls)) [
          | inl lost ↦ absurd (ground (arith, found, lost))
          | inr (call, called) ↦ elim (Bool-cases (differs (some a.quest) call.call_quest)) [
            | inl other ↦ absurd (ground (arith, found, called, other))
            | inr quest ↦ elim (Bool-cases (differs (some a.input_hash) call.input_hash)) [
              | inl other ↦ absurd (ground (arith, found, called, quest, other))
              | inr input ↦
                  settle_response_answers id row.response_hash a c row call s out s' h clean found
                    (find_attempt-key id s.attempts row found) called quest input
                    (rw input at (rw quest at (rw called at (rw found at rest))))
            ]
          ]
        ]
      ]

  -- Where `record_model_success` returned, the same callback returns the same attempt again, as the
  -- row of the join that has the quest as well, and leaves every table as the first one left it.
  pub record_model_success_repeat :
      (id : String) (a : Success) (s : Calls) (out : AttemptAnswer) (s' : Calls)
      → record_model_success host id a s ≡ ok (out, s')
      → record_model_success host id a s' ≡ ok (answer_again out.attempt_row a.quest, s')
  unfolding record_model_success
  record_model_success_repeat id a s out s' h =
      let (input, good_input, rest) = >>=-eq-ok (require_model_hash a.input_hash) _ h in
      let (response, good_response, last) = >>=-eq-ok (require_model_hash a.response_hash) _ rest in
      rw good_input (rw good_response (settle_model_attempt_repeat id a s out s' last))
