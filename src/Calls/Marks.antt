-- ===== src/Calls/Marks.antt =====
-- A model attempt that is marked twice, in backend/app/v1/storage.py.
use mathlib.Core.Path.{subst}
use project_town.Base.{
  String, ◌≡◌, refl, sym, ap, ◌∙◌, inl, inr, true, Option, none, some, arith, Bool-cases,
  Option-cases, some-injective,
}
use project_town.Base.Result.{ok, ok-injective, >>=-eq-ok}
use project_town.Runtime.Json.{Fields}
use project_town.Storage.Db.{Host}
use project_town.Calls.Rows.{
  dispatched, prepared, unknown_outcome, AttemptRow, Calls, is_status, find_attempt, update_attempt,
}
use project_town.Calls.Prepare.{updated, mark_status, mark_model_attempt_dispatched}
use project_town.Calls.Retry.{clean_failure, given, mark_unknown, mark_model_attempt_unknown}
use project_town.Calls.Finals.{find_attempt-key}
use project_town.Calls.Repeats.{find_attempt-update_self}

pub updated-row :
    (found : Option AttemptRow) (s : Calls) (out : AttemptRow) (s' : Calls)
    → updated found s ≡ ok (out, s')
    → (found ≡ some out) × (s ≡ s')
updated-row none s out s' h = cc
updated-row (some row) s out s' h = (cc, cc)

dispatched_answers :
    (id : String) (row : AttemptRow) (s : Calls)
    → find_attempt id s.attempts ≡ some row
    → is_status row.attempt_status dispatched ≡ true
    → mark_model_attempt_dispatched id s ≡ ok (row, s)
unfolding mark_model_attempt_dispatched
dispatched_answers id row s found done = rw found (rw done refl)

-- Where `mark_model_attempt_dispatched` returned a row, it returns the same row when it is called
-- again, and changes nothing.
pub mark_model_attempt_dispatched_repeat :
    (id : String) (s : Calls) (out : AttemptRow) (s' : Calls)
    → mark_model_attempt_dispatched id s ≡ ok (out, s')
    → mark_model_attempt_dispatched id s' ≡ ok (out, s')
unfolding mark_model_attempt_dispatched
mark_model_attempt_dispatched_repeat id s out s' h =
    elim (Option-cases (find_attempt id s.attempts)) [
      | inl missing ↦ absurd (ground (arith, missing))
      | inr (row, found) ↦ elim (Bool-cases (is_status row.attempt_status dispatched)) [
        | inl done ↦
            let same : (row, s) ≡ (out, s') =
              ok-injective (row, s) (out, s') (rw done at (rw found at h)) in
            subst (λ (x : AttemptRow × Calls). mark_model_attempt_dispatched id x.1 ≡ ok x) same
              (dispatched_answers id row s found done)
        | inr new ↦ elim (Bool-cases (is_status row.attempt_status prepared)) [
          | inr refused ↦ absurd (ground (arith, found, new, refused))
          | inl ready ↦
              let change = λ (r : AttemptRow). record r { attempt_status = dispatched } in
              let to = mark_status dispatched id row.of_call s in
              let (read, wrote) =
                updated-row (find_attempt id to.attempts) to out s'
                  (rw ready at (rw new at (rw found at h))) in
              let same : change row ≡ out = some-injective (change row) out (
                sym (find_attempt-update_self id change s.attempts row (λ r. refl) found) ∙ read) in
              subst (λ x. mark_model_attempt_dispatched id x ≡ ok (out, x)) wrote
                (dispatched_answers id out to read
                  (sym (ap (λ (r : AttemptRow). is_status r.attempt_status dispatched) same)))
        ]
      ]
    ]

module _ (host : Host) where
  unknown_answers :
      (id : String) (error : Option Fields) (row : AttemptRow) (s : Calls)
      → find_attempt id s.attempts ≡ some row
      → is_status row.attempt_status unknown_outcome ≡ true
      → mark_model_attempt_unknown host id error s ≡ ok (row, s)
  unfolding mark_model_attempt_unknown
  unknown_answers id error row s found done = rw found (rw done refl)

  -- Where `mark_model_attempt_unknown` returned a row, it returns the same row when it is called
  -- again, with any error, and changes nothing: the first error stays.
  pub mark_model_attempt_unknown_repeat :
      (id : String) (error later : Option Fields) (s : Calls) (out : AttemptRow) (s' : Calls)
      → mark_model_attempt_unknown host id error s ≡ ok (out, s')
      → mark_model_attempt_unknown host id later s' ≡ ok (out, s')
  unfolding mark_model_attempt_unknown
  mark_model_attempt_unknown_repeat id error later s out s' h =
      elim (Option-cases (find_attempt id s.attempts)) [
        | inl missing ↦ absurd (ground (arith, missing))
        | inr (row, found) ↦ elim (Bool-cases (is_status row.attempt_status unknown_outcome)) [
          | inl done ↦
              let same : (row, s) ≡ (out, s') =
                ok-injective (row, s) (out, s') (rw done at (rw found at h)) in
              subst
                (λ (x : AttemptRow × Calls). mark_model_attempt_unknown host id later x.1 ≡ ok x)
                same (unknown_answers id later row s found done)
          | inr new ↦ elim (Bool-cases (is_status row.attempt_status dispatched)) [
            | inr refused ↦ absurd (ground (arith, found, new, refused))
            | inl sent ↦
                let (clean, _, last) =
                  >>=-eq-ok (clean_failure host (given error))
                    (λ clean. mark_unknown host row clean s)
                    (rw sent at (rw new at (rw found at h))) in
                marked_answers id later clean row s out s' found
                  (find_attempt-key id s.attempts row found) last
          ]
        ]
      ]
    where
      marked_answers :
          (id : String) (later clean : Option Fields) (row : AttemptRow) (s : Calls)
          (out : AttemptRow) (s' : Calls)
          → find_attempt id s.attempts ≡ some row
          → row.attempt ≡ id
          → mark_unknown host row clean s ≡ ok (out, s')
          → mark_model_attempt_unknown host id later s' ≡ ok (out, s')
      marked_answers id later clean row s out s' found key last =
          let change =
            λ (r : AttemptRow). record r { attempt_status = unknown_outcome; failure = clean } in
          let attempts = update_attempt row.attempt change s.attempts in
          let (read, wrote) = updated-row (find_attempt row.attempt attempts) _ out s' last in
          let same : change row ≡ out = some-injective (change row) out (
            sym (
              find_attempt-update_self row.attempt change s.attempts row (λ r. refl)
                (subst (λ k. find_attempt k s.attempts ≡ some row) (sym key) found))
            ∙ read) in
          unknown_answers id later out s'
            (subst (λ (x : Calls). find_attempt id x.attempts ≡ some out) wrote
              (subst (λ k. find_attempt k attempts ≡ some out) key read))
            (sym (ap (λ (r : AttemptRow). is_status r.attempt_status unknown_outcome) same))
