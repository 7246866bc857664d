-- ===== src/Calls/Recovered.antt =====
-- What `recover_model_calls` of backend/app/v1/storage.py leaves.
use project_town.Base.{◌≡◌, refl, inl, inr, false, List, [], ◌∷◌, All, arith, Bool-cases}
use project_town.Calls.Rows.{prepared, dispatched, AttemptRow, Calls, is_status}
use project_town.Calls.Retry.{cancel, forget, change_all, recover_model_calls}
use project_town.Calls.Changes.{is_open}

closes : (row : AttemptRow) → is_open (forget (cancel row)).attempt_status ≡ false
closes row = elim (Bool-cases (is_status row.attempt_status prepared)) [
  | inl early ↦ rw early refl
  | inr not_early ↦ rw not_early (elim (Bool-cases (is_status row.attempt_status dispatched)) [
    | inl sent ↦ rw sent refl
    | inr settled ↦ rw settled (ground (arith, not_early, settled))
  ])
]

change_all-closes :
    (rows : List AttemptRow)
    → All (λ row. is_open row.attempt_status ≡ false) (change_all forget (change_all cancel rows))
unfolding change_all
change_all-closes [] = tt
change_all-closes (row ∷ rows) = (closes row, change_all-closes rows)

-- After a recovery no attempt is prepared or dispatched.
pub recover_model_calls-closed :
    (s : Calls) → All (λ row. is_open row.attempt_status ≡ false) (recover_model_calls s).1.attempts
unfolding recover_model_calls
recover_model_calls-closed s = change_all-closes s.attempts
