-- ===== src/Calls/Lawful.antt =====
-- Every change of the table v1_model_attempts of backend/app/v1/storage.py keeps it lawful.
use project_town.Base.{
  ◌≤◌, String, ◌≡◌, refl, inl, inr, false, none, List, [], ◌∷◌, All, All-append, arith, ◌==◌,
  Bool-cases,
}
use project_town.Calls.Rows.{
  prepared, dispatched, AttemptRow, is_status, is_current, find_attempt, update_attempt,
}
use project_town.Calls.Retry.{model_max_attempts, cancel, forget, change_all}
use project_town.Calls.Changes.{
  Change, untouched, added, moved, recovered, IsKeyed, IsLawful, winners, wins, winners-append,
  append-IsKeyed, update-IsKeyed, winners-update, wins-moved,
}

-- A change of every row that keeps the key, the number and the call, and makes no winner.
record IsTame (change : AttemptRow → AttemptRow) : Type 0 where
  key : (r : AttemptRow) → (change r).attempt ≡ r.attempt
  order : (r : AttemptRow) → (change r).number ≡ r.number
  tame : (call : String) (r : AttemptRow) → wins call (change r) ≤ wins call r

cancel-IsTame : IsTame cancel
cancel-IsTame = record {
  key = λ r. elim (Bool-cases (is_status r.attempt_status prepared)) [
    | inl p ↦ rw p refl
    | inr p ↦ rw p refl
  ];
  order = λ r. elim (Bool-cases (is_status r.attempt_status prepared)) [
    | inl p ↦ rw p refl
    | inr p ↦ rw p refl
  ];
  tame = λ call r. elim (Bool-cases (is_status r.attempt_status prepared)) [
    | inl p ↦ rw p (ground arith)
    | inr p ↦ rw p (omega arith)
  ];
}

forget-IsTame : IsTame forget
forget-IsTame = record {
  key = λ r. elim (Bool-cases (is_status r.attempt_status dispatched)) [
    | inl p ↦ rw p refl
    | inr p ↦ rw p refl
  ];
  order = λ r. elim (Bool-cases (is_status r.attempt_status dispatched)) [
    | inl p ↦ rw p refl
    | inr p ↦ rw p refl
  ];
  tame = λ call r. elim (Bool-cases (is_status r.attempt_status dispatched)) [
    | inl p ↦ rw p (omega arith)
    | inr p ↦ rw p (omega arith)
  ];
}

module _ (change : AttemptRow → AttemptRow) (t : IsTame change) where
  find_attempt-change_all :
      (id : String) (rows : List AttemptRow)
      → find_attempt id rows ≡ none
      → find_attempt id (change_all change rows) ≡ none
  unfolding find_attempt change_all
  find_attempt-change_all id [] h = refl
  find_attempt-change_all id (row ∷ rows) h =
      rw (t.key row) (ground (arith, find_attempt-change_all id rows))

  change_all-IsKeyed : (rows : List AttemptRow) → IsKeyed rows → IsKeyed (change_all change rows)
  unfolding change_all
  change_all-IsKeyed [] keyed = tt
  change_all-IsKeyed (row ∷ rows) keyed = (
    rw (t.key row) (find_attempt-change_all row.attempt rows keyed.0),
    change_all-IsKeyed rows keyed.1,
  )

  change_all-limited :
      (rows : List AttemptRow)
      → All (λ row. row.number ≤ model_max_attempts) rows
      → All (λ row. row.number ≤ model_max_attempts) (change_all change rows)
  unfolding change_all
  change_all-limited [] h = tt
  change_all-limited (row ∷ rows) h = (rw (t.order row) h.0, change_all-limited rows h.1)

  winners-change_all :
      (call : String) (rows : List AttemptRow)
      → winners call (change_all change rows) ≤ winners call rows
  unfolding winners change_all
  winners-change_all call [] = omega arith
  winners-change_all call (row ∷ rows) =
      omega (arith, t.tame call row, winners-change_all call rows)

  change_all-IsLawful : (rows : List AttemptRow) → IsLawful rows → IsLawful (change_all change rows)
  change_all-IsLawful rows l = record {
    keyed = change_all-IsKeyed rows l.keyed;
    limited = change_all-limited rows l.limited;
    single = λ call. omega (arith, l.single call, winners-change_all call rows);
  }

update-limited :
    (id : String) (change : AttemptRow → AttemptRow) (rows : List AttemptRow)
    → ((r : AttemptRow) → (change r).number ≡ r.number)
    → All (λ row. row.number ≤ model_max_attempts) rows
    → All (λ row. row.number ≤ model_max_attempts) (update_attempt id change rows)
unfolding update_attempt
update-limited id change [] order h = tt
update-limited id change (row ∷ rows) order h = (
  elim (Bool-cases (row.attempt == id)) [
    | inl here ↦ rw here (rw (order row) h.0)
    | inr on ↦ rw on h.0
  ],
  update-limited id change rows order h.1,
)

wins-pending :
    (call : String) (row : AttemptRow) → is_current row.validation ≡ false → wins call row ≡ 0
wins-pending call row h = ground (arith, h)

pub Change-IsLawful :
    (rows rows' : List AttemptRow) → Change rows rows' → IsLawful rows → IsLawful rows'
Change-IsLawful _ _ (untouched rows) l = l
Change-IsLawful _ _ (added new rows free status pending_still number) l = record {
  keyed = append-IsKeyed rows new free l.keyed;
  limited =
      All-append (λ row. row.number ≤ model_max_attempts) rows (new ∷ []) l.limited (number, tt);
  single = λ call.
      omega
        (arith, l.single call, winners-append call rows new, wins-pending call new pending_still);
}
Change-IsLawful _ _ (moved id row change rows found open_still keys calls order free) l = record {
  keyed = update-IsKeyed id change rows keys l.keyed;
  limited = update-limited id change rows order l.limited;
  single = λ call. omega (
    arith,
    winners-update call id row change rows l.keyed found,
    wins-moved call row (change row) rows (calls row) free (l.single call),
  );
}
Change-IsLawful _ _ (recovered rows) l =
    change_all-IsLawful forget forget-IsTame (change_all cancel rows)
      (change_all-IsLawful cancel cancel-IsTame rows l)
