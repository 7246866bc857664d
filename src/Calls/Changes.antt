-- ===== src/Calls/Changes.antt =====
-- The ways in which the table v1_model_attempts of backend/app/v1/storage.py changes, and what they
-- keep.
use mathlib.Core.Path.{subst}
use project_town.Base.{
  ℕ, ◌+◌, ◌≤◌, String, ◌≡◌, refl, sym, ap, ◌∙◌, inl, inr, Bool, true, false, ◌&&◌, none, some, List,
  [], ◌∷◌, ◌++◌, All, any, arith, ◌⊎◌, ◌==◌, eq_iff, Bool-cases, some-injective, if◌then◌else◌,
}
use project_town.Calls.Rows.{
  CallStatus, prepared, dispatched, AttemptRow, is_current, find_attempt, update_attempt,
}
use project_town.Calls.Prepare.{collides}
use project_town.Calls.Settle.{has_winner}
use project_town.Calls.Retry.{model_max_attempts, cancel, forget, change_all}

-- The statuses of an attempt that may still change.
abbrev pub is_open : CallStatus → Bool
is_open prepared = true
is_open dispatched = true
is_open _ = false

pub data Change : List AttemptRow → List AttemptRow → Type 0 where
  untouched : (rows : List AttemptRow) → Change rows rows
  added :
      (new : AttemptRow) (rows : List AttemptRow)
      → any (collides new) rows ≡ false
      → new.attempt_status ≡ prepared
      → is_current new.validation ≡ false
      → new.number ≤ model_max_attempts
      → Change rows (rows ++ new ∷ [])
  moved :
      (id : String) (row : AttemptRow) (change : AttemptRow → AttemptRow) (rows : List AttemptRow)
      → find_attempt id rows ≡ some row
      → is_open row.attempt_status ≡ true
      → ((r : AttemptRow) → (change r).attempt ≡ r.attempt)
      → ((r : AttemptRow) → (change r).of_call ≡ r.of_call)
      → ((r : AttemptRow) → (change r).number ≡ r.number)
      → ((change row).validation ≡ row.validation)
        ⊎ ((is_current (change row).validation && has_winner row.of_call rows) ≡ false)
      → Change rows (update_attempt id change rows)
  recovered : (rows : List AttemptRow) → Change rows (change_all forget (change_all cancel rows))

abbrev pub IsKeyed : List AttemptRow → Type 0
IsKeyed [] = Unit
IsKeyed (row ∷ rows) = (find_attempt row.attempt rows ≡ none) × IsKeyed rows

-- The attempts that a call takes for its current winner.
unfoldable pub winners : String → List AttemptRow → ℕ
winners call [] = 0
winners call (row ∷ rows) =
    (if (row.of_call == call) && is_current row.validation then 1 else 0) + winners call rows

abbrev pub wins : String → AttemptRow → ℕ
wins call row = if (row.of_call == call) && is_current row.validation then 1 else 0

-- What the table of attempts keeps: its key, the limit of attempts, and one winner for a call.
pub record IsLawful (rows : List AttemptRow) : Type 0 where
  pub keyed : IsKeyed rows
  pub limited : All (λ row. row.number ≤ model_max_attempts) rows
  pub single : (call : String) → winners call rows ≤ 1

winners-none :
    (call : String) (rows : List AttemptRow) → has_winner call rows ≡ false → winners call rows ≡ 0
unfolding winners
winners-none call [] h = refl
winners-none call (row ∷ rows) h = ground (arith, winners-none call rows)

pub winners-append :
    (call : String) (rows : List AttemptRow) (new : AttemptRow)
    → winners call (rows ++ new ∷ []) ≡ winners call rows + wins call new
unfolding winners
winners-append call [] new = omega arith
winners-append call (row ∷ rows) new = omega (arith, winners-append call rows new)

find_attempt-append :
    (id : String) (rows : List AttemptRow) (new : AttemptRow)
    → find_attempt id rows ≡ none
    → (new.attempt == id) ≡ false
    → find_attempt id (rows ++ new ∷ []) ≡ none
unfolding find_attempt
find_attempt-append id [] new h apart = ground (arith, apart)
find_attempt-append id (row ∷ rows) new h apart =
    ground (arith, find_attempt-append id rows new, apart)

pub append-IsKeyed :
    (rows : List AttemptRow) (new : AttemptRow)
    → any (collides new) rows ≡ false
    → IsKeyed rows
    → IsKeyed (rows ++ new ∷ [])
unfolding find_attempt
append-IsKeyed [] new free keyed = (refl, tt)
append-IsKeyed (row ∷ rows) new free keyed = (
  find_attempt-append row.attempt rows new keyed.0
      (ground (arith, free, eq_iff row.attempt new.attempt, eq_iff new.attempt row.attempt)),
  append-IsKeyed rows new (ground (arith, free)) keyed.1,
)

-- A change of the rows that keeps their keys keeps what is not found.
find_attempt-update_none :
    (id other : String) (change : AttemptRow → AttemptRow) (rows : List AttemptRow)
    → ((r : AttemptRow) → (change r).attempt ≡ r.attempt)
    → find_attempt id rows ≡ none
    → find_attempt id (update_attempt other change rows) ≡ none
unfolding find_attempt update_attempt
find_attempt-update_none id other change [] keeps h = refl
find_attempt-update_none id other change (row ∷ rows) keeps h =
    let rest = find_attempt-update_none id other change rows keeps in
    elim (Bool-cases (row.attempt == other)) [
      | inl here ↦ rw here (rw (keeps row) (ground (arith, rest)))
      | inr on ↦ rw on (ground (arith, rest))
    ]

pub update-IsKeyed :
    (id : String) (change : AttemptRow → AttemptRow) (rows : List AttemptRow)
    → ((r : AttemptRow) → (change r).attempt ≡ r.attempt)
    → IsKeyed rows
    → IsKeyed (update_attempt id change rows)
unfolding update_attempt
update-IsKeyed id change [] keeps keyed = tt
update-IsKeyed id change (row ∷ rows) keeps keyed =
    let rest = find_attempt-update_none row.attempt id change rows keeps keyed.0 in
    (
      elim (Bool-cases (row.attempt == id)) [
        | inl here ↦ rw here (rw (keeps row) rest)
        | inr on ↦ rw on rest
      ],
      update-IsKeyed id change rows keeps keyed.1,
    )

update_attempt-absent :
    (id : String) (change : AttemptRow → AttemptRow) (rows : List AttemptRow)
    → find_attempt id rows ≡ none
    → update_attempt id change rows ≡ rows
unfolding find_attempt update_attempt
update_attempt-absent id change [] h = refl
update_attempt-absent id change (row ∷ rows) h = elim (Bool-cases (row.attempt == id)) [
  | inl here ↦ absurd (ground (arith, here))
  | inr on ↦ rw on (ap (λ rest. row ∷ rest) (update_attempt-absent id change rows (rw on at h)))
]

-- An update of one row changes the number of winners by that row alone.
pub winners-update :
    (call id : String) (row : AttemptRow) (change : AttemptRow → AttemptRow)
    (rows : List AttemptRow)
    → IsKeyed rows
    → find_attempt id rows ≡ some row
    → winners call (update_attempt id change rows) + wins call row
      ≡ winners call rows + wins call (change row)
unfolding winners find_attempt update_attempt
winners-update call id row change [] keyed h = cc
winners-update call id row change (r ∷ rows) keyed h = elim (Bool-cases (r.attempt == id)) [
  | inl here ↦
      let this : r ≡ row = some-injective r row (rw here at h) in
      let absent : find_attempt id rows ≡ none =
        subst (λ k. find_attempt k rows ≡ none) ((eq_iff r.attempt id).0 here) keyed.0 in
      rw here (
        subst
          (λ (x : AttemptRow).
            wins call (change r) + winners call (update_attempt id change rows) + wins call x
            ≡ wins call r + winners call rows + wins call (change x))
          this (omega (arith, ap (winners call) (update_attempt-absent id change rows absent))))
  | inr on ↦ rw on (omega (arith, winners-update call id row change rows keyed.1 (rw on at h)))
]

pub wins-moved :
    (call : String) (row new : AttemptRow) (rows : List AttemptRow)
    → new.of_call ≡ row.of_call
    → (new.validation ≡ row.validation)
      ⊎ ((is_current new.validation && has_winner row.of_call rows) ≡ false)
    → winners call rows ≤ 1
    → winners call rows + wins call new ≤ 1 + wins call row
wins-moved call row new rows same (inl kept) single = rw same (rw kept (omega (arith, single)))
wins-moved call row new rows same (inr free) single =
    elim (Bool-cases ((new.of_call == call) && is_current new.validation)) [
      | inr not_winning ↦ rw not_winning (omega (arith, single))
      | inl winning ↦
          let here : row.of_call ≡ call =
            sym same ∙ (eq_iff new.of_call call).0 (ground (arith, winning)) in
          let none_yet : winners call rows ≡ 0 =
            winners-none call rows
              (subst (λ k. has_winner k rows ≡ false) here (ground (arith, winning, free))) in
          rw winning (omega (arith, none_yet))
    ]
