-- ===== src/Calls/Finals.antt =====
-- An attempt that is settled, or of unknown outcome, is not changed again.
use mathlib.Core.Path.{subst}
use project_town.Base.{
  String, ◌≡◌, refl, sym, ap, ◌∙◌, inl, inr, true, false, some, List, [], ◌∷◌, ◌++◌, arith, ◌==◌,
  eq_iff, Bool-cases, some-injective,
}
use project_town.Calls.Rows.{
  CallStatus, prepared, dispatched, AttemptRow, is_status, find_attempt, update_attempt,
}
use project_town.Calls.Retry.{cancel, forget, change_all}
use project_town.Calls.Changes.{Change, untouched, added, moved, recovered, is_open}

find_attempt-append_some :
    (id : String) (rows : List AttemptRow) (new row : AttemptRow)
    → find_attempt id rows ≡ some row
    → find_attempt id (rows ++ new ∷ []) ≡ some row
unfolding find_attempt
find_attempt-append_some id [] new row h = cc
find_attempt-append_some id (r ∷ rows) new row h =
    ground (arith, find_attempt-append_some id rows new row)

pub find_attempt-key :
    (id : String) (rows : List AttemptRow) (row : AttemptRow)
    → find_attempt id rows ≡ some row
    → row.attempt ≡ id
unfolding find_attempt
find_attempt-key id [] row h = cc
find_attempt-key id (r ∷ rows) row h = elim (Bool-cases (r.attempt == id)) [
  | inl here ↦
      subst (λ (x : AttemptRow). x.attempt ≡ id) (some-injective r row (rw here at h))
        ((eq_iff r.attempt id).0 here)
  | inr on ↦ find_attempt-key id rows row (rw on at h)
]

find_attempt-update_ne :
    (id other : String) (change : AttemptRow → AttemptRow) (rows : List AttemptRow)
    (row : AttemptRow)
    → ((r : AttemptRow) → (change r).attempt ≡ r.attempt)
    → (id == other) ≡ false
    → find_attempt id rows ≡ some row
    → find_attempt id (update_attempt other change rows) ≡ some row
unfolding find_attempt update_attempt
find_attempt-update_ne id other change [] row keys apart h = cc
find_attempt-update_ne id other change (r ∷ rows) row keys apart h =
    let rest = find_attempt-update_ne id other change rows row keys apart in
    elim (Bool-cases (r.attempt == other)) [
      | inl changed ↦
          let elsewhere : (r.attempt == id) ≡ false =
            ground (
              arith,
              changed,
              apart,
              eq_iff r.attempt other,
              eq_iff r.attempt id,
              eq_iff id other,
            ) in
          rw changed (rw (keys r) (rw elsewhere (rest (rw elsewhere at h))))
      | inr kept ↦ rw kept (ground (arith, rest))
    ]

find_attempt-change_all :
    (id : String) (change : AttemptRow → AttemptRow) (rows : List AttemptRow) (row : AttemptRow)
    → ((r : AttemptRow) → (change r).attempt ≡ r.attempt)
    → find_attempt id rows ≡ some row
    → find_attempt id (change_all change rows) ≡ some (change row)
unfolding find_attempt change_all
find_attempt-change_all id change [] row keys h = cc
find_attempt-change_all id change (r ∷ rows) row keys h = elim (Bool-cases (r.attempt == id)) [
  | inl here ↦
      let test : ((change r).attempt == id) ≡ true = ap (λ k. k == id) (keys r) ∙ here in
      rw test (ap (λ x. some (change x)) (some-injective r row (rw here at h)))
  | inr on ↦
      let test : ((change r).attempt == id) ≡ false = ap (λ k. k == id) (keys r) ∙ on in
      rw test ((find_attempt-change_all id change rows row keys (rw on at h)))
]

cancel-key : (r : AttemptRow) → (cancel r).attempt ≡ r.attempt
cancel-key r = elim (Bool-cases (is_status r.attempt_status prepared)) [
  | inl p ↦ rw p refl
  | inr p ↦ rw p refl
]

forget-key : (r : AttemptRow) → (forget r).attempt ≡ r.attempt
forget-key r = elim (Bool-cases (is_status r.attempt_status dispatched)) [
  | inl p ↦ rw p refl
  | inr p ↦ rw p refl
]

closed-not :
    (s : CallStatus)
    → is_open s ≡ false
    → (is_status s prepared ≡ false) × (is_status s dispatched ≡ false)
closed-not s h = ground arith

pub Change-final :
    (id : String) (rows rows' : List AttemptRow) (row : AttemptRow)
    → Change rows rows'
    → is_open row.attempt_status ≡ false
    → find_attempt id rows ≡ some row
    → find_attempt id rows' ≡ some row
Change-final id _ _ row (untouched rows) closed found = found
Change-final id _ _ row (added new rows free status pending_still number) closed found =
    find_attempt-append_some id rows new row found
Change-final id _ _ row (moved other old change rows there open_still keys calls order free) closed
      found =
    elim (Bool-cases (id == other)) [
      | inl same ↦
          let this : old ≡ row =
            some-injective old row (
              sym there ∙ sym (ap (λ k. find_attempt k rows) ((eq_iff id other).0 same)) ∙ found) in
          absurd (ground (arith, open_still, closed, this))
      | inr apart ↦ find_attempt-update_ne id other change rows row keys apart found
    ]
Change-final id _ _ row (recovered rows) closed found =
    let (not_prepared, not_dispatched) = closed-not row.attempt_status closed in
    let first : find_attempt id (change_all cancel rows) ≡ some row =
      find_attempt-change_all id cancel rows row cancel-key found ∙ rw not_prepared refl in
    find_attempt-change_all id forget (change_all cancel rows) row forget-key first
    ∙ rw not_dispatched refl
