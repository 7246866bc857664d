-- ===== src/Storage/LeaseRows.antt =====
-- The rows of the leases table of backend/app/v1/storage.py under calls of several owners.
use mathlib.Core.Path.{subst}
use project_town.Base.{
  ℕ, String, ◌≡◌, ◌≢◌, refl, sym, ap, ◌∙◌, inl, inr, false, not, none, some, List, [], ◌∷◌, ◌++◌,
  filter, arith, is_some, ◌==◌, eq_iff, Bool-cases, if◌then◌else◌,
}
use project_town.Storage.Db.{Lease}
use project_town.Storage.Leases.{find_lease, delete_lease, claim, held_by, renew_rows}

-- The primary key of v1_leases: no quest has two rows.
abbrev pub IsKeyed : List Lease → Type 0
IsKeyed [] = Unit
IsKeyed (row ∷ rows) = (find_lease row.lease_quest rows ≡ none) × IsKeyed rows

pub find_lease-delete_lease :
    (q j : String) (rows : List Lease)
    → find_lease j (delete_lease q rows) ≡ (if q == j then none else find_lease j rows)
unfolding find_lease delete_lease
find_lease-delete_lease q j [] = ground arith
find_lease-delete_lease q j (row ∷ rows) = ground (
  arith,
  eq_iff row.lease_quest q,
  eq_iff row.lease_quest j,
  eq_iff q j,
  find_lease-delete_lease q j rows,
)

pub find_lease-snoc :
    (j : String) (new : Lease) (rows : List Lease)
    → find_lease j (rows ++ new ∷ []) ≡ (
        if is_some (find_lease j rows)
        then find_lease j rows
        else if new.lease_quest == j
        then some new
        else none)
unfolding find_lease
find_lease-snoc j new [] = refl
find_lease-snoc j new (row ∷ rows) = ground (arith, find_lease-snoc j new rows)

-- A claim replaces the row of its quest and no other.
pub find_lease-claim :
    (q j owner : String) (until : ℕ) (rows : List Lease)
    → find_lease j (claim q owner until rows) ≡ (
        if q == j
        then some (record { lease_quest = q; owner = owner; expires_at = until })
        else find_lease j rows)
find_lease-claim q j owner until rows =
    find_lease-snoc j (record { lease_quest = q; owner = owner; expires_at = until })
      (delete_lease q rows)
    ∙ ground (arith, find_lease-delete_lease q j rows)

pub delete_lease-IsKeyed :
    (q : String) (rows : List Lease) → IsKeyed rows → IsKeyed (delete_lease q rows)
unfolding delete_lease
delete_lease-IsKeyed q [] h = tt
delete_lease-IsKeyed q (row ∷ rows) h = elim (Bool-cases (row.lease_quest == q)) [
  | inl gone ↦ rw gone (delete_lease-IsKeyed q rows h.1)
  | inr kept ↦ rw kept (
    find_lease-delete_lease q row.lease_quest rows ∙ ground (arith, h.0),
    delete_lease-IsKeyed q rows h.1,
  )
]

-- With no row of the quest there is nothing to renew or to release.
renew_rows-absent :
    (q owner : String) (now until : ℕ) (rows : List Lease)
    → find_lease q rows ≡ none
    → renew_rows q owner now until rows ≡ rows
unfolding renew_rows find_lease
renew_rows-absent q owner now until [] h = refl
renew_rows-absent q owner now until (r ∷ rows) h = elim (Bool-cases (r.lease_quest == q)) [
  | inl mine ↦ absurd (ground (arith, mine))
  | inr other ↦
      rw other (ap (λ t. r ∷ t) (renew_rows-absent q owner now until rows (rw other at h)))
]

held_absent :
    (q owner : String) (rows : List Lease)
    → find_lease q rows ≡ none
    → filter (λ row. not (held_by q owner row)) rows ≡ rows
unfolding find_lease
held_absent q owner [] h = refl
held_absent q owner (r ∷ rows) h = elim (Bool-cases (r.lease_quest == q)) [
  | inl mine ↦ absurd (ground (arith, mine))
  | inr other ↦ rw other (ap (λ t. r ∷ t) (held_absent q owner rows (rw other at h)))
]

pub not_owner : (row : Lease) (owner : String) → row.owner ≢ owner → (row.owner == owner) ≡ false
not_owner row owner ne = elim (Bool-cases (row.owner == owner)) [
  | inl e ↦ absurd (ne ((eq_iff row.owner owner).0 e))
  | inr e ↦ e
]

-- Where the quest's row has another owner, a renewal and a release find nothing.
pub renew_rows-other :
    (q owner : String) (now until : ℕ) (rows : List Lease) (row : Lease)
    → IsKeyed rows
    → find_lease q rows ≡ some row
    → row.owner ≢ owner
    → renew_rows q owner now until rows ≡ rows
unfolding renew_rows find_lease
renew_rows-other q owner now until [] row k h ne = refl
renew_rows-other q owner now until (r ∷ rows) row k h ne = elim (Bool-cases (r.lease_quest == q)) [
  | inl mine ↦
      let same : r ≡ row = ground (arith, mine) in
      let apart = not_owner r owner (subst (λ (x : Lease). x.owner ≢ owner) (sym same) ne) in
      rw (mine, apart)
        (ap (λ t. r ∷ t)
          (renew_rows-absent q owner now until rows
            (subst (λ k. find_lease k rows ≡ none) ((eq_iff r.lease_quest q).0 mine) k.0)))
  | inr other ↦
      rw other
        (ap (λ t. r ∷ t) (renew_rows-other q owner now until rows row k.1 (rw other at h) ne))
]

pub held_other :
    (q owner : String) (rows : List Lease) (row : Lease)
    → IsKeyed rows
    → find_lease q rows ≡ some row
    → row.owner ≢ owner
    → filter (λ x. not (held_by q owner x)) rows ≡ rows
unfolding find_lease
held_other q owner [] row k h ne = refl
held_other q owner (r ∷ rows) row k h ne = elim (Bool-cases (r.lease_quest == q)) [
  | inl mine ↦
      let same : r ≡ row = ground (arith, mine) in
      let apart = not_owner r owner (subst (λ (x : Lease). x.owner ≢ owner) (sym same) ne) in
      rw (mine, apart)
        (ap (λ t. r ∷ t)
          (held_absent q owner rows
            (subst (λ k. find_lease k rows ≡ none) ((eq_iff r.lease_quest q).0 mine) k.0)))
  | inr other ↦ rw other (ap (λ t. r ∷ t) (held_other q owner rows row k.1 (rw other at h) ne))
]
