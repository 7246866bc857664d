-- ===== src/Costs/Spending.antt =====
-- Sequences of reservations, settlements, releases and unknown outcomes on the cost accounts.
use mathlib.Core.Path.{subst}
use project_town.Base.{
  ℕ, ◌+◌, ◌≤◌, String, ◌≡◌, refl, inl, inr, true, false, Option, none, some, List, [], ◌∷◌, ◌++◌,
  ltb, arith, eq_refl, Bool-cases,
}
use project_town.Base.Result.{Result, ok, err, >>=-eq-ok, ok-injective}
use project_town.Costs.Accounts.{
  Account, Reservation, CostDb, find_account, find_reservation, ensure_row, same_account, usage,
  reserve_cost, reserve_with, reserve_for, reserve_new, reserve_validated, settle_cost,
  release_cost, mark_cost_unknown,
}
use project_town.Costs.Prices.{Profile, Quote, same_quote, validated_cost_reservation}
use project_town.Costs.Bounds.{
  IsWithin, settle_cost-IsWithin, release_cost-IsWithin, mark_cost_unknown-IsWithin,
}
use project_town.Costs.Reserves.{reserve_cost-IsWithin, hold}

-- A call of one of the four functions in a transaction of its own.
pub data Spending : Type 0 where
  reserve : String → Quote → Spending
  settle : String → ℕ → ℕ → Spending
  release mark_unknown : String → Spending

-- A transaction that raises is rolled back.
abbrev or_rolled_back : CostDb → Result CostDb → CostDb
or_rolled_back db (ok db') = db'
or_rolled_back db (err e) = db

unfoldable pub run_spending : Spending → CostDb → CostDb
unfolding reserve_cost settle_cost release_cost mark_cost_unknown
run_spending (reserve attempt value) db = or_rolled_back db (reserve_cost attempt value db)
run_spending (settle attempt input output) db =
    or_rolled_back db (settle_cost attempt input output db)
run_spending (release attempt) db = release_cost attempt db
run_spending (mark_unknown attempt) db = mark_cost_unknown attempt db

unfoldable pub run_spendings : List Spending → CostDb → CostDb
unfolding run_spending
run_spendings [] db = db
run_spendings (op ∷ ops) db = run_spendings ops (run_spending op db)

abbrev pub no_costs : CostDb
no_costs = record { accounts = []; reservations = [] }

rolled_back-IsWithin :
    (db : CostDb) (r : Result CostDb)
    → ((db' : CostDb) → r ≡ ok db' → IsWithin db')
    → IsWithin db
    → IsWithin (or_rolled_back db r)
rolled_back-IsWithin db (ok db') kept w = kept db' refl
rolled_back-IsWithin db (err e) kept w = w

run_spending-IsWithin : (op : Spending) (db : CostDb) → IsWithin db → IsWithin (run_spending op db)
unfolding run_spending
run_spending-IsWithin (reserve attempt value) db w =
    rolled_back-IsWithin db (reserve_cost attempt value db)
      (λ db' e. reserve_cost-IsWithin attempt value db db' w e) w
run_spending-IsWithin (settle attempt input output) db w =
    rolled_back-IsWithin db (settle_cost attempt input output db)
      (λ db' e. settle_cost-IsWithin attempt input output db db' w e) w
run_spending-IsWithin (release attempt) db w = release_cost-IsWithin attempt db w
run_spending-IsWithin (mark_unknown attempt) db w = mark_cost_unknown-IsWithin attempt db w

run_spendings-IsWithin :
    (ops : List Spending) (db : CostDb) → IsWithin db → IsWithin (run_spendings ops db)
unfolding run_spendings
run_spendings-IsWithin [] db w = w
run_spendings-IsWithin (op ∷ ops) db w =
    run_spendings-IsWithin ops (run_spending op db) (run_spending-IsWithin op db w)

no_costs-IsWithin : IsWithin no_costs
unfolding find_account
no_costs-IsWithin = record { bounded = λ id a h b. cc; owned = tt }

-- After any sequence of reservations, settlements, releases and unknown outcomes on empty tables,
-- an account that is not marked breached has at most its total settled and held together.
pub spending_bounded :
    (ops : List Spending) (id : String) (a : Account)
    → find_account id (run_spendings ops no_costs).accounts ≡ some a
    → a.breached ≡ false
    → usage id (run_spendings ops no_costs).reservations ≤ a.account_max_total
spending_bounded ops = (run_spendings-IsWithin ops no_costs no_costs-IsWithin).bounded

same_quote_refl : (q : Quote) → same_quote q q ≡ true
unfolding same_quote
same_quote_refl q = ground (
  arith,
  eq_refl q.account_id,
  eq_refl q.quote_provider,
  eq_refl q.quote_alias,
  eq_refl q.quote_snapshot,
  eq_refl q.quote_pricing,
)

ensure_row_known :
    (p : Profile) (rows : List Account) (a : Account)
    → find_account p.profile_account rows ≡ some a
    → ensure_row p rows ≡ rows
unfolding ensure_row
ensure_row_known p rows a h = rw h refl

find_reservation-append :
    (attempt : String) (q : Quote) (rows : List Reservation)
    → find_reservation attempt rows ≡ none
    → find_reservation attempt (rows ++ hold attempt q ∷ []) ≡ some (hold attempt q)
unfolding find_reservation
find_reservation-append attempt q [] h = ground (arith, eq_refl attempt)
find_reservation-append attempt q (r ∷ rows) h =
    ground (arith, h, find_reservation-append attempt q rows)

-- A reservation that is in its table is found again.
reserve_known :
    (attempt : String) (q : Quote) (p : Profile) (account : Account) (row : Reservation)
    (db : CostDb)
    → find_account p.profile_account db.accounts ≡ some account
    → same_account account p ≡ true
    → find_reservation attempt db.reservations ≡ some row
    → same_quote row.quote q ≡ true
    → reserve_validated attempt (q, p) db ≡ ok db
reserve_known attempt q p account row db found same there equal =
    rw (ensure_row_known p db.accounts account found)
      (rw found (rw same (rw there (rw equal refl))))

reserve_new-ok :
    (account : Account) (attempt : String) (q : Quote) (p : Profile) (db db' : CostDb)
    → reserve_new account attempt q p db ≡ ok db'
    → record db { reservations = db.reservations ++ hold attempt q ∷ [] } ≡ db'
reserve_new-ok account attempt q p db db' h = elim (Bool-cases account.breached) [
  | inl b ↦ absurd (ground (arith, h, b))
  | inr whole ↦
      elim (Bool-cases
        (ltb p.max_total (usage q.account_id db.reservations + q.reserved_micro_cny))) [
          | inl over ↦ absurd (ground (arith, h, whole, over))
          | inr under ↦ ok-injective _ db' (rw under at (rw whole at h))
        ]
]

reserve_validated_repeat :
    (attempt : String) (q : Quote) (p : Profile) (db db' : CostDb)
    → reserve_validated attempt (q, p) db ≡ ok db'
    → reserve_validated attempt (q, p) db' ≡ ok db'
reserve_validated_repeat attempt q p db db' h =
    by-account (find_account p.profile_account (ensure_row p db.accounts)) refl h
  where
    ensured : CostDb
    ensured = record db { accounts = ensure_row p db.accounts }

    by-existing :
        (r : Option Reservation) (account : Account)
        → find_reservation attempt db.reservations ≡ r
        → find_account p.profile_account ensured.accounts ≡ some account
        → same_account account p ≡ true
        → reserve_for r account attempt q p ensured ≡ ok db'
        → reserve_validated attempt (q, p) db' ≡ ok db'
    by-existing none account there found same e =
        subst (λ x. reserve_validated attempt (q, p) x ≡ ok x)
          (reserve_new-ok account attempt q p ensured db' e)
          (reserve_known attempt q p account (hold attempt q)
            (record ensured { reservations = db.reservations ++ hold attempt q ∷ [] }) found same
            (find_reservation-append attempt q db.reservations there) (same_quote_refl q))
    by-existing (some row) account there found same e = elim (Bool-cases (same_quote row.quote q)) [
      | inl t ↦
          subst (λ x. reserve_validated attempt (q, p) x ≡ ok x)
            (ok-injective ensured db' (rw t at e))
            (reserve_known attempt q p account row ensured found same there t)
      | inr f ↦ absurd (ground (arith, e, f))
    ]

    by-account :
        (a : Option Account)
        → find_account p.profile_account ensured.accounts ≡ a
        → reserve_with a attempt q p ensured ≡ ok db'
        → reserve_validated attempt (q, p) db' ≡ ok db'
    by-account none found e = cc
    by-account (some account) found e = elim (Bool-cases (same_account account p)) [
      | inl t ↦
          by-existing (find_reservation attempt db.reservations) account refl found t (rw t at e)
      | inr f ↦ absurd (ground (arith, e, f))
    ]

-- A reservation that was accepted is accepted again with the same quote, and the second call
-- changes nothing.
pub reserve_cost_repeat :
    (attempt : String) (value : Quote) (db db' : CostDb)
    → reserve_cost attempt value db ≡ ok db'
    → reserve_cost attempt value db' ≡ ok db'
unfolding reserve_cost
reserve_cost_repeat attempt value db db' h =
    let ((q, p), checked, e) =
      >>=-eq-ok (validated_cost_reservation value) (λ checked. reserve_validated attempt checked db)
        h in
    rw checked (reserve_validated_repeat attempt q p db db' e)
