-- ===== src/Costs/Accounts.antt =====
-- The cost accounts and reservations of backend/app/v1/storage.py. The keys `account_id` and
-- `attempt_id` are primary keys, so an UPDATE changes one row.
use project_town.Base.{
  ℕ, ◌+◌, ◌*◌, String, Bool, true, false, ◌&&◌, Option, none, some, List, [], ◌∷◌, ◌++◌, find, ltb,
  nat_eq, is_some, ◌==◌, if◌then◌else◌,
}
use project_town.Base.Result.{
  Result, ok, err, value_error, runtime_error, total_budget_exceeded, account_breached,
  reservation_conflict, reservation_released, ◌>>=◌,
}
use project_town.Costs.Prices.{Profile, Quote, find_profile, same_quote, validated_cost_reservation}

-- v1_model_cost_accounts
pub record Account : Type 0 where
  pub id : String
  pub account_provider : String
  pub account_alias : String
  pub account_snapshot : String
  pub account_pricing : String
  pub account_fx : ℕ
  pub account_max_call : ℕ
  pub account_max_total : ℕ
  pub breached : Bool

pub data CostStatus : Type 0 where
  held settled released unknown : CostStatus

-- v1_model_cost_reservations; a NULL `settled_micro_cny`, which only a settled row has read, is 0.
pub record Reservation : Type 0 where
  pub attempt_id : String
  pub quote : Quote
  pub settled_micro_cny : ℕ
  pub cost_status : CostStatus

pub record CostDb : Type 0 where
  pub accounts : List Account
  pub reservations : List Reservation

unfoldable pub find_account : String → List Account → Option Account
find_account id rows = find (λ row. row.id == id) rows

unfoldable pub find_reservation : String → List Reservation → Option Reservation
find_reservation id rows = find (λ row. row.attempt_id == id) rows

unfoldable pub replace_reservation : String → Reservation → List Reservation → List Reservation
replace_reservation id new [] = []
replace_reservation id new (row ∷ rows) =
    if row.attempt_id == id then new ∷ rows else row ∷ replace_reservation id new rows

-- `UPDATE v1_model_cost_accounts SET breached=1 WHERE account_id=?`
unfoldable pub breach : String → List Account → List Account
breach id [] = []
breach id (row ∷ rows) =
    (if row.id == id then record row { breached = true } else row) ∷ breach id rows

abbrev pub account_of : Profile → Account
account_of p = record {
  id = p.profile_account;
  account_provider = p.provider;
  account_alias = p.model_alias;
  account_snapshot = p.model_snapshot;
  account_pricing = p.pricing_version;
  account_fx = p.fx;
  account_max_call = p.max_call;
  account_max_total = p.max_total;
  breached = false;
}

-- `INSERT … ON CONFLICT(account_id) DO NOTHING`
unfoldable pub ensure_row : Profile → List Account → List Account
unfolding find_account
ensure_row p rows =
    if is_some (find_account p.profile_account rows) then rows else rows ++ account_of p ∷ []

unfoldable pub same_account : Account → Profile → Bool
same_account a p =
    (a.account_provider == p.provider)
    && (a.account_alias == p.model_alias)
    && (a.account_snapshot == p.model_snapshot)
    && (a.account_pricing == p.pricing_version)
    && nat_eq a.account_fx p.fx
    && nat_eq a.account_max_call p.max_call
    && nat_eq a.account_max_total p.max_total

-- What a reservation counts for in `_cost_usage_locked`: `settled` and `held` together.
abbrev pub charge : CostStatus → ℕ → ℕ → ℕ
charge settled actual reserved = actual
charge held actual reserved = reserved
charge unknown actual reserved = reserved
charge released actual reserved = 0

-- The sum of the two aggregates of `_cost_usage_locked`.
unfoldable pub usage : String → List Reservation → ℕ
usage id [] = 0
usage id (row ∷ rows) =
    (if row.quote.account_id == id
      then charge row.cost_status row.settled_micro_cny row.quote.reserved_micro_cny
      else 0)
    + usage id rows

abbrev pub reserve_new : Account → String → Quote → Profile → CostDb → Result CostDb
reserve_new account attempt q p db =
    if account.breached
    then err (value_error account_breached)
    else if ltb p.max_total (usage q.account_id db.reservations + q.reserved_micro_cny)
    then err (value_error total_budget_exceeded)
    else ok (record db {
      reservations =
          db.reservations
          ++ record { attempt_id = attempt; quote = q; settled_micro_cny = 0; cost_status = held }
            ∷ [];
    })

abbrev pub reserve_for :
    Option Reservation → Account → String → Quote → Profile → CostDb → Result CostDb
reserve_for none account attempt q p db = reserve_new account attempt q p db
reserve_for (some existing) account attempt q p db =
    if same_quote existing.quote q then ok db else err (value_error reservation_conflict)

-- `_ensure_cost_account_locked` raises where the account is bound to another profile.
abbrev pub reserve_with : Option Account → String → Quote → Profile → CostDb → Result CostDb
reserve_with none attempt q p db = err runtime_error
reserve_with (some account) attempt q p db =
    if same_account account p
    then reserve_for (find_reservation attempt db.reservations) account attempt q p db
    else err runtime_error

abbrev pub reserve_validated : String → Quote × Profile → CostDb → Result CostDb
reserve_validated attempt (q, p) db =
    let accounts = ensure_row p db.accounts in
    reserve_with (find_account p.profile_account accounts) attempt q p
      (record db { accounts = accounts })

-- `_reserve_cost_locked`
unfoldable pub reserve_cost : String → Quote → CostDb → Result CostDb
unfolding validated_cost_reservation ensure_row find_account same_account find_reservation usage
reserve_cost attempt value db = do
  checked ← validated_cost_reservation value
  reserve_validated attempt checked db

-- The writes of `_settle_cost_locked`.
abbrev pub settle_row : Reservation → ℕ → CostDb → CostDb
settle_row row actual db =
    let new : Reservation = record row { settled_micro_cny = actual; cost_status = settled } in
    record db {
      reservations = replace_reservation row.attempt_id new db.reservations;
      accounts =
          if ltb row.quote.reserved_micro_cny actual
          then breach row.quote.account_id db.accounts
          else db.accounts;
    }

abbrev pub settle_priced : Option Profile → Reservation → ℕ → ℕ → CostDb → Result CostDb
settle_priced none row input output db = err runtime_error
settle_priced (some p) row input output db =
    ok (settle_row row (input * p.input_rate + output * p.output_rate) db)

abbrev pub settle_status : CostStatus → Reservation → ℕ → ℕ → CostDb → Result CostDb
settle_status settled row input output db = ok db
settle_status released row input output db = err (value_error reservation_released)
settle_status held row input output db =
    settle_priced (find_profile row.quote.quote_provider row.quote.quote_snapshot) row input output
      db
settle_status unknown row input output db =
    settle_priced (find_profile row.quote.quote_provider row.quote.quote_snapshot) row input output
      db

abbrev pub settle_found : Option Reservation → ℕ → ℕ → CostDb → Result CostDb
settle_found none input output db = ok db
settle_found (some row) input output db = settle_status row.cost_status row input output db

-- `_settle_cost_locked`
unfoldable pub settle_cost : String → ℕ → ℕ → CostDb → Result CostDb
unfolding find_reservation replace_reservation breach find_profile
settle_cost attempt input output db =
    settle_found (find_reservation attempt db.reservations) input output db

-- What `_release_cost_locked` writes to a row.
abbrev pub released_row : Reservation → Reservation
released_row row = record row { settled_micro_cny = 0; cost_status = released }

-- What `mark_model_attempt_unknown` writes to a row.
abbrev pub unknown_row : Reservation → Reservation
unknown_row row = record row { cost_status = unknown }

-- An UPDATE of the row of an attempt that is still held.
abbrev pub update_held : Option Reservation → (Reservation → Reservation) → CostDb → CostDb
update_held none change db = db
update_held (some row) change db = elim row.cost_status [
  | held ↦ record db {
    reservations = replace_reservation row.attempt_id (change row) db.reservations;
  }
  | _ ↦ db
]

-- `_release_cost_locked`
unfoldable pub release_cost : String → CostDb → CostDb
unfolding find_reservation replace_reservation
release_cost attempt db = update_held (find_reservation attempt db.reservations) released_row db

-- The update of the reservation in `mark_model_attempt_unknown`.
unfoldable pub mark_cost_unknown : String → CostDb → CostDb
unfolding find_reservation replace_reservation
mark_cost_unknown attempt db = update_held (find_reservation attempt db.reservations) unknown_row db
