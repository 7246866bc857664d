-- ===== src/Costs/Bounds.antt =====
-- What the cost accounts promise: an account that no call has overrun never exceeds its total.
use mathlib.Core.Path.{subst}
use project_town.Base.{
  ℕ, ◌+◌, ◌*◌, ◌≤◌, String, ◌≡◌, refl, sym, ap, ◌∙◌, inl, inr, true, false, Option, none, some, [],
  ◌∷◌, ◌++◌, ltb, is_some, All, All-map, arith, eq_iff, Bool-cases, Option-cases, if◌then◌else◌,
}
use project_town.Base.Result.{ok, ok-injective}
use project_town.Costs.Accounts.{
  Account, account_of, CostStatus, held, settled, released, unknown, Reservation, CostDb,
  find_account, find_reservation, replace_reservation, breach, ensure_row, charge, usage,
  settle_priced, settle_status, settle_found, update_held, settle_row, settle_cost, released_row,
  unknown_row, release_cost, mark_cost_unknown,
}
use project_town.Costs.Prices.{Profile, Quote, find_profile}
use project_town.Costs.Rows.{
  charge_to, usage-replace_reservation, IsOwned, usage-owned, All-replace_reservation,
  All-find_reservation, find_account-breach, find_account-append, IsOwned-append, is_some-breach,
}

-- No account that is not breached has more settled and held than its total, and no reservation is
-- without its account (the foreign key of the table).
pub record IsWithin (db : CostDb) : Type 0 where
  pub bounded :
      (id : String) (a : Account)
      → find_account id db.accounts ≡ some a
      → a.breached ≡ false
      → usage id db.reservations ≤ a.account_max_total
  pub owned : All (IsOwned db.accounts) db.reservations

-- Ensuring the account of a profile keeps the bounds: a new account has no reservation.
pub ensure_row-IsWithin :
    (p : Profile) (db : CostDb)
    → IsWithin db
    → IsWithin (record db { accounts = ensure_row p db.accounts })
unfolding ensure_row
ensure_row-IsWithin p db w =
    elim (Bool-cases (is_some (find_account p.profile_account db.accounts))) [
      | inl there ↦ rw there w
      | inr new ↦ rw new (record {
        bounded = λ id a h b. elim (Option-cases (find_account id db.accounts)) [
          | inl absent ↦ omega (arith, usage-owned id db.accounts db.reservations absent w.owned)
          | inr (x, found) ↦
              w.bounded id a
                (ground (arith, found, find_account-append id (account_of p) db.accounts)) b
        ];
        owned =
            All-map (IsOwned db.accounts) (IsOwned (db.accounts ++ account_of p ∷ []))
              db.reservations (IsOwned-append (account_of p) db.accounts) w.owned;
      })
    ]

-- Replacing a row by one of the same account that charges it no more keeps the bounds.
replace_reservation-IsWithin :
    (attempt : String) (row new : Reservation) (db : CostDb)
    → find_reservation attempt db.reservations ≡ some row
    → new.quote ≡ row.quote
    → ((id : String) → charge_to id new ≤ charge_to id row)
    → IsWithin db
    → IsWithin (record db { reservations = replace_reservation attempt new db.reservations })
replace_reservation-IsWithin attempt row new db found same less w = record {
  bounded = λ id a h b. omega (
    arith,
    usage-replace_reservation id attempt row new db.reservations found,
    less id,
    w.bounded id a h b,
  );
  owned =
      All-replace_reservation (IsOwned db.accounts) attempt new db.reservations
        (subst (λ (q : Quote). is_some (find_account q.account_id db.accounts) ≡ true) (sym same)
          (All-find_reservation (IsOwned db.accounts) attempt row db.reservations w.owned found).0)
        w.owned;
}

-- A settlement past its reservation marks the account, and the others are not charged.
overrun-IsWithin :
    (attempt : String) (row new : Reservation) (db : CostDb)
    → find_reservation attempt db.reservations ≡ some row
    → new.quote ≡ row.quote
    → IsWithin db
    → IsWithin (record {
      accounts = breach row.quote.account_id db.accounts;
      reservations = replace_reservation attempt new db.reservations;
    })
overrun-IsWithin attempt row new db found same w = record {
  bounded = λ id a h b.
      let (there, apart) = find_account-breach row.quote.account_id id a db.accounts h b in
      let old : charge_to id row ≡ 0 = ground (arith, apart, eq_iff row.quote.account_id id) in
      let now : charge_to id new ≡ 0 =
        ground (arith, apart, same, eq_iff new.quote.account_id id) in
      omega (
        arith,
        usage-replace_reservation id attempt row new db.reservations found,
        old,
        now,
        w.bounded id a there b,
      );
  owned =
      All-map (IsOwned db.accounts) (IsOwned (breach row.quote.account_id db.accounts))
        (replace_reservation attempt new db.reservations)
        (λ r h. is_some-breach row.quote.account_id r.quote.account_id db.accounts ∙ h)
        (All-replace_reservation (IsOwned db.accounts) attempt new db.reservations
          (subst (λ (q : Quote). is_some (find_account q.account_id db.accounts) ≡ true) (sym same)
            (All-find_reservation (IsOwned db.accounts) attempt row db.reservations w.owned
              found).0)
          w.owned);
}

settle_row-IsWithin :
    (attempt : String) (row : Reservation) (actual : ℕ) (db : CostDb)
    → find_reservation attempt db.reservations ≡ some row
    → (charge row.cost_status row.settled_micro_cny row.quote.reserved_micro_cny
        ≡ row.quote.reserved_micro_cny)
    → IsWithin db
    → IsWithin (settle_row row actual db)
settle_row-IsWithin attempt row actual db found full w =
    let named =
      (All-find_reservation (IsOwned db.accounts) attempt row db.reservations w.owned found).1 in
    let new : Reservation = record row { settled_micro_cny = actual; cost_status = settled } in
    subst
      (λ k. IsWithin (record {
        accounts =
            if ltb row.quote.reserved_micro_cny actual
            then breach row.quote.account_id db.accounts
            else db.accounts;
        reservations = replace_reservation k new db.reservations;
      }))
      (sym named)
      (elim (Bool-cases (ltb row.quote.reserved_micro_cny actual)) [
        | inl over ↦ rw over (overrun-IsWithin attempt row new db found refl w)
        | inr under ↦ rw under (
            replace_reservation-IsWithin attempt row new db found refl
              (λ id. ground (arith, under, full)) w)
      ])

-- A settlement keeps the bounds, whatever the call has cost.
pub settle_cost-IsWithin :
    (attempt : String) (input output : ℕ) (db db' : CostDb)
    → IsWithin db
    → settle_cost attempt input output db ≡ ok db'
    → IsWithin db'
unfolding settle_cost
settle_cost-IsWithin attempt input output db db' w h =
    by-row (find_reservation attempt db.reservations) refl h
  where
    by-price :
        (p : Option Profile) (row : Reservation)
        → find_reservation attempt db.reservations ≡ some row
        → (charge row.cost_status row.settled_micro_cny row.quote.reserved_micro_cny
            ≡ row.quote.reserved_micro_cny)
        → settle_priced p row input output db ≡ ok db'
        → IsWithin db'
    by-price none row found full e = cc
    by-price (some p) row found full e = subst IsWithin (ok-injective _ db' e) (
        settle_row-IsWithin attempt row (input * p.input_rate + output * p.output_rate) db found
          full w)

    by-status :
        (s : CostStatus) (row : Reservation)
        → find_reservation attempt db.reservations ≡ some row
        → row.cost_status ≡ s
        → settle_status s row input output db ≡ ok db'
        → IsWithin db'
    by-status held row found st e =
        by-price (find_profile row.quote.quote_provider row.quote.quote_snapshot) row found
          (ap (λ x. charge x row.settled_micro_cny row.quote.reserved_micro_cny) st) e
    by-status unknown row found st e =
        by-price (find_profile row.quote.quote_provider row.quote.quote_snapshot) row found
          (ap (λ x. charge x row.settled_micro_cny row.quote.reserved_micro_cny) st) e
    by-status settled row found st e = subst IsWithin (ok-injective _ db' e) w
    by-status released row found st e = cc

    by-row :
        (r : Option Reservation)
        → find_reservation attempt db.reservations ≡ r
        → settle_found r input output db ≡ ok db'
        → IsWithin db'
    by-row none found e = subst IsWithin (ok-injective _ db' e) w
    by-row (some row) found e = by-status row.cost_status row found refl e

-- A change of a held row that keeps its quote and charges it no more keeps the bounds.
update_held-IsWithin :
    (attempt : String) (change : Reservation → Reservation) (db : CostDb)
    → ((r : Reservation) → (change r).quote ≡ r.quote)
    → ((id : String) (r : Reservation)
        → r.cost_status ≡ held
        → charge_to id (change r) ≤ charge_to id r)
    → IsWithin db
    → IsWithin (update_held (find_reservation attempt db.reservations) change db)
update_held-IsWithin attempt change db same less w =
    by-row (find_reservation attempt db.reservations) refl
  where
    by-row :
        (r : Option Reservation)
        → find_reservation attempt db.reservations ≡ r
        → IsWithin (update_held r change db)
    by-row none found = w
    by-row (some row) found =
        let named =
          (All-find_reservation (IsOwned db.accounts) attempt row db.reservations w.owned
            found).1 in
        by-status row.cost_status (λ st.
          subst
            (λ k.
              IsWithin
                (record db { reservations = replace_reservation k (change row) db.reservations }))
            (sym named)
            (replace_reservation-IsWithin attempt row (change row) db found (same row)
              (λ id. less id row st) w))
      where
        by-status :
            (s : CostStatus)
            → (s ≡ held
                → IsWithin (record db {
                  reservations = replace_reservation row.attempt_id (change row) db.reservations;
                }))
            → IsWithin (elim s [
              | held ↦ record db {
                reservations = replace_reservation row.attempt_id (change row) db.reservations;
              }
              | _ ↦ db
            ])
        by-status held write = write refl
        by-status settled write = w
        by-status released write = w
        by-status unknown write = w

-- A release and an unknown outcome keep the bounds.
pub release_cost-IsWithin :
    (attempt : String) (db : CostDb) → IsWithin db → IsWithin (release_cost attempt db)
unfolding release_cost
release_cost-IsWithin attempt db w =
    update_held-IsWithin attempt released_row db (λ r. refl) (λ id r st. ground (arith, st)) w

pub mark_cost_unknown-IsWithin :
    (attempt : String) (db : CostDb) → IsWithin db → IsWithin (mark_cost_unknown attempt db)
unfolding mark_cost_unknown
mark_cost_unknown-IsWithin attempt db w =
    update_held-IsWithin attempt unknown_row db (λ r. refl) (λ id r st. ground (arith, st)) w
