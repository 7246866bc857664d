-- ===== src/Costs/Reserves.antt =====
-- Reservations keep the bounds of the cost accounts.
use mathlib.Core.Path.{subst}
use project_town.Base.{
  ◌+◌, ◌≤◌, String, ◌≡◌, refl, sym, ap, ◌∙◌, inl, inr, true, Option, none, some, some-injective,
  ltb, All-append, arith, ◌==◌, eq_iff, Bool-cases,
}
use project_town.Base.Result.{ok, >>=-eq-ok, ok-injective}
use project_town.Costs.Accounts.{
  Account, held, Reservation, CostDb, find_account, find_reservation, ensure_row, same_account,
  usage, reserve_with, reserve_for, reserve_new, reserve_validated, reserve_cost,
}
use project_town.Costs.Prices.{
  Profile, Quote, quote_of, find_profile, same_quote, validated_cost_reservation, validated_for,
}
use project_town.Costs.Rows.{usage-append, IsOwned}
use project_town.Costs.Bounds.{IsWithin, ensure_row-IsWithin}

-- An accepted quote is the one its profile gives, and it is within the profile's limit of a call.
pub validated_for_lem :
    (o : Option Profile) (value q : Quote) (p : Profile)
    → validated_for o value ≡ ok (q, p)
    → (o ≡ some p)
      × (q ≡ quote_of p value.estimated_input_tokens value.max_output_tokens)
      × (same_quote value q ≡ true)
      × (q.reserved_micro_cny ≤ p.max_call)
validated_for_lem none value q p e = cc
validated_for_lem (some x) value q p e =
    let expected = quote_of x value.estimated_input_tokens value.max_output_tokens in
    elim (Bool-cases (same_quote value expected)) [
      | inl same ↦ elim (Bool-cases (ltb x.max_call expected.reserved_micro_cny)) [
        | inl over ↦ absurd (ground (arith, e, same, over))
        | inr under ↦
            let found : (expected, x) ≡ (q, p) =
              ok-injective (expected, x) (q, p) (rw under at (rw same at e)) in
            subst
              (λ (z : Quote × Profile).
                (some x ≡ some z.1)
                × (z.0 ≡ quote_of z.1 value.estimated_input_tokens value.max_output_tokens)
                × (same_quote value z.0 ≡ true)
                × (z.0.reserved_micro_cny ≤ z.1.max_call))
              found (refl, refl, same, ground (arith, under))
      ]
      | inr other ↦ absurd (ground (arith, e, other))
    ]

account_max_total-same :
    (a : Account) (p : Profile) → same_account a p ≡ true → a.account_max_total ≡ p.max_total
unfolding same_account
account_max_total-same a p h = ground (arith, h)

abbrev pub hold : String → Quote → Reservation
hold attempt q = record {
  attempt_id = attempt;
  quote = q;
  settled_micro_cny = 0;
  cost_status = held;
}

reserve_new-IsWithin :
    (account : Account) (attempt : String) (q : Quote) (p : Profile) (db db' : CostDb)
    → find_account q.account_id db.accounts ≡ some account
    → account.account_max_total ≡ p.max_total
    → IsWithin db
    → reserve_new account attempt q p db ≡ ok db'
    → IsWithin db'
reserve_new-IsWithin account attempt q p db db' found total w h =
    elim (Bool-cases account.breached) [
      | inl b ↦ absurd (ground (arith, h, b))
      | inr whole ↦
          elim (Bool-cases
            (ltb p.max_total (usage q.account_id db.reservations + q.reserved_micro_cny))) [
              | inl over ↦ absurd (ground (arith, h, whole, over))
              | inr under ↦
                  subst IsWithin (ok-injective _ db' (rw under at (rw whole at h))) (record {
                    bounded = λ id a here b. elim (Bool-cases (q.account_id == id)) [
                      | inl mine ↦
                          let key = (eq_iff q.account_id id).0 mine in
                          let one : account.account_max_total ≡ a.account_max_total =
                            ap (λ (x : Account). x.account_max_total)
                              (some-injective account a
                                (sym found ∙ ap (λ k. find_account k db.accounts) key ∙ here)) in
                          let known : usage q.account_id db.reservations
                              ≡ usage id db.reservations =
                            ap (λ k. usage k db.reservations) key in
                          ground (
                            arith,
                            usage-append id db.reservations (hold attempt q),
                            mine,
                            known,
                            one,
                            total,
                            under,
                          )
                      | inr other ↦ ground (
                        arith,
                        usage-append id db.reservations (hold attempt q),
                        other,
                        w.bounded id a here b,
                      )
                    ];
                    owned =
                        All-append (IsOwned db.accounts) db.reservations _ w.owned
                          (ground (arith, found), tt);
                  })
            ]
    ]

reserve_validated-IsWithin :
    (attempt : String) (q : Quote) (p : Profile) (db db' : CostDb)
    → q.account_id ≡ p.profile_account
    → IsWithin db
    → reserve_validated attempt (q, p) db ≡ ok db'
    → IsWithin db'
reserve_validated-IsWithin attempt q p db db' own w h =
    by-account (find_account p.profile_account (ensure_row p db.accounts)) refl h
  where
    ensured : CostDb
    ensured = record db { accounts = ensure_row p db.accounts }

    by-existing :
        (r : Option Reservation) (account : Account)
        → find_account p.profile_account ensured.accounts ≡ some account
        → same_account account p ≡ true
        → reserve_for r account attempt q p ensured ≡ ok db'
        → IsWithin db'
    by-existing none account found same e =
        reserve_new-IsWithin account attempt q p ensured db' (rw own found)
          (account_max_total-same account p same) (ensure_row-IsWithin p db w) e
    by-existing (some row) account found same e = elim (Bool-cases (same_quote row.quote q)) [
      | inl t ↦ subst IsWithin (ok-injective ensured db' (rw t at e)) (ensure_row-IsWithin p db w)
      | inr f ↦ absurd (ground (arith, e, f))
    ]

    by-account :
        (a : Option Account)
        → find_account p.profile_account ensured.accounts ≡ a
        → reserve_with a attempt q p ensured ≡ ok db'
        → IsWithin db'
    by-account none found e = cc
    by-account (some account) found e = elim (Bool-cases (same_account account p)) [
      | inl t ↦ by-existing (find_reservation attempt db.reservations) account found t (rw t at e)
      | inr f ↦ absurd (ground (arith, e, f))
    ]

-- An accepted reservation keeps the bounds.
pub reserve_cost-IsWithin :
    (attempt : String) (value : Quote) (db db' : CostDb)
    → IsWithin db
    → reserve_cost attempt value db ≡ ok db'
    → IsWithin db'
unfolding reserve_cost validated_cost_reservation
reserve_cost-IsWithin attempt value db db' w h =
    let ((q, p), checked, e) =
      >>=-eq-ok (validated_for (find_profile value.quote_provider value.quote_snapshot) value)
        (λ checked. reserve_validated attempt checked db) h in
    let (_, is_quote, _, _) =
      validated_for_lem (find_profile value.quote_provider value.quote_snapshot) value q p
        checked in
    reserve_validated-IsWithin attempt q p db db' (ap (λ (x : Quote). x.account_id) is_quote) w e
