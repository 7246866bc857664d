-- ===== src/Costs/Rows.antt =====
-- The rows of the cost tables: what a reservation charges, and the lookups after an update.
use mathlib.Core.Path.{subst}
use mathlib.Core.Bool.{false≢true}
use project_town.Base.{
  ℕ, ◌+◌, String, ◌≡◌, ◌≢◌, refl, sym, ap, ◌∙◌, inl, inr, true, false, none, some, List, [], ◌∷◌,
  ◌++◌, is_some, All, arith, ◌==◌, eq_iff, Bool-cases, if◌then◌else◌,
}
use project_town.Costs.Accounts.{
  Account, Reservation, find_account, find_reservation, replace_reservation, breach, charge, usage,
}

-- The charge of one row to an account.
abbrev pub charge_to : String → Reservation → ℕ
charge_to id row =
    if row.quote.account_id == id
    then charge row.cost_status row.settled_micro_cny row.quote.reserved_micro_cny
    else 0

pub usage-replace_reservation :
    (id attempt : String) (row new : Reservation) (rows : List Reservation)
    → find_reservation attempt rows ≡ some row
    → usage id (replace_reservation attempt new rows) + charge_to id row
      ≡ usage id rows + charge_to id new
unfolding usage find_reservation replace_reservation
usage-replace_reservation id attempt row new [] h = cc
usage-replace_reservation id attempt row new (r ∷ rows) h =
    elim (Bool-cases (r.attempt_id == attempt)) [
      | inl here ↦
          let same : r ≡ row = ground (arith, here) in
          rw here (
            subst
              (λ x.
                charge_to id new + usage id rows + charge_to id x
                ≡ charge_to id r + usage id rows + charge_to id new)
              same (omega arith))
      | inr on ↦
          rw on (omega (arith, usage-replace_reservation id attempt row new rows (rw on at h)))
    ]

pub usage-append :
    (id : String) (rows : List Reservation) (new : Reservation)
    → usage id (rows ++ new ∷ []) ≡ usage id rows + charge_to id new
unfolding usage
usage-append id [] new = omega arith
usage-append id (r ∷ rows) new = omega (arith, usage-append id rows new)

-- The account of a reservation is in the table, as the foreign key wants.
abbrev pub IsOwned : List Account → Reservation → Type 0
IsOwned accounts row = is_some (find_account row.quote.account_id accounts) ≡ true

pub usage-owned :
    (id : String) (accounts : List Account) (rows : List Reservation)
    → find_account id accounts ≡ none
    → All (IsOwned accounts) rows
    → usage id rows ≡ 0
unfolding usage
usage-owned id accounts [] h all = refl
usage-owned id accounts (r ∷ rows) h all = elim (Bool-cases (r.quote.account_id == id)) [
  | inl mine ↦ absurd (
      false≢true (
        sym (ap is_some h)
        ∙ subst (λ k. is_some (find_account k accounts) ≡ true)
            ((eq_iff r.quote.account_id id).0 mine) all.0))
  | inr other ↦ rw other (omega (arith, usage-owned id accounts rows h all.1))
]

pub All-replace_reservation :
    (P : Reservation → Type 0) (attempt : String) (new : Reservation) (rows : List Reservation)
    → P new
    → All P rows
    → All P (replace_reservation attempt new rows)
unfolding replace_reservation
All-replace_reservation P attempt new [] p all = tt
All-replace_reservation P attempt new (r ∷ rows) p all =
    elim (Bool-cases (r.attempt_id == attempt)) [
      | inl here ↦ rw here (p, all.1)
      | inr on ↦ rw on (all.0, All-replace_reservation P attempt new rows p all.1)
    ]

pub All-find_reservation :
    (P : Reservation → Type 0) (attempt : String) (row : Reservation) (rows : List Reservation)
    → All P rows
    → find_reservation attempt rows ≡ some row
    → P row × (row.attempt_id ≡ attempt)
unfolding find_reservation
All-find_reservation P attempt row [] all h = cc
All-find_reservation P attempt row (r ∷ rows) all h = elim (Bool-cases (r.attempt_id == attempt)) [
  | inl here ↦
      let same : r ≡ row = ground (arith, here) in
      subst (λ (x : Reservation). P x × (x.attempt_id ≡ attempt)) same
        (all.0, (eq_iff r.attempt_id attempt).0 here)
  | inr on ↦ All-find_reservation P attempt row rows all.1 (rw on at h)
]

pub find_account-breach :
    (id j : String) (a : Account) (rows : List Account)
    → find_account j (breach id rows) ≡ some a
    → a.breached ≡ false
    → (find_account j rows ≡ some a) × (id ≢ j)
unfolding find_account breach
find_account-breach id j a [] h b = cc
find_account-breach id j a (r ∷ rows) h b = elim (Bool-cases (r.id == j)) [
  | inl here ↦ elim (Bool-cases (r.id == id)) [
    | inl hit ↦ absurd (ground (arith, here, hit))
    | inr miss ↦ (
      ground (arith, here, miss),
      λ e. false≢true (sym miss ∙ subst (λ k. (r.id == k) ≡ true) (sym e) here),
    )
  ]
  | inr on ↦
      let rest : find_account j (breach id rows) ≡ some a = ground (arith, on) in
      let (found, apart) = find_account-breach id j a rows rest b in (rw on found, apart)
]

pub find_account-append :
    (j : String) (new : Account) (rows : List Account)
    → find_account j (rows ++ new ∷ []) ≡ (
        if is_some (find_account j rows)
        then find_account j rows
        else if new.id == j
        then some new
        else none)
unfolding find_account
find_account-append j new [] = refl
find_account-append j new (r ∷ rows) = ground (arith, find_account-append j new rows)

pub IsOwned-append :
    (new : Account) (accounts : List Account) (row : Reservation)
    → IsOwned accounts row
    → IsOwned (accounts ++ new ∷ []) row
IsOwned-append new accounts row h =
    ground (arith, find_account-append row.quote.account_id new accounts)

pub is_some-breach :
    (id j : String) (rows : List Account)
    → is_some (find_account j (breach id rows)) ≡ is_some (find_account j rows)
unfolding find_account breach
is_some-breach id j [] = refl
is_some-breach id j (r ∷ rows) = ground (arith, is_some-breach id j rows)
