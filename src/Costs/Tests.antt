-- ===== src/Costs/Tests.antt =====
-- The theorems of the cost accounts at concrete inputs.
use project_town.Base.{◌≤◌, ◌≡◌, refl, some, List, [], ◌∷◌}
use project_town.Base.Result.{ok}
use project_town.Costs.Accounts.{account_of, CostDb, find_account, usage, reserve_cost}
use project_town.Costs.Prices.{
  qwen_profile, find_profile, Quote, quote_of, phase1c_cost_reservation, validated_cost_reservation,
}
use project_town.Costs.Reserves.{hold}
use project_town.Costs.Quoted.{validated_cost_reservation_priced}
use project_town.Costs.Spending.{
  Spending, reserve, settle, release, mark_unknown, run_spendings, no_costs, spending_bounded,
  reserve_cost_repeat,
}

abbrev quote0 : Quote
quote0 = quote_of qwen_profile 1000 500

abbrev spendings0 : List Spending
spendings0 =
    reserve "a1" quote0
    ∷ settle "a1" 900 400
    ∷ reserve "a2" quote0
    ∷ release "a2"
    ∷ reserve "a3" quote0
    ∷ mark_unknown "a3"
    ∷ []

found0 :
    find_account "phase2-qwen-plus-cny-v1" (run_spendings spendings0 no_costs).accounts
    ≡ some (account_of qwen_profile)
unfolding find_account run_spendings
found0 = refl

spending_bounded_example :
    usage "phase2-qwen-plus-cny-v1" (run_spendings spendings0 no_costs).reservations ≤ 20000000
spending_bounded_example =
    spending_bounded spendings0 "phase2-qwen-plus-cny-v1" (account_of qwen_profile) found0 refl

abbrev reserved0 : CostDb
reserved0 = record { accounts = account_of qwen_profile ∷ []; reservations = hold "a1" quote0 ∷ [] }

accepted0 : reserve_cost "a1" quote0 no_costs ≡ ok reserved0
unfolding reserve_cost
accepted0 = refl

reserve_cost_repeat_example : reserve_cost "a1" quote0 reserved0 ≡ ok reserved0
reserve_cost_repeat_example = reserve_cost_repeat "a1" quote0 no_costs reserved0 accepted0

checked0 : validated_cost_reservation quote0 ≡ ok (quote0, qwen_profile)
unfolding validated_cost_reservation
checked0 = refl

validated_cost_reservation_priced_example :
    (find_profile "qwen" "qwen-plus" ≡ some qwen_profile)
    × (phase1c_cost_reservation 1000 500 "qwen" "qwen-plus" ≡ ok quote0)
    × (quote0 ≡ quote0)
    × (5000 ≤ 500000)
validated_cost_reservation_priced_example =
    validated_cost_reservation_priced quote0 quote0 qwen_profile checked0
