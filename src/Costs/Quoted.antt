-- ===== src/Costs/Quoted.antt =====
-- Which quotes `_validated_cost_reservation` of backend/app/v1/storage.py accepts.
use mathlib.Core.Path.{subst}
use project_town.Base.{◌≤◌, ◌≡◌, sym, ap, ◌∙◌, true, some, arith, eq_iff}
use project_town.Base.Result.{ok}
use project_town.Costs.Prices.{
  Profile, Quote, find_profile, phase1c_cost_reservation, same_quote, validated_cost_reservation,
}
use project_town.Costs.Reserves.{validated_for_lem}

-- Two quotes whose fields pass the nine comparisons are equal.
same_quote-eq : (a b : Quote) → same_quote a b ≡ true → a ≡ b
unfolding same_quote
same_quote-eq a b h =
    let account_id_same : a.account_id ≡ b.account_id =
      (eq_iff a.account_id b.account_id).0 (ground (arith, h)) in
    let quote_provider_same : a.quote_provider ≡ b.quote_provider =
      (eq_iff a.quote_provider b.quote_provider).0 (ground (arith, h)) in
    let quote_alias_same : a.quote_alias ≡ b.quote_alias =
      (eq_iff a.quote_alias b.quote_alias).0 (ground (arith, h)) in
    let quote_snapshot_same : a.quote_snapshot ≡ b.quote_snapshot =
      (eq_iff a.quote_snapshot b.quote_snapshot).0 (ground (arith, h)) in
    let quote_pricing_same : a.quote_pricing ≡ b.quote_pricing =
      (eq_iff a.quote_pricing b.quote_pricing).0 (ground (arith, h)) in
    let quote_fx_same : a.quote_fx ≡ b.quote_fx = ground (arith, h) in
    let estimated_input_tokens_same : a.estimated_input_tokens ≡ b.estimated_input_tokens =
      ground (arith, h) in
    let max_output_tokens_same : a.max_output_tokens ≡ b.max_output_tokens = ground (arith, h) in
    let reserved_micro_cny_same : a.reserved_micro_cny ≡ b.reserved_micro_cny = ground (arith, h) in
    λ i. record {
      account_id = account_id_same i;
      quote_provider = quote_provider_same i;
      quote_alias = quote_alias_same i;
      quote_snapshot = quote_snapshot_same i;
      quote_pricing = quote_pricing_same i;
      quote_fx = quote_fx_same i;
      estimated_input_tokens = estimated_input_tokens_same i;
      max_output_tokens = max_output_tokens_same i;
      reserved_micro_cny = reserved_micro_cny_same i;
    }

-- An accepted reservation is exactly the quote that `phase1c_cost_reservation` makes for its
-- provider, model snapshot and token counts, in every field; it is returned as it is, with the
-- profile of that provider and snapshot, and its amount is within that profile's limit for one call.
pub validated_cost_reservation_priced :
    (value q : Quote) (p : Profile)
    → validated_cost_reservation value ≡ ok (q, p)
    → (find_profile value.quote_provider value.quote_snapshot ≡ some p)
      × (phase1c_cost_reservation value.estimated_input_tokens value.max_output_tokens
            value.quote_provider value.quote_snapshot
          ≡ ok value)
      × (q ≡ value)
      × (value.reserved_micro_cny ≤ p.max_call)
unfolding validated_cost_reservation phase1c_cost_reservation
validated_cost_reservation_priced value q p h =
    let (known, is_quote, equal, within) =
      validated_for_lem (find_profile value.quote_provider value.quote_snapshot) value q p h in
    let same : q ≡ value = sym (same_quote-eq value q equal) in
    (
      known,
      rw known (ap ok (sym is_quote ∙ same)),
      same,
      subst (λ (x : Quote). x.reserved_micro_cny ≤ p.max_call) same within,
    )
