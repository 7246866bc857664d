-- ===== src/Costs/Prices.antt =====
-- The price profiles and quotes of backend/app/v1/storage.py. Amounts are integer micro-CNY.
use project_town.Base.{
  ℕ, ◌+◌, ◌*◌, String, Bool, not, ◌&&◌, Option, none, some, ltb, nat_eq, ◌==◌, if◌then◌else◌,
}
use project_town.Base.Result.{
  Result, ok, err, value_error, quote_not_authorized, call_budget_exceeded,
}

-- A value of `_COST_PROFILES`.
pub record Profile : Type 0 where
  pub profile_account : String
  pub provider : String
  pub model_alias : String
  pub model_snapshot : String
  pub pricing_version : String
  pub fx : ℕ
  pub input_rate : ℕ
  pub output_rate : ℕ
  pub reserve_output_rate : ℕ
  pub max_call : ℕ
  pub max_total : ℕ

abbrev pub openai_profile : Profile
openai_profile = record {
  profile_account = "phase1c-openai-gpt5mini-cny-v1";
  provider = "openai";
  model_alias = "gpt-5-mini";
  model_snapshot = "gpt-5-mini-2025-08-07";
  pricing_version = "openai-2026-08-20";
  fx = 8000000;
  input_rate = 2;
  output_rate = 16;
  reserve_output_rate = 16;
  max_call = 500000;
  max_total = 20000000;
}

abbrev pub qwen_profile : Profile
qwen_profile = record {
  profile_account = "phase2-qwen-plus-cny-v1";
  provider = "qwen";
  model_alias = "qwen-plus";
  model_snapshot = "qwen-plus";
  pricing_version = "dashscope-beijing-2026-08-21";
  fx = 1;
  input_rate = 1;
  output_rate = 2;
  reserve_output_rate = 8;
  max_call = 500000;
  max_total = 20000000;
}

-- `_COST_PROFILES.get((provider, model))`
unfoldable pub find_profile : String → String → Option Profile
find_profile provider model =
    if provider == "openai" && model == "gpt-5-mini-2025-08-07"
    then some openai_profile
    else if provider == "qwen" && model == "qwen-plus"
    then some qwen_profile
    else none

-- The mapping that `phase1c_cost_reservation` builds.
pub record Quote : Type 0 where
  pub account_id : String
  pub quote_provider : String
  pub quote_alias : String
  pub quote_snapshot : String
  pub quote_pricing : String
  pub quote_fx : ℕ
  pub estimated_input_tokens : ℕ
  pub max_output_tokens : ℕ
  pub reserved_micro_cny : ℕ

abbrev pub quote_of : Profile → ℕ → ℕ → Quote
quote_of p input output = record {
  account_id = p.profile_account;
  quote_provider = p.provider;
  quote_alias = p.model_alias;
  quote_snapshot = p.model_snapshot;
  quote_pricing = p.pricing_version;
  quote_fx = p.fx;
  estimated_input_tokens = input;
  max_output_tokens = output;
  reserved_micro_cny = input * p.input_rate + output * p.reserve_output_rate;
}

abbrev quote_for : Option Profile → ℕ → ℕ → Result Quote
quote_for none input output = err (value_error quote_not_authorized)
quote_for (some p) input output = ok (quote_of p input output)

-- `phase1c_cost_reservation`
unfoldable pub phase1c_cost_reservation : ℕ → ℕ → String → String → Result Quote
unfolding find_profile
phase1c_cost_reservation input output provider model =
    quote_for (find_profile provider model) input output

-- `all(value[key] == expected[key] for key in required)`
unfoldable pub same_quote : Quote → Quote → Bool
same_quote a b =
    (a.account_id == b.account_id)
    && (a.quote_provider == b.quote_provider)
    && (a.quote_alias == b.quote_alias)
    && (a.quote_snapshot == b.quote_snapshot)
    && (a.quote_pricing == b.quote_pricing)
    && nat_eq a.quote_fx b.quote_fx
    && nat_eq a.estimated_input_tokens b.estimated_input_tokens
    && nat_eq a.max_output_tokens b.max_output_tokens
    && nat_eq a.reserved_micro_cny b.reserved_micro_cny

abbrev pub validated_for : Option Profile → Quote → Result (Quote × Profile)
validated_for none value = err (value_error quote_not_authorized)
validated_for (some p) value =
    let expected = quote_of p value.estimated_input_tokens value.max_output_tokens in
    if not (same_quote value expected)
    then err (value_error quote_not_authorized)
    else if ltb p.max_call expected.reserved_micro_cny
    then err (value_error call_budget_exceeded)
    else ok (expected, p)

-- `_validated_cost_reservation`, with the profile that its callers look up again.
unfoldable pub validated_cost_reservation : Quote → Result (Quote × Profile)
unfolding find_profile same_quote
validated_cost_reservation value =
    validated_for (find_profile value.quote_provider value.quote_snapshot) value
