-- ===== src/Base/Result.antt =====
-- Python's exceptions as values: a function that may raise returns a `Result`.
use mathlib.Core.Path.{◌≡◌, refl}
use Prim.Native.String.{String}

-- The messages of the `ValueError`s that the modelled code raises and tells apart.
pub data Message : Type 0 where
  unknown_event_schema state_version_conflict replay_checksum checkpoint_conflict : Message
  idempotency_key_conflict action_transition committed_result_conflict : Message
  receipt_event_missing invalid_observation observation_binding observation_event : Message
  lease_invalid quest_not_active : Message
  quote_not_authorized call_budget_exceeded total_budget_exceeded account_breached : Message
  reservation_conflict reservation_released : Message
  unknown_budget_kind threshold_not_positive step_count_not_positive : Message
  milestone_unknown milestone_completed : Message
  unstable_ids duplicate_milestone_id missing_dependency dependency_cycle : Message
  completed_milestone_removed completed_milestone_modified : Message
  decision_not_requested approval_mismatch decision_incomplete decision_conflict : Message
  model_identifiers_invalid model_hash_invalid model_secret model_too_large : Message
  binding_missing model_idempotency_conflict cost_idempotency_conflict : Message
  token_budget_exceeded attempt_not_prepared attempt_not_dispatched attempt_final : Message
  callback_quest_conflict callback_input_conflict callback_response_conflict : Message
  retry_identifiers_invalid token_usage_negative call_terminal call_stale : Message
  retry_limit_exceeded : Message

pub data Error : Type 0 where
  key_error : String → Error
  value_error : Message → Error
  type_error attribute_error integrity_error runtime_error : Error

-- What a function that may raise gives: the exception, or the value it returns.
pub data Result {ℓ} (Value : Type ℓ) : Type ℓ where
  err : Error → Result Value
  ok : Value → Result Value

pub ok-injective {ℓ} : {Value : Type ℓ} → (x y : Value) → ok x ≡ ok y → x ≡ y
ok-injective x y e = cc

-- An exception ends the sequence.
infixl 5 ◌>>=◌
abbrev pub ◌>>=◌ {ℓ μ} :
    {Value : Type ℓ} {Next : Type μ} → Result Value → (Value → Result Next) → Result Next
err raised >>= next = err raised
ok value >>= next = next value

-- Inversion of a bind that returned.
pub >>=-eq-ok {ℓ μ} :
    {Value : Type ℓ} {Next : Type μ} (m : Result Value) (next : Value → Result Next) {out : Next}
    → (m >>= next) ≡ ok out
    → (value : Value) × (m ≡ ok value) × (next value ≡ ok out)
>>=-eq-ok (err raised) next h = cc
>>=-eq-ok (ok value) next h = (value, refl, h)

pub >>=_assoc {ℓ κ μ} :
    {A : Type ℓ} {B : Type κ} {C : Type μ} (m : Result A) (f : A → Result B) (g : B → Result C)
    (h : A → Result C)
    → ((a : A) → h a ≡ (f a >>= g))
    → (m >>= h) ≡ (m >>= f >>= g)
>>=_assoc (err raised) f g h same = refl
>>=_assoc (ok a) f g h same = same a
