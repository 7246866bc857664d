-- ===== src/Calls/Summary.antt =====
-- `_model_summary` and `_require_model_hash` of backend/app/v1/storage.py.
use Prim.Native.String
use Prim.Native.Char.{code}
use text.Mathlib.Text.{find?}
use project_town.Base.{
  ℕ, String, Bool, false, not, ◌&&◌, ◌||◌, List, [], ◌∷◌, any, is_some, ltb, nat_eq, ◌==◌,
  if◌then◌else◌,
}
use project_town.Base.Result.{
  Result, ok, err, value_error, model_secret, model_too_large, model_hash_invalid,
}
use project_town.Runtime.Json.{
  Json, Items, Fields, null, bool, nat, negative, float, str, arr, obj, nil, cons, end, field,
}
use project_town.Storage.Db.{Host}
use project_town.Storage.Observations.{is_sha256}

abbrev forbidden : List String
forbidden =
    "api_key" ∷ "apikey" ∷ "authorization" ∷ "password" ∷ "secret" ∷ "token" ∷ "credential" ∷ []

abbrev public_counter_keys : List String
public_counter_keys =
    "input_tokens" ∷ "output_tokens" ∷ "total_tokens" ∷ "reserved_tokens" ∷ "settled_tokens"
    ∷ "max_tokens" ∷ []

-- `s.replace("-", "_")`
unfoldable pub underscores : String → String
underscores String.[] = ""
underscores (String.◌∷◌ c s) =
    String.◌++◌ (if nat_eq (code c) 45 then "_" else String.◌∷◌ c String.[]) (underscores s)

module _ (host : Host) (counters : Bool) where
  open host use {casefold}

  -- The test of one key
  unfoldable pub is_secret : String → Bool
  unfolding underscores
  is_secret key =
      let normalized = underscores (casefold key) in
      (not counters || not (any (λ k. k == normalized) public_counter_keys))
      && any (λ part. is_some (find? normalized part)) forbidden

  -- `visit`: whether it raises
  unfoldable mutual
    pub has_secret : Json → Bool
    has_secret null = false
    has_secret (bool b) = false
    has_secret (nat n) = false
    has_secret (negative n) = false
    has_secret (float text) = false
    has_secret (str s) = false
    has_secret (arr xs) = items_have_secret xs
    has_secret (obj fs) = fields_have_secret fs

    pub items_have_secret : Items → Bool
    items_have_secret nil = false
    items_have_secret (cons x xs) = has_secret x || items_have_secret xs

    pub fields_have_secret : Fields → Bool
    fields_have_secret end = false
    fields_have_secret (field key value fs) =
        is_secret key || has_secret value || fields_have_secret fs

-- `_model_summary`
unfoldable pub model_summary : Host → Bool → ℕ → Fields → Result Fields
unfolding has_secret is_secret
model_summary host counters max_bytes value =
    if fields_have_secret host counters value
    then err (value_error model_secret)
    else if ltb max_bytes (String.len (host.dumps (obj value)))
    then err (value_error model_too_large)
    else ok value

-- `_require_model_hash`
unfoldable pub require_model_hash : String → Result String
unfolding is_sha256
require_model_hash value =
    if is_sha256 value then ok value else err (value_error model_hash_invalid)
