-- ===== src/Runtime/Reducer.antt =====
-- `_merge` and `EventReducer` of backend/app/runtime.py. Values are immutable here, so that
-- `copy.deepcopy` is the identity.
use mathlib.Core.Path.{◌≡⟨◌⟩◌, ◌∎}
use project_town.Base.{
  ap, sym, String, ◌≡◌, refl, Option, none, some, List, [], ◌∷◌, arith, ◌==◌, eq_iff, if◌then◌else◌,
}
use project_town.Base.Result.{Result, ok, err, type_error, ◌>>=◌}
use project_town.Runtime.Json.{Json, Fields, obj, end, field, get, set, IsDict, get-set, get-field}

-- What the loop of `_merge` writes for a key of the patch.
abbrev merged : Option Json → Json → (Json → Json) → Json
merged none value merge_value = value
merged (some old) value merge_value = merge_value old

unfoldable mutual
  pub merge : Json → Json → Json
  merge (obj base) (obj patch) = obj (merge_fields base patch)
  merge base patch = patch

  pub merge_fields : Fields → Fields → Fields
  merge_fields base end = base
  merge_fields base (field key value patch) =
      merge_fields (set key (merged (get key base) value (λ old. merge old value)) base) patch

-- The `Event` dataclass, or a plain mapping.
pub data Event : Type 0 where
  event : String → Json → Event
  mapping : Fields → Event

abbrev or_default : Option Json → Json → Json
or_default none default = default
or_default (some value) default = value

-- `event.payload if isinstance(event, Event) else event.get("payload", event)`
pub payload_of : Event → Json
payload_of (event event_type payload) = payload
payload_of (mapping fs) = or_default (get "payload" fs) (obj fs)

-- The two `isinstance(…, Mapping)` guards.
pub require_mapping : Json → Result Fields
require_mapping (obj fs) = ok fs
require_mapping _ = err type_error

abbrev current : Option Fields → Fields
current none = end
current (some state) = state

-- `EventReducer.apply`
unfoldable pub apply : Option Fields → Event → Result Fields
unfolding payload_of require_mapping merge
apply state ev = do
  payload ← require_mapping (payload_of ev)
  patch ← require_mapping (or_default (get "patch" payload) (obj payload))
  ok (merge_fields (current state) patch)

-- The loop of `EventReducer.replay`.
unfoldable pub replay_from : Fields → List Event → Result Fields
unfolding apply
replay_from state [] = ok state
replay_from state (ev ∷ events) = do next ← apply (some state) ev; replay_from next events

-- `EventReducer.replay`
unfoldable pub replay : List Event → Option Fields → Result Fields
unfolding replay_from
replay events initial = replay_from (current initial) events

-- What a key holds after a merge: the patch's value, merged into the old one if there is one.
abbrev pub expected : Option Json → Option Json → Option Json
expected old none = old
expected none (some value) = some value
expected (some u) (some value) = some (merge u value)

merge_fields-end : (base : Fields) → merge_fields base end ≡ base
unfolding merge
merge_fields-end base = refl

abbrev written : String → Json → Fields → Json
written key value base = merged (get key base) value (λ old. merge old value)

merge_fields-field :
    (base : Fields) (key : String) (value : Json) (patch : Fields)
    → merge_fields base (field key value patch)
      ≡ merge_fields (set key (written key value base) base) patch
unfolding merge
merge_fields-field base key value patch = refl

expected-written :
    (j key : String) (value : Json) (base patch : Fields)
    → get key patch ≡ none
    → expected (if key == j then some (written key value base) else get j base) (get j patch)
      ≡ expected (get j base) (if key == j then some value else get j patch)
expected-written j key value base patch h = ground (arith, eq_iff key j)

pub get-merge_fields :
    (j : String) (base patch : Fields)
    → IsDict patch
    → get j (merge_fields base patch) ≡ expected (get j base) (get j patch)
get-merge_fields j base end h = rw merge_fields-end (unfold get in refl)
get-merge_fields j base (field key value patch) h =
    get j (merge_fields base (field key value patch))
    ≡⟨ (ap (get j) (merge_fields-field base key value patch)) ⟩
      get j (merge_fields (set key (written key value base) base) patch)
    ≡⟨ get-merge_fields j (set key (written key value base) base) patch h.1 ⟩
      expected (get j (set key (written key value base) base)) (get j patch)
    ≡⟨ ap (λ o. expected o (get j patch)) (get-set key j (written key value base) base) ⟩
      expected (if key == j then some (written key value base) else get j base) (get j patch)
    ≡⟨ expected-written j key value base patch h.0 ⟩
      expected (get j base) (if key == j then some value else get j patch)
    ≡⟨ ap (expected (get j base)) (sym (get-field key j value patch)) ⟩
      expected (get j base) (get j (field key value patch)) ∎
