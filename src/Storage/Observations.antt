-- ===== src/Storage/Observations.antt =====
-- `_insert_tool_file_observation_locked` of backend/app/v1/storage.py.
use Prim.Native.Char.{code}
use project_town.Base.{
  ℕ, String, Bool, true, false, not, ◌&&◌, ◌||◌, Option, none, some, List, [], ◌∷◌, ◌++◌, any, find,
  length, leb, nat_eq, ◌==◌, if◌then◌else◌,
}
use project_town.Base.Result.{
  Result, ok, err, value_error, integrity_error, invalid_observation, observation_binding,
  observation_event,
}
use project_town.Storage.Db.{
  Db, EventRow, ActionRow, ReceiptStatus, committed, Observation, ObservationRow,
}

-- The code points of a text.
abbrev codes : String → List ℕ
codes String.[] = []
codes (String.◌∷◌ c s) = code c ∷ codes s

-- `path.split("/")`
unfoldable pub split_parts : List ℕ → List ℕ → List (List ℕ)
split_parts part [] = part ∷ []
split_parts part (c ∷ cs) =
    if nat_eq c b'/' then part ∷ split_parts [] cs else split_parts (part ++ c ∷ []) cs

-- `part in {"", ".", ".."}`
abbrev is_special : List ℕ → Bool
is_special [] = true
is_special (c ∷ []) = nat_eq c b'.'
is_special (c ∷ d ∷ []) = nat_eq c b'.' && nat_eq d b'.'
is_special _ = false

abbrev starts_with_slash : List ℕ → Bool
starts_with_slash [] = false
starts_with_slash (c ∷ cs) = nat_eq c b'/'

unfoldable pub safe_path : String → Bool
unfolding split_parts
safe_path path =
    let cs = codes path in
    not (path == "")
    && not (starts_with_slash cs)
    && not (any (λ c. nat_eq c 92) cs)
    && not (any is_special (split_parts [] cs))

abbrev is_hex : ℕ → Bool
is_hex c = leb b'0' c && leb c b'9' || leb b'a' c && leb c b'f'

-- `_SHA256_HEX.fullmatch(value)`
unfoldable pub is_sha256 : String → Bool
is_sha256 value =
    let cs = codes value in nat_eq (length cs) 64 && not (any (λ c. not (is_hex c)) cs)

abbrev is_optional_sha256 : Option String → Bool
is_optional_sha256 none = true
is_optional_sha256 (some value) = is_sha256 value

-- The first guard, negated; the field types make the `isinstance` and enumeration tests pass.
unfoldable pub is_valid : Observation → Bool
unfolding safe_path is_sha256
is_valid o =
    not (o.observation_id == "")
    && safe_path o.relative_path
    && is_optional_sha256 o.before_sha256
    && is_sha256 o.after_sha256

abbrev is_committed : ReceiptStatus → Bool
is_committed committed = true
is_committed _ = false

abbrev links : Option ℕ → ℕ → Bool
links none event_id = false
links (some id) event_id = nat_eq id event_id

-- The second guard, negated.
abbrev is_bound : Option ActionRow → String → ℕ → Bool
is_bound none q event_id = false
is_bound (some action) q event_id =
    (action.action_quest == q)
    && is_committed action.action_status
    && links action.committed_event event_id

-- The third guard, negated.
abbrev is_receipt : Option EventRow → String → Bool
is_receipt none q = false
is_receipt (some e) q = (e.event_quest == q) && (e.event_type == "ToolCommitted")

-- The primary key of the table and its unique index on `action_id`.
abbrev collides : Observation → String → ObservationRow → Bool
collides o action_id row =
    (row.observation.observation_id == o.observation_id) || (row.observed_action == action_id)

unfoldable pub insert_observation : Observation → String → String → ℕ → Db → Result Db
unfolding is_valid
insert_observation o action_id q event_id db =
    if not (is_valid o)
    then err (value_error invalid_observation)
    else if not (is_bound (find (λ row. row.action_id == action_id) db.actions) q event_id)
    then err (value_error observation_binding)
    else if not (is_receipt (find (λ e. nat_eq e.event_id event_id) db.events) q)
    then err (value_error observation_event)
    else if any (collides o action_id) db.observations
    then err integrity_error
    else ok (record db {
      observations =
          db.observations
          ++ record {
            observation = o;
            observed_quest = q;
            observed_action = action_id;
            observed_event = event_id;
          }
            ∷ [];
    })
