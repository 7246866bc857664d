-- ===== src/Gateway/Files.antt =====
-- `_pre_effect_hash` and `_write_file_observation` of backend/app/v1/gateway.py.
use project_town.Base.{
  ℕ, String, Bool, false, Option, none, some, List, [], ◌∷◌, ◌==◌, if◌then◌else◌,
}
use project_town.Runtime.Json.{Json, Fields, get, nat, str, obj, end, field}
use project_town.Storage.Db.{
  Host, ActionRow, Observation, ChangeKind, created, modified, unchanged, observed,
}
use project_town.Storage.Observations.{is_sha256}
use project_town.Gateway.Tools.{
  ToolFailure, failure, FileState, refused, absent, not_file, file, Probe, unsafe, unstable, stable,
  Tools,
}

-- `value if isinstance(value, str)`
abbrev pub text_of : Option Json → Option String
text_of (some (str text)) = some text
text_of _ = none

pub data OrFailure (A : Type 0) : Type 0 where
  fine : A → OrFailure A
  failing : ToolFailure → OrFailure A

abbrev effect_hash : FileState → OrFailure (Option String)
effect_hash (refused e) = failing e
effect_hash absent = fine (some "absent")
effect_hash not_file = fine (some "not_file")
effect_hash (file sha) = fine (some sha)

-- `isinstance(x, str) and len(x) == 64 and all(char in "0123456789abcdef" …)`
abbrev digest_of : Option String → Option String
digest_of none = none
digest_of (some text) = if is_sha256 text then some text else none

abbrev is_text : Option String → String → Bool
is_text none text = false
is_text (some t) text = t == text

abbrev change_of : Option String → String → ChangeKind
change_of before after =
    if is_text before "absent"
    then created
    else if is_text (digest_of before) after
    then unchanged
    else modified

module _ {World : Type 0} (host : Host) (tools : Tools World) where
  open host use {stable_hash}
  open tools use {file_state, resolve_existing, probe, display_path, sha256}

  abbrev effect_hash_at : Option String → String → World → OrFailure (Option String)
  effect_hash_at none workspace world = fine none
  effect_hash_at (some path) workspace world = effect_hash (file_state workspace path world)

  -- `_pre_effect_hash`
  unfoldable pub pre_effect_hash_of : String → String → Fields → World → OrFailure (Option String)
  unfolding get
  pre_effect_hash_of workspace tool arguments world =
      if tool == "write_file"
      then effect_hash_at (text_of (get "path" arguments)) workspace world
      else fine none

  abbrev unsafe_observation : String → ToolFailure
  unsafe_observation path =
      failure "UNSAFE_FILE_OBSERVATION"
        "Written file is missing, unsafe, or unstable for observation" (field "path" (str path) end)

  abbrev observed_file :
      ActionRow → String → String → String → String → ℕ → World → OrFailure (Option Observation)
  observed_file row workspace path expected sha size world =
      if sha == expected
      then fine (
          some (record {
            observation_id =
                stable_hash
                  (obj (field "action_id" (str row.action_id) (field "schema" (nat 1) end)));
            relative_path = display_path workspace path world;
            before_sha256 = digest_of row.pre_effect_hash;
            after_sha256 = sha;
            after_size_bytes = size;
            change_kind = change_of row.pre_effect_hash sha;
            observation_status = observed;
          }))
      else failing (
          failure "POST_WRITE_HASH_MISMATCH" "Written file bytes do not match the requested content"
            (field "path" (str path) end))

  abbrev on_probe :
      Probe
      → OrFailure (Option Observation)
      → ActionRow
      → String
      → String
      → String
      → World
      → OrFailure (Option Observation)
  on_probe unsafe again row workspace path expected world = failing (unsafe_observation path)
  on_probe unstable again row workspace path expected world = again
  on_probe (stable sha size) again row workspace path expected world =
      observed_file row workspace path expected sha size world

  -- The passes `range(2)` that are left.
  unfoldable pub observe_passes :
      List ℕ → ActionRow → String → String → String → World → OrFailure (Option Observation)
  unfolding is_sha256
  observe_passes [] row workspace path expected world = failing (unsafe_observation path)
  observe_passes (pass ∷ more) row workspace path expected world =
      let again = observe_passes more row workspace path expected world in
      on_probe (probe workspace path pass world) again row workspace path expected world

  abbrev observe_resolved :
      Option ToolFailure
      → ActionRow
      → String
      → String
      → String
      → World
      → OrFailure (Option Observation)
  observe_resolved (some e) row workspace path content world = failing e
  observe_resolved none row workspace path content world =
      observe_passes (0 ∷ 1 ∷ []) row workspace path (sha256 content) world

  abbrev observe_texts :
      Option String → Option String → ActionRow → String → World → OrFailure (Option Observation)
  observe_texts none content row workspace world =
      failing (failure "UNSAFE_FILE_OBSERVATION" "Write path cannot be observed" end)
  observe_texts (some path) none row workspace world =
      failing (failure "UNSAFE_FILE_OBSERVATION" "Write content cannot be observed" end)
  observe_texts (some path) (some content) row workspace world =
      observe_resolved (resolve_existing workspace path world) row workspace path content world

  -- `_write_file_observation`
  unfoldable pub write_file_observation :
      ActionRow → String → Fields → World → OrFailure (Option Observation)
  unfolding get observe_passes
  write_file_observation row workspace arguments world =
      if row.tool_name == "write_file"
      then observe_texts (text_of (get "path" arguments)) (text_of (get "content" arguments)) row
          workspace world
      else fine none
