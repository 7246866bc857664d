-- ===== src/Storage/Tests.antt =====
-- The theorems of the event log, the receipts and the leases at a small database.
use project_town.Base.{◌==◌, ◌+◌, String, ◌≡◌, refl, true, none, [], ◌∷◌, length, arith, eq_iff}
use project_town.Base.Result.{ok, err, type_error, value_error, state_version_conflict}
use project_town.Runtime.Json.{Json, Fields, nat, str, obj, end, field, get, set}
use project_town.Runtime.Reducer.{apply, merge_fields}
use project_town.Storage.Db.{Db, Host, QuestRow, EventRow, ActionRow, dispatched}
use project_town.Storage.Events.{
  event_schema_version, find_quest, update_quest, selects, stamped, write_event, append_locked,
  append_each,
}
use project_town.Storage.Replay.{validate_checkpoint, save_checkpoint}
use project_town.Storage.Consistent.{IsReplayable, projected}
use project_town.Storage.Recovery.{append_each-IsReplayable}
use project_town.Storage.Saving.{save_checkpoint_valid, saved_of, after_save}
use project_town.Storage.Conflicts.{second_append_refused, append_locked-IsReplayable_ne}

abbrev pub text_of : Json → String
text_of (str s) = s
text_of (obj fs) = "object"
text_of _ = "scalar"

abbrev pub host : Host
host = record {
  stable_hash = text_of;
  dumps = text_of;
  to_str = text_of;
  to_dict = λ value. err type_error;
  to_int = λ value. err type_error;
  same_json = λ value other. text_of value == text_of other;
  casefold = λ text. text;
}

abbrev pub row0 : QuestRow
row0 = record {
  quest_id = "q";
  state = end;
  state_version = 0;
  status = "draft";
  updated_at = "t0";
}

abbrev pub other0 : QuestRow
other0 = record {
  quest_id = "r";
  state = end;
  state_version = 0;
  status = "draft";
  updated_at = "t0";
}

abbrev pub action0 : ActionRow
action0 = record {
  action_id = "a";
  action_quest = "q";
  milestone_id = "m";
  idempotency_key = "k";
  tool_name = "write_file";
  arguments_hash = "h";
  arguments = end;
  pre_effect_hash = none;
  expected_version = 1;
  action_status = dispatched;
  result = none;
  error = none;
  committed_event = none;
}

abbrev pub db0 : Db
db0 = record {
  quests = row0 ∷ other0 ∷ [];
  events = [];
  last_event_id = 0;
  checkpoints = [];
  actions = action0 ∷ [];
  observations = [];
  leases = [];
  resource_leases = [];
  contracts = [];
  plans = [];
  plan_milestones = [];
  plan_dependencies = [];
  decisions = [];
}

abbrev patch0 : Fields
patch0 = field "status" (str "planned") (field "progress" (nat 0) end)

abbrev state1 : Fields
state1 = merge_fields end (stamped host patch0 1 "t1")

abbrev row1 : QuestRow
row1 = projected host row0 state1 "t1"

abbrev db1 : Db
db1 = (write_event host row0 "QuestDrafted" patch0 "t1" state1 db0).1

abbrev event1 : EventRow
event1 = (write_event host row0 "QuestDrafted" patch0 "t1" state1 db0).0

pub row0-IsReplayable : IsReplayable host "q" row0 db0
unfolding find_quest
row0-IsReplayable = record { found = refl; named = refl; history = (refl, refl); restarts = tt }

other0-IsReplayable : IsReplayable host "r" other0 db0
unfolding find_quest
other0-IsReplayable = record { found = refl; named = refl; history = (refl, refl); restarts = tt }

appended1 :
    append_locked host "q" "QuestDrafted" patch0 0 event_schema_version "t1" db0 ≡ ok (event1, db1)
unfolding append_locked apply get
appended1 = refl

row1-IsReplayable : IsReplayable host "q" row1 db1
unfolding find_quest update_quest write_event selects apply get set merge_fields
row1-IsReplayable = record {
  found = refl;
  named = refl;
  history = (state1, refl, refl, refl, refl, (refl, refl));
  restarts = tt;
}

save_checkpoint_valid_example :
    (save_checkpoint host "q" db1 ≡ ok (saved_of host row1, after_save host "q" row1 db1))
    × IsReplayable host "q" row1 (after_save host "q" row1 db1)
    × (validate_checkpoint host "q" none (after_save host "q" row1 db1) ≡ ok true)
save_checkpoint_valid_example = save_checkpoint_valid host "q" row1 db1 row1-IsReplayable

second_append_refused_example :
    append_locked host "q" "PauseRequested" end 0 event_schema_version "t2" db1
    ≡ err (value_error state_version_conflict)
second_append_refused_example =
    second_append_refused host "q" "QuestDrafted" "PauseRequested" patch0 end 0 "t1" "t2" row0 db0
      event1 db1 row0-IsReplayable appended1

append_locked-IsReplayable_ne_example : IsReplayable host "r" other0 db1
append_locked-IsReplayable_ne_example =
    append_locked-IsReplayable_ne host "q" "r" "QuestDrafted" patch0 0 event_schema_version "t1"
      row0 other0 db0 event1 db1 row0-IsReplayable other0-IsReplayable
      (λ e. ground (arith, eq_iff "q" "r")) appended1

group_of_one :
    append_each host "q" (("QuestDrafted", patch0, "t1") ∷ []) 0 db0 ≡ ok (event1 ∷ [], db1)
unfolding append_each apply get
group_of_one = refl

append_each-IsReplayable_example :
    (row' : QuestRow) × IsReplayable host "q" row' db1
    × (row'.state_version ≡ 0 + 1)
    × (length (event1 ∷ []) ≡ 1)
append_each-IsReplayable_example =
    append_each-IsReplayable host "q" (("QuestDrafted", patch0, "t1") ∷ []) 0 row0 db0 (event1 ∷ [])
      db1 row0-IsReplayable refl group_of_one
