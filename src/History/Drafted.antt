-- ===== src/History/Drafted.antt =====
-- What `create_draft` of backend/app/v1/storage.py leaves for its quest.
use mathlib.Core.Path.{subst}
use project_town.Base.{
  ℤ, String, ◌≡◌, refl, sym, ap, ◌∙◌, inl, inr, false, some, List, [], ◌∷◌, ◌++◌, any, arith, ◌==◌,
  eq_refl, Bool-cases,
}
use project_town.Base.Result.{ok, ok-injective, >>=-eq-ok}
use project_town.Runtime.Json.{
  Json, Fields, nat, str, obj, end, get, set, IsDict, get-set, set-IsDict,
}
use project_town.Runtime.Reducer.{event, apply, merge_fields, get-merge_fields, expected}
use project_town.Storage.Db.{Db, Host, QuestRow, EventRow}
use project_town.Storage.Events.{
  event_schema_version, find_quest, stamped, payload_json, write_event,
}
use project_town.Storage.Consistent.{append_locked-Appended, projected}
use project_town.Storage.Follows.{find_quest-update_quest_self}
use project_town.Drafts.Plans.{default_json, dict_of, validate_plan}
use project_town.Drafts.Tables.{insert_quest_row, insert_contract, insert_plan, version_of}
use project_town.Drafts.Create.{
  Draft, draft_row, milestone_states, template_of, initial_fields, initial_state, insert_draft,
  require_quest, create_draft,
}
use project_town.History.Inserts.{insert_contract-IsQuiet, insert_plan-IsQuiet}
use project_town.History.Effects.{find_quest-any}
use project_town.History.Sound.{find_quest-append}

module _ (host : Host) where
  insert_quest_row-found :
      (new : QuestRow) (db db' : Db)
      → insert_quest_row new db ≡ ok db'
      → find_quest new.quest_id db'.quests ≡ some new
  unfolding insert_quest_row
  insert_quest_row-found new db db' h =
      elim (Bool-cases (any (λ row. row.quest_id == new.quest_id) db.quests)) [
        | inl taken ↦ absurd (ground (arith, taken))
        | inr free ↦
            let same : record db { quests = db.quests ++ new ∷ [] } ≡ db' =
              ok-injective (record db { quests = db.quests ++ new ∷ [] }) db' (rw free at h) in
            sym (ap (λ (d : Db). find_quest new.quest_id d.quests) same)
            ∙ ground (
              arith,
              find_quest-append new.quest_id new db.quests,
              find_quest-any new.quest_id db.quests free,
              eq_refl new.quest_id,
            )
      ]

  initial_fields-IsDict :
      (q : String) (draft : Draft) (now : String) (ms : List Fields) (version : ℤ)
      (metadata : Fields) (template : Json)
      → IsDict (initial_fields host q draft now ms version metadata template)
  unfolding get
  initial_fields-IsDict q draft now ms version metadata template = (
    refl,
    (
      refl,
      (
        refl,
        (
          refl,
          (
            refl,
            (
              refl,
              (
                refl,
                (
                  refl,
                  (
                    refl,
                    (
                      refl,
                      (
                        refl,
                        (
                          refl,
                          (
                            refl,
                            (
                              refl,
                              (
                                refl,
                                (
                                  refl,
                                  (
                                    refl,
                                    (
                                      refl,
                                      (
                                        refl,
                                        (refl, (refl, (refl, (refl, (refl, (refl, (refl, tt))))))),
                                      ),
                                    ),
                                  ),
                                ),
                              ),
                            ),
                          ),
                        ),
                      ),
                    ),
                  ),
                ),
              ),
            ),
          ),
        ),
      ),
    ),
  )

  -- The projection that the first event of a quest leads to.
  drafted :
      (row : QuestRow) (patch : Fields) (now : String) (state : Fields)
      → row.state ≡ end
      → IsDict patch
      → apply (some row.state) (event "QuestDrafted" (payload_json host patch 1 now)) ≡ ok state
      → (key : String) (value : Json) → get key (stamped host patch 1 now) ≡ some value
      → get key state ≡ some value
  unfolding apply
  drafted row patch now state empty dict applied key value has =
      let stamp = stamped host patch 1 now in
      let is_dict =
        set-IsDict "updated_at" (str now) (set "state_version" (nat 1) patch)
          (set-IsDict "state_version" (nat 1) patch dict) in
      let same : merge_fields end stamp ≡ state =
        ok-injective (merge_fields end stamp) state (unfold get in rw empty at applied) in
      sym (ap (get key) same)
      ∙ get-merge_fields key end stamp is_dict
      ∙ ap (expected (get key end)) has
      ∙ (unfold get in refl)

  -- The keys of a stamped patch that are not its own.
  get-stamped :
      (patch : Fields) (now key : String) (value : Json)
      → ("state_version" == key) ≡ false
      → ("updated_at" == key) ≡ false
      → get key patch ≡ some value
      → get key (stamped host patch 1 now) ≡ some value
  get-stamped patch now key value k1 k2 has =
      get-set "updated_at" key (str now) (set "state_version" (nat 1) patch)
      ∙ rw k2 (get-set "state_version" key (nat 1) patch ∙ rw k1 has)

  get-stamped_version :
      (patch : Fields) (now : String)
      → get "state_version" (stamped host patch 1 now) ≡ some (nat 1)
  get-stamped_version patch now =
      get-set "updated_at" "state_version" (str now) (set "state_version" (nat 1) patch)
      ∙ get-set "state_version" "state_version" (nat 1) patch

  -- What the projection of a new quest holds.
  pub record IsDrafted (draft : Draft) (state : Fields) : Type 0 where
    pub contract : get "contract" state ≡ some (obj draft.goal_contract)
    pub status : get "status" state ≡ some (str draft.draft_status)
    pub version : get "state_version" state ≡ some (nat 1)

  initial_fields-IsDrafted :
      (q : String) (draft : Draft) (now : String) (ms : List Fields) (version : ℤ)
      (metadata : Fields) (template : Json) (row : QuestRow) (state : Fields)
      → row.state ≡ end
      → apply (some row.state) (
          event "QuestDrafted" (
            payload_json host (initial_fields host q draft now ms version metadata template) 1 now))
        ≡ ok state
      → IsDrafted draft state
  initial_fields-IsDrafted q draft now ms version metadata template row state empty applied =
      let patch = initial_fields host q draft now ms version metadata template in
      let dict = initial_fields-IsDict q draft now ms version metadata template in
      let read = drafted row patch now state empty dict applied in
      record {
        contract = read "contract" (obj draft.goal_contract) (
            get-stamped patch now "contract" (obj draft.goal_contract) refl refl
              (unfold get in refl));
        status = read "status" (str draft.draft_status) (
            get-stamped patch now "status" (str draft.draft_status) refl refl (unfold get in refl));
        version = read "state_version" (nat 1) (get-stamped_version patch now);
      }

  insert_draft-IsDrafted :
      (q : String) (draft : Draft) (ms states : List Fields) (version : ℤ) (metadata : Fields)
      (template : Json) (now : String) (db : Db) (e : EventRow) (db' : Db)
      → insert_draft host q draft ms
          (initial_fields host q draft now states version metadata template)
          now
          db
        ≡ ok (e, db')
      → (state : Fields) × (require_quest q db' ≡ ok state) × IsDrafted draft state
  unfolding insert_draft require_quest
  insert_draft-IsDrafted q draft ms states version metadata template now db e db' h =
      let patch = initial_fields host q draft now states version metadata template in
      let row = draft_row host q draft now in
      let (db1, first, rest1) = >>=-eq-ok (insert_quest_row row db) _ h in
      let (db2, second, rest2) =
        >>=-eq-ok (insert_contract host q draft.goal_contract now db1) _ rest1 in
      let (db3, third, last) = >>=-eq-ok (insert_plan host q draft.draft_plan ms now db2) _ rest2 in
      let quiet1 = insert_contract-IsQuiet host q draft.goal_contract now db1 db2 second in
      let quiet2 = insert_plan-IsQuiet host q draft.draft_plan ms now db2 db3 third in
      let found : find_quest q db3.quests ≡ some row =
        ap (find_quest q) (quiet2.0 ∙ quiet1.0) ∙ insert_quest_row-found row db db1 first in
      let a =
        append_locked-Appended host q "QuestDrafted" patch 0 event_schema_version now row db3 e db'
          found last in
      let stored : find_quest q db'.quests ≡ some (projected host row a.state now) =
        ap (λ (d : Db). find_quest q d.quests) a.db_written
        ∙ (unfold write_event in
            find_quest-update_quest_self q row (projected host row a.state now) db3.quests found
              refl) in
      (
        a.state,
        rw stored refl,
        initial_fields-IsDrafted q draft now states version metadata template row a.state refl
            a.applied,
      )

  -- A quest that `create_draft` returned is there: `require_quest` returns the same state, with the
  -- contract and the status of the draft, at version 1.
  pub create_draft-require_quest :
      (q : String) (draft : Draft) (now : String) (db : Db) (state : Fields) (db' : Db)
      → create_draft host q draft now db ≡ ok (state, db')
      → (require_quest q db' ≡ ok state) × IsDrafted draft state
  unfolding create_draft initial_state
  create_draft-require_quest q draft now db state db' h =
      let (ms, _, rest1) = >>=-eq-ok (validate_plan host draft.draft_plan) _ h in
      let (initial, second, rest2) = >>=-eq-ok (initial_state host q draft ms now) _ rest1 in
      let (states, _, more1) = >>=-eq-ok (milestone_states host ms) _ second in
      let (version, _, more2) = >>=-eq-ok (version_of host draft.draft_plan) _ more1 in
      let metadata_json = default_json (obj end) (get "metadata" draft.draft_plan) in
      let (metadata, _, more3) = >>=-eq-ok (dict_of host metadata_json) _ more2 in
      let (template, _, made) = >>=-eq-ok (template_of metadata_json) _ more3 in
      let ((e, db1), third, rest3) =
        >>=-eq-ok (insert_draft host q draft ms initial now db) _ rest2 in
      let (result, fourth, last) = >>=-eq-ok (require_quest q db1) _ rest3 in
      let patch : initial_fields host q draft now states version metadata template ≡ initial =
        ok-injective (initial_fields host q draft now states version metadata template) initial
          made in
      let (found, stored, is_drafted) =
        insert_draft-IsDrafted q draft ms states version metadata template now db e db1 (
          subst (λ (i : Fields). insert_draft host q draft ms i now db ≡ ok (e, db1)) (sym patch)
            third) in
      let same_db : db1 ≡ db' = cc last in
      let same_result : result ≡ state = cc last in
      let returned : found ≡ state =
        ok-injective found result (sym stored ∙ fourth) ∙ same_result in
      (
        subst (λ (d : Db). require_quest q d ≡ ok state) same_db (stored ∙ ap ok returned),
        subst (IsDrafted draft) returned is_drafted,
      )
