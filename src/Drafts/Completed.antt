-- ===== src/Drafts/Completed.antt =====
-- What `store_plan_version` of backend/app/v1/storage.py keeps of the completed milestones.
use mathlib.Core.Path.{subst}
use project_town.Base.{
  String, ◌≡◌, refl, ap, ◌∙◌, inl, inr, true, false, Option, some, List, [], ◌∷◌, All, arith, ◌==◌,
  Bool-cases, Option-cases, some-injective, if◌then◌else◌,
}
use project_town.Base.Result.{
  ok, value_error, completed_milestone_removed, completed_milestone_modified, ok-injective,
  >>=-eq-ok,
}
use project_town.Runtime.Json.{Json, Fields, str, arr, nil, get, set, get-set}
use project_town.Storage.Db.{Host}
use project_town.Drafts.Plans.{default_json, iterate, text_or, id_of}
use project_town.Drafts.Create.{array_of, or_null}
use project_town.Drafts.Decisions.{
  proposed, proposed_at, same_work, complete, complete_as, key_text, keep_completed,
}

module _ (host : Host) where
  -- Two milestones have equal values under a key, where a missing key counts as null.
  abbrev pub IsSameUnder : String → Fields → Fields → Type 0
  IsSameUnder key old new = host.same_json (or_null (get key old)) (or_null (get key new)) ≡ true

  abbrev pub IsSameWork : Fields → Fields → Type 0
  IsSameWork old new =
      IsSameUnder "tool_name" old new
      × IsSameUnder "tool_args" old new
      × IsSameUnder "acceptance_criteria" old new

  -- A completed milestone stands in a list under its key, completed and with the same work.
  abbrev pub IsKept : List Fields → Json × Fields → Type 0
  IsKept ms (key, old) =
      (new : Fields) × (proposed_at host key ms ≡ some new)
      × (get "status" new ≡ some (str "completed"))
      × IsSameWork old new

  abbrev completed : List Json → Fields → Fields
  completed evidence m =
      set "evidence_ids" (arr (array_of evidence)) (set "status" (str "completed") m)

  get-completed :
      (key : String) (evidence : List Json) (m : Fields)
      → ("evidence_ids" == key) ≡ false
      → ("status" == key) ≡ false
      → get key (completed evidence m) ≡ get key m
  get-completed key evidence m k1 k2 =
      get-set "evidence_ids" key (arr (array_of evidence)) (set "status" (str "completed") m)
      ∙ rw k1 (get-set "status" key (str "completed") m ∙ rw k2 refl)

  status-completed :
      (evidence : List Json) (m : Fields)
      → get "status" (completed evidence m) ≡ some (str "completed")
  status-completed evidence m =
      get-set "evidence_ids" "status" (arr (array_of evidence)) (set "status" (str "completed") m)
      ∙ get-set "status" "status" (str "completed") m

  id_of-completed :
      (evidence : List Json) (m : Fields) → id_of host (completed evidence m) ≡ id_of host m
  id_of-completed evidence m = ap (text_or host "") (get-completed "id" evidence m refl refl)

  same_work-IsSameWork : (old new : Fields) → same_work host old new ≡ true → IsSameWork old new
  unfolding same_work
  same_work-IsSameWork old new h = ground (arith, h)

  abbrev step : String → List Json → Fields → Fields
  step other evidence m = if id_of host m == other then completed evidence m else m

  id_of-step :
      (other : String) (evidence : List Json) (m : Fields)
      → id_of host (step other evidence m) ≡ id_of host m
  id_of-step other evidence m = elim (Bool-cases (id_of host m == other)) [
    | inl here ↦ rw here (id_of-completed evidence m)
    | inr on ↦ rw on refl
  ]

  proposed-id :
      (id : String) (ms : List Fields) (new : Fields)
      → proposed host id ms ≡ some new
      → (id_of host new == id) ≡ true
  unfolding proposed
  proposed-id id [] new h = cc
  proposed-id id (m ∷ ms) new h = elim (Bool-cases (id_of host m == id)) [
    | inl here ↦ subst (λ x. (id_of host x == id) ≡ true) (some-injective m new (rw here at h)) here
    | inr on ↦ proposed-id id ms new (rw on at h)
  ]

  -- What `complete` makes of the milestone that a string finds.
  proposed-complete :
      (id other : String) (evidence : List Json) (ms : List Fields) (new : Fields)
      → proposed host id ms ≡ some new
      → proposed host id (complete host other evidence ms) ≡ some (step other evidence new)
  unfolding proposed complete
  proposed-complete id other evidence [] new h = cc
  proposed-complete id other evidence (m ∷ ms) new h = elim (Bool-cases (id_of host m == id)) [
    | inl here ↦
        let same : m ≡ new = ground (arith, here) in
        rw (id_of-step other evidence m) (rw here (ap (λ x. some (step other evidence x)) same))
    | inr on ↦
        rw (id_of-step other evidence m)
          (rw on (proposed-complete id other evidence ms new (rw on at h)))
  ]

  get-step :
      (key other : String) (evidence : List Json) (m : Fields)
      → ("evidence_ids" == key) ≡ false
      → ("status" == key) ≡ false
      → get key (step other evidence m) ≡ get key m
  get-step key other evidence m k1 k2 = elim (Bool-cases (id_of host m == other)) [
    | inl here ↦ rw here (get-completed key evidence m k1 k2)
    | inr on ↦ rw on refl
  ]

  step-IsSameWork :
      (other : String) (evidence : List Json) (old new : Fields)
      → IsSameWork old new
      → IsSameWork old (step other evidence new)
  step-IsSameWork other evidence old new (name, args, criteria) =
      let under =
        λ (key : String) (v w : Option Json) (e : w ≡ v)
            (h : host.same_json (or_null (get key old)) (or_null v) ≡ true).
          ap (λ (o : Option Json). host.same_json (or_null (get key old)) (or_null o)) e ∙ h in
      (
        under "tool_name" _ _ (get-step "tool_name" other evidence new refl refl) name,
        under "tool_args" _ _ (get-step "tool_args" other evidence new refl refl) args,
        under "acceptance_criteria" _ _
            (get-step "acceptance_criteria" other evidence new refl refl) criteria,
      )

  step-status :
      (other : String) (evidence : List Json) (new : Fields)
      → get "status" new ≡ some (str "completed")
      → get "status" (step other evidence new) ≡ some (str "completed")
  step-status other evidence new done = elim (Bool-cases (id_of host new == other)) [
    | inl here ↦ rw here (status-completed evidence new)
    | inr on ↦ rw on done
  ]

  -- Completing a milestone leaves what is kept kept.
  complete-IsKept :
      (other : String) (evidence : List Json) (ms : List Fields) (kept : Json × Fields)
      → IsKept ms kept
      → IsKept (complete host other evidence ms) kept
  complete-IsKept other evidence ms (str id, old) (new, found, done, same) = (
    step other evidence new,
    proposed-complete id other evidence ms new found,
    step-status other evidence new done,
    step-IsSameWork other evidence old new same,
  )
  complete-IsKept other evidence ms (_, old) (new, found, done, same) = cc

  complete_as-IsKept :
      (key : Json) (old : Fields) (ms ms' : List Fields)
      → complete_as host
          (value_error completed_milestone_removed)
          (value_error completed_milestone_modified)
          (proposed_at host key ms)
          (key_text host key)
          old
          ms
        ≡ ok ms'
      → IsKept ms' (key, old) × ((kept : Json × Fields) → IsKept ms kept → IsKept ms' kept)
  complete_as-IsKept (str id) old ms ms' h = elim (Option-cases (proposed host id ms)) [
    | inl missing ↦ absurd (ground (arith, missing))
    | inr (new, found) ↦ elim (Bool-cases (same_work host old new)) [
      | inr changed ↦ absurd (ground (arith, found, changed))
      | inl same ↦
          let (evidence, _, made) =
            >>=-eq-ok (iterate (default_json (arr nil) (get "evidence_ids" old)))
              (λ evidence. ok (complete host id evidence ms)) (rw same at (rw found at h)) in
          let out : complete host id evidence ms ≡ ms' =
            ok-injective (complete host id evidence ms) ms' made in
          let named : (id_of host new == id) ≡ true = proposed-id id ms new found in
          let now_done : get "status" (step id evidence new) ≡ some (str "completed") =
            rw named (status-completed evidence new) in
          subst
            (λ (l : List Fields).
              IsKept l (str id, old) × ((kept : Json × Fields) → IsKept ms kept → IsKept l kept))
            out
            (
              (
                step id evidence new,
                proposed-complete id id evidence ms new found,
                now_done,
                step-IsSameWork id evidence old new (same_work-IsSameWork old new same),
              ),
              complete-IsKept id evidence ms,
            )
    ]
  ]
  complete_as-IsKept _ old ms ms' h = cc

  keep_completed-earlier :
      (completed_items : List (Json × Fields)) (ms ms' : List Fields) (kept : Json × Fields)
      → keep_completed host completed_items ms ≡ ok ms'
      → IsKept ms kept
      → IsKept ms' kept
  unfolding keep_completed
  keep_completed-earlier [] ms ms' kept h k = subst (λ l. IsKept l kept) (ok-injective ms ms' h) k
  keep_completed-earlier ((key, old) ∷ rest) ms ms' kept h k =
      let (mid, first, last) = >>=-eq-ok _ (keep_completed host rest) h in
      keep_completed-earlier rest mid ms' kept last
        ((complete_as-IsKept key old ms mid first).1 kept k)

  -- Where the loop over the completed milestones of a quest returns, each of them stands in the new
  -- plan under its key with the status "completed", and its tool name, tool arguments and
  -- acceptance criteria are each equal to the old ones.
  pub keep_completed-IsKept :
      (completed_items : List (Json × Fields)) (ms ms' : List Fields)
      → keep_completed host completed_items ms ≡ ok ms'
      → All (IsKept ms') completed_items
  unfolding keep_completed
  keep_completed-IsKept [] ms ms' h = tt
  keep_completed-IsKept ((key, old) ∷ rest) ms ms' h =
      let (mid, first, last) = >>=-eq-ok _ (keep_completed host rest) h in
      (
        keep_completed-earlier rest mid ms' (key, old) last
            (complete_as-IsKept key old ms mid first).0,
        keep_completed-IsKept rest mid ms' last,
      )
