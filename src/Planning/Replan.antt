-- ===== src/Planning/Replan.antt =====
-- `replan_plan` of backend/app/v1/orchestration.py, on a state that holds its plan. The state's
-- other fields are read once: `used` is the number of replans and `max_replans` the budget that
-- the arguments and the state give.
use project_town.Base.{
  ℕ, ◌+◌, ◌≡◌, inl, inr, String, Bool, false, not, Option, none, some, List, [], ◌∷◌, ◌++◌, map,
  filter, leb, arith, ◌==◌, Bool-cases, if◌then◌else◌,
}
use project_town.Base.Result.{
  Result, ok, err, value_error, milestone_unknown, milestone_completed, ok-injective,
}
use project_town.Runtime.Json.{Json, nat, str, obj, end, field}
use project_town.Planning.Plan.{Milestone, member}

-- An entry of `metadata["superseded"]`.
pub record Superseded : Type 0 where
  pub superseded_version : ℕ
  pub node_ids : List String
  pub failure_hypothesis : String

pub record Plan : Type 0 where
  pub plan_id : String
  pub version : ℕ
  pub milestones : List Milestone
  pub superseded : List Superseded

pub record ReplanState : Type 0 where
  pub plan : Plan
  pub used : ℕ
  pub max_replans : Option ℕ

pub data Replanned : Type 0 where
  requires_user : Replanned
  replanned : Plan → Replanned

abbrev pub is_completed : Milestone → Bool
is_completed m = m.status == "completed"

abbrev pub ids : List Milestone → List String
ids [] = []
ids (m ∷ ms) = m.id ∷ ids ms

-- The set `completed`.
unfoldable pub completed_ids : List Milestone → List String
completed_ids ms = ids (filter is_completed ms)

-- The list `unfinished_ids`.
unfoldable pub unfinished_ids : List String → List Milestone → List String
unfinished_ids completed [] = []
unfinished_ids completed (m ∷ ms) =
    if member m.id completed
    then unfinished_ids completed ms
    else m.id ∷ unfinished_ids completed ms

abbrev exhausted : Option ℕ → ℕ → Bool
exhausted none used = false
exhausted (some limit) used = leb limit used

replanned-injective : (p q : Plan) → replanned p ≡ replanned q → p ≡ q
replanned-injective p q h = cc

module _ (milestone_id : Json → String) where
  abbrev pub new_id : ℕ → String → String → String
  new_id next hypothesis old = milestone_id (
      obj (
        field "version" (nat next)
          (field "old" (str old) (field "hypothesis" (str hypothesis) end))))

  -- `remap.get(dependency, dependency)`
  abbrev pub remapped : List String → ℕ → String → String → String
  remapped unfinished next hypothesis d =
      if member d unfinished then new_id next hypothesis d else d

  -- The body of the loop, for one milestone.
  unfoldable pub next_milestone : List String → List String → ℕ → String → Milestone → Milestone
  next_milestone completed unfinished next hypothesis m =
      if member m.id completed then m else record m {
        id = new_id next hypothesis m.id;
        plan_version = next;
        status = "pending";
        evidence_ids = [];
        attempt = m.attempt + 1;
        dependencies = map (remapped unfinished next hypothesis) m.dependencies;
      }

  unfoldable pub next_milestones :
      List String → List String → ℕ → String → List Milestone → List Milestone
  unfolding next_milestone
  next_milestones completed unfinished next hypothesis [] = []
  next_milestones completed unfinished next hypothesis (m ∷ ms) =
      next_milestone completed unfinished next hypothesis m
      ∷ next_milestones completed unfinished next hypothesis ms

  abbrev pub next_plan : Plan → String → Plan
  next_plan p hypothesis =
      let completed = completed_ids p.milestones in
      let unfinished = unfinished_ids completed p.milestones in
      record p {
        version = p.version + 1;
        milestones = next_milestones completed unfinished (p.version + 1) hypothesis p.milestones;
        superseded =
            p.superseded
            ++ record {
              superseded_version = p.version;
              node_ids = unfinished;
              failure_hypothesis = hypothesis;
            }
              ∷ [];
      }

  -- `replan_plan`
  unfoldable pub replan_plan : ReplanState → String → String → Result Replanned
  unfolding completed_ids unfinished_ids next_milestones
  replan_plan s failed_node hypothesis =
      if not (member failed_node (ids s.plan.milestones))
      then err (value_error milestone_unknown)
      else if member failed_node (completed_ids s.plan.milestones)
      then err (value_error milestone_completed)
      else if exhausted s.max_replans s.used
      then ok requires_user
      else ok (replanned (next_plan s.plan hypothesis))

  -- The plan that a replanning returned.
  pub replan_plan-eq-replanned :
      (s : ReplanState) (failed_node hypothesis : String) (p : Plan)
      → replan_plan s failed_node hypothesis ≡ ok (replanned p)
      → next_plan s.plan hypothesis ≡ p
  unfolding replan_plan
  replan_plan-eq-replanned s failed_node hypothesis p h =
      elim (Bool-cases (member failed_node (ids s.plan.milestones))) [
        | inr absent ↦ absurd (ground (arith, h, absent))
        | inl present ↦ elim (Bool-cases (member failed_node (completed_ids s.plan.milestones))) [
          | inl done ↦ absurd (ground (arith, h, present, done))
          | inr live ↦ elim (Bool-cases (exhausted s.max_replans s.used)) [
            | inl spent ↦ absurd (ground (arith, h, present, live, spent))
            | inr left ↦
                replanned-injective (next_plan s.plan hypothesis) p
                  (ok-injective _ (replanned p) (rw left at (rw live at (rw present at h))))
          ]
        ]
      ]
