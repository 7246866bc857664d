-- ===== src/Planning/Tests.antt =====
-- The theorems of plans at concrete inputs.
use project_town.Base.{◌+◌, ◌≡◌, refl, String, some, List, [], ◌∷◌, filter}
use project_town.Base.Result.{ok}
use project_town.Runtime.Json.{Json, str, end, field}
use project_town.Planning.Plan.{PlanStep, Milestone, compile_nodes}
use project_town.Planning.Order.{IsOrdered, compile_nodes-IsOrdered}
use project_town.Planning.Replan.{
  Plan, ReplanState, replanned, is_completed, next_plan, replan_plan, completed_ids,
}
use project_town.Planning.Closed.{IsClosed, IsFinished, replan_keeps_completed, replan-IsClosed}

abbrev text_of : Json → String
text_of (str text) = text
text_of _ = "new"

abbrev step_of : String → String → PlanStep
step_of tool path = record {
  step_title = "step";
  step_description = "a step";
  step_tool = tool;
  step_args = field "path" (str path) end;
}

abbrev steps0 : List PlanStep
steps0 =
    step_of "list_directory" "."
    ∷ step_of "write_file" "a.py"
    ∷ step_of "check_python_syntax" "a.py"
    ∷ []

compile_nodes-IsOrdered_example : IsOrdered [] (compile_nodes text_of text_of steps0)
compile_nodes-IsOrdered_example = compile_nodes-IsOrdered text_of text_of steps0

abbrev milestone_of : String → String → List String → Milestone
milestone_of name state needs = record {
  id = name;
  plan_version = 1;
  position = 1;
  title = "t";
  description = "d";
  tool_name = "write_file";
  tool_args = end;
  dependencies = needs;
  acceptance_criteria = [];
  status = state;
  evidence_ids = [];
  attempt = 0;
}

abbrev plan0 : Plan
plan0 = record {
  plan_id = "plan";
  version = 1;
  milestones =
      milestone_of "m1" "completed" []
      ∷ milestone_of "m2" "failed" ("m1" ∷ [])
      ∷ milestone_of "m3" "pending" ("m2" ∷ [])
      ∷ [];
  superseded = [];
}

abbrev state0 : ReplanState
state0 = record { plan = plan0; used = 0; max_replans = some 2 }

abbrev plan1 : Plan
plan1 = next_plan text_of plan0 "typo"

replanned0 : replan_plan text_of state0 "m2" "typo" ≡ ok (replanned plan1)
unfolding replan_plan
replanned0 = refl

replan_keeps_completed_example :
    (filter is_completed plan1.milestones ≡ filter is_completed plan0.milestones)
    × (plan1.version ≡ 1 + 1)
replan_keeps_completed_example = replan_keeps_completed text_of state0 "m2" "typo" plan1 replanned0

closed0 : IsClosed plan0.milestones
closed0 = (tt, ((refl, tt), ((refl, tt), tt)))

finished0 : IsFinished plan0.milestones
unfolding completed_ids
finished0 = ((λ _. tt), ((λ e. cc), ((λ e. cc), tt)))

replan-IsClosed_example : IsClosed plan1.milestones
replan-IsClosed_example =
    replan-IsClosed text_of state0 "m2" "typo" plan1 replanned0 closed0 finished0
