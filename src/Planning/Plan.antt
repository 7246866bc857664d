-- ===== src/Planning/Plan.antt =====
-- `_compile_nodes` of backend/app/v1/orchestration.py. `milestone_id` stands for
-- `_id("milestone", value)`, which is made of a SHA-256 hash; `to_str` is Python's `str`.
use text.Mathlib.Text.{starts_with}
use project_town.Base.{
  ℕ, ◌+◌, String, Bool, not, ◌&&◌, Option, none, some, List, [], ◌∷◌, ◌++◌, any, nat_eq, ◌==◌,
  if◌then◌else◌,
}
use project_town.Runtime.Json.{Json, Fields, get, nat, str, obj, end, field}

-- `PlanStep` of backend/app/agent.py
pub record PlanStep : Type 0 where
  pub step_title : String
  pub step_description : String
  pub step_tool : String
  pub step_args : Fields

-- A node of a plan.
pub record Milestone : Type 0 where
  pub id : String
  pub plan_version : ℕ
  pub position : ℕ
  pub title : String
  pub description : String
  pub tool_name : String
  pub tool_args : Fields
  pub dependencies : List String
  pub acceptance_criteria : List String
  pub status : String
  pub evidence_ids : List String
  pub attempt : ℕ

abbrev pub member : String → List String → Bool
member x xs = any (λ y. y == x) xs

-- The dict `writes`, newest entry first.
unfoldable pub written_by : String → List (String × String) → Option String
written_by path [] = none
written_by path ((p, id) ∷ writes) = if p == path then some id else written_by path writes

-- The variables of the loop.
pub record Compiler : Type 0 where
  pub roots : List String
  pub writes : List (String × String)
  pub previous : Option String

abbrev pub new_compiler : Compiler
new_compiler = record { roots = []; writes = []; previous = none }

abbrev pub only : Option String → List String
only none = []
only (some id) = id ∷ []

abbrev pub checked_or : Option String → Option String → List String
checked_or (some id) previous = id ∷ []
checked_or none previous = only previous

unfoldable pub dependencies_of : ℕ → String → String → Compiler → List String
unfolding written_by
dependencies_of position tool path c =
    if nat_eq position 1
    then []
    else if tool == "write_file"
    then c.roots
    else if starts_with tool "check_"
    then checked_or (written_by path c.writes) c.previous
    else only c.previous

-- The variables after a node.
abbrev pub after_node : ℕ → String → String → String → Compiler → Compiler
after_node position id tool path c = record {
  roots = if nat_eq position 1 then c.roots ++ id ∷ [] else c.roots;
  writes = if (tool == "write_file") && not (path == "") then (path, id) ∷ c.writes else c.writes;
  previous = some id;
}

module _ (milestone_id : Json → String) (to_str : Json → String) where
  abbrev text_or_empty : Option Json → String
  text_or_empty none = ""
  text_or_empty (some value) = to_str value

  abbrev pub path_of : PlanStep → String
  path_of step = text_or_empty (get "path" step.step_args)

  abbrev pub id_of : ℕ → PlanStep → String
  id_of position step = milestone_id (
      obj (
        field "position" (nat position) (
          field "title" (str step.step_title)
            (field "tool" (str step.step_tool) (field "args" (obj step.step_args) end)))))

  abbrev pub node_of : ℕ → PlanStep → Compiler → Milestone
  node_of position step c = record {
    id = id_of position step;
    plan_version = 1;
    position = position;
    title = step.step_title;
    description = step.step_description;
    tool_name = step.step_tool;
    tool_args = step.step_args;
    dependencies = dependencies_of position step.step_tool (path_of step) c;
    acceptance_criteria = [];
    status = "pending";
    evidence_ids = [];
    attempt = 0;
  }

  -- The loop, from a position on.
  unfoldable pub compile_from : ℕ → Compiler → List PlanStep → List Milestone
  unfolding get dependencies_of
  compile_from position c [] = []
  compile_from position c (step ∷ steps) =
      node_of position step c
      ∷ compile_from (position + 1)
          (after_node position (id_of position step) step.step_tool (path_of step) c) steps

  -- `_compile_nodes`
  unfoldable pub compile_nodes : List PlanStep → List Milestone
  unfolding compile_from
  compile_nodes steps = compile_from 1 new_compiler steps
