-- ===== src/Drafts/Tests.antt =====
-- The theorems of plan validation and of replanning at small plans.
use project_town.Base.{ℕ, String, ◌≡◌, refl, List, [], ◌∷◌, All, arith, ◌==◌, if◌then◌else◌}
use project_town.Base.Result.{ok, err, value_error, dependency_cycle, missing_dependency}
use project_town.Runtime.Json.{Fields, str, arr, obj, nil, cons, end, field, get}
use project_town.Storage.Tests.{host}
use project_town.Drafts.Plans.{
  Entry, visit_all, list_of, iterate, raw_milestones, dicts_of, validate_plan,
}
use project_town.Drafts.Turns.{visit_all-ready}
use project_town.Drafts.Visits.{IsDistinct}
use project_town.Drafts.Accepted.{IsKnown, IsBelow, validate_plan-acyclic}
use project_town.Drafts.Accepts.{validate_plan-accepts}
use project_town.Drafts.Decisions.{keep_completed}
use project_town.Drafts.Completed.{IsKept, keep_completed-IsKept}

abbrev entries : List Entry
entries =
    record { identifier = "b"; items = "a" ∷ [] }
    ∷ record { identifier = "a"; items = [] }
    ∷ record { identifier = "c"; items = "a" ∷ "b" ∷ [] }
    ∷ []

visit_all-ready_example : (visit_all entries).ready ≡ []
visit_all-ready_example = visit_all-ready entries

abbrev first : Fields
first = field "id" (str "a") end

abbrev second : Fields
second = field "id" (str "b") (field "depends_on" (arr (cons (str "a") nil)) end)

abbrev pub plan : Fields
plan =
    field "id" (str "p") (field "milestones" (arr (cons (obj second) (cons (obj first) nil))) end)

abbrev stored_first : Fields
stored_first = field "id" (str "a") (field "dependencies" (arr nil) end)

abbrev stored_second : Fields
stored_second = field "id" (str "b") (field "dependencies" (arr (cons (str "a") nil)) end)

accepted : validate_plan host plan ≡ ok (stored_second ∷ stored_first ∷ [])
unfolding validate_plan
accepted = refl

-- A plan whose two milestones wait for each other, and one that waits for nothing known.
refused_cycle :
    validate_plan host (
      field "milestones"
        (arr (
          cons (obj second) (
            cons
              (obj (field "id" (str "a") (field "dependencies" (arr (cons (str "b") nil)) end)))
              nil)))
        end)
    ≡ err (value_error dependency_cycle)
unfolding validate_plan
refused_cycle = refl

refused_missing :
    validate_plan host (field "milestones" (arr (cons (obj second) nil)) end)
    ≡ err (value_error missing_dependency)
unfolding validate_plan
refused_missing = refl

validate_plan-acyclic_example :
    IsDistinct ("b" ∷ "a" ∷ [])
    × All (IsKnown host ("b" ∷ "a" ∷ [])) (stored_second ∷ stored_first ∷ [])
    × ((rank : String → ℕ) × All (IsBelow host rank) (stored_second ∷ stored_first ∷ []))
unfolding get
validate_plan-acyclic_example =
    validate_plan-acyclic host plan (stored_second ∷ stored_first ∷ []) accepted

abbrev rank_of : String → ℕ
rank_of x = if x == "a" then 0 else 1

validate_plan-accepts_example : (out : List Fields) × (validate_plan host plan ≡ ok out)
unfolding raw_milestones list_of dicts_of get iterate
validate_plan-accepts_example =
    validate_plan-accepts host rank_of plan (second ∷ first ∷ []) refl refl (refl, (refl, tt))
      ((str "a" ∷ [], refl, (refl, tt), (omega arith, tt)), (([], refl, tt, tt), tt))

abbrev old : Fields
old =
    field "id" (str "a")
      (field "tool_name" (str "read_file") (field "status" (str "completed") end))

abbrev new : Fields
new = field "id" (str "a") (field "tool_name" (str "read_file") end)

abbrev kept : Fields
kept = field "id" (str "a") (
    field "tool_name" (str "read_file")
      (field "status" (str "completed") (field "evidence_ids" (arr nil) end)))

kept_old : keep_completed host ((str "a", old) ∷ []) (new ∷ []) ≡ ok (kept ∷ [])
unfolding keep_completed
kept_old = refl

keep_completed-IsKept_example : All (IsKept host (kept ∷ [])) ((str "a", old) ∷ [])
keep_completed-IsKept_example =
    keep_completed-IsKept host ((str "a", old) ∷ []) (new ∷ []) (kept ∷ []) kept_old
