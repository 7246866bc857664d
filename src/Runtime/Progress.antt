-- ===== src/Runtime/Progress.antt =====
-- `WatchdogDecision`, `ProgressWatchdog` and `CapabilityRouter` of backend/app/runtime.py. A set of
-- evidence identifiers is a list that is read by membership.
use project_town.Base.{
  ℕ, ◌+◌, String, Bool, false, not, ◌&&◌, ◌||◌, Option, none, some, List, [], ◌∷◌, ◌++◌, any, leb,
  ltb, ◌==◌, if◌then◌else◌,
}
use project_town.Base.Result.{
  Result, ok, err, value_error, threshold_not_positive, step_count_not_positive,
}
use project_town.Runtime.Json.{Json}

pub record WatchdogDecision : Type 0 where
  pub triggered : Bool
  pub reason : String
  pub decided : ℕ
  pub has_new_evidence : Bool

pub record ProgressWatchdog : Type 0 where
  pub threshold : ℕ
  pub last : Option (String × String × List String)
  pub seen_evidence : List String
  pub consecutive : ℕ

-- `ProgressWatchdog(threshold)`
unfoldable pub new_watchdog : ℕ → Result ProgressWatchdog
new_watchdog threshold =
    if ltb threshold 1
    then err (value_error threshold_not_positive)
    else ok (record { threshold = threshold; last = none; seen_evidence = []; consecutive = 0 })

abbrev pub is_same : Option (String × String × List String) → String → String → Bool
is_same none action world = false
is_same (some (a, w, _)) action world = (a == action) && (w == world)

abbrev pub member : String → List String → Bool
member id ids = any (λ x. x == id) ids

-- `bool(evidence - self._seen_evidence)`
unfoldable pub brings_new : List String → List String → Bool
brings_new seen ids = any (λ id. not (member id seen)) ids

-- `observe`, with `stable_hash` as a parameter.
unfoldable pub observe :
    (Json → String)
    → Json
    → String
    → List String
    → ProgressWatchdog
    → ProgressWatchdog × WatchdogDecision
unfolding brings_new
observe stable_hash action world evidence w =
    let action_hash = stable_hash action in
    let same = is_same w.last action_hash world in
    let new_evidence = brings_new w.seen_evidence evidence in
    let consecutive = (if same && not new_evidence then w.consecutive + 1 else 1) in
    let triggered = leb w.threshold consecutive && not new_evidence in
    (
      record w {
        last = some (action_hash, world, evidence);
        seen_evidence = w.seen_evidence ++ evidence;
        consecutive = consecutive;
      },
      record {
        triggered = triggered;
        reason = if triggered then "no_progress" else "progress";
        decided = consecutive;
        has_new_evidence = new_evidence;
      },
    )

-- `CapabilityRouter.route`; `lower` stands for `str.lower`.
unfoldable pub route : (String → String) → ℕ → String → Option Bool → Result (List String)
route lower step_count risk_level force_multi =
    if ltb step_count 1
    then err (value_error step_count_not_positive)
    else ok (if forced force_multi then "planner" ∷ "executor" ∷ "verifier" ∷ [] else "agent" ∷ [])
  where
    forced : Option Bool → Bool
    forced (some multi) = multi
    forced none =
        leb 4 step_count || (lower risk_level == "high") || (lower risk_level == "critical")
