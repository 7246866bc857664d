-- ===== src/Runtime/Stalls.antt =====
-- What a triggered `ProgressWatchdog` of backend/app/runtime.py says of the observations before it.
use project_town.Base.{ℕ, ◌+◌, ◌≡◌, String, Bool, false, Option, none, some, List, [], ◌∷◌}
use project_town.Runtime.Json.{Json}
use project_town.Runtime.Progress.{ProgressWatchdog, observe}

-- An observation: the action, the hash of the world and whether it brought new evidence.
pub record Seen : Type 0 where
  pub action : Json
  pub world : String
  pub brought : Bool

-- The newest `n` observations have one action and one world, and all but the first of them
-- brought no new evidence.
pub data Repeats (stable_hash : Json → String) : ℕ → List Seen → Type 0 where
  at_start : Repeats stable_hash 0 []
  first : (x : Seen) (xs : List Seen) → Repeats stable_hash 1 (x ∷ xs)
  again :
      (n : ℕ) (x y : Seen) (xs : List Seen)
      → Repeats stable_hash n (y ∷ xs)
      → stable_hash x.action ≡ stable_hash y.action
      → x.world ≡ y.world
      → x.brought ≡ false
      → Repeats stable_hash (n + 1) (x ∷ y ∷ xs)

-- The observations of a run, newest first, and the watchdog after them.
unfoldable pub observe_all :
    (Json → String)
    → List (Json × String × List String)
    → ProgressWatchdog
    → List Seen
    → ProgressWatchdog × List Seen
observe_all stable_hash [] w seen = (w, seen)
observe_all stable_hash ((action, world, ids) ∷ more) w seen =
    let (w', d) = observe stable_hash action world ids w in
    observe_all stable_hash more w'
      (record { action = action; world = world; brought = d.has_new_evidence } ∷ seen)

abbrev LastIs : (Json → String) → Option (String × String × List String) → List Seen → Type 0
LastIs stable_hash last [] = last ≡ none
LastIs stable_hash last (x ∷ xs) =
    (ids : List String) × (last ≡ some (stable_hash x.action, x.world, ids))

abbrev IsTracking : (Json → String) → ProgressWatchdog → List Seen → Type 0
IsTracking stable_hash w seen =
    Repeats stable_hash w.consecutive seen × LastIs stable_hash w.last seen
