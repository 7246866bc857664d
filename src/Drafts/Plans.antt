-- ===== src/Drafts/Plans.antt =====
-- `_validate_plan` of backend/app/v1/storage.py. A set of identifiers is the list of its members,
-- each of them once.
use Prim.Native.String.{compare}
use text.Mathlib.Text.{is_le}
use project_town.Base.{
  ℕ, zero, suc, String, Bool, true, false, not, ◌&&◌, ◌||◌, Option, none, some, List, [], ◌∷◌, ◌++◌,
  map, filter, any, length, nat_eq, ◌==◌, if◌then◌else◌,
}
use project_town.Base.Result.{
  Result, ok, err, type_error, value_error, unstable_ids, duplicate_milestone_id,
  missing_dependency, dependency_cycle, ◌>>=◌,
}
use project_town.Storage.Db.{Host}
use project_town.Runtime.Json.{
  Json, Items, Fields, str, arr, obj, nil, cons, end, field, get, set, pop,
}

abbrev pub member : String → List String → Bool
member x xs = any (λ y. y == x) xs

abbrev pub is_nil : List String → Bool
is_nil [] = true
is_nil (x ∷ xs) = false

-- `sorted` on strings
unfoldable pub insert_sorted : String → List String → List String
insert_sorted x [] = x ∷ []
insert_sorted x (y ∷ ys) = if is_le (compare x y) then x ∷ y ∷ ys else y ∷ insert_sorted x ys

unfoldable pub sorted : List String → List String
unfolding insert_sorted
sorted [] = []
sorted (x ∷ xs) = insert_sorted x (sorted xs)

-- `set(xs)`
unfoldable pub set_of : List String → List String
set_of [] = []
set_of (x ∷ xs) = let rest = set_of xs in if member x rest then rest else x ∷ rest

unfoldable pub has_duplicates : List String → Bool
unfolding set_of
has_duplicates xs = not (nat_eq (length (set_of xs)) (length xs))

-- An entry of the dict `dependencies`.
pub record Entry : Type 0 where
  pub identifier : String
  pub items : List String

-- `items.remove(current)`, where `current` is in `items`
abbrev pub without : String → List String → List String
without current items = filter (λ d. not (d == current)) items

-- The inner loop: what it leaves in `dependencies`, and in `ready`.
unfoldable pub removed : String → List Entry → List Entry
removed current [] = []
removed current (e ∷ es) = record e { items = without current e.items } ∷ removed current es

abbrev pub wakes : String → List String → Entry → List String → Bool
wakes current visited e ready =
    member current e.items
    && is_nil (without current e.items)
    && not (member e.identifier visited)
    && not (member e.identifier ready)

unfoldable pub ready_after : String → List String → List Entry → List String → List String
ready_after current visited [] ready = ready
ready_after current visited (e ∷ es) ready =
    ready_after current visited es
      (if wakes current visited e ready then sorted (ready ++ e.identifier ∷ []) else ready)

-- The variables of the loop `while ready`.
pub record Visit : Type 0 where
  pub ready : List String
  pub visited : List String
  pub dependencies : List Entry

-- At most so many turns of the loop.
unfoldable pub visit : ℕ → List String → List String → List Entry → Visit
unfolding ready_after removed sorted
visit zero ready visited es = record { ready = ready; visited = visited; dependencies = es }
visit (suc turns) [] visited es = record { ready = []; visited = visited; dependencies = es }
visit (suc turns) (current ∷ ready) visited es =
    visit turns (ready_after current (visited ++ current ∷ []) es ready) (visited ++ current ∷ [])
      (removed current es)

unfoldable pub first_ready : List Entry → List String
first_ready [] = []
first_ready (e ∷ es) = if is_nil e.items then e.identifier ∷ first_ready es else first_ready es

-- The loop, from the start. Every identifier is visited at most once, so that as many turns as
-- there are entries leave nothing ready.
unfoldable pub visit_all : List Entry → Visit
unfolding visit first_ready
visit_all es = visit (length es) (sorted (first_ready es)) [] es

-- `len(visited) == len(identifiers)`
unfoldable pub visits_all : List Entry → Bool
unfolding visit_all
visits_all es = nat_eq (length (visit_all es).visited) (length es)

-- The members of a JSON list
unfoldable pub list_of : Items → List Json
list_of nil = []
list_of (cons x xs) = x ∷ list_of xs

unfoldable pub items_of : List String → Items
items_of [] = nil
items_of (x ∷ xs) = cons (str x) (items_of xs)

unfoldable pub keys_of : Fields → List Json
keys_of end = []
keys_of (field k v fs) = str k ∷ keys_of fs

unfoldable pub characters_of : String → List Json
characters_of String.[] = []
characters_of (String.◌∷◌ c s) = str (String.◌∷◌ c String.[]) ∷ characters_of s

-- `for item in value`
unfoldable pub iterate : Json → Result (List Json)
unfolding list_of keys_of characters_of
iterate (arr xs) = ok (list_of xs)
iterate (obj fs) = ok (keys_of fs)
iterate (str s) = ok (characters_of s)
iterate _ = err type_error

-- The list of milestones, which has to be a sequence and no string.
unfoldable pub raw_milestones : Option Json → Result (List Json)
unfolding list_of
raw_milestones none = ok []
raw_milestones (some (arr xs)) = ok (list_of xs)
raw_milestones (some _) = err type_error

-- `milestone.get("dependencies", milestone.get("depends_on", []))`
abbrev pub default_json : Json → Option Json → Json
default_json other none = other
default_json other (some value) = value

abbrev pub raw_dependencies : Fields → Json
raw_dependencies m =
    default_json (default_json (arr nil) (get "depends_on" m)) (get "dependencies" m)

-- The milestone as it is stored.
abbrev pub normalised : List String → Fields → Fields
normalised deps m = pop "depends_on" (set "dependencies" (arr (items_of (sorted deps))) m)

module _ (host : Host) where
  open host use {to_str, to_dict}

  -- `dict(item)`
  abbrev pub dict_of : Json → Result Fields
  dict_of (obj fs) = ok fs
  dict_of other = to_dict other

  unfoldable pub dicts_of : List Json → Result (List Fields)
  dicts_of [] = ok []
  dicts_of (x ∷ xs) = do m ← dict_of x; ms ← dicts_of xs; ok (m ∷ ms)

  -- `str(item.get(key, other))`
  abbrev pub text_or : String → Option Json → String
  text_or other none = other
  text_or other (some value) = to_str value

  abbrev pub id_of : Fields → String
  id_of m = text_or "" (get "id" m)

  -- The body of the loop over the milestones, with their identifiers.
  abbrev pub check_dependencies : List String → Fields → List String → Result (Fields × Entry)
  check_dependencies ids m deps =
      if any (λ d. not (member d ids)) deps
      then err (value_error missing_dependency)
      else if member (id_of m) deps
      then err (value_error dependency_cycle)
      else ok (normalised deps m, record { identifier = id_of m; items = deps })

  unfoldable pub check_milestone : List String → Fields → Result (Fields × Entry)
  unfolding iterate set_of get set pop items_of sorted
  check_milestone ids m = do
    raw ← iterate (raw_dependencies m)
    check_dependencies ids m (set_of (map to_str raw))

  unfoldable pub check_milestones : List String → List Fields → Result (List Fields × List Entry)
  unfolding check_milestone
  check_milestones ids [] = ok ([], [])
  check_milestones ids (m ∷ ms) = do
    (m', e) ← check_milestone ids m
    (ms', es) ← check_milestones ids ms
    ok (m' ∷ ms', e ∷ es)

  abbrev pub ordered : List Fields × List Entry → Result (List Fields)
  ordered (ms, es) = if visits_all es then ok ms else err (value_error dependency_cycle)

  abbrev pub validate_milestones : List Fields → Result (List Fields)
  validate_milestones ms =
      let ids = map id_of ms in
      if is_nil ids || any (λ id. id == "") ids
      then err (value_error unstable_ids)
      else if has_duplicates ids
      then err (value_error duplicate_milestone_id)
      else (check_milestones ids ms >>= ordered)

  -- `_validate_plan`
  unfoldable pub validate_plan : Fields → Result (List Fields)
  unfolding raw_milestones dicts_of check_milestones has_duplicates set_of visits_all get
  validate_plan plan = raw_milestones (get "milestones" plan) >>= dicts_of >>= validate_milestones
