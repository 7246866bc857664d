-- ===== src/Runtime/Json.antt =====
-- JSON values, as the event payloads and projections of backend/app/v1/storage.py hold them.
-- An object keeps Python's insertion order. `negative n` is the integer -(n + 1). A float is kept by
-- its text: nothing computes with it.
use project_town.Base.{
  ℕ, String, ◌≡◌, refl, Bool, true, false, not, ◌||◌, nat_eq, Option, none, some, arith, ◌==◌,
  eq_iff, if◌then◌else◌,
}

mutual
  pub data Json : Type 0 where
    null : Json
    bool : Bool → Json
    nat : ℕ → Json
    negative : ℕ → Json
    float : String → Json
    str : String → Json
    arr : Items → Json
    obj : Fields → Json

  pub data Items : Type 0 where
    nil : Items
    cons : Json → Items → Items

  pub data Fields : Type 0 where
    end : Fields
    field : String → Json → Fields → Fields

-- `d.get(key)`
unfoldable pub get : String → Fields → Option Json
get key end = none
get key (field k v fs) = if k == key then some v else get key fs

-- `d[key] = value`
unfoldable pub set : String → Json → Fields → Fields
set key value end = field key value end
set key value (field k v fs) = if k == key then field k value fs else field k v (set key value fs)

-- Python's truth of a value
abbrev pub truthy : Json → Bool
truthy null = false
truthy (bool b) = b
truthy (nat n) = not (nat_eq n 0)
truthy (negative n) = true
truthy (float text) = not (text == "0.0" || text == "-0.0")
truthy (str s) = not (s == "")
truthy (arr nil) = false
truthy (arr (cons x xs)) = true
truthy (obj end) = false
truthy (obj (field k v fs)) = true

-- `d.pop(key, None)`
unfoldable pub pop : String → Fields → Fields
pop key end = end
pop key (field k v fs) = if k == key then fs else field k v (pop key fs)

-- No key stands twice, as in every Python dict.
abbrev pub IsDict : Fields → Type 0
IsDict end = Unit
IsDict (field k v fs) = (get k fs ≡ none) × IsDict fs

pub get-field :
    (key j : String) (value : Json) (fs : Fields)
    → get j (field key value fs) ≡ (if key == j then some value else get j fs)
unfolding get
get-field key j value fs = refl

pub get-set :
    (key j : String) (value : Json) (fs : Fields)
    → get j (set key value fs) ≡ (if key == j then some value else get j fs)
unfolding get set
get-set key j value end = refl
get-set key j value (field k v fs) =
    ground (arith, eq_iff k key, eq_iff k j, eq_iff key j, get-set key j value fs)

pub set-IsDict : (key : String) (value : Json) (fs : Fields) → IsDict fs → IsDict (set key value fs)
unfolding get set
set-IsDict key value end h = (refl, tt)
set-IsDict key value (field k v fs) h =
    ground (arith, eq_iff k key, eq_iff key k, get-set key k value fs, set-IsDict key value fs h.1)

pub get-pop_ne : (key j : String) (fs : Fields) → (key == j) ≡ false → get j (pop key fs) ≡ get j fs
unfolding get pop
get-pop_ne key j end apart = refl
get-pop_ne key j (field k v fs) apart =
    ground (arith, eq_iff k key, eq_iff k j, eq_iff key j, get-pop_ne key j fs)
