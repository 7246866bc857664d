-- ===== src/Drafts/Accepted.antt =====
-- What a plan that `_validate_plan` of backend/app/v1/storage.py accepts is like.
use Prim.Native.String.{compare}
use text.Mathlib.Text.{is_le}
use mathlib.Core.Path.{subst}
use project_town.Base.{
  ℕ, ◌≤◌, ◌<◌, String, ◌≡◌, refl, sym, ap, ◌∙◌, inl, inr, true, false, not, ◌||◌, Option, some,
  List, [], ◌∷◌, All, map, any, length, arith, ◌==◌, eq_iff, Bool-cases,
}
use project_town.Base.Result.{ok, ok-injective, ◌>>=◌, >>=-eq-ok}
use project_town.Runtime.Json.{
  Json, Items, Fields, str, arr, nil, cons, get, set, get-set, get-pop_ne,
}
use project_town.Storage.Db.{Host}
use project_town.Drafts.Plans.{
  member, Entry, is_nil, insert_sorted, sorted, set_of, has_duplicates, visit_all, visits_all,
  items_of, iterate, raw_milestones, raw_dependencies, normalised, dicts_of, text_or, id_of,
  check_dependencies, check_milestone, check_milestones, ordered, validate_milestones,
  validate_plan,
}
use project_town.Drafts.Visits.{identifiers, IsDistinct}
use project_town.Drafts.Acyclic.{IsRanked, IsClosed, visits_all-IsRanked}
use project_town.Drafts.Kept.{index}

-- The dependencies that a stored milestone names.
unfoldable pub strings_of : Items → List String
strings_of nil = []
strings_of (cons (str s) xs) = s ∷ strings_of xs
strings_of (cons other xs) = strings_of xs

abbrev pub strings_in : Option Json → List String
strings_in (some (arr xs)) = strings_of xs
strings_in other = []

unfoldable pub depends_on : Fields → List String
unfolding strings_of
depends_on m = strings_in (get "dependencies" m)

strings_of-items_of : (xs : List String) → strings_of (items_of xs) ≡ xs
unfolding strings_of items_of
strings_of-items_of [] = refl
strings_of-items_of (x ∷ xs) = ap (λ rest. x ∷ rest) (strings_of-items_of xs)

depends_on-normalised :
    (deps : List String) (m : Fields) → depends_on (normalised deps m) ≡ sorted deps
unfolding depends_on
depends_on-normalised deps m =
    ap strings_in (
      get-pop_ne "depends_on" "dependencies" (set "dependencies" (arr (items_of (sorted deps))) m)
        refl
      ∙ get-set "dependencies" "dependencies" (arr (items_of (sorted deps))) m)
    ∙ strings_of-items_of (sorted deps)

length-set_of : (xs : List String) → length (set_of xs) ≤ length xs
unfolding set_of
length-set_of [] = omega arith
length-set_of (x ∷ xs) = ground (arith, length-set_of xs)

pub member-set_of : (y : String) (xs : List String) → member y (set_of xs) ≡ member y xs
unfolding set_of
member-set_of y [] = refl
member-set_of y (x ∷ xs) = elim (Bool-cases (member x (set_of xs))) [
  | inl twice ↦ rw twice (elim (Bool-cases (x == y)) [
    | inl same ↦ rw same (subst (λ z. member z (set_of xs) ≡ true) ((eq_iff x y).0 same) twice)
    | inr apart ↦ rw apart (member-set_of y xs)
  ])
  | inr once ↦ rw once (ground (arith, member-set_of y xs))
]

set_of-IsDistinct : (xs : List String) → length (set_of xs) ≡ length xs → IsDistinct xs
unfolding set_of
set_of-IsDistinct [] h = tt
set_of-IsDistinct (x ∷ xs) h = elim (Bool-cases (member x (set_of xs))) [
  | inl twice ↦ absurd (ground (arith, twice, length-set_of xs))
  | inr once ↦ (sym (member-set_of x xs) ∙ once, set_of-IsDistinct xs (ground (arith, once)))
]

has_duplicates-IsDistinct : (xs : List String) → has_duplicates xs ≡ false → IsDistinct xs
unfolding has_duplicates
has_duplicates-IsDistinct xs h = set_of-IsDistinct xs (ground (arith, h))

All-insert_sorted :
    (P : String → Type 0) (x : String) (xs : List String)
    → P x
    → All P xs
    → All P (insert_sorted x xs)
unfolding insert_sorted
All-insert_sorted P x [] p all = (p, tt)
All-insert_sorted P x (y ∷ xs) p all = elim (Bool-cases (is_le (compare x y))) [
  | inl first ↦ rw first (p, all)
  | inr later ↦ rw later (all.0, All-insert_sorted P x xs p all.1)
]

All-sorted : (P : String → Type 0) (xs : List String) → All P xs → All P (sorted xs)
unfolding sorted
All-sorted P [] all = tt
All-sorted P (x ∷ xs) all = All-insert_sorted P x (sorted xs) all.0 (All-sorted P xs all.1)

not-any :
    (known deps : List String)
    → any (λ d. not (member d known)) deps ≡ false
    → All (λ d. member d known ≡ true) deps
not-any known [] h = tt
not-any known (d ∷ deps) h = (ground arith, not-any known deps (ground arith))

module _ (host : Host) where
  -- A milestone that was normalised stands for its entry.
  record Stored (ids : List String) (m m' : Fields) (e : Entry) : Type 0 where
    same_id : id_of host m' ≡ id_of host m
    entry_id : e.identifier ≡ id_of host m
    stored_items : depends_on m' ≡ sorted e.items
    known_items : All (λ d. member d ids ≡ true) e.items

  id_of-normalised :
      (deps : List String) (m : Fields) → id_of host (normalised deps m) ≡ id_of host m
  id_of-normalised deps m = ap (text_or host "") (
      get-pop_ne "depends_on" "id" (set "dependencies" (arr (items_of (sorted deps))) m) refl
      ∙ get-set "dependencies" "id" (arr (items_of (sorted deps))) m)

  check_dependencies-Stored :
      (ids : List String) (m : Fields) (deps : List String) (m' : Fields) (e : Entry)
      → check_dependencies host ids m deps ≡ ok (m', e)
      → Stored ids m m' e
  check_dependencies-Stored ids m deps m' e h =
      elim (Bool-cases (any (λ d. not (member d ids)) deps)) [
        | inl missing ↦ absurd (ground (arith, missing))
        | inr known ↦ elim (Bool-cases (member (id_of host m) deps)) [
          | inl cycle ↦ absurd (ground (arith, known, cycle))
          | inr free ↦
              let entry : Entry = record { identifier = id_of host m; items = deps } in
              let same : (normalised deps m, entry) ≡ (m', e) =
                ok-injective (normalised deps m, entry) (m', e) (rw free at (rw known at h)) in
              subst (λ (x : Fields × Entry). Stored ids m x.0 x.1) same
                (record {
                  same_id = id_of-normalised deps m;
                  entry_id = refl;
                  stored_items = depends_on-normalised deps m;
                  known_items = not-any ids deps known;
                })
        ]
      ]

  -- The dependencies of a stored milestone have lower ranks.
  abbrev pub IsBelow : (String → ℕ) → Fields → Type 0
  IsBelow rank m = All (λ d. rank d < rank (id_of host m)) (depends_on m)

  abbrev pub IsKnown : List String → Fields → Type 0
  IsKnown ids m = All (λ d. member d ids ≡ true) (depends_on m)

  -- What the loop over the milestones leaves.
  record Checked (ids : List String) (ms ms' : List Fields) (es : List Entry) : Type 0 where
    same_ids : map (id_of host) ms' ≡ map (id_of host) ms
    entry_ids : identifiers es ≡ map (id_of host) ms
    closed : IsClosed ids es
    known : All (IsKnown ids) ms'
    below : (rank : String → ℕ) → IsRanked rank es → All (IsBelow rank) ms'

  Checked-cons :
      (ids : List String) (m m' : Fields) (e : Entry) (ms ms' : List Fields) (es : List Entry)
      → Stored ids m m' e
      → Checked ids ms ms' es
      → Checked ids (m ∷ ms) (m' ∷ ms') (e ∷ es)
  Checked-cons ids m m' e ms ms' es s c = record {
    same_ids =
        ap (λ id. id ∷ map (id_of host) ms') s.same_id
        ∙ ap (λ rest. id_of host m ∷ rest) c.same_ids;
    entry_ids =
        ap (λ id. id ∷ identifiers es) s.entry_id ∙ ap (λ rest. id_of host m ∷ rest) c.entry_ids;
    closed = (s.known_items, c.closed);
    known = (
      subst (All (λ d. member d ids ≡ true)) (sym s.stored_items)
          (All-sorted (λ d. member d ids ≡ true) e.items s.known_items),
      c.known,
    );
    below = λ rank ranked. (
      subst (All (λ d. rank d < rank (id_of host m'))) (sym s.stored_items) (
          subst (λ id. All (λ d. rank d < rank id) (sorted e.items)) (s.entry_id ∙ sym s.same_id)
            (All-sorted (λ d. rank d < rank e.identifier) e.items ranked.0)),
      c.below rank ranked.1,
    );
  }

  check_milestones-Checked :
      (ids : List String) (ms ms' : List Fields) (es : List Entry)
      → check_milestones host ids ms ≡ ok (ms', es)
      → Checked ids ms ms' es
  unfolding check_milestones check_milestone
  check_milestones-Checked ids [] ms' es h =
      subst (λ (x : List Fields × List Entry). Checked ids [] x.0 x.1)
        (ok-injective ([], []) (ms', es) h)
        (record {
          same_ids = refl;
          entry_ids = refl;
          closed = tt;
          known = tt;
          below = λ rank r. tt;
        })
  check_milestones-Checked ids (m ∷ ms) ms' es h =
      let ((m', e), first, rest) =
        >>=-eq-ok (check_milestone host ids m)
          (λ (m', e). check_milestones host ids ms >>= λ (ms', es). ok (m' ∷ ms', e ∷ es)) h in
      let ((ms2, es2), second, last) =
        >>=-eq-ok (check_milestones host ids ms) (λ (ms', es). ok (m' ∷ ms', e ∷ es)) rest in
      let (raw, _, checked) =
        >>=-eq-ok (iterate (raw_dependencies m))
          (λ raw. check_dependencies host ids m (set_of (map host.to_str raw))) first in
      let stored = check_dependencies-Stored ids m (set_of (map host.to_str raw)) m' e checked in
      subst (λ (x : List Fields × List Entry). Checked ids (m ∷ ms) x.0 x.1)
        (ok-injective (m' ∷ ms2, e ∷ es2) (ms', es) last)
        (Checked-cons ids m m' e ms ms2 es2 stored (check_milestones-Checked ids ms ms2 es2 second))

  validated :
      (ms ms' : List Fields)
      → has_duplicates (map (id_of host) ms) ≡ false
      → (check_milestones host (map (id_of host) ms) ms >>= ordered host) ≡ ok ms'
      → IsDistinct (map (id_of host) ms')
        × All (IsKnown (map (id_of host) ms')) ms'
        × ((rank : String → ℕ) × All (IsBelow rank) ms')
  validated ms ms' once h =
      let ids = map (id_of host) ms in
      let ((out, es), first, last) = >>=-eq-ok (check_milestones host ids ms) (ordered host) h in
      let c = check_milestones-Checked ids ms out es first in
      let distinct = has_duplicates-IsDistinct ids once in
      elim (Bool-cases (visits_all es)) [
        | inl done ↦
            let same : out ≡ ms' = ok-injective out ms' (rw done at last) in
            let ranked =
              visits_all-IsRanked es (subst IsDistinct (sym c.entry_ids) distinct) done in
            subst
              (λ (l : List Fields).
                IsDistinct (map (id_of host) l)
                × All (IsKnown (map (id_of host) l)) l
                × ((rank : String → ℕ) × All (IsBelow rank) l))
              same
              (
                subst IsDistinct (sym c.same_ids) distinct,
                subst (λ known. All (IsKnown known) out) (sym c.same_ids) c.known,
                (
                  (λ x. index x (visit_all es).visited),
                  c.below (λ x. index x (visit_all es).visited) ranked,
                ),
              )
        | inr stuck ↦ absurd (ground (arith, stuck, last))
      ]

  validate_milestones_sound :
      (ms ms' : List Fields)
      → validate_milestones host ms ≡ ok ms'
      → IsDistinct (map (id_of host) ms')
        × All (IsKnown (map (id_of host) ms')) ms'
        × ((rank : String → ℕ) × All (IsBelow rank) ms')
  validate_milestones_sound ms ms' h =
      let ids = map (id_of host) ms in
      elim (Bool-cases (is_nil ids || any (λ id. id == "") ids)) [
        | inl unstable ↦ absurd (ground (arith, unstable))
        | inr stable ↦ elim (Bool-cases (has_duplicates ids)) [
          | inl twice ↦ absurd (ground (arith, stable, twice))
          | inr once ↦ validated ms ms' once (rw once at (rw stable at h))
        ]
      ]

-- Where `_validate_plan` returns, the identifiers of the milestones are distinct, every dependency
-- of a stored milestone is the identifier of one, and there is a rank in which each milestone stands
-- above what it depends on: the dependencies have no cycle.
pub validate_plan-acyclic :
    (host : Host) (plan : Fields) (ms : List Fields)
    → validate_plan host plan ≡ ok ms
    → IsDistinct (map (id_of host) ms)
      × All (IsKnown host (map (id_of host) ms)) ms
      × ((rank : String → ℕ) × All (IsBelow host rank) ms)
unfolding validate_plan
validate_plan-acyclic host plan ms h =
    let (raw, _, rest) =
      >>=-eq-ok (raw_milestones (get "milestones" plan) >>= dicts_of host)
        (validate_milestones host) h in
    validate_milestones_sound host raw ms rest
