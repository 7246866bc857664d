-- ===== src/Drafts/Accepts.antt =====
-- The plans that `_validate_plan` of backend/app/v1/storage.py does not refuse.
use mathlib.Core.Path.{subst}
use project_town.Base.{
  ℕ, ◌<◌, String, ◌≡◌, refl, sym, ap, inl, inr, true, false, not, ◌||◌, List, [], ◌∷◌, All, map,
  any, length, arith, ◌==◌, eq_iff, Bool-cases,
}
use project_town.Base.Result.{ok, ◌>>=◌}
use project_town.Runtime.Json.{Json, Fields, get}
use project_town.Storage.Db.{Host}
use project_town.Drafts.Plans.{
  member, Entry, is_nil, set_of, has_duplicates, iterate, raw_milestones, raw_dependencies,
  normalised, dicts_of, id_of, check_milestone, check_milestones, validate_plan,
}
use project_town.Drafts.Visits.{identifiers, IsDistinct}
use project_town.Drafts.Acyclic.{IsRanked, IsClosed, IsRanked-visits_all}
use project_town.Drafts.Accepted.{member-set_of}

All-set_of : (P : String → Type 0) (xs : List String) → All P xs → All P (set_of xs)
unfolding set_of
All-set_of P [] all = tt
All-set_of P (x ∷ xs) all = elim (Bool-cases (member x (set_of xs))) [
  | inl twice ↦ rw twice (All-set_of P xs all.1)
  | inr once ↦ rw once (all.0, All-set_of P xs all.1)
]

set_of-length : (xs : List String) → IsDistinct xs → length (set_of xs) ≡ length xs
unfolding set_of
set_of-length [] distinct = refl
set_of-length (x ∷ xs) distinct =
    ground (arith, member-set_of x xs, distinct.0, set_of-length xs distinct.1)

has_duplicates-distinct : (xs : List String) → IsDistinct xs → has_duplicates xs ≡ false
unfolding has_duplicates
has_duplicates-distinct xs distinct = ground (arith, set_of-length xs distinct)

any-not :
    (known deps : List String)
    → All (λ d. member d known ≡ true) deps
    → any (λ d. not (member d known)) deps ≡ false
any-not known [] h = refl
any-not known (d ∷ deps) h = ground (arith, h.0, any-not known deps h.1)

member-below :
    (rank : String → ℕ) (x : String) (deps : List String)
    → All (λ d. rank d < rank x) deps
    → member x deps ≡ false
member-below rank x [] h = refl
member-below rank x (d ∷ deps) h = elim (Bool-cases (d == x)) [
  | inl same ↦ absurd (omega (arith, h.0, ap rank ((eq_iff d x).0 same)))
  | inr apart ↦ rw apart (member-below rank x deps h.1)
]

module _ (host : Host) (rank : String → ℕ) (ids : List String) where
  -- The dependencies of a milestone are identifiers of the plan, of lower rank.
  abbrev pub IsAcceptable : Fields → Type 0
  IsAcceptable m =
      (raw : List Json) × (iterate (raw_dependencies m) ≡ ok raw)
      × All (λ d. member d ids ≡ true) (map host.to_str raw)
      × All (λ d. rank d < rank (id_of host m)) (map host.to_str raw)

  entry_of : (m : Fields) → List String → Entry
  entry_of m deps = record { identifier = id_of host m; items = deps }

  check_milestone-accepts :
      (m : Fields)
      → IsAcceptable m
      → (deps : List String) × (check_milestone host ids m
          ≡ ok (normalised deps m, entry_of m deps))
        × All (λ d. member d ids ≡ true) deps
        × All (λ d. rank d < rank (id_of host m)) deps
  unfolding check_milestone entry_of
  check_milestone-accepts m (raw, decoded, inside, below) =
      let deps = set_of (map host.to_str raw) in
      let known = All-set_of (λ d. member d ids ≡ true) (map host.to_str raw) inside in
      let lower = All-set_of (λ d. rank d < rank (id_of host m)) (map host.to_str raw) below in
      (
        deps,
        rw decoded
            (rw (any-not ids deps known) (rw (member-below rank (id_of host m) deps lower) refl)),
        known,
        lower,
      )

  check_milestones-accepts :
      (ms : List Fields)
      → All IsAcceptable ms
      → (out : List Fields) × ((es : List Entry) × (check_milestones host ids ms ≡ ok (out, es))
          × (identifiers es ≡ map (id_of host) ms)
          × IsClosed ids es
          × IsRanked rank es)
  unfolding check_milestones entry_of
  check_milestones-accepts [] all = ([], ([], refl, refl, tt, tt))
  check_milestones-accepts (m ∷ ms) all =
      let (deps, checked, known, lower) = check_milestone-accepts m all.0 in
      let (out, (es, rest, same, closed, ranked)) = check_milestones-accepts ms all.1 in
      (
        normalised deps m ∷ out,
        (
          entry_of m deps ∷ es,
          rw checked (rw rest refl),
          ap (λ l. id_of host m ∷ l) same,
          (known, closed),
          (lower, ranked),
        ),
      )

-- A plan is accepted where its milestones are objects and there is one at least, their identifiers
-- are distinct and not empty, the dependencies of each are a list that can be read, and every
-- dependency is an identifier of the plan that some rank puts below the milestone's own.
pub validate_plan-accepts :
    (host : Host) (rank : String → ℕ) (plan : Fields) (ms : List Fields)
    → (raw_milestones (get "milestones" plan) >>= dicts_of host) ≡ ok ms
    → (is_nil (map (id_of host) ms) || any (λ id. id == "") (map (id_of host) ms)) ≡ false
    → IsDistinct (map (id_of host) ms)
    → All (IsAcceptable host rank (map (id_of host) ms)) ms
    → (out : List Fields) × (validate_plan host plan ≡ ok out)
unfolding validate_plan
validate_plan-accepts host rank plan ms decoded stable distinct all =
    let ids = map (id_of host) ms in
    let (out, (es, checked, same, closed, ranked)) =
      check_milestones-accepts host rank ids ms all in
    let done =
      IsRanked-visits_all rank es (subst IsDistinct (sym same) distinct)
        (subst (λ l. IsClosed l es) (sym same) closed) ranked in
    (
      out,
      rw decoded
          (rw stable (rw (has_duplicates-distinct ids distinct) (rw checked (rw done refl)))),
    )
