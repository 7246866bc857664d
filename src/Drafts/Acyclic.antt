-- ===== src/Drafts/Acyclic.antt =====
-- What the loop of `_validate_plan` of backend/app/v1/storage.py decides.
use mathlib.Core.Path.{subst}
use project_town.Base.{
  ℕ, zero, suc, ◌+◌, ◌≤◌, ◌<◌, String, ◌≡◌, refl, sym, inl, inr, true, List, [], ◌∷◌, All, All-map,
  All-both, arith, ◌==◌, eq_iff, Bool-cases,
}
use project_town.Drafts.Plans.{member, Entry, is_nil, visit_all, visits_all}
use project_town.Drafts.Turns.{waiting}
use project_town.Drafts.Visits.{identifiers, IsDistinct, IsMarked}
use project_town.Drafts.Kept.{outstanding, lefts, IsPlaced, index, visit_all-Kept}

-- Every identifier that an entry waits for has a lower rank.
abbrev pub IsRanked : (String → ℕ) → List Entry → Type 0
IsRanked rank es = All (λ e. All (λ d. rank d < rank e.identifier) e.items) es

-- The entries wait for identifiers of entries only.
abbrev pub IsClosed : List String → List Entry → Type 0
IsClosed known es = All (λ e. All (λ d. member d known ≡ true) e.items) es

placed-IsRanked :
    (visited : List String) (es : List Entry)
    → All (IsMarked visited []) (lefts visited es)
    → All (IsPlaced visited) es
    → waiting (lefts visited es) ≡ 0
    → IsRanked (λ x. index x visited) es
unfolding waiting
placed-IsRanked visited [] marked placed none = tt
placed-IsRanked visited (e ∷ es) marked placed none =
    elim (Bool-cases (is_nil (outstanding visited e.items))) [
      | inl free ↦ (
        All-map (λ d. (member d visited ≡ true) × (index d visited < index e.identifier visited))
            (λ d. index d visited < index e.identifier visited) e.items (λ d h. h.1)
            (placed.0 (ground (arith, marked.0, free))),
        placed-IsRanked visited es marked.1 placed.1 (omega (arith, rw free at none)),
      )
      | inr bound ↦ absurd (ground (arith, bound))
    ]

-- An identifier of an entry that waits for nothing was visited.
free-visited :
    (visited : List String) (P : String → Type 0) (d : String) (es : List Entry)
    → P d
    → All (λ e. P e.identifier → is_nil (outstanding visited e.items) ≡ true) es
    → All (IsMarked visited []) (lefts visited es)
    → member d (identifiers es) ≡ true
    → member d visited ≡ true
free-visited visited P d [] p free marked inside = cc
free-visited visited P d (e ∷ es) p free marked inside = elim (Bool-cases (e.identifier == d)) [
  | inl here ↦
      let same : e.identifier ≡ d = (eq_iff e.identifier d).0 here in
      subst (λ x. member x visited ≡ true) same
        (ground (arith, marked.0, free.0 (subst P (sym same) p)))
  | inr on ↦ free-visited visited P d es p free.1 marked.1 (rw on at inside)
]

all-outstanding :
    (visited items : List String)
    → All (λ d. member d visited ≡ true) items
    → is_nil (outstanding visited items) ≡ true
all-outstanding visited [] h = refl
all-outstanding visited (d ∷ items) h = ground (arith, h.0, all-outstanding visited items h.1)

module _ (visited : List String) (es : List Entry) (rank : String → ℕ)
    (marked : All (IsMarked visited []) (lefts visited es)) where
  free_below :
      (n : ℕ) (fs : List Entry)
      → IsRanked rank fs
      → IsClosed (identifiers es) fs
      → All (λ e. rank e.identifier < n → is_nil (outstanding visited e.items) ≡ true) es
      → All (λ e. rank e.identifier < suc n → is_nil (outstanding visited e.items) ≡ true) fs
  free_below n [] ranked closed ih = tt
  free_below n (e ∷ fs) ranked closed ih = (
    λ low. all-outstanding visited e.items (
        All-map (λ d. (rank d < rank e.identifier) × (member d (identifiers es) ≡ true))
          (λ d. member d visited ≡ true) e.items
          (λ d h.
            free-visited visited (λ x. rank x < n) d es (omega (arith, h.0, low)) ih marked h.1)
          (All-both (λ d. rank d < rank e.identifier) (λ d. member d (identifiers es) ≡ true)
            e.items ranked.0 closed.0)),
    free_below n fs ranked.1 closed.1 ih,
  )

  none_below :
      (fs : List Entry)
      → All (λ e. rank e.identifier < 0 → is_nil (outstanding visited e.items) ≡ true) fs
  none_below [] = tt
  none_below (e ∷ fs) = (λ h. absurd (omega arith), none_below fs)

  all_below :
      (n : ℕ)
      → IsRanked rank es
      → IsClosed (identifiers es) es
      → All (λ e. rank e.identifier < n → is_nil (outstanding visited e.items) ≡ true) es
  all_below zero ranked closed = none_below es
  all_below (suc n) ranked closed = free_below n es ranked closed (all_below n ranked closed)

none_waiting :
    (visited : List String) (es : List Entry)
    → All (λ e. is_nil (outstanding visited e.items) ≡ true) es
    → waiting (lefts visited es) ≡ 0
unfolding waiting
none_waiting visited [] h = refl
none_waiting visited (e ∷ es) h = rw h.0 (omega (arith, none_waiting visited es h.1))

-- A number above every rank of the list.
top : (String → ℕ) → List Entry → ℕ
top rank [] = 0
top rank (e ∷ es) = suc (rank e.identifier) + top rank es

raise :
    (visited : List String) (rank : String → ℕ) (n : ℕ) (es : List Entry)
    → top rank es ≤ n
    → All (λ e. rank e.identifier < n → is_nil (outstanding visited e.items) ≡ true) es
    → All (λ e. is_nil (outstanding visited e.items) ≡ true) es
unfolding top
raise visited rank n [] h all = tt
raise visited rank n (e ∷ es) h all =
    (all.0 (omega (arith, h)), raise visited rank n es (omega (arith, h)) all.1)

pub visits_all-IsRanked :
    (es : List Entry)
    → IsDistinct (identifiers es)
    → visits_all es ≡ true
    → IsRanked (λ x. index x (visit_all es).visited) es
unfolding visits_all
visits_all-IsRanked es distinct all =
    let k = visit_all-Kept es distinct in
    placed-IsRanked (visit_all es).visited es k.marked k.placed (ground (arith, k.count))

pub IsRanked-visits_all :
    (rank : String → ℕ) (es : List Entry)
    → IsDistinct (identifiers es)
    → IsClosed (identifiers es) es
    → IsRanked rank es
    → visits_all es ≡ true
unfolding visits_all
IsRanked-visits_all rank es distinct closed ranked =
    let k = visit_all-Kept es distinct in
    let visited = (visit_all es).visited in
    let free =
      raise visited rank (top rank es) es (omega arith)
        (all_below visited es rank k.marked (top rank es) ranked closed) in
    ground (arith, k.count, none_waiting visited es free)
