-- ===== src/Drafts/Visits.antt =====
-- What the loop of `_validate_plan` of backend/app/v1/storage.py keeps: the entries without items
-- are those whose identifiers were visited or are ready, and the rest still waits.
use Prim.Native.String.{compare}
use text.Mathlib.Text.{is_le}
use mathlib.Core.Path.{subst}
use project_town.Base.{
  ◌+◌, String, ◌≡◌, refl, inl, inr, true, false, ◌||◌, List, [], ◌∷◌, ◌++◌, All, map, length,
  length-append, arith, ◌==◌, eq_iff, eq_refl, Bool-cases,
}
use project_town.Drafts.Plans.{
  member, Entry, insert_sorted, sorted, is_nil, without, removed, wakes, ready_after,
}
use project_town.Drafts.Turns.{member-is_nil, is_nil-without, wakes_inv, waiting, length-sorted}

pub eq_comm : (s t : String) → (s == t) ≡ (t == s)
eq_comm s t = ground (arith, eq_iff s t, eq_iff t s)

pub member-append :
    (x : String) (xs ys : List String) → member x (xs ++ ys) ≡ (member x xs || member x ys)
member-append x [] ys = refl
member-append x (y ∷ xs) ys = ground (arith, member-append x xs ys)

member-insert_sorted :
    (x y : String) (ys : List String) → member x (insert_sorted y ys) ≡ ((y == x) || member x ys)
unfolding insert_sorted
member-insert_sorted x y [] = refl
member-insert_sorted x y (z ∷ ys) = elim (Bool-cases (is_le (compare y z))) [
  | inl first ↦ rw first refl
  | inr later ↦ rw later (ground (arith, member-insert_sorted x y ys))
]

pub member-sorted : (x : String) (xs : List String) → member x (sorted xs) ≡ member x xs
unfolding sorted
member-sorted x [] = refl
member-sorted x (y ∷ xs) = ground (arith, member-insert_sorted x y (sorted xs), member-sorted x xs)

abbrev pub identifiers : List Entry → List String
identifiers es = map (λ e. e.identifier) es

abbrev pub IsDistinct : List String → Type 0
IsDistinct [] = Unit
IsDistinct (x ∷ xs) = (member x xs ≡ false) × IsDistinct xs

-- An entry has no items just when its identifier was visited or is ready.
abbrev pub IsMarked : List String → List String → Entry → Type 0
IsMarked visited ready e =
    is_nil e.items ≡ (member e.identifier visited || member e.identifier ready)

abbrev woken : List String → Entry → List String
woken ready e = sorted (ready ++ e.identifier ∷ [])

member-woken :
    (x : String) (e : Entry) (ready : List String)
    → member x (woken ready e) ≡ (member x ready || (e.identifier == x))
member-woken x e ready =
    ground (
      arith,
      member-sorted x (ready ++ e.identifier ∷ []),
      member-append x ready (e.identifier ∷ []),
    )

ready_after-keeps :
    (x current : String) (visited : List String) (es : List Entry) (ready : List String)
    → member x ready ≡ true
    → member x (ready_after current visited es ready) ≡ true
unfolding ready_after
ready_after-keeps x current visited [] ready h = h
ready_after-keeps x current visited (e ∷ es) ready h =
    let rest = ready_after-keeps x current visited es in
    elim (Bool-cases (wakes current visited e ready)) [
      | inl up ↦ rw up (rest (woken ready e) (ground (arith, member-woken x e ready)))
      | inr asleep ↦ rw asleep (rest ready h)
    ]

ready_after-others :
    (x current : String) (visited : List String) (es : List Entry) (ready : List String)
    → member x (identifiers es) ≡ false
    → member x (ready_after current visited es ready) ≡ member x ready
unfolding ready_after
ready_after-others x current visited [] ready h = refl
ready_after-others x current visited (e ∷ es) ready h =
    let rest = ready_after-others x current visited es in
    elim (Bool-cases (wakes current visited e ready)) [
      | inl up ↦ rw up (ground (arith, rest (woken ready e), member-woken x e ready))
      | inr asleep ↦ rw asleep (ground (arith, rest ready))
    ]

IsMarked-woken :
    (visited ready : List String) (e : Entry) (es : List Entry)
    → member e.identifier (identifiers es) ≡ false
    → All (IsMarked visited ready) es
    → All (IsMarked visited (woken ready e)) es
IsMarked-woken visited ready e [] apart all = tt
IsMarked-woken visited ready e (f ∷ es) apart all = (
  ground (arith, all.0, member-woken f.identifier e ready, eq_comm e.identifier f.identifier),
  IsMarked-woken visited ready e es (ground arith) all.1,
)

is_nil-without_ne :
    (x : String) (xs : List String) → member x xs ≡ false → is_nil (without x xs) ≡ is_nil xs
is_nil-without_ne x [] h = refl
is_nil-without_ne x (y ∷ ys) h = ground arith

asleep-is_nil :
    (current : String) (visited : List String) (e : Entry) (ready : List String)
    → IsMarked visited ready e
    → wakes current visited e ready ≡ false
    → is_nil (without current e.items) ≡ is_nil e.items
asleep-is_nil current visited e ready marked asleep =
    ground (arith, is_nil-without current e.items, is_nil-without_ne current e.items)

-- After the inner loop the entries are marked again, and what it woke is what waits no more.
pub ready_after-IsMarked :
    (current : String) (visited : List String) (es : List Entry) (ready : List String)
    → IsDistinct (identifiers es)
    → All (IsMarked visited ready) es
    → All (IsMarked visited (ready_after current visited es ready)) (removed current es)
      × (length (ready_after current visited es ready) + waiting (removed current es)
          ≡ length ready + waiting es)
unfolding ready_after removed waiting
ready_after-IsMarked current visited [] ready distinct all = (tt, refl)
ready_after-IsMarked current visited (e ∷ es) ready distinct all =
    let rest = ready_after-IsMarked current visited es in
    let goal : List String → Type 0 = λ out.
      All (IsMarked visited out) (removed current (e ∷ es))
      × (length out + waiting (removed current (e ∷ es)) ≡ length ready + waiting (e ∷ es)) in
    elim (Bool-cases (wakes current visited e ready)) [
      | inl up ↦
          let (inside, done, _, _) = wakes_inv current visited e ready up in
          let (marked, count) =
            rest (woken ready e) distinct.1 (IsMarked-woken visited ready e es distinct.0 all.1) in
          let same : ready_after current visited es (woken ready e)
              ≡ ready_after current visited (e ∷ es) ready =
            rw up refl in
          let here : member e.identifier (woken ready e) ≡ true =
            ground (arith, member-woken e.identifier e ready, eq_refl e.identifier) in
          subst goal same (
            (
              ground (
                arith,
                done,
                ready_after-keeps e.identifier current visited es (woken ready e) here,
              ),
              marked,
            ),
            rw done (
                rw (member-is_nil current e.items inside) (
                  omega (
                    arith,
                    count,
                    length-sorted (ready ++ e.identifier ∷ []),
                    length-append ready (e.identifier ∷ []),
                  ))),
          )
      | inr asleep ↦
          let (marked, count) = rest ready distinct.1 all.1 in
          let same : ready_after current visited es ready
              ≡ ready_after current visited (e ∷ es) ready =
            rw asleep refl in
          let free = asleep-is_nil current visited e ready all.0 asleep in
          let others = ready_after-others e.identifier current visited es ready distinct.0 in
          subst goal same
            ((ground (arith, free, others, all.0), marked), rw free (omega (arith, count)))
    ]
