-- ===== src/Drafts/Turns.antt =====
-- The loop `while ready` of `_validate_plan` of backend/app/v1/storage.py ends.
use Prim.Native.String.{compare}
use text.Mathlib.Text.{is_le}
use project_town.Base.{
  ℕ, zero, suc, ◌+◌, ◌≤◌, String, ◌≡◌, refl, inl, inr, true, false, List, [], ◌∷◌, ◌++◌, length,
  length-append, arith, Bool-cases, if◌then◌else◌,
}
use project_town.Drafts.Plans.{
  Entry, insert_sorted, sorted, is_nil, member, without, removed, wakes, ready_after, visit,
  first_ready, visit_all,
}

length-insert_sorted :
    (x : String) (xs : List String) → length (insert_sorted x xs) ≡ suc (length xs)
unfolding insert_sorted
length-insert_sorted x [] = refl
length-insert_sorted x (y ∷ ys) = elim (Bool-cases (is_le (compare x y))) [
  | inl first ↦ rw first refl
  | inr later ↦ rw later (omega (arith, length-insert_sorted x ys))
]

pub length-sorted : (xs : List String) → length (sorted xs) ≡ length xs
unfolding sorted
length-sorted [] = refl
length-sorted (x ∷ xs) = omega (arith, length-insert_sorted x (sorted xs), length-sorted xs)

-- How many entries still wait for something.
unfoldable pub waiting : List Entry → ℕ
waiting [] = 0
waiting (e ∷ es) = (if is_nil e.items then 0 else 1) + waiting es

pub length-first_ready : (es : List Entry) → length (first_ready es) + waiting es ≡ length es
unfolding first_ready waiting
length-first_ready [] = refl
length-first_ready (e ∷ es) = ground (arith, length-first_ready es)

pub member-is_nil : (x : String) (xs : List String) → member x xs ≡ true → is_nil xs ≡ false
member-is_nil x [] h = cc
member-is_nil x (y ∷ ys) h = refl

pub is_nil-without :
    (x : String) (xs : List String) → is_nil xs ≡ true → is_nil (without x xs) ≡ true
is_nil-without x [] h = refl
is_nil-without x (y ∷ ys) h = cc

pub wakes_inv :
    (current : String) (visited : List String) (e : Entry) (ready : List String)
    → wakes current visited e ready ≡ true
    → (member current e.items ≡ true)
      × (is_nil (without current e.items) ≡ true)
      × (member e.identifier visited ≡ false)
      × (member e.identifier ready ≡ false)
wakes_inv current visited e ready h = ground arith

-- A woken entry waited before, and does not any more.
ready_after-waiting :
    (current : String) (visited : List String) (es : List Entry) (ready : List String)
    → length (ready_after current visited es ready) + waiting (removed current es)
      ≤ length ready + waiting es
unfolding ready_after removed waiting
ready_after-waiting current visited [] ready = omega arith
ready_after-waiting current visited (e ∷ es) ready =
    let rest = ready_after-waiting current visited es in
    elim (Bool-cases (wakes current visited e ready)) [
      | inl woken ↦
          let (inside, done, _, _) = wakes_inv current visited e ready woken in
          rw woken (
            rw done (
              rw (member-is_nil current e.items inside) (
                omega (
                  arith,
                  rest (sorted (ready ++ e.identifier ∷ [])),
                  length-sorted (ready ++ e.identifier ∷ []),
                  length-append ready (e.identifier ∷ []),
                ))))
      | inr asleep ↦ rw asleep (elim (Bool-cases (is_nil e.items)) [
        | inl free ↦ rw free (rw (is_nil-without current e.items free) (omega (arith, rest ready)))
        | inr bound ↦ rw bound (ground (arith, rest ready))
      ])
    ]

visit-ready :
    (turns : ℕ) (ready visited : List String) (es : List Entry)
    → length ready + waiting es ≤ turns
    → (visit turns ready visited es).ready ≡ []
unfolding visit
visit-ready zero [] visited es h = refl
visit-ready zero (x ∷ ready) visited es h = absurd (omega arith)
visit-ready (suc turns) [] visited es h = refl
visit-ready (suc turns) (current ∷ ready) visited es h =
    visit-ready turns (ready_after current (visited ++ current ∷ []) es ready)
      (visited ++ current ∷ []) (removed current es)
      (omega (arith, ready_after-waiting current (visited ++ current ∷ []) es ready))

-- As many turns as there are entries leave nothing ready.
pub visit_all-ready : (es : List Entry) → (visit_all es).ready ≡ []
unfolding visit_all
visit_all-ready es =
    visit-ready (length es) (sorted (first_ready es)) [] es
      (omega (arith, length-sorted (first_ready es), length-first_ready es))
