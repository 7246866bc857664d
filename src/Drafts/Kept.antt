-- ===== src/Drafts/Kept.antt =====
-- The invariant of the loop `while ready` of `_validate_plan` of backend/app/v1/storage.py, over the
-- entries that it starts with.
use mathlib.Core.Path.{subst}
use project_town.Base.{
  ℕ, zero, suc, ◌+◌, ◌<◌, String, ◌≡◌, refl, sym, ap, ◌∙◌, inl, inr, true, false, not, List, [],
  ◌∷◌, ◌++◌, All, All-map, map, filter, length, length-append, arith, ◌==◌, eq_iff, eq_refl,
  Bool-cases, if◌then◌else◌,
}
use project_town.Drafts.Plans.{
  member, Entry, sorted, is_nil, without, removed, ready_after, visit, first_ready, visit_all,
}
use project_town.Drafts.Turns.{waiting, length-sorted, length-first_ready, visit_all-ready}
use project_town.Drafts.Visits.{
  eq_comm, member-append, member-sorted, identifiers, IsDistinct, IsMarked, ready_after-IsMarked,
}

-- What an entry still waits for after some visits.
abbrev pub outstanding : List String → List String → List String
outstanding visited items = filter (λ d. not (member d visited)) items

abbrev pub left_in : List String → Entry → Entry
left_in visited e = record e { items = outstanding visited e.items }

abbrev pub lefts : List String → List Entry → List Entry
lefts visited es = map (left_in visited) es

without-outstanding :
    (current : String) (visited items : List String)
    → without current (outstanding visited items) ≡ outstanding (visited ++ current ∷ []) items
without-outstanding current visited [] = refl
without-outstanding current visited (d ∷ items) = ground (
  arith,
  without-outstanding current visited items,
  member-append d visited (current ∷ []),
  eq_comm d current,
)

removed-lefts :
    (current : String) (visited : List String) (es : List Entry)
    → removed current (lefts visited es) ≡ lefts (visited ++ current ∷ []) es
unfolding removed
removed-lefts current visited [] = refl
removed-lefts current visited (e ∷ es) =
    ap (λ (kept : List String). record e { items = kept } ∷ removed current (lefts visited es))
      (without-outstanding current visited e.items)
    ∙ ap (λ rest. left_in (visited ++ current ∷ []) e ∷ rest) (removed-lefts current visited es)

identifiers-lefts :
    (visited : List String) (es : List Entry) → identifiers (lefts visited es) ≡ identifiers es
identifiers-lefts visited [] = refl
identifiers-lefts visited (e ∷ es) = ap (λ rest. e.identifier ∷ rest) (identifiers-lefts visited es)

outstanding-none : (items : List String) → outstanding [] items ≡ items
outstanding-none [] = refl
outstanding-none (d ∷ items) = ap (λ rest. d ∷ rest) (outstanding-none items)

lefts-none : (es : List Entry) → lefts [] es ≡ es
lefts-none [] = refl
lefts-none (e ∷ es) =
    ap (λ (kept : List String). record e { items = kept } ∷ lefts [] es) (outstanding-none e.items)
    ∙ ap (λ rest. e ∷ rest) (lefts-none es)

-- Where an identifier stands in the list of visits.
unfoldable pub index : String → List String → ℕ
index x [] = 0
index x (y ∷ ys) = if y == x then 0 else suc (index x ys)

index_lt : (x : String) (xs : List String) → member x xs ≡ true → index x xs < length xs
unfolding index
index_lt x [] h = cc
index_lt x (y ∷ xs) h = ground (arith, index_lt x xs)

index-append :
    (x : String) (xs ys : List String) → member x xs ≡ true → index x (xs ++ ys) ≡ index x xs
unfolding index
index-append x [] ys h = cc
index-append x (y ∷ xs) ys h = ground (arith, index-append x xs ys)

index-append_ne :
    (x : String) (xs : List String) → member x xs ≡ false → index x (xs ++ x ∷ []) ≡ length xs
unfolding index
index-append_ne x [] h = ground (arith, eq_refl x)
index-append_ne x (y ∷ xs) h = ground (arith, index-append_ne x xs)

-- What a visited entry waited for was visited before it.
abbrev pub IsPlaced : List String → Entry → Type 0
IsPlaced visited e =
    member e.identifier visited ≡ true
    → All (λ d. (member d visited ≡ true) × (index d visited < index e.identifier visited)) e.items

-- What the loop keeps.
pub record Kept (es : List Entry) (ready visited : List String) : Type 0 where
  pub distinct : IsDistinct (identifiers es)
  pub marked : All (IsMarked visited ready) (lefts visited es)
  pub count : length visited + length ready + waiting (lefts visited es) ≡ length es
  pub placed : All (IsPlaced visited) es

IsMarked-append :
    (current : String) (visited ready : List String) (e : Entry)
    → IsMarked visited (current ∷ ready) e
    → IsMarked (visited ++ current ∷ []) ready e
IsMarked-append current visited ready e marked =
    ground (arith, marked, member-append e.identifier visited (current ∷ []))

earlier :
    (visited items : List String)
    → is_nil (outstanding visited items) ≡ true
    → All (λ d. (member d visited ≡ true) × (index d visited < length visited)) items
earlier visited [] h = tt
earlier visited (d ∷ items) h = elim (Bool-cases (member d visited)) [
  | inl seen ↦ ((seen, index_lt d visited seen), earlier visited items (rw seen at h))
  | inr new ↦ absurd (ground (arith, new))
]

later :
    (current : String) (visited : List String) (bound bound' : ℕ) (items : List String)
    → bound ≡ bound'
    → All (λ d. (member d visited ≡ true) × (index d visited < bound)) items
    → All
        (λ d.
          (member d (visited ++ current ∷ []) ≡ true)
          × (index d (visited ++ current ∷ []) < bound'))
        items
later current visited bound bound' items e =
    All-map (λ d. (member d visited ≡ true) × (index d visited < bound))
      (λ d.
        (member d (visited ++ current ∷ []) ≡ true) × (index d (visited ++ current ∷ []) < bound'))
      items
      (λ d h. (
        ground (arith, h.0, member-append d visited (current ∷ [])),
        rw (index-append d visited (current ∷ []) h.0) (rw (← e) h.1),
      ))

IsPlaced-append :
    (current : String) (visited ready : List String) (e : Entry)
    → IsMarked visited (current ∷ ready) (left_in visited e)
    → IsPlaced visited e
    → IsPlaced (visited ++ current ∷ []) e
IsPlaced-append current visited ready e marked placed seen =
    elim (Bool-cases (member e.identifier visited)) [
      | inl before ↦
          later current visited (index e.identifier visited)
            (index e.identifier (visited ++ current ∷ [])) e.items
            (sym (index-append e.identifier visited (current ∷ []) before)) (placed before)
      | inr now ↦
          let same : current ≡ e.identifier =
            (eq_iff current e.identifier).0
              (ground (arith, now, member-append e.identifier visited (current ∷ []))) in
          let free : is_nil (outstanding visited e.items) ≡ true =
            ground (arith, marked, now, member-append e.identifier visited (current ∷ [])) in
          later current visited (length visited) (index e.identifier (visited ++ current ∷ []))
            e.items
            (sym (
              subst (λ x. index e.identifier (visited ++ x ∷ []) ≡ length visited) (sym same)
                (index-append_ne e.identifier visited now)))
            (earlier visited e.items free)
    ]

All-IsPlaced :
    (current : String) (visited ready : List String) (es : List Entry)
    → All (IsMarked visited (current ∷ ready)) (lefts visited es)
    → All (IsPlaced visited) es
    → All (IsPlaced (visited ++ current ∷ [])) es
All-IsPlaced current visited ready [] marked placed = tt
All-IsPlaced current visited ready (e ∷ es) marked placed = (
  IsPlaced-append current visited ready e marked.0 placed.0,
  All-IsPlaced current visited ready es marked.1 placed.1,
)

turn-Kept :
    (current : String) (ready visited : List String) (es : List Entry)
    → Kept es (current ∷ ready) visited
    → Kept es
        (ready_after current (visited ++ current ∷ []) (lefts visited es) ready)
        (visited ++ current ∷ [])
turn-Kept current ready visited es k =
    let visited' = visited ++ current ∷ [] in
    let (marked, count) =
      ready_after-IsMarked current visited' (lefts visited es) ready
        (subst IsDistinct (sym (identifiers-lefts visited es)) k.distinct)
        (All-map (IsMarked visited (current ∷ ready)) (IsMarked visited' ready) (lefts visited es)
          (IsMarked-append current visited ready) k.marked) in
    let same = removed-lefts current visited es in
    record {
      distinct = k.distinct;
      marked =
          subst (All (IsMarked visited' (ready_after current visited' (lefts visited es) ready)))
            same marked;
      count = omega (arith, count, k.count, ap waiting same, length-append visited (current ∷ []));
      placed = All-IsPlaced current visited ready es k.marked k.placed;
    }

visit-Kept :
    (turns : ℕ) (ready visited : List String) (es : List Entry)
    → Kept es ready visited
    → Kept es
        (visit turns ready visited (lefts visited es)).ready
        (visit turns ready visited (lefts visited es)).visited
unfolding visit
visit-Kept zero ready visited es k = k
visit-Kept (suc turns) [] visited es k = k
visit-Kept (suc turns) (current ∷ ready) visited es k =
    let visited' = visited ++ current ∷ [] in
    let ready' = ready_after current visited' (lefts visited es) ready in
    subst
      (λ left.
        Kept es (visit turns ready' visited' left).ready (visit turns ready' visited' left).visited)
      (sym (removed-lefts current visited es))
      (visit-Kept turns ready' visited' es (turn-Kept current ready visited es k))

member-first_ready :
    (x : String) (es : List Entry)
    → member x (identifiers es) ≡ false
    → member x (first_ready es) ≡ false
unfolding first_ready
member-first_ready x [] h = refl
member-first_ready x (e ∷ es) h = ground (arith, member-first_ready x es)

IsMarked-cons :
    (x : String) (ready : List String) (es : List Entry)
    → member x (identifiers es) ≡ false
    → All (IsMarked [] ready) es
    → All (IsMarked [] (x ∷ ready)) es
IsMarked-cons x ready [] apart all = tt
IsMarked-cons x ready (e ∷ es) apart all =
    (ground (arith, all.0, eq_comm x e.identifier), IsMarked-cons x ready es (ground arith) all.1)

first_ready-IsMarked :
    (es : List Entry) → IsDistinct (identifiers es) → All (IsMarked [] (first_ready es)) es
unfolding first_ready
first_ready-IsMarked [] distinct = tt
first_ready-IsMarked (e ∷ es) distinct =
    let rest = first_ready-IsMarked es distinct.1 in
    let goal : List String → Type 0 = λ ready. All (IsMarked [] ready) (e ∷ es) in
    elim (Bool-cases (is_nil e.items)) [
      | inl free ↦
          let same : (e.identifier ∷ first_ready es) ≡ first_ready (e ∷ es) = rw free refl in
          subst goal same (
            ground (arith, eq_refl e.identifier, free),
            IsMarked-cons e.identifier (first_ready es) es distinct.0 rest,
          )
      | inr bound ↦
          let same : first_ready es ≡ first_ready (e ∷ es) = rw bound refl in
          subst goal same
            (ground (arith, member-first_ready e.identifier es distinct.0, bound), rest)
    ]

IsPlaced-none : (es : List Entry) → All (IsPlaced []) es
IsPlaced-none [] = tt
IsPlaced-none (e ∷ es) = (λ h. cc, IsPlaced-none es)

first_ready-Kept :
    (es : List Entry) → IsDistinct (identifiers es) → Kept es (sorted (first_ready es)) []
first_ready-Kept es distinct = record {
  distinct = distinct;
  marked = subst (All (IsMarked [] (sorted (first_ready es)))) (sym (lefts-none es)) (
      All-map (IsMarked [] (first_ready es)) (IsMarked [] (sorted (first_ready es))) es
        (λ e h. h ∙ sym (member-sorted e.identifier (first_ready es)))
        (first_ready-IsMarked es distinct));
  count =
      omega
        (arith, ap waiting (lefts-none es), length-sorted (first_ready es), length-first_ready es);
  placed = IsPlaced-none es;
}

-- The invariant at the end of the loop, where nothing is ready.
pub visit_all-Kept :
    (es : List Entry) → IsDistinct (identifiers es) → Kept es [] (visit_all es).visited
unfolding visit_all
visit_all-Kept es distinct =
    let ready = sorted (first_ready es) in
    let kept = visit-Kept (length es) ready [] es (first_ready-Kept es distinct) in
    let left = λ (fs : List Entry).
      Kept es (visit (length es) ready [] fs).ready (visit (length es) ready [] fs).visited in
    subst (λ r. Kept es r (visit (length es) ready [] es).visited) (visit_all-ready es)
      (subst left (lefts-none es) kept)
