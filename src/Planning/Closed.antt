-- ===== src/Planning/Closed.antt =====
-- What `replan_plan` of backend/app/v1/orchestration.py keeps.
use mathlib.Core.Path.{subst}
use project_town.Base.{
  ℕ, ◌+◌, ◌≡◌, refl, sym, ap, ◌∙◌, inl, inr, String, true, false, List, [], ◌∷◌, map, filter, All,
  All-map, arith, ◌==◌, eq_refl, eq_iff, Bool-cases, if◌then◌else◌,
}
use project_town.Base.Result.{ok}
use project_town.Runtime.Json.{Json}
use project_town.Planning.Plan.{Milestone, member}
use project_town.Planning.Replan.{
  Plan, ReplanState, replanned, is_completed, ids, completed_ids, unfinished_ids, new_id, remapped,
  next_milestone, next_milestones, replan_plan, replan_plan-eq-replanned,
}

-- A completed milestone of a list is among its completed identifiers.
abbrev IsListed : List String → Milestone → Type 0
IsListed completed m = is_completed m ≡ true → member m.id completed ≡ true

completed_ids-All : (ms : List Milestone) → All (IsListed (completed_ids ms)) ms
unfolding completed_ids
completed_ids-All [] = tt
completed_ids-All (m ∷ ms) = elim (Bool-cases (is_completed m)) [
  | inl done ↦
      let e : m.id ∷ completed_ids ms ≡ completed_ids (m ∷ ms) = rw done refl in
      subst (λ c. All (IsListed c) (m ∷ ms)) e
        (
          (λ _. ground (arith, eq_refl m.id)),
          All-map (IsListed (completed_ids ms)) (IsListed (m.id ∷ completed_ids ms)) ms
              (λ x h c. ground (arith, h c)) (completed_ids-All ms),
        )
  | inr live ↦
      let e : completed_ids ms ≡ completed_ids (m ∷ ms) = rw live refl in
      subst (λ c. All (IsListed c) (m ∷ ms)) e
        ((λ c. absurd (ground (arith, c, live))), completed_ids-All ms)
]

module _ (milestone_id : Json → String) where
  next_milestone_kept :
      (completed unfinished : List String) (next : ℕ) (hypothesis : String) (m : Milestone)
      → member m.id completed ≡ true
      → next_milestone milestone_id completed unfinished next hypothesis m ≡ m
  unfolding next_milestone
  next_milestone_kept completed unfinished next hypothesis m kept = rw kept refl

  next_milestone_pending :
      (completed unfinished : List String) (next : ℕ) (hypothesis : String) (m : Milestone)
      → member m.id completed ≡ false
      → is_completed (next_milestone milestone_id completed unfinished next hypothesis m) ≡ false
  unfolding next_milestone
  next_milestone_pending completed unfinished next hypothesis m live = rw live refl

  filter-next_milestones :
      (completed unfinished : List String) (next : ℕ) (hypothesis : String) (ms : List Milestone)
      → All (IsListed completed) ms
      → filter is_completed (next_milestones milestone_id completed unfinished next hypothesis ms)
        ≡ filter is_completed ms
  unfolding next_milestones
  filter-next_milestones completed unfinished next hypothesis [] h = refl
  filter-next_milestones completed unfinished next hypothesis (m ∷ ms) h =
      let rest = filter-next_milestones completed unfinished next hypothesis ms h.1 in
      elim (Bool-cases (member m.id completed)) [
        | inl kept ↦
            rw (next_milestone_kept completed unfinished next hypothesis m kept)
              (ap (λ xs. if is_completed m then m ∷ xs else xs) rest)
        | inr live ↦
            let undone : is_completed m ≡ false = elim (Bool-cases (is_completed m)) [
              | inl done ↦ absurd (ground (arith, h.0 done, live))
              | inr undone ↦ undone
            ] in
            rw (next_milestone_pending completed unfinished next hypothesis m live) (rw undone rest)
      ]

  -- A replanning keeps the completed milestones as they are and in their order, and raises the
  -- version of the plan by one.
  pub replan_keeps_completed :
      (s : ReplanState) (failed_node hypothesis : String) (p : Plan)
      → replan_plan milestone_id s failed_node hypothesis ≡ ok (replanned p)
      → (filter is_completed p.milestones ≡ filter is_completed s.plan.milestones)
        × (p.version ≡ s.plan.version + 1)
  replan_keeps_completed s failed_node hypothesis p h =
      subst
        (λ (x : Plan).
          (filter is_completed x.milestones ≡ filter is_completed s.plan.milestones)
          × (x.version ≡ s.plan.version + 1))
        (replan_plan-eq-replanned milestone_id s failed_node hypothesis p h)
        (
          filter-next_milestones (completed_ids s.plan.milestones)
              (unfinished_ids (completed_ids s.plan.milestones) s.plan.milestones)
              (s.plan.version + 1) hypothesis s.plan.milestones
              (completed_ids-All s.plan.milestones),
          refl,
        )

  -- The identifier that a milestone has after a replanning.
  abbrev pub renamed : List String → ℕ → String → String → String
  renamed completed next hypothesis id =
      if member id completed then id else new_id milestone_id next hypothesis id

  id-next_milestone :
      (completed unfinished : List String) (next : ℕ) (hypothesis : String) (m : Milestone)
      → (next_milestone milestone_id completed unfinished next hypothesis m).id
        ≡ renamed completed next hypothesis m.id
  unfolding next_milestone
  id-next_milestone completed unfinished next hypothesis m = ground arith

  -- A renamed identifier is one of the next milestones.
  member-renamed :
      (completed unfinished : List String) (next : ℕ) (hypothesis id : String) (ms : List Milestone)
      → member id (ids ms) ≡ true
      → member
          (renamed completed next hypothesis id)
          (ids (next_milestones milestone_id completed unfinished next hypothesis ms))
        ≡ true
  unfolding next_milestones
  member-renamed completed unfinished next hypothesis id [] h = cc
  member-renamed completed unfinished next hypothesis id (m ∷ ms) h =
      elim (Bool-cases (m.id == id)) [
        | inl same ↦
            let e : (next_milestone milestone_id completed unfinished next hypothesis m).id
                ≡ renamed completed next hypothesis id =
              id-next_milestone completed unfinished next hypothesis m
              ∙ ap (renamed completed next hypothesis) ((eq_iff m.id id).0 same) in
            let t : ((next_milestone milestone_id completed unfinished next hypothesis m).id
                  == renamed completed next hypothesis id)
                ≡ true =
              subst
                (λ x.
                  ((next_milestone milestone_id completed unfinished next hypothesis m).id == x)
                  ≡ true)
                e
                (eq_refl (next_milestone milestone_id completed unfinished next hypothesis m).id) in
            rw t refl
        | inr apart ↦
            let rest = member-renamed completed unfinished next hypothesis id ms (rw apart at h) in
            ground (arith, rest)
      ]

  unfinished_ids_completed :
      (completed : List String) (id : String) (ms : List Milestone)
      → member id completed ≡ true
      → member id (unfinished_ids completed ms) ≡ false
  unfolding unfinished_ids
  unfinished_ids_completed completed id [] h = refl
  unfinished_ids_completed completed id (m ∷ ms) h =
      let rest = unfinished_ids_completed completed id ms h in
      elim (Bool-cases (member m.id completed)) [
        | inl kept ↦ rw kept rest
        | inr live ↦ elim (Bool-cases (m.id == id)) [
          | inl same ↦ absurd (
              ground (
                arith,
                live,
                subst (λ x. member x completed ≡ true) (sym ((eq_iff m.id id).0 same)) h,
              ))
          | inr apart ↦ rw live (rw apart rest)
        ]
      ]

  unfinished_ids_live :
      (completed : List String) (id : String) (ms : List Milestone)
      → member id completed ≡ false
      → member id (ids ms) ≡ true
      → member id (unfinished_ids completed ms) ≡ true
  unfolding unfinished_ids
  unfinished_ids_live completed id [] h there = cc
  unfinished_ids_live completed id (m ∷ ms) h there = elim (Bool-cases (m.id == id)) [
    | inl same ↦
        let live : member m.id completed ≡ false =
          subst (λ x. member x completed ≡ false) (sym ((eq_iff m.id id).0 same)) h in
        rw live (rw same refl)
    | inr apart ↦
        let rest = unfinished_ids_live completed id ms h (rw apart at there) in
        elim (Bool-cases (member m.id completed)) [
          | inl kept ↦ rw kept rest
          | inr live ↦ rw live (rw apart rest)
        ]
  ]

  remapped-renamed :
      (completed : List String) (next : ℕ) (hypothesis id : String) (ms : List Milestone)
      → member id (ids ms) ≡ true
      → remapped milestone_id (unfinished_ids completed ms) next hypothesis id
        ≡ renamed completed next hypothesis id
  remapped-renamed completed next hypothesis id ms there = elim (Bool-cases (member id completed)) [
    | inl kept ↦ rw (unfinished_ids_completed completed id ms kept) (rw kept refl)
    | inr live ↦ rw (unfinished_ids_live completed id ms live there) (rw live refl)
  ]

-- Every dependency of a plan's milestones is one of its milestones.
abbrev pub IsClosed : List Milestone → Type 0
IsClosed ms = All (λ m. All (λ d. member d (ids ms) ≡ true) m.dependencies) ms

-- A milestone that counts as completed depends on completed ones only.
abbrev pub IsFinished : List Milestone → Type 0
IsFinished ms =
    All
      (λ m.
        member m.id (completed_ids ms) ≡ true
        → All (λ d. member d (completed_ids ms) ≡ true) m.dependencies)
      ms

module _ (milestone_id : Json → String) (next : ℕ) (hypothesis : String) (completed : List String)
    (all : List Milestone) where
  abbrev nexts : List Milestone → List Milestone
  nexts ms =
      next_milestones milestone_id completed (unfinished_ids completed all) next hypothesis ms

  kept-All :
      (ds : List String)
      → All (λ d. member d (ids all) ≡ true) ds
      → All (λ d. member d completed ≡ true) ds
      → All (λ d. member d (ids (nexts all)) ≡ true) ds
  kept-All [] h done = tt
  kept-All (d ∷ ds) h done =
      let same : renamed milestone_id completed next hypothesis d ≡ d = rw done.0 refl in
      (
        subst (λ x. member x (ids (nexts all)) ≡ true) same
            (member-renamed milestone_id completed (unfinished_ids completed all) next hypothesis d
              all h.0),
        kept-All ds h.1 done.1,
      )

  live-All :
      (ds : List String)
      → All (λ d. member d (ids all) ≡ true) ds
      → All
          (λ d. member d (ids (nexts all)) ≡ true)
          (map (remapped milestone_id (unfinished_ids completed all) next hypothesis) ds)
  live-All [] h = tt
  live-All (d ∷ ds) h = (
    subst (λ x. member x (ids (nexts all)) ≡ true)
        (sym (remapped-renamed milestone_id completed next hypothesis d all h.0))
        (member-renamed milestone_id completed (unfinished_ids completed all) next hypothesis d all
          h.0),
    live-All ds h.1,
  )

  nexts-All :
      (ms : List Milestone)
      → All (λ m. All (λ d. member d (ids all) ≡ true) m.dependencies) ms
      → All
          (λ m. member m.id completed ≡ true → All (λ d. member d completed ≡ true) m.dependencies)
          ms
      → All (λ m. All (λ d. member d (ids (nexts all)) ≡ true) m.dependencies) (nexts ms)
  unfolding next_milestones next_milestone
  nexts-All [] h done = tt
  nexts-All (m ∷ ms) h done = (
    elim (Bool-cases (member m.id completed)) [
      | inl kept ↦ rw kept (kept-All m.dependencies h.0 (done.0 kept))
      | inr live ↦ rw live (live-All m.dependencies h.0)
    ],
    nexts-All ms h.1 done.1,
  )

-- Where every dependency of a plan is one of its milestones and completed milestones depend on
-- completed ones only, every dependency of the replanned plan is one of its milestones.
pub replan-IsClosed :
    (milestone_id : Json → String) (s : ReplanState) (failed_node hypothesis : String) (p : Plan)
    → replan_plan milestone_id s failed_node hypothesis ≡ ok (replanned p)
    → IsClosed s.plan.milestones
    → IsFinished s.plan.milestones
    → IsClosed p.milestones
replan-IsClosed milestone_id s failed_node hypothesis p h closed finished =
    subst (λ (x : Plan). IsClosed x.milestones)
      (replan_plan-eq-replanned milestone_id s failed_node hypothesis p h)
      (nexts-All milestone_id (s.plan.version + 1) hypothesis (completed_ids s.plan.milestones)
        s.plan.milestones s.plan.milestones closed finished)
