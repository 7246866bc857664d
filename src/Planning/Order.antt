-- ===== src/Planning/Order.antt =====
-- The nodes of a compiled plan stand in an order that its dependencies allow.
use project_town.Base.{
  ℕ, ◌+◌, String, ◌≡◌, inl, inr, true, not, ◌&&◌, List, [], ◌∷◌, All, All-append, All-map, nat_eq,
  arith, ◌==◌, eq_refl, Bool-cases,
}
use project_town.Runtime.Json.{Json}
use text.Mathlib.Text.{starts_with}
use project_town.Planning.Plan.{
  PlanStep, Milestone, member, written_by, Compiler, new_compiler, only, checked_or,
  dependencies_of, after_node, path_of, id_of, compile_from, compile_nodes,
}

-- Every dependency is the identifier of an earlier node.
abbrev pub IsOrdered : List String → List Milestone → Type 0
IsOrdered seen [] = Unit
IsOrdered seen (node ∷ nodes) =
    All (λ d. member d seen ≡ true) node.dependencies × IsOrdered (node.id ∷ seen) nodes

-- Everything the loop may depend on is an earlier node.
record IsKnown (seen : List String) (c : Compiler) : Type 0 where
  known_roots : All (λ d. member d seen ≡ true) c.roots
  known_writes : All (λ (w : String × String). member w.1 seen ≡ true) c.writes
  known_previous : All (λ d. member d seen ≡ true) (only c.previous)

All-written_by :
    (seen : List String) (path : String) (c : Compiler)
    → All (λ (w : String × String). member w.1 seen ≡ true) c.writes
    → All (λ d. member d seen ≡ true) (only c.previous)
    → All (λ d. member d seen ≡ true) (checked_or (written_by path c.writes) c.previous)
unfolding written_by
All-written_by seen path c known previous = go c.writes known
  where
    go :
        (writes : List (String × String))
        → All (λ (w : String × String). member w.1 seen ≡ true) writes
        → All (λ d. member d seen ≡ true) (checked_or (written_by path writes) c.previous)
    go [] h = previous
    go ((p, id) ∷ writes) h = elim (Bool-cases (p == path)) [
      | inl same ↦ rw same (h.0, tt)
      | inr apart ↦ rw apart (go writes h.1)
    ]

dependencies_of-All :
    (seen : List String) (position : ℕ) (tool path : String) (c : Compiler)
    → IsKnown seen c
    → All (λ d. member d seen ≡ true) (dependencies_of position tool path c)
unfolding dependencies_of
dependencies_of-All seen position tool path c k = elim (Bool-cases (nat_eq position 1)) [
  | inl first ↦ rw first tt
  | inr later ↦ rw later (elim (Bool-cases (tool == "write_file")) [
    | inl writes ↦ rw writes k.known_roots
    | inr other ↦ rw other (elim (Bool-cases (starts_with tool "check_")) [
      | inl checks ↦ rw checks (All-written_by seen path c k.known_writes k.known_previous)
      | inr plain ↦ rw plain k.known_previous
    ])
  ])
]

weaken :
    (id : String) (seen : List String) (d : String)
    → member d seen ≡ true
    → member d (id ∷ seen) ≡ true
weaken id seen d h = ground (arith, h)

after_node-IsKnown :
    (seen : List String) (position : ℕ) (id tool path : String) (c : Compiler)
    → IsKnown seen c
    → IsKnown (id ∷ seen) (after_node position id tool path c)
after_node-IsKnown seen position id tool path c k =
    let self : member id (id ∷ seen) ≡ true = ground (arith, eq_refl id) in
    let roots =
      All-map (λ d. member d seen ≡ true) (λ d. member d (id ∷ seen) ≡ true) c.roots
        (weaken id seen) k.known_roots in
    let writes =
      All-map (λ (w : String × String). member w.1 seen ≡ true)
        (λ (w : String × String). member w.1 (id ∷ seen) ≡ true) c.writes (λ w. weaken id seen w.1)
        k.known_writes in
    record {
      known_roots = elim (Bool-cases (nat_eq position 1)) [
        | inl first ↦
            rw first
              (All-append (λ d. member d (id ∷ seen) ≡ true) c.roots (id ∷ []) roots (self, tt))
        | inr later ↦ rw later roots
      ];
      known_writes = elim (Bool-cases ((tool == "write_file") && not (path == ""))) [
        | inl kept ↦ rw kept (self, writes)
        | inr plain ↦ rw plain writes
      ];
      known_previous = (self, tt);
    }

compile_from-IsOrdered :
    (milestone_id to_str : Json → String) (position : ℕ) (seen : List String) (c : Compiler)
    (steps : List PlanStep)
    → IsKnown seen c
    → IsOrdered seen (compile_from milestone_id to_str position c steps)
unfolding compile_from
compile_from-IsOrdered milestone_id to_str position seen c [] k = tt
compile_from-IsOrdered milestone_id to_str position seen c (step ∷ steps) k = (
  dependencies_of-All seen position step.step_tool (path_of milestone_id to_str step) c k,
  compile_from-IsOrdered milestone_id to_str (position + 1)
      (id_of milestone_id to_str position step ∷ seen)
      (after_node position (id_of milestone_id to_str position step) step.step_tool
        (path_of milestone_id to_str step) c)
      steps
      (after_node-IsKnown seen position (id_of milestone_id to_str position step) step.step_tool
        (path_of milestone_id to_str step) c k),
)

-- Every dependency of a node of a compiled plan is the identifier of a node before it.
pub compile_nodes-IsOrdered :
    (milestone_id to_str : Json → String) (steps : List PlanStep)
    → IsOrdered [] (compile_nodes milestone_id to_str steps)
unfolding compile_nodes
compile_nodes-IsOrdered milestone_id to_str steps =
    compile_from-IsOrdered milestone_id to_str 1 [] new_compiler steps
      (record { known_roots = tt; known_writes = tt; known_previous = tt })
