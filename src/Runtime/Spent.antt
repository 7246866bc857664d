-- ===== src/Runtime/Spent.antt =====
-- What `BudgetGuard` promises: a counter stays within its limit, and `remaining` counts down.
use project_town.Base.{
  ℕ, ◌+◌, ◌-◌, ◌≤◌, ◌≡◌, refl, sym, ap, ◌∙◌, inl, inr, Bool, true, false, Option, none, some,
  some-injective, List, [], ◌∷◌, arith, Bool-cases,
}
use project_town.Base.Result.{Result, ok, err, ok-injective}
use mathlib.Core.Path.{subst}
use project_town.Runtime.Budget.{
  ExecutionBudget, Kind, step, tool_call, message, token, replan, other, BudgetGuard, counter,
  limit, past, left_of, check, check_known, add, consume, consume_checked, remaining, new_guard,
}

-- Every counter that has a limit is within it.
abbrev pub IsWithinBudget : BudgetGuard → Type 0
IsWithinBudget g = (k : Kind) → past (limit k g.budget) (counter k g) ≡ false

add-IsWithinBudget :
    (kind : Kind) (n : ℕ) (g : BudgetGuard)
    → past (limit kind g.budget) (counter kind g + n) ≡ false
    → IsWithinBudget g
    → IsWithinBudget (add kind n g)
add-IsWithinBudget step n g h w = λ k.
    elim k as (λ x. past (limit x (add step n g).budget) (counter x (add step n g)) ≡ false) [
      | step ↦ h
      | kind ↦ w kind
    ]
add-IsWithinBudget tool_call n g h w = λ k.
    elim k
      as (λ x. past (limit x (add tool_call n g).budget) (counter x (add tool_call n g)) ≡ false) [
        | tool_call ↦ h
        | kind ↦ w kind
      ]
add-IsWithinBudget message n g h w = λ k.
    elim k as (λ x. past (limit x (add message n g).budget) (counter x (add message n g)) ≡ false) [
      | message ↦ h
      | kind ↦ w kind
    ]
add-IsWithinBudget token n g h w = λ k.
    elim k as (λ x. past (limit x (add token n g).budget) (counter x (add token n g)) ≡ false) [
      | token ↦ h
      | kind ↦ w kind
    ]
add-IsWithinBudget replan n g h w = λ k.
    elim k as (λ x. past (limit x (add replan n g).budget) (counter x (add replan n g)) ≡ false) [
      | replan ↦ h
      | kind ↦ w kind
    ]
add-IsWithinBudget other n g h w = w

check_known-below :
    (kind : Kind) (n now : ℕ) (g : BudgetGuard)
    → check_known kind n now g ≡ true
    → past (limit kind g.budget) (counter kind g + n) ≡ false
check_known-below kind n now g h =
    elim (Bool-cases (past (limit kind g.budget) (counter kind g + n))) [
      | inl over ↦ absurd (ground (arith, h, over))
      | inr under ↦ under
    ]

-- A consumption succeeds exactly where its check answers yes, and then adds its amount to its counter.
consume-eq-ok :
    (kind : Kind) (n now : ℕ) (g g' : BudgetGuard)
    → consume kind n now g ≡ ok g'
    → (check kind n now g ≡ ok true) × (add kind n g ≡ g')
unfolding consume
consume-eq-ok kind n now g g' h = by-check (check kind n now g) refl h
  where
    by-check :
        (r : Result Bool)
        → check kind n now g ≡ r
        → consume_checked r kind n g ≡ ok g'
        → (check kind n now g ≡ ok true) × (add kind n g ≡ g')
    by-check (ok true) c e = (c, ok-injective _ g' e)
    by-check (ok false) c e = cc
    by-check (err x) c e = cc

check-below :
    (kind : Kind) (n now : ℕ) (g : BudgetGuard)
    → check kind n now g ≡ ok true
    → past (limit kind g.budget) (counter kind g + n) ≡ false
unfolding check
check-below step n now g h = check_known-below step n now g (ok-injective _ true h)
check-below tool_call n now g h = check_known-below tool_call n now g (ok-injective _ true h)
check-below message n now g h = check_known-below message n now g (ok-injective _ true h)
check-below token n now g h = check_known-below token n now g (ok-injective _ true h)
check-below replan n now g h = check_known-below replan n now g (ok-injective _ true h)
check-below other n now g h = refl

consume-IsWithinBudget :
    (kind : Kind) (n now : ℕ) (g g' : BudgetGuard)
    → consume kind n now g ≡ ok g'
    → IsWithinBudget g
    → IsWithinBudget g'
consume-IsWithinBudget kind n now g g' h w =
    let (checked, added) = consume-eq-ok kind n now g g' h in
    subst IsWithinBudget added (add-IsWithinBudget kind n g (check-below kind n now g checked) w)

add-budget : (kind : Kind) (n : ℕ) (g : BudgetGuard) → (add kind n g).budget ≡ g.budget
add-budget step n g = refl
add-budget tool_call n g = refl
add-budget message n g = refl
add-budget token n g = refl
add-budget replan n g = refl
add-budget other n g = refl

-- A call of `consume`: its kind, its amount and the clock; one that raises leaves the guard.
abbrev kept : BudgetGuard → Result BudgetGuard → BudgetGuard
kept g (ok g') = g'
kept g (err e) = g

unfoldable pub consume_all : List (Kind × ℕ × ℕ) → BudgetGuard → BudgetGuard
consume_all [] g = g
consume_all ((kind, n, now) ∷ calls) g = consume_all calls (kept g (consume kind n now g))

consume_all-IsWithinBudget :
    (calls : List (Kind × ℕ × ℕ)) (g : BudgetGuard)
    → IsWithinBudget g
    → IsWithinBudget (consume_all calls g) × ((consume_all calls g).budget ≡ g.budget)
unfolding consume_all
consume_all-IsWithinBudget [] g w = (w, refl)
consume_all-IsWithinBudget ((kind, n, now) ∷ calls) g w =
    by-result (consume kind n now g) refl (λ g' within. consume_all-IsWithinBudget calls g' within)
  where
    by-result :
        (r : Result BudgetGuard)
        → consume kind n now g ≡ r
        → ((x : BudgetGuard)
            → IsWithinBudget x
            → IsWithinBudget (consume_all calls x) × ((consume_all calls x).budget ≡ x.budget))
        → IsWithinBudget (consume_all calls (kept g r))
          × ((consume_all calls (kept g r)).budget ≡ g.budget)
    by-result (ok g') e rest =
        let (within, same) = rest g' (consume-IsWithinBudget kind n now g g' e w) in
        (
          within,
          same
              ∙ (sym (ap (λ (x : BudgetGuard). x.budget) (consume-eq-ok kind n now g g' e).1)
                  ∙ add-budget kind n g),
        )
    by-result (err x) e rest = rest g w

past-zero : (o : Option ℕ) → past o 0 ≡ false
past-zero none = refl
past-zero (some max) = ground arith

new_guard-IsWithinBudget : (b : ExecutionBudget) (now : ℕ) → IsWithinBudget (new_guard b now)
new_guard-IsWithinBudget b now step = past-zero b.max_steps
new_guard-IsWithinBudget b now tool_call = past-zero b.max_tool_calls
new_guard-IsWithinBudget b now message = past-zero b.max_messages
new_guard-IsWithinBudget b now token = past-zero b.max_tokens
new_guard-IsWithinBudget b now replan = past-zero b.max_replans
new_guard-IsWithinBudget b now other = refl

-- A guard whose calls of `consume` may be refused never has a counter past its limit.
pub counters_bounded :
    (b : ExecutionBudget) (start : ℕ) (calls : List (Kind × ℕ × ℕ)) (kind : Kind) (max : ℕ)
    → limit kind b ≡ some max
    → counter kind (consume_all calls (new_guard b start)) ≤ max
counters_bounded b start calls kind max h =
    let (within, same) =
      consume_all-IsWithinBudget calls (new_guard b start) (new_guard-IsWithinBudget b start) in
    let top : limit kind (consume_all calls (new_guard b start)).budget ≡ some max =
      ap (limit kind) same ∙ h in
    ground (arith, rw top at (within kind))

left_of-add :
    (o : Option ℕ) (c n r : ℕ)
    → past o (c + n) ≡ false
    → left_of o c ≡ some r
    → (n ≤ r) × (left_of o (c + n) ≡ some (r - n))
left_of-add none c n r h e = cc
left_of-add (some max) c n r h e =
    let here : max - c ≡ r = some-injective (max - c) r e in
    let after : max - (c + n) ≡ r - n = ground (arith, here, h) in
    (ground (arith, here, h), ap some after)

left_of-consume :
    (kind : Kind) (n now r : ℕ) (g : BudgetGuard)
    → check kind n now g ≡ ok true
    → ok (left_of (limit kind g.budget) (counter kind g)) ≡ ok (some r)
    → (n ≤ r) × (ok (left_of (limit kind g.budget) (counter kind g + n)) ≡ ok (some (r - n)))
left_of-consume kind n now r g checked e =
    let (le, after) =
      left_of-add (limit kind g.budget) (counter kind g) n r (check-below kind n now g checked)
        (ok-injective _ (some r) e) in
    (le, ap ok after)

-- A consumption that succeeds was within what `remaining` gave before it, and takes its amount off
-- what `remaining` gives after it.
pub remaining-consume :
    (kind : Kind) (n now r : ℕ) (g g' : BudgetGuard)
    → consume kind n now g ≡ ok g'
    → remaining kind g ≡ ok (some r)
    → (n ≤ r) × (remaining kind g' ≡ ok (some (r - n)))
unfolding remaining
remaining-consume kind n now r g g' h e =
    let (checked, added) = consume-eq-ok kind n now g g' h in
    subst (λ x. (n ≤ r) × (remaining kind x ≡ ok (some (r - n)))) added (by-kind kind checked e)
  where
    by-kind :
        (k : Kind)
        → check k n now g ≡ ok true
        → remaining k g ≡ ok (some r)
        → (n ≤ r) × (remaining k (add k n g) ≡ ok (some (r - n)))
    by-kind step c e = left_of-consume step n now r g c e
    by-kind tool_call c e = left_of-consume tool_call n now r g c e
    by-kind message c e = left_of-consume message n now r g c e
    by-kind token c e = left_of-consume token n now r g c e
    by-kind replan c e = left_of-consume replan n now r g c e
    by-kind other c e = cc
