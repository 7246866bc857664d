-- ===== src/Runtime/Budget.antt =====
-- `ExecutionBudget` and `BudgetGuard` of backend/app/runtime.py. The clock is passed in: `now` is what
-- `self._clock()` returns at the call, in ticks. A kind that is none of the five is `other`.
use project_town.Base.{ℕ, ◌+◌, ◌-◌, Bool, true, false, Option, none, some, ltb, leb, if◌then◌else◌}
use project_town.Base.Result.{Result, ok, err, value_error, runtime_error, unknown_budget_kind}

pub record ExecutionBudget : Type 0 where
  pub max_steps : Option ℕ
  pub max_tool_calls : Option ℕ
  pub max_messages : Option ℕ
  pub max_tokens : Option ℕ
  pub max_replans : Option ℕ
  pub max_seconds : Option ℕ

pub data Kind : Type 0 where
  step tool_call message token replan other : Kind

pub record BudgetGuard : Type 0 where
  pub budget : ExecutionBudget
  pub started_at : ℕ
  pub steps : ℕ
  pub tool_calls : ℕ
  pub messages : ℕ
  pub tokens : ℕ
  pub replans : ℕ

-- The `counters` and `limits` of `check` and `remaining`.
abbrev pub counter : Kind → BudgetGuard → ℕ
counter step g = g.steps
counter tool_call g = g.tool_calls
counter message g = g.messages
counter token g = g.tokens
counter replan g = g.replans
counter other g = 0

abbrev pub limit : Kind → ExecutionBudget → Option ℕ
limit step b = b.max_steps
limit tool_call b = b.max_tool_calls
limit message b = b.max_messages
limit token b = b.max_tokens
limit replan b = b.max_replans
limit other b = none

abbrev pub past : Option ℕ → ℕ → Bool
past none n = false
past (some max) n = ltb max n

-- `self._clock() - self.started_at <= self.budget.max_seconds`, on a clock that does not go back.
abbrev pub in_time : Option ℕ → ℕ → ℕ → Bool
in_time none started now = true
in_time (some max) started now = leb (now - started) max

abbrev pub check_known : Kind → ℕ → ℕ → BudgetGuard → Bool
check_known kind amount now g =
    if past (limit kind g.budget) (counter kind g + amount)
    then false
    else in_time g.budget.max_seconds g.started_at now

-- `check`; the amount is a natural number, so the test of its sign has no branch here.
unfoldable pub check : Kind → ℕ → ℕ → BudgetGuard → Result Bool
check other amount now g = err (value_error unknown_budget_kind)
check kind amount now g = ok (check_known kind amount now g)

abbrev pub add : Kind → ℕ → BudgetGuard → BudgetGuard
add step n g = record g { steps = g.steps + n }
add tool_call n g = record g { tool_calls = g.tool_calls + n }
add message n g = record g { messages = g.messages + n }
add token n g = record g { tokens = g.tokens + n }
add replan n g = record g { replans = g.replans + n }
add other n g = g

abbrev pub consume_checked : Result Bool → Kind → ℕ → BudgetGuard → Result BudgetGuard
consume_checked (ok true) kind amount g = ok (add kind amount g)
consume_checked (ok false) kind amount g = err runtime_error
consume_checked (err e) kind amount g = err e

-- `consume`; `BudgetExceeded` is a `RuntimeError`.
unfoldable pub consume : Kind → ℕ → ℕ → BudgetGuard → Result BudgetGuard
unfolding check
consume kind amount now g = consume_checked (check kind amount now g) kind amount g

abbrev pub left_of : Option ℕ → ℕ → Option ℕ
left_of none n = none
left_of (some max) n = some (max - n)

-- `remaining` of a kind that is counted; `time` is `remaining_time`.
unfoldable pub remaining : Kind → BudgetGuard → Result (Option ℕ)
remaining other g = err (value_error unknown_budget_kind)
remaining kind g = ok (left_of (limit kind g.budget) (counter kind g))

unfoldable pub remaining_time : ℕ → BudgetGuard → Option ℕ
remaining_time now g = left_of g.budget.max_seconds (now - g.started_at)

-- What `BudgetGuard(budget, clock=...)` builds.
abbrev pub new_guard : ExecutionBudget → ℕ → BudgetGuard
new_guard budget now = record {
  budget = budget;
  started_at = now;
  steps = 0;
  tool_calls = 0;
  messages = 0;
  tokens = 0;
  replans = 0;
}
