-- ===== src/Lib.antt =====
-- The quest runtime of ProjectTown, modelled from backend/app: the event log with its projections,
-- checkpoints and replay, the receipts of tool calls, the leases, the validation and storing of plans,
-- the creation of quests, user decisions, the model calls with their cost accounts, the tool gateway,
-- the compilation of plans, and the database-independent runtime primitives.
--
-- Base: the shared names, tests on numbers, list lemmas, integers, and exceptions as values
--   (Base.Result: `raise` is `err`, a return is `ok`).
-- Runtime: backend/app/runtime.py. Json are the values, Reducer is `_merge` and `EventReducer`, Budget
--   is `BudgetGuard`, Progress is `ProgressWatchdog` and `CapabilityRouter`, Bus is
--   `SparseMessageBus`; Spent and Stalls hold the theorems of Budget and Progress.
-- Storage: backend/app/v1/storage.py. Db are the rows of the tables and the database; Events is
--   `_append_locked`, `append_event`, `append_events` and `list_events`; Replay is `replay`,
--   `save_checkpoint`, `validate_checkpoint` and `has_checkpoint`; Actions is `prepare_action`,
--   `_transition_action` and the methods on receipts; Observations is
--   `_insert_tool_file_observation_locked`; Leases is the leases and `admit_execution`. The proofs:
--   Follows and Consistent (an invariant on one quest, `IsReplayable`: its projection is what its
--   events give, and its newest checkpoint is on that history), Recovery and Saving (replay and
--   checkpoints under it), Conflicts (concurrent writers), Receipts, Commits, CommitEvents and
--   Lifecycle (the state machine of receipts), LeaseRows and Exclusion (leases).
-- Costs: the cost accounts of backend/app/v1/storage.py. Prices are the profiles and quotes,
--   Accounts the operations, Rows and Bounds the invariant, Reserves the invariant under
--   reservations, Spending the sequences of operations, Quoted the quotes that are accepted.
-- Drafts: the plans and quests of backend/app/v1/storage.py. Plans is `_validate_plan`, Tables
--   `_insert_contract_locked` and `_insert_plan_locked`, Create `create_draft`, `require_quest` and
--   `store_contract_version`, Decisions `store_plan_version`, Apply `apply_decision`. Turns is the end
--   of the loop of `_validate_plan`; Visits and Kept its invariant; Acyclic, Accepted and Accepts
--   what it decides; Completed what a new plan keeps of the completed milestones.
-- History: the writers of Storage and Drafts together. Writes is an abstract account of how they may
--   change quests, events and checkpoints, with the invariant of the whole database; Sound shows
--   that it is kept; Beside, Inserts, Effects and Receipts show that each writer is of that kind;
--   Commands is a run of any of them; Histories and Drafted hold the conclusions.
-- Calls: the model calls of backend/app/v1/storage.py, over Drafts and Costs. Summary is
--   `_model_summary`, Rows the tables and queries, Binding `_model_binding_locked`, Prepare
--   `prepare_model_call` and `mark_model_attempt_dispatched`, Settle `_settle_model_attempt`, Retry
--   `mark_model_attempt_unknown`, `retry_model_call` and `recover_model_calls`. Changes are the ways
--   in which the table of attempts changes, Lawful and Finals what they keep, Steps, Settled and
--   Retried that every operation is one of them, Runs any sequence of operations, Recovered the
--   recovery, Repeats and Marks what is reported or marked twice and Budgets the tokens of a retry.
-- Gateway: backend/app/v1/gateway.py over Storage. Tools is the interface of tools and sandbox, Files
--   is `_pre_effect_hash` and `_write_file_observation`, Dispatch is `_dispatch`, Execute is `execute`
--   and `_reconcile`; Keeps and Finals are about what it writes to the store, Replays is about a key
--   that was used before.
-- Planning: backend/app/v1/orchestration.py. Plan is `_compile_nodes`, Replan is `replan_plan` on a state
--   that holds its plan, with `_id` as a parameter; Order and Closed hold their theorems.
--
-- How the code is modelled. A method in `with self._transaction()` is a function from the tables to
-- a result with new tables; an error rolls back. What runs in one transaction is atomic, as
-- `BEGIN IMMEDIATE` under the lock makes it; `save_checkpoint` reads its row just before, with
-- nothing in between; `store_plan_version` reads the projection before its transaction, from tables
-- that are an argument of their own. The gateway makes several transactions, each kept when a later step raises.
-- A JSON column is the value that was written to it. Objects keep the order of insertion. A float is
-- kept by its text. Rows stand in the order of their insertion. The clock is passed in as a number
-- of ticks and timestamps as strings, so a `ttl` is a natural number and one that is not positive is
-- 0. SHA-256 (`stable_hash`), `json.dumps`, and Python's `str`, `==`, `dict`, `int` and `casefold` where
-- they meet values that the model does not compute with are parameters (`Host`) of which nothing is
-- assumed; tools, sandbox and files are the parameter `Tools` of the gateway. All loops are structural:
-- over the rows, the events, the milestones, the two passes of the file observation. One loop runs
-- on fuel: `while ready` of `_validate_plan` gets as many turns as there are milestones, and
-- Drafts.Turns shows that nothing is ready after them. An integer of Python is an integer of Base
-- where its sign matters, and a natural number elsewhere; SQLite's limit of 64 bits is left out.
--
-- Not modelled: primary keys and foreign keys other than those named at a definition, the SQL
-- triggers, the quest service, retrieval, the verifier, provenance, controlled writes, the material
-- workflow, the HTTP interfaces and the adapters of model providers. Inside `_write_file_observation` one pass of opening and
-- reading the file is a parameter, since it is system calls only.
pub mod Base
pub mod Runtime
pub mod Storage
pub mod Costs
pub mod Drafts
pub mod History
pub mod Calls
pub mod Gateway
pub mod Planning
