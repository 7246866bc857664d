-- ===== src/Calls.antt =====
-- The model calls and attempts of backend/app/v1/storage.py.
pub mod Summary
pub mod Rows
pub mod Binding
pub mod Prepare
pub mod Settle
pub mod Retry
mod Changes
mod Lawful
mod Finals
mod Steps
mod Settled
mod Retried
mod Budgets
mod Runs
mod Recovered
mod Repeats
mod Marks
mod Tests
