-- ===== src/Costs.antt =====
-- The cost accounts of model calls in backend/app/v1/storage.py: fixed price profiles, reservations
-- that are held before a call and settled, released or left unknown after it.
pub mod Prices
pub mod Accounts
pub mod Rows
pub mod Bounds
pub mod Reserves
pub mod Spending
mod Quoted
mod Tests
