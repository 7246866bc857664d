-- ===== src/Runtime.antt =====
-- backend/app/runtime.py
pub mod Json
pub mod Reducer
pub mod Budget
pub mod Spent
pub mod Progress
pub mod Stalls
pub mod Bus
mod Tests
