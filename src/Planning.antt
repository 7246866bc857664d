-- ===== src/Planning.antt =====
-- backend/app/v1/orchestration.py: compiled plans and their replanning.
pub mod Plan
pub mod Order
pub mod Replan
pub mod Closed
mod Tests
