-- ===== src/Drafts.antt =====
-- Quest creation of backend/app/v1/storage.py: the validation of a plan and `create_draft`.
pub mod Plans
mod Turns
mod Visits
mod Kept
mod Acyclic
mod Accepted
mod Accepts
pub mod Tables
pub mod Create
pub mod Decisions
pub mod Apply
mod Completed
pub mod Tests
