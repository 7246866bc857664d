-- ===== src/Storage.antt =====
-- backend/app/v1/storage.py
pub mod Db
pub mod Events
pub mod Replay
pub mod Follows
pub mod Consistent
pub mod Recovery
pub mod Observations
pub mod Actions
pub mod Receipts
pub mod Commits
pub mod Lifecycle
pub mod CommitEvents
pub mod Leases
pub mod LeaseRows
pub mod Exclusion
pub mod Tests
mod ReceiptTests
pub mod Conflicts
pub mod Saving
