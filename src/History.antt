-- ===== src/History.antt =====
-- The writers of backend/app/v1/storage.py together: what every database that they reach keeps.
pub mod Writes
mod Sound
mod Beside
pub mod Commands
mod Inserts
mod Effects
mod Receipts
mod Drafted
mod Histories
pub mod Tests
