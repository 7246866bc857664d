-- ===== src/Gateway.antt =====
-- backend/app/v1/gateway.py: tool calls whose receipts the store keeps.
pub mod Tools
pub mod Files
pub mod Dispatch
pub mod Execute
pub mod Keeps
pub mod Finals
pub mod Replays
mod Tests
