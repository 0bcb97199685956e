-- ===== src/Approval.antt =====
-- dymaxion-runtime/src/security/approval.ts: approval binding and one-time atomic consumption.
pub mod Types
pub mod Interface
pub mod Memory
pub mod Postgres
pub mod Trace
pub mod Target
pub mod Receipts
pub mod Requests
pub mod Agreement
mod Samples
mod Tests
mod Scenarios
pub mod Review
pub mod Channel
