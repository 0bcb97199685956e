-- ===== src/Boundary.antt =====
-- dymaxion-runtime/src/security/boundary.ts: which hosts and paths a call may reach.
pub mod Glob
pub mod Url
pub mod Paths
pub mod Payload
pub mod Contained
pub mod Allowed
pub mod Lawful
pub mod Ranges
pub mod Tests
