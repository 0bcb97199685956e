-- ===== src/Query.antt =====
-- dymaxion-runtime/src/capabilities/query-feature-service.ts: a query of a feature layer.
pub mod Metadata
pub mod Ids
pub mod Page
pub mod Collect
pub mod Counting
pub mod PageLaws
pub mod Kept
pub mod Rounds
pub mod Ascending
pub mod Exact
pub mod Report
pub mod Tests
