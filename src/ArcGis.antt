-- ===== src/ArcGis.antt =====
-- dymaxion-runtime/src/capabilities: the reading of ArcGIS services (arcgis-rest.ts).
pub mod Json
pub mod Session
pub mod Rest
pub mod Replies
pub mod Guard
pub mod Counted
pub mod Accounting
pub mod Pages
pub mod PageLaws
pub mod Samples
pub mod Tests
