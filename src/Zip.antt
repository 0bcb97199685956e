-- ===== src/Zip.antt =====
-- dymaxion-runtime/src/capabilities/deterministic-zip.ts: a ZIP archive of stored entries, the same
-- bytes for the same entries.
pub mod Bytes
pub mod Crc
pub mod Names
pub mod Headers
pub mod Create
pub mod Splice
pub mod Layout
pub mod Assembly
pub mod Prepare
pub mod Locate
pub mod Archive
pub mod Contents
pub mod Paths
pub mod Tests
