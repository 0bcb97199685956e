-- ===== src/Trace.antt =====
-- dymaxion-runtime/src/capabilities/trace-arcgis-dependencies.ts: the graph of what items refer to.
pub mod Types
pub mod Parse
pub mod Items
pub mod Graph
pub mod Expand
pub mod Walk
pub mod Bounded
pub mod Nodes
pub mod Connected
pub mod Expanded
pub mod Steps
pub mod Visit
pub mod Sound
pub mod Impact
pub mod Reach
pub mod Neighbours
pub mod Reachable
pub mod Tests
