-- ===== src/Agent.antt =====
-- dymaxion-runtime/src/agent/executor.ts: a run of the agent, from the message to the delivery.
pub mod Types
pub mod Steps
pub mod Run
pub mod Ending
pub mod Outcome
pub mod Replay
pub mod ReplayOpen
pub mod ReplayLaws
pub mod Tests
