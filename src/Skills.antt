-- ===== src/Skills.antt =====
-- dymaxion-runtime/src/skills/executor.ts and capabilities/registry.ts: how a plan's step is checked,
-- approved and dispatched; contracts/capability.ts, agent/step-approval.ts, agent/replay-contract.ts
-- and security/execution-identity.ts, which it uses.
pub mod Types
pub mod Identity
pub mod World
pub mod Grants
pub mod Dispatch
pub mod Runner
pub mod Steps
pub mod Gate
pub mod Execution
pub mod Refusal
pub mod Spent
pub mod Tests
