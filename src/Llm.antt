-- ===== src/Llm.antt =====
-- dymaxion-runtime/src/llm: the calls of language models, what they may cost and what they did.
pub mod Config
pub mod Cost
pub mod World
pub mod Budget
pub mod Providers
pub mod Middleware
pub mod Ledger
pub mod Charges
pub mod Rounding
pub mod Tests
