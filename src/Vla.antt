-- ===== src/Vla.antt =====
-- The bounded controller of the language-driven tasks (src/actionstream/llm_vla).
pub mod Text
pub mod Contracts
pub mod Coverage
pub mod Execution
pub mod Grounding
pub mod Metrics
pub mod Control
pub mod Confirmation
