-- ===== src/Llm.antt =====
-- crates/llm and crates/llm-agent: messages, and the agent that talks to a model with tools.
pub mod Types
pub mod Agent
pub mod Base64
pub mod Config
pub mod Anthropic
pub mod Bridge
mod Tests
