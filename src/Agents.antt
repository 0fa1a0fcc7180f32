-- ===== src/Agents.antt =====
-- agents/: language detection, the turn directives, the self-check and the task agent's loop.
pub mod Unicode
pub mod Language
pub mod Directive
pub mod Untrusted
pub mod ToolCall
pub mod SelfCheck
pub mod TaskAgent
