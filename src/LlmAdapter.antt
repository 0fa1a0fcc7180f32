-- ===== src/LlmAdapter.antt =====
-- llm_adapter/: the provider contract, the fallback router and the HTTP error policy.
pub mod Router
pub mod Http
pub mod Messages
