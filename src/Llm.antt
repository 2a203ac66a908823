-- ===== src/Llm.antt =====
-- The access to language models (core/llm).
pub mod Limiter
