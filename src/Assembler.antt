-- ===== src/Assembler.antt =====
-- internal/assembler: what goes into the request that starts a workload. Modelled are the allocated
-- resources and the LLM mode.
pub mod Resources
pub mod LlmMode
