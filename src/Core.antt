-- ===== src/Core.antt =====
-- The engine's core, src/core.
pub mod CircuitBreaker
pub mod Deduplicator
pub mod RequestQueue
pub mod ObjectPool
pub mod PromptCache
