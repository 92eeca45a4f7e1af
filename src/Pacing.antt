-- ===== src/Pacing.antt =====
-- core/internal/pacing: the budget of an account and the governor of a provider.
pub mod Limiter
pub mod Concurrency
pub mod Governor
pub mod Gate
pub mod Retries
