-- ===== src/Policy.antt =====
-- core/internal/policy/policy.go: the limit vocabulary, its validation, and how the limits of the
-- instance, of an account and of a provider combine.
pub mod Key
pub mod Atoi
pub mod Limits
pub mod Validation
