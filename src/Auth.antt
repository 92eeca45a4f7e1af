-- ===== src/Auth.antt =====
-- The sessions of core/internal/auth: bearer tokens, and the keys that live as long as they do.
pub mod Sessions
pub mod Validity
pub mod Lifetime
